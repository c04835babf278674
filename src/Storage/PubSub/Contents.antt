-- ===== src/Storage/PubSub/Contents.antt =====
-- internal/storage/pubsub.go: `Insert` and `Remove` on the trie, in any order.
use go_redis.Prelude.{
  ℕ, ◌≡◌, inl, inr, refl, ap, sym, ◌∙◌, List, [], ◌∷◌, ◌++◌, none, some, true, false, ◌||◌,
  if◌then◌else◌, arith, Bool-cases, Option-cases, append_assoc, append-nil,
}
use go_redis.Prelude.Eq.{Text, text_eq, nat_eq, ◌==◌, beq_refl, text_beq_iff}
use go_redis.Prelude.Maps.{lookup, insert, member, lookup-insert, member-insert}
use go_redis.Storage.PubSub.Trie.{Trie, literal_prefix, patterns_at, or_empty, grow}
use go_redis.Storage.PubSub.Candidates.{count, Indexes}

front : Text → Text
front [] = []
front (c ∷ []) = []
front (c ∷ d ∷ cs) = c ∷ front (d ∷ cs)

front-snoc : (s : Text) (c : ℕ) → front (s ++ c ∷ []) ≡ s
unfolding front
front-snoc [] c = refl
front-snoc (d ∷ []) c = refl
front-snoc (d ∷ e ∷ s) c = ap (◌∷◌ d) (front-snoc (e ∷ s) c)

-- Texts with one more character are equal only if the texts are.
snoc-same : (s t : Text) (c d : ℕ) → (s ++ c ∷ []) == (t ++ d ∷ []) ≡ true → s ≡ t
snoc-same s t c d h =
    sym (front-snoc s c)
    ∙ ap front ((text_beq_iff (s ++ c ∷ []) (t ++ d ∷ [])).0 h)
    ∙ front-snoc t d

lookup-missing : (path : Text) (t : Trie) → member path t ≡ false → lookup path t ≡ none
unfolding member
lookup-missing path t m = elim (Option-cases (lookup path t)) [
  | inl y ↦ y
  | inr (a, y) ↦ absurd (ground (arith, m, y))
]

-- A node without patterns where there was none.
patterns_at-new :
    (child path : Text) (t : Trie)
    → member child t ≡ false
    → patterns_at path (insert child [] t) ≡ patterns_at path t
patterns_at-new child path t m = elim (Bool-cases (child == path)) [
  | inl y ↦
      let e = (text_beq_iff child path).0 y in
      let o : lookup path t ≡ none = rw e at (lookup-missing child t m) in
      let f : (if child == path then some [] else lookup path t) ≡ some [] = rw y refl in
      ap or_empty (lookup-insert child path [] t ∙ f) ∙ ap or_empty (sym o)
  | inr y ↦
      let f : (if child == path then some [] else lookup path t) ≡ lookup path t = rw y refl in
      ap or_empty (lookup-insert child path [] t ∙ f)
]

Indexes-new :
    (t : Trie) (ps : List Text) (node : Text) (c : ℕ)
    → Indexes t ps
    → member node t ≡ true
    → member (node ++ c ∷ []) t ≡ false
    → Indexes (insert (node ++ c ∷ []) [] t) ps
Indexes-new t ps node c h m n = record {
  counted = λ path p. ap (count p) (patterns_at-new (node ++ c ∷ []) path t n) ∙ h.counted path p;
  root = member-insert (node ++ c ∷ []) [] [] t ∙ ground (arith, h.root);
  closed = λ path d k.
      let child = node ++ c ∷ [] in
      let i : (child == path ++ d ∷ [] || member (path ++ d ∷ []) t) ≡ true =
        sym (member-insert child (path ++ d ∷ []) [] t) ∙ k in
      let j : member path t ≡ true = elim (Bool-cases (child == path ++ d ∷ [])) [
        | inl y ↦ let e = snoc-same node path c d y in rw e at m
        | inr y ↦ h.closed path d (ground (arith, i, y))
      ] in
      member-insert child path [] t ∙ ground (arith, j);
}

pub grow-Indexes :
    (cs node : Text) (t : Trie) (ps : List Text)
    → Indexes t ps
    → member node t ≡ true
    → Indexes (grow node cs t) ps × (member (node ++ cs) (grow node cs t) ≡ true)
unfolding grow
grow-Indexes [] node t ps h m = (h, rw append-nil m)
grow-Indexes (c ∷ cs) node t ps h m =
    let child = node ++ c ∷ [] in
    let a = append_assoc node (c ∷ []) cs in
    elim (Bool-cases (member child t)) [
      | inl y ↦ let k = grow-Indexes cs child t ps h y in rw y (k.0, rw a at k.1)
      | inr n ↦
          let i : member child (insert child [] t) ≡ true =
            member-insert child child [] t ∙ ground (arith, beq_refl child) in
          let k = grow-Indexes cs child (insert child [] t) ps (Indexes-new t ps node c h m n) i in
          rw n (k.0, rw a at k.1)
    ]

-- An assignment to the patterns of a node.
pub set-Indexes :
    (t : Trie) (ps qs ys : List Text) (node : Text)
    → Indexes t ps
    → member node t ≡ true
    → ((p : Text) → count p ys ≡ (if literal_prefix p == node then count p qs else 0))
    → ((p : Text) → (literal_prefix p == node) ≡ false → count p qs ≡ count p ps)
    → Indexes (insert node ys t) qs
set-Indexes t ps qs ys node h m f g = record {
  counted = λ path p. elim (Bool-cases (node == path)) [
    | inl y ↦
        let e = (text_beq_iff node path).0 y in
        let i : (if node == path then some ys else lookup path t) ≡ some ys = rw y refl in
        ap (λ o. count p (or_empty o)) (lookup-insert node path ys t ∙ i) ∙ (rw e at (f p))
    | inr y ↦
        let i : (if node == path then some ys else lookup path t) ≡ lookup path t = rw y refl in
        ap (λ o. count p (or_empty o)) (lookup-insert node path ys t ∙ i)
        ∙ h.counted path p
        ∙ elim (Bool-cases (literal_prefix p == path)) [
          | inl w ↦
              let e = (text_beq_iff (literal_prefix p) path).0 w in
              let z : (literal_prefix p == node) ≡ false = ground (
                arith,
                y,
                w,
                text_eq.same_iff node path,
                text_eq.same_iff (literal_prefix p) path,
                text_eq.same_iff (literal_prefix p) node,
              ) in
              rw w (sym (g p z))
          | inr w ↦ rw w refl
        ]
  ];
  root = member-insert node [] ys t ∙ ground (arith, h.root);
  closed = λ path d k.
      let j : member (path ++ d ∷ []) t ≡ true = elim (Bool-cases (node == path ++ d ∷ [])) [
        | inl y ↦ let e = (text_beq_iff node (path ++ d ∷ [])).0 y in rw e at m
        | inr y ↦ ground (arith, sym (member-insert node (path ++ d ∷ []) ys t) ∙ k, y)
      ] in
      member-insert node path ys t ∙ ground (arith, h.closed path d j);
}
