-- ===== src/Storage/PubSub/Candidates.antt =====
-- internal/storage/pubsub.go: which patterns the trie gives as candidates for a channel.
use go_redis.Prelude.{
  ℕ, suc, ◌+◌, ◌-◌, ◌<◌, ◌≡◌, Option-cases, inl, inr, refl, ap, sym, ◌∙◌, List, [], ◌∷◌, ◌++◌, none,
  Bool, true, false, ◌||◌, ◌&&◌, if◌then◌else◌, length, arith, Bool-cases, length-append,
}
use go_redis.Prelude.Eq.{Text, text_eq, nat_eq, ◌==◌, beq_refl, text_beq_iff}
use go_redis.Prelude.Maps.{lookup, member}
use go_redis.Storage.PubSub.Trie.{Trie, literal_prefix, patterns_at, remove_first, collect}

-- how often a text is in a list
unfoldable pub count : Text → List Text → ℕ
count p [] = 0
count p (q ∷ qs) = if q == p then suc (count p qs) else count p qs

unfoldable pub starts_with : Text → Text → Bool
starts_with [] text = true
starts_with (c ∷ cs) [] = false
starts_with (c ∷ cs) (d ∷ ds) = c == d && starts_with cs ds

pub count-append : (p : Text) (xs ys : List Text) → count p (xs ++ ys) ≡ count p xs + count p ys
unfolding count
count-append p [] ys = omega arith
count-append p (x ∷ xs) ys = ground (arith, count-append p xs ys)

pub count-remove_first :
    (p q : Text) (xs : List Text)
    → count p (remove_first q xs) ≡ (if q == p then count p xs - 1 else count p xs)
unfolding count remove_first
count-remove_first p q [] = ground arith
count-remove_first p q (x ∷ xs) = ground (
  arith,
  count-remove_first p q xs,
  text_eq.same_iff x q,
  text_eq.same_iff x p,
  text_eq.same_iff q p,
)

-- The trie holds each pattern at its node as often as the list has it, and a node's parent is there.
pub record Indexes (t : Trie) (ps : List Text) : Type 0 where
  pub counted :
      (path p : Text)
      → count p (patterns_at path t) ≡ (if literal_prefix p == path then count p ps else 0)
  pub root : member [] t ≡ true
  pub closed : (path : Text) (c : ℕ) → member (path ++ c ∷ []) t ≡ true → member path t ≡ true

-- every text between `node` and its extension by `rest`, without `node`
abbrev pub on_way : Text → Text → Text → Bool
on_way path node [] = false
on_way path node (c ∷ cs) = path == node ++ c ∷ [] || on_way path (node ++ c ∷ []) cs

missing_below :
    (t : Trie) (ps : List Text) (path node rest : Text)
    → Indexes t ps
    → member node t ≡ false
    → on_way path node rest ≡ true
    → member path t ≡ false
missing_below t ps path node [] h m w = absurd (ground (arith, w))
missing_below t ps path node (c ∷ cs) h m w =
    let n : member (node ++ c ∷ []) t ≡ false = elim (Bool-cases (member (node ++ c ∷ []) t)) [
      | inl y ↦ absurd (ground (arith, h.closed node c y, m))
      | inr y ↦ y
    ] in
    elim (Bool-cases (path == node ++ c ∷ [])) [
      | inl y ↦ let e = (text_beq_iff path (node ++ c ∷ [])).0 y in rw e n
      | inr y ↦ missing_below t ps path (node ++ c ∷ []) cs h n (ground (arith, w, y))
    ]

-- A path on the way is longer than the node where it starts.
pub on_way-length :
    (path node rest : Text) → on_way path node rest ≡ true → length node < length path
on_way-length path node [] w = absurd (ground (arith, w))
on_way-length path node (c ∷ cs) w =
    let n : length (node ++ c ∷ []) ≡ length node + 1 = length-append node (c ∷ []) in
    elim (Bool-cases (path == node ++ c ∷ [])) [
      | inl y ↦
          let e : length path ≡ length (node ++ c ∷ []) =
            ap length ((text_beq_iff path (node ++ c ∷ [])).0 y) in
          omega arith
      | inr y ↦ let k = on_way-length path (node ++ c ∷ []) cs (ground (arith, w, y)) in omega arith
    ]

pub longer-differs : (path node : Text) → length node < length path → (path == node) ≡ false
longer-differs path node lt = elim (Bool-cases (path == node)) [
  | inl y ↦ let e = ap length ((text_beq_iff path node).0 y) in absurd (omega arith)
  | inr y ↦ y
]

pub missing-count :
    (t : Trie) (ps : List Text) (p : Text)
    → Indexes t ps
    → member (literal_prefix p) t ≡ false
    → count p ps ≡ 0
unfolding member count
missing-count t ps p h m =
    let o : lookup (literal_prefix p) t ≡ none = elim (Option-cases (lookup (literal_prefix p) t)) [
      | inl y ↦ y
      | inr (a, y) ↦ absurd (ground (arith, m, y))
    ] in
    let k = h.counted (literal_prefix p) p in
    let z : count p (patterns_at (literal_prefix p) t) ≡ 0 = rw o refl in
    let w : (literal_prefix p == literal_prefix p) ≡ true = beq_refl (literal_prefix p) in
    let v : (if literal_prefix p == literal_prefix p then count p ps else 0) ≡ count p ps =
      rw w refl in
    sym v ∙ sym k ∙ z

pub count-collect :
    (t : Trie) (ps : List Text) (p node rest : Text)
    → Indexes t ps
    → count p (collect node rest t)
      ≡ (if on_way (literal_prefix p) node rest then count p ps else 0)
unfolding collect count
count-collect t ps p node [] h = refl
count-collect t ps p node (c ∷ cs) h =
    let child = node ++ c ∷ [] in
    let path = literal_prefix p in
    elim (Bool-cases (member child t)) [
      | inl y ↦
          let a = count-append p (patterns_at child t) (collect child cs t) in
          let k = count-collect t ps p child cs h in
          let m = h.counted child p in
          rw y (elim (Bool-cases (on_way path child cs)) [
            | inl w ↦
                let d = longer-differs path child (on_way-length path child cs w) in
                rw (d, w) (a ∙ ground (arith, k, m, d, w))
            | inr w ↦ rw w (a ∙ ground (arith, k, m, w))
          ])
      | inr n ↦ rw n (elim (Bool-cases (path == child || on_way path child cs)) [
        | inr w ↦ rw w refl
        | inl w ↦
            let z : member path t ≡ false = elim (Bool-cases (path == child)) [
              | inl y ↦ let e = (text_beq_iff path child).0 y in rw e n
              | inr y ↦ missing_below t ps path child cs h n (ground (arith, w, y))
            ] in
            rw w (sym (missing-count t ps p h z))
      ])
    ]

pub starts_with-append : (s u v : Text) → starts_with (s ++ u) (s ++ v) ≡ starts_with u v
unfolding starts_with
starts_with-append [] u v = refl
starts_with-append (c ∷ s) u v =
    let e : (c == c) ≡ true = beq_refl c in rw e (starts_with-append s u v)

starts_with-shorter : (s u v : Text) → starts_with (s ++ u) v ≡ true → starts_with s v ≡ true
unfolding starts_with
starts_with-shorter [] u v h = refl
starts_with-shorter (c ∷ s) u [] h = h
starts_with-shorter (c ∷ s) u (d ∷ v) h = ground (arith, starts_with-shorter s u v)

pub starts_with_self : (s : Text) → starts_with s s ≡ true
unfolding starts_with
starts_with_self [] = refl
starts_with_self (c ∷ s) = let e : (c == c) ≡ true = beq_refl c in rw e (starts_with_self s)

pub on_way-starts_with :
    (path node rest : Text) → on_way path node rest ≡ true → starts_with node path ≡ true
on_way-starts_with path node [] w = absurd (ground (arith, w))
on_way-starts_with path node (c ∷ cs) w = elim (Bool-cases (path == node ++ c ∷ [])) [
  | inl y ↦
      let e = (text_beq_iff path (node ++ c ∷ [])).0 y in
      starts_with-shorter node (c ∷ []) path (rw e (starts_with_self (node ++ c ∷ [])))
  | inr y ↦
      starts_with-shorter node (c ∷ []) path
        (on_way-starts_with path (node ++ c ∷ []) cs (ground (arith, w, y)))
]
