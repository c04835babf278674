-- ===== src/Storage/PubSub/Lookup.antt =====
-- internal/storage/pubsub.go: `Insert`, `Remove` and `GetMatchingPatterns` of the trie, in any order.
use go_redis.Prelude.{
  ℕ, suc, ◌≡◌, inl, inr, refl, ap, sym, ◌∙◌, List, [], ◌∷◌, ◌++◌, true, false, if◌then◌else◌, arith,
  Bool-cases, append_assoc, append-nil,
}
use go_redis.Prelude.Eq.{Text, text_eq, nat_eq, ◌==◌, beq_refl, text_beq_iff, text_beq}
use go_redis.Prelude.Maps.{lookup, insert, member}
use go_redis.Storage.PubSub.Trie.{
  Trie, new_trie, literal_prefix, patterns_at, grow, insert_pattern, reaches, remove_first,
  remove_pattern, get_matching_patterns,
}
use go_redis.Storage.PubSub.Candidates.{
  count, starts_with, count-append, count-remove_first, Indexes, missing-count,
}
use go_redis.Storage.PubSub.Patterns.{count-get_matching_patterns}
use go_redis.Storage.PubSub.Contents.{set-Indexes, grow-Indexes}

count-cons :
    (p q : Text) (qs : List Text)
    → count p (q ∷ qs) ≡ (if q == p then suc (count p qs) else count p qs)
unfolding count
count-cons p q qs = refl

count-snoc : (p q : Text) (qs : List Text) → count p (qs ++ q ∷ []) ≡ count p (q ∷ qs)
unfolding count
count-snoc p q qs = ground (arith, count-append p qs (q ∷ []))

insert-Indexes :
    (t : Trie) (ps : List Text) (q : Text) → Indexes t ps → Indexes (insert_pattern q t) (q ∷ ps)
unfolding insert_pattern
insert-Indexes t ps q h =
    let path = literal_prefix q in
    let g = grow [] path t in
    let k = grow-Indexes path [] t ps h h.root in
    set-Indexes g ps (q ∷ ps) (patterns_at path g ++ q ∷ []) path k.0 k.1
      (λ p.
        count-snoc p q (patterns_at path g)
        ∙ count-cons p q (patterns_at path g)
        ∙ elim (Bool-cases (q == p)) [
          | inl y ↦
              let e = (text_beq_iff q p).0 y in
              let z : (literal_prefix p == path) ≡ true = rw e (beq_refl (literal_prefix p)) in
              rw (y, z)
                (ap suc (
                    k.0.counted path p
                    ∙ (let f : (if literal_prefix p == path then count p ps else 0) ≡ count p ps =
                          rw z refl in
                        f))
                  ∙ ground (arith, y, count-cons p q ps))
          | inr y ↦ rw y (
              k.0.counted path p ∙ elim (Bool-cases (literal_prefix p == path)) [
                | inl z ↦ rw z (ground (arith, y, count-cons p q ps))
                | inr z ↦ rw z refl
              ])
        ])
      (λ p d. elim (Bool-cases (q == p)) [
        | inl y ↦
            let e = (text_beq_iff q p).0 y in
            let z : (literal_prefix p == path) ≡ true = rw e (beq_refl (literal_prefix p)) in
            absurd (ground (arith, d, z))
        | inr y ↦ ground (arith, y, count-cons p q ps)
      ])

reaches-member :
    (cs node : Text) (t : Trie)
    → member node t ≡ true
    → reaches node cs t ≡ true
    → member (node ++ cs) t ≡ true
unfolding reaches
reaches-member [] node t m r = rw append-nil m
reaches-member (c ∷ cs) node t m r =
    let a = append_assoc node (c ∷ []) cs in
    elim (Bool-cases (member (node ++ c ∷ []) t)) [
      | inl y ↦ rw a at (reaches-member cs (node ++ c ∷ []) t y (ground (arith, r, y)))
      | inr y ↦ absurd (ground (arith, r, y))
    ]

below-missing :
    (cs node : Text) (t : Trie) (ps : List Text)
    → Indexes t ps
    → member node t ≡ false
    → member (node ++ cs) t ≡ false
below-missing [] node t ps h m = rw append-nil m
below-missing (c ∷ cs) node t ps h m =
    let a = append_assoc node (c ∷ []) cs in
    elim (Bool-cases (member (node ++ c ∷ []) t)) [
      | inl y ↦ absurd (ground (arith, m, h.closed node c y))
      | inr y ↦ rw a at (below-missing cs (node ++ c ∷ []) t ps h y)
    ]

not_reached :
    (cs node : Text) (t : Trie) (ps : List Text)
    → Indexes t ps
    → reaches node cs t ≡ false
    → member (node ++ cs) t ≡ false
unfolding reaches
not_reached [] node t ps h r = absurd (ground (arith, r))
not_reached (c ∷ cs) node t ps h r =
    let a = append_assoc node (c ∷ []) cs in
    elim (Bool-cases (member (node ++ c ∷ []) t)) [
      | inl y ↦ rw a at (not_reached cs (node ++ c ∷ []) t ps h (ground (arith, r, y)))
      | inr y ↦ rw a at (below-missing cs (node ++ c ∷ []) t ps h y)
    ]

remove-absent :
    (t : Trie) (ps : List Text) (q : Text)
    → Indexes t ps
    → count q ps ≡ 0
    → Indexes t (remove_first q ps)
remove-absent t ps q h z = record {
  counted = λ path p.
      h.counted path p
      ∙ ap (λ n. if literal_prefix p == path then n else 0)
          (sym (
            count-remove_first p q ps ∙ elim (Bool-cases (q == p)) [
              | inl y ↦
                  let e = (text_beq_iff q p).0 y in
                  let k : count p ps ≡ 0 = rw e at z in rw (y, k) refl
              | inr y ↦ rw y refl
            ]));
  root = h.root;
  closed = h.closed;
}

remove-present :
    (t : Trie) (ps : List Text) (q : Text)
    → Indexes t ps
    → member (literal_prefix q) t ≡ true
    → Indexes
        (insert (literal_prefix q) (remove_first q (patterns_at (literal_prefix q) t)) t)
        (remove_first q ps)
remove-present t ps q h m =
    let path = literal_prefix q in
    set-Indexes t ps (remove_first q ps) (remove_first q (patterns_at path t)) path h m
      (λ p.
        count-remove_first p q (patterns_at path t) ∙ elim (Bool-cases (literal_prefix p == path)) [
          | inl z ↦
              let f : count p (patterns_at path t) ≡ count p ps =
                h.counted path p
                ∙ (let g : (if literal_prefix p == path then count p ps else 0) ≡ count p ps =
                      rw z refl in
                    g) in
              rw (z, f) (sym (count-remove_first p q ps))
          | inr z ↦
              let f : count p (patterns_at path t) ≡ 0 =
                h.counted path p
                ∙ (let g : (if literal_prefix p == path then count p ps else 0) ≡ 0 = rw z refl in
                    g) in
              rw (z, f) (ground arith)
        ])
      (λ p d. count-remove_first p q ps ∙ elim (Bool-cases (q == p)) [
        | inl y ↦
            let e = (text_beq_iff q p).0 y in
            let z : (literal_prefix p == path) ≡ true = rw e (beq_refl (literal_prefix p)) in
            absurd (ground (arith, d, z))
        | inr y ↦ rw y refl
      ])

remove-Indexes :
    (t : Trie) (ps : List Text) (q : Text)
    → Indexes t ps
    → Indexes (remove_pattern q t) (remove_first q ps)
unfolding remove_pattern
remove-Indexes t ps q h = elim (Bool-cases (reaches [] (literal_prefix q) t)) [
  | inl y ↦ rw y (remove-present t ps q h (reaches-member (literal_prefix q) [] t h.root y))
  | inr y ↦
      rw y (
        remove-absent t ps q h
          (missing-count t ps q h (not_reached (literal_prefix q) [] t ps h y)))
]

pub data PatternCall : Type 0 where
  add_pattern drop_pattern : Text → PatternCall

unfoldable pub call_pattern : PatternCall → Trie → Trie
call_pattern (add_pattern p) t = insert_pattern p t
call_pattern (drop_pattern p) t = remove_pattern p t

unfoldable pub call_patterns : List PatternCall → Trie → Trie
call_patterns [] t = t
call_patterns (c ∷ cs) t = call_patterns cs (call_pattern c t)

-- the patterns as a plain list, the last one first
unfoldable pub listed : List PatternCall → List Text → List Text
listed [] ps = ps
listed (add_pattern p ∷ cs) ps = listed cs (p ∷ ps)
listed (drop_pattern p ∷ cs) ps = listed cs (remove_first p ps)

call_patterns-Indexes :
    (cs : List PatternCall) (t : Trie) (ps : List Text)
    → Indexes t ps
    → Indexes (call_patterns cs t) (listed cs ps)
unfolding call_patterns call_pattern listed
call_patterns-Indexes [] t ps h = h
call_patterns-Indexes (add_pattern p ∷ cs) t ps h =
    call_patterns-Indexes cs (insert_pattern p t) (p ∷ ps) (insert-Indexes t ps p h)
call_patterns-Indexes (drop_pattern p ∷ cs) t ps h =
    call_patterns-Indexes cs (remove_pattern p t) (remove_first p ps) (remove-Indexes t ps p h)

new_trie-counted :
    (path p : Text)
    → count p (patterns_at path new_trie) ≡ (if literal_prefix p == path then count p [] else 0)
unfolding count lookup
new_trie-counted [] p = ground arith
new_trie-counted (c ∷ path) p = ground arith

new_trie-closed :
    (path : Text) (c : ℕ) → member (path ++ c ∷ []) new_trie ≡ true → member path new_trie ≡ true
unfolding member lookup text_beq
new_trie-closed [] c k = absurd (ground (arith, k))
new_trie-closed (d ∷ path) c k = absurd (ground (arith, k))

new_trie-Indexes : Indexes new_trie []
unfolding count member lookup text_beq
new_trie-Indexes = record {
  counted = λ path p. new_trie-counted path p;
  root = refl;
  closed = λ path c k. new_trie-closed path c k;
}

-- After any calls of `Insert` and `Remove`, `GetMatchingPatterns` answers just the patterns whose part
-- before the first wildcard is a prefix of the channel's name, each as often as it was inserted and not
-- removed.
pub get_matching_patterns-listed :
    (cs : List PatternCall) (p channel : Text)
    → count p (get_matching_patterns channel (call_patterns cs new_trie))
      ≡ (if starts_with (literal_prefix p) channel then count p (listed cs []) else 0)
get_matching_patterns-listed cs p channel =
    count-get_matching_patterns (call_patterns cs new_trie) (listed cs []) p channel
      (call_patterns-Indexes cs new_trie [] new_trie-Indexes)
