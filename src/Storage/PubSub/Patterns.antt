-- ===== src/Storage/PubSub/Patterns.antt =====
-- internal/storage/pubsub.go: the trie against the plain list of its patterns.
use go_redis.Prelude.{
  ℕ, suc, ◌+◌, ◌<◌, ◌≡◌, inl, inr, refl, ◌∙◌, List, [], ◌∷◌, ◌++◌, true, false, ◌||◌, if◌then◌else◌,
  length, arith, Bool-cases, append_assoc, append-nil, length-append,
}
use go_redis.Prelude.Eq.{Text, text_eq, nat_eq, ◌==◌, beq_refl, text_beq_iff}
use go_redis.Storage.PubSub.Trie.{Trie, literal_prefix, patterns_at, collect, get_matching_patterns}
use go_redis.Storage.PubSub.Candidates.{
  count, starts_with, count-append, Indexes, on_way, count-collect, starts_with-append,
  on_way-starts_with, longer-differs, on_way-length, starts_with_self,
}

append-longer : (node : Text) (c : ℕ) (s : Text) → length node < length (node ++ c ∷ s)
append-longer node c s =
    let n : length (node ++ c ∷ s) ≡ length node + suc (length s) = length-append node (c ∷ s) in
    omega arith

differ_sym : (c d : ℕ) → (c == d) ≡ false → (d == c) ≡ false
differ_sym c d h = ground (arith, nat_eq.same_iff c d, nat_eq.same_iff d c)

differ_first : (d c : ℕ) (s : Text) → (d == c) ≡ false → starts_with (d ∷ []) (c ∷ s) ≡ false
unfolding starts_with
differ_first d c s h = rw h refl

no_way :
    (path node rest : Text)
    → starts_with node path ≡ false
    → (path == node || on_way path node rest) ≡ false
no_way path node rest h = elim (Bool-cases (path == node)) [
  | inl y ↦
      let e = (text_beq_iff path node).0 y in
      let k : starts_with path path ≡ false = rw (← e) at h in
      absurd (ground (arith, k, starts_with_self path))
  | inr y ↦ rw y (elim (Bool-cases (on_way path node rest)) [
    | inl w ↦ absurd (ground (arith, h, on_way-starts_with path node rest w))
    | inr w ↦ w
  ])
]

on_way-prefix :
    (s node rest : Text)
    → ((node ++ s) == node || on_way (node ++ s) node rest) ≡ starts_with s rest
unfolding starts_with
on_way-prefix [] node rest =
    let e : (node == node) ≡ true = beq_refl node in rw (append-nil node, e) refl
on_way-prefix (c ∷ s) node [] =
    let d = longer-differs (node ++ c ∷ s) node (append-longer node c s) in rw d refl
on_way-prefix (c ∷ s) node (d ∷ ds) =
    let n = longer-differs (node ++ c ∷ s) node (append-longer node c s) in
    rw n (elim (Bool-cases (c == d)) [
      | inl y ↦
          let e : c ≡ d = (nat_eq.same_iff c d).0 y in
          let a = append_assoc node (c ∷ []) s in
          let k = on_way-prefix s (node ++ c ∷ []) ds in rw (y, ← e) (rw a at k)
      | inr y ↦
          let f = starts_with-append node (d ∷ []) (c ∷ s) in
          let z : starts_with (node ++ d ∷ []) (node ++ c ∷ s) ≡ false =
            f ∙ differ_first d c s (differ_sym c d y) in
          rw y (no_way (node ++ c ∷ s) (node ++ d ∷ []) ds z)
    ])

-- The candidates for a channel.
pub count-get_matching_patterns :
    (t : Trie) (ps : List Text) (p channel : Text)
    → Indexes t ps
    → count p (get_matching_patterns channel t)
      ≡ (if starts_with (literal_prefix p) channel then count p ps else 0)
unfolding get_matching_patterns
count-get_matching_patterns t ps p channel h =
    let path = literal_prefix p in
    let a = count-append p (patterns_at [] t) (collect [] channel t) in
    let k = count-collect t ps p [] channel h in
    let m = h.counted [] p in
    let w : (path == [] || on_way path [] channel) ≡ starts_with path channel =
      on_way-prefix path [] channel in
    rw⁻¹ w (
      a ∙ elim (Bool-cases (on_way path [] channel)) [
        | inl y ↦
            let d = longer-differs path [] (on_way-length path [] channel y) in
            rw (d, y) (ground (arith, k, m, d, y))
        | inr y ↦ rw y (ground (arith, k, m, y))
      ])
