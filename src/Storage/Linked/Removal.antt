-- ===== src/Storage/Linked/Removal.antt =====
-- internal/storage/list_ops.go: the loops of `LRem`, from the head and from the tail.
use go_redis.Prelude.{
  ℕ, zero, suc, ◌+◌, ◌-◌, ◌<◌, ◌≤◌, ◌≡◌, inl, inr, refl, ap, ◌∙◌, List, [], ◌∷◌, ◌++◌, Option, none,
  some, true, false, length, arith, if◌then◌else◌, Bool-cases, ltb, append_assoc, append-nil,
  length-append,
}
use go_redis.Prelude.Eq.{Text, text_eq, ◌==◌}
use go_redis.Storage.Linked.{LinkedList}
use go_redis.Storage.Linked.Edit.{remove_node}
use go_redis.Storage.Linked.Chain.{Cells, first, Holds}
use go_redis.Storage.Linked.Moves.{Holds-Spot, remove_node-Holds}
use go_redis.Storage.Linked.Walk.{values, values-append}
use go_redis.Storage.Linked.Sequence.{IsList}

-- `for node != nil && removed < toRemove`; `none` if it goes on after `k` nodes
unfoldable pub remove_forward : ℕ → ℕ → Text → Option ℕ → ℕ → LinkedList → Option (LinkedList × ℕ)
remove_forward k to_remove value none removed l = some (l, removed)
remove_forward zero to_remove value (some node) removed l =
    if ltb removed to_remove then none else some (l, removed)
remove_forward (suc k) to_remove value (some node) removed l =
    let next = (l.nodes node).next in
    let hit = (l.nodes node).value == value in
    let rest =
      remove_forward k to_remove value next (if hit then removed + 1 else removed)
        (if hit then remove_node node l else l) in
    if ltb removed to_remove then rest else some (l, removed)

unfoldable pub remove_backward : ℕ → ℕ → Text → Option ℕ → ℕ → LinkedList → Option (LinkedList × ℕ)
remove_backward k to_remove value none removed l = some (l, removed)
remove_backward zero to_remove value (some node) removed l =
    if ltb removed to_remove then none else some (l, removed)
remove_backward (suc k) to_remove value (some node) removed l =
    let prev = (l.nodes node).prev in
    let hit = (l.nodes node).value == value in
    let rest =
      remove_backward k to_remove value prev (if hit then removed + 1 else removed)
        (if hit then remove_node node l else l) in
    if ltb removed to_remove then rest else some (l, removed)

-- without the first occurrences of a value, at most `n` of them
unfoldable pub without : ℕ → Text → List Text → List Text
without zero v xs = xs
without (suc n) v [] = []
without (suc n) v (x ∷ xs) =
    let rest = without n v xs in
    let kept = without (suc n) v xs in if x == v then rest else x ∷ kept

pub without-hit :
    (n : ℕ) (v x : Text) (xs : List Text)
    → (x == v) ≡ true
    → without (suc n) v (x ∷ xs) ≡ without n v xs
unfolding without
without-hit n v x xs e = rw e refl

pub without-keep :
    (n : ℕ) (v x : Text) (xs : List Text)
    → (x == v) ≡ false
    → without n v (x ∷ xs) ≡ x ∷ without n v xs
unfolding without
without-keep zero v x xs e = refl
without-keep (suc n) v x xs e = rw e refl

pub without-zero : (n : ℕ) (v : Text) (xs : List Text) → n ≡ 0 → without n v xs ≡ xs
unfolding without
without-zero n v xs e = rw e refl

pub without-nil : (n : ℕ) (v : Text) → without n v [] ≡ []
unfolding without
without-nil zero v = refl
without-nil (suc n) v = refl

-- `to_remove - removed` occurrences are still to be removed
remove_forward-hit :
    (k t : ℕ) (v : Text) (p r : ℕ) (next : Option ℕ) (l : LinkedList)
    → (l.nodes p).next ≡ next
    → ((l.nodes p).value == v) ≡ true
    → r < t
    → remove_forward (suc k) t v (some p) r l ≡ remove_forward k t v next (r + 1) (remove_node p l)
unfolding remove_forward
remove_forward-hit k t v p r next l n e h =
    let b : ltb r t ≡ true = ground arith in rw (b, e, n) refl

remove_forward-keep :
    (k t : ℕ) (v : Text) (p r : ℕ) (next : Option ℕ) (l : LinkedList)
    → (l.nodes p).next ≡ next
    → ((l.nodes p).value == v) ≡ false
    → r < t
    → remove_forward (suc k) t v (some p) r l ≡ remove_forward k t v next r l
unfolding remove_forward
remove_forward-keep k t v p r next l n e h =
    let b : ltb r t ≡ true = ground arith in rw (b, e, n) refl

remove_forward-done :
    (k t : ℕ) (v : Text) (p : Option ℕ) (r : ℕ) (l : LinkedList)
    → t ≤ r
    → remove_forward k t v p r l ≡ some (l, r)
unfolding remove_forward
remove_forward-done k t v none r l h = refl
remove_forward-done zero t v (some p) r l h = let b : ltb r t ≡ false = ground arith in rw b refl
remove_forward-done (suc k) t v (some p) r l h = let b : ltb r t ≡ false = ground arith in rw b refl

remove_forward-end :
    (k t : ℕ) (v : Text) (r : ℕ) (l : LinkedList) → remove_forward k t v none r l ≡ some (l, r)
unfolding remove_forward
remove_forward-end k t v r l = refl

pub remove_backward-hit :
    (k t : ℕ) (v : Text) (p r : ℕ) (prev : Option ℕ) (l : LinkedList)
    → (l.nodes p).prev ≡ prev
    → ((l.nodes p).value == v) ≡ true
    → r < t
    → remove_backward (suc k) t v (some p) r l
      ≡ remove_backward k t v prev (r + 1) (remove_node p l)
unfolding remove_backward
remove_backward-hit k t v p r prev l n e h =
    let b : ltb r t ≡ true = ground arith in rw (b, e, n) refl

pub remove_backward-keep :
    (k t : ℕ) (v : Text) (p r : ℕ) (prev : Option ℕ) (l : LinkedList)
    → (l.nodes p).prev ≡ prev
    → ((l.nodes p).value == v) ≡ false
    → r < t
    → remove_backward (suc k) t v (some p) r l ≡ remove_backward k t v prev r l
unfolding remove_backward
remove_backward-keep k t v p r prev l n e h =
    let b : ltb r t ≡ true = ground arith in rw (b, e, n) refl

pub remove_backward-done :
    (k t : ℕ) (v : Text) (p : Option ℕ) (r : ℕ) (l : LinkedList)
    → t ≤ r
    → remove_backward k t v p r l ≡ some (l, r)
unfolding remove_backward
remove_backward-done k t v none r l h = refl
remove_backward-done zero t v (some p) r l h = let b : ltb r t ≡ false = ground arith in rw b refl
remove_backward-done (suc k) t v (some p) r l h =
    let b : ltb r t ≡ false = ground arith in rw b refl

pub remove_backward-end :
    (k t : ℕ) (v : Text) (r : ℕ) (l : LinkedList) → remove_backward k t v none r l ≡ some (l, r)
unfolding remove_backward
remove_backward-end k t v r l = refl

-- what is left of the list, and how many values are gone
abbrev pub Leaves : Option (LinkedList × ℕ) → List Text → ℕ → ℕ → Type 0
Leaves o xs n r =
    (l : LinkedList) × (m : ℕ) × (o ≡ some (l, m)) × IsList l xs × (m + length xs ≡ n + r)

values-middle :
    (ks : Cells) (p : ℕ) (x : Text) (ys : List Text)
    → values (ks ++ (p, x) ∷ []) ++ ys ≡ values ks ++ x ∷ ys
values-middle ks p x ys =
    ap (λ zs. zs ++ ys) (values-append ks ((p, x) ∷ [])) ∙ append_assoc (values ks) (x ∷ []) ys

pub left_over : (t r : ℕ) → r < t → t - r ≡ suc (t - (r + 1))
left_over t r h = omega arith

pub remove_forward-Holds :
    (cs : Cells) (k t : ℕ) (v : Text) (r : ℕ) (l : LinkedList) (ks : Cells)
    → Holds l (ks ++ cs)
    → length cs ≤ k
    → Leaves
        (remove_forward k t v (first cs none) r l)
        (values ks ++ without (t - r) v (values cs))
        (length (values ks) + length (values cs))
        r
remove_forward-Holds [] k t v r l ks h le = (
  l,
  r,
  remove_forward-end k t v r l,
  (ks ++ [], h, rw (append-nil, without-nil, append-nil) refl),
  rw (without-nil, append-nil) (omega arith),
)
remove_forward-Holds ((p, x) ∷ cs) zero t v r l ks h le = absurd (omega arith)
remove_forward-Holds ((p, x) ∷ cs) (suc k) t v r l ks h le =
    let s = Holds-Spot l ks p x cs h in
    elim (Bool-cases (ltb r t)) [
      | inr y ↦
          let e = without-zero (t - r) v (x ∷ values cs) (ground arith) in
          rw e (
            l,
            r,
            remove_forward-done (suc k) t v (some p) r l (ground arith),
            (ks ++ (p, x) ∷ cs, h, values-append ks ((p, x) ∷ cs)),
            omega (arith, length-append (values ks) (x ∷ values cs)),
          )
      | inl y ↦
          let lt : r < t = ground arith in
          elim (Bool-cases (x == v)) [
            | inl z ↦
                let e =
                  ap (λ n. without n v (x ∷ values cs)) (left_over t r lt)
                  ∙ without-hit (t - (r + 1)) v x (values cs) z in
                let f =
                  remove_forward-hit k t v p r (first cs none) l s.next
                    (ap (λ w. w == v) s.value ∙ z) lt in
                let (l', m, g, i, n) =
                  remove_forward-Holds cs k t v (r + 1) (remove_node p l) ks
                    (remove_node-Holds l ks p x cs h) (omega arith) in
                rw (e, f) (l', m, g, i, omega arith)
            | inr z ↦
                let e = without-keep (t - r) v x (values cs) z in
                let f =
                  remove_forward-keep k t v p r (first cs none) l s.next
                    (ap (λ w. w == v) s.value ∙ z) lt in
                let h' : Holds l ((ks ++ (p, x) ∷ []) ++ cs) =
                  rw (append_assoc ks ((p, x) ∷ []) cs) h in
                let (l', m, g, i, n) =
                  remove_forward-Holds cs k t v r l (ks ++ (p, x) ∷ []) h' (omega arith) in
                let q = values-middle ks p x (without (t - r) v (values cs)) in
                let w : length (values (ks ++ (p, x) ∷ [])) ≡ length (values ks) + 1 =
                  ap length (values-append ks ((p, x) ∷ [])) ∙ length-append (values ks) (x ∷ []) in
                rw (e, f, ← q) (l', m, g, i, omega arith)
          ]
    ]
