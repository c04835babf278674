-- ===== src/Storage/Linked/Backwards.antt =====
-- internal/storage/list_ops.go: the loop of `LRem` from the tail, and the whole of its removal.
use mathlib.Core.Path.{subst}
use go_redis.Prelude.{
  ℕ, zero, suc, ◌+◌, ◌-◌, ◌<◌, ◌≤◌, ◌≡◌, inl, inr, refl, ap, sym, ◌∙◌, List, [], ◌∷◌, ◌++◌, Option,
  none, some, length, arith, Bool-cases, ltb, append_assoc, append-nil, length-append, reverse,
  reverse-reverse, length-reverse,
}
use go_redis.Prelude.Eq.{Text, text_eq, ◌==◌}
use go_redis.Prelude.Int.{ℤ, pos, negsuc, pos_part, wrap64}
use go_redis.Storage.Linked.{LinkedList}
use go_redis.Storage.Linked.Edit.{remove_node}
use go_redis.Storage.Linked.Chain.{Cells, first, last, Holds, last-append}
use go_redis.Storage.Linked.Moves.{Holds-Spot, remove_node-Holds}
use go_redis.Storage.Linked.Walk.{values, values-append, length-values}
use go_redis.Storage.Linked.Sequence.{IsList}
use go_redis.Storage.Linked.Removal.{
  remove_forward, remove_backward, without, without-hit, without-keep, without-zero, without-nil,
  left_over, remove_backward-hit, remove_backward-keep, remove_backward-done, remove_backward-end,
  remove_forward-Holds, Leaves,
}

values-reverse : (cs : Cells) → values (reverse cs) ≡ reverse (values cs)
values-reverse [] = refl
values-reverse ((p, x) ∷ cs) =
    values-append (reverse cs) ((p, x) ∷ []) ∙ ap (λ zs. zs ++ x ∷ []) (values-reverse cs)

last-snoc : (cs : Cells) (p : ℕ) (x : Text) → last none (cs ++ (p, x) ∷ []) ≡ some p
last-snoc cs p x = last-append none cs ((p, x) ∷ [])

-- The nodes `reverse rs` are still to be visited, the last one first.
remove_backward-Holds :
    (rs : Cells) (k t : ℕ) (v : Text) (r : ℕ) (l : LinkedList) (ks : Cells)
    → Holds l (reverse rs ++ ks)
    → length rs ≤ k
    → Leaves
        (remove_backward k t v (last none (reverse rs)) r l)
        (reverse (without (t - r) v (values rs)) ++ values ks)
        (length (values rs) + length (values ks))
        r
remove_backward-Holds [] k t v r l ks h le = (
  l,
  r,
  remove_backward-end k t v r l,
  (ks, h, rw without-nil refl),
  rw without-nil (omega arith),
)
remove_backward-Holds ((p, x) ∷ rs) zero t v r l ks h le = absurd (omega arith)
remove_backward-Holds ((p, x) ∷ rs) (suc k) t v r l ks h le =
    let h' : Holds l (reverse rs ++ (p, x) ∷ ks) =
      rw (append_assoc (reverse rs) ((p, x) ∷ []) ks) at h in
    let s = Holds-Spot l (reverse rs) p x ks h' in
    rw (last-snoc (reverse rs) p x) (elim (Bool-cases (ltb r t)) [
      | inr y ↦
          let e = without-zero (t - r) v (x ∷ values rs) (ground arith) in
          rw e (
            l,
            r,
            remove_backward-done (suc k) t v (some p) r l (ground arith),
            (
              (reverse rs ++ (p, x) ∷ []) ++ ks,
              h,
              values-append (reverse ((p, x) ∷ rs)) ks
                  ∙ ap (λ zs. zs ++ values ks) (values-reverse ((p, x) ∷ rs)),
            ),
            omega (
              arith,
              length-append (reverse (x ∷ values rs)) (values ks),
              length-reverse (x ∷ values rs),
            ),
          )
      | inl y ↦
          let lt : r < t = ground arith in
          elim (Bool-cases (x == v)) [
            | inl z ↦
                let e =
                  ap (λ n. without n v (x ∷ values rs)) (left_over t r lt)
                  ∙ without-hit (t - (r + 1)) v x (values rs) z in
                let f =
                  remove_backward-hit k t v p r (last none (reverse rs)) l s.prev
                    (ap (λ w. w == v) s.value ∙ z) lt in
                let (l', m, g, i, n) =
                  remove_backward-Holds rs k t v (r + 1) (remove_node p l) ks
                    (remove_node-Holds l (reverse rs) p x ks h') (omega arith) in
                rw (e, f) (l', m, g, i, omega arith)
            | inr z ↦
                let e = without-keep (t - r) v x (values rs) z in
                let f =
                  remove_backward-keep k t v p r (last none (reverse rs)) l s.prev
                    (ap (λ w. w == v) s.value ∙ z) lt in
                let (l', m, g, i, n) =
                  remove_backward-Holds rs k t v r l ((p, x) ∷ ks) h' (omega arith) in
                let q =
                  append_assoc (reverse (without (t - r) v (values rs))) (x ∷ []) (values ks) in
                rw (e, f, q) (l', m, g, i, omega arith)
          ]
    ])

-- `toRemove`: all values for 0, and the absolute value of the count otherwise
unfoldable pub to_remove : ℕ → ℤ → ℕ
to_remove length (pos zero) = length
to_remove length (pos (suc i)) = suc i
to_remove length (negsuc i) = pos_part (wrap64 (pos (suc i)))

unfoldable pub remove_values : ℤ → Text → LinkedList → Option (LinkedList × ℕ)
remove_values (pos i) value l =
    remove_forward (pos_part l.length) (to_remove (pos_part l.length) (pos i)) value l.head 0 l
remove_values (negsuc i) value l =
    remove_backward (pos_part l.length) (to_remove (pos_part l.length) (negsuc i)) value l.tail 0 l

-- what `LRem` leaves of a sequence
unfoldable pub removed : ℤ → Text → List Text → List Text
removed (pos i) v xs = without (to_remove (length xs) (pos i)) v xs
removed (negsuc i) v xs = reverse (without (to_remove (length xs) (negsuc i)) v (reverse xs))

remove_front :
    (i : ℕ) (v : Text) (l : LinkedList) (cs : Cells)
    → Holds l cs
    → Leaves (remove_values (pos i) v l) (removed (pos i) v (values cs)) (length (values cs)) 0
unfolding remove_values removed
remove_front i v l cs h =
    let n = ap pos_part h.counted ∙ sym (length-values cs) in
    let t = to_remove (length (values cs)) (pos i) in
    let k =
      remove_forward-Holds cs (pos_part l.length) t v 0 l [] h (omega (arith, length-values cs)) in
    let z : t - 0 ≡ t = omega arith in
    subst
      (λ o.
        Leaves (remove_forward (pos_part l.length) (to_remove (pos_part l.length) (pos i)) v o 0 l)
          (without t v (values cs)) (length (values cs)) 0)
      (sym h.head)
      (subst
        (λ m.
          Leaves (remove_forward (pos_part l.length) (to_remove m (pos i)) v (first cs none) 0 l)
            (without t v (values cs)) (length (values cs)) 0)
        (sym n)
        (subst
          (λ m.
            Leaves (remove_forward (pos_part l.length) t v (first cs none) 0 l)
              (without m v (values cs)) (length (values cs)) 0)
          z (let (l', m, f, g, e) = k in (l', m, f, g, omega arith))))

remove_back :
    (i : ℕ) (v : Text) (l : LinkedList) (cs : Cells)
    → Holds l cs
    → Leaves
        (remove_values (negsuc i) v l)
        (removed (negsuc i) v (values cs))
        (length (values cs))
        0
unfolding remove_values removed
remove_back i v l cs h =
    let n = ap pos_part h.counted ∙ sym (length-values cs) in
    let t = to_remove (length (values cs)) (negsuc i) in
    let r = reverse-reverse cs in
    let h' : Holds l (reverse (reverse cs) ++ []) = rw (append-nil, r) h in
    let le = length-reverse cs in
    let lv = length-values (reverse cs) in
    let k =
      remove_backward-Holds (reverse cs) (pos_part l.length) t v 0 l [] h'
        (omega (arith, length-values cs)) in
    let z : t - 0 ≡ t = omega arith in
    let w : reverse (without (t - 0) v (values (reverse cs))) ++ []
        ≡ reverse (without t v (reverse (values cs))) =
      rw (append-nil, z, values-reverse cs) refl in
    subst
      (λ o.
        Leaves
          (remove_backward (pos_part l.length) (to_remove (pos_part l.length) (negsuc i)) v o 0 l)
          (reverse (without t v (reverse (values cs)))) (length (values cs)) 0)
      (sym (h.tail ∙ ap (last none) (sym r)))
      (subst
        (λ m.
          Leaves
            (remove_backward (pos_part l.length) (to_remove m (negsuc i)) v
              (last none (reverse (reverse cs))) 0 l)
            (reverse (without t v (reverse (values cs)))) (length (values cs)) 0)
        (sym n)
        (subst
          (λ ys.
            Leaves (remove_backward (pos_part l.length) t v (last none (reverse (reverse cs))) 0 l)
              ys (length (values cs)) 0)
          w (let (l', m, f, g, e) = k in (l', m, f, g, omega (arith, length-values cs)))))

-- The removal of `LRem`, with the number of values that are gone.
pub remove_values-IsList :
    (count : ℤ) (v : Text) (l : LinkedList) (xs : List Text)
    → IsList l xs
    → Leaves (remove_values count v l) (removed count v xs) (length xs) 0
remove_values-IsList (pos i) v l xs (cs, h, e) = rw⁻¹ e (remove_front i v l cs h)
remove_values-IsList (negsuc i) v l xs (cs, h, e) = rw⁻¹ e (remove_back i v l cs h)
