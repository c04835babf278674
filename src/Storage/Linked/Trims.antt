-- ===== src/Storage/Linked/Trims.antt =====
-- internal/storage/list.go: `Trim`.
use mathlib.Core.Path.{subst}
use go_redis.Prelude.{
  ℕ, suc, ◌+◌, ◌-◌, ◌<◌, ◌≤◌, ◌≡◌, inl, inr, refl, ap, sym, ◌∙◌, List, [], ◌∷◌, ◌++◌, Option, none,
  some, length, arith, take, drop, append_assoc, if◌then◌else◌, ltb, leb, ◌||◌, Bool-cases,
  length-append, take-drop, length-take,
}
use go_redis.Prelude.Eq.{Text, nat_eq, ◌==◌}
use go_redis.Prelude.Int.{ℤ, pos, negsuc, pos_part}
use go_redis.Storage.Linked.{LinkedList, get_node_at, count_back}
use go_redis.Storage.Linked.Edit.{
  from_zero, up_to, bounded, range_of, cut_prev, cut_next, trim_to, trim_within, trim,
}
use go_redis.Storage.Linked.Chain.{
  Cells, first, last, Holds, Links-left, Links-right, Apart-split, Below-split,
}
use go_redis.Storage.Linked.Splice.{final, last-final, Links-set_next, Links-set_prev}
use go_redis.Storage.Linked.Walk.{take-values, values, values-append, length-values, cell_at}
use go_redis.Storage.Linked.Positions.{get_node_at-split}
use go_redis.Storage.Linked.Sequence.{IsList, slice, cut}
use go_redis.Storage.Linked.Ranges.{clamp, cut-empty, cut-clamp, length-pos, slice-nil}

abbrev kept : LinkedList → ℕ → ℕ → ℕ → LinkedList
kept l p q n = record l {
  nodes = cut_next (some q) (cut_prev (some p) l.nodes);
  head = some p;
  tail = some q;
  length = pos n;
}

-- The nodes in the middle become the whole list.
kept-Holds :
    (l : LinkedList) (ds : Cells) (p : ℕ) (x : Text) (bs es : Cells)
    → Holds l (ds ++ (((p, x) ∷ bs) ++ es))
    → Holds (kept l p (final p bs) (suc (length bs))) ((p, x) ∷ bs)
kept-Holds l ds p x bs es h =
    let cs : Cells = (p, x) ∷ bs in
    let r =
      Links-left l.nodes (last none ds) cs es none
        (Links-right l.nodes none ds (cs ++ es) none h.links) in
    let a = (Apart-split cs es (Apart-split ds (cs ++ es) h.apart).1).0 in
    record {
      links =
          Links-set_next (cut_prev (some p) l.nodes) none (first es none) none p x bs a
            (Links-set_prev l.nodes (last none ds) (first es none) none p x bs a r);
      head = refl;
      tail = sym (last-final none p x bs);
      counted = refl;
      below = (Below-split l.fresh cs es (Below-split l.fresh ds (cs ++ es) h.below).1).0;
      apart = a;
    }

-- The last of some nodes in the middle.
get_node_at-final :
    (l : LinkedList) (ds : Cells) (p : ℕ) (x : Text) (bs es : Cells)
    → Holds l (ds ++ (((p, x) ∷ bs) ++ es))
    → get_node_at (pos (length ds + length bs)) l ≡ some (some (final p bs))
get_node_at-final l ds p x [] es h =
    let e : length ds + 0 ≡ length ds = omega arith in
    ap (λ i. get_node_at (pos i) l) e ∙ get_node_at-split l ds p x es h
get_node_at-final l ds p x ((q, y) ∷ bs) es h =
    let fs : Cells = ds ++ (p, x) ∷ [] in
    let n : length fs ≡ length ds + 1 = length-append ds ((p, x) ∷ []) in
    let e : length ds + suc (length bs) ≡ length fs + length bs = omega arith in
    ap (λ i. get_node_at (pos i) l) e
    ∙ get_node_at-final l fs q y bs es (rw (append_assoc ds ((p, x) ∷ []) (((q, y) ∷ bs) ++ es)) h)

trim_within-some :
    (l : LinkedList) (ds : Cells) (p : ℕ) (x : Text) (bs es : Cells)
    → Holds l (ds ++ (((p, x) ∷ bs) ++ es))
    → trim_within l (some (length ds, length ds + length bs))
      ≡ some (kept l p (final p bs) (suc (length bs)))
unfolding trim_within trim_to
trim_within-some l ds p x bs es h =
    let n : length ds + length bs - length ds + 1 ≡ suc (length bs) = omega arith in
    ap
      (λ o.
        trim_to (length ds + length bs - length ds + 1) l o
          (get_node_at (pos (length ds + length bs)) l))
      (get_node_at-split l ds p x (bs ++ es) h)
    ∙ ap (λ o. trim_to (length ds + length bs - length ds + 1) l (some (some p)) o)
        (get_node_at-final l ds p x bs es h)
    ∙ ap (λ m. some (kept l p (final p bs) m)) n

-- the list that `Trim` leaves
abbrev pub Trimmed : Option LinkedList → List Text → Type 0
Trimmed o xs = (l : LinkedList) × (o ≡ some l) × IsList l xs

trim_within-Trimmed :
    (l : LinkedList) (ds : Cells) (p : ℕ) (x : Text) (es : Cells) (s stop : ℕ)
    → Holds l (ds ++ (p, x) ∷ es)
    → length ds ≡ s
    → s ≤ stop
    → stop < length ds + length ((p, x) ∷ es)
    → Trimmed (trim_within l (some (s, stop))) (take (stop - s + 1) (x ∷ values es))
trim_within-Trimmed l ds p x es s stop h d le lt =
    let k = stop - s in
    let bs = take k es in
    let f = take-drop k es in
    let n : length bs ≡ k = length-take k es (omega arith) in
    let m : stop ≡ length ds + length bs = omega arith in
    let h' : Holds l (ds ++ (((p, x) ∷ bs) ++ drop k es)) = rw f h in
    let g : values bs ≡ take k (values es) = take-values k es in
    let z : k + 1 ≡ suc k = omega arith in
    (
      kept l p (final p bs) (suc (length bs)),
      ap (λ i. trim_within l (some (i, stop))) (sym d)
          ∙ ap (λ i. trim_within l (some (length ds, i))) m
          ∙ trim_within-some l ds p x bs (drop k es) h',
      (
        (p, x) ∷ bs,
        kept-Holds l ds p x bs (drop k es) h',
        ap (◌∷◌ x) g ∙ ap (λ i. take i (x ∷ values es)) (sym z),
      ),
    )

emptied-Holds : (l : LinkedList) → IsList (record l { head = none; tail = none; length = pos 0 }) []
emptied-Holds l = (
  [],
  record { links = tt; head = refl; tail = refl; counted = refl; below = tt; apart = tt },
  refl,
)

trim_within-none : (l : LinkedList) → Trimmed (trim_within l none) []
unfolding trim_within
trim_within-none l = (record l { head = none; tail = none; length = pos 0 }, refl, emptied-Holds l)

trim_within-bounded :
    (l : LinkedList) (cs : Cells) (n s j : ℕ)
    → Holds l cs
    → length cs ≡ n
    → 0 < n
    → Trimmed (trim_within l (bounded n s (some (clamp n j)))) (cut s (pos j) (values cs))
trim_within-bounded l cs n s j h e z = elim (Bool-cases (ltb (clamp n j) s || leb n s)) [
  | inl y ↦ rw (y, cut-empty n s j (values cs) (length-values cs ∙ e) z y) (trim_within-none l)
  | inr y ↦
      let (ds, p, x, es, f, d) = cell_at s cs (ground arith) in
      let g : values cs ≡ values ds ++ x ∷ values es =
        ap values f ∙ values-append ds ((p, x) ∷ es) in
      let m : length (values ds) + length (x ∷ values es) ≡ n =
        sym (length-append (values ds) (x ∷ values es))
        ∙ ap length (sym g)
        ∙ length-values cs
        ∙ e in
      let lv = length-values es in
      let lw = length-values ds in
      rw
        (
          y,
          ap (cut s (pos j)) g
              ∙ cut-clamp n s j (values ds) (x ∷ values es) (length-values ds ∙ d) m y,
        )
        (trim_within-Trimmed l ds p x es s (clamp n j) (rw f at h) d (ground arith) (ground arith))
]

trim_within-cut :
    (l : LinkedList) (cs : Cells) (n s : ℕ) (z : ℤ)
    → Holds l cs
    → length cs ≡ n
    → 0 < n
    → Trimmed (trim_within l (bounded n s (up_to n z))) (cut s z (values cs))
trim_within-cut l cs n s (pos j) h e z = trim_within-bounded l cs n s j h e z
trim_within-cut l cs n s (negsuc j) h e z = trim_within-none l

trim-Holds :
    (start stop : ℤ) (l : LinkedList) (cs : Cells)
    → Holds l cs
    → Trimmed (trim start stop l) (slice start stop (values cs))
unfolding trim range_of slice
trim-Holds start stop l [] h = (
  l,
  ap (λ n. if pos_part n == 0 then some l else trim_within l (range_of (pos_part n) start stop))
      h.counted,
  ([], h, sym (slice-nil start stop)),
)
trim-Holds start stop l ((p, x) ∷ cs) h =
    let n = suc (length cs) in
    let z = count_back (pos n) stop in
    let s = from_zero (count_back (pos n) start) in
    let (l', e, k) = trim_within-cut l ((p, x) ∷ cs) n s z h refl (omega arith) in
    (
      l',
      ap (λ c. if c then some l else trim_within l (range_of (pos_part l.length) start stop))
            (length-pos l cs p x h)
          ∙ ap (λ m. trim_within l (range_of (pos_part m) start stop)) h.counted
          ∙ e,
      subst
          (λ m.
            IsList l' (
              cut (from_zero (count_back (pos m) start)) (count_back (pos m) stop) (x ∷ values cs)))
          (sym (length-values ((p, x) ∷ cs))) k,
    )

pub trim-IsList :
    (start stop : ℤ) (l : LinkedList) (xs : List Text)
    → IsList l xs
    → Trimmed (trim start stop l) (slice start stop xs)
trim-IsList start stop l xs (cs, h, e) = rw⁻¹ e (trim-Holds start stop l cs h)
