-- ===== src/Storage/Linked/Ranges.antt =====
-- internal/storage/list.go: `Range` and `Trim`.
use go_redis.Prelude.{
  ℕ, suc, ◌+◌, ◌-◌, ◌<◌, ◌≡◌, inl, inr, refl, ap, sym, ◌∙◌, List, [], ◌∷◌, ◌++◌, none, some, true,
  false, length, arith, take, drop, if◌then◌else◌, ltb, leb, ◌||◌, Bool-cases, length-append,
  drop_ge, take_nil, take_zero, take_past, drop-append,
}
use go_redis.Prelude.Eq.{Text, nat_eq, ◌==◌}
use go_redis.Prelude.Int.{ℤ, pos, negsuc, pos_part}
use go_redis.Storage.Linked.{LinkedList, count_back}
use go_redis.Storage.Linked.Edit.{
  from_zero, up_to, bounded, range_of, range_from, range_within, range,
}
use go_redis.Storage.Linked.Chain.{Cells, Holds}
use go_redis.Storage.Linked.Walk.{values, values-append, length-values, take_values-at, cell_at}
use go_redis.Storage.Linked.Positions.{get_node_at-split}
use go_redis.Storage.Linked.Sequence.{IsList, slice, cut}

-- what the bounds of the code select, for an index of the end that is not negative
abbrev pub clamp : ℕ → ℕ → ℕ
clamp n j = if leb n j then n - 1 else j

pub cut-empty :
    (n s j : ℕ) (xs : List Text)
    → length xs ≡ n
    → 0 < n
    → (ltb (clamp n j) s || leb n s) ≡ true
    → cut s (pos j) xs ≡ []
cut-empty n s j xs e z h = elim (Bool-cases (leb n s)) [
  | inl y ↦ take_nil (j + 1 - s) (drop s xs) (drop_ge s xs (ground arith))
  | inr y ↦ take_zero (j + 1 - s) (drop s xs) (ground arith)
]

-- The end of the range is cut to the list.
pub cut-clamp :
    (n s j : ℕ) (ds es : List Text)
    → length ds ≡ s
    → length ds + length es ≡ n
    → (ltb (clamp n j) s || leb n s) ≡ false
    → cut s (pos j) (ds ++ es) ≡ take (clamp n j - s + 1) es
cut-clamp n s j ds es d e h =
    ap (take (j + 1 - s)) (drop-append ds es s d) ∙ elim (Bool-cases (leb n j)) [
      | inl y ↦ take_past (j + 1 - s) (clamp n j - s + 1) es (ground arith) (ground arith)
      | inr y ↦ let f : j + 1 - s ≡ clamp n j - s + 1 = ground arith in ap (λ m. take m es) f
    ]

range_within-some :
    (l : LinkedList) (ds : Cells) (p : ℕ) (x : Text) (es : Cells) (stop : ℕ)
    → Holds l (ds ++ (p, x) ∷ es)
    → range_within l (some (length ds, stop)) ≡ some (take (stop - length ds + 1) (x ∷ values es))
unfolding range_within range_from
range_within-some l ds p x es stop h =
    ap (range_from (stop - length ds + 1) l) (get_node_at-split l ds p x es h)
    ∙ ap some (take_values-at (stop - length ds + 1) l ds p x es h)

range_within-bounded :
    (l : LinkedList) (cs : Cells) (n s j : ℕ)
    → Holds l cs
    → length cs ≡ n
    → 0 < n
    → range_within l (bounded n s (some (clamp n j))) ≡ some (cut s (pos j) (values cs))
unfolding range_within
range_within-bounded l cs n s j h e z = elim (Bool-cases (ltb (clamp n j) s || leb n s)) [
  | inl y ↦ rw y (ap some (sym (cut-empty n s j (values cs) (length-values cs ∙ e) z y)))
  | inr y ↦
      let (ds, p, x, es, f, d) = cell_at s cs (ground arith) in
      let g : values cs ≡ values ds ++ x ∷ values es =
        ap values f ∙ values-append ds ((p, x) ∷ es) in
      let m : length (values ds) + length (x ∷ values es) ≡ n =
        sym (length-append (values ds) (x ∷ values es))
        ∙ ap length (sym g)
        ∙ length-values cs
        ∙ e in
      rw y (
        ap (λ i. range_within l (some (i, clamp n j))) (sym d)
        ∙ range_within-some l ds p x es (clamp n j) (rw f at h)
        ∙ ap (λ i. some (take (clamp n j - i + 1) (x ∷ values es))) d
        ∙ ap some (
            sym (
              ap (cut s (pos j)) g
              ∙ cut-clamp n s j (values ds) (x ∷ values es) (length-values ds ∙ d) m y)))
]

range_within-negative : (l : LinkedList) (n s : ℕ) → range_within l (bounded n s none) ≡ some []
unfolding range_within
range_within-negative l n s = refl

range_within-cut :
    (l : LinkedList) (cs : Cells) (n s : ℕ) (z : ℤ)
    → Holds l cs
    → length cs ≡ n
    → 0 < n
    → range_within l (bounded n s (up_to n z)) ≡ some (cut s z (values cs))
range_within-cut l cs n s (pos j) h e z = range_within-bounded l cs n s j h e z
range_within-cut l cs n s (negsuc j) h e z = range_within-negative l n s

pub length-pos :
    (l : LinkedList) (cs : Cells) (p : ℕ) (x : Text)
    → Holds l ((p, x) ∷ cs)
    → (pos_part l.length == 0) ≡ false
length-pos l cs p x h = rw (ap pos_part h.counted) (ground arith)

cut_nil : (s : ℕ) (z : ℤ) → cut s z [] ≡ []
cut_nil s (pos j) = take_nil (j + 1 - s) (drop s []) (drop_ge s [] (omega arith))
cut_nil s (negsuc j) = refl

pub slice-nil : (start stop : ℤ) → slice start stop [] ≡ []
unfolding slice
slice-nil start stop = cut_nil (from_zero (count_back (pos 0) start)) (count_back (pos 0) stop)

range-Holds :
    (start stop : ℤ) (l : LinkedList) (cs : Cells)
    → Holds l cs
    → range start stop l ≡ some (slice start stop (values cs))
unfolding range range_of slice
range-Holds start stop l [] h =
    ap (λ n. if pos_part n == 0 then some [] else range_within l (range_of (pos_part n) start stop))
      h.counted
    ∙ ap some (sym (slice-nil start stop))
range-Holds start stop l ((p, x) ∷ cs) h =
    let n = suc (length cs) in
    ap (λ c. if c then some [] else range_within l (range_of (pos_part l.length) start stop))
      (length-pos l cs p x h)
    ∙ ap (λ m. range_within l (range_of (pos_part m) start stop)) h.counted
    ∙ range_within-cut l ((p, x) ∷ cs) n (from_zero (count_back (pos n) start))
        (count_back (pos n) stop) h refl (omega arith)
    ∙ ap
        (λ m.
          some
            (cut (from_zero (count_back (pos m) start)) (count_back (pos m) stop) (x ∷ values cs)))
        (sym (length-values ((p, x) ∷ cs)))

pub range-IsList :
    (start stop : ℤ) (l : LinkedList) (xs : List Text)
    → IsList l xs
    → range start stop l ≡ some (slice start stop xs)
range-IsList start stop l xs (cs, h, e) =
    range-Holds start stop l cs h ∙ ap (λ ys. some (slice start stop ys)) e
