-- ===== src/Cluster/Ranges.antt =====
-- `BuildSlotRanges` of node.go, and `Contains` and `Size` of slot.go.
use go_redis.Prelude.{
  ◌+◌, ◌≡◌, refl, ap, ◌∙◌, List, [], ◌∷◌, Bool, true, false, ◌&&◌, ◌||◌, arith, leb, nat_beq,
  if◌then◌else◌, Bool-cases, inl, inr,
}
use go_redis.Prelude.Int.{ℤ, pos, pos_part, neg_part, ◌+ℤ◌, ◌≤ℤ◌, neg_ℤ}
use go_redis.Cluster.Slot.{SlotRange}

abbrev pub leb_ℤ : ℤ → ℤ → Bool
leb_ℤ a b = leb (pos_part a + neg_part b) (pos_part b + neg_part a)

abbrev pub beq_ℤ : ℤ → ℤ → Bool
beq_ℤ a b = nat_beq (pos_part a + neg_part b) (pos_part b + neg_part a)

abbrev pub range : ℤ → ℤ → SlotRange
range a b = record { start = a; end = b }

unfoldable pub contains : SlotRange → ℤ → Bool
contains r slot = leb_ℤ r.start slot && leb_ℤ slot r.end

unfoldable pub size : SlotRange → ℤ
size r = r.end +ℤ neg_ℤ r.start +ℤ pos 1

insert_sorted : ℤ → List ℤ → List ℤ
insert_sorted x [] = x ∷ []
insert_sorted x (y ∷ ys) = if leb_ℤ x y then x ∷ y ∷ ys else y ∷ insert_sorted x ys

-- `sort.Ints`
unfoldable pub sort : List ℤ → List ℤ
unfolding insert_sorted
sort [] = []
sort (x ∷ xs) = insert_sorted x (sort xs)

-- The loop of `BuildSlotRanges` with the current range, and the range that it ends with.
unfoldable pub ranges_from : ℤ → ℤ → List ℤ → List SlotRange
ranges_from start end [] = range start end ∷ []
ranges_from start end (x ∷ xs) =
    let extended = ranges_from start x xs in
    let split = ranges_from x x xs in
    if beq_ℤ x (end +ℤ pos 1) then extended else range start end ∷ split

ranges_of_sorted : List ℤ → List SlotRange
unfolding ranges_from
ranges_of_sorted [] = []
ranges_of_sorted (x ∷ xs) = ranges_from x x xs

unfoldable pub build_slot_ranges : List ℤ → List SlotRange
unfolding ranges_of_sorted sort
build_slot_ranges slots = ranges_of_sorted (sort slots)

abbrev pub has_slot : ℤ → List ℤ → Bool
has_slot z [] = false
has_slot z (x ∷ xs) = beq_ℤ z x || has_slot z xs

abbrev pub in_ranges : ℤ → List SlotRange → Bool
in_ranges z [] = false
in_ranges z (r ∷ rs) = contains r z || in_ranges z rs

extend_range :
    (s e x z : ℤ) (rest : Bool)
    → s ≤ℤ e
    → beq_ℤ x (e +ℤ pos 1) ≡ true
    → ((leb_ℤ s z && leb_ℤ z x) || rest) ≡ ((leb_ℤ s z && leb_ℤ z e) || (beq_ℤ z x || rest))
unfolding ◌+ℤ◌
extend_range s e x z rest h k = ground arith

le_extend : (s e x : ℤ) → s ≤ℤ e → beq_ℤ x (e +ℤ pos 1) ≡ true → s ≤ℤ x
unfolding ◌+ℤ◌
le_extend s e x h k = ground arith

single_range : (x z : ℤ) → (leb_ℤ x z && leb_ℤ z x) ≡ beq_ℤ z x
single_range x z = ground arith

in_ranges-ranges_from :
    (s e : ℤ) (xs : List ℤ) (z : ℤ)
    → s ≤ℤ e
    → in_ranges z (ranges_from s e xs) ≡ ((leb_ℤ s z && leb_ℤ z e) || has_slot z xs)
unfolding ranges_from contains
in_ranges-ranges_from s e [] z h = refl
in_ranges-ranges_from s e (x ∷ xs) z h = elim (Bool-cases (beq_ℤ x (e +ℤ pos 1))) [
  | inl more ↦ rw more (
      in_ranges-ranges_from s x xs z (le_extend s e x h more)
      ∙ extend_range s e x z (has_slot z xs) h more)
  | inr gap ↦ rw gap (
      ap (λ b. (leb_ℤ s z && leb_ℤ z e) || b)
        (in_ranges-ranges_from x x xs z (omega arith)
          ∙ ap (λ b. b || has_slot z xs) (single_range x z)))
]

swap_slots : (a b c : Bool) → (a || (b || c)) ≡ (b || (a || c))
swap_slots a b c = ground arith

has_slot-insert_sorted :
    (x : ℤ) (ys : List ℤ) (z : ℤ) → has_slot z (insert_sorted x ys) ≡ (beq_ℤ z x || has_slot z ys)
unfolding insert_sorted
has_slot-insert_sorted x [] z = refl
has_slot-insert_sorted x (y ∷ ys) z = elim (Bool-cases (leb_ℤ x y)) [
  | inl e ↦ rw e refl
  | inr e ↦ rw e (
      ap (λ b. beq_ℤ z y || b) (has_slot-insert_sorted x ys z)
      ∙ swap_slots (beq_ℤ z y) (beq_ℤ z x) (has_slot z ys))
]

has_slot-sort : (xs : List ℤ) (z : ℤ) → has_slot z (sort xs) ≡ has_slot z xs
unfolding sort
has_slot-sort [] z = refl
has_slot-sort (x ∷ xs) z =
    has_slot-insert_sorted x (sort xs) z ∙ ap (λ b. beq_ℤ z x || b) (has_slot-sort xs z)

in_ranges-ranges_of_sorted :
    (xs : List ℤ) (z : ℤ) → in_ranges z (ranges_of_sorted xs) ≡ has_slot z xs
unfolding ranges_of_sorted
in_ranges-ranges_of_sorted [] z = refl
in_ranges-ranges_of_sorted (x ∷ xs) z =
    in_ranges-ranges_from x x xs z (omega arith) ∙ ap (λ b. b || has_slot z xs) (single_range x z)

-- The ranges contain exactly the slots of the list: no slot is lost in a range, and no other slot
-- falls into one, in whatever order and how often the slots are listed.
pub build_slot_ranges_exact :
    (slots : List ℤ) (z : ℤ) → in_ranges z (build_slot_ranges slots) ≡ has_slot z slots
unfolding build_slot_ranges
build_slot_ranges_exact slots z = in_ranges-ranges_of_sorted (sort slots) z ∙ has_slot-sort slots z
