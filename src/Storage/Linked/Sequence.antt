-- ===== src/Storage/Linked/Sequence.antt =====
-- internal/storage/list.go: the sequence of values that a list stands for, and what each method
-- means on it.
use go_redis.Prelude.{
  ℕ, zero, suc, ◌+◌, ◌-◌, ◌≡◌, refl, ap, List, [], ◌∷◌, ◌++◌, Option, none, some, Bool, true, false,
  length, take, drop, get_elem?,
}
use go_redis.Prelude.Eq.{Text, text_eq}
use go_redis.Prelude.Int.{ℤ, pos, negsuc}
use go_redis.Storage.Linked.{LinkedList, new_list, count_back}
use go_redis.Storage.Linked.Edit.{from_zero}
use go_redis.Storage.Linked.Chain.{Cells, Holds}
use go_redis.Storage.Linked.Walk.{values}

-- The list holds the values.
abbrev pub IsList : LinkedList → List Text → Type 0
IsList l xs = (cs : Cells) × Holds l cs × (values cs ≡ xs)

unfoldable pub head_of : List Text → Option Text
head_of [] = none
head_of (x ∷ xs) = some x

unfoldable pub last_of : List Text → Option Text
last_of [] = none
last_of (x ∷ []) = some x
last_of (x ∷ y ∷ xs) = last_of (y ∷ xs)

unfoldable pub but_last : List Text → List Text
but_last [] = []
but_last (x ∷ []) = []
but_last (x ∷ y ∷ xs) = x ∷ but_last (y ∷ xs)

unfoldable pub elem_at : Option ℕ → List Text → Option Text
elem_at none xs = none
elem_at (some i) xs = get_elem? xs i

unfoldable pub set_elem : ℕ → Text → List Text → List Text
set_elem i v [] = []
set_elem zero v (x ∷ xs) = v ∷ xs
set_elem (suc i) v (x ∷ xs) = x ∷ set_elem i v xs

unfoldable pub set_elem_at : Option ℕ → Text → List Text → List Text × Bool
set_elem_at none v xs = (xs, false)
set_elem_at (some i) v xs = (set_elem i v xs, true)

abbrev pub cut : ℕ → ℤ → List Text → List Text
cut start (pos stop) xs = take (stop + 1 - start) (drop start xs)
cut start (negsuc stop) xs = []

-- the values whose index is between both bounds, which count from the end if they are negative
unfoldable pub slice : ℤ → ℤ → List Text → List Text
slice start stop xs =
    cut (from_zero (count_back (pos (length xs)) start)) (count_back (pos (length xs)) stop) xs

pub IsList-new_list : IsList new_list []
IsList-new_list = (
  [],
  record { links = tt; head = refl; tail = refl; counted = refl; below = tt; apart = tt },
  refl,
)

pub last_of-snoc : (xs : List Text) (x : Text) → last_of (xs ++ x ∷ []) ≡ some x
unfolding last_of
last_of-snoc [] x = refl
last_of-snoc (y ∷ []) x = refl
last_of-snoc (y ∷ z ∷ xs) x = last_of-snoc (z ∷ xs) x

pub but_last-snoc : (xs : List Text) (x : Text) → but_last (xs ++ x ∷ []) ≡ xs
unfolding but_last
but_last-snoc [] x = refl
but_last-snoc (y ∷ []) x = refl
but_last-snoc (y ∷ z ∷ xs) x = ap (◌∷◌ y) (but_last-snoc (z ∷ xs) x)

pub get_elem-middle :
    (xs : List Text) (x : Text) (ys : List Text) → get_elem? (xs ++ x ∷ ys) (length xs) ≡ some x
get_elem-middle [] x ys = refl
get_elem-middle (y ∷ xs) x ys = get_elem-middle xs x ys

pub set_elem-middle :
    (xs : List Text) (x v : Text) (ys : List Text)
    → set_elem (length xs) v (xs ++ x ∷ ys) ≡ xs ++ v ∷ ys
unfolding set_elem
set_elem-middle [] x v ys = refl
set_elem-middle (y ∷ xs) x v ys = ap (◌∷◌ y) (set_elem-middle xs x v ys)
