-- ===== src/Prelude/Maps.antt =====
-- Go maps, as association lists. `range` visits a map in an order that Go leaves open; the order
-- of the list stands for it.
use mathlib.Core.Path.{◌≡◌, refl}
use mathlib.Core.Bool.{Bool, true, false, ◌||◌}
use mathlib.Core.Option.{Option, none, some}
use mathlib.Core.List.{List, [], ◌∷◌}
use Prim.Native.Nat.{◌≤◌}
use native.Mathlib.Omega.{arith}
use go_redis.Prelude.Tests.{if◌then◌else◌}
use go_redis.Prelude.Lists.{length}
use go_redis.Prelude.Eq.{Comparable, ◌==◌, beq_refl}

abbrev pub Map {ℓ κ} : Type ℓ → Type κ → Type (ℓ ⊔ κ)
Map K V = List (K × V)

abbrev pub keys {ℓ κ} : {K : Type ℓ} {V : Type κ} → Map K V → List K
keys [] = []
keys ((k, v) ∷ m) = k ∷ keys m

abbrev pub is_some {ℓ} : {A : Type ℓ} → Option A → Bool
is_some none = false
is_some (some a) = true

module _ {ℓ κ} {K : Type ℓ} {V : Type κ} ⦃e : Comparable K⦄ where
  -- `m[k]` with its second result
  unfoldable pub lookup : K → Map K V → Option V
  lookup k [] = none
  lookup k ((j, v) ∷ m) = if j == k then some v else lookup k m

  -- `m[k] = v`
  unfoldable pub insert : K → V → Map K V → Map K V
  insert k v [] = (k, v) ∷ []
  insert k v ((j, w) ∷ m) = if j == k then (j, v) ∷ m else (j, w) ∷ insert k v m

  -- `delete(m, k)`
  unfoldable pub remove : K → Map K V → Map K V
  remove k [] = []
  remove k ((j, v) ∷ m) = let rest = remove k m in if j == k then rest else (j, v) ∷ rest

  -- `_, ok := m[k]`
  unfoldable pub member : K → Map K V → Bool
  unfolding lookup
  member k m = is_some (lookup k m)

  pub lookup-insert :
      (new other : K) (v : V) (m : Map K V)
      → lookup other (insert new v m) ≡ (if new == other then some v else lookup other m)
  unfolding insert lookup
  lookup-insert new other v ((k, _) ∷ m) = ground (
    lookup-insert new other v m,
    e.same_iff k new,
    e.same_iff k other,
    e.same_iff new other,
    arith,
  )
  lookup-insert new other v [] = refl

  pub lookup-remove :
      (k j : K) (m : Map K V) → lookup j (remove k m) ≡ (if k == j then none else lookup j m)
  unfolding lookup remove
  lookup-remove k j [] = ground arith
  lookup-remove k j ((i, w) ∷ m) =
      ground (arith, e.same_iff k j, e.same_iff i k, e.same_iff i j, lookup-remove k j m)

  pub lookup-nil : (j : K) → lookup j [] ≡ none
  unfolding lookup
  lookup-nil j = refl

  pub lookup-insert_self : (k : K) (v : V) (m : Map K V) → lookup k (insert k v m) ≡ some v
  lookup-insert_self k v m = simp (lookup-insert, beq_refl)

  pub length-insert-pos : (k : K) (v : V) (m : Map K V) → 1 ≤ length (insert k v m)
  unfolding insert
  length-insert-pos k v [] = omega arith
  length-insert-pos k v ((i, w) ∷ m) = ground arith

module _ {ℓ κ} {K : Type ℓ} {V : Type κ} ⦃e : Comparable K⦄ where
  pub member-insert :
      (k j : K) (v : V) (m : Map K V) → member j (insert k v m) ≡ (k == j || member j m)
  unfolding member
  member-insert k j v m = ground (arith, lookup-insert k j v m)

  pub member-remove :
      (k j : K) (m : Map K V) → member j (remove k m) ≡ (if k == j then false else member j m)
  unfolding member
  member-remove k j m = ground (arith, lookup-remove k j m)

pub member-nil {ℓ κ} :
    {K : Type ℓ} (V : Type κ) ⦃e : Comparable K⦄ (j : K) → member {K = K} {V = V} j [] ≡ false
unfolding member lookup
member-nil V j = refl

-- `x` is among the elements of the list.
unfoldable pub elem {ℓ} : {K : Type ℓ} ⦃e : Comparable K⦄ → K → List K → Bool
elem x [] = false
elem x (y ∷ ys) = y == x || elem x ys

module _ {ℓ κ} {K : Type ℓ} {V : Type κ} ⦃e : Comparable K⦄ where
  pub elem-keys : (k : K) (m : Map K V) → elem k (keys m) ≡ member k m
  unfolding elem member
  elem-keys k [] = refl
  elem-keys k ((j, v) ∷ m) = ground (arith, elem-keys k m)

pub ruleset map_laws = (lookup-insert, lookup-remove, lookup-nil)
