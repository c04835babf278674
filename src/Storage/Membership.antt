-- ===== src/Storage/Membership.antt =====
-- internal/storage/set.go and set_ops.go: which members the operations on sets leave.
use go_redis.Prelude.{
  inl, inr, ◌≡◌, refl, ap, List, [], ◌∷◌, Bool, true, false, not, ◌&&◌, ◌||◌, if◌then◌else◌,
  Bool-cases, arith,
}
use go_redis.Prelude.Eq.{Text, text_eq, text_beq_iff, ◌==◌}
use go_redis.Prelude.Maps.{
  Map, lookup, insert, remove, member, elem, elem-keys, member-insert, member-remove, member-nil,
  lookup-insert_self, lookup-remove,
}
use go_redis.Prelude.Maps
use go_redis.Storage.Sets.{
  Members, add, drop, add_all, union, add_common, intersect, add_missing, diff, add_members,
  drop_members,
}

member-same : (m x : Text) (s : Members) → (m == x) ≡ true → member m s ≡ member x s
member-same m x s e = ap (λ k. member k s) ((text_beq_iff m x).0 e)

member-add : (x m : Text) (s : Members) → member x (add m s).0 ≡ (m == x || member x s)
unfolding add
member-add x m s = elim (Bool-cases (m == x)) [
  | inl e ↦ ground (arith, member-same m x s e, member-insert m x tt s)
  | inr n ↦ ground (arith, member-insert m x tt s)
]

member-drop : (x m : Text) (s : Members) → member x (drop m s).0 ≡ (not (m == x) && member x s)
unfolding drop
member-drop x m s = elim (Bool-cases (m == x)) [
  | inl e ↦ ground (arith, member-same m x s e, member-remove m x s)
  | inr n ↦ ground (arith, member-remove m x s)
]

member-add_all :
    (x : Text) (ms : List Text) (s : Members) → member x (add_all ms s) ≡ (elem x ms || member x s)
unfolding add_all elem
member-add_all x [] s = refl
member-add_all x (m ∷ ms) s = ground (arith, member-add_all x ms (add m s).0, member-add x m s)

-- one round of the loop of `Intersect`
member-add_if :
    (x m : Text) (b : Bool) (acc : Members)
    → member x (if b then (add m acc).0 else acc) ≡ ((m == x && b) || member x acc)
member-add_if x m true acc = ground (arith, member-add x m acc)
member-add_if x m false acc = ground arith

member-add_common :
    (x : Text) (ms : List Text) (t acc : Members)
    → member x (add_common ms t acc) ≡ ((elem x ms && member x t) || member x acc)
unfolding add_common elem
member-add_common x [] t acc = refl
member-add_common x (m ∷ ms) t acc = elim (Bool-cases (m == x)) [
  | inl e ↦ ground (
    arith,
    member-same m x t e,
    member-add_if x m (member m t) acc,
    member-add_common x ms t (if member m t then (add m acc).0 else acc),
  )
  | inr n ↦ ground (
    arith,
    member-add_if x m (member m t) acc,
    member-add_common x ms t (if member m t then (add m acc).0 else acc),
  )
]

member-add_unless :
    (x m : Text) (b : Bool) (acc : Members)
    → member x (if b then acc else (add m acc).0) ≡ ((m == x && not b) || member x acc)
member-add_unless x m true acc = ground arith
member-add_unless x m false acc = ground (arith, member-add x m acc)

member-add_missing :
    (x : Text) (ms : List Text) (t acc : Members)
    → member x (add_missing ms t acc) ≡ ((elem x ms && not (member x t)) || member x acc)
unfolding add_missing elem
member-add_missing x [] t acc = refl
member-add_missing x (m ∷ ms) t acc = elim (Bool-cases (m == x)) [
  | inl e ↦ ground (
    arith,
    member-same m x t e,
    member-add_unless x m (member m t) acc,
    member-add_missing x ms t (if member m t then acc else (add m acc).0),
  )
  | inr n ↦ ground (
    arith,
    member-add_unless x m (member m t) acc,
    member-add_missing x ms t (if member m t then acc else (add m acc).0),
  )
]

-- The union of two sets has the members of either.
pub member-union : (x : Text) (s t : Members) → member x (union s t) ≡ (member x s || member x t)
unfolding union
member-union x s t = ground (
  arith,
  member-add_all x (Maps.keys t) (add_all (Maps.keys s) []),
  member-add_all x (Maps.keys s) [],
  elem-keys x s,
  elem-keys x t,
  member-nil (Unit {0}) x,
)

-- The intersection of two sets has the members of both, whichever set is the smaller one.
pub member-intersect :
    (x : Text) (s t : Members) → member x (intersect s t) ≡ (member x s && member x t)
unfolding intersect
member-intersect x s t = ground (
  arith,
  member-add_common x (Maps.keys t) s [],
  member-add_common x (Maps.keys s) t [],
  elem-keys x s,
  elem-keys x t,
  member-nil (Unit {0}) x,
)

-- The difference of two sets has the members of the first that the second has not.
pub member-diff :
    (x : Text) (s t : Members) → member x (diff s t) ≡ (member x s && not (member x t))
unfolding diff
member-diff x s t =
    ground (arith, member-add_missing x (Maps.keys s) t [], elem-keys x s, member-nil (Unit {0}) x)

pub member-add_members :
    (x : Text) (ms : List Text) (s : Members)
    → member x (add_members ms s).0 ≡ (elem x ms || member x s)
unfolding add_members elem
member-add_members x [] s = refl
member-add_members x (m ∷ ms) s =
    ground (arith, member-add_members x ms (add m s).0, member-add x m s)

pub member-drop_members :
    (x : Text) (ms : List Text) (s : Members)
    → member x (drop_members ms s).0 ≡ (not (elem x ms) && member x s)
unfolding drop_members elem
member-drop_members x [] s = refl
member-drop_members x (m ∷ ms) s =
    ground (arith, member-drop_members x ms (drop m s).0, member-drop x m s)
