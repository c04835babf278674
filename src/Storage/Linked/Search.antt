-- ===== src/Storage/Linked/Search.antt =====
-- internal/storage/list.go: `FindNode` from the head, and internal/storage/list_ops.go:
-- the insertion of `LInsert` beside the node that it finds.
use mathlib.Core.Option
use go_redis.Prelude.{
  ℕ, zero, suc, ◌≤◌, ◌≡◌, ◌⊎◌, inl, inr, refl, ap, List, [], ◌∷◌, ◌++◌, Option, none, some, Bool,
  true, false, length, arith, if◌then◌else◌, Bool-cases,
}
use go_redis.Prelude.Eq.{Text, text_eq, ◌==◌}
use go_redis.Prelude.Int.{pos_part}
use go_redis.Storage.Linked.{Node, LinkedList}
use go_redis.Storage.Linked.Edit.{find_forward, find_node, insert_before, insert_after}
use go_redis.Storage.Linked.Chain.{Cells, first, Links, Holds}
use go_redis.Storage.Linked.Insertions.{insert_before-Holds, insert_after-Holds}
use go_redis.Storage.Linked.Walk.{values, values-append}
use go_redis.Storage.Linked.Sequence.{IsList}
use go_redis.Storage.Linked.Methods.{Answers}

-- the value beside another one
abbrev pub beside : Bool → Text → Text → List Text → List Text
beside true v x xs = v ∷ x ∷ xs
beside false v x xs = x ∷ v ∷ xs

-- the value beside the first occurrence of the pivot, `none` if there is none
unfoldable pub insert_beside : Bool → Text → Text → List Text → Option (List Text)
insert_beside before pivot v [] = none
insert_beside before pivot v (x ∷ xs) =
    let rest = Option.map (λ ys. x ∷ ys) (insert_beside before pivot v xs) in
    if x == pivot then some (beside before v x xs) else rest

-- `if before { list.InsertBefore(node, value) } else { list.InsertAfter(node, value) }`
unfoldable pub insert_at : Bool → ℕ → Text → LinkedList → LinkedList
insert_at true node value l = insert_before node value l
insert_at false node value l = insert_after node value l

-- with the answer `false` if there is no pivot
unfoldable pub insert_found :
    Bool → Text → LinkedList → Option (Option ℕ) → Option (LinkedList × Bool)
insert_found before value l none = none
insert_found before value l (some none) = some (l, false)
insert_found before value l (some (some p)) = some (insert_at before p value l, true)

unfoldable pub insert_or_same : List Text → Option (List Text) → List Text × Bool
insert_or_same xs none = (xs, false)
insert_or_same xs (some ys) = (ys, true)

-- what a search for the pivot means
abbrev Missing : Text → Cells → Option (Option ℕ) → Type 0
Missing pivot cs o =
    (o ≡ some none) × ((b : Bool) (v : Text) → insert_beside b pivot v (values cs) ≡ none)

abbrev FoundAt : Text → Cells → Option (Option ℕ) → Type 0
FoundAt pivot cs o =
    (ds : Cells) × (p : ℕ) × (x : Text) × (es : Cells) × (cs ≡ ds ++ (p, x) ∷ es)
    × (o ≡ some (some p))
    × ((b : Bool) (v : Text)
        → insert_beside b pivot v (values cs) ≡ some (values ds ++ beside b v x (values es)))

find_forward-Links :
    (k : ℕ) (ns : ℕ → Node) (pivot : Text) (before : Option ℕ) (cs : Cells)
    → Links ns before cs none
    → length cs ≤ k
    → Missing pivot cs (find_forward k ns pivot (first cs none))
      ⊎ FoundAt pivot cs (find_forward k ns pivot (first cs none))
unfolding find_forward insert_beside
find_forward-Links k ns pivot before [] h le = inl (refl, λ b v. refl)
find_forward-Links zero ns pivot before ((p, x) ∷ cs) h le = absurd (omega arith)
find_forward-Links (suc k) ns pivot before ((p, x) ∷ cs) h le = elim (Bool-cases (x == pivot)) [
  | inl y ↦ inr ([], p, x, cs, refl, rw (h.0, y) refl, λ b v. rw y refl)
  | inr y ↦ elim (find_forward-Links k ns pivot (some p) cs h.3 (omega arith)) [
    | inl m ↦ inl (rw (h.0, h.2, y) m.0, λ b v. rw (y, m.1 b v) refl)
    | inr (ds, q, z, es, e, f, g) ↦
        inr
          ((p, x) ∷ ds, q, z, es, ap (◌∷◌ (p, x)) e, rw (h.0, h.2, y) f, λ b v. rw (y, g b v) refl)
  ]
]

find_node-Holds :
    (pivot : Text) (l : LinkedList) (cs : Cells)
    → Holds l cs
    → Missing pivot cs (find_node pivot true l) ⊎ FoundAt pivot cs (find_node pivot true l)
unfolding find_node
find_node-Holds pivot l cs h =
    let n : length cs ≤ pos_part l.length = rw (ap pos_part h.counted) (omega arith) in
    rw (← h.head) at (find_forward-Links (pos_part l.length) l.nodes pivot none cs h.links n)

insert_at-Holds :
    (b : Bool) (l : LinkedList) (ds : Cells) (p : ℕ) (x v : Text) (es : Cells)
    → Holds l (ds ++ (p, x) ∷ es)
    → IsList (insert_at b p v l) (values ds ++ beside b v x (values es))
unfolding insert_at
insert_at-Holds true l ds p x v es h = (
  ds ++ (l.fresh, v) ∷ (p, x) ∷ es,
  insert_before-Holds l ds p x v es h,
  values-append ds ((l.fresh, v) ∷ (p, x) ∷ es),
)
insert_at-Holds false l ds p x v es h = (
  ds ++ (p, x) ∷ (l.fresh, v) ∷ es,
  insert_after-Holds l ds p x v es h,
  values-append ds ((p, x) ∷ (l.fresh, v) ∷ es),
)

insert_found-Holds :
    (b : Bool) (pivot v : Text) (l : LinkedList) (cs : Cells) (o : Option (Option ℕ))
    → Holds l cs
    → Missing pivot cs o ⊎ FoundAt pivot cs o
    → Answers
        (insert_found b v l o)
        (insert_or_same (values cs) (insert_beside b pivot v (values cs))).0
        (insert_or_same (values cs) (insert_beside b pivot v (values cs))).1
unfolding insert_found insert_or_same
insert_found-Holds b pivot v l cs o h (inl (e, f)) = rw (e, f b v) (l, refl, (cs, h, refl))
insert_found-Holds b pivot v l cs o h (inr (ds, p, x, es, e, f, g)) =
    rw (f, g b v) (insert_at b p v l, refl, insert_at-Holds b l ds p x v es (rw e at h))

-- Insertion beside the first occurrence of a pivot.
pub insert_found-IsList :
    (b : Bool) (pivot v : Text) (l : LinkedList) (xs : List Text)
    → IsList l xs
    → Answers
        (insert_found b v l (find_node pivot true l))
        (insert_or_same xs (insert_beside b pivot v xs)).0
        (insert_or_same xs (insert_beside b pivot v xs)).1
insert_found-IsList b pivot v l xs (cs, h, e) =
    rw⁻¹ e
      (insert_found-Holds b pivot v l cs (find_node pivot true l) h (find_node-Holds pivot l cs h))
