-- ===== src/Storage/Linked/Walk.antt =====
-- internal/storage/list.go: the loops that walk along the nodes of a list.
use go_redis.Prelude.{
  ℕ, zero, suc, ◌+◌, ◌-◌, ◌/◌, ◌<◌, ◌≤◌, ◌≡◌, inl, inr, refl, ap, ◌∙◌, List, [], ◌∷◌, ◌++◌, Option,
  none, some, length, arith, take, false, Bool-cases, ltb, leb, length-append,
}
use go_redis.Prelude.Eq.{Text, text_eq, nat_eq}
use go_redis.Prelude.Int.{pos_part}
use go_redis.Storage.Linked.{Node, LinkedList, forward, backward, node_from_end}
use go_redis.Storage.Linked.Edit.{values_from, to_slice, take_values}
use go_redis.Storage.Linked.Chain.{
  Cells, first, last, Links, Links-left, Links-right, first-append, last-append, Holds,
}

abbrev pub values : Cells → List Text
values [] = []
values ((p, x) ∷ cs) = x ∷ values cs

pub values-append : (cs ds : Cells) → values (cs ++ ds) ≡ values cs ++ values ds
values-append [] ds = refl
values-append ((p, x) ∷ cs) ds = ap (◌∷◌ x) (values-append cs ds)

pub length-values : (cs : Cells) → length (values cs) ≡ length cs
length-values [] = refl
length-values ((p, x) ∷ cs) = ap suc (length-values cs)

pub take-values : (n : ℕ) (cs : Cells) → values (take n cs) ≡ take n (values cs)
take-values zero cs = refl
take-values (suc n) [] = refl
take-values (suc n) ((p, x) ∷ cs) = ap (◌∷◌ x) (take-values n cs)

pub values_from-Links :
    (k : ℕ) (ns : ℕ → Node) (before : Option ℕ) (cs : Cells)
    → Links ns before cs none
    → length cs ≤ k
    → values_from k ns (first cs none) ≡ some (values cs)
unfolding values_from
values_from-Links k ns before [] h le = refl
values_from-Links zero ns before ((p, x) ∷ cs) h le = absurd (omega arith)
values_from-Links (suc k) ns before ((p, x) ∷ cs) h le =
    rw (h.0, h.2, values_from-Links k ns (some p) cs h.3 (omega arith)) refl

-- `ToSlice` answers the values in their order.
pub to_slice-Holds : (l : LinkedList) (cs : Cells) → Holds l cs → to_slice l ≡ some (values cs)
unfolding to_slice
to_slice-Holds l cs h =
    let e : pos_part l.length ≡ length cs = ap pos_part h.counted in
    ap (λ p. values_from (pos_part l.length) l.nodes p) h.head
    ∙ values_from-Links (pos_part l.length) l.nodes none cs h.links (omega arith)

take_values-Links :
    (k : ℕ) (ns : ℕ → Node) (before : Option ℕ) (cs : Cells)
    → Links ns before cs none
    → take_values k ns (first cs none) ≡ take k (values cs)
unfolding take_values
take_values-Links zero ns before cs h = refl
take_values-Links (suc k) ns before [] h = refl
take_values-Links (suc k) ns before ((p, x) ∷ cs) h =
    rw (h.0, h.2, take_values-Links k ns (some p) cs h.3) refl

pub take_values-at :
    (k : ℕ) (l : LinkedList) (cs : Cells) (p : ℕ) (x : Text) (ds : Cells)
    → Holds l (cs ++ (p, x) ∷ ds)
    → take_values k l.nodes (some p) ≡ take k (x ∷ values ds)
take_values-at k l cs p x ds h =
    take_values-Links k l.nodes (last none cs) ((p, x) ∷ ds)
      (Links-right l.nodes none cs ((p, x) ∷ ds) none h.links)

forward-Links :
    (ns : ℕ → Node) (before : Option ℕ) (cs : Cells) (after : Option ℕ)
    → Links ns before cs after
    → forward ns (length cs) (first cs after) ≡ some after
unfolding forward
forward-Links ns before [] after h = refl
forward-Links ns before ((p, x) ∷ cs) after h = rw h.2 (forward-Links ns (some p) cs after h.3)

backward-Links :
    (ns : ℕ → Node) (k : ℕ) (p : ℕ) (cs : Cells) (after : Option ℕ)
    → Links ns (some p) cs after
    → backward ns (k + length cs) (last (some p) cs) ≡ backward ns k (some p)
unfolding backward
backward-Links ns k p [] after h = let e : k + 0 ≡ k = omega arith in rw e refl
backward-Links ns k p ((q, x) ∷ cs) after h =
    let e : k + suc (length cs) ≡ suc k + length cs = omega arith in
    rw (e, backward-Links ns (suc k) q cs after h.3, h.1) refl

-- the cell at an index
pub cell_at :
    (i : ℕ) (cs : Cells)
    → i < length cs
    → (ds : Cells) × (p : ℕ) × (x : Text) × (es : Cells) × (cs ≡ ds ++ (p, x) ∷ es)
      × (length ds ≡ i)
cell_at i [] lt = absurd (omega arith)
cell_at zero ((p, x) ∷ cs) lt = ([], p, x, cs, refl, refl)
cell_at (suc i) ((q, y) ∷ cs) lt =
    let (ds, p, x, es, e, n) = cell_at i cs (omega arith) in
    ((q, y) ∷ ds, p, x, es, ap (◌∷◌ (q, y)) e, ap suc n)

-- From both ends the walk comes to the node at the index.
forward-Holds :
    (l : LinkedList) (cs : Cells) (p : ℕ) (x : Text) (ds : Cells)
    → Holds l (cs ++ (p, x) ∷ ds)
    → forward l.nodes (length cs) l.head ≡ some (some p)
forward-Holds l cs p x ds h =
    ap (λ o. forward l.nodes (length cs) o) (h.head ∙ first-append cs ((p, x) ∷ ds) none)
    ∙ forward-Links l.nodes none cs (some p) (Links-left l.nodes none cs ((p, x) ∷ ds) none h.links)

backward-Holds :
    (l : LinkedList) (cs : Cells) (p : ℕ) (x : Text) (ds : Cells)
    → Holds l (cs ++ (p, x) ∷ ds)
    → backward l.nodes (length ds) l.tail ≡ some (some p)
unfolding backward
backward-Holds l cs p x ds h =
    let e : length ds ≡ 0 + length ds = omega arith in
    ap (λ o. backward l.nodes (length ds) o) (h.tail ∙ last-append none cs ((p, x) ∷ ds))
    ∙ ap (λ n. backward l.nodes n (last (some p) ds)) e
    ∙ backward-Links l.nodes 0 p ds none (Links-right l.nodes none cs ((p, x) ∷ ds) none h.links).3

pub node_from_end-Holds :
    (l : LinkedList) (cs : Cells) (p : ℕ) (x : Text) (ds : Cells)
    → Holds l (cs ++ (p, x) ∷ ds)
    → node_from_end (length cs) (length (cs ++ (p, x) ∷ ds)) l ≡ some (some p)
unfolding node_from_end
node_from_end-Holds l cs p x ds h =
    let n = length (cs ++ (p, x) ∷ ds) in
    let e : n ≡ length cs + suc (length ds) = length-append cs ((p, x) ∷ ds) in
    let b : n - 1 - length cs ≡ length ds = omega arith in
    let a : leb n (length cs) ≡ false = ground arith in
    rw a (elim (Bool-cases (ltb (length cs) (n / 2))) [
      | inl y ↦ rw y (forward-Holds l cs p x ds h)
      | inr y ↦ rw (y, b) (backward-Holds l cs p x ds h)
    ])
