-- ===== src/Storage/Linked/Edit.antt =====
-- internal/storage/list.go: removal, insertion, search and ranges.
use mathlib.Core.Option
use go_redis.Prelude.{
  ℕ, zero, suc, ◌+◌, ◌-◌, List, [], ◌∷◌, Option, none, some, Bool, true, false, ◌||◌, ltb, leb,
  if◌then◌else◌,
}
use go_redis.Prelude.Eq.{Text, text_eq, nat_eq, ◌==◌}
use go_redis.Prelude.Int.{ℤ, pos, negsuc, pos_part}
use go_redis.Storage.Linked.{
  Node, LinkedList, new_list, set_next, set_prev, new_node, link_next, link_prev, longer, shorter,
  count_back, get_node_at, push_back,
}

unfoldable pub remove_node : ℕ → LinkedList → LinkedList
remove_node node l =
    let l1 = link_next (l.nodes node).prev (l.nodes node).next l in
    let l2 = link_prev (l1.nodes node).next (l1.nodes node).prev l1 in shorter l2

unfoldable pub insert_before : ℕ → Text → LinkedList → LinkedList
insert_before node value l =
    let q = l.fresh in
    let l1 = new_node (record { value = value; prev = (l.nodes node).prev; next = some node }) l in
    let l2 = link_next (l.nodes node).prev (some q) l1 in
    longer (record l2 { nodes = set_prev node (some q) l2.nodes })

unfoldable pub insert_after : ℕ → Text → LinkedList → LinkedList
insert_after node value l =
    let q = l.fresh in
    let l1 = new_node (record { value = value; prev = some node; next = (l.nodes node).next }) l in
    let l2 = link_prev (l.nodes node).next (some q) l1 in
    longer (record l2 { nodes = set_next node (some q) l2.nodes })

-- `for node != nil`, over the values
unfoldable pub values_from : ℕ → (ℕ → Node) → Option ℕ → Option (List Text)
values_from k ns none = some []
values_from zero ns (some p) = none
values_from (suc k) ns (some p) =
    Option.map (λ xs. (ns p).value ∷ xs) (values_from k ns (ns p).next)

unfoldable pub to_slice : LinkedList → Option (List Text)
to_slice l = values_from (pos_part l.length) l.nodes l.head

unfoldable pub push_all : List Text → LinkedList → LinkedList
push_all [] l = l
push_all (x ∷ xs) l = push_all xs (push_back x l)

-- The loop of `Clone` pushes the values that `ToSlice` collects.
unfoldable pub clone : LinkedList → Option LinkedList
clone l =
    if pos_part l.length == 0
    then some new_list
    else Option.map (λ xs. push_all xs new_list) (values_from (pos_part l.length) l.nodes l.head)

unfoldable pub find_forward : ℕ → (ℕ → Node) → Text → Option ℕ → Option (Option ℕ)
find_forward k ns value none = some none
find_forward zero ns value (some p) = none
find_forward (suc k) ns value (some p) =
    let rest = find_forward k ns value (ns p).next in
    if (ns p).value == value then some (some p) else rest

unfoldable pub find_backward : ℕ → (ℕ → Node) → Text → Option ℕ → Option (Option ℕ)
find_backward k ns value none = some none
find_backward zero ns value (some p) = none
find_backward (suc k) ns value (some p) =
    let rest = find_backward k ns value (ns p).prev in
    if (ns p).value == value then some (some p) else rest

unfoldable pub find_node : Text → Bool → LinkedList → Option (Option ℕ)
find_node value true l = find_forward (pos_part l.length) l.nodes value l.head
find_node value false l = find_backward (pos_part l.length) l.nodes value l.tail

abbrev pub from_zero : ℤ → ℕ
from_zero (pos i) = i
from_zero (negsuc i) = 0

-- `stop >= l.Length` is cut to `l.Length - 1`; `none` for an index that stays negative
abbrev pub up_to : ℕ → ℤ → Option ℕ
up_to n (pos i) = some (if leb n i then n - 1 else i)
up_to n (negsuc i) = none

abbrev pub bounded : ℕ → ℕ → Option ℕ → Option (ℕ × ℕ)
bounded n start none = none
bounded n start (some stop) = if ltb stop start || leb n start then none else some (start, stop)

-- The range that `Range` and `Trim` compute; `none` if it is empty.
unfoldable pub range_of : ℕ → ℤ → ℤ → Option (ℕ × ℕ)
range_of n start stop =
    bounded n (from_zero (count_back (pos n) start)) (up_to n (count_back (pos n) stop))

-- the loop of `Range`
unfoldable pub take_values : ℕ → (ℕ → Node) → Option ℕ → List Text
take_values zero ns p = []
take_values (suc k) ns none = []
take_values (suc k) ns (some p) = (ns p).value ∷ take_values k ns (ns p).next

unfoldable pub range_from : ℕ → LinkedList → Option (Option ℕ) → Option (List Text)
range_from k l none = none
range_from k l (some p) = some (take_values k l.nodes p)

unfoldable pub range_within : LinkedList → Option (ℕ × ℕ) → Option (List Text)
range_within l none = some []
range_within l (some (start, stop)) = range_from (stop - start + 1) l (get_node_at (pos start) l)

unfoldable pub range : ℤ → ℤ → LinkedList → Option (List Text)
range start stop l =
    if pos_part l.length == 0
    then some []
    else range_within l (range_of (pos_part l.length) start stop)

-- `if p != nil { p.Prev = nil }`
abbrev pub cut_prev : Option ℕ → (ℕ → Node) → ℕ → Node
cut_prev none ns = ns
cut_prev (some p) ns = set_prev p none ns

abbrev pub cut_next : Option ℕ → (ℕ → Node) → ℕ → Node
cut_next none ns = ns
cut_next (some p) ns = set_next p none ns

unfoldable pub trim_to : ℕ → LinkedList → Option (Option ℕ) → Option (Option ℕ) → Option LinkedList
trim_to n l none _ = none
trim_to n l (some p) none = none
trim_to n l (some p) (some q) =
    some (record l { nodes = cut_next q (cut_prev p l.nodes); head = p; tail = q; length = pos n })

unfoldable pub trim_within : LinkedList → Option (ℕ × ℕ) → Option LinkedList
trim_within l none = some (record l { head = none; tail = none; length = pos 0 })
trim_within l (some (start, stop)) =
    trim_to (stop - start + 1) l (get_node_at (pos start) l) (get_node_at (pos stop) l)

unfoldable pub trim : ℤ → ℤ → LinkedList → Option LinkedList
trim start stop l =
    if pos_part l.length == 0
    then some l
    else trim_within l (range_of (pos_part l.length) start stop)
