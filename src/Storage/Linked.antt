-- ===== src/Storage/Linked.antt =====
-- internal/storage/list.go: the doubly linked list. A list owns its nodes: they stand at addresses of
-- its own, `fresh` is the first free one, and a nil pointer is `none`. A method that may dereference
-- nil, or that follows the pointers in a loop, returns an option: `none` is a panic, or a loop that
-- goes on after it has passed as many nodes as the length says.
pub mod Edit
pub mod Chain
pub mod Splice
pub mod Moves
pub mod Insertions
pub mod Ends
pub mod Pushes
pub mod Walk
pub mod Positions
pub mod Sequence
pub mod Methods
pub mod Ranges
pub mod Trims
pub mod Search
pub mod Removal
pub mod Backwards
pub mod Calls
use go_redis.Prelude.{
  ℕ, zero, suc, ◌+◌, ◌-◌, ◌/◌, List, [], ◌∷◌, ◌++◌, Option, none, some, Bool, true, false, ◌||◌,
  ltb, leb, if◌then◌else◌,
}
use go_redis.Prelude.Eq.{Text, text_eq, nat_eq, ◌==◌}
use go_redis.Prelude.Int.{ℤ, pos, negsuc, ◌+ℤ◌, pos_part}

pub record Node : Type 0 where
  pub value : Text
  pub prev : Option ℕ
  pub next : Option ℕ

pub record LinkedList : Type 0 where
  pub nodes : ℕ → Node
  pub fresh : ℕ
  pub head : Option ℕ
  pub tail : Option ℕ
  pub length : ℤ

abbrev pub nil_node : Node
nil_node = record { value = []; prev = none; next = none }

abbrev pub new_list : LinkedList
new_list = record { nodes = λ p. nil_node; fresh = 0; head = none; tail = none; length = pos 0 }

-- an assignment to a node, or to one of its fields
abbrev pub set_node : ℕ → Node → (ℕ → Node) → ℕ → Node
set_node p n ns q = if q == p then n else ns q

abbrev pub set_next : ℕ → Option ℕ → (ℕ → Node) → ℕ → Node
set_next p q ns = set_node p (record (ns p) { next = q }) ns

abbrev pub set_prev : ℕ → Option ℕ → (ℕ → Node) → ℕ → Node
set_prev p q ns = set_node p (record (ns p) { prev = q }) ns

-- `&ListNode{...}`, at the address `l.fresh`
abbrev pub new_node : Node → LinkedList → LinkedList
new_node n l = record l { nodes = set_node l.fresh n l.nodes; fresh = l.fresh + 1 }

-- `if p != nil { p.Next = q } else { l.Head = q }`
unfoldable pub link_next : Option ℕ → Option ℕ → LinkedList → LinkedList
link_next none q l = record l { head = q }
link_next (some p) q l = record l { nodes = set_next p q l.nodes }

-- `if p != nil { p.Prev = q } else { l.Tail = q }`
unfoldable pub link_prev : Option ℕ → Option ℕ → LinkedList → LinkedList
link_prev none q l = record l { tail = q }
link_prev (some p) q l = record l { nodes = set_prev p q l.nodes }

abbrev pub longer : LinkedList → LinkedList
longer l = record l { length = l.length +ℤ pos 1 }

abbrev pub shorter : LinkedList → LinkedList
shorter l = record l { length = l.length +ℤ negsuc 0 }

-- the branches of `PushFront` on `l.Head`, once the node is made
unfoldable pub put_front : ℕ → Option ℕ → LinkedList → LinkedList
put_front node none l = record l { head = some node; tail = some node }
put_front node (some p) l = record l {
  nodes = set_prev p (some node) (set_next node (some p) l.nodes);
  head = some node;
}

unfoldable pub push_front : Text → LinkedList → LinkedList
push_front value l =
    longer (put_front l.fresh l.head (new_node (record nil_node { value = value }) l))

unfoldable pub put_back : ℕ → Option ℕ → LinkedList → LinkedList
put_back node none l = record l { head = some node; tail = some node }
put_back node (some p) l = record l {
  nodes = set_next p (some node) (set_prev node (some p) l.nodes);
  tail = some node;
}

unfoldable pub push_back : Text → LinkedList → LinkedList
push_back value l =
    longer (put_back l.fresh l.tail (new_node (record nil_node { value = value }) l))

-- `PopFront` and `PopBack` answer `none` for an empty list.
unfoldable pub new_head : Option ℕ → LinkedList → LinkedList
new_head none l = record l { head = none; tail = none }
new_head (some p) l = record l { head = some p; nodes = set_prev p none l.nodes }

unfoldable pub pop_first : Option ℕ → LinkedList → LinkedList × Option Text
pop_first none l = (l, none)
pop_first (some p) l = (shorter (new_head (l.nodes p).next l), some (l.nodes p).value)

unfoldable pub pop_front : LinkedList → LinkedList × Option Text
pop_front l = pop_first l.head l

unfoldable pub new_tail : Option ℕ → LinkedList → LinkedList
new_tail none l = record l { tail = none; head = none }
new_tail (some p) l = record l { tail = some p; nodes = set_next p none l.nodes }

unfoldable pub pop_last : Option ℕ → LinkedList → LinkedList × Option Text
pop_last none l = (l, none)
pop_last (some p) l = (shorter (new_tail (l.nodes p).prev l), some (l.nodes p).value)

unfoldable pub pop_back : LinkedList → LinkedList × Option Text
pop_back l = pop_last l.tail l

-- `node = node.Next`, some times
unfoldable pub forward : (ℕ → Node) → ℕ → Option ℕ → Option (Option ℕ)
forward ns zero p = some p
forward ns (suc k) none = none
forward ns (suc k) (some p) = forward ns k (ns p).next

-- `node = node.Prev`, some times
unfoldable pub backward : (ℕ → Node) → ℕ → Option ℕ → Option (Option ℕ)
backward ns zero p = some p
backward ns (suc k) none = none
backward ns (suc k) (some p) = backward ns k (ns p).prev

abbrev pub count_back : ℤ → ℤ → ℤ
count_back length (pos i) = pos i
count_back length (negsuc i) = length +ℤ negsuc i

-- the node at an index that is not negative any more, from the nearer end
unfoldable pub node_from_end : ℕ → ℕ → LinkedList → Option (Option ℕ)
node_from_end i n l =
    if leb n i
    then some none
    else if ltb i (n / 2)
    then forward l.nodes i l.head
    else backward l.nodes (n - 1 - i) l.tail

unfoldable pub node_at : ℤ → LinkedList → Option (Option ℕ)
node_at (negsuc i) l = some none
node_at (pos i) l = node_from_end i (pos_part l.length) l

unfoldable pub get_node_at : ℤ → LinkedList → Option (Option ℕ)
get_node_at index l =
    if pos_part l.length == 0 then some none else node_at (count_back l.length index) l

abbrev pub value_of : (ℕ → Node) → Option ℕ → Option Text
value_of ns none = none
value_of ns (some p) = some (ns p).value

unfoldable pub value_found : LinkedList → Option (Option ℕ) → Option (Option Text)
value_found l none = none
value_found l (some p) = some (value_of l.nodes p)

unfoldable pub get_at : ℤ → LinkedList → Option (Option Text)
get_at index l = value_found l (get_node_at index l)

unfoldable pub set_value : Text → LinkedList → Option (Option ℕ) → Option (LinkedList × Bool)
set_value value l none = none
set_value value l (some none) = some (l, false)
set_value value l (some (some p)) =
    some (record l { nodes = set_node p (record (l.nodes p) { value = value }) l.nodes }, true)

unfoldable pub set_at : ℤ → Text → LinkedList → Option (LinkedList × Bool)
set_at index value l = set_value value l (get_node_at index l)
