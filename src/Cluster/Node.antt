-- ===== src/Cluster/Node.antt =====
-- internal/cluster/node.go: the view that a node has of the cluster. Nodes are pointers in the
-- source, and `MySelf` is also an entry of `Nodes`: they stand in a heap here. `SlotMap` is the
-- function from the index to the owner's name, empty if there is none. A panic is `none`.
use go_redis.Prelude.{
  ℕ, zero, suc, List, [], ◌∷◌, ◌++◌, Option, none, some, Bool, true, false, ltb, nat_beq,
  if◌then◌else◌,
}
use go_redis.Prelude.Eq.{Text, nat_eq, text_eq, ◌==◌}
use go_redis.Prelude.Int.{ℤ, pos, negsuc, ◌+ℤ◌}
use go_redis.Prelude.Maps.{Map, lookup, insert, remove}
use go_redis.Cluster.Slot.{num_slots, key_hash_slot}

pub data NodeFlag : Type 0 where
  myself master slave fail pfail handshake noaddr noflags : NodeFlag

flag_code : NodeFlag → ℕ
flag_code myself = 0
flag_code master = 1
flag_code slave = 2
flag_code fail = 3
flag_code pfail = 4
flag_code handshake = 5
flag_code noaddr = 6
flag_code noflags = 7

unfoldable pub flag_beq : NodeFlag → NodeFlag → Bool
unfolding flag_code
flag_beq f g = nat_beq (flag_code f) (flag_code g)

pub record Node : Type 0 where
  pub id : Text
  pub address : Text
  pub port : ℤ
  pub slots : List ℤ
  pub flags : List NodeFlag

has_flag_in : NodeFlag → List NodeFlag → Bool
unfolding flag_beq
has_flag_in flag [] = false
has_flag_in flag (f ∷ fs) = if flag_beq f flag then true else has_flag_in flag fs

unfoldable pub has_flag : Node → NodeFlag → Bool
unfolding has_flag_in
has_flag n flag = has_flag_in flag n.flags

unfoldable pub add_flag : NodeFlag → Node → Node
unfolding has_flag
add_flag flag n = if has_flag n flag then n else record n { flags = n.flags ++ flag ∷ [] }

-- the first of the flags is taken out
drop_flag : NodeFlag → List NodeFlag → List NodeFlag
unfolding flag_beq
drop_flag flag [] = []
drop_flag flag (f ∷ fs) = if flag_beq f flag then fs else f ∷ drop_flag flag fs

unfoldable pub remove_flag : NodeFlag → Node → Node
unfolding drop_flag
remove_flag flag n = record n { flags = drop_flag flag n.flags }

pub data ClusterState : Type 0 where
  state_ok state_fail : ClusterState

abbrev pub Ptr : Type 0
Ptr = ℕ

pub record Cluster : Type 0 where
  pub heap : Ptr → Node
  pub my_self : Ptr
  pub nodes : Map Text Ptr
  pub slot_map : ℕ → Text
  pub state : ClusterState
  pub enabled : Bool
  pub assigned_slots : ℤ

unfoldable pub new_cluster : (Ptr → Node) → Ptr → Text → Text → ℤ → Cluster
new_cluster heap fresh node_id address port = record {
  heap = λ p.
      if p == fresh
      then record {
        id = node_id;
        address = address;
        port = port;
        slots = [];
        flags = myself ∷ master ∷ [];
      }
      else heap p;
  my_self = fresh;
  nodes = insert node_id fresh [];
  slot_map = λ i. [];
  state = state_fail;
  enabled = false;
  assigned_slots = pos 0;
}

-- `slot >= 0 && slot < NumSlots`, with the index
unfoldable pub slot_index : ℤ → Option ℕ
slot_index (pos n) = if ltb n num_slots then some n else none
slot_index (negsuc n) = none

abbrev pub update : (ℕ → Text) → ℕ → Text → ℕ → Text
update m k v i = if i == k then v else m i

abbrev pub is_empty : Text → Bool
is_empty [] = true
is_empty (c ∷ s) = false

-- `SlotMap[k] = id`, with the count of assigned slots
unfoldable pub own_slot : Text → ℕ → Cluster → Cluster
own_slot id k c = record c {
  assigned_slots = if is_empty (c.slot_map k) then c.assigned_slots +ℤ pos 1 else c.assigned_slots;
  slot_map = update c.slot_map k id;
}

-- `append(c.MySelf.Slots, slot)`
unfoldable pub note_slot : ℤ → Cluster → Cluster
note_slot slot c = record c {
  heap = λ p.
      if p == c.my_self
      then record (c.heap p) { slots = (c.heap p).slots ++ slot ∷ [] }
      else c.heap p;
}

unfoldable pub assign_slot : ℤ → Cluster → Cluster
assign_slot slot c = elim (slot_index slot) [
  | none ↦ c
  | some k ↦ note_slot slot (own_slot (c.heap c.my_self).id k c)
]

unfoldable pub assign_loop : List ℤ → Cluster → Cluster
assign_loop [] c = c
assign_loop (slot ∷ slots) c = assign_loop slots (assign_slot slot c)

abbrev pub is_all : ℤ → Bool
is_all (pos n) = nat_beq n num_slots
is_all (negsuc n) = false

unfoldable pub update_state : Cluster → Cluster
update_state c = record c { state = if is_all c.assigned_slots then state_ok else state_fail }

unfoldable pub assign_slots : List ℤ → Cluster → Cluster
assign_slots slots c = update_state (assign_loop slots c)

-- `n` slots from `start` on: the slice that `AssignSlotRange` builds
unfoldable pub slots_from : ℤ → ℕ → List ℤ
slots_from start zero = []
slots_from start (suc n) = start ∷ slots_from (start +ℤ pos 1) n

unfoldable pub get_slot_node : ℤ → Cluster → Text
get_slot_node slot c = elim (slot_index slot) [ none ↦ [] | some k ↦ c.slot_map k ]

unfoldable pub is_slot_owner : ℤ → Cluster → Bool
is_slot_owner slot c = elim (slot_index slot) [
  | none ↦ false
  | some k ↦ c.slot_map k == (c.heap c.my_self).id
]

unfoldable pub is_key_owner : Text → Cluster → Bool
unfolding is_slot_owner
is_key_owner key c = is_slot_owner (pos (key_hash_slot key)) c

-- `c.Nodes[c.SlotMap[slot]]`, `none` for a nil pointer
unfoldable pub get_key_node : Text → Cluster → Option Ptr
get_key_node key c = lookup (c.slot_map (key_hash_slot key)) c.nodes

unfoldable pub add_loop : Text → List ℤ → Cluster → Cluster
add_loop id [] c = c
add_loop id (slot ∷ slots) c = elim (slot_index slot) [
  | none ↦ add_loop id slots c
  | some k ↦ add_loop id slots (own_slot id k c)
]

unfoldable pub add_node : Ptr → Cluster → Cluster
add_node node c =
    let n = c.heap node in
    update_state (add_loop n.id n.slots (record c { nodes = insert n.id node c.nodes }))

-- the body of the loop of `RemoveNode`, at an index in range
unfoldable pub clear_slot : Text → ℕ → Cluster → Cluster
clear_slot node_id k c =
    if c.slot_map k == node_id
    then record c {
      slot_map = update c.slot_map k [];
      assigned_slots = c.assigned_slots +ℤ negsuc 0;
    }
    else c

-- The loop of `RemoveNode`; `SlotMap[slot]` panics out of range.
unfoldable pub clear_loop : Text → List ℤ → Cluster → Option Cluster
clear_loop node_id [] c = some c
clear_loop node_id (slot ∷ slots) c = elim (slot_index slot) [
  | none ↦ none
  | some k ↦ clear_loop node_id slots (clear_slot node_id k c)
]

unfoldable pub remove_node : Text → Cluster → Option Cluster
remove_node node_id c = elim (lookup node_id c.nodes) [
  | none ↦ some c
  | some node ↦ elim (clear_loop node_id (c.heap node).slots c) [
    | none ↦ none
    | some c' ↦ some (update_state (record c' { nodes = remove node_id c'.nodes }))
  ]
]
