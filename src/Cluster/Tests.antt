-- ===== src/Cluster/Tests.antt =====
-- Runs of the cluster code, and its theorems at concrete inputs.
use go_redis.Prelude.{
  ℕ, ◌<◌, ◌%◌, ◌≡◌, ◌↔◌, refl, List, [], ◌∷◌, ◌++◌, Bool, true, arith, All, nat_beq,
}
use go_redis.Prelude.Eq.{Text, text_eq, nat_eq, text_beq}
use go_redis.Prelude.Int.{pos, negsuc, ◌+ℤ◌}
use go_redis.Prelude.Maps.{lookup, insert}
use go_redis.Cluster.Slot.{
  num_slots, crc16, cut, extract_hash_tag, key_hash_slot, keys_in_same_slot,
}
use go_redis.Cluster.Tags.{key_hash_slot-same_tag}
use go_redis.Cluster.Node.{
  Node, Cluster, state_ok, new_cluster, assign_slots, slot_index, update_state, remove_node,
  add_node, add_loop, clear_loop,
}
use go_redis.Cluster.Counted.{IsConsistent, owned}
use go_redis.Cluster.Changes.{
  here, next, assigned, Reach-IsConsistent, state_ok-Reach, new_cluster-IsConsistent,
}
use go_redis.Cluster.Ranges.{range, build_slot_ranges, in_ranges, has_slot, build_slot_ranges_exact}
use go_redis.Cluster.Redirect.{
  served, check_key_ownership, check_multi_key_ownership, check_multi_key_ownership_sound,
}

slots : Unit {0}
unfolding crc16 cut extract_hash_tag key_hash_slot keys_in_same_slot
slots = tt

-- the check value of CRC-16/XMODEM
check_value : crc16 (b'1' ∷ b'2' ∷ b'3' ∷ b'4' ∷ b'5' ∷ b'6' ∷ b'7' ∷ b'8' ∷ b'9' ∷ []) ≡ 0x31c3
unfolding slots
check_value = refl

abbrev tag : Text
tag = b'u' ∷ b'1' ∷ []

abbrev open_key : Text
open_key = b'{' ∷ (tag ++ b'}' ∷ b'.' ∷ b'a' ∷ [])

abbrev other_key : Text
other_key = b'x' ∷ b'{' ∷ (tag ++ b'}' ∷ [])

key_hash_slot-same_tag_example :
    (key_hash_slot open_key ≡ key_hash_slot other_key)
    × (key_hash_slot open_key ≡ crc16 tag % num_slots)
    × (key_hash_slot open_key < num_slots)
key_hash_slot-same_tag_example =
    key_hash_slot-same_tag [] (b'.' ∷ b'a' ∷ []) (b'x' ∷ []) [] tag tt (omega arith) (omega arith)
      (omega arith)

pair_in_slot : keys_in_same_slot (open_key ∷ other_key ∷ []) ≡ true
unfolding slots
pair_in_slot = refl

abbrev node_a : Node
node_a = record { id = b'a' ∷ []; address = b'h' ∷ []; port = pos 7000; slots = []; flags = [] }

abbrev node_b : Node
node_b = record {
  id = b'b' ∷ [];
  address = b'g' ∷ [];
  port = pos 7001;
  slots = pos (key_hash_slot tag) ∷ [];
  flags = [];
}

-- node `a` owns three slots, and node `b` the slot of `tag`
abbrev start : Cluster
start = new_cluster (λ p. node_b) 1 (b'a' ∷ []) (b'h' ∷ []) (pos 7000)

start-IsConsistent : IsConsistent start
start-IsConsistent =
    new_cluster-IsConsistent (λ p. node_b) 1 (b'a' ∷ []) (b'h' ∷ []) (pos 7000) (λ e. cc e)

Reach-IsConsistent_example : IsConsistent (assign_slots (pos 0 ∷ negsuc 4 ∷ pos 99999 ∷ []) start)
Reach-IsConsistent_example =
    Reach-IsConsistent start-IsConsistent (next here (assigned (pos 0 ∷ negsuc 4 ∷ pos 99999 ∷ [])))

state_ok-Reach_example : ((assign_slots (pos 0 ∷ pos 99999 ∷ []) start).state ≡ state_ok) ↔ (
    (k : ℕ) → k < num_slots → owned (assign_slots (pos 0 ∷ pos 99999 ∷ []) start).slot_map k ≡ true)
state_ok-Reach_example =
    state_ok-Reach (λ p. node_b) 1 (b'a' ∷ []) (b'h' ∷ []) (pos 7000) (λ e. cc e)
      (next here (assigned (pos 0 ∷ pos 99999 ∷ [])))

ranges_run :
    build_slot_ranges (pos 5 ∷ pos 0 ∷ pos 2 ∷ pos 1 ∷ pos 6 ∷ [])
    ≡ range (pos 0) (pos 2) ∷ range (pos 5) (pos 6) ∷ []
unfolding build_slot_ranges ◌+ℤ◌
ranges_run = refl

-- a slot that is listed twice opens a new range
ranges_twice :
    build_slot_ranges (pos 1 ∷ pos 1 ∷ []) ≡ range (pos 1) (pos 1) ∷ range (pos 1) (pos 1) ∷ []
unfolding build_slot_ranges ◌+ℤ◌
ranges_twice = refl

build_slot_ranges_exact_example :
    in_ranges (pos 3) (build_slot_ranges (pos 5 ∷ pos 3 ∷ []))
    ≡ has_slot (pos 3) (pos 5 ∷ pos 3 ∷ [])
build_slot_ranges_exact_example = build_slot_ranges_exact (pos 5 ∷ pos 3 ∷ []) (pos 3)

-- a view in which node `b`, at address 2, owns every slot
abbrev elsewhere : Cluster
elsewhere = record {
  heap = λ p. go_redis.Prelude.if◌then◌else◌ (nat_beq p 1) node_a node_b;
  my_self = 1;
  nodes = (b'a' ∷ [], 1) ∷ (b'b' ∷ [], 2) ∷ [];
  slot_map = λ i. b'b' ∷ [];
  state = state_ok;
  enabled = true;
  assigned_slots = pos num_slots;
}

abbrev alone : Cluster
alone = record elsewhere { slot_map = λ i. b'a' ∷ [] }

pair_served : check_multi_key_ownership (open_key ∷ other_key ∷ []) alone ≡ served
unfolding check_multi_key_ownership check_key_ownership slots slot_index text_beq
pair_served = refl

check_multi_key_ownership_sound_example :
    All (λ k. check_key_ownership k alone ≡ served) (open_key ∷ other_key ∷ [])
check_multi_key_ownership_sound_example =
    check_multi_key_ownership_sound (open_key ∷ other_key ∷ []) alone pair_served

-- A node that lists a slot out of range can be added, and removing it then panics.
remove_panics :
    remove_node (b'b' ∷ []) (
      add_node 2 (
        new_cluster
          (λ p. record node_b { slots = pos 16384 ∷ [] })
          1
          (b'a' ∷ [])
          (b'h' ∷ [])
          (pos 7000)))
    ≡ go_redis.Prelude.none
unfolding remove_node add_node new_cluster add_loop update_state clear_loop slot_index lookup insert
    text_beq
remove_panics = refl
