-- ===== src/Cluster/Slot.antt =====
-- internal/cluster/slot.go
use Prim.Native.Nat.{bit_and, bit_xor}
use go_redis.Prelude.{
  ℕ, ◌*◌, ◌/◌, ◌%◌, List, [], ◌∷◌, Option, none, some, Bool, true, ◌&&◌, nat_beq, get_or,
  if◌then◌else◌,
}
use go_redis.Prelude.Eq.{Text}
use go_redis.Prelude.Int.{ℤ}
use go_redis.Cluster.Table.{crc16tab}

abbrev pub num_slots : ℕ
num_slots = 16384

-- One round of `crc16`, on a `uint16`.
unfoldable pub crc16_step : ℕ → ℕ → ℕ
crc16_step crc b =
    bit_xor (crc * 256 % 65536) (get_or crc16tab (bit_and (bit_xor (crc / 256) b) 0xff) 0)

unfoldable pub crc16_from : ℕ → Text → ℕ
crc16_from crc [] = crc
crc16_from crc (b ∷ bs) = crc16_from (crc16_step crc b) bs

unfoldable pub crc16 : Text → ℕ
unfolding crc16_from crc16_step
crc16 bs = crc16_from 0 bs

-- `strings.IndexByte`, with the bytes before the first `c` and those behind it.
unfoldable pub cut : ℕ → Text → Option (Text × Text)
cut c [] = none
cut c (d ∷ s) =
    if nat_beq d c
    then some ([], s)
    else elim (cut c s) [ none ↦ none | some (l, r) ↦ some (d ∷ l, r) ]

-- `tag`, or the whole key if the tag is empty
abbrev pub tag_or : Text → Text → Text
tag_or key [] = key
tag_or key (c ∷ tag) = c ∷ tag

unfoldable pub extract_hash_tag : Text → Text
extract_hash_tag key = elim (cut b'{' key) [
  | none ↦ key
  | some (_, rest) ↦ elim (cut b'}' rest) [ none ↦ key | some (tag, _) ↦ tag_or key tag ]
]

unfoldable pub key_hash_slot : Text → ℕ
key_hash_slot key = crc16 (extract_hash_tag key) % num_slots

-- the loop of `KeysInSameSlot`
unfoldable pub all_in_slot : ℕ → List Text → Bool
all_in_slot slot [] = true
all_in_slot slot (key ∷ ks) = nat_beq (key_hash_slot key) slot && all_in_slot slot ks

unfoldable pub keys_in_same_slot : List Text → Bool
unfolding all_in_slot
keys_in_same_slot [] = true
keys_in_same_slot (key ∷ ks) = all_in_slot (key_hash_slot key) ks

-- A range of slots; slots are of type `int`.
pub record SlotRange : Type 0 where
  pub start : ℤ
  pub end : ℤ
