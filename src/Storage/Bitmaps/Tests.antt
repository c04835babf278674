-- ===== src/Storage/Bitmaps/Tests.antt =====
-- Runs of the operations on bitmaps.
use go_redis.Prelude.{◌≡◌, refl, [], ◌∷◌, none, some, if◌then◌else◌, arith, nat_beq}
use go_redis.Prelude.Eq.{Text, text_eq, text_beq}
use go_redis.Prelude.Int.{ℤ, pos, negsuc}
use go_redis.Prelude.Maps.{lookup, insert, remove}
use go_redis.Storage.Store.{Store, ok, new_store, put, is_expired}
use go_redis.Storage.Strings.{set, index_expiry, find, find_entry}
use go_redis.Storage.Bitmaps.{
  string_or_empty, get_string, string_of, set_bit, get_bit, bit_in, save_string, set_bit_with,
  set_bit_in, padded, set_byte,
}
use go_redis.Storage.Bitmaps.Bits.{IsBytes}
use go_redis.Storage.Bitmaps.First.{First, bit_pos-First}
use go_redis.Storage.Bitmaps.Setting.{get_bit-set_bit}
use go_redis.Storage.Bitmaps.Counting.{bit_pos, byte_range, pos_in, bit_in_bytes, bit_in_byte}

abbrev flags : Text
flags = b'f' ∷ []

bitmap_program : Unit {0}
unfolding lookup insert remove text_beq put is_expired set index_expiry find find_entry
    string_or_empty get_string string_of set_bit get_bit bit_in set_bit_with set_bit_in padded
    set_byte IsBytes bit_pos byte_range pos_in bit_in_bytes bit_in_byte
bitmap_program = tt

-- One byte, with only its lowest bit missing.
abbrev bitmap : Store
bitmap = save_string flags (254 ∷ []) new_store

read_flags : string_or_empty 1 flags bitmap ≡ some (bitmap, ok (254 ∷ []))
unfolding bitmap_program
read_flags = refl

flags-IsBytes : IsBytes (254 ∷ [])
unfolding bitmap_program
flags-IsBytes = (omega arith, tt)

get_bit-set_bit_example :
    (u : Store) × (set_bit 1 flags (pos 9) (pos 1) bitmap ≡ some (u, ok (bit_in 9 (254 ∷ []))))
    × (get_bit 2 flags (pos 7) u ≡ some (u, ok (if nat_beq 9 7 then 1 else bit_in 7 (254 ∷ []))))
get_bit-set_bit_example =
    get_bit-set_bit 1 2 flags 9 7 1 bitmap bitmap (254 ∷ []) (omega arith) flags-IsBytes read_flags

-- In a string of ones there is no zero, also not behind its end.
no_zero :
    bit_pos 1 flags (pos 0) none none (save_string flags (255 ∷ []) new_store)
    ≡ some (save_string flags (255 ∷ []) new_store, ok (negsuc 0))
unfolding bitmap_program
no_zero = refl

bit_pos-First_example :
    (z : ℤ) × (bit_pos 1 flags (pos 0) none none bitmap ≡ some (bitmap, ok z))
    × First 0 (254 ∷ []) z
bit_pos-First_example =
    bit_pos-First 1 flags 0 bitmap bitmap (254 ∷ []) (omega arith) (omega arith) read_flags
