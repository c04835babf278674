-- ===== src/Storage/Bitmaps/Counting.antt =====
-- internal/storage/bitmap.go: BITCOUNT and BITPOS.
use mathlib.Core.Option
use go_redis.Prelude.{
  ℕ, zero, suc, ◌+◌, ◌-◌, ◌*◌, List, [], ◌∷◌, Option, none, some, leb, if◌then◌else◌, length, take,
  drop,
}
use go_redis.Prelude.Eq.{Text, text_eq, nat_eq, ◌==◌}
use go_redis.Prelude.Int.{ℤ, pos, negsuc}
use go_redis.Storage.Linked.{count_back}
use go_redis.Storage.Linked.Edit.{from_zero, bounded, up_to}
use go_redis.Storage.Store.{Result, ok, err, invalid_operation, Store}
use go_redis.Storage.Bitmaps.{string_or_empty, bit_at}

abbrev or_int : ℤ → Option ℤ → ℤ
or_int default none = default
or_int default (some z) = z

-- The bytes from `start` to `end`, cut to the string; `none` if there are none.
unfoldable pub byte_range : ℕ → Option ℤ → Option ℤ → Option (ℕ × ℕ)
byte_range n start end =
    bounded n (from_zero (count_back (pos n) (or_int (pos 0) start)))
      (up_to n (count_back (pos n) (or_int (pos (n - 1)) end)))

-- `bits.OnesCount8`
abbrev pub ones_count8 : ℕ → ℕ
ones_count8 b =
    bit_at 0 b
    + bit_at 1 b
    + bit_at 2 b
    + bit_at 3 b
    + bit_at 4 b
    + bit_at 5 b
    + bit_at 6 b
    + bit_at 7 b

unfoldable pub count_bytes : List ℕ → ℕ
count_bytes [] = 0
count_bytes (b ∷ bs) = ones_count8 b + count_bytes bs

unfoldable pub count_in : Text → Option (ℕ × ℕ) → ℕ
count_in t none = 0
count_in t (some (start, end)) = count_bytes (take (end - start + 1) (drop start t))

abbrev count_with : Option ℤ → Option ℤ → Store × Result Text → Store × Result ℕ
count_with start end (s, err e) = (s, err e)
count_with start end (s, ok t) =
    (s, ok (if length t == 0 then 0 else count_in t (byte_range (length t) start end)))

unfoldable pub bit_count : ℕ → Text → Option ℤ → Option ℤ → Store → Option (Store × Result ℕ)
bit_count now key start end s = Option.map (count_with start end) (string_or_empty now key s)

-- the loop over the bits of a byte, from the highest one: `n` are left
unfoldable pub bit_in_byte : ℕ → ℕ → ℕ → Option ℕ
bit_in_byte bit b zero = none
bit_in_byte bit b (suc n) =
    let rest = bit_in_byte bit b n in if bit_at n b == bit then some (7 - n) else rest

abbrev pub found_bit : ℕ → Option ℕ → ℤ → ℤ
found_bit i none rest = rest
found_bit i (some o) rest = pos (i * 8 + o)

unfoldable pub bit_in_bytes : ℕ → ℕ → List ℕ → ℤ
bit_in_bytes bit i [] = negsuc 0
bit_in_bytes bit i (b ∷ bs) = found_bit i (bit_in_byte bit b 8) (bit_in_bytes bit (i + 1) bs)

unfoldable pub pos_in : ℕ → Text → Option (ℕ × ℕ) → ℤ
pos_in bit t none = negsuc 0
pos_in bit t (some (start, end)) = bit_in_bytes bit start (take (end - start + 1) (drop start t))

abbrev pub pos_with : ℕ → Option ℤ → Option ℤ → Store × Result Text → Store × Result ℤ
pos_with bit start end (s, err e) = (s, err e)
pos_with bit start end (s, ok t) = (
  s,
  ok (
      if length t == 0
      then (if bit == 0 then pos 0 else negsuc 0)
      else pos_in bit t (byte_range (length t) start end)),
)

unfoldable pub bit_pos : ℕ → Text → ℤ → Option ℤ → Option ℤ → Store → Option (Store × Result ℤ)
bit_pos now key (negsuc b) start end s = some (s, err invalid_operation)
bit_pos now key (pos b) start end s =
    if leb 2 b
    then some (s, err invalid_operation)
    else Option.map (pos_with b start end) (string_or_empty now key s)
