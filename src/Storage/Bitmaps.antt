-- ===== src/Storage/Bitmaps.antt =====
-- internal/storage/bitmap.go. The outer `none` is the panic of `val.Data.(string)` for a value of
-- another dynamic type.
pub mod Bits
pub mod Setting
pub mod Counting
pub mod Operations
pub mod First
mod Tests
use mathlib.Core.Option
use Prim.Native.Nat.{bit_and, bit_or, bit_xor}
use go_redis.Prelude.{
  ℕ, zero, suc, ◌+◌, ◌-◌, ◌*◌, ◌/◌, ◌%◌, ◌^◌, List, [], ◌∷◌, ◌++◌, Option, none, some, Bool, true,
  false, ltb, leb, if◌then◌else◌, length, get_or,
}
use go_redis.Prelude.Eq.{Text, text_eq, nat_eq, ◌==◌}
use go_redis.Prelude.Int.{ℤ, pos, negsuc}
use go_redis.Storage.Store.{
  Error, Result, ok, err, wrong_type, key_not_found, invalid_operation, ValueType, string_type,
  list_type, set_type, hash_type, zset_type, bloom_filter_type, hyper_log_log_type, Data, str,
  int64, int, ref, Value, Store, put,
}
use go_redis.Storage.Strings.{find}

abbrev pub is_string_type : ValueType → Bool
is_string_type string_type = true
is_string_type list_type = false
is_string_type set_type = false
is_string_type hash_type = false
is_string_type zset_type = false
is_string_type bloom_filter_type = false
is_string_type hyper_log_log_type = false

abbrev pub text_of : Data → Option Text
text_of (str t) = some t
text_of (int64 z) = none
text_of (int z) = none
text_of (ref p) = none

unfoldable pub string_of : Store → Option Value → Option (Store × Result Text)
string_of s none = some (s, err key_not_found)
string_of s (some v) =
    if is_string_type v.type
    then Option.map (λ t. (s, ok t)) (text_of v.content)
    else some (s, err wrong_type)

unfoldable pub get_string : ℕ → Text → Store → Option (Store × Result Text)
get_string now key s = let (t, v) = find now key s in string_of t v

-- `if err == ErrKeyNotFound`, with the empty string for a missing key
abbrev pub not_found_is_empty : Result Text → Result Text
not_found_is_empty (ok t) = ok t
not_found_is_empty (err key_not_found) = ok []
not_found_is_empty (err e) = err e

unfoldable pub string_or_empty : ℕ → Text → Store → Option (Store × Result Text)
string_or_empty now key s = Option.map (λ r. (r.0, not_found_is_empty r.1)) (get_string now key s)

-- `(b >> k) & 1`
abbrev pub bit_at : ℕ → ℕ → ℕ
bit_at k b = b / 2 ^ k % 2

-- `b | (1 << k)`, or `b &^ (1 << k)`: without the bits that both have
abbrev pub put_bit : ℕ → ℕ → ℕ → ℕ
put_bit value k b = if value == 1 then bit_or b (2 ^ k) else b - bit_and b (2 ^ k)

abbrev pub zeros : ℕ → List ℕ
zeros zero = []
zeros (suc n) = 0 ∷ zeros n

unfoldable pub padded : ℕ → Text → Text
padded n t = t ++ zeros (n - length t)

unfoldable pub set_byte : ℕ → ℕ → Text → Text
set_byte i b [] = []
set_byte zero b (c ∷ cs) = b ∷ cs
set_byte (suc i) b (c ∷ cs) = c ∷ set_byte i b cs

abbrev pub save_string : Text → Text → Store → Store
save_string key t s = put key (record { content = str t; expires_at = none; type = string_type }) s

-- `SetBit` on the string that it found, padded
unfoldable pub set_bit_in : Text → ℕ → ℕ → Text → Store → Store × Result ℕ
set_bit_in key offset value bytes s =
    let current = get_or bytes (offset / 8) 0 in
    let k = 7 - offset % 8 in
    (
      save_string key (set_byte (offset / 8) (put_bit value k current) bytes) s,
      ok (bit_at k current),
    )

unfoldable pub set_bit_with : Text → ℕ → ℕ → Store × Result Text → Store × Result ℕ
set_bit_with key offset value (s, err e) = (s, err e)
set_bit_with key offset value (s, ok t) = set_bit_in key offset value (padded (offset / 8 + 1) t) s

unfoldable pub set_bit : ℕ → Text → ℤ → ℤ → Store → Option (Store × Result ℕ)
set_bit now key (negsuc o) value s = some (s, err invalid_operation)
set_bit now key (pos o) (negsuc v) s = some (s, err invalid_operation)
set_bit now key (pos o) (pos v) s =
    if leb 2 v
    then some (s, err invalid_operation)
    else Option.map (set_bit_with key o v) (string_or_empty now key s)

unfoldable pub bit_in : ℕ → Text → ℕ
bit_in offset t =
    if leb (length t) (offset / 8) then 0 else bit_at (7 - offset % 8) (get_or t (offset / 8) 0)

abbrev pub get_bit_with : ℕ → Store × Result Text → Store × Result ℕ
get_bit_with offset (s, err e) = (s, err e)
get_bit_with offset (s, ok t) = (s, ok (bit_in offset t))

unfoldable pub get_bit : ℕ → Text → ℤ → Store → Option (Store × Result ℕ)
get_bit now key (negsuc o) s = some (s, err invalid_operation)
get_bit now key (pos o) s = Option.map (get_bit_with o) (string_or_empty now key s)
