-- ===== src/Storage/Bitmaps/Setting.antt =====
-- internal/storage/bitmap.go: what GETBIT answers after SETBIT.
use mathlib.Core.Option
use go_redis.Prelude.{
  ℕ, ◌+◌, ◌-◌, ◌/◌, ◌%◌, ◌<◌, ◌≡◌, refl, ap, sym, ◌∙◌, some, false, leb, if◌then◌else◌, get_or,
  arith, nat_beq,
}
use go_redis.Prelude.Eq.{Text, text_eq}
use go_redis.Prelude.Int.{pos}
use go_redis.Prelude.Maps.{lookup-insert_self}
use go_redis.Storage.Store.{ok, Store, put, is_expired}
use go_redis.Storage.Strings.{find, find_entry}
use go_redis.Storage.Bitmaps.{
  string_of, get_string, string_or_empty, put_bit, padded, set_byte, save_string, bit_at,
  set_bit_in, set_bit_with, set_bit, bit_in, get_bit_with, get_bit,
}
use go_redis.Storage.Bitmaps.Bits.{IsBytes, bit_in-set_byte, bit_in-byte, get_or-padded}

get_string-save_string :
    (now : ℕ) (key t : Text) (s : Store)
    → string_or_empty now key (save_string key t s) ≡ some (save_string key t s, ok t)
unfolding string_or_empty get_string string_of find find_entry is_expired put
get_string-save_string now key t s = rw lookup-insert_self refl

-- After a SETBIT with the value 0 or 1 to a key that is missing or holds a string, which answers the bit
-- that was there, GETBIT answers the value at that offset, and at any other offset the bit that was
-- there before; beyond the end of the string every bit is 0.
pub get_bit-set_bit :
    (now later : ℕ) (key : Text) (i j v : ℕ) (s t : Store) (old : Text)
    → v < 2
    → IsBytes old
    → string_or_empty now key s ≡ some (t, ok old)
    → (u : Store) × (set_bit now key (pos i) (pos v) s ≡ some (u, ok (bit_in i old)))
      × (get_bit later key (pos j) u ≡ some (u, ok (if nat_beq i j then v else bit_in j old)))
unfolding set_bit set_bit_with set_bit_in get_bit
get_bit-set_bit now later key i j v s t old hv hb e =
    let c = get_or (padded (i / 8 + 1) old) (i / 8) 0 in
    let bytes = set_byte (i / 8) (put_bit v (7 - i % 8) c) (padded (i / 8 + 1) old) in
    let b : leb 2 v ≡ false = ground arith in
    let o : bit_at (7 - i % 8) c ≡ bit_in i old =
      ap (bit_at (7 - i % 8)) (get_or-padded (i / 8 + 1) old (i / 8)) ∙ sym (bit_in-byte i old) in
    (
      save_string key bytes t,
      rw (b, e) (ap (λ n. some (save_string key bytes t, ok n)) o),
      ap (Option.map (get_bit_with j)) (get_string-save_string later key bytes t)
          ∙ ap (λ n. some (save_string key bytes t, ok n)) (bit_in-set_byte i j v old hv hb),
    )
