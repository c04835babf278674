-- ===== src/Storage/Scan.antt =====
-- `parseInt64` of string_ops.go: what `fmt.Sscanf(s, "%d", &result)` accepts. It skips white space
-- (a newline is an error), takes a sign and as many digits as there are, and leaves the rest.
use go_redis.Prelude.{
  ℕ, zero, suc, ◌+◌, ◌-◌, ◌*◌, ◌<◌, ◌≤◌, ◌≡◌, refl, ◌∙◌, [], ◌∷◌, Option, none, some, Bool, true,
  false, ◌&&◌, arith, All, length, leb, ltb, nat_beq, if◌then◌else◌,
}
use go_redis.Prelude.Eq.{Text}
use go_redis.Prelude.Int.{ℤ, pos, negsuc, two63, InInt64, neg_ℤ}
use go_redis.Prelude.Decimal.{
  format, format_int, parse_digits, IsDigit, format-IsDigit, parse_digits-format, format-pos,
}
use go_redis.Protocol.Parse.{space_width}

skip_space : ℕ → Text → Option Text
skip_space skip [] = some []
skip_space (suc skip) (c ∷ cs) = skip_space skip cs
skip_space zero (c ∷ cs) =
    if nat_beq c 10
    then none
    else elim (space_width (c ∷ cs)) [ zero ↦ some (c ∷ cs) | suc k ↦ skip_space k cs ]

-- the value of the digits that stand first
leading : ℕ → Text → ℕ
leading acc [] = acc
leading acc (c ∷ cs) =
    let more = leading (acc * 10 + (c - 48)) cs in if leb 48 c && leb c 57 then more else acc

scan_unsigned : Text → Option ℕ
unfolding leading
scan_unsigned [] = none
scan_unsigned (c ∷ cs) = if leb 48 c && leb c 57 then some (leading 0 (c ∷ cs)) else none

signed_in_range : Bool → Option ℕ → Option ℤ
unfolding neg_ℤ
signed_in_range minus none = none
signed_in_range true (some n) = if leb n two63 then some (neg_ℤ (pos n)) else none
signed_in_range false (some n) = if ltb n two63 then some (pos n) else none

scan_signed : Text → Option ℤ
unfolding scan_unsigned signed_in_range
scan_signed [] = none
scan_signed (c ∷ cs) =
    if nat_beq c b'-'
    then signed_in_range true (scan_unsigned cs)
    else if nat_beq c b'+'
    then signed_in_range false (scan_unsigned cs)
    else signed_in_range false (scan_unsigned (c ∷ cs))

scan_rest : Option Text → Option ℤ
unfolding scan_signed
scan_rest none = none
scan_rest (some s) = scan_signed s

unfoldable pub parse_int64 : Text → Option ℤ
unfolding scan_rest skip_space
parse_int64 s = scan_rest (skip_space 0 s)

leading-parse_digits :
    (acc : ℕ) (s : Text) → All IsDigit s → parse_digits acc s ≡ some (leading acc s)
unfolding parse_digits leading
leading-parse_digits acc [] h = refl
leading-parse_digits acc (c ∷ s) h =
    ground (arith, leading-parse_digits (acc * 10 + (c - 48)) s h.1)

scan_unsigned_digits :
    (s : Text) → All IsDigit s → 0 < length s → scan_unsigned s ≡ parse_digits 0 s
unfolding scan_unsigned
scan_unsigned_digits [] h k = absurd (omega arith)
scan_unsigned_digits (c ∷ s) h k = ground (arith, leading-parse_digits 0 (c ∷ s) h)

scan_unsigned-format : (n : ℕ) → scan_unsigned (format n) ≡ some n
scan_unsigned-format n =
    scan_unsigned_digits (format n) (format-IsDigit n) (format-pos n) ∙ parse_digits-format n

space_width_visible : (c : ℕ) (s : Text) → 33 ≤ c → c ≤ 126 → space_width (c ∷ s) ≡ 0
unfolding space_width
space_width_visible c [] h k = ground arith
space_width_visible c (d ∷ []) h k = ground arith
space_width_visible c (d ∷ e ∷ s) h k = ground arith

skip_space_visible : (c : ℕ) (s : Text) → 33 ≤ c → c ≤ 126 → skip_space 0 (c ∷ s) ≡ some (c ∷ s)
unfolding skip_space
skip_space_visible c s h k = ground (arith, space_width_visible c s h k)

parse_int64_digits :
    (s : Text)
    → All IsDigit s
    → 0 < length s
    → parse_int64 s ≡ signed_in_range false (scan_unsigned s)
unfolding parse_int64
parse_int64_digits [] h k = absurd (omega arith)
parse_int64_digits (c ∷ s) h k =
    rw (skip_space_visible c s (omega arith) (omega arith)) (ground arith)

-- Every `int64` that was stored in decimal is read back.
pub parse_int64-format_int : (z : ℤ) → InInt64 z → parse_int64 (format_int z) ≡ some z
unfolding format_int parse_int64
parse_int64-format_int (pos n) h =
    parse_int64_digits (format n) (format-IsDigit n) (format-pos n)
    ∙ rw scan_unsigned-format (ground arith)
parse_int64-format_int (negsuc n) h =
    rw (skip_space_visible b'-' (format (suc n)) (omega arith) (omega arith))
      (rw scan_unsigned-format (ground arith))
