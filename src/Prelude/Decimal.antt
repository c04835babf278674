-- ===== src/Prelude/Decimal.antt =====
-- Decimal numerals: what `%d`, `strconv.FormatInt` and `strconv.Atoi` do with them.
use Prim.Native.Nat.{ℕ, zero, suc, ◌+◌, ◌-◌, ◌*◌, ◌/◌, ◌%◌, ◌^◌, ◌≤◌, ◌<◌}
use mathlib.Core.Path.{◌≡◌, refl, ◌∙◌}
use mathlib.Core.Logic.{inl, inr}
use mathlib.Core.Bool.{Bool, true, false, ◌&&◌}
use mathlib.Core.Option.{Option, none, some}
use mathlib.Core.List.{[], ◌∷◌}
use native.Mathlib.Omega.{arith}
use go_redis.Prelude.Tests.{ltb, leb, nat_beq, if◌then◌else◌, Bool-cases}
use go_redis.Prelude.Lists.{length, All}
use go_redis.Prelude.Eq.{Text}
use go_redis.Prelude.Int.{ℤ, pos, negsuc, two63, InInt64, neg_ℤ}

-- The digits of `n` before `acc`; `n < fuel` is enough.
unfoldable pub digits : ℕ → ℕ → Text → Text
digits zero n acc = acc
digits (suc f) n acc =
    let rest = digits f (n / 10) ((48 + n % 10) ∷ acc) in if ltb n 10 then (48 + n) ∷ acc else rest

-- `%d` at a number that is not negative
unfoldable pub format : ℕ → Text
unfolding digits
format n = digits (suc n) n []

-- `%d` and `strconv.FormatInt(z, 10)`
unfoldable pub format_int : ℤ → Text
unfolding format
format_int (pos n) = format n
format_int (negsuc n) = b'-' ∷ format (suc n)

unfoldable pub parse_digits : ℕ → Text → Option ℕ
parse_digits acc [] = some acc
parse_digits acc (c ∷ cs) =
    let rest = parse_digits (acc * 10 + (c - 48)) cs in if leb 48 c && leb c 57 then rest else none

-- What `strconv.Atoi` returns: a number; the error of a malformed numeral, with the value 0; or
-- the error of one out of range, with the nearest `int`.
pub data Atoi : Type 0 where
  num : ℤ → Atoi
  syntax_error : Atoi
  range_error : ℤ → Atoi

unsigned : Text → Option ℕ
unfolding parse_digits
unsigned [] = none
unsigned (c ∷ cs) = parse_digits 0 (c ∷ cs)

-- Whether the digits in front pass `uint64`, which is noticed before what follows them is read.
overflows : ℕ → Text → Bool
overflows acc [] = false
overflows acc (c ∷ cs) =
    let next = acc * 10 + (c - 48) in
    let rest = overflows next cs in
    if leb 48 c && leb c 57 then (if ltb next (2 ^ 64) then rest else true) else false

in_range : Bool → Option ℕ → Atoi
in_range over none = if over then range_error (pos (two63 - 1)) else syntax_error
in_range over (some n) = if ltb n two63 then num (pos n) else range_error (pos (two63 - 1))

neg_in_range : Bool → Option ℕ → Atoi
unfolding neg_ℤ
neg_in_range over none = if over then range_error (negsuc (two63 - 1)) else syntax_error
neg_in_range over (some n) =
    if leb n two63 then num (neg_ℤ (pos n)) else range_error (negsuc (two63 - 1))

unfoldable pub atoi : Text → Atoi
unfolding unsigned overflows in_range neg_in_range
atoi [] = syntax_error
atoi (c ∷ cs) =
    if nat_beq c b'-'
    then neg_in_range (overflows 0 cs) (unsigned cs)
    else if nat_beq c b'+'
    then in_range (overflows 0 cs) (unsigned cs)
    else in_range (overflows 0 (c ∷ cs)) (unsigned (c ∷ cs))

abbrev pub IsDigit : ℕ → Type 0
IsDigit c = (48 ≤ c) × (c ≤ 57)

parse_digits-digits :
    (f n : ℕ) (acc : Text) → n < f → parse_digits 0 (digits f n acc) ≡ parse_digits n acc
unfolding parse_digits digits
parse_digits-digits zero n acc h = absurd (omega arith)
parse_digits-digits (suc f) n acc h = elim (Bool-cases (ltb n 10)) [
  | inl small ↦ ground arith
  | inr large ↦
      rw large (ground (arith, parse_digits-digits f (n / 10) ((48 + n % 10) ∷ acc) (ground arith)))
]

digits-IsDigit : (f n : ℕ) (acc : Text) → n < f → All IsDigit acc → All IsDigit (digits f n acc)
unfolding digits
digits-IsDigit zero n acc h k = k
digits-IsDigit (suc f) n acc h k = elim (Bool-cases (ltb n 10)) [
  | inl small ↦ rw small (ground arith)
  | inr large ↦ rw large (
      digits-IsDigit f (n / 10) ((48 + n % 10) ∷ acc) (ground arith)
        ((omega arith, omega arith), k))
]

pub format-IsDigit : (n : ℕ) → All IsDigit (format n)
unfolding format
format-IsDigit n = digits-IsDigit (suc n) n [] (omega arith) tt

pub parse_digits-format : (n : ℕ) → parse_digits 0 (format n) ≡ some n
unfolding format parse_digits
parse_digits-format n = parse_digits-digits (suc n) n [] (omega arith)

digits-pos : (f n : ℕ) (acc : Text) → n < f → 0 < length (digits f n acc)
unfolding digits
digits-pos zero n acc h = absurd (omega arith)
digits-pos (suc f) n acc h = elim (Bool-cases (ltb n 10)) [
  | inl small ↦ rw small (omega arith)
  | inr large ↦ rw large (digits-pos f (n / 10) ((48 + n % 10) ∷ acc) (ground arith))
]

pub format-pos : (n : ℕ) → 0 < length (format n)
unfolding format
format-pos n = digits-pos (suc n) n [] (omega arith)

unsigned_of_pos : (s : Text) → 0 < length s → unsigned s ≡ parse_digits 0 s
unfolding unsigned
unsigned_of_pos [] h = absurd (omega arith)
unsigned_of_pos (c ∷ cs) h = refl

unsigned-format : (n : ℕ) → unsigned (format n) ≡ some n
unsigned-format n = unsigned_of_pos (format n) (format-pos n) ∙ parse_digits-format n

-- A numeral of digits alone is read without a sign.
atoi_of_digits :
    (s : Text) → All IsDigit s → 0 < length s → atoi s ≡ in_range (overflows 0 s) (unsigned s)
unfolding atoi
atoi_of_digits [] h k = absurd (omega arith)
atoi_of_digits (c ∷ cs) h k = ground arith

pub atoi-format : (n : ℕ) → n < two63 → atoi (format n) ≡ num (pos n)
atoi-format n h =
    atoi_of_digits (format n) (format-IsDigit n) (format-pos n)
    ∙ rw unsigned-format (unfold in_range in ground arith)

-- Every `int64` is read back as it was printed.
pub atoi-format_int : (z : ℤ) → InInt64 z → atoi (format_int z) ≡ num z
unfolding format_int atoi
atoi-format_int (pos n) h = atoi-format n h
atoi-format_int (negsuc n) h = rw unsigned-format (ground arith)
