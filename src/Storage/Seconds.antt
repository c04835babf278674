-- ===== src/Storage/Seconds.antt =====
-- `Seconds` of a `time.Duration`, with its conversion to `int64`, as `TTL` of
-- internal/storage/string_ops.go uses them: the arithmetic of float64, on whole numbers of 2^-83.
pub mod Exact
use go_redis.Prelude.{ℕ, zero, suc, ◌+◌, ◌-◌, ◌*◌, ◌/◌, ◌%◌, ◌^◌, ltb, if◌then◌else◌}

-- `time.Second`
abbrev pub second : ℕ
second = 1000000000

-- The largest duration, at which `time.Until` stops.
abbrev pub max_duration : ℕ
max_duration = 9223372036854775807

-- A float64 that occurs here is a whole number of 2^-83: the least one that is not 0 is above 2^-30,
-- and has 53 binary digits.
abbrev pub scale : ℕ
scale = 2 ^ 83

-- The quotient, rounded to the nearest whole number, and to an even one in the middle.
unfoldable pub round_even : ℕ → ℕ → ℕ
round_even a b =
    let q = a / b in
    let r = a % b in if ltb (2 * r) b then q else if ltb b (2 * r) then q + 1 else q + q % 2

-- The number of binary digits, up to the fuel.
unfoldable pub bits : ℕ → ℕ → ℕ
bits zero n = 0
bits (suc fuel) zero = 0
bits (suc fuel) (suc n) = suc (bits fuel (suc n / 2))

-- The weight of the last of the 53 digits that a float64 keeps of a number of 2^-83. No number here
-- has more than 128 digits.
unfoldable pub last_place : ℕ → ℕ
last_place n = 2 ^ (bits 128 n - 53)

-- the float64 next to the quotient of two numbers
unfoldable pub nearest : ℕ → ℕ → ℕ
nearest a b = let p = last_place (a * scale / b) in round_even (a * scale) (b * p) * p

-- `int64(float64(sec) + float64(nsec)/1e9)`
unfoldable pub whole_seconds : ℕ → ℕ
whole_seconds d = nearest (d / second * scale + nearest (d % second) second) scale / scale
