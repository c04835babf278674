-- ===== src/Storage/Seconds/Exact.antt =====
-- time.Duration.Seconds, as `TTL` uses it: the rounding of float64 is not seen below 2^24 seconds.
use native.Mathlib.Nat.{
  pow-suc, pow-le-pow_right, one-le-pow, mul-pos, mul-le-mul_left, mul-le-mul_right, mul-div_cancel,
  div-add-mod, mod-lt, le-div_iff_mul-le,
}
use go_redis.Prelude.{
  ℕ, zero, suc, ◌+◌, ◌-◌, ◌*◌, ◌/◌, ◌%◌, ◌^◌, ◌≤◌, ◌<◌, ◌≡◌, ap, arith, ltb, ltb→lt, Bool-cases,
  inl, inr,
}
use go_redis.Storage.Seconds.{second, scale, round_even, bits, last_place, nearest, whole_seconds}

bits-le : (fuel k n : ℕ) → n < 2 ^ k → bits fuel n ≤ k
unfolding bits
bits-le zero k n h = omega arith
bits-le (suc fuel) k zero h = omega arith
bits-le (suc fuel) zero (suc n) h = absurd (omega arith)
bits-le (suc fuel) (suc k) (suc n) h =
    omega (arith, bits-le fuel k (suc n / 2) (omega (arith, pow-suc 2 k)))

-- A number below 2^(53 + k) keeps its digits from 2^k on.
last_place-le : (k n : ℕ) → n < 2 ^ (53 + k) → last_place n ≤ 2 ^ k
unfolding last_place
last_place-le k n h = pow-le-pow_right (omega arith) (omega (arith, bits-le 128 (53 + k) n h))

pow-split : (k e : ℕ) → e ≤ k → (c : ℕ) × (c * 2 ^ e ≡ 2 ^ k)
pow-split k zero h = (2 ^ k, omega arith)
pow-split zero (suc e) h = absurd (omega arith)
pow-split (suc k) (suc e) h =
    let (c, joined) = pow-split k e (omega arith) in
    (c, omega (arith, joined, pow-suc 2 k, ap (λ (t : ℕ). c * t) (pow-suc 2 e)))

mul-parity : (b x : ℕ) → x < 2 → b * x ≤ b
mul-parity b zero h = omega arith
mul-parity b (suc zero) h = omega arith
mul-parity b (suc (suc x)) h = absurd (omega arith)

-- Rounding is off by at most a half, and never goes below a whole number that stands below.
round_even-upper : (a b : ℕ) → 0 < b → 2 * (b * round_even a b) ≤ 2 * a + b
unfolding round_even
round_even-upper a b h = elim (Bool-cases (ltb (2 * (a % b)) b)) [
  | inl low ↦ rw low (omega (arith, div-add-mod a b))
  | inr up ↦ elim (Bool-cases (ltb b (2 * (a % b)))) [
    | inl high ↦
        rw (up, high) (omega (arith, div-add-mod a b, ltb→lt b (2 * (a % b)) high, mod-lt a h))
    | inr middle ↦
        rw (up, middle) (ground (arith, div-add-mod a b, mul-parity b (a / b % 2) (omega arith)))
  ]
]

round_even-lower : (k a b : ℕ) → 0 < b → b * k ≤ a → k ≤ round_even a b
unfolding round_even
round_even-lower k a b h le =
    ground (arith, (le-div_iff_mul-le {k = b} {x = k} {y = a} h).1 (omega arith))

last_place-pos : (n : ℕ) → 0 < last_place n
unfolding last_place
last_place-pos n = one-le-pow (bits 128 n - 53) 2 (omega arith)

nearest-upper :
    (k a b : ℕ)
    → 0 < b
    → a * scale / b < 2 ^ (53 + k)
    → 2 * (b * nearest a b) ≤ 2 * (a * scale) + b * 2 ^ k
unfolding nearest
nearest-upper k a b h fits =
    let p = last_place (a * scale / b) in
    let r = round_even (a * scale) (b * p) in
    let positive = mul-pos h (last_place-pos (a * scale / b)) in
    let half : 2 * (b * p * r) ≤ 2 * (a * scale) + b * p =
      round_even-upper (a * scale) (b * p) positive in
    let weight : b * p ≤ b * 2 ^ k = mul-le-mul_left b (last_place-le k (a * scale / b) fits) in
    omega (arith, half, weight)

nearest-lower : (n w : ℕ) → w * scale ≤ n → n < 2 ^ 107 → w * scale ≤ nearest n scale
unfolding nearest last_place
nearest-lower n w le fits = rw (mul-div_cancel n {n = scale} (omega arith)) (
    let e = bits 128 n - 53 in
    let (c, split) = pow-split 83 e (omega (arith, bits-le 128 107 n fits)) in
    let below : scale * 2 ^ e * (w * c) ≤ n * scale =
      omega (arith, le, ap (λ (t : ℕ). scale * (w * t)) split) in
    let k =
      round_even-lower (w * c) (n * scale) (scale * 2 ^ e)
        (mul-pos {m = scale} (omega arith) (last_place-pos n)) below in
    omega (arith, mul-le-mul_right (2 ^ e) k, ap (λ (t : ℕ). w * t) split))

pub whole_seconds-exact : (d : ℕ) → d < 2 ^ 24 * second → whole_seconds d ≡ d / second
unfolding whole_seconds
whole_seconds-exact d h =
    let sec = d / second in
    let part = nearest (d % second) second in
    let p = nearest-upper 30 (d % second) second (omega arith) (omega arith) in
    let total = sec * scale + part in
    let q : 2 * (scale * nearest total scale) ≤ 2 * (total * scale) + scale * 2 ^ 54 =
      nearest-upper 54 total scale (omega arith) (omega (arith, p)) in
    let r = nearest-lower total sec (omega arith) (omega (arith, p)) in omega (arith, p, q, r)
