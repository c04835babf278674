-- ===== src/Storage/Bitmaps/Bits.antt =====
-- internal/storage/bitmap.go: GETBIT after SETBIT.
use go_redis.Prelude.{
  ℕ, zero, suc, ◌+◌, ◌-◌, ◌/◌, ◌%◌, ◌<◌, ◌≤◌, ◌≡◌, inl, inr, refl, ap, sym, ◌∙◌, [], ◌∷◌, ◌++◌,
  Bool, true, false, ◌&&◌, leb, if◌then◌else◌, length, get_or, All, arith, Bool-cases, nat_beq,
  nat_beq_iff, length-append,
}
use go_redis.Prelude.Eq.{Text, text_eq, nat_eq}
use go_redis.Storage.Bitmaps.{bit_at, put_bit, zeros, padded, set_byte, bit_in}

-- a test of all numbers below a bound
unfoldable every : ℕ → (ℕ → Bool) → Bool
every zero f = true
every (suc n) f = f n && every n f

every-below : (n : ℕ) (f : ℕ → Bool) (i : ℕ) → every n f ≡ true → i < n → f i ≡ true
unfolding every
every-below zero f i h lt = absurd (omega arith)
every-below (suc n) f i h lt = ground (arith, every-below n f i)

-- the law of one byte
abbrev byte_law : ℕ → ℕ → ℕ → ℕ → Bool
byte_law v b k j = nat_beq (bit_at j (put_bit v k b)) (if nat_beq k j then v else bit_at j b)

byte_laws : every 2 (λ v. every 256 (λ b. every 8 (λ k. every 8 (λ j. byte_law v b k j)))) ≡ true
unfolding every
byte_laws = refl

bit_at-put_bit :
    (v b k j : ℕ)
    → v < 2
    → b < 256
    → k < 8
    → j < 8
    → bit_at j (put_bit v k b) ≡ (if nat_beq k j then v else bit_at j b)
bit_at-put_bit v b k j hv hb hk hj =
    (nat_beq_iff (bit_at j (put_bit v k b)) (if nat_beq k j then v else bit_at j b)).0 (
      every-below 8 (λ x. byte_law v b k x) j
        (every-below 8 (λ y. every 8 (λ x. byte_law v b y x)) k
          (every-below 256 (λ c. every 8 (λ y. every 8 (λ x. byte_law v c y x))) b
            (every-below 2 (λ w. every 256 (λ c. every 8 (λ y. every 8 (λ x. byte_law w c y x)))) v
              byte_laws hv)
            hb)
          hk)
        hj)

length-set_byte : (i b : ℕ) (t : Text) → length (set_byte i b t) ≡ length t
unfolding set_byte
length-set_byte i b [] = refl
length-set_byte zero b (c ∷ t) = refl
length-set_byte (suc i) b (c ∷ t) = ap suc (length-set_byte i b t)

get_or-set_byte :
    (i j b : ℕ) (t : Text)
    → i < length t
    → get_or (set_byte i b t) j 0 ≡ (if nat_beq i j then b else get_or t j 0)
unfolding set_byte
get_or-set_byte i j b [] lt = absurd (omega arith)
get_or-set_byte zero zero b (c ∷ t) lt = ground arith
get_or-set_byte zero (suc j) b (c ∷ t) lt = ground arith
get_or-set_byte (suc i) zero b (c ∷ t) lt = ground arith
get_or-set_byte (suc i) (suc j) b (c ∷ t) lt = ground (arith, get_or-set_byte i j b t (omega arith))

length-zeros : (n : ℕ) → length (zeros n) ≡ n
length-zeros zero = refl
length-zeros (suc n) = ap suc (length-zeros n)

get_or-zeros : (n i : ℕ) → get_or (zeros n) i 0 ≡ 0
get_or-zeros zero i = refl
get_or-zeros (suc n) zero = refl
get_or-zeros (suc n) (suc i) = get_or-zeros n i

get_or-append :
    (s t : Text) (i : ℕ)
    → (i' : ℕ) → get_or t i' 0 ≡ 0
    → i' ≡ i - length s
    → get_or (s ++ t) i 0 ≡ get_or s i 0
get_or-append [] t i i' h e = let z : i' ≡ i = omega arith in rw z at h
get_or-append (c ∷ s) t zero i' h e = refl
get_or-append (c ∷ s) t (suc i) i' h e = get_or-append s t i i' h (omega arith)

-- The zeros behind the string change no byte, and make it long enough.
pub get_or-padded : (n : ℕ) (t : Text) (i : ℕ) → get_or (padded n t) i 0 ≡ get_or t i 0
unfolding padded
get_or-padded n t i =
    get_or-append t (zeros (n - length t)) i (i - length t)
      (get_or-zeros (n - length t) (i - length t)) refl

length-padded : (n : ℕ) (t : Text) → (n ≤ length (padded n t)) × (length t ≤ length (padded n t))
unfolding padded
length-padded n t =
    let e = length-append t (zeros (n - length t)) in
    let z = length-zeros (n - length t) in (omega arith, omega arith)

-- Beyond the end a byte counts as 0.
get_or-beyond : (t : Text) (i : ℕ) → length t ≤ i → get_or t i 0 ≡ 0
get_or-beyond [] i h = refl
get_or-beyond (c ∷ t) zero h = absurd (omega arith)
get_or-beyond (c ∷ t) (suc i) h = get_or-beyond t i (omega arith)

zero_bits : every 8 (λ x. nat_beq (bit_at x 0) 0) ≡ true
unfolding every
zero_bits = refl

bit_at-zero : (k : ℕ) → k < 8 → bit_at k 0 ≡ 0
bit_at-zero k h =
    (nat_beq_iff (bit_at k 0) 0).0 (every-below 8 (λ x. nat_beq (bit_at x 0) 0) k zero_bits h)

pub bit_in-byte : (o : ℕ) (t : Text) → bit_in o t ≡ bit_at (7 - o % 8) (get_or t (o / 8) 0)
unfolding bit_in
bit_in-byte o t = elim (Bool-cases (leb (length t) (o / 8))) [
  | inl y ↦
      let z = get_or-beyond t (o / 8) (ground arith) in
      rw (y, z) (sym (bit_at-zero (7 - o % 8) (omega arith)))
  | inr y ↦ rw y refl
]

unfoldable pub IsBytes : Text → Type 0
IsBytes t = All (λ b. b < 256) t

get_or-IsBytes : (t : Text) (i : ℕ) → IsBytes t → get_or t i 0 < 256
unfolding IsBytes
get_or-IsBytes [] i h = omega arith
get_or-IsBytes (c ∷ t) zero h = h.0
get_or-IsBytes (c ∷ t) (suc i) h = get_or-IsBytes t i h.1

-- The bits of a string after one of them was set.
pub bit_in-set_byte :
    (i j v : ℕ) (t : Text)
    → v < 2
    → IsBytes t
    → bit_in j (
        set_byte
          (i / 8)
          (put_bit v (7 - i % 8) (get_or (padded (i / 8 + 1) t) (i / 8) 0))
          (padded (i / 8 + 1) t))
      ≡ (if nat_beq i j then v else bit_in j t)
bit_in-set_byte i j v t hv hb =
    let p = padded (i / 8 + 1) t in
    let c = get_or p (i / 8) 0 in
    let g = get_or-padded (i / 8 + 1) t in
    let le = (length-padded (i / 8 + 1) t).0 in
    let new = put_bit v (7 - i % 8) c in
    bit_in-byte j (set_byte (i / 8) new p)
    ∙ ap (bit_at (7 - j % 8)) (get_or-set_byte (i / 8) (j / 8) new p (omega arith))
    ∙ elim (Bool-cases (nat_beq (i / 8) (j / 8))) [
      | inl y ↦
          let law =
            bit_at-put_bit v c (7 - i % 8) (7 - j % 8) hv
              (rw (g (i / 8)) (get_or-IsBytes t (i / 8) hb)) (omega arith) (omega arith) in
          let e : i / 8 ≡ j / 8 = ground arith in
          let w : nat_beq (7 - i % 8) (7 - j % 8) ≡ nat_beq i j = ground arith in
          let x : c ≡ get_or t (j / 8) 0 = g (i / 8) ∙ ap (λ n. get_or t n 0) e in
          rw y (
            law
            ∙ ap (λ b. if b then v else bit_at (7 - j % 8) c) w
            ∙ ap (λ b. if nat_beq i j then v else b)
                (ap (bit_at (7 - j % 8)) x ∙ sym (bit_in-byte j t)))
      | inr y ↦
          let w : nat_beq i j ≡ false = ground arith in
          rw (y, w) (ap (bit_at (7 - j % 8)) (g (j / 8)) ∙ sym (bit_in-byte j t))
    ]
