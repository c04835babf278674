-- ===== src/Storage/Bitmaps/First.antt =====
-- internal/storage/bitmap.go: what BITPOS answers.
use go_redis.Prelude.{
  ℕ, zero, suc, ◌+◌, ◌-◌, ◌*◌, ◌/◌, ◌%◌, ◌<◌, ◌≤◌, ◌≡◌, ◌≢◌, inl, inr, refl, ap, sym, ◌∙◌, List, [],
  ◌∷◌, Option, none, some, false, ltb, leb, length, get_or, arith, Bool-cases, take, take_ge,
}
use go_redis.Prelude.Eq.{Text, nat_eq, ◌==◌}
use go_redis.Prelude.Int.{ℤ, pos, negsuc}
use go_redis.Storage.Store.{ok, Store}
use go_redis.Storage.Bitmaps.{bit_at, bit_in, string_or_empty}
use go_redis.Storage.Bitmaps.Bits.{bit_in-byte}
use go_redis.Storage.Bitmaps.Counting.{
  bit_in_byte, found_bit, bit_in_bytes, pos_in, byte_range, bit_pos,
}

-- the bit at an offset into the bytes
abbrev bit_of : ℕ → List ℕ → ℕ
bit_of m bs = bit_at (7 - m % 8) (get_or bs (m / 8) 0)

-- what the search in one byte answers, from the bit `n` down
abbrev InByte : ℕ → ℕ → ℕ → Option ℕ → Type 0
InByte b c n none = (k : ℕ) → k < n → bit_at k c ≢ b
InByte b c n (some o) =
    (o < 8) × (7 - o < n) × (bit_at (7 - o) c ≡ b) × ((k : ℕ) → k < n → 7 - o < k → bit_at k c ≢ b)

InByte-suc : (b c n : ℕ) (o : Option ℕ) → bit_at n c ≢ b → InByte b c n o → InByte b c (suc n) o
InByte-suc b c n none d h = λ k lt. elim (Bool-cases (k == n)) [
  | inl y ↦ let e : k ≡ n = ground arith in rw e d
  | inr y ↦ h k (ground arith)
]
InByte-suc b c n (some o) d (u, v, w, h) = (
  u,
  omega arith,
  w,
  λ k lt gt. elim (Bool-cases (k == n)) [
    | inl y ↦ let e : k ≡ n = ground arith in rw e d
    | inr y ↦ h k (ground arith) gt
  ],
)

bit_in_byte-InByte : (b c n : ℕ) → n ≤ 8 → InByte b c n (bit_in_byte b c n)
unfolding bit_in_byte
bit_in_byte-InByte b c zero le = λ k lt. absurd (omega arith)
bit_in_byte-InByte b c (suc n) le = elim (Bool-cases (bit_at n c == b)) [
  | inl y ↦
      let e : bit_at n c ≡ b = (nat_eq.same_iff (bit_at n c) b).0 y in
      let z : 7 - (7 - n) ≡ n = omega arith in
      rw y (omega arith, omega arith, ap (λ k. bit_at k c) z ∙ e, λ k lt gt. absurd (omega arith))
  | inr y ↦
      let d : bit_at n c ≢ b =
        λ e. absurd (ground (arith, y, (nat_eq.same_iff (bit_at n c) b).1 e)) in
      rw y (InByte-suc b c n (bit_in_byte b c n) d (bit_in_byte-InByte b c n (omega arith)))
]

-- what the search in the bytes from offset `8 * i` on answers
abbrev InBytes : ℕ → ℕ → List ℕ → ℤ → Type 0
InBytes b i bs (negsuc z) = (m : ℕ) → m < 8 * length bs → bit_of m bs ≢ b
InBytes b i bs (pos x) =
    (m : ℕ) × (x ≡ i * 8 + m)
    × (m < 8 * length bs)
    × (bit_of m bs ≡ b)
    × ((j : ℕ) → j < m → bit_of j bs ≢ b)

-- A byte in front.
bit_of-first : (m c : ℕ) (bs : List ℕ) → m < 8 → bit_of m (c ∷ bs) ≡ bit_at (7 - m) c
bit_of-first m c bs lt =
    let q : m / 8 ≡ 0 = omega arith in let r : m % 8 ≡ m = omega arith in rw (q, r) refl

bit_of-rest : (m c : ℕ) (bs : List ℕ) → bit_of (8 + m) (c ∷ bs) ≡ bit_of m bs
bit_of-rest m c bs =
    let q : (8 + m) / 8 ≡ suc (m / 8) = omega arith in
    let r : (8 + m) % 8 ≡ m % 8 = omega arith in rw (q, r) refl

none_before :
    (b c : ℕ) (bs : List ℕ) (n : ℕ)
    → InByte b c 8 none
    → ((j : ℕ) → j < n → bit_of j bs ≢ b)
    → (m : ℕ) → m < 8 + n
    → bit_of m (c ∷ bs) ≢ b
none_before b c bs n h k m lt = elim (Bool-cases (ltb m 8)) [
  | inl y ↦ λ e. h (7 - m) (omega arith) (sym (bit_of-first m c bs (ground arith)) ∙ e)
  | inr y ↦
      let z : 8 + (m - 8) ≡ m = ground arith in
      λ e.
        k (m - 8) (ground arith)
          (sym (bit_of-rest (m - 8) c bs) ∙ ap (λ i. bit_of i (c ∷ bs)) z ∙ e)
]

InBytes-later :
    (b i c : ℕ) (bs : List ℕ) (z : ℤ)
    → InByte b c 8 none
    → InBytes b (i + 1) bs z
    → InBytes b i (c ∷ bs) z
InBytes-later b i c bs (negsuc z) h k =
    λ m lt. none_before b c bs (8 * length bs) h k m (omega arith)
InBytes-later b i c bs (pos x) h (m, e, lt, f, k) =
    (8 + m, omega arith, omega arith, bit_of-rest m c bs ∙ f, λ j lj. none_before b c bs m h k j lj)

InBytes-here :
    (b i c : ℕ) (bs : List ℕ) (o : ℕ)
    → InByte b c 8 (some o)
    → InBytes b i (c ∷ bs) (pos (i * 8 + o))
InBytes-here b i c bs o (u, v, w, h) = (
  o,
  refl,
  omega arith,
  bit_of-first o c bs u ∙ w,
  λ j lt e. h (7 - j) (omega arith) (omega arith) (sym (bit_of-first j c bs (omega arith)) ∙ e),
)

found :
    (b i c : ℕ) (bs : List ℕ) (o : Option ℕ)
    → InByte b c 8 o
    → InBytes b (i + 1) bs (bit_in_bytes b (i + 1) bs)
    → InBytes b i (c ∷ bs) (found_bit i o (bit_in_bytes b (i + 1) bs))
found b i c bs none h k = InBytes-later b i c bs (bit_in_bytes b (i + 1) bs) h k
found b i c bs (some o) h k = InBytes-here b i c bs o h

bit_in_bytes-InBytes : (b i : ℕ) (bs : List ℕ) → InBytes b i bs (bit_in_bytes b i bs)
unfolding bit_in_bytes
bit_in_bytes-InBytes b i [] = λ m lt. absurd (omega arith)
bit_in_bytes-InBytes b i (c ∷ bs) =
    found b i c bs (bit_in_byte b c 8) (bit_in_byte-InByte b c 8 (omega arith))
      (bit_in_bytes-InBytes b (i + 1) bs)

-- the first offset of a bit in a string, or a negative number if there is none
abbrev pub First : ℕ → Text → ℤ → Type 0
First b t (pos o) = (o < 8 * length t) × (bit_in o t ≡ b) × ((j : ℕ) → j < o → bit_in j t ≢ b)
First b t (negsuc z) = (j : ℕ) → j < 8 * length t → bit_in j t ≢ b

InBytes-First : (b : ℕ) (t : Text) (z : ℤ) → InBytes b 0 t z → First b t z
InBytes-First b t (negsuc z) h = λ j lt e. h j lt (sym (bit_in-byte j t) ∙ e)
InBytes-First b t (pos x) (m, e, lt, f, k) =
    let n : x ≡ m = omega arith in
    rw n (lt, bit_in-byte m t ∙ f, λ j lj d. k j lj (sym (bit_in-byte j t) ∙ d))

whole_range : (n : ℕ) → 0 < n → byte_range n none none ≡ some (0, n - 1)
unfolding byte_range
whole_range zero lt = absurd (omega arith)
whole_range (suc n) lt = ground arith

pos_in-whole :
    (b : ℕ) (t : Text)
    → 0 < length t
    → pos_in b t (byte_range (length t) none none) ≡ bit_in_bytes b 0 t
unfolding pos_in
pos_in-whole b t lt =
    let e : length t - 1 - 0 + 1 ≡ length t = omega arith in
    rw (whole_range (length t) lt) (
      ap (λ n. bit_in_bytes b 0 (take n t)) e
      ∙ ap (bit_in_bytes b 0) (take_ge (length t) t (omega arith)))

-- BITPOS without a range on a key that holds a string which is not empty answers the first offset where
-- the bit has the value, and a negative number only if no bit of the string has it.
pub bit_pos-First :
    (now : ℕ) (key : Text) (b : ℕ) (s t : Store) (old : Text)
    → b < 2
    → 0 < length old
    → string_or_empty now key s ≡ some (t, ok old)
    → (z : ℤ) × (bit_pos now key (pos b) none none s ≡ some (t, ok z)) × First b old z
unfolding bit_pos
bit_pos-First now key b s t old hb lt e =
    let c : leb 2 b ≡ false = ground arith in
    let n : (length old == 0) ≡ false = ground arith in
    let w = pos_in-whole b old lt in
    (
      bit_in_bytes b 0 old,
      rw (c, e, n) (ap (λ z. some (t, ok z)) w),
      InBytes-First b old (bit_in_bytes b 0 old) (bit_in_bytes-InBytes b 0 old),
    )
