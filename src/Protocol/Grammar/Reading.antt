-- ===== src/Protocol/Grammar/Reading.antt =====
-- resp.go: what the parser accepts is a command of the grammar.
use go_redis.Prelude.{
  ℕ, zero, suc, ◌≡◌, refl, sym, ap, ◌∙◌, List, [], ◌∷◌, ◌++◌, Option, some, false, arith, length,
  append-nil, append_assoc, nat_beq, nat_beq_iff, leb, leb→le, take-drop, length-take, take, drop,
  Bool-cases, Option-cases, inl, inr, ◌⊎◌,
}
use go_redis.Prelude.Eq.{Text}
use go_redis.Prelude.Int.{ℤ, pos, negsuc}
use go_redis.Prelude.Decimal.{Atoi, num, syntax_error, range_error, atoi}
use go_redis.Protocol.Parse.{
  Outcome, done, fail, Read, and_then, trim_right, split_line, read_line, read_full, bulk_data,
  bulk_of_length, bulk_of_line, read_bulk, read_bulks, parse_array, parse_inline, parse_line,
  parse_command, fields_from, command_of_fields,
}
use go_redis.Protocol.RoundTrip.{split_line-append}
use go_redis.Protocol.Grammar.{Line, Argument, absent, present, Arguments, Command, array, inline}

module _ {ℓ κ} {A : Type ℓ} {B : Type κ} where
  and_then-done :
      (o : Outcome A) (f : A → Read B) (b : B) (r : Text)
      → and_then o f ≡ done b r
      → (a : A) × (t : Text) × (o ≡ done a t) × (f a t ≡ done b r)
  and_then-done (done a t) f b r h = (a, t, refl, h)
  and_then-done (fail e t) f b r h = absurd (cc h)

split_line-Line : (s l r : Text) → split_line s ≡ some (l, r) → Line s l r
unfolding split_line
split_line-Line [] l r h = absurd (cc h)
split_line-Line (c ∷ s) l r h = elim (Bool-cases (nat_beq c 10)) [
  | inl here ↦
      let e : ◌≡◌ {A = Option (Text × Text)} (some ([], s)) (some (l, r)) = rw here at h in
      let le : [] ≡ l = cc e in
      let re : s ≡ r = cc e in
      rw (sym le, sym re)
        (record { joined = ap (λ d. d ∷ s) (sym ((nat_beq_iff c 10).0 here)); whole = tt })
  | inr later ↦ elim (Option-cases (split_line s)) [
    | inl miss ↦ absurd (ground (arith, later, miss, h))
    | inr ((l', r'), hit) ↦
        let v = split_line-Line s l' r' hit in
        let e : ◌≡◌ {A = Option (Text × Text)} (some (c ∷ l', r')) (some (l, r)) =
          ground (arith, later, hit, h) in
        let le : c ∷ l' ≡ l = cc e in
        let re : r' ≡ r = cc e in
        rw (sym le, sym re)
          (record { joined = ap (◌∷◌ c) v.joined; whole = (ground (arith, later), v.whole) })
  ]
]

read_line-Line :
    (s l r : Text) → read_line s ≡ done l r → (raw : Text) × Line s raw r × (l ≡ trim_right raw)
unfolding read_line
read_line-Line s l r h = elim (Option-cases (split_line s)) [
  | inl miss ↦ absurd (ground (arith, miss, h))
  | inr ((raw, r'), hit) ↦
      let v = split_line-Line s raw r' hit in
      let e : done (trim_right raw) r' ≡ done l r = ground (arith, hit, h) in
      let le : trim_right raw ≡ l = cc e in let re : r' ≡ r = cc e in (raw, rw (sym re) v, sym le)
]

pub Line-read_line : {s raw t : Text} → Line s raw t → read_line s ≡ done (trim_right raw) t
unfolding read_line
Line-read_line {s} {raw} {t} v =
    ap read_line (sym v.joined) ∙ rw (split_line-append raw t v.whole, read_line) refl

read_full-done : (n : ℕ) (s d u : Text) → read_full n s ≡ done d u → (d ++ u ≡ s) × (length d ≡ n)
unfolding read_full
read_full-done zero s d u h = ground arith
read_full-done (suc n) [] d u h = absurd (cc h)
read_full-done (suc n) (c ∷ s) d u h = elim (Bool-cases (leb (suc n) (length (c ∷ s)))) [
  | inr short ↦ absurd (ground (arith, short, h))
  | inl fits ↦
      let e : done (take (suc n) (c ∷ s)) (drop (suc n) (c ∷ s)) ≡ done d u = rw fits at h in
      let de : take (suc n) (c ∷ s) ≡ d = cc e in
      let ue : drop (suc n) (c ∷ s) ≡ u = cc e in
      rw (sym de, sym ue)
        (
          take-drop (suc n) (c ∷ s),
          length-take (suc n) (c ∷ s) (leb→le (suc n) (length (c ∷ s)) fits),
        )
]

bulk_data-done :
    (z : ℤ) (s d r : Text)
    → bulk_data z s ≡ done d r
    → ((n : ℕ) × (z ≡ negsuc n) × (d ≡ []) × (s ≡ r))
      ⊎ ((u : Text) × (end : Text) × (z ≡ pos (length d)) × (d ++ u ≡ s) × Line u end r)
unfolding bulk_data
bulk_data-done (negsuc n) s d r h = inl (n, refl, cc h, cc h)
bulk_data-done (pos n) s d r h =
    let (d', u, full, h1) = and_then-done (read_full n s) _ d r h in
    let (l, r', line, h2) = and_then-done (read_line u) _ d r h1 in
    let de : d' ≡ d = cc h2 in
    let re : r' ≡ r = cc h2 in
    let (joined, size) = read_full-done n s d' u full in
    let (raw, v, _) = read_line-Line u l r' line in
    rw (sym de, sym re) (inr (u, raw, ap pos (sym size), joined, v))

module _ (s arg r : Text) where
  bulk_of_length-Argument :
      (a : Atoi) (raw header t : Text)
      → Line s raw t
      → trim_right raw ≡ b'$' ∷ header
      → atoi header ≡ a
      → bulk_of_length a t ≡ done arg r
      → Argument s arg r
  unfolding bulk_of_length
  bulk_of_length-Argument (num z) raw header t v e q h = elim (bulk_data-done z t arg r h) [
    | inl (n, ze, de, re) ↦ absent (rw re at v) e (q ∙ ap num ze) de
    | inr (u, end, ze, joined, w) ↦ present v e (q ∙ ap num ze) joined w
  ]
  bulk_of_length-Argument syntax_error raw header t v e q h = absurd (cc h)
  bulk_of_length-Argument (range_error z) raw header t v e q h = absurd (cc h)

  bulk_of_line-Argument :
      (l t raw : Text)
      → Line s raw t
      → trim_right raw ≡ l
      → bulk_of_line l t ≡ done arg r
      → Argument s arg r
  unfolding bulk_of_line
  bulk_of_line-Argument [] t raw v e h = absurd (cc h)
  bulk_of_line-Argument (c ∷ cs) t raw v e h = elim (Bool-cases (nat_beq c b'$')) [
    | inl dollar ↦
        bulk_of_length-Argument (atoi cs) raw cs t v
          (e ∙ ap (λ d. d ∷ cs) ((nat_beq_iff c b'$').0 dollar)) refl (rw dollar at h)
    | inr other ↦ absurd (cc (rw other at h))
  ]

read_bulk-Argument : (s arg r : Text) → read_bulk s ≡ done arg r → Argument s arg r
unfolding read_bulk
read_bulk-Argument s arg r h =
    let (l, t, line, h1) = and_then-done (read_line s) _ arg r h in
    let (raw, v, e) = read_line-Line s l t line in
    bulk_of_line-Argument s arg r l t raw v (sym e) h1

read_bulks-Arguments :
    (n : ℕ) (args : List Text) (s : Text) (out : List Text) (r : Text)
    → read_bulks n args s ≡ done out r
    → (rest : List Text) × (out ≡ args ++ rest) × (length rest ≡ n) × Arguments s rest r
unfolding read_bulks
read_bulks-Arguments zero args s out r h = ([], sym (cc h) ∙ sym (append-nil args), refl, cc h)
read_bulks-Arguments (suc n) args s out r h =
    let (arg, t, one, h1) = and_then-done (read_bulk s) _ out r h in
    let (rest, joined, size, v) = read_bulks-Arguments n (args ++ arg ∷ []) t out r h1 in
    (
      arg ∷ rest,
      joined ∙ append_assoc args (arg ∷ []) rest,
      ap suc size,
      (t, read_bulk-Argument s arg t one, v),
    )

module _ (s : Text) (args : List Text) (r : Text) where
  parse_array-Command :
      (a : Atoi) (raw header t : Text)
      → Line s raw t
      → trim_right raw ≡ b'*' ∷ header
      → atoi header ≡ a
      → parse_array a t ≡ done args r
      → Command s args r
  unfolding parse_array
  parse_array-Command (num (pos (suc n))) raw header t v e q h =
      let (rest, same, size, w) = read_bulks-Arguments (suc n) [] t args r h in
      array v e (q ∙ ap (λ k. num (pos k)) (sym size ∙ ap length (sym same)))
        (omega (arith, size, ap length same)) (rw (sym same) at w)
  parse_array-Command (num (pos zero)) raw header t v e q h = absurd (cc h)
  parse_array-Command (num (negsuc n)) raw header t v e q h = absurd (cc h)
  parse_array-Command syntax_error raw header t v e q h = absurd (cc h)
  parse_array-Command (range_error z) raw header t v e q h = absurd (cc h)

  command_of_fields-Command :
      (fs : List Text) (raw text t : Text) (c : ℕ)
      → Line s raw t
      → trim_right raw ≡ c ∷ text
      → nat_beq c b'*' ≡ false
      → fields_from 0 [] (c ∷ text) ≡ fs
      → command_of_fields fs t ≡ done args r
      → Command s args r
  unfolding command_of_fields
  command_of_fields-Command [] raw text t c v e n q h = absurd (cc h)
  command_of_fields-Command (f ∷ fs) raw text t c v e n q h =
      let same : f ∷ fs ≡ args = cc h in
      let left : t ≡ r = cc h in inline (rw left at v) e n (q ∙ same) (rw (sym same) (omega arith))

  parse_line-Command :
      (l t raw : Text)
      → Line s raw t
      → trim_right raw ≡ l
      → parse_line l t ≡ done args r
      → Command s args r
  unfolding parse_line parse_inline
  parse_line-Command [] t raw v e h = absurd (cc h)
  parse_line-Command (c ∷ cs) t raw v e h = elim (Bool-cases (nat_beq c b'*')) [
    | inl star ↦
        parse_array-Command (atoi cs) raw cs t v
          (e ∙ ap (λ d. d ∷ cs) ((nat_beq_iff c b'*').0 star)) refl (rw star at h)
    | inr other ↦
        command_of_fields-Command (fields_from 0 [] (c ∷ cs)) raw cs t c v e other refl
          (rw other at h)
  ]

pub parse_command_sound :
    (s : Text) (args : List Text) (r : Text) → parse_command s ≡ done args r → Command s args r
unfolding parse_command
parse_command_sound s args r h =
    let (l, t, line, h1) = and_then-done (read_line s) _ args r h in
    let (raw, v, e) = read_line-Line s l t line in parse_line-Command s args r l t raw v (sym e) h1
