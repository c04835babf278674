-- ===== src/Protocol/Parse.antt =====
-- The parser of resp.go. The `bufio.Reader` is the list of the bytes still to come; a read at its
-- end fails, as it does when the connection is closed.
use go_redis.Prelude.{
  ℕ, zero, suc, List, [], ◌∷◌, ◌++◌, Option, none, some, Bool, ◌||◌, ◌&&◌, length, take, drop, leb,
  nat_beq, if◌then◌else◌,
}
use go_redis.Prelude.Eq.{Text}
use go_redis.Prelude.Int.{ℤ, pos, negsuc}
use go_redis.Prelude.Decimal.{Atoi, num, syntax_error, range_error, atoi}

pub data Error : Type 0 where
  eof unexpected_eof empty_command invalid_array_length invalid_bulk_length : Error
  array_length_not_positive : ℤ → Error
  expected_bulk_string : Text → Error

pub data Outcome {ℓ} (A : Type ℓ) : Type ℓ where
  done : A → Text → Outcome A
  fail : Error → Text → Outcome A

abbrev pub Read {ℓ} : Type ℓ → Type ℓ
Read A = Text → Outcome A

module _ {ℓ κ} {A : Type ℓ} {B : Type κ} where
  abbrev pub and_then : Outcome A → (A → Read B) → Outcome B
  and_then (done a s) f = f a s
  and_then (fail e s) f = fail e s

  infixl 5 ◌>>=◌ ◌>>◌
  abbrev pub ◌>>=◌ : Read A → (A → Read B) → Read B
  ◌>>=◌ m f s = and_then (m s) f

  abbrev pub ◌>>◌ : Read A → Read B → Read B
  m >> n = m >>= λ _. n

-- `\r` and `\n`
abbrev pub is_line_end : ℕ → Bool
is_line_end c = nat_beq c 13 || nat_beq c 10

abbrev pub trim_cons : ℕ → Text → Text
trim_cons c [] = if is_line_end c then [] else c ∷ []
trim_cons c (d ∷ ds) = c ∷ d ∷ ds

-- `strings.TrimRight(line, "\r\n")`
unfoldable pub trim_right : Text → Text
trim_right [] = []
trim_right (c ∷ cs) = trim_cons c (trim_right cs)

abbrev pub prefix_line : ℕ → Option (Text × Text) → Option (Text × Text)
prefix_line c none = none
prefix_line c (some (l, r)) = some (c ∷ l, r)

-- The bytes before the first `\n`, and those behind it.
unfoldable pub split_line : Text → Option (Text × Text)
split_line [] = none
split_line (c ∷ cs) = if nat_beq c 10 then some ([], cs) else prefix_line c (split_line cs)

unfoldable pub read_line : Read Text
read_line s = elim (split_line s) [ none ↦ fail eof [] | some (l, r) ↦ done (trim_right l) r ]

-- `io.ReadFull` into a slice of `n` bytes
unfoldable pub read_full : ℕ → Read Text
read_full zero s = done [] s
read_full (suc n) [] = fail eof []
read_full (suc n) (c ∷ s) =
    if leb (suc n) (length (c ∷ s))
    then done (take (suc n) (c ∷ s)) (drop (suc n) (c ∷ s))
    else fail unexpected_eof []

-- The body of an element whose header gives its length.
unfoldable pub bulk_data : ℤ → Read Text
bulk_data (negsuc _) s = done [] s
bulk_data (pos n) s = (do d ← read_full n; read_line; done d) s

unfoldable pub bulk_of_length : Atoi → Read Text
bulk_of_length (num z) = bulk_data z
bulk_of_length syntax_error = fail invalid_bulk_length
bulk_of_length (range_error _) = fail invalid_bulk_length

unfoldable pub bulk_of_line : Text → Read Text
bulk_of_line [] = fail (expected_bulk_string [])
bulk_of_line (c ∷ cs) =
    if nat_beq c b'$' then bulk_of_length (atoi cs) else fail (expected_bulk_string (c ∷ cs))

-- One round of the loop of `parseArray`.
unfoldable pub read_bulk : Read Text
read_bulk = do line ← read_line; bulk_of_line line

unfoldable pub read_bulks : ℕ → List Text → Read (List Text)
read_bulks zero args = done args
read_bulks (suc n) args = do arg ← read_bulk; read_bulks n (args ++ arg ∷ [])

unfoldable pub parse_array : Atoi → Read (List Text)
parse_array (num (pos (suc n))) = read_bulks (suc n) []
parse_array (num z) = fail (array_length_not_positive z)
parse_array syntax_error = fail invalid_array_length
parse_array (range_error _) = fail invalid_array_length

-- The three-byte forms of the white space of `unicode.IsSpace` in UTF-8.
unfoldable pub is_space3 : ℕ → ℕ → ℕ → Bool
is_space3 a b c =
    (nat_beq a 0xe1 && nat_beq b 0x9a && nat_beq c 0x80)
    || (nat_beq a 0xe2
        && nat_beq b 0x80
        && ((leb 0x80 c && leb c 0x8a) || nat_beq c 0xa8 || nat_beq c 0xa9 || nat_beq c 0xaf))
    || (nat_beq a 0xe2 && nat_beq b 0x81 && nat_beq c 0x9f)
    || (nat_beq a 0xe3 && nat_beq b 0x80 && nat_beq c 0x80)

-- tab to carriage return, and the blank
abbrev pub is_space1 : ℕ → Bool
is_space1 c = (leb 9 c && leb c 13) || nat_beq c 32

-- The number of bytes of the white space that stands first, 0 if none does.
unfoldable pub space_width : Text → ℕ
unfolding is_space3
space_width [] = 0
space_width (a ∷ []) = if is_space1 a then 1 else 0
space_width (a ∷ b ∷ []) =
    if is_space1 a then 1 else if nat_beq a 0xc2 && (nat_beq b 0x85 || nat_beq b 0xa0) then 2 else 0
space_width (a ∷ b ∷ c ∷ s) =
    if is_space1 a
    then 1
    else if nat_beq a 0xc2 && (nat_beq b 0x85 || nat_beq b 0xa0)
    then 2
    else if is_space3 a b c
    then 3
    else 0

-- A word that has ended is a field, unless it is empty.
abbrev pub emit : Text → List Text → List Text
emit [] fs = fs
emit (c ∷ w) fs = (c ∷ w) ∷ fs

-- `strings.Fields`: `skip` bytes of white space are still to pass, `w` is the word so far.
unfoldable pub fields_from : ℕ → Text → Text → List Text
fields_from skip w [] = emit w []
fields_from (suc skip) w (c ∷ cs) = fields_from skip w cs
fields_from zero w (c ∷ cs) = elim (space_width (c ∷ cs)) [
  | zero ↦ fields_from 0 (w ++ c ∷ []) cs
  | suc k ↦ emit w (fields_from k [] cs)
]

unfoldable pub command_of_fields : List Text → Read (List Text)
command_of_fields [] = fail empty_command
command_of_fields (f ∷ fs) = done (f ∷ fs)

unfoldable pub parse_inline : Text → Read (List Text)
parse_inline line = command_of_fields (fields_from 0 [] line)

unfoldable pub parse_line : Text → Read (List Text)
parse_line [] = fail empty_command
parse_line (c ∷ cs) = if nat_beq c b'*' then parse_array (atoi cs) else parse_inline (c ∷ cs)

unfoldable pub parse_command : Read (List Text)
parse_command = do line ← read_line; parse_line line
