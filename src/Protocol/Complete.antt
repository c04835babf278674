-- ===== src/Protocol/Complete.antt =====
-- `HasCompleteCommand` of resp.go: the look ahead into what is buffered. An index into the buffer
-- is the list of the bytes from it on.
use go_redis.Prelude.{
  ℕ, zero, suc, ◌+◌, ◌<◌, ◌≡◌, ◌≢◌, refl, ap, sym, ◌∙◌, List, [], ◌∷◌, ◌++◌, Option, none, some,
  Bool, true, false, not, ◌&&◌, ◌||◌, length, drop, leb, ltb, nat_beq, if◌then◌else◌, All, arith,
  append_assoc, drop_append, length-append,
}
use go_redis.Prelude.Eq.{Text}
use go_redis.Prelude.Int.{pos, negsuc, two63}
use go_redis.Prelude.Decimal.{
  Atoi, num, syntax_error, range_error, atoi, format, IsDigit, format-IsDigit, atoi-format,
}
use go_redis.Protocol.Encode.{encode_bulk_string, encode_items, encode_array, array_header}
use go_redis.Protocol.Parse.{prefix_line}
use go_redis.Protocol.RoundTrip.{encode_bulk_string-append}

-- The bytes before the first `\r\n`, and those behind it.
unfoldable pub cut_line : Text → Option (Text × Text)
cut_line [] = none
cut_line (c ∷ []) = none
cut_line (c ∷ d ∷ s) =
    let rest = cut_line (d ∷ s) in
    if nat_beq c 13 && nat_beq d 10 then some ([], s) else prefix_line c rest

-- The index behind an element: -1, an index in the buffer, or a negative one. The sum that gives it
-- wraps round for a length near 2^63.
pub data Position : Type 0 where
  incomplete : Position
  at : Text → Position
  negative : Position

unfoldable pub position_behind : Option (Text × Text) → Position
position_behind none = incomplete
position_behind (some (line, rest)) = at rest

-- `line` is the header of the bulk string `s`.
unfoldable pub bulk_end_at : Text → Text → Text → Atoi → Position
bulk_end_at s line rest syntax_error = incomplete
bulk_end_at s line rest (range_error z) = incomplete
bulk_end_at s line rest (num (negsuc n)) = at rest
bulk_end_at s line rest (num (pos n)) =
    let total_needed = length line + 2 + n + 2 in
    if leb two63 total_needed
    then negative
    else if ltb (length s) total_needed
    then incomplete
    else at (drop total_needed s)

unfoldable pub bulk_end_of : Text → Option (Text × Text) → Position
bulk_end_of s none = incomplete
bulk_end_of s (some (line, rest)) = bulk_end_at s line rest (atoi (drop 1 line))

-- `hasCompleteBulkStringAt`, of bytes that begin with `$`
unfoldable pub bulk_end : Text → Position
bulk_end s = bulk_end_of s (cut_line s)

unfoldable pub element_end : ℕ → Text → Position
element_end c s =
    if nat_beq c b'$'
    then bulk_end s
    else if nat_beq c b':' || (nat_beq c b'+' || nat_beq c b'-')
    then position_behind (cut_line s)
    else incomplete

-- The loop of `hasCompleteArray`; a negative index panics when the next element is read.
unfoldable pub elements_complete : ℕ → Position → Option Bool
elements_complete _ incomplete = some false
elements_complete zero (at s) = some true
elements_complete zero negative = some true
elements_complete (suc n) negative = none
elements_complete (suc n) (at []) = some false
elements_complete (suc n) (at (c ∷ s)) = elements_complete n (element_end c (c ∷ s))

unfoldable pub array_complete_of : Text → Atoi → Option Bool
array_complete_of rest syntax_error = some true
array_complete_of rest (range_error z) = some false
array_complete_of rest (num (negsuc n)) = some false
array_complete_of rest (num (pos n)) = elements_complete n (at rest)

unfoldable pub has_complete_array : Option (Text × Text) → Option Bool
has_complete_array none = some false
has_complete_array (some (line, rest)) = array_complete_of rest (atoi (drop 1 line))

abbrev pub is_incomplete : Position → Bool
is_incomplete incomplete = true
is_incomplete (at s) = false
is_incomplete negative = false

unfoldable pub has_byte : ℕ → Text → Bool
has_byte b [] = false
has_byte b (c ∷ s) = nat_beq c b || has_byte b s

-- `none` stands for a panic.
unfoldable pub has_complete_command : Text → Option Bool
has_complete_command [] = some false
has_complete_command (c ∷ s) =
    if nat_beq c b'*'
    then has_complete_array (cut_line (c ∷ s))
    else if nat_beq c b'$'
    then some (not (is_incomplete (bulk_end (c ∷ s))))
    else if nat_beq c b'+' || (nat_beq c b'-' || nat_beq c b':')
    then some (not (is_incomplete (position_behind (cut_line (c ∷ s)))))
    else some (has_byte 10 (c ∷ s))

cut_line-append : (l r : Text) → All (λ c. c ≢ 13) l → cut_line (l ++ 13 ∷ 10 ∷ r) ≡ some (l, r)
unfolding cut_line
cut_line-append [] r h = refl
cut_line-append (c ∷ []) r h = ground arith
cut_line-append (c ∷ d ∷ l) r h = ground (arith, cut_line-append (d ∷ l) r h.1)

digits-without_end : (l : Text) → All IsDigit l → All (λ c. c ≢ 13) l
digits-without_end [] h = tt
digits-without_end (c ∷ l) h = (omega arith, digits-without_end l h.1)

length-encode_bulk_string :
    (s : Text)
    → length (encode_bulk_string s) ≡ length (b'$' ∷ format (length s)) + 2 + length s + 2
unfolding encode_bulk_string
length-encode_bulk_string s = omega (
  arith,
  length-append (format (length s)) (13 ∷ 10 ∷ (s ++ 13 ∷ 10 ∷ [])),
  length-append s (13 ∷ 10 ∷ []),
)

bulk_end_at-whole :
    (t line rest r : Text) (n : ℕ)
    → length t ≡ length line + 2 + n + 2
    → length t < two63
    → bulk_end_at (t ++ r) line rest (num (pos n)) ≡ at r
unfolding bulk_end_at
bulk_end_at-whole t line rest r n e h =
    rw (sym e) (ground (arith, length-append t r, drop_append t r))

-- The end of an encoded bulk string is found, whatever follows it.
bulk_end-encode_bulk_string :
    (s r : Text)
    → length (encode_bulk_string s) < two63
    → bulk_end (encode_bulk_string s ++ r) ≡ at r
unfolding bulk_end bulk_end_of
bulk_end-encode_bulk_string s r h =
    let e = length-encode_bulk_string s in
    ap (λ t. bulk_end_of (encode_bulk_string s ++ r) (cut_line t)) (encode_bulk_string-append s r)
    ∙ rw
        (cut_line-append (b'$' ∷ format (length s)) (s ++ 13 ∷ 10 ∷ r)
          (omega arith, digits-without_end _ (format-IsDigit (length s))))
        (rw (atoi-format (length s) (omega arith))
          (bulk_end_at-whole (encode_bulk_string s) (b'$' ∷ format (length s)) _ r (length s) e h))

elements_complete-encode_bulk_string :
    (n : ℕ) (s r : Text)
    → length (encode_bulk_string s) < two63
    → elements_complete (suc n) (at (encode_bulk_string s ++ r)) ≡ elements_complete n (at r)
unfolding elements_complete element_end encode_bulk_string
elements_complete-encode_bulk_string n s r h =
    ap (elements_complete n) (bulk_end-encode_bulk_string s r h)

elements_complete-encode_items :
    (items : List Text) (r : Text)
    → All (λ s. length (encode_bulk_string s) < two63) items
    → elements_complete (length items) (at (encode_items items ++ r)) ≡ some true
unfolding encode_items elements_complete
elements_complete-encode_items [] r h = refl
elements_complete-encode_items (s ∷ items) r h = rw append_assoc (
    elements_complete-encode_bulk_string (length items) s (encode_items items ++ r) h.0
    ∙ elements_complete-encode_items items r h.1)

-- An encoded array is recognised as a complete command, whatever is buffered behind it, if the
-- number of its elements and the length of each encoded element fit an `int`.
pub has_complete_command-encode_array :
    (items : List Text) (r : Text)
    → length items < two63
    → All (λ s. length (encode_bulk_string s) < two63) items
    → has_complete_command (encode_array items ++ r) ≡ some true
unfolding has_complete_command encode_array array_header has_complete_array array_complete_of
has_complete_command-encode_array items r n h = rw append_assoc (
    rw append_assoc (
      rw
        (cut_line-append (b'*' ∷ format (length items)) (encode_items items ++ r)
          (omega arith, digits-without_end _ (format-IsDigit (length items))))
        (rw (atoi-format (length items) n) (elements_complete-encode_items items r h))))
