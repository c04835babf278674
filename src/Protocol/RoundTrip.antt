-- ===== src/Protocol/RoundTrip.antt =====
-- resp.go: the parser on what `EncodeArray` writes.
use go_redis.Prelude.{
  ℕ, suc, ◌<◌, ◌≡◌, refl, sym, ap, ◌∙◌, ◌≢◌, List, [], ◌∷◌, ◌++◌, some, arith, length, All,
  append-nil, append_assoc, length-append, take_append, drop_append, le→leb,
}
use go_redis.Prelude.Eq.{Text}
use go_redis.Prelude.Int.{two63}
use go_redis.Prelude.Decimal.{format, IsDigit, format-IsDigit, atoi-format}
use go_redis.Protocol.Encode.{encode_bulk_string, encode_items, array_header, encode_array}
use go_redis.Protocol.Parse.{
  done, trim_right, split_line, read_line, read_full, bulk_data, bulk_of_length, bulk_of_line,
  read_bulk, read_bulks, parse_array, parse_line, parse_command,
}

-- no part of a line end
abbrev pub IsPlain : ℕ → Type 0
IsPlain c = (c ≢ 13) × (c ≢ 10)

pub split_line-append : (l r : Text) → All (λ c. c ≢ 10) l → split_line (l ++ 10 ∷ r) ≡ some (l, r)
unfolding split_line
split_line-append [] r h = refl
split_line-append (c ∷ l) r h = ground (arith, split_line-append l r h.1)

trim_right-append : (l : Text) → All IsPlain l → trim_right (l ++ 13 ∷ []) ≡ l
unfolding trim_right
trim_right-append [] h = refl
trim_right-append (c ∷ []) h = ground arith
trim_right-append (c ∷ d ∷ l) h = rw (trim_right-append (d ∷ l) h.1) refl

plain_line : (l : Text) → All IsPlain l → All (λ c. c ≢ 10) (l ++ 13 ∷ [])
plain_line [] h = (omega arith, tt)
plain_line (c ∷ l) h = (h.0.1, plain_line l h.1)

-- A line of plain bytes is read back.
pub read_line_plain : (l r : Text) → All IsPlain l → read_line (l ++ 13 ∷ 10 ∷ r) ≡ done l r
unfolding read_line
read_line_plain l r h =
    ap read_line (sym (append_assoc l (13 ∷ []) (10 ∷ r)))
    ∙ rw (split_line-append (l ++ 13 ∷ []) r (plain_line l h), read_line)
        (rw (trim_right-append l h))

digits-IsPlain : (l : Text) → All IsDigit l → All IsPlain l
digits-IsPlain [] h = tt
digits-IsPlain (c ∷ l) h = ((omega arith, omega arith), digits-IsPlain l h.1)

pub read_full_exact : (d r : Text) → read_full (length d) (d ++ r) ≡ done d r
unfolding read_full
read_full_exact [] r = refl
read_full_exact (c ∷ d) r =
    rw (le→leb (suc (length d)) (suc (length (d ++ r))) (omega (arith, length-append d r)))
      (rw (take_append d r, drop_append d r))

pub encode_bulk_string-append :
    (s r : Text)
    → encode_bulk_string s ++ r ≡ (b'$' ∷ format (length s)) ++ 13 ∷ 10 ∷ (s ++ 13 ∷ 10 ∷ r)
unfolding encode_bulk_string
encode_bulk_string-append s r = simp append_assoc

-- A bulk string is read back from its encoding.
pub read_bulk-encode_bulk_string :
    (s r : Text) → length s < two63 → read_bulk (encode_bulk_string s ++ r) ≡ done s r
unfolding read_bulk bulk_of_line bulk_of_length bulk_data
read_bulk-encode_bulk_string s r h = rw encode_bulk_string-append (
    rw
      (read_line_plain (b'$' ∷ format (length s)) (s ++ 13 ∷ 10 ∷ r)
        ((omega arith, omega arith), digits-IsPlain _ (format-IsDigit (length s))))
      (rw (atoi-format (length s) h) (rw read_full_exact (rw (read_line_plain [] r tt)))))

-- The loop over the elements reads them all back.
pub read_bulks-encode_items :
    (items args : List Text) (r : Text)
    → All (λ s. length s < two63) items
    → read_bulks (length items) args (encode_items items ++ r) ≡ done (args ++ items) r
unfolding read_bulks encode_items
read_bulks-encode_items [] args r h = rw append-nil
read_bulks-encode_items (s ∷ items) args r h = rw append_assoc (
    rw (read_bulk-encode_bulk_string s (encode_items items ++ r) h.0)
      (read_bulks-encode_items items (args ++ s ∷ []) r h.1 ∙ rw append_assoc))

-- Parsing what `EncodeArray` wrote, with anything behind it, returns exactly the arguments and
-- leaves exactly the rest, if there is at least one argument and every length fits an `int`.
pub parse_command-encode_array :
    (item : Text) (items : List Text) (r : Text)
    → length (item ∷ items) < two63
    → All (λ s. length s < two63) (item ∷ items)
    → parse_command (encode_array (item ∷ items) ++ r) ≡ done (item ∷ items) r
unfolding parse_command parse_line parse_array encode_array array_header
parse_command-encode_array item items r n h = rw append_assoc (
    rw append_assoc (
      rw
        (read_line_plain (b'*' ∷ format (length (item ∷ items))) (encode_items (item ∷ items) ++ r)
          ((omega arith, omega arith), digits-IsPlain _ (format-IsDigit _)))
        (rw (atoi-format _ n) (read_bulks-encode_items (item ∷ items) [] r h))))
