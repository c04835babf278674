-- ===== src/Protocol/Encode.antt =====
-- The encoders of resp.go. A Go string or byte slice is the list of its bytes.
use go_redis.Prelude.{ℕ, List, [], ◌∷◌, ◌++◌, length}
use go_redis.Prelude.Eq.{Text}
use go_redis.Prelude.Int.{ℤ}
use go_redis.Prelude.Decimal.{format, format_int}

abbrev pub crlf : Text
crlf = 13 ∷ 10 ∷ []

unfoldable pub encode_simple_string : Text → Text
encode_simple_string s = b'+' ∷ (s ++ crlf)

unfoldable pub encode_error : Text → Text
encode_error s = b'-' ∷ (s ++ crlf)

-- `EncodeInteger` and `EncodeInteger64`
unfoldable pub encode_integer : ℤ → Text
encode_integer i = b':' ∷ (format_int i ++ crlf)

unfoldable pub encode_bulk_string : Text → Text
encode_bulk_string s = b'$' ∷ (format (length s) ++ (crlf ++ (s ++ crlf)))

unfoldable pub encode_null_bulk_string : Text
encode_null_bulk_string = b'$' ∷ b'-' ∷ b'1' ∷ crlf

unfoldable pub encode_nil_array : Text
encode_nil_array = b'*' ∷ b'-' ∷ b'1' ∷ crlf

-- the loop of `EncodeArray`
unfoldable pub encode_items : List Text → Text
encode_items [] = []
encode_items (item ∷ items) = encode_bulk_string item ++ encode_items items

-- `*n\r\n`
unfoldable pub array_header : ℕ → Text
array_header n = b'*' ∷ (format n ++ crlf)

unfoldable pub encode_array : List Text → Text
encode_array items = array_header (length items) ++ encode_items items

concat : List Text → Text
concat [] = []
concat (item ∷ items) = item ++ concat items

unfoldable pub encode_raw_array : List Text → Text
unfolding concat
encode_raw_array items = array_header (length items) ++ concat items

-- An `interface{}` in a reply: nil, a string, or a value that `%v` prints.
pub data Item {ℓ} (A : Type ℓ) : Type ℓ where
  nil : Item A
  str : Text → Item A
  other : A → Item A

module _ {ℓ} {A : Type ℓ} (sprint : A → Text) where
  encode_item : Item A → Text
  encode_item nil = encode_null_bulk_string
  encode_item (str s) = encode_bulk_string s
  encode_item (other a) = encode_bulk_string (sprint a)

  encode_interfaces : List (Item A) → Text
  encode_interfaces [] = []
  encode_interfaces (item ∷ items) = encode_item item ++ encode_interfaces items

  unfoldable pub encode_interface_array : List (Item A) → Text
  unfolding encode_item encode_interfaces
  encode_interface_array items = array_header (length items) ++ encode_interfaces items

encode_integers : List ℤ → Text
encode_integers [] = []
encode_integers (i ∷ is) = encode_integer i ++ encode_integers is

unfoldable pub encode_integer_array : List ℤ → Text
unfolding encode_integers
encode_integer_array items = array_header (length items) ++ encode_integers items
