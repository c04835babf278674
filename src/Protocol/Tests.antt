-- ===== src/Protocol/Tests.antt =====
-- Runs of the parser and the encoders, and the protocol's theorems at concrete inputs.
use go_redis.Prelude.{none, some, true, false, ◌≡◌, refl, [], ◌∷◌, ◌++◌, arith, length}
use go_redis.Prelude.Eq.{Text}
use go_redis.Prelude.Int.{pos}
use go_redis.Prelude.Decimal.{num, atoi, format}
use go_redis.Protocol.Encode.{encode_bulk_string, encode_items, array_header, encode_array}
use go_redis.Protocol.Parse.{
  done, fail, eof, invalid_array_length, space_width, fields_from, trim_right, split_line,
  read_line, read_full, bulk_data, bulk_of_length, bulk_of_line, read_bulk, read_bulks, parse_array,
  command_of_fields, parse_inline, parse_line, parse_command,
}
use go_redis.Protocol.RoundTrip.{parse_command-encode_array}
use go_redis.Protocol.Inputs.{parse_command-count}
use go_redis.Protocol.Grammar.{Command}
use go_redis.Protocol.Grammar.Parsing.{parse_command-Command}
use go_redis.Protocol.Complete.{
  cut_line, position_behind, bulk_end_at, bulk_end_of, bulk_end, element_end, elements_complete,
  array_complete_of, has_complete_array, has_byte, has_complete_command,
  has_complete_command-encode_array,
}

parser : Unit {0}
unfolding atoi format space_width fields_from trim_right split_line read_line read_full bulk_data
    bulk_of_length bulk_of_line read_bulk read_bulks parse_array command_of_fields parse_inline
    parse_line parse_command encode_bulk_string encode_items array_header encode_array
parser = tt

abbrev get_k : Text
get_k =
    b'*' ∷ b'2' ∷ 13 ∷ 10 ∷ b'$' ∷ b'3' ∷ 13 ∷ 10 ∷ b'G' ∷ b'E' ∷ b'T' ∷ 13 ∷ 10 ∷ b'$' ∷ b'1' ∷ 13
    ∷ 10 ∷ b'k' ∷ 13 ∷ 10 ∷ []

abbrev get : Text
get = b'G' ∷ b'E' ∷ b'T' ∷ []

abbrev k : Text
k = b'k' ∷ []

get_k_encoded : encode_array (get ∷ k ∷ []) ≡ get_k
unfolding parser
get_k_encoded = refl

get_k_parsed : parse_command get_k ≡ done (get ∷ k ∷ []) []
unfolding parser
get_k_parsed = refl

cut_short : parse_command (b'*' ∷ b'2' ∷ 13 ∷ 10 ∷ []) ≡ fail eof []
unfolding parser
cut_short = refl

bad_header : parse_command (b'*' ∷ b'x' ∷ 13 ∷ 10 ∷ []) ≡ fail invalid_array_length []
unfolding parser
bad_header = refl

parse_command-encode_array_example :
    parse_command (encode_array (get ∷ k ∷ []) ++ get_k) ≡ done (get ∷ k ∷ []) get_k
parse_command-encode_array_example =
    parse_command-encode_array get (k ∷ []) get_k (omega arith) (omega arith)

get_k-Command : Command get_k (get ∷ k ∷ []) []
get_k-Command = (parse_command-Command get_k (get ∷ k ∷ []) []).0 get_k_parsed

get-k_body :
    parse_line (b'*' ∷ b'2' ∷ []) (
      b'$' ∷ b'3' ∷ 13 ∷ 10 ∷ b'G' ∷ b'E' ∷ b'T' ∷ 13 ∷ 10 ∷ b'$' ∷ b'1' ∷ 13 ∷ 10 ∷ b'k' ∷ 13 ∷ 10
      ∷ [])
    ≡ done (get ∷ k ∷ []) []
unfolding parser
get-k_body = refl

parse_command-count_example : atoi (b'2' ∷ []) ≡ num (pos (length (get ∷ k ∷ [])))
parse_command-count_example = parse_command-count (b'2' ∷ []) _ [] (get ∷ k ∷ []) get-k_body

look_ahead : Unit {0}
unfolding parser cut_line position_behind bulk_end_at bulk_end_of bulk_end element_end
    elements_complete array_complete_of has_complete_array has_byte has_complete_command
look_ahead = tt

has_complete_command-encode_array_example :
    has_complete_command (encode_array (get ∷ k ∷ []) ++ get_k) ≡ some true
unfolding look_ahead
has_complete_command-encode_array_example =
    has_complete_command-encode_array (get ∷ k ∷ []) get_k (omega arith) (omega arith)

-- A header without a number counts as a complete command.
bad_header_complete : has_complete_command (b'*' ∷ b'x' ∷ 13 ∷ 10 ∷ []) ≡ some true
unfolding look_ahead
bad_header_complete = refl

-- Two elements, the first with the greatest length that an `int` holds: the index becomes negative.
huge_length_panics :
    has_complete_command
      (b'*' ∷ b'2' ∷ 13 ∷ 10 ∷ b'$' ∷ (format 9223372036854775807 ++ 13 ∷ 10 ∷ []))
    ≡ none
unfolding look_ahead
huge_length_panics = refl

half_complete :
    has_complete_command (b'*' ∷ b'2' ∷ 13 ∷ 10 ∷ b'$' ∷ b'3' ∷ 13 ∷ 10 ∷ b'G' ∷ []) ≡ some false
unfolding look_ahead
half_complete = refl
