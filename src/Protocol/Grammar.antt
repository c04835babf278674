-- ===== src/Protocol/Grammar.antt =====
-- resp.go: the commands as a grammar, apart from the parser: which bytes make up a line, an
-- argument and a command.
pub mod Reading
pub mod Parsing
use go_redis.Prelude.{
  ℕ, zero, suc, ◌<◌, ◌≡◌, ◌≢◌, refl, sym, ap, ◌∙◌, List, [], ◌∷◌, ◌++◌, Option, some, Bool, true,
  false, arith, length, All, append-nil, append_assoc, nat_beq, nat_beq_iff, leb, leb→le, take-drop,
  length-take, take, drop, Bool-cases, Option-cases, inl, inr, ◌⊎◌, ◌↔◌,
}
use go_redis.Prelude.Eq.{Text}
use go_redis.Prelude.Int.{ℤ, pos, negsuc}
use go_redis.Prelude.Decimal.{Atoi, num, syntax_error, range_error, atoi}
use go_redis.Protocol.Parse.{
  Outcome, done, fail, Read, and_then, trim_right, split_line, read_line, read_full, bulk_data,
  bulk_of_length, bulk_of_line, read_bulk, read_bulks, parse_array, parse_inline, parse_line,
  parse_command, fields_from, command_of_fields,
}
use go_redis.Protocol.RoundTrip.{split_line-append, read_full_exact}

-- `s` begins with the line `raw`, which ends at the first `\n`; behind it comes `t`.
pub record Line (s raw t : Text) : Type 0 where
  pub joined : raw ++ 10 ∷ t ≡ s
  pub whole : All (λ c. c ≢ 10) raw

-- `s` begins with an argument `arg`, and goes on with `r`: a line of `$` and a length, then as many
-- bytes and one more line, whatever it holds; or, for a length below 0, nothing more.
pub data Argument (s arg r : Text) : Type 0 where
  absent :
      {raw header : Text} {n : ℕ}
      → Line s raw r
      → trim_right raw ≡ b'$' ∷ header
      → atoi header ≡ num (negsuc n)
      → arg ≡ []
      → Argument s arg r
  present :
      {raw t header u end : Text}
      → Line s raw t
      → trim_right raw ≡ b'$' ∷ header
      → atoi header ≡ num (pos (length arg))
      → arg ++ u ≡ t
      → Line u end r
      → Argument s arg r

abbrev pub Arguments : Text → List Text → Text → Type 0
Arguments s [] r = s ≡ r
Arguments s (arg ∷ args) r = (t : Text) × Argument s arg t × Arguments t args r

-- `s` begins with a command, and goes on with `r`: a line of `*` and the number of arguments, at
-- least 1, and then these; or one line of words that does not begin with `*`.
pub data Command (s : Text) (args : List Text) (r : Text) : Type 0 where
  array :
      {raw t header : Text}
      → Line s raw t
      → trim_right raw ≡ b'*' ∷ header
      → atoi header ≡ num (pos (length args))
      → 0 < length args
      → Arguments t args r
      → Command s args r
  inline :
      {raw text : Text} {c : ℕ}
      → Line s raw r
      → trim_right raw ≡ c ∷ text
      → nat_beq c b'*' ≡ false
      → fields_from 0 [] (c ∷ text) ≡ args
      → 0 < length args
      → Command s args r
