-- ===== src/Protocol/Grammar/Parsing.antt =====
-- resp.go: the parser accepts the commands of the grammar and no others.
use go_redis.Prelude.{
  ◌<◌, ◌≡◌, refl, sym, ap, ◌∙◌, List, [], ◌∷◌, ◌++◌, arith, length, append-nil, append_assoc, ◌↔◌,
}
use go_redis.Prelude.Eq.{Text}
use go_redis.Prelude.Int.{pos}
use go_redis.Prelude.Decimal.{num}
use go_redis.Protocol.Parse.{
  done, bulk_data, bulk_of_length, bulk_of_line, read_bulk, read_bulks, parse_array, parse_inline,
  parse_line, parse_command, command_of_fields,
}
use go_redis.Protocol.RoundTrip.{read_full_exact}
use go_redis.Protocol.Grammar.{Argument, absent, present, Arguments, Command, array, inline}
use go_redis.Protocol.Grammar.Reading.{Line-read_line, parse_command_sound}

Argument-read_bulk : {s arg r : Text} → Argument s arg r → read_bulk s ≡ done arg r
unfolding read_bulk bulk_of_line bulk_of_length bulk_data
Argument-read_bulk (absent v e q empty) = rw (Line-read_line v, e) (rw (q, empty) refl)
Argument-read_bulk {s} {arg} {r} (present {u = u} v e q joined w) =
    rw (Line-read_line v, e)
      (rw (q, sym joined) (rw (read_full_exact arg u) (rw (Line-read_line w) refl)))

Arguments-read_bulks :
    (rest args : List Text) (s r : Text)
    → Arguments s rest r
    → read_bulks (length rest) args s ≡ done (args ++ rest) r
unfolding read_bulks
Arguments-read_bulks [] args s r e = rw (append-nil args, e) refl
Arguments-read_bulks (arg ∷ rest) args s r (t, v, w) = rw (Argument-read_bulk v) (
    Arguments-read_bulks rest (args ++ arg ∷ []) t r w
    ∙ ap (λ l. done l r) (append_assoc args (arg ∷ []) rest))

command_of_fields-done :
    (fs : List Text) (r : Text) → 0 < length fs → command_of_fields fs r ≡ done fs r
unfolding command_of_fields
command_of_fields-done [] r h = absurd (omega arith)
command_of_fields-done (f ∷ fs) r h = refl

parse_array-done :
    (args : List Text) (s r : Text)
    → 0 < length args
    → Arguments s args r
    → parse_array (num (pos (length args))) s ≡ done args r
unfolding parse_array
parse_array-done [] s r h v = absurd (omega arith)
parse_array-done (arg ∷ args) s r h v = Arguments-read_bulks (arg ∷ args) [] s r v

Command-parse_command :
    (s : Text) (args : List Text) (r : Text) → Command s args r → parse_command s ≡ done args r
unfolding parse_command parse_line parse_inline
Command-parse_command s args r (array v e q some_args w) =
    rw (Line-read_line v, e) (rw q (parse_array-done args _ r some_args w))
Command-parse_command s args r (inline v e n q some_args) =
    rw (Line-read_line v, e) (rw (n, q) (command_of_fields-done args r some_args))

pub parse_command-Command :
    (s : Text) (args : List Text) (r : Text) → (parse_command s ≡ done args r) ↔ Command s args r
parse_command-Command s args r = (parse_command_sound s args r, Command-parse_command s args r)
