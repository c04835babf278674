-- ===== src/Protocol/Inputs.antt =====
-- resp.go: the number of arguments of an array command, on every input.
use go_redis.Prelude.{
  ℕ, zero, suc, ◌+◌, ◌<◌, ◌≡◌, refl, List, [], ◌∷◌, ◌++◌, arith, length, length-append,
}
use go_redis.Prelude.Eq.{Text}
use go_redis.Prelude.Int.{pos, negsuc}
use go_redis.Prelude.Decimal.{Atoi, num, syntax_error, range_error, atoi}
use go_redis.Protocol.Parse.{
  Outcome, done, fail, read_bulk, read_bulks, parse_array, parse_line, and_then,
}

-- the number of arguments that the loop has gathered
read_bulks-length :
    (n : ℕ) (args : List Text) (s : Text) (out : List Text) (r : Text)
    → read_bulks n args s ≡ done out r
    → length out ≡ length args + n
unfolding read_bulks
read_bulks-length zero args s out r h = ground arith
read_bulks-length (suc n) args s out r h =
    go (λ arg t. read_bulks-length n (args ++ arg ∷ []) t out r) (read_bulk s) h
  where
    go :
        ((arg t : Text)
          → read_bulks n (args ++ arg ∷ []) t ≡ done out r
          → length out ≡ length (args ++ arg ∷ []) + n)
        → (o : Outcome Text) → and_then o (λ arg. read_bulks n (args ++ arg ∷ [])) ≡ done out r
        → length out ≡ length args + suc n
    go ih (done arg t) e = omega (arith, ih arg t e, length-append args (arg ∷ []))
    go ih (fail x t) e = absurd (cc e)

parse_array-pos :
    (a : Atoi) (s : Text) (out : List Text) (r : Text)
    → parse_array a s ≡ done out r
    → (n : ℕ) × (a ≡ num (pos n)) × (0 < n) × (length out ≡ n)
unfolding parse_array
parse_array-pos (num (pos (suc n))) s out r h =
    (suc n, refl, omega arith, omega (arith, read_bulks-length (suc n) [] s out r h))
parse_array-pos (num (pos zero)) s out r h = absurd (cc h)
parse_array-pos (num (negsuc n)) s out r h = absurd (cc h)
parse_array-pos syntax_error s out r h = absurd (cc h)
parse_array-pos (range_error z) s out r h = absurd (cc h)

-- An array command that is parsed has exactly the number of arguments that its header announces.
pub parse_command-count :
    (header s r : Text) (args : List Text)
    → parse_line (b'*' ∷ header) s ≡ done args r
    → atoi header ≡ num (pos (length args))
unfolding parse_line
parse_command-count header s r args h =
    let (n, e, p, q) = parse_array-pos (atoi header) s args r h in cc (e, q)
