-- ===== src/Storage/Bitmaps/Operations.antt =====
-- internal/storage/bitmap.go: BITOP.
use mathlib.Core.Option
use Prim.Native.Nat.{bit_and, bit_or, bit_xor}
use go_redis.Prelude.{ℕ, ◌-◌, List, [], ◌∷◌, Option, none, some, leb, if◌then◌else◌, length}
use go_redis.Prelude.Eq.{Text}
use go_redis.Storage.Store.{Result, ok, err, invalid_operation, Store}
use go_redis.Storage.Bitmaps.{string_or_empty, padded, save_string}

abbrev read_then :
    (Store → Option (Store × Result (List Text)))
    → Option (Store × Result Text)
    → Option (Store × Result (List Text))
read_then rest none = none
read_then rest (some (s, err e)) = some (s, err e)
read_then rest (some (s, ok t)) = and_text t (rest s)
  where
    and_text : Text → Option (Store × Result (List Text)) → Option (Store × Result (List Text))
    and_text t none = none
    and_text t (some (s, err e)) = some (s, err e)
    and_text t (some (s, ok ts)) = some (s, ok (t ∷ ts))

-- the strings of the source keys, empty ones for missing keys
unfoldable pub read_sources : ℕ → List Text → Store → Option (Store × Result (List Text))
read_sources now [] s = some (s, ok [])
read_sources now (key ∷ keys) s =
    read_then (λ t. read_sources now keys t) (string_or_empty now key s)

unfoldable pub max_length : List Text → ℕ
max_length [] = 0
max_length (t ∷ ts) = let n = max_length ts in if leb n (length t) then length t else n

-- byte by byte, on strings of the same length
unfoldable pub combine : (ℕ → ℕ → ℕ) → Text → Text → Text
combine op [] bs = []
combine op (a ∷ rest) [] = []
combine op (a ∷ rest) (b ∷ bs) = op a b ∷ combine op rest bs

unfoldable pub combine_all : (ℕ → ℕ → ℕ) → ℕ → Text → List Text → Text
combine_all op n result [] = result
combine_all op n result (t ∷ ts) = combine_all op n (combine op result (padded n t)) ts

unfoldable pub combined : (ℕ → ℕ → ℕ) → List Text → Text
combined op [] = []
combined op (t ∷ ts) = let n = max_length (t ∷ ts) in combine_all op n (padded n t) ts

abbrev save_combined : (ℕ → ℕ → ℕ) → Text → Store × Result (List Text) → Store × Result ℕ
save_combined op dest (s, err e) = (s, err e)
save_combined op dest (s, ok ts) =
    (save_string dest (combined op ts) s, ok (length (combined op ts)))

unfoldable pub bit_operation :
    (ℕ → ℕ → ℕ) → ℕ → Text → List Text → Store → Option (Store × Result ℕ)
bit_operation op now dest [] s = some (s, err invalid_operation)
bit_operation op now dest (key ∷ keys) s =
    Option.map (save_combined op dest) (read_sources now (key ∷ keys) s)

unfoldable pub bit_op_and : ℕ → Text → List Text → Store → Option (Store × Result ℕ)
bit_op_and now dest keys s = bit_operation bit_and now dest keys s

unfoldable pub bit_op_or : ℕ → Text → List Text → Store → Option (Store × Result ℕ)
bit_op_or now dest keys s = bit_operation bit_or now dest keys s

unfoldable pub bit_op_xor : ℕ → Text → List Text → Store → Option (Store × Result ℕ)
bit_op_xor now dest keys s = bit_operation bit_xor now dest keys s

-- `^b` of a byte
unfoldable pub inverted : Text → Text
inverted [] = []
inverted (b ∷ bs) = (255 - b) ∷ inverted bs

abbrev save_inverted : Text → Store × Result Text → Store × Result ℕ
save_inverted dest (s, err e) = (s, err e)
save_inverted dest (s, ok t) = (save_string dest (inverted t) s, ok (length (inverted t)))

unfoldable pub bit_op_not : ℕ → Text → Text → Store → Option (Store × Result ℕ)
bit_op_not now dest key s = Option.map (save_inverted dest) (string_or_empty now key s)
