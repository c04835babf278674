-- ===== src/Storage/Hashes.antt =====
-- internal/storage/hash.go and hash_ops.go. `HIncrByFloat` is left out.
use go_redis.Prelude.{
  ℕ, ◌+◌, ◌%◌, List, [], ◌∷◌, Option, none, some, Bool, true, false, not, ◌&&◌, nat_beq,
  if◌then◌else◌, length,
}
use go_redis.Prelude.Eq.{Text, text_eq}
use go_redis.Prelude.Int.{ℤ, pos, ◌+ℤ◌, wrap64}
use go_redis.Prelude.Decimal.{num, syntax_error, range_error, atoi, format_int}
use go_redis.Prelude.Maps.{Map, lookup, insert, remove, member}
use go_redis.Prelude.Maps
use go_redis.Storage.Store.{
  Result, ok, err, wrong_type, wrong_num_args, hash_value_not_integer, ValueType, string_type,
  list_type, set_type, hash_type, zset_type, bloom_filter_type, hyper_log_log_type, Data, str,
  int64, int, ref, Object, hash, other, Value, Store, delete_key, alloc, write, put,
  is_snapshot_active,
}
use go_redis.Storage.Strings.{find}

abbrev pub Hash : Type 0
Hash = Map Text Text

-- The methods of `Hash` beside those of the map itself.
unfoldable pub hash_set : Text → Text → Hash → Hash × Bool
hash_set field value h = (insert field value h, not (member field h))

unfoldable pub hash_delete : Text → Hash → Hash × Bool
hash_delete field h = if member field h then (remove field h, true) else (h, false)

unfoldable pub hash_set_nx : Text → Text → Hash → Hash × Bool
hash_set_nx field value h = if member field h then (h, false) else (insert field value h, true)

values : Hash → List Text
values [] = []
values ((field, value) ∷ h) = value ∷ values h

pairs : Hash → List Text
pairs [] = []
pairs ((field, value) ∷ h) = field ∷ value ∷ pairs h

-- the fields behind a pointer
abbrev pub fields_of : Object → Hash
fields_of (hash h) = h
fields_of (Object.set m) = []
fields_of (Object.list l) = []
fields_of other = []

abbrev pub is_hash_type : ValueType → Bool
is_hash_type hash_type = true
is_hash_type string_type = false
is_hash_type list_type = false
is_hash_type set_type = false
is_hash_type zset_type = false
is_hash_type bloom_filter_type = false
is_hash_type hyper_log_log_type = false

-- `val.Data.(*Hash)`
abbrev pub is_hash_object : Object → Bool
is_hash_object (hash h) = true
is_hash_object (Object.set m) = false
is_hash_object (Object.list l) = false
is_hash_object other = false

unfoldable pub as_hash : Data → Store → Option ℕ
as_hash (ref p) s = if is_hash_object (s.heap p) then some p else none
as_hash (str t) s = none
as_hash (int64 z) s = none
as_hash (int z) s = none

-- `NewHash()`
unfoldable pub new_hash : Store → Store × Option ℕ
new_hash s = let (t, p) = alloc (hash []) s in (t, some p)

unfoldable pub created_hash : Option ℕ → Store → Store × Option ℕ
unfolding new_hash
created_hash none s = new_hash s
created_hash (some p) s = (s, some p)

-- `none` for a value of another type
unfoldable pub hash_or_new : Option Value → Store → Store × Option ℕ
unfolding created_hash
hash_or_new none s = new_hash s
hash_or_new (some v) s =
    if is_hash_type v.type then created_hash (as_hash v.content s) s else (s, none)

unfoldable pub get_or_create_hash : ℕ → Text → Store → Store × Option ℕ
get_or_create_hash now key s = let (t, v) = find now key s in hash_or_new v t

unfoldable pub existing : Option Value → Store → Result (Option ℕ)
existing none s = ok none
existing (some v) s = if is_hash_type v.type then ok (as_hash v.content s) else err wrong_type

unfoldable pub get_existing_hash : ℕ → Text → Store → Store × Result (Option ℕ)
get_existing_hash now key s = let (t, v) = find now key s in (t, existing v t)

unfoldable pub save_fields : Text → ℕ → Store → Hash → Store
save_fields key p s [] = delete_key key s
save_fields key p s (f ∷ fs) =
    put key (record { content = ref p; expires_at = none; type = hash_type }) s

unfoldable pub save_hash : Text → ℕ → Store → Store
save_hash key p s = save_fields key p s (fields_of (s.heap p))

-- `hash.Clone()`
unfoldable pub clone_hash : ℕ → Store → Store × ℕ
clone_hash p s = alloc (hash (fields_of (s.heap p))) s

-- the loop of `HSet`, with the number of new fields
unfoldable pub set_fields : List Text → Hash → Hash × ℕ
unfolding hash_set
set_fields (field ∷ value ∷ rest) h =
    let (h', added) = hash_set field value h in
    let (h'', n) = set_fields rest h' in (h'', if added then n + 1 else n)
set_fields _ h = (h, 0)

-- `HSet` from the pointer on
unfoldable pub set_through : Text → List Text → ℕ → Store → Store × Result ℕ
set_through key field_values p s =
    let (h, n) = set_fields field_values (fields_of (s.heap p)) in
    (save_hash key p (write p (hash h) s), ok n)

unfoldable pub set_or_clone : Text → List Text → Option ℕ → Store → Store × Result ℕ
set_or_clone key field_values none s = (s, err wrong_type)
set_or_clone key field_values (some p) s =
    if is_snapshot_active s && member key s.entries
    then (let (t, q) = clone_hash p s in set_through key field_values q t)
    else set_through key field_values p s

unfoldable pub h_set : ℕ → Text → List Text → Store → Store × Result ℕ
h_set now key field_values s =
    if not (nat_beq (length field_values % 2) 0)
    then (s, err wrong_num_args)
    else (let (t, p) = get_or_create_hash now key s in set_or_clone key field_values p t)

-- a read of a hash that exists, with the answer if there is none
unfoldable pub read_pointer {ℓ} :
    {A : Type ℓ} → A → (Hash → A) → Result (Option ℕ) → Store → Result A
read_pointer missing use_hash (err e) s = err e
read_pointer missing use_hash (ok none) s = ok missing
read_pointer missing use_hash (ok (some p)) s = ok (use_hash (fields_of (s.heap p)))

unfoldable pub read_hash {ℓ} : {A : Type ℓ} → ℕ → Text → A → (Hash → A) → Store → Store × Result A
read_hash now key missing use_hash s =
    let (t, r) = get_existing_hash now key s in (t, read_pointer missing use_hash r t)

unfoldable pub h_get : ℕ → Text → Text → Store → Store × Result (Option Text)
h_get now key field s = read_hash now key none (lookup field) s

-- `HMGet` reads each field; without a hash every answer is nil.
unfoldable pub read_fields : List Text → Hash → List (Option Text)
read_fields [] h = []
read_fields (field ∷ fields) h = lookup field h ∷ read_fields fields h

unfoldable pub h_mget : ℕ → Text → List Text → Store → Store × Result (List (Option Text))
unfolding read_fields
h_mget now key fields s = read_hash now key (read_fields fields []) (read_fields fields) s

unfoldable pub h_exists : ℕ → Text → Text → Store → Store × Result Bool
h_exists now key field s = read_hash now key false (member field) s

unfoldable pub h_len : ℕ → Text → Store → Store × Result ℕ
h_len now key s = read_hash now key 0 length s

unfoldable pub h_keys : ℕ → Text → Store → Store × Result (List Text)
h_keys now key s = read_hash now key [] Maps.keys s

unfoldable pub h_vals : ℕ → Text → Store → Store × Result (List Text)
unfolding values
h_vals now key s = read_hash now key [] values s

unfoldable pub h_get_all : ℕ → Text → Store → Store × Result (List Text)
unfolding pairs
h_get_all now key s = read_hash now key [] pairs s

-- the loop of `HDel`, with the number of fields that were there
unfoldable pub delete_fields : List Text → Hash → Hash × ℕ
unfolding hash_delete
delete_fields [] h = (h, 0)
delete_fields (field ∷ fields) h =
    let (h', found) = hash_delete field h in
    let (h'', n) = delete_fields fields h' in (h'', if found then n + 1 else n)

unfoldable pub delete_through : Text → List Text → ℕ → Store → Store × Result ℕ
delete_through key fields p s =
    let (h, n) = delete_fields fields (fields_of (s.heap p)) in
    (save_hash key p (write p (hash h) s), ok n)

unfoldable pub delete_or_clone : Text → List Text → Result (Option ℕ) → Store → Store × Result ℕ
delete_or_clone key fields (err e) s = (s, err e)
delete_or_clone key fields (ok none) s = (s, ok 0)
delete_or_clone key fields (ok (some p)) s =
    if is_snapshot_active s
    then (let (t, q) = clone_hash p s in delete_through key fields q t)
    else delete_through key fields p s

unfoldable pub h_del : ℕ → Text → List Text → Store → Store × Result ℕ
h_del now key fields s = let (t, r) = get_existing_hash now key s in delete_or_clone key fields r t

unfoldable pub set_nx_through : Text → Text → Text → Option ℕ → Store → Store × Result Bool
unfolding hash_set_nx
set_nx_through key field value none s = (s, err wrong_type)
set_nx_through key field value (some p) s =
    let (h, done) = hash_set_nx field value (fields_of (s.heap p)) in
    if done then (save_hash key p (write p (hash h) s), ok true) else (s, ok false)

-- `HSetNX` does not copy the hash when a snapshot is active.
unfoldable pub h_set_nx : ℕ → Text → Text → Text → Store → Store × Result Bool
h_set_nx now key field value s =
    let (t, p) = get_or_create_hash now key s in set_nx_through key field value p t

-- `strconv.ParseInt(val, 10, 64)` of the field, 0 if it is not there
unfoldable pub field_number : Option Text → Option ℤ
field_number none = some (pos 0)
field_number (some value) = elim (atoi value) [
  | num z ↦ some z
  | syntax_error ↦ none
  | range_error z ↦ none
]

unfoldable pub add_through : Text → Text → ℤ → Option ℕ → Store → Store × Result ℤ
unfolding hash_set
add_through key field increment none s = (s, err wrong_type)
add_through key field increment (some p) s =
    elim (field_number (lookup field (fields_of (s.heap p)))) [
      | none ↦ (s, err hash_value_not_integer)
      | some current ↦
          let sum = wrap64 (current +ℤ increment) in
          let (h, _) = hash_set field (format_int sum) (fields_of (s.heap p)) in
          (save_hash key p (write p (hash h) s), ok sum)
    ]

-- `HIncrBy` does not copy the hash either.
unfoldable pub h_incr_by : ℕ → Text → Text → ℤ → Store → Store × Result ℤ
h_incr_by now key field increment s =
    let (t, p) = get_or_create_hash now key s in add_through key field increment p t
