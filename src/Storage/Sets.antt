-- ===== src/Storage/Sets.antt =====
-- internal/storage/set.go and set_ops.go. Where the source picks random members by iterating over
-- a map, the order of the list stands for the order of the iteration.
use go_redis.Prelude.{
  ℕ, zero, suc, ◌+◌, ◌%◌, List, [], ◌∷◌, Option, none, some, Bool, true, false, ◌&&◌, ltb,
  if◌then◌else◌, length, take, get_or,
}
use go_redis.Prelude.Eq.{Text, text_eq}
use go_redis.Prelude.Int.{ℤ, pos, negsuc}
use go_redis.Prelude.Maps.{Map, lookup, insert, remove, member}
use go_redis.Prelude.Maps
use go_redis.Storage.Store.{
  ValueType, string_type, list_type, set_type, hash_type, zset_type, bloom_filter_type,
  hyper_log_log_type, Data, str, int64, int, ref, Object, set, other, Value, Store, delete_key,
  alloc, write, put, is_snapshot_active,
}
use go_redis.Storage.Strings.{find}

abbrev pub Members : Type 0
Members = Map Text (Unit {0})

unfoldable pub add : Text → Members → Members × Bool
add m s = if member m s then (s, false) else (insert m tt s, true)

unfoldable pub drop : Text → Members → Members × Bool
drop m s = if member m s then (remove m s, true) else (s, false)

unfoldable pub add_all : List Text → Members → Members
unfolding add
add_all [] s = s
add_all (m ∷ ms) s = add_all ms (add m s).0

-- `Pop`, `count` times or until the set is empty
unfoldable pub pop_members : ℕ → Members → Members × List Text
pop_members zero s = (s, [])
pop_members (suc n) [] = ([], [])
pop_members (suc n) ((m, _) ∷ s) = let (s', ms) = pop_members n s in (s', m ∷ ms)

-- the loop of `RandomMembers` with duplicates: `i % len(members)`
cycle : ℕ → ℕ → List Text → List Text
cycle zero i ms = []
cycle (suc n) i ms = get_or ms (i % length ms) [] ∷ cycle n (i + 1) ms

unfoldable pub random_members : ℤ → Members → List Text
unfolding cycle
random_members count [] = []
random_members (negsuc n) (m ∷ s) = cycle (suc n) 0 (Maps.keys (m ∷ s))
random_members (pos n) (m ∷ s) = take n (Maps.keys (m ∷ s))

unfoldable pub union : Members → Members → Members
unfolding add_all
union s t = add_all (Maps.keys t) (add_all (Maps.keys s) [])

-- the members of `ms` that are in `t`, added to a set
unfoldable pub add_common : List Text → Members → Members → Members
unfolding add
add_common [] t acc = acc
add_common (m ∷ ms) t acc = add_common ms t (if member m t then (add m acc).0 else acc)

-- The smaller set is the one that is walked through.
unfoldable pub intersect : Members → Members → Members
unfolding add_common
intersect s t =
    if ltb (length t) (length s)
    then add_common (Maps.keys t) s []
    else add_common (Maps.keys s) t []

unfoldable pub add_missing : List Text → Members → Members → Members
unfolding add
add_missing [] t acc = acc
add_missing (m ∷ ms) t acc = add_missing ms t (if member m t then acc else (add m acc).0)

unfoldable pub diff : Members → Members → Members
unfolding add_missing
diff s t = add_missing (Maps.keys s) t []

-- the members behind a pointer
abbrev pub members_of : Object → Members
members_of (set m) = m
members_of (Object.hash h) = []
members_of (Object.list l) = []
members_of other = []

abbrev pub is_set_type : ValueType → Bool
is_set_type set_type = true
is_set_type string_type = false
is_set_type list_type = false
is_set_type hash_type = false
is_set_type zset_type = false
is_set_type bloom_filter_type = false
is_set_type hyper_log_log_type = false

abbrev pub is_set_object : Object → Bool
is_set_object (set m) = true
is_set_object (Object.hash h) = false
is_set_object (Object.list l) = false
is_set_object other = false

unfoldable pub as_set : Data → Store → Option ℕ
as_set (ref p) s = if is_set_object (s.heap p) then some p else none
as_set (str t) s = none
as_set (int64 z) s = none
as_set (int z) s = none

unfoldable pub new_set : Store → Store × Option ℕ
new_set s = let (t, p) = alloc (set []) s in (t, some p)

unfoldable pub created_set : Option ℕ → Store → Store × Option ℕ
unfolding new_set
created_set none s = new_set s
created_set (some p) s = (s, some p)

unfoldable pub set_or_new : Option Value → Store → Store × Option ℕ
unfolding created_set
set_or_new none s = new_set s
set_or_new (some v) s = if is_set_type v.type then created_set (as_set v.content s) s else (s, none)

unfoldable pub get_or_create_set : ℕ → Text → Store → Store × Option ℕ
get_or_create_set now key s = let (t, v) = find now key s in set_or_new v t

-- nil for a missing key and for a value of another type
unfoldable pub existing_set : Option Value → Store → Option ℕ
existing_set none s = none
existing_set (some v) s = if is_set_type v.type then as_set v.content s else none

unfoldable pub get_existing_set : ℕ → Text → Store → Store × Option ℕ
get_existing_set now key s = let (t, v) = find now key s in (t, existing_set v t)

unfoldable pub save_members : Text → ℕ → Store → Members → Store
save_members key p s [] = delete_key key s
save_members key p s (m ∷ ms) =
    put key (record { content = ref p; expires_at = none; type = set_type }) s

unfoldable pub save_set : Text → ℕ → Store → Store
save_set key p s = save_members key p s (members_of (s.heap p))

unfoldable pub clone_set : ℕ → Store → Store × ℕ
clone_set p s = alloc (set (members_of (s.heap p))) s

-- the loop of `SAdd`, with the number of new members
unfoldable pub add_members : List Text → Members → Members × ℕ
unfolding add
add_members [] s = (s, 0)
add_members (m ∷ ms) s =
    let (s', added) = add m s in
    let (s'', n) = add_members ms s' in (s'', if added then n + 1 else n)

unfoldable pub add_through : Text → List Text → ℕ → Store → Store × ℕ
add_through key ms p s =
    let (m, n) = add_members ms (members_of (s.heap p)) in (save_set key p (write p (set m) s), n)

unfoldable pub add_or_clone : Text → List Text → Option ℕ → Store → Store × ℕ
add_or_clone key ms none s = (s, 0)
add_or_clone key ms (some p) s =
    if is_snapshot_active s && member key s.entries
    then (let (t, q) = clone_set p s in add_through key ms q t)
    else add_through key ms p s

unfoldable pub s_add : ℕ → Text → List Text → Store → Store × ℕ
s_add now key ms s = let (t, p) = get_or_create_set now key s in add_or_clone key ms p t

unfoldable pub drop_members : List Text → Members → Members × ℕ
unfolding drop
drop_members [] s = (s, 0)
drop_members (m ∷ ms) s =
    let (s', dropped) = drop m s in
    let (s'', n) = drop_members ms s' in (s'', if dropped then n + 1 else n)

unfoldable pub drop_through : Text → List Text → ℕ → Store → Store × ℕ
drop_through key ms p s =
    let (m, n) = drop_members ms (members_of (s.heap p)) in (save_set key p (write p (set m) s), n)

unfoldable pub drop_or_clone : Text → List Text → Option ℕ → Store → Store × ℕ
drop_or_clone key ms none s = (s, 0)
drop_or_clone key ms (some p) s =
    if is_snapshot_active s
    then (let (t, q) = clone_set p s in drop_through key ms q t)
    else drop_through key ms p s

unfoldable pub s_rem : ℕ → Text → List Text → Store → Store × ℕ
s_rem now key ms s = let (t, p) = get_existing_set now key s in drop_or_clone key ms p t

unfoldable pub read_at {ℓ} : {A : Type ℓ} → A → (Members → A) → Option ℕ → Store → A
read_at missing use_set none s = missing
read_at missing use_set (some p) s = use_set (members_of (s.heap p))

unfoldable pub read_set {ℓ} : {A : Type ℓ} → ℕ → Text → A → (Members → A) → Store → Store × A
read_set now key missing use_set s =
    let (t, p) = get_existing_set now key s in (t, read_at missing use_set p t)

unfoldable pub s_is_member : ℕ → Text → Text → Store → Store × Bool
s_is_member now key m s = read_set now key false (member m) s

unfoldable pub s_members : ℕ → Text → Store → Store × List Text
s_members now key s = read_set now key [] Maps.keys s

unfoldable pub s_card : ℕ → Text → Store → Store × ℕ
s_card now key s = read_set now key 0 length s

unfoldable pub s_rand_member : ℕ → Text → ℤ → Store → Store × List Text
s_rand_member now key count s = read_set now key [] (random_members count) s

-- `SPop` takes the members out of the set itself, also when a snapshot is active.
unfoldable pub pop_through : Text → ℕ → Option ℕ → Store → Store × List Text
pop_through key count none s = (s, [])
pop_through key count (some p) s =
    let (m, ms) = pop_members count (members_of (s.heap p)) in
    let t = write p (set m) s in (elim m [ [] ↦ delete_key key t | x ∷ xs ↦ t ], ms)

unfoldable pub s_pop : ℕ → Text → ℕ → Store → Store × List Text
s_pop now key count s = let (t, p) = get_existing_set now key s in pop_through key count p t
