-- ===== src/Storage/Lists.antt =====
-- internal/storage/list_ops.go: the lists of the keyspace. A list is an object in the heap, which a
-- pop, a push or an edit copies while a snapshot is active. The outer `none` is a panic of a method
-- of the list, or its loop that does not end.
pub mod Edits
pub mod Holding
pub mod Ends
pub mod Pops
pub mod Changes
pub mod Errors
pub mod Commands
pub mod Keeping
pub mod Snapshots
mod Tests
use mathlib.Core.Option
use go_redis.Prelude.{
  ℕ, zero, suc, List, [], ◌∷◌, Option, none, some, Bool, true, false, ◌&&◌, leb, if◌then◌else◌,
}
use go_redis.Prelude.Eq.{Text, text_eq, nat_eq, ◌==◌}
use go_redis.Prelude.Int.{ℤ, pos, negsuc, pos_part}
use go_redis.Prelude.Maps.{member}
use go_redis.Storage.Linked.{
  LinkedList, new_list, push_front, push_back, pop_front, pop_back, get_at,
}
use go_redis.Storage.Linked.Edit.{clone, range}
use go_redis.Storage.Store.{
  Result, ok, err, wrong_type, ValueType, string_type, list_type, set_type, hash_type, zset_type,
  bloom_filter_type, hyper_log_log_type, Data, str, int64, int, ref, Object, list, other, Value,
  Store, delete_key, alloc, write, put, is_snapshot_active,
}
use go_redis.Storage.Strings.{find}

-- the list behind a pointer
abbrev pub list_of : Object → LinkedList
list_of (list l) = l
list_of (Object.hash h) = new_list
list_of (Object.set m) = new_list
list_of other = new_list

abbrev pub is_list_type : ValueType → Bool
is_list_type list_type = true
is_list_type string_type = false
is_list_type set_type = false
is_list_type hash_type = false
is_list_type zset_type = false
is_list_type bloom_filter_type = false
is_list_type hyper_log_log_type = false

-- `val.Data.(*List)`
abbrev pub is_list_object : Object → Bool
is_list_object (list l) = true
is_list_object (Object.hash h) = false
is_list_object (Object.set m) = false
is_list_object other = false

unfoldable pub as_list : Data → Store → Option ℕ
as_list (ref p) s = if is_list_object (s.heap p) then some p else none
as_list (str t) s = none
as_list (int64 z) s = none
as_list (int z) s = none

unfoldable pub created_list : Option ℕ → Store → Store × Option ℕ
created_list none s = let (t, p) = alloc (list new_list) s in (t, some p)
created_list (some p) s = (s, some p)

unfoldable pub list_or_new : Option Value → Store → Store × Option ℕ
list_or_new none s = created_list none s
list_or_new (some v) s =
    if is_list_type v.type then created_list (as_list v.content s) s else (s, none)

unfoldable pub get_or_create_list : ℕ → Text → Store → Store × Option ℕ
get_or_create_list now key s = let (t, v) = find now key s in list_or_new v t

unfoldable pub existing_list : Option Value → Store → Result (Option ℕ)
existing_list none s = ok none
existing_list (some v) s = if is_list_type v.type then ok (as_list v.content s) else err wrong_type

unfoldable pub get_existing_list : ℕ → Text → Store → Store × Result (Option ℕ)
get_existing_list now key s = let (t, v) = find now key s in (t, existing_list v t)

unfoldable pub save_length : Text → ℕ → ℕ → Store → Store
save_length key p n s =
    if n == 0
    then delete_key key s
    else put key (record { content = ref p; expires_at = none; type = list_type }) s

unfoldable pub save_list : Text → ℕ → Store → Store
save_list key p s = save_length key p (pos_part (list_of (s.heap p)).length) s

unfoldable pub clone_list : ℕ → Store → Option (Store × ℕ)
clone_list p s = Option.map (λ l. alloc (list l) s) (clone (list_of (s.heap p)))

-- The list that an operation on a list that exists may change.
unfoldable pub own_list : ℕ → Store → Option (Store × ℕ)
own_list p s = if is_snapshot_active s then clone_list p s else some (s, p)

unfoldable pub push_each : (Text → LinkedList → LinkedList) → List Text → LinkedList → LinkedList
push_each push [] l = l
push_each push (v ∷ vs) l = push_each push vs (push v l)

unfoldable pub push_through :
    (Text → LinkedList → LinkedList) → Text → List Text → Store × ℕ → Store × Result ℤ
push_through push key vs (s, p) =
    let l = push_each push vs (list_of (s.heap p)) in
    (save_list key p (write p (list l) s), ok l.length)

unfoldable pub push_or_clone :
    (Text → LinkedList → LinkedList)
    → Text
    → List Text
    → Option ℕ
    → Store
    → Option (Store × Result ℤ)
push_or_clone push key vs none s = some (s, err wrong_type)
push_or_clone push key vs (some p) s =
    if is_snapshot_active s && member key s.entries
    then Option.map (push_through push key vs) (clone_list p s)
    else some (push_through push key vs (s, p))

unfoldable pub l_push : ℕ → Text → List Text → Store → Option (Store × Result ℤ)
l_push now key vs s =
    let (t, p) = get_or_create_list now key s in push_or_clone push_front key vs p t

unfoldable pub r_push : ℕ → Text → List Text → Store → Option (Store × Result ℤ)
r_push now key vs s =
    let (t, p) = get_or_create_list now key s in push_or_clone push_back key vs p t

-- An operation on a list that exists; `missing` is the answer where there is none.
unfoldable pub on_list {ℓ} :
    {A : Type ℓ}
    → Result A
    → (ℕ → Store → Option (Store × Result A))
    → Store × Result (Option ℕ)
    → Option (Store × Result A)
on_list missing use_list (s, err e) = some (s, err e)
on_list missing use_list (s, ok none) = some (s, missing)
on_list missing use_list (s, ok (some p)) = use_list p s

-- also for an empty list
unfoldable pub on_values {ℓ} :
    {A : Type ℓ}
    → Result A
    → (ℕ → Store → Option (Store × Result A))
    → ℕ
    → Store
    → Option (Store × Result A)
on_values missing use_list p s =
    if pos_part (list_of (s.heap p)).length == 0 then some (s, missing) else use_list p s

-- A method that changes the list, which is saved then.
unfoldable pub saved {ℓ} :
    {A : Type ℓ} → Text → ℕ → Store → Option (LinkedList × A) → Option (Store × Result A)
saved key p s none = none
saved key p s (some (l, a)) = some (save_list key p (write p (list l) s), ok a)

unfoldable pub change_with {ℓ} :
    {A : Type ℓ}
    → (ℕ → Store → Option (Store × Result A))
    → Option (Store × ℕ)
    → Option (Store × Result A)
change_with change none = none
change_with change (some (s, p)) = change p s

-- the loop of the pops; `if val, ok := list.PopFront(); ok`
abbrev pub collected : Option Text → List Text → List Text
collected none xs = xs
collected (some x) xs = x ∷ xs

unfoldable pub pop_each :
    (LinkedList → LinkedList × Option Text) → ℕ → LinkedList → LinkedList × List Text
pop_each pop zero l = (l, [])
pop_each pop (suc n) l =
    let (l1, x) = pop l in let (l2, xs) = pop_each pop n l1 in (l2, collected x xs)

-- `count` is at least 1 and at most the length.
unfoldable pub at_most : ℕ → ℕ → ℕ
at_most count n = if leb count n then count else n

unfoldable pub pop_count : ℤ → ℕ → ℕ
pop_count (negsuc i) n = at_most 1 n
pop_count (pos zero) n = at_most 1 n
pop_count (pos (suc i)) n = at_most (suc i) n

unfoldable pub pop_through :
    (LinkedList → LinkedList × Option Text)
    → Text
    → ℤ
    → ℕ
    → Store
    → Option (Store × Result (List Text))
pop_through pop key count p s =
    let l = list_of (s.heap p) in
    saved key p s (some (pop_each pop (pop_count count (pos_part l.length)) l))

unfoldable pub pop_list :
    (LinkedList → LinkedList × Option Text)
    → ℕ
    → Text
    → ℤ
    → Store
    → Option (Store × Result (List Text))
pop_list pop now key count s =
    on_list (ok [])
      (on_values (ok []) (λ p t. change_with (pop_through pop key count) (own_list p t)))
      (get_existing_list now key s)

unfoldable pub l_pop : ℕ → Text → ℤ → Store → Option (Store × Result (List Text))
l_pop now key count s = pop_list pop_front now key count s

unfoldable pub r_pop : ℕ → Text → ℤ → Store → Option (Store × Result (List Text))
r_pop now key count s = pop_list pop_back now key count s

abbrev pub answer {ℓ} : {A : Type ℓ} → Store → A → Store × Result A
answer s a = (s, ok a)

unfoldable pub l_len : ℕ → Text → Store → Option (Store × Result ℤ)
l_len now key s =
    on_list (ok (pos 0)) (λ p t. some (t, ok (list_of (t.heap p)).length))
      (get_existing_list now key s)

unfoldable pub l_range : ℕ → Text → ℤ → ℤ → Store → Option (Store × Result (List Text))
l_range now key start stop s =
    on_list (ok []) (λ p t. Option.map (answer t) (range start stop (list_of (t.heap p))))
      (get_existing_list now key s)

unfoldable pub l_index : ℕ → Text → ℤ → Store → Option (Store × Result (Option Text))
l_index now key index s =
    on_list (ok none) (λ p t. Option.map (answer t) (get_at index (list_of (t.heap p))))
      (get_existing_list now key s)
