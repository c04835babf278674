-- ===== src/Storage/Lists/Edits.antt =====
-- internal/storage/list_ops.go: LSET, LREM, LTRIM and LINSERT.
use mathlib.Core.Option
use go_redis.Prelude.{ℕ, Option, none, some, Bool, true, false}
use go_redis.Prelude.Eq.{Text}
use go_redis.Prelude.Int.{ℤ, pos, negsuc}
use go_redis.Storage.Linked.{LinkedList, set_at}
use go_redis.Storage.Linked.Edit.{trim, find_node}
use go_redis.Storage.Linked.Search.{insert_found}
use go_redis.Storage.Linked.Backwards.{remove_values}
use go_redis.Storage.Store.{Result, ok, err, no_such_key, index_out_of_range, Store}
use go_redis.Storage.Lists.{
  list_of, get_existing_list, own_list, on_list, on_values, saved, change_with,
}

-- `true` stands for no error. A list that was not changed is not saved.
unfoldable pub set_or_fail :
    Text → ℕ → Store → Option (LinkedList × Bool) → Option (Store × Result Bool)
set_or_fail key p s none = none
set_or_fail key p s (some (l, true)) = saved key p s (some (l, true))
set_or_fail key p s (some (l, false)) = some (s, err index_out_of_range)

unfoldable pub set_through : Text → ℤ → Text → ℕ → Store → Option (Store × Result Bool)
set_through key index value p s = set_or_fail key p s (set_at index value (list_of (s.heap p)))

unfoldable pub l_set : ℕ → Text → ℤ → Text → Store → Option (Store × Result Bool)
l_set now key index value s =
    on_list (err no_such_key) (λ p t. change_with (set_through key index value) (own_list p t))
      (get_existing_list now key s)

unfoldable pub rem_through : Text → ℤ → Text → ℕ → Store → Option (Store × Result ℕ)
rem_through key count value p s = saved key p s (remove_values count value (list_of (s.heap p)))

unfoldable pub l_rem : ℕ → Text → ℤ → Text → Store → Option (Store × Result ℕ)
l_rem now key count value s =
    on_list (ok 0)
      (on_values (ok 0) (λ p t. change_with (rem_through key count value) (own_list p t)))
      (get_existing_list now key s)

unfoldable pub trim_through : Text → ℤ → ℤ → ℕ → Store → Option (Store × Result Bool)
trim_through key start stop p s =
    saved key p s (Option.map (λ l. (l, true)) (trim start stop (list_of (s.heap p))))

unfoldable pub l_trim : ℕ → Text → ℤ → ℤ → Store → Option (Store × Result Bool)
l_trim now key start stop s =
    on_list (ok true) (λ p t. change_with (trim_through key start stop) (own_list p t))
      (get_existing_list now key s)

-- -1 if there is no pivot
unfoldable pub insert_or_fail :
    Text → ℕ → Store → Option (LinkedList × Bool) → Option (Store × Result ℤ)
insert_or_fail key p s none = none
insert_or_fail key p s (some (l, true)) = saved key p s (some (l, l.length))
insert_or_fail key p s (some (l, false)) = some (s, ok (negsuc 0))

unfoldable pub insert_through : Text → Bool → Text → Text → ℕ → Store → Option (Store × Result ℤ)
insert_through key before pivot value p s =
    insert_or_fail key p s
      (insert_found before value (list_of (s.heap p)) (find_node pivot true (list_of (s.heap p))))

unfoldable pub l_insert : ℕ → Text → Bool → Text → Text → Store → Option (Store × Result ℤ)
l_insert now key before pivot value s =
    on_list (ok (pos 0))
      (on_values (ok (pos 0))
        (λ p t. change_with (insert_through key before pivot value) (own_list p t)))
      (get_existing_list now key s)
