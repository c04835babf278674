-- ===== src/Storage/Lists/Tests.antt =====
-- Runs of the operations on lists.
use go_redis.Prelude.{◌≡◌, refl, inl, List, [], ◌∷◌, Option, none, some, true, false, ℕ, arith}
use go_redis.Prelude.Eq.{Text, text_eq, text_beq}
use go_redis.Prelude.Int.{pos, negsuc, ◌+ℤ◌}
use go_redis.Prelude.Maps.{lookup-nil, lookup, insert, remove, member}
use go_redis.Storage.Linked.{
  new_list, push_front, put_front, push_back, put_back, pop_front, pop_first, new_head, pop_back,
  pop_last, new_tail, link_next, link_prev,
}
use go_redis.Storage.Linked.Edit.{clone, push_all, values_from}
use go_redis.Storage.Linked.Methods.{Answers}
use go_redis.Storage.Linked.Calls.{
  Call, to_front, to_back, from_back, whole, copy, value_at, assign, between, near, erase, run,
  run_spec, run-new_list,
}
use go_redis.Storage.Store.{
  Store, new_store, get_all_data, delete_key, is_expired, alloc, write, put, is_snapshot_active,
}
use go_redis.Storage.Strings.{find, find_entry}
use go_redis.Storage.Snapshot.{IsCounted}
use go_redis.Storage.Lists.{
  created_list, list_or_new, get_or_create_list, as_list, existing_list, get_existing_list,
  save_length, save_list, clone_list, own_list, push_each, push_through, push_or_clone, l_push,
  r_push, on_list, on_values, saved, change_with, at_most, pop_count, pop_each, pop_through,
  pop_list, l_pop, r_pop,
}
use go_redis.Storage.Lists.Holding.{HasList}
use go_redis.Storage.Lists.Commands.{
  ListCommand, lpush, rpush, lpop, rpop, lrange, lset, lrem, linsert, exec, exec_all, Reply,
  meaning_all, Replies, exec_all-meaning,
}
use go_redis.Storage.Lists.Snapshots.{exec_each, exec_each-get_all_data}

abbrev letter_a : Text
letter_a = b'a' ∷ []

abbrev letter_b : Text
letter_b = b'b' ∷ []

abbrev letter_c : Text
letter_c = b'c' ∷ []

abbrev todo : Text
todo = b't' ∷ b'o' ∷ b'd' ∷ b'o' ∷ []

abbrev calls : List Call
calls =
    to_front letter_b
    ∷ to_front letter_a
    ∷ to_back letter_c
    ∷ near true letter_c letter_b
    ∷ value_at (negsuc 1)
    ∷ assign (pos 0) letter_c
    ∷ erase (negsuc 0) letter_b
    ∷ between (pos 0) (negsuc 0)
    ∷ from_back
    ∷ copy
    ∷ whole
    ∷ []

run-new_list_example : Answers (run calls new_list) (run_spec calls []).0 (run_spec calls []).1
run-new_list_example = run-new_list calls

abbrev commands : List (ℕ × ListCommand)
commands =
    (1, rpush (letter_a ∷ letter_b ∷ letter_a ∷ []))
    ∷ (2, lpush (letter_c ∷ []))
    ∷ (3, lrem (pos 1) letter_a)
    ∷ (4, linsert false letter_b letter_c)
    ∷ (5, lset (negsuc 0) letter_b)
    ∷ (6, lrange (pos 0) (negsuc 0))
    ∷ (7, rpop (pos 2))
    ∷ []

missing_list : HasList todo (get_all_data new_store).0 []
unfolding get_all_data
missing_list = inl (lookup-nil todo, refl)

exec_all-meaning_example :
    Replies todo
      (exec_all todo commands (get_all_data new_store).0)
      (meaning_all commands []).1
      (meaning_all commands []).0
exec_all-meaning_example = exec_all-meaning todo commands (get_all_data new_store).0 [] missing_list

run_program : Unit {0}
unfolding lookup insert remove member text_beq ◌+ℤ◌ find find_entry delete_key is_expired alloc
    write put get_all_data is_snapshot_active IsCounted push_front put_front push_back put_back
    pop_front pop_first new_head pop_back pop_last new_tail link_next link_prev clone push_all
    values_from created_list list_or_new get_or_create_list as_list existing_list get_existing_list
    save_length save_list clone_list own_list push_each push_through push_or_clone l_push r_push
    on_list on_values saved change_with at_most pop_count pop_each pop_through pop_list l_pop r_pop
    exec exec_all exec_each
run_program = tt

-- the store, or an empty one
abbrev store_of : Option (Store × List Reply) → Store
store_of none = new_store
store_of (some (s, rs)) = s

abbrev result_of : Option Store → Store
result_of none = new_store
result_of (some s) = s

abbrev some_commands : List (ℕ × Text × ListCommand)
some_commands = (2, todo, lpop (pos 1)) ∷ (3, todo, rpush (letter_c ∷ [])) ∷ []

-- A list at the address 0.
abbrev one_list : Store
one_list = store_of (exec_all todo ((1, rpush (letter_a ∷ letter_b ∷ [])) ∷ []) new_store)

runs :
    exec_each some_commands (get_all_data one_list).0
    ≡ some (result_of (exec_each some_commands (get_all_data one_list).0))
unfolding run_program
runs = refl

exec_each-get_all_data_example :
    (result_of (exec_each some_commands (get_all_data one_list).0)).heap 0 ≡ one_list.heap 0
unfolding run_program
exec_each-get_all_data_example =
    exec_each-get_all_data some_commands one_list
      (result_of (exec_each some_commands (get_all_data one_list).0)) 0 (0, refl) (omega arith) runs
