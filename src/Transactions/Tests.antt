-- ===== src/Transactions/Tests.antt =====
-- Runs of the transaction commands, and their theorems at concrete inputs.
use go_redis.Prelude.{ℕ, ◌≡◌, refl, List, [], ◌∷◌, ◌++◌, true, false, none, some, arith, ◌||◌}
use go_redis.Prelude.Eq.{Text, nat_eq, text_eq, text_beq}
use go_redis.Prelude.Maps.{lookup, insert, remove, member}
use go_redis.Prelude.Decimal.{format}
use go_redis.Protocol.Encode.{encode_error, encode_raw_array, array_header}
use go_redis.Transactions.Manager.{
  tx_none, tx_started, QueuedCommand, Transaction, new_transaction, reset, clear_watches,
  mark_dirty, is_watching, TransactionManager, new_transaction_manager, get_transaction,
  drop_watcher, drop_watchers, remove_client, add_watcher, watch_key, unwatch_all_keys, mark_client,
  mark_clients, touch_key, touch_keys,
}
use go_redis.Transactions.Index.{IsIndexed, indexed, IsIndexed-new}
use go_redis.Transactions.Sessions.{
  Event, connect, disconnect, unwatch, watch, touch, step, run, view, spec_run, any,
}
use go_redis.Transactions.Views.{touched_keys, run-IsIndexed, view-run, view-run-NotBy}
use go_redis.Transactions.WriteKeys.{
  codes, get_write_keys, is_blocking_command, is_transaction_command, is_subscription_command,
  is_pub_sub_mode_command,
}
use go_redis.Transactions.Handlers.{
  Server, set_transaction, nil_response, handle_multi, handle_exec, exec_loop, exec_queue,
  handle_discard, handle_watch, handle_unwatch, watch_keys,
}
use go_redis.Transactions.Exec.{handle_exec_clean, handle_exec_after}
use go_redis.Transactions.Executor.{
  Client, subscribed, unsubscribed, Processor, handle_subscribe, handle_unsubscribe, execute_now,
  execute_or_queue, execute_transactional, execute_with_transaction,
}
use go_redis.Transactions.Queueing.{multi_command, exec_command, serve, send, multi_exec}
use go_redis.Transactions.Watchers.{execute_with_transaction-IsIndexed}

program : Unit {0}
unfolding lookup insert remove member text_beq format encode_error encode_raw_array array_header
    reset clear_watches mark_dirty is_watching get_transaction drop_watcher drop_watchers
    remove_client add_watcher watch_key unwatch_all_keys mark_client mark_clients touch_key
    touch_keys step run get_write_keys is_blocking_command set_transaction handle_multi handle_exec
    execute_or_queue execute_transactional execute_with_transaction handle_subscribe
    handle_unsubscribe is_pub_sub_mode_command exec_loop exec_queue execute_now handle_discard
    handle_watch handle_unwatch watch_keys
program = tt

-- a server that counts the commands it has run, and answers `+` to each
abbrev count_up : QueuedCommand → ℕ → ℕ × Text
count_up q n = (Prim.Native.Nat.suc n, b'+' ∷ [])

abbrev never_blocks : ℕ → QueuedCommand → Server ℕ → Server ℕ × Text
never_blocks c q s = (s, [])

abbrev incr : QueuedCommand
incr = record { name = codes "INCR"; args = codes "k" ∷ [] }

-- client 1 watches `k`, and client 2 is connected
abbrev setup : List Event
setup = connect 1 ∷ watch 1 (codes "k") ∷ connect 2 ∷ []

abbrev idle : Server ℕ
idle = record { manager = run new_transaction_manager (connect 1 ∷ []); store = 0; logged = [] }

abbrev started : Transaction
started = record {
  state = tx_started;
  queue = incr ∷ [];
  watched_keys = (codes "k", tt) ∷ [];
  dirty = false;
}

abbrev open_transaction : TransactionManager
open_transaction = record {
  transactions = (1, started) ∷ [];
  key_watchers = (codes "k", (1, tt) ∷ []) ∷ [];
}

run-IsIndexed_example : IsIndexed (run new_transaction_manager setup)
run-IsIndexed_example = run-IsIndexed setup new_transaction_manager IsIndexed-new

view-run_example :
    view 1 (run new_transaction_manager (setup ++ touch (codes "k" ∷ []) ∷ []))
    ≡ spec_run 1 (view 1 new_transaction_manager) (setup ++ touch (codes "k" ∷ []) ∷ [])
view-run_example =
    view-run 1 (setup ++ touch (codes "k" ∷ []) ∷ []) new_transaction_manager IsIndexed-new

watched : TransactionManager
watched = run new_transaction_manager setup

watched_by_one : (view 1 watched) ≡ spec_run 1 (view 1 new_transaction_manager) setup
unfolding watched
watched_by_one = view-run 1 setup new_transaction_manager IsIndexed-new

abbrev others : List Event
others = touch (codes "j" ∷ codes "k" ∷ []) ∷ unwatch 2 ∷ disconnect 2 ∷ []

view-run-NotBy_example :
    view 1 (run (run new_transaction_manager setup) others)
    ≡ some (record {
      watches = λ k. text_beq (codes "k") k || false;
      touched = false || any (λ k. text_beq (codes "k") k || false) (touched_keys others);
      state = tx_none;
      queue = [];
    })
unfolding lookup
view-run-NotBy_example =
    view-run-NotBy 1 others (run new_transaction_manager setup)
      (record {
        watches = λ k. text_beq (codes "k") k || false;
        touched = false;
        state = tx_none;
        queue = [];
      })
      (run-IsIndexed setup new_transaction_manager IsIndexed-new)
      (tt, (omega arith, (omega arith, tt))) (unfold watched in watched_by_one)

open_transaction-IsIndexed : IsIndexed open_transaction
unfolding lookup member is_watching indexed
open_transaction-IsIndexed = record { agree = λ c key. ground arith }

handle_exec_after_example :
    ((handle_exec count_up 1
        (record { manager = run open_transaction others; store = 7; logged = [] })).0.store
      ≡ 7)
    × ((handle_exec count_up 1
          (record { manager = run open_transaction others; store = 7; logged = [] })).1
        ≡ nil_response)
unfolding program
handle_exec_after_example =
    handle_exec_after count_up 1 others open_transaction
      (record {
        watches = is_watching started;
        touched = false;
        state = tx_started;
        queue = incr ∷ [];
      })
      7 [] open_transaction-IsIndexed (tt, (omega arith, (omega arith, tt))) refl refl

handle_exec_clean_example :
    ((handle_exec count_up 1
        (record { manager = open_transaction; store = 5; logged = [] })).0.store
      ≡ 6)
    × ((handle_exec count_up 1 (record { manager = open_transaction; store = 5; logged = [] })).1
        ≡ encode_raw_array ((b'+' ∷ []) ∷ []))
    × ((handle_exec count_up 1
          (record { manager = open_transaction; store = 5; logged = [] })).0.logged
        ≡ incr ∷ [])
    × (lookup 1
          (handle_exec count_up 1
            (record { manager = open_transaction; store = 5; logged = [] })).0.manager.transactions
        ≡ some new_transaction)
unfolding lookup
handle_exec_clean_example =
    handle_exec_clean count_up 1 (record { manager = open_transaction; store = 5; logged = [] })
      refl refl

-- a processor with which every subscription succeeds
abbrev subscriptions : Processor ℕ
subscriptions = record {
  execute_subscribe = λ topic c names n. (n, subscribed c []);
  execute_unsubscribe = λ topic c names n. (n, unsubscribed 0 []);
}

abbrev client_one : Client
client_one = record { id = 1; subscriber = none; in_pub_sub = false }

abbrev subscribe_news : QueuedCommand
subscribe_news = record { name = codes "SUBSCRIBE"; args = codes "news" ∷ [] }

multi_exec_example :
    ((send count_up never_blocks subscriptions client_one
        (multi_command ∷ incr ∷ incr ∷ [])
        idle).1.store
      ≡ 0)
    × ((serve count_up never_blocks subscriptions client_one exec_command
          (send count_up never_blocks subscriptions client_one
            (multi_command ∷ incr ∷ incr ∷ [])
            idle).1).1.store
        ≡ 2)
    × ((serve count_up never_blocks subscriptions client_one exec_command
          (send count_up never_blocks subscriptions client_one
            (multi_command ∷ incr ∷ incr ∷ [])
            idle).1).2
        ≡ encode_raw_array ((b'+' ∷ []) ∷ (b'+' ∷ []) ∷ []))
unfolding program is_transaction_command is_subscription_command
multi_exec_example =
    multi_exec count_up never_blocks subscriptions client_one (incr ∷ incr ∷ []) idle
      ((refl, refl, refl), ((refl, refl, refl), tt)) refl refl refl

execute_with_transaction-IsIndexed_example :
    IsIndexed
      (execute_with_transaction count_up never_blocks subscriptions client_one subscribe_news
        idle).1.manager
execute_with_transaction-IsIndexed_example =
    execute_with_transaction-IsIndexed count_up never_blocks subscriptions client_one subscribe_news
      idle (λ c q s h. h) (run-IsIndexed (connect 1 ∷ []) new_transaction_manager IsIndexed-new)

-- SUBSCRIBE runs at once inside MULTI, and EXEC is refused from then on.
subscribe_inside_multi :
    ((send count_up never_blocks subscriptions client_one
        (multi_command ∷ incr ∷ subscribe_news ∷ [])
        idle).0.in_pub_sub
      ≡ true)
    × ((send count_up never_blocks subscriptions client_one
          (multi_command ∷ incr ∷ subscribe_news ∷ exec_command ∷ [])
          idle).1.store
        ≡ 0)
unfolding program is_transaction_command is_subscription_command
subscribe_inside_multi = (refl, refl)

smove_keys :
    get_write_keys (codes "SMOVE") (codes "a" ∷ codes "b" ∷ codes "x" ∷ []) ≡ codes "a" ∷ []
unfolding program
smove_keys = refl

mset_keys :
    get_write_keys (codes "MSET") (codes "a" ∷ codes "1" ∷ codes "b" ∷ codes "2" ∷ [])
    ≡ codes "a" ∷ codes "b" ∷ []
unfolding program
mset_keys = refl
