-- ===== src/Transactions/Watchers.antt =====
-- pipeline_executor.go: the index of watchers under every command.
use go_redis.Prelude.{
  not, ◌&&◌, ℕ, ◌≡◌, refl, ◌∙◌, List, [], ◌∷◌, Bool, true, false, Option, none, some, arith,
  if◌then◌else◌,
}
use go_redis.Prelude.Eq.{◌==◌, Text, nat_eq, text_eq}
use go_redis.Prelude.Maps.{lookup, lookup-insert, member-nil}
use go_redis.Transactions.Manager.{
  QueuedCommand, Transaction, reset, is_watching, TransactionManager,
}
use go_redis.Transactions.Index.{
  IsIndexed, watching, touch_keys-IsIndexed, watch_key-IsIndexed, unwatch_all_keys-IsIndexed,
}
use go_redis.Transactions.WriteKeys.{codes, is_pub_sub_mode_command, get_write_keys}
use go_redis.Transactions.Handlers.{
  Server, present, transaction_of, set_transaction, watch_keys, handle_multi, handle_discard,
  handle_watch, handle_unwatch, Run, exec_loop, exec_queue, handle_exec,
}
use go_redis.Transactions.Executor.{
  Client, Topic, channel, pattern, Processor, handle_subscribe, handle_unsubscribe, execute_now,
  execute_or_queue, execute_transactional, execute_with_transaction,
}

set_transaction-IsIndexed :
    (c : ℕ) (tx : Transaction) {tm : TransactionManager}
    → IsIndexed tm
    → ((key : Text) → is_watching tx key ≡ watching (lookup c tm.transactions) key)
    → IsIndexed (set_transaction c tx tm)
unfolding set_transaction
set_transaction-IsIndexed c tx {tm} h same = record {
  agree = λ d j. rw lookup-insert (ground (arith, h.agree d j, same j));
}

watching-present :
    (o : Option Transaction) (key : Text) → is_watching (present o) key ≡ watching o key
unfolding is_watching
watching-present none key = member-nil Unit key
watching-present (some tx) key = refl

-- A write through the client's pointer that leaves the watched keys.
rewrite-IsIndexed :
    (c : ℕ) (tx : Transaction) {tm : TransactionManager}
    → IsIndexed tm
    → tx.watched_keys ≡ (transaction_of c tm).watched_keys
    → IsIndexed (set_transaction c tx tm)
rewrite-IsIndexed c tx {tm} h e =
    set_transaction-IsIndexed c tx h
      (λ key. same key ∙ watching-present (lookup c tm.transactions) key)
  where
    same : (key : Text) → is_watching tx key ≡ is_watching (transaction_of c tm) key
    same key = unfold is_watching in rw e refl

watch_keys-IsIndexed :
    (c : ℕ) (ks : List Text) {tm : TransactionManager}
    → IsIndexed tm
    → IsIndexed (watch_keys c ks tm)
unfolding watch_keys
watch_keys-IsIndexed c [] h = h
watch_keys-IsIndexed c (key ∷ ks) h = watch_keys-IsIndexed c ks (watch_key-IsIndexed c key h)

-- The index agrees after a command.
record KeepsIndex {S : Type 0} (x : Server S × Text) : Type 0 where
  index : IsIndexed x.0.manager

if-KeepsIndex :
    {S : Type 0} (b : Bool) (x y : Server S × Text)
    → KeepsIndex x
    → KeepsIndex y
    → KeepsIndex (if b then x else y)
if-KeepsIndex true x y h k = h
if-KeepsIndex false x y h k = k

module _ {S : Type 0} (execute : QueuedCommand → S → S × Text)
    (blocking : ℕ → QueuedCommand → Server S → Server S × Text) where
  exec_loop-IsIndexed :
      (qs : List QueuedCommand) (r : Run S)
      → IsIndexed r.manager
      → IsIndexed (exec_loop execute qs r).manager
  unfolding exec_loop
  exec_loop-IsIndexed [] r h = h
  exec_loop-IsIndexed (q ∷ qs) r h =
      exec_loop-IsIndexed qs _ (touch_keys-IsIndexed (get_write_keys q.name q.args) h)

  handle_watch-KeepsIndex :
      (c : ℕ) (ks : List Text) (s : Server S)
      → IsIndexed s.manager
      → KeepsIndex (handle_watch c ks s)
  unfolding handle_watch
  handle_watch-KeepsIndex c [] s h =
      if-KeepsIndex _ _ _ (record { index = h }) (record { index = h })
  handle_watch-KeepsIndex c (key ∷ ks) s h =
      if-KeepsIndex _ _ _ (record { index = h })
        (record { index = watch_keys-IsIndexed c (key ∷ ks) h })

  handle_multi-KeepsIndex :
      (c : ℕ) (s : Server S) → IsIndexed s.manager → KeepsIndex (handle_multi c s)
  unfolding handle_multi
  handle_multi-KeepsIndex c s h =
      if-KeepsIndex _ _ _ (record { index = h }) (record { index = rewrite-IsIndexed c _ h refl })

  handle_discard-KeepsIndex :
      (c : ℕ) (s : Server S) → IsIndexed s.manager → KeepsIndex (handle_discard c s)
  unfolding handle_discard reset
  handle_discard-KeepsIndex c s h =
      if-KeepsIndex _ _ _ (record { index = rewrite-IsIndexed c _ h refl }) (record { index = h })

  handle_exec-KeepsIndex :
      (c : ℕ) (s : Server S) → IsIndexed s.manager → KeepsIndex (handle_exec execute c s)
  unfolding handle_exec exec_queue reset
  handle_exec-KeepsIndex c s h =
      if-KeepsIndex _ _ _ (record { index = h })
        (if-KeepsIndex _ _ _
          (record { index = unwatch_all_keys-IsIndexed c (rewrite-IsIndexed c _ h refl) })
          (record {
            index =
                unwatch_all_keys-IsIndexed c
                  (rewrite-IsIndexed c _ (exec_loop-IsIndexed _ _ h) refl);
          }))

  module _
      (blocking-KeepsIndex : (c : ℕ) (q : QueuedCommand) (s : Server S)
        → IsIndexed s.manager
        → KeepsIndex (blocking c q s))
      (c : ℕ) (q : QueuedCommand) (s : Server S) (h : IsIndexed s.manager) where
    execute_or_queue-KeepsIndex : KeepsIndex (execute_or_queue execute blocking c q s)
    unfolding execute_or_queue execute_now
    execute_or_queue-KeepsIndex =
        if-KeepsIndex _ _ _
          (if-KeepsIndex _ _ _ (record { index = h })
            (record { index = rewrite-IsIndexed c _ h refl }))
          (if-KeepsIndex _ _ _ (blocking-KeepsIndex c q s h)
            (record { index = touch_keys-IsIndexed (get_write_keys q.name q.args) h }))

    execute_transactional-KeepsIndex : KeepsIndex (execute_transactional execute blocking c q s)
    unfolding execute_transactional handle_unwatch
    execute_transactional-KeepsIndex = if-KeepsIndex _ _ _ (handle_multi-KeepsIndex c s h) (
        if-KeepsIndex _ _ _ (handle_exec-KeepsIndex c s h) (
          if-KeepsIndex _ _ _ (handle_discard-KeepsIndex c s h) (
            if-KeepsIndex _ _ _ (handle_watch-KeepsIndex c q.args s h) (
              if-KeepsIndex _ _ _ (record { index = unwatch_all_keys-IsIndexed c h })
                execute_or_queue-KeepsIndex))))

-- The index agrees after a command that may have changed the client too.
record Serves {S : Type 0} (x : Client × Server S × Text) : Type 0 where
  index : IsIndexed x.1.manager

if-Serves :
    {S : Type 0} (b : Bool) (x y : Client × Server S × Text)
    → Serves x
    → Serves y
    → Serves (if b then x else y)
if-Serves true x y h k = h
if-Serves false x y h k = k

module _ {S : Type 0} (processor : Processor S) (topic : Topic) (client : Client) where
  handle_subscribe-Serves :
      (names : List Text) (s : Server S)
      → IsIndexed s.manager
      → Serves (handle_subscribe processor topic client names s)
  unfolding handle_subscribe
  handle_subscribe-Serves [] s h = record { index = h }
  handle_subscribe-Serves (n ∷ ns) s h = record { index = h }

  handle_unsubscribe-Serves :
      (names : List Text) (s : Server S)
      → IsIndexed s.manager
      → Serves (handle_unsubscribe processor topic client names s)
  unfolding handle_unsubscribe
  handle_unsubscribe-Serves names s h = record { index = h }

module _ {S : Type 0} (execute : QueuedCommand → S → S × Text)
    (blocking : ℕ → QueuedCommand → Server S → Server S × Text) (processor : Processor S) where
  execute_with_transaction-Serves :
      (client : Client) (q : QueuedCommand) (s : Server S)
      → ((c : ℕ) (q : QueuedCommand) (s : Server S)
          → IsIndexed s.manager
          → KeepsIndex (blocking c q s))
      → IsIndexed s.manager
      → Serves (execute_with_transaction execute blocking processor client q s)
  unfolding execute_with_transaction
  execute_with_transaction-Serves client q s k h =
      let r = execute_transactional-KeepsIndex execute blocking k client.id q s h in
      if-Serves (client.in_pub_sub && not (is_pub_sub_mode_command q.name)) _ _
        (record { index = h })
        (if-Serves (q.name == codes "SUBSCRIBE") _ _
          (handle_subscribe-Serves processor channel client q.args s h)
          (if-Serves (q.name == codes "UNSUBSCRIBE") _ _
            (handle_unsubscribe-Serves processor channel client q.args s h)
            (if-Serves (q.name == codes "PSUBSCRIBE") _ _
              (handle_subscribe-Serves processor pattern client q.args s h)
              (if-Serves (q.name == codes "PUNSUBSCRIBE") _ _
                (handle_unsubscribe-Serves processor pattern client q.args s h)
                (record { index = r.index })))))

-- Every command of a client, in pub/sub mode or not, keeps the index of watchers and the watched
-- keys of all clients in agreement, if the blocking commands do.
pub execute_with_transaction-IsIndexed :
    {S : Type 0} (execute : QueuedCommand → S → S × Text)
    (blocking : ℕ → QueuedCommand → Server S → Server S × Text) (processor : Processor S)
    (client : Client) (q : QueuedCommand) (s : Server S)
    → ((c : ℕ) (q : QueuedCommand) (s : Server S)
        → IsIndexed s.manager
        → IsIndexed (blocking c q s).0.manager)
    → IsIndexed s.manager
    → IsIndexed (execute_with_transaction execute blocking processor client q s).1.manager
execute_with_transaction-IsIndexed execute blocking processor client q s k h =
    (execute_with_transaction-Serves execute blocking processor client q s
      (λ d r t i. record { index = k d r t i }) h).index
