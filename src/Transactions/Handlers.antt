-- ===== src/Transactions/Handlers.antt =====
-- The handlers of pipeline_transaction.go.
use go_redis.Prelude.{
  ℕ, List, [], ◌∷◌, ◌++◌, Bool, true, false, not, Option, none, some, if◌then◌else◌, nat_beq,
}
use go_redis.Prelude.Eq.{Text, text_eq, nat_eq}
use go_redis.Prelude.Maps.{lookup, insert}
use go_redis.Protocol.Encode.{encode_error, encode_raw_array}
use go_redis.Transactions.Manager.{
  TransactionState, tx_none, tx_started, QueuedCommand, Transaction, new_transaction, reset,
  TransactionManager, watch_key, unwatch_all_keys, touch_keys,
}
use go_redis.Transactions.WriteKeys.{codes, get_write_keys}

abbrev pub queued_response : Text
queued_response = codes "+QUEUED" ++ 13 ∷ 10 ∷ []

abbrev pub ok_response : Text
ok_response = codes "+OK" ++ 13 ∷ 10 ∷ []

abbrev pub nil_response : Text
nil_response = codes "$-1" ++ 13 ∷ 10 ∷ []

-- `len(response) > 0 && response[0] != '-'`
abbrev pub succeeded : Text → Bool
succeeded [] = false
succeeded (c ∷ cs) = not (nat_beq c b'-')

-- What the handlers change: the manager; the rest of the server, on which commands act; and the
-- commands handed to `LogToAOF` and `PropagateCommand`, in order.
pub record Server (S : Type 0) : Type 0 where
  pub manager : TransactionManager
  pub store : S
  pub logged : List QueuedCommand

abbrev pub present : Option Transaction → Transaction
present none = new_transaction
present (some tx) = tx

-- The client's `*Transaction`, which `GetTransaction` put there when the client connected.
abbrev pub transaction_of : ℕ → TransactionManager → Transaction
transaction_of client tm = present (lookup client tm.transactions)

-- a write through the client's `*Transaction`
unfoldable pub set_transaction : ℕ → Transaction → TransactionManager → TransactionManager
set_transaction client tx tm = record tm { transactions = insert client tx tm.transactions }

abbrev pub is_started : TransactionState → Bool
is_started tx_none = false
is_started tx_started = true

-- The loop of `handleWatchCommand`.
unfoldable pub watch_keys : ℕ → List Text → TransactionManager → TransactionManager
watch_keys client [] tm = tm
watch_keys client (key ∷ ks) tm = watch_keys client ks (watch_key client key tm)

module _ {S : Type 0} where
  unfoldable pub handle_multi : ℕ → Server S → Server S × Text
  handle_multi client s =
      let tx = transaction_of client s.manager in
      if is_started tx.state
      then (s, encode_error (codes "ERR MULTI calls can not be nested"))
      else (
        record s {
          manager = set_transaction client (record tx { state = tx_started; queue = [] }) s.manager;
        },
        ok_response,
      )

  unfoldable pub handle_discard : ℕ → Server S → Server S × Text
  handle_discard client s =
      let tx = transaction_of client s.manager in
      if is_started tx.state
      then (record s { manager = set_transaction client (reset tx) s.manager }, ok_response)
      else (s, encode_error (codes "ERR DISCARD without MULTI"))

  unfoldable pub handle_watch : ℕ → List Text → Server S → Server S × Text
  handle_watch client keys s =
      let tx = transaction_of client s.manager in
      if is_started tx.state
      then (s, encode_error (codes "ERR WATCH inside MULTI is not allowed"))
      else elim keys [
        | [] ↦ (s, encode_error (codes "ERR wrong number of arguments for 'watch' command"))
        | key ∷ ks ↦ (record s { manager = watch_keys client (key ∷ ks) s.manager }, ok_response)
      ]

  unfoldable pub handle_unwatch : ℕ → Server S → Server S × Text
  handle_unwatch client s = (record s { manager = unwatch_all_keys client s.manager }, ok_response)

-- the variables of `handleExecCommand`
pub record Run (S : Type 0) : Type 0 where
  pub manager : TransactionManager
  pub store : S
  pub results : List Text
  pub successful : List QueuedCommand

-- `execute` is the run of one command by its handler (`executeWithTimeoutNoAOF`), with the
-- response.
module _ {S : Type 0} (execute : QueuedCommand → S → S × Text) where
  -- the loop of `handleExecCommand` over the queue
  unfoldable pub exec_loop : List QueuedCommand → Run S → Run S
  exec_loop [] r = r
  exec_loop (q ∷ qs) r =
      let (store', response) = execute q r.store in
      exec_loop qs (record {
        manager = touch_keys (get_write_keys q.name q.args) r.manager;
        store = store';
        results = r.results ++ response ∷ [];
        successful = if succeeded response then r.successful ++ q ∷ [] else r.successful;
      })

  -- EXEC on a transaction that was started and is not dirty
  unfoldable pub exec_queue : ℕ → Server S → Server S × Text
  exec_queue client s =
      let queue = (transaction_of client s.manager).queue in
      let r =
        exec_loop queue
          (record { manager = s.manager; store = s.store; results = []; successful = [] }) in
      (
        record {
          manager =
              unwatch_all_keys client
                (set_transaction client (reset (transaction_of client r.manager)) r.manager);
          store = r.store;
          logged = s.logged ++ r.successful;
        },
        encode_raw_array r.results,
      )

  unfoldable pub handle_exec : ℕ → Server S → Server S × Text
  handle_exec client s =
      let tx = transaction_of client s.manager in
      if not (is_started tx.state)
      then (s, encode_error (codes "ERR EXEC without MULTI"))
      else if tx.dirty
      then (
        record s {
          manager = unwatch_all_keys client (set_transaction client (reset tx) s.manager);
        },
        nil_response,
      )
      else exec_queue client s
