-- ===== src/Transactions/Manager.antt =====
-- `Transaction` and `TransactionManager` of transaction.go. A method that changes the manager
-- returns the new one. The `*Transaction` that a client's connection holds is the entry of the
-- client's number in `transactions`; the mutex makes each method one step.
use go_redis.Prelude.{ℕ, List, [], ◌∷◌, Bool, true, false, none, some}
use go_redis.Prelude.Eq.{Text, text_eq, nat_eq}
use go_redis.Prelude.Maps.{Map, keys, lookup, insert, remove, member}

pub data TransactionState : Type 0 where
  tx_none tx_started : TransactionState

pub record QueuedCommand : Type 0 where
  pub name : Text
  pub args : List Text

pub record Transaction : Type 0 where
  pub state : TransactionState
  pub queue : List QueuedCommand
  pub watched_keys : Map Text (Unit {0})
  pub dirty : Bool

abbrev pub new_transaction : Transaction
new_transaction = record { state = tx_none; queue = []; watched_keys = []; dirty = false }

unfoldable pub reset : Transaction → Transaction
reset t = record t { state = tx_none; queue = [] }

unfoldable pub clear_watches : Transaction → Transaction
clear_watches t = record t { watched_keys = []; dirty = false }

unfoldable pub mark_dirty : Transaction → Transaction
mark_dirty t = record t { dirty = true }

unfoldable pub is_watching : Transaction → Text → Bool
is_watching t key = member key t.watched_keys

-- key -> the clients that watch it
abbrev pub Watchers : Type 0
Watchers = Map Text (Map ℕ (Unit {0}))

pub record TransactionManager : Type 0 where
  pub transactions : Map ℕ Transaction
  pub key_watchers : Watchers

abbrev pub new_transaction_manager : TransactionManager
new_transaction_manager = record { transactions = []; key_watchers = [] }

unfoldable pub get_transaction : ℕ → TransactionManager → TransactionManager × Transaction
get_transaction client tm = elim (lookup client tm.transactions) [
  | some tx ↦ (tm, tx)
  | none ↦
      (record tm { transactions = insert client new_transaction tm.transactions }, new_transaction)
]

-- The body of the loop over `WatchedKeys` of `RemoveClient` and `UnwatchAllKeys`.
abbrev pub without_client : ℕ → Text → Map ℕ (Unit {0}) → Watchers → Watchers
without_client client key [] w = remove key w
without_client client key (c ∷ cs) w = insert key (c ∷ cs) w

unfoldable pub drop_watcher : ℕ → Text → Watchers → Watchers
drop_watcher client key w = elim (lookup key w) [
  | none ↦ w
  | some watchers ↦ without_client client key (remove client watchers) w
]

unfoldable pub drop_watchers : ℕ → List Text → Watchers → Watchers
drop_watchers client [] w = w
drop_watchers client (key ∷ ks) w = drop_watchers client ks (drop_watcher client key w)

unfoldable pub remove_client : ℕ → TransactionManager → TransactionManager
remove_client client tm = elim (lookup client tm.transactions) [
  | none ↦ tm
  | some tx ↦ record {
    transactions = remove client tm.transactions;
    key_watchers = drop_watchers client (keys tx.watched_keys) tm.key_watchers;
  }
]

-- `keyWatchers[key]`, made empty if it is not there, with the client added
unfoldable pub add_watcher : ℕ → Text → Watchers → Watchers
add_watcher client key w = elim (lookup key w) [
  | none ↦ insert key (insert client tt []) w
  | some watchers ↦ insert key (insert client tt watchers) w
]

unfoldable pub watch_key : ℕ → Text → TransactionManager → TransactionManager
watch_key client key tm = elim (lookup client tm.transactions) [
  | none ↦ tm
  | some tx ↦ record {
    transactions =
        insert client (record tx { watched_keys = insert key tt tx.watched_keys }) tm.transactions;
    key_watchers = add_watcher client key tm.key_watchers;
  }
]

unfoldable pub unwatch_all_keys : ℕ → TransactionManager → TransactionManager
unwatch_all_keys client tm = elim (lookup client tm.transactions) [
  | none ↦ tm
  | some tx ↦ record {
    transactions = insert client (clear_watches tx) tm.transactions;
    key_watchers = drop_watchers client (keys tx.watched_keys) tm.key_watchers;
  }
]

unfoldable pub mark_client : ℕ → Map ℕ Transaction → Map ℕ Transaction
mark_client client txs = elim (lookup client txs) [
  | none ↦ txs
  | some tx ↦ insert client (mark_dirty tx) txs
]

-- the loop over the clients that watch a key
unfoldable pub mark_clients : List ℕ → Map ℕ Transaction → Map ℕ Transaction
mark_clients [] txs = txs
mark_clients (client ∷ cs) txs = mark_clients cs (mark_client client txs)

unfoldable pub touch_key : Text → TransactionManager → TransactionManager
touch_key key tm = elim (lookup key tm.key_watchers) [
  | none ↦ tm
  | some watchers ↦ record tm { transactions = mark_clients (keys watchers) tm.transactions }
]

unfoldable pub touch_keys : List Text → TransactionManager → TransactionManager
touch_keys [] tm = tm
touch_keys (key ∷ ks) tm = touch_keys ks (touch_key key tm)
