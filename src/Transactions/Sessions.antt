-- ===== src/Transactions/Sessions.antt =====
-- A transaction as its client understands it: a state, a queue, a set of watched keys, and a mark
-- that one of them was touched; and the calls that the connections make to the manager.
use mathlib.Core.Path.{fun_ext}
use go_redis.Prelude.{
  ℕ, ◌≡◌, ap, List, [], ◌∷◌, Bool, false, ◌||◌, Option, none, some, if◌then◌else◌,
}
use go_redis.Prelude.Eq.{Text, text_eq, nat_eq, ◌==◌}
use go_redis.Prelude.Maps.{lookup, member-nil}
use go_redis.Transactions.Manager.{
  TransactionState, tx_none, QueuedCommand, Transaction, new_transaction, is_watching,
  TransactionManager, get_transaction, remove_client, watch_key, unwatch_all_keys, touch_keys,
}

pub record Session : Type 0 where
  pub watches : Text → Bool
  pub touched : Bool
  pub state : TransactionState
  pub queue : List QueuedCommand

abbrev pub fresh : Session
fresh = record { watches = λ k. false; touched = false; state = tx_none; queue = [] }

abbrev pub unwatched : Session → Session
unwatched s = record s { watches = λ k. false; touched = false }

abbrev pub also_watching : Text → Session → Session
also_watching key s = record s { watches = λ k. key == k || s.watches k }

-- one of the keys satisfies the test
abbrev pub any : (Text → Bool) → List Text → Bool
any p [] = false
any p (k ∷ ks) = p k || any p ks

abbrev pub touched_by : List Text → Session → Session
touched_by ks s = record s { touched = s.touched || any s.watches ks }

-- The calls that the connections make.
pub data Event : Type 0 where
  connect disconnect unwatch : ℕ → Event
  watch : ℕ → Text → Event
  touch : List Text → Event

unfoldable pub step : TransactionManager → Event → TransactionManager
step tm (connect c) = (get_transaction c tm).0
step tm (disconnect c) = remove_client c tm
step tm (unwatch c) = unwatch_all_keys c tm
step tm (watch c key) = watch_key c key tm
step tm (touch ks) = touch_keys ks tm

unfoldable pub run : TransactionManager → List Event → TransactionManager
unfolding step
run tm [] = tm
run tm (e ∷ es) = run (step tm e) es

abbrev opened : Option Session → Session
opened none = fresh
opened (some s) = s

abbrev pub map_session : (Session → Session) → Option Session → Option Session
map_session f none = none
map_session f (some s) = some (f s)

-- What an event means to the client `c`.
abbrev pub spec : ℕ → Option Session → Event → Option Session
spec c s (connect d) = if d == c then some (opened s) else s
spec c s (disconnect d) = if d == c then none else s
spec c s (unwatch d) = if d == c then map_session unwatched s else s
spec c s (watch d key) = if d == c then map_session (also_watching key) s else s
spec c s (touch ks) = map_session (touched_by ks) s

abbrev pub spec_run : ℕ → Option Session → List Event → Option Session
spec_run c s [] = s
spec_run c s (e ∷ es) = spec_run c (spec c s e) es

abbrev pub session_of : Transaction → Session
session_of tx = record {
  watches = is_watching tx;
  touched = tx.dirty;
  state = tx.state;
  queue = tx.queue;
}

abbrev pub session : Option Transaction → Option Session
session none = none
session (some tx) = some (session_of tx)

abbrev pub view : ℕ → TransactionManager → Option Session
view c tm = session (lookup c tm.transactions)

pub session-new : session_of new_transaction ≡ fresh
unfolding is_watching
session-new = ap (λ w. record fresh { watches = w }) (fun_ext (member-nil Unit))
