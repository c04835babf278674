-- ===== src/Transactions/Views.antt =====
-- transaction.go: the manager with its reverse index, against the sessions of its clients.
use mathlib.Core.Path.{fun_ext}
use go_redis.Prelude.{
  ℕ, ◌≡◌, ◌≢◌, refl, ap, ◌∙◌, List, [], ◌∷◌, ◌++◌, ◌||◌, Option, none, some, arith, if◌then◌else◌,
  Option-cases, inl, inr, All,
}
use go_redis.Prelude.Eq.{Text, text_eq, nat_eq}
use go_redis.Prelude.Maps.{lookup, insert, lookup-insert, lookup-remove, member-insert, member-nil}
use go_redis.Transactions.Manager.{
  Transaction, clear_watches, mark_dirty, is_watching, TransactionManager, get_transaction,
  remove_client, watch_key, unwatch_all_keys, touch_key, touch_keys,
}
use go_redis.Transactions.Index.{
  IsIndexed, watching, marked, lookup-touch_key, touch_key-IsIndexed, touch_keys-IsIndexed,
  get_transaction-IsIndexed, watch_key-IsIndexed, unwatch_all_keys-IsIndexed,
  remove_client-IsIndexed,
}
use go_redis.Transactions.Sessions.{
  Session, unwatched, also_watching, any, touched_by, Event, step, run, map_session, spec, spec_run,
  session_of, session, view, session-new, connect, disconnect, unwatch, watch, touch,
}

session-clear_watches :
    (tx : Transaction) → session_of (clear_watches tx) ≡ unwatched (session_of tx)
unfolding is_watching clear_watches
session-clear_watches tx =
    ap (λ w. record (unwatched (session_of tx)) { watches = w }) (fun_ext (member-nil Unit))

session-insert :
    (key : Text) (tx : Transaction)
    → session_of (record tx { watched_keys = insert key tt tx.watched_keys })
      ≡ also_watching key (session_of tx)
unfolding is_watching
session-insert key tx =
    ap (λ w. record (session_of tx) { watches = w })
      (fun_ext (λ k. member-insert key k tt tx.watched_keys))

view-get_transaction :
    (c d : ℕ) (tm : TransactionManager)
    → view c (get_transaction d tm).0 ≡ spec c (view c tm) (connect d)
unfolding get_transaction
view-get_transaction c d tm = elim (Option-cases (lookup d tm.transactions)) [
  | inl e ↦ rw (e, get_transaction) (rw lookup-insert (ground (arith, e, session-new)))
  | inr (tx, e) ↦ rw (e, get_transaction) (ground (arith, e))
]

view-remove_client :
    (c d : ℕ) (tm : TransactionManager)
    → view c (remove_client d tm) ≡ spec c (view c tm) (disconnect d)
unfolding remove_client
view-remove_client c d tm = elim (Option-cases (lookup d tm.transactions)) [
  | inl e ↦ rw (e, remove_client) (ground (arith, e))
  | inr (tx, e) ↦ rw (e, remove_client) (rw lookup-remove (ground (arith, e)))
]

view-unwatch_all_keys :
    (c d : ℕ) (tm : TransactionManager)
    → view c (unwatch_all_keys d tm) ≡ spec c (view c tm) (unwatch d)
unfolding unwatch_all_keys
view-unwatch_all_keys c d tm = elim (Option-cases (lookup d tm.transactions)) [
  | inl e ↦ rw (e, unwatch_all_keys) (ground (arith, e))
  | inr (tx, e) ↦
      rw (e, unwatch_all_keys) (rw lookup-insert (ground (arith, e, session-clear_watches tx)))
]

view-watch_key :
    (c d : ℕ) (key : Text) (tm : TransactionManager)
    → view c (watch_key d key tm) ≡ spec c (view c tm) (watch d key)
unfolding watch_key
view-watch_key c d key tm = elim (Option-cases (lookup d tm.transactions)) [
  | inl e ↦ rw (e, watch_key) (ground (arith, e))
  | inr (tx, e) ↦ rw (e, watch_key) (rw lookup-insert (ground (arith, e, session-insert key tx)))
]

session-marked :
    (key : Text) (o : Option Transaction)
    → session (if watching o key then marked o else o)
      ≡ map_session (touched_by (key ∷ [])) (session o)
unfolding mark_dirty is_watching
session-marked key none = refl
session-marked key (some tx) = ground arith

view-touch_key :
    (c : ℕ) (key : Text) {tm : TransactionManager}
    → IsIndexed tm
    → view c (touch_key key tm) ≡ map_session (touched_by (key ∷ [])) (view c tm)
view-touch_key c key {tm} h =
    rw lookup-touch_key (rw (h.agree c key) (session-marked key (lookup c tm.transactions)))

touched_by-cons :
    (key : Text) (ks : List Text) (o : Option Session)
    → map_session (touched_by ks) (map_session (touched_by (key ∷ [])) o)
      ≡ map_session (touched_by (key ∷ ks)) o
touched_by-cons key ks none = refl
touched_by-cons key ks (some s) = ground arith

view-touch_keys :
    (c : ℕ) (ks : List Text) {tm : TransactionManager}
    → IsIndexed tm
    → view c (touch_keys ks tm) ≡ map_session (touched_by ks) (view c tm)
unfolding touch_keys
view-touch_keys c [] {tm} h = touched_none (view c tm)
  where
    touched_none : (o : Option Session) → o ≡ map_session (touched_by []) o
    touched_none none = refl
    touched_none (some s) = ground arith
view-touch_keys c (key ∷ ks) {tm} h =
    view-touch_keys c ks (touch_key-IsIndexed key h)
    ∙ rw (view-touch_key c key h) (touched_by-cons key ks (view c tm))

step-IsIndexed : (e : Event) {tm : TransactionManager} → IsIndexed tm → IsIndexed (step tm e)
unfolding step
step-IsIndexed (connect c) h = get_transaction-IsIndexed c h
step-IsIndexed (disconnect c) h = remove_client-IsIndexed c h
step-IsIndexed (unwatch c) h = unwatch_all_keys-IsIndexed c h
step-IsIndexed (watch c key) h = watch_key-IsIndexed c key h
step-IsIndexed (touch ks) h = touch_keys-IsIndexed ks h

-- From any manager whose index agrees with its transactions, the index still agrees after every
-- sequence of calls.
pub run-IsIndexed :
    (es : List Event) (tm : TransactionManager) → IsIndexed tm → IsIndexed (run tm es)
unfolding run
run-IsIndexed [] tm h = h
run-IsIndexed (e ∷ es) tm h = run-IsIndexed es (step tm e) (step-IsIndexed e h)

view-step :
    (c : ℕ) (e : Event) {tm : TransactionManager}
    → IsIndexed tm
    → view c (step tm e) ≡ spec c (view c tm) e
unfolding step
view-step c (connect d) {tm} h = view-get_transaction c d tm
view-step c (disconnect d) {tm} h = view-remove_client c d tm
view-step c (unwatch d) {tm} h = view-unwatch_all_keys c d tm
view-step c (watch d key) {tm} h = view-watch_key c d key tm
view-step c (touch ks) h = view-touch_keys c ks h

-- Each client sees the manager as its own set of watched keys and its own mark: after every
-- sequence of calls by all clients, from a manager whose index agrees, what the manager holds for
-- a client is what the specification computes from the client's own calls and the touched keys.
pub view-run :
    (c : ℕ) (es : List Event) (tm : TransactionManager)
    → IsIndexed tm
    → view c (run tm es) ≡ spec_run c (view c tm) es
unfolding run
view-run c [] tm h = refl
view-run c (e ∷ es) tm h = view-run c es (step tm e) (step-IsIndexed e h) ∙ rw (view-step c e h)

-- A call that is not made by the client `c`.
abbrev pub NotBy : ℕ → Event → Type 0
NotBy c (connect d) = d ≢ c
NotBy c (disconnect d) = d ≢ c
NotBy c (unwatch d) = d ≢ c
NotBy c (watch d key) = d ≢ c
NotBy c (touch ks) = Unit

-- the keys that the calls touch
abbrev pub touched_keys : List Event → List Text
touched_keys [] = []
touched_keys (touch ks ∷ es) = ks ++ touched_keys es
touched_keys (connect d ∷ es) = touched_keys es
touched_keys (disconnect d ∷ es) = touched_keys es
touched_keys (unwatch d ∷ es) = touched_keys es
touched_keys (watch d key ∷ es) = touched_keys es

touched_by-append :
    (ks js : List Text) (s : Session) → touched_by js (touched_by ks s) ≡ touched_by (ks ++ js) s
touched_by-append [] js s = ground arith
touched_by-append (k ∷ ks) js s = ground (arith, touched_by-append ks js s)

spec-NotBy :
    (c : ℕ) (e : Event) (s : Session)
    → NotBy c e
    → spec c (some s) e ≡ some (touched_by (touched_keys (e ∷ [])) s)
spec-NotBy c (connect d) s h = ground arith
spec-NotBy c (disconnect d) s h = ground arith
spec-NotBy c (unwatch d) s h = ground arith
spec-NotBy c (watch d key) s h = ground arith
spec-NotBy c (touch ks) s h = rw mathlib.Core.List.append-nil

touched_keys-cons :
    (e : Event) (es : List Event) → touched_keys (e ∷ []) ++ touched_keys es ≡ touched_keys (e ∷ es)
touched_keys-cons (touch ks) es = rw mathlib.Core.List.append-nil
touched_keys-cons (connect d) es = refl
touched_keys-cons (disconnect d) es = refl
touched_keys-cons (unwatch d) es = refl
touched_keys-cons (watch d key) es = refl

spec_run-NotBy :
    (c : ℕ) (es : List Event) (s : Session)
    → All (NotBy c) es
    → spec_run c (some s) es ≡ some (touched_by (touched_keys es) s)
spec_run-NotBy c [] s h = ground arith
spec_run-NotBy c (e ∷ es) s h = rw (spec-NotBy c e s h.0) (
    spec_run-NotBy c es (touched_by (touched_keys (e ∷ [])) s) h.1
    ∙ rw touched_by-append (rw touched_keys-cons))

-- While a client makes no call, the others connect, watch, unwatch and disconnect without effect
-- on it: its queue and its watched keys stay, and its transaction becomes dirty exactly if a key
-- that it watches is touched.
pub view-run-NotBy :
    (c : ℕ) (es : List Event) (tm : TransactionManager) (s : Session)
    → IsIndexed tm
    → All (NotBy c) es
    → view c tm ≡ some s
    → view c (run tm es)
      ≡ some (record s { touched = s.touched || any s.watches (touched_keys es) })
view-run-NotBy c es tm s h k e = view-run c es tm h ∙ rw e (spec_run-NotBy c es s k)
