-- ===== src/Transactions/Exec.antt =====
-- pipeline_transaction.go: what EXEC does with the queue.
use go_redis.Prelude.{
  ℕ, ◌≡◌, refl, ap, ◌∙◌, List, [], ◌∷◌, ◌++◌, true, false, ◌||◌, some, arith, if◌then◌else◌,
  Option-cases, Bool-cases, inl, inr, All, append-nil, append_assoc,
}
use go_redis.Prelude.Eq.{Text, nat_eq, text_eq}
use go_redis.Prelude.Maps.{lookup, lookup-insert_self}
use go_redis.Protocol.Encode.{encode_raw_array}
use go_redis.Transactions.Manager.{
  tx_started, QueuedCommand, Transaction, new_transaction, reset, clear_watches, TransactionManager,
  unwatch_all_keys,
}
use go_redis.Transactions.Index.{IsIndexed}
use go_redis.Transactions.Sessions.{Session, Event, run, view, any}
use go_redis.Transactions.Views.{NotBy, touched_keys, view-run-NotBy}
use go_redis.Transactions.Handlers.{
  Server, transaction_of, set_transaction, succeeded, nil_response, Run, exec_loop, exec_queue,
  handle_exec,
}

lookup-unwatch_set :
    (c : ℕ) (tx : Transaction) (tm : TransactionManager)
    → lookup c (unwatch_all_keys c (set_transaction c tx tm)).transactions ≡ some (clear_watches tx)
unfolding unwatch_all_keys set_transaction
lookup-unwatch_set c tx tm =
    rw (lookup-insert_self, unwatch_all_keys) (lookup-insert_self c (clear_watches tx) _)

view-some :
    (c : ℕ) (tm : TransactionManager) (x : Session)
    → view c tm ≡ some x
    → ((transaction_of c tm).state ≡ x.state)
      × ((transaction_of c tm).dirty ≡ x.touched)
      × ((transaction_of c tm).queue ≡ x.queue)
view-some c tm x h = elim (Option-cases (lookup c tm.transactions)) [
  | inl e ↦ absurd (ground (arith, e))
  | inr (tx, e) ↦ ground (arith, e)
]

module _ {S : Type 0} (execute : QueuedCommand → S → S × Text) where
  -- the store after the commands, one after the other
  abbrev pub final_store : List QueuedCommand → S → S
  final_store [] s = s
  final_store (q ∷ qs) s = final_store qs (execute q s).0

  abbrev pub responses : List QueuedCommand → S → List Text
  responses [] s = []
  responses (q ∷ qs) s = (execute q s).1 ∷ responses qs (execute q s).0

  -- the commands whose response is no error
  abbrev pub successes : List QueuedCommand → S → List QueuedCommand
  successes [] s = []
  successes (q ∷ qs) s =
      let rest = successes qs (execute q s).0 in
      if succeeded (execute q s).1 then q ∷ rest else rest

  exec_loop-store :
      (qs : List QueuedCommand) (r : Run S)
      → (exec_loop execute qs r).store ≡ final_store qs r.store
  unfolding exec_loop
  exec_loop-store [] r = refl
  exec_loop-store (q ∷ qs) r = exec_loop-store qs _

  exec_loop-results :
      (qs : List QueuedCommand) (r : Run S)
      → (exec_loop execute qs r).results ≡ r.results ++ responses qs r.store
  unfolding exec_loop
  exec_loop-results [] r = rw append-nil
  exec_loop-results (q ∷ qs) r = exec_loop-results qs _ ∙ rw append_assoc

  exec_loop-successful :
      (qs : List QueuedCommand) (r : Run S)
      → (exec_loop execute qs r).successful ≡ r.successful ++ successes qs r.store
  unfolding exec_loop
  exec_loop-successful [] r = rw append-nil
  exec_loop-successful (q ∷ qs) r =
      exec_loop-successful qs _ ∙ elim (Bool-cases (succeeded (execute q r.store).1)) [
        | inl e ↦ rw e (rw append_assoc)
        | inr e ↦ rw e refl
      ]

  -- EXEC of a transaction that was started and whose watched keys were not touched runs the queue
  -- in order, answers with the array of the responses in order, hands the commands that did not
  -- fail to the log in order, and leaves the client with a new transaction.
  pub handle_exec_clean :
      (c : ℕ) (s : Server S)
      → (transaction_of c s.manager).state ≡ tx_started
      → (transaction_of c s.manager).dirty ≡ false
      → ((handle_exec execute c s).0.store ≡ final_store (transaction_of c s.manager).queue s.store)
        × ((handle_exec execute c s).1
            ≡ encode_raw_array (responses (transaction_of c s.manager).queue s.store))
        × ((handle_exec execute c s).0.logged
            ≡ s.logged ++ successes (transaction_of c s.manager).queue s.store)
        × (lookup c (handle_exec execute c s).0.manager.transactions ≡ some new_transaction)
  unfolding handle_exec exec_queue reset clear_watches
  handle_exec_clean c s started clean =
      rw (started, clean)
        (
          exec_loop-store queue _,
          ap encode_raw_array (exec_loop-results queue _),
          ap (λ l. s.logged ++ l) (exec_loop-successful queue _),
          lookup-unwatch_set c _ _,
        )
    where
      open (transaction_of c s.manager) use {queue}

  -- EXEC of a transaction that was started and is dirty answers nil, runs and logs nothing, and
  -- leaves the client with a new transaction.
  handle_exec_dirty :
      (c : ℕ) (s : Server S)
      → (transaction_of c s.manager).state ≡ tx_started
      → (transaction_of c s.manager).dirty ≡ true
      → ((handle_exec execute c s).0.store ≡ s.store)
        × ((handle_exec execute c s).1 ≡ nil_response)
        × ((handle_exec execute c s).0.logged ≡ s.logged)
        × (lookup c (handle_exec execute c s).0.manager.transactions ≡ some new_transaction)
  unfolding handle_exec reset clear_watches
  handle_exec_dirty c s started dirty =
      rw (started, dirty) (refl, refl, refl, lookup-unwatch_set c _ _)

  -- Optimistic locking, end to end: a client has started a transaction; then the others make any
  -- calls, and the store and the log become what they may; then the client's EXEC answers nil and
  -- leaves the store, if the transaction was dirty before or a key that it watches was touched
  -- since, and otherwise it answers with all responses and runs the whole queue on that store.
  pub handle_exec_after :
      (c : ℕ) (es : List Event) (tm : TransactionManager) (x : Session) (t : S)
      (l : List QueuedCommand)
      → IsIndexed tm
      → All (NotBy c) es
      → view c tm ≡ some x
      → x.state ≡ tx_started
      → ((handle_exec execute c (record { manager = run tm es; store = t; logged = l })).0.store
          ≡ (if x.touched || any x.watches (touched_keys es) then t else final_store x.queue t))
        × ((handle_exec execute c (record { manager = run tm es; store = t; logged = l })).1 ≡ (
            if x.touched || any x.watches (touched_keys es)
            then nil_response
            else encode_raw_array (responses x.queue t)))
  handle_exec_after c es tm x t l h k e started =
      let s : Server S = record { manager = run tm es; store = t; logged = l } in
      let v = view-some c (run tm es) _ (view-run-NotBy c es tm x h k e) in
      elim (Bool-cases (x.touched || any x.watches (touched_keys es))) [
        | inl hit ↦ let r = handle_exec_dirty c s (v.0 ∙ started) (v.1 ∙ hit) in rw hit (r.0, r.1)
        | inr miss ↦
            let r = handle_exec_clean c s (v.0 ∙ started) (v.1 ∙ miss) in
            rw miss (
              r.0 ∙ ap (λ q. final_store q t) v.2,
              r.1 ∙ ap (λ q. encode_raw_array (responses q t)) v.2,
            )
      ]
