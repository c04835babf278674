-- ===== src/Transactions/Queueing.antt =====
-- pipeline_executor.go: a whole transaction of one client, MULTI, commands, EXEC.
use go_redis.Prelude.{
  ℕ, ◌≡◌, refl, sym, ap, ◌∙◌, List, [], ◌∷◌, ◌++◌, Bool, true, false, arith, All, append-nil,
  append_assoc,
}
use go_redis.Prelude.Eq.{Text, nat_eq, text_eq, text_beq}
use go_redis.Prelude.Maps.{lookup-insert_self}
use go_redis.Protocol.Encode.{encode_raw_array}
use go_redis.Transactions.Manager.{
  tx_none, tx_started, QueuedCommand, Transaction, TransactionManager,
}
use go_redis.Transactions.WriteKeys.{
  is_transaction_command, is_blocking_command, is_subscription_command, codes,
}
use go_redis.Transactions.Handlers.{
  Server, queued_response, transaction_of, set_transaction, is_started, handle_multi, handle_exec,
}
use go_redis.Transactions.Executor.{
  Client, Processor, execute_or_queue, execute_transactional, execute_with_transaction,
}
use go_redis.Transactions.Exec.{final_store, responses, handle_exec_clean}

-- a command that is queued inside a transaction
abbrev pub IsQueueable : QueuedCommand → Type 0
IsQueueable q =
    (is_transaction_command q.name ≡ false)
    × (is_blocking_command q.name ≡ false)
    × (is_subscription_command q.name ≡ false)

transaction_of-set :
    (c : ℕ) (tx : Transaction) (tm : TransactionManager)
    → transaction_of c (set_transaction c tx tm) ≡ tx
unfolding set_transaction
transaction_of-set c tx tm = rw (lookup-insert_self c tx tm.transactions) refl

abbrev pub multi_command : QueuedCommand
multi_command = record { name = codes "MULTI"; args = [] }

abbrev pub exec_command : QueuedCommand
exec_command = record { name = codes "EXEC"; args = [] }

module _ {S : Type 0} (execute : QueuedCommand → S → S × Text)
    (blocking : ℕ → QueuedCommand → Server S → Server S × Text) (processor : Processor S) where
  abbrev pub serve : Client → QueuedCommand → Server S → Client × Server S × Text
  serve = execute_with_transaction execute blocking processor

  -- the client sends the commands, one after the other
  abbrev pub send : Client → List QueuedCommand → Server S → Client × Server S
  send client [] s = (client, s)
  send client (q ∷ qs) s = let r = serve client q s in send r.0 qs r.1

  serve_multi :
      (client : Client) (s : Server S)
      → client.in_pub_sub ≡ false
      → serve client multi_command s
        ≡ (client, (handle_multi client.id s).0, (handle_multi client.id s).1)
  unfolding execute_with_transaction execute_transactional text_beq
  serve_multi client s out = rw out refl

  serve_exec :
      (client : Client) (s : Server S)
      → client.in_pub_sub ≡ false
      → serve client exec_command s
        ≡ (client, (handle_exec execute client.id s).0, (handle_exec execute client.id s).1)
  unfolding execute_with_transaction execute_transactional text_beq
  serve_exec client s out = rw out refl

  queued : ℕ → QueuedCommand → Server S → Server S
  queued c q s = record s {
    manager =
        set_transaction c
          (record (transaction_of c s.manager) {
            queue = (transaction_of c s.manager).queue ++ q ∷ [];
          })
          s.manager;
  }

  execute_transactional-queued :
      (c : ℕ) (q : QueuedCommand) (s : Server S)
      → IsQueueable q
      → (transaction_of c s.manager).state ≡ tx_started
      → execute_transactional execute blocking c q s ≡ (queued c q s, queued_response)
  unfolding execute_transactional execute_or_queue is_transaction_command queued
  execute_transactional-queued c q s h started =
      let f : ◌≡◌ {A = Bool} (is_started (transaction_of c s.manager).state) true =
        ap is_started started in
      ground arith

  serve-queued :
      (client : Client) (q : QueuedCommand) (s : Server S)
      → IsQueueable q
      → client.in_pub_sub ≡ false
      → (transaction_of client.id s.manager).state ≡ tx_started
      → serve client q s ≡ (client, queued client.id q s, queued_response)
  unfolding execute_with_transaction is_subscription_command
  serve-queued client q s h out started =
      let e = execute_transactional-queued client.id q s h started in ground (arith, e)

  send-queue :
      (client : Client) (qs : List QueuedCommand) (s : Server S)
      → All IsQueueable qs
      → client.in_pub_sub ≡ false
      → (transaction_of client.id s.manager).state ≡ tx_started
      → ((send client qs s).0 ≡ client)
        × ((transaction_of client.id (send client qs s).1.manager).state ≡ tx_started)
        × ((transaction_of client.id (send client qs s).1.manager).dirty
            ≡ (transaction_of client.id s.manager).dirty)
        × ((transaction_of client.id (send client qs s).1.manager).queue
            ≡ (transaction_of client.id s.manager).queue ++ qs)
        × ((send client qs s).1.store ≡ s.store)
  send-queue client [] s h out started = (refl, started, refl, sym (append-nil _), refl)
  send-queue client (q ∷ qs) s h out started =
      let c = client.id in
      let tx = transaction_of c s.manager in
      let tx' : Transaction = record tx { queue = tx.queue ++ q ∷ [] } in
      let e : transaction_of c (queued c q s).manager ≡ tx' =
        unfold queued in transaction_of-set c tx' s.manager in
      let r = send-queue client qs (queued c q s) h.1 out (ap (λ t. t.state) e ∙ started) in
      rw (serve-queued client q s h.0 out started, send)
        (
          r.0,
          r.1,
          r.2 ∙ ap (λ t. t.dirty) e,
          r.3 ∙ ap (λ t. t.queue ++ qs) e ∙ append_assoc tx.queue (q ∷ []) qs,
          r.4 ∙ unfold queued in refl,
        )

  -- A client that is not in pub/sub mode, outside a transaction and with no touched key, sends
  -- MULTI, then commands that are queued, then EXEC: nothing runs before EXEC, which runs the
  -- commands in order on the store as it was and answers with the array of all their responses.
  pub multi_exec :
      (client : Client) (qs : List QueuedCommand) (s : Server S)
      → All IsQueueable qs
      → client.in_pub_sub ≡ false
      → (transaction_of client.id s.manager).state ≡ tx_none
      → (transaction_of client.id s.manager).dirty ≡ false
      → ((send client (multi_command ∷ qs) s).1.store ≡ s.store)
        × ((serve client exec_command (send client (multi_command ∷ qs) s).1).1.store
            ≡ final_store execute qs s.store)
        × ((serve client exec_command (send client (multi_command ∷ qs) s).1).2
            ≡ encode_raw_array (responses execute qs s.store))
  multi_exec client qs s h out idle clean =
      let c = client.id in
      let tx = transaction_of c s.manager in
      let tx' : Transaction = record tx { state = tx_started; queue = [] } in
      let s' : Server S = record s { manager = set_transaction c tx' s.manager } in
      let m : (handle_multi c s).0 ≡ s' = unfold handle_multi in rw idle in
      let e : transaction_of c s'.manager ≡ tx' = transaction_of-set c tx' s.manager in
      let r = send-queue client qs s' h out (ap (λ t. t.state) e) in
      let t = (send client qs s').1 in
      let x = handle_exec_clean execute c t r.1 (r.2 ∙ ap (λ t. t.dirty) e ∙ clean) in
      let listed = r.3 ∙ ap (λ t. t.queue ++ qs) e in
      rw (serve_multi client s out, m, serve_exec client t out, send)
        (
          r.4,
          x.0 ∙ ap (λ l. final_store execute l t.store) listed ∙ ap (final_store execute qs) r.4,
          x.1
              ∙ ap (λ l. encode_raw_array (responses execute l t.store)) listed
              ∙ ap (λ u. encode_raw_array (responses execute qs u)) r.4,
        )
