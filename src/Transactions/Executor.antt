-- ===== src/Transactions/Executor.antt =====
-- `executeWithTransaction` of pipeline_executor.go, and the handlers of pubsub_handlers.go that it
-- calls for SUBSCRIBE, UNSUBSCRIBE, PSUBSCRIBE and PUNSUBSCRIBE.
use go_redis.Prelude.{
  ℕ, zero, suc, List, [], ◌∷◌, ◌++◌, Bool, true, false, not, ◌&&◌, Option, none, some,
  if◌then◌else◌,
}
use go_redis.Prelude.Eq.{Text, text_eq, ◌==◌}
use go_redis.Protocol.Encode.{encode_error}
use go_redis.Transactions.Manager.{QueuedCommand, touch_keys}
use go_redis.Transactions.WriteKeys.{
  codes, get_write_keys, is_blocking_command, is_pub_sub_mode_command,
}
use go_redis.Transactions.Handlers.{
  Server, transaction_of, set_transaction, is_started, queued_response, succeeded, handle_multi,
  handle_exec, handle_discard, handle_watch, handle_unwatch,
}

-- `subscriber` is the name of the `*storage.Subscriber`.
pub record Client : Type 0 where
  pub id : ℕ
  pub subscriber : Option ℕ
  pub in_pub_sub : Bool

-- the answer of the processor to a subscription, its confirmations encoded by `encodePubSubMessage`
pub data SubscribeResult : Type 0 where
  subscribe_failed : Text → SubscribeResult
  subscribed : ℕ → List Text → SubscribeResult

-- and to its end, with the number of subscriptions that are left
pub data UnsubscribeResult : Type 0 where
  unsubscribe_failed : Text → UnsubscribeResult
  unsubscribed : ℕ → List Text → UnsubscribeResult

-- `CmdSubscribe` and `CmdUnsubscribe` for channels, `CmdPSubscribe` and `CmdPUnsubscribe` for patterns
pub data Topic : Type 0 where
  channel pattern : Topic

-- The processor on the four commands: a client's ID and the channels or patterns.
pub record Processor (S : Type 0) : Type 0 where
  pub execute_subscribe : Topic → ℕ → List Text → S → S × SubscribeResult
  pub execute_unsubscribe : Topic → ℕ → List Text → S → S × UnsubscribeResult

unfoldable pub join_responses : List Text → Text
join_responses [] = []
join_responses (r ∷ rs) = r ++ join_responses rs

abbrev pub after_subscribe : SubscribeResult → Client → Client × Text
after_subscribe (subscribe_failed e) client = (client, encode_error e)
after_subscribe (subscribed sub messages) client =
    (record client { subscriber = some sub; in_pub_sub = true }, join_responses messages)

abbrev pub after_unsubscribe : UnsubscribeResult → Client → Client × Text
after_unsubscribe (unsubscribe_failed e) client = (client, encode_error e)
after_unsubscribe (unsubscribed zero messages) client =
    (record client { subscriber = none; in_pub_sub = false }, join_responses messages)
after_unsubscribe (unsubscribed (suc n) messages) client = (client, join_responses messages)

abbrev pub subscribe_name : Topic → Text
subscribe_name channel = codes "subscribe"
subscribe_name pattern = codes "psubscribe"

module _ {S : Type 0} (processor : Processor S) where
  -- `handleSubscribe` and `handlePSubscribe`
  unfoldable pub handle_subscribe : Topic → Client → List Text → Server S → Client × Server S × Text
  handle_subscribe topic client [] s = (
    client,
    s,
    encode_error (
        codes "ERR wrong number of arguments for '" ++ (subscribe_name topic ++ codes "' command")),
  )
  handle_subscribe topic client (name ∷ names) s =
      let (store', result) = processor.execute_subscribe topic client.id (name ∷ names) s.store in
      let (client', response) = after_subscribe result client in
      (client', record s { store = store' }, response)

  -- `handleUnsubscribe` and `handlePUnsubscribe`
  unfoldable pub handle_unsubscribe :
      Topic → Client → List Text → Server S → Client × Server S × Text
  handle_unsubscribe topic client names s =
      let (store', result) = processor.execute_unsubscribe topic client.id names s.store in
      let (client', response) = after_unsubscribe result client in
      (client', record s { store = store' }, response)

-- `execute` is the run of one command by its handler, as in `handleExecCommand`.
module _ {S : Type 0} (execute : QueuedCommand → S → S × Text) where
  -- A command outside a transaction that is not a blocking one.
  unfoldable pub execute_now : QueuedCommand → Server S → Server S × Text
  execute_now q s =
      let (store', response) = execute q s.store in
      (
        record {
          manager = touch_keys (get_write_keys q.name q.args) s.manager;
          store = store';
          logged = if succeeded response then s.logged ++ q ∷ [] else s.logged;
        },
        response,
      )

  -- `blocking` is `executeBlockingCommand`, whose state is the whole server's.
  module _ (blocking : ℕ → QueuedCommand → Server S → Server S × Text) where
    -- a command that neither subscribes nor controls transactions
    unfoldable pub execute_or_queue : ℕ → QueuedCommand → Server S → Server S × Text
    execute_or_queue client q s =
        let tx = transaction_of client s.manager in
        if is_started tx.state
        then (if is_blocking_command q.name
            then (
              s,
              encode_error (codes "ERR " ++ (q.name ++ codes " is not allowed in a transaction")),
            )
            else (
              record s {
                manager =
                    set_transaction client (record tx { queue = tx.queue ++ q ∷ [] }) s.manager;
              },
              queued_response,
            ))
        else if is_blocking_command q.name
        then blocking client q s
        else execute_now q s

    -- the switch over the commands that control transactions, and what follows it
    unfoldable pub execute_transactional : ℕ → QueuedCommand → Server S → Server S × Text
    execute_transactional client q s =
        if q.name == codes "MULTI"
        then handle_multi client s
        else if q.name == codes "EXEC"
        then handle_exec execute client s
        else if q.name == codes "DISCARD"
        then handle_discard client s
        else if q.name == codes "WATCH"
        then handle_watch client q.args s
        else if q.name == codes "UNWATCH"
        then handle_unwatch client s
        else execute_or_queue client q s

    -- `q.name` is the first argument in upper case, `q.args` the others.
    unfoldable pub execute_with_transaction :
        Processor S → Client → QueuedCommand → Server S → Client × Server S × Text
    execute_with_transaction processor client q s =
        if client.in_pub_sub && not (is_pub_sub_mode_command q.name)
        then (
          client,
          s,
          encode_error (
              codes "ERR only (P)SUBSCRIBE / (P)UNSUBSCRIBE / PING / QUIT allowed in this context"),
        )
        else if q.name == codes "SUBSCRIBE"
        then handle_subscribe processor channel client q.args s
        else if q.name == codes "UNSUBSCRIBE"
        then handle_unsubscribe processor channel client q.args s
        else if q.name == codes "PSUBSCRIBE"
        then handle_subscribe processor pattern client q.args s
        else if q.name == codes "PUNSUBSCRIBE"
        then handle_unsubscribe processor pattern client q.args s
        else (let (s', response) = execute_transactional client.id q s in (client, s', response))
