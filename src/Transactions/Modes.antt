-- ===== src/Transactions/Modes.antt =====
-- pipeline_executor.go and pubsub_handlers.go: a client's pub/sub mode and its subscriber.
use go_redis.Prelude.{◌≡◌, Bool, true, false, Option, none, some}
use go_redis.Prelude.Eq.{text_eq}
use go_redis.Transactions.Executor.{Client}

abbrev pub is_some {ℓ} : {A : Type ℓ} → Option A → Bool
is_some none = false
is_some (some x) = true

-- A client has a subscriber exactly in pub/sub mode.
pub record IsPaired (client : Client) : Type 0 where
  pub paired : client.in_pub_sub ≡ is_some client.subscriber
