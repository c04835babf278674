-- ===== src/Storage/PubSub/Runs.antt =====
-- internal/storage/pubsub.go: calls of the methods in any order.
use go_redis.Prelude.{ℕ, ◌≡◌, refl, List, [], ◌∷◌, Option, Bool, false, not, ◌&&◌}
use go_redis.Prelude.Eq.{Text, text_eq, ◌==◌}
use go_redis.Prelude.Maps.{member, lookup}
use go_redis.Storage.PubSub.State.{
  PubSub, new_pub_sub, subscribe, unsubscribe, p_subscribe, p_unsubscribe, remove_subscriber,
}
use go_redis.Storage.PubSub.Index.{has, joins}
use go_redis.Storage.PubSub.Sessions.{enters}
use go_redis.Storage.PubSub.Calls.{
  Subscriptions, Shows, leaves_or_all, subscribe-Shows, unsubscribe-Shows, p_subscribe-Shows,
  p_unsubscribe-Shows, remove_subscriber-Shows,
}

pub data PubSubCall : Type 0 where
  subscribe_call p_subscribe_call : Text → ℕ → List Text → PubSubCall
  unsubscribe_call p_unsubscribe_call : Text → List Text → PubSubCall
  remove_call : Text → PubSubCall

unfoldable pub call_pub_sub : (Text → Option (Text → Bool)) → PubSubCall → PubSub → PubSub
call_pub_sub compile (subscribe_call id sub cs) ps = (subscribe id sub cs ps).0
call_pub_sub compile (p_subscribe_call id sub cs) ps = (p_subscribe compile id sub cs ps).0
call_pub_sub compile (unsubscribe_call id cs) ps = (unsubscribe id cs ps).0
call_pub_sub compile (p_unsubscribe_call id cs) ps = (p_unsubscribe id cs ps).0
call_pub_sub compile (remove_call id) ps = remove_subscriber id ps

unfoldable pub call_each : (Text → Option (Text → Bool)) → List PubSubCall → PubSub → PubSub
call_each compile [] ps = ps
call_each compile (c ∷ cs) ps = call_each compile cs (call_pub_sub compile c ps)

-- the same on the subscriptions
unfoldable pub effect : PubSubCall → Subscriptions → Subscriptions
effect (subscribe_call id sub cs) s = record s {
  to_channel = λ i t. enters id cs i t (s.to_channel i t);
}
effect (p_subscribe_call id sub cs) s = record s {
  to_pattern = λ i t. enters id cs i t (s.to_pattern i t);
}
effect (unsubscribe_call id cs) s = record s {
  to_channel = λ i t. leaves_or_all id cs i t (s.to_channel i t);
}
effect (p_unsubscribe_call id cs) s = record s {
  to_pattern = λ i t. leaves_or_all id cs i t (s.to_pattern i t);
}
effect (remove_call id) s = record {
  to_channel = λ i t. not (id == i) && s.to_channel i t;
  to_pattern = λ i t. not (id == i) && s.to_pattern i t;
}

unfoldable pub effect_each : List PubSubCall → Subscriptions → Subscriptions
effect_each [] s = s
effect_each (c ∷ cs) s = effect_each cs (effect c s)

abbrev pub no_subscriptions : Subscriptions
no_subscriptions = record { to_channel = λ i t. false; to_pattern = λ i t. false }

call-Shows :
    (compile : Text → Option (Text → Bool)) (c : PubSubCall) (ps : PubSub) (s : Subscriptions)
    → Shows ps s
    → Shows (call_pub_sub compile c ps) (effect c s)
unfolding call_pub_sub effect
call-Shows compile (subscribe_call id sub cs) ps s h = subscribe-Shows id sub cs ps s h
call-Shows compile (p_subscribe_call id sub cs) ps s h = p_subscribe-Shows compile id sub cs ps s h
call-Shows compile (unsubscribe_call id cs) ps s h = unsubscribe-Shows id cs ps s h
call-Shows compile (p_unsubscribe_call id cs) ps s h = p_unsubscribe-Shows id cs ps s h
call-Shows compile (remove_call id) ps s h = remove_subscriber-Shows id ps s h

call_each-Shows :
    (compile : Text → Option (Text → Bool)) (cs : List PubSubCall) (ps : PubSub) (s : Subscriptions)
    → Shows ps s
    → Shows (call_each compile cs ps) (effect_each cs s)
unfolding call_each effect_each
call_each-Shows compile [] ps s h = h
call_each-Shows compile (c ∷ cs) ps s h =
    call_each-Shows compile cs (call_pub_sub compile c ps) (effect c s)
      (call-Shows compile c ps s h)

nobody : (i t : Text) → has [] t i ≡ false
unfolding has member lookup
nobody i t = refl

nowhere : (i t : Text) → joins [] i t ≡ false
unfolding joins member lookup
nowhere i t = refl

new_pub_sub-Shows : Shows new_pub_sub no_subscriptions
unfolding has joins
new_pub_sub-Shows = record {
  channels = λ i t. nobody i t;
  channels_back = λ i t. nowhere i t;
  patterns = λ i t. nobody i t;
  patterns_back = λ i t. nowhere i t;
}

-- After any calls of the methods that subscribe and unsubscribe, the map from topics to subscribers and
-- the one from subscribers to topics say the same, and what they say is what the calls mean: who has
-- subscribed to which channel and which pattern, and not left since.
pub call_each-effect_each :
    (compile : Text → Option (Text → Bool)) (cs : List PubSubCall)
    → Shows (call_each compile cs new_pub_sub) (effect_each cs no_subscriptions)
call_each-effect_each compile cs =
    call_each-Shows compile cs new_pub_sub no_subscriptions new_pub_sub-Shows
