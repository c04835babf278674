-- ===== src/Storage/PubSub/Tests.antt =====
-- Runs of the operations of pub/sub.
use go_redis.Prelude.{◌≡◌, refl, List, [], ◌∷◌, Option, some, Bool, true, if◌then◌else◌}
use go_redis.Prelude.Eq.{Text, text_eq, nat_eq, text_beq}
use go_redis.Prelude.Maps.{lookup, insert, remove, member, elem}
use go_redis.Storage.PubSub.Trie.{
  new_trie, literal_prefix, grow, insert_pattern, reaches, remove_first, remove_pattern, collect,
  get_matching_patterns,
}
use go_redis.Storage.PubSub.Candidates.{count, starts_with}
use go_redis.Storage.PubSub.Lookup.{
  PatternCall, add_pattern, drop_pattern, call_patterns, listed, get_matching_patterns-listed,
}
use go_redis.Storage.PubSub.Topics.{
  add_subscriber, add_topic, make_topics, put_subscribers, drop_found, drop_subscriber,
  drop_topic_found, drop_topic, or_all, drop_subscriptions,
}
use go_redis.Storage.PubSub.State.{
  new_pub_sub, known, register, subscribe_each, subscribe, unsubscribe_each, unsubscribe, prepare,
  p_subscribe_each, p_subscribe, forget, p_unsubscribe_each, p_unsubscribe, remove_subscriber,
  publish, send_each, send_patterns,
}
use go_redis.Storage.PubSub.Calls.{Shows}
use go_redis.Storage.PubSub.Runs.{
  PubSubCall, subscribe_call, p_subscribe_call, unsubscribe_call, p_unsubscribe_call, remove_call,
  call_each, call_pub_sub, effect_each, no_subscriptions, call_each-effect_each,
}

abbrev ann : Text
ann = b'a' ∷ b'n' ∷ b'n' ∷ []

abbrev bob : Text
bob = b'b' ∷ b'o' ∷ b'b' ∷ []

abbrev news : Text
news = b'n' ∷ b'e' ∷ b'w' ∷ b's' ∷ []

abbrev near_all : Text
near_all = b'n' ∷ b'e' ∷ b'*' ∷ []

abbrev star : Text
star = b'*' ∷ []

abbrev pattern_calls : List PatternCall
pattern_calls =
    add_pattern near_all ∷ add_pattern star ∷ add_pattern near_all ∷ drop_pattern near_all ∷ []

get_matching_patterns-listed_example :
    count near_all (get_matching_patterns news (call_patterns pattern_calls new_trie)) ≡ (
      if starts_with (literal_prefix near_all) news
      then count near_all (listed pattern_calls [])
      else 0)
get_matching_patterns-listed_example = get_matching_patterns-listed pattern_calls near_all news

-- A test for the patterns that occur here: every channel matches.
abbrev compile_all : Text → Option (Text → Bool)
compile_all p = some (λ channel. true)

abbrev session_calls : List PubSubCall
session_calls =
    subscribe_call ann 0 (news ∷ star ∷ [])
    ∷ p_subscribe_call bob 1 (near_all ∷ [])
    ∷ unsubscribe_call ann (star ∷ [])
    ∷ p_unsubscribe_call bob []
    ∷ remove_call ann
    ∷ subscribe_call bob 1 (news ∷ [])
    ∷ []

call_each-effect_each_example :
    Shows
      (call_each compile_all session_calls new_pub_sub)
      (effect_each session_calls no_subscriptions)
call_each-effect_each_example = call_each-effect_each compile_all session_calls

pub_sub_program : Unit {0}
unfolding lookup insert remove member elem text_beq literal_prefix grow insert_pattern reaches
    remove_first remove_pattern collect get_matching_patterns add_subscriber add_topic make_topics
    put_subscribers drop_found drop_subscriber drop_topic_found drop_topic or_all drop_subscriptions
    known register subscribe_each subscribe unsubscribe_each unsubscribe prepare p_subscribe_each
    p_subscribe forget p_unsubscribe_each p_unsubscribe remove_subscriber publish send_each
    send_patterns call_pub_sub call_each
pub_sub_program = tt

-- A subscriber that is removed leaves its pattern in the trie: subscribed to again, the pattern is
-- there twice, and a message is sent twice.
sent_twice :
    (publish
      (λ sub. 10)
      news
      ann
      (call_each compile_all
        (p_subscribe_call ann 0 (near_all ∷ [])
          ∷ remove_call ann
          ∷ p_subscribe_call ann 0 (near_all ∷ [])
          ∷ [])
        new_pub_sub)
      (λ sub. [])).1
    ≡ 2
unfolding pub_sub_program
sent_twice = refl
