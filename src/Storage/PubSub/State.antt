-- ===== src/Storage/PubSub/State.antt =====
-- internal/storage/pubsub.go: `PubSub` and its methods. `compile` stands for compilePattern, which calls
-- regexp: the test on channel names that it makes of a pattern, or nil. `room` says how many messages
-- the Go channel of a subscriber holds; a message that finds no room is dropped.
use go_redis.Prelude.{
  ℕ, ◌+◌, List, [], ◌∷◌, ◌++◌, Option, none, some, Bool, true, false, not, ltb, if◌then◌else◌,
  length,
}
use go_redis.Prelude.Eq.{Text, text_eq, nat_eq, ◌==◌}
use go_redis.Prelude.Maps.{Map, lookup, insert, remove, member}
use go_redis.Prelude.Maps
use go_redis.Storage.PubSub.Trie.{
  Trie, new_trie, insert_pattern, remove_pattern, get_matching_patterns,
}
use go_redis.Storage.PubSub.Topics.{
  Topics, Joined, subscribers_of, topics_of, add_subscriber, add_topic, make_topics,
  drop_subscriber, drop_topic, or_all, drop_subscriptions,
}

-- the message of a publish; `pattern` is empty for a subscription to the channel itself
pub record Message : Type 0 where
  pub channel : Text
  pub pattern : Text
  pub payload : Text

pub record PubSub : Type 0 where
  pub channels : Topics
  pub patterns : Topics
  pub subscriber_channels : Joined
  pub subscriber_patterns : Joined
  pub subscribers : Map Text ℕ
  pub pattern_trie : Trie
  pub compiled_patterns : Map Text (Option (Text → Bool))

abbrev pub new_pub_sub : PubSub
new_pub_sub = record {
  channels = [];
  patterns = [];
  subscriber_channels = [];
  subscriber_patterns = [];
  subscribers = [];
  pattern_trie = new_trie;
  compiled_patterns = [];
}

abbrev or_new : ℕ → Option ℕ → ℕ
or_new sub none = sub
or_new sub (some old) = old

-- An ID keeps the subscriber that it had first.
unfoldable pub known : Text → ℕ → PubSub → ℕ
known id sub ps = or_new sub (lookup id ps.subscribers)

unfoldable pub register : Text → ℕ → PubSub → PubSub
register id sub ps = record ps { subscribers = insert id (known id sub ps) ps.subscribers }

unfoldable pub subscribe_each : Text → ℕ → List Text → PubSub → PubSub
subscribe_each id sub [] ps = ps
subscribe_each id sub (c ∷ cs) ps = subscribe_each id sub cs (record ps {
  channels = add_subscriber id sub c ps.channels;
  subscriber_channels = add_topic id c ps.subscriber_channels;
})

unfoldable pub subscribe : Text → ℕ → List Text → PubSub → PubSub × List Text
subscribe id sub cs ps =
    let ps1 = register id sub ps in
    let ps2 = record ps1 { subscriber_channels = make_topics id ps1.subscriber_channels } in
    (subscribe_each id (known id sub ps) cs ps2, cs)

unfoldable pub unsubscribe_each : Text → List Text → PubSub → PubSub
unsubscribe_each id [] ps = ps
unsubscribe_each id (c ∷ cs) ps = unsubscribe_each id cs (record ps {
  channels = drop_subscriber id c ps.channels;
  subscriber_channels = drop_topic id c ps.subscriber_channels;
})

unfoldable pub unsubscribe : Text → List Text → PubSub → PubSub × List Text
unsubscribe id cs ps =
    let all = or_all id cs ps.subscriber_channels in (unsubscribe_each id all ps, all)

-- A pattern without subscribers enters the trie and is compiled.
unfoldable pub prepare : (Text → Option (Text → Bool)) → Text → PubSub → PubSub
prepare compile p ps = if member p ps.patterns then ps else record ps {
  pattern_trie = insert_pattern p ps.pattern_trie;
  compiled_patterns = insert p (compile p) ps.compiled_patterns;
}

unfoldable pub p_subscribe_each :
    (Text → Option (Text → Bool)) → Text → ℕ → List Text → PubSub → PubSub
p_subscribe_each compile id sub [] ps = ps
p_subscribe_each compile id sub (p ∷ rest) ps =
    let ps1 = prepare compile p ps in
    p_subscribe_each compile id sub rest (record ps1 {
      patterns = add_subscriber id sub p ps.patterns;
      subscriber_patterns = add_topic id p ps.subscriber_patterns;
    })

unfoldable pub p_subscribe :
    (Text → Option (Text → Bool)) → Text → ℕ → List Text → PubSub → PubSub × List Text
p_subscribe compile id sub patterns ps =
    let ps1 = register id sub ps in
    let ps2 = record ps1 { subscriber_patterns = make_topics id ps1.subscriber_patterns } in
    (p_subscribe_each compile id (known id sub ps) patterns ps2, patterns)

-- A pattern whose last subscriber has gone leaves the trie.
unfoldable pub forget : Bool → Text → PubSub → PubSub
forget false p ps = ps
forget true p ps = record ps {
  pattern_trie = remove_pattern p ps.pattern_trie;
  compiled_patterns = remove p ps.compiled_patterns;
}

unfoldable pub p_unsubscribe_each : Text → List Text → PubSub → PubSub
p_unsubscribe_each id [] ps = ps
p_unsubscribe_each id (p ∷ rest) ps =
    let left = drop_subscriber id p ps.patterns in
    let gone = if member p ps.patterns then not (member p left) else false in
    let ps1 = forget gone p ps in
    p_unsubscribe_each id rest
      (record ps1 { patterns = left; subscriber_patterns = drop_topic id p ps.subscriber_patterns })

unfoldable pub p_unsubscribe : Text → List Text → PubSub → PubSub × List Text
p_unsubscribe id patterns ps =
    let all = or_all id patterns ps.subscriber_patterns in (p_unsubscribe_each id all ps, all)

-- The trie and the compiled patterns stay as they are.
unfoldable pub remove_subscriber : Text → PubSub → PubSub
remove_subscriber id ps = record ps {
  channels = drop_subscriptions id (Maps.keys (topics_of id ps.subscriber_channels)) ps.channels;
  subscriber_channels = remove id ps.subscriber_channels;
  patterns = drop_subscriptions id (Maps.keys (topics_of id ps.subscriber_patterns)) ps.patterns;
  subscriber_patterns = remove id ps.subscriber_patterns;
  subscribers = remove id ps.subscribers;
}

-- the messages that wait in the Go channels
abbrev pub Mailboxes : Type 0
Mailboxes = ℕ → List Message

-- `select { case sub.Channels <- msg: count++ default: }` for each subscriber
unfoldable pub send_each : (ℕ → ℕ) → Message → List (Text × ℕ) → Mailboxes → Mailboxes × ℕ
send_each room msg [] boxes = (boxes, 0)
send_each room msg ((id, sub) ∷ subs) boxes =
    let fits = ltb (length (boxes sub)) (room sub) in
    let boxes1 : Mailboxes = λ b. if b == sub then boxes b ++ msg ∷ [] else boxes b in
    let (boxes2, n) = send_each room msg subs (if fits then boxes1 else boxes) in
    (boxes2, if fits then n + 1 else n)

abbrev tests : Option (Option (Text → Bool)) → Text → Bool
tests none channel = false
tests (some none) channel = false
tests (some (some test)) channel = test channel

unfoldable pub send_patterns :
    (ℕ → ℕ) → Text → Text → List Text → PubSub → Mailboxes → Mailboxes × ℕ
send_patterns room channel payload [] ps boxes = (boxes, 0)
send_patterns room channel payload (p ∷ rest) ps boxes =
    let msg : Message = record { channel = channel; pattern = p; payload = payload } in
    let subs =
      if tests (lookup p ps.compiled_patterns) channel then subscribers_of p ps.patterns else [] in
    let (boxes1, n) = send_each room msg subs boxes in
    let (boxes2, m) = send_patterns room channel payload rest ps boxes1 in (boxes2, n + m)

unfoldable pub publish : (ℕ → ℕ) → Text → Text → PubSub → Mailboxes → Mailboxes × ℕ
publish room channel payload ps boxes =
    let msg : Message = record { channel = channel; pattern = []; payload = payload } in
    let (boxes1, n) = send_each room msg (subscribers_of channel ps.channels) boxes in
    let (boxes2, m) =
      send_patterns room channel payload (get_matching_patterns channel ps.pattern_trie) ps
        boxes1 in
    (boxes2, n + m)

unfoldable pub num_sub : List Text → PubSub → Map Text ℕ
num_sub [] ps = []
num_sub (c ∷ cs) ps = insert c (length (subscribers_of c ps.channels)) (num_sub cs ps)

unfoldable pub num_pat : PubSub → ℕ
num_pat ps = length ps.patterns

unfoldable pub get_subscriber_count : Text → PubSub → ℕ
get_subscriber_count id ps =
    length (topics_of id ps.subscriber_channels) + length (topics_of id ps.subscriber_patterns)

-- The test of matchPattern compiles the pattern again.
unfoldable pub matching_channels : (Text → Option (Text → Bool)) → Text → List Text → List Text
matching_channels compile pattern [] = []
matching_channels compile pattern (c ∷ cs) =
    let rest = matching_channels compile pattern cs in
    if (if pattern == [] then true else tests (some (compile pattern)) c) then c ∷ rest else rest

unfoldable pub active_channels : (Text → Option (Text → Bool)) → Text → PubSub → List Text
active_channels compile pattern ps = matching_channels compile pattern (Maps.keys ps.channels)

unfoldable pub get_subscriber : Text → PubSub → Option ℕ
get_subscriber id ps = lookup id ps.subscribers
