-- ===== src/Storage/PubSub/Topics.antt =====
-- internal/storage/pubsub.go: the two maps that hold the subscriptions to channels, and the two for
-- patterns. A subscriber is a pointer: the address of its Go channel.
use go_redis.Prelude.{ℕ, List, [], ◌∷◌, Option, none, some}
use go_redis.Prelude.Eq.{Text, text_eq}
use go_redis.Prelude.Maps.{Map, lookup, insert, remove}
use go_redis.Prelude.Maps

-- topic to subscriber ID to subscriber, and subscriber ID to topics
abbrev pub Topics : Type 0
Topics = Map Text (Map Text ℕ)

abbrev pub Joined : Type 0
Joined = Map Text (Map Text (Unit {0}))

abbrev pub or_empty_map {ℓ} : {A : Type ℓ} → Option (Map Text A) → Map Text A
or_empty_map none = []
or_empty_map (some m) = m

abbrev pub subscribers_of : Text → Topics → Map Text ℕ
subscribers_of topic ts = or_empty_map (lookup topic ts)

abbrev pub topics_of : Text → Joined → Map Text (Unit {0})
topics_of id js = or_empty_map (lookup id js)

unfoldable pub add_subscriber : Text → ℕ → Text → Topics → Topics
add_subscriber id sub topic ts = insert topic (insert id sub (subscribers_of topic ts)) ts

unfoldable pub add_topic : Text → Text → Joined → Joined
add_topic id topic js = insert id (insert topic tt (topics_of id js)) js

-- `if ps.subscriberChannels[id] == nil { ... = make(...) }`
unfoldable pub make_topics : Text → Joined → Joined
make_topics id js = insert id (topics_of id js) js

-- An empty map of subscribers is deleted.
unfoldable pub put_subscribers : Text → Map Text ℕ → Topics → Topics
put_subscribers topic [] ts = remove topic ts
put_subscribers topic (s ∷ subs) ts = insert topic (s ∷ subs) ts

unfoldable pub drop_found : Text → Text → Topics → Option (Map Text ℕ) → Topics
drop_found id topic ts none = ts
drop_found id topic ts (some subs) = put_subscribers topic (remove id subs) ts

unfoldable pub drop_subscriber : Text → Text → Topics → Topics
drop_subscriber id topic ts = drop_found id topic ts (lookup topic ts)

unfoldable pub drop_topic_found : Text → Text → Joined → Option (Map Text (Unit {0})) → Joined
drop_topic_found id topic js none = js
drop_topic_found id topic js (some m) = insert id (remove topic m) js

unfoldable pub drop_topic : Text → Text → Joined → Joined
drop_topic id topic js = drop_topic_found id topic js (lookup id js)

-- `if len(channels) == 0`, the topics that are meant
unfoldable pub or_all : Text → List Text → Joined → List Text
or_all id [] js = Maps.keys (topics_of id js)
or_all id (t ∷ ts) js = t ∷ ts

-- the loop of `RemoveSubscriber`
unfoldable pub drop_subscriptions : Text → List Text → Topics → Topics
drop_subscriptions id [] ts = ts
drop_subscriptions id (t ∷ rest) ts = drop_subscriptions id rest (drop_subscriber id t ts)
