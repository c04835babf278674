-- ===== src/Storage/PubSub/Index.antt =====
-- internal/storage/pubsub.go: who subscribes to what, seen from both maps.
use go_redis.Prelude.{
  ℕ, ◌≡◌, inl, inr, refl, ap, ◌∙◌, List, [], ◌∷◌, Option, none, some, Bool, not, ◌||◌, ◌&&◌,
  if◌then◌else◌, arith, Bool-cases,
}
use go_redis.Prelude.Eq.{Text, text_eq, ◌==◌, text_beq_iff}
use go_redis.Prelude.Maps.{
  Map, lookup, insert, remove, member, elem, elem-keys, lookup-insert, lookup-remove, member-insert,
  member-remove, member-nil,
}
use go_redis.Prelude.Maps
use go_redis.Storage.PubSub.Topics.{
  Topics, Joined, or_empty_map, subscribers_of, topics_of, add_subscriber, add_topic, make_topics,
  put_subscribers, drop_found, drop_subscriber, drop_topic_found, drop_topic, drop_subscriptions,
}

-- The topic has the subscriber, and the subscriber has the topic.
unfoldable pub has : Topics → Text → Text → Bool
has ts topic id = member id (subscribers_of topic ts)

unfoldable pub joins : Joined → Text → Text → Bool
joins js id topic = member topic (topics_of id js)

member-insert_at {ℓ} :
    {A : Type ℓ} (a : A) (k j topic t : Text) (ms : Map Text (Map Text A))
    → member j
        (or_empty_map (lookup t (insert topic (insert k a (or_empty_map (lookup topic ms))) ms)))
      ≡ ((topic == t && k == j) || member j (or_empty_map (lookup t ms)))
member-insert_at a k j topic t ms = elim (Bool-cases (topic == t)) [
  | inl y ↦
      let e = (text_beq_iff topic t).0 y in
      let l : lookup t (insert topic (insert k a (or_empty_map (lookup topic ms))) ms)
          ≡ some (insert k a (or_empty_map (lookup topic ms))) =
        lookup-insert topic t (insert k a (or_empty_map (lookup topic ms))) ms ∙ (rw y refl) in
      rw (l, y)
        (member-insert k j a (or_empty_map (lookup topic ms))
          ∙ ap (λ z. k == j || member j (or_empty_map (lookup z ms))) e)
  | inr n ↦
      let l : lookup t (insert topic (insert k a (or_empty_map (lookup topic ms))) ms)
          ≡ lookup t ms =
        lookup-insert topic t (insert k a (or_empty_map (lookup topic ms))) ms ∙ (rw n refl) in
      rw (l, n) refl
]

pub has-add_subscriber :
    (id : Text) (sub : ℕ) (topic t i : Text) (ts : Topics)
    → has (add_subscriber id sub topic ts) t i ≡ ((topic == t && id == i) || has ts t i)
unfolding has add_subscriber
has-add_subscriber id sub topic t i ts = member-insert_at sub id i topic t ts

pub joins-add_topic :
    (id topic t i : Text) (js : Joined)
    → joins (add_topic id topic js) i t ≡ ((id == i && topic == t) || joins js i t)
unfolding joins add_topic
joins-add_topic id topic t i js = member-insert_at tt topic t id i js

pub joins-make_topics : (id t i : Text) (js : Joined) → joins (make_topics id js) i t ≡ joins js i t
unfolding joins make_topics
joins-make_topics id t i js = elim (Bool-cases (id == i)) [
  | inl y ↦
      let e = (text_beq_iff id i).0 y in
      let l : lookup i (insert id (topics_of id js) js) ≡ some (topics_of id js) =
        lookup-insert id i (topics_of id js) js ∙ (rw y refl) in
      rw l (ap (λ z. member t (topics_of z js)) e)
  | inr n ↦
      let l : lookup i (insert id (topics_of id js) js) ≡ lookup i js =
        lookup-insert id i (topics_of id js) js ∙ (rw n refl) in
      rw l refl
]

subscribers-put :
    (topic t : Text) (subs : Map Text ℕ) (ts : Topics)
    → subscribers_of t (put_subscribers topic subs ts)
      ≡ (if topic == t then subs else subscribers_of t ts)
unfolding put_subscribers
subscribers-put topic t [] ts =
    ap or_empty_map (lookup-remove topic t ts)
    ∙ elim (Bool-cases (topic == t)) [ inl y ↦ rw y refl | inr n ↦ rw n refl ]
subscribers-put topic t (s ∷ subs) ts =
    ap or_empty_map (lookup-insert topic t (s ∷ subs) ts)
    ∙ elim (Bool-cases (topic == t)) [ inl y ↦ rw y refl | inr n ↦ rw n refl ]

has-drop_found :
    (id topic t i : Text) (ts : Topics) (o : Option (Map Text ℕ))
    → lookup topic ts ≡ o
    → has (drop_found id topic ts o) t i ≡ (not (topic == t && id == i) && has ts t i)
unfolding has drop_found
has-drop_found id topic t i ts none e = elim (Bool-cases (topic == t)) [
  | inl y ↦
      let z : lookup t ts ≡ none = rw ((text_beq_iff topic t).0 y) at e in
      rw z (ground (arith, member-nil ℕ i))
  | inr n ↦ rw n refl
]
has-drop_found id topic t i ts (some subs) e = elim (Bool-cases (topic == t)) [
  | inl y ↦
      let z : lookup t ts ≡ some subs = rw ((text_beq_iff topic t).0 y) at e in
      let l : subscribers_of t (put_subscribers topic (remove id subs) ts) ≡ remove id subs =
        subscribers-put topic t (remove id subs) ts ∙ (rw y refl) in
      rw (l, z, y) (ground (arith, member-remove id i subs))
  | inr n ↦
      let l : subscribers_of t (put_subscribers topic (remove id subs) ts) ≡ subscribers_of t ts =
        subscribers-put topic t (remove id subs) ts ∙ (rw n refl) in
      rw (l, n) refl
]

pub has-drop_subscriber :
    (id topic t i : Text) (ts : Topics)
    → has (drop_subscriber id topic ts) t i ≡ (not (topic == t && id == i) && has ts t i)
unfolding drop_subscriber
has-drop_subscriber id topic t i ts = has-drop_found id topic t i ts (lookup topic ts) refl

joins-drop_topic_found :
    (id topic t i : Text) (js : Joined) (o : Option (Map Text (Unit {0})))
    → lookup id js ≡ o
    → joins (drop_topic_found id topic js o) i t ≡ (not (id == i && topic == t) && joins js i t)
unfolding joins drop_topic_found
joins-drop_topic_found id topic t i js none e = elim (Bool-cases (id == i)) [
  | inl y ↦
      let z : lookup i js ≡ none = rw ((text_beq_iff id i).0 y) at e in
      rw z (ground (arith, member-nil (Unit {0}) t))
  | inr n ↦ rw n refl
]
joins-drop_topic_found id topic t i js (some m) e = elim (Bool-cases (id == i)) [
  | inl y ↦
      let z : lookup i js ≡ some m = rw ((text_beq_iff id i).0 y) at e in
      let l : lookup i (insert id (remove topic m) js) ≡ some (remove topic m) =
        lookup-insert id i (remove topic m) js ∙ (rw y refl) in
      rw (l, z, y) (ground (arith, member-remove topic t m))
  | inr n ↦
      let l : lookup i (insert id (remove topic m) js) ≡ lookup i js =
        lookup-insert id i (remove topic m) js ∙ (rw n refl) in
      rw (l, n) refl
]

pub joins-drop_topic :
    (id topic t i : Text) (js : Joined)
    → joins (drop_topic id topic js) i t ≡ (not (id == i && topic == t) && joins js i t)
unfolding drop_topic
joins-drop_topic id topic t i js = joins-drop_topic_found id topic t i js (lookup id js) refl

pub has-drop_subscriptions :
    (id t i : Text) (rest : List Text) (ts : Topics)
    → has (drop_subscriptions id rest ts) t i ≡ (not (elem t rest && id == i) && has ts t i)
unfolding drop_subscriptions elem
has-drop_subscriptions id t i [] ts = refl
has-drop_subscriptions id t i (topic ∷ rest) ts = ground (
  arith,
  has-drop_subscriptions id t i rest (drop_subscriber id topic ts),
  has-drop_subscriber id topic t i ts,
)

pub joins-remove :
    (id t i : Text) (js : Joined) → joins (remove id js) i t ≡ (not (id == i) && joins js i t)
unfolding joins
joins-remove id t i js =
    ap (λ o. member t (or_empty_map o)) (lookup-remove id i js) ∙ elim (Bool-cases (id == i)) [
      | inl y ↦ rw y (ground (arith, member-nil (Unit {0}) t))
      | inr n ↦ rw n refl
    ]

pub elem-topics : (id t : Text) (js : Joined) → elem t (Maps.keys (topics_of id js)) ≡ joins js id t
unfolding joins
elem-topics id t js = elem-keys t (topics_of id js)
