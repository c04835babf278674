-- ===== src/Storage/PubSub/Calls.antt =====
-- internal/storage/pubsub.go: what each method does to the subscriptions.
use go_redis.Prelude.{
  ℕ, ◌≡◌, inl, inr, refl, ap, ◌∙◌, List, [], ◌∷◌, Option, Bool, not, ◌&&◌, arith, Bool-cases,
}
use go_redis.Prelude.Eq.{Text, text_eq, ◌==◌, text_beq_iff}
use go_redis.Prelude.Maps.{Map, elem, member, lookup}
use go_redis.Prelude.Maps
use go_redis.Storage.PubSub.Topics.{Topics, Joined, topics_of, or_all}
use go_redis.Storage.PubSub.State.{
  PubSub, known, register, subscribe, unsubscribe, p_subscribe, p_unsubscribe, remove_subscriber,
}
use go_redis.Storage.PubSub.Topics.{make_topics}
use go_redis.Storage.PubSub.Index.{
  has, joins, joins-make_topics, has-drop_subscriptions, joins-remove, elem-topics,
}
use go_redis.Storage.PubSub.Topics.{drop_subscriptions}
use go_redis.Storage.PubSub.Sessions.{
  Change, enters, leaves, subscribe_each-Channels, unsubscribe_each-Channels,
  p_subscribe_each-Patterns, p_unsubscribe_each-Patterns,
}

-- what is subscribed to, by subscriber ID and topic
pub record Subscriptions : Type 0 where
  pub to_channel : Text → Text → Bool
  pub to_pattern : Text → Text → Bool

-- Both maps of each kind say the same.
pub record Shows (ps : PubSub) (s : Subscriptions) : Type 0 where
  pub channels : (i t : Text) → has ps.channels t i ≡ s.to_channel i t
  pub channels_back : (i t : Text) → joins ps.subscriber_channels i t ≡ s.to_channel i t
  pub patterns : (i t : Text) → has ps.patterns t i ≡ s.to_pattern i t
  pub patterns_back : (i t : Text) → joins ps.subscriber_patterns i t ≡ s.to_pattern i t

-- with a list of topics, or without one for all topics
abbrev pub leaves_or_all : Text → List Text → Change
leaves_or_all id [] i t b = not (id == i) && b
leaves_or_all id (c ∷ cs) i t b = leaves id (c ∷ cs) i t b

leaves-or_all :
    (id : Text) (cs : List Text) (js : Joined) (i t : Text) (b : Bool)
    → joins js i t ≡ b
    → leaves id (or_all id cs js) i t b ≡ leaves_or_all id cs i t b
unfolding or_all
leaves-or_all id (c ∷ cs) js i t b h = refl
leaves-or_all id [] js i t b h = elim (Bool-cases (id == i)) [
  | inl y ↦
      let e = (text_beq_iff id i).0 y in
      let k : joins js id t ≡ b = rw (← e) at h in ground (arith, elem-topics id t js, k, y)
  | inr y ↦ ground (arith, y)
]

pub subscribe-Shows :
    (id : Text) (sub : ℕ) (cs : List Text) (ps : PubSub) (s : Subscriptions)
    → Shows ps s
    → Shows
        (subscribe id sub cs ps).0
        (record s { to_channel = λ i t. enters id cs i t (s.to_channel i t) })
unfolding subscribe register
subscribe-Shows id sub cs ps s h =
    let ps1 = register id sub ps in
    let (a, b, c, d) =
      subscribe_each-Channels cs id (known id sub ps)
        (record ps1 { subscriber_channels = make_topics id ps1.subscriber_channels }) in
    record {
      channels = λ i t. a i t ∙ ap (enters id cs i t) (h.channels i t);
      channels_back = λ i t.
          b i t
          ∙ ap (enters id cs i t)
              (joins-make_topics id t i ps.subscriber_channels ∙ h.channels_back i t);
      patterns = λ i t. ap (λ m. has m t i) c ∙ h.patterns i t;
      patterns_back = λ i t. ap (λ m. joins m i t) d ∙ h.patterns_back i t;
    }

pub unsubscribe-Shows :
    (id : Text) (cs : List Text) (ps : PubSub) (s : Subscriptions)
    → Shows ps s
    → Shows
        (unsubscribe id cs ps).0
        (record s { to_channel = λ i t. leaves_or_all id cs i t (s.to_channel i t) })
unfolding unsubscribe
unsubscribe-Shows id cs ps s h =
    let all = or_all id cs ps.subscriber_channels in
    let (a, b, c, d) = unsubscribe_each-Channels all id ps in
    let e = λ (i t : Text).
      leaves-or_all id cs ps.subscriber_channels i t (s.to_channel i t) (h.channels_back i t) in
    record {
      channels = λ i t. a i t ∙ ap (leaves id all i t) (h.channels i t) ∙ e i t;
      channels_back = λ i t. b i t ∙ ap (leaves id all i t) (h.channels_back i t) ∙ e i t;
      patterns = λ i t. ap (λ m. has m t i) c ∙ h.patterns i t;
      patterns_back = λ i t. ap (λ m. joins m i t) d ∙ h.patterns_back i t;
    }

pub p_subscribe-Shows :
    (compile : Text → Option (Text → Bool)) (id : Text) (sub : ℕ) (cs : List Text) (ps : PubSub)
    (s : Subscriptions)
    → Shows ps s
    → Shows
        (p_subscribe compile id sub cs ps).0
        (record s { to_pattern = λ i t. enters id cs i t (s.to_pattern i t) })
unfolding p_subscribe register
p_subscribe-Shows compile id sub cs ps s h =
    let ps1 = register id sub ps in
    let (a, b, c, d) =
      p_subscribe_each-Patterns compile cs id (known id sub ps)
        (record ps1 { subscriber_patterns = make_topics id ps1.subscriber_patterns }) in
    record {
      patterns = λ i t. a i t ∙ ap (enters id cs i t) (h.patterns i t);
      patterns_back = λ i t.
          b i t
          ∙ ap (enters id cs i t)
              (joins-make_topics id t i ps.subscriber_patterns ∙ h.patterns_back i t);
      channels = λ i t. ap (λ m. has m t i) c ∙ h.channels i t;
      channels_back = λ i t. ap (λ m. joins m i t) d ∙ h.channels_back i t;
    }

pub p_unsubscribe-Shows :
    (id : Text) (cs : List Text) (ps : PubSub) (s : Subscriptions)
    → Shows ps s
    → Shows
        (p_unsubscribe id cs ps).0
        (record s { to_pattern = λ i t. leaves_or_all id cs i t (s.to_pattern i t) })
unfolding p_unsubscribe
p_unsubscribe-Shows id cs ps s h =
    let all = or_all id cs ps.subscriber_patterns in
    let (a, b, c, d) = p_unsubscribe_each-Patterns all id ps in
    let e = λ (i t : Text).
      leaves-or_all id cs ps.subscriber_patterns i t (s.to_pattern i t) (h.patterns_back i t) in
    record {
      patterns = λ i t. a i t ∙ ap (leaves id all i t) (h.patterns i t) ∙ e i t;
      patterns_back = λ i t. b i t ∙ ap (leaves id all i t) (h.patterns_back i t) ∙ e i t;
      channels = λ i t. ap (λ m. has m t i) c ∙ h.channels i t;
      channels_back = λ i t. ap (λ m. joins m i t) d ∙ h.channels_back i t;
    }

-- Of all topics, those of the subscriber are left.
drop_all :
    (id t i : Text) (js : Joined) (ts : Topics) (b : Bool)
    → has ts t i ≡ b
    → joins js i t ≡ b
    → has (drop_subscriptions id (Maps.keys (topics_of id js)) ts) t i ≡ (not (id == i) && b)
drop_all id t i js ts b h k = elim (Bool-cases (id == i)) [
  | inl y ↦
      let e = (text_beq_iff id i).0 y in
      let l : joins js id t ≡ b = rw (← e) at k in
      ground (
        arith,
        has-drop_subscriptions id t i (Maps.keys (topics_of id js)) ts,
        elem-topics id t js,
        l,
        y,
        h,
      )
  | inr y ↦ ground (arith, has-drop_subscriptions id t i (Maps.keys (topics_of id js)) ts, y, h)
]

pub remove_subscriber-Shows :
    (id : Text) (ps : PubSub) (s : Subscriptions)
    → Shows ps s
    → Shows (remove_subscriber id ps) (record {
      to_channel = λ i t. not (id == i) && s.to_channel i t;
      to_pattern = λ i t. not (id == i) && s.to_pattern i t;
    })
unfolding remove_subscriber
remove_subscriber-Shows id ps s h = record {
  channels = λ i t.
      drop_all id t i ps.subscriber_channels ps.channels (s.to_channel i t) (h.channels i t)
        (h.channels_back i t);
  channels_back = λ i t.
      joins-remove id t i ps.subscriber_channels
      ∙ ap (λ b. not (id == i) && b) (h.channels_back i t);
  patterns = λ i t.
      drop_all id t i ps.subscriber_patterns ps.patterns (s.to_pattern i t) (h.patterns i t)
        (h.patterns_back i t);
  patterns_back = λ i t.
      joins-remove id t i ps.subscriber_patterns
      ∙ ap (λ b. not (id == i) && b) (h.patterns_back i t);
}
