-- ===== src/Storage/PubSub/Sessions.antt =====
-- internal/storage/pubsub.go: what the loops over channels and patterns change.
use go_redis.Prelude.{
  ℕ, ◌≡◌, inl, inr, refl, ◌∙◌, List, [], ◌∷◌, Option, Bool, true, false, not, ◌||◌, ◌&&◌,
  if◌then◌else◌, arith, Bool-cases,
}
use go_redis.Prelude.Eq.{Text, text_eq, ◌==◌}
use go_redis.Prelude.Maps.{elem, member}
use go_redis.Storage.PubSub.State.{
  PubSub, subscribe_each, unsubscribe_each, prepare, p_subscribe_each, forget, p_unsubscribe_each,
}
use go_redis.Storage.PubSub.Topics.{add_subscriber, add_topic, drop_subscriber, drop_topic}
use go_redis.Storage.PubSub.Index.{
  has, joins, has-add_subscriber, joins-add_topic, has-drop_subscriber, joins-drop_topic,
}

-- what a change of subscriptions does: the subscriber, the topic, and whether it was subscribed
abbrev pub Change : Type 0
Change = Text → Text → Bool → Bool

abbrev pub enters : Text → List Text → Change
enters id topics i t b = (id == i && elem t topics) || b

abbrev pub leaves : Text → List Text → Change
leaves id topics i t b = not (id == i && elem t topics) && b

-- Both maps of one kind change in the same way, the maps of the other kind stay.
abbrev pub Channels : PubSub → PubSub → Change → Type 0
Channels ps ps' f =
    ((i t : Text) → has ps'.channels t i ≡ f i t (has ps.channels t i))
    × ((i t : Text) → joins ps'.subscriber_channels i t ≡ f i t (joins ps.subscriber_channels i t))
    × (ps'.patterns ≡ ps.patterns)
    × (ps'.subscriber_patterns ≡ ps.subscriber_patterns)

abbrev pub Patterns : PubSub → PubSub → Change → Type 0
Patterns ps ps' f =
    ((i t : Text) → has ps'.patterns t i ≡ f i t (has ps.patterns t i))
    × ((i t : Text) → joins ps'.subscriber_patterns i t ≡ f i t (joins ps.subscriber_patterns i t))
    × (ps'.channels ≡ ps.channels)
    × (ps'.subscriber_channels ≡ ps.subscriber_channels)

pub subscribe_each-Channels :
    (cs : List Text) (id : Text) (sub : ℕ) (ps : PubSub)
    → Channels ps (subscribe_each id sub cs ps) (enters id cs)
unfolding subscribe_each elem
subscribe_each-Channels [] id sub ps = (λ i t. ground arith, λ i t. ground arith, refl, refl)
subscribe_each-Channels (c ∷ cs) id sub ps =
    let ps1 = record ps {
      channels = add_subscriber id sub c ps.channels;
      subscriber_channels = add_topic id c ps.subscriber_channels;
    } in
    let (h, j, p, q) = subscribe_each-Channels cs id sub ps1 in
    (
      λ i t. ground (arith, h i t, has-add_subscriber id sub c t i ps.channels),
      λ i t. ground (arith, j i t, joins-add_topic id c t i ps.subscriber_channels),
      p,
      q,
    )

pub unsubscribe_each-Channels :
    (cs : List Text) (id : Text) (ps : PubSub)
    → Channels ps (unsubscribe_each id cs ps) (leaves id cs)
unfolding unsubscribe_each elem
unsubscribe_each-Channels [] id ps = (λ i t. ground arith, λ i t. ground arith, refl, refl)
unsubscribe_each-Channels (c ∷ cs) id ps =
    let ps1 = record ps {
      channels = drop_subscriber id c ps.channels;
      subscriber_channels = drop_topic id c ps.subscriber_channels;
    } in
    let (h, j, p, q) = unsubscribe_each-Channels cs id ps1 in
    (
      λ i t. ground (arith, h i t, has-drop_subscriber id c t i ps.channels),
      λ i t. ground (arith, j i t, joins-drop_topic id c t i ps.subscriber_channels),
      p,
      q,
    )

-- The trie and the compiled patterns have no part in the subscriptions to channels.
prepare-rest :
    (compile : Text → Option (Text → Bool)) (p : Text) (ps : PubSub)
    → ((prepare compile p ps).channels ≡ ps.channels)
      × ((prepare compile p ps).subscriber_channels ≡ ps.subscriber_channels)
unfolding prepare
prepare-rest compile p ps = elim (Bool-cases (member p ps.patterns)) [
  | inl y ↦ rw y (refl, refl)
  | inr y ↦ rw y (refl, refl)
]

forget-rest :
    (gone : Bool) (p : Text) (ps : PubSub)
    → ((forget gone p ps).channels ≡ ps.channels)
      × ((forget gone p ps).subscriber_channels ≡ ps.subscriber_channels)
unfolding forget
forget-rest true p ps = (refl, refl)
forget-rest false p ps = (refl, refl)

pub p_subscribe_each-Patterns :
    (compile : Text → Option (Text → Bool)) (rest : List Text) (id : Text) (sub : ℕ) (ps : PubSub)
    → Patterns ps (p_subscribe_each compile id sub rest ps) (enters id rest)
unfolding p_subscribe_each elem
p_subscribe_each-Patterns compile [] id sub ps =
    (λ i t. ground arith, λ i t. ground arith, refl, refl)
p_subscribe_each-Patterns compile (c ∷ cs) id sub ps =
    let ps1 = record (prepare compile c ps) {
      patterns = add_subscriber id sub c ps.patterns;
      subscriber_patterns = add_topic id c ps.subscriber_patterns;
    } in
    let (h, j, p, q) = p_subscribe_each-Patterns compile cs id sub ps1 in
    let r = prepare-rest compile c ps in
    (
      λ i t. ground (arith, h i t, has-add_subscriber id sub c t i ps.patterns),
      λ i t. ground (arith, j i t, joins-add_topic id c t i ps.subscriber_patterns),
      p ∙ r.0,
      q ∙ r.1,
    )

pub p_unsubscribe_each-Patterns :
    (rest : List Text) (id : Text) (ps : PubSub)
    → Patterns ps (p_unsubscribe_each id rest ps) (leaves id rest)
unfolding p_unsubscribe_each elem
p_unsubscribe_each-Patterns [] id ps = (λ i t. ground arith, λ i t. ground arith, refl, refl)
p_unsubscribe_each-Patterns (c ∷ cs) id ps =
    let gone =
      if member c ps.patterns then not (member c (drop_subscriber id c ps.patterns)) else false in
    let ps1 = record (forget gone c ps) {
      patterns = drop_subscriber id c ps.patterns;
      subscriber_patterns = drop_topic id c ps.subscriber_patterns;
    } in
    let (h, j, p, q) = p_unsubscribe_each-Patterns cs id ps1 in
    let r = forget-rest gone c ps in
    (
      λ i t. ground (arith, h i t, has-drop_subscriber id c t i ps.patterns),
      λ i t. ground (arith, j i t, joins-drop_topic id c t i ps.subscriber_patterns),
      p ∙ r.0,
      q ∙ r.1,
    )
