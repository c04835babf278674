-- ===== src/Storage/Lists/Commands.antt =====
-- internal/storage/list_ops.go: commands on the list of a key, in any order.
use mathlib.Core.Option
use go_redis.Prelude.{
  ℕ, ◌-◌, ◌≡◌, refl, List, [], ◌∷◌, ◌++◌, Option, none, some, Bool, length, take, drop, reverse,
}
use go_redis.Prelude.Eq.{Text}
use go_redis.Prelude.Int.{ℤ, pos}
use go_redis.Storage.Linked.Positions.{position}
use go_redis.Storage.Linked.Sequence.{elem_at, set_elem_at, slice}
use go_redis.Storage.Linked.Search.{insert_beside, insert_or_same}
use go_redis.Storage.Linked.Backwards.{removed}
use go_redis.Storage.Store.{Result, ok, err, Error, Store}
use go_redis.Storage.Lists.{l_push, r_push, l_pop, r_pop, l_len, l_range, l_index}
use go_redis.Storage.Lists.Edits.{l_set, l_rem, l_trim, l_insert}
use go_redis.Storage.Lists.Holding.{HasList, Gives}
use go_redis.Storage.Lists.Ends.{l_push-Gives, r_push-Gives}
use go_redis.Storage.Lists.Pops.{wanted, l_pop-Gives, r_pop-Gives}
use go_redis.Storage.Lists.Changes.{
  l_len-Gives, l_range-Gives, l_index-Gives, l_rem-Gives, l_trim-Gives,
}
use go_redis.Storage.Lists.Errors.{set_reply, insert_reply, l_set-Gives, l_insert-Gives}

pub data ListCommand : Type 0 where
  lpush rpush : List Text → ListCommand
  lpop rpop lindex : ℤ → ListCommand
  llen : ListCommand
  lrange ltrim : ℤ → ℤ → ListCommand
  lset lrem : ℤ → Text → ListCommand
  linsert : Bool → Text → Text → ListCommand

pub data Reply : Type 0 where
  int_reply : ℤ → Reply
  texts_reply : List Text → Reply
  text_reply : Option Text → Reply
  ok_reply : Reply
  error_reply : Error → Reply

abbrev reply_of {ℓ} : {A : Type ℓ} → (A → Reply) → Result A → Reply
reply_of f (ok a) = f a
reply_of f (err e) = error_reply e

abbrev pub replied {ℓ} :
    {A : Type ℓ} → (A → Reply) → Option (Store × Result A) → Option (Store × Reply)
replied f o = Option.map (λ r. (r.0, reply_of f r.1)) o

unfoldable pub exec : ℕ → Text → ListCommand → Store → Option (Store × Reply)
exec now key (lpush vs) s = replied int_reply (l_push now key vs s)
exec now key (rpush vs) s = replied int_reply (r_push now key vs s)
exec now key (lpop count) s = replied texts_reply (l_pop now key count s)
exec now key (rpop count) s = replied texts_reply (r_pop now key count s)
exec now key llen s = replied int_reply (l_len now key s)
exec now key (lrange start stop) s = replied texts_reply (l_range now key start stop s)
exec now key (lindex index) s = replied text_reply (l_index now key index s)
exec now key (lset index v) s = replied (λ b. ok_reply) (l_set now key index v s)
exec now key (lrem count v) s = replied (λ n. int_reply (pos n)) (l_rem now key count v s)
exec now key (ltrim start stop) s = replied (λ b. ok_reply) (l_trim now key start stop s)
exec now key (linsert before pivot v) s = replied int_reply (l_insert now key before pivot v s)

-- the sequence that a command leaves, and its answer
unfoldable pub meaning : ListCommand → List Text → List Text × Reply
meaning (lpush vs) xs = let ys = reverse vs ++ xs in (ys, int_reply (pos (length ys)))
meaning (rpush vs) xs = let ys = xs ++ vs in (ys, int_reply (pos (length ys)))
meaning (lpop count) xs = let n = wanted count in (drop n xs, texts_reply (take n xs))
meaning (rpop count) xs =
    let n = wanted count in (reverse (drop n (reverse xs)), texts_reply (take n (reverse xs)))
meaning llen xs = (xs, int_reply (pos (length xs)))
meaning (lrange start stop) xs = (xs, texts_reply (slice start stop xs))
meaning (lindex index) xs = (xs, text_reply (elem_at (position (length xs) index) xs))
meaning (lset index v) xs =
    let r = set_elem_at (position (length xs) index) v xs in
    (r.0, reply_of (λ b. ok_reply) (set_reply xs r.1))
meaning (lrem count v) xs =
    let ys = removed count v xs in (ys, int_reply (pos (length xs - length ys)))
meaning (ltrim start stop) xs = (slice start stop xs, ok_reply)
meaning (linsert before pivot v) xs =
    let r = insert_or_same xs (insert_beside before pivot v xs) in
    (r.0, reply_of int_reply (insert_reply xs r))

-- a store where the key has the list, with a reply
abbrev pub Replies {ℓ} : {A : Type ℓ} → Text → Option (Store × A) → A → List Text → Type ℓ
Replies key o a xs = (t : Store) × (o ≡ some (t, a)) × HasList key t xs

replied-Gives {ℓ} :
    {A : Type ℓ} (key : Text) (f : A → Reply) (o : Option (Store × Result A)) (r : Result A)
    (xs : List Text)
    → Gives key o r xs
    → Replies key (replied f o) (reply_of f r) xs
replied-Gives key f o r xs (t, e, h) = rw e (t, refl, h)

pub exec-meaning :
    (now : ℕ) (key : Text) (c : ListCommand) (s : Store) (xs : List Text)
    → HasList key s xs
    → Replies key (exec now key c s) (meaning c xs).1 (meaning c xs).0
unfolding exec meaning
exec-meaning now key (lpush vs) s xs h = replied-Gives key _ _ _ _ (l_push-Gives now key vs s xs h)
exec-meaning now key (rpush vs) s xs h = replied-Gives key _ _ _ _ (r_push-Gives now key vs s xs h)
exec-meaning now key (lpop count) s xs h =
    replied-Gives key _ _ _ _ (l_pop-Gives now key count s xs h)
exec-meaning now key (rpop count) s xs h =
    replied-Gives key _ _ _ _ (r_pop-Gives now key count s xs h)
exec-meaning now key llen s xs h = replied-Gives key _ _ _ _ (l_len-Gives now key s xs h)
exec-meaning now key (lrange start stop) s xs h =
    replied-Gives key _ _ _ _ (l_range-Gives now key start stop s xs h)
exec-meaning now key (lindex index) s xs h =
    replied-Gives key _ _ _ _ (l_index-Gives now key index s xs h)
exec-meaning now key (lset index v) s xs h =
    replied-Gives key _ _ _ _ (l_set-Gives now key index v s xs h)
exec-meaning now key (lrem count v) s xs h =
    replied-Gives key (λ n. int_reply (pos n)) _ _ _ (l_rem-Gives now key count v s xs h)
exec-meaning now key (ltrim start stop) s xs h =
    replied-Gives key (λ b. ok_reply) _ _ _ (l_trim-Gives now key start stop s xs h)
exec-meaning now key (linsert before pivot v) s xs h =
    replied-Gives key _ _ _ _ (l_insert-Gives now key before pivot v s xs h)

abbrev pub followed_by :
    (Store → Option (Store × List Reply)) → Option (Store × Reply) → Option (Store × List Reply)
followed_by f none = none
followed_by f (some (s, a)) = Option.map (λ r. (r.0, a ∷ r.1)) (f s)

-- the commands on one key in their order, each with its clock
unfoldable pub exec_all : Text → List (ℕ × ListCommand) → Store → Option (Store × List Reply)
exec_all key [] s = some (s, [])
exec_all key ((now, c) ∷ cs) s = followed_by (λ t. exec_all key cs t) (exec now key c s)

unfoldable pub meaning_all : List (ℕ × ListCommand) → List Text → List Text × List Reply
meaning_all [] xs = (xs, [])
meaning_all ((now, c) ∷ cs) xs =
    let (ys, a) = meaning c xs in let (zs, rest) = meaning_all cs ys in (zs, a ∷ rest)

-- List commands on a key that is missing or holds a list that is not empty and has no time to live:
-- none of them panics or runs forever, their replies are those of the commands on a sequence, and the
-- key holds the sequence that they leave, or is gone if that is empty, at whatever times they come and
-- whether or not a snapshot makes them copy the list.
pub exec_all-meaning :
    (key : Text) (cs : List (ℕ × ListCommand)) (s : Store) (xs : List Text)
    → HasList key s xs
    → Replies key (exec_all key cs s) (meaning_all cs xs).1 (meaning_all cs xs).0
unfolding exec_all meaning_all
exec_all-meaning key [] s xs h = (s, refl, h)
exec_all-meaning key ((now, c) ∷ cs) s xs h =
    let (s1, e, h1) = exec-meaning now key c s xs h in
    let (s2, f, h2) = exec_all-meaning key cs s1 (meaning c xs).0 h1 in rw (e, f) (s2, refl, h2)
