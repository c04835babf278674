-- ===== src/Storage/Lists/Changes.antt =====
-- internal/storage/list_ops.go: reads, LREM and LTRIM, and what they mean on the sequence that a key holds.
use mathlib.Core.Option
use go_redis.Prelude.{
  ℕ, ◌-◌, ◌≡◌, refl, ap, ◌∙◌, List, [], Option, none, some, true, length, arith, reverse,
}
use go_redis.Prelude.Eq.{Text}
use go_redis.Prelude.Int.{ℤ, pos, negsuc}
use go_redis.Storage.Linked.{LinkedList, get_at}
use go_redis.Storage.Linked.Edit.{range, trim}
use go_redis.Storage.Linked.Positions.{position}
use go_redis.Storage.Linked.Sequence.{IsList, elem_at, slice}
use go_redis.Storage.Linked.Methods.{get_at-IsList}
use go_redis.Storage.Linked.Ranges.{range-IsList, slice-nil}
use go_redis.Storage.Linked.Trims.{trim-IsList}
use go_redis.Storage.Linked.Removal.{without-nil}
use go_redis.Storage.Linked.Backwards.{to_remove, remove_values, removed, remove_values-IsList}
use go_redis.Storage.Store.{ok, list, Store}
use go_redis.Storage.Lists.{
  list_of, get_existing_list, on_list, on_values, saved, change_with, l_len, l_range, l_index,
  answer, own_list,
}
use go_redis.Storage.Lists.Edits.{rem_through, l_rem, trim_through, l_trim}
use go_redis.Storage.Lists.Holding.{
  HasList, Gives, length-IsList, saved-Gives, on_list-Gives, on_values-Gives, change_with-Gives,
}

-- an answer that is read from a list
read-Gives {ℓ} :
    {A : Type ℓ} (now : ℕ) (key : Text) (missing a : A) (f : LinkedList → Option A) (s : Store)
    (xs : List Text)
    → (xs ≡ [] → a ≡ missing)
    → ((l : LinkedList) → IsList l xs → f l ≡ some a)
    → HasList key s xs
    → Gives key
        (on_list
          (ok missing)
          (λ p t. Option.map (answer t) (f (list_of (t.heap p))))
          (get_existing_list now key s))
        (ok a)
        xs
read-Gives now key missing a f s xs m g h =
    on_list-Gives now key (ok missing) (λ p t. Option.map (answer t) (f (list_of (t.heap p)))) s xs
      xs (ok a) h (λ e. (ap ok (m e), e))
      (λ p e lt (l, i, k). (
        s,
        ap (λ o. Option.map (answer s) (f (list_of o))) i ∙ ap (Option.map (answer s)) (g l k),
        h,
      ))

pub l_len-Gives :
    (now : ℕ) (key : Text) (s : Store) (xs : List Text)
    → HasList key s xs
    → Gives key (l_len now key s) (ok (pos (length xs))) xs
unfolding l_len
l_len-Gives now key s xs h =
    read-Gives now key (pos 0) (pos (length xs)) (λ l. some l.length) s xs (λ e. rw e refl)
      (λ l i. ap some (length-IsList l xs i)) h

pub l_range-Gives :
    (now : ℕ) (key : Text) (start stop : ℤ) (s : Store) (xs : List Text)
    → HasList key s xs
    → Gives key (l_range now key start stop s) (ok (slice start stop xs)) xs
unfolding l_range
l_range-Gives now key start stop s xs h =
    read-Gives now key [] (slice start stop xs) (range start stop) s xs
      (λ e. rw e (slice-nil start stop)) (λ l i. range-IsList start stop l xs i) h

elem_at-nil : (o : Option ℕ) → elem_at o [] ≡ none
unfolding elem_at
elem_at-nil none = refl
elem_at-nil (some i) = refl

pub l_index-Gives :
    (now : ℕ) (key : Text) (index : ℤ) (s : Store) (xs : List Text)
    → HasList key s xs
    → Gives key (l_index now key index s) (ok (elem_at (position (length xs) index) xs)) xs
unfolding l_index
l_index-Gives now key index s xs h =
    read-Gives now key none (elem_at (position (length xs) index) xs) (get_at index) s xs
      (λ e. rw e (elem_at-nil (position 0 index))) (λ l i. get_at-IsList index l xs i) h

pub removed-nil : (count : ℤ) (v : Text) → removed count v [] ≡ []
unfolding removed
removed-nil (pos i) v = without-nil (to_remove 0 (pos i)) v
removed-nil (negsuc i) v = ap reverse (without-nil (to_remove 0 (negsuc i)) v)

rem_through-Gives :
    (key : Text) (count : ℤ) (v : Text) (q : ℕ) (t : Store) (l : LinkedList) (xs : List Text)
    → t.heap q ≡ list l
    → IsList l xs
    → Gives key
        (rem_through key count v q t)
        (ok (length xs - length (removed count v xs)))
        (removed count v xs)
unfolding rem_through
rem_through-Gives key count v q t l xs e h =
    let (l', m, f, g, n) = remove_values-IsList count v l xs h in
    let k : m ≡ length xs - length (removed count v xs) = omega arith in
    let (u, i, j) =
      saved-Gives key q t l' (length xs - length (removed count v xs)) (removed count v xs) g in
    (
      u,
      ap (λ o. saved key q t (remove_values count v (list_of o))) e
          ∙ ap (saved key q t) (f ∙ ap (λ a. some (l', a)) k)
          ∙ i,
      j,
    )

pub l_rem-Gives :
    (now : ℕ) (key : Text) (count : ℤ) (v : Text) (s : Store) (xs : List Text)
    → HasList key s xs
    → Gives key
        (l_rem now key count v s)
        (ok (length xs - length (removed count v xs)))
        (removed count v xs)
unfolding l_rem
l_rem-Gives now key count v s xs h =
    let ys = removed count v xs in
    let r = length xs - length ys in
    on_list-Gives now key (ok 0)
      (on_values (ok 0) (λ p t. change_with (rem_through key count v) (own_list p t))) s xs ys
      (ok r) h (λ e. (rw (e, removed-nil count v) refl, rw e (removed-nil count v)))
      (λ p e lt k.
        on_values-Gives key (ok 0) (λ p t. change_with (rem_through key count v) (own_list p t)) p s
          xs ys (ok r) lt k
          (change_with-Gives key (rem_through key count v) p s xs ys (ok r) e lt k
            (λ q t l g i _. rem_through-Gives key count v q t l xs g i)))

trim_through-Gives :
    (key : Text) (start stop : ℤ) (q : ℕ) (t : Store) (l : LinkedList) (xs : List Text)
    → t.heap q ≡ list l
    → IsList l xs
    → Gives key (trim_through key start stop q t) (ok true) (slice start stop xs)
unfolding trim_through
trim_through-Gives key start stop q t l xs e h =
    let (l', f, g) = trim-IsList start stop l xs h in
    let (u, i, j) = saved-Gives key q t l' true (slice start stop xs) g in
    (
      u,
      ap (λ o. saved key q t (Option.map (λ m. (m, true)) (trim start stop (list_of o)))) e
          ∙ ap (λ o. saved key q t (Option.map (λ m. (m, true)) o)) f
          ∙ i,
      j,
    )

pub l_trim-Gives :
    (now : ℕ) (key : Text) (start stop : ℤ) (s : Store) (xs : List Text)
    → HasList key s xs
    → Gives key (l_trim now key start stop s) (ok true) (slice start stop xs)
unfolding l_trim
l_trim-Gives now key start stop s xs h =
    let ys = slice start stop xs in
    on_list-Gives now key (ok true)
      (λ p t. change_with (trim_through key start stop) (own_list p t)) s xs ys (ok true) h
      (λ e. (refl, rw e (slice-nil start stop)))
      (λ p e lt k.
        change_with-Gives key (trim_through key start stop) p s xs ys (ok true) e lt k
          (λ q t l g i _. trim_through-Gives key start stop q t l xs g i))
