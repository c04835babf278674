-- ===== src/Storage/Linked/Calls.antt =====
-- internal/storage/list.go: calls of the methods of a list in any order. `LInsert` and `LRem` of
-- internal/storage/list_ops.go count as methods here: they work on the nodes.
use mathlib.Core.Option
use go_redis.Prelude.{
  ℕ, ◌-◌, ◌≡◌, refl, ap, ◌∙◌, List, [], ◌∷◌, ◌++◌, Option, none, some, Bool, true, length, arith,
  drop,
}
use go_redis.Prelude.Eq.{Text}
use go_redis.Prelude.Int.{ℤ}
use go_redis.Storage.Linked.{
  LinkedList, new_list, push_front, push_back, pop_front, pop_back, get_at, set_at,
}
use go_redis.Storage.Linked.Edit.{clone, to_slice, range, trim, find_node}
use go_redis.Storage.Linked.Walk.{to_slice-Holds}
use go_redis.Storage.Linked.Positions.{position}
use go_redis.Storage.Linked.Sequence.{
  IsList, IsList-new_list, head_of, last_of, but_last, elem_at, set_elem_at, slice,
}
use go_redis.Storage.Linked.Methods.{
  push_front-IsList, push_back-IsList, pop_front-IsList, pop_back-IsList, get_at-IsList,
  set_at-IsList, clone-IsList, Answers,
}
use go_redis.Storage.Linked.Ranges.{range-IsList}
use go_redis.Storage.Linked.Trims.{trim-IsList}
use go_redis.Storage.Linked.Search.{
  insert_found, insert_beside, insert_or_same, insert_found-IsList,
}
use go_redis.Storage.Linked.Backwards.{remove_values, removed, remove_values-IsList}

pub data Call : Type 0 where
  to_front to_back : Text → Call
  from_front from_back whole copy : Call
  value_at : ℤ → Call
  assign : ℤ → Text → Call
  between trim_between : ℤ → ℤ → Call
  near : Bool → Text → Text → Call
  erase : ℤ → Text → Call

pub data Answer : Type 0 where
  done : Answer
  is : Bool → Answer
  maybe : Option Text → Answer
  texts : List Text → Answer
  number : ℕ → Answer

-- the answer of a method that reads
abbrev reads {ℓ} :
    {A : Type ℓ} → (A → Answer) → LinkedList → Option A → Option (LinkedList × Answer)
reads f l o = Option.map (λ a. (l, f a)) o

-- the answer of a method that writes
abbrev writes {ℓ} :
    {A : Type ℓ} → (A → Answer) → Option (LinkedList × A) → Option (LinkedList × Answer)
writes f o = Option.map (λ r. (r.0, f r.1)) o

abbrev replaces : Option LinkedList → Option (LinkedList × Answer)
replaces o = Option.map (λ l. (l, done)) o

unfoldable pub step : Call → LinkedList → Option (LinkedList × Answer)
step (to_front v) l = some (push_front v l, done)
step (to_back v) l = some (push_back v l, done)
step from_front l = let r = pop_front l in some (r.0, maybe r.1)
step from_back l = let r = pop_back l in some (r.0, maybe r.1)
step whole l = reads texts l (to_slice l)
step copy l = replaces (clone l)
step (value_at i) l = reads maybe l (get_at i l)
step (assign i v) l = writes is (set_at i v l)
step (between start stop) l = reads texts l (range start stop l)
step (trim_between start stop) l = replaces (trim start stop l)
step (near before pivot v) l = writes is (insert_found before v l (find_node pivot true l))
step (erase count v) l = writes number (remove_values count v l)

-- the same on a sequence
unfoldable pub spec : Call → List Text → List Text × Answer
spec (to_front v) xs = (v ∷ xs, done)
spec (to_back v) xs = (xs ++ v ∷ [], done)
spec from_front xs = (drop 1 xs, maybe (head_of xs))
spec from_back xs = (but_last xs, maybe (last_of xs))
spec whole xs = (xs, texts xs)
spec copy xs = (xs, done)
spec (value_at i) xs = (xs, maybe (elem_at (position (length xs) i) xs))
spec (assign i v) xs = let r = set_elem_at (position (length xs) i) v xs in (r.0, is r.1)
spec (between start stop) xs = (xs, texts (slice start stop xs))
spec (trim_between start stop) xs = (slice start stop xs, done)
spec (near before pivot v) xs =
    let r = insert_or_same xs (insert_beside before pivot v xs) in (r.0, is r.1)
spec (erase count v) xs = let ys = removed count v xs in (ys, number (length xs - length ys))

abbrev followed_by :
    (LinkedList → Option (LinkedList × List Answer))
    → Option (LinkedList × Answer)
    → Option (LinkedList × List Answer)
followed_by f none = none
followed_by f (some (l, a)) = Option.map (λ r. (r.0, a ∷ r.1)) (f l)

unfoldable pub run : List Call → LinkedList → Option (LinkedList × List Answer)
run [] l = some (l, [])
run (c ∷ cs) l = followed_by (λ l1. run cs l1) (step c l)

unfoldable pub run_spec : List Call → List Text → List Text × List Answer
run_spec [] xs = (xs, [])
run_spec (c ∷ cs) xs = let (ys, a) = spec c xs in let (zs, rest) = run_spec cs ys in (zs, a ∷ rest)

Answers-reads :
    {A : Type 0} (f : A → Answer) (l : LinkedList) (xs : List Text) (o : Option A) (a : A)
    → o ≡ some a
    → IsList l xs
    → Answers (reads f l o) xs (f a)
Answers-reads f l xs o a e h = rw e (l, refl, h)

Answers-writes :
    {A : Type 0} (f : A → Answer) (o : Option (LinkedList × A)) (xs : List Text) (a : A)
    → Answers o xs a
    → Answers (writes f o) xs (f a)
Answers-writes f o xs a (l, e, h) = rw e (l, refl, h)

Answers-replaces :
    (o : Option LinkedList) (xs : List Text) (l : LinkedList)
    → o ≡ some l
    → IsList l xs
    → Answers (replaces o) xs done
Answers-replaces o xs l e h = rw e (l, refl, h)

-- `Leaves` answers the number of values that are gone.
erase-Answers :
    (count : ℤ) (v : Text) (l : LinkedList) (xs : List Text)
    → IsList l xs
    → Answers
        (step (erase count v) l)
        (removed count v xs)
        (number (length xs - length (removed count v xs)))
unfolding step
erase-Answers count v l xs h =
    let (l', m, e, g, n) = remove_values-IsList count v l xs h in
    let k : m ≡ length xs - length (removed count v xs) = omega arith in
    rw e (l', ap (λ i. some (l', number i)) k, g)

-- Each method does to the list what it means on the sequence, and answers the same.
pub step-spec :
    (c : Call) (l : LinkedList) (xs : List Text)
    → IsList l xs
    → Answers (step c l) (spec c xs).0 (spec c xs).1
unfolding step spec
step-spec (to_front v) l xs h = (push_front v l, refl, push_front-IsList v l xs h)
step-spec (to_back v) l xs h = (push_back v l, refl, push_back-IsList v l xs h)
step-spec from_front l xs h =
    let k = pop_front-IsList l xs h in
    ((pop_front l).0, ap (λ o. some ((pop_front l).0, maybe o)) k.1, k.0)
step-spec from_back l xs h =
    let k = pop_back-IsList l xs h in
    ((pop_back l).0, ap (λ o. some ((pop_back l).0, maybe o)) k.1, k.0)
step-spec whole l xs (cs, h, e) =
    Answers-reads texts l xs _ xs (to_slice-Holds l cs h ∙ ap some e) (cs, h, e)
step-spec copy l xs h = let (l', e, k) = clone-IsList l xs h in Answers-replaces _ xs l' e k
step-spec (value_at i) l xs h = Answers-reads maybe l xs _ _ (get_at-IsList i l xs h) h
step-spec (assign i v) l xs h = Answers-writes is _ _ _ (set_at-IsList i v l xs h)
step-spec (between start stop) l xs h =
    Answers-reads texts l xs _ _ (range-IsList start stop l xs h) h
step-spec (trim_between start stop) l xs h =
    let (l', e, k) = trim-IsList start stop l xs h in Answers-replaces _ _ l' e k
step-spec (near before pivot v) l xs h =
    Answers-writes is _ _ _ (insert_found-IsList before pivot v l xs h)
step-spec (erase count v) l xs h = erase-Answers count v l xs h

-- Calls in any order on a list that holds a sequence: no method dereferences nil, every loop ends,
-- and all answers are those of the sequence.
pub run-spec :
    (cs : List Call) (l : LinkedList) (xs : List Text)
    → IsList l xs
    → Answers (run cs l) (run_spec cs xs).0 (run_spec cs xs).1
unfolding run run_spec
run-spec [] l xs h = (l, refl, h)
run-spec (c ∷ cs) l xs h =
    let (l1, e, h1) = step-spec c l xs h in
    let (l2, f, h2) = run-spec cs l1 (spec c xs).0 h1 in rw (e, f) (l2, refl, h2)

-- A new list takes calls of its methods in any order: no call dereferences nil, every loop ends, and
-- the answers are those of a sequence that is empty at first, and the list holds the sequence that
-- the calls leave.
pub run-new_list :
    (cs : List Call) → Answers (run cs new_list) (run_spec cs []).0 (run_spec cs []).1
run-new_list cs = run-spec cs new_list [] IsList-new_list
