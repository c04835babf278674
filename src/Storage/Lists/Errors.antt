-- ===== src/Storage/Lists/Errors.antt =====
-- internal/storage/list_ops.go: LSET and LINSERT, which may fail, and what they mean on the sequence that a key\nholds.
use mathlib.Core.Path.{subst}
use go_redis.Prelude.{
  ℕ, ◌<◌, ◌≡◌, refl, ap, sym, ◌∙◌, List, [], ◌∷◌, Option, none, some, Bool, true, false, length,
  arith,
}
use go_redis.Prelude.Eq.{Text}
use go_redis.Prelude.Int.{ℤ, pos, negsuc}
use go_redis.Storage.Linked.{LinkedList, set_at}
use go_redis.Storage.Linked.Edit.{find_node}
use go_redis.Storage.Linked.Positions.{position}
use go_redis.Storage.Linked.Sequence.{IsList, set_elem_at}
use go_redis.Storage.Linked.Methods.{set_at-IsList, Answers}
use go_redis.Storage.Linked.Search.{
  insert_found, insert_beside, insert_or_same, insert_found-IsList,
}
use go_redis.Storage.Store.{Result, ok, err, no_such_key, index_out_of_range, list, Store}
use go_redis.Storage.Lists.{list_of, on_values, change_with, own_list}
use go_redis.Storage.Lists.Edits.{
  set_or_fail, set_through, l_set, insert_or_fail, insert_through, l_insert,
}
use go_redis.Storage.Lists.Holding.{
  HasList, Gives, length-IsList, saved-Gives, on_list-Gives, on_values-Gives, change_with-Gives,
}

-- the answers of LSET and LINSERT
abbrev pub set_reply : List Text → Bool → Result Bool
set_reply [] b = err no_such_key
set_reply (x ∷ xs) true = ok true
set_reply (x ∷ xs) false = err index_out_of_range

abbrev pub insert_reply : List Text → List Text × Bool → Result ℤ
insert_reply [] r = ok (pos 0)
insert_reply (x ∷ xs) (ys, true) = ok (pos (length ys))
insert_reply (x ∷ xs) (ys, false) = ok (negsuc 0)

set_or_fail-Gives :
    (key : Text) (q : ℕ) (t : Store) (o : Option (LinkedList × Bool)) (x : Text) (xs ys : List Text)
    (b : Bool)
    → Answers o ys b
    → HasList key t (x ∷ xs)
    → (b ≡ false → ys ≡ x ∷ xs)
    → Gives key (set_or_fail key q t o) (set_reply (x ∷ xs) b) ys
unfolding set_or_fail
set_or_fail-Gives key q t o x xs ys true (l, e, g) h n = rw e (saved-Gives key q t l true ys g)
set_or_fail-Gives key q t o x xs ys false (l, e, g) h n = rw (e, n refl) (t, refl, h)

set_elem_at-same :
    (o : Option ℕ) (v : Text) (xs : List Text)
    → (set_elem_at o v xs).1 ≡ false
    → (set_elem_at o v xs).0 ≡ xs
unfolding set_elem_at
set_elem_at-same none v xs e = refl
set_elem_at-same (some i) v xs e = absurd (ground arith)

set_nonempty :
    (now : ℕ) (key : Text) (index : ℤ) (v : Text) (s : Store) (xs : List Text) (p q : ℕ) (t : Store)
    (l : LinkedList)
    → 0 < length xs
    → t.heap q ≡ list l
    → IsList l xs
    → HasList key t xs
    → Gives key
        (set_through key index v q t)
        (set_reply xs (set_elem_at (position (length xs) index) v xs).1)
        (set_elem_at (position (length xs) index) v xs).0
unfolding set_through
set_nonempty now key index v s [] p q t l lt e h k = absurd (omega arith)
set_nonempty now key index v s (x ∷ xs) p q t l lt e h k =
    let o = position (length (x ∷ xs)) index in
    subst
      (λ m.
        Gives key (set_or_fail key q t (set_at index v (list_of m)))
          (set_reply (x ∷ xs) (set_elem_at o v (x ∷ xs)).1) (set_elem_at o v (x ∷ xs)).0)
      (sym e)
      (set_or_fail-Gives key q t (set_at index v l) x xs (set_elem_at o v (x ∷ xs)).0
        (set_elem_at o v (x ∷ xs)).1 (set_at-IsList index v l (x ∷ xs) h) k
        (set_elem_at-same o v (x ∷ xs)))

position-nil : (index : ℤ) → position 0 index ≡ none
position-nil (pos i) = ground arith
position-nil (negsuc i) = ground arith

set_elem_at-nil : (index : ℤ) (v : Text) → (set_elem_at (position 0 index) v []).0 ≡ []
unfolding set_elem_at
set_elem_at-nil index v = rw (position-nil index) refl

pub l_set-Gives :
    (now : ℕ) (key : Text) (index : ℤ) (v : Text) (s : Store) (xs : List Text)
    → HasList key s xs
    → Gives key
        (l_set now key index v s)
        (set_reply xs (set_elem_at (position (length xs) index) v xs).1)
        (set_elem_at (position (length xs) index) v xs).0
unfolding l_set
l_set-Gives now key index v s xs h =
    let r = set_elem_at (position (length xs) index) v xs in
    on_list-Gives now key (err no_such_key)
      (λ p t. change_with (set_through key index v) (own_list p t)) s xs r.0 (set_reply xs r.1) h
      (λ e. (rw e refl, rw e (set_elem_at-nil index v)))
      (λ p e lt k.
        change_with-Gives key (set_through key index v) p s xs r.0 (set_reply xs r.1) e lt k
          (λ q t l g i j. set_nonempty now key index v s xs p q t l lt g i j))

insert_or_fail-Gives :
    (key : Text) (q : ℕ) (t : Store) (o : Option (LinkedList × Bool)) (x : Text) (xs ys : List Text)
    (b : Bool)
    → Answers o ys b
    → HasList key t (x ∷ xs)
    → (b ≡ false → ys ≡ x ∷ xs)
    → Gives key (insert_or_fail key q t o) (insert_reply (x ∷ xs) (ys, b)) ys
unfolding insert_or_fail
insert_or_fail-Gives key q t o x xs ys true (l, e, g) h n =
    let (u, i, j) = saved-Gives key q t l l.length ys g in
    rw e (u, i ∙ ap (λ m. some (u, ok m)) (length-IsList l ys g), j)
insert_or_fail-Gives key q t o x xs ys false (l, e, g) h n = rw (e, n refl) (t, refl, h)

insert_or_same-same :
    (xs : List Text) (o : Option (List Text))
    → (insert_or_same xs o).1 ≡ false
    → (insert_or_same xs o).0 ≡ xs
unfolding insert_or_same
insert_or_same-same xs none e = refl
insert_or_same-same xs (some ys) e = absurd (ground arith)

insert_nonempty :
    (key : Text) (before : Bool) (pivot v : Text) (xs : List Text) (q : ℕ) (t : Store)
    (l : LinkedList)
    → 0 < length xs
    → t.heap q ≡ list l
    → IsList l xs
    → HasList key t xs
    → Gives key
        (insert_through key before pivot v q t)
        (insert_reply xs (insert_or_same xs (insert_beside before pivot v xs)))
        (insert_or_same xs (insert_beside before pivot v xs)).0
unfolding insert_through
insert_nonempty key before pivot v [] q t l lt e h k = absurd (omega arith)
insert_nonempty key before pivot v (x ∷ xs) q t l lt e h k =
    let r = insert_or_same (x ∷ xs) (insert_beside before pivot v (x ∷ xs)) in
    subst
      (λ m.
        Gives key
          (insert_or_fail key q t
            (insert_found before v (list_of m) (find_node pivot true (list_of m))))
          (insert_reply (x ∷ xs) r) r.0)
      (sym e)
      (insert_or_fail-Gives key q t (insert_found before v l (find_node pivot true l)) x xs r.0 r.1
        (insert_found-IsList before pivot v l (x ∷ xs) h) k
        (insert_or_same-same (x ∷ xs) (insert_beside before pivot v (x ∷ xs))))

insert_nil :
    (before : Bool) (pivot v : Text) → (insert_or_same [] (insert_beside before pivot v [])).0 ≡ []
unfolding insert_or_same insert_beside
insert_nil before pivot v = refl

pub l_insert-Gives :
    (now : ℕ) (key : Text) (before : Bool) (pivot v : Text) (s : Store) (xs : List Text)
    → HasList key s xs
    → Gives key
        (l_insert now key before pivot v s)
        (insert_reply xs (insert_or_same xs (insert_beside before pivot v xs)))
        (insert_or_same xs (insert_beside before pivot v xs)).0
unfolding l_insert
l_insert-Gives now key before pivot v s xs h =
    let r = insert_or_same xs (insert_beside before pivot v xs) in
    let f = λ (p : ℕ) (t : Store). change_with (insert_through key before pivot v) (own_list p t) in
    on_list-Gives now key (ok (pos 0)) (on_values (ok (pos 0)) f) s xs r.0 (insert_reply xs r) h
      (λ e. (rw e refl, rw e (insert_nil before pivot v)))
      (λ p e lt k. on_values-Gives key (ok (pos 0)) f p s xs r.0 (insert_reply xs r) lt k (
        change_with-Gives key (insert_through key before pivot v) p s xs r.0 (insert_reply xs r) e
          lt k (λ q t l g i j. insert_nonempty key before pivot v xs q t l lt g i j)))
