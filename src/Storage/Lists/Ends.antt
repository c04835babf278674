-- ===== src/Storage/Lists/Ends.antt =====
-- internal/storage/list_ops.go: pushes, and what they mean on the sequence that a key holds.
use go_redis.Prelude.{
  ℕ, inl, inr, ap, ◌∙◌, List, [], ◌∷◌, ◌++◌, some, ◌&&◌, length, Bool-cases, reverse, append-nil,
  append_assoc,
}
use go_redis.Prelude.Eq.{Text, text_eq, nat_eq}
use go_redis.Prelude.Int.{pos}
use go_redis.Prelude.Maps.{member}
use go_redis.Storage.Linked.{LinkedList, new_list, push_front, push_back}
use go_redis.Storage.Linked.Sequence.{IsList, IsList-new_list}
use go_redis.Storage.Linked.Methods.{push_front-IsList, push_back-IsList}
use go_redis.Storage.Store.{ok, list, Store, alloc, is_snapshot_active, write}
use go_redis.Storage.Adding.{alloc-same, find-missing}
use go_redis.Storage.Lists.{
  list_of, created_list, list_or_new, get_or_create_list, as_list, save_list, push_each,
  push_through, push_or_clone, l_push, r_push,
}
use go_redis.Storage.Lists.Holding.{
  HasList, ListAt, Gives, find-list, length-IsList, save_list-HasList, clone_list-Copied,
}

push_each-front :
    (vs : List Text) (l : LinkedList) (xs : List Text)
    → IsList l xs
    → IsList (push_each push_front vs l) (reverse vs ++ xs)
unfolding push_each
push_each-front [] l xs h = h
push_each-front (v ∷ vs) l xs h =
    rw (← append_assoc (reverse vs) (v ∷ []) xs) at
      (push_each-front vs (push_front v l) (v ∷ xs) (push_front-IsList v l xs h))

push_each-back :
    (vs : List Text) (l : LinkedList) (xs : List Text)
    → IsList l xs
    → IsList (push_each push_back vs l) (xs ++ vs)
unfolding push_each
push_each-back [] l xs h = rw append-nil h
push_each-back (v ∷ vs) l xs h =
    rw (append_assoc xs (v ∷ []) vs) at
      (push_each-back vs (push_back v l) (xs ++ v ∷ []) (push_back-IsList v l xs h))

-- How `Gives` comes from a pair.
push_through-Gives :
    (push : Text → LinkedList → LinkedList) (key : Text) (vs : List Text) (p : ℕ) (s : Store)
    (xs ys : List Text)
    → ((l : LinkedList) → IsList l xs → IsList (push_each push vs l) ys)
    → ListAt s p xs
    → Gives key (some (push_through push key vs (s, p))) (ok (pos (length ys))) ys
unfolding push_through
push_through-Gives push key vs p s xs ys f (l, e, h) =
    let m = push_each push vs l in
    (
      save_list key p (write p (list m) s),
      ap
            (λ o. some (
              save_list key p (write p (list (push_each push vs (list_of o))) s),
              ok (push_each push vs (list_of o)).length,
            ))
            e
          ∙ ap (λ n. some (save_list key p (write p (list m) s), ok n))
              (length-IsList m ys (f l h)),
      save_list-HasList key p m s ys (f l h),
    )

push_or_clone-Gives :
    (push : Text → LinkedList → LinkedList) (key : Text) (vs : List Text) (p : ℕ) (s : Store)
    (xs ys : List Text)
    → ((l : LinkedList) → IsList l xs → IsList (push_each push vs l) ys)
    → ListAt s p xs
    → Gives key (push_or_clone push key vs (some p) s) (ok (pos (length ys))) ys
unfolding push_or_clone
push_or_clone-Gives push key vs p s xs ys f h =
    elim (Bool-cases (is_snapshot_active s && member key s.entries)) [
      | inl y ↦
          let (t, q, e, g, _, _) = clone_list-Copied key p s xs h in
          rw (y, e) (push_through-Gives push key vs q t xs ys f g)
      | inr y ↦ rw y (push_through-Gives push key vs p s xs ys f h)
    ]

created-Gives :
    (now : ℕ) (push : Text → LinkedList → LinkedList) (key : Text) (vs : List Text) (s : Store)
    (xs ys : List Text)
    → ((l : LinkedList) → IsList l xs → IsList (push_each push vs l) ys)
    → HasList key s xs
    → Gives key
        (push_or_clone push key vs
          (get_or_create_list now key s).1
          (get_or_create_list now key s).0)
        (ok (pos (length ys)))
        ys
unfolding get_or_create_list list_or_new created_list as_list alloc
created-Gives now push key vs s xs ys f (inl (e, n)) = rw (find-missing now key s e) (
    push_or_clone-Gives push key vs s.next (alloc (list new_list) s).0 xs ys f
      (new_list, alloc-same (list new_list) s, rw n IsList-new_list))
created-Gives now push key vs s xs ys f (inr (p, e, lt, (l, g, h))) =
    rw (find-list now key s p e, g) (push_or_clone-Gives push key vs p s xs ys f (l, g, h))

pub l_push-Gives :
    (now : ℕ) (key : Text) (vs : List Text) (s : Store) (xs : List Text)
    → HasList key s xs
    → Gives key (l_push now key vs s) (ok (pos (length (reverse vs ++ xs)))) (reverse vs ++ xs)
unfolding l_push
l_push-Gives now key vs s xs h =
    created-Gives now push_front key vs s xs (reverse vs ++ xs) (λ l k. push_each-front vs l xs k) h

pub r_push-Gives :
    (now : ℕ) (key : Text) (vs : List Text) (s : Store) (xs : List Text)
    → HasList key s xs
    → Gives key (r_push now key vs s) (ok (pos (length (xs ++ vs)))) (xs ++ vs)
unfolding r_push
r_push-Gives now key vs s xs h =
    created-Gives now push_back key vs s xs (xs ++ vs) (λ l k. push_each-back vs l xs k) h
