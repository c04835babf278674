-- ===== src/Storage/Lists/Pops.antt =====
-- internal/storage/list_ops.go: pops, and what they mean on the sequence that a key holds.
use go_redis.Prelude.{
  sym, length-reverse, leb, take_past, ◌≤◌, ℕ, zero, suc, ◌≡◌, take_nil, drop_ge, inl, inr, refl,
  ap, ◌∙◌, List, [], ◌∷◌, ◌++◌, Option, some, length, arith, Bool-cases, take, drop, reverse,
  reverse-reverse,
}
use go_redis.Prelude.Eq.{Text, text_eq, nat_eq}
use go_redis.Prelude.Int.{ℤ, pos, negsuc, pos_part}
use go_redis.Storage.Linked.{LinkedList, pop_front, pop_back}
use go_redis.Storage.Linked.Sequence.{
  IsList, head_of, last_of, but_last, last_of-snoc, but_last-snoc,
}
use go_redis.Storage.Linked.Methods.{pop_front-IsList, pop_back-IsList}
use go_redis.Storage.Store.{ok, list, Store}
use go_redis.Storage.Lists.{
  list_of, on_values, saved, change_with, at_most, pop_count, pop_each, collected, pop_through,
  pop_list, l_pop, r_pop, own_list,
}
use go_redis.Storage.Lists.Holding.{
  HasList, Gives, length-IsList, saved-Gives, on_list-Gives, on_values-Gives, change_with-Gives,
}

-- what several pops answer and leave
abbrev Pops : LinkedList × List Text → List Text → List Text → Type 0
Pops r left answers = IsList r.0 left × (r.1 ≡ answers)

pop_each-front :
    (n : ℕ) (l : LinkedList) (xs : List Text)
    → IsList l xs
    → Pops (pop_each pop_front n l) (drop n xs) (take n xs)
unfolding pop_each head_of
pop_each-front zero l xs h = (h, refl)
pop_each-front (suc n) l [] h =
    let k = pop_front-IsList l [] h in
    let r = pop_each-front n (pop_front l).0 [] k.0 in
    rw (ap (λ o. collected o (pop_each pop_front n (pop_front l).0).1) k.1)
      (rw (drop_ge {A = Text} n [] (omega arith)) at r.0, r.1 ∙ take_nil n [] refl)
pop_each-front (suc n) l (x ∷ xs) h =
    let k = pop_front-IsList l (x ∷ xs) h in
    let r = pop_each-front n (pop_front l).0 xs k.0 in
    (r.0, ap (λ o. collected o (pop_each pop_front n (pop_front l).0).1) k.1 ∙ ap (◌∷◌ x) r.1)

pop_each-back :
    (n : ℕ) (l : LinkedList) (rs : List Text)
    → IsList l (reverse rs)
    → Pops (pop_each pop_back n l) (reverse (drop n rs)) (take n rs)
unfolding pop_each last_of but_last
pop_each-back zero l rs h = (h, refl)
pop_each-back (suc n) l [] h =
    let k = pop_back-IsList l [] h in
    let r = pop_each-back n (pop_back l).0 [] k.0 in
    rw (ap (λ o. collected o (pop_each pop_back n (pop_back l).0).1) k.1)
      (rw (drop_ge {A = Text} n [] (omega arith)) at r.0, r.1 ∙ take_nil n [] refl)
pop_each-back (suc n) l (x ∷ rs) h =
    let k = pop_back-IsList l (reverse rs ++ x ∷ []) h in
    let r = pop_each-back n (pop_back l).0 rs (rw (but_last-snoc (reverse rs) x) at k.0) in
    (
      r.0,
      ap (λ o. collected o (pop_each pop_back n (pop_back l).0).1)
            (k.1 ∙ last_of-snoc (reverse rs) x)
          ∙ ap (◌∷◌ x) r.1,
    )

-- the number of values that a pop is to take
abbrev pub wanted : ℤ → ℕ
wanted (pos zero) = 1
wanted (pos (suc i)) = suc i
wanted (negsuc i) = 1

-- the number of values that it takes
abbrev popped : ℤ → List Text → ℕ
popped count xs = pop_count count (length xs)

at_most-cases :
    (k : ℕ) (xs : List Text)
    → (take (at_most k (length xs)) xs ≡ take k xs) × (drop (at_most k (length xs)) xs ≡ drop k xs)
unfolding at_most
at_most-cases k xs = elim (Bool-cases (leb k (length xs))) [
  | inl y ↦ rw y (refl, refl)
  | inr y ↦
      let le : length xs ≤ k = ground arith in
      rw y (
        take_past (length xs) k xs (omega arith) le,
        drop_ge (length xs) xs (omega arith) ∙ sym (drop_ge k xs le),
      )
]

-- No more than there are.
popped-wanted :
    (count : ℤ) (xs : List Text)
    → (take (popped count xs) xs ≡ take (wanted count) xs)
      × (drop (popped count xs) xs ≡ drop (wanted count) xs)
unfolding pop_count
popped-wanted (pos zero) xs = at_most-cases 1 xs
popped-wanted (pos (suc i)) xs = at_most-cases (suc i) xs
popped-wanted (negsuc i) xs = at_most-cases 1 xs

pop_through-Gives :
    (pop : LinkedList → LinkedList × Option Text) (key : Text) (count : ℤ) (p : ℕ) (s : Store)
    (l : LinkedList) (xs ys zs : List Text)
    → s.heap p ≡ list l
    → IsList l xs
    → Pops (pop_each pop (popped count xs) l) ys zs
    → Gives key (pop_through pop key count p s) (ok zs) ys
unfolding pop_through
pop_through-Gives pop key count p s l xs ys zs e h (i, f) =
    let r = pop_each pop (popped count xs) l in
    let (t, g, k) = saved-Gives key p s r.0 r.1 ys i in
    (
      t,
      ap
            (λ o.
              saved key p s
                (some (pop_each pop (pop_count count (pos_part (list_of o).length)) (list_of o))))
            e
          ∙ ap (λ n. saved key p s (some (pop_each pop (pop_count count (pos_part n)) l)))
              (length-IsList l xs h)
          ∙ g
          ∙ ap (λ zs'. some (t, ok zs')) f,
      k,
    )

pop_list-Gives :
    (pop : LinkedList → LinkedList × Option Text) (now : ℕ) (key : Text) (count : ℤ) (s : Store)
    (xs ys zs : List Text)
    → (xs ≡ [] → (ys ≡ []) × (zs ≡ []))
    → ((l : LinkedList) → IsList l xs → Pops (pop_each pop (popped count xs) l) ys zs)
    → HasList key s xs
    → Gives key (pop_list pop now key count s) (ok zs) ys
unfolding pop_list
pop_list-Gives pop now key count s xs ys zs m f h =
    on_list-Gives now key (ok [])
      (on_values (ok []) (λ p t. change_with (pop_through pop key count) (own_list p t))) s xs ys
      (ok zs) h (λ e. (ap ok (m e).1, (m e).0))
      (λ p e lt k.
        on_values-Gives key (ok []) (λ p t. change_with (pop_through pop key count) (own_list p t))
          p s xs ys (ok zs) lt k
          (change_with-Gives key (pop_through pop key count) p s xs ys (ok zs) e lt k
            (λ q t l g i _. pop_through-Gives pop key count q t l xs ys zs g i (f l i))))

l_pop-popped :
    (now : ℕ) (key : Text) (count : ℤ) (s : Store) (xs : List Text)
    → HasList key s xs
    → Gives key (l_pop now key count s) (ok (take (popped count xs) xs)) (drop (popped count xs) xs)
unfolding l_pop
l_pop-popped now key count s xs h =
    pop_list-Gives pop_front now key count s xs (drop (popped count xs) xs)
      (take (popped count xs) xs)
      (λ e. (rw e (drop_ge _ [] (omega arith)), rw e (take_nil _ [] refl)))
      (λ l i. pop_each-front (popped count xs) l xs i) h

pub l_pop-Gives :
    (now : ℕ) (key : Text) (count : ℤ) (s : Store) (xs : List Text)
    → HasList key s xs
    → Gives key (l_pop now key count s) (ok (take (wanted count) xs)) (drop (wanted count) xs)
l_pop-Gives now key count s xs h =
    let e = popped-wanted count xs in rw (e.0, e.1) at (l_pop-popped now key count s xs h)

r_pop-popped :
    (now : ℕ) (key : Text) (count : ℤ) (s : Store) (xs : List Text)
    → HasList key s xs
    → Gives key
        (r_pop now key count s)
        (ok (take (popped count (reverse xs)) (reverse xs)))
        (reverse (drop (popped count (reverse xs)) (reverse xs)))
unfolding r_pop
r_pop-popped now key count s xs h =
    let n = popped count (reverse xs) in
    let m : popped count xs ≡ n = ap (pop_count count) (sym (length-reverse xs)) in
    pop_list-Gives pop_back now key count s xs (reverse (drop n (reverse xs))) (take n (reverse xs))
      (λ e. (
        ap reverse (drop_ge n (reverse xs) (rw e (omega arith))),
        take_nil n (reverse xs) (ap reverse e),
      ))
      (λ l i. rw m (pop_each-back n l (reverse xs) (rw (reverse-reverse xs) i))) h

pub r_pop-Gives :
    (now : ℕ) (key : Text) (count : ℤ) (s : Store) (xs : List Text)
    → HasList key s xs
    → Gives key
        (r_pop now key count s)
        (ok (take (wanted count) (reverse xs)))
        (reverse (drop (wanted count) (reverse xs)))
r_pop-Gives now key count s xs h =
    let e = popped-wanted count (reverse xs) in rw (e.0, e.1) at (r_pop-popped now key count s xs h)
