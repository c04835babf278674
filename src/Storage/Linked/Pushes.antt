-- ===== src/Storage/Linked/Pushes.antt =====
-- internal/storage/list.go: the pushes at both ends of a list.
use mathlib.Core.Path.{fun_ext, subst}
use go_redis.Prelude.{
  ℕ, ◌+◌, ◌≡◌, inl, inr, refl, ap, sym, ◌∙◌, [], ◌∷◌, ◌++◌, Option, none, some, arith, append_assoc,
}
use go_redis.Prelude.Eq.{Text, nat_eq}
use go_redis.Prelude.Int.{pos, ◌+ℤ◌}
use go_redis.Storage.Linked.{
  Node, nil_node, LinkedList, set_node, set_next, set_prev, new_node, link_next, link_prev, longer,
  push_front, put_front, push_back, put_back,
}
use go_redis.Storage.Linked.Edit.{insert_before, insert_after}
use go_redis.Storage.Linked.Chain.{Cells, Holds, set_node_self, last-append}
use go_redis.Storage.Linked.Moves.{next_pos, Holds-Spot}
use go_redis.Storage.Linked.Insertions.{insert_before-Holds, insert_after-Holds}
use go_redis.Storage.Linked.Ends.{Cells-cases}

set_next-set_node :
    (q : ℕ) (n : Node) (r : Option ℕ) (ns : ℕ → Node)
    → set_next q r (set_node q n ns) ≡ set_node q (record n { next = r }) ns
set_next-set_node q n r ns = fun_ext (λ a. ground arith)

set_prev-set_node :
    (q : ℕ) (n : Node) (r : Option ℕ) (ns : ℕ → Node)
    → set_prev q r (set_node q n ns) ≡ set_node q (record n { prev = r }) ns
set_prev-set_node q n r ns = fun_ext (λ a. ground arith)

-- the insertions, with the neighbour that they find
abbrev insert_between_front : Option ℕ → ℕ → Text → LinkedList → LinkedList
insert_between_front o p v l =
    let l1 = new_node (record { value = v; prev = o; next = some p }) l in
    let l2 = link_next o (some l.fresh) l1 in
    longer (record l2 { nodes = set_prev p (some l.fresh) l2.nodes })

abbrev insert_between_back : Option ℕ → ℕ → Text → LinkedList → LinkedList
insert_between_back o p v l =
    let l1 = new_node (record { value = v; prev = some p; next = o }) l in
    let l2 = link_prev o (some l.fresh) l1 in
    longer (record l2 { nodes = set_next p (some l.fresh) l2.nodes })

push_front-insert_before :
    (v : Text) (l : LinkedList) (p : ℕ)
    → (l.nodes p).prev ≡ none
    → longer (put_front l.fresh (some p) (new_node (record nil_node { value = v }) l))
      ≡ insert_before p v l
unfolding put_front insert_before link_next link_prev
push_front-insert_before v l p k =
    ap
      (λ ns. record l {
        nodes = set_prev p (some l.fresh) ns;
        fresh = l.fresh + 1;
        head = some l.fresh;
        length = l.length +ℤ pos 1;
      })
      (set_next-set_node l.fresh (record { value = v; prev = none; next = none }) (some p) l.nodes)
    ∙ ap (λ o. insert_between_front o p v l) (sym k)

push_back-insert_after :
    (v : Text) (l : LinkedList) (p : ℕ)
    → (l.nodes p).next ≡ none
    → longer (put_back l.fresh (some p) (new_node (record nil_node { value = v }) l))
      ≡ insert_after p v l
unfolding put_back insert_after link_prev link_next
push_back-insert_after v l p k =
    ap
      (λ ns. record l {
        nodes = set_next p (some l.fresh) ns;
        fresh = l.fresh + 1;
        tail = some l.fresh;
        length = l.length +ℤ pos 1;
      })
      (set_prev-set_node l.fresh (record { value = v; prev = none; next = none }) (some p) l.nodes)
    ∙ ap (λ o. insert_between_back o p v l) (sym k)

-- The first node of an empty list.
singleton-Holds :
    (l : LinkedList) (v : Text) (n : Node)
    → n ≡ record { value = v; prev = none; next = none }
    → Holds l []
    → Holds
        (record l {
          nodes = set_node l.fresh n l.nodes;
          fresh = l.fresh + 1;
          head = some l.fresh;
          tail = some l.fresh;
          length = l.length +ℤ pos 1;
        })
        ((l.fresh, v) ∷ [])
singleton-Holds l v n e h =
    let s = set_node_self l.fresh n l.nodes ∙ e in
    record {
      links = (ap (λ m. m.value) s, ap (λ m. m.prev) s, ap (λ m. m.next) s, tt);
      head = refl;
      tail = refl;
      counted = rw h.counted (next_pos 0);
      below = (omega arith, tt);
      apart = (tt, tt);
    }

put_front_empty :
    (v : Text) (l : LinkedList)
    → Holds l []
    → Holds
        (longer (put_front l.fresh none (new_node (record nil_node { value = v }) l)))
        ((l.fresh, v) ∷ [])
unfolding put_front
put_front_empty v l h = singleton-Holds l v _ refl h

put_back_empty :
    (v : Text) (l : LinkedList)
    → Holds l []
    → Holds
        (longer (put_back l.fresh none (new_node (record nil_node { value = v }) l)))
        ((l.fresh, v) ∷ [])
unfolding put_back
put_back_empty v l h = singleton-Holds l v _ refl h

-- `PushFront` puts the value before all others.
pub push_front-Holds :
    (v : Text) (l : LinkedList) (cs : Cells)
    → Holds l cs
    → Holds (push_front v l) ((l.fresh, v) ∷ cs)
unfolding push_front
push_front-Holds v l [] h =
    subst
      (λ o.
        Holds (longer (put_front l.fresh o (new_node (record nil_node { value = v }) l)))
          ((l.fresh, v) ∷ []))
      (sym h.head) (put_front_empty v l h)
push_front-Holds v l ((p, x) ∷ cs) h =
    let s = Holds-Spot l [] p x cs h in
    subst
      (λ o.
        Holds (longer (put_front l.fresh o (new_node (record nil_node { value = v }) l)))
          ((l.fresh, v) ∷ (p, x) ∷ cs))
      (sym h.head)
      (subst (λ m. Holds m ((l.fresh, v) ∷ (p, x) ∷ cs))
        (sym (push_front-insert_before v l p s.prev)) (insert_before-Holds l [] p x v cs h))

push_back_empty :
    (v : Text) (l : LinkedList) → Holds l [] → Holds (push_back v l) ((l.fresh, v) ∷ [])
unfolding push_back
push_back_empty v l h =
    subst
      (λ o.
        Holds (longer (put_back l.fresh o (new_node (record nil_node { value = v }) l)))
          ((l.fresh, v) ∷ []))
      (sym h.tail) (put_back_empty v l h)

push_back_end :
    (v : Text) (l : LinkedList) (cs : Cells) (p : ℕ) (x : Text)
    → Holds l (cs ++ (p, x) ∷ [])
    → Holds (push_back v l) ((cs ++ (p, x) ∷ []) ++ (l.fresh, v) ∷ [])
unfolding push_back
push_back_end v l cs p x h =
    let s = Holds-Spot l cs p x [] h in
    rw append_assoc (
      subst
        (λ o.
          Holds (longer (put_back l.fresh o (new_node (record nil_node { value = v }) l)))
            (cs ++ (p, x) ∷ (l.fresh, v) ∷ []))
        (sym (h.tail ∙ last-append none cs ((p, x) ∷ [])))
        (subst (λ m. Holds m (cs ++ (p, x) ∷ (l.fresh, v) ∷ []))
          (sym (push_back-insert_after v l p s.next)) (insert_after-Holds l cs p x v [] h)))

-- `PushBack` puts the value behind all others.
pub push_back-Holds :
    (v : Text) (l : LinkedList) (cs : Cells)
    → Holds l cs
    → Holds (push_back v l) (cs ++ (l.fresh, v) ∷ [])
push_back-Holds v l cs h = elim (Cells-cases cs) [
  | inl e ↦ rw e (push_back_empty v l (rw e at h))
  | inr (ds, p, x, e) ↦ rw e (push_back_end v l ds p x (rw e at h))
]
