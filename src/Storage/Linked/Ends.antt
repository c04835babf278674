-- ===== src/Storage/Linked/Ends.antt =====
-- internal/storage/list.go: the pops at both ends of a list.
use mathlib.Core.Path.{subst}
use go_redis.Prelude.{ℕ, ◌≡◌, ◌⊎◌, inl, inr, refl, ap, sym, ◌∙◌, [], ◌∷◌, ◌++◌, Option, none, some}
use go_redis.Prelude.Eq.{Text, nat_eq}
use go_redis.Storage.Linked.{
  LinkedList, link_next, link_prev, shorter, pop_front, pop_first, new_head, pop_back, pop_last,
  new_tail,
}
use go_redis.Storage.Linked.Edit.{remove_node}
use go_redis.Storage.Linked.Chain.{Cells, first, last, Holds, last-append}
use go_redis.Storage.Linked.Moves.{link_next-node, Holds-Spot, remove_node-Holds}

-- A list of nodes is empty or ends with a node.
pub Cells-cases :
    (cs : Cells) → (cs ≡ []) ⊎ ((ds : Cells) × (p : ℕ) × (x : Text) × (cs ≡ ds ++ (p, x) ∷ []))
Cells-cases [] = inl refl
Cells-cases ((p, x) ∷ cs) = elim (Cells-cases cs) [
  | inl e ↦ inr ([], p, x, ap (◌∷◌ (p, x)) e)
  | inr (ds, q, y, e) ↦ inr ((p, x) ∷ ds, q, y, ap (◌∷◌ (p, x)) e)
]

-- `RemoveNode` by the links it finds in the node.
remove_node-links :
    (l : LinkedList) (p : ℕ) (prev next : Option ℕ)
    → (l.nodes p).prev ≡ prev
    → (l.nodes p).next ≡ next
    → (link_next prev next l).nodes p ≡ l.nodes p
    → remove_node p l ≡ shorter (link_prev next prev (link_next prev next l))
unfolding remove_node
remove_node-links l p prev next h k e =
    rw (h, k, ap (λ m. m.next) e ∙ k, ap (λ m. m.prev) e ∙ h) refl

new_head-links :
    (q : Option ℕ) (l : LinkedList) → new_head q l ≡ link_prev q none (link_next none q l)
unfolding new_head link_prev link_next
new_head-links none l = refl
new_head-links (some q) l = refl

new_tail-links :
    (q : Option ℕ) (l : LinkedList) → new_tail q l ≡ link_prev none q (link_next q none l)
unfolding new_tail link_prev link_next
new_tail-links none l = refl
new_tail-links (some q) l = refl

pop_first-remove_node :
    (l : LinkedList) (p : ℕ) (next : Option ℕ)
    → (l.nodes p).prev ≡ none
    → (l.nodes p).next ≡ next
    → (pop_first (some p) l).0 ≡ remove_node p l
unfolding pop_first
pop_first-remove_node l p next h k =
    ap (λ o. shorter (new_head o l)) k
    ∙ ap shorter (new_head-links next l)
    ∙ sym (remove_node-links l p none next h k (link_next-node l [] next p tt))

pop_last-remove_node :
    (l : LinkedList) (p : ℕ) (prev : Option ℕ)
    → (l.nodes p).next ≡ none
    → (l.nodes p).prev ≡ prev
    → (link_next prev none l).nodes p ≡ l.nodes p
    → (pop_last (some p) l).0 ≡ remove_node p l
unfolding pop_last
pop_last-remove_node l p prev h k e =
    ap (λ o. shorter (new_tail o l)) k
    ∙ ap shorter (new_tail-links prev l)
    ∙ sym (remove_node-links l p prev none k h e)

-- the result of a pop
abbrev pub Popped : Cells → Text → LinkedList × Option Text → Type 0
Popped cs x r = Holds r.0 cs × (r.1 ≡ some x)

pop_first-value :
    (l : LinkedList) (p : ℕ) (x : Text) → (l.nodes p).value ≡ x → (pop_first (some p) l).1 ≡ some x
unfolding pop_first
pop_first-value l p x h = ap some h

pop_last-value :
    (l : LinkedList) (p : ℕ) (x : Text) → (l.nodes p).value ≡ x → (pop_last (some p) l).1 ≡ some x
unfolding pop_last
pop_last-value l p x h = ap some h

-- `PopFront` takes the first value.
pub pop_front-Holds :
    (l : LinkedList) (p : ℕ) (x : Text) (cs : Cells)
    → Holds l ((p, x) ∷ cs)
    → Popped cs x (pop_front l)
unfolding pop_front
pop_front-Holds l p x cs h =
    let s = Holds-Spot l [] p x cs h in
    subst (λ o. Popped cs x (pop_first o l)) (sym h.head)
      (
        subst (λ m. Holds m cs) (sym (pop_first-remove_node l p (first cs none) s.prev s.next))
            (remove_node-Holds l [] p x cs h),
        pop_first-value l p x s.value,
      )

-- `PopBack` takes the last value.
pub pop_back-Holds :
    (l : LinkedList) (p : ℕ) (x : Text) (cs : Cells)
    → Holds l (cs ++ (p, x) ∷ [])
    → Popped (cs ++ []) x (pop_back l)
unfolding pop_back
pop_back-Holds l p x cs h =
    let s = Holds-Spot l cs p x [] h in
    subst (λ o. Popped (cs ++ []) x (pop_last o l))
      (sym (h.tail ∙ last-append none cs ((p, x) ∷ [])))
      (
        subst (λ m. Holds m (cs ++ []))
            (sym (
              pop_last-remove_node l p (last none cs) s.next s.prev
                (link_next-node l cs none p s.p_left)))
            (remove_node-Holds l cs p x [] h),
        pop_last-value l p x s.value,
      )
