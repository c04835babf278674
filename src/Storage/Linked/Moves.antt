-- ===== src/Storage/Linked/Moves.antt =====
-- internal/storage/list.go: one node of a list with its neighbours, and `RemoveNode`.
use go_redis.Prelude.{
  ℕ, suc, ◌≡◌, refl, ap, sym, ◌∙◌, [], ◌∷◌, ◌++◌, Option, none, some, length, arith, length-append,
}
use go_redis.Prelude.Eq.{Text}
use go_redis.Prelude.Int.{pos, negsuc, ◌+ℤ◌}
use go_redis.Storage.Linked.{LinkedList, link_next, link_prev, shorter}
use go_redis.Storage.Linked.Edit.{remove_node}
use go_redis.Storage.Linked.Chain.{
  Cells, first, last, Avoids, Apart, Below, Disjoint, Holds, set_node_other, first-append,
  last-append, Links-append, Links-left, Links-right, Apart-append, Apart-split, Below-split,
  Below-append,
}
use go_redis.Storage.Linked.Splice.{
  Parts, final, last-final, link_next-Parts, link_prev-Parts, final-ne,
}

Disjoint-uncons :
    (q : ℕ) (y : Text) (cs ds : Cells) → Disjoint cs ((q, y) ∷ ds) → Avoids q cs × Disjoint cs ds
Disjoint-uncons q y [] ds h = (tt, tt)
Disjoint-uncons q y ((p, x) ∷ cs) ds h =
    let k = Disjoint-uncons q y cs ds h.1 in ((λ e. h.0.0 (sym e), k.0), (h.0.1, k.1))

pub Disjoint-sym : (cs ds : Cells) → Disjoint cs ds → Disjoint ds cs
Disjoint-sym cs [] h = tt
Disjoint-sym cs ((q, y) ∷ ds) h =
    let k = Disjoint-uncons q y cs ds h in (k.0, Disjoint-sym cs ds k.1)

-- the surroundings of one node of a list
pub record Spot (l : LinkedList) (cs : Cells) (p : ℕ) (x : Text) (ds : Cells) : Type 0 where
  pub value : (l.nodes p).value ≡ x
  pub prev : (l.nodes p).prev ≡ last none cs
  pub next : (l.nodes p).next ≡ first ds none
  pub parts : Parts l cs (some p) (some p) ds
  pub apart_left : Apart cs
  pub apart_right : Apart ds
  pub p_left : Avoids p cs
  pub p_right : Avoids p ds
  pub disjoint : Disjoint cs ds

pub Holds-Spot :
    (l : LinkedList) (cs : Cells) (p : ℕ) (x : Text) (ds : Cells)
    → Holds l (cs ++ (p, x) ∷ ds)
    → Spot l cs p x ds
Holds-Spot l cs p x ds h =
    let r = Links-right l.nodes none cs ((p, x) ∷ ds) none h.links in
    let a = Apart-split cs ((p, x) ∷ ds) h.apart in
    let d = Disjoint-uncons p x cs ds a.2 in
    record {
      value = r.0;
      prev = r.1;
      next = r.2;
      parts = record {
        left = Links-left l.nodes none cs ((p, x) ∷ ds) none h.links;
        head = h.head ∙ first-append cs ((p, x) ∷ ds) none;
        right = r.3;
        tail = h.tail ∙ last-append none cs ((p, x) ∷ ds);
      };
      apart_left = a.0;
      apart_right = a.1.1;
      p_left = d.0;
      p_right = a.1.0;
      disjoint = d.1;
    }

-- The two parts meet.
pub Parts-Holds :
    (l : LinkedList) (cs ds : Cells)
    → Parts l cs (first ds none) (last none cs) ds
    → l.length ≡ pos (length (cs ++ ds))
    → Below l.fresh (cs ++ ds)
    → Apart (cs ++ ds)
    → Holds l (cs ++ ds)
Parts-Holds l cs ds h n b a = record {
  links = Links-append l.nodes none cs ds none h.left h.right;
  head = h.head ∙ sym (first-append cs ds none);
  tail = h.tail ∙ sym (last-append none cs ds);
  counted = n;
  below = b;
  apart = a;
}

-- The assignments to the neighbours leave the other nodes, the length and the free address.
pub link_next-node :
    (l : LinkedList) (cs : Cells) (q : Option ℕ) (p : ℕ)
    → Avoids p cs
    → (link_next (last none cs) q l).nodes p ≡ l.nodes p
unfolding link_next
link_next-node l [] q p h = refl
link_next-node l ((r, x) ∷ cs) q p h =
    rw (last-final none r x cs)
      (set_node_other (final r cs) p _ l.nodes (λ e. final-ne p r cs h.0 h.1 (sym e)))

pub link_prev-node :
    (l : LinkedList) (ds : Cells) (q : Option ℕ) (p : ℕ)
    → Avoids p ds
    → (link_prev (first ds none) q l).nodes p ≡ l.nodes p
unfolding link_prev
link_prev-node l [] q p h = refl
link_prev-node l ((r, x) ∷ ds) q p h = set_node_other r p _ l.nodes (λ e. h.0 (sym e))

pub link_next-rest :
    (l : LinkedList) (p q : Option ℕ)
    → ((link_next p q l).length ≡ l.length) × ((link_next p q l).fresh ≡ l.fresh)
unfolding link_next
link_next-rest l none q = (refl, refl)
link_next-rest l (some p) q = (refl, refl)

pub link_prev-rest :
    (l : LinkedList) (p q : Option ℕ)
    → ((link_prev p q l).length ≡ l.length) × ((link_prev p q l).fresh ≡ l.fresh)
unfolding link_prev
link_prev-rest l none q = (refl, refl)
link_prev-rest l (some p) q = (refl, refl)

pred_pos : (n : ℕ) → pos (suc n) +ℤ negsuc 0 ≡ pos n
unfolding ◌+ℤ◌
pred_pos n = ground arith

pub length-middle :
    (cs : Cells) (p : ℕ) (x : Text) (ds : Cells)
    → length (cs ++ (p, x) ∷ ds) ≡ suc (length (cs ++ ds))
length-middle cs p x ds = omega (arith, length-append cs ((p, x) ∷ ds), length-append cs ds)

pub Below-without :
    (n : ℕ) (cs : Cells) (p : ℕ) (x : Text) (ds : Cells)
    → Below n (cs ++ (p, x) ∷ ds)
    → Below n (cs ++ ds)
Below-without n cs p x ds h =
    let k = Below-split n cs ((p, x) ∷ ds) h in Below-append n cs ds k.0 k.1.1

-- `RemoveNode` takes the node out of the sequence.
pub remove_node-Holds :
    (l : LinkedList) (cs : Cells) (p : ℕ) (x : Text) (ds : Cells)
    → Holds l (cs ++ (p, x) ∷ ds)
    → Holds (remove_node p l) (cs ++ ds)
unfolding remove_node
remove_node-Holds l cs p x ds h =
    let s = Holds-Spot l cs p x ds h in
    let l1 = link_next (last none cs) (first ds none) l in
    let l2 = link_prev (first ds none) (last none cs) l1 in
    let e = link_next-node l cs (first ds none) p s.p_left in
    let k1 =
      link_next-Parts l cs (some p) (first ds none) (some p) ds s.apart_left s.disjoint s.parts in
    let k2 =
      link_prev-Parts l1 cs (first ds none) (some p) (last none cs) ds s.apart_right
        (Disjoint-sym cs ds s.disjoint) k1 in
    let n = link_prev-rest l1 (first ds none) (last none cs) in
    let m = link_next-rest l (last none cs) (first ds none) in
    rw (s.prev, s.next, ap (λ m. m.next) e ∙ s.next, ap (λ m. m.prev) e ∙ s.prev)
      (Parts-Holds (shorter l2) cs ds
        (record { left = k2.left; head = k2.head; right = k2.right; tail = k2.tail })
        (ap (λ z. z +ℤ negsuc 0) (n.0 ∙ m.0 ∙ h.counted ∙ ap pos (length-middle cs p x ds))
          ∙ pred_pos (length (cs ++ ds)))
        (rw (n.1 ∙ m.1) (Below-without l.fresh cs p x ds h.below))
        (Apart-append cs ds s.apart_left s.apart_right s.disjoint))

pub next_pos : (n : ℕ) → pos n +ℤ pos 1 ≡ pos (suc n)
unfolding ◌+ℤ◌
next_pos n = ground arith
