-- ===== src/Storage/Linked/Insertions.antt =====
-- internal/storage/list.go: `InsertBefore` and `InsertAfter`.
use go_redis.Prelude.{
  ℕ, ◌+◌, ◌<◌, ◌≡◌, ◌≢◌, ap, sym, ◌∙◌, [], ◌∷◌, ◌++◌, Option, none, some, length, arith,
  append_assoc,
}
use go_redis.Prelude.Eq.{Text}
use go_redis.Prelude.Int.{pos, ◌+ℤ◌}
use go_redis.Storage.Linked.{Node, LinkedList, new_node, link_next, link_prev, longer}
use go_redis.Storage.Linked.Edit.{insert_before, insert_after}
use go_redis.Storage.Linked.Chain.{
  Cells, first, last, Avoids, Apart, Below, Holds, set_node_self, set_node_other, Links-set_node,
  first-append, last-append, Links-left, Links-right, Apart-split, Below-suc, Avoids-fresh,
  Avoids-left, Avoids-right,
}
use go_redis.Storage.Linked.Splice.{Parts, link_next-Parts, link_prev-Parts}
use go_redis.Storage.Linked.Moves.{
  Disjoint-sym, Holds-Spot, Parts-Holds, link_next-node, link_prev-node, link_next-rest,
  link_prev-rest, length-middle, next_pos,
}

-- A new node leaves the parts of the list.
new_node-Parts :
    (l : LinkedList) (n : Node) (cs : Cells) (q r : Option ℕ) (ds : Cells)
    → Avoids l.fresh cs
    → Avoids l.fresh ds
    → Parts l cs q r ds
    → Parts (new_node n l) cs q r ds
new_node-Parts l n cs q r ds a b h = record {
  left = Links-set_node l.fresh n l.nodes none cs q a h.left;
  head = h.head;
  right = Links-set_node l.fresh n l.nodes r ds none b h.right;
  tail = h.tail;
}

-- The two parts meet at a node between them.
Parts-insert :
    (l : LinkedList) (cs : Cells) (q : ℕ) (v : Text) (ds : Cells)
    → Parts l cs (some q) (some q) ds
    → (l.nodes q).value ≡ v
    → (l.nodes q).prev ≡ last none cs
    → (l.nodes q).next ≡ first ds none
    → Parts l cs (some q) (last none cs) ((q, v) ∷ ds)
Parts-insert l cs q v ds h e f g = record {
  left = h.left;
  head = h.head;
  right = (e, f, g, h.right);
  tail = h.tail;
}

Avoids-insert :
    (p q : ℕ) (v : Text) (cs ds : Cells)
    → q ≢ p
    → Avoids p (cs ++ ds)
    → Avoids p (cs ++ (q, v) ∷ ds)
Avoids-insert p q v [] ds h k = (h, k)
Avoids-insert p q v ((r, x) ∷ cs) ds h k = (k.0, Avoids-insert p q v cs ds h k.1)

pub Apart-insert :
    (q : ℕ) (v : Text) (cs ds : Cells)
    → Avoids q cs
    → Avoids q ds
    → Apart (cs ++ ds)
    → Apart (cs ++ (q, v) ∷ ds)
Apart-insert q v [] ds a b h = (b, h)
Apart-insert q v ((p, x) ∷ cs) ds a b h =
    (Avoids-insert p q v cs ds (λ e. a.0 (sym e)) h.0, Apart-insert q v cs ds a.1 b h.1)

pub Below-insert :
    (n q : ℕ) (v : Text) (cs ds : Cells) → q < n → Below n (cs ++ ds) → Below n (cs ++ (q, v) ∷ ds)
Below-insert n q v [] ds h k = (h, k)
Below-insert n q v ((p, x) ∷ cs) ds h k = (k.0, Below-insert n q v cs ds h k.1)

-- The end of both insertions.
insert-Holds :
    (l l3 : LinkedList) (cs : Cells) (v : Text) (ds : Cells)
    → Parts l3 cs (some l.fresh) (some l.fresh) ds
    → l3.nodes l.fresh ≡ record { value = v; prev = last none cs; next = first ds none }
    → l3.length ≡ l.length
    → l3.fresh ≡ l.fresh + 1
    → Holds l (cs ++ ds)
    → Holds (longer l3) (cs ++ (l.fresh, v) ∷ ds)
insert-Holds l l3 cs v ds k e n f h =
    let m =
      Parts-insert l3 cs l.fresh v ds k (ap (λ m. m.value) e) (ap (λ m. m.prev) e)
        (ap (λ m. m.next) e) in
    let a = Avoids-fresh l.fresh (cs ++ ds) h.below in
    Parts-Holds (longer l3) cs ((l.fresh, v) ∷ ds)
      (record { left = m.left; head = m.head; right = m.right; tail = m.tail })
      (ap (λ z. z +ℤ pos 1) (n ∙ h.counted)
        ∙ next_pos (length (cs ++ ds))
        ∙ ap pos (sym (length-middle cs l.fresh v ds)))
      (rw f (
        Below-insert (l.fresh + 1) l.fresh v cs ds (omega arith)
          (Below-suc l.fresh (cs ++ ds) h.below)))
      (Apart-insert l.fresh v cs ds (Avoids-left l.fresh cs ds a) (Avoids-right l.fresh cs ds a)
        h.apart)

whole-Parts :
    (l : LinkedList) (cs ds : Cells)
    → Holds l (cs ++ ds)
    → Parts l cs (first ds none) (last none cs) ds
whole-Parts l cs ds h = record {
  left = Links-left l.nodes none cs ds none h.links;
  head = h.head ∙ first-append cs ds none;
  right = Links-right l.nodes none cs ds none h.links;
  tail = h.tail ∙ last-append none cs ds;
}

-- `InsertBefore` puts the value before the node.
pub insert_before-Holds :
    (l : LinkedList) (cs : Cells) (p : ℕ) (x v : Text) (ds : Cells)
    → Holds l (cs ++ (p, x) ∷ ds)
    → Holds (insert_before p v l) (cs ++ (l.fresh, v) ∷ (p, x) ∷ ds)
unfolding insert_before link_prev
insert_before-Holds l cs p x v ds h =
    let q = l.fresh in
    let es : Cells = (p, x) ∷ ds in
    let s = Holds-Spot l cs p x ds h in
    let n : Node = record { value = v; prev = last none cs; next = some p } in
    let a = Avoids-fresh q (cs ++ es) h.below in
    let a1 = Avoids-left q cs es a in
    let a2 = Avoids-right q cs es a in
    let w = Apart-split cs es h.apart in
    let l1 = new_node n l in
    let l2 = link_next (last none cs) (some q) l1 in
    let k1 = new_node-Parts l n cs (some p) (last none cs) es a1 a2 (whole-Parts l cs es h) in
    let k2 = link_next-Parts l1 cs (some p) (some q) (last none cs) es w.0 w.2 k1 in
    let k3 =
      link_prev-Parts l2 cs (some q) (last none cs) (some q) es w.1 (Disjoint-sym cs es w.2) k2 in
    let m = link_next-rest l1 (last none cs) (some q) in
    rw s.prev (
      insert-Holds l (link_prev (some p) (some q) l2) cs v es k3
        (link_prev-node l2 es (some q) q a2
          ∙ link_next-node l1 cs (some q) q a1
          ∙ set_node_self q n l.nodes)
        m.0 m.1 h)

abbrev node_after : Text → Option ℕ → Option ℕ → Node
node_after v next before = record { value = v; prev = before; next = next }

-- `InsertAfter` puts the value behind the node.
pub insert_after-Holds :
    (l : LinkedList) (cs : Cells) (p : ℕ) (x v : Text) (ds : Cells)
    → Holds l (cs ++ (p, x) ∷ ds)
    → Holds (insert_after p v l) (cs ++ (p, x) ∷ (l.fresh, v) ∷ ds)
unfolding insert_after link_next
insert_after-Holds l cs p x v ds h =
    let q = l.fresh in
    let es : Cells = cs ++ (p, x) ∷ [] in
    let s = Holds-Spot l cs p x ds h in
    let h' : Holds l (es ++ ds) = rw (append_assoc cs ((p, x) ∷ []) ds) h in
    let z : last none es ≡ some p = last-append none cs ((p, x) ∷ []) in
    let n : Node = record { value = v; prev = some p; next = first ds none } in
    let a = Avoids-fresh q (es ++ ds) h'.below in
    let a1 = Avoids-left q es ds a in
    let a2 = Avoids-right q es ds a in
    let w = Apart-split es ds h'.apart in
    let l1 = new_node n l in
    let l2 = link_prev (first ds none) (some q) l1 in
    let k1 =
      new_node-Parts l n es (first ds none) (last none es) ds a1 a2 (whole-Parts l es ds h') in
    let k2 =
      link_prev-Parts l1 es (first ds none) (last none es) (some q) ds w.1 (Disjoint-sym es ds w.2)
        k1 in
    let k3 = link_next-Parts l2 es (first ds none) (some q) (some q) ds w.0 w.2 k2 in
    let m = link_prev-rest l1 (first ds none) (some q) in
    let l3' = link_next (some p) (some q) l2 in
    let k3' : Parts l3' es (some q) (some q) ds = rw z at k3 in
    let b = Avoids-right q cs ((p, x) ∷ []) a1 in
    let e =
      set_node_other p q (record (l2.nodes p) { next = some q }) l2.nodes (λ c. b.0 (sym c))
      ∙ link_prev-node l1 ds (some q) q a2
      ∙ set_node_self q n l.nodes
      ∙ ap (node_after v (first ds none)) (sym z) in
    rw s.next (
      rw (append_assoc cs ((p, x) ∷ []) ((q, v) ∷ ds)) at
        (insert-Holds l l3' es v ds k3' e m.0 m.1 h'))
