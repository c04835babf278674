-- ===== src/Storage/Linked/Splice.antt =====
-- internal/storage/list.go: a list that is cut into two parts, and the assignments that join them.
use go_redis.Prelude.{ℕ, ◌≡◌, ◌≢◌, refl, ap, sym, ◌∙◌, [], ◌∷◌, Option, none, some}
use go_redis.Prelude.Eq.{Text}
use go_redis.Storage.Linked.{Node, LinkedList, set_next, set_prev, link_next, link_prev}
use go_redis.Storage.Linked.Chain.{
  Cells, first, last, Links, Avoids, Apart, Disjoint, set_node_self, set_node_other, Links-set_node,
}

-- the address of the last of the nodes after the one at `p`
abbrev pub final : ℕ → Cells → ℕ
final p [] = p
final p ((q, x) ∷ cs) = final q cs

pub last-final :
    (before : Option ℕ) (p : ℕ) (x : Text) (cs : Cells)
    → last before ((p, x) ∷ cs) ≡ some (final p cs)
last-final before p x [] = refl
last-final before p x ((q, y) ∷ cs) = last-final (some p) q y cs

pub final-ne : (p q : ℕ) (cs : Cells) → q ≢ p → Avoids p cs → final q cs ≢ p
final-ne p q [] h k = h
final-ne p q ((r, x) ∷ cs) h k = final-ne p r cs k.0 k.1

Avoids-final : (p : ℕ) (cs ds : Cells) → Avoids p ds → Disjoint cs ds → Avoids (final p cs) ds
Avoids-final p [] ds h k = h
Avoids-final p ((q, x) ∷ cs) ds h k = Avoids-final q cs ds k.0 k.1

-- The last node is linked to another successor.
pub Links-set_next :
    (ns : ℕ → Node) (before after q : Option ℕ) (p : ℕ) (x : Text) (cs : Cells)
    → Apart ((p, x) ∷ cs)
    → Links ns before ((p, x) ∷ cs) after
    → Links (set_next (final p cs) q ns) before ((p, x) ∷ cs) q
Links-set_next ns before after q p x [] a h =
    let e = set_node_self p (record (ns p) { next = q }) ns in
    (ap (λ m. m.value) e ∙ h.0, ap (λ m. m.prev) e ∙ h.1, ap (λ m. m.next) e, tt)
Links-set_next ns before after q p x ((r, y) ∷ cs) a h =
    let z = final r cs in
    let e =
      set_node_other z p (record (ns z) { next = q }) ns
        (λ w. final-ne p r cs a.0.0 a.0.1 (sym w)) in
    (
      ap (λ m. m.value) e ∙ h.0,
      ap (λ m. m.prev) e ∙ h.1,
      ap (λ m. m.next) e ∙ h.2,
      Links-set_next ns (some p) after q r y cs a.1 h.3,
    )

-- The first node is linked to another predecessor.
pub Links-set_prev :
    (ns : ℕ → Node) (before after q : Option ℕ) (p : ℕ) (x : Text) (cs : Cells)
    → Apart ((p, x) ∷ cs)
    → Links ns before ((p, x) ∷ cs) after
    → Links (set_prev p q ns) q ((p, x) ∷ cs) after
Links-set_prev ns before after q p x cs a h =
    let e = set_node_self p (record (ns p) { prev = q }) ns in
    (
      ap (λ m. m.value) e ∙ h.0,
      ap (λ m. m.prev) e,
      ap (λ m. m.next) e ∙ h.2,
      Links-set_node p (record (ns p) { prev = q }) ns (some p) cs after a.0 h.3,
    )

-- The front part `cs` ends before `q`, and the back part `ds` begins after `r`.
pub record Parts (l : LinkedList) (cs : Cells) (q r : Option ℕ) (ds : Cells) : Type 0 where
  pub left : Links l.nodes none cs q
  pub head : l.head ≡ first cs q
  pub right : Links l.nodes r ds none
  pub tail : l.tail ≡ last r ds

pub link_next-Parts :
    (l : LinkedList) (cs : Cells) (q q' r : Option ℕ) (ds : Cells)
    → Apart cs
    → Disjoint cs ds
    → Parts l cs q r ds
    → Parts (link_next (last none cs) q' l) cs q' r ds
unfolding link_next
link_next-Parts l [] q q' r ds a d h = record {
  left = tt;
  head = refl;
  right = h.right;
  tail = h.tail;
}
link_next-Parts l ((p, x) ∷ cs) q q' r ds a d h = rw (last-final none p x cs) (record {
  left = Links-set_next l.nodes none q q' p x cs a h.left;
  head = h.head;
  right = Links-set_node (final p cs) _ l.nodes r ds none (Avoids-final p cs ds d.0 d.1) h.right;
  tail = h.tail;
})

pub link_prev-Parts :
    (l : LinkedList) (cs : Cells) (q r r' : Option ℕ) (ds : Cells)
    → Apart ds
    → Disjoint ds cs
    → Parts l cs q r ds
    → Parts (link_prev (first ds none) r' l) cs q r' ds
unfolding link_prev
link_prev-Parts l cs q r r' [] a d h = record {
  left = h.left;
  head = h.head;
  right = tt;
  tail = refl;
}
link_prev-Parts l cs q r r' ((p, x) ∷ ds) a d h = record {
  left = Links-set_node p _ l.nodes none cs q d.0 h.left;
  head = h.head;
  right = Links-set_prev l.nodes r none r' p x ds a h.right;
  tail = h.tail;
}
