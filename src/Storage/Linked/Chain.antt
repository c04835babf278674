-- ===== src/Storage/Linked/Chain.antt =====
-- internal/storage/list.go: what it means that a linked list holds a sequence, and the assignments
-- from which its methods are made.
use go_redis.Prelude.{
  ℕ, ◌+◌, ◌<◌, ◌≡◌, ◌≢◌, refl, ap, sym, ◌∙◌, List, [], ◌∷◌, ◌++◌, Option, none, some, length, arith,
}
use go_redis.Prelude.Eq.{Text, nat_eq}
use go_redis.Prelude.Int.{pos}
use go_redis.Storage.Linked.{Node, LinkedList, set_node}

-- the nodes of a list in their order, each with its address and its value
abbrev pub Cells : Type 0
Cells = List (ℕ × Text)

abbrev pub first : Cells → Option ℕ → Option ℕ
first [] after = after
first ((p, x) ∷ cs) after = some p

abbrev pub last : Option ℕ → Cells → Option ℕ
last before [] = before
last before ((p, x) ∷ cs) = last (some p) cs

-- The nodes stand between `before` and `after`, each linked to its neighbours.
abbrev pub Links : (ℕ → Node) → Option ℕ → Cells → Option ℕ → Type 0
Links ns before [] after = Unit
Links ns before ((p, x) ∷ cs) after =
    ((ns p).value ≡ x)
    × ((ns p).prev ≡ before)
    × ((ns p).next ≡ first cs after)
    × Links ns (some p) cs after

-- no node at this address
abbrev pub Avoids : ℕ → Cells → Type 0
Avoids p [] = Unit
Avoids p ((q, x) ∷ cs) = (q ≢ p) × Avoids p cs

-- Different nodes stand at different addresses.
abbrev pub Apart : Cells → Type 0
Apart [] = Unit
Apart ((p, x) ∷ cs) = Avoids p cs × Apart cs

abbrev pub Below : ℕ → Cells → Type 0
Below n [] = Unit
Below n ((p, x) ∷ cs) = (p < n) × Below n cs

pub record Holds (l : LinkedList) (cs : Cells) : Type 0 where
  pub links : Links l.nodes none cs none
  pub head : l.head ≡ first cs none
  pub tail : l.tail ≡ last none cs
  pub counted : l.length ≡ pos (length cs)
  pub below : Below l.fresh cs
  pub apart : Apart cs

pub set_node_other : (p q : ℕ) (n : Node) (ns : ℕ → Node) → q ≢ p → set_node p n ns q ≡ ns q
set_node_other p q n ns h = ground arith

pub set_node_self : (p : ℕ) (n : Node) (ns : ℕ → Node) → set_node p n ns p ≡ n
set_node_self p n ns = ground arith

-- An assignment to another node leaves the links.
pub Links-set_node :
    (p : ℕ) (n : Node) (ns : ℕ → Node) (before : Option ℕ) (cs : Cells) (after : Option ℕ)
    → Avoids p cs
    → Links ns before cs after
    → Links (set_node p n ns) before cs after
Links-set_node p n ns before [] after a h = tt
Links-set_node p n ns before ((q, x) ∷ cs) after a h =
    let e = set_node_other p q n ns a.0 in
    (
      ap (λ m. m.value) e ∙ h.0,
      ap (λ m. m.prev) e ∙ h.1,
      ap (λ m. m.next) e ∙ h.2,
      Links-set_node p n ns (some q) cs after a.1 h.3,
    )

pub first-append :
    (cs ds : Cells) (after : Option ℕ) → first (cs ++ ds) after ≡ first cs (first ds after)
first-append [] ds after = refl
first-append ((p, x) ∷ cs) ds after = refl

pub last-append :
    (before : Option ℕ) (cs ds : Cells) → last before (cs ++ ds) ≡ last (last before cs) ds
last-append before [] ds = refl
last-append before ((p, x) ∷ cs) ds = last-append (some p) cs ds

pub Links-append :
    (ns : ℕ → Node) (before : Option ℕ) (cs ds : Cells) (after : Option ℕ)
    → Links ns before cs (first ds after)
    → Links ns (last before cs) ds after
    → Links ns before (cs ++ ds) after
Links-append ns before [] ds after h k = k
Links-append ns before ((p, x) ∷ cs) ds after h k =
    (h.0, h.1, h.2 ∙ sym (first-append cs ds after), Links-append ns (some p) cs ds after h.3 k)

pub Links-left :
    (ns : ℕ → Node) (before : Option ℕ) (cs ds : Cells) (after : Option ℕ)
    → Links ns before (cs ++ ds) after
    → Links ns before cs (first ds after)
Links-left ns before [] ds after h = tt
Links-left ns before ((p, x) ∷ cs) ds after h =
    (h.0, h.1, h.2 ∙ first-append cs ds after, Links-left ns (some p) cs ds after h.3)

pub Links-right :
    (ns : ℕ → Node) (before : Option ℕ) (cs ds : Cells) (after : Option ℕ)
    → Links ns before (cs ++ ds) after
    → Links ns (last before cs) ds after
Links-right ns before [] ds after h = h
Links-right ns before ((p, x) ∷ cs) ds after h = Links-right ns (some p) cs ds after h.3

pub Avoids-append : (p : ℕ) (cs ds : Cells) → Avoids p cs → Avoids p ds → Avoids p (cs ++ ds)
Avoids-append p [] ds h k = k
Avoids-append p ((q, x) ∷ cs) ds h k = (h.0, Avoids-append p cs ds h.1 k)

pub Avoids-left : (p : ℕ) (cs ds : Cells) → Avoids p (cs ++ ds) → Avoids p cs
Avoids-left p [] ds h = tt
Avoids-left p ((q, x) ∷ cs) ds h = (h.0, Avoids-left p cs ds h.1)

pub Avoids-right : (p : ℕ) (cs ds : Cells) → Avoids p (cs ++ ds) → Avoids p ds
Avoids-right p [] ds h = h
Avoids-right p ((q, x) ∷ cs) ds h = Avoids-right p cs ds h.1

-- all addresses of the one are none of the other
abbrev pub Disjoint : Cells → Cells → Type 0
Disjoint [] ds = Unit
Disjoint ((p, x) ∷ cs) ds = Avoids p ds × Disjoint cs ds

pub Apart-append : (cs ds : Cells) → Apart cs → Apart ds → Disjoint cs ds → Apart (cs ++ ds)
Apart-append [] ds h k d = k
Apart-append ((p, x) ∷ cs) ds h k d = (Avoids-append p cs ds h.0 d.0, Apart-append cs ds h.1 k d.1)

pub Apart-split : (cs ds : Cells) → Apart (cs ++ ds) → Apart cs × Apart ds × Disjoint cs ds
Apart-split [] ds h = (tt, h, tt)
Apart-split ((p, x) ∷ cs) ds h =
    let k = Apart-split cs ds h.1 in
    ((Avoids-left p cs ds h.0, k.0), k.1, (Avoids-right p cs ds h.0, k.2))

pub Below-split : (n : ℕ) (cs ds : Cells) → Below n (cs ++ ds) → Below n cs × Below n ds
Below-split n [] ds h = (tt, h)
Below-split n ((p, x) ∷ cs) ds h = let k = Below-split n cs ds h.1 in ((h.0, k.0), k.1)

pub Below-append : (n : ℕ) (cs ds : Cells) → Below n cs → Below n ds → Below n (cs ++ ds)
Below-append n [] ds h k = k
Below-append n ((p, x) ∷ cs) ds h k = (h.0, Below-append n cs ds h.1 k)

pub Below-suc : (n : ℕ) (cs : Cells) → Below n cs → Below (n + 1) cs
Below-suc n [] h = tt
Below-suc n ((p, x) ∷ cs) h = (omega arith, Below-suc n cs h.1)

-- A free address is none of the list's.
pub Avoids-fresh : (n : ℕ) (cs : Cells) → Below n cs → Avoids n cs
Avoids-fresh n [] h = tt
Avoids-fresh n ((p, x) ∷ cs) h = (omega arith, Avoids-fresh n cs h.1)
