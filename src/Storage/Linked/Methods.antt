-- ===== src/Storage/Linked/Methods.antt =====
-- internal/storage/list.go: what the methods do to the sequence that a list holds.
use mathlib.Core.Option
use go_redis.Prelude.{
  ℕ, ◌≡◌, inl, inr, refl, ap, sym, ◌∙◌, List, [], ◌∷◌, ◌++◌, Option, none, some, true, false,
  length, arith, drop, get_elem?, Option-cases, append_assoc, append-nil, if◌then◌else◌,
}
use go_redis.Prelude.Eq.{Text, nat_eq, ◌==◌}
use go_redis.Prelude.Int.{ℤ, pos, pos_part}
use go_redis.Storage.Linked.{
  Node, LinkedList, new_list, set_node, push_front, push_back, pop_front, pop_first, pop_back,
  pop_last, get_node_at, get_at, value_found, set_at, set_value,
}
use go_redis.Storage.Linked.Edit.{push_all, clone, to_slice, values_from}
use go_redis.Storage.Linked.Chain.{
  Cells, Holds, Links-append, Links-set_node, set_node_self, first-append, last-append, Below-split,
  Below-append, Apart-append,
}
use go_redis.Storage.Linked.Moves.{Holds-Spot, length-middle}
use go_redis.Storage.Linked.Insertions.{Apart-insert}
use go_redis.Storage.Linked.Ends.{pop_front-Holds, pop_back-Holds, Cells-cases}
use go_redis.Storage.Linked.Pushes.{push_front-Holds, push_back-Holds}
use go_redis.Storage.Linked.Walk.{values, values-append, length-values, to_slice-Holds}
use go_redis.Storage.Linked.Positions.{position, get_node_at-Holds, get_node_at-none}
use go_redis.Storage.Linked.Sequence.{
  IsList, IsList-new_list, head_of, last_of, but_last, elem_at, set_elem, set_elem_at, last_of-snoc,
  but_last-snoc, get_elem-middle, set_elem-middle,
}

pub push_front-IsList :
    (v : Text) (l : LinkedList) (xs : List Text) → IsList l xs → IsList (push_front v l) (v ∷ xs)
push_front-IsList v l xs (cs, h, e) = ((l.fresh, v) ∷ cs, push_front-Holds v l cs h, ap (◌∷◌ v) e)

pub push_back-IsList :
    (v : Text) (l : LinkedList) (xs : List Text)
    → IsList l xs
    → IsList (push_back v l) (xs ++ v ∷ [])
push_back-IsList v l xs (cs, h, e) =
    (cs ++ (l.fresh, v) ∷ [], push_back-Holds v l cs h, rw (values-append, e) refl)

pop_front-empty : (l : LinkedList) → l.head ≡ none → pop_front l ≡ (l, none)
unfolding pop_front pop_first
pop_front-empty l e = ap (λ o. pop_first o l) e

pop_back-empty : (l : LinkedList) → l.tail ≡ none → pop_back l ≡ (l, none)
unfolding pop_back pop_last
pop_back-empty l e = ap (λ o. pop_last o l) e

pub pop_front-IsList :
    (l : LinkedList) (xs : List Text)
    → IsList l xs
    → IsList (pop_front l).0 (drop 1 xs) × ((pop_front l).1 ≡ head_of xs)
unfolding head_of
pop_front-IsList l xs ([], h, e) = rw (pop_front-empty l h.head) (rw⁻¹ e (([], h, refl), refl))
pop_front-IsList l xs ((p, x) ∷ cs, h, e) =
    let k = pop_front-Holds l p x cs h in rw⁻¹ e ((cs, k.0, refl), k.1)

pub pop_back-IsList :
    (l : LinkedList) (xs : List Text)
    → IsList l xs
    → IsList (pop_back l).0 (but_last xs) × ((pop_back l).1 ≡ last_of xs)
unfolding but_last last_of
pop_back-IsList l xs (cs, h, e) = elim (Cells-cases cs) [
  | inl z ↦
      let h' : Holds l [] = rw z at h in
      let e' : [] ≡ xs = rw z at e in rw (pop_back-empty l h'.tail) (rw⁻¹ e' (([], h', refl), refl))
  | inr (ds, p, x, z) ↦
      let k = pop_back-Holds l p x ds (rw z at h) in
      let f : xs ≡ values ds ++ x ∷ [] = sym e ∙ ap values z ∙ values-append ds ((p, x) ∷ []) in
      (
        (ds ++ [], k.0, rw (f, but_last-snoc, append-nil) refl),
        k.1 ∙ sym (ap last_of f ∙ last_of-snoc (values ds) x),
      )
]

get_elem-values :
    (cs ds : Cells) (p : ℕ) (x : Text) (es : Cells)
    → cs ≡ ds ++ (p, x) ∷ es
    → get_elem? (values cs) (length ds) ≡ some x
get_elem-values cs ds p x es e =
    rw (e, values-append ds ((p, x) ∷ es))
      (rw⁻¹ (length-values ds) (get_elem-middle (values ds) x (values es)))

get_at-found :
    (l : LinkedList) (ds : Cells) (p : ℕ) (x : Text) (es : Cells) (index : ℤ)
    → Holds l (ds ++ (p, x) ∷ es)
    → get_node_at index l ≡ some (some p)
    → get_at index l ≡ some (some x)
unfolding get_at value_found
get_at-found l ds p x es index h e =
    ap (value_found l) e ∙ ap (λ y. some (some y)) (Holds-Spot l ds p x es h).value

get_at-none :
    (l : LinkedList) (index : ℤ) → get_node_at index l ≡ some none → get_at index l ≡ some none
unfolding get_at value_found
get_at-none l index e = ap (value_found l) e

pub get_at-IsList :
    (index : ℤ) (l : LinkedList) (xs : List Text)
    → IsList l xs
    → get_at index l ≡ some (elem_at (position (length xs) index) xs)
unfolding elem_at
get_at-IsList index l xs (cs, h, e) = rw⁻¹ e (
    rw (length-values cs) (elim (Option-cases (position (length cs) index)) [
      | inl n ↦ rw n (get_at-none l index (get_node_at-none l (length cs) index h.counted n))
      | inr (i, k) ↦
          let (ds, p, x, es, f, n, g) = get_node_at-Holds l cs index i h k in
          rw k (
            get_at-found l ds p x es index (rw f at h) g
            ∙ ap some (sym (rw n at (get_elem-values cs ds p x es f))))
    ]))

-- An assignment to the value of a node.
set_node-Holds :
    (l : LinkedList) (ds : Cells) (p : ℕ) (x v : Text) (es : Cells)
    → Holds l (ds ++ (p, x) ∷ es)
    → Holds
        (record l { nodes = set_node p (record (l.nodes p) { value = v }) l.nodes })
        (ds ++ (p, v) ∷ es)
set_node-Holds l ds p x v es h =
    let s = Holds-Spot l ds p x es h in
    let n : Node = record (l.nodes p) { value = v } in
    let e = set_node_self p n l.nodes in
    let b = Below-split l.fresh ds ((p, x) ∷ es) h.below in
    record {
      links =
          Links-append (set_node p n l.nodes) none ds ((p, v) ∷ es) none
            (Links-set_node p n l.nodes none ds (some p) s.p_left s.parts.left)
            (
              ap (λ m. m.value) e,
              ap (λ m. m.prev) e ∙ s.prev,
              ap (λ m. m.next) e ∙ s.next,
              Links-set_node p n l.nodes (some p) es none s.p_right s.parts.right,
            );
      head = s.parts.head ∙ sym (first-append ds ((p, v) ∷ es) none);
      tail = s.parts.tail ∙ sym (last-append none ds ((p, v) ∷ es));
      counted = h.counted ∙ ap pos (length-middle ds p x es ∙ sym (length-middle ds p v es));
      below = Below-append l.fresh ds ((p, v) ∷ es) b.0 (b.1.0, b.1.1);
      apart =
          Apart-insert p v ds es s.p_left s.p_right
            (Apart-append ds es s.apart_left s.apart_right s.disjoint);
    }

set_elem-values :
    (cs ds : Cells) (p : ℕ) (x v : Text) (es : Cells)
    → cs ≡ ds ++ (p, x) ∷ es
    → values (ds ++ (p, v) ∷ es) ≡ set_elem (length ds) v (values cs)
set_elem-values cs ds p x v es e =
    values-append ds ((p, v) ∷ es)
    ∙ sym (set_elem-middle (values ds) x v (values es))
    ∙ ap (λ n. set_elem n v (values ds ++ x ∷ values es)) (length-values ds)
    ∙ ap (set_elem (length ds) v) (sym (ap values e ∙ values-append ds ((p, x) ∷ es)))

-- the answer of a method that changes the list, and the sequence afterwards
abbrev pub Answers {ℓ} : {A : Type ℓ} → Option (LinkedList × A) → List Text → A → Type ℓ
Answers o xs a = (l : LinkedList) × (o ≡ some (l, a)) × IsList l xs

set_at-node :
    (index : ℤ) (v : Text) (l : LinkedList) (p : Option ℕ)
    → get_node_at index l ≡ some p
    → set_at index v l ≡ set_value v l (some p)
unfolding set_at
set_at-node index v l p e = ap (set_value v l) e

set_value-none : (v : Text) (l : LinkedList) → set_value v l (some none) ≡ some (l, false)
unfolding set_value
set_value-none v l = refl

set_value-some :
    (v : Text) (l : LinkedList) (p : ℕ)
    → set_value v l (some (some p))
      ≡ some (record l { nodes = set_node p (record (l.nodes p) { value = v }) l.nodes }, true)
unfolding set_value
set_value-some v l p = refl

set_at-Holds :
    (index : ℤ) (v : Text) (l : LinkedList) (cs : Cells) (o : Option ℕ)
    → Holds l cs
    → position (length cs) index ≡ o
    → Answers (set_at index v l) (set_elem_at o v (values cs)).0 (set_elem_at o v (values cs)).1
unfolding set_elem_at
set_at-Holds index v l cs none h n = (
  l,
  set_at-node index v l none (get_node_at-none l (length cs) index h.counted n)
      ∙ set_value-none v l,
  (cs, h, refl),
)
set_at-Holds index v l cs (some i) h k =
    let (ds, p, x, es, f, n, g) = get_node_at-Holds l cs index i h k in
    (
      record l { nodes = set_node p (record (l.nodes p) { value = v }) l.nodes },
      set_at-node index v l (some p) g ∙ set_value-some v l p,
      (
        ds ++ (p, v) ∷ es,
        set_node-Holds l ds p x v es (rw f at h),
        set_elem-values cs ds p x v es f ∙ ap (λ j. set_elem j v (values cs)) n,
      ),
    )

pub set_at-IsList :
    (index : ℤ) (v : Text) (l : LinkedList) (xs : List Text)
    → IsList l xs
    → Answers
        (set_at index v l)
        (set_elem_at (position (length xs) index) v xs).0
        (set_elem_at (position (length xs) index) v xs).1
set_at-IsList index v l xs (cs, h, e) =
    rw⁻¹ e (rw (length-values cs) (set_at-Holds index v l cs (position (length cs) index) h refl))

pub push_all-IsList :
    (vs : List Text) (l : LinkedList) (xs : List Text)
    → IsList l xs
    → IsList (push_all vs l) (xs ++ vs)
unfolding push_all
push_all-IsList [] l xs h = rw append-nil h
push_all-IsList (v ∷ vs) l xs h =
    rw (append_assoc xs (v ∷ []) vs) at
      (push_all-IsList vs (push_back v l) (xs ++ v ∷ []) (push_back-IsList v l xs h))

clone-Holds :
    (l : LinkedList) (cs : Cells) → Holds l cs → clone l ≡ some (push_all (values cs) new_list)
unfolding clone to_slice push_all
clone-Holds l [] h =
    ap
      (λ n.
        if pos_part n == 0
        then some new_list
        else Option.map (λ xs. push_all xs new_list) (values_from (pos_part n) l.nodes l.head))
      h.counted
clone-Holds l ((p, x) ∷ cs) h =
    let b : (pos_part l.length == 0) ≡ false = rw (ap pos_part h.counted) (ground arith) in
    ap (λ c. if c then some new_list else Option.map (λ xs. push_all xs new_list) (to_slice l)) b
    ∙ ap (Option.map (λ xs. push_all xs new_list)) (to_slice-Holds l ((p, x) ∷ cs) h)

-- A clone is another list with the same values.
pub clone-IsList :
    (l : LinkedList) (xs : List Text)
    → IsList l xs
    → (l' : LinkedList) × (clone l ≡ some l') × IsList l' xs
clone-IsList l xs (cs, h, e) = (
  push_all (values cs) new_list,
  clone-Holds l cs h,
  rw e (push_all-IsList xs new_list [] IsList-new_list),
)
