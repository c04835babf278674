-- ===== src/Storage/Linked/Positions.antt =====
-- internal/storage/list.go: indexes of either sign, and the node at an index.
use go_redis.Prelude.{
  ℕ, zero, suc, ◌-◌, ◌<◌, ◌≤◌, ◌≡◌, inl, inr, refl, ap, sym, ◌∙◌, ◌∷◌, ◌++◌, Option, none, some,
  length, arith, true, false, Bool-cases, ltb, leb, if◌then◌else◌, length-append,
}
use go_redis.Prelude.Eq.{Text, text_eq, nat_eq, ◌==◌}
use go_redis.Prelude.Int.{ℤ, pos, negsuc, ◌+ℤ◌, pos_part}
use go_redis.Storage.Linked.{LinkedList, node_from_end, node_at, get_node_at, count_back}
use go_redis.Storage.Linked.Chain.{Cells, Holds}
use go_redis.Storage.Linked.Walk.{cell_at, node_from_end-Holds}

-- the index from the front that an index of either sign means
abbrev pub position : ℕ → ℤ → Option ℕ
position n (pos i) = if ltb i n then some i else none
position n (negsuc i) = if ltb i n then some (n - 1 - i) else none

count_back-near : (n i : ℕ) → i < n → count_back (pos n) (negsuc i) ≡ pos (n - 1 - i)
unfolding ◌+ℤ◌
count_back-near n i h = ground arith

count_back-far : (n i : ℕ) → n ≤ i → count_back (pos n) (negsuc i) ≡ negsuc (i - n)
unfolding ◌+ℤ◌
count_back-far n i h = ground arith

node_from_end-out : (i n : ℕ) (l : LinkedList) → n ≤ i → node_from_end i n l ≡ some none
unfolding node_from_end
node_from_end-out i n l h = let e : leb n i ≡ true = ground arith in rw e refl

node_at-count_back :
    (l : LinkedList) (n : ℕ) (index : ℤ)
    → l.length ≡ pos n
    → 0 < n
    → get_node_at index l ≡ node_at (count_back (pos n) index) l
unfolding get_node_at
node_at-count_back l zero index e h = absurd (omega arith)
node_at-count_back l (suc n) index e h =
    let b : (pos_part l.length == 0) ≡ false = rw (ap pos_part e) (ground arith) in
    ap (λ c. if c then some none else node_at (count_back l.length index) l) b
    ∙ ap (λ z. node_at (count_back z index) l) e

node_at-pos :
    (l : LinkedList) (n i : ℕ) → l.length ≡ pos n → node_at (pos i) l ≡ node_from_end i n l
unfolding node_at
node_at-pos l n i e = rw e refl

-- Where the index leads.
pub get_node_at-position :
    (l : LinkedList) (n i : ℕ) (index : ℤ)
    → l.length ≡ pos n
    → position n index ≡ some i
    → get_node_at index l ≡ node_from_end i n l
unfolding ◌+ℤ◌
get_node_at-position l n i (pos j) e h = elim (Bool-cases (ltb j n)) [
  | inl y ↦
      let k : j ≡ i = ground arith in
      node_at-count_back l n (pos j) e (ground arith)
      ∙ node_at-pos l n j e
      ∙ ap (λ m. node_from_end m n l) k
  | inr y ↦ absurd (ground arith)
]
get_node_at-position l n i (negsuc j) e h = elim (Bool-cases (ltb j n)) [
  | inl y ↦
      let k : n - 1 - j ≡ i = ground arith in
      node_at-count_back l n (negsuc j) e (ground arith)
      ∙ ap (λ z. node_at z l) (count_back-near n j (ground arith))
      ∙ node_at-pos l n (n - 1 - j) e
      ∙ ap (λ m. node_from_end m n l) k
  | inr y ↦ absurd (ground arith)
]

get_node_at-empty :
    (l : LinkedList) (index : ℤ) → l.length ≡ pos 0 → get_node_at index l ≡ some none
unfolding get_node_at
get_node_at-empty l index e = rw e refl

node_at-negsuc : (l : LinkedList) (i : ℕ) → node_at (negsuc i) l ≡ some none
unfolding node_at
node_at-negsuc l i = refl

get_node_at-nowhere :
    (l : LinkedList) (n : ℕ) (index : ℤ)
    → l.length ≡ pos (suc n)
    → position (suc n) index ≡ none
    → get_node_at index l ≡ some none
get_node_at-nowhere l n (pos j) e h = elim (Bool-cases (ltb j (suc n))) [
  | inl y ↦ absurd (ground arith)
  | inr y ↦
      node_at-count_back l (suc n) (pos j) e (omega arith)
      ∙ node_at-pos l (suc n) j e
      ∙ node_from_end-out j (suc n) l (ground arith)
]
get_node_at-nowhere l n (negsuc j) e h = elim (Bool-cases (ltb j (suc n))) [
  | inl y ↦ absurd (ground arith)
  | inr y ↦
      node_at-count_back l (suc n) (negsuc j) e (omega arith)
      ∙ ap (λ z. node_at z l) (count_back-far (suc n) j (ground arith))
      ∙ node_at-negsuc l (j - suc n)
]

-- Outside the list there is no node.
pub get_node_at-none :
    (l : LinkedList) (n : ℕ) (index : ℤ)
    → l.length ≡ pos n
    → position n index ≡ none
    → get_node_at index l ≡ some none
get_node_at-none l zero index e h = get_node_at-empty l index e
get_node_at-none l (suc n) index e h = get_node_at-nowhere l n index e h

position-bound : (n i : ℕ) (index : ℤ) → position n index ≡ some i → i < n
position-bound n i (pos j) h = ground arith
position-bound n i (negsuc j) h = ground arith

-- A list whose cell at the index is known.
pub get_node_at-Holds :
    (l : LinkedList) (cs : Cells) (index : ℤ) (i : ℕ)
    → Holds l cs
    → position (length cs) index ≡ some i
    → (ds : Cells) × (p : ℕ) × (x : Text) × (es : Cells) × (cs ≡ ds ++ (p, x) ∷ es)
      × (length ds ≡ i)
      × (get_node_at index l ≡ some (some p))
get_node_at-Holds l cs index i h k =
    let (ds, p, x, es, e, n) = cell_at i cs (position-bound (length cs) i index k) in
    let h' : Holds l (ds ++ (p, x) ∷ es) = rw e at h in
    (
      ds,
      p,
      x,
      es,
      e,
      n,
      get_node_at-position l (length cs) i index h.counted k
          ∙ ap (λ j. node_from_end j (length cs) l) (sym n)
          ∙ ap (λ c. node_from_end (length ds) (length c) l) e
          ∙ node_from_end-Holds l ds p x es h',
    )

pub get_node_at-split :
    (l : LinkedList) (ds : Cells) (q : ℕ) (y : Text) (es : Cells)
    → Holds l (ds ++ (q, y) ∷ es)
    → get_node_at (pos (length ds)) l ≡ some (some q)
get_node_at-split l ds q y es h =
    let n = length-append ds ((q, y) ∷ es) in
    let b : ltb (length ds) (length (ds ++ (q, y) ∷ es)) ≡ true = ground arith in
    get_node_at-position l (length (ds ++ (q, y) ∷ es)) (length ds) (pos (length ds)) h.counted
      (rw b refl)
    ∙ node_from_end-Holds l ds q y es h
