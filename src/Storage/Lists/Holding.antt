-- ===== src/Storage/Lists/Holding.antt =====
-- internal/storage/list_ops.go: a key that holds a list, and how a list gets there.
use mathlib.Core.Option
use go_redis.Prelude.{
  ℕ, ◌<◌, ◌≡◌, ◌⊎◌, inl, inr, refl, ap, sym, ◌∙◌, List, [], ◌∷◌, Option, none, some, false, length,
  arith, Bool-cases,
}
use go_redis.Prelude.Eq.{Text, text_eq, nat_eq, ◌==◌}
use go_redis.Prelude.Int.{pos, pos_part}
use go_redis.Prelude.Maps.{lookup, lookup-insert_self}
use go_redis.Storage.Linked.{LinkedList}
use go_redis.Storage.Linked.Edit.{clone}
use go_redis.Storage.Linked.Walk.{length-values}
use go_redis.Storage.Linked.Sequence.{IsList}
use go_redis.Storage.Linked.Methods.{clone-IsList}
use go_redis.Storage.Store.{
  Result, ok, list_type, ref, list, Value, Store, delete_key, alloc, write, put, is_snapshot_active,
  is_expired,
}
use go_redis.Storage.Strings.{find, find_entry}
use go_redis.Storage.Adding.{write-same, alloc-same, lookup-delete_key, find-missing}
use go_redis.Storage.Lists.{
  list_of, as_list, existing_list, get_existing_list, save_length, save_list, clone_list, own_list,
  on_list, on_values, saved, change_with,
}

-- the value of a key with a list at `p`
abbrev pub list_value : ℕ → Value
list_value p = record { content = ref p; expires_at = none; type = list_type }

-- the object at `p` is a list of these values
abbrev pub ListAt : Store → ℕ → List Text → Type 0
ListAt s p xs = (l : LinkedList) × (s.heap p ≡ list l) × IsList l xs

-- The key is missing, or it holds a list that is not empty and has no time to live.
abbrev pub HasList : Text → Store → List Text → Type 0
HasList key s xs =
    ((lookup key s.entries ≡ none) × (xs ≡ []))
    ⊎ ((p : ℕ) × (lookup key s.entries ≡ some (list_value p)) × (0 < length xs) × ListAt s p xs)

pub find-list :
    (now : ℕ) (key : Text) (s : Store) (p : ℕ)
    → lookup key s.entries ≡ some (list_value p)
    → find now key s ≡ (s, some (list_value p))
unfolding find find_entry is_expired
find-list now key s p e = rw e refl

pub length-IsList : (l : LinkedList) (xs : List Text) → IsList l xs → l.length ≡ pos (length xs)
length-IsList l xs (cs, h, e) = h.counted ∙ ap pos (sym (length-values cs) ∙ ap length e)

pub list_of-heap : (s : Store) (p : ℕ) (l : LinkedList) → s.heap p ≡ list l → list_of (s.heap p) ≡ l
list_of-heap s p l e = ap list_of e

save_length-HasList :
    (key : Text) (p n : ℕ) (s : Store) (xs : List Text)
    → n ≡ length xs
    → ListAt s p xs
    → HasList key (save_length key p n s) xs
unfolding save_length put delete_key
save_length-HasList key p n s [] e h = rw e (inl (lookup-delete_key key s, refl))
save_length-HasList key p n s (x ∷ xs) e h =
    let b : (n == 0) ≡ false = ground arith in
    rw b (inr (p, lookup-insert_self key (list_value p) s.entries, omega arith, h))

-- A list that is saved is what the key holds.
pub save_list-HasList :
    (key : Text) (p : ℕ) (l : LinkedList) (s : Store) (xs : List Text)
    → IsList l xs
    → HasList key (save_list key p (write p (list l) s)) xs
unfolding save_list
save_list-HasList key p l s xs h =
    let e = write-same p (list l) s in
    save_length-HasList key p (pos_part (list_of ((write p (list l) s).heap p)).length)
      (write p (list l) s) xs
      (ap (λ o. pos_part (list_of o).length) e ∙ ap pos_part (length-IsList l xs h)) (l, e, h)

-- An answer that leaves a list at the key.
abbrev pub Gives {ℓ} :
    {A : Type ℓ} → Text → Option (Store × Result A) → Result A → List Text → Type ℓ
Gives key o r xs = (t : Store) × (o ≡ some (t, r)) × HasList key t xs

pub saved-Gives {ℓ} :
    {A : Type ℓ} (key : Text) (p : ℕ) (s : Store) (l : LinkedList) (a : A) (xs : List Text)
    → IsList l xs
    → Gives key (saved key p s (some (l, a))) (ok a) xs
unfolding saved
saved-Gives key p s l a xs h =
    (save_list key p (write p (list l) s), refl, save_list-HasList key p l s xs h)

-- a list to change, and the one that stays at the key
abbrev pub Copied : Text → Store → ℕ → List Text → Option (Store × ℕ) → Type 0
Copied key s p xs o =
    (t : Store) × (q : ℕ) × (o ≡ some (t, q))
    × ListAt t q xs
    × ListAt t p xs
    × (lookup key t.entries ≡ lookup key s.entries)

-- An old list stays where a copy of it is put.
alloc-ListAt :
    (p : ℕ) (s : Store) (l : LinkedList) (xs : List Text)
    → ListAt s p xs
    → IsList l xs
    → ListAt (alloc (list l) s).0 p xs
unfolding alloc
alloc-ListAt p s l xs (m, e, h) k = elim (Bool-cases (p == s.next)) [
  | inl y ↦ rw y (l, refl, k)
  | inr y ↦ rw y (m, e, h)
]

-- A copy of the list.
pub clone_list-Copied :
    (key : Text) (p : ℕ) (s : Store) (xs : List Text)
    → ListAt s p xs
    → Copied key s p xs (clone_list p s)
unfolding clone_list alloc
clone_list-Copied key p s xs (l, e, h) =
    let (l', f, k) = clone-IsList l xs h in
    (
      (alloc (list l') s).0,
      s.next,
      ap (λ o. Option.map (λ m. alloc (list m) s) (clone (list_of o))) e
          ∙ ap (Option.map (λ m. alloc (list m) s)) f,
      (l', alloc-same (list l') s, k),
      alloc-ListAt p s l' xs (l, e, h) k,
      refl,
    )

pub own_list-Copied :
    (key : Text) (p : ℕ) (s : Store) (xs : List Text)
    → ListAt s p xs
    → Copied key s p xs (own_list p s)
unfolding own_list
own_list-Copied key p s xs h = elim (Bool-cases (is_snapshot_active s)) [
  | inl y ↦ rw y (clone_list-Copied key p s xs h)
  | inr y ↦ rw y (s, p, refl, h, h, refl)
]

-- The key's list is found where it is.
pub get_existing_list-some :
    (now : ℕ) (key : Text) (s : Store) (p : ℕ) (xs : List Text)
    → lookup key s.entries ≡ some (list_value p)
    → ListAt s p xs
    → get_existing_list now key s ≡ (s, ok (some p))
unfolding get_existing_list existing_list as_list
get_existing_list-some now key s p xs e (l, f, h) = rw (find-list now key s p e, f) refl

pub get_existing_list-none :
    (now : ℕ) (key : Text) (s : Store)
    → lookup key s.entries ≡ none
    → get_existing_list now key s ≡ (s, ok none)
unfolding get_existing_list existing_list
get_existing_list-none now key s e = rw (find-missing now key s e) refl

-- An operation on an existing list that gives something on a list, and is the answer for a missing
-- one where that has no values.
pub on_list-Gives {ℓ} :
    {A : Type ℓ} (now : ℕ) (key : Text) (missing : Result A)
    (use_list : ℕ → Store → Option (Store × Result A)) (s : Store) (xs ys : List Text)
    (r : Result A)
    → HasList key s xs
    → (xs ≡ [] → (r ≡ missing) × (ys ≡ []))
    → ((p : ℕ)
        → lookup key s.entries ≡ some (list_value p)
        → 0 < length xs
        → ListAt s p xs
        → Gives key (use_list p s) r ys)
    → Gives key (on_list missing use_list (get_existing_list now key s)) r ys
unfolding on_list
on_list-Gives now key missing use_list s xs ys r (inl (e, n)) m k =
    rw (get_existing_list-none now key s e, (m n).0, (m n).1) (s, refl, inl (e, refl))
on_list-Gives now key missing use_list s xs ys r (inr (p, e, lt, h)) m k =
    rw (get_existing_list-some now key s p xs e h) (k p e lt h)

pub on_values-Gives {ℓ} :
    {A : Type ℓ} (key : Text) (missing : Result A)
    (use_list : ℕ → Store → Option (Store × Result A)) (p : ℕ) (s : Store) (xs ys : List Text)
    (r : Result A)
    → 0 < length xs
    → ListAt s p xs
    → Gives key (use_list p s) r ys
    → Gives key (on_values missing use_list p s) r ys
unfolding on_values
on_values-Gives key missing use_list p s xs ys r lt (l, e, h) k =
    let n : pos_part (list_of (s.heap p)).length ≡ length xs =
      ap (λ o. pos_part (list_of o).length) e ∙ ap pos_part (length-IsList l xs h) in
    let b : (pos_part (list_of (s.heap p)).length == 0) ≡ false = rw n (ground arith) in rw b k

-- A change of a list of its own.
pub change_with-Gives {ℓ} :
    {A : Type ℓ} (key : Text) (change : ℕ → Store → Option (Store × Result A)) (p : ℕ) (s : Store)
    (xs ys : List Text) (r : Result A)
    → lookup key s.entries ≡ some (list_value p)
    → 0 < length xs
    → ListAt s p xs
    → ((q : ℕ) (t : Store) (l : LinkedList)
        → t.heap q ≡ list l
        → IsList l xs
        → HasList key t xs
        → Gives key (change q t) r ys)
    → Gives key (change_with change (own_list p s)) r ys
unfolding change_with
change_with-Gives key change p s xs ys r e lt h k =
    let (t, q, f, (l, g, i), j, m) = own_list-Copied key p s xs h in
    rw f (k q t l g i (inr (p, m ∙ e, lt, j)))
