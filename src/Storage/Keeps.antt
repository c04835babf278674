-- ===== src/Storage/Keeps.antt =====
-- internal/storage: copy-on-write, which lets a snapshot share hashes and sets with the store. The
-- writes here are the ones that copy what they change while a snapshot is active.
use go_redis.Prelude.{
  ℕ, inl, inr, ◌≤◌, ◌<◌, ◌≡◌, ◌⊎◌, refl, ◌∙◌, List, [], ◌∷◌, Option, none, some, true, Bool-cases,
  arith,
}
use go_redis.Prelude.Eq.{Text, text_eq}
use go_redis.Prelude.Maps.{lookup, member}
use go_redis.Storage.Store.{
  Value, Store, Object, Result, ok, err, delete_key, alloc, write, put, is_snapshot_active,
  is_expired,
}
use go_redis.Storage.Strings.{find, find_entry}
use go_redis.Storage.Hashes.{
  set_or_clone, set_through, Hash, save_fields, save_hash, clone_hash, delete_or_clone,
  delete_through,
}
use go_redis.Storage.Sets.{
  add_or_clone, add_through, Members, save_members, save_set, clone_set, drop_or_clone,
  drop_through,
}

-- Every object of the first store is the same in the second, which has as many snapshots.
unfoldable pub Keeps : Store → Store → Type 0
Keeps s t =
    (s.next ≤ t.next)
    × (t.snapshot_count ≡ s.snapshot_count)
    × ((p : ℕ) → p < s.next → t.heap p ≡ s.heap p)

pub Keeps-refl : (s : Store) → Keeps s s
unfolding Keeps
Keeps-refl s = (omega arith, refl, λ p h. refl)

pub Keeps-trans : (s t u : Store) → Keeps s t → Keeps t u → Keeps s u
unfolding Keeps
Keeps-trans s t u (a, b, c) (a', b', c') = (omega arith, b' ∙ b, λ p h. c' p (omega arith) ∙ c p h)

pub Keeps-delete_key : (key : Text) (s : Store) → Keeps s (delete_key key s)
unfolding Keeps delete_key
Keeps-delete_key key s = (omega arith, refl, λ p h. refl)

pub Keeps-put : (key : Text) (v : Value) (s : Store) → Keeps s (put key v s)
unfolding Keeps put
Keeps-put key v s = (omega arith, refl, λ p h. refl)

pub Keeps-alloc : (o : Object) (s : Store) → Keeps s (alloc o s).0
unfolding Keeps alloc
Keeps-alloc o s = (omega arith, refl, λ p h. ground arith)

-- A write to an object that is newer than `s`.
pub Keeps-write :
    (p : ℕ) (o : Object) (s t : Store) → s.next ≤ p → Keeps s t → Keeps s (write p o t)
unfolding Keeps write
Keeps-write p o s t le (a, b, c) = (a, b, λ q h. ground (arith, c q h))

pub Keeps-find_entry :
    (now : ℕ) (key : Text) (s : Store) (o : Option Value) → Keeps s (find_entry now key s o).0
unfolding find_entry
Keeps-find_entry now key s none = Keeps-refl s
Keeps-find_entry now key s (some v) = elim (Bool-cases (is_expired now v)) [
  | inl e ↦ rw e (Keeps-delete_key key s)
  | inr n ↦ rw n (Keeps-refl s)
]

pub Keeps-save_fields :
    (key : Text) (p : ℕ) (s : Store) (h : Hash) → Keeps s (save_fields key p s h)
unfolding save_fields
Keeps-save_fields key p s [] = Keeps-delete_key key s
Keeps-save_fields key p s (f ∷ fs) = Keeps-put key _ s

pub Keeps-save_members :
    (key : Text) (p : ℕ) (s : Store) (m : Members) → Keeps s (save_members key p s m)
unfolding save_members
Keeps-save_members key p s [] = Keeps-delete_key key s
Keeps-save_members key p s (m ∷ ms) = Keeps-put key _ s

-- A change through a pointer to an object that is newer than `s`.
pub Keeps-set_through :
    (key : Text) (fvs : List Text) (p : ℕ) (s t : Store)
    → s.next ≤ p
    → Keeps s t
    → Keeps s (set_through key fvs p t).0
unfolding set_through save_hash
Keeps-set_through key fvs p s t le k =
    Keeps-trans s _ _ (Keeps-write p _ s t le k) (Keeps-save_fields key p _ _)

pub Keeps-delete_through :
    (key : Text) (fields : List Text) (p : ℕ) (s t : Store)
    → s.next ≤ p
    → Keeps s t
    → Keeps s (delete_through key fields p t).0
unfolding delete_through save_hash
Keeps-delete_through key fields p s t le k =
    Keeps-trans s _ _ (Keeps-write p _ s t le k) (Keeps-save_fields key p _ _)

pub Keeps-add_through :
    (key : Text) (ms : List Text) (p : ℕ) (s t : Store)
    → s.next ≤ p
    → Keeps s t
    → Keeps s (add_through key ms p t).0
unfolding add_through save_set
Keeps-add_through key ms p s t le k =
    Keeps-trans s _ _ (Keeps-write p _ s t le k) (Keeps-save_members key p _ _)

pub Keeps-drop_through :
    (key : Text) (ms : List Text) (p : ℕ) (s t : Store)
    → s.next ≤ p
    → Keeps s t
    → Keeps s (drop_through key ms p t).0
unfolding drop_through save_set
Keeps-drop_through key ms p s t le k =
    Keeps-trans s _ _ (Keeps-write p _ s t le k) (Keeps-save_members key p _ _)

pub Keeps-active :
    (s t : Store) → Keeps s t → is_snapshot_active s ≡ true → is_snapshot_active t ≡ true
unfolding Keeps is_snapshot_active
Keeps-active s t (a, b, c) h = rw b h

pub Keeps-next : (s t : Store) → Keeps s t → s.next ≤ t.next
unfolding Keeps
Keeps-next s t (a, b, c) = a

-- The pointer that an operation got for the key is newer than `s`, or the key is there to be found.
unfoldable pub Fresh : Store → Store → Text → Option ℕ → Type 0
Fresh s t key none = Unit
Fresh s t key (some p) = (s.next ≤ p) ⊎ (member key t.entries ≡ true)

pub Keeps-set_or_clone :
    (key : Text) (fvs : List Text) (p : Option ℕ) (s t : Store)
    → is_snapshot_active s ≡ true
    → Keeps s t
    → Fresh s t key p
    → Keeps s (set_or_clone key fvs p t).0
unfolding set_or_clone Fresh clone_hash set_through alloc
Keeps-set_or_clone key fvs none s t on k f = k
Keeps-set_or_clone key fvs (some p) s t on k f = elim (Bool-cases (member key t.entries)) [
  | inl e ↦
      rw (Keeps-active s t k on, e)
        (Keeps-set_through key fvs t.next s _ (Keeps-next s t k)
          (Keeps-trans s t _ k (Keeps-alloc _ t)))
  | inr n ↦ rw (Keeps-active s t k on, n) (Keeps-set_through key fvs p s t (ground (arith, f)) k)
]

pub Keeps-add_or_clone :
    (key : Text) (ms : List Text) (p : Option ℕ) (s t : Store)
    → is_snapshot_active s ≡ true
    → Keeps s t
    → Fresh s t key p
    → Keeps s (add_or_clone key ms p t).0
unfolding add_or_clone Fresh clone_set add_through alloc
Keeps-add_or_clone key ms none s t on k f = k
Keeps-add_or_clone key ms (some p) s t on k f = elim (Bool-cases (member key t.entries)) [
  | inl e ↦
      rw (Keeps-active s t k on, e)
        (Keeps-add_through key ms t.next s _ (Keeps-next s t k)
          (Keeps-trans s t _ k (Keeps-alloc _ t)))
  | inr n ↦ rw (Keeps-active s t k on, n) (Keeps-add_through key ms p s t (ground (arith, f)) k)
]

pub Keeps-delete_or_clone :
    (key : Text) (fields : List Text) (r : Result (Option ℕ)) (s t : Store)
    → is_snapshot_active s ≡ true
    → Keeps s t
    → Keeps s (delete_or_clone key fields r t).0
unfolding delete_or_clone clone_hash delete_through alloc
Keeps-delete_or_clone key fields (err e) s t on k = k
Keeps-delete_or_clone key fields (ok none) s t on k = k
Keeps-delete_or_clone key fields (ok (some p)) s t on k = rw (Keeps-active s t k on) (
    Keeps-delete_through key fields t.next s _ (Keeps-next s t k)
      (Keeps-trans s t _ k (Keeps-alloc _ t)))

pub Keeps-drop_or_clone :
    (key : Text) (ms : List Text) (p : Option ℕ) (s t : Store)
    → is_snapshot_active s ≡ true
    → Keeps s t
    → Keeps s (drop_or_clone key ms p t).0
unfolding drop_or_clone clone_set drop_through alloc
Keeps-drop_or_clone key ms none s t on k = k
Keeps-drop_or_clone key ms (some p) s t on k = rw (Keeps-active s t k on) (
    Keeps-drop_through key ms t.next s _ (Keeps-next s t k) (Keeps-trans s t _ k (Keeps-alloc _ t)))

pub Keeps-find : (now : ℕ) (key : Text) (s : Store) → Keeps s (find now key s).0
unfolding find
Keeps-find now key s = Keeps-find_entry now key s (lookup key s.entries)
