-- ===== src/Storage/Snapshot.antt =====
-- internal/storage: a snapshot that shares its objects with the store, for example the one that a
-- rewrite of the append-only file walks through, while commands go on changing the store.
use go_redis.Prelude.{
  ℕ, suc, inl, inr, ◌%◌, not, nat_beq, length, ◌≤◌, ◌<◌, ◌≡◌, refl, List, [], ◌∷◌, Option, none,
  some, true, Bool-cases, arith,
}
use go_redis.Prelude.Eq.{Text, text_eq}
use go_redis.Prelude.Int.{pos, ◌+ℤ◌}
use go_redis.Prelude.Maps.{lookup, member}
use go_redis.Storage.Store.{Value, Store, is_expired, alloc, is_snapshot_active, get_all_data}
use go_redis.Storage.Strings.{find, find_entry}
use go_redis.Storage.Hashes.{
  h_set, h_del, get_or_create_hash, hash_or_new, new_hash, created_hash, as_hash, get_existing_hash,
  is_hash_type,
}
use go_redis.Storage.Sets.{
  s_add, s_rem, get_or_create_set, set_or_new, new_set, created_set, as_set, get_existing_set,
  is_set_type,
}
use go_redis.Storage.Keeps.{
  Keeps, Keeps-refl, Keeps-trans, Keeps-alloc, Keeps-find, Keeps-set_or_clone, Keeps-add_or_clone,
  Keeps-delete_or_clone, Keeps-drop_or_clone, Keeps-active, Keeps-next, Fresh,
}

-- the entry that `find` answers is there
member-find_entry :
    (now : ℕ) (key : Text) (s : Store) (o : Option Value) (v : Value)
    → lookup key s.entries ≡ o
    → (find_entry now key s o).1 ≡ some v
    → member key (find_entry now key s o).0.entries ≡ true
unfolding find_entry member
member-find_entry now key s none v e h = ground arith
member-find_entry now key s (some w) v e h = elim (Bool-cases (is_expired now w)) [
  | inl x ↦ absurd (ground arith)
  | inr n ↦ rw (n, e) refl
]

-- What an operation gets for a key when it makes what is missing.
Fresh-created_hash :
    (s t : Store) (key : Text) (p : Option ℕ)
    → s.next ≤ t.next
    → member key t.entries ≡ true
    → Fresh s (created_hash p t).0 key (created_hash p t).1
unfolding Fresh created_hash new_hash alloc
Fresh-created_hash s t key none le h = inl le
Fresh-created_hash s t key (some p) le h = inr h

Keeps-created_hash : (s : Store) (p : Option ℕ) → Keeps s (created_hash p s).0
unfolding created_hash new_hash
Keeps-created_hash s none = Keeps-alloc _ s
Keeps-created_hash s (some p) = Keeps-refl s

Keeps-hash_or_new : (s : Store) (o : Option Value) → Keeps s (hash_or_new o s).0
unfolding hash_or_new new_hash
Keeps-hash_or_new s none = Keeps-alloc _ s
Keeps-hash_or_new s (some v) = elim (Bool-cases (is_hash_type v.type)) [
  | inl e ↦ rw e (Keeps-created_hash s (as_hash v.content s))
  | inr n ↦ rw n (Keeps-refl s)
]

Fresh-hash_or_new :
    (s t : Store) (key : Text) (o : Option Value)
    → s.next ≤ t.next
    → ((v : Value) → o ≡ some v → member key t.entries ≡ true)
    → Fresh s (hash_or_new o t).0 key (hash_or_new o t).1
unfolding hash_or_new new_hash Fresh alloc
Fresh-hash_or_new s t key none le h = inl le
Fresh-hash_or_new s t key (some v) le h = elim (Bool-cases (is_hash_type v.type)) [
  | inl e ↦ rw e (Fresh-created_hash s t key (as_hash v.content t) le (h v refl))
  | inr n ↦ rw n tt
]

Fresh-created_set :
    (s t : Store) (key : Text) (p : Option ℕ)
    → s.next ≤ t.next
    → member key t.entries ≡ true
    → Fresh s (created_set p t).0 key (created_set p t).1
unfolding Fresh created_set new_set alloc
Fresh-created_set s t key none le h = inl le
Fresh-created_set s t key (some p) le h = inr h

Keeps-created_set : (s : Store) (p : Option ℕ) → Keeps s (created_set p s).0
unfolding created_set new_set
Keeps-created_set s none = Keeps-alloc _ s
Keeps-created_set s (some p) = Keeps-refl s

Keeps-set_or_new : (s : Store) (o : Option Value) → Keeps s (set_or_new o s).0
unfolding set_or_new new_set
Keeps-set_or_new s none = Keeps-alloc _ s
Keeps-set_or_new s (some v) = elim (Bool-cases (is_set_type v.type)) [
  | inl e ↦ rw e (Keeps-created_set s (as_set v.content s))
  | inr n ↦ rw n (Keeps-refl s)
]

Fresh-set_or_new :
    (s t : Store) (key : Text) (o : Option Value)
    → s.next ≤ t.next
    → ((v : Value) → o ≡ some v → member key t.entries ≡ true)
    → Fresh s (set_or_new o t).0 key (set_or_new o t).1
unfolding set_or_new new_set Fresh alloc
Fresh-set_or_new s t key none le h = inl le
Fresh-set_or_new s t key (some v) le h = elim (Bool-cases (is_set_type v.type)) [
  | inl e ↦ rw e (Fresh-created_set s t key (as_set v.content t) le (h v refl))
  | inr n ↦ rw n tt
]

pub member-find :
    (now : ℕ) (key : Text) (s : Store) (v : Value)
    → (find now key s).1 ≡ some v
    → member key (find now key s).0.entries ≡ true
unfolding find
member-find now key s v = member-find_entry now key s (lookup key s.entries) v refl

Keeps-get_hash : (now : ℕ) (key : Text) (s : Store) → Keeps s (get_or_create_hash now key s).0
unfolding get_or_create_hash
Keeps-get_hash now key s =
    Keeps-trans s _ _ (Keeps-find now key s) (Keeps-hash_or_new (find now key s).0 _)

Keeps-get_set : (now : ℕ) (key : Text) (s : Store) → Keeps s (get_or_create_set now key s).0
unfolding get_or_create_set
Keeps-get_set now key s =
    Keeps-trans s _ _ (Keeps-find now key s) (Keeps-set_or_new (find now key s).0 _)

-- A command that copies what it changes while a snapshot is active.
pub data Change : Type 0 where
  hset : Text → List Text → Change
  hdel : Text → List Text → Change
  sadd : Text → List Text → Change
  srem : Text → List Text → Change

unfoldable pub apply : ℕ → Change → Store → Store
apply now (hset key field_values) s = (h_set now key field_values s).0
apply now (hdel key fields) s = (h_del now key fields s).0
apply now (sadd key ms) s = (s_add now key ms s).0
apply now (srem key ms) s = (s_rem now key ms s).0

-- the commands in their order, each with its clock
unfoldable pub apply_all : List (ℕ × Change) → Store → Store
apply_all [] s = s
apply_all ((now, c) ∷ cs) s = apply_all cs (apply now c s)

Keeps-h_set :
    (now : ℕ) (key : Text) (fvs : List Text) (s : Store)
    → is_snapshot_active s ≡ true
    → Keeps s (h_set now key fvs s).0
unfolding h_set get_or_create_hash
Keeps-h_set now key fvs s on = elim (Bool-cases (not (nat_beq (length fvs % 2) 0))) [
  | inl e ↦ rw (h_set, e) (Keeps-refl s)
  | inr n ↦
      rw (h_set, n)
        (Keeps-set_or_clone key fvs _ s _ on (Keeps-get_hash now key s) (
          Fresh-hash_or_new s _ key _ (Keeps-next s _ (Keeps-find now key s))
            (member-find now key s)))
]

Keeps-apply :
    (now : ℕ) (c : Change) (s : Store) → is_snapshot_active s ≡ true → Keeps s (apply now c s)
unfolding apply h_set h_del s_add s_rem get_or_create_hash get_existing_hash get_or_create_set
    get_existing_set
Keeps-apply now (hset key fvs) s on = Keeps-h_set now key fvs s on
Keeps-apply now (hdel key fields) s on =
    Keeps-delete_or_clone key fields _ s _ on (Keeps-find now key s)
Keeps-apply now (sadd key ms) s on =
    Keeps-add_or_clone key ms _ s _ on (Keeps-get_set now key s)
      (Fresh-set_or_new s _ key _ (Keeps-next s _ (Keeps-find now key s)) (member-find now key s))
Keeps-apply now (srem key ms) s on = Keeps-drop_or_clone key ms _ s _ on (Keeps-find now key s)

Keeps-apply_all :
    (cs : List (ℕ × Change)) (s : Store) → is_snapshot_active s ≡ true → Keeps s (apply_all cs s)
unfolding apply_all
Keeps-apply_all [] s on = Keeps-refl s
Keeps-apply_all ((now, c) ∷ cs) s on =
    Keeps-trans s (apply now c s) _ (Keeps-apply now c s on)
      (Keeps-apply_all cs (apply now c s) (Keeps-active s _ (Keeps-apply now c s on) on))

-- No snapshot was released more often than it was taken.
unfoldable pub IsCounted : Store → Type 0
IsCounted s = (n : ℕ) × (s.snapshot_count ≡ pos n)

pos_suc : (n : ℕ) → pos n +ℤ pos 1 ≡ pos (suc n)
unfolding ◌+ℤ◌
pos_suc n = ground arith

pub active-get_all_data : (s : Store) → IsCounted s → is_snapshot_active (get_all_data s).0 ≡ true
unfolding IsCounted is_snapshot_active get_all_data
active-get_all_data s (n, e) = rw (e, pos_suc n) refl

-- A snapshot stays as it was taken: whatever HSETs, HDELs, SADDs and SREMs follow, every object that
-- was there when it was taken is unchanged, if no snapshot was released more often than taken.
pub apply_all-get_all_data :
    (cs : List (ℕ × Change)) (s : Store) (p : ℕ)
    → IsCounted s
    → p < s.next
    → (apply_all cs (get_all_data s).0).heap p ≡ s.heap p
unfolding Keeps get_all_data
apply_all-get_all_data cs s p c le =
    (Keeps-apply_all cs (get_all_data s).0 (active-get_all_data s c)).2 p le
