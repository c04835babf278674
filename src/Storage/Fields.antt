-- ===== src/Storage/Fields.antt =====
-- internal/storage/hash_ops.go: what HGET answers after HSET.
use go_redis.Prelude.{
  ℕ, inl, inr, ◌%◌, ◌≡◌, refl, ap, sym, ◌∙◌, List, [], ◌∷◌, Option, none, some, ◌&&◌, length,
  if◌then◌else◌, Bool-cases, arith,
}
use go_redis.Prelude.Eq.{Text, text_eq, ◌==◌}
use go_redis.Prelude.Maps.{lookup, member, lookup-insert, lookup-insert_self, lookup-nil}
use go_redis.Storage.Store.{
  Value, Store, hash, ref, hash_type, wrong_type, Result, ok, err, is_expired, delete_key, alloc,
  write, put, is_snapshot_active,
}
use go_redis.Storage.Strings.{find, find_entry}
use go_redis.Storage.Hashes.{
  Hash, fields_of, hash_set, set_fields, set_through, set_or_clone, save_hash, save_fields, h_set,
  h_get, read_hash, read_pointer, get_existing_hash, existing, get_or_create_hash, hash_or_new,
  new_hash, created_hash, as_hash, clone_hash, is_hash_type,
}
use go_redis.Storage.Adding.{write-same, alloc-same, find-missing, lookup-delete_key}

-- What a field holds after the pairs of field and value were written one after the other.
unfoldable pub last_written : Text → List Text → Option Text → Option Text
last_written field (f ∷ value ∷ rest) old =
    last_written field rest (if f == field then some value else old)
last_written field _ old = old

lookup-set_fields :
    (field : Text) (fvs : List Text) (h : Hash)
    → lookup field (set_fields fvs h).0 ≡ last_written field fvs (lookup field h)
unfolding set_fields last_written hash_set
lookup-set_fields field [] h = refl
lookup-set_fields field (f ∷ []) h = refl
lookup-set_fields field (f ∷ value ∷ rest) h =
    lookup-set_fields field rest (hash_set f value h).0
    ∙ ap (last_written field rest) (lookup-insert f field value h)

find-put_hash :
    (now : ℕ) (key : Text) (p : ℕ) (s : Store)
    → find now key (put key (record { content = ref p; expires_at = none; type = hash_type }) s) ≡ (
      put key (record { content = ref p; expires_at = none; type = hash_type }) s,
      some (record { content = ref p; expires_at = none; type = hash_type }),
    )
unfolding find find_entry put is_expired
find-put_hash now key p s = rw lookup-insert_self refl

read_pointer-hash :
    (field : Text) (p : ℕ) (h : Hash) (s : Store)
    → s.heap p ≡ hash h
    → read_pointer none (lookup field) (ok (as_hash (ref p) s)) s ≡ ok (lookup field h)
unfolding read_pointer as_hash
read_pointer-hash field p h s e = rw (e, e) refl

h_get-save_fields :
    (later : ℕ) (key field : Text) (p : ℕ) (h : Hash) (s : Store)
    → s.heap p ≡ hash h
    → (h_get later key field (save_fields key p s h)).1 ≡ ok (lookup field h)
unfolding save_fields h_get read_hash get_existing_hash existing read_pointer put
h_get-save_fields later key field p [] s e =
    rw (find-missing later key (delete_key key s) (lookup-delete_key key s))
      (ap ok (sym (lookup-nil field)))
h_get-save_fields later key field p (f ∷ fs) s e =
    rw (find-put_hash later key p s) (read_pointer-hash field p (f ∷ fs) (put key _ s) e)

h_get-set_through :
    (later : ℕ) (key field : Text) (fvs : List Text) (p : ℕ) (s : Store)
    → (h_get later key field (set_through key fvs p s).0).1
      ≡ ok (last_written field fvs (lookup field (fields_of (s.heap p))))
unfolding set_through save_hash
h_get-set_through later key field fvs p s =
    let h = (set_fields fvs (fields_of (s.heap p))).0 in
    rw (write-same p (hash h) s)
      (h_get-save_fields later key field p h (write p (hash h) s) (write-same p (hash h) s))
    ∙ ap ok (lookup-set_fields field fvs (fields_of (s.heap p)))

h_get-copied :
    (later : ℕ) (key field : Text) (fvs : List Text) (q p : ℕ) (t s : Store)
    → t.heap q ≡ hash (fields_of (s.heap p))
    → (h_get later key field (set_through key fvs q t).0).1
      ≡ ok (last_written field fvs (lookup field (fields_of (s.heap p))))
h_get-copied later key field fvs q p t s e =
    h_get-set_through later key field fvs q t
    ∙ ap (λ o. ok (last_written field fvs (lookup field (fields_of o)))) e

h_get-set_or_clone :
    (later : ℕ) (key field : Text) (fvs : List Text) (p : ℕ) (s : Store)
    → (h_get later key field (set_or_clone key fvs (some p) s).0).1
      ≡ ok (last_written field fvs (lookup field (fields_of (s.heap p))))
unfolding set_or_clone clone_hash alloc
h_get-set_or_clone later key field fvs p s =
    elim (Bool-cases (is_snapshot_active s && member key s.entries)) [
      | inl e ↦ rw e (
          h_get-copied later key field fvs s.next p (alloc (hash (fields_of (s.heap p))) s).0 s
            (alloc-same (hash (fields_of (s.heap p))) s))
      | inr n ↦ rw n (h_get-set_through later key field fvs p s)
    ]

then_written : Text → List Text → Result (Option Text) → Result (Option Text)
then_written field fvs (ok old) = ok (last_written field fvs old)
then_written field fvs (err e) = err e

-- What HGET and HSET get for a key, if it holds no value of another type.
h_get-created_hash :
    (later : ℕ) (key field : Text) (fvs : List Text) (old : Option Text) (p : Option ℕ) (s : Store)
    → read_pointer none (lookup field) (ok p) s ≡ ok old
    → (h_get later key field (set_or_clone key fvs (created_hash p s).1 (created_hash p s).0).0).1
      ≡ ok (last_written field fvs old)
unfolding created_hash new_hash read_pointer alloc then_written
h_get-created_hash later key field fvs old none s e =
    h_get-set_or_clone later key field fvs s.next (alloc (hash []) s).0
    ∙ ap (λ o. ok (last_written field fvs (lookup field (fields_of o)))) (alloc-same (hash []) s)
    ∙ ap (λ o. ok (last_written field fvs o)) (lookup-nil field)
    ∙ ap (then_written field fvs) e
h_get-created_hash later key field fvs old (some p) s e =
    h_get-set_or_clone later key field fvs p s ∙ ap (then_written field fvs) e

wrong_type-ok : (old : Option Text) → err wrong_type ≡ ok old → ⊥
wrong_type-ok old e = ground arith

h_get-hash_or_new :
    (later : ℕ) (key field : Text) (fvs : List Text) (old : Option Text) (o : Option Value)
    (s : Store)
    → read_pointer none (lookup field) (existing o s) s ≡ ok old
    → (h_get later key field (set_or_clone key fvs (hash_or_new o s).1 (hash_or_new o s).0).0).1
      ≡ ok (last_written field fvs old)
unfolding hash_or_new existing created_hash read_pointer
h_get-hash_or_new later key field fvs old none s e =
    h_get-created_hash later key field fvs old none s e
h_get-hash_or_new later key field fvs old (some v) s e = elim (Bool-cases (is_hash_type v.type)) [
  | inl h ↦ rw h (h_get-created_hash later key field fvs old (as_hash v.content s) s (rw h at e))
  | inr n ↦ absurd (wrong_type-ok old (rw n at e))
]

h_set-even :
    (now : ℕ) (key : Text) (fvs : List Text) (s : Store)
    → length fvs % 2 ≡ 0
    → (h_set now key fvs s).0
      ≡ (set_or_clone key fvs (get_or_create_hash now key s).1 (get_or_create_hash now key s).0).0
unfolding h_set
h_set-even now key fvs s even = rw even refl

-- If HGET answers for a field, and not with an error, then after an HSET of an even number of
-- texts to the same key it answers with the value that the HSET wrote last to the field, and
-- with the same as before if it wrote none, also when a snapshot is active and the hash was copied.
pub h_get-h_set :
    (now later : ℕ) (key field : Text) (fvs : List Text) (old : Option Text) (s : Store)
    → length fvs % 2 ≡ 0
    → (h_get now key field s).1 ≡ ok old
    → (h_get later key field (h_set now key fvs s).0).1 ≡ ok (last_written field fvs old)
unfolding get_or_create_hash h_get read_hash get_existing_hash
h_get-h_set now later key field fvs old s even e =
    rw (h_set-even now key fvs s even)
      (h_get-hash_or_new later key field fvs old (find now key s).1 (find now key s).0 e)
