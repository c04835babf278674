-- ===== src/Storage/Adding.antt =====
-- internal/storage/set_ops.go: what SISMEMBER answers after SADD.
use go_redis.Prelude.{
  ℕ, inl, inr, ◌≡◌, refl, ap, sym, ◌∙◌, List, [], ◌∷◌, Option, none, some, true, false, ◌&&◌, ◌||◌,
  Bool-cases, arith,
}
use go_redis.Prelude.Eq.{Text, text_eq}
use go_redis.Prelude.Maps.{lookup, member, elem, lookup-insert_self, lookup-remove, member-nil}
use go_redis.Prelude.Eq.{beq_refl}
use go_redis.Storage.Store.{
  Value, Store, Object, set, ref, set_type, is_expired, delete_key, alloc, write, put,
  is_snapshot_active,
}
use go_redis.Storage.Strings.{find, find_entry}
use go_redis.Storage.Sets.{
  Members, members_of, add_members, add_through, add_or_clone, save_set, save_members, s_add,
  s_is_member, read_set, read_at, get_existing_set, existing_set, get_or_create_set, set_or_new,
  new_set, created_set, as_set, clone_set, is_set_type,
}
use go_redis.Storage.Expiry.{live, find-live}
use go_redis.Storage.Membership.{member-add_members}

pub write-same : (p : ℕ) (o : Object) (s : Store) → (write p o s).heap p ≡ o
unfolding write
write-same p o s = ground arith

pub alloc-same : (o : Object) (s : Store) → (alloc o s).0.heap s.next ≡ o
unfolding alloc
alloc-same o s = ground arith

pub find-missing :
    (now : ℕ) (key : Text) (s : Store) → lookup key s.entries ≡ none → find now key s ≡ (s, none)
unfolding find find_entry
find-missing now key s e = rw e refl

find-put :
    (now : ℕ) (key : Text) (p : ℕ) (s : Store)
    → find now key (put key (record { content = ref p; expires_at = none; type = set_type }) s) ≡ (
      put key (record { content = ref p; expires_at = none; type = set_type }) s,
      some (record { content = ref p; expires_at = none; type = set_type }),
    )
unfolding find find_entry put is_expired
find-put now key p s = rw lookup-insert_self refl

pub lookup-delete_key : (key : Text) (s : Store) → lookup key (delete_key key s).entries ≡ none
unfolding delete_key
lookup-delete_key key s = rw (lookup-remove, beq_refl) refl

read_at-set :
    (x : Text) (p : ℕ) (m : Members) (s : Store)
    → s.heap p ≡ set m
    → read_at false (member x) (as_set (ref p) s) s ≡ member x m
unfolding read_at as_set
read_at-set x p m s e = rw (e, e) refl

-- SISMEMBER of a set that was just saved
pub is_member-save_members :
    (later : ℕ) (key x : Text) (p : ℕ) (m : Members) (s : Store)
    → s.heap p ≡ set m
    → (s_is_member later key x (save_members key p s m)).1 ≡ member x m
unfolding save_members s_is_member read_set get_existing_set existing_set read_at put
is_member-save_members later key x p [] s e =
    rw (find-missing later key (delete_key key s) (lookup-delete_key key s))
      (sym (member-nil (Unit {0}) x))
is_member-save_members later key x p (m ∷ ms) s e =
    rw (find-put later key p s) (read_at-set x p (m ∷ ms) (put key _ s) e)

is_member-add_through :
    (later : ℕ) (key x : Text) (ms : List Text) (p : ℕ) (s : Store)
    → (s_is_member later key x (add_through key ms p s).0).1
      ≡ (elem x ms || member x (members_of (s.heap p)))
unfolding add_through save_set
is_member-add_through later key x ms p s =
    let m = (add_members ms (members_of (s.heap p))).0 in
    rw (write-same p (set m) s)
      (is_member-save_members later key x p m (write p (set m) s) (write-same p (set m) s))
    ∙ member-add_members x ms (members_of (s.heap p))

is_member-copied :
    (later : ℕ) (key x : Text) (ms : List Text) (q p : ℕ) (t s : Store)
    → t.heap q ≡ set (members_of (s.heap p))
    → (s_is_member later key x (add_through key ms q t).0).1
      ≡ (elem x ms || member x (members_of (s.heap p)))
is_member-copied later key x ms q p t s e =
    is_member-add_through later key x ms q t ∙ ap (λ o. elem x ms || member x (members_of o)) e

is_member-add_or_clone :
    (later : ℕ) (key x : Text) (ms : List Text) (p : ℕ) (s : Store)
    → (s_is_member later key x (add_or_clone key ms (some p) s).0).1
      ≡ (elem x ms || member x (members_of (s.heap p)))
unfolding add_or_clone clone_set alloc
is_member-add_or_clone later key x ms p s =
    elim (Bool-cases (is_snapshot_active s && member key s.entries)) [
      | inl e ↦ rw e (
          is_member-copied later key x ms s.next p (alloc (set (members_of (s.heap p))) s).0 s
            (alloc-same (set (members_of (s.heap p))) s))
      | inr n ↦ rw n (is_member-add_through later key x ms p s)
    ]

is_member-created_set :
    (later : ℕ) (key x : Text) (ms : List Text) (p : Option ℕ) (s : Store)
    → (s_is_member later key x (add_or_clone key ms (created_set p s).1 (created_set p s).0).0).1
      ≡ (elem x ms || read_at false (member x) p s)
unfolding created_set new_set read_at alloc
is_member-created_set later key x ms none s =
    is_member-add_or_clone later key x ms s.next (alloc (set []) s).0
    ∙ ap (λ o. elem x ms || member x (members_of o)) (alloc-same (set []) s)
    ∙ ap (λ b. elem x ms || b) (member-nil (Unit {0}) x)
is_member-created_set later key x ms (some p) s = is_member-add_or_clone later key x ms p s

-- What is found is a set, or nothing is found.
unfoldable pub IsSetOrNone : Option Value → Type 0
IsSetOrNone none = Unit
IsSetOrNone (some v) = is_set_type v.type ≡ true

is_member-set_or_new :
    (later : ℕ) (key x : Text) (ms : List Text) (o : Option Value) (s : Store)
    → IsSetOrNone o
    → (s_is_member later key x (add_or_clone key ms (set_or_new o s).1 (set_or_new o s).0).0).1
      ≡ (elem x ms || read_at false (member x) (existing_set o s) s)
unfolding set_or_new existing_set IsSetOrNone created_set
is_member-set_or_new later key x ms none s h = is_member-created_set later key x ms none s
is_member-set_or_new later key x ms (some v) s h =
    rw h (is_member-created_set later key x ms (as_set v.content s) s)

-- After a SADD to a key that holds a set or nothing, SISMEMBER answers that a text is a member just
-- if it was one before or it is one of those added, also when a snapshot is active and the set was
-- copied for it.
pub s_is_member-s_add :
    (now later : ℕ) (key x : Text) (ms : List Text) (s : Store)
    → IsSetOrNone (live now s key)
    → (s_is_member later key x (s_add now key ms s).0).1
      ≡ (elem x ms || (s_is_member now key x s).1)
unfolding s_add get_or_create_set s_is_member read_set get_existing_set
s_is_member-s_add now later key x ms s h =
    is_member-set_or_new later key x ms (find now key s).1 (find now key s).0
      (rw (find-live now key s) h)
