-- ===== src/Storage/Removing.antt =====
-- internal/storage/set_ops.go: what SISMEMBER answers after SREM.
use go_redis.Prelude.{
  ℕ, inl, inr, ◌≡◌, ap, ◌∙◌, List, Option, none, some, true, false, not, ◌&&◌, Bool-cases, arith,
}
use go_redis.Prelude.Eq.{Text, text_eq}
use go_redis.Prelude.Maps.{member, elem}
use go_redis.Storage.Store.{Store, set, alloc, write, is_snapshot_active}
use go_redis.Storage.Strings.{find}
use go_redis.Storage.Sets.{
  members_of, drop_members, drop_through, drop_or_clone, save_set, s_rem, s_is_member, read_set,
  read_at, get_existing_set, existing_set, clone_set,
}
use go_redis.Storage.Membership.{member-drop_members}
use go_redis.Storage.Adding.{write-same, alloc-same, is_member-save_members}

is_member-drop_through :
    (later : ℕ) (key x : Text) (ms : List Text) (p : ℕ) (s : Store)
    → (s_is_member later key x (drop_through key ms p s).0).1
      ≡ (not (elem x ms) && member x (members_of (s.heap p)))
unfolding drop_through save_set
is_member-drop_through later key x ms p s =
    let m = (drop_members ms (members_of (s.heap p))).0 in
    rw (write-same p (set m) s)
      (is_member-save_members later key x p m (write p (set m) s) (write-same p (set m) s))
    ∙ member-drop_members x ms (members_of (s.heap p))

is_member-drop_copied :
    (later : ℕ) (key x : Text) (ms : List Text) (q p : ℕ) (t s : Store)
    → t.heap q ≡ set (members_of (s.heap p))
    → (s_is_member later key x (drop_through key ms q t).0).1
      ≡ (not (elem x ms) && member x (members_of (s.heap p)))
is_member-drop_copied later key x ms q p t s e =
    is_member-drop_through later key x ms q t
    ∙ ap (λ o. not (elem x ms) && member x (members_of o)) e

is_member-drop_or_clone :
    (later : ℕ) (key x : Text) (ms : List Text) (p : ℕ) (s : Store)
    → (s_is_member later key x (drop_or_clone key ms (some p) s).0).1
      ≡ (not (elem x ms) && member x (members_of (s.heap p)))
unfolding drop_or_clone clone_set alloc
is_member-drop_or_clone later key x ms p s = elim (Bool-cases (is_snapshot_active s)) [
  | inl e ↦ rw e (
      is_member-drop_copied later key x ms s.next p (alloc (set (members_of (s.heap p))) s).0 s
        (alloc-same (set (members_of (s.heap p))) s))
  | inr n ↦ rw n (is_member-drop_through later key x ms p s)
]

is_member-drop_found :
    (later : ℕ) (key x : Text) (ms : List Text) (p : Option ℕ) (s : Store)
    → read_at false (member x) p s ≡ true
    → (s_is_member later key x (drop_or_clone key ms p s).0).1 ≡ not (elem x ms)
unfolding read_at
is_member-drop_found later key x ms none s h = ground arith
is_member-drop_found later key x ms (some p) s h =
    ground (arith, is_member-drop_or_clone later key x ms p s)

-- After a SREM, what was a member of the set under the key is one still just if it is not among
-- the members removed, also when a snapshot is active and the set was copied for it.
pub s_is_member-s_rem :
    (now later : ℕ) (key x : Text) (ms : List Text) (s : Store)
    → (s_is_member now key x s).1 ≡ true
    → (s_is_member later key x (s_rem now key ms s).0).1 ≡ not (elem x ms)
unfolding s_rem s_is_member read_set get_existing_set
s_is_member-s_rem now later key x ms s h =
    is_member-drop_found later key x ms (existing_set (find now key s).1 (find now key s).0)
      (find now key s).0 h
