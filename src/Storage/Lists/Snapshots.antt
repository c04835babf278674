-- ===== src/Storage/Lists/Snapshots.antt =====
-- internal/storage/list_ops.go: a snapshot that shares lists with the store, while commands on lists go
-- on changing them.
use mathlib.Core.Option
use go_redis.Prelude.{
  ℕ, ◌<◌, ◌≤◌, ◌≡◌, inl, inr, refl, List, [], ◌∷◌, Option, none, some, true, arith, Bool-cases,
  Option-cases,
}
use go_redis.Prelude.Eq.{Text, text_eq}
use go_redis.Prelude.Int.{ℤ}
use go_redis.Prelude.Maps.{member}
use go_redis.Storage.Linked.{LinkedList, push_front, push_back, pop_front, pop_back, get_at}
use go_redis.Storage.Linked.Edit.{clone, range}
use go_redis.Storage.Store.{Result, ok, Value, Store, list, alloc, is_snapshot_active, get_all_data}
use go_redis.Storage.Strings.{find}
use go_redis.Storage.Keeps.{
  Keeps, Keeps-refl, Keeps-trans, Keeps-alloc, Keeps-find, Keeps-active, Keeps-next, Fresh,
}
use go_redis.Storage.Snapshot.{IsCounted, active-get_all_data, member-find}
use go_redis.Storage.Lists.{
  list_of, as_list, created_list, list_or_new, get_or_create_list, is_list_type, clone_list,
  push_each, push_through, push_or_clone, l_push, r_push, pop_through, pop_list, l_pop, r_pop,
  l_len, l_range, l_index, answer,
}
use go_redis.Storage.Lists.Edits.{
  set_through, l_set, rem_through, l_rem, trim_through, l_trim, insert_through, l_insert,
}
use go_redis.Storage.Lists.Commands.{
  ListCommand, lpush, rpush, lpop, rpop, lindex, llen, lrange, ltrim, lset, lrem, linsert, Reply,
  exec, replied,
}
use go_redis.Storage.Lists.Keeping.{
  KeepsRun, Keeps-save_list, KeepsRun-saved, KeepsRun-on_list, KeepsRun-change,
  KeepsRun-change_values, KeepsRun-set_or_fail, KeepsRun-insert_or_fail, KeepsRun-read,
}

Keeps-push_through :
    (push : Text → LinkedList → LinkedList) (key : Text) (vs : List Text) (p : ℕ) (s t : Store)
    → s.next ≤ p
    → Keeps s t
    → Keeps s (push_through push key vs (t, p)).0
unfolding push_through
Keeps-push_through push key vs p s t le k =
    Keeps-save_list key p (push_each push vs (list_of (t.heap p))) s t le k

KeepsRun-push_copy :
    (push : Text → LinkedList → LinkedList) (key : Text) (vs : List Text) (s t : Store)
    (o : Option LinkedList)
    → Keeps s t
    → KeepsRun s (Option.map (push_through push key vs) (Option.map (λ l. alloc (list l) t) o))
unfolding alloc push_through
KeepsRun-push_copy push key vs s t none k = tt
KeepsRun-push_copy push key vs s t (some l) k =
    Keeps-push_through push key vs t.next s (alloc (list l) t).0 (Keeps-next s t k)
      (Keeps-trans s t _ k (Keeps-alloc (list l) t))

KeepsRun-push_or_clone :
    (push : Text → LinkedList → LinkedList) (key : Text) (vs : List Text) (p : Option ℕ)
    (s t : Store)
    → is_snapshot_active s ≡ true
    → Keeps s t
    → Fresh s t key p
    → KeepsRun s (push_or_clone push key vs p t)
unfolding push_or_clone Fresh clone_list push_through
KeepsRun-push_or_clone push key vs none s t on k f = k
KeepsRun-push_or_clone push key vs (some p) s t on k f = elim (Bool-cases (member key t.entries)) [
  | inl e ↦
      rw (Keeps-active s t k on, e)
        (KeepsRun-push_copy push key vs s t (clone (list_of (t.heap p))) k)
  | inr n ↦
      rw (Keeps-active s t k on, n) (Keeps-push_through push key vs p s t (ground (arith, f)) k)
]

Keeps-created_list : (s : Store) (p : Option ℕ) → Keeps s (created_list p s).0
unfolding created_list
Keeps-created_list s none = Keeps-alloc _ s
Keeps-created_list s (some p) = Keeps-refl s

Keeps-list_or_new : (s : Store) (o : Option Value) → Keeps s (list_or_new o s).0
unfolding list_or_new
Keeps-list_or_new s none = Keeps-created_list s none
Keeps-list_or_new s (some v) = elim (Bool-cases (is_list_type v.type)) [
  | inl e ↦ rw e (Keeps-created_list s (as_list v.content s))
  | inr n ↦ rw n (Keeps-refl s)
]

Fresh-created_list :
    (s t : Store) (key : Text) (p : Option ℕ)
    → s.next ≤ t.next
    → ((q : ℕ) → p ≡ some q → member key t.entries ≡ true)
    → Fresh s (created_list p t).0 key (created_list p t).1
unfolding Fresh created_list alloc
Fresh-created_list s t key none le h = inl le
Fresh-created_list s t key (some p) le h = inr (h p refl)

Fresh-list_or_new :
    (s t : Store) (key : Text) (o : Option Value)
    → s.next ≤ t.next
    → ((v : Value) → o ≡ some v → member key t.entries ≡ true)
    → Fresh s (list_or_new o t).0 key (list_or_new o t).1
unfolding list_or_new Fresh
Fresh-list_or_new s t key none le h =
    Fresh-created_list s t key none le (λ q e. absurd (ground (arith, e)))
Fresh-list_or_new s t key (some v) le h = elim (Bool-cases (is_list_type v.type)) [
  | inl e ↦ rw e (Fresh-created_list s t key (as_list v.content t) le (λ q _. h v refl))
  | inr n ↦ rw n tt
]

KeepsRun-push :
    (push : Text → LinkedList → LinkedList) (now : ℕ) (key : Text) (vs : List Text) (s : Store)
    → is_snapshot_active s ≡ true
    → KeepsRun s (
        push_or_clone push key vs (get_or_create_list now key s).1 (get_or_create_list now key s).0)
unfolding get_or_create_list
KeepsRun-push push now key vs s on =
    let k = Keeps-find now key s in
    KeepsRun-push_or_clone push key vs _ s _ on
      (Keeps-trans s (find now key s).0 _ k
        (Keeps-list_or_new (find now key s).0 (find now key s).1))
      (Fresh-list_or_new s (find now key s).0 key (find now key s).1 (Keeps-next s _ k)
        (member-find now key s))

KeepsRun-pop :
    (pop : LinkedList → LinkedList × Option Text) (now : ℕ) (key : Text) (count : ℤ) (s : Store)
    → is_snapshot_active s ≡ true
    → KeepsRun s (pop_list pop now key count s)
unfolding pop_list pop_through
KeepsRun-pop pop now key count s on =
    KeepsRun-change_values now key (ok []) (ok []) (pop_through pop key count) s on
      (λ q t le k. KeepsRun-saved key q s t _ le k)

KeepsRun-replied {ℓ} :
    {A : Type ℓ} (f : A → Reply) (s : Store) (o : Option (Store × Result A))
    → KeepsRun s o
    → KeepsRun s (replied f o)
KeepsRun-replied f s none k = tt
KeepsRun-replied f s (some (t, r)) k = k

KeepsRun-exec :
    (now : ℕ) (key : Text) (c : ListCommand) (s : Store)
    → is_snapshot_active s ≡ true
    → KeepsRun s (exec now key c s)
unfolding exec l_push r_push l_pop r_pop l_len l_range l_index l_set l_rem l_trim l_insert
    set_through rem_through trim_through insert_through
KeepsRun-exec now key (lpush vs) s on =
    KeepsRun-replied _ s _ (KeepsRun-push push_front now key vs s on)
KeepsRun-exec now key (rpush vs) s on =
    KeepsRun-replied _ s _ (KeepsRun-push push_back now key vs s on)
KeepsRun-exec now key (lpop count) s on =
    KeepsRun-replied _ s _ (KeepsRun-pop pop_front now key count s on)
KeepsRun-exec now key (rpop count) s on =
    KeepsRun-replied _ s _ (KeepsRun-pop pop_back now key count s on)
KeepsRun-exec now key llen s on =
    KeepsRun-replied _ s _
      (KeepsRun-on_list now key _ (λ p t. some (t, ok (list_of (t.heap p)).length)) s (λ q t k. k))
KeepsRun-exec now key (lrange start stop) s on = KeepsRun-replied _ s _ (
    KeepsRun-on_list now key _
      (λ p t. Option.map (answer t) (range start stop (list_of (t.heap p)))) s
      (λ q t k. KeepsRun-read s t _ k))
KeepsRun-exec now key (lindex index) s on = KeepsRun-replied _ s _ (
    KeepsRun-on_list now key _ (λ p t. Option.map (answer t) (get_at index (list_of (t.heap p)))) s
      (λ q t k. KeepsRun-read s t _ k))
KeepsRun-exec now key (lset index v) s on = KeepsRun-replied _ s _ (
    KeepsRun-change now key _ (set_through key index v) s on
      (λ q t le k. KeepsRun-set_or_fail key q s t _ le k))
KeepsRun-exec now key (lrem count v) s on = KeepsRun-replied _ s _ (
    KeepsRun-change_values now key _ _ (rem_through key count v) s on
      (λ q t le k. KeepsRun-saved key q s t _ le k))
KeepsRun-exec now key (ltrim start stop) s on = KeepsRun-replied _ s _ (
    KeepsRun-change now key _ (trim_through key start stop) s on
      (λ q t le k. KeepsRun-saved key q s t _ le k))
KeepsRun-exec now key (linsert before pivot v) s on = KeepsRun-replied _ s _ (
    KeepsRun-change_values now key _ _ (insert_through key before pivot v) s on
      (λ q t le k. KeepsRun-insert_or_fail key q s t _ le k))

abbrev exec_rest : (Store → Option Store) → Option (Store × Reply) → Option Store
exec_rest f none = none
exec_rest f (some (s, a)) = f s

-- list commands on several keys, each with its clock; `none` if one panics or does not end
unfoldable pub exec_each : List (ℕ × Text × ListCommand) → Store → Option Store
exec_each [] s = some s
exec_each ((now, key, c) ∷ cs) s = exec_rest (λ t. exec_each cs t) (exec now key c s)

Keeps-exec_each :
    (cs : List (ℕ × Text × ListCommand)) (s t : Store)
    → is_snapshot_active s ≡ true
    → exec_each cs s ≡ some t
    → Keeps s t
unfolding exec_each
Keeps-exec_each [] s t on e = let f : s ≡ t = ground (arith, e) in rw f (Keeps-refl t)
Keeps-exec_each ((now, key, c) ∷ cs) s t on e = elim (Option-cases (exec now key c s)) [
  | inl n ↦
      let o : Option Store = none in let f : o ≡ some t = rw n at e in absurd (ground (arith, f))
  | inr ((u, a), f) ↦
      let k : Keeps s u = rw f at (KeepsRun-exec now key c s on) in
      Keeps-trans s u t k (Keeps-exec_each cs u t (Keeps-active s u k on) (rw f at e))
]

-- A snapshot stays as it was taken: whatever list commands follow on whatever keys, every object that
-- was there when it was taken is unchanged, lists included, if the commands come to an end and no
-- snapshot was released more often than taken.
pub exec_each-get_all_data :
    (cs : List (ℕ × Text × ListCommand)) (s t : Store) (p : ℕ)
    → IsCounted s
    → p < s.next
    → exec_each cs (get_all_data s).0 ≡ some t
    → t.heap p ≡ s.heap p
unfolding Keeps get_all_data
exec_each-get_all_data cs s t p c lt e =
    (Keeps-exec_each cs (get_all_data s).0 t (active-get_all_data s c) e).2 p lt
