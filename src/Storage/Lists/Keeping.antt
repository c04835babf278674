-- ===== src/Storage/Lists/Keeping.antt =====
-- internal/storage/list_ops.go: the commands on lists copy the list they change while a snapshot
-- shares it.
use mathlib.Core.Option
use go_redis.Prelude.{ℕ, ◌≤◌, ◌≡◌, inl, inr, Option, none, some, Bool, true, false, Bool-cases}
use go_redis.Prelude.Eq.{Text, text_eq, nat_eq, ◌==◌}
use go_redis.Prelude.Int.{pos_part}
use go_redis.Storage.Linked.{LinkedList}
use go_redis.Storage.Linked.Edit.{clone}
use go_redis.Storage.Store.{Result, ok, err, Store, list, alloc, write, is_snapshot_active}
use go_redis.Storage.Strings.{find}
use go_redis.Storage.Keeps.{
  Keeps, Keeps-trans, Keeps-alloc, Keeps-find, Keeps-write, Keeps-put, Keeps-delete_key,
  Keeps-active, Keeps-next,
}
use go_redis.Storage.Lists.{
  list_of, existing_list, get_existing_list, save_length, save_list, clone_list, own_list, on_list,
  on_values, saved, change_with, answer,
}
use go_redis.Storage.Lists.Edits.{set_or_fail, insert_or_fail}

-- the result, if there is one, keeps the objects of the store
abbrev pub KeepsRun {ℓ} : {A : Type ℓ} → Store → Option (Store × A) → Type 0
KeepsRun s none = Unit
KeepsRun s (some (t, a)) = Keeps s t

pub Keeps-save_length : (key : Text) (p n : ℕ) (s : Store) → Keeps s (save_length key p n s)
unfolding save_length
Keeps-save_length key p n s = elim (Bool-cases (n == 0)) [
  | inl y ↦ rw y (Keeps-delete_key key s)
  | inr y ↦ rw y (Keeps-put key _ s)
]

pub Keeps-save_list :
    (key : Text) (p : ℕ) (l : LinkedList) (s t : Store)
    → s.next ≤ p
    → Keeps s t
    → Keeps s (save_list key p (write p (list l) t))
unfolding save_list
Keeps-save_list key p l s t le k =
    Keeps-trans s (write p (list l) t) _ (Keeps-write p (list l) s t le k)
      (Keeps-save_length key p _ (write p (list l) t))

pub KeepsRun-saved {ℓ} :
    {A : Type ℓ} (key : Text) (p : ℕ) (s t : Store) (o : Option (LinkedList × A))
    → s.next ≤ p
    → Keeps s t
    → KeepsRun s (saved key p t o)
unfolding saved
KeepsRun-saved key p s t none le k = tt
KeepsRun-saved key p s t (some (l, a)) le k = Keeps-save_list key p l s t le k

-- what changes only an object that is newer than the store
abbrev pub KeepsNew {ℓ} : {A : Type ℓ} → Store → (ℕ → Store → Option (Store × A)) → Type 0
KeepsNew s change = (q : ℕ) (t : Store) → s.next ≤ q → Keeps s t → KeepsRun s (change q t)

pub KeepsRun-copy {ℓ} :
    {A : Type ℓ} (change : ℕ → Store → Option (Store × Result A)) (s t : Store)
    (o : Option LinkedList)
    → Keeps s t
    → KeepsNew s change
    → KeepsRun s (change_with change (Option.map (λ l. alloc (list l) t) o))
unfolding change_with alloc
KeepsRun-copy change s t none k f = tt
KeepsRun-copy change s t (some l) k f =
    f t.next (alloc (list l) t).0 (Keeps-next s t k) (Keeps-trans s t _ k (Keeps-alloc (list l) t))

pub KeepsRun-own {ℓ} :
    {A : Type ℓ} (change : ℕ → Store → Option (Store × Result A)) (p : ℕ) (s t : Store)
    → is_snapshot_active s ≡ true
    → Keeps s t
    → KeepsNew s change
    → KeepsRun s (change_with change (own_list p t))
unfolding own_list clone_list
KeepsRun-own change p s t on k f =
    rw (Keeps-active s t k on) (KeepsRun-copy change s t (clone (list_of (t.heap p))) k f)

-- what keeps the objects at any pointer
abbrev pub KeepsAny {ℓ} : {A : Type ℓ} → Store → (ℕ → Store → Option (Store × A)) → Type 0
KeepsAny s use_list = (q : ℕ) (t : Store) → Keeps s t → KeepsRun s (use_list q t)

pub KeepsRun-cases {ℓ} :
    {A : Type ℓ} (missing : Result A) (use_list : ℕ → Store → Option (Store × Result A))
    (s t : Store) (r : Result (Option ℕ))
    → Keeps s t
    → KeepsAny s use_list
    → KeepsRun s (on_list missing use_list (t, r))
unfolding on_list
KeepsRun-cases missing use_list s t (err e) k f = k
KeepsRun-cases missing use_list s t (ok none) k f = k
KeepsRun-cases missing use_list s t (ok (some p)) k f = f p t k

pub KeepsRun-on_list {ℓ} :
    {A : Type ℓ} (now : ℕ) (key : Text) (missing : Result A)
    (use_list : ℕ → Store → Option (Store × Result A)) (s : Store)
    → KeepsAny s use_list
    → KeepsRun s (on_list missing use_list (get_existing_list now key s))
unfolding get_existing_list
KeepsRun-on_list now key missing use_list s f =
    KeepsRun-cases missing use_list s (find now key s).0
      (existing_list (find now key s).1 (find now key s).0) (Keeps-find now key s) f

pub KeepsRun-on_values {ℓ} :
    {A : Type ℓ} (missing : Result A) (use_list : ℕ → Store → Option (Store × Result A)) (p : ℕ)
    (s t : Store)
    → Keeps s t
    → KeepsRun s (use_list p t)
    → KeepsRun s (on_values missing use_list p t)
unfolding on_values
KeepsRun-on_values missing use_list p s t k f =
    elim (Bool-cases (pos_part (list_of (t.heap p)).length == 0)) [
      | inl y ↦ rw y k
      | inr y ↦ rw y f
    ]

-- An operation that changes a list of its own.
pub KeepsRun-change {ℓ} :
    {A : Type ℓ} (now : ℕ) (key : Text) (missing : Result A)
    (change : ℕ → Store → Option (Store × Result A)) (s : Store)
    → is_snapshot_active s ≡ true
    → KeepsNew s change
    → KeepsRun s
        (on_list missing (λ p t. change_with change (own_list p t)) (get_existing_list now key s))
KeepsRun-change now key missing change s on f =
    KeepsRun-on_list now key missing (λ p t. change_with change (own_list p t)) s
      (λ p t k. KeepsRun-own change p s t on k f)

pub KeepsRun-change_values {ℓ} :
    {A : Type ℓ} (now : ℕ) (key : Text) (missing missing' : Result A)
    (change : ℕ → Store → Option (Store × Result A)) (s : Store)
    → is_snapshot_active s ≡ true
    → KeepsNew s change
    → KeepsRun s (
        on_list missing
          (on_values missing' (λ p t. change_with change (own_list p t)))
          (get_existing_list now key s))
KeepsRun-change_values now key missing missing' change s on f =
    KeepsRun-on_list now key missing (on_values missing' (λ p t. change_with change (own_list p t)))
      s
      (λ p t k.
        KeepsRun-on_values missing' (λ p t. change_with change (own_list p t)) p s t k
          (KeepsRun-own change p s t on k f))

pub KeepsRun-set_or_fail :
    (key : Text) (q : ℕ) (s t : Store) (o : Option (LinkedList × Bool))
    → s.next ≤ q
    → Keeps s t
    → KeepsRun s (set_or_fail key q t o)
unfolding set_or_fail
KeepsRun-set_or_fail key q s t none le k = tt
KeepsRun-set_or_fail key q s t (some (l, true)) le k =
    KeepsRun-saved key q s t (some (l, true)) le k
KeepsRun-set_or_fail key q s t (some (l, false)) le k = k

pub KeepsRun-insert_or_fail :
    (key : Text) (q : ℕ) (s t : Store) (o : Option (LinkedList × Bool))
    → s.next ≤ q
    → Keeps s t
    → KeepsRun s (insert_or_fail key q t o)
unfolding insert_or_fail
KeepsRun-insert_or_fail key q s t none le k = tt
KeepsRun-insert_or_fail key q s t (some (l, true)) le k =
    KeepsRun-saved key q s t (some (l, l.length)) le k
KeepsRun-insert_or_fail key q s t (some (l, false)) le k = k

pub KeepsRun-read {ℓ} :
    {A : Type ℓ} (s t : Store) (o : Option A) → Keeps s t → KeepsRun s (Option.map (answer t) o)
KeepsRun-read s t none k = tt
KeepsRun-read s t (some a) k = k
