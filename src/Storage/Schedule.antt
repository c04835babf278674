-- ===== src/Storage/Schedule.antt =====
-- internal/storage/string_ops.go: the index of expiry times, from which the cleaning takes its sample.
use go_redis.Prelude.{
  ℕ, inl, inr, ◌≡◌, refl, ap, sym, List, [], ◌∷◌, Option, none, some, Bool, true, false,
  if◌then◌else◌, Bool-cases,
}
use go_redis.Prelude.Eq.{Text, text_eq, text_beq_iff, ◌==◌}
use go_redis.Prelude.Int.{ℤ}
use go_redis.Prelude.Maps.{lookup, lookup-insert, lookup-remove}
use go_redis.Storage.Store.{Value, Store, delete_key, is_expired, put}
use go_redis.Storage.Strings.{
  find_entry, index_expiry, expire_entry, put_number, incr_entry, clean_entry, clean_key,
  clean_sample, cleanup_expired_keys,
}

-- the expiry time of a value, if there is one
abbrev pub expiry_of : Option Value → Option ℕ
expiry_of none = none
expiry_of (some v) = v.expires_at

-- what the index must hold for an expiry time
abbrev pub Agrees : Option ℕ → Option ℕ → Type 0
Agrees none i = Unit
Agrees (some t) i = i ≡ some t

-- The index lists every key that has an expiry time, with this time.
pub record IsScheduled (s : Store) : Type 0 where
  pub scheduled :
      (key : Text) → Agrees (expiry_of (lookup key s.entries)) (lookup key s.data_with_expiry)

pub delete_key-IsScheduled :
    (key : Text) {s : Store} → IsScheduled s → IsScheduled (delete_key key s)
unfolding delete_key
delete_key-IsScheduled key {s} h = record {
  scheduled = λ k.
      rw (lookup-remove key k s.entries, lookup-remove key k s.data_with_expiry)
        (elim (Bool-cases (key == k)) [ inl e ↦ rw e tt | inr n ↦ rw n (h.scheduled k) ]);
}

pub put-IsScheduled :
    (key : Text) (v : Value) (o : Option ℕ) {s : Store}
    → v.expires_at ≡ o
    → IsScheduled s
    → IsScheduled (index_expiry key o (put key v s))
unfolding index_expiry put
put-IsScheduled key v none {s} q h = record {
  scheduled = λ k.
      rw (lookup-insert key k v s.entries, lookup-remove key k s.data_with_expiry)
        (elim (Bool-cases (key == k)) [ inl e ↦ rw (e, q) tt | inr n ↦ rw n (h.scheduled k) ]);
}
put-IsScheduled key v (some t) {s} q h = record {
  scheduled = λ k.
      rw (lookup-insert key k v s.entries, lookup-insert key k t s.data_with_expiry)
        (elim (Bool-cases (key == k)) [ inl e ↦ rw (e, q) refl | inr n ↦ rw n (h.scheduled k) ]);
}

-- A value without an expiry time is written beside the index.
put_lasting-IsScheduled :
    (key : Text) (v : Value) {s : Store}
    → v.expires_at ≡ none
    → IsScheduled s
    → IsScheduled (put key v s)
unfolding put
put_lasting-IsScheduled key v {s} q h = record {
  scheduled = λ k.
      rw (lookup-insert key k v s.entries)
        (elim (Bool-cases (key == k)) [ inl e ↦ rw (e, q) tt | inr n ↦ rw n (h.scheduled k) ]);
}

pub find-IsScheduled :
    (now : ℕ) (key : Text) (o : Option Value) {s : Store}
    → IsScheduled s
    → IsScheduled (find_entry now key s o).0
unfolding find_entry
find-IsScheduled now key none h = h
find-IsScheduled now key (some v) {s} h = elim (Bool-cases (is_expired now v)) [
  | inl e ↦ rw e (delete_key-IsScheduled key h)
  | inr n ↦ rw n h
]

pub expire-IsScheduled :
    (now : ℕ) (key : Text) (expiry : Option ℕ) (o : Option Value) {s : Store}
    → IsScheduled s
    → IsScheduled (expire_entry now key expiry s o).0
unfolding expire_entry
expire-IsScheduled now key expiry none h = h
expire-IsScheduled now key expiry (some v) {s} h = elim (Bool-cases (is_expired now v)) [
  | inl e ↦ rw e (delete_key-IsScheduled key h)
  | inr n ↦ rw n (put-IsScheduled key (record v { expires_at = expiry }) expiry refl h)
]

pub incr-IsScheduled :
    (key : Text) (increment : ℤ) (n : Option ℤ) {s : Store}
    → IsScheduled s
    → IsScheduled (incr_entry key increment n s).0
unfolding incr_entry put_number
incr-IsScheduled key increment none h = h
incr-IsScheduled key increment (some n) h = put_lasting-IsScheduled key _ refl h

clean-IsScheduled :
    (now : ℕ) (key : Text) (n : ℕ) (o : Option Value) {s : Store}
    → lookup key s.entries ≡ o
    → IsScheduled s
    → IsScheduled (clean_entry now key s n o).0
unfolding clean_entry
clean-IsScheduled now key n none {s} q h = record {
  scheduled = λ k. rw (lookup-remove key k s.data_with_expiry) (elim (Bool-cases (key == k)) [
    | inl e ↦ rw (e, ap (λ j. lookup j s.entries) (sym ((text_beq_iff key k).0 e)), q) tt
    | inr m ↦ rw m (h.scheduled k)
  ]);
}
clean-IsScheduled now key n (some v) {s} q h = elim (Bool-cases (is_expired now v)) [
  | inl e ↦ rw e (delete_key-IsScheduled key h)
  | inr m ↦ rw m h
]

clean_sample-IsScheduled :
    (now : ℕ) (ks : List Text) (n : ℕ) {s : Store}
    → IsScheduled s
    → IsScheduled (clean_sample now ks (s, n)).0
unfolding clean_sample clean_key
clean_sample-IsScheduled now [] n h = h
clean_sample-IsScheduled now (key ∷ ks) n {s} h =
    clean_sample-IsScheduled now ks _ (clean-IsScheduled now key n (lookup key s.entries) refl h)

-- One round of the cleaning: its sample, and the further rounds if there are any.
round-IsScheduled :
    (a b : Bool) {t u : Store}
    → IsScheduled t
    → IsScheduled u
    → IsScheduled (if a then t else if b then t else u)
round-IsScheduled true b h k = h
round-IsScheduled false true h k = h
round-IsScheduled false false h k = k

pub cleanup-IsScheduled :
    (rounds : List (ℕ × List Text)) {s : Store}
    → IsScheduled s
    → IsScheduled (cleanup_expired_keys rounds s)
unfolding cleanup_expired_keys
cleanup-IsScheduled [] h = h
cleanup-IsScheduled ((now, []) ∷ rounds) h = h
cleanup-IsScheduled ((now, key ∷ ks) ∷ rounds) {s} h =
    let k = clean_sample-IsScheduled now (key ∷ ks) 0 h in
    round-IsScheduled _ _ k (cleanup-IsScheduled rounds k)
