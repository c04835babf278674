-- ===== src/Storage/Expiry.antt =====
-- internal/storage/store.go and string_ops.go: what expiry does to the keyspace as its clients see it.
use go_redis.Prelude.{
  ℕ, inl, inr, ◌≤◌, ◌≡◌, refl, ap, sym, ◌∙◌, List, [], ◌∷◌, Option, none, some, true, if◌then◌else◌,
  Bool-cases, arith,
}
use go_redis.Prelude.Eq.{Text, text_eq, ◌==◌}
use go_redis.Prelude.Maps.{lookup, lookup-remove}
use go_redis.Storage.Store.{Value, Store, delete_key, is_expired, is_past}
use go_redis.Storage.Strings.{
  find, find_entry, clean_entry, clean_key, clean_sample, cleanup_expired_keys,
}

-- a value as a read at `now` sees it
abbrev pub live_value : ℕ → Option Value → Option Value
live_value now none = none
live_value now (some v) = if is_expired now v then none else some v

-- what a client sees under a key at `now`
unfoldable pub live : ℕ → Store → Text → Option Value
live now s key = live_value now (lookup key s.entries)

is_past_later :
    (now later : ℕ) (e : Option ℕ) → now ≤ later → is_past now e ≡ true → is_past later e ≡ true
is_past_later now later none le h = h
is_past_later now later (some t) le h = ground arith

-- An entry that has expired is not seen, now or later.
live_value-expired :
    (now later : ℕ) (v : Value)
    → now ≤ later
    → is_expired now v ≡ true
    → live_value later (some v) ≡ none
unfolding is_expired
live_value-expired now later v le h = simp (is_past_later now later v.expires_at le h)

live-expired :
    (now later : ℕ) (key : Text) (v : Value) (s : Store)
    → now ≤ later
    → lookup key s.entries ≡ some v
    → is_expired now v ≡ true
    → live later s key ≡ none
unfolding live
live-expired now later key v s le e h = rw e (live_value-expired now later v le h)

-- Deleting what is not seen changes nothing that is seen.
live-delete_key :
    (now : ℕ) (key k : Text) (s : Store)
    → live now s key ≡ none
    → live now (delete_key key s) k ≡ live now s k
unfolding live delete_key
live-delete_key now key k s h = elim (Bool-cases (key == k)) [
  | inl e ↦
      rw (ap (live_value now) (lookup-remove key k s.entries), e)
        (sym
          (ap (λ j. live_value now (lookup j s.entries)) (sym ((text_eq.same_iff key k).0 e)) ∙ h))
  | inr n ↦ rw (ap (live_value now) (lookup-remove key k s.entries), n) refl
]

live-found :
    (now : ℕ) (key : Text) (s : Store) (o : Option Value)
    → (find_entry now key s o).1 ≡ live_value now o
unfolding find_entry
live-found now key s none = refl
live-found now key s (some v) = ground arith

-- The read that deletes an expired entry finds what is seen.
pub find-live : (now : ℕ) (key : Text) (s : Store) → (find now key s).1 ≡ live now s key
unfolding live find
find-live now key s = live-found now key s (lookup key s.entries)

live-entry :
    (now later : ℕ) (key k : Text) (s : Store) (o : Option Value)
    → now ≤ later
    → lookup key s.entries ≡ o
    → live later (find_entry now key s o).0 k ≡ live later s k
unfolding find_entry
live-entry now later key k s none le e = refl
live-entry now later key k s (some v) le e = elim (Bool-cases (is_expired now v)) [
  | inl x ↦ rw x (live-delete_key later key k s (live-expired now later key v s le e x))
  | inr n ↦ rw n refl
]

-- The read that deletes an expired entry changes nothing that is seen under any key, at its own
-- time or later.
pub live-find :
    (now later : ℕ) (key k : Text) (s : Store)
    → now ≤ later
    → live later (find now key s).0 k ≡ live later s k
unfolding find
live-find now later key k s le = live-entry now later key k s (lookup key s.entries) le refl

live-clean_entry :
    (now later : ℕ) (key k : Text) (s : Store) (n : ℕ) (o : Option Value)
    → now ≤ later
    → lookup key s.entries ≡ o
    → live later (clean_entry now key s n o).0 k ≡ live later s k
unfolding clean_entry live
live-clean_entry now later key k s n none le e = refl
live-clean_entry now later key k s n (some v) le e = elim (Bool-cases (is_expired now v)) [
  | inl x ↦ rw x (live-delete_key later key k s (live-expired now later key v s le e x))
  | inr m ↦ rw m refl
]

live-clean_sample :
    (now later : ℕ) (ks : List Text) (k : Text) (s : Store) (n : ℕ)
    → now ≤ later
    → live later (clean_sample now ks (s, n)).0 k ≡ live later s k
unfolding clean_sample clean_key
live-clean_sample now later [] k s n le = refl
live-clean_sample now later (key ∷ ks) k s n le =
    let (t, m) = clean_key now key (s, n) in
    live-clean_sample now later ks k t m le
    ∙ live-clean_entry now later key k s n (lookup key s.entries) le refl

-- Every round of the cleaning reads a clock that is not past `later`.
unfoldable pub ClocksUpTo : ℕ → List (ℕ × List Text) → Type 0
ClocksUpTo later [] = Unit
ClocksUpTo later ((now, ks) ∷ rounds) = (now ≤ later) × ClocksUpTo later rounds

-- The background cleaning of expired keys is invisible: whatever keys its rounds happen to sample
-- and however often it goes on, what is seen under any key, at any time from its last clock on, is
-- what was seen before.
pub live-cleanup_expired_keys :
    (later : ℕ) (rounds : List (ℕ × List Text)) (k : Text) (s : Store)
    → ClocksUpTo later rounds
    → live later (cleanup_expired_keys rounds s) k ≡ live later s k
unfolding cleanup_expired_keys ClocksUpTo
live-cleanup_expired_keys later [] k s h = refl
live-cleanup_expired_keys later ((now, []) ∷ rounds) k s h = refl
live-cleanup_expired_keys later ((now, key ∷ ks) ∷ rounds) k s (le, h) =
    let (t, n) = clean_sample now (key ∷ ks) (s, 0) in
    ground (
      arith,
      live-cleanup_expired_keys later rounds k t h,
      live-clean_sample now later (key ∷ ks) k s 0 le,
    )
