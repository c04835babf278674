-- ===== src/Storage/Counters.antt =====
-- internal/storage/string_ops.go: writes, expiry times and counters.
use go_redis.Prelude.{
  ℕ, inl, inr, ◌-◌, ◌/◌, ◌+◌, ◌*◌, ◌^◌, ◌<◌, ◌≤◌, ◌≡◌, refl, ap, ◌∙◌, Option, none, some, ltb,
  ltb→lt, lt→ltb, if◌then◌else◌, Bool-cases, arith,
}
use go_redis.Prelude.Eq.{Text, text_eq, ◌==◌}
use go_redis.Prelude.Int.{ℤ, pos, negsuc, ◌+ℤ◌, wrap64, InInt64, wrap64-InInt64}
use go_redis.Prelude.Decimal.{format_int}
use go_redis.Prelude.Maps.{lookup, lookup-insert, lookup-insert_self}
use go_redis.Storage.Store.{Value, Store, Data, str, ok, is_expired, is_past, put, string_type}
use go_redis.Storage.Strings.{
  find, set, get, index_expiry, expire, expire_entry, ttl, ttl_entry, time_left, number_of,
  current_number, put_number, incr_entry, incr_by,
}
use go_redis.Storage.Seconds.{second, max_duration}
use go_redis.Storage.Seconds.Exact.{whole_seconds-exact}
use Prim.Native.Nat.{min}
use go_redis.Storage.Scan.{parse_int64-format_int}
use go_redis.Storage.Expiry.{live, live_value, find-live}

+ℤ_assoc : (a b c : ℤ) → (a +ℤ b) +ℤ c ≡ a +ℤ (b +ℤ c)
unfolding ◌+ℤ◌
+ℤ_assoc (pos a) (pos b) (pos c) = ground arith
+ℤ_assoc (pos a) (pos b) (negsuc c) = ground arith
+ℤ_assoc (pos a) (negsuc b) (pos c) = ground arith
+ℤ_assoc (pos a) (negsuc b) (negsuc c) = ground arith
+ℤ_assoc (negsuc a) (pos b) (pos c) = ground arith
+ℤ_assoc (negsuc a) (pos b) (negsuc c) = ground arith
+ℤ_assoc (negsuc a) (negsuc b) (pos c) = ground arith
+ℤ_assoc (negsuc a) (negsuc b) (negsuc c) = ground arith

wrap64-+ℤ : (a b : ℤ) → wrap64 (wrap64 a +ℤ b) ≡ wrap64 (a +ℤ b)
unfolding ◌+ℤ◌ wrap64
wrap64-+ℤ (pos a) (pos b) = ground arith
wrap64-+ℤ (pos a) (negsuc b) = ground arith
wrap64-+ℤ (negsuc a) (pos b) = ground arith
wrap64-+ℤ (negsuc a) (negsuc b) = ground arith

live-set :
    (now : ℕ) (key k : Text) (value : Data) (expiry : Option ℕ) (s : Store)
    → live now (set key value expiry s) k ≡ (
        if key == k
        then live_value now
            (some (record { content = value; expires_at = expiry; type = string_type }))
        else live now s k)
unfolding live set put index_expiry
live-set now key k value none s = rw (lookup-insert key k) (ground arith)
live-set now key k value (some t) s = rw (lookup-insert key k) (ground arith)

live-put_number :
    (now : ℕ) (key : Text) (z : ℤ) (s : Store)
    → live now (put_number key z s) key
      ≡ some (record { content = str (format_int z); expires_at = none; type = string_type })
unfolding live put_number put is_expired
live-put_number now key z s = rw lookup-insert_self refl

-- what a counter stands at, 0 for a missing key
current_number-put_number :
    (now : ℕ) (key : Text) (z : ℤ) (s : Store)
    → InInt64 z
    → current_number (find now key (put_number key z s)).1 ≡ some z
unfolding current_number number_of
current_number-put_number now key z s h =
    rw (find-live, live-put_number) (parse_int64-format_int z h)

-- What a GET after a SET sees: the new value under its key until its expiry time has passed and
-- nothing after it, and under any other key what was seen before.
pub get-set :
    (now : ℕ) (key k : Text) (value : Data) (expiry : Option ℕ) (s : Store)
    → (get now k (set key value expiry s)).1
      ≡ (if key == k then (if is_past now expiry then none else some value) else (get now k s).1)
unfolding get is_expired
get-set now key k value expiry s =
    rw (find-live now k (set key value expiry s), live-set, find-live now k s)
      (elim (Bool-cases (key == k)) [
        | inl e ↦
            rw e (elim (Bool-cases (is_past now expiry)) [ inl p ↦ rw p refl | inr n ↦ rw n refl ])
        | inr n ↦ rw n refl
      ])

incr_entry_add :
    (later : ℕ) (key : Text) (a b n : ℤ) (s : Store)
    → (incr_by later key b (incr_entry key a (some n) s).0).1
      ≡ (incr_entry key (a +ℤ b) (some n) s).1
unfolding incr_by incr_entry
incr_entry_add later key a b n s =
    rw (current_number-put_number later key (wrap64 (n +ℤ a)) s (wrap64-InInt64 (n +ℤ a)))
      (ap ok (wrap64-+ℤ (n +ℤ a) b ∙ ap wrap64 (+ℤ_assoc n a b)))

-- Two increments of a counter answer what one increment by the sum answers, with the wrap-around of
-- `int64`, if the key holds a number or is missing at the time of the first one.
pub incr_by_add :
    (now later : ℕ) (key : Text) (a b n : ℤ) (s : Store)
    → current_number (live now s key) ≡ some n
    → (incr_by later key b (incr_by now key a s).0).1 ≡ (incr_by now key (a +ℤ b) s).1
unfolding incr_by
incr_by_add now later key a b n s h =
    rw (find-live now key s, h) (incr_entry_add later key a b n (find now key s).0)

ttl-put_number :
    (now later : ℕ) (key : Text) (z : ℤ) (s : Store)
    → (ttl now later key (put_number key z s)).1 ≡ negsuc 0
unfolding ttl put_number put ttl_entry is_expired time_left
ttl-put_number now later key z s = rw lookup-insert_self refl

ttl-incr_entry :
    (now later : ℕ) (key : Text) (a z : ℤ) (n : Option ℤ) (s : Store)
    → (incr_entry key a n s).1 ≡ ok z
    → (ttl now later key (incr_entry key a n s).0).1 ≡ negsuc 0
unfolding incr_entry
ttl-incr_entry now later key a z none s h = ground arith
ttl-incr_entry now later key a z (some n) s h = ttl-put_number now later key (wrap64 (n +ℤ a)) s

-- An increment that succeeds takes the expiry time away: TTL then answers -1 at any time,
-- whatever it answered before.
pub ttl-incr_by :
    (now now' later : ℕ) (key : Text) (a z : ℤ) (s : Store)
    → (incr_by now key a s).1 ≡ ok z
    → (ttl now' later key (incr_by now key a s).0).1 ≡ negsuc 0
unfolding incr_by
ttl-incr_by now now' later key a z s h =
    ttl-incr_entry now' later key a z (current_number (find now key s).1) (find now key s).0 h

time_left-exact :
    (later t : ℕ) (key : Text) (s : Store)
    → t < later + 2 ^ 24 * second
    → (time_left later key (some t) s).1
      ≡ (if ltb t later then negsuc 1 else pos ((t - later) / second))
unfolding time_left
time_left-exact later t key s soon =
    let fits : min (t - later) max_duration ≡ t - later = omega arith in
    let e = whole_seconds-exact (t - later) (omega arith) in rw (fits, e) (ground arith)

ttl-index_expiry :
    (now later t : ℕ) (key : Text) (v : Value) (s : Store)
    → now ≤ later
    → t < later + 2 ^ 24 * second
    → (ttl now later key
        (index_expiry key (some t) (put key (record v { expires_at = some t }) s))).1
      ≡ (if ltb t later then negsuc 1 else pos ((t - later) / second))
unfolding ttl put index_expiry ttl_entry is_expired
ttl-index_expiry now later t key v s le soon =
    rw lookup-insert_self (elim (Bool-cases (ltb t now)) [
      | inl past ↦
          let gone = lt→ltb t later (omega (arith, ltb→lt t now past)) in rw (past, gone) refl
      | inr current ↦ rw current (time_left-exact later t key _ soon)
    ])

ttl-expire_entry :
    (now now' later t : ℕ) (key : Text) (v : Value) (o : Option Value) (s : Store)
    → live_value now o ≡ some v
    → now' ≤ later
    → t < later + 2 ^ 24 * second
    → (ttl now' later key (expire_entry now key (some t) s o).0).1
      ≡ (if ltb t later then negsuc 1 else pos ((t - later) / second))
unfolding expire_entry
ttl-expire_entry now now' later t key v none s h le soon = ground arith
ttl-expire_entry now now' later t key v (some w) s h le soon =
    elim (Bool-cases (is_expired now w)) [
      | inl e ↦ ground arith
      | inr n ↦ rw n (ttl-index_expiry now' later t key w s le soon)
    ]

-- After an EXPIRE on a key that is seen, with a time that is less than 2^24 seconds ahead when TTL
-- computes its answer, TTL answers the whole seconds that are left until the new time is over, and
-- -2 after it: neither the rounding of the floating-point numbers nor the limit of a duration shows.
pub ttl-expire :
    (now now' later t : ℕ) (key : Text) (v : Value) (s : Store)
    → live now s key ≡ some v
    → now' ≤ later
    → t < later + 2 ^ 24 * second
    → (ttl now' later key (expire now key (some t) s).0).1
      ≡ (if ltb t later then negsuc 1 else pos ((t - later) / second))
unfolding expire live
ttl-expire now now' later t key v s h le soon =
    ttl-expire_entry now now' later t key v (lookup key s.entries) s h le soon
