-- ===== src/Storage/Strings.antt =====
-- internal/storage/string_ops.go
use go_redis.Prelude.{
  ℕ, ◌+◌, ◌-◌, ◌*◌, List, [], ◌∷◌, Option, none, some, Bool, true, false, ltb, if◌then◌else◌,
  length,
}
use go_redis.Prelude.Eq.{Text, text_eq}
use go_redis.Prelude.Int.{ℤ, pos, negsuc, ◌+ℤ◌, neg_ℤ, wrap64}
use go_redis.Prelude.Maps.{Map, lookup, insert, remove}
use go_redis.Prelude.Decimal.{format_int}
use go_redis.Storage.Store.{
  not_an_integer, Result, ok, err, string_type, Data, str, int64, int, ref, Value, Store,
  delete_key, is_expired, put,
}
use go_redis.Storage.Scan.{parse_int64}
use go_redis.Storage.Seconds.{max_duration, whole_seconds}
use Prim.Native.Nat.{min}

-- The head of most operations: the entry of the key, which is deleted if it has expired.
unfoldable pub find_entry : ℕ → Text → Store → Option Value → Store × Option Value
find_entry now key s none = (s, none)
find_entry now key s (some v) = if is_expired now v then (delete_key key s, none) else (s, some v)

unfoldable pub find : ℕ → Text → Store → Store × Option Value
find now key s = find_entry now key s (lookup key s.entries)

-- the write to the index of expiry times
unfoldable pub index_expiry : Text → Option ℕ → Store → Store
index_expiry key none s = record s { data_with_expiry = remove key s.data_with_expiry }
index_expiry key (some t) s = record s { data_with_expiry = insert key t s.data_with_expiry }

unfoldable pub set : Text → Data → Option ℕ → Store → Store
set key value expiry s =
    index_expiry key expiry
      (put key (record { content = value; expires_at = expiry; type = string_type }) s)

abbrev pub content_of : Option Value → Option Data
content_of none = none
content_of (some v) = some v.content

abbrev pub is_found : Option Value → Bool
is_found none = false
is_found (some v) = true

unfoldable pub get : ℕ → Text → Store → Store × Option Data
get now key s = let (t, v) = find now key s in (t, content_of v)

unfoldable pub delete_entry : Text → Store → Option Value → Store × Bool
delete_entry key s none = (s, false)
delete_entry key s (some v) = (delete_key key s, true)

unfoldable pub delete : Text → Store → Store × Bool
delete key s = delete_entry key s (lookup key s.entries)

unfoldable pub exists : ℕ → Text → Store → Store × Bool
exists now key s = let (t, v) = find now key s in (t, is_found v)

-- `val.ExpiresAt == nil || now.Before(*val.ExpiresAt)`
abbrev pub is_current : ℕ → Option ℕ → Bool
is_current now none = true
is_current now (some t) = ltb now t

current_keys : ℕ → Map Text Value → List Text
current_keys now [] = []
current_keys now ((key, v) ∷ m) =
    let rest = current_keys now m in if is_current now v.expires_at then key ∷ rest else rest

unfoldable pub keys : ℕ → Store → List Text
unfolding current_keys
keys now s = current_keys now s.entries

unfoldable pub flush : Store → Store
flush s = record s { entries = []; data_with_expiry = [] }

unfoldable pub expire_entry : ℕ → Text → Option ℕ → Store → Option Value → Store × Bool
expire_entry now key expiry s none = (s, false)
expire_entry now key expiry s (some v) =
    if is_expired now v
    then (delete_key key s, false)
    else (index_expiry key expiry (put key (record v { expires_at = expiry }) s), true)

unfoldable pub expire : ℕ → Text → Option ℕ → Store → Store × Bool
expire now key expiry s = expire_entry now key expiry s (lookup key s.entries)

-- `later` is what `time.Until` reads, after `now` was read; its answer stops at the largest duration.
unfoldable pub time_left : ℕ → Text → Option ℕ → Store → Store × ℤ
time_left later key none s = (s, negsuc 0)
time_left later key (some t) s =
    if ltb t later
    then (delete_key key s, negsuc 1)
    else (s, pos (whole_seconds (min (t - later) max_duration)))

unfoldable pub ttl_entry : ℕ → ℕ → Text → Store → Option Value → Store × ℤ
unfolding time_left
ttl_entry now later key s none = (s, negsuc 1)
ttl_entry now later key s (some v) =
    if is_expired now v then (delete_key key s, negsuc 1) else time_left later key v.expires_at s

unfoldable pub ttl : ℕ → ℕ → Text → Store → Store × ℤ
ttl now later key s = ttl_entry now later key s (lookup key s.entries)

-- the type switch of `IncrBy`
unfoldable pub number_of : Data → Option ℤ
number_of (str t) = parse_int64 t
number_of (int64 z) = some z
number_of (int z) = some z
number_of (ref p) = none

unfoldable pub current_number : Option Value → Option ℤ
unfolding number_of
current_number none = some (pos 0)
current_number (some v) = number_of v.content

unfoldable pub put_number : Text → ℤ → Store → Store
put_number key z s =
    put key (record { content = str (format_int z); expires_at = none; type = string_type }) s

unfoldable pub incr_entry : Text → ℤ → Option ℤ → Store → Store × Result ℤ
incr_entry key increment none s = (s, err not_an_integer)
incr_entry key increment (some current) s =
    (put_number key (wrap64 (current +ℤ increment)) s, ok (wrap64 (current +ℤ increment)))

unfoldable pub incr_by : ℕ → Text → ℤ → Store → Store × Result ℤ
incr_by now key increment s =
    let (t, v) = find now key s in incr_entry key increment (current_number v) t

unfoldable pub incr : ℕ → Text → Store → Store × Result ℤ
incr now key s = incr_by now key (pos 1) s

unfoldable pub decr : ℕ → Text → Store → Store × Result ℤ
decr now key s = incr_by now key (negsuc 0) s

unfoldable pub decr_by : ℕ → Text → ℤ → Store → Store × Result ℤ
decr_by now key decrement s = incr_by now key (wrap64 (neg_ℤ decrement)) s

-- One key of a sample of `CleanupExpiredKeys`, with the number of keys that expired.
unfoldable pub clean_entry : ℕ → Text → Store → ℕ → Option Value → Store × ℕ
clean_entry now key s n none = (record s { data_with_expiry = remove key s.data_with_expiry }, n)
clean_entry now key s n (some v) = if is_expired now v then (delete_key key s, n + 1) else (s, n)

unfoldable pub clean_key : ℕ → Text → Store × ℕ → Store × ℕ
clean_key now key (s, n) = clean_entry now key s n (lookup key s.entries)

unfoldable pub clean_sample : ℕ → List Text → Store × ℕ → Store × ℕ
clean_sample now [] r = r
clean_sample now (key ∷ ks) r = clean_sample now ks (clean_key now key r)

abbrev pub keys_per_sample : ℕ
keys_per_sample = 20

-- The rounds of `CleanupExpiredKeys` for which the time suffices, each with its clock and the keys
-- that the iteration over the index happens to give first.
unfoldable pub cleanup_expired_keys : List (ℕ × List Text) → Store → Store
cleanup_expired_keys [] s = s
cleanup_expired_keys ((now, []) ∷ rounds) s = s
cleanup_expired_keys ((now, key ∷ ks) ∷ rounds) s =
    let (t, n) = clean_sample now (key ∷ ks) (s, 0) in
    let again = cleanup_expired_keys rounds t in
    if ltb (length (key ∷ ks)) keys_per_sample
    then t
    else if ltb (n * 4) keys_per_sample
    then t
    else again
