-- ===== src/Storage/Operations.antt =====
-- internal/storage/string_ops.go: the index of expiry times under any sequence of its methods.
use go_redis.Prelude.{
  ℕ, refl, List, [], ◌∷◌, Option, none, some, Bool, true, false, if◌then◌else◌, ltb,
}
use go_redis.Prelude.Eq.{Text, text_eq}
use go_redis.Prelude.Int.{ℤ, pos, negsuc}
use go_redis.Prelude.Maps.{lookup, lookup-nil}
use go_redis.Storage.Store.{Value, Store, Data, is_expired}
use go_redis.Storage.Strings.{
  find, set, get, delete, delete_entry, flush, expire, incr_by, cleanup_expired_keys, exists, ttl,
  ttl_entry, time_left, incr, decr, decr_by,
}
use go_redis.Storage.Schedule.{
  IsScheduled, delete_key-IsScheduled, put-IsScheduled, find-IsScheduled, expire-IsScheduled,
  incr-IsScheduled, cleanup-IsScheduled,
}

-- The methods of string_ops.go.
pub data Call : Type 0 where
  set_call : Text → Data → Option ℕ → Call
  get_call exists_call : ℕ → Text → Call
  delete_call : Text → Call
  keys_call : ℕ → Call
  flush_call : Call
  expire_call : ℕ → Text → Option ℕ → Call
  ttl_call : ℕ → ℕ → Text → Call
  incr_call decr_call : ℕ → Text → Call
  incr_by_call decr_by_call : ℕ → Text → ℤ → Call
  cleanup_call : List (ℕ × List Text) → Call

-- The store after a call; `Keys` only reads it.
unfoldable pub call : Call → Store → Store
call (set_call key value expiry) s = set key value expiry s
call (get_call now key) s = (get now key s).0
call (exists_call now key) s = (exists now key s).0
call (delete_call key) s = (delete key s).0
call (keys_call now) s = s
call flush_call s = flush s
call (expire_call now key expiry) s = (expire now key expiry s).0
call (ttl_call now later key) s = (ttl now later key s).0
call (incr_call now key) s = (incr now key s).0
call (decr_call now key) s = (decr now key s).0
call (incr_by_call now key increment) s = (incr_by now key increment s).0
call (decr_by_call now key decrement) s = (decr_by now key decrement s).0
call (cleanup_call rounds) s = cleanup_expired_keys rounds s

unfoldable pub call_all : List Call → Store → Store
call_all [] s = s
call_all (c ∷ cs) s = call_all cs (call c s)

delete-IsScheduled :
    (key : Text) (o : Option Value) {s : Store}
    → IsScheduled s
    → IsScheduled (delete_entry key s o).0
unfolding delete_entry
delete-IsScheduled key none h = h
delete-IsScheduled key (some v) h = delete_key-IsScheduled key h

if-IsScheduled :
    {A : Type 0} (b : Bool) (x y : Store × A)
    → IsScheduled x.0
    → IsScheduled y.0
    → IsScheduled (if b then x else y).0
if-IsScheduled true x y h k = h
if-IsScheduled false x y h k = k

time_left-IsScheduled :
    (later : ℕ) (key : Text) (o : Option ℕ) {s : Store}
    → IsScheduled s
    → IsScheduled (time_left later key o s).0
unfolding time_left
time_left-IsScheduled later key none h = h
time_left-IsScheduled later key (some t) {s} h =
    if-IsScheduled (ltb t later) _ _ (delete_key-IsScheduled key h) h

ttl-IsScheduled :
    (now later : ℕ) (key : Text) (o : Option Value) {s : Store}
    → IsScheduled s
    → IsScheduled (ttl_entry now later key s o).0
unfolding ttl_entry
ttl-IsScheduled now later key none h = h
ttl-IsScheduled now later key (some v) {s} h =
    if-IsScheduled (is_expired now v) _ _ (delete_key-IsScheduled key h)
      (time_left-IsScheduled later key v.expires_at h)

incr_by-IsScheduled :
    (now : ℕ) (key : Text) (increment : ℤ) {s : Store}
    → IsScheduled s
    → IsScheduled (incr_by now key increment s).0
unfolding incr_by find
incr_by-IsScheduled now key increment {s} h =
    incr-IsScheduled key increment _ (find-IsScheduled now key (lookup key s.entries) h)

call-IsScheduled : (c : Call) {s : Store} → IsScheduled s → IsScheduled (call c s)
unfolding call set get exists delete expire ttl incr decr decr_by flush find
call-IsScheduled (set_call key value expiry) h = put-IsScheduled key _ expiry refl h
call-IsScheduled (get_call now key) {s} h = find-IsScheduled now key (lookup key s.entries) h
call-IsScheduled (exists_call now key) {s} h = find-IsScheduled now key (lookup key s.entries) h
call-IsScheduled (delete_call key) {s} h = delete-IsScheduled key (lookup key s.entries) h
call-IsScheduled (keys_call now) h = h
call-IsScheduled flush_call h = record { scheduled = λ k. rw lookup-nil tt }
call-IsScheduled (expire_call now key expiry) {s} h =
    expire-IsScheduled now key expiry (lookup key s.entries) h
call-IsScheduled (ttl_call now later key) {s} h =
    ttl-IsScheduled now later key (lookup key s.entries) h
call-IsScheduled (incr_call now key) h = incr_by-IsScheduled now key (pos 1) h
call-IsScheduled (decr_call now key) h = incr_by-IsScheduled now key (negsuc 0) h
call-IsScheduled (incr_by_call now key increment) h = incr_by-IsScheduled now key increment h
call-IsScheduled (decr_by_call now key decrement) h = incr_by-IsScheduled now key _ h
call-IsScheduled (cleanup_call rounds) h = cleanup-IsScheduled rounds h

-- Whatever methods of string_ops.go follow each other, every key with an expiry time stays in the
-- index of expiry times, with the time of its value.
pub call_all-IsScheduled :
    (cs : List Call) (s : Store) → IsScheduled s → IsScheduled (call_all cs s)
unfolding call_all
call_all-IsScheduled [] s h = h
call_all-IsScheduled (c ∷ cs) s h = call_all-IsScheduled cs (call c s) (call-IsScheduled c h)
