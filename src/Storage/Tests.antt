-- ===== src/Storage/Tests.antt =====
-- Runs of the keyspace's operations.
use go_redis.Prelude.{
  ◌≡◌, refl, [], ◌∷◌, none, some, not, ◌&&◌, ◌||◌, ltb, if◌then◌else◌, arith, ◌-◌, ◌*◌, ◌^◌, ◌/◌,
}
use go_redis.Prelude.Eq.{Text, text_eq, text_beq, ◌==◌}
use go_redis.Prelude.Int.{pos, negsuc, wrap64, ◌+ℤ◌}
use go_redis.Prelude.Maps.{lookup-nil, lookup, insert, remove, member, elem}
use go_redis.Storage.Store.{
  ok, Store, str, new_store, string_type, is_past, hash, delete_key, is_expired, alloc, write, put,
  get_all_data, is_snapshot_active,
}
use go_redis.Storage.Strings.{
  ttl, expire, cleanup_expired_keys, set, get, find, find_entry, index_expiry, incr_by, incr_entry,
  current_number,
}
use go_redis.Storage.Expiry.{live, live-find, live-cleanup_expired_keys, ClocksUpTo}
use go_redis.Storage.Seconds.{second, whole_seconds, nearest, last_place, bits, round_even}
use go_redis.Storage.Counters.{get-set, incr_by_add, ttl-incr_by, ttl-expire}
use go_redis.Storage.Hashes.{
  h_get, read_hash, read_pointer, existing, get_existing_hash, h_set, h_set_nx, hash_set,
  hash_set_nx, set_nx_through, as_hash, new_hash, created_hash, hash_or_new, get_or_create_hash,
  save_fields, save_hash, clone_hash, set_fields, set_through, set_or_clone,
}
use go_redis.Storage.Sets.{
  s_rem, read_set, read_at, existing_set, get_existing_set, s_is_member, Members, union, intersect,
  diff, s_add, add, add_members, as_set, new_set, created_set, set_or_new, get_or_create_set,
  save_members, save_set, clone_set, add_through, add_or_clone,
}
use go_redis.Storage.Snapshot.{hset, sadd, apply_all, apply_all-get_all_data, IsCounted}
use go_redis.Storage.Membership.{member-union, member-intersect, member-diff}
use go_redis.Storage.Scan.{parse_int64}
use go_redis.Protocol.Parse.{space_width}
use go_redis.Storage.Fields.{h_get-h_set, last_written}
use go_redis.Storage.Removing.{s_is_member-s_rem}
use go_redis.Storage.Schedule.{IsScheduled}
use go_redis.Storage.Operations.{
  set_call, incr_by_call, expire_call, exists_call, ttl_call, call_all, call_all-IsScheduled,
}
use go_redis.Storage.Adding.{s_is_member-s_add, IsSetOrNone}

abbrev name : Text
name = b'n' ∷ b'a' ∷ b'm' ∷ b'e' ∷ []

abbrev go_text : Text
go_text = b'g' ∷ b'o' ∷ []

abbrev hits : Text
hits = b'h' ∷ b'i' ∷ b't' ∷ b's' ∷ []

abbrev forty_one : Text
forty_one = b'4' ∷ b'1' ∷ []

abbrev seven : Text
seven = b'7' ∷ []

abbrev tags : Text
tags = b't' ∷ b'a' ∷ b'g' ∷ b's' ∷ []

abbrev letter_a : Text
letter_a = b'a' ∷ []

abbrev letter_b : Text
letter_b = b'b' ∷ []

abbrev user : Text
user = b'u' ∷ b's' ∷ b'e' ∷ b'r' ∷ []

abbrev ann : Text
ann = b'a' ∷ b'n' ∷ b'n' ∷ []

abbrev bob : Text
bob = b'b' ∷ b'o' ∷ b'b' ∷ []

abbrev letter_c : Text
letter_c = b'c' ∷ []

abbrev age : Text
age = b'a' ∷ b'g' ∷ b'e' ∷ []

abbrev letter_d : Text
letter_d = b'd' ∷ []

program : Unit {0}
unfolding s_is_member read_set read_at existing_set get_existing_set read_hash read_pointer existing
    get_existing_hash lookup insert remove member elem text_beq wrap64 ◌+ℤ◌ live ClocksUpTo
    IsCounted IsSetOrNone parse_int64 space_width set get find find_entry index_expiry incr_by
    incr_entry current_number delete_key is_expired alloc write put get_all_data is_snapshot_active
    h_set h_set_nx h_get hash_set hash_set_nx set_nx_through as_hash new_hash created_hash
    hash_or_new get_or_create_hash save_fields save_hash clone_hash set_fields set_through
    set_or_clone s_add add add_members as_set new_set created_set set_or_new get_or_create_set
    save_members save_set clone_set add_through add_or_clone
program = tt

-- `hits` stands at 41 until 100, `name` stays.
abbrev counters : Store
unfolding program
counters = set name (str go_text) none (set hits (str forty_one) (some 100) new_store)

live-find_example : live 200 (find 150 hits counters).0 name ≡ live 200 counters name
live-find_example = live-find 150 200 hits name counters (omega arith)

live-cleanup_expired_keys_example :
    live 200 (cleanup_expired_keys ((150, hits ∷ name ∷ []) ∷ []) counters) hits
    ≡ live 200 counters hits
unfolding program
live-cleanup_expired_keys_example =
    live-cleanup_expired_keys 200 ((150, hits ∷ name ∷ []) ∷ []) hits counters (omega arith, tt)

get-set_example : (get 50 hits (set hits (str seven) (some 60) counters)).1 ≡ (
    if hits == hits
    then (if is_past 50 (some 60) then none else some (str seven))
    else (get 50 hits counters).1)
get-set_example = get-set 50 hits hits (str seven) (some 60) counters

incr_by_add_example :
    (incr_by 60 hits (pos 2) (incr_by 50 hits (negsuc 4) counters).0).1
    ≡ (incr_by 50 hits (negsuc 4 +ℤ pos 2) counters).1
unfolding program counters
incr_by_add_example = incr_by_add 50 60 hits (negsuc 4) (pos 2) (pos 41) counters refl

ttl-incr_by_example : (ttl 60 60 hits (incr_by 50 hits (pos 1) counters).0).1 ≡ negsuc 0
unfolding program counters
ttl-incr_by_example = ttl-incr_by 50 60 60 hits (pos 1) (pos 42) counters refl

ttl-expire_example :
    (ttl 60 60 name (expire 50 name (some 5000000060) counters).0).1
    ≡ (if ltb 5000000060 60 then negsuc 1 else pos ((5000000060 - 60) / second))
unfolding program counters
ttl-expire_example =
    ttl-expire 50 60 60 5000000060 name
      (record { content = str go_text; expires_at = none; type = string_type }) counters refl
      (omega arith) (omega arith)

-- One nanosecond before 2^25 seconds are over, TTL rounds up.
rounded_up : whole_seconds (2 ^ 25 * second - 1) ≡ 2 ^ 25
unfolding whole_seconds nearest last_place bits round_even
rounded_up = refl

-- A hash and a set, at the addresses 0 and 1.
abbrev collections : Store
collections =
    (s_add 0 tags (letter_a ∷ letter_b ∷ []) (h_set 0 user (name ∷ ann ∷ []) new_store).0).0

apply_all-get_all_data_example :
    (apply_all
        ((1, hset user (name ∷ bob ∷ [])) ∷ (2, sadd tags (letter_c ∷ [])) ∷ [])
        (get_all_data collections).0).heap
      0
    ≡ collections.heap 0
unfolding program
apply_all-get_all_data_example =
    apply_all-get_all_data ((1, hset user (name ∷ bob ∷ [])) ∷ (2, sadd tags (letter_c ∷ [])) ∷ [])
      collections 0 (0, refl) (omega arith)

-- HSETNX writes into the object that a snapshot shares.
h_set_nx_shared :
    (h_set_nx 1 user age seven (get_all_data collections).0).0.heap 0
    ≡ hash ((name, ann) ∷ (age, seven) ∷ [])
unfolding program
h_set_nx_shared = refl

s_is_member-s_add_example :
    (s_is_member 5 tags letter_c (s_add 1 tags (letter_c ∷ []) (get_all_data collections).0).0).1
    ≡ (elem letter_c (letter_c ∷ [])
        || (s_is_member 1 tags letter_c (get_all_data collections).0).1)
unfolding program
s_is_member-s_add_example =
    s_is_member-s_add 1 5 tags letter_c (letter_c ∷ []) (get_all_data collections).0 refl

abbrev few : Members
few = (letter_a, tt) ∷ (letter_b, tt) ∷ []

abbrev more : Members
more = (letter_b, tt) ∷ (letter_c, tt) ∷ (letter_d, tt) ∷ []

member-union_example :
    member letter_c (union few more) ≡ (member letter_c few || member letter_c more)
member-union_example = member-union letter_c few more

member-intersect_example :
    member letter_b (intersect few more) ≡ (member letter_b few && member letter_b more)
member-intersect_example = member-intersect letter_b few more

member-diff_example :
    member letter_b (diff few more) ≡ (member letter_b few && not (member letter_b more))
member-diff_example = member-diff letter_b few more

h_get-h_set_example :
    (h_get 5 user age (h_set 1 user (age ∷ seven ∷ []) (get_all_data collections).0).0).1
    ≡ ok (last_written age (age ∷ seven ∷ []) none)
unfolding program
h_get-h_set_example =
    h_get-h_set 1 5 user age (age ∷ seven ∷ []) none (get_all_data collections).0 refl refl

s_is_member-s_rem_example :
    (s_is_member 5 tags letter_a (s_rem 1 tags (letter_b ∷ []) (get_all_data collections).0).0).1
    ≡ not (elem letter_a (letter_b ∷ []))
unfolding program
s_is_member-s_rem_example =
    s_is_member-s_rem 1 5 tags letter_a (letter_b ∷ []) (get_all_data collections).0 refl

new_store-IsScheduled : IsScheduled new_store
new_store-IsScheduled = record { scheduled = λ k. rw lookup-nil tt }

call_all-IsScheduled_example : IsScheduled (
    call_all
      (set_call hits (str forty_one) (some 100)
        ∷ incr_by_call 50 hits (pos 1)
        ∷ expire_call 60 hits (some 90)
        ∷ exists_call 80 hits
        ∷ ttl_call 95 95 hits
        ∷ [])
      new_store)
call_all-IsScheduled_example =
    call_all-IsScheduled
      (set_call hits (str forty_one) (some 100)
        ∷ incr_by_call 50 hits (pos 1)
        ∷ expire_call 60 hits (some 90)
        ∷ exists_call 80 hits
        ∷ ttl_call 95 95 hits
        ∷ [])
      new_store new_store-IsScheduled
