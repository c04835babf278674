-- ===== src/Storage/Store.antt =====
-- internal/storage/store.go. Hashes, sets and the other collections are pointers in the source: a
-- value refers to an object in the heap, which a snapshot shares with the store. `now` is what
-- `time.Now()` returns, in nanoseconds.
use go_redis.Prelude.{
  ℕ, zero, suc, ◌+◌, [], Option, none, some, Bool, true, false, ltb, if◌then◌else◌,
}
use go_redis.Prelude.Eq.{Text, text_eq, nat_eq, ◌==◌}
use go_redis.Prelude.Int.{ℤ, pos, negsuc, ◌+ℤ◌}
use go_redis.Prelude.Maps.{Map, insert, remove}
use go_redis.Storage.Linked.{LinkedList}

pub data Error : Type 0 where
  wrong_type wrong_num_args hash_value_not_integer not_an_integer no_such_key index_out_of_range
        key_not_found invalid_operation :
      Error

pub data Result {ℓ} (A : Type ℓ) : Type ℓ where
  ok : A → Result A
  err : Error → Result A

pub data ValueType : Type 0 where
  string_type list_type set_type hash_type zset_type bloom_filter_type hyper_log_log_type :
      ValueType

-- The dynamic types of `Value.Data`; a pointer is an address in the heap.
pub data Data : Type 0 where
  str : Text → Data
  int64 int : ℤ → Data
  ref : ℕ → Data

-- `*Hash`, `*Set`, `*List`, or an object of another type
pub data Object : Type 0 where
  hash : Map Text Text → Object
  set : Map Text (Unit {0}) → Object
  list : LinkedList → Object
  other : Object

pub record Value : Type 0 where
  pub content : Data
  pub expires_at : Option ℕ
  pub type : ValueType

-- `next` is the first free address.
pub record Store : Type 0 where
  pub entries : Map Text Value
  pub data_with_expiry : Map Text ℕ
  pub snapshot_count : ℤ
  pub heap : ℕ → Object
  pub next : ℕ

abbrev pub new_store : Store
new_store = record {
  entries = [];
  data_with_expiry = [];
  snapshot_count = pos 0;
  heap = λ p. other;
  next = 0;
}

unfoldable pub delete_key : Text → Store → Store
delete_key key s = record s {
  entries = remove key s.entries;
  data_with_expiry = remove key s.data_with_expiry;
}

-- `val.ExpiresAt != nil && time.Now().After(*val.ExpiresAt)`
abbrev pub is_past : ℕ → Option ℕ → Bool
is_past now none = false
is_past now (some t) = ltb t now

unfoldable pub is_expired : ℕ → Value → Bool
is_expired now v = is_past now v.expires_at

-- a new object
unfoldable pub alloc : Object → Store → Store × ℕ
alloc o s =
    (record s { heap = λ p. if p == s.next then o else s.heap p; next = s.next + 1 }, s.next)

-- a write through a pointer
unfoldable pub write : ℕ → Object → Store → Store
write q o s = record s { heap = λ p. if p == q then o else s.heap p }

unfoldable pub put : Text → Value → Store → Store
put key v s = record s { entries = insert key v s.entries }

-- The copy that `GetAllData` returns holds the same pointers as the store. The count is not bounded here,
-- as the int32 of the source is.
unfoldable pub get_all_data : Store → Store × Map Text Value
get_all_data s = (record s { snapshot_count = s.snapshot_count +ℤ pos 1 }, s.entries)

unfoldable pub release_snapshot : Store → Store
release_snapshot s = record s { snapshot_count = s.snapshot_count +ℤ negsuc 0 }

abbrev pub is_positive : ℤ → Bool
is_positive (pos zero) = false
is_positive (pos (suc n)) = true
is_positive (negsuc n) = false

unfoldable pub is_snapshot_active : Store → Bool
is_snapshot_active s = is_positive s.snapshot_count
