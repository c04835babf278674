-- ===== src/Transactions/Index.antt =====
-- transaction.go: the reverse index `keyWatchers`, and when it agrees with the watched keys of the
-- transactions.
use go_redis.Prelude.{
  ℕ, ◌≡◌, refl, ◌∙◌, List, [], ◌∷◌, Bool, false, ◌||◌, ◌&&◌, Option, none, some, arith,
  if◌then◌else◌, Option-cases, inl, inr,
}
use go_redis.Prelude.Eq.{Text, text_eq, nat_eq, ◌==◌, text_beq_iff}
use go_redis.Prelude.Maps.{
  Map, keys, lookup, member, elem, elem-keys, lookup-insert, lookup-remove, lookup-nil,
  member-insert, member-remove, member-nil,
}
use go_redis.Transactions.Manager.{
  Transaction, clear_watches, mark_dirty, is_watching, Watchers, TransactionManager,
  new_transaction_manager, get_transaction, without_client, drop_watcher, drop_watchers,
  remove_client, add_watcher, watch_key, unwatch_all_keys, mark_client, mark_clients, touch_key,
  touch_keys,
}

abbrev pub watching : Option Transaction → Text → Bool
watching none key = false
watching (some tx) key = is_watching tx key

abbrev pub listed : Option (Map ℕ (Unit {0})) → ℕ → Bool
listed none client = false
listed (some watchers) client = member client watchers

unfoldable pub indexed : Watchers → Text → ℕ → Bool
indexed w key client = listed (lookup key w) client

pub record IsIndexed (tm : TransactionManager) : Type 0 where
  pub agree :
      (client : ℕ) (key : Text)
      → indexed tm.key_watchers key client ≡ watching (lookup client tm.transactions) key

indexed-add_watcher :
    (c d : ℕ) (key j : Text) (w : Watchers)
    → indexed (add_watcher c key w) j d ≡ ((key == j && c == d) || indexed w j d)
unfolding indexed add_watcher
indexed-add_watcher c d key j w = elim (Option-cases (lookup key w)) [
  | inl e ↦
      rw (e, add_watcher)
        (rw lookup-insert (
          ground (
            arith,
            e,
            text_beq_iff key j,
            member-insert {0, 0} c d tt [],
            member-nil {0, 0} (Unit {0}) d,
          )))
  | inr (ws, e) ↦
      rw (e, add_watcher)
        (rw lookup-insert (ground (arith, e, text_beq_iff key j, member-insert {0, 0} c d tt ws)))
]

listed-without_client :
    (c d : ℕ) (key j : Text) (left : Map ℕ (Unit {0})) (w : Watchers)
    → listed (lookup j (without_client c key left w)) d
      ≡ (if key == j then member d left else listed (lookup j w) d)
listed-without_client c d key j [] w = unfold member lookup in ground (arith, lookup-remove key j w)
listed-without_client c d key j (x ∷ left) w = ground (arith, lookup-insert key j (x ∷ left) w)

indexed-drop_watcher :
    (c d : ℕ) (key j : Text) (w : Watchers)
    → indexed (drop_watcher c key w) j d ≡ (if key == j && c == d then false else indexed w j d)
unfolding indexed drop_watcher
indexed-drop_watcher c d key j w = elim (Option-cases (lookup key w)) [
  | inl e ↦ rw (e, drop_watcher) (ground (arith, e, text_beq_iff key j))
  | inr (ws, e) ↦
      rw (e, drop_watcher)
        (rw listed-without_client
          (ground (arith, e, text_beq_iff key j, member-remove {0, 0} c d ws)))
]

indexed-drop_watchers :
    (c d : ℕ) (ks : List Text) (j : Text) (w : Watchers)
    → indexed (drop_watchers c ks w) j d ≡ (if elem j ks && c == d then false else indexed w j d)
unfolding drop_watchers elem
indexed-drop_watchers c d [] j w = refl
indexed-drop_watchers c d (key ∷ ks) j w =
    ground (
      arith,
      indexed-drop_watchers c d ks j (drop_watcher c key w),
      indexed-drop_watcher c d key j w,
    )

abbrev pub marked : Option Transaction → Option Transaction
marked none = none
marked (some tx) = some (mark_dirty tx)

marked-marked : (o : Option Transaction) → marked (marked o) ≡ marked o
unfolding mark_dirty
marked-marked none = refl
marked-marked (some tx) = refl

lookup-mark_client :
    (c d : ℕ) (txs : Map ℕ Transaction)
    → lookup d (mark_client c txs) ≡ (if c == d then marked (lookup d txs) else lookup d txs)
unfolding mark_client
lookup-mark_client c d txs = elim (Option-cases (lookup c txs)) [
  | inl e ↦ rw (e, mark_client) (ground (arith, e))
  | inr (tx, e) ↦ rw (e, mark_client) (rw lookup-insert (ground (arith, e)))
]

lookup-mark_clients :
    (cs : List ℕ) (d : ℕ) (txs : Map ℕ Transaction)
    → lookup d (mark_clients cs txs) ≡ (if elem d cs then marked (lookup d txs) else lookup d txs)
unfolding mark_clients elem
lookup-mark_clients [] d txs = refl
lookup-mark_clients (c ∷ cs) d txs = ground (
  arith,
  lookup-mark_clients cs d (mark_client c txs),
  lookup-mark_client c d txs,
  marked-marked (lookup d txs),
)

-- A touched key marks the clients that the index lists under it, and no other.
pub lookup-touch_key :
    (key : Text) (d : ℕ) (tm : TransactionManager)
    → lookup d (touch_key key tm).transactions ≡ (
        if indexed tm.key_watchers key d
        then marked (lookup d tm.transactions)
        else lookup d tm.transactions)
unfolding touch_key indexed
lookup-touch_key key d tm = elim (Option-cases (lookup key tm.key_watchers)) [
  | inl e ↦ rw (e, touch_key) refl
  | inr (ws, e) ↦
      rw (e, touch_key) (lookup-mark_clients (keys ws) d tm.transactions ∙ rw elem-keys refl)
]

pub key_watchers-touch_key :
    (key : Text) (tm : TransactionManager) → (touch_key key tm).key_watchers ≡ tm.key_watchers
unfolding touch_key
key_watchers-touch_key key tm = ground arith

pub touch_key-IsIndexed :
    (key : Text) {tm : TransactionManager} → IsIndexed tm → IsIndexed (touch_key key tm)
unfolding mark_dirty is_watching
touch_key-IsIndexed key {tm} h = record {
  agree = λ d j. rw key_watchers-touch_key (rw lookup-touch_key (ground (arith, h.agree d j)));
}

pub touch_keys-IsIndexed :
    (ks : List Text) {tm : TransactionManager} → IsIndexed tm → IsIndexed (touch_keys ks tm)
unfolding touch_keys
touch_keys-IsIndexed [] h = h
touch_keys-IsIndexed (key ∷ ks) h = touch_keys-IsIndexed ks (touch_key-IsIndexed key h)

pub get_transaction-IsIndexed :
    (c : ℕ) {tm : TransactionManager} → IsIndexed tm → IsIndexed (get_transaction c tm).0
unfolding get_transaction is_watching
get_transaction-IsIndexed c {tm} h = elim (Option-cases (lookup c tm.transactions)) [
  | inl e ↦
      rw (e, get_transaction)
        (record {
          agree = λ d j.
              rw lookup-insert
                (ground (arith, e, h.agree d j, h.agree c j, member-nil {0, 0} (Unit {0}) j));
        })
  | inr (tx, e) ↦ rw (e, get_transaction) (record { agree = h.agree })
]

pub watch_key-IsIndexed :
    (c : ℕ) (key : Text) {tm : TransactionManager} → IsIndexed tm → IsIndexed (watch_key c key tm)
unfolding watch_key is_watching
watch_key-IsIndexed c key {tm} h = elim (Option-cases (lookup c tm.transactions)) [
  | inl e ↦ rw (e, watch_key) (record { agree = h.agree })
  | inr (tx, e) ↦
      rw (e, watch_key)
        (record {
          agree = λ d j. rw lookup-insert (
              ground (
                arith,
                e,
                h.agree d j,
                h.agree c j,
                indexed-add_watcher c d key j tm.key_watchers,
                member-insert {0, 0} key j tt tx.watched_keys,
              ));
        })
]

pub unwatch_all_keys-IsIndexed :
    (c : ℕ) {tm : TransactionManager} → IsIndexed tm → IsIndexed (unwatch_all_keys c tm)
unfolding unwatch_all_keys is_watching clear_watches
unwatch_all_keys-IsIndexed c {tm} h = elim (Option-cases (lookup c tm.transactions)) [
  | inl e ↦ rw (e, unwatch_all_keys) (record { agree = h.agree })
  | inr (tx, e) ↦
      rw (e, unwatch_all_keys)
        (record {
          agree = λ d j. rw lookup-insert (
              ground (
                arith,
                e,
                h.agree d j,
                indexed-drop_watchers c d (keys tx.watched_keys) j tm.key_watchers,
                elem-keys j tx.watched_keys,
                member-nil {0, 0} (Unit {0}) j,
              ));
        })
]

pub remove_client-IsIndexed :
    (c : ℕ) {tm : TransactionManager} → IsIndexed tm → IsIndexed (remove_client c tm)
unfolding remove_client is_watching
remove_client-IsIndexed c {tm} h = elim (Option-cases (lookup c tm.transactions)) [
  | inl e ↦ rw (e, remove_client) (record { agree = h.agree })
  | inr (tx, e) ↦
      rw (e, remove_client)
        (record {
          agree = λ d j. rw lookup-remove (
              ground (
                arith,
                e,
                h.agree d j,
                indexed-drop_watchers c d (keys tx.watched_keys) j tm.key_watchers,
                elem-keys j tx.watched_keys,
              ));
        })
]

pub IsIndexed-new : IsIndexed new_transaction_manager
unfolding indexed
IsIndexed-new = record { agree = λ c key. rw (lookup-nil, lookup-nil) refl }
