-- ===== src/Cluster/Counted.antt =====
-- node.go: the number of slots that have an owner, and what a consistent view of the cluster is.
use go_redis.Prelude.{
  ℕ, zero, suc, ◌+◌, ◌<◌, ◌≤◌, ◌≡◌, ◌≢◌, refl, ap, ◌∙◌, List, [], ◌∷◌, some, Bool, true, false, not,
  arith, nat_beq, nat_beq_iff, if◌then◌else◌, Bool-cases, Option-cases, inl, inr,
}
use go_redis.Prelude.Eq.{Text, text_eq, nat_eq, ◌==◌, text_beq_iff}
use go_redis.Prelude.Int.{ℤ, pos, negsuc, ◌+ℤ◌}
use go_redis.Cluster.Slot.{num_slots}
use go_redis.Cluster.Node.{
  state_ok, state_fail, Cluster, slot_index, update, is_empty, own_slot, note_slot, assign_slot,
  assign_loop, is_all, update_state, add_loop, clear_slot, clear_loop,
}

abbrev pub owned : (ℕ → Text) → ℕ → Bool
owned m i = not (is_empty (m i))

abbrev one_if : Bool → ℕ
one_if true = 1
one_if false = 0

-- the number of indices below `n` that have an owner
unfoldable pub count_owned : ℕ → (ℕ → Text) → ℕ
count_owned zero m = 0
count_owned (suc n) m = one_if (owned m n) + count_owned n m

count_owned-update_ge :
    (n k : ℕ) (v : Text) (m : ℕ → Text) → n ≤ k → count_owned n (update m k v) ≡ count_owned n m
unfolding count_owned
count_owned-update_ge zero k v m h = refl
count_owned-update_ge (suc n) k v m h = ground (arith, count_owned-update_ge n k v m (omega arith))

count_owned-update :
    (n k : ℕ) (v : Text) (m : ℕ → Text)
    → k < n
    → count_owned n (update m k v) + one_if (owned m k)
      ≡ count_owned n m + one_if (not (is_empty v))
unfolding count_owned
count_owned-update zero k v m h = absurd (omega arith)
count_owned-update (suc n) k v m h = elim (Bool-cases (nat_beq n k)) [
  | inl here ↦ ground (
    arith,
    count_owned-update_ge n k v m (ground arith),
    ap (owned m) (let e : n ≡ k = ground arith in e),
  )
  | inr below ↦ ground (arith, count_owned-update n k v m (ground arith))
]

count_owned-le : (n : ℕ) (m : ℕ → Text) → count_owned n m ≤ n
unfolding count_owned
count_owned-le zero m = omega arith
count_owned-le (suc n) m = ground (arith, count_owned-le n m)

pub all_of_count : (n : ℕ) (m : ℕ → Text) → count_owned n m ≡ n → (k : ℕ) → k < n → owned m k ≡ true
unfolding count_owned
all_of_count zero m h k l = absurd (omega arith)
all_of_count (suc n) m h k l = elim (Bool-cases (nat_beq k n)) [
  | inl here ↦ ap (owned m) (let e : k ≡ n = ground arith in e) ∙ ground (arith, count_owned-le n m)
  | inr below ↦ all_of_count n m (ground (arith, count_owned-le n m)) k (ground arith)
]

pub count_of_all :
    (n : ℕ) (m : ℕ → Text) → ((k : ℕ) → k < n → owned m k ≡ true) → count_owned n m ≡ n
unfolding count_owned
count_of_all zero m h = refl
count_of_all (suc n) m h =
    ground (arith, h n (omega arith), count_of_all n m (λ k l. h k (omega arith)))

pub record IsCounted (c : Cluster) : Type 0 where
  pub counted : c.assigned_slots ≡ pos (count_owned num_slots c.slot_map)
  pub named : (c.heap c.my_self).id ≢ []

pub record IsConsistent (c : Cluster) : Type 0 where
  pub counts : IsCounted c
  pub state_exact : c.state ≡ (if is_all c.assigned_slots then state_ok else state_fail)

is_empty_of_ne : (s : Text) → s ≢ [] → is_empty s ≡ false
is_empty_of_ne [] h = absurd (h refl)
is_empty_of_ne (c ∷ s) h = refl

slot_index-lt : (z : ℤ) (k : ℕ) → slot_index z ≡ some k → k < num_slots
unfolding slot_index
slot_index-lt (pos n) k h = ground arith
slot_index-lt (negsuc n) k h = cc h

own_slot-IsCounted :
    (id : Text) (k : ℕ) {c : Cluster}
    → id ≢ []
    → k < num_slots
    → IsCounted c
    → IsCounted (own_slot id k c)
unfolding own_slot ◌+ℤ◌
own_slot-IsCounted id k {c} h l v = record {
  counted =
      ground
        (arith, v.counted, is_empty_of_ne id h, count_owned-update num_slots k id c.slot_map l);
  named = v.named;
}

note_slot-IsCounted : (z : ℤ) {c : Cluster} → IsCounted c → IsCounted (note_slot z c)
unfolding note_slot
note_slot-IsCounted z {c} v = record {
  counted = v.counted;
  named = rw ((nat_beq_iff c.my_self c.my_self).1 refl) v.named;
}

assign_slot-IsCounted : (z : ℤ) {c : Cluster} → IsCounted c → IsCounted (assign_slot z c)
unfolding assign_slot
assign_slot-IsCounted z {c} v = elim (Option-cases (slot_index z)) [
  | inl e ↦ rw (e, assign_slot) v
  | inr (k, e) ↦
      rw (e, assign_slot)
        (note_slot-IsCounted z (own_slot-IsCounted _ k v.named (slot_index-lt z k e) v))
]

pub assign_loop-IsCounted : (zs : List ℤ) {c : Cluster} → IsCounted c → IsCounted (assign_loop zs c)
unfolding assign_loop
assign_loop-IsCounted [] v = v
assign_loop-IsCounted (z ∷ zs) v = assign_loop-IsCounted zs (assign_slot-IsCounted z v)

pub add_loop-IsCounted :
    (id : Text) (zs : List ℤ) {c : Cluster} → id ≢ [] → IsCounted c → IsCounted (add_loop id zs c)
unfolding add_loop
add_loop-IsCounted id [] h v = v
add_loop-IsCounted id (z ∷ zs) {c} h v = elim (Option-cases (slot_index z)) [
  | inl e ↦ rw (e, add_loop) (add_loop-IsCounted id zs h v)
  | inr (k, e) ↦
      rw (e, add_loop)
        (add_loop-IsCounted id zs h (own_slot-IsCounted id k h (slot_index-lt z k e) v))
]

clear_slot-IsCounted :
    (id : Text) (k : ℕ) {c : Cluster}
    → id ≢ []
    → k < num_slots
    → IsCounted c
    → IsCounted (clear_slot id k c)
unfolding clear_slot ◌+ℤ◌
clear_slot-IsCounted id k {c} h l v = elim (Bool-cases (c.slot_map k == id)) [
  | inl mine ↦
      let e : c.slot_map k ≡ id = (text_beq_iff (c.slot_map k) id).0 mine in
      rw (mine, clear_slot)
        (record {
          counted = ground (
            arith,
            v.counted,
            ap is_empty e,
            is_empty_of_ne id h,
            count_owned-update num_slots k [] c.slot_map l,
          );
          named = v.named;
        })
  | inr other ↦ rw (other, clear_slot) v
]

pub clear_loop-IsCounted :
    (id : Text) (zs : List ℤ) {c d : Cluster}
    → id ≢ []
    → IsCounted c
    → clear_loop id zs c ≡ some d
    → IsCounted d
unfolding clear_loop
clear_loop-IsCounted id [] {c} {d} h v e = rw (← let q : c ≡ d = cc e in q) v
clear_loop-IsCounted id (z ∷ zs) {c} {d} h v e = elim (Option-cases (slot_index z)) [
  | inl m ↦ absurd (ground (arith, m, e))
  | inr (k, m) ↦
      clear_loop-IsCounted id zs h (clear_slot-IsCounted id k h (slot_index-lt z k m) v)
        (rw (m, clear_loop) at e)
]

pub update_state-IsConsistent : {c : Cluster} → IsCounted c → IsConsistent (update_state c)
unfolding update_state
update_state-IsConsistent v = record {
  counts = record { counted = v.counted; named = v.named };
  state_exact = refl;
}
