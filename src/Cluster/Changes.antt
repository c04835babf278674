-- ===== src/Cluster/Changes.antt =====
-- node.go: what a cluster can become by the changes of its slots and nodes.
use go_redis.Prelude.{
  ℕ, zero, suc, ◌<◌, ◌≡◌, ◌≢◌, ◌↔◌, refl, ap, sym, ◌∙◌, List, [], some, true, arith, nat_beq_iff,
  Bool-cases, Option-cases, inl, inr,
}
use go_redis.Prelude.Eq.{Text, text_eq, nat_eq}
use go_redis.Prelude.Int.{ℤ, pos}
use go_redis.Prelude.Maps.{lookup, remove}
use go_redis.Cluster.Slot.{num_slots}
use go_redis.Cluster.Node.{
  Node, state_ok, Ptr, Cluster, new_cluster, is_all, update_state, assign_slots, add_node,
  clear_loop, remove_node,
}
use go_redis.Cluster.Counted.{
  owned, count_owned, all_of_count, count_of_all, IsConsistent, assign_loop-IsCounted,
  add_loop-IsCounted, clear_loop-IsCounted, update_state-IsConsistent,
}

-- The changes that the server makes to its cluster view.
pub data Change : Cluster → Cluster → Type 0 where
  assigned : {c : Cluster} (zs : List ℤ) → Change c (assign_slots zs c)
  added : {c : Cluster} (node : Ptr) → (c.heap node).id ≢ [] → Change c (add_node node c)
  removed : {c d : Cluster} (id : Text) → id ≢ [] → remove_node id c ≡ some d → Change c d

remove_node-IsConsistent :
    (id : Text) {c d : Cluster}
    → id ≢ []
    → IsConsistent c
    → remove_node id c ≡ some d
    → IsConsistent d
unfolding remove_node
remove_node-IsConsistent id {c} {d} h v e = elim (Option-cases (lookup id c.nodes)) [
  | inl m ↦
      let e' : some c ≡ some d = rw (m, remove_node) at e in rw (← let q : c ≡ d = cc e' in q) v
  | inr (node, m) ↦ elim (Option-cases (clear_loop id (c.heap node).slots c)) [
    | inl f ↦ absurd (ground (arith, m, f, e))
    | inr (c', f) ↦
        let w = clear_loop-IsCounted id (c.heap node).slots h v.counts f in
        let c'' : Cluster = update_state (record c' { nodes = remove id c'.nodes }) in
        let q : c'' ≡ d = ground (arith, m, f, e) in
        rw (← q) (
          update_state-IsConsistent {c = record c' { nodes = remove id c'.nodes }}
            (record { counted = w.counted; named = w.named }))
  ]
]

Change-IsConsistent : {c d : Cluster} → Change c d → IsConsistent c → IsConsistent d
unfolding assign_slots add_node
Change-IsConsistent (assigned zs) v = update_state-IsConsistent (assign_loop-IsCounted zs v.counts)
Change-IsConsistent (added node h) v =
    update_state-IsConsistent
      (add_loop-IsCounted _ _ h (record { counted = v.counts.counted; named = v.counts.named }))
Change-IsConsistent (removed id h e) v = remove_node-IsConsistent id h v e

-- What a cluster can become, by any number of changes.
pub data Reach (c : Cluster) : Cluster → Type 0 where
  here : Reach c c
  next : {d e : Cluster} → Reach c d → Change d e → Reach c e

-- However slots are assigned and nodes with names are added and removed, the cached count stays
-- the number of slots with an owner, and the state stays the one that belongs to this number.
pub Reach-IsConsistent : {c d : Cluster} → IsConsistent c → Reach c d → IsConsistent d
Reach-IsConsistent v here = v
Reach-IsConsistent v (next r s) = Change-IsConsistent s (Reach-IsConsistent v r)

is_all_iff : (n : ℕ) → (is_all (pos n) ≡ true) ↔ (n ≡ num_slots)
is_all_iff n = nat_beq_iff n num_slots

state_ok_iff :
    (c : Cluster)
    → IsConsistent c
    → (c.state ≡ state_ok) ↔ ((k : ℕ) → k < num_slots → owned c.slot_map k ≡ true)
state_ok_iff c v = (
  λ e. all_of_count num_slots c.slot_map (full e),
  λ h.
      let e : is_all c.assigned_slots ≡ true =
        ap is_all v.counts.counted ∙ (is_all_iff _).1 (count_of_all num_slots c.slot_map h) in
      v.state_exact ∙ rw e refl,
)
  where
    full : c.state ≡ state_ok → count_owned num_slots c.slot_map ≡ num_slots
    full e = elim (Bool-cases (is_all c.assigned_slots)) [
      | inl a ↦ (is_all_iff _).0 (ap is_all (sym v.counts.counted) ∙ a)
      | inr b ↦ absurd (ground (arith, b, e, v.state_exact))
    ]

count_owned-none : (n : ℕ) → count_owned n (λ i. []) ≡ 0
unfolding count_owned
count_owned-none zero = refl
count_owned-none (suc n) = omega (arith, count_owned-none n)

-- A new cluster with a name is consistent: no slot is assigned and its state is fail.
pub new_cluster-IsConsistent :
    (heap : Ptr → Node) (p : Ptr) (id address : Text) (port : ℤ)
    → id ≢ []
    → IsConsistent (new_cluster heap p id address port)
unfolding new_cluster
new_cluster-IsConsistent heap p id address port h = record {
  counts = record {
    counted = ap pos (sym (count_owned-none num_slots));
    named = rw ((nat_beq_iff p p).1 refl) h;
  };
  state_exact = refl;
}

-- However slots are assigned and nodes with names are added and removed, beginning with a new
-- cluster of one node with a name: the state is ok exactly if every one of the 16384 slots has an
-- owner.
pub state_ok-Reach :
    (heap : ℕ → Node) (p : ℕ) (id address : Text) (port : ℤ) {c : Cluster}
    → id ≢ []
    → Reach (new_cluster heap p id address port) c
    → (c.state ≡ state_ok) ↔ ((k : ℕ) → k < num_slots → owned c.slot_map k ≡ true)
state_ok-Reach heap p id address port {c} named r =
    state_ok_iff c (Reach-IsConsistent (new_cluster-IsConsistent heap p id address port named) r)
