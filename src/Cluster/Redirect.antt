-- ===== src/Cluster/Redirect.antt =====
-- internal/cluster/redirect.go: which keys this node serves, and where it sends the others.
use go_redis.Prelude.{
  ℕ, ◌≡◌, refl, ap, sym, ◌∙◌, List, [], ◌∷◌, none, some, false, not, arith, All, if◌then◌else◌,
  Bool-cases, inl, inr,
}
use go_redis.Prelude.Eq.{Text, text_eq, nat_eq}
use go_redis.Prelude.Int.{ℤ, pos}
use go_redis.Prelude.Maps.{lookup}
use go_redis.Cluster.Slot.{key_hash_slot, keys_in_same_slot}
use go_redis.Cluster.Tags.{keys_in_same_slot_sound}
use go_redis.Cluster.Node.{Node, Cluster, is_slot_owner, get_key_node}

-- nil, or the error; a MOVED error names the slot and the node.
pub data Verdict : Type 0 where
  served cluster_down cross_slot : Verdict
  moved : ℕ → Text → Text → ℤ → Verdict

unfoldable pub moved_to : ℕ → Node → Verdict
moved_to slot n = moved slot n.id n.address n.port

unfoldable pub check_key_ownership : Text → Cluster → Verdict
unfolding is_slot_owner get_key_node moved_to
check_key_ownership key c =
    if not c.enabled
    then served
    else if is_slot_owner (pos (key_hash_slot key)) c
    then served
    else elim (get_key_node key c) [
      | none ↦ cluster_down
      | some p ↦ moved_to (key_hash_slot key) (c.heap p)
    ]

unfoldable pub check_multi_key_ownership : List Text → Cluster → Verdict
check_multi_key_ownership [] c = served
check_multi_key_ownership (key ∷ ks) c =
    if not c.enabled
    then served
    else if not (keys_in_same_slot (key ∷ ks))
    then cross_slot
    else check_key_ownership key c

-- `Nodes` lists each node under its own name.
pub record IsKeyed (c : Cluster) : Type 0 where
  pub own_name : (id : Text) (p : ℕ) → lookup id c.nodes ≡ some p → (c.heap p).id ≡ id

-- what `check_key_ownership` says of a key in the slot
abbrev verdict_at : Cluster → ℕ → Verdict
verdict_at c slot =
    if not c.enabled
    then served
    else if is_slot_owner (pos slot) c
    then served
    else elim (lookup (c.slot_map slot) c.nodes) [
      | none ↦ cluster_down
      | some p ↦ moved_to slot (c.heap p)
    ]

verdict_lem :
    (key : Text) (c : Cluster) → check_key_ownership key c ≡ verdict_at c (key_hash_slot key)
unfolding check_key_ownership get_key_node
verdict_lem key c = refl

same_slot_served :
    (key k : Text) (c : Cluster)
    → key_hash_slot k ≡ key_hash_slot key
    → check_key_ownership key c ≡ served
    → check_key_ownership k c ≡ served
same_slot_served key k c e h = verdict_lem k c ∙ ap (verdict_at c) e ∙ sym (verdict_lem key c) ∙ h

All-served :
    (key : Text) (ks : List Text) (c : Cluster)
    → All (λ k. key_hash_slot k ≡ key_hash_slot key) ks
    → check_key_ownership key c ≡ served
    → All (λ k. check_key_ownership k c ≡ served) ks
All-served key [] c h e = tt
All-served key (k ∷ ks) c h e = (same_slot_served key k c h.0 e, All-served key ks c h.1 e)

disabled_served :
    (ks : List Text) (c : Cluster)
    → c.enabled ≡ false
    → All (λ k. check_key_ownership k c ≡ served) ks
unfolding check_key_ownership
disabled_served [] c h = tt
disabled_served (k ∷ ks) c h = (rw h refl, disabled_served ks c h)

-- A command with several keys is let through only if this node serves every one of its keys.
pub check_multi_key_ownership_sound :
    (ks : List Text) (c : Cluster)
    → check_multi_key_ownership ks c ≡ served
    → All (λ k. check_key_ownership k c ≡ served) ks
unfolding check_multi_key_ownership
check_multi_key_ownership_sound [] c h = tt
check_multi_key_ownership_sound (key ∷ ks) c h = elim (Bool-cases c.enabled) [
  | inr off ↦ disabled_served (key ∷ ks) c off
  | inl on ↦ elim (Bool-cases (keys_in_same_slot (key ∷ ks))) [
    | inl same ↦
        let e : check_key_ownership key c ≡ served = ground (arith, on, same, h) in
        (e, All-served key ks c (keys_in_same_slot_sound key ks same) e)
    | inr other ↦ absurd (ground (arith, on, other, h))
  ]
]

-- The node `p` owns the slot, and `id`, `address` and `port` are its own.
pub record Names (c : Cluster) (slot : ℕ) (id address : Text) (port : ℤ) (p : ℕ) : Type 0 where
  pub listed : lookup (c.slot_map slot) c.nodes ≡ some p
  pub own_id : id ≡ (c.heap p).id
  pub own_address : address ≡ (c.heap p).address
  pub own_port : port ≡ (c.heap p).port
