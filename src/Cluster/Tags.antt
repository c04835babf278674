-- ===== src/Cluster/Tags.antt =====
-- slot.go: hash tags, and the slots of keys that carry them.
use go_redis.Prelude.{
  ℕ, ◌<◌, ◌%◌, ◌≡◌, ◌≢◌, refl, List, [], ◌∷◌, ◌++◌, some, true, arith, All, length,
}
use go_redis.Prelude.Eq.{Text}
use go_redis.Cluster.Slot.{
  num_slots, crc16, cut, extract_hash_tag, key_hash_slot, all_in_slot, keys_in_same_slot,
}

cut-append : (c : ℕ) (l r : Text) → All (λ d. d ≢ c) l → cut c (l ++ c ∷ r) ≡ some (l, r)
unfolding cut
cut-append c [] r h = ground arith
cut-append c (d ∷ l) r h = ground (arith, cut-append c l r h.1)

-- The hash tag of a key `pre{tag}post`, where `pre` has no opening brace and `tag` no closing one
-- and is not empty, is `tag`.
pub extract_hash_tag-braces :
    (pre tag post : Text)
    → All (λ d. d ≢ b'{') pre
    → All (λ d. d ≢ b'}') tag
    → 0 < length tag
    → extract_hash_tag (pre ++ b'{' ∷ (tag ++ b'}' ∷ post)) ≡ tag
unfolding extract_hash_tag
extract_hash_tag-braces pre [] post h k n = absurd (omega arith)
extract_hash_tag-braces pre (c ∷ tag) post h k n =
    rw (cut-append b'{' pre ((c ∷ tag) ++ b'}' ∷ post) h, extract_hash_tag)
      (rw (cut-append b'}' (c ∷ tag) post k) refl)

-- Two keys with the same hash tag lie in the same slot, which is below 16384 and is that of the
-- checksum of the tag alone, whatever stands round the tags.
pub key_hash_slot-same_tag :
    (pre post pre' post' tag : Text)
    → All (λ d. d ≢ b'{') pre
    → All (λ d. d ≢ b'{') pre'
    → All (λ d. d ≢ b'}') tag
    → 0 < length tag
    → (key_hash_slot (pre ++ b'{' ∷ (tag ++ b'}' ∷ post))
        ≡ key_hash_slot (pre' ++ b'{' ∷ (tag ++ b'}' ∷ post')))
      × (key_hash_slot (pre ++ b'{' ∷ (tag ++ b'}' ∷ post)) ≡ crc16 tag % num_slots)
      × (key_hash_slot (pre ++ b'{' ∷ (tag ++ b'}' ∷ post)) < num_slots)
unfolding key_hash_slot
key_hash_slot-same_tag pre post pre' post' tag h h' k n =
    rw (extract_hash_tag-braces pre tag post h k n)
      (rw (extract_hash_tag-braces pre' tag post' h' k n) (refl, refl, omega arith))

all_in_slot_iff :
    (slot : ℕ) (ks : List Text)
    → all_in_slot slot ks ≡ true
    → All (λ key. key_hash_slot key ≡ slot) ks
unfolding all_in_slot
all_in_slot_iff slot [] h = tt
all_in_slot_iff slot (key ∷ ks) h = (ground arith, all_in_slot_iff slot ks (ground arith))

-- If the keys pass the test, each of them lies in the slot of the first.
pub keys_in_same_slot_sound :
    (key : Text) (ks : List Text)
    → keys_in_same_slot (key ∷ ks) ≡ true
    → All (λ k. key_hash_slot k ≡ key_hash_slot key) ks
unfolding keys_in_same_slot
keys_in_same_slot_sound key ks h = all_in_slot_iff (key_hash_slot key) ks h
