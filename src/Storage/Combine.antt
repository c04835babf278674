-- ===== src/Storage/Combine.antt =====
-- internal/storage/set_ops.go: the operations on several sets.
use go_redis.Prelude.{
  ℕ, List, [], ◌∷◌, Option, none, some, Bool, true, false, if◌then◌else◌, length,
}
use go_redis.Prelude.Eq.{Text, text_eq}
use go_redis.Prelude.Maps.{Map, lookup, insert, remove, member}
use go_redis.Prelude.Maps
use go_redis.Storage.Store.{set, Store, delete_key, alloc, write}
use go_redis.Storage.Sets.{
  Members, add, drop, add_all, union, intersect, diff, members_of, save_set, get_or_create_set,
  get_existing_set,
}

-- the set behind a pointer, empty for nil
abbrev pub members_at : Option ℕ → Store → Members
members_at none s = []
members_at (some p) s = members_of (s.heap p)

-- the loop of `SUnion` over the further keys
unfoldable pub union_keys : ℕ → List Text → Members → Store → Store × Members
union_keys now [] acc s = (s, acc)
union_keys now (key ∷ ks) acc s =
    let (t, p) = get_existing_set now key s in
    union_keys now ks (elim p [ none ↦ acc | some q ↦ union acc (members_of (t.heap q)) ]) t

unfoldable pub s_union : ℕ → List Text → Store → Store × List Text
s_union now [] s = (s, [])
s_union now (key ∷ ks) s =
    let (t, p) = get_existing_set now key s in
    let (u, acc) = union_keys now ks (members_at p t) t in (u, Maps.keys acc)

-- The loop of `SInter` over the further keys; `go_on` is the next round.
unfoldable pub inter_step :
    (Members → Store → Store × List Text) → Members → Option ℕ → Store → Store × List Text
inter_step go_on acc none s = (s, [])
inter_step go_on acc (some p) s = elim (intersect acc (members_of (s.heap p))) [
  | [] ↦ (s, [])
  | m ∷ ms ↦ go_on (m ∷ ms) s
]

unfoldable pub inter_keys : ℕ → List Text → Members → Store → Store × List Text
inter_keys now [] acc s = (s, Maps.keys acc)
inter_keys now (key ∷ ks) acc s =
    let (t, p) = get_existing_set now key s in inter_step (inter_keys now ks) acc p t

unfoldable pub s_inter : ℕ → List Text → Store → Store × List Text
s_inter now [] s = (s, [])
s_inter now (key ∷ ks) s =
    let (t, p) = get_existing_set now key s in
    elim p [ none ↦ (t, []) | some q ↦ inter_keys now ks (members_of (t.heap q)) t ]

unfoldable pub diff_keys : ℕ → List Text → Members → Store → Store × Members
diff_keys now [] acc s = (s, acc)
diff_keys now (key ∷ ks) acc s =
    let (t, p) = get_existing_set now key s in
    diff_keys now ks (elim p [ none ↦ acc | some q ↦ diff acc (members_of (t.heap q)) ]) t

unfoldable pub s_diff : ℕ → List Text → Store → Store × List Text
s_diff now [] s = (s, [])
s_diff now (key ∷ ks) s =
    let (t, p) = get_existing_set now key s in
    elim p [
      | none ↦ (t, [])
      | some q ↦ (let (u, acc) = diff_keys now ks (members_of (t.heap q)) t in (u, Maps.keys acc))
    ]

-- the end of `SMove`, with both sets at hand
unfoldable pub move_through : Text → Text → Text → ℕ → ℕ → Store → Store × Bool
move_through src dest m p q s =
    let s1 = write p (set (drop m (members_of (s.heap p))).0) s in
    let s2 = write q (set (add m (members_of (s1.heap q))).0) s1 in
    let s3 : Store = elim (members_of (s2.heap p)) [ [] ↦ delete_key src s2 | x ∷ xs ↦ s2 ] in
    (save_set dest q s3, true)

unfoldable pub move_to : Text → Text → Text → ℕ → Option ℕ → Store → Store × Bool
move_to src dest m p none s = (s, false)
move_to src dest m p (some q) s = move_through src dest m p q s

unfoldable pub move_from : ℕ → Text → Text → Text → Option ℕ → Store → Store × Bool
move_from now src dest m none s = (s, false)
move_from now src dest m (some p) s =
    if member m (members_of (s.heap p))
    then (let (t, q) = get_or_create_set now dest s in move_to src dest m p q t)
    else (s, false)

unfoldable pub s_move : ℕ → Text → Text → Text → Store → Store × Bool
s_move now src dest m s = let (t, p) = get_existing_set now src s in move_from now src dest m p t

-- the common end of `SUnionStore`, `SInterStore` and `SDiffStore`
unfoldable pub store_result : Text → Store × List Text → Store × ℕ
store_result dest (s, []) = (delete_key dest s, 0)
store_result dest (s, m ∷ ms) =
    let (t, p) = alloc (set (add_all (m ∷ ms) [])) s in (save_set dest p t, length (m ∷ ms))

unfoldable pub s_union_store : ℕ → Text → List Text → Store → Store × ℕ
s_union_store now dest ks s = store_result dest (s_union now ks s)

unfoldable pub s_inter_store : ℕ → Text → List Text → Store → Store × ℕ
s_inter_store now dest ks s = store_result dest (s_inter now ks s)

unfoldable pub s_diff_store : ℕ → Text → List Text → Store → Store × ℕ
s_diff_store now dest ks s = store_result dest (s_diff now ks s)
