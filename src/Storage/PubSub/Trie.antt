-- ===== src/Storage/PubSub/Trie.antt =====
-- internal/storage/pubsub.go: the trie of patterns. A node is named by the characters on the way to it
-- from the root, which is the empty text; the trie holds the patterns of each node that there is.
use go_redis.Prelude.{
  ℕ, List, [], ◌∷◌, ◌++◌, Option, none, some, Bool, true, false, ◌||◌, if◌then◌else◌,
}
use go_redis.Prelude.Eq.{Text, text_eq, nat_eq, ◌==◌}
use go_redis.Prelude.Maps.{Map, lookup, insert, member}

abbrev pub Trie : Type 0
Trie = Map Text (List Text)

abbrev pub new_trie : Trie
new_trie = ([], []) ∷ []

abbrev pub is_wildcard : ℕ → Bool
is_wildcard c = c == b'*' || c == b'?'

-- `pattern[:prefixLen]`
unfoldable pub literal_prefix : Text → Text
literal_prefix [] = []
literal_prefix (c ∷ cs) = let rest = literal_prefix cs in if is_wildcard c then [] else c ∷ rest

abbrev pub or_empty : Option (List Text) → List Text
or_empty none = []
or_empty (some ps) = ps

abbrev pub patterns_at : Text → Trie → List Text
patterns_at path t = or_empty (lookup path t)

-- The loop that makes the missing nodes below a node.
unfoldable pub grow : Text → Text → Trie → Trie
grow node [] t = t
grow node (c ∷ cs) t =
    let child = node ++ c ∷ [] in grow child cs (if member child t then t else insert child [] t)

unfoldable pub insert_pattern : Text → Trie → Trie
insert_pattern pattern t =
    let path = literal_prefix pattern in
    let grown = grow [] path t in insert path (patterns_at path grown ++ pattern ∷ []) grown

-- The loop over the nodes of the prefix, which stops at one that is missing.
unfoldable pub reaches : Text → Text → Trie → Bool
reaches node [] t = true
reaches node (c ∷ cs) t =
    let child = node ++ c ∷ [] in
    let rest = reaches child cs t in if member child t then rest else false

unfoldable pub remove_first : Text → List Text → List Text
remove_first pattern [] = []
remove_first pattern (p ∷ ps) =
    let rest = remove_first pattern ps in if p == pattern then ps else p ∷ rest

unfoldable pub remove_pattern : Text → Trie → Trie
remove_pattern pattern t =
    let path = literal_prefix pattern in
    if reaches [] path t then insert path (remove_first pattern (patterns_at path t)) t else t

-- the patterns of the nodes on the way of the channel's name
unfoldable pub collect : Text → Text → Trie → List Text
collect node [] t = []
collect node (c ∷ cs) t =
    let child = node ++ c ∷ [] in
    let rest = collect child cs t in if member child t then patterns_at child t ++ rest else []

unfoldable pub get_matching_patterns : Text → Trie → List Text
get_matching_patterns channel t = patterns_at [] t ++ collect [] channel t
