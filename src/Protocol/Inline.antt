-- ===== src/Protocol/Inline.antt =====
-- resp.go: inline commands, words of visible ASCII characters with one blank between them.
use go_redis.Prelude.{ℕ, ◌<◌, ◌≤◌, List, [], ◌∷◌, ◌++◌, length, All}
use go_redis.Prelude.Eq.{Text}

abbrev pub IsWordByte : ℕ → Type 0
IsWordByte c = (33 ≤ c) × (c ≤ 126)

abbrev pub IsWord : Text → Type 0
IsWord w = (0 < length w) × All IsWordByte w

-- the words with a blank between them
abbrev pub join : List Text → Text
join [] = []
join (w ∷ []) = w
join (w ∷ v ∷ ws) = w ++ 32 ∷ join (v ∷ ws)
