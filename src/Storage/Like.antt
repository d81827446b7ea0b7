-- ===== src/Storage/Like.antt =====
-- storage/like_escape.go: the search patterns.
pub mod Tokens
use cncache_hub.Prelude.{
  ℕ, ◌+◌, Bool, true, false, ◌||◌, List, [], ◌∷◌, ◌++◌, if◌then◌else◌, ◌==◌, ltb, length, take,
}
use cncache_hub.Text.{Bytes}

-- The bytes of \, % and _.
abbrev pub backslash : ℕ
backslash = 92

abbrev pub percent : ℕ
percent = 37

abbrev pub underscore : ℕ
underscore = 95

-- strings.NewReplacer of the three: one pass over the text, so no backslash is escaped twice.
unfoldable pub replace_special : Bytes → Bytes
replace_special [] = []
replace_special (c ∷ s) =
    let rest = replace_special s in
    if c == backslash || c == percent || c == underscore then backslash ∷ c ∷ rest else c ∷ rest

-- escapeLike
unfoldable pub escape_like : Bytes → ℕ → Bytes
unfolding replace_special
escape_like s max_len = replace_special (if ltb max_len (length s) then take max_len s else s)

-- likePattern
unfoldable pub like_pattern : Bytes → ℕ → Bytes
unfolding escape_like
like_pattern s max_len = percent ∷ (escape_like s max_len ++ percent ∷ [])

abbrev pub max_search_query_len : ℕ
max_search_query_len = 100
