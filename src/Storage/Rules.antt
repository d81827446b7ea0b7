-- ===== src/Storage/Rules.antt =====
-- storage/resource.go: which paths a resource rule takes. Go's package regexp is an argument.
pub mod Matches
use cncache_hub.Prelude.{
  ℕ, Bool, true, false, not, ◌&&◌, ◌||◌, List, [], ◌∷◌, ◌++◌, if◌then◌else◌, ◌==◌, length,
}
use cncache_hub.Text.{Bytes, codes, same, is_empty, contains, split}

-- strings.ReplaceAll of one byte.
unfoldable pub replace_all : ℕ → Bytes → Bytes → Bytes
replace_all b by [] = []
replace_all b by (c ∷ s) = let rest = replace_all b by s in if c == b then by ++ rest else c ∷ rest

-- One segment of the pattern, as a regular expression.
unfoldable pub segment_regex : Bytes → Bytes
unfolding replace_all
segment_regex p =
    if same p (codes "**")
    then codes ".*"
    else if same p (codes "*")
    then codes "[^/]*"
    else replace_all 42 (codes "[^/]*") (replace_all 46 (codes "\\.") p)

unfoldable pub segments_regex : List Bytes → Bytes
unfolding segment_regex
segments_regex [] = []
segments_regex (p ∷ []) = segment_regex p
segments_regex (p ∷ q ∷ ps) = segment_regex p ++ codes "/" ++ segments_regex (q ∷ ps)

-- globToRegex
unfoldable pub glob_to_regex : Bytes → Bytes
unfolding segments_regex
glob_to_regex pat = codes "^" ++ segments_regex (split pat 47) ++ codes "$"

unfoldable pub match_parts : List Bytes → List Bytes → Bool
match_parts [] parts = true
match_parts (p ∷ ps) [] = true
match_parts (p ∷ ps) (q ∷ qs) =
    if same p (codes "*") then match_parts ps qs else if same p q then match_parts ps qs else false

-- matchSingleStar
unfoldable pub match_single_star : Bytes → Bytes → Bool
unfolding match_parts
match_single_star pat path =
    if not (length (split pat 47) == length (split path 47))
    then false
    else match_parts (split pat 47) (split path 47)

-- MatchPath; `regex_match` answers no for an expression that does not compile.
unfoldable pub match_path : (Bytes → Bytes → Bool) → Bytes → Bytes → Bool
unfolding match_single_star glob_to_regex
match_path regex_match pat path =
    if is_empty pat || same pat (codes "*")
    then true
    else if contains pat (codes "**")
    then regex_match (glob_to_regex pat) path
    else match_single_star pat path
