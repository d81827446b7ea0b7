-- ===== src/Api/Globs.antt =====
-- api/huggingface_handlers.go: compileHFPattern, and the files of a model that patterns take.
use cncache_hub.Prelude.{
  ℕ, suc, ◌+◌, Bool, true, false, not, ◌&&◌, ◌||◌, Option, none, some, List, [], ◌∷◌, if◌then◌else◌,
  length, drop,
}
use cncache_hub.Text.{
  Bytes, codes, same, is_empty, trim_space, has_prefix, has_suffix, trim_suffix, contains, index,
  last_index_byte, split,
}

pub record HuggingFaceFile : Type 0 where
  pub kind : Bytes
  pub path : Bytes
  pub size : ℕ

-- The basename: what follows the last slash.
abbrev pub after_last : Bytes → Option ℕ → Bytes
after_last p none = p
after_last p (some i) = drop (suc i) p

unfoldable pub base_name : Bytes → Bytes
unfolding last_index_byte
base_name p = after_last p (last_index_byte p b'/')

-- The loop over the parts of a pattern with a star in its middle.
unfoldable pub parts_in_order : List Bytes → Bytes → Bool
unfolding index
parts_in_order [] rest = true
parts_in_order (part ∷ parts) rest = elim (if is_empty part then some 0 else index rest part) [
  | none ↦ false
  | some j ↦ parts_in_order parts (drop (j + length part) rest)
]

-- The function that compileHFPattern gives for a pattern that is not blank.
unfoldable pub compiled : Bytes → Bytes → Bool
unfolding has_prefix has_suffix contains base_name parts_in_order split same
compiled pat p =
    if same pat (codes "*")
    then true
    else if has_suffix pat (codes "/")
    then has_prefix p pat
    else if contains pat (codes "/") && not (has_prefix pat (codes "*"))
    then has_prefix p pat
    else if has_prefix pat (codes "*")
    then has_suffix (base_name p) (drop 1 pat)
    else if has_suffix pat (codes "*")
    then has_prefix (base_name p) (trim_suffix pat (codes "*"))
    else if contains pat (codes "*")
    then parts_in_order (split pat b'*') (base_name p)
    else same (base_name p) pat

-- compileHFPattern; `none` is its error.
unfoldable pub compile_hf_pattern : Bytes → Option (Bytes → Bool)
unfolding compiled trim_space
compile_hf_pattern pat =
    if is_empty (trim_space pat) then none else some (compiled (trim_space pat))

-- anyMatch
unfoldable pub any_match : List (Bytes → Bool) → Bytes → Bool
any_match [] name = false
any_match (m ∷ ms) name = m name || any_match ms name

-- The loop over the patterns: the matchers, and how many did not compile.
unfoldable pub compile_all : List Bytes → List (Bytes → Bool) × ℕ
unfolding compile_hf_pattern
compile_all [] = ([], 0)
compile_all (p ∷ ps) =
    let (ms, skipped) = compile_all ps in
    elim (compile_hf_pattern p) [ none ↦ (ms, skipped + 1) | some m ↦ (m ∷ ms, skipped) ]

unfoldable pub matching : List (Bytes → Bool) → List HuggingFaceFile → List HuggingFaceFile
unfolding any_match
matching ms [] = []
matching ms (f ∷ fs) = let rest = matching ms fs in if any_match ms f.path then f ∷ rest else rest

-- The files that the patterns take, with the number of patterns that were skipped; no patterns take
-- all of them.
unfoldable pub filtered : List Bytes → List HuggingFaceFile → List HuggingFaceFile × ℕ
unfolding compile_all matching
filtered [] files = (files, 0)
filtered (p ∷ ps) files = (matching (compile_all (p ∷ ps)).0 files, (compile_all (p ∷ ps)).1)
