-- ===== src/FilePath.antt =====
-- path/filepath on Unix: Clean and Join.
pub mod Laws
use cncache_hub.Prelude.{
  ℕ, Bool, true, false, List, [], ◌∷◌, ◌++◌, reverse, if◌then◌else◌, ◌==◌, Option, none, some, ◌||◌,
}
use cncache_hub.Text.{Bytes, codes, same, split, join, is_empty}

abbrev pub slash : ℕ
slash = b'/'

abbrev pub is_dot : Bytes → Bool
is_dot s = same s (codes ".")

abbrev pub is_dot_dot : Bytes → Bool
is_dot_dot s = same s (codes "..")

-- `..` takes the part before it away; at the start of a relative path it stays.
pop : Bool → List Bytes → Bytes → List Bytes
pop true [] part = []
pop false [] part = part ∷ []
pop rooted (k ∷ kept) part = if is_dot_dot k then part ∷ k ∷ kept else kept

-- One part of the path against the parts kept so far, the last one first.
unfoldable pub push_part : Bool → List Bytes → Bytes → List Bytes
unfolding pop
push_part rooted kept part =
    if is_empty part || is_dot part
    then kept
    else if is_dot_dot part
    then pop rooted kept part
    else part ∷ kept

unfoldable pub push_parts : Bool → List Bytes → List Bytes → List Bytes
push_parts rooted kept [] = kept
push_parts rooted kept (p ∷ ps) = push_parts rooted (push_part rooted kept p) ps

abbrev pub is_rooted : Bytes → Bool
is_rooted [] = false
is_rooted (c ∷ s) = c == slash

abbrev pub is_nil {ℓ} : {A : Type ℓ} → List A → Bool
is_nil [] = true
is_nil (x ∷ xs) = false

pub body : List Bytes → Bytes
unfolding join
body kept = join (reverse kept) slash

-- An empty relative path is written `.`.
pub render : Bool → List Bytes → Bytes
unfolding body
render rooted kept =
    if rooted then slash ∷ body kept else if is_nil kept then codes "." else body kept

-- The parts that Clean keeps, the last one first.
unfoldable pub kept_parts : Bytes → List Bytes
unfolding push_parts push_part split
kept_parts s = push_parts (is_rooted s) [] (split s slash)

-- filepath.Clean
unfoldable pub clean : Bytes → Bytes
unfolding kept_parts render
clean s = render (is_rooted s) (kept_parts s)

-- filepath.Join of two elements that are not empty
unfoldable pub join_path : Bytes → Bytes → Bytes
unfolding clean
join_path a b = clean (a ++ slash ∷ b)
