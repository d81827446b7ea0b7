-- ===== src/Cache/Key/Parts.antt =====
-- The parts of a blob's path, and what the checks of `safeRel` say of them.
use cncache_hub.Prelude.{
  ℕ, suc, ◌≡◌, ◌≢◌, refl, sym, ap, true, false, Option, none, some, List, [], ◌∷◌, arith,
  if◌then◌else◌, take, drop, all, All, All-append, All-reverse, reverse, subst, ◌⊎◌, Bool-cases,
  inl, inr,
}
use cncache_hub.Text.{Bytes, codes, same, is_empty, index, contains, contains_any, join, split}
use cncache_hub.Text.Equality.{same→≡}
use cncache_hub.Text.Pieces.{Lacks, split-join}
use cncache_hub.Text.Search.{index-parts, contains_any-Lacks}
use cncache_hub.FilePath.{slash, kept_parts, is_dot, is_dot_dot}
use cncache_hub.FilePath.Laws.{IsPlain, kept_parts-IsPlain, kept_parts-Lacks}
use cncache_hub.Cache.Key.{is_hex, known_algo, valid_at, valid_digest, cleaned_repo}

-- A name below a directory: no separator inside, and not empty, `.` or `..`.
abbrev pub IsName : Bytes → Type 0
IsName s = IsPlain s × Lacks slash s

pub or_empty : List Bytes → List Bytes
or_empty [] = codes "_empty" ∷ []
or_empty (p ∷ ps) = p ∷ ps

pub repo_parts : Bytes → List Bytes
unfolding or_empty
repo_parts repo = or_empty (reverse (kept_parts (slash ∷ repo)))

-- Clean drops the registry `.`.
abbrev pub registry_parts : Bytes → List Bytes
registry_parts registry = if is_dot registry then [] else registry ∷ []

or_empty-IsName : (ps : List Bytes) → All IsPlain ps → All IsPlain (or_empty ps)
unfolding or_empty same
or_empty-IsName [] h = ((refl, refl, refl), tt)
or_empty-IsName (p ∷ ps) h = h

pub repo_parts-IsPlain : (repo : Bytes) → All IsPlain (repo_parts repo)
unfolding repo_parts
repo_parts-IsPlain repo =
    or_empty-IsName _ (All-reverse IsPlain _ (kept_parts-IsPlain (slash ∷ repo) refl))

or_empty-Lacks : (ps : List Bytes) → All (Lacks slash) ps → All (Lacks slash) (or_empty ps)
unfolding or_empty
or_empty-Lacks [] h = omega arith
or_empty-Lacks (p ∷ ps) h = h

pub repo_parts-Lacks : (repo : Bytes) → All (Lacks slash) (repo_parts repo)
unfolding repo_parts
repo_parts-Lacks repo =
    or_empty-Lacks _ (All-reverse (Lacks slash) _ (kept_parts-Lacks (slash ∷ repo)))

join-or_empty :
    (ps : List Bytes)
    → All IsPlain ps
    → (if is_empty (join ps slash) then codes "_empty" else join ps slash)
      ≡ join (or_empty ps) slash
unfolding or_empty join
join-or_empty [] h = refl
join-or_empty ([] ∷ ps) h = cc
join-or_empty ((c ∷ p) ∷ []) h = refl
join-or_empty ((c ∷ p) ∷ q ∷ ps) h = refl

-- `cleanedRepo` is its parts.
pub cleaned_repo-join : (repo : Bytes) → cleaned_repo repo ≡ join (repo_parts repo) slash
unfolding cleaned_repo repo_parts
cleaned_repo-join repo =
    join-or_empty (reverse (kept_parts (slash ∷ repo)))
      (All-reverse IsPlain _ (kept_parts-IsPlain (slash ∷ repo) refl))

pub registry-IsName :
    (registry : Bytes)
    → is_empty registry ≡ false
    → contains registry (codes "..") ≡ false
    → contains_any registry (codes "/\\") ≡ false
    → (is_dot_dot registry ≡ false) × Lacks slash registry
unfolding contains
registry-IsName registry e d a = (
  elim (Bool-cases (is_dot_dot registry)) [
    | inl p ↦ cc (ap (λ t. contains t (codes "..")) (same→≡ registry (codes "..") p))
    | inr p ↦ p
  ],
  contains_any-Lacks registry slash _ a,
)

hex-Lacks : (s : Bytes) → all is_hex s ≡ true → Lacks slash s
hex-Lacks [] h = tt
hex-Lacks (c ∷ s) h = (ground arith, hex-Lacks s (ground arith))

algo-cases :
    (a : Bytes)
    → known_algo a ≡ true
    → (same a (codes "sha256") ≡ true)
      ⊎ (same a (codes "sha512") ≡ true)
      ⊎ (same a (codes "sha1") ≡ true)
algo-cases a h = ground arith

same-Lacks : (a b : Bytes) → Lacks slash b → same a b ≡ true → Lacks slash a
same-Lacks a b h e = subst (Lacks slash) (sym (same→≡ a b e)) h

algo-Lacks : (a : Bytes) → known_algo a ≡ true → Lacks slash a
algo-Lacks a h = elim (algo-cases a h) [
  | inl e ↦ same-Lacks a (codes "sha256") (omega arith) e
  | inr (inl e) ↦ same-Lacks a (codes "sha512") (omega arith) e
  | inr (inr e) ↦ same-Lacks a (codes "sha1") (omega arith) e
]

valid_at-Lacks :
    (d : Bytes) (o : Option ℕ) → index d (codes ":") ≡ o → valid_at d o ≡ true → Lacks slash d
unfolding valid_at
valid_at-Lacks d none e h = cc
valid_at-Lacks d (some i) e h = subst (Lacks slash) (index-parts d b':' i e) (
    All-append (λ c. c ≢ slash) (take i d) _ (algo-Lacks (take i d) (ground arith))
      (ground arith, hex-Lacks (drop (suc i) d) (ground arith)))

not_valid : (d e : Bytes) → valid_digest d ≡ true → valid_digest e ≡ false → same d e ≡ false
not_valid d e h k = elim (Bool-cases (same d e)) [ inl p ↦ cc (same→≡ d e p) | inr p ↦ p ]

-- A valid digest is a name below its directory.
pub digest-IsName : (d : Bytes) → valid_digest d ≡ true → IsName d
unfolding valid_digest
digest-IsName [] h = cc
digest-IsName (c ∷ d) h = (
  (refl, not_valid (c ∷ d) (codes ".") h refl, not_valid (c ∷ d) (codes "..") h refl),
  valid_at-Lacks (c ∷ d) _ refl h,
)

or_empty-cons : (ps : List Bytes) → (q : Bytes) × (qs : List Bytes) × (or_empty ps ≡ q ∷ qs)
unfolding or_empty
or_empty-cons [] = (codes "_empty", [], refl)
or_empty-cons (p ∷ ps) = (p, ps, refl)

-- The cleaned repository splits into its parts.
pub split-cleaned_repo : (repo : Bytes) → split (cleaned_repo repo) slash ≡ repo_parts repo
unfolding repo_parts
split-cleaned_repo repo =
    let (q, qs, e) = or_empty-cons (reverse (kept_parts (slash ∷ repo))) in
    rw cleaned_repo-join
      (rw e (split-join slash q qs (subst (All (Lacks slash)) e (repo_parts-Lacks repo))))
