-- ===== src/Proxy/Route.antt =====
-- proxy/proxy.go and proxy/rewrite.go: what the path of a request asks for.
pub mod Paths
use cncache_hub.Prelude.{
  ℕ, zero, suc, ◌+◌, ◌-◌, ◌/◌, ◌%◌, Bool, true, false, not, ◌&&◌, ◌||◌, Option, none, some, List,
  [], ◌∷◌, ◌++◌, if◌then◌else◌, ◌==◌, take, drop, length,
}
use cncache_hub.Prelude.Int.{ℤ, pos, negsuc}
use cncache_hub.Text.{Bytes, codes, same, is_empty, contains_any, index, trim_prefix}
use cncache_hub.Proxy.Pool.{UpstreamPool, has_upstream, dockerhub}

-- libraryRewrite
unfoldable pub library_rewrite : Bytes → Bytes
library_rewrite name =
    if is_empty name
    then name
    else if contains_any name (codes "/")
    then name
    else codes "library/" ++ name

-- rest[:idx] where idx is positive, else rest.
abbrev pub first_segment : Bytes → Option ℕ → Bytes
first_segment rest none = rest
first_segment rest (some i) = if i == 0 then rest else take i rest

-- rest[idx+1:], with idx = -1 where there is no slash.
abbrev pub after_slash : Bytes → Option ℕ → Bytes
after_slash rest none = rest
after_slash rest (some i) = drop (suc i) rest

-- splitRegistry
unfoldable pub split_registry : UpstreamPool → Bytes → Bytes × Bytes
unfolding has_upstream
split_registry pool rest =
    let idx = index rest (codes "/") in
    if is_empty rest
    then (dockerhub, [])
    else if has_upstream pool (first_segment rest idx)
    then (first_segment rest idx, after_slash rest idx)
    else (dockerhub, rest)

pub data Route : Type 0 where
  root : Route
  manifests : Bytes → Bytes → Bytes → Route
  blobs : Bytes → Bytes → Bytes → Route
  passed : Bytes → Bytes → Route

-- strings.Index(rest, sep) > 0: what stands before and after.
unfoldable pub cut_inside : Bytes → Bytes → Option (Bytes × Bytes)
cut_inside rest sep = elim (index rest sep) [
  | none ↦ none
  | some i ↦ if i == 0 then none else some (take i rest, drop (i + length sep) rest)
]

abbrev pub blobs_or_passed : Bytes → Bytes → Option (Bytes × Bytes) → Route
blobs_or_passed registry rest (some (name, ref)) = blobs registry (library_rewrite name) ref
blobs_or_passed registry rest none = passed registry (codes "/v2/" ++ rest)

abbrev pub kind_of : Bytes → Bytes → Option (Bytes × Bytes) → Route
kind_of registry rest (some (name, ref)) = manifests registry (library_rewrite name) ref
kind_of registry rest none = blobs_or_passed registry rest (cut_inside rest (codes "/blobs/"))

-- ServeHTTP, up to the choice of the handler.
unfoldable pub route : UpstreamPool → Bytes → Route
unfolding split_registry cut_inside library_rewrite
route pool path =
    if same path (codes "/v2") || same path (codes "/v2/")
    then root
    else let rest = trim_prefix (trim_prefix path (codes "/v2/")) (codes "/") in
      let (registry, below) = split_registry pool rest in
      kind_of registry below (cut_inside below (codes "/manifests/"))

-- The path that the upstream is asked for.
unfoldable pub upstream_path : Route → Bytes
upstream_path root = []
upstream_path (manifests registry name ref) = codes "/v2/" ++ name ++ codes "/manifests/" ++ ref
upstream_path (blobs registry name digest) = codes "/v2/" ++ name ++ codes "/blobs/" ++ digest
upstream_path (passed registry path) = path

-- relativeStoragePath
unfoldable pub relative_storage_path : Bytes → Bytes → Bytes → Bytes
relative_storage_path registry repo digest =
    if is_empty digest
    then []
    else codes "v2/" ++ registry ++ codes "/" ++ repo ++ codes "/blobs/" ++ digest

-- The loop of itoa, on fuel: a digit at a time, the last one first.
unfoldable pub digits : ℕ → ℕ → Bytes → Bytes
digits zero n buf = buf
digits (suc fuel) n buf = if n == 0 then buf else digits fuel (n / 10) ((48 + n % 10) ∷ buf)

-- itoa; an int64 has nineteen digits, and the least one, which -n leaves negative, is not reached.
unfoldable pub itoa : ℤ → Bytes
unfolding digits
itoa (pos n) = if n == 0 then codes "0" else digits 20 n []
itoa (negsuc n) = 45 ∷ digits 20 (suc n) []
