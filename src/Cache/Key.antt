-- ===== src/Cache/Key.antt =====
-- Where a blob lies: `safeRel`, `validDigest` and `blobPath` of cache.go.
pub mod Parts
pub mod Paths
use cncache_hub.Prelude.{
  ℕ, ◌+◌, ◌-◌, Bool, true, false, not, ◌&&◌, ◌||◌, Option, none, some, List, [], ◌∷◌, ◌++◌, Result,
  ok, err, ◌>>=◌, leb, ◌==◌, if◌then◌else◌, length, take, drop, all,
}
use cncache_hub.Text.{
  Bytes, codes, same, is_empty, index, contains, contains_any, trim_prefix, has_prefix, join,
}
use cncache_hub.FilePath.{slash, clean, join_path}

pub data KeyError : Type 0 where
  registry_empty digest_empty invalid_registry invalid_repo invalid_digest path_traversal : KeyError

abbrev pub is_hex : ℕ → Bool
is_hex c = leb b'0' c && leb c b'9' || leb b'a' c && leb c b'f' || leb b'A' c && leb c b'F'

abbrev pub known_algo : Bytes → Bool
known_algo a = same a (codes "sha256") || same a (codes "sha512") || same a (codes "sha1")

-- What `strings.Index(d, ":")` decides.
unfoldable pub valid_at : Bytes → Option ℕ → Bool
valid_at d none = false
valid_at d (some idx) =
    if idx == 0 || idx == length d - 1
    then false
    else known_algo (take idx d) && all is_hex (drop (idx + 1) d)

unfoldable pub valid_digest : Bytes → Bool
unfolding valid_at index same
valid_digest d = valid_at d (index d (codes ":"))

-- The repository's path below the registry.
unfoldable pub cleaned_repo : Bytes → Bytes
unfolding clean trim_prefix
cleaned_repo repo =
    let cleaned = trim_prefix (clean (slash ∷ repo)) (codes "/") in
    if is_empty cleaned then codes "_empty" else cleaned

unfoldable pub safe_rel : Bytes → Bytes → Bytes → Result KeyError Bytes
safe_rel registry repo digest =
    if is_empty registry
    then err registry_empty
    else if is_empty digest
    then err digest_empty
    else if contains registry (codes "..") || contains_any registry (codes "/\\")
    then err invalid_registry
    else if contains repo (codes "..")
    then err invalid_repo
    else if not (valid_digest digest)
    then err invalid_digest
    else ok (
        clean
          (join (codes "v2" ∷ registry ∷ cleaned_repo repo ∷ codes "blobs" ∷ digest ∷ []) slash))

unfoldable pub within_root : Bytes → Bytes → Result KeyError Bytes
within_root root rel =
    let abs = clean (join_path root rel) in
    if has_prefix abs (clean root ++ codes "/") then ok abs else err path_traversal

unfoldable pub blob_path : Bytes → Bytes → Bytes → Bytes → Result KeyError Bytes
blob_path root registry repo digest = do rel ← safe_rel registry repo digest; within_root root rel
