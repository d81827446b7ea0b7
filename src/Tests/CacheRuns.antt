-- ===== src/Tests/CacheRuns.antt =====
-- The cache at concrete inputs.
use cncache_hub.Prelude.{◌≡◌, refl, true, false, none, some, List, [], ◌∷◌, ◌++◌, All, ok}
use cncache_hub.Prelude.Int.{ℤ, pos}
use cncache_hub.Text.{
  Bytes, codes, same, contains, contains_any, index, has_prefix, trim_prefix, join,
}
use cncache_hub.FilePath.{slash, clean, join_path, kept_parts}
use cncache_hub.Cache.Policy.{bypass_none, should_bypass}
use cncache_hub.Cache.Key.{blob_path, safe_rel, within_root, valid_digest, valid_at, cleaned_repo}
use cncache_hub.Cache.Key.Parts.{IsName}
use cncache_hub.Cache.Disk.{Disk}
use cncache_hub.Cache.Stream.{CloseFaults, no_faults}
use cncache_hub.Cache.Store.{FileStore, OpenFaults, put, get, path_of}
use cncache_hub.Cache.Store.Puts.{IsReady, get-put}
use cncache_hub.Cache.Stream.Writes.{all_full}
use cncache_hub.Cache.Key.Paths.{rel_parts, blob_path_below_root, safe_rel-injective}

abbrev pub digest : Bytes
digest = codes "sha256:ab"

abbrev pub root : Bytes
root = codes "/data"

abbrev pub repo : Bytes
repo = codes "library/nginx"

abbrev pub target : Bytes
target = codes "/data/v2/dockerhub/library/nginx/blobs/sha256:ab"

abbrev pub store : FileStore
store = record {
  root = root;
  pol = record { max_object_size = pos 4; reserve_space = pos 0; cache_dir = root };
  fsync = true;
}

abbrev pub empty_disk : Disk
empty_disk q = none

abbrev pub avail : Bytes → ℤ
avail p = pos 100

abbrev pub open_faults : OpenFaults
open_faults = record { mkdir_fails = false; create_fails = false; tmp_name = codes "/data/v2/t" }

pub ready : IsReady avail open_faults store (codes "dockerhub") repo digest (pos 3) target
unfolding should_bypass path_of blob_path safe_rel within_root valid_digest valid_at cleaned_repo
    contains contains_any index has_prefix trim_prefix clean join_path join same
ready = record { admitted = refl; placed = refl; made = refl; created = refl; apart = refl }

abbrev pub two_chunks : List Bytes
two_chunks = (1 ∷ 2 ∷ []) ∷ (3 ∷ []) ∷ []

get-put_example :
    let r =
      put avail open_faults no_faults empty_disk store
        (codes "dockerhub")
        repo
        digest
        (pos 3)
        (record { chunks = all_full two_chunks; breaks = false }) in
    (r.1 ≡ bypass_none)
    × (r.2 ≡ none)
    × (get false false r.0 store (codes "dockerhub") repo digest ≡ ok (1 ∷ 2 ∷ 3 ∷ [], 3))
get-put_example =
    get-put avail open_faults empty_disk store (codes "dockerhub") repo digest (pos 3) target ready
      two_chunks refl

abbrev rename_fault : CloseFaults
rename_fault = record { sync_fails = false; close_fails = false; rename_fails = true }

abbrev had_blob : Disk
had_blob q = some (7 ∷ [])

blob_path_below_root_example :
    (blob_path (codes "/data") (codes "dockerhub") repo digest
      ≡ ok
          (clean (codes "/data") ++ slash ∷ join (rel_parts (codes "dockerhub") repo digest) slash))
    × All IsName (rel_parts (codes "dockerhub") repo digest)
unfolding safe_rel valid_digest valid_at cleaned_repo contains contains_any index has_prefix
    trim_prefix clean join same kept_parts
blob_path_below_root_example =
    blob_path_below_root 47 (codes "data") (codes "data") [] (codes "dockerhub") repo digest
      (codes "v2/dockerhub/library/nginx/blobs/sha256:ab") refl ((refl, refl, refl), tt) refl

safe_rel-injective_example :
    (codes "dockerhub" ≡ codes "dockerhub")
    × (digest ≡ digest)
    × (cleaned_repo (codes "a//b") ≡ cleaned_repo (codes "a/b"))
unfolding safe_rel valid_digest valid_at cleaned_repo contains contains_any index has_prefix
    trim_prefix clean join same kept_parts
safe_rel-injective_example =
    safe_rel-injective (codes "dockerhub") (codes "a//b") digest (codes "dockerhub") (codes "a/b")
      digest (codes "v2/dockerhub/a/b/blobs/sha256:ab") refl refl refl refl
