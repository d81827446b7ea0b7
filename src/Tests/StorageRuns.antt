-- ===== src/Tests/StorageRuns.antt =====
-- The rows of the cached blobs and their cleanup at concrete inputs.
use cncache_hub.Prelude.{◌≤◌, ◌≡◌, ◌⊎◌, ◌↔◌, refl, true, false, some, List, [], ◌∷◌, length, arith}
use cncache_hub.Text.{codes, same}
use cncache_hub.Cache.Disk.{Disk}
use cncache_hub.Storage.Entries.{CacheEntry, Table, sum_sizes}
use cncache_hub.Storage.Cleanup.{run_lru, run_capacity, is_stale, has_digest}
use cncache_hub.Storage.Cleanup.Rows.{Distinct, count_of}
use cncache_hub.Storage.Cleanup.Lru.{IsFaithful, run_lru-IsFaithful, run_lru_complete}
use cncache_hub.Storage.Cleanup.Capacity.{
  run_capacity-IsFaithful, run_capacity_complete, run_capacity_drains,
}
use cncache_hub.Cleaner.{CleanupTask, lru, capacity, run_cleanup}
use cncache_hub.Storage.Rules.{match_path}
use cncache_hub.Storage.Rules.Matches.{Fits, match_path_iff}
use cncache_hub.Text.{contains, index, has_prefix, split}
use cncache_hub.Cleaner.Files.{run_cleanup_lru-files}
use cncache_hub.Tests.CacheRuns.{store}

abbrev old_row : CacheEntry
old_row = record {
  id = 1;
  registry = codes "ghcr";
  repository = codes "a/b";
  digest = codes "sha256:aa";
  media_type = [];
  size_bytes = 10;
  storage_path = [];
  hit_count = 3;
  last_access_at = 100;
  created_at = 100;
  bypassed = false;
  bypass_reason = [];
}

abbrev new_row : CacheEntry
new_row = record old_row {
  id = 2;
  digest = codes "sha256:bb";
  last_access_at = 900;
  size_bytes = 20;
}

abbrev rows : List CacheEntry
rows = old_row ∷ new_row ∷ []

distinct : Distinct rows
distinct = ((omega arith, tt), (tt, tt))

abbrev table : Table
table = record { rows = rows; next_id = 3 }

run_lru-IsFaithful_example :
    let r = run_lru 1000 (false ∷ true ∷ []) rows 500 200 false in
    IsFaithful (is_stale 1000 500) rows r.0.freed_count r.0.freed_bytes r.2
run_lru-IsFaithful_example = run_lru-IsFaithful 1000 (false ∷ true ∷ []) rows 500 200 distinct

run_lru_complete_example :
    let r = run_lru 1000 [] rows 500 200 false in
    (r.1 ≡ false) × (count_of (is_stale 1000 500) r.2 ≡ 0) × (r.0.after_count ≡ length r.2)
unfolding count_of is_stale
run_lru_complete_example = run_lru_complete 1000 rows 500 200 distinct (omega arith)

run_capacity-IsFaithful_example :
    let r = run_capacity (false ∷ false ∷ true ∷ []) rows 15 200 false in
    IsFaithful has_digest rows r.0.freed_count r.0.freed_bytes r.2
run_capacity-IsFaithful_example =
    run_capacity-IsFaithful (false ∷ false ∷ true ∷ []) rows 15 200 distinct

run_capacity_complete_example :
    let r = run_capacity [] rows 15 1 false in
    (r.1 ≡ false)
    × ((sum_sizes r.2 ≤ 15) ⊎ (count_of has_digest r.2 ≡ 0))
    × (r.0.after_bytes ≡ sum_sizes r.2)
unfolding count_of has_digest
run_capacity_complete_example = run_capacity_complete rows 15 1 distinct (omega arith)

run_capacity_drains_example : count_of has_digest (run_capacity [] rows 29 200 false).2 ≡ 0
unfolding count_of has_digest sum_sizes
run_capacity_drains_example = run_capacity_drains rows 29 200 distinct (omega arith) (omega arith)

abbrev full_disk : Disk
full_disk q = some (1 ∷ [])

abbrev lru_task : CleanupTask
lru_task = record { strategy = lru; threshold_seconds = 500; threshold_bytes = 0 }

abbrev capacity_task : CleanupTask
capacity_task = record { strategy = capacity; threshold_seconds = 0; threshold_bytes = 15 }

run_cleanup_lru-files_example :
    let r = run_cleanup 1000 1000 full_disk store lru_task rows in
    (r.2 ≡ full_disk)
    × (count_of (is_stale 1000 lru_task.threshold_seconds) r.3 ≡ 0)
    × (r.1 ≡ false)
unfolding count_of is_stale
run_cleanup_lru-files_example =
    run_cleanup_lru-files 1000 full_disk store lru_task rows refl distinct (omega arith)

match_path_iff_example :
    (match_path (λ r p. false) (codes "owner/*") (codes "owner/repo") ≡ true)
    ↔ Fits (split (codes "owner/*") 47) (split (codes "owner/repo") 47)
unfolding same contains index has_prefix
match_path_iff_example =
    match_path_iff (λ r p. false) (codes "owner/*") (codes "owner/repo") refl refl refl
