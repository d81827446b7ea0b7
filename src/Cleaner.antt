-- ===== src/Cleaner.antt =====
-- cmd/cncachehub/main.go: the run of a cleanup task, on the rows and on the files. The statements
-- of the database do not fail here: what failures do to a run is in Storage/Cleanup.
pub mod Files
pub mod Rounds
use cncache_hub.Prelude.{
  ℕ, zero, suc, ◌+◌, ◌-◌, Bool, true, false, not, ◌&&◌, ◌||◌, Option, none, some, List, [], ◌∷◌,
  ◌++◌, if◌then◌else◌, ltb, leb, length,
}
use cncache_hub.Text.{Bytes, is_empty}
use cncache_hub.Cache.Disk.{Disk}
use cncache_hub.Cache.Store.{FileStore, delete}
use cncache_hub.Storage.Entries.{CacheEntry, has_key, sum_sizes}
use cncache_hub.Storage.Cleanup.{
  CleanupReport, no_report, run_lru, run_capacity, select, oldest, is_stale, has_digest, is_nil,
}

pub data Strategy : Type 0 where
  lru capacity unknown : Strategy

pub record CleanupTask : Type 0 where
  pub strategy : Strategy
  pub threshold_seconds : ℕ
  pub threshold_bytes : ℕ

-- fs.Delete for each row; an error is logged, no more.
unfoldable pub delete_files : Disk → FileStore → List CacheEntry → Disk
delete_files disk s [] = disk
delete_files disk s (e ∷ es) =
    delete_files (delete false disk s e.registry e.repository e.digest).0 s es

-- DELETE FROM cache_entries WHERE registry=? AND repository=? AND digest=?
unfoldable pub delete_key : Bytes → Bytes → Bytes → List CacheEntry → List CacheEntry
delete_key registry repo digest [] = []
delete_key registry repo digest (e ∷ es) =
    if has_key registry repo digest e
    then delete_key registry repo digest es
    else e ∷ delete_key registry repo digest es

unfoldable pub delete_keys : List CacheEntry → List CacheEntry → List CacheEntry
unfolding delete_key
delete_keys [] rows = rows
delete_keys (e ∷ es) rows = delete_keys es (delete_key e.registry e.repository e.digest rows)

-- The loop over the rows that are still too many, on fuel: a round for each row.
unfoldable pub capacity_files : ℕ → ℕ → Disk → FileStore → List CacheEntry → Disk × List CacheEntry
unfolding delete_files delete_keys oldest has_digest sum_sizes
capacity_files zero threshold disk s rows = (disk, rows)
capacity_files (suc k) threshold disk s rows =
    let batch = oldest has_digest 50 rows in
    let rest = capacity_files k threshold (delete_files disk s batch) s (delete_keys batch rows) in
    if leb (sum_sizes rows) threshold
    then (disk, rows)
    else if is_nil batch
    then (disk, rows)
    else rest

unfoldable pub files_for :
    ℕ → Disk → FileStore → CleanupTask → List CacheEntry → Strategy → Disk × List CacheEntry
unfolding delete_files capacity_files select is_stale
files_for now disk s task rows lru =
    (delete_files disk s (select (is_stale now task.threshold_seconds) rows), rows)
files_for now disk s task rows capacity =
    capacity_files (length rows) task.threshold_bytes disk s rows
files_for now disk s task rows unknown = (disk, rows)

-- deleteFilesForReport, on the rows that the run has left. `now` is read again.
unfoldable pub delete_files_for_report :
    ℕ → Disk → FileStore → CleanupTask → List CacheEntry → Disk × List CacheEntry
unfolding files_for
delete_files_for_report now disk s task rows = files_for now disk s task rows task.strategy

abbrev pub with_files :
    ℕ
    → Disk
    → FileStore
    → CleanupTask
    → CleanupReport × Bool × List CacheEntry
    → CleanupReport × Bool × Disk × List CacheEntry
with_files now disk s task (report, true, rows) = (report, true, disk, rows)
with_files now disk s task (report, false, rows) =
    let (d, left) = delete_files_for_report now disk s task rows in
    if ltb 0 report.freed_count then (report, false, d, left) else (report, false, disk, rows)

unfoldable pub run_strategy :
    ℕ
    → ℕ
    → Disk
    → FileStore
    → CleanupTask
    → List CacheEntry
    → Strategy
    → CleanupReport × Bool × Disk × List CacheEntry
unfolding delete_files_for_report run_lru run_capacity
run_strategy now later disk s task rows lru =
    with_files later disk s task (run_lru now [] rows task.threshold_seconds 200 false)
run_strategy now later disk s task rows capacity =
    with_files later disk s task (run_capacity [] rows task.threshold_bytes 200 false)
run_strategy now later disk s task rows unknown = (no_report, true, disk, rows)

-- runCleanup
unfoldable pub run_cleanup :
    ℕ
    → ℕ
    → Disk
    → FileStore
    → CleanupTask
    → List CacheEntry
    → CleanupReport × Bool × Disk × List CacheEntry
unfolding run_strategy
run_cleanup now later disk s task rows = run_strategy now later disk s task rows task.strategy

-- dryRunCleanup
unfoldable pub dry_run_cleanup : ℕ → CleanupTask → List CacheEntry → CleanupReport × Bool
unfolding run_lru run_capacity
dry_run_cleanup now task rows = elim task.strategy [
  | lru ↦ (
    (run_lru now [] rows task.threshold_seconds 200 true).0,
    (run_lru now [] rows task.threshold_seconds 200 true).1,
  )
  | capacity ↦ (
    (run_capacity [] rows task.threshold_bytes 200 true).0,
    (run_capacity [] rows task.threshold_bytes 200 true).1,
  )
  | unknown ↦ (no_report, true)
]
