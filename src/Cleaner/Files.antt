-- ===== src/Cleaner/Files.antt =====
-- What becomes of the files of the rows that a cleanup has deleted.
use cncache_hub.Prelude.{
  ℕ, zero, suc, ◌+◌, ◌*◌, ◌≤◌, ◌≡◌, refl, ap, ◌∙◌, Bool, true, false, List, [], ◌∷◌, ltb, leb,
  length, arith, Bool-cases, inl, inr, ◌⊎◌,
}
use cncache_hub.Cache.Disk.{Disk}
use cncache_hub.Cache.Store.{FileStore}
use cncache_hub.Storage.Entries.{CacheEntry, sum_sizes}
use cncache_hub.Storage.Cleanup.{
  CleanupReport, run_lru, run_capacity, select, oldest, is_stale, has_digest,
}
use cncache_hub.Storage.Cleanup.Rows.{Distinct, count_of, length-oldest}
use cncache_hub.Storage.Cleanup.Lru.{run_lru_complete}
use cncache_hub.Storage.Cleanup.Capacity.{run_capacity_complete, is_nil-empty}
use cncache_hub.Cleaner.{
  CleanupTask, lru, capacity, delete_files, capacity_files, delete_files_for_report, files_for,
  run_strategy, with_files, run_cleanup,
}

select-none :
    (p : CacheEntry → Bool) (rows : List CacheEntry) → count_of p rows ≡ 0 → select p rows ≡ []
unfolding select count_of
select-none p [] h = refl
select-none p (x ∷ xs) h = elim (Bool-cases (p x)) [
  | inl e ↦ let q : 1 + count_of p xs ≡ 0 = rw e at h in absurd (omega (arith, q))
  | inr e ↦ let q : 0 + count_of p xs ≡ 0 = rw e at h in rw e (select-none p xs (omega (arith, q)))
]

capacity_files-done :
    (k threshold : ℕ) (disk : Disk) (s : FileStore) (rows : List CacheEntry)
    → (sum_sizes rows ≤ threshold) ⊎ (count_of has_digest rows ≡ 0)
    → (capacity_files k threshold disk s rows).0 ≡ disk
unfolding capacity_files
capacity_files-done zero threshold disk s rows h = refl
capacity_files-done (suc k) threshold disk s rows (inl h) =
    let fits : leb (sum_sizes rows) threshold ≡ true = ground (arith, h) in rw fits refl
capacity_files-done (suc k) threshold disk s rows (inr h) =
    let n =
      is_nil-empty (oldest has_digest 50 rows) (omega (arith, length-oldest has_digest 50 rows)) in
    elim (Bool-cases (leb (sum_sizes rows) threshold)) [
      | inl e ↦ rw e refl
      | inr e ↦ rw (e, n) refl
    ]

with_files-lru :
    (later : ℕ) (disk : Disk) (s : FileStore) (task : CleanupTask)
    (r : CleanupReport × Bool × List CacheEntry)
    → task.strategy ≡ lru
    → count_of (is_stale later task.threshold_seconds) r.2 ≡ 0
    → with_files later disk s task r ≡ (r.0, r.1, disk, r.2)
unfolding delete_files_for_report files_for delete_files
with_files-lru later disk s task (report, true, rows) e h = refl
with_files-lru later disk s task (report, false, rows) e h =
    let same_files =
      ap (files_for later disk s task rows) e
      ∙ ap (λ es. (delete_files disk s es, rows))
          (select-none (is_stale later task.threshold_seconds) rows h) in
    elim (Bool-cases (ltb 0 report.freed_count)) [
      | inl f ↦ rw f (ap (λ x. (report, false, x.0, x.1)) same_files)
      | inr f ↦ rw f refl
    ]

with_files-capacity :
    (later : ℕ) (disk : Disk) (s : FileStore) (task : CleanupTask)
    (r : CleanupReport × Bool × List CacheEntry)
    → task.strategy ≡ capacity
    → (sum_sizes r.2 ≤ task.threshold_bytes) ⊎ (count_of has_digest r.2 ≡ 0)
    → (with_files later disk s task r).2 ≡ disk
unfolding delete_files_for_report files_for
with_files-capacity later disk s task (report, true, rows) e h = refl
with_files-capacity later disk s task (report, false, rows) e h =
    elim (Bool-cases (ltb 0 report.freed_count)) [
      | inl f ↦ rw f (
          ap (λ x. (files_for later disk s task rows x).0) e
          ∙ capacity_files-done (length rows) task.threshold_bytes disk s rows h)
      | inr f ↦ rw f refl
    ]

-- An LRU task whose second reading of the clock is the first one, over rows with distinct ids that
-- a thousand batches are enough for: every file stays on the disk, though no stale row is
-- left among the rows, and the task ends without an error.
pub run_cleanup_lru-files :
    (now : ℕ) (disk : Disk) (s : FileStore) (task : CleanupTask) (rows : List CacheEntry)
    → task.strategy ≡ lru
    → Distinct rows
    → count_of (is_stale now task.threshold_seconds) rows ≤ 1000 * 200
    → let r = run_cleanup now now disk s task rows in
      (r.2 ≡ disk) × (count_of (is_stale now task.threshold_seconds) r.3 ≡ 0) × (r.1 ≡ false)
unfolding run_cleanup run_strategy
run_cleanup_lru-files now disk s task rows e d h =
    let (no_error, none_left, c) = run_lru_complete now rows task.threshold_seconds 200 d h in
    let r = run_lru now [] rows task.threshold_seconds 200 false in
    let run : run_cleanup now now disk s task rows ≡ (r.0, r.1, disk, r.2) =
      ap (run_strategy now now disk s task rows) e ∙ with_files-lru now disk s task r e none_left in
    (
      ap (λ x. x.2) run,
      ap (λ x. count_of (is_stale now task.threshold_seconds) x.3) run ∙ none_left,
      ap (λ x. x.1) run ∙ no_error,
    )

-- A capacity task over rows with distinct ids that a thousand batches are enough for: every file
-- stays on the disk, whatever rows are gone.
run_cleanup_capacity-files :
    (now later : ℕ) (disk : Disk) (s : FileStore) (task : CleanupTask) (rows : List CacheEntry)
    → task.strategy ≡ capacity
    → Distinct rows
    → count_of has_digest rows ≤ 1000 * 200
    → (run_cleanup now later disk s task rows).2 ≡ disk
unfolding run_cleanup run_strategy
run_cleanup_capacity-files now later disk s task rows e d h =
    let (a, b, c) = run_capacity_complete rows task.threshold_bytes 200 d h in
    ap (λ x. (run_strategy now later disk s task rows x).2) e
    ∙ with_files-capacity later disk s task (run_capacity [] rows task.threshold_bytes 200 false) e
        b
