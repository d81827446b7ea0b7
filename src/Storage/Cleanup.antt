-- ===== src/Storage/Cleanup.antt =====
-- storage/cleanup.go: RunLRU and RunCapacity. Each statement may fail: `faults` says which of the
-- next ones do, and an empty list means that none does. A threshold is not negative.
pub mod Rows
pub mod Batch
pub mod Lru
pub mod Capacity
use cncache_hub.Prelude.{
  ℕ, zero, suc, ◌+◌, ◌-◌, ◌*◌, Bool, true, false, not, ◌&&◌, ◌||◌, Option, none, some, List, [],
  ◌∷◌, ◌++◌, if◌then◌else◌, length, ◌==◌, ltb, leb, take,
}
use cncache_hub.Text.{Bytes, is_empty}
use cncache_hub.Storage.Entries.{CacheEntry, Table, sum_sizes, delete_id}

-- A run on its way: the table, what it has freed, the statements' faults to come, and whether one
-- made it stop.
pub record Run : Type 0 where
  pub table : List CacheEntry
  pub freed_count : ℕ
  pub freed_bytes : ℕ
  pub faults : List Bool
  pub failed : Bool

abbrev pub next_fails : List Bool → Bool
next_fails [] = false
next_fails (b ∷ bs) = b

abbrev pub rest_of : List Bool → List Bool
rest_of [] = []
rest_of (b ∷ bs) = bs

unfoldable pub select : (CacheEntry → Bool) → List CacheEntry → List CacheEntry
select p [] = []
select p (row ∷ rows) = if p row then row ∷ select p rows else select p rows

-- ORDER BY last_access_at ASC
unfoldable pub insert_by_access : CacheEntry → List CacheEntry → List CacheEntry
insert_by_access e [] = e ∷ []
insert_by_access e (row ∷ rows) =
    if leb e.last_access_at row.last_access_at
    then e ∷ row ∷ rows
    else row ∷ insert_by_access e rows

unfoldable pub order_by_access : List CacheEntry → List CacheEntry
unfolding insert_by_access
order_by_access [] = []
order_by_access (row ∷ rows) = insert_by_access row (order_by_access rows)

-- SELECT … WHERE p ORDER BY last_access_at ASC LIMIT n
unfoldable pub oldest : (CacheEntry → Bool) → ℕ → List CacheEntry → List CacheEntry
unfolding select order_by_access
oldest p n rows = take n (order_by_access (select p rows))

-- The rows that RunLRU may delete, and those that RunCapacity may.
unfoldable pub is_stale : ℕ → ℕ → CacheEntry → Bool
is_stale now threshold e = ltb (e.last_access_at + threshold) now && not (is_empty e.digest)

unfoldable pub has_digest : CacheEntry → Bool
has_digest e = not (is_empty e.digest)

-- The loop over a batch: a delete for each row, unless it is a dry run.
unfoldable pub delete_batch : Bool → List CacheEntry → Run → Run
unfolding delete_id
delete_batch dry [] r = r
delete_batch true (b ∷ bs) r =
    delete_batch true bs
      (record r { freed_count = r.freed_count + 1; freed_bytes = r.freed_bytes + b.size_bytes })
delete_batch false (b ∷ bs) r =
    let deleted = delete_batch false bs (record r {
      table = delete_id b.id r.table;
      freed_count = r.freed_count + 1;
      freed_bytes = r.freed_bytes + b.size_bytes;
      faults = rest_of r.faults;
    }) in
    if next_fails r.faults then record r { faults = rest_of r.faults; failed = true } else deleted

abbrev pub is_nil {ℓ} : {A : Type ℓ} → List A → Bool
is_nil [] = true
is_nil (x ∷ xs) = false

-- One round over the batch that the SELECT gave.
unfoldable pub lru_rounds : ℕ → Bool → (CacheEntry → Bool) → ℕ → Run → Run
unfolding oldest delete_batch
lru_rounds zero dry p size r = r
lru_rounds (suc k) dry p size r =
    let batch = oldest p size r.table in
    let s = delete_batch dry batch (record r { faults = rest_of r.faults }) in
    let again = lru_rounds k dry p size s in
    if next_fails r.faults
    then record r { faults = rest_of r.faults; failed = true }
    else if is_nil batch
    then record r { faults = rest_of r.faults }
    else if s.failed
    then s
    else again

-- RunCapacity looks at the total before each batch.
unfoldable pub capacity_rounds : ℕ → Bool → ℕ → ℕ → Run → Run
unfolding oldest delete_batch sum_sizes has_digest
capacity_rounds zero dry threshold size r = r
capacity_rounds (suc k) dry threshold size r =
    let f = rest_of r.faults in
    let batch = oldest has_digest size r.table in
    let s = delete_batch dry batch (record r { faults = rest_of f }) in
    let again = capacity_rounds k dry threshold size s in
    if next_fails r.faults
    then record r { faults = f; failed = true }
    else if leb (sum_sizes r.table) threshold
    then record r { faults = f }
    else if next_fails f
    then record r { faults = rest_of f; failed = true }
    else if is_nil batch
    then record r { faults = rest_of f }
    else if s.failed
    then s
    else again

-- A dry run makes one round, a real one at most a thousand.
abbrev pub max_iters : Bool → ℕ
max_iters true = 1
max_iters false = 1000

abbrev pub batch_size : ℕ → ℕ
batch_size n = if n == 0 then 200 else n

pub record CleanupReport : Type 0 where
  pub freed_count : ℕ
  pub freed_bytes : ℕ
  pub before_count : ℕ
  pub before_bytes : ℕ
  pub after_count : ℕ
  pub after_bytes : ℕ

-- The first count, the loop, and the last count: the report, whether there was an error, and the
-- table.
unfoldable pub report_of : Bool → List CacheEntry → Run → CleanupReport × Bool × List CacheEntry
unfolding sum_sizes
report_of dry before r =
    let partial : CleanupReport = record {
      freed_count = r.freed_count;
      freed_bytes = r.freed_bytes;
      before_count = length before;
      before_bytes = sum_sizes before;
      after_count = 0;
      after_bytes = 0;
    } in
    if r.failed
    then (partial, true, r.table)
    else if dry
    then (
      record partial {
        after_count = length before - r.freed_count;
        after_bytes = sum_sizes before - r.freed_bytes;
      },
      false,
      r.table,
    )
    else if next_fails r.faults
    then (
      record partial {
        after_count = length before - r.freed_count;
        after_bytes = sum_sizes before - r.freed_bytes;
      },
      true,
      r.table,
    )
    else (
      record partial { after_count = length r.table; after_bytes = sum_sizes r.table },
      false,
      r.table,
    )

abbrev pub start : List CacheEntry → List Bool → Run
start rows faults = record {
  table = rows;
  freed_count = 0;
  freed_bytes = 0;
  faults = faults;
  failed = false;
}

-- The first COUNT fails before anything is read.
abbrev pub no_report : CleanupReport
no_report = record {
  freed_count = 0;
  freed_bytes = 0;
  before_count = 0;
  before_bytes = 0;
  after_count = 0;
  after_bytes = 0;
}

-- RunLRU
unfoldable pub run_lru :
    ℕ → List Bool → List CacheEntry → ℕ → ℕ → Bool → CleanupReport × Bool × List CacheEntry
unfolding lru_rounds report_of is_stale
run_lru now faults rows threshold batch dry =
    if next_fails faults
    then (no_report, true, rows)
    else report_of dry rows (
        lru_rounds (max_iters dry) dry (is_stale now threshold) (batch_size batch)
          (start rows (rest_of faults)))

-- RunCapacity
unfoldable pub run_capacity :
    List Bool → List CacheEntry → ℕ → ℕ → Bool → CleanupReport × Bool × List CacheEntry
unfolding capacity_rounds report_of
run_capacity faults rows threshold batch dry =
    if next_fails faults
    then (no_report, true, rows)
    else report_of dry rows (
        capacity_rounds (max_iters dry) dry threshold (batch_size batch)
          (start rows (rest_of faults)))
