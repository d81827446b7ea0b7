-- ===== src/Storage/Cleanup/Lru.antt =====
-- RunLRU: the rows that a run leaves and what it reports.
use cncache_hub.Prelude.{
  ℕ, zero, suc, ◌+◌, ◌*◌, ◌≤◌, ◌<◌, ◌≡◌, refl, sym, ap, ◌∙◌, Bool, true, false, List, [], ◌∷◌,
  length, arith, Bool-cases, inl, inr,
}
use cncache_hub.Storage.Entries.{CacheEntry, sum_sizes}
use cncache_hub.Storage.Cleanup.{
  Run, start, delete_batch, next_fails, rest_of, is_nil, oldest, lru_rounds, run_lru, report_of,
  is_stale, batch_size,
}
use cncache_hub.Storage.Cleanup.Rows.{
  Distinct, Holds, count_of, oldest-All, oldest_sound, oldest-Distinct, Distinct-Holds,
  length-oldest,
}
use cncache_hub.Storage.Cleanup.Batch.{
  IsSound, run-IsSound, delete_batch-IsSound, delete_batch-count,
}

pub oldest-IsSound :
    (p : CacheEntry → Bool) (size : ℕ) (before : List CacheEntry) (r : Run)
    → IsSound p before r
    → IsSound p before
        (delete_batch false (oldest p size r.table) (record r { faults = rest_of r.faults }))
oldest-IsSound p size before r s =
    delete_batch-IsSound p before (oldest p size r.table) (record r { faults = rest_of r.faults })
      (run-IsSound p before r (rest_of r.faults) r.failed s)
      (oldest-Distinct p size r.table s.distinct)
      (oldest-All (Holds r.table) p size r.table (Distinct-Holds r.table s.distinct))
      (oldest_sound p size r.table)

lru_rounds-IsSound :
    (k : ℕ) (p : CacheEntry → Bool) (size : ℕ) (before : List CacheEntry) (r : Run)
    → IsSound p before r
    → IsSound p before (lru_rounds k false p size r)
unfolding lru_rounds
lru_rounds-IsSound zero p size before r s = s
lru_rounds-IsSound (suc k) p size before r s =
    let batch = oldest p size r.table in
    let after = delete_batch false batch (record r { faults = rest_of r.faults }) in
    let sound = oldest-IsSound p size before r s in
    elim (Bool-cases (next_fails r.faults)) [
      | inl e ↦ rw e (run-IsSound p before r (rest_of r.faults) true s)
      | inr e ↦ elim (Bool-cases (is_nil batch)) [
        | inl n ↦ rw (e, n) (run-IsSound p before r (rest_of r.faults) r.failed s)
        | inr n ↦ elim (Bool-cases after.failed) [
          | inl x ↦ rw (e, n, x) sound
          | inr x ↦ rw (e, n, x) (lru_rounds-IsSound k p size before after sound)
        ]
      ]
    ]

pub is_nil-length : (bs : List CacheEntry) → is_nil bs ≡ true → length bs ≡ 0
is_nil-length [] h = refl
is_nil-length (b ∷ bs) h = cc

pub oldest-count :
    (p : CacheEntry → Bool) (size : ℕ) (r : Run)
    → r.faults ≡ []
    → Distinct r.table
    → let s = delete_batch false (oldest p size r.table) (record r { faults = rest_of r.faults }) in
      (count_of p s.table + length (oldest p size r.table) ≤ count_of p r.table)
      × (s.failed ≡ r.failed)
      × (s.faults ≡ [])
oldest-count p size r f d =
    delete_batch-count p (oldest p size r.table) (record r { faults = rest_of r.faults })
      (rw f refl) (oldest-Distinct p size r.table d)
      (oldest-All (Holds r.table) p size r.table (Distinct-Holds r.table d))
      (oldest_sound p size r.table)

-- Enough rounds delete every row that the test lets through.
lru_rounds-count :
    (k : ℕ) (p : CacheEntry → Bool) (size : ℕ) (before : List CacheEntry) (r : Run)
    → IsSound p before r
    → r.faults ≡ []
    → r.failed ≡ false
    → 0 < size
    → count_of p r.table ≤ k * size
    → (count_of p (lru_rounds k false p size r).table ≡ 0)
      × ((lru_rounds k false p size r).failed ≡ false)
      × ((lru_rounds k false p size r).faults ≡ [])
unfolding lru_rounds
lru_rounds-count zero p size before r s f g z h = (omega arith, g, f)
lru_rounds-count (suc k) p size before r s f g z h =
    let after =
      delete_batch false (oldest p size r.table) (record r { faults = rest_of r.faults }) in
    let (fewer, same_failed, no_faults) = oldest-count p size r f s.distinct in
    let len = length-oldest p size r.table in
    let still_going = same_failed ∙ g in
    let no_fail : next_fails r.faults ≡ false = rw f refl in
    elim (Bool-cases (is_nil (oldest p size r.table))) [
      | inl n ↦
          rw (no_fail, n)
            (omega (arith, len, is_nil-length (oldest p size r.table) n), g, rw f refl)
      | inr n ↦
          rw (no_fail, n, still_going)
            (lru_rounds-count k p size before after (oldest-IsSound p size before r s) no_faults
              still_going z (omega (arith, len, fewer)))
    ]

pub start-IsSound :
    (p : CacheEntry → Bool) (rows : List CacheEntry) (faults : List Bool)
    → Distinct rows
    → IsSound p rows (start rows faults)
start-IsSound p rows faults d = record {
  distinct = d;
  counted = omega arith;
  sized = omega arith;
  none_new = λ e h. h;
  kept = λ e h n. h;
}

-- What a cleanup tells and leaves: exact numbers, no new row, and no loss of a row that the test
-- does not let through.
pub record IsFaithful (p : CacheEntry → Bool) (before : List CacheEntry)
    (freed_count freed_bytes : ℕ) (after : List CacheEntry) : Type 0 where
  pub counted : freed_count + length after ≡ length before
  pub sized : freed_bytes + sum_sizes after ≡ sum_sizes before
  pub none_new : (e : CacheEntry) → Holds after e → Holds before e
  pub kept : (e : CacheEntry) → Holds before e → p e ≡ false → Holds after e

pub IsFaithful-refl : (p : CacheEntry → Bool) (rows : List CacheEntry) → IsFaithful p rows 0 0 rows
IsFaithful-refl p rows = record {
  counted = omega arith;
  sized = omega arith;
  none_new = λ e h. h;
  kept = λ e h n. h;
}

pub report_of-IsFaithful :
    (p : CacheEntry → Bool) (before : List CacheEntry) (r : Run)
    → IsSound p before r
    → IsFaithful p before
        (report_of false before r).0.freed_count
        (report_of false before r).0.freed_bytes
        (report_of false before r).2
unfolding report_of
report_of-IsFaithful p before r s = elim (Bool-cases r.failed) [
  | inl e ↦
      rw e (record { counted = s.counted; sized = s.sized; none_new = s.none_new; kept = s.kept })
  | inr e ↦ elim (Bool-cases (next_fails r.faults)) [
    | inl f ↦
        rw (e, f)
          (record { counted = s.counted; sized = s.sized; none_new = s.none_new; kept = s.kept })
    | inr f ↦
        rw (e, f)
          (record { counted = s.counted; sized = s.sized; none_new = s.none_new; kept = s.kept })
  ]
]

-- Whichever statements fail, RunLRU over rows with distinct ids reports exactly the rows and bytes
-- that are gone, adds no row, and keeps every row that is not stale.
pub run_lru-IsFaithful :
    (now : ℕ) (faults : List Bool) (rows : List CacheEntry) (threshold batch : ℕ)
    → Distinct rows
    → let r = run_lru now faults rows threshold batch false in
      IsFaithful (is_stale now threshold) rows r.0.freed_count r.0.freed_bytes r.2
unfolding run_lru
run_lru-IsFaithful now faults rows threshold batch d = elim (Bool-cases (next_fails faults)) [
  | inl e ↦ rw e (IsFaithful-refl _ rows)
  | inr e ↦ rw e (
      report_of-IsFaithful (is_stale now threshold) rows
        (lru_rounds 1000 false (is_stale now threshold) (batch_size batch)
          (start rows (rest_of faults)))
        (lru_rounds-IsSound 1000 (is_stale now threshold) (batch_size batch) rows
          (start rows (rest_of faults))
          (start-IsSound (is_stale now threshold) rows (rest_of faults) d)))
]

pub batch_size-positive : (n : ℕ) → 0 < batch_size n
batch_size-positive n = ground arith

pub report_of_complete :
    (before : List CacheEntry) (r : Run)
    → r.failed ≡ false
    → r.faults ≡ []
    → let p = report_of false before r in
      (p.1 ≡ false)
      × (p.2 ≡ r.table)
      × (p.0.after_count ≡ length r.table)
      × (p.0.after_bytes ≡ sum_sizes r.table)
unfolding report_of
report_of_complete before r f n = rw (f, n) (refl, refl, refl, refl)

-- When no statement fails and a thousand batches are enough for the stale rows, RunLRU ends without
-- an error, leaves no stale row, and its after count is the length of the table that is left.
pub run_lru_complete :
    (now : ℕ) (rows : List CacheEntry) (threshold batch : ℕ)
    → Distinct rows
    → count_of (is_stale now threshold) rows ≤ 1000 * batch_size batch
    → let r = run_lru now [] rows threshold batch false in
      (r.1 ≡ false) × (count_of (is_stale now threshold) r.2 ≡ 0) × (r.0.after_count ≡ length r.2)
unfolding run_lru
run_lru_complete now rows threshold batch d h =
    let p = is_stale now threshold in
    let r = lru_rounds 1000 false p (batch_size batch) (start rows []) in
    let (none_left, f, n) =
      lru_rounds-count 1000 p (batch_size batch) rows (start rows []) (start-IsSound p rows [] d)
        refl refl (batch_size-positive batch) h in
    let (e, t, c, b) = report_of_complete rows r f n in
    (e, ap (count_of p) t ∙ none_left, c ∙ ap length (sym t))
