-- ===== src/Storage/Cleanup/Capacity.antt =====
-- RunCapacity: the rows that a run leaves and what it reports.
use cncache_hub.Prelude.{
  ℕ, zero, suc, ◌*◌, ◌≤◌, ◌<◌, ◌≡◌, refl, sym, ap, ◌∙◌, Bool, true, false, List, [], ◌∷◌, length,
  leb, arith, Bool-cases, inl, inr, subst, ◌⊎◌,
}
use cncache_hub.Storage.Entries.{CacheEntry, sum_sizes}
use cncache_hub.Storage.Cleanup.{
  Run, start, delete_batch, next_fails, rest_of, is_nil, oldest, capacity_rounds, run_capacity,
  report_of, has_digest, batch_size,
}
use cncache_hub.Storage.Cleanup.Rows.{Distinct, count_of, length-oldest}
use cncache_hub.Storage.Cleanup.Batch.{IsSound, run-IsSound}
use cncache_hub.Storage.Cleanup.Lru.{
  oldest-IsSound, oldest-count, is_nil-length, start-IsSound, IsFaithful, IsFaithful-refl,
  report_of-IsFaithful, report_of_complete, batch_size-positive,
}

capacity_rounds-IsSound :
    (k threshold size : ℕ) (before : List CacheEntry) (r : Run)
    → IsSound has_digest before r
    → IsSound has_digest before (capacity_rounds k false threshold size r)
unfolding capacity_rounds
capacity_rounds-IsSound zero threshold size before r s = s
capacity_rounds-IsSound (suc k) threshold size before r s =
    let f = rest_of r.faults in
    let r' = record r { faults = f } in
    let batch = oldest has_digest size r.table in
    let after = delete_batch false batch (record r { faults = rest_of f }) in
    let sound : IsSound has_digest before after =
      oldest-IsSound has_digest size before r' (run-IsSound has_digest before r f r.failed s) in
    elim (Bool-cases (next_fails r.faults)) [
      | inl e ↦ rw e (run-IsSound has_digest before r f true s)
      | inr e ↦ elim (Bool-cases (leb (sum_sizes r.table) threshold)) [
        | inl t ↦ rw (e, t) (run-IsSound has_digest before r f r.failed s)
        | inr t ↦ elim (Bool-cases (next_fails f)) [
          | inl g ↦ rw (e, t, g) (run-IsSound has_digest before r (rest_of f) true s)
          | inr g ↦ elim (Bool-cases (is_nil batch)) [
            | inl n ↦ rw (e, t, g, n) (run-IsSound has_digest before r (rest_of f) r.failed s)
            | inr n ↦ elim (Bool-cases after.failed) [
              | inl x ↦ rw (e, t, g, n, x) sound
              | inr x ↦
                  rw (e, t, g, n, x) (capacity_rounds-IsSound k threshold size before after sound)
            ]
          ]
        ]
      ]
    ]

-- Whichever statements fail, RunCapacity over rows with distinct ids reports exactly the rows and
-- bytes that are gone, adds no row, and keeps every row that has no digest.
pub run_capacity-IsFaithful :
    (faults : List Bool) (rows : List CacheEntry) (threshold batch : ℕ)
    → Distinct rows
    → let r = run_capacity faults rows threshold batch false in
      IsFaithful has_digest rows r.0.freed_count r.0.freed_bytes r.2
unfolding run_capacity
run_capacity-IsFaithful faults rows threshold batch d = elim (Bool-cases (next_fails faults)) [
  | inl e ↦ rw e (IsFaithful-refl has_digest rows)
  | inr e ↦ rw e (
      report_of-IsFaithful has_digest rows
        (capacity_rounds 1000 false threshold (batch_size batch) (start rows (rest_of faults)))
        (capacity_rounds-IsSound 1000 threshold (batch_size batch) rows
          (start rows (rest_of faults)) (start-IsSound has_digest rows (rest_of faults) d)))
]

abbrev Fits : ℕ → List CacheEntry → Type 0
Fits threshold rows = (sum_sizes rows ≤ threshold) ⊎ (count_of has_digest rows ≡ 0)

capacity_rounds-Fits :
    (k threshold size : ℕ) (before : List CacheEntry) (r : Run)
    → IsSound has_digest before r
    → r.faults ≡ []
    → r.failed ≡ false
    → 0 < size
    → count_of has_digest r.table ≤ k * size
    → Fits threshold (capacity_rounds k false threshold size r).table
      × ((capacity_rounds k false threshold size r).failed ≡ false)
      × ((capacity_rounds k false threshold size r).faults ≡ [])
unfolding capacity_rounds
capacity_rounds-Fits zero threshold size before r s f g z h = (inr (omega arith), g, f)
capacity_rounds-Fits (suc k) threshold size before r s f g z h =
    let q = rest_of r.faults in
    let batch = oldest has_digest size r.table in
    let after = delete_batch false batch (record r { faults = rest_of q }) in
    let no_q : q ≡ [] = rw f refl in
    let sound = run-IsSound has_digest before r q r.failed s in
    let (fewer, same_failed, no_faults) =
      oldest-count has_digest size (record r { faults = q }) no_q s.distinct in
    let len = length-oldest has_digest size r.table in
    let still_going = same_failed ∙ g in
    let no_fail : next_fails r.faults ≡ false = rw f refl in
    let no_fail' : next_fails q ≡ false = rw f refl in
    elim (Bool-cases (leb (sum_sizes r.table) threshold)) [
      | inl t ↦ rw (no_fail, t) (inl (ground arith), g, no_q)
      | inr t ↦ elim (Bool-cases (is_nil batch)) [
        | inl n ↦
            rw (no_fail, t, no_fail', n)
              (inr (omega (arith, len, is_nil-length batch n)), g, rw f refl)
        | inr n ↦
            rw (no_fail, t, no_fail', n, still_going)
              (capacity_rounds-Fits k threshold size before after
                (oldest-IsSound has_digest size before (record r { faults = q }) sound) no_faults
                still_going z (omega (arith, len, fewer)))
      ]
    ]

-- When no statement fails and a thousand batches are enough for the rows with a digest, RunCapacity
-- ends without an error, and what it leaves fits the threshold or has no row with a digest.
pub run_capacity_complete :
    (rows : List CacheEntry) (threshold batch : ℕ)
    → Distinct rows
    → count_of has_digest rows ≤ 1000 * batch_size batch
    → let r = run_capacity [] rows threshold batch false in
      (r.1 ≡ false)
      × ((sum_sizes r.2 ≤ threshold) ⊎ (count_of has_digest r.2 ≡ 0))
      × (r.0.after_bytes ≡ sum_sizes r.2)
unfolding run_capacity
run_capacity_complete rows threshold batch d h =
    let r = capacity_rounds 1000 false threshold (batch_size batch) (start rows []) in
    let (fits, f, n) =
      capacity_rounds-Fits 1000 threshold (batch_size batch) rows (start rows [])
        (start-IsSound has_digest rows [] d) refl refl (batch_size-positive batch) h in
    let (e, t, c, b) = report_of_complete rows r f n in
    (e, subst (Fits threshold) (sym t) fits, b ∙ ap sum_sizes (sym t))

rounds-fitting :
    (k threshold size : ℕ) (r : Run)
    → leb (sum_sizes r.table) threshold ≡ true
    → (capacity_rounds k false threshold size r).table ≡ r.table
unfolding capacity_rounds
rounds-fitting zero threshold size r t = refl
rounds-fitting (suc k) threshold size r t = elim (Bool-cases (next_fails r.faults)) [
  | inl e ↦ rw e refl
  | inr e ↦ rw (e, t) refl
]

report_of-table : (before : List CacheEntry) (r : Run) → (report_of false before r).2 ≡ r.table
unfolding report_of
report_of-table before r = ground arith

-- A total within the threshold: RunCapacity deletes nothing.
pub run_capacity-fitting :
    (faults : List Bool) (rows : List CacheEntry) (threshold batch : ℕ)
    → sum_sizes rows ≤ threshold
    → (run_capacity faults rows threshold batch false).2 ≡ rows
unfolding run_capacity
run_capacity-fitting faults rows threshold batch h =
    let r = start rows (rest_of faults) in
    let t : leb (sum_sizes rows) threshold ≡ true = ground (arith, h) in
    elim (Bool-cases (next_fails faults)) [
      | inl e ↦ rw e refl
      | inr e ↦ rw e (
          report_of-table rows (capacity_rounds 1000 false threshold (batch_size batch) r)
          ∙ rounds-fitting 1000 threshold (batch_size batch) r t)
    ]

pub is_nil-empty : (bs : List CacheEntry) → length bs ≡ 0 → is_nil bs ≡ true
is_nil-empty [] h = refl
is_nil-empty (b ∷ bs) h = ground (arith, h)

rounds-none :
    (k threshold size : ℕ) (r : Run)
    → count_of has_digest r.table ≡ 0
    → (capacity_rounds k false threshold size r).table ≡ r.table
unfolding capacity_rounds
rounds-none zero threshold size r h = refl
rounds-none (suc k) threshold size r h =
    let f = rest_of r.faults in
    let n =
      is_nil-empty (oldest has_digest size r.table)
        (omega (arith, length-oldest has_digest size r.table)) in
    elim (Bool-cases (next_fails r.faults)) [
      | inl e ↦ rw e refl
      | inr e ↦ elim (Bool-cases (leb (sum_sizes r.table) threshold)) [
        | inl t ↦ rw (e, t) refl
        | inr t ↦ elim (Bool-cases (next_fails f)) [
          | inl g ↦ rw (e, t, g) refl
          | inr g ↦ rw (e, t, g, n) refl
        ]
      ]
    ]

rounds-drain :
    (k threshold size : ℕ) (r : Run)
    → r.faults ≡ []
    → r.failed ≡ false
    → Distinct r.table
    → count_of has_digest r.table ≤ size
    → leb (sum_sizes r.table) threshold ≡ false
    → count_of has_digest (capacity_rounds (suc k) false threshold size r).table ≡ 0
unfolding capacity_rounds
rounds-drain k threshold size r f g d h t =
    let q = rest_of r.faults in
    let batch = oldest has_digest size r.table in
    let after = delete_batch false batch (record r { faults = rest_of q }) in
    let no_q : q ≡ [] = rw f refl in
    let (fewer, same_failed, no_faults) =
      oldest-count has_digest size (record r { faults = q }) no_q d in
    let len = length-oldest has_digest size r.table in
    let still_going = same_failed ∙ g in
    let no_fail : next_fails r.faults ≡ false = rw f refl in
    let no_fail' : next_fails q ≡ false = rw f refl in
    let drained : count_of has_digest after.table ≡ 0 = omega (arith, len, fewer) in
    elim (Bool-cases (is_nil batch)) [
      | inl n ↦ rw (no_fail, t, no_fail', n) (omega (arith, len, is_nil-length batch n))
      | inr n ↦
          rw (no_fail, t, no_fail', n, still_going)
            (ap (count_of has_digest) (rounds-none k threshold size after drained) ∙ drained)
    ]

-- One byte over the threshold, and no more rows with a digest than a batch holds: when no statement
-- fails RunCapacity deletes every row with a digest, however few of them would have been enough.
pub run_capacity_drains :
    (rows : List CacheEntry) (threshold batch : ℕ)
    → Distinct rows
    → threshold < sum_sizes rows
    → count_of has_digest rows ≤ batch_size batch
    → count_of has_digest (run_capacity [] rows threshold batch false).2 ≡ 0
unfolding run_capacity
run_capacity_drains rows threshold batch d over h =
    let r = start rows [] in
    ap (count_of has_digest)
      (report_of-table rows (capacity_rounds 1000 false threshold (batch_size batch) r))
    ∙ rounds-drain 999 threshold (batch_size batch) r refl refl d h (ground (arith, over))
