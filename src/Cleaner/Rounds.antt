-- ===== src/Cleaner/Rounds.antt =====
-- The rounds of deleteFilesForReport over the rows that are still too many.
use cncache_hub.Prelude.{
  ℕ, zero, suc, ◌+◌, ◌≤◌, ◌≡◌, refl, Bool, true, false, List, [], ◌∷◌, leb, length, arith,
  Bool-cases, inl, inr, ◌⊎◌, All, All-map,
}
use cncache_hub.Text.{Bytes}
use cncache_hub.Text.Equality.{same_refl}
use cncache_hub.Cache.Disk.{Disk}
use cncache_hub.Cache.Store.{FileStore}
use cncache_hub.Storage.Entries.{CacheEntry, has_key, sum_sizes}
use cncache_hub.Storage.Cleanup.{oldest, has_digest, is_nil}
use cncache_hub.Storage.Cleanup.Rows.{count_of, oldest-All, oldest_sound, length-oldest}
use cncache_hub.Storage.Cleanup.Lru.{is_nil-length}
use cncache_hub.Cleaner.{delete_files, delete_key, delete_keys, capacity_files}

key_refl : (e : CacheEntry) → has_key e.registry e.repository e.digest e ≡ true
unfolding has_key
key_refl e = rw (same_refl e.registry, same_refl e.repository, same_refl e.digest) refl

count-delete_key_le :
    (p : CacheEntry → Bool) (g r d : Bytes) (rows : List CacheEntry)
    → count_of p (delete_key g r d rows) ≤ count_of p rows
unfolding count_of delete_key
count-delete_key_le p g r d [] = omega arith
count-delete_key_le p g r d (x ∷ xs) = ground (arith, count-delete_key_le p g r d xs)

count-delete_keys_le :
    (p : CacheEntry → Bool) (es rows : List CacheEntry)
    → count_of p (delete_keys es rows) ≤ count_of p rows
unfolding delete_keys
count-delete_keys_le p [] rows = omega arith
count-delete_keys_le p (e ∷ es) rows = omega (
  arith,
  count-delete_keys_le p es (delete_key e.registry e.repository e.digest rows),
  count-delete_key_le p e.registry e.repository e.digest rows,
)

-- Deleting the key of this row takes one away of those that pass the test.
abbrev Lessens : (CacheEntry → Bool) → List CacheEntry → CacheEntry → Type 0
Lessens p rows e =
    p e ≡ true → count_of p (delete_key e.registry e.repository e.digest rows) + 1 ≤ count_of p rows

Lessens-first :
    (p : CacheEntry → Bool) (x : CacheEntry) (xs : List CacheEntry) → Lessens p (x ∷ xs) x
unfolding count_of delete_key
Lessens-first p x xs h =
    rw (key_refl x, h) (omega (arith, count-delete_key_le p x.registry x.repository x.digest xs))

Lessens-later :
    (p : CacheEntry → Bool) (x : CacheEntry) (xs : List CacheEntry) (e : CacheEntry)
    → Lessens p xs e
    → Lessens p (x ∷ xs) e
unfolding count_of delete_key
Lessens-later p x xs e l h = ground (arith, l h)

All-Lessens : (p : CacheEntry → Bool) (rows : List CacheEntry) → All (Lessens p rows) rows
All-Lessens p [] = tt
All-Lessens p (x ∷ xs) = (
  Lessens-first p x xs,
  All-map (Lessens p xs) (Lessens p (x ∷ xs)) (Lessens-later p x xs) xs (All-Lessens p xs),
)

batch-Lessens :
    (p : CacheEntry → Bool) (es rows : List CacheEntry)
    → is_nil es ≡ false
    → All (Lessens p rows) es
    → All (λ e. p e ≡ true) es
    → count_of p (delete_keys es rows) + 1 ≤ count_of p rows
unfolding delete_keys
batch-Lessens p [] rows n l t = cc
batch-Lessens p (e ∷ es) rows n (l, ls) (t, ts) =
    omega (arith, l t, count-delete_keys_le p es (delete_key e.registry e.repository e.digest rows))

rounds_enough :
    (k threshold : ℕ) (disk : Disk) (s : FileStore) (rows : List CacheEntry)
    → count_of has_digest rows ≤ k
    → let r = capacity_files k threshold disk s rows in
      (sum_sizes r.1 ≤ threshold) ⊎ (count_of has_digest r.1 ≡ 0)
unfolding capacity_files
rounds_enough zero threshold disk s rows h = inr (omega arith)
rounds_enough (suc k) threshold disk s rows h =
    let batch = oldest has_digest 50 rows in
    elim (Bool-cases (leb (sum_sizes rows) threshold)) [
      | inl f ↦ rw f (inl (ground arith))
      | inr f ↦ elim (Bool-cases (is_nil batch)) [
        | inl n ↦
            rw (f, n) (inr (omega (arith, length-oldest has_digest 50 rows, is_nil-length batch n)))
        | inr n ↦
            rw (f, n)
              (rounds_enough k threshold (delete_files disk s batch) s (delete_keys batch rows) (
                omega (
                  arith,
                  batch-Lessens has_digest batch rows n
                      (oldest-All (Lessens has_digest rows) has_digest 50 rows
                        (All-Lessens has_digest rows))
                      (oldest_sound has_digest 50 rows),
                  h,
                )))
      ]
    ]

count_le-length : (p : CacheEntry → Bool) (rows : List CacheEntry) → count_of p rows ≤ length rows
unfolding count_of
count_le-length p [] = omega arith
count_le-length p (x ∷ xs) = ground (arith, count_le-length p xs)

-- A round for each row is enough: the loop that deletes files ends with a total within the
-- threshold or with no row that has a digest.
capacity_files_complete :
    (threshold : ℕ) (disk : Disk) (s : FileStore) (rows : List CacheEntry)
    → let r = capacity_files (length rows) threshold disk s rows in
      (sum_sizes r.1 ≤ threshold) ⊎ (count_of has_digest r.1 ≡ 0)
capacity_files_complete threshold disk s rows =
    rounds_enough (length rows) threshold disk s rows (count_le-length has_digest rows)
