-- ===== src/Storage/Cleanup/Batch.antt =====
-- Deleting a batch of rows: what is left, and what the report counts.
use cncache_hub.Prelude.{
  subst, ℕ, ◌+◌, ◌≤◌, ◌≡◌, ◌≢◌, refl, sym, ap, ◌∙◌, Bool, true, false, none, some, List, [], ◌∷◌,
  if◌then◌else◌, length, ◌==◌, All, All-map, arith, Bool-cases, inl, inr,
}
use cncache_hub.Storage.Entries.{CacheEntry, sum_sizes, delete_id, get_cache_entry_by_id}
use cncache_hub.Storage.Cleanup.{Run, delete_batch, next_fails, rest_of}
use cncache_hub.Storage.Cleanup.Rows.{AllNe, Distinct, Holds, count_of, All-both}

pub get-delete_id :
    (i j : ℕ) (rows : List CacheEntry)
    → get_cache_entry_by_id (delete_id i rows) j
      ≡ (if i == j then none else get_cache_entry_by_id rows j)
unfolding get_cache_entry_by_id delete_id
get-delete_id i j [] = ground arith
get-delete_id i j (x ∷ xs) = ground (arith, get-delete_id i j xs)

delete_id-ne : (i : ℕ) (rows : List CacheEntry) → AllNe i rows → delete_id i rows ≡ rows
unfolding delete_id
delete_id-ne i [] h = refl
delete_id-ne i (x ∷ xs) (n, h) = ground (arith, n, delete_id-ne i xs h)

delete_id-AllNe : (i j : ℕ) (rows : List CacheEntry) → AllNe j rows → AllNe j (delete_id i rows)
unfolding delete_id
delete_id-AllNe i j [] h = tt
delete_id-AllNe i j (x ∷ xs) (n, h) = elim (Bool-cases (x.id == i)) [
  | inl e ↦ rw e (delete_id-AllNe i j xs h)
  | inr e ↦ rw e (n, delete_id-AllNe i j xs h)
]

pub delete_id-Distinct :
    (i : ℕ) (rows : List CacheEntry) → Distinct rows → Distinct (delete_id i rows)
unfolding delete_id
delete_id-Distinct i [] d = tt
delete_id-Distinct i (x ∷ xs) (n, d) = elim (Bool-cases (x.id == i)) [
  | inl e ↦ rw e (delete_id-Distinct i xs d)
  | inr e ↦ rw e (delete_id-AllNe i x.id xs n, delete_id-Distinct i xs d)
]

Holds-first :
    (b x : CacheEntry) (xs : List CacheEntry) → (x.id == b.id) ≡ true → Holds (x ∷ xs) b → b ≡ x
unfolding get_cache_entry_by_id
Holds-first b x xs e h = let q : some x ≡ some b = rw e at h in cc

Holds-later :
    (b x : CacheEntry) (xs : List CacheEntry)
    → (x.id == b.id) ≡ false
    → Holds (x ∷ xs) b
    → Holds xs b
unfolding get_cache_entry_by_id
Holds-later b x xs e h = rw e at h

abbrev SizesExact : CacheEntry → List CacheEntry → Type 0
SizesExact b rows =
    (sum_sizes (delete_id b.id rows) + b.size_bytes ≡ sum_sizes rows)
    × (length (delete_id b.id rows) + 1 ≡ length rows)

sizes_first : (b : CacheEntry) (xs : List CacheEntry) → AllNe b.id xs → SizesExact b (b ∷ xs)
unfolding delete_id sum_sizes
sizes_first b xs n = ground (arith, delete_id-ne b.id xs n)

sizes_later :
    (b x : CacheEntry) (xs : List CacheEntry)
    → (x.id == b.id) ≡ false
    → SizesExact b xs
    → SizesExact b (x ∷ xs)
unfolding delete_id sum_sizes
sizes_later b x xs e h = rw e (omega arith)

-- Deleting a row takes exactly its size and one row away.
delete_id-sizes :
    (b : CacheEntry) (rows : List CacheEntry) → Distinct rows → Holds rows b → SizesExact b rows
delete_id-sizes b [] d h = unfold get_cache_entry_by_id in cc
delete_id-sizes b (x ∷ xs) (n, d) h = elim (Bool-cases (x.id == b.id)) [
  | inl e ↦
      subst (λ z. AllNe x.id xs → SizesExact z (x ∷ xs)) (sym (Holds-first b x xs e h))
        (sizes_first x xs) n
  | inr e ↦ sizes_later b x xs e (delete_id-sizes b xs d (Holds-later b x xs e h))
]

count-delete_id_le :
    (p : CacheEntry → Bool) (i : ℕ) (rows : List CacheEntry)
    → count_of p (delete_id i rows) ≤ count_of p rows
unfolding delete_id count_of
count-delete_id_le p i [] = omega arith
count-delete_id_le p i (x ∷ xs) = ground (arith, count-delete_id_le p i xs)

count_first :
    (p : CacheEntry → Bool) (b : CacheEntry) (xs : List CacheEntry)
    → p b ≡ true
    → count_of p (delete_id b.id (b ∷ xs)) + 1 ≤ count_of p (b ∷ xs)
unfolding delete_id count_of
count_first p b xs e = ground (arith, count-delete_id_le p b.id xs)

count_later :
    (p : CacheEntry → Bool) (b x : CacheEntry) (xs : List CacheEntry)
    → (x.id == b.id) ≡ false
    → count_of p (delete_id b.id xs) + 1 ≤ count_of p xs
    → count_of p (delete_id b.id (x ∷ xs)) + 1 ≤ count_of p (x ∷ xs)
unfolding delete_id count_of
count_later p b x xs e h = rw e (omega arith)

count-delete_id :
    (p : CacheEntry → Bool) (b : CacheEntry) (rows : List CacheEntry)
    → p b ≡ true
    → Holds rows b
    → count_of p (delete_id b.id rows) + 1 ≤ count_of p rows
count-delete_id p b [] e h = unfold get_cache_entry_by_id in cc
count-delete_id p b (x ∷ xs) e h = elim (Bool-cases (x.id == b.id)) [
  | inl q ↦
      subst (λ z. p z ≡ true → count_of p (delete_id z.id (x ∷ xs)) + 1 ≤ count_of p (x ∷ xs))
        (sym (Holds-first b x xs q h)) (count_first p x xs) e
  | inr q ↦ count_later p b x xs q (count-delete_id p b xs e (Holds-later b x xs q h))
]

-- The rest of a batch is still there after its first row is deleted.
Holds-delete_id :
    (i : ℕ) (rows : List CacheEntry) (b : CacheEntry)
    → (i ≢ b.id) × Holds rows b
    → Holds (delete_id i rows) b
Holds-delete_id i rows b (n, h) = rw get-delete_id (ground arith)

batch-Holds :
    (b : CacheEntry) (bs rows : List CacheEntry)
    → AllNe b.id bs
    → All (Holds rows) bs
    → All (Holds (delete_id b.id rows)) bs
batch-Holds b bs rows n h =
    All-map (λ e. (b.id ≢ e.id) × Holds rows e) (Holds (delete_id b.id rows))
      (Holds-delete_id b.id rows) bs (All-both b.id (Holds rows) bs n h)

-- With no fault the whole batch goes, and each of its rows was one that the test lets through.
pub delete_batch-count :
    (p : CacheEntry → Bool) (bs : List CacheEntry) (r : Run)
    → r.faults ≡ []
    → Distinct bs
    → All (Holds r.table) bs
    → All (λ b. p b ≡ true) bs
    → (count_of p (delete_batch false bs r).table + length bs ≤ count_of p r.table)
      × ((delete_batch false bs r).failed ≡ r.failed)
      × ((delete_batch false bs r).faults ≡ [])
unfolding delete_batch
delete_batch-count p [] r f d h t = ground arith
delete_batch-count p (b ∷ bs) r f (n, d) (h, hs) (t, ts) = ground (
  arith,
  delete_batch-count p bs
      (record r {
        table = delete_id b.id r.table;
        freed_count = r.freed_count + 1;
        freed_bytes = r.freed_bytes + b.size_bytes;
        faults = rest_of r.faults;
      })
      (rw f refl) d (batch-Holds b bs r.table n hs) ts,
  count-delete_id p b r.table t h,
)

-- What holds of a run at any time, whichever statements fail: `p` is the test of its SELECT.
pub record IsSound (p : CacheEntry → Bool) (before : List CacheEntry) (r : Run) : Type 0 where
  pub distinct : Distinct r.table
  pub counted : r.freed_count + length r.table ≡ length before
  pub sized : r.freed_bytes + sum_sizes r.table ≡ sum_sizes before
  pub none_new : (e : CacheEntry) → Holds r.table e → Holds before e
  pub kept : (e : CacheEntry) → Holds before e → p e ≡ false → Holds r.table e

abbrev deleted : Run → CacheEntry → Run
deleted r b = record r {
  table = delete_id b.id r.table;
  freed_count = r.freed_count + 1;
  freed_bytes = r.freed_bytes + b.size_bytes;
  faults = rest_of r.faults;
}

deleted-new :
    (i : ℕ) (rows : List CacheEntry) (e : CacheEntry)
    → Holds (delete_id i rows) e
    → (i ≢ e.id) × Holds rows e
deleted-new i rows e h =
    let k = sym (get-delete_id i e.id rows) ∙ h in
    elim (Bool-cases (i == e.id)) [
      | inl q ↦ let k' : none ≡ some e = rw q at k in cc
      | inr q ↦ (ground arith, rw q at k)
    ]

deleted-IsSound :
    (p : CacheEntry → Bool) (before : List CacheEntry) (r : Run) (b : CacheEntry)
    → IsSound p before r
    → Holds r.table b
    → p b ≡ true
    → IsSound p before (deleted r b)
deleted-IsSound p before r b s h t = record {
  distinct = delete_id-Distinct b.id r.table s.distinct;
  counted = ground (arith, delete_id-sizes b r.table s.distinct h, s.counted);
  sized = ground (arith, delete_id-sizes b r.table s.distinct h, s.sized);
  none_new = λ e q. s.none_new e (deleted-new b.id r.table e q).1;
  kept = λ e q n.
      Holds-delete_id b.id r.table e
        ((λ w. cc (s.none_new b h, ap (λ i. get_cache_entry_by_id before i) w)), s.kept e q n);
}

pub run-IsSound :
    (p : CacheEntry → Bool) (before : List CacheEntry) (r : Run) (f : List Bool) (b : Bool)
    → IsSound p before r
    → IsSound p before (record r { faults = f; failed = b })
run-IsSound p before r f b s = record {
  distinct = s.distinct;
  counted = s.counted;
  sized = s.sized;
  none_new = s.none_new;
  kept = s.kept;
}

pub delete_batch-IsSound :
    (p : CacheEntry → Bool) (before bs : List CacheEntry) (r : Run)
    → IsSound p before r
    → Distinct bs
    → All (Holds r.table) bs
    → All (λ b. p b ≡ true) bs
    → IsSound p before (delete_batch false bs r)
unfolding delete_batch
delete_batch-IsSound p before [] r s d h t = s
delete_batch-IsSound p before (b ∷ bs) r s (n, d) (h, hs) (t, ts) =
    elim (Bool-cases (next_fails r.faults)) [
      | inl e ↦ rw e (run-IsSound p before r (rest_of r.faults) true s)
      | inr e ↦ rw e (
          delete_batch-IsSound p before bs (deleted r b) (deleted-IsSound p before r b s h t) d
            (batch-Holds b bs r.table n hs) ts)
    ]
