-- ===== src/Storage/Entries/Keys.antt =====
-- The table as a map from keys to entries.
use mathlib.Core.Option
use cncache_hub.Prelude.{
  ℕ, ◌≡◌, refl, ap, ◌∙◌, false, Option, none, some, List, [], ◌∷◌, ◌++◌, if◌then◌else◌, arith,
  is_some, inl, inr, Option-cases,
}
use cncache_hub.Text.{Bytes, is_empty}
use cncache_hub.Text.Equality.{same_refl}
use cncache_hub.Storage.Entries.{
  CacheEntry, Table, has_key, find_row, overwrite, overwrite_rows, stamped, upsert_cache_entry,
  touch_row, touch_rows, touch_cache_entry,
}

find_row-append :
    (g r d : Bytes) (xs ys : List CacheEntry)
    → find_row g r d (xs ++ ys)
      ≡ (if is_some (find_row g r d xs) then find_row g r d xs else find_row g r d ys)
unfolding find_row
find_row-append g r d [] ys = refl
find_row-append g r d (x ∷ xs) ys = ground (arith, find_row-append g r d xs ys)

find_row-touch_rows :
    (now : ℕ) (g r d g' r' d' : Bytes) (xs : List CacheEntry)
    → find_row g' r' d' (touch_rows now g r d xs)
      ≡ Option.map (λ e. if has_key g r d e then touch_row now e else e) (find_row g' r' d' xs)
unfolding find_row touch_rows
find_row-touch_rows now g r d g' r' d' [] = refl
find_row-touch_rows now g r d g' r' d' (x ∷ xs) =
    ground (arith, find_row-touch_rows now g r d g' r' d' xs)

-- A touch adds one hit to the row of its key and sets its time; the row of any other key stays.
pub find_row-touch :
    (now : ℕ) (t : Table) (g r d g' r' d' : Bytes)
    → find_row g' r' d' (touch_cache_entry now t g r d).rows
      ≡ Option.map (λ e. if has_key g r d e then touch_row now e else e) (find_row g' r' d' t.rows)
unfolding touch_cache_entry
find_row-touch now t g r d g' r' d' = find_row-touch_rows now g r d g' r' d' t.rows

find_row-overwrite_rows :
    (e : CacheEntry) (xs : List CacheEntry)
    → find_row e.registry e.repository e.digest (overwrite_rows e xs)
      ≡ Option.map (overwrite e) (find_row e.registry e.repository e.digest xs)
unfolding find_row overwrite_rows
find_row-overwrite_rows e [] = refl
find_row-overwrite_rows e (x ∷ xs) = ground (arith, find_row-overwrite_rows e xs)

-- The row that an upsert leaves for its key: a new one with the next id, or the old one with its
-- id, its hits and its time of creation.
abbrev pub upserted : ℕ → Table → CacheEntry → Option CacheEntry → CacheEntry
upserted now t e none = record (stamped now e) { id = t.next_id }
upserted now t e (some row) = overwrite (stamped now e) row

-- After an upsert with a digest that is not empty, the row found under its key is the upserted one:
-- a new row where there was none, else the old row with its id and its hits.
pub find_row-upsert :
    (now : ℕ) (t : Table) (e : CacheEntry)
    → is_empty e.digest ≡ false
    → find_row e.registry e.repository e.digest (upsert_cache_entry now t e).rows
      ≡ some (upserted now t e (find_row e.registry e.repository e.digest t.rows))
unfolding upsert_cache_entry
find_row-upsert now t e h = elim (Option-cases (find_row e.registry e.repository e.digest t.rows)) [
  | inl n ↦
      rw (h, n)
        (find_row-append e.registry e.repository e.digest t.rows
            (record (stamped now e) { id = t.next_id } ∷ [])
          ∙ rw (n, same_refl e.registry, same_refl e.repository, same_refl e.digest) refl)
  | inr (row, n) ↦
      rw (h, n)
        (find_row-overwrite_rows (stamped now e) t.rows
          ∙ ap (Option.map (overwrite (stamped now e))) n)
]
