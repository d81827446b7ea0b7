-- ===== src/Storage/Entries.antt =====
-- storage/cache_entry.go: the metadata of the cached blobs.
pub mod Keys
use cncache_hub.Prelude.{
  ℕ, ◌+◌, ◌-◌, ◌*◌, Bool, true, false, not, ◌&&◌, ◌||◌, Option, none, some, List, [], ◌∷◌, ◌++◌,
  if◌then◌else◌, length, ◌==◌, ltb, take, drop, any, reverse, map, leb,
}
use cncache_hub.Text.{Bytes, same, is_empty}

pub record CacheEntry : Type 0 where
  pub id : ℕ
  pub registry : Bytes
  pub repository : Bytes
  pub digest : Bytes
  pub media_type : Bytes
  pub size_bytes : ℕ
  pub storage_path : Bytes
  pub hit_count : ℕ
  pub last_access_at : ℕ
  pub created_at : ℕ
  pub bypassed : Bool
  pub bypass_reason : Bytes

-- The rows, and the id that AUTOINCREMENT gives next.
pub record Table : Type 0 where
  pub rows : List CacheEntry
  pub next_id : ℕ

unfoldable pub has_key : Bytes → Bytes → Bytes → CacheEntry → Bool
has_key registry repo digest e =
    same e.registry registry && same e.repository repo && same e.digest digest

abbrev pub or_now : ℕ → ℕ → ℕ
or_now t now = if t == 0 then now else t

-- The SET clause of the upsert; `hit_count` and `created_at` stay.
abbrev pub overwrite : CacheEntry → CacheEntry → CacheEntry
overwrite e row = record row {
  media_type = e.media_type;
  size_bytes = e.size_bytes;
  storage_path = e.storage_path;
  last_access_at = e.last_access_at;
  bypassed = e.bypassed;
  bypass_reason = e.bypass_reason;
}

unfoldable pub overwrite_rows : CacheEntry → List CacheEntry → List CacheEntry
unfolding has_key
overwrite_rows e [] = []
overwrite_rows e (row ∷ rows) =
    (if has_key e.registry e.repository e.digest row then overwrite e row else row)
    ∷ overwrite_rows e rows

unfoldable pub find_row : Bytes → Bytes → Bytes → List CacheEntry → Option CacheEntry
unfolding has_key
find_row registry repo digest [] = none
find_row registry repo digest (row ∷ rows) =
    if has_key registry repo digest row then some row else find_row registry repo digest rows

abbrev pub stamped : ℕ → CacheEntry → CacheEntry
stamped now e = record e {
  last_access_at = or_now e.last_access_at now;
  created_at = or_now e.created_at now;
}

abbrev pub insert_row : Table → CacheEntry → Table
insert_row t e = record {
  rows = t.rows ++ (record e { id = t.next_id }) ∷ [];
  next_id = t.next_id + 1;
}

-- UpsertCacheEntry. The index of unique keys leaves out the empty digest.
unfoldable pub upsert_cache_entry : ℕ → Table → CacheEntry → Table
unfolding find_row overwrite_rows
upsert_cache_entry now t e =
    let e' = stamped now e in
    if is_empty e.digest
    then insert_row t e'
    else elim (find_row e.registry e.repository e.digest t.rows) [
      | none ↦ insert_row t e'
      | some _ ↦ record t { rows = overwrite_rows e' t.rows }
    ]

abbrev pub touch_row : ℕ → CacheEntry → CacheEntry
touch_row now row = record row { last_access_at = now; hit_count = row.hit_count + 1 }

unfoldable pub touch_rows : ℕ → Bytes → Bytes → Bytes → List CacheEntry → List CacheEntry
unfolding has_key
touch_rows now registry repo digest [] = []
touch_rows now registry repo digest (row ∷ rows) =
    (if has_key registry repo digest row then touch_row now row else row)
    ∷ touch_rows now registry repo digest rows

-- TouchCacheEntry
unfoldable pub touch_cache_entry : ℕ → Table → Bytes → Bytes → Bytes → Table
unfolding touch_rows
touch_cache_entry now t registry repo digest = record t {
  rows = touch_rows now registry repo digest t.rows;
}

unfoldable pub delete_id : ℕ → List CacheEntry → List CacheEntry
delete_id id [] = []
delete_id id (row ∷ rows) =
    let rest = delete_id id rows in if row.id == id then rest else row ∷ rest

-- DeleteCacheEntry
unfoldable pub delete_cache_entry : Table → ℕ → Table
unfolding delete_id
delete_cache_entry t id = record t { rows = delete_id id t.rows }

-- GetCacheEntryByID; `none` is ErrNotFound.
unfoldable pub get_cache_entry_by_id : List CacheEntry → ℕ → Option CacheEntry
get_cache_entry_by_id [] id = none
get_cache_entry_by_id (row ∷ rows) id =
    if row.id == id then some row else get_cache_entry_by_id rows id

unfoldable pub sum_sizes : List CacheEntry → ℕ
sum_sizes [] = 0
sum_sizes (row ∷ rows) = row.size_bytes + sum_sizes rows

unfoldable pub sum_hits : List CacheEntry → ℕ
sum_hits [] = 0
sum_hits (row ∷ rows) = row.hit_count + sum_hits rows

unfoldable pub count_bypassed : List CacheEntry → ℕ
count_bypassed [] = 0
count_bypassed (row ∷ rows) = (if row.bypassed then 1 else 0) + count_bypassed rows

pub record CacheAggregateStats : Type 0 where
  pub total_entries : ℕ
  pub total_bytes : ℕ
  pub total_hits : ℕ
  pub bypassed_count : ℕ

-- CacheAggregate
unfoldable pub cache_aggregate : Table → CacheAggregateStats
unfolding sum_sizes sum_hits count_bypassed
cache_aggregate t = record {
  total_entries = length t.rows;
  total_bytes = sum_sizes t.rows;
  total_hits = sum_hits t.rows;
  bypassed_count = count_bypassed t.rows;
}
