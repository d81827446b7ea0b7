-- ===== src/Storage/Resources.antt =====
-- storage/resource.go: the resource rules and the rows of the files that are cached under them. The
-- names of the rules are unique, and so are the rule and the path of a file; a rule that is deleted
-- takes the rows of its files along.
pub mod Keys
use cncache_hub.Prelude.{
  ℕ, ◌+◌, Bool, true, false, not, ◌&&◌, ◌||◌, Option, none, some, List, [], ◌∷◌, ◌++◌, reverse,
  if◌then◌else◌, length, ◌==◌, take, ◌<◌,
}
use cncache_hub.Prelude.Int.{ℤ, pos, negsuc, pos_part, lt_ℤ}
use cncache_hub.Text.{Bytes, codes, same, is_empty, trim_right}
use cncache_hub.Storage.Sql.{find_where, update_where, delete_where, select_where}

pub record ResourceRule : Type 0 where
  pub id : ℕ
  pub name : Bytes
  pub kind : Bytes
  pub upstream_url : Bytes
  pub path_pattern : Bytes
  pub default_ttl_seconds : ℤ
  pub enabled : Bool
  pub description : Bytes
  pub created_at : ℕ
  pub updated_at : ℕ

pub record ResourceCacheEntry : Type 0 where
  pub id : ℕ
  pub rule_id : ℕ
  pub path : Bytes
  pub size_bytes : ℕ
  pub hit_count : ℕ
  pub last_access_at : ℕ
  pub expires_at : ℕ
  pub content_type : Bytes
  pub storage_path : Bytes
  pub created_at : ℕ
  pub updated_at : ℕ

-- Both tables, each with the id that AUTOINCREMENT gives next.
pub record Resources : Type 0 where
  pub rules : List ResourceRule
  pub next_rule_id : ℕ
  pub entries : List ResourceCacheEntry
  pub next_entry_id : ℕ

abbrev pub has_rule_id : ℕ → ResourceRule → Bool
has_rule_id id r = r.id == id

abbrev pub has_rule_name : Bytes → ResourceRule → Bool
has_rule_name name r = same r.name name

-- ListResourceRules
unfoldable pub list_resource_rules : Resources → List ResourceRule
list_resource_rules db = db.rules

-- GetResourceRule and GetResourceRuleByName; `none` is ErrNotFound.
unfoldable pub get_resource_rule : Resources → ℕ → Option ResourceRule
unfolding find_where
get_resource_rule db id = find_where (has_rule_id id) db.rules

unfoldable pub get_resource_rule_by_name : Resources → Bytes → Option ResourceRule
unfolding find_where
get_resource_rule_by_name db name = find_where (has_rule_name name) db.rules

-- The rule that CreateResourceRule inserts: with a day as its time to live and every path where
-- these are not given, and no slash at the end of the upstream.
unfoldable pub new_rule : ℕ → ℕ → ResourceRule → ResourceRule
unfolding trim_right
new_rule now id r = record r {
  id = id;
  created_at = now;
  updated_at = now;
  default_ttl_seconds = elim r.default_ttl_seconds [
    | pos n ↦ if n == 0 then pos 86400 else pos n
    | negsuc n ↦ negsuc n
  ];
  path_pattern = if is_empty r.path_pattern then codes "*" else r.path_pattern;
  upstream_url = trim_right r.upstream_url 47;
}

-- CreateResourceRule, on the rule that has the name already; `none` is the constraint's error.
unfoldable pub put_rule :
    ℕ → Resources → ResourceRule → Option ResourceRule → Option (Resources × ResourceRule)
unfolding new_rule
put_rule now db r (some _) = none
put_rule now db r none = some (
  record db {
    rules = db.rules ++ new_rule now db.next_rule_id r ∷ [];
    next_rule_id = db.next_rule_id + 1;
  },
  new_rule now db.next_rule_id r,
)

unfoldable pub create_resource_rule :
    ℕ → Resources → ResourceRule → Option (Resources × ResourceRule)
unfolding put_rule get_resource_rule_by_name
create_resource_rule now db r = put_rule now db r (get_resource_rule_by_name db r.name)

pub record ResourceRulePatch : Type 0 where
  pub upstream_url : Option Bytes
  pub path_pattern : Option Bytes
  pub default_ttl_seconds : Option ℤ
  pub enabled : Option Bool
  pub description : Option Bytes

abbrev pub or_old {ℓ} : {A : Type ℓ} → Option A → A → A
or_old none old = old
or_old (some new) old = new

-- The fields that a patch gives, and the old ones for the rest.
unfoldable pub patched : ℕ → ResourceRulePatch → ResourceRule → ResourceRule
unfolding trim_right
patched now p cur = record cur {
  upstream_url = elim p.upstream_url [ none ↦ cur.upstream_url | some u ↦ trim_right u 47 ];
  path_pattern = or_old p.path_pattern cur.path_pattern;
  default_ttl_seconds = or_old p.default_ttl_seconds cur.default_ttl_seconds;
  enabled = or_old p.enabled cur.enabled;
  description = or_old p.description cur.description;
  updated_at = now;
}

-- The columns of the UPDATE.
abbrev pub set_rule : ResourceRule → ResourceRule → ResourceRule
set_rule new row = record row {
  upstream_url = new.upstream_url;
  path_pattern = new.path_pattern;
  default_ttl_seconds = new.default_ttl_seconds;
  enabled = new.enabled;
  description = new.description;
  updated_at = new.updated_at;
}

-- UpdateResourceRule
unfoldable pub update_resource_rule :
    ℕ → Resources → ℕ → ResourceRulePatch → Option (Resources × ResourceRule)
unfolding patched get_resource_rule update_where
update_resource_rule now db id p = elim (get_resource_rule db id) [
  | none ↦ none
  | some cur ↦ some (
    record db { rules = update_where (has_rule_id id) (set_rule (patched now p cur)) db.rules },
    patched now p cur,
  )
]

abbrev pub of_rule : ℕ → ResourceCacheEntry → Bool
of_rule id e = e.rule_id == id

-- DeleteResourceRule, with the cascade of the foreign key.
unfoldable pub delete_resource_rule : Resources → ℕ → Resources
unfolding delete_where
delete_resource_rule db id = record db {
  rules = delete_where (has_rule_id id) db.rules;
  entries = delete_where (of_rule id) db.entries;
}

-- ListResourceCache: the newest first, a hundred where the limit is not between 1 and 500.
unfoldable pub list_resource_cache : Resources → ℕ → ℤ → List ResourceCacheEntry
unfolding select_where
list_resource_cache db rule_id limit =
    let n = if not (lt_ℤ (pos 0) limit) || lt_ℤ (pos 500) limit then 100 else pos_part limit in
    take n (reverse (select_where (of_rule rule_id) db.entries))

unfoldable pub has_entry_key : ℕ → Bytes → ResourceCacheEntry → Bool
has_entry_key rule_id path e = e.rule_id == rule_id && same e.path path

-- GetResourceCacheEntry
unfoldable pub get_resource_cache_entry : Resources → ℕ → Bytes → Option ResourceCacheEntry
unfolding find_where has_entry_key
get_resource_cache_entry db rule_id path = find_where (has_entry_key rule_id path) db.entries

abbrev pub or_clock : ℕ → ℕ → ℕ
or_clock t now = if t == 0 then now else t

-- The times of the row that is to be written.
abbrev pub timed : ℕ → ResourceCacheEntry → ResourceCacheEntry
timed now e = record e {
  last_access_at = or_clock e.last_access_at now;
  updated_at = now;
  created_at = or_clock e.created_at now;
}

-- The SET clause of the upsert: the hits, the last access and the creation stay.
abbrev pub set_entry : ResourceCacheEntry → ResourceCacheEntry → ResourceCacheEntry
set_entry new row = record row {
  size_bytes = new.size_bytes;
  expires_at = new.expires_at;
  content_type = new.content_type;
  storage_path = new.storage_path;
  updated_at = new.updated_at;
}

-- UpsertResourceCacheEntry, on the row that has the key already.
unfoldable pub put_entry :
    ℕ → Resources → ResourceCacheEntry → Option ResourceCacheEntry → Resources
unfolding has_entry_key update_where
put_entry now db e none = record db {
  entries = db.entries ++ (record (timed now e) { id = db.next_entry_id }) ∷ [];
  next_entry_id = db.next_entry_id + 1;
}
put_entry now db e (some _) = record db {
  entries = update_where (has_entry_key e.rule_id e.path) (set_entry (timed now e)) db.entries;
}

unfoldable pub upsert_resource_cache_entry : ℕ → Resources → ResourceCacheEntry → Resources
unfolding put_entry get_resource_cache_entry
upsert_resource_cache_entry now db e =
    put_entry now db e (get_resource_cache_entry db e.rule_id e.path)

abbrev pub has_entry_id : ℕ → ResourceCacheEntry → Bool
has_entry_id id e = e.id == id

abbrev pub bumped : ℕ → ResourceCacheEntry → ResourceCacheEntry
bumped now e = record e { hit_count = e.hit_count + 1; last_access_at = now; updated_at = now }

-- BumpResourceCacheHit
unfoldable pub bump_resource_cache_hit : ℕ → Resources → ℕ → Resources
unfolding update_where
bump_resource_cache_hit now db id = record db {
  entries = update_where (has_entry_id id) (bumped now) db.entries;
}

-- DeleteResourceCacheEntry
unfoldable pub delete_resource_cache_entry : Resources → ℕ → Resources
unfolding delete_where
delete_resource_cache_entry db id = record db {
  entries = delete_where (has_entry_id id) db.entries;
}

pub record ResourceStatsSummary : Type 0 where
  pub total : ℕ
  pub total_bytes : ℕ

unfoldable pub entry_bytes : List ResourceCacheEntry → ℕ
entry_bytes [] = 0
entry_bytes (e ∷ es) = e.size_bytes + entry_bytes es

-- ResourceStats
unfoldable pub resource_stats : Resources → ResourceStatsSummary
unfolding entry_bytes
resource_stats db = record { total = length db.entries; total_bytes = entry_bytes db.entries }
