-- ===== src/Storage/Resources/Keys.antt =====
-- The two tables as maps: rules by name and by id, files by rule and path.
use mathlib.Core.Option
use mathlib.Core.Option.{some-injective}
use cncache_hub.Prelude.{
  ℕ, ◌+◌, ◌≡◌, refl, ap, ◌∙◌, subst, true, false, Option, none, some, [], ◌∷◌, ◌++◌, if◌then◌else◌,
  arith, Bool-cases, inl, inr, is_some, ◌==◌, &&-eq-true, ==_iff,
}
use cncache_hub.Text.{Bytes, same}
use cncache_hub.Text.Equality.{same_refl, same→≡}
use cncache_hub.Storage.Sql.{find_where}
use cncache_hub.Storage.Sql.Laws.{
  find_where-update, find_where-append, find_where-delete_other, find_where_first,
  find_where-delete_within,
}
use cncache_hub.Storage.Resources.{
  ResourceRule, ResourceCacheEntry, Resources, has_rule_name, get_resource_rule_by_name, new_rule,
  put_rule, create_resource_rule, delete_resource_rule, of_rule, has_entry_key,
  get_resource_cache_entry, timed, set_entry, put_entry, upsert_resource_cache_entry,
}

-- The row that an upsert leaves for its key.
abbrev pub upserted_entry :
    ℕ → Resources → ResourceCacheEntry → Option ResourceCacheEntry → ResourceCacheEntry
upserted_entry now db e none = record (timed now e) { id = db.next_entry_id }
upserted_entry now db e (some row) = set_entry (timed now e) row

self_key : (e : ResourceCacheEntry) → has_entry_key e.rule_id e.path e ≡ true
unfolding has_entry_key
self_key e = ground (arith, same_refl e.path)

key_kept :
    (id : ℕ) (path : Bytes) (new row : ResourceCacheEntry)
    → has_entry_key id path row ≡ true
    → has_entry_key id path (set_entry new row) ≡ true
unfolding has_entry_key
key_kept id path new row h = h

find_where-put_entry :
    (now : ℕ) (db : Resources) (e : ResourceCacheEntry) (o : Option ResourceCacheEntry)
    → find_where (has_entry_key e.rule_id e.path) db.entries ≡ o
    → find_where (has_entry_key e.rule_id e.path) (put_entry now db e o).entries
      ≡ some (upserted_entry now db e o)
unfolding put_entry
find_where-put_entry now db e none n =
    find_where-append (has_entry_key e.rule_id e.path) db.entries
      (upserted_entry now db e none ∷ [])
    ∙ rw n (
        find_where_first (has_entry_key e.rule_id e.path) (upserted_entry now db e none) []
          (self_key (upserted_entry now db e none)))
find_where-put_entry now db e (some row) s =
    find_where-update (has_entry_key e.rule_id e.path) (set_entry (timed now e))
      (key_kept e.rule_id e.path (timed now e)) db.entries
    ∙ ap (Option.map (set_entry (timed now e))) s

put_entry-rules :
    (now : ℕ) (db : Resources) (e : ResourceCacheEntry) (o : Option ResourceCacheEntry)
    → (put_entry now db e o).rules ≡ db.rules
unfolding put_entry
put_entry-rules now db e none = refl
put_entry-rules now db e (some row) = refl

-- After an upsert the row found under its key is the new one, or the old one with the new size,
-- expiry, type and place and its old hits; the rules stay.
pub get-upsert :
    (now : ℕ) (db : Resources) (e : ResourceCacheEntry)
    → (get_resource_cache_entry (upsert_resource_cache_entry now db e) e.rule_id e.path
        ≡ some (upserted_entry now db e (get_resource_cache_entry db e.rule_id e.path)))
      × ((upsert_resource_cache_entry now db e).rules ≡ db.rules)
unfolding upsert_resource_cache_entry get_resource_cache_entry
get-upsert now db e = (
  find_where-put_entry now db e (get_resource_cache_entry db e.rule_id e.path) refl,
  put_entry-rules now db e (get_resource_cache_entry db e.rule_id e.path),
)

or_none {ℓ} : {A : Type ℓ} (o : Option A) → (if is_some o then o else none) ≡ o
or_none none = refl
or_none (some x) = refl

new_rule-name : (now id : ℕ) (r : ResourceRule) → (new_rule now id r).name ≡ r.name
unfolding new_rule
new_rule-name now id r = refl

-- What a lookup finds once a rule of this name was put.
abbrev HasRule : Resources → Bytes → Bytes → Resources × ResourceRule → Type 0
HasRule db name other p =
    find_where (has_rule_name other) p.0.rules
    ≡ (if same name other then some p.1 else find_where (has_rule_name other) db.rules)

put_rule-HasRule :
    (now : ℕ) (db : Resources) (r : ResourceRule) (other : Bytes)
    → find_where (has_rule_name r.name) db.rules ≡ none
    → HasRule db r.name other (
      record db {
        rules = db.rules ++ new_rule now db.next_rule_id r ∷ [];
        next_rule_id = db.next_rule_id + 1;
      },
      new_rule now db.next_rule_id r,
    )
unfolding find_where
put_rule-HasRule now db r other free =
    let found =
      find_where-append (has_rule_name other) db.rules (new_rule now db.next_rule_id r ∷ []) in
    let named = new_rule-name now db.next_rule_id r in
    elim (Bool-cases (same r.name other)) [
      | inl e ↦
          let absent =
            subst (λ n. find_where (has_rule_name n) db.rules ≡ none) (same→≡ r.name other e)
              free in
          found ∙ rw (absent, named, e) refl
      | inr e ↦ found ∙ rw (named, e) (or_none (find_where (has_rule_name other) db.rules))
    ]

put_rule-made :
    (now : ℕ) (db : Resources) (r : ResourceRule) (other : Bytes) (o : Option ResourceRule)
    (made : Resources × ResourceRule)
    → find_where (has_rule_name r.name) db.rules ≡ o
    → put_rule now db r o ≡ some made
    → (o ≡ none) × HasRule db r.name other made
unfolding put_rule
put_rule-made now db r other (some x) made f h = cc
put_rule-made now db r other none made f h = (
  refl,
  subst (HasRule db r.name other) (some-injective _ _ h) (put_rule-HasRule now db r other f),
)

-- A rule that was created had a new name, is found under it, and leaves the rules of other names as
-- they were found.
get-create :
    (now : ℕ) (db db' : Resources) (r made : ResourceRule) (name : Bytes)
    → create_resource_rule now db r ≡ some (db', made)
    → (get_resource_rule_by_name db r.name ≡ none)
      × (get_resource_rule_by_name db' name
          ≡ (if same r.name name then some made else get_resource_rule_by_name db name))
unfolding create_resource_rule get_resource_rule_by_name
get-create now db db' r made name h =
    put_rule-made now db r name (get_resource_rule_by_name db r.name) (db', made) refl h

key_of_rule :
    (id : ℕ) (path : Bytes) (e : ResourceCacheEntry)
    → has_entry_key id path e ≡ true
    → of_rule id e ≡ true
unfolding has_entry_key
key_of_rule id path e h = (&&-eq-true (e.rule_id == id) (same e.path path) h).0

other_rule :
    (id other : ℕ) (path : Bytes)
    → (id == other) ≡ false
    → (e : ResourceCacheEntry) → of_rule id e ≡ true
    → has_entry_key other path e ≡ false
unfolding has_entry_key
other_rule id other path ne e h = ground arith

-- A rule that is deleted takes the rows of its files along, and the rows of other rules are found as
-- before.
get-delete_rule :
    (db : Resources) (id other : ℕ) (path : Bytes)
    → get_resource_cache_entry (delete_resource_rule db id) other path
      ≡ (if id == other then none else get_resource_cache_entry db other path)
unfolding delete_resource_rule get_resource_cache_entry
get-delete_rule db id other path = elim (Bool-cases (id == other)) [
  | inl e ↦ rw e (
      find_where-delete_within (of_rule id) (has_entry_key other path)
        (subst
          (λ k.
            (row : ResourceCacheEntry) → has_entry_key k path row ≡ true → of_rule id row ≡ true)
          ((==_iff id other).0 e) (key_of_rule id path))
        db.entries)
  | inr e ↦ rw e (
      find_where-delete_other (of_rule id) (has_entry_key other path) (other_rule id other path e)
        db.entries)
]
