-- ===== src/Storage/Settings.antt =====
-- storage/settings.go: the settings, a row for each key.
pub mod Values
use cncache_hub.Prelude.{
  ℕ, Bool, true, false, Option, none, some, List, [], ◌∷◌, ◌++◌, if◌then◌else◌, leb, any, ltb,
}
use cncache_hub.Text.{Bytes, codes, same}
use cncache_hub.Storage.Sql.{find_where, update_where}

pub record Setting : Type 0 where
  pub key : Bytes
  pub value : Bytes
  pub updated_at : ℕ
  pub updated_by : ℕ

abbrev pub has_setting_key : Bytes → Setting → Bool
has_setting_key key s = same s.key key

-- GetSetting; `none` is ErrNotFound.
unfoldable pub get_setting : List Setting → Bytes → Option Setting
unfolding find_where
get_setting rows key = find_where (has_setting_key key) rows

-- The order of texts by their bytes, which ORDER BY key takes.
unfoldable pub before_text : Bytes → Bytes → Bool
before_text [] t = true
before_text (x ∷ s) [] = false
before_text (x ∷ s) (y ∷ t) =
    let rest = before_text s t in if ltb x y then true else if ltb y x then false else rest

unfoldable pub insert_by_key : Setting → List Setting → List Setting
unfolding before_text
insert_by_key s [] = s ∷ []
insert_by_key s (r ∷ rows) =
    let rest = insert_by_key s rows in if before_text s.key r.key then s ∷ r ∷ rows else r ∷ rest

-- ListSettings
unfoldable pub list_settings : List Setting → List Setting
unfolding insert_by_key
list_settings [] = []
list_settings (s ∷ rows) = insert_by_key s (list_settings rows)

abbrev pub written : ℕ → Bytes → ℕ → Setting → Setting
written now value user row = record row { value = value; updated_at = now; updated_by = user }

abbrev pub new_setting : ℕ → Bytes → Bytes → ℕ → Setting
new_setting now key value user = record {
  key = key;
  value = value;
  updated_at = now;
  updated_by = user;
}

-- SetSetting, on the row that has the key already.
unfoldable pub put_setting : ℕ → List Setting → Bytes → Bytes → ℕ → Option Setting → List Setting
unfolding update_where
put_setting now rows key value user none = rows ++ new_setting now key value user ∷ []
put_setting now rows key value user (some _) =
    update_where (has_setting_key key) (written now value user) rows

unfoldable pub set_setting : ℕ → List Setting → Bytes → Bytes → ℕ → List Setting
unfolding put_setting get_setting
set_setting now rows key value user = put_setting now rows key value user (get_setting rows key)

-- GetString
unfoldable pub get_string : List Setting → Bytes → Bytes → Bytes
unfolding get_setting
get_string rows key fallback = elim (get_setting rows key) [ none ↦ fallback | some s ↦ s.value ]

-- GetMany: the value of each key that was asked for, empty where there is no row.
unfoldable pub get_many : List Setting → List Bytes → List (Bytes × Bytes)
unfolding get_string
get_many rows [] = []
get_many rows (k ∷ ks) = (k, get_string rows k []) ∷ get_many rows ks

-- SetMany, in the order in which the map is walked; none of the writes stays when the transaction
-- fails.
unfoldable pub set_all : ℕ → List Setting → List (Bytes × Bytes) → ℕ → List Setting
unfolding set_setting
set_all now rows [] user = rows
set_all now rows ((k, v) ∷ kvs) user = set_all now (set_setting now rows k v user) kvs user

unfoldable pub set_many : ℕ → Bool → List Setting → List (Bytes × Bytes) → ℕ → Option (List Setting)
unfolding set_all
set_many now fails rows kvs user = if fails then none else some (set_all now rows kvs user)
