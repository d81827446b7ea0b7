-- ===== src/Storage/SteamApps.antt =====
-- storage/steam_appid.go: the apps of Steam that can be preheated.
use cncache_hub.Prelude.{
  ℕ, ◌+◌, Bool, Option, none, some, List, [], ◌∷◌, ◌++◌, if◌then◌else◌, ◌==◌, leb,
}
use cncache_hub.Text.{Bytes, codes, is_empty}
use cncache_hub.Storage.Sql.{find_where, update_where, delete_where}
use cncache_hub.Storage.Resources.{or_old}

pub record SteamApp : Type 0 where
  pub id : ℕ
  pub app_id : ℕ
  pub name : Bytes
  pub login_type : Bytes
  pub install_dir : Bytes
  pub enabled : Bool
  pub last_preheat_at : ℕ
  pub last_preheat_status : Bytes
  pub last_preheat_message : Bytes
  pub last_preheat_duration_ms : ℕ
  pub cache_bytes_estimate : ℕ
  pub hit_count : ℕ
  pub miss_count : ℕ
  pub created_at : ℕ
  pub updated_at : ℕ

-- The table, with the id that AUTOINCREMENT gives next; its app ids are unique.
pub record SteamApps : Type 0 where
  pub apps : List SteamApp
  pub next_app : ℕ

abbrev pub has_app_row : ℕ → SteamApp → Bool
has_app_row id a = a.id == id

abbrev pub has_app_id : ℕ → SteamApp → Bool
has_app_id app_id a = a.app_id == app_id

unfoldable pub insert_by_app_id : SteamApp → List SteamApp → List SteamApp
insert_by_app_id a [] = a ∷ []
insert_by_app_id a (b ∷ rows) =
    let rest = insert_by_app_id a rows in if leb a.app_id b.app_id then a ∷ b ∷ rows else b ∷ rest

-- ListSteamAppIDs, by app id
unfoldable pub list_steam_app_ids : List SteamApp → List SteamApp
unfolding insert_by_app_id
list_steam_app_ids [] = []
list_steam_app_ids (a ∷ rows) = insert_by_app_id a (list_steam_app_ids rows)

-- GetSteamAppID; `none` is ErrNotFound.
unfoldable pub get_steam_app_id : SteamApps → ℕ → Option SteamApp
unfolding find_where
get_steam_app_id db id = find_where (has_app_row id) db.apps

-- What a caller gives of a new app.
pub record SteamAppInput : Type 0 where
  pub app_id : ℕ
  pub name : Bytes
  pub login_type : Bytes
  pub install_dir : Bytes
  pub enabled : Bool

abbrev pub new_app : ℕ → ℕ → SteamAppInput → SteamApp
new_app now id n = record {
  id = id;
  app_id = n.app_id;
  name = n.name;
  login_type = if is_empty n.login_type then codes "anonymous" else n.login_type;
  install_dir = n.install_dir;
  enabled = n.enabled;
  last_preheat_at = 0;
  last_preheat_status = [];
  last_preheat_message = [];
  last_preheat_duration_ms = 0;
  cache_bytes_estimate = 0;
  hit_count = 0;
  miss_count = 0;
  created_at = now;
  updated_at = now;
}

-- CreateSteamAppID, on the row that has the app id already; `none` is the constraint's error.
unfoldable pub put_app :
    ℕ → SteamApps → SteamAppInput → Option SteamApp → Option (SteamApps × SteamApp)
put_app now db n (some _) = none
put_app now db n none = some (
  record { apps = db.apps ++ new_app now db.next_app n ∷ []; next_app = db.next_app + 1 },
  new_app now db.next_app n,
)

unfoldable pub create_steam_app_id : ℕ → SteamApps → SteamAppInput → Option (SteamApps × SteamApp)
unfolding put_app find_where
create_steam_app_id now db n = put_app now db n (find_where (has_app_id n.app_id) db.apps)

pub record SteamAppPatch : Type 0 where
  pub name : Option Bytes
  pub login_type : Option Bytes
  pub install_dir : Option Bytes
  pub enabled : Option Bool
  pub cache_bytes_estimate : Option ℕ

abbrev pub patched_app : ℕ → SteamAppPatch → SteamApp → SteamApp
patched_app now p cur = record cur {
  name = or_old p.name cur.name;
  login_type = or_old p.login_type cur.login_type;
  install_dir = or_old p.install_dir cur.install_dir;
  enabled = or_old p.enabled cur.enabled;
  cache_bytes_estimate = or_old p.cache_bytes_estimate cur.cache_bytes_estimate;
  updated_at = now;
}

-- The columns of the UPDATE.
abbrev pub set_app : SteamApp → SteamApp → SteamApp
set_app new row = record row {
  name = new.name;
  login_type = new.login_type;
  install_dir = new.install_dir;
  enabled = new.enabled;
  cache_bytes_estimate = new.cache_bytes_estimate;
  updated_at = new.updated_at;
}

-- UpdateSteamAppID
unfoldable pub update_steam_app_id :
    ℕ → SteamApps → ℕ → SteamAppPatch → Option (SteamApps × SteamApp)
unfolding get_steam_app_id update_where
update_steam_app_id now db id p = elim (get_steam_app_id db id) [
  | none ↦ none
  | some cur ↦ some (
    record db { apps = update_where (has_app_row id) (set_app (patched_app now p cur)) db.apps },
    patched_app now p cur,
  )
]

-- DeleteSteamAppID
unfoldable pub delete_steam_app_id : SteamApps → ℕ → SteamApps
unfolding delete_where
delete_steam_app_id db id = record db { apps = delete_where (has_app_row id) db.apps }

abbrev pub set_result : ℕ → Bytes → Bytes → ℕ → SteamApp → SteamApp
set_result now status message duration row = record row {
  last_preheat_at = now;
  last_preheat_status = status;
  last_preheat_message = message;
  last_preheat_duration_ms = duration;
  updated_at = now;
}

-- RecordPreheatResult
unfoldable pub record_preheat_result : ℕ → SteamApps → ℕ → Bytes → Bytes → ℕ → SteamApps
unfolding update_where
record_preheat_result now db id status message duration = record db {
  apps = update_where (has_app_row id) (set_result now status message duration) db.apps;
}
