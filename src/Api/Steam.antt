-- ===== src/Api/Steam.antt =====
-- api/steam_appid_handlers.go: the apps of Steam as they are created, changed and preheated.
use cncache_hub.Prelude.{
  ℕ, Bool, not, ◌&&◌, ◌||◌, Option, none, some, List, [], ◌∷◌, ◌++◌, if◌then◌else◌, ok, err, ◌>>=◌,
}
use cncache_hub.Prelude.Int.{ℤ, pos, pos_part, lt_ℤ}
use cncache_hub.Text.{Bytes, codes, same, is_empty, trim_space}
use cncache_hub.Proxy.Route.{itoa}
use cncache_hub.Storage.SteamApps.{
  SteamApp, SteamApps, SteamAppInput, SteamAppPatch, get_steam_app_id, create_steam_app_id,
  update_steam_app_id, delete_steam_app_id, record_preheat_result,
}
use cncache_hub.Api.Requests.{
  ApiReply, Handled, refuse, Decoded, decode_json_body, Caller, require_admin, positive_id,
}
use cncache_hub.Api.Tasks.{or_enabled}

pub record SteamAppRequest : Type 0 where
  pub app_id : ℤ
  pub name : Bytes
  pub login_type : Bytes
  pub install_dir : Bytes
  pub enabled : Option Bool

abbrev pub is_login_type : Bytes → Bool
is_login_type t = same t (codes "anonymous") || same t (codes "account")

-- The checks of steamAppIDCreateHandler.
unfoldable pub checked_app : SteamAppRequest → Handled SteamAppInput
unfolding trim_space same
checked_app r =
    if not (lt_ℤ (pos 0) r.app_id)
    then refuse 400 (codes "invalid_app_id")
    else if is_empty (trim_space r.name)
    then refuse 400 (codes "invalid_name")
    else if not (is_empty r.login_type) && not (is_login_type r.login_type)
    then refuse 400 (codes "invalid_login_type")
    else ok (record {
      app_id = pos_part r.app_id;
      name = r.name;
      login_type = r.login_type;
      install_dir = r.install_dir;
      enabled = or_enabled r.enabled;
    })

abbrev pub AppOutcome : Type 0
AppOutcome = SteamApps × Handled (ApiReply SteamApp)

abbrev pub made_or : SteamApps → Option (SteamApps × SteamApp) → AppOutcome
made_or db none = (db, refuse 500 (codes "steam_appid_create_failed"))
made_or db (some (db', a)) = (db', ok (record { status = 201; body = a }))

abbrev pub make_or : ℕ → SteamApps → Handled SteamAppInput → AppOutcome
make_or now db (err e) = (db, err e)
make_or now db (ok n) = made_or db (create_steam_app_id now db n)

-- steamAppIDCreateHandler
unfoldable pub steam_app_id_create : ℕ → SteamApps → Caller → Decoded SteamAppRequest → AppOutcome
unfolding checked_app create_steam_app_id require_admin decode_json_body
steam_app_id_create now db c body =
    make_or now db (require_admin c >>= λ a. decode_json_body body >>= λ r. checked_app r)

unfoldable pub checked_app_patch : SteamAppPatch → Handled SteamAppPatch
unfolding same
checked_app_patch p = elim p.login_type [
  | none ↦ ok p
  | some t ↦ if is_login_type t then ok p else refuse 400 (codes "invalid_login_type")
]

abbrev pub updated_or : SteamApps → Option (SteamApps × SteamApp) → AppOutcome
updated_or db none = (db, refuse 500 (codes "steam_appid_update_failed"))
updated_or db (some (db', a)) = (db', ok (record { status = 200; body = a }))

abbrev pub update_or : ℕ → SteamApps → Handled (ℕ × SteamAppPatch) → AppOutcome
update_or now db (err e) = (db, err e)
update_or now db (ok (id, p)) = updated_or db (update_steam_app_id now db id p)

-- steamAppIDPatchHandler
unfoldable pub steam_app_id_patch :
    ℕ → SteamApps → Caller → Option ℤ → Decoded SteamAppPatch → AppOutcome
unfolding checked_app_patch update_steam_app_id require_admin decode_json_body positive_id
steam_app_id_patch now db c id body = update_or now db (
    require_admin c >>= λ a.
    positive_id id >>= λ n. decode_json_body body >>= λ p. checked_app_patch p >>= λ q. ok (n, q))

abbrev pub remove_or : SteamApps → Handled ℕ → SteamApps × Handled ℕ
remove_or db (err e) = (db, err e)
remove_or db (ok id) = (delete_steam_app_id db id, ok 204)

-- steamAppIDDeleteHandler
unfoldable pub steam_app_id_delete : SteamApps → Caller → Option ℤ → SteamApps × Handled ℕ
unfolding delete_steam_app_id require_admin positive_id
steam_app_id_delete db c id = remove_or db (require_admin c >>= λ a. positive_id id)

-- The arguments of docker.
unfoldable pub steam_args : SteamApp → List Bytes
unfolding itoa
steam_args a =
    let number = itoa (pos a.app_id) in
    let dir =
      if is_empty a.install_dir then codes "/data/steamapps/" ++ number else a.install_dir in
    codes "run"
    ∷ codes "--rm"
    ∷ codes "-v"
    ∷ (dir ++ codes ":/steamapps")
    ∷ codes "cm2network/steamcmd:latest"
    ∷ codes "+login"
    ∷ codes "anonymous"
    ∷ codes "+app_update"
    ∷ number
    ∷ codes "validate"
    ∷ codes "+quit"
    ∷ []

-- preheatResponse, with the command that was started; the messages are left out.
pub record SteamPreheat : Type 0 where
  pub app_id : ℕ
  pub status : Bytes
  pub command : List Bytes

abbrev pub preheat_outcome :
    ℕ
    → SteamApps
    → SteamApp
    → ℕ
    → Bytes
    → Bytes
    → List Bytes
    → SteamApps × Handled (ApiReply SteamPreheat)
preheat_outcome now db a code status message command = (
  record_preheat_result now db a.id status message 0,
  ok (record {
    status = code;
    body = record { app_id = a.app_id; status = status; command = command };
  }),
)

-- The rest of the handler, at an app that was found. `message` is the text that is recorded.
unfoldable pub preheat_app :
    ℕ → Bool → Bytes → SteamApps → SteamApp → SteamApps × Handled (ApiReply SteamPreheat)
unfolding record_preheat_result steam_args same
preheat_app now has_docker message db a =
    if not (same a.login_type (codes "anonymous"))
    then preheat_outcome now db a 200 (codes "skipped") message []
    else if not has_docker
    then preheat_outcome now db a 200 (codes "skipped") message []
    else preheat_outcome now db a 202 (codes "running") message (steam_args a)

abbrev pub preheat_or :
    ℕ → Bool → Bytes → SteamApps → Handled ℕ → SteamApps × Handled (ApiReply SteamPreheat)
preheat_or now has_docker message db (err e) = (db, err e)
preheat_or now has_docker message db (ok id) = elim (get_steam_app_id db id) [
  | none ↦ (db, refuse 404 (codes "steam_appid_not_found"))
  | some a ↦ preheat_app now has_docker message db a
]

-- steamAppIDPreheatHandler
unfoldable pub steam_app_id_preheat :
    ℕ → Bool → Bytes → SteamApps → Caller → Option ℤ → SteamApps × Handled (ApiReply SteamPreheat)
unfolding preheat_app get_steam_app_id require_admin positive_id
steam_app_id_preheat now has_docker message db c id =
    preheat_or now has_docker message db (require_admin c >>= λ a. positive_id id)

-- The end of the goroutine that waits for docker: what docker wrote where it failed.
unfoldable pub steam_preheat_ends : ℕ → ℕ → SteamApps → ℕ → Option Bytes → SteamApps
unfolding record_preheat_result
steam_preheat_ends now duration db id none =
    record_preheat_result now db id (codes "ok") (codes "preheat completed") duration
steam_preheat_ends now duration db id (some out) =
    record_preheat_result now db id (codes "error") (codes "docker run failed: " ++ out) duration
