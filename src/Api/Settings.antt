-- ===== src/Api/Settings.antt =====
-- api/settings_handlers.go, with makeGetSettingsAdapter, makeUpdateSettingsAdapter and their helpers of
-- cmd/cncachehub/main.go: the system's settings and the limits of the cache that follow from them.
pub mod Numbers
pub mod Updates
use cncache_hub.Prelude.{
  ℕ, suc, ◌+◌, ◌-◌, ◌*◌, ◌%◌, ◌^◌, Bool, true, false, not, ◌&&◌, ◌||◌, Option, none, some, List, [],
  ◌∷◌, ◌++◌, if◌then◌else◌, Result, ok, err, ◌>>=◌, ltb, leb, ◌==◌,
}
use cncache_hub.Prelude.Int.{ℤ, pos, negsuc, lt_ℤ}
use cncache_hub.Text.{Bytes, codes, same, is_empty, trim_right, trim_space}
use cncache_hub.Access.Config.{bool_str}
use cncache_hub.Cache.Policy.{Policy}
use cncache_hub.Cache.Store.{FileStore, set_policy}
use cncache_hub.Proxy.Route.{itoa}
use cncache_hub.Proxy.Route.Paths.{value}
use cncache_hub.Storage.Settings.{Setting, get_setting, set_many}
use cncache_hub.Api.Requests.{
  ApiError, ApiReply, Handled, refuse, Decoded, decode_json_body, Caller, require_admin,
}
use cncache_hub.Api.Access.{change, flag_text}

unfoldable pub all_digits : Bytes → Bool
all_digits [] = true
all_digits (c ∷ s) = leb 48 c && leb c 57 && all_digits s

abbrev pub is_number : Bytes → Bool
is_number s = not (is_empty s) && all_digits s

-- A text of digits as an int64, if it fits; the least number is one below the negated greatest.
unfoldable pub read_positive : Bytes → Option ℤ
unfolding all_digits value
read_positive s = if is_number s && ltb (value 0 s) (2 ^ 63) then some (pos (value 0 s)) else none

abbrev pub negated : ℕ → ℤ
negated n = if n == 0 then pos 0 else negsuc (n - 1)

unfoldable pub read_negative : Bytes → Option ℤ
unfolding all_digits value
read_negative s =
    if is_number s && leb (value 0 s) (2 ^ 63) then some (negated (value 0 s)) else none

-- strconv.Atoi
unfoldable pub atoi : Bytes → Option ℤ
unfolding read_positive read_negative
atoi [] = none
atoi (c ∷ s) =
    if c == b'-'
    then read_negative s
    else if c == b'+'
    then read_positive s
    else read_positive (c ∷ s)

-- atoiSafe
unfoldable pub atoi_safe : Bytes → ℤ → ℤ
unfolding atoi
atoi_safe s fallback =
    if is_empty s then fallback else elim (atoi s) [ none ↦ fallback | some n ↦ n ]

pub record SystemSettings : Type 0 where
  pub small_vps_opt : Bool
  pub reserve_space_gb : ℤ
  pub max_object_size_mb : ℤ
  pub cache_total_gb : ℤ
  pub cleanup_trigger_pct : ℤ
  pub cleanup_target_pct : ℤ
  pub public_base_url : Bytes
  pub log_retention_days : ℤ
  pub hugging_face_token_set : Bool

-- The cases of the switch: the keys of the table are unique, so a row is met at most once. A key that
-- has no row leaves the zero value.
abbrev pub text_setting : List Setting → Bytes → Bytes
text_setting rows key = elim (get_setting rows key) [ none ↦ [] | some s ↦ s.value ]

abbrev pub number_setting : List Setting → Bytes → ℤ → ℤ
number_setting rows key fallback = elim (get_setting rows key) [
  | none ↦ pos 0
  | some s ↦ atoi_safe s.value fallback
]

-- makeGetSettingsAdapter, but for the time of the last change.
unfoldable pub get_settings : List Setting → SystemSettings
unfolding get_setting atoi_safe same
get_settings rows = record {
  small_vps_opt = same (text_setting rows (codes "small_vps_opt")) (codes "true");
  reserve_space_gb = number_setting rows (codes "reserve_space_gb") (pos 5);
  max_object_size_mb = number_setting rows (codes "max_object_size_mb") (pos 1024);
  cache_total_gb = number_setting rows (codes "cache_total_gb") (pos 20);
  cleanup_trigger_pct = number_setting rows (codes "cleanup_trigger_pct") (pos 80);
  cleanup_target_pct = number_setting rows (codes "cleanup_target_pct") (pos 60);
  public_base_url = text_setting rows (codes "public_base_url");
  log_retention_days = number_setting rows (codes "log_retention_days") (pos 30);
  hugging_face_token_set = not (is_empty (text_setting rows (codes "huggingface_token")));
}

pub record SettingsPatch : Type 0 where
  pub small_vps_opt : Option Bool
  pub reserve_space_gb : Option ℤ
  pub max_object_size_mb : Option ℤ
  pub cache_total_gb : Option ℤ
  pub cleanup_trigger_pct : Option ℤ
  pub cleanup_target_pct : Option ℤ
  pub public_base_url : Option Bytes
  pub log_retention_days : Option ℤ
  pub hugging_face_token : Option Bytes
  pub clear_hugging_face_token : Bool

unfoldable pub number_text : Option ℤ → Option Bytes
unfolding itoa
number_text none = none
number_text (some n) = some (itoa n)

unfoldable pub url_text : Option Bytes → Option Bytes
unfolding trim_right
url_text none = none
url_text (some u) = some (trim_right u b'/')

unfoldable pub token_text : Bool → Option Bytes → Option Bytes
unfolding trim_space
token_text true t = some []
token_text false none = none
token_text false (some t) = some (trim_space t)

-- The values that are written, key by key.
abbrev pub setting_changes : SettingsPatch → List (Bytes × Option Bytes)
setting_changes p =
    (codes "small_vps_opt", flag_text p.small_vps_opt)
    ∷ (codes "reserve_space_gb", number_text p.reserve_space_gb)
    ∷ (codes "max_object_size_mb", number_text p.max_object_size_mb)
    ∷ (codes "cache_total_gb", number_text p.cache_total_gb)
    ∷ (codes "cleanup_trigger_pct", number_text p.cleanup_trigger_pct)
    ∷ (codes "cleanup_target_pct", number_text p.cleanup_target_pct)
    ∷ (codes "public_base_url", url_text p.public_base_url)
    ∷ (codes "log_retention_days", number_text p.log_retention_days)
    ∷ (codes "huggingface_token", token_text p.clear_hugging_face_token p.hugging_face_token)
    ∷ []

unfoldable pub given_changes : List (Bytes × Option Bytes) → List (Bytes × Bytes)
given_changes [] = []
given_changes ((key, o) ∷ cs) = change key o ++ given_changes cs

-- An int64 that is a number modulo 2^64.
abbrev pub wrapped : ℕ → ℤ
wrapped n = let m = n % 2 ^ 64 in if ltb m (2 ^ 63) then pos m else negsuc (2 ^ 64 - m - 1)

abbrev pub wrapped_negative : ℕ → ℤ
wrapped_negative n =
    let m = n % 2 ^ 64 in
    if m == 0 then pos 0 else if leb m (2 ^ 63) then negsuc (m - 1) else pos (2 ^ 64 - m)

abbrev pub scaled : ℕ → ℤ → ℤ
scaled k (pos n) = wrapped (n * k)
scaled k (negsuc n) = wrapped_negative (suc n * k)

-- What the settings say of the cache's limits.
abbrev pub policy_of : SystemSettings → Policy
policy_of s = record {
  max_object_size = scaled (2 ^ 20) s.max_object_size_mb;
  reserve_space = scaled (2 ^ 30) s.reserve_space_gb;
  cache_dir = [];
}

-- The settings, the store and the threshold of the cleanup task capacity-cap.
pub record System : Type 0 where
  pub rows : List Setting
  pub store : FileStore
  pub threshold_bytes : ℤ

abbrev pub new_threshold : Option ℤ → ℤ → ℤ
new_threshold none old = old
new_threshold (some gb) old = scaled (2 ^ 30) gb

abbrev pub reloaded :
    System → SettingsPatch → Option (List Setting) → System × Handled (ApiReply SystemSettings)
reloaded s p none = (s, refuse 500 (codes "settings_update_failed"))
reloaded s p (some rows) = (
  record {
    rows = rows;
    store = set_policy s.store (policy_of (get_settings rows));
    threshold_bytes = new_threshold p.cache_total_gb s.threshold_bytes;
  },
  ok (record { status = 200; body = get_settings rows }),
)

-- makeUpdateSettingsAdapter
unfoldable pub update_settings :
    ℕ → Bool → System → SettingsPatch → ℕ → System × Handled (ApiReply SystemSettings)
unfolding set_many given_changes get_settings number_text url_text token_text set_policy
update_settings now fails s p user =
    reloaded s p (set_many now fails s.rows (given_changes (setting_changes p)) user)

-- A number of a patch that is below or above its bounds.
abbrev pub below : ℤ → Option ℤ → Bool
below least none = false
below least (some n) = lt_ℤ n least

abbrev pub above : ℤ → Option ℤ → Bool
above most none = false
above most (some n) = lt_ℤ most n

abbrev pub crossed : Option ℤ → Option ℤ → Bool
crossed (some trigger) (some target) = not (lt_ℤ target trigger)
crossed (some trigger) none = false
crossed none target = false

-- The checks of settingsPatchHandler.
abbrev pub is_valid : SettingsPatch → Bool
is_valid p = not (
    below (pos 1) p.cache_total_gb
    || below (pos 1) p.max_object_size_mb
    || below (pos 1) p.reserve_space_gb
    || below (pos 1) p.cleanup_trigger_pct
    || above (pos 99) p.cleanup_trigger_pct
    || below (pos 1) p.cleanup_target_pct
    || above (pos 99) p.cleanup_target_pct
    || crossed p.cleanup_trigger_pct p.cleanup_target_pct
    || below (pos 0) p.log_retention_days
    || above (pos 365) p.log_retention_days)

abbrev pub patch_settings :
    ℕ → Bool → System → ℕ → Handled SettingsPatch → System × Handled (ApiReply SystemSettings)
patch_settings now fails s user (err e) = (s, err e)
patch_settings now fails s user (ok p) =
    if is_valid p
    then update_settings now fails s p user
    else (s, refuse 400 (codes "invalid_value"))

-- settingsPatchHandler, for the user of the session.
unfoldable pub settings_patch :
    ℕ → Bool → System → Caller → Decoded SettingsPatch → System × Handled (ApiReply SystemSettings)
unfolding update_settings require_admin decode_json_body
settings_patch now fails s c body =
    patch_settings now fails s c.id (require_admin c >>= λ a. decode_json_body body)
