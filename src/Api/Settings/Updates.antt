-- ===== src/Api/Settings/Updates.antt =====
-- What a change of the settings leaves: the settings that are read back, and the cache's limits.
use cncache_hub.Prelude.{◌^◌, ◌<◌, not, Option, none, some, List, [], ◌∷◌, if◌then◌else◌}
use cncache_hub.Prelude.Int.{ℤ, pos, negsuc}
use cncache_hub.Text.{Bytes, same, is_empty}
use cncache_hub.Storage.Resources.{or_old}
use cncache_hub.Api.Settings.{SystemSettings, SettingsPatch, url_text, token_text}

-- What the changes leave under a key.
unfoldable last_given : List (Bytes × Option Bytes) → Bytes → Bytes → Bytes
last_given [] key old = old
last_given ((k, o) ∷ cs) key old = last_given cs key (if same k key then or_old o old else old)

-- A number of a patch that is not negative and that an int64 holds.
abbrev pub IsStored : Option ℤ → Type 0
IsStored none = Unit
IsStored (some (pos n)) = n < 2 ^ 63
IsStored (some (negsuc n)) = ⊥

-- The settings that a patch makes of old ones: what it gives, and the rest as it was.
abbrev pub patched_settings : SettingsPatch → SystemSettings → SystemSettings
patched_settings p old = record {
  small_vps_opt = or_old p.small_vps_opt old.small_vps_opt;
  reserve_space_gb = or_old p.reserve_space_gb old.reserve_space_gb;
  max_object_size_mb = or_old p.max_object_size_mb old.max_object_size_mb;
  cache_total_gb = or_old p.cache_total_gb old.cache_total_gb;
  cleanup_trigger_pct = or_old p.cleanup_trigger_pct old.cleanup_trigger_pct;
  cleanup_target_pct = or_old p.cleanup_target_pct old.cleanup_target_pct;
  public_base_url = or_old (url_text p.public_base_url) old.public_base_url;
  log_retention_days = or_old p.log_retention_days old.log_retention_days;
  hugging_face_token_set = elim (token_text p.clear_hugging_face_token p.hugging_face_token) [
    | none ↦ old.hugging_face_token_set
    | some t ↦ not (is_empty t)
  ];
}

-- The numbers of a patch that are not negative and that an int64 holds.
pub record HasStored (p : SettingsPatch) : Type 0 where
  pub reserve : IsStored p.reserve_space_gb
  pub object : IsStored p.max_object_size_mb
  pub total : IsStored p.cache_total_gb
  pub trigger : IsStored p.cleanup_trigger_pct
  pub target : IsStored p.cleanup_target_pct
  pub days : IsStored p.log_retention_days
