-- ===== src/Tests/ApiRuns.antt =====
-- The administration's handlers at concrete inputs.
use cncache_hub.Prelude.{◌≡◌, refl, true, false, not, ◌&&◌, none, some, List, [], ◌∷◌, arith, ok}
use cncache_hub.Prelude.Int.{pos}
use cncache_hub.Text.{Bytes, codes, same, is_empty, trim_space, join}
use cncache_hub.Access.Config.{Config}
use cncache_hub.Storage.Settings.{Setting}
use cncache_hub.Storage.Registries.{Registry, get_upstream_by_name}
use cncache_hub.Storage.Preheats.{PreheatTaskInput}
use cncache_hub.Preheat.Image.{split_model_file}
use cncache_hub.Api.Requests.{refuse, document, Caller}
use cncache_hub.Api.Access.{
  AccessPatch, load_access_config, access_control_put, enabled_key, token_key, whitelist_key,
  access_changes,
}
use cncache_hub.Api.Access.Networks.{AreListed}
use cncache_hub.Api.Access.Changes.{shown, access_control_put_lem}
use cncache_hub.Api.Registry.{RegistryPatch, registry_patch}
use cncache_hub.Api.Registry.Steps.{registry_patch_partly}
use cncache_hub.Api.Tasks.{TaskRequest, is_one_of, kinds, checked_task}
use cncache_hub.Api.Tasks.Targets.{IsDistinct, is_given, checked_task_lem}
use cncache_hub.Api.Globs.{HuggingFaceFile}
use cncache_hub.Api.Models.{target_of}
use cncache_hub.Api.Models.Patterns.{split_model_file-target_of}
use cncache_hub.Cache.Store.{FileStore}
use cncache_hub.Api.Settings.{System, SettingsPatch}
use cncache_hub.Dns.Server.{Server, stats}
use cncache_hub.Storage.DnsConfigs.{DnsConfig, DnsConfigPatch, patched_config}
use cncache_hub.Api.Dns.{
  ReloadFaults, server_config, checked_config, dns_config_get, dns_config_patch,
}
use cncache_hub.Api.Dns.Reloads.{dns_config_patch_busy}
use cncache_hub.Tests.AccessRuns.{net}

abbrev admin : Caller
admin = record { role = codes "admin"; id = 1 }

abbrev settings : List Setting
settings =
    (record { key = enabled_key; value = codes "true"; updated_at = 1; updated_by = 1 })
    ∷ (record { key = token_key; value = codes "secret"; updated_at = 1; updated_by = 1 })
    ∷ []

-- A patch with an empty token and two networks, and no other field.
abbrev no_token : AccessPatch
no_token = record {
  enabled = none;
  token = some [];
  ip_whitelist = some (codes "::1" ∷ codes "::2" ∷ []);
  loopback_bypass = none;
}

abbrev open_config : Config
open_config = record {
  enabled = true;
  token = [];
  ip_whitelist = codes "::1" ∷ codes "::2" ∷ [];
  loopback_bypass = true;
}

-- No comma stands in the two networks.
networks : AreListed no_token.ip_whitelist
unfolding trim_space
networks = (
  (refl, (omega arith, (omega arith, (omega arith, tt))), refl),
  ((refl, (omega arith, (omega arith, (omega arith, tt))), refl), tt),
)

access_control_put_lem_example :
    let a = access_control_put net 9 false settings open_config admin (document no_token) in
    (load_access_config net a.0 ≡ open_config)
    × (a.1 ≡ open_config)
    × (a.2 ≡ ok (record { status = 200; body = shown open_config }))
unfolding access_changes load_access_config same trim_space join
access_control_put_lem_example =
    access_control_put_lem net 9 settings open_config admin no_token
      ((token_key, []) ∷ (whitelist_key, codes "::1,::2") ∷ []) refl networks refl

abbrev quay : Registry
quay = record {
  id = 1;
  name = codes "quay";
  upstream_url = codes "https://quay.io";
  mirror_path = [];
  enabled = true;
  created_at = 1;
  username = [];
  password_enc = none;
  token_enc = none;
}

abbrev off_with_password : RegistryPatch
off_with_password = record {
  enabled = some false;
  username = none;
  password = some (codes "pw");
  token = none;
  clear_password = false;
  clear_token = false;
}

registry_patch_partly_example :
    let a = registry_patch none (quay ∷ []) admin (codes "quay") (document off_with_password) in
    (get_upstream_by_name a.0 (codes "quay") ≡ some (record quay { enabled = false }))
    × (a.1 ≡ some (refuse 503 (codes "credential_cipher_unavailable")))
unfolding same get_upstream_by_name
registry_patch_partly_example =
    registry_patch_partly (quay ∷ []) admin (codes "quay") (codes "pw") off_with_password false quay
      refl refl refl refl refl

abbrev wanted : TaskRequest
wanted = record {
  name = codes "n";
  kind = codes "docker";
  targets = codes " a" ∷ codes "a" ∷ codes " " ∷ [];
  cron_expression = [];
  max_retries = 0;
  enabled = none;
}

abbrev input : PreheatTaskInput
input = record {
  name = codes "n";
  kind = codes "docker";
  targets = codes "a" ∷ [];
  cron_expression = [];
  max_retries = 0;
  enabled = true;
}

checked_task_lem_example :
    IsDistinct (codes "a" ∷ [])
    × ((t : Bytes) → is_one_of (codes "a" ∷ []) t ≡ (not (is_empty t) && is_given wanted.targets t))
    × (is_one_of kinds (codes "docker") ≡ true)
unfolding checked_task same
checked_task_lem_example = checked_task_lem wanted input refl

abbrev config_file : HuggingFaceFile
config_file = record { kind = codes "file"; path = codes "a|b.json"; size = 3 }

split_model_file-target_of_example :
    split_model_file (target_of (codes "o/n") (codes "main") config_file)
    ≡ some (record { model_id = codes "o/n"; revision = codes "main"; filename = codes "a|b.json" })
unfolding trim_space
split_model_file-target_of_example =
    split_model_file-target_of (codes "o/n") (codes "main") config_file (omega arith) (omega arith)
      refl refl refl

abbrev store : FileStore
store = record {
  root = codes "/data";
  fsync = false;
  pol = record { max_object_size = pos 0; reserve_space = pos 0; cache_dir = codes "/data" };
}

abbrev system : System
system = record { rows = []; store = store; threshold_bytes = pos 0 }

abbrev capacity_patch : SettingsPatch
capacity_patch = record {
  small_vps_opt = none;
  reserve_space_gb = some (pos 7);
  max_object_size_mb = some (pos 3);
  cache_total_gb = none;
  cleanup_trigger_pct = none;
  cleanup_target_pct = none;
  public_base_url = some (codes "http://h/");
  log_retention_days = none;
  hugging_face_token = none;
  clear_hugging_face_token = false;
}

abbrev dns_row : DnsConfig
dns_row = record {
  enabled = false;
  listen_addr = codes "0.0.0.0:53";
  upstream = codes "1.1.1.1:53";
  answer_ip = codes "10.0.0.1";
  domain_rules = [];
  created_at = 1;
  updated_at = 1;
}

abbrev turn_on : DnsConfigPatch
turn_on = record {
  enabled = some true;
  listen_addr = none;
  upstream = none;
  answer_ip = none;
  domain_rules = none;
}

abbrev faults : ReloadFaults
faults = record { stop_udp = false; stop_tcp = false; listen = true }

abbrev dns_server : Server
dns_server = record {
  cfg = server_config dns_row;
  udp_srv = false;
  tcp_srv = false;
  total_q = 0;
  hit_q = 0;
  miss_q = 0;
  blocked_q = 0;
  last_query = 0;
  last_error = none;
}

dns_config_patch_busy_example :
    let a = dns_config_patch net 9 faults dns_server (some dns_row) admin (document turn_on) in
    let new = patched_config 9 turn_on dns_row in
    (a.0 ≡ some new)
    × (a.1.udp_srv ≡ false)
    × (a.2 ≡ refuse 500 (codes "dns_reload_failed"))
    × (dns_config_get a.1 a.0 admin
        ≡ ok (record {
          status = 200;
          body = record { config = new; counts = stats a.1; listening = true };
        }))
unfolding checked_config same
dns_config_patch_busy_example =
    dns_config_patch_busy net 9 faults dns_server dns_row admin turn_on refl refl refl
      (refl, refl, refl, refl)
