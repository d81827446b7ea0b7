-- ===== src/Api/Dns.antt =====
-- api/dns_handlers.go: the name server's configuration as it is read, changed and put to work.
pub mod Reloads
use cncache_hub.Prelude.{
  ℕ, Bool, true, false, not, ◌&&◌, ◌||◌, Option, none, some, List, [], ◌∷◌, ◌++◌, if◌then◌else◌,
  Result, ok, err, ◌>>=◌, is_some, drop,
}
use cncache_hub.Text.{
  Bytes, codes, same, is_empty, contains, has_prefix, trim_space, trim_suffix, to_lower,
}
use cncache_hub.Access.ClientIp.{Net}
use cncache_hub.Dns.Config.{Config, Stats}
use cncache_hub.Dns.Server.{Server, StartError, reload, stats, match_domain}
use cncache_hub.Storage.DnsConfigs.{DnsConfig, DnsConfigPatch, get_dns_config, update_dns_config}
use cncache_hub.Api.Requests.{
  ApiError, ApiReply, Handled, refuse, Decoded, decode_json_body, Caller, require_admin,
}

pub record DnsConfigReply : Type 0 where
  pub config : DnsConfig
  pub counts : Stats
  pub listening : Bool

unfoldable pub dns_reply : Server → DnsConfig → DnsConfigReply
unfolding stats
dns_reply s c = record { config = c; counts = stats s; listening = s.cfg.enabled }

-- dnsConfigGetHandler
unfoldable pub dns_config_get :
    Server → Option DnsConfig → Caller → Handled (ApiReply DnsConfigReply)
unfolding dns_reply require_admin
dns_config_get s row c = require_admin c >>= λ a. elim (get_dns_config row) [
  | none ↦ refuse 500 (codes "dns_config_get_failed")
  | some cfg ↦ ok (record { status = 200; body = dns_reply s cfg })
]

-- A host and a port, where the field is given.
abbrev pub is_host_port : Net → Option Bytes → Bool
is_host_port net none = true
is_host_port net (some a) = is_some (net.split_host_port a)

abbrev pub is_ip : Net → Option Bytes → Bool
is_ip net none = true
is_ip net (some a) = is_some (net.parse_ip a)

-- No space inside a rule.
unfoldable pub all_rules : List Bytes → Bool
unfolding contains trim_space
all_rules [] = true
all_rules (r ∷ rs) = not (contains (trim_space r) (codes " ")) && all_rules rs

abbrev pub are_rules : Option (List Bytes) → Bool
are_rules none = true
are_rules (some rs) = all_rules rs

-- The checks of dnsConfigPatchHandler.
unfoldable pub checked_config : Net → DnsConfigPatch → Handled DnsConfigPatch
unfolding all_rules
checked_config net p =
    if not (is_host_port net p.listen_addr)
    then refuse 400 (codes "invalid_listen_addr")
    else if not (is_host_port net p.upstream)
    then refuse 400 (codes "invalid_upstream")
    else if not (is_ip net p.answer_ip)
    then refuse 400 (codes "invalid_answer_ip")
    else if not (are_rules p.domain_rules)
    then refuse 400 (codes "invalid_domain_rule")
    else ok p

abbrev pub server_config : DnsConfig → Config
server_config c = record {
  enabled = c.enabled;
  listen_addr = c.listen_addr;
  upstream = c.upstream;
  answer_ip = c.answer_ip;
  domain_rules = c.domain_rules;
}

-- How the reload's stop and start go: whether the two Shutdowns and the listening fail.
pub record ReloadFaults : Type 0 where
  pub stop_udp : Bool
  pub stop_tcp : Bool
  pub listen : Bool

-- The row, the server and the answer.
abbrev pub DnsOutcome : Type 0
DnsOutcome = Option DnsConfig × Server × Handled (ApiReply DnsConfigReply)

abbrev pub reloaded_or : DnsConfig → Server × Option StartError → DnsOutcome
reloaded_or c (s, some e) = (some c, s, refuse 500 (codes "dns_reload_failed"))
reloaded_or c (s, none) = (some c, s, ok (record { status = 200; body = dns_reply s c }))

abbrev pub stored_config : ReloadFaults → Server → Option DnsConfig → Option DnsConfig → DnsOutcome
stored_config f s row none = (row, s, refuse 500 (codes "dns_config_update_failed"))
stored_config f s row (some c) =
    reloaded_or c (reload f.stop_udp f.stop_tcp f.listen s (server_config c))

abbrev pub patch_config :
    ℕ → ReloadFaults → Server → Option DnsConfig → Handled DnsConfigPatch → DnsOutcome
patch_config now f s row (err e) = (row, s, err e)
patch_config now f s row (ok p) = stored_config f s row (update_dns_config now row p)

-- dnsConfigPatchHandler
unfoldable pub dns_config_patch :
    Net
    → ℕ
    → ReloadFaults
    → Server
    → Option DnsConfig
    → Caller
    → Decoded DnsConfigPatch
    → DnsOutcome
unfolding checked_config update_dns_config reload dns_reply require_admin decode_json_body
dns_config_patch net now f s row c body =
    patch_config now f s row
      (require_admin c >>= λ a. decode_json_body body >>= λ p. checked_config net p)

-- dnsStatsHandler
unfoldable pub dns_stats : Server → Caller → Handled (ApiReply Stats)
unfolding stats require_admin
dns_stats s c = require_admin c >>= λ a. ok (record { status = 200; body = stats s })

-- dnsTestHandler up to the query that it sends: the name, whether it matches, and the server asked.
pub record DnsTest : Type 0 where
  pub domain : Bytes
  pub matched : Bool
  pub server : Bytes

abbrev pub local_target : Bytes → Bytes
local_target t = if has_prefix t (codes "0.0.0.0:") then codes "127.0.0.1" ++ drop 7 t else t

unfoldable pub dns_test : Server → Caller → Handled Bytes → Handled DnsTest
unfolding require_admin match_domain to_lower trim_space trim_suffix has_prefix
dns_test s c given = require_admin c >>= λ a. given >>= λ d.
    (let domain = to_lower (trim_space (trim_suffix d (codes "."))) in
      if is_empty domain
      then refuse 400 (codes "empty_domain")
      else ok (record {
        domain = domain;
        matched = s.cfg.enabled && match_domain s domain;
        server = local_target (if s.cfg.enabled then s.cfg.listen_addr else s.cfg.upstream);
      }))
