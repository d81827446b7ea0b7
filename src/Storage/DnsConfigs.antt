-- ===== src/Storage/DnsConfigs.antt =====
-- storage/dns.go: the row of the name server's configuration. Its rules are stored as JSON, which is
-- taken to be read back as it was written.
use cncache_hub.Prelude.{ℕ, Bool, Option, none, some, List}
use cncache_hub.Text.{Bytes}
use cncache_hub.Storage.Resources.{or_old}

pub record DnsConfig : Type 0 where
  pub enabled : Bool
  pub listen_addr : Bytes
  pub upstream : Bytes
  pub answer_ip : Bytes
  pub domain_rules : List Bytes
  pub created_at : ℕ
  pub updated_at : ℕ

pub record DnsConfigPatch : Type 0 where
  pub enabled : Option Bool
  pub listen_addr : Option Bytes
  pub upstream : Option Bytes
  pub answer_ip : Option Bytes
  pub domain_rules : Option (List Bytes)

-- GetDNSConfig, of the row with id 1; `none` is ErrNotFound.
abbrev pub get_dns_config : Option DnsConfig → Option DnsConfig
get_dns_config row = row

abbrev pub patched_config : ℕ → DnsConfigPatch → DnsConfig → DnsConfig
patched_config now p cur = record cur {
  enabled = or_old p.enabled cur.enabled;
  listen_addr = or_old p.listen_addr cur.listen_addr;
  upstream = or_old p.upstream cur.upstream;
  answer_ip = or_old p.answer_ip cur.answer_ip;
  domain_rules = or_old p.domain_rules cur.domain_rules;
  updated_at = now;
}

-- UpdateDNSConfig: the row afterwards, which is answered too.
unfoldable pub update_dns_config : ℕ → Option DnsConfig → DnsConfigPatch → Option DnsConfig
update_dns_config now row p = elim (get_dns_config row) [
  | none ↦ none
  | some cur ↦ some (patched_config now p cur)
]
