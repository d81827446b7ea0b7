-- ===== src/Dns/Config.antt =====
-- dns/config.go
use cncache_hub.Prelude.{ℕ, Bool, false, List, [], ◌∷◌}
use cncache_hub.Text.{Bytes, codes}

pub record Config : Type 0 where
  pub enabled : Bool
  pub listen_addr : Bytes
  pub upstream : Bytes
  pub answer_ip : Bytes
  pub domain_rules : List Bytes

pub record Stats : Type 0 where
  pub total_queries : ℕ
  pub hit_queries : ℕ
  pub miss_queries : ℕ
  pub blocked_queries : ℕ
  pub last_query_at : ℕ
  pub last_error : Bytes

-- DefaultConfig
unfoldable pub default_config : Config
default_config = record {
  enabled = false;
  listen_addr = codes "0.0.0.0:5353";
  upstream = codes "1.1.1.1:53";
  answer_ip = codes "127.0.0.1";
  domain_rules =
      codes "*.steamcontent.com"
      ∷ codes "*.steampipe.steamcontent.com"
      ∷ codes "*.steamserver.net"
      ∷ codes "*.steamstatic.com"
      ∷ codes "content*.steampowered.com"
      ∷ codes "client-download.steampowered.com"
      ∷ codes "*.cs.steampowered.com"
      ∷ codes "*.cm.steampowered.com"
      ∷ [];
}
