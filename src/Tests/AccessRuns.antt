-- ===== src/Tests/AccessRuns.antt =====
-- Access control, the rate limits and the name server at concrete inputs.
use cncache_hub.Prelude.{
  ◌+◌, ◌*◌, ◌≤◌, ◌≡◌, ◌↔◌, refl, true, false, none, some, List, [], ◌∷◌, arith,
}
use cncache_hub.Text.{Bytes, codes, same, is_empty}
use cncache_hub.Access.ClientIp.{Net, Request, real, is_trusted_proxy, remote_host}
use cncache_hub.Access.Config.{Config}
use cncache_hub.Access.Middleware.{served, middleware}
use cncache_hub.Access.Middleware.Decision.{IsAllowed, middleware_iff, middleware_unspoofed}
use cncache_hub.Ratelimit.Limiter.{Bucket, Limiter, take, take_key, find_bucket, refill, spend}
use cncache_hub.Ratelimit.Limiter.Buckets.{take_all, take_all_bound, wait_suffices}
use cncache_hub.Ratelimit.Limiter.Pool.{take_key_orphan}
use cncache_hub.Dns.Config as DnsConfig
use cncache_hub.Dns.Server.{new_server, exchange_nil, exchange_message, match_domain}
use cncache_hub.Dns.Server.Names.{IsPlain}
use cncache_hub.Dns.Server.Rules.{AnyCovers, match_domain_iff}
use cncache_hub.Dns.Server.Queries.{Event, outcomes, asking, handle_all, handle_all-counts}

-- A network whose addresses are their texts, and whose networks hold one address each.
abbrev pub net : Net
net = record {
  Ip = Bytes;
  IpNet = Bytes;
  parse_ip = some;
  parse_cidr = some;
  includes = same;
  is_loopback = λ ip. same ip (codes "::1");
  split_host_port = λ a. none;
}

abbrev trusted : List Bytes
trusted = codes "10.0.0.1" ∷ []

abbrev from_proxy : Request
from_proxy = record {
  remote_addr = codes "10.0.0.1";
  x_forwarded_for = [];
  x_real_ip = [];
  access_token = codes "secret";
  authorization = [];
}

abbrev from_outside : Request
from_outside = record from_proxy { remote_addr = codes "8.8.8.8" }

abbrev guarded : Config
guarded = record {
  enabled = true;
  token = codes "secret";
  ip_whitelist = codes "9.9.9.9" ∷ [];
  loopback_bypass = true;
}

middleware_iff_example :
    (middleware net trusted guarded from_outside ≡ served)
    ↔ IsAllowed net guarded from_outside (real net trusted from_outside)
middleware_iff_example = middleware_iff net trusted guarded from_outside

middleware_unspoofed_example :
    middleware net trusted guarded
      (record from_outside { x_forwarded_for = codes "9.9.9.9"; x_real_ip = codes "::1" })
    ≡ middleware net trusted guarded from_outside
unfolding is_trusted_proxy remote_host same
middleware_unspoofed_example =
    middleware_unspoofed net trusted guarded from_outside (codes "9.9.9.9") (codes "::1") refl

-- A token in a thousand parts, one part a nanosecond.
abbrev bucket : Bucket
bucket = record { tokens = 2000; last_refil = 0; capacity = 5000; unit = 1000; rate = 1 }

take_all_bound_example : (take_all (5 ∷ 7 ∷ 7 ∷ []) bucket).1 * 1000 ≤ 2000 + 10 * 1
take_all_bound_example =
    take_all_bound (5 ∷ 7 ∷ 7 ∷ []) bucket 10 (omega arith, (omega arith, (omega arith, tt)))

abbrev drained : Bucket
drained = record bucket { tokens = 400 }

wait_suffices_example : (take (10 + (take 10 drained).2) (take 10 drained).0).1 ≡ true
unfolding take refill spend
wait_suffices_example = wait_suffices 10 drained (omega arith) (omega arith) (omega arith) refl

abbrev limiter : Limiter
limiter = record {
  buckets = (codes "a", bucket) ∷ (codes "b", bucket) ∷ [];
  capacity = 5000;
  unit = 1000;
  rate = 1;
  idle = 6000;
  gc_every = 100;
  last_gc = 0;
}

take_key_orphan_example :
    find_bucket (codes "a") (take_key 7000 (codes "a") limiter).0.buckets ≡ none
unfolding find_bucket same
take_key_orphan_example =
    take_key_orphan 7000 (codes "a") limiter bucket (refl, (refl, tt)) refl (omega arith)
      (omega arith)

abbrev dns_config : DnsConfig.Config
dns_config = record {
  enabled = true;
  listen_addr = codes "0.0.0.0:5353";
  upstream = codes "1.1.1.1:53";
  answer_ip = codes "10.0.0.9";
  domain_rules = codes "*.steam.com" ∷ [];
}

match_domain_iff_example :
    (match_domain (new_server dns_config) (codes " CDN.steam.com. ") ≡ true) ↔ (
      (n : Bytes) × IsPlain (codes " CDN.steam.com. ") n
      × (is_empty n ≡ false)
      × AnyCovers n (codes "*.steam.com" ∷ []))
unfolding new_server
match_domain_iff_example = match_domain_iff (new_server dns_config) (codes " CDN.steam.com. ")

abbrev asked : List Event
asked =
    record { time = 1; questions = []; upstream_answer = exchange_nil }
    ∷ record {
      time = 2;
      questions = record { name = codes "a.org."; qtype = 1 } ∷ [];
      upstream_answer = exchange_message [];
    }
    ∷ []

handle_all-counts_example :
    (outcomes (handle_all (λ a. true) asked (new_server dns_config))
      ≡ outcomes (new_server dns_config) + asking asked)
    × ((handle_all (λ a. true) asked (new_server dns_config)).total_q
        ≡ (new_server dns_config).total_q + 2)
handle_all-counts_example = handle_all-counts (λ a. true) asked (new_server dns_config)
