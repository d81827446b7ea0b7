-- ===== src/Dns/Server.antt =====
-- dns/server.go. The DNS library is not of this repository: what its listener and its client answer
-- comes in as arguments. A Server's log is left out.
pub mod Names
pub mod Rules
pub mod Queries
use cncache_hub.Prelude.{
  ℕ, zero, suc, ◌+◌, ◌/◌, Bool, true, false, not, ◌&&◌, ◌||◌, Option, none, some, List, [], ◌∷◌,
  ◌++◌, if◌then◌else◌, ◌==◌, length, drop, ltb, Result, ok, err,
}
use cncache_hub.Text.{
  Bytes, codes, same, is_empty, has_prefix, has_suffix, trim_suffix, trim_space, to_lower,
}
use cncache_hub.Dns.Config.{Config, Stats}

-- The server: `running` says whether the two listeners are set. They are set and unset together
-- but for a UDP listener that fails to start.
pub record Server : Type 0 where
  pub cfg : Config
  pub udp_srv : Bool
  pub tcp_srv : Bool
  pub total_q : ℕ
  pub hit_q : ℕ
  pub miss_q : ℕ
  pub blocked_q : ℕ
  pub last_query : ℕ
  pub last_error : Option Bytes

-- NewServer
unfoldable pub new_server : Config → Server
new_server cfg = record {
  cfg = cfg;
  udp_srv = false;
  tcp_srv = false;
  total_q = 0;
  hit_q = 0;
  miss_q = 0;
  blocked_q = 0;
  last_query = 0;
  last_error = none;
}

pub data StartError : Type 0 where
  listen_addr_empty answer_ip_empty upstream_empty udp_listen_failed : StartError

-- Start: the flag says whether ListenAndServe on UDP fails within the 100 ms that are waited.
unfoldable pub start : Bool → Server → Server × Option StartError
start udp_fails s =
    if not s.cfg.enabled
    then (s, none)
    else if is_empty s.cfg.listen_addr
    then (s, some listen_addr_empty)
    else if is_empty s.cfg.answer_ip
    then (s, some answer_ip_empty)
    else if is_empty s.cfg.upstream
    then (s, some upstream_empty)
    else if s.udp_srv
    then (s, none)
    else if udp_fails
    then (record s { udp_srv = false; tcp_srv = true }, some udp_listen_failed)
    else (record s { udp_srv = true; tcp_srv = true }, none)

-- Stop: the answers of the two Shutdowns are the flags, and the answer says whether there is an
-- error.
unfoldable pub stop : Bool → Bool → Server → Server × Bool
stop udp_fails tcp_fails s =
    if not s.udp_srv
    then (s, false)
    else (record s { udp_srv = false; tcp_srv = false }, udp_fails || tcp_fails)

-- Reload: a stop that fails is logged, no more.
unfoldable pub reload : Bool → Bool → Bool → Server → Config → Server × Option StartError
unfolding start stop
reload stop_udp_fails stop_tcp_fails start_fails s cfg =
    start start_fails (record (stop stop_udp_fails stop_tcp_fails s).0 { cfg = cfg })

abbrev pub second : ℕ
second = 1000000000

-- Stats
unfoldable pub stats : Server → Stats
stats s = record {
  total_queries = s.total_q;
  hit_queries = s.hit_q;
  miss_queries = s.miss_q;
  blocked_queries = s.blocked_q;
  last_query_at = if ltb 0 s.last_query then s.last_query / second else 0;
  last_error = elim s.last_error [ none ↦ [] | some e ↦ e ];
}

-- Names and rules are compared without the last dot and in lower case.
unfoldable pub normal_name : Bytes → Bytes
normal_name name = to_lower (trim_suffix (trim_space name) (codes "."))

-- One rule that is not empty: *.example.com, or a name.
unfoldable pub rule_matches : Bytes → Bytes → Bool
rule_matches name rule =
    if has_prefix rule (codes "*.") then has_suffix name (drop 1 rule) else same name rule

unfoldable pub any_rule_matches : Bytes → List Bytes → Bool
unfolding rule_matches normal_name
any_rule_matches name [] = false
any_rule_matches name (rule ∷ rules) =
    let r = normal_name rule in
    if is_empty r
    then any_rule_matches name rules
    else if rule_matches name r
    then true
    else any_rule_matches name rules

-- matchDomain
unfoldable pub match_domain : Server → Bytes → Bool
unfolding any_rule_matches normal_name
match_domain s name =
    let n = normal_name name in if is_empty n then false else any_rule_matches n s.cfg.domain_rules

pub record Question : Type 0 where
  pub name : Bytes
  pub qtype : ℕ

abbrev pub type_aaaa : ℕ
type_aaaa = 28

-- What is written back: a refusal, a server failure, an A record for the name, or what the upstream
-- answered.
pub data Reply : Type 0 where
  refused : Reply
  serv_fail : Reply
  local_a : Bytes → Bytes → Reply
  relayed : Bytes → Reply

-- What client.Exchange gives: an error, no message, or one.
pub data Exchanged : Type 0 where
  exchange_error : Bytes → Exchanged
  exchange_nil : Exchanged
  exchange_message : Bytes → Exchanged

-- replyLocalA; net.ParseIP is an argument.
unfoldable pub reply_local_a : (Bytes → Bool) → Server → Question → Server × Reply
reply_local_a is_ip s q =
    if not (is_ip s.cfg.answer_ip)
    then (
      record s {
        last_error = some (codes "invalid answerIp: " ++ s.cfg.answer_ip);
        blocked_q = s.blocked_q + 1;
      },
      refused,
    )
    else (record s { hit_q = s.hit_q + 1 }, local_a q.name s.cfg.answer_ip)

abbrev pub forwarded : Server → Exchanged → Server × Reply
forwarded s (exchange_error e) = (
  record s { last_error = some (codes "upstream exchange: " ++ e); blocked_q = s.blocked_q + 1 },
  serv_fail,
)
forwarded s exchange_nil = (record s { blocked_q = s.blocked_q + 1 }, serv_fail)
forwarded s (exchange_message m) = (record s { miss_q = s.miss_q + 1 }, relayed m)

-- forwardToUpstream
unfoldable pub forward_to_upstream : (Bytes → Exchanged) → Server → Server × Reply
forward_to_upstream exchange s =
    if is_empty s.cfg.upstream
    then (record s { blocked_q = s.blocked_q + 1 }, refused)
    else forwarded s (exchange s.cfg.upstream)

-- handleQuery at the time `now`, in nanoseconds, with the questions of the message.
unfoldable pub handle_query :
    (Bytes → Bool) → (Bytes → Exchanged) → ℕ → Server → List Question → Server × Reply
unfolding reply_local_a forward_to_upstream match_domain
handle_query is_ip exchange now s [] =
    (record s { total_q = s.total_q + 1; last_query = now }, refused)
handle_query is_ip exchange now s (q ∷ qs) =
    let s' = record s { total_q = s.total_q + 1; last_query = now } in
    if q.qtype == type_aaaa
    then forward_to_upstream exchange s'
    else if match_domain s' (to_lower (trim_suffix q.name (codes ".")))
    then reply_local_a is_ip s' q
    else forward_to_upstream exchange s'
