-- ===== src/Access/Middleware.antt =====
-- access/middleware.go: the check before each request of the proxy.
pub mod Decision
use cncache_hub.Prelude.{
  ℕ, zero, suc, ◌+◌, Bool, true, false, not, ◌&&◌, ◌||◌, Option, none, some, List, [], ◌∷◌, ◌++◌,
  if◌then◌else◌, ◌==◌, length, drop, any,
}
use cncache_hub.Text.{Bytes, is_empty, codes, trim_space, has_prefix}
use cncache_hub.Access.ClientIp.{Net, Request, real}
use cncache_hub.Access.Config.{Config}

-- extractToken
unfoldable pub extract_token : Request → Bytes
extract_token r =
    if not (is_empty r.access_token)
    then r.access_token
    else if has_prefix r.authorization (codes "Bearer ")
    then trim_space (drop 7 r.authorization)
    else []

-- The number that the loop ORs up is kept as what is asked of it: whether a byte differs.
unfoldable pub any_differs : Bytes → Bytes → Bool
any_differs [] b = false
any_differs (x ∷ xs) [] = false
any_differs (x ∷ xs) (y ∷ ys) = not (x == y) || any_differs xs ys

-- constantTimeEqual
unfoldable pub constant_time_equal : Bytes → Bytes → Bool
unfolding any_differs
constant_time_equal a b = if not (length a == length b) then false else not (any_differs a b)

-- isLoopback
unfoldable pub is_loopback : Net → Bytes → Bool
is_loopback net s = elim (net.parse_ip s) [ none ↦ false | some ip ↦ net.is_loopback ip ]

-- ipMatchesCIDRs
unfoldable pub ip_matches_cidrs : (net : Net) → net.Ip → List Bytes → Bool
ip_matches_cidrs net ip [] = false
ip_matches_cidrs net ip (c ∷ cs) = elim (net.parse_cidr c) [
  | none ↦ ip_matches_cidrs net ip cs
  | some n ↦ net.includes n ip || ip_matches_cidrs net ip cs
]

-- The third check: an address that parses and that a network of the list has.
unfoldable pub on_whitelist : Net → Config → Bytes → Bool
unfolding ip_matches_cidrs
on_whitelist net cfg client = elim (net.parse_ip client) [
  | none ↦ false
  | some ip ↦ ip_matches_cidrs net ip cfg.ip_whitelist
]

pub data Answer : Type 0 where
  served : Answer
  unauthorized : Answer

-- Middleware: whether the next handler is called or 401 is answered.
unfoldable pub middleware : (net : Net) → List net.IpNet → Config → Request → Answer
unfolding extract_token constant_time_equal is_loopback on_whitelist real
middleware net trusted cfg r =
    let client = real net trusted r in
    let tok = extract_token r in
    if not cfg.enabled
    then served
    else if cfg.loopback_bypass && is_loopback net client
    then served
    else if not (is_empty cfg.token) && not (is_empty tok) && constant_time_equal tok cfg.token
    then served
    else if on_whitelist net cfg client
    then served
    else unauthorized
