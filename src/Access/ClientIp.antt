-- ===== src/Access/ClientIp.antt =====
-- clientip/clientip.go. Go's package net is the standard library: what it parses and whether a
-- network has an address are arguments here.
pub mod Trust
use cncache_hub.Prelude.{
  ℕ, Bool, true, false, not, ◌&&◌, ◌||◌, Option, none, some, List, [], ◌∷◌, ◌++◌, if◌then◌else◌,
  take, any,
}
use cncache_hub.Text.{Bytes, is_empty, trim_space, index_byte}

-- net.ParseIP, net.ParseCIDR, IPNet.Contains and net.SplitHostPort's host.
pub record Net : Type 1 where
  pub Ip : Type 0
  pub IpNet : Type 0
  pub parse_ip : Bytes → Option Ip
  pub parse_cidr : Bytes → Option IpNet
  pub includes : IpNet → Ip → Bool
  pub is_loopback : Ip → Bool
  pub split_host_port : Bytes → Option Bytes

-- The parts of an http.Request that the packages look at. A header that is not sent is empty.
pub record Request : Type 0 where
  pub remote_addr : Bytes
  pub x_forwarded_for : Bytes
  pub x_real_ip : Bytes
  pub access_token : Bytes
  pub authorization : Bytes

-- parseCIDRs: a text that does not parse is left out.
unfoldable pub parse_cidrs : (net : Net) → List Bytes → List net.IpNet
parse_cidrs net [] = []
parse_cidrs net (s ∷ rest) = elim (net.parse_cidr s) [
  | none ↦ parse_cidrs net rest
  | some n ↦ n ∷ parse_cidrs net rest
]

-- SetTrustedProxies, with the list that it replaces.
unfoldable pub set_trusted_proxies : (net : Net) → List net.IpNet → List Bytes → List net.IpNet
unfolding parse_cidrs
set_trusted_proxies net old cidrs = parse_cidrs net cidrs

-- AppendTrustedProxy; `none` is an error.
unfoldable pub append_trusted_proxy : (net : Net) → List net.IpNet → Bytes → Option (List net.IpNet)
append_trusted_proxy net trusted cidr = elim (net.parse_cidr cidr) [
  | none ↦ none
  | some n ↦ some (trusted ++ n ∷ [])
]

-- RemoteHost
unfoldable pub remote_host : Net → Request → Bytes
remote_host net r = elim (net.split_host_port r.remote_addr) [
  | none ↦ r.remote_addr
  | some host ↦ host
]

-- IsTrustedProxy
unfoldable pub is_trusted_proxy : (net : Net) → List net.IpNet → Request → Bool
unfolding remote_host
is_trusted_proxy net trusted r = elim (net.parse_ip (remote_host net r)) [
  | none ↦ false
  | some ip ↦ any (λ n. net.includes n ip) trusted
]

-- The first of the addresses that proxies have listed.
unfoldable pub first_address : Bytes → Bytes
first_address xff = elim (index_byte xff 44) [
  | none ↦ trim_space xff
  | some i ↦ trim_space (take i xff)
]

-- Real
unfoldable pub real : (net : Net) → List net.IpNet → Request → Bytes
unfolding is_trusted_proxy remote_host first_address
real net trusted r =
    if not (is_trusted_proxy net trusted r)
    then remote_host net r
    else if not (is_empty r.x_forwarded_for)
    then first_address r.x_forwarded_for
    else if not (is_empty r.x_real_ip)
    then trim_space r.x_real_ip
    else remote_host net r
