-- ===== src/Access/Config.antt =====
-- access/middleware.go: the configuration, its text, and the resolvers.
use cncache_hub.Prelude.{Bool, true, false, not, none, some, List, [], ◌∷◌, ◌++◌, if◌then◌else◌}
use cncache_hub.Text.{Bytes, is_empty, codes, join, split, trim_space}
use cncache_hub.Access.ClientIp.{Net}

pub record Config : Type 0 where
  pub enabled : Bool
  pub token : Bytes
  pub ip_whitelist : List Bytes
  pub loopback_bypass : Bool

-- IsEmpty
unfoldable pub config_is_empty : Config → Bool
config_is_empty c = not c.enabled

abbrev pub bool_str : Bool → Bytes
bool_str true = codes "true"
bool_str false = codes "false"

-- joinCIDR
abbrev pub join_cidr : List Bytes → Bytes
join_cidr [] = codes "(empty)"
join_cidr (c ∷ cs) = join (c ∷ cs) 44

-- String
unfoldable pub config_string : Config → Bytes
config_string c =
    codes "Config{Enabled="
    ++ bool_str c.enabled
    ++ codes ", Token="
    ++ (if is_empty c.token then codes "(empty)" else codes "***")
    ++ codes ", IPWhitelist="
    ++ join_cidr c.ip_whitelist
    ++ codes ", LoopbackBypass="
    ++ bool_str c.loopback_bypass
    ++ codes "}"

abbrev pub is_cidr : Net → Bytes → Bool
is_cidr net p = elim (net.parse_cidr p) [ none ↦ false | some n ↦ true ]

unfoldable pub kept_cidrs : Net → List Bytes → List Bytes
kept_cidrs net [] = []
kept_cidrs net (part ∷ parts) =
    let p = trim_space part in
    let rest = kept_cidrs net parts in
    if is_empty p then rest else if is_cidr net p then p ∷ rest else rest

-- ParseCIDRList
unfoldable pub parse_cidr_list : Net → Bytes → List Bytes
unfolding kept_cidrs
parse_cidr_list net s = if is_empty s then [] else kept_cidrs net (split s 44)

-- MutableResolver: the variable that its two functions share.
abbrev pub resolver_get : Config → Config
resolver_get cur = cur

abbrev pub resolver_set : Config → Config → Config
resolver_set cur c = c
