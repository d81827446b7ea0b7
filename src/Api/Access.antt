-- ===== src/Api/Access.antt =====
-- api/access_handlers.go, with loadAccessConfig of cmd/cncachehub/main.go: the access control's
-- settings, as they are changed and as the middleware gets them.
pub mod Networks
pub mod Changes
use cncache_hub.Prelude.{
  ℕ, Bool, true, false, not, ◌&&◌, Option, none, some, List, [], ◌∷◌, ◌++◌, if◌then◌else◌, Result,
  ok, err, ◌>>=◌,
}
use cncache_hub.Text.{Bytes, codes, same, is_empty, join}
use cncache_hub.Access.ClientIp.{Net}
use cncache_hub.Access.Config.{Config, parse_cidr_list, bool_str, is_cidr, resolver_set}
use cncache_hub.Storage.Settings.{Setting, get_string, set_many}
use cncache_hub.Api.Requests.{
  ApiError, ApiReply, Handled, refuse, Decoded, decode_json_body, Caller, require_admin,
}

-- The keys of the settings table.
abbrev pub enabled_key : Bytes
enabled_key = codes "access_control_enabled"

abbrev pub token_key : Bytes
token_key = codes "access_control_token"

abbrev pub whitelist_key : Bytes
whitelist_key = codes "access_control_ip_whitelist"

abbrev pub loopback_key : Bytes
loopback_key = codes "access_control_loopback_bypass"

-- loadAccessConfig, where the settings can be read.
unfoldable pub load_access_config : Net → List Setting → Config
unfolding get_string parse_cidr_list same
load_access_config net rows = record {
  enabled = same (get_string rows enabled_key []) (codes "true");
  token = get_string rows token_key [];
  ip_whitelist = parse_cidr_list net (get_string rows whitelist_key []);
  loopback_bypass = not (same (get_string rows loopback_key []) (codes "false"));
}

-- What is answered of it: whether there is a token, never the token.
pub record AccessControlConfig : Type 0 where
  pub enabled : Bool
  pub token_set : Bool
  pub ip_whitelist : List Bytes
  pub loopback_bypass : Bool

unfoldable pub access_control_config : Net → List Setting → AccessControlConfig
unfolding load_access_config
access_control_config net rows =
    let c = load_access_config net rows in
    record {
      enabled = c.enabled;
      token_set = not (is_empty c.token);
      ip_whitelist = c.ip_whitelist;
      loopback_bypass = c.loopback_bypass;
    }

-- accessControlGetHandler
unfoldable pub access_control_get :
    Net → List Setting → Caller → Handled (ApiReply AccessControlConfig)
unfolding require_admin access_control_config
access_control_get net rows c =
    require_admin c >>= λ a. ok (record { status = 200; body = access_control_config net rows })

-- A field that is not given is `none`.
pub record AccessPatch : Type 0 where
  pub enabled : Option Bool
  pub token : Option Bytes
  pub ip_whitelist : Option (List Bytes)
  pub loopback_bypass : Option Bool

-- The write of a value that is given, under its key.
abbrev pub change : Bytes → Option Bytes → List (Bytes × Bytes)
change key none = []
change key (some v) = (key, v) ∷ []

abbrev pub flag_text : Option Bool → Option Bytes
flag_text none = none
flag_text (some b) = some (bool_str b)

-- isValidCIDR of each
unfoldable pub all_cidrs : Net → List Bytes → Bool
all_cidrs net [] = true
all_cidrs net (c ∷ cs) = is_cidr net c && all_cidrs net cs

unfoldable pub whitelist_text : Net → Option (List Bytes) → Handled (Option Bytes)
unfolding all_cidrs
whitelist_text net none = ok none
whitelist_text net (some l) =
    if all_cidrs net l then ok (some (join l 44)) else refuse 400 (codes "invalid_cidr")

abbrev pub given : List (Bytes × Bytes) → Handled (List (Bytes × Bytes))
given [] = refuse 400 (codes "noop")
given (kv ∷ kvs) = ok (kv ∷ kvs)

abbrev pub writes : AccessPatch → Option Bytes → List (Bytes × Bytes)
writes p whitelist =
    change enabled_key (flag_text p.enabled)
    ++ (change token_key p.token
        ++ (change whitelist_key whitelist ++ change loopback_key (flag_text p.loopback_bypass)))

-- The settings that a patch changes.
unfoldable pub access_changes : Net → AccessPatch → Handled (List (Bytes × Bytes))
unfolding whitelist_text
access_changes net p = whitelist_text net p.ip_whitelist >>= λ w. given (writes p w)

-- The settings, the middleware's configuration and the answer.
abbrev pub AccessOutcome : Type 0
AccessOutcome = List Setting × Config × Handled (ApiReply AccessControlConfig)

abbrev pub store_changes : Net → List Setting → Config → Option (List Setting) → AccessOutcome
store_changes net rows cur none = (rows, cur, refuse 500 (codes "db_error"))
store_changes net rows cur (some rows') = (
  rows',
  resolver_set cur (load_access_config net rows'),
  ok (record { status = 200; body = access_control_config net rows' }),
)

-- The end of accessControlPutHandler, with the changes or what the checks refuse.
unfoldable pub apply_changes :
    Net → ℕ → Bool → List Setting → Config → Caller → Handled (List (Bytes × Bytes)) → AccessOutcome
unfolding set_many load_access_config access_control_config
apply_changes net now fails rows cur c (err e) = (rows, cur, err e)
apply_changes net now fails rows cur c (ok kvs) =
    store_changes net rows cur (set_many now fails rows kvs c.id)

-- accessControlPutHandler
unfoldable pub access_control_put :
    Net → ℕ → Bool → List Setting → Config → Caller → Decoded AccessPatch → AccessOutcome
unfolding apply_changes require_admin decode_json_body access_changes
access_control_put net now fails rows cur c body =
    apply_changes net now fails rows cur c
      (require_admin c >>= λ a. decode_json_body body >>= λ p. access_changes net p)
