-- ===== src/Api/Registry.antt =====
-- api/registry_handlers.go: the upstreams as they are listed and changed.
pub mod Steps
use cncache_hub.Prelude.{
  ℕ, Bool, true, false, not, ◌&&◌, ◌||◌, Option, none, some, List, [], ◌∷◌, ◌++◌, if◌then◌else◌,
  Result, ok, err, ◌>>=◌, is_some,
}
use cncache_hub.Text.{Bytes, codes, same, is_empty}
use cncache_hub.Storage.Registries.{
  Registry, has_password_enc, has_token_enc, is_named, list_all_upstreams, set_upstream_enabled,
  RegistryCredentialsPatch, set_upstream_credentials,
}
use cncache_hub.Storage.Sql.{find_where}
use cncache_hub.Api.Requests.{
  ApiError, ApiReply, Handled, refuse, Decoded, decode_json_body, Caller, require_admin,
}

-- registriesListHandler: all rows, by name.
unfoldable pub registries_list : List Registry → ApiReply (List Registry)
unfolding list_all_upstreams
registries_list rows = record { status = 200; body = list_all_upstreams rows }

pub record RegistryPatch : Type 0 where
  pub enabled : Option Bool
  pub username : Option Bytes
  pub password : Option Bytes
  pub token : Option Bytes
  pub clear_password : Bool
  pub clear_token : Bool

abbrev pub has_field : RegistryPatch → Bool
has_field p =
    is_some p.enabled
    || is_some p.username
    || is_some p.password
    || is_some p.token
    || p.clear_password
    || p.clear_token

-- CredentialCipher: absent where the master key could not be read; Encrypt may fail.
abbrev pub Cipher : Type 0
Cipher = Option (Bytes → Option Bytes)

-- A secret that is given is encrypted, an empty one too.
unfoldable pub encrypt_secret : Cipher → Option Bytes → Handled (Option Bytes)
encrypt_secret cipher none = ok none
encrypt_secret none (some s) = refuse 503 (codes "credential_cipher_unavailable")
encrypt_secret (some encrypt) (some s) = elim (encrypt s) [
  | none ↦ refuse 500 (codes "encrypt_failed")
  | some ct ↦ ok (some ct)
]

-- The first step: the switch, where it is given.
unfoldable pub switch_registry : List Registry → Bytes → Option Bool → Handled (List Registry)
unfolding set_upstream_enabled
switch_registry rows name none = ok rows
switch_registry rows name (some b) = elim (set_upstream_enabled rows name b) [
  | none ↦ refuse 500 (codes "registry_update_failed")
  | some rows' ↦ ok rows'
]

-- The second step: the patch of the credentials.
unfoldable pub credentials_patch : Cipher → RegistryPatch → Handled RegistryCredentialsPatch
unfolding encrypt_secret
credentials_patch cipher p = encrypt_secret cipher p.password >>= λ pw.
    encrypt_secret cipher p.token >>= λ tk. ok (record {
      username = p.username;
      password = pw;
      token = tk;
      clear_password = p.clear_password;
      clear_token = p.clear_token;
    })

abbrev pub changes_credentials : RegistryPatch → Bool
changes_credentials p =
    is_some p.username || is_some p.password || is_some p.token || p.clear_password || p.clear_token

unfoldable pub store_credentials :
    List Registry → Bytes → RegistryPatch → RegistryCredentialsPatch → Handled (List Registry)
unfolding set_upstream_credentials
store_credentials rows name p cp =
    if changes_credentials p
    then elim (set_upstream_credentials rows name cp) [
      | none ↦ refuse 500 (codes "credential_update_failed")
      | some rows' ↦ ok rows'
    ]
    else ok rows

pub record RegistryReply : Type 0 where
  pub name : Bytes
  pub enabled : Bool
  pub username : Bytes
  pub has_password : Bool
  pub has_token : Bool

abbrev pub reply_of : Bytes → Registry → RegistryReply
reply_of name r = record {
  name = name;
  enabled = r.enabled;
  username = r.username;
  has_password = has_password_enc r;
  has_token = has_token_enc r;
}

-- The rows as they stand when the handler ends, and what it answers; a name that has no row after all
-- is a nil pointer, on which the handler panics: `none`.
abbrev pub RegistryOutcome : Type 0
RegistryOutcome = List Registry × Option (Handled (ApiReply RegistryReply))

abbrev pub read_again : List Registry → Bytes → RegistryOutcome
read_again rows name = elim (find_where (is_named name) (list_all_upstreams rows)) [
  | none ↦ (rows, none)
  | some r ↦ (rows, some (ok (record { status = 200; body = reply_of name r })))
]

abbrev pub stored_or : List Registry → Bytes → Handled (List Registry) → RegistryOutcome
stored_or rows name (err e) = (rows, some (err e))
stored_or rows name (ok rows') = read_again rows' name

-- From the switch on: what it wrote stays when a later step fails.
abbrev pub switched_or :
    Cipher → List Registry → Bytes → RegistryPatch → Handled (List Registry) → RegistryOutcome
switched_or cipher rows name p (err e) = (rows, some (err e))
switched_or cipher rows name p (ok rows') =
    stored_or rows' name (credentials_patch cipher p >>= λ cp. store_credentials rows' name p cp)

abbrev pub checked_patch : Caller → Bytes → Decoded RegistryPatch → Handled RegistryPatch
checked_patch c name body = require_admin c >>= λ a.
    (if is_empty name then refuse 400 (codes "invalid_name") else decode_json_body body) >>= λ p.
    (if has_field p then ok p else refuse 400 (codes "missing_field"))

abbrev pub patch_or : Cipher → List Registry → Bytes → Handled RegistryPatch → RegistryOutcome
patch_or cipher rows name (err e) = (rows, some (err e))
patch_or cipher rows name (ok p) =
    switched_or cipher rows name p (switch_registry rows name p.enabled)

-- registryPatchHandler, for the caller's role as the session gives it.
unfoldable pub registry_patch :
    Cipher → List Registry → Caller → Bytes → Decoded RegistryPatch → RegistryOutcome
unfolding switch_registry credentials_patch store_credentials list_all_upstreams find_where
    require_admin decode_json_body
registry_patch cipher rows c name body = patch_or cipher rows name (checked_patch c name body)
