-- ===== src/Storage/Registries.antt =====
-- storage/registry_upstreams.go: the upstreams and their credentials, which are stored encrypted.
pub mod Credentials
use cncache_hub.Prelude.{
  ℕ, Bool, true, false, not, ◌&&◌, ◌||◌, Option, none, some, List, [], ◌∷◌, ◌++◌, if◌then◌else◌,
  is_some,
}
use cncache_hub.Text.{Bytes, codes, same, is_empty}
use cncache_hub.Storage.Sql.{find_where, update_where, select_where}
use cncache_hub.Storage.Settings.{before_text}

-- A row; `none` is a NULL.
pub record Registry : Type 0 where
  pub id : ℕ
  pub name : Bytes
  pub upstream_url : Bytes
  pub mirror_path : Bytes
  pub enabled : Bool
  pub created_at : ℕ
  pub username : Bytes
  pub password_enc : Option Bytes
  pub token_enc : Option Bytes

abbrev pub is_named : Bytes → Registry → Bool
is_named name r = same r.name name

abbrev pub is_enabled : Registry → Bool
is_enabled r = r.enabled

-- What scanRegistry says of a row's credentials: whether there are any.
abbrev pub has_password_enc : Registry → Bool
has_password_enc r = is_some r.password_enc

abbrev pub has_token_enc : Registry → Bool
has_token_enc r = is_some r.token_enc

unfoldable pub insert_by_name : Registry → List Registry → List Registry
unfolding before_text
insert_by_name r [] = r ∷ []
insert_by_name r (s ∷ rows) =
    let rest = insert_by_name r rows in if before_text r.name s.name then r ∷ s ∷ rows else s ∷ rest

-- ListAllUpstreams, by name
unfoldable pub list_all_upstreams : List Registry → List Registry
unfolding insert_by_name
list_all_upstreams [] = []
list_all_upstreams (r ∷ rows) = insert_by_name r (list_all_upstreams rows)

-- ListEnabledUpstreams
unfoldable pub list_enabled_upstreams : List Registry → List Registry
unfolding list_all_upstreams select_where
list_enabled_upstreams rows = list_all_upstreams (select_where is_enabled rows)

-- GetUpstreamByName; `none` is ErrNotFound.
unfoldable pub get_upstream_by_name : List Registry → Bytes → Option Registry
unfolding find_where
get_upstream_by_name rows name = find_where (is_named name) rows

-- An UPDATE by name: `none` is ErrNotFound, where no row is affected.
abbrev pub update_named : (Registry → Registry) → Bytes → List Registry → Option (List Registry)
update_named f name rows =
    if is_some (find_where (is_named name) rows)
    then some (update_where (is_named name) f rows)
    else none

abbrev pub switched : Bool → Registry → Registry
switched enabled r = record r { enabled = enabled }

-- SetUpstreamEnabled
unfoldable pub set_upstream_enabled : List Registry → Bytes → Bool → Option (List Registry)
unfolding find_where update_where
set_upstream_enabled rows name enabled = update_named (switched enabled) name rows

pub record RegistryCredentialsPatch : Type 0 where
  pub username : Option Bytes
  pub password : Option Bytes
  pub token : Option Bytes
  pub clear_password : Bool
  pub clear_token : Bool

-- A secret's column: NULL where it is cleared, the new one where it is given, else as it was.
abbrev pub set_secret : Bool → Option Bytes → Option Bytes → Option Bytes
set_secret true new old = none
set_secret false none old = old
set_secret false (some s) old = some s

abbrev pub set_username : Option Bytes → Bytes → Bytes
set_username none old = old
set_username (some u) old = u

abbrev pub set_credentials : RegistryCredentialsPatch → Registry → Registry
set_credentials p r = record r {
  username = set_username p.username r.username;
  password_enc = set_secret p.clear_password p.password r.password_enc;
  token_enc = set_secret p.clear_token p.token r.token_enc;
}

-- Whether the UPDATE has a column to set.
abbrev pub sets_any : RegistryCredentialsPatch → Bool
sets_any p =
    is_some p.username
    || (p.clear_password || is_some p.password)
    || (p.clear_token || is_some p.token)

-- SetUpstreamCredentials: a patch that sets nothing is no statement, whether or not the name exists.
unfoldable pub set_upstream_credentials :
    List Registry → Bytes → RegistryCredentialsPatch → Option (List Registry)
unfolding find_where update_where
set_upstream_credentials rows name p =
    if sets_any p then update_named (set_credentials p) name rows else some rows
