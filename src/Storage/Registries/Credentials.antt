-- ===== src/Storage/Registries/Credentials.antt =====
-- A row of registry_upstreams after its credentials were changed.
use cncache_hub.Prelude.{◌≡◌, refl, ap, ◌∙◌, true, some, List}
use mathlib.Core.Option
use cncache_hub.Text.{Bytes}
use cncache_hub.Storage.Sql.{update_where}
use cncache_hub.Storage.Sql.Laws.{find_where-update}
use cncache_hub.Storage.Registries.{
  Registry, is_named, get_upstream_by_name, RegistryCredentialsPatch, set_credentials, sets_any,
  set_upstream_credentials,
}

-- A patch that sets something, for a name that is there: the row found under the name has what the
-- patch gives and the old columns for the rest.
get-set_credentials :
    (rows : List Registry) (name : Bytes) (p : RegistryCredentialsPatch) (r : Registry)
    → sets_any p ≡ true
    → get_upstream_by_name rows name ≡ some r
    → (rows' : List Registry) × (set_upstream_credentials rows name p ≡ some rows')
      × (get_upstream_by_name rows' name ≡ some (set_credentials p r))
unfolding get_upstream_by_name set_upstream_credentials
get-set_credentials rows name p r sets found = (
  update_where (is_named name) (set_credentials p) rows,
  rw (sets, found) refl,
  find_where-update (is_named name) (set_credentials p) (λ x h. h) rows
      ∙ ap (Option.map (set_credentials p)) found,
)
