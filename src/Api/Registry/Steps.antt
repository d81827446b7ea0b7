-- ===== src/Api/Registry/Steps.antt =====
-- The two steps of a change of an upstream.
use cncache_hub.Prelude.{◌≡◌, refl, ap, ◌∙◌, Bool, true, false, none, some, List, ok}
use mathlib.Core.Option
use cncache_hub.Text.{Bytes, codes, same, is_empty}
use cncache_hub.Storage.Sql.{update_where}
use cncache_hub.Storage.Sql.Laws.{find_where-update}
use cncache_hub.Storage.Registries.{
  Registry, is_named, switched, get_upstream_by_name, set_upstream_enabled,
}
use cncache_hub.Api.Requests.{refuse, document, Caller, require_admin, decode_json_body}
use cncache_hub.Api.Registry.{
  RegistryPatch, has_field, switch_registry, encrypt_secret, credentials_patch, patch_or,
  switched_or, checked_patch, registry_patch,
}

has_field_switch : (p : RegistryPatch) (b : Bool) → p.enabled ≡ some b → has_field p ≡ true
has_field_switch p b e = rw e refl

-- A switch of a name that is there: the row found under the name has the switch's value.
get-set_upstream_enabled :
    (rows : List Registry) (name : Bytes) (b : Bool) (r : Registry)
    → get_upstream_by_name rows name ≡ some r
    → (rows' : List Registry) × (set_upstream_enabled rows name b ≡ some rows')
      × (get_upstream_by_name rows' name ≡ some (record r { enabled = b }))
unfolding get_upstream_by_name set_upstream_enabled
get-set_upstream_enabled rows name b r found = (
  update_where (is_named name) (switched b) rows,
  rw found refl,
  find_where-update (is_named name) (switched b) (λ x h. h) rows
      ∙ ap (Option.map (switched b)) found,
)

-- A patch of an administrator that switches an upstream that is there and gives a password, where
-- there is no master key: the answer is a 503, but the upstream's row has the new switch.
pub registry_patch_partly :
    (rows : List Registry) (c : Caller) (name password : Bytes) (p : RegistryPatch) (b : Bool)
    (r : Registry)
    → same c.role (codes "admin") ≡ true
    → is_empty name ≡ false
    → p.enabled ≡ some b
    → p.password ≡ some password
    → get_upstream_by_name rows name ≡ some r
    → let a = registry_patch none rows c name (document p) in
      (get_upstream_by_name a.0 name ≡ some (record r { enabled = b }))
      × (a.1 ≡ some (refuse 503 (codes "credential_cipher_unavailable")))
unfolding registry_patch require_admin decode_json_body switch_registry credentials_patch
    encrypt_secret
registry_patch_partly rows c name password p b r admin named switch secret found =
    let (rows', written, after) = get-set_upstream_enabled rows name b r found in
    let checked : checked_patch c name (document p) ≡ ok p =
      rw (admin, named, has_field_switch p b switch) refl in
    let switched_rows : switch_registry rows name p.enabled ≡ ok rows' =
      ap (switch_registry rows name) switch ∙ rw (switch_registry, written) refl in
    let no_key : encrypt_secret none p.password
        ≡ refuse 503 (codes "credential_cipher_unavailable") =
      ap (encrypt_secret none) secret in
    let run : registry_patch none rows c name (document p)
        ≡ (rows', some (refuse 503 (codes "credential_cipher_unavailable"))) =
      ap (patch_or none rows name) checked
      ∙ ap (switched_or none rows name p) switched_rows
      ∙ rw no_key refl in
    (ap (λ x. get_upstream_by_name x.0 name) run ∙ after, ap (λ x. x.1) run)
