-- ===== src/Api/Rules.antt =====
-- api/resource_handlers.go: the rules of the resource proxy and the files that are cached under them.
use cncache_hub.Prelude.{
  ℕ, Bool, not, ◌&&◌, Option, none, some, List, [], ◌∷◌, if◌then◌else◌, ok, err, ◌>>=◌,
}
use cncache_hub.Prelude.Int.{ℤ, pos, lt_ℤ}
use cncache_hub.Text.{Bytes, codes, same, is_empty, has_prefix, trim_space}
use cncache_hub.Storage.Resources.{
  ResourceRule, ResourceCacheEntry, ResourceRulePatch, Resources, list_resource_rules,
  create_resource_rule, update_resource_rule, delete_resource_rule, list_resource_cache,
  delete_resource_cache_entry,
}
use cncache_hub.Api.Requests.{
  ApiReply, Handled, refuse, Decoded, decode_json_body, Caller, require_admin, positive_id,
}
use cncache_hub.Api.Tasks.{is_one_of, or_enabled}

pub record RuleRequest : Type 0 where
  pub name : Bytes
  pub kind : Bytes
  pub upstream_url : Bytes
  pub default_ttl_seconds : ℤ
  pub description : Bytes
  pub enabled : Option Bool

-- resourceRuleListHandler
unfoldable pub resource_rule_list : Resources → ApiReply (List ResourceRule)
unfolding list_resource_rules
resource_rule_list db = record { status = 200; body = list_resource_rules db }

-- validResourceKind
unfoldable pub valid_resource_kind : Bytes → Bool
unfolding same
valid_resource_kind k =
    is_one_of
      (codes "github"
        ∷ codes "playwright"
        ∷ codes "huggingface"
        ∷ codes "terraform"
        ∷ codes "custom"
        ∷ [])
      k

-- The rule that is handed to the table, which gives the id and the times; a request has no pattern.
abbrev pub requested_rule : RuleRequest → ResourceRule
requested_rule r = record {
  id = 0;
  name = r.name;
  kind = r.kind;
  upstream_url = r.upstream_url;
  path_pattern = [];
  default_ttl_seconds = r.default_ttl_seconds;
  enabled = or_enabled r.enabled;
  description = r.description;
  created_at = 0;
  updated_at = 0;
}

-- The checks of resourceRuleCreateHandler.
unfoldable pub checked_rule : RuleRequest → Handled ResourceRule
unfolding trim_space has_prefix valid_resource_kind
checked_rule r =
    if is_empty (trim_space r.name)
    then refuse 400 (codes "invalid_name")
    else if is_empty (trim_space r.upstream_url)
    then refuse 400 (codes "invalid_upstream")
    else if not (has_prefix r.upstream_url (codes "http://"))
        && not (has_prefix r.upstream_url (codes "https://"))
    then refuse 400 (codes "invalid_upstream_scheme")
    else if not (valid_resource_kind r.kind)
    then refuse 400 (codes "invalid_kind")
    else ok (requested_rule r)

abbrev pub RuleOutcome : Type 0
RuleOutcome = Resources × Handled (ApiReply ResourceRule)

abbrev pub created_rule : Resources → Option (Resources × ResourceRule) → RuleOutcome
created_rule db none = (db, refuse 500 (codes "resource_rule_create_failed"))
created_rule db (some (db', r)) = (db', ok (record { status = 201; body = r }))

abbrev pub create_rule : ℕ → Resources → Handled ResourceRule → RuleOutcome
create_rule now db (err e) = (db, err e)
create_rule now db (ok r) = created_rule db (create_resource_rule now db r)

-- resourceRuleCreateHandler
unfoldable pub resource_rule_create : ℕ → Resources → Caller → Decoded RuleRequest → RuleOutcome
unfolding checked_rule create_resource_rule require_admin decode_json_body
resource_rule_create now db c body =
    create_rule now db (require_admin c >>= λ a. decode_json_body body >>= λ r. checked_rule r)

-- A request for a change has no pattern either.
pub record RulePatchRequest : Type 0 where
  pub upstream_url : Option Bytes
  pub default_ttl_seconds : Option ℤ
  pub enabled : Option Bool
  pub description : Option Bytes

abbrev pub rule_patch : RulePatchRequest → ResourceRulePatch
rule_patch r = record {
  upstream_url = r.upstream_url;
  path_pattern = none;
  default_ttl_seconds = r.default_ttl_seconds;
  enabled = r.enabled;
  description = r.description;
}

abbrev pub updated_rule : Resources → Option (Resources × ResourceRule) → RuleOutcome
updated_rule db none = (db, refuse 500 (codes "resource_rule_update_failed"))
updated_rule db (some (db', r)) = (db', ok (record { status = 200; body = r }))

abbrev pub update_rule : ℕ → Resources → Handled (ℕ × RulePatchRequest) → RuleOutcome
update_rule now db (err e) = (db, err e)
update_rule now db (ok (id, r)) = updated_rule db (update_resource_rule now db id (rule_patch r))

-- resourceRulePatchHandler
unfoldable pub resource_rule_patch :
    ℕ → Resources → Caller → Option ℤ → Decoded RulePatchRequest → RuleOutcome
unfolding update_resource_rule require_admin decode_json_body positive_id
resource_rule_patch now db c id body =
    update_rule now db
      (require_admin c >>= λ a. positive_id id >>= λ n. decode_json_body body >>= λ r. ok (n, r))

abbrev pub delete_rule : Resources → Handled ℕ → Resources × Handled ℕ
delete_rule db (err e) = (db, err e)
delete_rule db (ok id) = (delete_resource_rule db id, ok 204)

-- resourceRuleDeleteHandler
unfoldable pub resource_rule_delete : Resources → Caller → Option ℤ → Resources × Handled ℕ
unfolding delete_resource_rule require_admin positive_id
resource_rule_delete db c id = delete_rule db (require_admin c >>= λ a. positive_id id)

-- The limit of a query, as strconv.Atoi reads it: a hundred unless it is positive.
abbrev pub limit_of : Option ℤ → ℤ
limit_of none = pos 100
limit_of (some n) = if lt_ℤ (pos 0) n then n else pos 100

-- resourceCacheListHandler
unfoldable pub resource_cache_list :
    Resources → Option ℤ → Option ℤ → Handled (ApiReply (List ResourceCacheEntry))
unfolding list_resource_cache positive_id
resource_cache_list db id limit = positive_id id >>= λ n.
    ok (record { status = 200; body = list_resource_cache db n (limit_of limit) })

abbrev pub delete_entry : Resources → Handled ℕ → Resources × Handled ℕ
delete_entry db (err e) = (db, err e)
delete_entry db (ok id) = (delete_resource_cache_entry db id, ok 204)

-- resourceCacheDeleteHandler: the row goes, its file stays.
unfoldable pub resource_cache_delete : Resources → Caller → Option ℤ → Resources × Handled ℕ
unfolding delete_resource_cache_entry require_admin positive_id
resource_cache_delete db c id = delete_entry db (require_admin c >>= λ a. positive_id id)
