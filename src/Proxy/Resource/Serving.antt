-- ===== src/Proxy/Resource/Serving.antt =====
-- Which requests under /r/ reach an upstream, and what stays when a fetch fails.
use cncache_hub.Prelude.{
  ◌≡◌, refl, sym, ap, ◌∙◌, subst, Bool, true, false, not, ◌||◌, Option, none, some, List, [], map,
  if◌then◌else◌, arith, Bool-cases, inl, inr, leb,
}
use cncache_hub.Text.{Bytes, codes, same, is_empty, trim_prefix}
use cncache_hub.Text.Equality.{same→≡}
use cncache_hub.Cache.Disk.{Disk, update, update_lem, remove}
use cncache_hub.Storage.Rules.{match_path}
use cncache_hub.Storage.Resources.{ResourceRule, Resources, get_resource_rule_by_name}
use cncache_hub.Proxy.Resource.{
  ResourceHandler, ResourceRequest, UpstreamRequest, ResourceResponse, ResourceWorld, bypassed,
  has_sensitive_query, upstream_url_for,
}
use cncache_hub.Cache.Stream.Writes.{concat}
use cncache_hub.Proxy.Fetch.{relay_client}
use cncache_hub.Proxy.Fetch.Streams.{whole_chunk, relay_client-whole}
use cncache_hub.Proxy.Resource.Download.{passed_on, keep_file}
use cncache_hub.Proxy.Resource.Handler.{
  bypass_rule, serve_bypass, serve_rule, rule_name_of, rest_path_of, serve_resource,
}

-- A request for a path under a rule's name.
pub record Asks (r : ResourceRequest) (name rest : Bytes) : Type 0 where
  pub under_r :
      (is_empty (trim_prefix r.path (codes "/r/"))
        || same (trim_prefix r.path (codes "/r/")) r.path)
      ≡ false
  pub names : rule_name_of (trim_prefix r.path (codes "/r/")) ≡ name
  pub leaves : rest_path_of (trim_prefix r.path (codes "/r/")) ≡ rest
  pub given : (is_empty name || is_empty rest) ≡ false

-- ServeHTTP without a sensitive query is the rule's part of it.
pub serve_resource-rule :
    (w : ResourceWorld) (h : ResourceHandler) (disk : Disk) (db : Resources) (r : ResourceRequest)
    (name rest : Bytes)
    → Asks r name rest
    → has_sensitive_query w r.raw_query ≡ false
    → serve_resource w h disk db r
      ≡ serve_rule w h disk db name rest r (get_resource_rule_by_name db name)
unfolding serve_resource
serve_resource-rule w h disk db r name rest a q =
    rw (a.under_r, a.names, a.leaves) (rw (a.given, q) refl)

serve_resource-sensitive :
    (w : ResourceWorld) (h : ResourceHandler) (disk : Disk) (db : Resources) (r : ResourceRequest)
    (name rest : Bytes)
    → Asks r name rest
    → has_sensitive_query w r.raw_query ≡ true
    → serve_resource w h disk db r ≡ (
      disk,
      db,
      bypass_rule w rest r (codes "sensitive_query") (get_resource_rule_by_name db name),
    )
unfolding serve_resource serve_bypass
serve_resource-sensitive w h disk db r name rest a q =
    rw (a.under_r, a.names, a.leaves) (rw (a.given, q) refl)

bypass_rule_asks :
    (w : ResourceWorld) (r : ResourceRequest) (rest reason : Bytes) (rule : ResourceRule)
    (resp : ResourceResponse)
    → w.builds (upstream_url_for rule rest r.raw_query) ≡ true
    → w.send (record {
      url = upstream_url_for rule rest r.raw_query;
      user_agent = r.user_agent;
      range = [];
      authorization = [];
    })
      ≡ some resp
    → bypass_rule w rest r reason (some rule) ≡ passed_on resp (bypassed reason)
unfolding bypass_rule
bypass_rule_asks w r rest reason rule resp built sent = simp (built, sent)

-- No rule of the name is there, or it is disabled, or its pattern leaves the path out.
abbrev pub is_blocked : ResourceWorld → Bytes → Option ResourceRule → Bool
is_blocked w rest none = true
is_blocked w rest (some rule) =
    not rule.enabled || not (match_path w.regex_match rule.path_pattern rest)

serve_rule-blocked :
    (w : ResourceWorld) (h : ResourceHandler) (disk : Disk) (db : Resources) (r : ResourceRequest)
    (name rest : Bytes) (o : Option ResourceRule)
    (other : UpstreamRequest → Option ResourceResponse)
    → is_blocked w rest o ≡ true
    → let a = serve_rule w h disk db name rest r o in
      (a.0 ≡ disk)
      × (a.1 ≡ db)
      × (leb 400 a.2.status ≡ true)
      × (serve_rule (record w { send = other }) h disk db name rest r o ≡ a)
unfolding serve_rule
serve_rule-blocked w h disk db r name rest none other b = (refl, refl, refl, refl)
serve_rule-blocked w h disk db r name rest (some rule) other b = elim (Bool-cases rule.enabled) [
  | inr e ↦ (rw e refl, rw e refl, rw e refl, rw e refl)
  | inl e ↦
      let m : match_path w.regex_match rule.path_pattern rest ≡ false = ground arith in
      (rw (e, m) refl, rw (e, m) refl, rw (e, m) refl, rw (e, m) refl)
]

-- A request without a sensitive query for a path that no rule of the name, enabled and with a
-- pattern that takes the path, lets through: the answer is an error, the disk and the tables stay,
-- and the upstream is not asked, since the answer is the same whatever it would say.
pub serve_resource_blocked :
    (w : ResourceWorld) (h : ResourceHandler) (disk : Disk) (db : Resources) (r : ResourceRequest)
    (name rest : Bytes) (other : UpstreamRequest → Option ResourceResponse)
    → Asks r name rest
    → has_sensitive_query w r.raw_query ≡ false
    → is_blocked w rest (get_resource_rule_by_name db name) ≡ true
    → let a = serve_resource w h disk db r in
      (a.0 ≡ disk)
      × (a.1 ≡ db)
      × (leb 400 a.2.status ≡ true)
      × (serve_resource (record w { send = other }) h disk db r ≡ a)
unfolding has_sensitive_query
serve_resource_blocked w h disk db r name rest other a q b =
    let run = serve_resource-rule w h disk db r name rest a q in
    let run' = serve_resource-rule (record w { send = other }) h disk db r name rest a q in
    let b' =
      serve_rule-blocked w h disk db r name rest (get_resource_rule_by_name db name) other b in
    (
      ap (λ x. x.0) run ∙ b'.0,
      ap (λ x. x.1) run ∙ b'.1,
      ap (λ x. leb 400 x.2.status) run ∙ b'.2,
      run' ∙ b'.3 ∙ sym run,
    )

-- A sensitive query passes by every check of the rule: whether or not the rule is enabled and its
-- pattern takes the path, where the upstream's URL can be built and the upstream answers it, the
-- client, which takes the body whole, gets the answer's status, type and body, marked as a bypass.
-- The disk and the tables stay.
pub serve_resource_unchecked :
    (w : ResourceWorld) (h : ResourceHandler) (disk : Disk) (db : Resources) (r : ResourceRequest)
    (name rest : Bytes) (rule : ResourceRule) (resp : ResourceResponse) (ps : List Bytes)
    → Asks r name rest
    → has_sensitive_query w r.raw_query ≡ true
    → get_resource_rule_by_name db name ≡ some rule
    → w.builds (upstream_url_for rule rest r.raw_query) ≡ true
    → w.send (record {
      url = upstream_url_for rule rest r.raw_query;
      user_agent = r.user_agent;
      range = [];
      authorization = [];
    })
      ≡ some resp
    → resp.chunks ≡ map whole_chunk ps
    → let a = serve_resource w h disk db r in
      (a.0 ≡ disk)
      × (a.1 ≡ db)
      × (a.2.status ≡ resp.status)
      × (a.2.content_type ≡ resp.content_type)
      × (a.2.mark ≡ bypassed (codes "sensitive_query"))
      × (a.2.body ≡ concat ps)
serve_resource_unchecked w h disk db r name rest rule resp ps a q found built sent whole =
    let run =
      serve_resource-sensitive w h disk db r name rest a q
      ∙ ap (λ s. (disk, db, s))
          (ap (bypass_rule w rest r (codes "sensitive_query")) found
            ∙ bypass_rule_asks w r rest (codes "sensitive_query") rule resp built sent) in
    (
      ap (λ x. x.0) run,
      ap (λ x. x.1) run,
      ap (λ x. x.2.status) run,
      ap (λ x. x.2.content_type) run,
      ap (λ x. x.2.mark) run,
      ap (λ x. x.2.body) run
          ∙ ap (λ cs. (relay_client cs resp.breaks).0) whole
          ∙ relay_client-whole ps resp.breaks,
    )

undone :
    (disk : Disk) (tmp q : Bytes) (o : Option Bytes)
    → disk tmp ≡ none
    → (if same tmp q then none else update disk tmp o q) ≡ disk q
unfolding update
undone disk tmp q o free = elim (Bool-cases (same tmp q)) [
  | inl e ↦ rw e (sym (subst (λ x. disk x ≡ none) (same→≡ tmp q e) free))
  | inr e ↦ rw e refl
]

-- A fetch whose copy or renaming fails: every file is as it was, given that the temporary name was
-- free, and no row is written.
keep_file_fails :
    (w : ResourceWorld) (rule : ResourceRule) (rest target tmp file : Bytes)
    (resp : ResourceResponse) (disk : Disk) (db : Resources) (failed : Bool) (q : Bytes)
    → disk tmp ≡ none
    → (failed || w.rename_fails) ≡ true
    → ((keep_file w rule rest target resp disk db tmp file failed).0 q ≡ disk q)
      × ((keep_file w rule rest target resp disk db tmp file failed).1 ≡ db)
unfolding keep_file remove
keep_file_fails w rule rest target tmp file resp disk db failed q free f = (
  rw f (update_lem (update disk tmp (some file)) tmp q none ∙ undone disk tmp q (some file) free),
  rw f refl,
)
