-- ===== src/Proxy/Resource/Handler.antt =====
-- proxy/resource.go: serveFromFile, serveBypass and ServeHTTP.
use cncache_hub.Prelude.{
  suc, Bool, true, false, not, ◌&&◌, ◌||◌, Option, none, some, [], ◌++◌, if◌then◌else◌, length, ltb,
  take, drop,
}
use cncache_hub.Prelude.Int.{pos}
use cncache_hub.Text.{Bytes, codes, same, is_empty, index_byte, trim_prefix}
use cncache_hub.Cache.Disk.{Disk}
use cncache_hub.Cache.Stream.{full, short}
use cncache_hub.Storage.Rules.{match_path}
use cncache_hub.Storage.Resources.{
  ResourceRule, ResourceCacheEntry, Resources, get_resource_rule_by_name, get_resource_cache_entry,
  bump_resource_cache_hit,
}
use cncache_hub.Proxy.Fetch.{relay_client}
use cncache_hub.Proxy.Resource.{
  ResourceHandler, ResourceRequest, UpstreamRequest, ResourceWorld, Served, http_error,
  has_sensitive_query, upstream_url_for, hit, bypassed,
}
use cncache_hub.Proxy.Resource.Download.{passed_on, serve_from_upstream}

abbrev pub hit_of : ResourceCacheEntry → Bytes → Bytes → Served
hit_of e contents sent = record {
  status = 200;
  content_type = e.content_type;
  content_length = some (pos (length contents));
  mark = hit;
  body = sent;
}

-- serveFromFile: the answer that was begun, if the file is there, and whether there was an error.
unfoldable pub serve_from_file : ResourceWorld → Disk → ResourceCacheEntry → Option Served × Bool
serve_from_file w disk e = elim (disk e.storage_path) [
  | none ↦ (none, true)
  | some c ↦ if w.open_fails || w.stat_fails then (none, true) else elim w.read_file [
    | full ↦ (some (hit_of e c c), false)
    | short n ↦ (some (hit_of e c (take n c)), true)
  ]
]

-- The answer of the upstream after one that was begun: its body follows, its headers are too late.
-- The length that net/http holds the answer to is not counted.
abbrev pub continue : Option Served → Served → Served
continue none s = s
continue (some begun) s = record begun { body = begun.body ++ s.body }

abbrev pub is_expired : ResourceWorld → ResourceCacheEntry → Bool
is_expired w e = ltb 0 e.expires_at && ltb e.expires_at w.now

-- The end of a hit: an error on the way brings the upstream in.
unfoldable pub finish_hit :
    Disk → Resources → Disk × Resources × Served → Option Served × Bool → Disk × Resources × Served
finish_hit disk db upstream (begun, true) = (upstream.0, upstream.1, continue begun upstream.2)
finish_hit disk db upstream (none, false) = upstream
finish_hit disk db upstream (some s, false) = (disk, db, s)

-- The part of ServeHTTP after the rule's checks.
unfoldable pub serve_entry :
    ResourceWorld
    → ResourceHandler
    → Disk
    → Resources
    → ResourceRule
    → Bytes
    → ResourceRequest
    → Option ResourceCacheEntry
    → Disk × Resources × Served
unfolding serve_from_upstream serve_from_file finish_hit bump_resource_cache_hit
serve_entry w h disk db rule rest r none = serve_from_upstream w h disk db rule rest r
serve_entry w h disk db rule rest r (some e) =
    if is_expired w e
    then serve_from_upstream w h disk db rule rest r
    else let bumped = bump_resource_cache_hit w.now db e.id in
      finish_hit disk bumped (serve_from_upstream w h disk bumped rule rest r)
        (serve_from_file w disk e)

-- serveBypass
unfoldable pub bypass_rule :
    ResourceWorld → Bytes → ResourceRequest → Bytes → Option ResourceRule → Served
unfolding upstream_url_for relay_client
bypass_rule w rest r reason none = http_error (codes "rule not found") 404
bypass_rule w rest r reason (some rule) =
    let url = upstream_url_for rule rest r.raw_query in
    let req : UpstreamRequest = record {
      url = url;
      user_agent = r.user_agent;
      range = [];
      authorization = [];
    } in
    if not (w.builds url)
    then http_error (codes "bad upstream request") 502
    else elim (w.send req) [
      | none ↦ http_error (codes "upstream fetch failed") 502
      | some resp ↦ passed_on resp (bypassed reason)
    ]

unfoldable pub serve_bypass :
    ResourceWorld → Resources → Bytes → Bytes → ResourceRequest → Bytes → Served
unfolding bypass_rule get_resource_rule_by_name
serve_bypass w db name rest r reason =
    bypass_rule w rest r reason (get_resource_rule_by_name db name)

-- A rule that was found, or was not.
unfoldable pub serve_rule :
    ResourceWorld
    → ResourceHandler
    → Disk
    → Resources
    → Bytes
    → Bytes
    → ResourceRequest
    → Option ResourceRule
    → Disk × Resources × Served
unfolding serve_entry get_resource_cache_entry match_path
serve_rule w h disk db name rest r none =
    (disk, db, http_error (codes "rule not found: " ++ name) 404)
serve_rule w h disk db name rest r (some rule) =
    if not rule.enabled
    then (disk, db, http_error (codes "rule disabled") 403)
    else if not (match_path w.regex_match rule.path_pattern rest)
    then (
      disk,
      db,
      http_error
          (codes "path not in rule whitelist: "
            ++ rest
            ++ codes " (pattern: "
            ++ rule.path_pattern
            ++ codes ")")
          403,
    )
    else serve_entry w h disk db rule rest r (get_resource_cache_entry db rule.id rest)

-- strings.SplitN of the path after /r/ into the rule's name and the rest.
unfoldable pub rule_name_of : Bytes → Bytes
unfolding index_byte
rule_name_of s = elim (index_byte s 47) [ none ↦ s | some i ↦ take i s ]

unfoldable pub rest_path_of : Bytes → Bytes
unfolding index_byte
rest_path_of s = elim (index_byte s 47) [ none ↦ [] | some i ↦ drop (suc i) s ]

-- ServeHTTP
unfoldable pub serve_resource :
    ResourceWorld → ResourceHandler → Disk → Resources → ResourceRequest → Disk × Resources × Served
unfolding serve_rule serve_bypass has_sensitive_query trim_prefix rule_name_of rest_path_of
    get_resource_rule_by_name
serve_resource w h disk db r =
    let rest = trim_prefix r.path (codes "/r/") in
    if is_empty rest || same rest r.path
    then (disk, db, http_error (codes "bad path") 400)
    else if is_empty (rule_name_of rest) || is_empty (rest_path_of rest)
    then (disk, db, http_error (codes "usage: /r/<rule_name>/<path>") 400)
    else if has_sensitive_query w r.raw_query
    then (
      disk,
      db,
      serve_bypass w db (rule_name_of rest) (rest_path_of rest) r (codes "sensitive_query"),
    )
    else serve_rule w h disk db (rule_name_of rest) (rest_path_of rest) r
        (get_resource_rule_by_name db (rule_name_of rest))
