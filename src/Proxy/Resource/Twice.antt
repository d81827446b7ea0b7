-- ===== src/Proxy/Resource/Twice.antt =====
-- A file under /r/ that is fetched once and then served from the disk.
use cncache_hub.Prelude.{
  ℕ, ◌+◌, ◌≤◌, ◌≡◌, refl, sym, ap, ap₂, ◌∙◌, subst, true, false, ◌&&◌, none, some, List, [], ◌∷◌,
  ◌++◌, arith, leb, length, map, ltb,
}
use cncache_hub.Prelude.Int.{pos}
use cncache_hub.Text.{Bytes, same}
use cncache_hub.Text.Equality.{same_refl}
use cncache_hub.Cache.Disk.{Disk, update, remove, rename}
use cncache_hub.Cache.Stream.{full}
use cncache_hub.Cache.Stream.Writes.{concat}
use cncache_hub.Storage.Rules.{match_path}
use cncache_hub.Storage.Resources.{
  ResourceRule, ResourceCacheEntry, Resources, get_resource_rule_by_name, get_resource_cache_entry,
  has_rule_name, bump_resource_cache_hit, upsert_resource_cache_entry,
}
use cncache_hub.Storage.Sql.{find_where}
use cncache_hub.Storage.Resources.Keys.{upserted_entry, get-upsert}
use cncache_hub.Proxy.Fetch.Streams.{whole_chunk}
use cncache_hub.Proxy.Resource.{
  ResourceHandler, ResourceRequest, ResourceResponse, ResourceWorld, hit, Served,
  has_sensitive_query, request_for,
}
use cncache_hub.Proxy.Resource.Download.{
  copy_both, final_path, ttl_of, entry_for, keep_file, relay_copied, miss_answer, is_too_large,
  relay_response, serve_from_upstream,
}
use cncache_hub.Proxy.Resource.Handler.{
  finish_hit, hit_of, serve_from_file, is_expired, serve_entry, serve_rule, serve_resource,
}
use cncache_hub.Proxy.Resource.Serving.{Asks, serve_resource-rule}

copy_both-whole :
    (ps : List Bytes) → copy_both (map whole_chunk ps) false ≡ (concat ps, concat ps, false)
unfolding copy_both
copy_both-whole [] = refl
copy_both-whole (p ∷ ps) = ap (λ t. (p ++ t.0, p ++ t.1, t.2)) (copy_both-whole ps)

read_whole :
    (w : ResourceWorld) (disk : Disk) (e : ResourceCacheEntry) (c : Bytes)
    → disk e.storage_path ≡ some c
    → w.open_fails ≡ false
    → w.stat_fails ≡ false
    → w.read_file ≡ full
    → serve_from_file w disk e ≡ (some (hit_of e c c), false)
unfolding serve_from_file
read_whole w disk e c there opens stats reads =
    rw (there, serve_from_file) (simp (opens, stats, reads))

not_expired : (exp now : ℕ) → now ≤ exp → (ltb 0 exp && ltb exp now) ≡ false
not_expired exp now h = ground arith

serve_entry-hit :
    (w : ResourceWorld) (h : ResourceHandler) (disk : Disk) (db : Resources) (rule : ResourceRule)
    (rest : Bytes) (r : ResourceRequest) (e : ResourceCacheEntry) (c : Bytes)
    → is_expired w e ≡ false
    → serve_from_file w disk e ≡ (some (hit_of e c c), false)
    → serve_entry w h disk db rule rest r (some e)
      ≡ (disk, bump_resource_cache_hit w.now db e.id, hit_of e c c)
unfolding serve_entry finish_hit
serve_entry-hit w h disk db rule rest r e c fresh there =
    let bumped = bump_resource_cache_hit w.now db e.id in
    rw fresh (ap (finish_hit disk bumped (serve_from_upstream w h disk bumped rule rest r)) there)

serve_rule-entry :
    (w : ResourceWorld) (h : ResourceHandler) (disk : Disk) (db : Resources) (r : ResourceRequest)
    (name rest : Bytes) (rule : ResourceRule)
    → rule.enabled ≡ true
    → match_path w.regex_match rule.path_pattern rest ≡ true
    → serve_rule w h disk db name rest r (some rule)
      ≡ serve_entry w h disk db rule rest r (get_resource_cache_entry db rule.id rest)
unfolding serve_rule
serve_rule-entry w h disk db r name rest rule enabled matches = simp (enabled, matches)

serve_from_upstream-answered :
    (w : ResourceWorld) (h : ResourceHandler) (disk : Disk) (db : Resources) (r : ResourceRequest)
    (rest : Bytes) (rule : ResourceRule) (resp : ResourceResponse)
    → w.builds (request_for w rule rest r).url ≡ true
    → w.send (request_for w rule rest r) ≡ some resp
    → serve_from_upstream w h disk db rule rest r ≡ relay_response w h disk db rule rest resp
unfolding serve_from_upstream
serve_from_upstream-answered w h disk db r rest rule resp builds answered = simp (builds, answered)

relay_response-copied :
    (w : ResourceWorld) (h : ResourceHandler) (disk : Disk) (db : Resources) (rest tmp : Bytes)
    (rule : ResourceRule) (resp : ResourceResponse)
    → leb 400 resp.status ≡ false
    → is_too_large h resp.content_length ≡ false
    → w.temp_name ≡ some tmp
    → relay_response w h disk db rule rest resp
      ≡ relay_copied w h disk db rule rest resp tmp (copy_both resp.chunks resp.breaks)
unfolding relay_response
relay_response-copied w h disk db rest tmp rule resp fine small temp = simp (fine, small, temp)

kept_file :
    (w : ResourceWorld) (rule : ResourceRule) (rest target tmp file : Bytes)
    (resp : ResourceResponse) (disk : Disk) (db : Resources)
    → w.rename_fails ≡ false
    → same tmp target ≡ false
    → ((keep_file w rule rest target resp disk db tmp file false).0 target ≡ some file)
      × ((keep_file w rule rest target resp disk db tmp file false).1
          ≡ upsert_resource_cache_entry w.stored_at db (entry_for w rule rest target resp file))
unfolding keep_file remove rename update
kept_file w rule rest target tmp file resp disk db renames apart =
    (rw (renames, apart, same_refl target) refl, rw renames refl)

module _ (first second : ResourceWorld) (h : ResourceHandler) (disk : Disk) (db : Resources)
    (r r' : ResourceRequest) (name rest tmp : Bytes) (rule : ResourceRule) (resp : ResourceResponse)
    (ps : List Bytes) (asks : Asks r name rest) (asks' : Asks r' name rest)
    (plain : has_sensitive_query first r.raw_query ≡ false)
    (plain' : has_sensitive_query second r'.raw_query ≡ false)
    (found : get_resource_rule_by_name db name ≡ some rule) (enabled : rule.enabled ≡ true)
    (matches : match_path first.regex_match rule.path_pattern rest ≡ true)
    (matches' : match_path second.regex_match rule.path_pattern rest ≡ true)
    (absent : get_resource_cache_entry db rule.id rest ≡ none)
    (builds : first.builds (request_for first rule rest r).url ≡ true)
    (answered : first.send (request_for first rule rest r) ≡ some resp)
    (fine : leb 400 resp.status ≡ false) (small : is_too_large h resp.content_length ≡ false)
    (temp : first.temp_name ≡ some tmp)
    (apart : same tmp (final_path first h rule.name rest) ≡ false)
    (renames : first.rename_fails ≡ false) (whole : resp.chunks ≡ map whole_chunk ps)
    (ends : resp.breaks ≡ false) (live : second.now ≤ first.stored_at + ttl_of rule)
    (opens : second.open_fails ≡ false) (stats : second.stat_fails ≡ false)
    (reads : second.read_file ≡ full) where
  fetched :
      serve_resource first h disk db r
      ≡ relay_copied first h disk db rule rest resp tmp (concat ps, concat ps, false)
  unfolding serve_entry
  fetched =
      serve_resource-rule first h disk db r name rest asks plain
      ∙ ap (serve_rule first h disk db name rest r) found
      ∙ serve_rule-entry first h disk db r name rest rule enabled matches
      ∙ ap (serve_entry first h disk db rule rest r) absent
      ∙ serve_from_upstream-answered first h disk db r rest rule resp builds answered
      ∙ relay_response-copied first h disk db rest tmp rule resp fine small temp
      ∙ ap (relay_copied first h disk db rule rest resp tmp)
          (ap₂ copy_both whole ends ∙ copy_both-whole ps)

  kept :
      let a = relay_copied first h disk db rule rest resp tmp (concat ps, concat ps, false) in
      let e = entry_for first rule rest (final_path first h rule.name rest) resp (concat ps) in
      (a.0 (final_path first h rule.name rest) ≡ some (concat ps))
      × (get_resource_rule_by_name a.1 name ≡ some rule)
      × (get_resource_cache_entry a.1 rule.id rest
          ≡ some (upserted_entry first.stored_at db e none))
  unfolding relay_copied get_resource_rule_by_name
  kept =
      let target = final_path first h rule.name rest in
      let e = entry_for first rule rest target resp (concat ps) in
      let (file, row) =
        kept_file first rule rest target tmp (concat ps) resp disk db renames apart in
      let (at_key, rules) = get-upsert first.stored_at db e in
      (
        file,
        rw row (ap (find_where (has_rule_name name)) rules ∙ found),
        rw row (at_key ∙ ap (λ o. some (upserted_entry first.stored_at db e o)) absent),
      )

  abbrev cached_answer : Served
  cached_answer = record {
    status = 200;
    content_type = resp.content_type;
    content_length = some (pos (length (concat ps)));
    mark = hit;
    body = concat ps;
  }

  first_answer :
      (relay_copied first h disk db rule rest resp tmp (concat ps, concat ps, false)).2
      ≡ miss_answer resp (concat ps)
  unfolding relay_copied
  first_answer = refl

  second_run :
      let a = relay_copied first h disk db rule rest resp tmp (concat ps, concat ps, false) in
      let e = entry_for first rule rest (final_path first h rule.name rest) resp (concat ps) in
      serve_resource second h a.0 a.1 r' ≡ (
        a.0,
        bump_resource_cache_hit second.now a.1 (upserted_entry first.stored_at db e none).id,
        cached_answer,
      )
  second_run =
      let a = relay_copied first h disk db rule rest resp tmp (concat ps, concat ps, false) in
      let e = entry_for first rule rest (final_path first h rule.name rest) resp (concat ps) in
      let row = upserted_entry first.stored_at db e none in
      serve_resource-rule second h a.0 a.1 r' name rest asks' plain'
      ∙ ap (serve_rule second h a.0 a.1 name rest r') kept.1
      ∙ serve_rule-entry second h a.0 a.1 r' name rest rule enabled matches'
      ∙ ap (serve_entry second h a.0 a.1 rule rest r') kept.2
      ∙ serve_entry-hit second h a.0 a.1 rule rest r' row (concat ps)
          (not_expired (first.stored_at + ttl_of rule) second.now live)
          (read_whole second a.0 row (concat ps) kept.0 opens stats reads)

  -- A path is fetched under a rule that lets it through: the upstream answers below 400, whatever the
  -- exact status, within the limit, and the body comes whole to the client and the file. The client
  -- gets the body, and until the entry expires a second request for the path, whatever the range or
  -- the query of either and whatever the upstream would answer then, is a hit with status 200 and
  -- the same bytes, which leaves the disk as it is.
  pub serve_resource_twice :
      let a = serve_resource first h disk db r in
      let b = serve_resource second h a.0 a.1 r' in
      (a.2 ≡ miss_answer resp (concat ps))
      × (b.2 ≡ record {
        status = 200;
        content_type = resp.content_type;
        content_length = some (pos (length (concat ps)));
        mark = hit;
        body = concat ps;
      })
      × (b.0 ≡ a.0)
  serve_resource_twice =
      let q = second_run in
      subst
        (λ x.
          (x.2 ≡ miss_answer resp (concat ps))
          × ((serve_resource second h x.0 x.1 r').2 ≡ cached_answer)
          × ((serve_resource second h x.0 x.1 r').0 ≡ x.0))
        (sym fetched) (first_answer, ap (λ x. x.2) q, ap (λ x. x.0) q)
