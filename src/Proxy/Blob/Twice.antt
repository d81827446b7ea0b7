-- ===== src/Proxy/Blob/Twice.antt =====
-- Two requests of one blob, one after the other.
use cncache_hub.Prelude.{
  ◌≡◌, refl, ap, ◌∙◌, true, false, Option, none, some, List, ◌==◌, length, map, ok,
}
use cncache_hub.Text.{Bytes, is_empty}
use cncache_hub.Cache.Disk.{Disk}
use cncache_hub.Cache.Stream.{no_faults}
use cncache_hub.Cache.Stream.Writes.{concat, exceeds}
use cncache_hub.Cache.Store.{FileStore, get, stat, path_of}
use cncache_hub.Cache.Store.Puts.{IsReady, get-some}
use cncache_hub.Storage.Entries.{Table, touch_cache_entry}
use cncache_hub.Proxy.Pool.{UpstreamPool, PoolEntry, resolve_upstream}
use cncache_hub.Proxy.Headers.{Headers}
use cncache_hub.Proxy.Upstream.{Response}
use cncache_hub.Proxy.Route.{blobs, upstream_path}
use cncache_hub.Proxy.Fetch.{fetch_response, stream_response}
use cncache_hub.Proxy.Fetch.Streams.{whole_chunk}
use cncache_hub.Proxy.Blob.{
  World, head_method, get_method, hit_answer, fetched_answer, fetch_and_cache, after_get,
  after_stat, with_upstream, handle_blob,
}
use cncache_hub.Proxy.Blob.Hits.{whole-stored}

stat-some :
    (disk : Disk) (s : FileStore) (registry name digest target c : Bytes)
    → path_of s registry name digest ≡ ok target
    → disk target ≡ some c
    → stat false disk s registry name digest ≡ ok (true, length c)
unfolding stat
stat-some disk s registry name digest target c e h = rw (e, h)

stat-none :
    (disk : Disk) (s : FileStore) (registry name digest target : Bytes)
    → path_of s registry name digest ≡ ok target
    → disk target ≡ none
    → stat false disk s registry name digest ≡ ok (false, 0)
unfolding stat
stat-none disk s registry name digest target e h = rw (e, h)

-- The kernel lets Stat and Get read.
abbrev pub IsReadable : World → Type 0
IsReadable world =
    (world.stat_fails ≡ false) × (world.get_open_fails ≡ false) × (world.get_stat_fails ≡ false)

-- A blob that is in the cache: a GET is answered with its bytes and their number, its row is
-- touched, the disk stays, and nothing of this depends on the upstream's answers.
handle_blob_hit :
    (world : World) (pool : UpstreamPool) (disk : Disk) (s : FileStore) (t : Table)
    (headers : Headers) (registry name digest target c : Bytes) (up : PoolEntry)
    → IsReadable world
    → is_empty registry ≡ false
    → resolve_upstream pool registry ≡ some up
    → path_of s registry name digest ≡ ok target
    → disk target ≡ some c
    → handle_blob world pool get_method disk s t headers registry name digest ≡ (
      disk,
      touch_cache_entry world.now t registry name digest,
      record (hit_answer c) { size = some (length c) },
    )
unfolding handle_blob with_upstream after_stat after_get
handle_blob_hit world pool disk s t headers registry name digest target c up (a, b, d) r e p h =
    let saw =
      ap (λ x. stat x disk s registry name digest) a
      ∙ stat-some disk s registry name digest target c p h in
    let got =
      ap (λ x. get x world.get_stat_fails disk s registry name digest) b
      ∙ ap (λ x. get false x disk s registry name digest) d
      ∙ get-some disk s registry name digest target c p h in
    rw (r, e)
      (ap (after_stat world disk s t up.client headers registry name digest) saw
        ∙ ap (after_get world disk s t up.client headers registry name digest) got)

with_upstream-head :
    (world : World) (disk : Disk) (s : FileStore) (t : Table) (headers : Headers)
    (registry name digest : Bytes) (o : Option PoolEntry)
    → let r = with_upstream world head_method disk s t headers registry name digest o in
      (r.0 ≡ disk) × (r.1 ≡ t)
unfolding with_upstream
with_upstream-head world disk s t headers registry name digest none = (refl, refl)
with_upstream-head world disk s t headers registry name digest (some e) = (refl, refl)

-- A HEAD changes neither the disk nor the rows.
pub handle_blob_head :
    (world : World) (pool : UpstreamPool) (disk : Disk) (s : FileStore) (t : Table)
    (headers : Headers) (registry name digest : Bytes)
    → let r = handle_blob world pool head_method disk s t headers registry name digest in
      (r.0 ≡ disk) × (r.1 ≡ t)
unfolding handle_blob
handle_blob_head world pool disk s t headers registry name digest =
    with_upstream-head world disk s t headers _ name digest _

-- A blob that is not in the cache: a GET is what fetchAndCache gives.
handle_blob_miss :
    (world : World) (pool : UpstreamPool) (disk : Disk) (s : FileStore) (t : Table)
    (headers : Headers) (registry name digest target : Bytes) (up : PoolEntry)
    → world.stat_fails ≡ false
    → is_empty registry ≡ false
    → resolve_upstream pool registry ≡ some up
    → path_of s registry name digest ≡ ok target
    → disk target ≡ none
    → handle_blob world pool get_method disk s t headers registry name digest
      ≡ fetch_and_cache world disk s t up.client headers registry name digest
unfolding handle_blob with_upstream after_stat
handle_blob_miss world pool disk s t headers registry name digest target up a r e p h =
    let saw =
      ap (λ x. stat x disk s registry name digest) a
      ∙ stat-none disk s registry name digest target p h in
    rw (r, e) (ap (after_stat world disk s t up.client headers registry name digest) saw)

module _ (first second : World) (pool : UpstreamPool) (disk : Disk) (s : FileStore) (t : Table)
    (headers : Headers) (registry name digest target : Bytes) (up : PoolEntry) (resp : Response)
    (ps : List Bytes) (named : is_empty registry ≡ false)
    (resolved : resolve_upstream pool registry ≡ some up) (absent : disk target ≡ none)
    (first_readable : IsReadable first) (second_readable : IsReadable second)
    (answered : (fetch_response first.send first.ask first.now up.client
        (upstream_path (blobs registry name digest))
        headers).1
      ≡ some resp)
    (fine : (resp.status == 200) ≡ true)
    (ready : IsReady first.avail first.open_faults s registry name digest resp.content_length
      target)
    (no_close_faults : first.close_faults ≡ no_faults)
    (whole : first.carry resp ≡ map whole_chunk ps)
    (fits : exceeds s.pol.max_object_size (length (concat ps)) ≡ false) where
  fetched :
      fetch_and_cache first disk s t up.client headers registry name digest
      ≡ fetched_answer (
          stream_response first.avail first.open_faults no_faults first.now first.carry disk s t
            registry name digest resp)
  unfolding fetch_and_cache
  fetched = rw (answered, no_close_faults) refl

  -- The blob is not in the cache and the upstream answers 200 with a body that both sides take
  -- whole, within the limit. The first GET is answered with the body, and a second one, whatever the
  -- upstream would answer then, with the same bytes and their number, from the cache.
  pub handle_blob_twice :
      let r = handle_blob first pool get_method disk s t headers registry name digest in
      let q = handle_blob second pool get_method r.0 s r.1 headers registry name digest in
      (r.2.body ≡ concat ps)
      × (r.2.cached ≡ false)
      × (q.2 ≡ record (hit_answer (concat ps)) { size = some (length (concat ps)) })
      × (q.0 ≡ r.0)
  handle_blob_twice =
      let o =
        stream_response first.avail first.open_faults no_faults first.now first.carry disk s t
          registry name digest resp in
      let (stored, row, body) =
        whole-stored first.avail first.open_faults disk s t first.now registry name digest resp
          target ready fine first.carry ps whole fits in
      let miss =
        handle_blob_miss first pool disk s t headers registry name digest target up first_readable.0
          named resolved ready.placed absent
        ∙ fetched in
      let again =
        handle_blob_hit second pool o.0 s o.1 headers registry name digest target (concat ps) up
          second_readable named resolved ready.placed stored in
      rw miss (body, refl, ap (λ x. x.2) again, ap (λ x. x.0) again)
