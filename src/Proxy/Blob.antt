-- ===== src/Proxy/Blob.antt =====
-- proxy/proxy.go: handleBlob. A blob is served from the cache, or fetched.
pub mod Hits
pub mod Twice
use cncache_hub.Prelude.{
  ℕ, Bool, true, false, not, ◌&&◌, ◌||◌, Option, none, some, List, [], ◌∷◌, ◌++◌, if◌then◌else◌,
  Result, ok, err,
}
use cncache_hub.Prelude.Int.{ℤ, pos}
use cncache_hub.Text.{Bytes, codes, is_empty}
use cncache_hub.Cache.Policy.{BypassReason, bypass_none}
use cncache_hub.Cache.Disk.{Disk}
use cncache_hub.Cache.Stream.{CacheError, CloseFaults, not_found}
use cncache_hub.Cache.Store.{FileStore, OpenFaults, stat, get}
use cncache_hub.Storage.Entries.{Table, touch_cache_entry}
use cncache_hub.Proxy.Pool.{UpstreamPool, Upstream, PoolEntry, resolve_upstream, dockerhub}
use cncache_hub.Proxy.Headers.{Headers}
use cncache_hub.Proxy.Upstream.{Send, Challenge, TokenAnswer, Response}
use cncache_hub.Proxy.Route.{Route, blobs, upstream_path}
use cncache_hub.Proxy.Fetch.{Chunk, Fetched, gateway_error, fetch_response, stream_response}

-- What the world answers while one blob is handled.
pub record World : Type 0 where
  pub avail : Bytes → ℤ
  pub open_faults : OpenFaults
  pub close_faults : CloseFaults
  pub stat_fails : Bool
  pub get_open_fails : Bool
  pub get_stat_fails : Bool
  pub now : ℕ
  pub send : Send
  pub ask : Challenge → TokenAnswer
  pub carry : Response → List Chunk

pub data Method : Type 0 where
  head_method get_method other_method : Method

-- What the client gets, whether it is from the cache, and how long the answer says that it is.
pub record Served : Type 0 where
  pub status : ℕ
  pub body : Bytes
  pub cached : Bool
  pub size : Option ℕ

abbrev pub failure : ℕ → Served
failure status = record { status = status; body = []; cached = false; size = none }

-- HEAD is answered from the cache alone.
abbrev pub head_answer : Result CacheError (Bool × ℕ) → Served
head_answer (err e) = failure 500
head_answer (ok (false, size)) = failure 404
head_answer (ok (true, size)) = record { status = 200; body = []; cached = true; size = some size }

abbrev pub fetched_answer : Disk × Table × Fetched → Disk × Table × Served
fetched_answer (disk, t, f) =
    (disk, t, record { status = f.status; body = f.body; cached = false; size = none })

abbrev pub after_response :
    World
    → Disk
    → FileStore
    → Table
    → Bytes
    → Bytes
    → Bytes
    → Option Response
    → Disk × Table × Served
after_response world disk s t registry name digest none = (disk, t, failure 502)
after_response world disk s t registry name digest (some resp) = fetched_answer (
    stream_response world.avail world.open_faults world.close_faults world.now world.carry disk s t
      registry name digest resp)

-- A miss: fetchAndCache.
unfoldable pub fetch_and_cache :
    World
    → Disk
    → FileStore
    → Table
    → Upstream
    → Headers
    → Bytes
    → Bytes
    → Bytes
    → Disk × Table × Served
unfolding fetch_response stream_response upstream_path
fetch_and_cache world disk s t up headers registry name digest =
    after_response world disk s t registry name digest
      (fetch_response world.send world.ask world.now up (upstream_path (blobs registry name digest))
        headers).1

abbrev pub hit_answer : Bytes → Served
hit_answer c = record { status = 200; body = c; cached = true; size = none }

-- What Get gave for a blob that Stat saw: one that went in between is a miss.
unfoldable pub after_get :
    World
    → Disk
    → FileStore
    → Table
    → Upstream
    → Headers
    → Bytes
    → Bytes
    → Bytes
    → Result CacheError (Bytes × ℕ)
    → Disk × Table × Served
unfolding fetch_and_cache touch_cache_entry
after_get world disk s t up headers registry name digest (ok (c, size)) = (
  disk,
  touch_cache_entry world.now t registry name digest,
  record (hit_answer c) { size = some size },
)
after_get world disk s t up headers registry name digest (err not_found) =
    fetch_and_cache world disk s t up headers registry name digest
after_get world disk s t up headers registry name digest (err e) = (disk, t, failure 500)

unfoldable pub after_stat :
    World
    → Disk
    → FileStore
    → Table
    → Upstream
    → Headers
    → Bytes
    → Bytes
    → Bytes
    → Result CacheError (Bool × ℕ)
    → Disk × Table × Served
unfolding after_get fetch_and_cache get
after_stat world disk s t up headers registry name digest (err e) = (disk, t, failure 500)
after_stat world disk s t up headers registry name digest (ok (true, size)) =
    after_get world disk s t up headers registry name digest
      (get world.get_open_fails world.get_stat_fails disk s registry name digest)
after_stat world disk s t up headers registry name digest (ok (false, size)) =
    fetch_and_cache world disk s t up headers registry name digest

unfoldable pub with_upstream :
    World
    → Method
    → Disk
    → FileStore
    → Table
    → Headers
    → Bytes
    → Bytes
    → Bytes
    → Option PoolEntry
    → Disk × Table × Served
unfolding after_stat stat
with_upstream world method disk s t headers registry name digest none = (disk, t, failure 502)
with_upstream world head_method disk s t headers registry name digest (some e) =
    (disk, t, head_answer (stat world.stat_fails disk s registry name digest))
with_upstream world get_method disk s t headers registry name digest (some e) =
    after_stat world disk s t e.client headers registry name digest
      (stat world.stat_fails disk s registry name digest)
with_upstream world other_method disk s t headers registry name digest (some e) =
    (disk, t, failure 405)

-- handleBlob
unfoldable pub handle_blob :
    World
    → UpstreamPool
    → Method
    → Disk
    → FileStore
    → Table
    → Headers
    → Bytes
    → Bytes
    → Bytes
    → Disk × Table × Served
unfolding with_upstream resolve_upstream
handle_blob world pool method disk s t headers registry name digest =
    let r = if is_empty registry then dockerhub else registry in
    with_upstream world method disk s t headers r name digest (resolve_upstream pool r)
