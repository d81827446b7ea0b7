-- ===== src/Tests/ProxyRuns.antt =====
-- The proxy at concrete inputs.
use cncache_hub.Prelude.{◌≡◌, refl, false, Option, none, some, List, [], ◌∷◌, ◌++◌, map, ok}
use cncache_hub.Prelude.Int.{pos}
use cncache_hub.Text.{codes, same}
use cncache_hub.Cache.Stream.{no_faults, full, short}
use cncache_hub.Cache.Stream.Writes.{concat}
use cncache_hub.Cache.Disk.{Disk}
use cncache_hub.Cache.Store.{get}
use cncache_hub.Storage.Entries.{Table}
use cncache_hub.Proxy.Pool.{
  Upstream, UpstreamPool, PoolEntry, resolve_upstream, find_entry, dockerhub,
}
use cncache_hub.Proxy.Upstream.{
  Challenge, TokenAnswer, TokenResponse, answered, no_answer, Response, OutRequest, do_raw,
  round_trip,
}
use cncache_hub.Proxy.Upstream.Tokens.{round_trip_skips}
use cncache_hub.Proxy.Fetch.{Chunk, relay_client, stream_response, fetch_response}
use cncache_hub.Proxy.Fetch.Streams.{whole_chunk, lost_chunk}
use cncache_hub.Proxy.Headers.{Headers}
use cncache_hub.Proxy.Blob.{World, get_method, hit_answer, handle_blob}
use cncache_hub.Proxy.Blob.Hits.{
  HasRow, stream_response-client, stream_response_stores, stream_response_keeps_part,
}
use cncache_hub.Proxy.Blob.Twice.{handle_blob_twice}
use cncache_hub.Tests.CacheRuns.{
  store, repo, digest, target, empty_disk, avail, open_faults, ready, two_chunks,
}

abbrev table : Table
table = record { rows = []; next_id = 1 }

abbrev resp : Response
resp = record {
  status = 200;
  headers = [];
  www_authenticate = [];
  content_type = [];
  content_length = pos 3;
  chunks = two_chunks;
  breaks = false;
}

abbrev hub : Upstream
hub = record { base_url = codes "https://r"; ua = codes "cncachehub/dev"; token_cache = [] }

abbrev hub_entry : PoolEntry
hub_entry = record { name = codes "dockerhub"; client = hub }

abbrev pool : UpstreamPool
pool = record { upstreams = hub_entry ∷ []; default_upstream = some hub_entry }

abbrev send : OutRequest → Option Response
send r = some resp

abbrev no_token : Challenge → TokenAnswer
no_token c = no_answer

abbrev world : World
world = record {
  avail = avail;
  open_faults = open_faults;
  close_faults = no_faults;
  stat_fails = false;
  get_open_fails = false;
  get_stat_fails = false;
  now = 50;
  send = send;
  ask = no_token;
  carry = λ r. map whole_chunk r.chunks;
}

-- The upstream is gone.
abbrev cut_off : World
cut_off = record world { send = λ r. none }

handle_blob_twice_example :
    let r = handle_blob world pool get_method empty_disk store table [] dockerhub repo digest in
    let q = handle_blob cut_off pool get_method r.0 store r.1 [] dockerhub repo digest in
    (r.2.body ≡ concat two_chunks)
    × (r.2.cached ≡ false)
    × (q.2 ≡ record (hit_answer (concat two_chunks)) { size = some 3 })
    × (q.0 ≡ r.0)
unfolding resolve_upstream find_entry same fetch_response do_raw
handle_blob_twice_example =
    handle_blob_twice world cut_off pool empty_disk store table [] dockerhub repo digest target
      hub_entry resp two_chunks refl refl refl (refl, refl, refl) (refl, refl, refl) refl refl ready
      refl refl refl

abbrev stored_disk : Disk
stored_disk q = some (7 ∷ 8 ∷ [])

-- The cache's disk is full.
abbrev full_up : Response → List Chunk
full_up r = record { bytes = 1 ∷ 2 ∷ []; to_client = full; to_cache = short 1 } ∷ []

stream_response-client_example :
    let r =
      (stream_response avail open_faults no_faults 50 full_up empty_disk store table dockerhub repo
        digest resp).2 in
    (r.body ≡ 1 ∷ 2 ∷ []) × (r.status ≡ 200)
unfolding relay_client
stream_response-client_example =
    stream_response-client avail open_faults no_faults 50 full_up empty_disk store table dockerhub
      repo digest resp

abbrev whole : Response → List Chunk
whole r = map whole_chunk two_chunks

stream_response_stores_example :
    let o =
      stream_response avail open_faults no_faults 50 whole empty_disk store table dockerhub repo
        digest resp in
    (o.2.body ≡ concat two_chunks)
    × (get false false o.0 store dockerhub repo digest ≡ ok (concat two_chunks, 3))
    × HasRow dockerhub repo digest 3 o.1
stream_response_stores_example =
    stream_response_stores avail open_faults empty_disk store table 50 dockerhub repo digest resp
      target ready refl whole two_chunks refl refl

abbrev lost : Response → List Chunk
lost r = map whole_chunk ((1 ∷ []) ∷ []) ++ lost_chunk 0 (2 ∷ []) ∷ whole_chunk (3 ∷ []) ∷ []

stream_response_keeps_part_example :
    let o =
      stream_response avail open_faults no_faults 50 lost empty_disk store table dockerhub repo
        digest resp in
    (get false false o.0 store dockerhub repo digest ≡ ok (1 ∷ 2 ∷ [], 2))
    × HasRow dockerhub repo digest 2 o.1
stream_response_keeps_part_example =
    stream_response_keeps_part avail open_faults empty_disk store table 50 dockerhub repo digest
      resp target ready refl lost ((1 ∷ []) ∷ []) 0 (2 ∷ []) (whole_chunk (3 ∷ []) ∷ []) refl refl

abbrev accepts : Headers
accepts = (codes "Accept", codes "*/*" ∷ []) ∷ []

round_trip_skips_example :
    round_trip send no_token 50 hub
      (codes "GET")
      (codes "/v2/")
      (accepts ++ (codes "Authorization", codes "Bearer x" ∷ []) ∷ accepts)
    ≡ round_trip send no_token 50 hub (codes "GET") (codes "/v2/") (accepts ++ accepts)
unfolding same
round_trip_skips_example =
    round_trip_skips send no_token 50 hub (codes "GET") (codes "/v2/") (codes "Authorization")
      (codes "Bearer x" ∷ []) accepts accepts refl

abbrev challenge : Challenge
challenge = record { realm = codes "https://auth"; service = codes "r"; scope = codes "s" }

abbrev token : TokenResponse
token = record { token = codes "t"; access_token = []; expires_in = 300 }

abbrev gives : Challenge → TokenAnswer
gives c = answered 200 (some token)
