-- ===== src/Proxy/Fetch.antt =====
-- proxy/proxy.go: fetchAndCache. The network answers through `send` and `ask`, and each chunk of a
-- body says what the client's and the cache's writes of it come to.
pub mod Streams
use cncache_hub.Prelude.{
  ℕ, zero, suc, ◌+◌, Bool, true, false, not, ◌&&◌, ◌||◌, Option, none, some, List, [], ◌∷◌, ◌++◌,
  if◌then◌else◌, ◌==◌, length, Result, ok, err,
}
use cncache_hub.Prelude.Int.{ℤ, pos}
use cncache_hub.Text.{Bytes, codes, is_empty}
use cncache_hub.Cache.Policy.{BypassReason, bypass_none, size_limit, disk_low}
use cncache_hub.Cache.Disk.{Disk}
use cncache_hub.Cache.Stream.{
  Writer, CacheError, WriteOutcome, taken, full, short, CloseFaults, write, close,
}
use cncache_hub.Cache.Store.{FileStore, OpenFaults, open_stream}
use cncache_hub.Storage.Entries.{CacheEntry, Table, upsert_cache_entry}
use cncache_hub.Proxy.Pool.{Upstream}
use cncache_hub.Proxy.Headers.{Headers, copy_answer_headers}
use cncache_hub.Proxy.Upstream.{
  Send, Challenge, TokenAnswer, Response, do_raw, wants_token, parse_www_authenticate, fetch_token,
}
use cncache_hub.Proxy.Route.{relative_storage_path}

-- A chunk on its way: what the client's write and the cache's write make of it.
pub record Chunk : Type 0 where
  pub bytes : Bytes
  pub to_client : WriteOutcome
  pub to_cache : WriteOutcome

abbrev pub client_fails : WriteOutcome → Bool
client_fails full = false
client_fails (short n) = true

-- safeMultiWriter.Write on the client and the cache: the cache is written to in any case, and only
-- the client's error is told.
unfoldable pub multi_write : Disk → Writer → Chunk → Disk × Writer × Bytes × Bool
unfolding write
multi_write disk w c =
    let (d, v, n, e) = write c.to_cache disk w c.bytes in
    (d, v, taken c.to_client c.bytes, client_fails c.to_client)

-- io.Copy of the body into both: what the client got, and whether the copy ended with an error.
unfoldable pub relay : Disk → Writer → List Chunk → Bool → Disk × Writer × Bytes × Bool
unfolding multi_write
relay disk w [] breaks = (disk, w, [], breaks)
relay disk w (c ∷ cs) breaks =
    let (d, v, sent, failed) = multi_write disk w c in
    let (d', v', more, failed') = relay d v cs breaks in
    if failed then (d, v, sent, true) else (d', v', sent ++ more, failed')

-- io.Copy of the body to the client alone.
unfoldable pub relay_client : List Chunk → Bool → Bytes × Bool
relay_client [] breaks = ([], breaks)
relay_client (c ∷ cs) breaks =
    let (more, failed) = relay_client cs breaks in
    if client_fails c.to_client
    then (taken c.to_client c.bytes, true)
    else (taken c.to_client c.bytes ++ more, failed)

-- What came of a fetch: the status and the body that the client got, the bypass, and whether there
-- was an error.
pub record Fetched : Type 0 where
  pub status : ℕ
  pub headers : Headers
  pub body : Bytes
  pub reason : BypassReason
  pub failed : Bool

abbrev pub gateway_error : Fetched
gateway_error = record {
  status = 502;
  headers = [];
  body = [];
  reason = bypass_none;
  failed = true;
}

abbrev pub reason_text : BypassReason → Bytes
reason_text bypass_none = []
reason_text size_limit = codes "size_limit"
reason_text disk_low = codes "disk_low"

abbrev pub media_type_of : Response → Bytes
media_type_of resp =
    if is_empty resp.content_type then codes "application/octet-stream" else resp.content_type

-- The row of the blob that was streamed.
abbrev pub entry_of : Bytes → Bytes → Bytes → Response → Writer → CacheEntry
entry_of registry name digest resp w = record {
  id = 0;
  registry = registry;
  repository = name;
  digest = digest;
  media_type = media_type_of resp;
  size_bytes = w.written;
  storage_path = relative_storage_path registry name digest;
  hit_count = 0;
  last_access_at = 0;
  created_at = 0;
  bypassed = w.bypass;
  bypass_reason = reason_text w.reason;
}

-- The row is written unless the close failed, whatever the copy came to.
abbrev pub write_meta : ℕ → Table → CacheEntry → Option CacheError → Table
write_meta now t e (some _) = t
write_meta now t e none = upsert_cache_entry now t e

abbrev pub has_error : Option CacheError → Bool
has_error none = false
has_error (some e) = true

-- The end of fetchAndCache, once the body is relayed.
unfoldable pub finish_fetch :
    CloseFaults
    → ℕ
    → Table
    → Bytes
    → Bytes
    → Bytes
    → Response
    → Disk × Writer × Bytes × Bool
    → Disk × Table × Fetched
unfolding close upsert_cache_entry
finish_fetch g now t registry name digest resp (disk, w, sent, failed) =
    let (d, v, close_err) = close g disk w in
    (
      d,
      write_meta now t (entry_of registry name digest resp v) close_err,
      record {
        status = resp.status;
        headers = copy_answer_headers resp.headers;
        body = sent;
        reason = v.reason;
        failed = failed || has_error close_err;
      },
    )

abbrev pub plain : Response → Bytes × Bool → Fetched
plain resp (sent, failed) = record {
  status = resp.status;
  headers = copy_answer_headers resp.headers;
  body = sent;
  reason = bypass_none;
  failed = false;
}

-- The answer of the upstream is there: anything but a 200 is only relayed, and so is a 200 whose
-- cache stream does not open.
unfoldable pub stream_opened :
    CloseFaults
    → ℕ
    → Table
    → Bytes
    → Bytes
    → Bytes
    → Response
    → List Chunk
    → Disk × Result CacheError Writer
    → Disk × Table × Fetched
unfolding relay relay_client finish_fetch
stream_opened g now t registry name digest resp chunks (disk, err e) =
    (disk, t, plain resp (relay_client chunks resp.breaks))
stream_opened g now t registry name digest resp chunks (disk, ok w) =
    finish_fetch g now t registry name digest resp (relay disk w chunks resp.breaks)

-- The second half of fetchAndCache. `carry` gives the chunks of the body their writes' outcomes.
unfoldable pub stream_response :
    (Bytes → ℤ)
    → OpenFaults
    → CloseFaults
    → ℕ
    → (Response → List Chunk)
    → Disk
    → FileStore
    → Table
    → Bytes
    → Bytes
    → Bytes
    → Response
    → Disk × Table × Fetched
unfolding stream_opened open_stream relay_client
stream_response avail f g now carry disk s t registry name digest resp =
    if not (resp.status == 200)
    then (disk, t, plain resp (relay_client (carry resp) resp.breaks))
    else stream_opened g now t registry name digest resp (carry resp)
        (open_stream avail f disk s registry name digest resp.content_length)

-- The answer of the upstream, with one more request where it wants a token; `none` is a 502.
unfoldable pub fetch_response :
    Send → (Challenge → TokenAnswer) → ℕ → Upstream → Bytes → Headers → Upstream × Option Response
unfolding do_raw fetch_token parse_www_authenticate
fetch_response send ask now u path headers = elim (do_raw send u (codes "GET") path headers []) [
  | none ↦ (u, none)
  | some resp ↦
      if not (wants_token resp)
      then (u, some resp)
      else elim (parse_www_authenticate resp.www_authenticate) [
        | none ↦ (u, none)
        | some c ↦ elim (fetch_token ask now u c).1 [
          | none ↦ ((fetch_token ask now u c).0, none)
          | some token ↦ (
            (fetch_token ask now u c).0,
            do_raw send (fetch_token ask now u c).0 (codes "GET") path headers token,
          )
        ]
      ]
]
