-- ===== src/Proxy/Resource/Download.antt =====
-- proxy/resource.go: serveFromUpstream, to the client and the file at once.
use cncache_hub.Prelude.{
  ℕ, ◌+◌, Bool, true, not, ◌&&◌, ◌||◌, none, some, List, [], ◌∷◌, ◌++◌, if◌then◌else◌, length, leb,
  take,
}
use cncache_hub.Prelude.Int.{ℤ, pos, pos_part, lt_ℤ}
use cncache_hub.Text.{Bytes, codes}
use cncache_hub.FilePath.{clean, join_path}
use cncache_hub.Cache.Disk.{Disk, update, remove, rename}
use cncache_hub.Cache.Stream.{full, short}
use cncache_hub.Storage.Resources.{
  ResourceRule, ResourceCacheEntry, Resources, upsert_resource_cache_entry,
}
use cncache_hub.Proxy.Fetch.{Chunk, relay_client}
use cncache_hub.Proxy.Route.{itoa}
use cncache_hub.Proxy.Resource.{
  ResourceHandler, ResourceRequest, ResourceResponse, ResourceWorld, CacheMark, Served, http_error,
  path_digest, request_for, unmarked, miss, bypass_only,
}

-- io.Copy of a body into the file and then the client, by io.MultiWriter: what the file has, what
-- the client got, and whether there was an error. The first one that fails ends it.
unfoldable pub copy_both : List Chunk → Bool → Bytes × Bytes × Bool
copy_both [] breaks = ([], [], breaks)
copy_both (c ∷ cs) breaks =
    let (file, sent, failed) = copy_both cs breaks in
    elim c.to_cache [
      | short n ↦ (take n c.bytes, [], true)
      | full ↦ elim c.to_client [
        | short n ↦ (c.bytes, take n c.bytes, true)
        | full ↦ (c.bytes ++ file, c.bytes ++ sent, failed)
      ]
    ]

-- The directory of a rule's files.
unfoldable pub resource_dir : ResourceHandler → Bytes → Bytes
unfolding clean
resource_dir h name = clean (h.root_dir ++ codes "/../resource/" ++ name)

unfoldable pub final_path : ResourceWorld → ResourceHandler → Bytes → Bytes → Bytes
unfolding resource_dir join_path path_digest
final_path w h name rest = join_path (resource_dir h name) (path_digest w rest)

abbrev pub ttl_of : ResourceRule → ℕ
ttl_of rule =
    if lt_ℤ (pos 0) rule.default_ttl_seconds then pos_part rule.default_ttl_seconds else 86400

-- The row of a file that was fetched.
abbrev pub entry_for :
    ResourceWorld → ResourceRule → Bytes → Bytes → ResourceResponse → Bytes → ResourceCacheEntry
entry_for w rule rest target resp file = record {
  id = 0;
  rule_id = rule.id;
  path = rest;
  size_bytes = length file;
  hit_count = 0;
  last_access_at = w.stored_at;
  expires_at = w.stored_at + ttl_of rule;
  content_type = resp.content_type;
  storage_path = target;
  created_at = 0;
  updated_at = 0;
}

-- The end of a miss: the temporary file is renamed to its place and gets its row, unless the copy or
-- the renaming failed; it is removed in any case.
unfoldable pub keep_file :
    ResourceWorld
    → ResourceRule
    → Bytes
    → Bytes
    → ResourceResponse
    → Disk
    → Resources
    → Bytes
    → Bytes
    → Bool
    → Disk × Resources
unfolding update remove rename upsert_resource_cache_entry
keep_file w rule rest target resp disk db tmp file failed =
    let written = update disk tmp (some file) in
    if failed || w.rename_fails then (remove written tmp, db) else (
      remove (rename written tmp target file) tmp,
      upsert_resource_cache_entry w.stored_at db (entry_for w rule rest target resp file),
    )

abbrev pub miss_answer : ResourceResponse → Bytes → Served
miss_answer resp sent = record {
  status = resp.status;
  content_type = resp.content_type;
  content_length = if lt_ℤ (pos 0) resp.content_length then some resp.content_length else none;
  mark = miss;
  body = sent;
}

abbrev pub passed_on : ResourceResponse → CacheMark → Served
passed_on resp mark = record {
  status = resp.status;
  content_type = resp.content_type;
  content_length = none;
  mark = mark;
  body = (relay_client resp.chunks resp.breaks).0;
}

unfoldable pub body_bytes : List Chunk → Bytes
body_bytes [] = []
body_bytes (c ∷ cs) = c.bytes ++ body_bytes cs

abbrev pub is_too_large : ResourceHandler → ℤ → Bool
is_too_large h n = lt_ℤ (pos 0) n && lt_ℤ (pos 0) h.max_object_size && lt_ℤ h.max_object_size n

-- The end of serveFromUpstream, with what the copy came to.
unfoldable pub relay_copied :
    ResourceWorld
    → ResourceHandler
    → Disk
    → Resources
    → ResourceRule
    → Bytes
    → ResourceResponse
    → Bytes
    → Bytes × Bytes × Bool
    → Disk × Resources × Served
unfolding keep_file final_path
relay_copied w h disk db rule rest resp tmp (file, sent, failed) =
    let k = keep_file w rule rest (final_path w h rule.name rest) resp disk db tmp file failed in
    (k.0, k.1, miss_answer resp sent)

-- The second half of serveFromUpstream.
unfoldable pub relay_response :
    ResourceWorld
    → ResourceHandler
    → Disk
    → Resources
    → ResourceRule
    → Bytes
    → ResourceResponse
    → Disk × Resources × Served
unfolding copy_both relay_copied body_bytes relay_client itoa
relay_response w h disk db rule rest resp =
    if leb 400 resp.status
    then (
      disk,
      db,
      http_error
          (codes "upstream "
            ++ itoa (pos resp.status)
            ++ codes ": "
            ++ take 1024 (body_bytes resp.chunks))
          resp.status,
    )
    else if is_too_large h resp.content_length
    then (disk, db, passed_on resp (bypass_only (codes "size_limit")))
    else elim w.temp_name [
      | none ↦ (disk, db, passed_on resp unmarked)
      | some tmp ↦ relay_copied w h disk db rule rest resp tmp (copy_both resp.chunks resp.breaks)
    ]

-- serveFromUpstream
unfoldable pub serve_from_upstream :
    ResourceWorld
    → ResourceHandler
    → Disk
    → Resources
    → ResourceRule
    → Bytes
    → ResourceRequest
    → Disk × Resources × Served
unfolding request_for relay_response
serve_from_upstream w h disk db rule rest r =
    if not (w.builds (request_for w rule rest r).url)
    then (disk, db, http_error (codes "build upstream request") 500)
    else elim (w.send (request_for w rule rest r)) [
      | none ↦ (disk, db, http_error (codes "upstream fetch failed") 502)
      | some resp ↦ relay_response w h disk db rule rest resp
    ]
