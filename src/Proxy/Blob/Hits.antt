-- ===== src/Proxy/Blob/Hits.antt =====
-- What a fetch leaves behind, and what the next request of the same blob gets.
use cncache_hub.Prelude.{
  ℕ, ◌≡◌, refl, sym, ap, ◌∙◌, subst, Bool, true, false, Option, none, some, List, [], ◌∷◌, ◌++◌,
  ◌==◌, length, map, arith, Bool-cases, inl, inr, Result, ok, err,
}
use cncache_hub.Prelude.Int.{ℤ}
use cncache_hub.Text.{Bytes, same, is_empty}
use cncache_hub.Cache.Disk.{Disk, update}
use cncache_hub.Cache.Stream.{Writer, CacheError, no_faults, CloseFaults, write_all, close}
use cncache_hub.Cache.Stream.Writes.{IsLive, concat, all_full, exceeds}
use cncache_hub.Cache.Stream.Closing.{close-IsLive}
use cncache_hub.Cache.Store.{FileStore, OpenFaults, open_stream, file_writer, get, path_of}
use cncache_hub.Cache.Key.{safe_rel, blob_path}
use cncache_hub.Cache.Store.Puts.{IsReady, open_stream-ready, written-IsLive, get-some}
use cncache_hub.Storage.Entries.{CacheEntry, Table, find_row, upsert_cache_entry}
use cncache_hub.Storage.Entries.Keys.{upserted, find_row-upsert}
use cncache_hub.Proxy.Route.{relative_storage_path}
use cncache_hub.Proxy.Upstream.{Response}
use cncache_hub.Proxy.Fetch.{
  Chunk, entry_of, write_meta, relay, relay_client, finish_fetch, stream_opened, stream_response,
}
use cncache_hub.Proxy.Fetch.Streams.{relay-client, relay-whole, relay-lost, whole_chunk, lost_chunk}

-- The table has a row under the key of the blob, with this number of bytes and the blob's path.
abbrev pub HasRow : Bytes → Bytes → Bytes → ℕ → Table → Type 0
HasRow registry name digest n t =
    (e : CacheEntry) × (find_row registry name digest t.rows ≡ some e)
    × (e.size_bytes ≡ n)
    × (e.storage_path ≡ relative_storage_path registry name digest)

upserted_fields :
    (now : ℕ) (t : Table) (e : CacheEntry) (o : Option CacheEntry)
    → ((upserted now t e o).size_bytes ≡ e.size_bytes)
      × ((upserted now t e o).storage_path ≡ e.storage_path)
upserted_fields now t e none = (refl, refl)
upserted_fields now t e (some row) = (refl, refl)

-- The row of a streamed blob is found under the blob's key.
entry_of-HasRow :
    (now : ℕ) (t : Table) (registry name digest : Bytes) (resp : Response) (w : Writer)
    → is_empty digest ≡ false
    → HasRow registry name digest w.written
        (upsert_cache_entry now t (entry_of registry name digest resp w))
entry_of-HasRow now t registry name digest resp w h =
    let e = entry_of registry name digest resp w in
    let o = find_row registry name digest t.rows in
    let (size, path) = upserted_fields now t e o in
    (upserted now t e o, find_row-upsert now t e h, size, path)

opened-client :
    (g : CloseFaults) (now : ℕ) (t : Table) (registry name digest : Bytes) (resp : Response)
    (cs : List Chunk) (o : Disk × Result CacheError Writer)
    → let f = (stream_opened g now t registry name digest resp cs o).2 in
      (f.body ≡ (relay_client cs resp.breaks).0) × (f.status ≡ resp.status)
unfolding stream_opened finish_fetch
opened-client g now t registry name digest resp cs (disk, err e) = (refl, refl)
opened-client g now t registry name digest resp cs (disk, ok w) =
    ((relay-client disk w cs resp.breaks).0, refl)

-- Whatever the policy, the disk, the failures of the kernel and the outcomes of the cache's writes,
-- the client gets the upstream's status and the body as far as its own connection takes it.
pub stream_response-client :
    (avail : Bytes → ℤ) (f : OpenFaults) (g : CloseFaults) (now : ℕ) (carry : Response → List Chunk)
    (disk : Disk) (s : FileStore) (t : Table) (registry name digest : Bytes) (resp : Response)
    → let r = (stream_response avail f g now carry disk s t registry name digest resp).2 in
      (r.body ≡ (relay_client (carry resp) resp.breaks).0) × (r.status ≡ resp.status)
unfolding stream_response
stream_response-client avail f g now carry disk s t registry name digest resp =
    elim (Bool-cases (resp.status == 200)) [
      | inl e ↦ rw e (
          opened-client g now t registry name digest resp (carry resp)
            (open_stream avail f disk s registry name digest resp.content_length))
      | inr e ↦ rw e (refl, refl)
    ]

-- An answer that is not a 200 leaves the cache and the metadata as they were.
pub stream_response-not_ok :
    (avail : Bytes → ℤ) (f : OpenFaults) (g : CloseFaults) (now : ℕ) (carry : Response → List Chunk)
    (disk : Disk) (s : FileStore) (t : Table) (registry name digest : Bytes) (resp : Response)
    → (resp.status == 200) ≡ false
    → ((stream_response avail f g now carry disk s t registry name digest resp).0 ≡ disk)
      × ((stream_response avail f g now carry disk s t registry name digest resp).1 ≡ t)
unfolding stream_response
stream_response-not_ok avail f g now carry disk s t registry name digest resp e = rw e (refl, refl)

written-close :
    (g : CloseFaults) (disk : Disk) (w : Writer) → (close g disk w).1.written ≡ w.written
unfolding close
written-close g disk w = ground arith

-- A digest that has a path is not empty.
named_digest :
    (s : FileStore) (registry name digest target : Bytes)
    → path_of s registry name digest ≡ ok target
    → is_empty digest ≡ false
unfolding path_of blob_path safe_rel
named_digest s registry name [] target h = ground arith
named_digest s registry name (c ∷ d) target h = refl

-- Closing a live stream in the kernel's good hour stores it and writes the row, and tells the
-- copy's error.
finished-IsLive :
    (now : ℕ) (t : Table) (registry name digest : Bytes) (resp : Response) (disk : Disk)
    (w : Writer) (sent : Bytes) (failed : Bool) (c : Bytes)
    → IsLive disk w c
    → same w.tmp_path w.target ≡ false
    → is_empty digest ≡ false
    → let r = finish_fetch no_faults now t registry name digest resp (disk, w, sent, failed) in
      (r.0 w.target ≡ some c) × HasRow registry name digest (length c) r.1 × (r.2.body ≡ sent)
unfolding finish_fetch
finished-IsLive now t registry name digest resp disk w sent failed c l n named =
    let (no_error, stored, gone) = close-IsLive disk w c l n in
    let v = (close no_faults disk w).1 in
    (
      stored,
      subst (HasRow registry name digest (length c))
          (sym (ap (write_meta now t (entry_of registry name digest resp v)) no_error))
          (subst
            (λ n.
              HasRow registry name digest n
                (upsert_cache_entry now t (entry_of registry name digest resp v)))
            (written-close no_faults disk w ∙ l.counted)
            (entry_of-HasRow now t registry name digest resp v named)),
      refl,
    )

module _ (avail : Bytes → ℤ) (f : OpenFaults) (disk : Disk) (s : FileStore) (t : Table) (now : ℕ)
    (registry name digest : Bytes) (resp : Response) (target : Bytes)
    (ready : IsReady avail f s registry name digest resp.content_length target)
    (fine : (resp.status == 200) ≡ true) where
  streamed :
      (carry : Response → List Chunk)
      → stream_response avail f no_faults now carry disk s t registry name digest resp
        ≡ finish_fetch no_faults now t registry name digest resp (
            relay
              (update disk f.tmp_name (some []))
              (file_writer s f.tmp_name target)
              (carry resp)
              resp.breaks)
  unfolding stream_response stream_opened
  streamed carry = rw fine (
      ap (stream_opened no_faults now t registry name digest resp (carry resp))
        (open_stream-ready avail f disk s registry name digest resp.content_length target ready))

  -- The relayed stream wrote these chunks, within the limit: they are the blob from then on, and
  -- its row says how many bytes they are.
  relayed-stored :
      (carry : Response → List Chunk) (ps : List Bytes)
      → let d = update disk f.tmp_name (some []) in
        let w = file_writer s f.tmp_name target in
        let r = relay d w (carry resp) resp.breaks in
        r.0 ≡ (write_all d w (all_full ps)).0
        → r.1 ≡ (write_all d w (all_full ps)).1
        → exceeds s.pol.max_object_size (length (concat ps)) ≡ false
        → let o = stream_response avail f no_faults now carry disk s t registry name digest resp in
          (o.0 target ≡ some (concat ps))
          × HasRow registry name digest (length (concat ps)) o.1
          × (o.2.body ≡ r.2)
  relayed-stored carry ps a b fits =
      let d = update disk f.tmp_name (some []) in
      let w = file_writer s f.tmp_name target in
      let r = relay d w (carry resp) resp.breaks in
      let q = write_all d w (all_full ps) in
      let (l, at, n) =
        written-IsLive avail f disk s registry name digest resp.content_length target ready ps
          fits in
      let l' : IsLive r.0 r.1 (concat ps) =
        subst (λ x. IsLive x r.1 (concat ps)) (sym a)
          (subst (λ x. IsLive q.0 x (concat ps)) (sym b) l) in
      let n' : same r.1.tmp_path r.1.target ≡ false =
        subst (λ x. same x.tmp_path x.target ≡ false) (sym b) n in
      let at' : r.1.target ≡ target = ap (λ x. x.target) b ∙ at in
      let (stored, row, body) =
        finished-IsLive now t registry name digest resp r.0 r.1 r.2 r.3 (concat ps) l' n'
          (named_digest s registry name digest target ready.placed) in
      rw (streamed carry) (
        subst
            (λ x. (finish_fetch no_faults now t registry name digest resp r).0 x ≡ some (concat ps))
            at' stored,
        row,
        body,
      )

  -- Chunks that both sides take whole are the blob from then on.
  pub whole-stored :
      (carry : Response → List Chunk) (ps : List Bytes)
      → carry resp ≡ map whole_chunk ps
      → exceeds s.pol.max_object_size (length (concat ps)) ≡ false
      → let o = stream_response avail f no_faults now carry disk s t registry name digest resp in
        (o.0 target ≡ some (concat ps))
        × HasRow registry name digest (length (concat ps)) o.1
        × (o.2.body ≡ concat ps)
  whole-stored carry ps whole fits =
      let d = update disk f.tmp_name (some []) in
      let w = file_writer s f.tmp_name target in
      let (a, b, c, e) = relay-whole d w ps resp.breaks in
      let (stored, row, body) =
        relayed-stored carry ps (ap (λ cs. (relay d w cs resp.breaks).0) whole ∙ a)
          (ap (λ cs. (relay d w cs resp.breaks).1) whole ∙ b) fits in
      (stored, row, body ∙ ap (λ cs. (relay d w cs resp.breaks).2) whole ∙ c)

  -- A 200 whose body both sides take whole, within the limit, where the cache's stream opens and
  -- its close meets no failure: the client gets the body, Get gives the same bytes, and the table
  -- has a row under the blob's key with their number and the blob's path.
  pub stream_response_stores :
      (carry : Response → List Chunk) (ps : List Bytes)
      → carry resp ≡ map whole_chunk ps
      → exceeds s.pol.max_object_size (length (concat ps)) ≡ false
      → let o = stream_response avail f no_faults now carry disk s t registry name digest resp in
        (o.2.body ≡ concat ps)
        × (get false false o.0 s registry name digest ≡ ok (concat ps, length (concat ps)))
        × HasRow registry name digest (length (concat ps)) o.1
  stream_response_stores carry ps whole fits =
      let (stored, row, body) = whole-stored carry ps whole fits in
      (body, get-some _ s registry name digest target (concat ps) ready.placed stored, row)

  -- A 200 whose client goes away during a chunk, where the bytes up to that chunk are within the
  -- limit, the cache's stream opens and its close meets no failure: these bytes are stored as if
  -- they were the blob, whatever the upstream had still to send, and the table has a row under the
  -- blob's key with their number and the blob's path.
  pub stream_response_keeps_part :
      (carry : Response → List Chunk) (ps : List Bytes) (n : ℕ) (p : Bytes) (rest : List Chunk)
      → carry resp ≡ map whole_chunk ps ++ lost_chunk n p ∷ rest
      → exceeds s.pol.max_object_size (length (concat (ps ++ p ∷ []))) ≡ false
      → let o = stream_response avail f no_faults now carry disk s t registry name digest resp in
        (get false false o.0 s registry name digest
          ≡ ok (concat (ps ++ p ∷ []), length (concat (ps ++ p ∷ []))))
        × HasRow registry name digest (length (concat (ps ++ p ∷ []))) o.1
  stream_response_keeps_part carry ps n p rest lost fits =
      let d = update disk f.tmp_name (some []) in
      let w = file_writer s f.tmp_name target in
      let (a, b, e) = relay-lost d w ps n p rest resp.breaks in
      let (stored, row, body) =
        relayed-stored carry (ps ++ p ∷ []) (ap (λ cs. (relay d w cs resp.breaks).0) lost ∙ a)
          (ap (λ cs. (relay d w cs resp.breaks).1) lost ∙ b) fits in
      (get-some _ s registry name digest target (concat (ps ++ p ∷ [])) ready.placed stored, row)
