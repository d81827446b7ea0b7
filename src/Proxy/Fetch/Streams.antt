-- ===== src/Proxy/Fetch/Streams.antt =====
-- What the client and the cache get of a body that is relayed to both.
use cncache_hub.Prelude.{
  ℕ, ◌≡◌, refl, ap, Bool, true, List, [], ◌∷◌, ◌++◌, map, Bool-cases, inl, inr,
}
use cncache_hub.Text.{Bytes}
use cncache_hub.Cache.Disk.{Disk}
use cncache_hub.Cache.Stream.{Writer, full, short, taken, write, write_all}
use cncache_hub.Cache.Stream.Writes.{concat, all_full}
use cncache_hub.Proxy.Fetch.{Chunk, multi_write, relay, relay_client, client_fails}

-- The client's side does not depend on the disk, the cache's stream or what its writes come to.
pub relay-client :
    (disk : Disk) (w : Writer) (cs : List Chunk) (breaks : Bool)
    → ((relay disk w cs breaks).2 ≡ (relay_client cs breaks).0)
      × ((relay disk w cs breaks).3 ≡ (relay_client cs breaks).1)
unfolding relay relay_client multi_write
relay-client disk w [] breaks = (refl, refl)
relay-client disk w (c ∷ cs) breaks =
    let (d, v, sent, failed) = multi_write disk w c in
    let (a, b) = relay-client d v cs breaks in
    elim (Bool-cases (client_fails c.to_client)) [
      | inl e ↦ rw e (refl, refl)
      | inr e ↦ rw e (ap (λ x. taken c.to_client c.bytes ++ x) a, b)
    ]

-- Chunks that both take whole, and one whose write to the client fails.
abbrev pub whole_chunk : Bytes → Chunk
whole_chunk p = record { bytes = p; to_client = full; to_cache = full }

abbrev pub lost_chunk : ℕ → Bytes → Chunk
lost_chunk n p = record { bytes = p; to_client = short n; to_cache = full }

pub relay-whole :
    (disk : Disk) (w : Writer) (ps : List Bytes) (breaks : Bool)
    → ((relay disk w (map whole_chunk ps) breaks).0 ≡ (write_all disk w (all_full ps)).0)
      × ((relay disk w (map whole_chunk ps) breaks).1 ≡ (write_all disk w (all_full ps)).1)
      × ((relay disk w (map whole_chunk ps) breaks).2 ≡ concat ps)
      × ((relay disk w (map whole_chunk ps) breaks).3 ≡ breaks)
unfolding relay multi_write write_all
relay-whole disk w [] breaks = (refl, refl, refl, refl)
relay-whole disk w (p ∷ ps) breaks =
    let (d, v, n, e) = write full disk w p in
    let (a, b, c, f) = relay-whole d v ps breaks in (a, b, ap (λ x. p ++ x) c, f)

-- What the client gets of chunks that it takes whole.
pub relay_client-whole :
    (ps : List Bytes) (breaks : Bool) → (relay_client (map whole_chunk ps) breaks).0 ≡ concat ps
unfolding relay_client
relay_client-whole [] breaks = refl
relay_client-whole (p ∷ ps) breaks = ap (λ x. p ++ x) (relay_client-whole ps breaks)

-- A client that goes away during a chunk: the cache has that chunk and none after it.
pub relay-lost :
    (disk : Disk) (w : Writer) (ps : List Bytes) (n : ℕ) (p : Bytes) (rest : List Chunk)
    (breaks : Bool)
    → let r = relay disk w (map whole_chunk ps ++ lost_chunk n p ∷ rest) breaks in
      (r.0 ≡ (write_all disk w (all_full (ps ++ p ∷ []))).0)
      × (r.1 ≡ (write_all disk w (all_full (ps ++ p ∷ []))).1)
      × (r.3 ≡ true)
unfolding relay multi_write write_all
relay-lost disk w [] n p rest breaks = (refl, refl, refl)
relay-lost disk w (q ∷ ps) n p rest breaks =
    let (d, v, k, e) = write full disk w q in relay-lost d v ps n p rest breaks
