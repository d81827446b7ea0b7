-- ===== src/Proxy/Pool.antt =====
-- proxy/upstream_pool.go, with NewUpstream of proxy/upstream.go. A client keeps its address, its
-- agent and its tokens.
use cncache_hub.Prelude.{ℕ, Bool, ◌||◌, Option, none, some, List, [], ◌∷◌, if◌then◌else◌, is_some}
use cncache_hub.Text.{Bytes, codes, same, is_empty, trim_right}

pub record TokenCacheEntry : Type 0 where
  pub token : Bytes
  pub expires_at : ℕ

pub record Upstream : Type 0 where
  pub base_url : Bytes
  pub ua : Bytes
  pub token_cache : List (Bytes × TokenCacheEntry)

pub record UpstreamPoolEntry : Type 0 where
  pub name : Bytes
  pub base_url : Bytes
  pub ua : Bytes

pub record PoolEntry : Type 0 where
  pub name : Bytes
  pub client : Upstream

-- The map by name, the latest entry of a name first, and the entry of dockerhub.
pub record UpstreamPool : Type 0 where
  pub upstreams : List PoolEntry
  pub default_upstream : Option PoolEntry

-- NewUpstream: url.Parse gives the scheme or fails.
unfoldable pub new_upstream : (Bytes → Option Bytes) → Bytes → Bytes → Option Upstream
new_upstream scheme_of base_url ua = if is_empty base_url then none else elim (scheme_of base_url) [
  | none ↦ none
  | some scheme ↦
      if same scheme (codes "http") || same scheme (codes "https")
      then some (record {
        base_url = trim_right base_url 47;
        ua = if is_empty ua then codes "cncachehub/dev" else ua;
        token_cache = [];
      })
      else none
]

abbrev pub dockerhub : Bytes
dockerhub = codes "dockerhub"

abbrev pub add_entry : UpstreamPool → PoolEntry → UpstreamPool
add_entry p pe = record {
  upstreams = pe ∷ p.upstreams;
  default_upstream = if same pe.name dockerhub then some pe else p.default_upstream;
}

unfoldable pub add_entries :
    (Bytes → Option Bytes) → UpstreamPool → List UpstreamPoolEntry → Option UpstreamPool
unfolding new_upstream
add_entries scheme_of p [] = some p
add_entries scheme_of p (e ∷ es) = elim (new_upstream scheme_of e.base_url e.ua) [
  | none ↦ none
  | some u ↦ add_entries scheme_of (add_entry p (record { name = e.name; client = u })) es
]

-- NewUpstreamPool: one entry that is refused refuses them all.
unfoldable pub new_upstream_pool :
    (Bytes → Option Bytes) → List UpstreamPoolEntry → Option UpstreamPool
unfolding add_entries
new_upstream_pool scheme_of entries =
    add_entries scheme_of (record { upstreams = []; default_upstream = none }) entries

unfoldable pub find_entry : Bytes → List PoolEntry → Option PoolEntry
find_entry name [] = none
find_entry name (e ∷ es) = if same e.name name then some e else find_entry name es

-- resolveUpstream
unfoldable pub resolve_upstream : UpstreamPool → Bytes → Option PoolEntry
unfolding find_entry
resolve_upstream p first_segment = elim (find_entry first_segment p.upstreams) [
  | some e ↦ some e
  | none ↦ p.default_upstream
]

-- hasUpstream
unfoldable pub has_upstream : UpstreamPool → Bytes → Bool
unfolding find_entry
has_upstream p first_segment = is_some (find_entry first_segment p.upstreams)
