-- ===== src/Tests/ResourceRuns.antt =====
-- The resource proxy and the mirror at concrete inputs.
use cncache_hub.Prelude.{◌≡◌, refl, true, false, none, some, [], ◌∷◌, leb, map, arith}
use cncache_hub.Prelude.Int.{pos}
use cncache_hub.Text.{Bytes, codes, same, to_lower, trim_prefix, split, has_prefix, join}
use cncache_hub.Cache.Disk.{Disk}
use cncache_hub.Cache.Stream.{full}
use cncache_hub.Cache.Stream.Writes.{concat}
use cncache_hub.Proxy.Fetch.Streams.{whole_chunk}
use cncache_hub.Storage.Resources.{
  ResourceRule, ResourceCacheEntry, Resources, get_resource_rule_by_name, get_resource_cache_entry,
}
use cncache_hub.Storage.Rules.{match_path}
use cncache_hub.Proxy.Resource.{
  ResourceHandler, ResourceRequest, ResourceResponse, ResourceWorld, hit, bypassed,
  has_sensitive_query,
}
use cncache_hub.Proxy.Resource.Download.{miss_answer, final_path}
use cncache_hub.Proxy.Resource.Handler.{serve_resource, rule_name_of, rest_path_of}
use cncache_hub.Proxy.Resource.Serving.{Asks, serve_resource_blocked, serve_resource_unchecked}
use cncache_hub.Proxy.Resource.Twice.{serve_resource_twice}
use cncache_hub.Proxy.HfMirror.{
  answered, serve_mirror, has_path_traversal, file_resolve, resolve_parts,
}
use cncache_hub.Proxy.HfMirror.Rewrites.{serve_mirror_lem}

abbrev debian : ResourceRule
debian = record {
  id = 1;
  name = codes "deb";
  kind = codes "generic";
  upstream_url = codes "https://d/";
  path_pattern = codes "*";
  default_ttl_seconds = pos 60;
  enabled = true;
  description = [];
  created_at = 5;
  updated_at = 5;
}

abbrev tables : Resources
tables = record { rules = debian ∷ []; next_rule_id = 2; entries = []; next_entry_id = 1 }

abbrev off : Resources
off = record tables { rules = (record debian { enabled = false }) ∷ [] }

abbrev handler : ResourceHandler
handler = record { root_dir = codes "/c"; max_object_size = pos 0 }

abbrev nothing : Disk
nothing q = none

abbrev ask : ResourceRequest
ask = record {
  path = codes "/r/deb/a";
  raw_query = [];
  user_agent = codes "u";
  range = codes "bytes=0-1";
}

abbrev ask_signed : ResourceRequest
ask_signed = record ask { raw_query = codes "sig=1" }

abbrev partial : ResourceResponse
partial = record {
  status = 206;
  content_type = codes "t";
  content_length = pos 3;
  chunks = map whole_chunk ((1 ∷ 2 ∷ []) ∷ (3 ∷ []) ∷ []);
  breaks = false;
}

abbrev world : ResourceWorld
world = record {
  now = 50;
  stored_at = 51;
  sha256 = λ p. p;
  regex_match = λ p s. true;
  parse_query = λ q. some (codes "Sig" ∷ []);
  builds = λ u. true;
  send = λ r. some partial;
  huggingface_token = none;
  temp_name = some (codes "tmp");
  rename_fails = false;
  open_fails = false;
  stat_fails = false;
  read_file = full;
}

abbrev silent : ResourceWorld
silent = record world { now = 90; send = λ r. none }

abbrev rest : Bytes
rest = codes "a"

asked : Asks ask (codes "deb") rest
unfolding rule_name_of rest_path_of trim_prefix same
asked = record { under_r = refl; names = refl; leaves = refl; given = refl }

asked_signed : Asks ask_signed (codes "deb") rest
unfolding rule_name_of rest_path_of trim_prefix same
asked_signed = record { under_r = refl; names = refl; leaves = refl; given = refl }

serve_resource_twice_example :
    let a = serve_resource world handler nothing tables ask in
    let b = serve_resource silent handler a.0 a.1 ask in
    (a.2 ≡ miss_answer partial (concat ((1 ∷ 2 ∷ []) ∷ (3 ∷ []) ∷ [])))
    × (b.2 ≡ record {
      status = 200;
      content_type = codes "t";
      content_length = some (pos 3);
      mark = hit;
      body = 1 ∷ 2 ∷ 3 ∷ [];
    })
    × (b.0 ≡ a.0)
unfolding has_sensitive_query get_resource_rule_by_name match_path get_resource_cache_entry
    final_path same
serve_resource_twice_example =
    serve_resource_twice world silent handler nothing tables ask ask (codes "deb") rest
      (codes "tmp") debian partial ((1 ∷ 2 ∷ []) ∷ (3 ∷ []) ∷ []) asked asked refl refl refl refl
      refl refl refl refl refl refl refl refl refl refl refl refl (omega arith) refl refl refl

serve_resource_blocked_example :
    let a = serve_resource world handler nothing off ask in
    (a.0 ≡ nothing)
    × (a.1 ≡ off)
    × (leb 400 a.2.status ≡ true)
    × (serve_resource (record world { send = λ r. none }) handler nothing off ask ≡ a)
unfolding has_sensitive_query get_resource_rule_by_name same
serve_resource_blocked_example =
    serve_resource_blocked world handler nothing off ask (codes "deb") rest (λ r. none) asked refl
      refl

serve_resource_unchecked_example :
    let a = serve_resource world handler nothing off ask_signed in
    (a.0 ≡ nothing)
    × (a.1 ≡ off)
    × (a.2.status ≡ 206)
    × (a.2.content_type ≡ codes "t")
    × (a.2.mark ≡ bypassed (codes "sensitive_query"))
    × (a.2.body ≡ 1 ∷ 2 ∷ 3 ∷ [])
unfolding has_sensitive_query get_resource_rule_by_name same to_lower
serve_resource_unchecked_example =
    serve_resource_unchecked world handler nothing off ask_signed (codes "deb") rest
      (record debian { enabled = false }) partial ((1 ∷ 2 ∷ []) ∷ (3 ∷ []) ∷ []) asked_signed refl
      refl refl refl refl

abbrev fedora : ResourceRule
fedora = record debian {
  id = 2;
  name = codes "fed";
  upstream_url = codes "https://d";
  created_at = 7;
  updated_at = 7;
}

abbrev cached : ResourceCacheEntry
cached = record {
  id = 1;
  rule_id = 1;
  path = rest;
  size_bytes = 3;
  hit_count = 0;
  last_access_at = 5;
  expires_at = 60;
  content_type = [];
  storage_path = codes "/c/a";
  created_at = 5;
  updated_at = 5;
}

abbrev ask_mirror : Bytes → ResourceRequest
ask_mirror path = record ask { path = path }

serve_mirror_lem_example :
    serve_mirror world handler nothing tables (ask_mirror (codes "/hf/o/n/resolve/main/f")) [] ≡ (
      let s =
        serve_resource world handler nothing tables
          (ask_mirror (codes "/r/huggingface-models/o/n/resolve/main/f")) in
      (s.0, s.1, answered s.2))
unfolding has_path_traversal file_resolve resolve_parts split has_prefix same join
serve_mirror_lem_example =
    serve_mirror_lem world handler nothing tables ask [] (codes "o/n/resolve/main/f")
      (record { org = codes "o"; name = codes "n"; rev = codes "main"; file = codes "f" }) refl refl
      refl
