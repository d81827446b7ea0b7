-- ===== src/Proxy/Resource.antt =====
-- proxy/resource.go: files of other sites under /r/<rule>/<path>, kept on disk until they expire. The
-- network, the kernel, the clock, SHA-256 and net/url answer through a ResourceWorld.
pub mod Download
pub mod Handler
pub mod Serving
pub mod Twice
use cncache_hub.Prelude.{
  ℕ, suc, ◌+◌, ◌/◌, ◌%◌, Bool, true, false, not, ◌&&◌, ◌||◌, Option, none, some, List, [], ◌∷◌,
  ◌++◌, if◌then◌else◌, length, ◌==◌, ltb, leb, take, drop, any,
}
use cncache_hub.Prelude.Int.{ℤ, pos, negsuc, pos_part, lt_ℤ}
use cncache_hub.Text.{
  Bytes, codes, same, is_empty, index_byte, trim_prefix, trim_right, trim_space, to_lower,
}
use cncache_hub.FilePath.{clean, join_path}
use cncache_hub.Cache.Disk.{Disk, update, remove, rename}
use cncache_hub.Cache.Stream.{WriteOutcome, full, short, taken}
use cncache_hub.Storage.Rules.{match_path}
use cncache_hub.Storage.Resources.{
  ResourceRule, ResourceCacheEntry, Resources, get_resource_rule_by_name, get_resource_cache_entry,
  upsert_resource_cache_entry, bump_resource_cache_hit,
}
use cncache_hub.Proxy.Fetch.{Chunk, relay_client}
use cncache_hub.Proxy.Route.{itoa}

-- ResourceHandler, as far as it is looked at.
pub record ResourceHandler : Type 0 where
  pub root_dir : Bytes
  pub max_object_size : ℤ

pub record ResourceRequest : Type 0 where
  pub path : Bytes
  pub raw_query : Bytes
  pub user_agent : Bytes
  pub range : Bytes

-- A request to an upstream; an empty header is not set.
pub record UpstreamRequest : Type 0 where
  pub url : Bytes
  pub user_agent : Bytes
  pub range : Bytes
  pub authorization : Bytes

pub record ResourceResponse : Type 0 where
  pub status : ℕ
  pub content_type : Bytes
  pub content_length : ℤ
  pub chunks : List Chunk
  pub breaks : Bool

pub record ResourceWorld : Type 0 where
  pub now : ℕ
  pub stored_at : ℕ
  pub sha256 : Bytes → Bytes
  pub regex_match : Bytes → Bytes → Bool
  pub parse_query : Bytes → Option (List Bytes)
  pub builds : Bytes → Bool
  pub send : UpstreamRequest → Option ResourceResponse
  pub huggingface_token : Option Bytes
  pub temp_name : Option Bytes
  pub rename_fails : Bool
  pub open_fails : Bool
  pub stat_fails : Bool
  pub read_file : WriteOutcome

-- The headers X-CNCacheHub-Cache and X-CNCacheHub-Bypass of an answer.
pub data CacheMark : Type 0 where
  unmarked hit miss : CacheMark
  bypassed : Bytes → CacheMark
  bypass_only : Bytes → CacheMark

pub record Served : Type 0 where
  pub status : ℕ
  pub content_type : Bytes
  pub content_length : Option ℤ
  pub mark : CacheMark
  pub body : Bytes

-- http.Error
abbrev pub http_error : Bytes → ℕ → Served
http_error text status = record {
  status = status;
  content_type = codes "text/plain; charset=utf-8";
  content_length = none;
  mark = unmarked;
  body = text ++ 10 ∷ [];
}

abbrev pub hex_digit : ℕ → ℕ
hex_digit n = if ltb n 10 then 48 + n else 87 + n

-- hex.EncodeToString
unfoldable pub hex : Bytes → Bytes
hex [] = []
hex (b ∷ bs) = hex_digit (b / 16) ∷ hex_digit (b % 16) ∷ hex bs

-- pathDigest
unfoldable pub path_digest : ResourceWorld → Bytes → Bytes
unfolding hex
path_digest w p = hex (take 16 (w.sha256 p))

abbrev pub sensitive : List Bytes
sensitive =
    codes "token"
    ∷ codes "signature"
    ∷ codes "sig"
    ∷ codes "session"
    ∷ codes "auth"
    ∷ codes "key"
    ∷ codes "secret"
    ∷ codes "password"
    ∷ []

abbrev pub is_sensitive : Bytes → Bool
is_sensitive k = any (λ s. same s (to_lower k)) sensitive

-- hasSensitiveQuery
unfoldable pub has_sensitive_query : ResourceWorld → Bytes → Bool
has_sensitive_query w raw =
    if is_empty raw
    then false
    else elim (w.parse_query raw) [ none ↦ true | some keys ↦ any is_sensitive keys ]

-- The URL of a path at the upstream of a rule, with the query.
unfoldable pub upstream_url_for : ResourceRule → Bytes → Bytes → Bytes
unfolding trim_right
upstream_url_for rule rest raw =
    trim_right rule.upstream_url 47
    ++ codes "/"
    ++ rest
    ++ (if is_empty raw then [] else codes "?" ++ raw)

-- The token that goes along to Hugging Face.
unfoldable pub authorization_for : ResourceWorld → ResourceRule → Bytes
unfolding trim_space
authorization_for w rule =
    if same rule.kind (codes "huggingface_models")
    then elim w.huggingface_token [
      | none ↦ []
      | some t ↦ if is_empty (trim_space t) then [] else codes "Bearer " ++ trim_space t
    ]
    else []

unfoldable pub request_for :
    ResourceWorld → ResourceRule → Bytes → ResourceRequest → UpstreamRequest
unfolding upstream_url_for authorization_for
request_for w rule rest r = record {
  url = upstream_url_for rule rest r.raw_query;
  user_agent = if is_empty r.user_agent then codes "cncachehub/1.0" else r.user_agent;
  range = r.range;
  authorization = authorization_for w rule;
}
