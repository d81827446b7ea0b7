-- ===== src/Proxy/HfMirror.antt =====
-- proxy/hf_mirror.go: the mirror of Hugging Face under /hf/, which hands its files to the resource
-- proxy and its API to the site.
pub mod Rewrites
use cncache_hub.Prelude.{
  ℕ, Bool, true, false, not, ◌&&◌, ◌||◌, Option, none, some, List, [], ◌∷◌, ◌++◌, if◌then◌else◌,
  ◌==◌, any,
}
use cncache_hub.Text.{
  Bytes, codes, same, is_empty, has_prefix, trim_prefix, trim_space, split, join,
}
use cncache_hub.Cache.Disk.{Disk}
use cncache_hub.Storage.Resources.{Resources}
use cncache_hub.Proxy.Headers.{Headers, one_of}
use cncache_hub.Proxy.Resource.{ResourceHandler, ResourceRequest, ResourceWorld, Served, http_error}
use cncache_hub.Proxy.Resource.Handler.{serve_resource}

abbrev pub is_dot_dot : Bytes → Bool
is_dot_dot s = same s (codes "..")

-- hasPathTraversal
unfoldable pub has_path_traversal : Bytes → Bool
unfolding split
has_path_traversal path = any is_dot_dot (split path 47)

pub record ResolvedFile : Type 0 where
  pub org : Bytes
  pub name : Bytes
  pub rev : Bytes
  pub file : Bytes

-- `.` of the expression takes any byte but a line feed.
abbrev pub is_line : Bytes → Bool
is_line s = not (is_empty s) && not (any (λ c. c == 10) s)

-- fileResolveRegex on the parts of the path: the first four are those between the slashes.
unfoldable pub resolve_parts : List Bytes → Option ResolvedFile
resolve_parts [] = none
resolve_parts (a ∷ []) = none
resolve_parts (a ∷ b ∷ []) = none
resolve_parts (a ∷ b ∷ c ∷ []) = none
resolve_parts (a ∷ b ∷ c ∷ d ∷ []) = none
resolve_parts (a ∷ b ∷ c ∷ d ∷ e ∷ rest) =
    if not (is_empty a)
      && not (is_empty b)
      && same c (codes "resolve")
      && not (is_empty d)
      && is_line (join (e ∷ rest) 47)
    then some (record { org = a; name = b; rev = d; file = join (e ∷ rest) 47 })
    else none

unfoldable pub file_resolve : Bytes → Option ResolvedFile
unfolding resolve_parts split
file_resolve rest = resolve_parts (split rest 47)

-- The path that serveFileRewrite asks the resource proxy for.
unfoldable pub internal_path : ResolvedFile → Bytes
internal_path f =
    codes "/r/huggingface-models/"
    ++ (f.org ++ (47 ∷ (f.name ++ (47 ∷ (codes "resolve" ++ (47 ∷ (f.rev ++ (47 ∷ f.file))))))))

-- The headers that stripProxyHeaders deletes.
abbrev pub stripped : List Bytes
stripped =
    codes "X-Forwarded-For"
    ∷ codes "X-Forwarded-Proto"
    ∷ codes "X-Forwarded-Host"
    ∷ codes "X-Forwarded-Port"
    ∷ codes "X-Forwarded-Scheme"
    ∷ codes "X-Real-IP"
    ∷ codes "X-Real-Ip"
    ∷ codes "Forwarded"
    ∷ codes "Client-Ip"
    ∷ codes "Cf-Connecting-Ip"
    ∷ codes "True-Client-Ip"
    ∷ codes "Fastly-Client-Ip"
    ∷ codes "X-Client-Ip"
    ∷ codes "X-Original-Forwarded-For"
    ∷ []

unfoldable pub strip_proxy_headers : Headers → Headers
strip_proxy_headers [] = []
strip_proxy_headers ((k, vs) ∷ rest) =
    let kept = strip_proxy_headers rest in if one_of stripped k then kept else (k, vs) ∷ kept

unfoldable pub without : Bytes → Headers → Headers
without name [] = []
without name ((k, vs) ∷ rest) =
    let kept = without name rest in if same k name then kept else (k, vs) ∷ kept

-- The headers of a request to the API, on top of those that net/http/httputil leaves: the token of
-- the settings takes the place of an Authorization.
unfoldable pub api_headers : Option Bytes → Headers → Headers
unfolding strip_proxy_headers without trim_space
api_headers token headers =
    let kept = strip_proxy_headers headers in
    elim token [
      | none ↦ kept
      | some t ↦
          if is_empty (trim_space t)
          then kept
          else (codes "Authorization", (codes "Bearer " ++ trim_space t) ∷ [])
            ∷ without (codes "Authorization") kept
    ]

-- A request that goes to the site as it is, or an answer.
pub data Mirrored : Type 0 where
  passed_to_api : Bytes → Headers → Mirrored
  answered : Served → Mirrored

abbrev pub not_found : Served
not_found = http_error (codes "404 page not found") 404

-- serveFileRewrite, or no file at all.
unfoldable pub mirror_file :
    ResourceWorld
    → ResourceHandler
    → Disk
    → Resources
    → ResourceRequest
    → Option ResolvedFile
    → Disk × Resources × Mirrored
unfolding internal_path serve_resource
mirror_file w h disk db r none = (disk, db, answered not_found)
mirror_file w h disk db r (some f) =
    let s = serve_resource w h disk db (record r { path = internal_path f }) in
    (s.0, s.1, answered s.2)

-- ServeHTTP
unfoldable pub mirror_rest :
    ResourceWorld
    → ResourceHandler
    → Disk
    → Resources
    → ResourceRequest
    → Headers
    → Bytes
    → Disk × Resources × Mirrored
unfolding has_path_traversal file_resolve mirror_file api_headers
mirror_rest w h disk db r headers rest =
    if has_path_traversal rest
    then (disk, db, answered (http_error (codes "path traversal not allowed") 400))
    else if has_prefix rest (codes "api/")
    then (disk, db, passed_to_api (47 ∷ rest) (api_headers w.huggingface_token headers))
    else mirror_file w h disk db r (file_resolve rest)

unfoldable pub serve_mirror :
    ResourceWorld
    → ResourceHandler
    → Disk
    → Resources
    → ResourceRequest
    → Headers
    → Disk × Resources × Mirrored
unfolding mirror_rest trim_prefix
serve_mirror w h disk db r headers =
    if has_prefix r.path (codes "/hf/")
    then mirror_rest w h disk db r headers (trim_prefix r.path (codes "/hf/"))
    else (disk, db, answered not_found)
