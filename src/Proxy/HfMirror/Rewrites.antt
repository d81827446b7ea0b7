-- ===== src/Proxy/HfMirror/Rewrites.antt =====
-- What the mirror asks the resource proxy for.
use cncache_hub.Prelude.{
  ◌≡◌, refl, ap, ap₂, any, ◌∙◌, subst, Bool, true, false, not, ◌&&◌, none, some, List, [], ◌∷◌,
  ◌++◌, if◌then◌else◌, Bool-cases, inl, inr, arith,
}
use mathlib.Core.Option.{some-injective}
use cncache_hub.Text.{Bytes, codes, same, is_empty, split, join, has_prefix, trim_prefix}
use cncache_hub.Text.Equality.{same→≡}
use cncache_hub.Text.Pieces.{Lacks, join-split, split-append, split-append-Lacks}
use cncache_hub.Cache.Disk.{Disk}
use cncache_hub.Storage.Resources.{Resources}
use cncache_hub.Proxy.Headers.{Headers}
use cncache_hub.Proxy.Resource.{ResourceHandler, ResourceRequest, ResourceWorld, http_error}
use cncache_hub.Proxy.Resource.Handler.{serve_resource}
use cncache_hub.Proxy.HfMirror.{
  has_path_traversal, answered, passed_to_api, api_headers, mirror_file, mirror_rest, serve_mirror,
  is_dot_dot, ResolvedFile, is_line, resolve_parts, file_resolve, internal_path,
}

resolve_parts-path :
    (parts : List Bytes) (f : ResolvedFile)
    → resolve_parts parts ≡ some f
    → internal_path f ≡ codes "/r/huggingface-models/" ++ join parts 47
unfolding resolve_parts internal_path join
resolve_parts-path [] f h = cc
resolve_parts-path (a ∷ []) f h = cc
resolve_parts-path (a ∷ b ∷ []) f h = cc
resolve_parts-path (a ∷ b ∷ c ∷ []) f h = cc
resolve_parts-path (a ∷ b ∷ c ∷ d ∷ []) f h = cc
resolve_parts-path (a ∷ b ∷ c ∷ d ∷ e ∷ rest) f h =
    elim (Bool-cases (
      not (is_empty a)
      && not (is_empty b)
      && same c (codes "resolve")
      && not (is_empty d)
      && is_line (join (e ∷ rest) 47))) [
        | inr n ↦ let q : none ≡ some f = rw n at h in cc
        | inl y ↦
            let made : ResolvedFile = record {
              org = a;
              name = b;
              rev = d;
              file = join (e ∷ rest) 47;
            } in
            let q : some made ≡ some f = rw y at h in
            let word : same c (codes "resolve") ≡ true = ground arith in
            subst
              (λ x.
                internal_path x
                ≡ codes "/r/huggingface-models/" ++ join (a ∷ b ∷ c ∷ d ∷ e ∷ rest) 47)
              (some-injective made f q) (rw (same→≡ c (codes "resolve") word) refl)
      ]

file_resolve-path :
    (rest : Bytes) (f : ResolvedFile)
    → file_resolve rest ≡ some f
    → internal_path f ≡ codes "/r/huggingface-models/" ++ rest
unfolding file_resolve
file_resolve-path rest f h =
    resolve_parts-path (split rest 47) f h
    ∙ ap (λ s. codes "/r/huggingface-models/" ++ s) (join-split 47 rest)

-- A file's path under /hf/, without a part `..`: the mirror answers as the resource proxy answers the
-- same path under the rule huggingface-models, and leaves the same disk and tables.
pub serve_mirror_lem :
    (w : ResourceWorld) (h : ResourceHandler) (disk : Disk) (db : Resources) (r : ResourceRequest)
    (headers : Headers) (rest : Bytes) (f : ResolvedFile)
    → has_path_traversal rest ≡ false
    → has_prefix rest (codes "api/") ≡ false
    → file_resolve rest ≡ some f
    → serve_mirror w h disk db (record r { path = codes "/hf/" ++ rest }) headers ≡ (
        let s =
          serve_resource w h disk db (record r { path = codes "/r/huggingface-models/" ++ rest }) in
        (s.0, s.1, answered s.2))
unfolding serve_mirror mirror_rest mirror_file trim_prefix has_prefix
serve_mirror_lem w h disk db r headers rest f safe file found =
    let run = λ (p : Bytes). serve_resource w h disk db (record r { path = p }) in
    let at = record r { path = codes "/hf/" ++ rest } in
    ap₂
      (λ a b.
        if a
        then (disk, db, answered (http_error (codes "path traversal not allowed") 400))
        else if b
        then (disk, db, passed_to_api (47 ∷ rest) (api_headers w.huggingface_token headers))
        else mirror_file w h disk db at (file_resolve rest))
      safe file
    ∙ ap (mirror_file w h disk db at) found
    ∙ ap (λ p. ((run p).0, (run p).1, answered (run p).2)) (file_resolve-path rest f found)

any-append {ℓ} :
    {A : Type ℓ} (p : A → Bool) (xs ys : List A) → any p ys ≡ true → any p (xs ++ ys) ≡ true
any-append p [] ys h = h
any-append p (x ∷ xs) ys h = ground (arith, any-append p xs ys h)

dots_no_slash : Lacks 47 (codes "..")
dots_no_slash = omega arith

-- A path under /hf/ with a part `..` between two slashes is refused, and nothing changes.
serve_mirror_traversal :
    (w : ResourceWorld) (h : ResourceHandler) (disk : Disk) (db : Resources) (r : ResourceRequest)
    (headers : Headers) (front back : Bytes)
    → serve_mirror w h disk db
        (record r { path = codes "/hf/" ++ (front ++ 47 ∷ (codes ".." ++ 47 ∷ back)) })
        headers
      ≡ (disk, db, answered (http_error (codes "path traversal not allowed") 400))
unfolding serve_mirror mirror_rest trim_prefix has_prefix has_path_traversal same
serve_mirror_traversal w h disk db r headers front back =
    let rest = front ++ 47 ∷ (codes ".." ++ 47 ∷ back) in
    let parts : split rest 47 ≡ split front 47 ++ (codes ".." ∷ split back 47) =
      split-append 47 front (codes ".." ++ 47 ∷ back)
      ∙ ap (λ x. split front 47 ++ x) (split-append-Lacks 47 (codes "..") back dots_no_slash) in
    let seen : has_path_traversal rest ≡ true =
      ap (any is_dot_dot) parts
      ∙ any-append is_dot_dot (split front 47) (codes ".." ∷ split back 47) refl in
    let at = record r { path = codes "/hf/" ++ rest } in
    ap
      (λ a.
        if a
        then (disk, db, answered (http_error (codes "path traversal not allowed") 400))
        else if has_prefix rest (codes "api/")
        then (disk, db, passed_to_api (47 ∷ rest) (api_headers w.huggingface_token headers))
        else mirror_file w h disk db at (file_resolve rest))
      seen
