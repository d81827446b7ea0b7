-- ===== src/Preheat/Image/Hosts.antt =====
-- The host of an image's registry on its way through splitDockerImage and the proxy.
use cncache_hub.Prelude.{
  ℕ, suc, ◌+◌, ◌≡◌, refl, ap, ap₂, ◌∙◌, true, false, Option, none, some, [], ◌∷◌, ◌++◌,
  if◌then◌else◌, take, drop, length, take-append, drop-append, arith, append_assoc, ◌==◌,
}
use cncache_hub.Text.{Bytes, codes, same, is_empty, index, trim_space, contains_any}
use cncache_hub.Text.Pieces.{Lacks}
use cncache_hub.Proxy.Pool.{UpstreamPool, has_upstream}
use cncache_hub.Proxy.Route.{manifests, route, kind_of, cut_inside, upstream_path, library_rewrite}
use cncache_hub.Preheat.Image.{
  Image, split_docker_image, image_of, is_host, registry_name_from_host, manifest_path,
  docker_path_for, dockerhub,
}
use cncache_hub.Preheat.Image.Paths.{split_docker_image-tag, infer-host, route_under}

drop_both : (n sep tag : Bytes) → drop (length n + length sep) (n ++ (sep ++ tag)) ≡ tag
drop_both [] sep tag =
    let e : 0 + length sep ≡ length sep = omega arith in rw e (drop-append sep tag)
drop_both (c ∷ n) sep tag =
    let e : suc (length n) + length sep ≡ suc (length n + length sep) = omega arith in
    rw e (drop_both n sep tag)

abbrev cut_at : Bytes → Bytes → Option ℕ → Option (Bytes × Bytes)
cut_at rest sep o = elim o [
  | none ↦ none
  | some i ↦ if i == 0 then none else some (take i rest, drop (i + length sep) rest)
]

cut_inside-first :
    (c : ℕ) (n sep tag : Bytes)
    → index ((c ∷ n) ++ (sep ++ tag)) sep ≡ some (length (c ∷ n))
    → cut_inside ((c ∷ n) ++ (sep ++ tag)) sep ≡ some (c ∷ n, tag)
unfolding cut_inside
cut_inside-first c n sep tag h =
    let nonzero : (suc (length n) == 0) ≡ false = ground arith in
    let whole = (c ∷ n) ++ (sep ++ tag) in
    ap (λ o. cut_at whole sep o) h
    ∙ rw nonzero
        (ap₂ (λ a b. some (a, b)) (take-append (c ∷ n) (sep ++ tag)) (drop_both (c ∷ n) sep tag))

contains_any-slash : (p q : Bytes) → contains_any (p ++ b'/' ∷ q) (codes "/") ≡ true
unfolding contains_any
contains_any-slash [] q = ground arith
contains_any-slash (c ∷ p) q = ground (arith, contains_any-slash p q)

library_rewrite-slash :
    (c : ℕ) (p q : Bytes) → library_rewrite ((c ∷ p) ++ b'/' ∷ q) ≡ (c ∷ p) ++ b'/' ∷ q
unfolding library_rewrite
library_rewrite-slash c p q = rw (contains_any-slash (c ∷ p) q) refl

manifest_path-under :
    (registry name tag : Bytes)
    → same registry dockerhub ≡ false
    → manifest_path (record { registry = registry; name = name; ref = tag })
      ≡ codes "/v2/" ++ registry ++ b'/' ∷ (name ++ (codes "/manifests/" ++ tag))
unfolding manifest_path docker_path_for
manifest_path-under registry name tag n = rw (manifest_path, n) (simp append_assoc)

module _ (pool : UpstreamPool) (c : ℕ) (host path tag registry : Bytes)
    (trimmed : trim_space (((c ∷ host) ++ b'/' ∷ path) ++ b':' ∷ tag)
      ≡ ((c ∷ host) ++ b'/' ∷ path) ++ b':' ∷ tag)
    (no_at : Lacks b'@' (((c ∷ host) ++ b'/' ∷ path) ++ b':' ∷ tag)) (no_colon : Lacks b':' tag)
    (no_slash : Lacks b'/' tag) (one_part : Lacks b'/' (c ∷ host))
    (hosts : is_host (c ∷ host) ≡ true) (named : registry_name_from_host (c ∷ host) ≡ registry)
    (filled : is_empty registry ≡ false) (whole : Lacks b'/' registry)
    (other : same registry dockerhub ≡ false) (known : has_upstream pool registry ≡ true)
    (first : index
        (((c ∷ host) ++ b'/' ∷ path) ++ (codes "/manifests/" ++ tag))
        (codes "/manifests/")
      ≡ some (length ((c ∷ host) ++ b'/' ∷ path))) where
  -- An image host/path:tag of a registry other than Docker Hub that the pool has under the host's
  -- name: the task splits it off with its host still in its name, and the path it asks this proxy
  -- for is sent to the upstream with the host as the first part of the repository.
  pub preheat_keeps_host :
      let name = (c ∷ host) ++ b'/' ∷ path in
      let image : Image = record { registry = registry; name = name; ref = tag } in
      (split_docker_image (name ++ b':' ∷ tag) ≡ some image)
      × (route pool (manifest_path image) ≡ manifests registry name tag)
      × (upstream_path (route pool (manifest_path image))
          ≡ codes "/v2/" ++ name ++ codes "/manifests/" ++ tag)
  unfolding upstream_path image_of
  preheat_keeps_host =
      let name = (c ∷ host) ++ b'/' ∷ path in
      let routed =
        ap (route pool) (manifest_path-under registry name tag other)
        ∙ route_under pool registry (name ++ (codes "/manifests/" ++ tag)) whole filled known
        ∙ ap (kind_of registry (name ++ (codes "/manifests/" ++ tag)))
            (cut_inside-first c (host ++ b'/' ∷ path) (codes "/manifests/") tag first)
        ∙ ap (λ n. manifests registry n tag) (library_rewrite-slash c host path) in
      (
        split_docker_image-tag name tag trimmed no_at refl no_colon no_slash
            ∙ ap (image_of tag) (infer-host (c ∷ host) path one_part hosts)
            ∙ ap (λ x. image_of tag (x, name)) named
            ∙ rw filled refl,
        routed,
        ap upstream_path routed,
      )
