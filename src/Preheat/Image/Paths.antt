-- ===== src/Preheat/Image/Paths.antt =====
-- What splitDockerImage makes of an image with a tag, and what the proxy makes of the path.
use cncache_hub.Prelude.{
  ℕ, suc, ◌≢◌, ◌≡◌, refl, ap, ap₂, ◌∙◌, true, false, none, some, [], ◌∷◌, ◌++◌, if◌then◌else◌, ltb,
  drop, length, take-append, drop-append, arith, ◌==◌,
}
use cncache_hub.Text.{
  Bytes, codes, same, is_empty, contains, index_byte, trim_space, trim_prefix, has_prefix,
}
use cncache_hub.Text.Pieces.{Lacks}
use cncache_hub.Text.Search.{
  index_byte-Lacks, index_byte-first, last_index_byte-last, contains-Lacks, drop_past, index-first,
}
use cncache_hub.Proxy.Pool.{UpstreamPool, has_upstream, dockerhub}
use cncache_hub.Proxy.Route.{route, first_segment, after_slash, kind_of, cut_inside, split_registry}
use cncache_hub.Preheat.Image.{
  split_docker_image, split_at, split_tagged, tagged, image_of, infer_registry_and_name, infer_at,
  is_host, registry_name_from_host,
}

positive : (n : ℕ) → ltb 0 (suc n) ≡ true
positive n = ground arith

colon_no_slash : ◌≢◌ {A = ℕ} b':' b'/'
colon_no_slash = omega arith

tagged-tag :
    (name tag : Bytes)
    → is_empty name ≡ false
    → Lacks b'/' tag
    → tagged (name ++ b':' ∷ tag) (some (length name)) ≡ (name, tag)
unfolding tagged
tagged-tag [] tag n h = cc
tagged-tag (c ∷ name) tag n h =
    let no_slash : contains (drop (length name) (name ++ b':' ∷ tag)) (codes "/") ≡ false =
      rw (drop-append name (b':' ∷ tag)) (contains-Lacks b'/' (b':' ∷ tag) (colon_no_slash, h)) in
    rw (positive (length name), no_slash, take-append name (b':' ∷ tag), drop_past name b':' tag)
      refl

append_filled : (s t : Bytes) → is_empty s ≡ false → is_empty (s ++ t) ≡ false
append_filled [] t h = cc
append_filled (c ∷ s) t h = refl

split-trimmed :
    (target : Bytes)
    → trim_space target ≡ target
    → is_empty target ≡ false
    → split_docker_image target ≡ split_at target (index_byte target b'@')
unfolding split_docker_image
split-trimmed target trimmed filled =
    ap (λ s. if is_empty s then none else split_at s (index_byte s b'@')) trimmed ∙ rw filled refl

-- An image with a tag is split at its last colon; the registry comes from what stands before it.
pub split_docker_image-tag :
    (name tag : Bytes)
    → trim_space (name ++ b':' ∷ tag) ≡ name ++ b':' ∷ tag
    → Lacks b'@' (name ++ b':' ∷ tag)
    → is_empty name ≡ false
    → Lacks b':' tag
    → Lacks b'/' tag
    → split_docker_image (name ++ b':' ∷ tag) ≡ image_of tag (infer_registry_and_name name)
unfolding split_at split_tagged
split_docker_image-tag name tag trimmed no_at filled no_colon no_slash =
    let at_tag = tagged-tag name tag filled no_slash in
    split-trimmed (name ++ b':' ∷ tag) trimmed (append_filled name (b':' ∷ tag) filled)
    ∙ ap (split_at (name ++ b':' ∷ tag)) (index_byte-Lacks b'@' (name ++ b':' ∷ tag) no_at)
    ∙ ap (λ o. let p = tagged (name ++ b':' ∷ tag) o in image_of p.1 (infer_registry_and_name p.0))
        (last_index_byte-last b':' name tag no_colon)
    ∙ ap (λ p. image_of p.1 (infer_registry_and_name p.0)) at_tag

pub infer-host :
    (host path : Bytes)
    → Lacks b'/' host
    → is_host host ≡ true
    → infer_registry_and_name (host ++ b'/' ∷ path)
      ≡ (registry_name_from_host host, host ++ b'/' ∷ path)
unfolding infer_registry_and_name infer_at
infer-host host path no_slash h =
    rw (index_byte-first b'/' host path no_slash) (rw (take-append host (b'/' ∷ path), h) refl)

first-segment :
    (c : ℕ) (registry rest : Bytes)
    → let whole = (c ∷ registry) ++ b'/' ∷ rest in
      (first_segment whole (some (length (c ∷ registry))) ≡ c ∷ registry)
      × (after_slash whole (some (length (c ∷ registry))) ≡ rest)
first-segment c registry rest =
    let nonzero : (suc (length registry) == 0) ≡ false = ground arith in
    (rw (nonzero, take-append registry (b'/' ∷ rest)) refl, drop_past registry b'/' rest)

split_registry-under :
    (pool : UpstreamPool) (c : ℕ) (registry rest : Bytes)
    → Lacks b'/' (c ∷ registry)
    → has_upstream pool (c ∷ registry) ≡ true
    → split_registry pool ((c ∷ registry) ++ b'/' ∷ rest) ≡ (c ∷ registry, rest)
unfolding split_registry
split_registry-under pool c registry rest n u =
    let whole = (c ∷ registry) ++ b'/' ∷ rest in
    let parts = first-segment c registry rest in
    ap
      (λ o.
        if has_upstream pool (first_segment whole o)
        then (first_segment whole o, after_slash whole o)
        else (dockerhub, whole))
      (index-first b'/' (c ∷ registry) rest n)
    ∙ ap₂ (λ a b. if has_upstream pool a then (a, b) else (dockerhub, whole)) parts.0 parts.1
    ∙ rw u refl

no_leading_slash : (c : ℕ) (s : Bytes) → c ≢ b'/' → trim_prefix (c ∷ s) (codes "/") ≡ c ∷ s
unfolding trim_prefix has_prefix
no_leading_slash c s n = ground arith

-- A path under a registry that the pool has by name.
pub route_under :
    (pool : UpstreamPool) (registry rest : Bytes)
    → Lacks b'/' registry
    → is_empty registry ≡ false
    → has_upstream pool registry ≡ true
    → route pool (codes "/v2/" ++ registry ++ b'/' ∷ rest)
      ≡ kind_of registry rest (cut_inside rest (codes "/manifests/"))
unfolding route same trim_prefix has_prefix
route_under pool [] rest n f u = cc
route_under pool (c ∷ registry) rest n f u =
    ap (λ p. kind_of p.0 p.1 (cut_inside p.1 (codes "/manifests/")))
      (ap (split_registry pool) (no_leading_slash c (registry ++ b'/' ∷ rest) n.0)
        ∙ split_registry-under pool c registry rest n u)
