-- ===== src/Cache/Key/Paths.antt =====
-- Blobs lie below the cache's root, and two keys share a file only if they are the same key.
use cncache_hub.Prelude.{
  ℕ, ◌≡◌, refl, sym, ap, ap₂, ◌∙◌, true, false, List, [], ◌∷◌, ◌++◌, ok, arith, drop, All,
  All-append, All-×, All-map, reverse-cons, reverse, Bool-cases, inl, inr, append_assoc,
  reverse-append, reverse-reverse,
}
use cncache_hub.Text.{Bytes, codes, same, is_empty, contains, contains_any, join, split}
use cncache_hub.Text.Affix.{has_prefix-append}
use cncache_hub.Text.Pieces.{Lacks, split-append-Lacks, split-append, split-join, split_one}
use cncache_hub.FilePath.{
  slash, clean, kept_parts, is_dot, is_dot_dot, push_part, push_parts, join_path,
}
use cncache_hub.FilePath.Laws.{IsPlain, clean-parts, clean-clean_below, push_parts-plain}
use cncache_hub.Cache.Key.{valid_digest, cleaned_repo, safe_rel, within_root, blob_path}
use cncache_hub.Cache.Key.Parts.{
  IsName, repo_parts, registry_parts, repo_parts-IsPlain, repo_parts-Lacks, cleaned_repo-join,
  registry-IsName, digest-IsName, split-cleaned_repo,
}

-- The parts of the path of a blob below the root.
abbrev pub rel_parts : Bytes → Bytes → Bytes → List Bytes
rel_parts registry repo digest =
    codes "v2" ∷ (registry_parts registry ++ (repo_parts repo ++ codes "blobs" ∷ digest ∷ []))

-- What `safeRel` has tested when it gives a path.
record Accepted (registry repo digest rel : Bytes) : Type 0 where
  registry_full : is_empty registry ≡ false
  registry_up : contains registry (codes "..") ≡ false
  registry_sep : contains_any registry (codes "/\\") ≡ false
  digest_valid : valid_digest digest ≡ true
  cleaned :
      rel
      ≡ clean (join (codes "v2" ∷ registry ∷ cleaned_repo repo ∷ codes "blobs" ∷ digest ∷ []) slash)

safe_rel-Accepted :
    (registry repo digest : Bytes) {rel : Bytes}
    → safe_rel registry repo digest ≡ ok rel
    → Accepted registry repo digest rel
unfolding safe_rel
safe_rel-Accepted registry repo digest h = ground arith

split-joined :
    (registry repo digest : Bytes)
    → Lacks slash registry
    → Lacks slash digest
    → split
        (join (codes "v2" ∷ registry ∷ cleaned_repo repo ∷ codes "blobs" ∷ digest ∷ []) slash)
        slash
      ≡ codes "v2" ∷ registry ∷ (repo_parts repo ++ codes "blobs" ∷ digest ∷ [])
unfolding join
split-joined registry repo digest hr hd =
    split-append-Lacks slash (codes "v2") _ (omega arith)
    ∙ ap (λ t. codes "v2" ∷ t)
        (split-append-Lacks slash registry _ hr
          ∙ ap (λ t. registry ∷ t)
              (split-append slash (cleaned_repo repo) _
                ∙ ap₂ (λ (t u : List Bytes). t ++ u) (split-cleaned_repo repo)
                    (split-append-Lacks slash (codes "blobs") digest (omega arith)
                      ∙ ap (λ t. codes "blobs" ∷ t) (split_one slash digest hd))))

push_registry :
    (registry : Bytes) (kept : List Bytes)
    → is_empty registry ≡ false
    → is_dot_dot registry ≡ false
    → push_part false kept registry ≡ registry_parts registry ++ kept
unfolding push_part
push_registry registry kept e d = ground arith

reverse-registry_parts :
    (registry : Bytes) → reverse (registry_parts registry) ≡ registry_parts registry
reverse-registry_parts registry = ground arith

below_registry-IsName :
    (repo digest : Bytes)
    → IsName digest
    → All IsName (repo_parts repo ++ codes "blobs" ∷ digest ∷ [])
unfolding same
below_registry-IsName repo digest h =
    All-append IsName (repo_parts repo) _
      (All-× IsPlain (Lacks slash) _ (repo_parts-IsPlain repo) (repo_parts-Lacks repo))
      (((refl, refl, refl), omega arith), (h, tt))

registry_parts-IsName :
    (registry : Bytes)
    → is_empty registry ≡ false
    → is_dot_dot registry ≡ false
    → Lacks slash registry
    → All IsName (registry_parts registry)
registry_parts-IsName registry e d l = elim (Bool-cases (is_dot registry)) [
  | inl p ↦ rw p tt
  | inr p ↦ rw p (((e, p, d), l), tt)
]

-- Every part of the path of an accepted key is a plain name without a separator.
pub rel_parts-IsName :
    (registry repo digest : Bytes) {rel : Bytes}
    → safe_rel registry repo digest ≡ ok rel
    → All IsName (rel_parts registry repo digest)
unfolding same
rel_parts-IsName registry repo digest h =
    let a = safe_rel-Accepted registry repo digest h in
    let (up, sep) = registry-IsName registry a.registry_full a.registry_up a.registry_sep in
    (
      ((refl, refl, refl), omega arith),
      All-append IsName (registry_parts registry) _
          (registry_parts-IsName registry a.registry_full up sep)
          (below_registry-IsName repo digest (digest-IsName digest a.digest_valid)),
    )

reverse-rel :
    (v registry : Bytes) (rest : List Bytes)
    → reverse (v ∷ (registry_parts registry ++ rest))
      ≡ reverse rest ++ (registry_parts registry ++ v ∷ [])
reverse-rel v registry rest =
    reverse-cons v (registry_parts registry ++ rest)
    ∙ ap (λ t. t ++ v ∷ [])
        (reverse-append (registry_parts registry) rest
          ∙ ap (λ t. reverse rest ++ t) (reverse-registry_parts registry))
    ∙ append_assoc (reverse rest) (registry_parts registry) (v ∷ [])

push_parts-rel :
    (registry : Bytes) (rest : List Bytes)
    → is_empty registry ≡ false
    → is_dot_dot registry ≡ false
    → All IsPlain rest
    → push_parts false [] (codes "v2" ∷ registry ∷ rest)
      ≡ reverse (codes "v2" ∷ (registry_parts registry ++ rest))
unfolding push_parts same
push_parts-rel registry rest e d h =
    ap (λ k. push_parts false k (registry ∷ rest))
      (push_parts-plain false [] (codes "v2" ∷ []) ((refl, refl, refl), tt))
    ∙ ap (λ k. push_parts false k rest) (push_registry registry (codes "v2" ∷ []) e d)
    ∙ push_parts-plain false (registry_parts registry ++ codes "v2" ∷ []) rest h
    ∙ sym (reverse-rel (codes "v2") registry rest)

kept-joined :
    (registry repo digest : Bytes)
    → is_empty registry ≡ false
    → is_dot_dot registry ≡ false
    → Lacks slash registry
    → IsName digest
    → kept_parts
        (join (codes "v2" ∷ registry ∷ cleaned_repo repo ∷ codes "blobs" ∷ digest ∷ []) slash)
      ≡ reverse (rel_parts registry repo digest)
unfolding kept_parts join
kept-joined registry repo digest e d l h =
    ap (λ t. push_parts false [] t) (split-joined registry repo digest l h.1)
    ∙ push_parts-rel registry _ e d
        (All-map IsName IsPlain (λ x p. p.0) _ (below_registry-IsName repo digest h))

-- What `safeRel` gives is the join of its parts.
pub safe_rel-join :
    (registry repo digest : Bytes) {rel : Bytes}
    → safe_rel registry repo digest ≡ ok rel
    → rel ≡ join (rel_parts registry repo digest) slash
unfolding join
safe_rel-join registry repo digest h =
    let a = safe_rel-Accepted registry repo digest h in
    let (up, sep) = registry-IsName registry a.registry_full a.registry_up a.registry_sep in
    a.cleaned
    ∙ clean-parts _ (codes "v2") _ refl (
        kept-joined registry repo digest a.registry_full up sep
          (digest-IsName digest a.digest_valid))

within_root_lem :
    (root rel t : Bytes)
    → clean (join_path root rel) ≡ clean root ++ slash ∷ t
    → within_root root rel ≡ ok (clean root ++ slash ∷ t)
unfolding within_root
within_root_lem root rel t e =
    rw (e, ← append_assoc (clean root) (slash ∷ []) t)
      (rw (has_prefix-append (clean root ++ slash ∷ []) t))

rel_parts-split :
    (registry repo digest rel : Bytes)
    → safe_rel registry repo digest ≡ ok rel
    → split rel slash ≡ rel_parts registry repo digest
rel_parts-split registry repo digest rel h =
    ap (λ t. split t slash) (safe_rel-join registry repo digest h)
    ∙ split-join slash (codes "v2") _ (
        All-map IsName (Lacks slash) (λ x p. p.1) (rel_parts registry repo digest)
          (rel_parts-IsName registry repo digest h))

last_two :
    (xs ys : List Bytes) (a b c : Bytes) → xs ++ a ∷ b ∷ [] ≡ ys ++ a ∷ c ∷ [] → (xs ≡ ys) × (b ≡ c)
last_two xs ys a b c e =
    let r : b ∷ a ∷ reverse xs ≡ c ∷ a ∷ reverse ys =
      sym (reverse-append xs (a ∷ b ∷ [])) ∙ ap reverse e ∙ reverse-append ys (a ∷ c ∷ []) in
    let q : reverse xs ≡ reverse ys = cc in
    (sym (reverse-reverse xs) ∙ ap reverse q ∙ reverse-reverse ys, cc)

-- For a root that Clean does not make empty and that does not lead upwards, every key that
-- `safeRel` accepts has a file: the path is the cleaned root, a separator and the key's parts, each
-- a plain name, so the traversal check of `blobPath` never fires.
pub blob_path_below_root :
    (c : ℕ) (root k : Bytes) (kept : List Bytes) (registry repo digest rel : Bytes)
    → kept_parts (c ∷ root) ≡ k ∷ kept
    → All IsPlain (k ∷ kept)
    → safe_rel registry repo digest ≡ ok rel
    → (blob_path (c ∷ root) registry repo digest
        ≡ ok (clean (c ∷ root) ++ slash ∷ join (rel_parts registry repo digest) slash))
      × All IsName (rel_parts registry repo digest)
unfolding blob_path join_path
blob_path_below_root c root k kept registry repo digest rel e hk h =
    let names = rel_parts-IsName registry repo digest h in
    (
      rw h (
          within_root_lem (c ∷ root) rel _ (
            ap (λ t. clean (clean ((c ∷ root) ++ slash ∷ t))) (safe_rel-join registry repo digest h)
            ∙ clean-clean_below c root k kept (codes "v2") _ e hk
                (All-map IsName IsPlain (λ x p. p.0) (rel_parts registry repo digest) names)
                (All-map IsName (Lacks slash) (λ x p. p.1) (rel_parts registry repo digest)
                  names))),
      names,
    )

registry_parts-append :
    (registry : Bytes) (rest : List Bytes)
    → is_dot registry ≡ false
    → registry_parts registry ++ rest ≡ registry ∷ rest
registry_parts-append registry rest d = rw d

-- Two keys that share a file agree in registry, digest and cleaned repository, unless a registry
-- is `.`, which Clean drops.
pub safe_rel-injective :
    (registry repo digest registry' repo' digest' rel : Bytes)
    → is_dot registry ≡ false
    → is_dot registry' ≡ false
    → safe_rel registry repo digest ≡ ok rel
    → safe_rel registry' repo' digest' ≡ ok rel
    → (registry ≡ registry') × (digest ≡ digest') × (cleaned_repo repo ≡ cleaned_repo repo')
safe_rel-injective registry repo digest registry' repo' digest' rel d d' h h' =
    let e : rel_parts registry repo digest ≡ rel_parts registry' repo' digest' =
      sym (rel_parts-split registry repo digest rel h)
      ∙ rel_parts-split registry' repo' digest' rel h' in
    let f : registry ∷ (repo_parts repo ++ codes "blobs" ∷ digest ∷ [])
        ≡ registry' ∷ (repo_parts repo' ++ codes "blobs" ∷ digest' ∷ []) =
      sym (registry_parts-append registry _ d)
      ∙ ap (drop 1) e
      ∙ registry_parts-append registry' _ d' in
    let (same_repo, same_digest) =
      last_two (repo_parts repo) (repo_parts repo') (codes "blobs") digest digest' (cc) in
    (
      cc,
      same_digest,
      cleaned_repo-join repo ∙ ap (λ t. join t slash) same_repo ∙ sym (cleaned_repo-join repo'),
    )
