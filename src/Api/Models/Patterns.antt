-- ===== src/Api/Models/Patterns.antt =====
-- The targets that a request for a model makes, and what a pattern for a directory takes.
use cncache_hub.Prelude.{
  ℕ, ◌-◌, ◌≢◌, ◌≡◌, refl, sym, ap, ◌∙◌, Bool, false, some, [], ◌∷◌, ◌++◌, length, take-append,
  drop-append, append_assoc, length-append, arith, ◌==◌, ==_iff,
}
use cncache_hub.Text.{
  Bytes, codes, same, is_empty, trim_space, has_prefix, has_suffix, contains, index,
}
use cncache_hub.Text.Pieces.{Lacks}
use cncache_hub.Text.Search.{index_byte-first, index-first, drop_past}
use cncache_hub.Preheat.Image.{split_model_file}
use cncache_hub.Api.Globs.{HuggingFaceFile, compiled, compile_hf_pattern}
use cncache_hub.Api.Models.{target_of}

-- A target that the handler makes is read by the task as the file it was made of, whatever bytes the
-- path has, unless the model or the revision has a bar.
pub split_model_file-target_of :
    (model revision : Bytes) (f : HuggingFaceFile)
    → Lacks b'|' model
    → Lacks b'|' revision
    → is_empty (trim_space model) ≡ false
    → is_empty (trim_space revision) ≡ false
    → is_empty (trim_space f.path) ≡ false
    → split_model_file (target_of model revision f)
      ≡ some (record { model_id = model; revision = revision; filename = f.path })
unfolding split_model_file
split_model_file-target_of model revision f n n' m r p =
    let rest = revision ++ b'|' ∷ f.path in
    let whole = model ++ b'|' ∷ rest in
    let flat : target_of model revision f ≡ whole = simp append_assoc in
    ap split_model_file flat
    ∙ rw
        (
          split_model_file,
          index_byte-first b'|' model rest n,
          drop_past model b'|' rest,
          index_byte-first b'|' revision f.path n',
          drop_past model b'|' rest,
          drop_past revision b'|' f.path,
          take-append model (b'|' ∷ rest),
          take-append revision (b'|' ∷ f.path),
          m,
          r,
          p,
        )
        refl

has_prefix-both : (p s t : Bytes) → has_prefix (p ++ s) (p ++ t) ≡ has_prefix s t
unfolding has_prefix
has_prefix-both [] s t = refl
has_prefix-both (c ∷ p) s t = rw ((==_iff c c).1 refl) (has_prefix-both p s t)

no_slash_at_end : (front : Bytes) → has_suffix (front ++ codes "*") (codes "/") ≡ false
unfolding has_suffix same
no_slash_at_end front =
    let n : length (front ++ codes "*") - 1 ≡ length front =
      rw (length-append front (codes "*")) (omega arith) in
    rw (n, drop-append front (codes "*")) (ground arith)

-- A pattern dir/* is compiled to a prefix with the star in it: of the files of the directory it takes
-- those alone whose name begins with a star.
compile_hf_pattern-directory :
    (c : ℕ) (dir name : Bytes)
    → c ≢ b'*'
    → Lacks b'/' (c ∷ dir)
    → trim_space ((c ∷ dir) ++ codes "/*") ≡ (c ∷ dir) ++ codes "/*"
    → (m : Bytes → Bool) × (compile_hf_pattern ((c ∷ dir) ++ codes "/*") ≡ some m)
      × (m ((c ∷ dir) ++ b'/' ∷ name) ≡ has_prefix name (codes "*"))
unfolding compile_hf_pattern compiled contains has_prefix same
compile_hf_pattern-directory c dir name star lacks trimmed =
    let pat = (c ∷ dir) ++ codes "/*" in
    let starless : (c == b'*') ≡ false = ground arith in
    let other : same pat (codes "*") ≡ false = rw starless refl in
    let no_end : has_suffix pat (codes "/") ≡ false =
      ap (λ s. has_suffix s (codes "/")) (sym (append_assoc (c ∷ dir) (codes "/") (codes "*")))
      ∙ no_slash_at_end ((c ∷ dir) ++ codes "/") in
    let slash : index pat (codes "/") ≡ some (length (c ∷ dir)) =
      index-first b'/' (c ∷ dir) (codes "*") lacks in
    let front : has_prefix pat (codes "*") ≡ false = rw starless refl in
    (
      compiled pat,
      rw trimmed refl,
      rw (compiled, other, no_end, slash, front)
          (has_prefix-both (c ∷ dir) (b'/' ∷ name) (codes "/*")),
    )
