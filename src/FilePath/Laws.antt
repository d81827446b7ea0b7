-- ===== src/FilePath/Laws.antt =====
-- What Clean keeps of a path that is put together from plain parts.
use cncache_hub.Prelude.{
  ℕ, ℕ, ◌≡◌, refl, sym, ap, ap₂, ◌∙◌, Bool, true, false, List, [], ◌∷◌, ◌++◌, append_assoc, subst,
  append-nil, arith, ◌==◌, if◌then◌else◌, All, All-append, All-reverse, reverse, reverse-append,
  reverse-reverse, reverse-cons,
}
use cncache_hub.Text.{Bytes, split, join, is_empty}
use cncache_hub.Text.Pieces.{
  Lacks, split-Lacks, join-append, split-append, split-append-Lacks, split-join,
}
use cncache_hub.FilePath.{
  slash, push_part, push_parts, kept_parts, clean, is_dot, is_dot_dot, is_rooted, is_nil, body,
  render,
}

-- A name in a directory.
abbrev pub IsPlain : Bytes → Type 0
IsPlain s = (is_empty s ≡ false) × (is_dot s ≡ false) × (is_dot_dot s ≡ false)

pub push_parts-append :
    (r : Bool) (kept xs ys : List Bytes)
    → push_parts r kept (xs ++ ys) ≡ push_parts r (push_parts r kept xs) ys
unfolding push_parts
push_parts-append r kept [] ys = refl
push_parts-append r kept (x ∷ xs) ys = push_parts-append r (push_part r kept x) xs ys

push_part-plain :
    (r : Bool) (kept : List Bytes) (x : Bytes) → IsPlain x → push_part r kept x ≡ x ∷ kept
unfolding push_part
push_part-plain r kept x h = ground arith

-- Plain parts are all kept.
pub push_parts-plain :
    (r : Bool) (kept xs : List Bytes) → All IsPlain xs → push_parts r kept xs ≡ reverse xs ++ kept
unfolding push_parts
push_parts-plain r kept [] h = refl
push_parts-plain r kept (x ∷ xs) h =
    rw (
      push_part-plain r kept x h.0,
      push_parts-plain r (x ∷ kept) xs h.1,
      reverse-cons,
      append_assoc,
    )

-- What is kept of a rooted path is plain.
push_part-IsPlain :
    (kept : List Bytes) (x : Bytes) → All IsPlain kept → All IsPlain (push_part true kept x)
unfolding push_part
push_part-IsPlain [] x h = ground arith
push_part-IsPlain (k ∷ kept) x h = ground arith

pub push_parts-IsPlain :
    (kept xs : List Bytes) → All IsPlain kept → All IsPlain (push_parts true kept xs)
unfolding push_parts
push_parts-IsPlain kept [] h = h
push_parts-IsPlain kept (x ∷ xs) h =
    push_parts-IsPlain (push_part true kept x) xs (push_part-IsPlain kept x h)

push_part-Lacks :
    (r : Bool) (kept : List Bytes) (x : Bytes)
    → Lacks slash x
    → All (Lacks slash) kept
    → All (Lacks slash) (push_part r kept x)
unfolding push_part
push_part-Lacks true [] x hx h = ground arith
push_part-Lacks false [] x hx h = ground arith
push_part-Lacks r (k ∷ kept) x hx h = ground arith

pub push_parts-Lacks :
    (r : Bool) (kept xs : List Bytes)
    → All (Lacks slash) xs
    → All (Lacks slash) kept
    → All (Lacks slash) (push_parts r kept xs)
unfolding push_parts
push_parts-Lacks r kept [] hx h = h
push_parts-Lacks r kept (x ∷ xs) hx h =
    push_parts-Lacks r (push_part r kept x) xs hx.1 (push_part-Lacks r kept x hx.0 h)

append-cons {ℓ} :
    {A : Type ℓ} (xs : List A) (y : A) (ys : List A)
    → (z : A) × (zs : List A) × (xs ++ y ∷ ys ≡ z ∷ zs)
append-cons [] y ys = (y, ys, refl)
append-cons (x ∷ xs) y ys = (x, xs ++ y ∷ ys, refl)

is_nil-append {ℓ} : {A : Type ℓ} (xs : List A) (y : A) (ys : List A) → is_nil (xs ++ y ∷ ys) ≡ false
is_nil-append [] y ys = refl
is_nil-append (x ∷ xs) y ys = refl

body-append :
    (k : Bytes) (kept : List Bytes) (p : Bytes) (ps : List Bytes)
    → body (reverse (p ∷ ps) ++ k ∷ kept) ≡ body (k ∷ kept) ++ slash ∷ join (p ∷ ps) slash
unfolding body
body-append k kept p ps =
    let (z, zs, e) = append-cons (reverse kept) k [] in
    rw (reverse-append, reverse-reverse, reverse-cons, e) (join-append slash z zs p ps)

render-body :
    (r : Bool) (xs ys : List Bytes) (t : Bytes)
    → is_nil xs ≡ false
    → is_nil ys ≡ false
    → body xs ≡ body ys ++ t
    → render r xs ≡ render r ys ++ t
unfolding render
render-body true xs ys t hx hy e = rw e
render-body false xs ys t hx hy e = rw (hx, hy, e)

kept_parts-below :
    (c : ℕ) (root : Bytes) (p : Bytes) (ps : List Bytes)
    → All IsPlain (p ∷ ps)
    → All (Lacks slash) (p ∷ ps)
    → kept_parts ((c ∷ root) ++ slash ∷ join (p ∷ ps) slash)
      ≡ reverse (p ∷ ps) ++ kept_parts (c ∷ root)
unfolding kept_parts
kept_parts-below c root p ps hp hl =
    rw (split-append slash (c ∷ root), split-join slash p ps hl, push_parts-append)
      (push_parts-plain _ _ (p ∷ ps) hp)

-- Plain parts below a path that Clean does not make empty are appended to what Clean makes of it.
pub clean-below :
    (c : ℕ) (root : Bytes) {k : Bytes} {kept : List Bytes} (p : Bytes) (ps : List Bytes)
    → kept_parts (c ∷ root) ≡ k ∷ kept
    → All IsPlain (p ∷ ps)
    → All (Lacks slash) (p ∷ ps)
    → clean ((c ∷ root) ++ slash ∷ join (p ∷ ps) slash)
      ≡ clean (c ∷ root) ++ slash ∷ join (p ∷ ps) slash
unfolding clean
clean-below c root {k} {kept} p ps e hp hl =
    rw (kept_parts-below c root p ps hp hl, e)
      (render-body (c == slash) _ (k ∷ kept) _ (is_nil-append (reverse (p ∷ ps)) k kept) refl
        (body-append k kept p ps))

pub clean_lem : (s : Bytes) → clean s ≡ render (is_rooted s) (kept_parts s)
unfolding clean
clean_lem s = refl

render-reverse :
    (p : Bytes) (ps : List Bytes) → render false (reverse (p ∷ ps)) ≡ join (p ∷ ps) slash
unfolding render
render-reverse p ps =
    rw (reverse-cons, is_nil-append (reverse ps) p [], ← reverse-cons, reverse-reverse)

-- A relative path with one part kept or more.
pub clean-parts :
    (s p : Bytes) (ps : List Bytes)
    → is_rooted s ≡ false
    → kept_parts s ≡ reverse (p ∷ ps)
    → clean s ≡ join (p ∷ ps) slash
clean-parts s p ps r e = clean_lem s ∙ ap₂ render r e ∙ render-reverse p ps

pub kept_parts-IsPlain : (s : Bytes) → is_rooted s ≡ true → All IsPlain (kept_parts s)
unfolding kept_parts
kept_parts-IsPlain s r = rw r (push_parts-IsPlain [] (split s slash) tt)

pub kept_parts-Lacks : (s : Bytes) → All (Lacks slash) (kept_parts s)
unfolding kept_parts
kept_parts-Lacks s = push_parts-Lacks (is_rooted s) [] (split s slash) (split-Lacks slash s) tt

is_rooted-join :
    (p : Bytes) (ps : List Bytes)
    → is_empty p ≡ false
    → Lacks slash p
    → is_rooted (join (p ∷ ps) slash) ≡ false
unfolding join
is_rooted-join [] ps e l = cc
is_rooted-join (c ∷ p) [] e l = ground (arith, l.0)
is_rooted-join (c ∷ p) (q ∷ ps) e l = ground (arith, l.0)

-- A path written from plain parts has these parts.
kept_parts-join :
    (r : Bool) (p : Bytes) (ps : List Bytes)
    → All IsPlain (p ∷ ps)
    → All (Lacks slash) (p ∷ ps)
    → kept_parts (if r then slash ∷ join (p ∷ ps) slash else join (p ∷ ps) slash) ≡ reverse (p ∷ ps)
unfolding kept_parts
kept_parts-join true p ps hp hl =
    ap (λ t. push_parts true [] t)
      (split-append-Lacks slash [] (join (p ∷ ps) slash) tt
        ∙ ap (λ t. [] ∷ t) (split-join slash p ps hl))
    ∙ unfold push_parts push_part in (push_parts-plain true [] (p ∷ ps) hp ∙ append-nil _)
kept_parts-join false p ps hp hl =
    ap₂ (λ b t. push_parts b [] t) (is_rooted-join p ps hp.0.0 hl.0) (split-join slash p ps hl)
    ∙ (push_parts-plain false [] (p ∷ ps) hp ∙ append-nil _)

render-join :
    (r : Bool) (p : Bytes) (ps : List Bytes)
    → render r (reverse (p ∷ ps)) ≡ (if r then slash ∷ join (p ∷ ps) slash else join (p ∷ ps) slash)
unfolding render body
render-join true p ps = rw reverse-reverse
render-join false p ps = render-reverse p ps

kept_parts-render :
    (r : Bool) (p : Bytes) (ps : List Bytes)
    → All IsPlain (reverse (p ∷ ps))
    → All (Lacks slash) (reverse (p ∷ ps))
    → kept_parts (render r (reverse (p ∷ ps))) ≡ reverse (p ∷ ps)
kept_parts-render r p ps hp hl =
    ap kept_parts (render-join r p ps)
    ∙ kept_parts-join r p ps
        (subst (All IsPlain) (reverse-reverse (p ∷ ps)) (All-reverse IsPlain _ hp))
        (subst (All (Lacks slash)) (reverse-reverse (p ∷ ps)) (All-reverse (Lacks slash) _ hl))

-- Clean keeps what it kept.
pub kept_parts-clean :
    (s k : Bytes) (kept : List Bytes)
    → kept_parts s ≡ k ∷ kept
    → All IsPlain (k ∷ kept)
    → kept_parts (clean s) ≡ k ∷ kept
kept_parts-clean s k kept e h =
    let (z, zs, p) = append-cons (reverse kept) k [] in
    let q : k ∷ kept ≡ reverse (z ∷ zs) =
      sym (reverse-reverse (k ∷ kept)) ∙ ap reverse (reverse-cons k kept ∙ p) in
    ap kept_parts (clean_lem s ∙ ap (render (is_rooted s)) (e ∙ q))
    ∙ kept_parts-render (is_rooted s) z zs (subst (All IsPlain) q h)
        (subst (All (Lacks slash)) (e ∙ q) (kept_parts-Lacks s))
    ∙ sym q

is_rooted-render :
    (r : Bool) (p : Bytes) (ps : List Bytes)
    → All IsPlain (reverse (p ∷ ps))
    → All (Lacks slash) (reverse (p ∷ ps))
    → is_rooted (render r (reverse (p ∷ ps))) ≡ r
is_rooted-render true p ps hp hl = unfold render in refl
is_rooted-render false p ps hp hl =
    ap is_rooted (render-reverse p ps)
    ∙ is_rooted-join p ps
        (subst (All IsPlain) (reverse-reverse (p ∷ ps)) (All-reverse IsPlain _ hp)).0.0
        (subst (All (Lacks slash)) (reverse-reverse (p ∷ ps)) (All-reverse (Lacks slash) _ hl)).0

-- Clean twice is Clean once, where it keeps plain parts.
pub clean-clean :
    (s k : Bytes) (kept : List Bytes)
    → kept_parts s ≡ k ∷ kept
    → All IsPlain (k ∷ kept)
    → clean (clean s) ≡ clean s
clean-clean s k kept e h =
    let (z, zs, p) = append-cons (reverse kept) k [] in
    let q : k ∷ kept ≡ reverse (z ∷ zs) =
      sym (reverse-reverse (k ∷ kept)) ∙ ap reverse (reverse-cons k kept ∙ p) in
    clean_lem (clean s)
    ∙ ap₂ render
        (ap is_rooted (clean_lem s ∙ ap (render (is_rooted s)) (e ∙ q))
          ∙ is_rooted-render (is_rooted s) z zs (subst (All IsPlain) q h)
              (subst (All (Lacks slash)) (e ∙ q) (kept_parts-Lacks s)))
        (kept_parts-clean s k kept e h ∙ sym e)
    ∙ sym (clean_lem s)

-- The same below a root of plain parts.
pub clean-clean_below :
    (c : ℕ) (root k : Bytes) (kept : List Bytes) (p : Bytes) (ps : List Bytes)
    → kept_parts (c ∷ root) ≡ k ∷ kept
    → All IsPlain (k ∷ kept)
    → All IsPlain (p ∷ ps)
    → All (Lacks slash) (p ∷ ps)
    → clean (clean ((c ∷ root) ++ slash ∷ join (p ∷ ps) slash))
      ≡ clean (c ∷ root) ++ slash ∷ join (p ∷ ps) slash
clean-clean_below c root k kept p ps e hk hp hl =
    let below = kept_parts-below c root p ps hp hl ∙ ap (λ t. reverse (p ∷ ps) ++ t) e in
    let (z, zs, q) = append-cons (reverse (p ∷ ps)) k kept in
    clean-clean _ z zs (below ∙ q) (
      subst (All IsPlain) q
        (All-append IsPlain (reverse (p ∷ ps)) (k ∷ kept) (All-reverse IsPlain (p ∷ ps) hp) hk))
    ∙ clean-below c root p ps e hp hl
