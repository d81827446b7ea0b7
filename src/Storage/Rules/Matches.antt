-- ===== src/Storage/Rules/Matches.antt =====
-- The patterns without a double star.
use cncache_hub.Prelude.{
  ◌≡◌, ◌↔◌, ◌⊎◌, inl, inr, refl, Bool, true, false, List, [], ◌∷◌, ◌==◌, length, arith, Bool-cases,
  ==_iff,
}
use cncache_hub.Text.{Bytes, codes, same, is_empty, contains, split}
use cncache_hub.Text.Equality.{same_iff}
use cncache_hub.Storage.Rules.{match_parts, match_single_star, match_path}

-- Segment by segment: a star takes one segment, any other text itself.
abbrev pub Fits : List Bytes → List Bytes → Type 0
Fits [] [] = Unit
Fits [] (q ∷ qs) = ⊥
Fits (p ∷ ps) [] = ⊥
Fits (p ∷ ps) (q ∷ qs) = ((p ≡ codes "*") ⊎ (p ≡ q)) × Fits ps qs

match_parts→Fits :
    (ps qs : List Bytes) → length ps ≡ length qs → match_parts ps qs ≡ true → Fits ps qs
unfolding match_parts
match_parts→Fits [] [] l h = tt
match_parts→Fits [] (q ∷ qs) l h = omega (arith, l)
match_parts→Fits (p ∷ ps) [] l h = omega (arith, l)
match_parts→Fits (p ∷ ps) (q ∷ qs) l h =
    let shorter : length ps ≡ length qs = omega (arith, l) in
    elim (Bool-cases (same p (codes "*"))) [
      | inl e ↦ (inl ((same_iff p (codes "*")).0 e), match_parts→Fits ps qs shorter (rw e at h))
      | inr e ↦ elim (Bool-cases (same p q)) [
        | inl f ↦ (inr ((same_iff p q).0 f), match_parts→Fits ps qs shorter (rw (e, f) at h))
        | inr f ↦ let n : false ≡ true = rw (e, f) at h in cc
      ]
    ]

Fits→match_parts :
    (ps qs : List Bytes) → Fits ps qs → (length ps ≡ length qs) × (match_parts ps qs ≡ true)
unfolding match_parts
Fits→match_parts [] [] f = (refl, refl)
Fits→match_parts [] (q ∷ qs) f = absurd f
Fits→match_parts (p ∷ ps) [] f = absurd f
Fits→match_parts (p ∷ ps) (q ∷ qs) (inl e, f) =
    let (l, m) = Fits→match_parts ps qs f in
    let star = (same_iff p (codes "*")).1 e in (omega (arith, l), rw star m)
Fits→match_parts (p ∷ ps) (q ∷ qs) (inr e, f) =
    let (l, m) = Fits→match_parts ps qs f in
    let equal = (same_iff p q).1 e in (omega (arith, l), ground (arith, equal, m))

-- A pattern that is not empty, not a star and has no double star takes exactly the paths with as
-- many segments as it has, each of which is the pattern's own segment there or stands under a star.
pub match_path_iff :
    (regex_match : Bytes → Bytes → Bool) (pat path : Bytes)
    → is_empty pat ≡ false
    → same pat (codes "*") ≡ false
    → contains pat (codes "**") ≡ false
    → (match_path regex_match pat path ≡ true) ↔ Fits (split pat 47) (split path 47)
unfolding match_path match_single_star
match_path_iff regex_match pat path e s d =
    let ps = split pat 47 in
    let qs = split path 47 in
    (
      λ h. elim (Bool-cases (length ps == length qs)) [
        | inl l ↦
            match_parts→Fits ps qs ((==_iff (length ps) (length qs)).0 l) (rw (e, s, d, l) at h)
        | inr l ↦ let n : false ≡ true = rw (e, s, d, l) at h in cc
      ],
      λ f.
          let (l, m) = Fits→match_parts ps qs f in
          let l' = (==_iff (length ps) (length qs)).1 l in rw (e, s, d, l') m,
    )
