-- ===== src/Text/Affix.antt =====
-- Prefixes and suffixes.
use cncache_hub.Prelude.{
  ◌≡◌, refl, sym, ap, ◌∙◌, true, [], ◌∷◌, ◌++◌, arith, leb, length-append, drop-append, ◌-◌, length,
  drop, take, take-append-drop,
}
use cncache_hub.Text.{Bytes, has_prefix, has_suffix}
use cncache_hub.Text.Equality.{same→≡, same_refl}

pub has_prefix-append : (p s : Bytes) → has_prefix (p ++ s) p ≡ true
unfolding has_prefix
has_prefix-append [] [] = refl
has_prefix-append [] (c ∷ s) = refl
has_prefix-append (c ∷ p) s = ground (arith, has_prefix-append p s)

-- A text with a prefix is the prefix and a rest.
pub has_prefix→append : (s p : Bytes) → has_prefix s p ≡ true → (rest : Bytes) × (s ≡ p ++ rest)
unfolding has_prefix
has_prefix→append s [] h = (s, refl)
has_prefix→append [] (c ∷ p) h = cc
has_prefix→append (d ∷ s) (c ∷ p) h =
    let (rest, e) = has_prefix→append s p (ground arith) in (rest, ground arith)

pub has_suffix→append : (s p : Bytes) → has_suffix s p ≡ true → (front : Bytes) × (s ≡ front ++ p)
unfolding has_suffix
has_suffix→append s p h =
    let n = length s - length p in
    (
      take n s,
      sym (take-append-drop n s) ∙ ap (λ t. take n s ++ t) (same→≡ (drop n s) p (ground arith)),
    )

pub has_suffix-append : (front p : Bytes) → has_suffix (front ++ p) p ≡ true
unfolding has_suffix
has_suffix-append front p =
    let whole = length-append front p in
    let shorter : leb (length p) (length (front ++ p)) ≡ true = ground (arith, whole) in
    let n : length (front ++ p) - length p ≡ length front = omega (arith, whole) in
    rw (shorter, n, drop-append front p) (same_refl p)
