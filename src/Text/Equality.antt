-- ===== src/Text/Equality.antt =====
-- `same` decides the equality of texts.
use cncache_hub.Prelude.{◌≡◌, ◌↔◌, refl, true, [], ◌∷◌, arith}
use cncache_hub.Text.{Bytes, same}

pub same→≡ : (a b : Bytes) → same a b ≡ true → a ≡ b
unfolding same
same→≡ [] [] h = refl
same→≡ [] (y ∷ ys) h = cc
same→≡ (x ∷ xs) [] h = cc
same→≡ (x ∷ xs) (y ∷ ys) h = ground (arith, same→≡ xs ys)

pub same_refl : (a : Bytes) → same a a ≡ true
unfolding same
same_refl [] = refl
same_refl (x ∷ xs) = ground (arith, same_refl xs)

pub same_iff : (a b : Bytes) → (same a b ≡ true) ↔ (a ≡ b)
same_iff a b = (same→≡ a b, λ e. rw e (same_refl b))
