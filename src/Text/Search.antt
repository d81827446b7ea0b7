-- ===== src/Text/Search.antt =====
-- `index`, `contains` and `contains_any`.
use cncache_hub.Prelude.{
  ℕ, zero, suc, ◌≡◌, refl, Bool, false, none, some, length, List, [], ◌∷◌, ◌++◌, arith, take, drop,
  All, any,
}
use cncache_hub.Text.{Bytes, has_prefix, index, contains_any, index_byte, last_index_byte, contains}
use cncache_hub.Text.Pieces.{Lacks}

-- A byte that is found parts the text.
pub index-parts :
    (s : Bytes) (b i : ℕ) → index s (b ∷ []) ≡ some i → take i s ++ b ∷ drop (suc i) s ≡ s
unfolding index has_prefix
index-parts [] b i h = cc
index-parts (c ∷ s) b zero h = ground arith
index-parts (c ∷ s) b (suc i) h = ground (arith, index-parts s b i)

pub any-eq-false {ℓ} :
    {A : Type ℓ} (p : A → Bool) (xs : List A) → any p xs ≡ false → All (λ x. p x ≡ false) xs
any-eq-false p [] h = tt
any-eq-false p (x ∷ xs) h = (ground arith, any-eq-false p xs (ground arith))

-- None of the characters stands in the text.
pub contains_any-Lacks :
    (s : Bytes) (b : ℕ) (chars : Bytes) → contains_any s (b ∷ chars) ≡ false → Lacks b s
unfolding contains_any
contains_any-Lacks [] b chars h = tt
contains_any-Lacks (c ∷ s) b chars h = (ground arith, contains_any-Lacks s b chars (ground arith))

module _ (b : ℕ) where
  pub index_byte-Lacks : (s : Bytes) → Lacks b s → index_byte s b ≡ none
  unfolding index_byte
  index_byte-Lacks [] h = refl
  index_byte-Lacks (c ∷ s) h = ground (arith, index_byte-Lacks s h.1)

  pub index_byte-first : (p s : Bytes) → Lacks b p → index_byte (p ++ b ∷ s) b ≡ some (length p)
  unfolding index_byte
  index_byte-first [] s h = ground arith
  index_byte-first (c ∷ p) s h = ground (arith, index_byte-first p s h.1)

  pub last_index_byte-Lacks : (s : Bytes) → Lacks b s → last_index_byte s b ≡ none
  unfolding last_index_byte
  last_index_byte-Lacks [] h = refl
  last_index_byte-Lacks (c ∷ s) h = ground (arith, last_index_byte-Lacks s h.1)

  pub last_index_byte-last :
      (p s : Bytes) → Lacks b s → last_index_byte (p ++ b ∷ s) b ≡ some (length p)
  unfolding last_index_byte
  last_index_byte-last [] s h = ground (arith, last_index_byte-Lacks s h)
  last_index_byte-last (c ∷ p) s h = ground (arith, last_index_byte-last p s h)

  pub index-Lacks : (s : Bytes) → Lacks b s → index s (b ∷ []) ≡ none
  unfolding index has_prefix
  index-Lacks [] h = refl
  index-Lacks (c ∷ s) h = ground (arith, index-Lacks s h.1)

  pub index-first : (p s : Bytes) → Lacks b p → index (p ++ b ∷ s) (b ∷ []) ≡ some (length p)
  unfolding index has_prefix
  index-first [] s h = ground arith
  index-first (c ∷ p) s h = ground (arith, index-first p s h.1)

pub contains-Lacks : (b : ℕ) (s : Bytes) → Lacks b s → contains s (b ∷ []) ≡ false
unfolding contains
contains-Lacks b s h = rw (index-Lacks b s h) refl

-- The text after the byte that ends its front.
pub drop_past : (p : Bytes) (b : ℕ) (s : Bytes) → drop (suc (length p)) (p ++ b ∷ s) ≡ s
drop_past [] b s = refl
drop_past (c ∷ p) b s = drop_past p b s
