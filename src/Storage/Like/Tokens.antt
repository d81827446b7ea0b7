-- ===== src/Storage/Like/Tokens.antt =====
-- How a pattern with ESCAPE '\' is read: wildcards, and bytes that stand for themselves.
use cncache_hub.Prelude.{
  ℕ, ◌≡◌, refl, ap, Bool, true, false, ◌||◌, List, [], ◌∷◌, ◌++◌, if◌then◌else◌, ◌==◌, ltb, length,
  take, map, arith, Bool-cases, inl, inr,
}
use cncache_hub.Text.{Bytes}
use cncache_hub.Storage.Like.{
  backslash, percent, underscore, replace_special, escape_like, like_pattern,
}

pub data Token : Type 0 where
  any_text : Token
  any_byte : Token
  literal : ℕ → Token

abbrev pub plain_token : ℕ → Token
plain_token c = if c == percent then any_text else if c == underscore then any_byte else literal c

-- The flag says that the byte before was the escape.
unfoldable pub tokens : Bool → Bytes → List Token
tokens b [] = []
tokens true (c ∷ s) = literal c ∷ tokens false s
tokens false (c ∷ s) =
    let rest = tokens false s in
    let escaped = tokens true s in if c == backslash then escaped else plain_token c ∷ rest

special : ℕ → Bool
special c = c == backslash || c == percent || c == underscore

ordinary : (c : ℕ) → special c ≡ false → ((c == backslash) ≡ false) × (plain_token c ≡ literal c)
unfolding special
ordinary c h = ground arith

tokens-replace :
    (s tail : Bytes) → tokens false (replace_special s ++ tail) ≡ map literal s ++ tokens false tail
unfolding tokens replace_special special
tokens-replace [] tail = refl
tokens-replace (c ∷ s) tail = elim (Bool-cases (special c)) [
  | inl e ↦ rw e (ap (λ x. literal c ∷ x) (tokens-replace s tail))
  | inr e ↦
      let (n, p) = ordinary c e in
      rw (e, tokens, n, p) (ap (λ x. literal c ∷ x) (tokens-replace s tail))
]

-- A search pattern is read as any text, the bytes of the query, cut at the limit, each for itself,
-- and any text: no byte of a query is a wildcard.
tokens-like_pattern :
    (s : Bytes) (max_len : ℕ)
    → tokens false (like_pattern s max_len)
      ≡ any_text
        ∷ (map literal (if ltb max_len (length s) then take max_len s else s) ++ any_text ∷ [])
unfolding tokens like_pattern escape_like
tokens-like_pattern s max_len =
    ap (λ x. any_text ∷ x)
      (tokens-replace (if ltb max_len (length s) then take max_len s else s) (percent ∷ []))
