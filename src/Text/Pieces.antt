-- ===== src/Text/Pieces.antt =====
-- `split` and `join`.
use cncache_hub.Prelude.{
  append_assoc, ◌≡◌, refl, sym, ap, ap₂, ◌∙◌, ==_iff, ◌++◌, ℕ, ◌≢◌, List, [], ◌∷◌, arith, ◌==◌,
  Bool-cases, inl, inr, All,
}
use cncache_hub.Text.{join, Bytes, push_head, split}

abbrev pub Lacks : ℕ → Bytes → Type 0
Lacks b = All (λ c. c ≢ b)

module _ (sep : ℕ) where
  push_head-Lacks :
      (c : ℕ) (ps : List Bytes) → c ≢ sep → All (Lacks sep) ps → All (Lacks sep) (push_head c ps)
  unfolding push_head
  push_head-Lacks c [] n h = ((n, tt), tt)
  push_head-Lacks c (p ∷ ps) n h = ((n, h.0), h.1)

  -- No part holds the separator.
  pub split-Lacks : (s : Bytes) → All (Lacks sep) (split s sep)
  unfolding split
  split-Lacks [] = (tt, tt)
  split-Lacks (c ∷ s) = elim (Bool-cases (c == sep)) [
    | inl e ↦ rw e (tt, split-Lacks s)
    | inr e ↦ rw e (push_head-Lacks c (split s sep) (ground arith) (split-Lacks s))
  ]

  -- Text without the separator is one part.
  pub split-append-Lacks : (p s : Bytes) → Lacks sep p → split (p ++ sep ∷ s) sep ≡ p ∷ split s sep
  unfolding split push_head
  split-append-Lacks [] s h = ground arith
  split-append-Lacks (c ∷ p) s h = ground (arith, split-append-Lacks p s h.1)

  pub split_one : (p : Bytes) → Lacks sep p → split p sep ≡ p ∷ []
  unfolding split push_head
  split_one [] h = refl
  split_one (c ∷ p) h = ground (arith, split_one p h.1)

  split-cons : (a s : Bytes) → (p : Bytes) × (ps : List Bytes) × (split a sep ≡ p ∷ ps)
  unfolding split push_head
  split-cons [] s = ([], [], refl)
  split-cons (c ∷ a) s = elim (Bool-cases (c == sep)) [
    | inl e ↦ ([], split a sep, rw e)
    | inr e ↦ let (p, ps, q) = split-cons a s in (c ∷ p, ps, rw (e, q))
  ]

  -- The parts of two texts around a separator are those of each.
  pub split-append : (a s : Bytes) → split (a ++ sep ∷ s) sep ≡ split a sep ++ split s sep
  unfolding split push_head
  split-append [] s = ground arith
  split-append (c ∷ a) s = elim (Bool-cases (c == sep)) [
    | inl e ↦ rw (e, split-append a s)
    | inr e ↦ let (p, ps, q) = split-cons a s in rw (e, split-append a s, q)
  ]

  -- Splitting a join gives the parts back, if there is a part and none holds the separator.
  pub split-join :
      (p : Bytes) (ps : List Bytes)
      → All (Lacks sep) (p ∷ ps)
      → split (join (p ∷ ps) sep) sep ≡ p ∷ ps
  unfolding join
  split-join p [] h = split_one p h.0
  split-join p (q ∷ ps) h = rw (split-append-Lacks p (join (q ∷ ps) sep) h.0, split-join q ps h.1)

  pub join-append :
      (x : Bytes) (xs : List Bytes) (y : Bytes) (ys : List Bytes)
      → join ((x ∷ xs) ++ y ∷ ys) sep ≡ join (x ∷ xs) sep ++ sep ∷ join (y ∷ ys) sep
  unfolding join
  join-append x [] y ys = refl
  join-append x (z ∷ xs) y ys = rw (join-append z xs y ys, append_assoc)

  pub split_filled : (s : Bytes) → (p : Bytes) × (ps : List Bytes) × (split s sep ≡ p ∷ ps)
  unfolding split push_head
  split_filled [] = ([], [], refl)
  split_filled (c ∷ s) = elim (Bool-cases (c == sep)) [
    | inl e ↦ ([], split s sep, rw e refl)
    | inr e ↦ let (p, ps, h) = split_filled s in (c ∷ p, ps, rw (e, h) refl)
  ]

  join-push_head :
      (c : ℕ) (p : Bytes) (ps : List Bytes)
      → join (push_head c (p ∷ ps)) sep ≡ c ∷ join (p ∷ ps) sep
  unfolding join push_head
  join-push_head c p [] = refl
  join-push_head c p (q ∷ ps) = refl

  -- The parts of a text, joined, are the text.
  pub join-split : (s : Bytes) → join (split s sep) sep ≡ s
  unfolding split join
  join-split [] = refl
  join-split (c ∷ s) =
      let (p, ps, h) = split_filled s in
      let whole : join (p ∷ ps) sep ≡ s = sym (ap (λ x. join x sep) h) ∙ join-split s in
      elim (Bool-cases (c == sep)) [
        | inl e ↦ rw (e, h) (ap₂ (λ a b. a ∷ b) (sym ((==_iff c sep).0 e)) whole)
        | inr e ↦ rw (e, h) (join-push_head c p ps ∙ ap (λ x. c ∷ x) whole)
      ]
