-- ===== src/Proxy/Route/Paths.antt =====
-- What a route says of its path, and the numbers that itoa writes.
use cncache_hub.Prelude.{
  ℕ, zero, suc, ◌+◌, ◌-◌, ◌*◌, ◌/◌, ◌%◌, ◌^◌, ◌<◌, ◌≡◌, ◌⊎◌, inl, inr, refl, sym, ap, ◌∙◌, subst,
  true, false, Option, none, some, [], ◌∷◌, ◌++◌, if◌then◌else◌, ◌==◌, take, drop, length, arith,
  Bool-cases, Option-cases, ==_iff,
}
use cncache_hub.Prelude.Int.{pos}
use cncache_hub.Text.{Bytes, codes, is_empty, index, has_prefix}
use cncache_hub.Text.Search.{index-parts}
use cncache_hub.Proxy.Pool.{UpstreamPool, has_upstream, dockerhub}
use cncache_hub.Proxy.Route.{first_segment, after_slash, split_registry, cut_inside, digits, itoa}

drop-has_prefix : (s sep : Bytes) → has_prefix s sep ≡ true → sep ++ drop (length sep) s ≡ s
unfolding has_prefix
drop-has_prefix s [] h = refl
drop-has_prefix [] (c ∷ sep) h = cc
drop-has_prefix (d ∷ s) (c ∷ sep) h = ground (arith, drop-has_prefix s sep)

-- A text that is found parts the one that it is found in.
pub index-parts_text :
    (s sep : Bytes) (i : ℕ)
    → is_empty sep ≡ false
    → index s sep ≡ some i
    → take i s ++ (sep ++ drop (i + length sep) s) ≡ s
unfolding index
index-parts_text [] sep i n h = let q : none ≡ some i = rw n at h in cc
index-parts_text (c ∷ s) sep i n h = elim (Bool-cases (has_prefix (c ∷ s) sep)) [
  | inl e ↦
      let q : some 0 ≡ some i = rw (index, e) at h in
      let z : 0 ≡ i = cc in
      let from_start : 0 + length sep ≡ length sep = omega arith in
      subst (λ k. take k (c ∷ s) ++ (sep ++ drop (k + length sep) (c ∷ s)) ≡ c ∷ s) z
        (rw from_start (drop-has_prefix (c ∷ s) sep e))
  | inr e ↦ elim (Option-cases (index s sep)) [
    | inl o ↦ let q : none ≡ some i = rw (index, e, o) at h in cc
    | inr (j, o) ↦
        let q : some (suc j) ≡ some i = rw (index, e, o) at h in
        let z : suc j ≡ i = cc in
        let later : suc j + length sep ≡ suc (j + length sep) = omega arith in
        subst (λ k. take k (c ∷ s) ++ (sep ++ drop (k + length sep) (c ∷ s)) ≡ c ∷ s) z
          (rw later (ap (λ x. c ∷ x) (index-parts_text s sep j n o)))
  ]
]

not_zero : (i : ℕ) → (suc i == 0) ≡ false
not_zero i = ground arith

take_not_empty :
    (i : ℕ) (rest sep : Bytes)
    → index rest sep ≡ some (suc i)
    → is_empty (take (suc i) rest) ≡ false
unfolding index
take_not_empty i [] sep h = ground arith
take_not_empty i (c ∷ rest) sep h = refl

abbrev left_of : Option (Bytes × Bytes) → Bytes
left_of none = []
left_of (some (a, b)) = a

abbrev right_of : Option (Bytes × Bytes) → Bytes
right_of none = []
right_of (some (a, b)) = b

-- What a cut gives stands on both sides of the separator, and neither side is lost; the left one is
-- not empty.
pub cut_inside-parts :
    (rest sep a b : Bytes)
    → is_empty sep ≡ false
    → cut_inside rest sep ≡ some (a, b)
    → (a ++ (sep ++ b) ≡ rest) × (is_empty a ≡ false)
unfolding cut_inside
cut_inside-parts rest sep a b n h = elim (Option-cases (index rest sep)) [
  | inl o ↦ let q : none ≡ some (a, b) = rw (cut_inside, o) at h in cc
  | inr (zero, o) ↦ let q : none ≡ some (a, b) = rw (cut_inside, o) at h in cc
  | inr (suc i, o) ↦
      let q : some (take (suc i) rest, drop (suc i + length sep) rest) ≡ some (a, b) =
        rw (cut_inside, o, not_zero i) at h in
      let l : take (suc i) rest ≡ a = ap left_of q in
      let r : drop (suc i + length sep) rest ≡ b = ap right_of q in
      let parts = index-parts_text rest sep (suc i) n o in
      subst (λ x. (x ++ (sep ++ b) ≡ rest) × (is_empty x ≡ false)) l
        (subst (λ x. take (suc i) rest ++ (sep ++ x) ≡ rest) r parts, take_not_empty i rest sep o)
]

empty_text : (s : Bytes) → is_empty s ≡ true → [] ≡ s
empty_text [] h = refl
empty_text (c ∷ s) h = cc

first-after :
    (rest : Bytes) (o : Option ℕ)
    → index rest (codes "/") ≡ o
    → (first_segment rest o ++ 47 ∷ after_slash rest o ≡ rest) ⊎ (first_segment rest o ≡ rest)
first-after rest none h = inr refl
first-after rest (some zero) h = inr refl
first-after rest (some (suc i)) h = inl (rw (not_zero i) (index-parts rest 47 (suc i) h))

-- A registry that the pool has by name is split off with its slash, unless the path has none; any
-- other path is all dockerhub's.
split_registry-parts :
    (pool : UpstreamPool) (rest : Bytes)
    → let r = split_registry pool rest in
      ((r.0 ≡ dockerhub) × (r.1 ≡ rest))
      ⊎ ((has_upstream pool r.0 ≡ true) × ((r.0 ++ 47 ∷ r.1 ≡ rest) ⊎ (r.0 ≡ rest)))
unfolding split_registry
split_registry-parts pool rest = elim (Bool-cases (is_empty rest)) [
  | inl e ↦ rw e (inl (refl, empty_text rest e))
  | inr e ↦ elim (Bool-cases (has_upstream pool (first_segment rest (index rest (codes "/"))))) [
    | inl u ↦ rw (e, u) (inr (u, first-after rest (index rest (codes "/")) refl))
    | inr u ↦ rw (e, u) (inl (refl, refl))
  ]
]

-- The number that digits stand for.
unfoldable pub value : ℕ → Bytes → ℕ
value acc [] = acc
value acc (c ∷ s) = value (acc * 10 + (c - 48)) s

value-digits :
    (fuel n : ℕ) (buf : Bytes) → n < 10 ^ fuel → value 0 (digits fuel n buf) ≡ value n buf
unfolding value digits
value-digits zero n buf h = ap (λ x. value x buf) (omega arith)
value-digits (suc fuel) n buf h = elim (Bool-cases (n == 0)) [
  | inl e ↦ rw e (ap (λ x. value x buf) (sym ((==_iff n 0).0 e)))
  | inr e ↦ rw e (
      value-digits fuel (n / 10) ((48 + n % 10) ∷ buf) (omega arith)
      ∙ ap (λ x. value x buf) (omega arith))
]

value-text :
    (fuel n : ℕ) → n < 10 ^ fuel → value 0 (if n == 0 then codes "0" else digits fuel n []) ≡ n
unfolding value
value-text fuel n h = elim (Bool-cases (n == 0)) [
  | inl e ↦ rw e (sym ((==_iff n 0).0 e))
  | inr e ↦ rw e (value-digits fuel n [] h)
]

-- The text of a number that an int64 holds reads as that number.
pub value-itoa : (n : ℕ) → n < 2 ^ 63 → value 0 (itoa (pos n)) ≡ n
unfolding itoa
value-itoa n h = value-text 20 n (omega arith)
