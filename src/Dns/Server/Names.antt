-- ===== src/Dns/Server/Names.antt =====
-- dns/server.go: what matchDomain makes of a name before it compares it.
use cncache_hub.Prelude.{
  ◌-◌, ◌≡◌, ◌⊎◌, inl, inr, refl, sym, ap, ◌∙◌, subst, Bool, true, false, not, [], ◌∷◌, ◌++◌, map,
  reverse, reverse-append, reverse-reverse, append-nil, All, All-reverse, length, length-append,
  take-append, arith, Bool-cases,
}
use cncache_hub.Text.{
  Bytes, codes, has_suffix, is_space, lower, to_lower, trim_left_space, trim_space, trim_suffix,
}
use cncache_hub.Text.Affix.{has_suffix→append, has_suffix-append}
use cncache_hub.Dns.Server.{normal_name}

abbrev pub AreSpaces : Bytes → Type 0
AreSpaces = All (λ c. is_space c ≡ true)

abbrev pub starts_bare : Bytes → Bool
starts_bare [] = true
starts_bare (c ∷ s) = not (is_space c)

-- The core is the middle with one last dot, or the middle, which has none then.
abbrev pub IsDotted : Bytes → Bytes → Type 0
IsDotted core middle =
    (core ≡ middle ++ codes ".") ⊎ ((core ≡ middle) × (has_suffix core (codes ".") ≡ false))

-- The name is spaces, a core that neither begins nor ends with a space, and spaces; n is the core
-- without one last dot, letter by letter in lower case.
pub record IsPlain (name n : Bytes) : Type 0 where
  pub front : Bytes
  pub core : Bytes
  pub back : Bytes
  pub middle : Bytes
  pub parts : name ≡ front ++ (core ++ back)
  pub before : AreSpaces front
  pub after : AreSpaces back
  pub begins : starts_bare core ≡ true
  pub ends : starts_bare (reverse core) ≡ true
  pub dotted : IsDotted core middle
  pub lowered : n ≡ map lower middle

to_lower-map : (s : Bytes) → to_lower s ≡ map lower s
unfolding to_lower
to_lower-map [] = refl
to_lower-map (c ∷ s) = ap (λ t. lower c ∷ t) (to_lower-map s)

trim_left_bare : (s : Bytes) → starts_bare s ≡ true → trim_left_space s ≡ s
unfolding trim_left_space
trim_left_bare [] h = refl
trim_left_bare (c ∷ s) h = elim (Bool-cases (is_space c)) [
  | inl e ↦ let q : false ≡ true = rw e at h in cc
  | inr e ↦ rw e refl
]

trim_left_spaces : (f s : Bytes) → AreSpaces f → trim_left_space (f ++ s) ≡ trim_left_space s
unfolding trim_left_space
trim_left_spaces [] s h = refl
trim_left_spaces (c ∷ f) s (e, h) = rw e (trim_left_spaces f s h)

-- A text is its leading spaces and what is left of it without them.
trim_left_parts :
    (s : Bytes)
    → (f : Bytes) × AreSpaces f
      × (s ≡ f ++ trim_left_space s)
      × (starts_bare (trim_left_space s) ≡ true)
unfolding trim_left_space
trim_left_parts [] = ([], tt, refl, refl)
trim_left_parts (c ∷ s) = elim (Bool-cases (is_space c)) [
  | inl e ↦ let (f, a, q, b) = trim_left_parts s in rw e (c ∷ f, (e, a), ap (λ t. c ∷ t) q, b)
  | inr e ↦ rw e ([], tt, refl, rw e refl)
]

starts_bare-append : (a b : Bytes) → starts_bare (a ++ b) ≡ true → starts_bare a ≡ true
starts_bare-append [] b h = refl
starts_bare-append (c ∷ a) b h = h

only_spaces : (s : Bytes) → AreSpaces s → trim_left_space s ≡ []
unfolding trim_left_space
only_spaces s a = ap trim_left_space (sym (append-nil s)) ∙ trim_left_spaces s [] a

-- Spaces around a core that has none at its ends are what TrimSpace cuts off.
trim_space_core :
    (front core back : Bytes)
    → AreSpaces front
    → AreSpaces back
    → starts_bare core ≡ true
    → starts_bare (reverse core) ≡ true
    → trim_space (front ++ (core ++ back)) ≡ core
unfolding trim_space
trim_space_core front [] back f b h e =
    ap (λ t. reverse (trim_left_space (reverse t)))
      (trim_left_spaces front back f ∙ only_spaces back b)
trim_space_core front (c ∷ s) back f b h e =
    ap (λ t. reverse (trim_left_space (reverse t)))
      (trim_left_spaces front (c ∷ (s ++ back)) f ∙ trim_left_bare (c ∷ (s ++ back)) h)
    ∙ ap (λ t. reverse (trim_left_space t)) (reverse-append (c ∷ s) back)
    ∙ ap reverse (
        trim_left_spaces (reverse back) (reverse (c ∷ s))
          (All-reverse (λ c. is_space c ≡ true) back b)
        ∙ trim_left_bare (reverse (c ∷ s)) e)
    ∙ reverse-reverse (c ∷ s)

trim_suffix_dotted :
    (core middle : Bytes) → IsDotted core middle → trim_suffix core (codes ".") ≡ middle
unfolding trim_suffix
trim_suffix_dotted core middle (inl q) =
    let n : length (middle ++ codes ".") - 1 ≡ length middle =
      omega (arith, length-append middle (codes ".")) in
    rw (q, has_suffix-append middle (codes "."), n) (take-append middle (codes "."))
trim_suffix_dotted core middle (inr (q, e)) = rw e q

trim_suffix-IsDotted : (core : Bytes) → IsDotted core (trim_suffix core (codes "."))
unfolding trim_suffix
trim_suffix-IsDotted core = elim (Bool-cases (has_suffix core (codes "."))) [
  | inl e ↦
      let (m, q) = has_suffix→append core (codes ".") e in
      inl (q ∙ ap (λ t. t ++ codes ".") (sym (trim_suffix_dotted core m (inl q))))
  | inr e ↦ inr (sym (trim_suffix_dotted core core (inr (refl, e))), e)
]

-- matchDomain's own form of a name is its plain form.
pub IsPlain→normal_name : (name n : Bytes) → IsPlain name n → n ≡ normal_name name
unfolding normal_name
IsPlain→normal_name name n p =
    p.lowered
    ∙ sym (to_lower-map p.middle)
    ∙ ap to_lower (sym (trim_suffix_dotted p.core p.middle p.dotted))
    ∙ ap (λ t. to_lower (trim_suffix t (codes ".")))
        (sym (trim_space_core p.front p.core p.back p.before p.after p.begins p.ends)
          ∙ ap trim_space (sym p.parts))

pub normal_name-IsPlain : (name : Bytes) → IsPlain name (normal_name name)
unfolding normal_name trim_space
normal_name-IsPlain name =
    let (f, spaces, q, bare) = trim_left_parts name in
    let x = trim_left_space name in
    let (g, spaces', q', bare') = trim_left_parts (reverse x) in
    let z = trim_left_space (reverse x) in
    let whole : x ≡ reverse z ++ reverse g =
      sym (reverse-reverse x) ∙ ap reverse q' ∙ reverse-append g z in
    record {
      front = f;
      core = reverse z;
      back = reverse g;
      middle = trim_suffix (reverse z) (codes ".");
      parts = q ∙ ap (λ t. f ++ t) whole;
      before = spaces;
      after = All-reverse (λ c. is_space c ≡ true) g spaces';
      begins =
          starts_bare-append (reverse z) (reverse g) (subst (λ t. starts_bare t ≡ true) whole bare);
      ends = ap starts_bare (reverse-reverse z) ∙ bare';
      dotted = trim_suffix-IsDotted (reverse z);
      lowered = to_lower-map (trim_suffix (reverse z) (codes "."));
    }
