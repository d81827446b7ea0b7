-- ===== src/Dns/Server/Rules.antt =====
-- Which names the rules take.
use cncache_hub.Prelude.{
  ◌≡◌, ◌↔◌, ◌⊎◌, inl, inr, refl, subst, true, false, List, [], ◌∷◌, ◌++◌, drop, arith, Bool-cases,
}
use cncache_hub.Text.{Bytes, codes, same, is_empty, has_prefix, has_suffix}
use cncache_hub.Text.Equality.{same_iff}
use cncache_hub.Text.Affix.{
  has_prefix-append, has_prefix→append, has_suffix→append, has_suffix-append,
}
use cncache_hub.Dns.Server.Names.{IsPlain, IsPlain→normal_name, normal_name-IsPlain}
use cncache_hub.Dns.Server.{Server, normal_name, rule_matches, any_rule_matches, match_domain}

-- What a rule stands for: `*.d` for every name that ends in `.d`, any other rule for itself.
abbrev pub Covers : Bytes → Bytes → Type 0
Covers name rule =
    ((d : Bytes) × (rule ≡ codes "*." ++ d) × ((front : Bytes) × (name ≡ front ++ 46 ∷ d)))
    ⊎ ((has_prefix rule (codes "*.") ≡ false) × (name ≡ rule))

-- The plain form of a rule, of which something is left, covers the name.
abbrev pub PlainCovers : Bytes → Bytes → Type 0
PlainCovers name rule = (r : Bytes) × IsPlain rule r × (is_empty r ≡ false) × Covers name r

abbrev pub AnyCovers : Bytes → List Bytes → Type 0
AnyCovers name [] = ⊥
AnyCovers name (rule ∷ rules) = PlainCovers name rule ⊎ AnyCovers name rules

rule_matches→Covers : (name rule : Bytes) → rule_matches name rule ≡ true → Covers name rule
unfolding rule_matches
rule_matches→Covers name rule h = elim (Bool-cases (has_prefix rule (codes "*."))) [
  | inl e ↦
      let (d, q) = has_prefix→append rule (codes "*.") e in
      let h' : has_suffix name (drop 1 rule) ≡ true = rw e at h in
      let h'' : has_suffix name (46 ∷ d) ≡ true =
        subst (λ x. has_suffix name (drop 1 x) ≡ true) q h' in
      inl (d, q, has_suffix→append name (46 ∷ d) h'')
  | inr e ↦ let h' : same name rule ≡ true = rw e at h in inr (e, (same_iff name rule).0 h')
]

Covers→rule_matches : (name rule : Bytes) → Covers name rule → rule_matches name rule ≡ true
unfolding rule_matches
Covers→rule_matches name rule (inl (d, q, (front, n))) =
    let p : has_prefix rule (codes "*.") ≡ true = rw q (has_prefix-append (codes "*.") d) in
    rw (p, q, n) (has_suffix-append front (46 ∷ d))
Covers→rule_matches name rule (inr (p, n)) = rw p ((same_iff name rule).1 n)

any_rule_matches→AnyCovers :
    (name : Bytes) (rules : List Bytes) → any_rule_matches name rules ≡ true → AnyCovers name rules
unfolding any_rule_matches
any_rule_matches→AnyCovers name [] h = cc
any_rule_matches→AnyCovers name (rule ∷ rules) h =
    let r = normal_name rule in
    elim (Bool-cases (is_empty r)) [
      | inl e ↦ inr (any_rule_matches→AnyCovers name rules (rw e at h))
      | inr e ↦ elim (Bool-cases (rule_matches name r)) [
        | inl m ↦ inl (r, normal_name-IsPlain rule, e, rule_matches→Covers name r m)
        | inr m ↦ inr (any_rule_matches→AnyCovers name rules (rw (e, m) at h))
      ]
    ]

AnyCovers→any_rule_matches :
    (name : Bytes) (rules : List Bytes) → AnyCovers name rules → any_rule_matches name rules ≡ true
unfolding any_rule_matches
AnyCovers→any_rule_matches name [] c = absurd c
AnyCovers→any_rule_matches name (rule ∷ rules) (inl (r, p, e, c)) =
    let q = IsPlain→normal_name rule r p in
    let e' : is_empty (normal_name rule) ≡ false = rw q at e in
    let m : rule_matches name (normal_name rule) ≡ true = rw q at (Covers→rule_matches name r c) in
    rw (e', m) refl
AnyCovers→any_rule_matches name (rule ∷ rules) (inr c) =
    let ih = AnyCovers→any_rule_matches name rules c in ground (arith, ih)

-- A name is taken exactly when something is left of its plain form and the plain form of a rule, of
-- which something is left too, covers that. A plain form is without the spaces around it and without
-- one last dot, letter by letter in lower case.
pub match_domain_iff :
    (s : Server) (name : Bytes)
    → (match_domain s name ≡ true)
      ↔ ((n : Bytes) × IsPlain name n × (is_empty n ≡ false) × AnyCovers n s.cfg.domain_rules)
unfolding match_domain
match_domain_iff s name = (
  λ h. elim (Bool-cases (is_empty (normal_name name))) [
    | inl e ↦ let q : false ≡ true = rw e at h in cc
    | inr e ↦ (
      normal_name name,
      normal_name-IsPlain name,
      e,
      any_rule_matches→AnyCovers (normal_name name) s.cfg.domain_rules (rw e at h),
    )
  ],
  λ (n, p, e, c).
      let q = IsPlain→normal_name name n p in
      let e' : is_empty (normal_name name) ≡ false = rw q at e in
      let m : any_rule_matches (normal_name name) s.cfg.domain_rules ≡ true =
        rw q at (AnyCovers→any_rule_matches n s.cfg.domain_rules c) in
      rw e' m,
)
