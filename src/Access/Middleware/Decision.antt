-- ===== src/Access/Middleware/Decision.antt =====
-- Who is served.
use cncache_hub.Prelude.{
  ◌≡◌, ◌↔◌, ◌⊎◌, inl, inr, refl, sym, Bool, true, false, not, ◌&&◌, ◌||◌, some, List, [], ◌∷◌, ◌==◌,
  length, arith, Bool-cases, Option-cases, ==_iff,
}
use cncache_hub.Text.{Bytes, is_empty}
use cncache_hub.Access.ClientIp.{Net, Request, real, is_trusted_proxy}
use cncache_hub.Access.ClientIp.Trust.{real_untrusted}
use cncache_hub.Access.Config.{Config}
use cncache_hub.Access.Middleware.{
  served, unauthorized, extract_token, any_differs, constant_time_equal, is_loopback,
  ip_matches_cidrs, on_whitelist, middleware,
}

equal_step : (a b : Bytes) → length a ≡ length b → any_differs a b ≡ false → a ≡ b
unfolding any_differs
equal_step [] [] l h = refl
equal_step [] (y ∷ ys) l h = ground (arith, l)
equal_step (x ∷ xs) [] l h = ground (arith, l)
equal_step (x ∷ xs) (y ∷ ys) l h = ground (arith, equal_step xs ys, l, h)

differs_refl : (a : Bytes) → any_differs a a ≡ false
unfolding any_differs
differs_refl [] = refl
differs_refl (x ∷ xs) = ground (arith, differs_refl xs)

equal_texts : (a b : Bytes) → constant_time_equal a b ≡ true → a ≡ b
unfolding constant_time_equal
equal_texts a b h = elim (Bool-cases (length a == length b)) [
  | inl e ↦ equal_step a b ((==_iff (length a) (length b)).0 e) (ground arith)
  | inr e ↦ ground arith
]

-- The comparison that looks at every byte is the equality of the texts.
pub constant_time_equal_iff : (a b : Bytes) → (constant_time_equal a b ≡ true) ↔ (a ≡ b)
unfolding constant_time_equal
constant_time_equal_iff a b = (equal_texts a b, λ e. rw e (ground (arith, differs_refl b)))

-- A network of the list has the address; a text that is no network counts for nothing.
abbrev pub Covers : (net : Net) → net.Ip → List Bytes → Type 0
Covers net ip [] = ⊥
Covers net ip (c ∷ cs) =
    ((n : net.IpNet) × (net.parse_cidr c ≡ some n) × (net.includes n ip ≡ true)) ⊎ Covers net ip cs

ip_matches_cidrs→Covers :
    (net : Net) (ip : net.Ip) (cs : List Bytes)
    → ip_matches_cidrs net ip cs ≡ true
    → Covers net ip cs
unfolding ip_matches_cidrs
ip_matches_cidrs→Covers net ip [] h = cc
ip_matches_cidrs→Covers net ip (c ∷ cs) h = elim (Option-cases (net.parse_cidr c)) [
  | inl e ↦ inr (ip_matches_cidrs→Covers net ip cs (rw (e, ip_matches_cidrs) at h))
  | inr (n, e) ↦
      let h' : (net.includes n ip || ip_matches_cidrs net ip cs) ≡ true =
        rw (e, ip_matches_cidrs) at h in
      elim (Bool-cases (net.includes n ip)) [
        | inl i ↦ inl (n, e, i)
        | inr i ↦ inr (ip_matches_cidrs→Covers net ip cs (rw i at h'))
      ]
]

Covers→ip_matches_cidrs :
    (net : Net) (ip : net.Ip) (cs : List Bytes)
    → Covers net ip cs
    → ip_matches_cidrs net ip cs ≡ true
unfolding ip_matches_cidrs
Covers→ip_matches_cidrs net ip [] h = absurd h
Covers→ip_matches_cidrs net ip (c ∷ cs) (inl (n, e, i)) = rw (e, ip_matches_cidrs, i) refl
Covers→ip_matches_cidrs net ip (c ∷ cs) (inr h) =
    let ih = Covers→ip_matches_cidrs net ip cs h in
    elim (Option-cases (net.parse_cidr c)) [
      | inl e ↦ rw (e, ip_matches_cidrs) ih
      | inr (n, e) ↦ rw (e, ip_matches_cidrs) (ground (arith, ih))
    ]

-- The reasons for which the documentation lets a client in.
abbrev pub IsAllowed : (net : Net) → Config → Request → Bytes → Type 0
IsAllowed net cfg r client =
    (cfg.enabled ≡ false)
    ⊎ (((cfg.loopback_bypass ≡ true) × (is_loopback net client ≡ true))
        ⊎ (((is_empty cfg.token ≡ false) × (extract_token r ≡ cfg.token))
            ⊎ ((ip : net.Ip) × (net.parse_ip client ≡ some ip) × Covers net ip cfg.ip_whitelist)))

on_whitelist-Covers :
    (net : Net) (cfg : Config) (client : Bytes)
    → on_whitelist net cfg client ≡ true
    → (ip : net.Ip) × (net.parse_ip client ≡ some ip) × Covers net ip cfg.ip_whitelist
unfolding on_whitelist
on_whitelist-Covers net cfg client h = elim (Option-cases (net.parse_ip client)) [
  | inl e ↦ let q : false ≡ true = rw (e, on_whitelist) at h in cc
  | inr (ip, e) ↦
      (ip, e, ip_matches_cidrs→Covers net ip cfg.ip_whitelist (rw (e, on_whitelist) at h))
]

Covers-on_whitelist :
    (net : Net) (cfg : Config) (client : Bytes) (ip : net.Ip)
    → net.parse_ip client ≡ some ip
    → Covers net ip cfg.ip_whitelist
    → on_whitelist net cfg client ≡ true
unfolding on_whitelist
Covers-on_whitelist net cfg client ip e c =
    rw (e, on_whitelist) (Covers→ip_matches_cidrs net ip cfg.ip_whitelist c)

abbrev has_token : Config → Request → Bool
has_token cfg r =
    not (is_empty cfg.token)
    && not (is_empty (extract_token r))
    && constant_time_equal (extract_token r) cfg.token

has_token_sound :
    (cfg : Config) (r : Request)
    → has_token cfg r ≡ true
    → (is_empty cfg.token ≡ false) × (extract_token r ≡ cfg.token)
has_token_sound cfg r h =
    (ground arith, (constant_time_equal_iff (extract_token r) cfg.token).0 (ground arith))

has_token_complete :
    (cfg : Config) (r : Request)
    → is_empty cfg.token ≡ false
    → extract_token r ≡ cfg.token
    → has_token cfg r ≡ true
has_token_complete cfg r n e =
    let q = (constant_time_equal_iff cfg.token cfg.token).1 refl in rw (e, n, q) refl

served→IsAllowed :
    (net : Net) (trusted : List net.IpNet) (cfg : Config) (r : Request)
    → middleware net trusted cfg r ≡ served
    → IsAllowed net cfg r (real net trusted r)
unfolding middleware
served→IsAllowed net trusted cfg r h =
    let client = real net trusted r in
    elim (Bool-cases cfg.enabled) [
      | inr e ↦ inl e
      | inl e ↦ elim (Bool-cases (cfg.loopback_bypass && is_loopback net client)) [
        | inl l ↦ inr (inl (ground (arith, l)))
        | inr l ↦ elim (Bool-cases (has_token cfg r)) [
          | inl t ↦ inr (inr (inl (has_token_sound cfg r t)))
          | inr t ↦ elim (Bool-cases (on_whitelist net cfg client)) [
            | inl w ↦ inr (inr (inr (on_whitelist-Covers net cfg client w)))
            | inr w ↦ let q : unauthorized ≡ served = rw (e, l, t, w) at h in cc
          ]
        ]
      ]
    ]

IsAllowed→served :
    (net : Net) (trusted : List net.IpNet) (cfg : Config) (r : Request)
    → IsAllowed net cfg r (real net trusted r)
    → middleware net trusted cfg r ≡ served
unfolding middleware
IsAllowed→served net trusted cfg r (inl e) = rw e refl
IsAllowed→served net trusted cfg r (inr (inl (l, b))) = elim (Bool-cases cfg.enabled) [
  | inl e ↦ rw (e, l, b) refl
  | inr e ↦ rw e refl
]
IsAllowed→served net trusted cfg r (inr (inr (inl (n, t)))) =
    let has = has_token_complete cfg r n t in ground (arith, has)
IsAllowed→served net trusted cfg r (inr (inr (inr (ip, e, c)))) =
    let w = Covers-on_whitelist net cfg (real net trusted r) ip e c in ground (arith, w)

-- A request is served exactly when access control is off, or its client's address is a loopback one
-- with the bypass on, or its token is the configured one and not empty, or its address parses and a
-- network of the whitelist has it.
pub middleware_iff :
    (net : Net) (trusted : List net.IpNet) (cfg : Config) (r : Request)
    → (middleware net trusted cfg r ≡ served) ↔ IsAllowed net cfg r (real net trusted r)
middleware_iff net trusted cfg r =
    (served→IsAllowed net trusted cfg r, IsAllowed→served net trusted cfg r)

-- From a peer that is no trusted proxy, the headers that proxies add change no decision.
pub middleware_unspoofed :
    (net : Net) (trusted : List net.IpNet) (cfg : Config) (r : Request) (forwarded real_ip : Bytes)
    → is_trusted_proxy net trusted r ≡ false
    → middleware net trusted cfg (record r { x_forwarded_for = forwarded; x_real_ip = real_ip })
      ≡ middleware net trusted cfg r
unfolding middleware extract_token
middleware_unspoofed net trusted cfg r forwarded real_ip h =
    let same = sym (
      real_untrusted net trusted r (record r { x_forwarded_for = forwarded; x_real_ip = real_ip })
        refl h) in
    rw same refl
