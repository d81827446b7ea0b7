-- ===== src/Api/Access/Networks.antt =====
-- The networks of a patch of the access control, from the request to the stored list and back.
use cncache_hub.Prelude.{
  ◌≡◌, refl, ap, true, false, Option, none, some, List, [], ◌∷◌, ok, ◌>>=◌, All, Bool-cases, inl,
  inr,
}
use cncache_hub.Text.{Bytes, codes, join, is_empty, trim_space}
use cncache_hub.Text.Pieces.{Lacks, split-join}
use cncache_hub.Access.ClientIp.{Net}
use cncache_hub.Access.Config.{is_cidr, kept_cidrs, parse_cidr_list}
use cncache_hub.Api.Requests.{Handled, refuse}
use cncache_hub.Api.Access.{AccessPatch, writes, all_cidrs, whitelist_text, given}

-- A text that stands for itself in the stored list: without spaces around it, without a comma, and
-- not empty.
abbrev pub IsListed : Bytes → Type 0
IsListed c = (trim_space c ≡ c) × Lacks 44 c × (is_empty c ≡ false)

listed-Lacks : (l : List Bytes) → All IsListed l → All (Lacks 44) l
listed-Lacks [] a = tt
listed-Lacks (c ∷ cs) a = (a.0.1, listed-Lacks cs a.1)

join_filled :
    (c : Bytes) (cs : List Bytes) → is_empty c ≡ false → is_empty (join (c ∷ cs) 44) ≡ false
unfolding join
join_filled [] cs h = cc
join_filled (x ∷ c) [] h = refl
join_filled (x ∷ c) (d ∷ ds) h = refl

kept_cidrs-All :
    (net : Net) (l : List Bytes) → all_cidrs net l ≡ true → All IsListed l → kept_cidrs net l ≡ l
unfolding all_cidrs kept_cidrs
kept_cidrs-All net [] h a = refl
kept_cidrs-All net (c ∷ cs) h ((trimmed, lacks, filled), rest) = elim (Bool-cases (is_cidr net c)) [
  | inl e ↦
      let h' : all_cidrs net cs ≡ true = rw e at h in
      rw (trimmed, filled, e) (ap (λ l. c ∷ l) (kept_cidrs-All net cs h' rest))
  | inr e ↦ let q : false ≡ true = rw e at h in cc
]

-- A list of networks is read as it was written.
pub parse_cidr_list-join :
    (net : Net) (l : List Bytes)
    → all_cidrs net l ≡ true
    → All IsListed l
    → parse_cidr_list net (join l 44) ≡ l
unfolding parse_cidr_list join
parse_cidr_list-join net [] h a = refl
parse_cidr_list-join net (c ∷ cs) h a =
    let parts = split-join 44 c cs (listed-Lacks (c ∷ cs) a) in
    let filled = join_filled c cs a.0.2 in rw (filled, parts) (kept_cidrs-All net (c ∷ cs) h a)

-- The networks of a patch, if it gives any, stand for themselves.
abbrev pub AreListed : Option (List Bytes) → Type 0
AreListed none = Unit
AreListed (some l) = All IsListed l

abbrev pub AreCidrs : Net → Option (List Bytes) → Type 0
AreCidrs net none = Unit
AreCidrs net (some l) = all_cidrs net l ≡ true

-- Only networks pass the check of a patch.
pub whitelist_text-AreCidrs :
    (net : Net) (p : AccessPatch) (kvs : List (Bytes × Bytes)) (o : Option (List Bytes))
    → (whitelist_text net o >>= λ w. given (writes p w)) ≡ ok kvs
    → AreCidrs net o
unfolding whitelist_text
whitelist_text-AreCidrs net p kvs none h = tt
whitelist_text-AreCidrs net p kvs (some l) h = elim (Bool-cases (all_cidrs net l)) [
  | inl e ↦ e
  | inr e ↦
      let refused : Handled (List (Bytes × Bytes)) = refuse 400 (codes "invalid_cidr") in
      let q : refused ≡ ok kvs = rw e at h in cc
]
