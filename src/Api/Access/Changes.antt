-- ===== src/Api/Access/Changes.antt =====
-- What a change of the access control's settings makes of the middleware's configuration.
use cncache_hub.Prelude.{
  ℕ, ◌≡◌, refl, ap, ap₂, ◌∙◌, Bool, true, false, not, Option, none, some, List, [], ◌∷◌, ok, ◌>>=◌,
  Bool-cases, inl, inr,
}
use cncache_hub.Text.{Bytes, codes, same, join, is_empty}
use cncache_hub.Text.Equality.{same_refl}
use cncache_hub.Access.ClientIp.{Net}
use cncache_hub.Access.Config.{Config, parse_cidr_list}
use cncache_hub.Storage.Resources.{or_old}
use cncache_hub.Storage.Settings.{Setting, get_string, set_many, set_all}
use cncache_hub.Storage.Settings.Values.{last_written, last_written-append, get_string-set_all}
use cncache_hub.Api.Requests.{Handled, refuse, document, decode_json_body, Caller, require_admin}
use cncache_hub.Api.Access.{
  enabled_key, token_key, whitelist_key, loopback_key, load_access_config, AccessControlConfig,
  access_control_config, AccessPatch, change, flag_text, writes, all_cidrs, whitelist_text, given,
  store_changes, access_changes, apply_changes, access_control_put,
}
use cncache_hub.Api.Access.Networks.{
  AreListed, AreCidrs, parse_cidr_list-join, whitelist_text-AreCidrs,
}

last_written-own :
    (key old : Bytes) (o : Option Bytes) → last_written (change key o) key old ≡ or_old o old
unfolding last_written
last_written-own key old none = refl
last_written-own key old (some v) = rw (same_refl key) refl

last_written-other :
    (key other old : Bytes) (o : Option Bytes)
    → same key other ≡ false
    → last_written (change key o) other old ≡ old
unfolding last_written
last_written-other key other old none n = refl
last_written-other key other old (some v) n = rw n refl

abbrev joined : Option (List Bytes) → Option Bytes
joined none = none
joined (some l) = some (join l 44)

given_lem : (xs kvs : List (Bytes × Bytes)) → given xs ≡ ok kvs → kvs ≡ xs
given_lem [] kvs h = cc
given_lem (x ∷ xs) kvs h = cc

access_changes_lem :
    (net : Net) (p : AccessPatch) (kvs : List (Bytes × Bytes)) (o : Option (List Bytes))
    → (whitelist_text net o >>= λ w. given (writes p w)) ≡ ok kvs
    → kvs ≡ writes p (joined o)
unfolding whitelist_text
access_changes_lem net p kvs none h = given_lem (writes p none) kvs h
access_changes_lem net p kvs (some l) h = elim (Bool-cases (all_cidrs net l)) [
  | inl e ↦ given_lem (writes p (some (join l 44))) kvs (rw e at h)
  | inr e ↦
      let refused : Handled (List (Bytes × Bytes)) = refuse 400 (codes "invalid_cidr") in
      let q : refused ≡ ok kvs = rw e at h in cc
]

-- What the four keys have after the writes.
writes_last :
    (p : AccessPatch) (w : Option Bytes) (key old : Bytes)
    → last_written (writes p w) key old
      ≡ last_written (change loopback_key (flag_text p.loopback_bypass)) key (
          last_written (change whitelist_key w) key (
            last_written
              (change token_key p.token)
              key
              (last_written (change enabled_key (flag_text p.enabled)) key old)))
writes_last p w key old =
    last_written-append (change enabled_key (flag_text p.enabled)) _ key old
    ∙ last_written-append (change token_key p.token) _ key _
    ∙ last_written-append (change whitelist_key w) _ key _

writes_enabled :
    (p : AccessPatch) (w : Option Bytes) (old : Bytes)
    → last_written (writes p w) enabled_key old ≡ or_old (flag_text p.enabled) old
unfolding same
writes_enabled p w old =
    writes_last p w enabled_key old
    ∙ last_written-other loopback_key enabled_key _ (flag_text p.loopback_bypass) refl
    ∙ last_written-other whitelist_key enabled_key _ w refl
    ∙ last_written-other token_key enabled_key _ p.token refl
    ∙ last_written-own enabled_key old (flag_text p.enabled)

writes_token :
    (p : AccessPatch) (w : Option Bytes) (old : Bytes)
    → last_written (writes p w) token_key old ≡ or_old p.token old
unfolding same
writes_token p w old =
    writes_last p w token_key old
    ∙ last_written-other loopback_key token_key _ (flag_text p.loopback_bypass) refl
    ∙ last_written-other whitelist_key token_key _ w refl
    ∙ ap (last_written (change token_key p.token) token_key)
        (last_written-other enabled_key token_key old (flag_text p.enabled) refl)
    ∙ last_written-own token_key old p.token

writes_whitelist :
    (p : AccessPatch) (w : Option Bytes) (old : Bytes)
    → last_written (writes p w) whitelist_key old ≡ or_old w old
unfolding same
writes_whitelist p w old =
    writes_last p w whitelist_key old
    ∙ last_written-other loopback_key whitelist_key _ (flag_text p.loopback_bypass) refl
    ∙ ap (last_written (change whitelist_key w) whitelist_key) (
        last_written-other token_key whitelist_key _ p.token refl
        ∙ last_written-other enabled_key whitelist_key old (flag_text p.enabled) refl)
    ∙ last_written-own whitelist_key old w

writes_loopback :
    (p : AccessPatch) (w : Option Bytes) (old : Bytes)
    → last_written (writes p w) loopback_key old ≡ or_old (flag_text p.loopback_bypass) old
unfolding same
writes_loopback p w old =
    writes_last p w loopback_key old
    ∙ ap (last_written (change loopback_key (flag_text p.loopback_bypass)) loopback_key) (
        last_written-other whitelist_key loopback_key _ w refl
        ∙ last_written-other token_key loopback_key _ p.token refl
        ∙ last_written-other enabled_key loopback_key old (flag_text p.enabled) refl)
    ∙ last_written-own loopback_key old (flag_text p.loopback_bypass)

is_true :
    (o : Option Bool) (old : Bytes)
    → same (or_old (flag_text o) old) (codes "true") ≡ or_old o (same old (codes "true"))
unfolding same
is_true none old = refl
is_true (some true) old = refl
is_true (some false) old = refl

is_not_false :
    (o : Option Bool) (old : Bytes)
    → not (same (or_old (flag_text o) old) (codes "false"))
      ≡ or_old o (not (same old (codes "false")))
unfolding same
is_not_false none old = refl
is_not_false (some true) old = refl
is_not_false (some false) old = refl

parsed :
    (net : Net) (o : Option (List Bytes)) (old : Bytes)
    → AreCidrs net o
    → AreListed o
    → parse_cidr_list net (or_old (joined o) old) ≡ or_old o (parse_cidr_list net old)
parsed net none old h a = refl
parsed net (some l) old h a = parse_cidr_list-join net l h a

-- The configuration that a patch makes of an old one: what it gives, and the rest as it was.
abbrev pub changed : AccessPatch → Config → Config
changed p old = record {
  enabled = or_old p.enabled old.enabled;
  token = or_old p.token old.token;
  ip_whitelist = or_old p.ip_whitelist old.ip_whitelist;
  loopback_bypass = or_old p.loopback_bypass old.loopback_bypass;
}

abbrev config_of : Bool → Bytes → List Bytes → Bool → Config
config_of e t w l = record { enabled = e; token = t; ip_whitelist = w; loopback_bypass = l }

-- What the answer says of a configuration.
abbrev pub shown : Config → AccessControlConfig
shown c = record {
  enabled = c.enabled;
  token_set = not (is_empty c.token);
  ip_whitelist = c.ip_whitelist;
  loopback_bypass = c.loopback_bypass;
}

load-writes :
    (net : Net) (now : ℕ) (rows : List Setting) (p : AccessPatch) (user : ℕ)
    → AreCidrs net p.ip_whitelist
    → AreListed p.ip_whitelist
    → load_access_config net (set_all now rows (writes p (joined p.ip_whitelist)) user)
      ≡ changed p (load_access_config net rows)
unfolding load_access_config
load-writes net now rows p user cidrs listed =
    let w = joined p.ip_whitelist in
    let old = load_access_config net rows in
    let after = set_all now rows (writes p w) user in
    let got = λ (key : Bytes). get_string-set_all now rows (writes p w) key [] user in
    let e = got enabled_key ∙ writes_enabled p w (get_string rows enabled_key []) in
    let t = got token_key ∙ writes_token p w (get_string rows token_key []) in
    let l = got whitelist_key ∙ writes_whitelist p w (get_string rows whitelist_key []) in
    let b = got loopback_key ∙ writes_loopback p w (get_string rows loopback_key []) in
    let wl =
      ap (parse_cidr_list net) l
      ∙ parsed net p.ip_whitelist (get_string rows whitelist_key []) cidrs listed in
    let en =
      ap (λ s. same s (codes "true")) e ∙ is_true p.enabled (get_string rows enabled_key []) in
    let lo =
      ap (λ s. not (same s (codes "false"))) b
      ∙ is_not_false p.loopback_bypass (get_string rows loopback_key []) in
    let left : _
        ≡ config_of (changed p old).enabled (changed p old).token
            (parse_cidr_list net (get_string after whitelist_key []))
            (load_access_config net after).loopback_bypass =
      ap₂
        (λ x y.
          config_of x y (load_access_config net after).ip_whitelist
            (load_access_config net after).loopback_bypass)
        en t in
    left ∙ ap₂ (config_of (changed p old).enabled (changed p old).token) wl lo

-- A PUT of an administrator whose patch passes the checks and whose writes succeed, and whose networks,
-- if it gives any, have no spaces around them, no comma and are not empty: the middleware gets what
-- the patch gives, an empty token or an empty list too, and the old settings for the rest; the answer
-- says the same.
pub access_control_put_lem :
    (net : Net) (now : ℕ) (rows : List Setting) (cur : Config) (c : Caller) (p : AccessPatch)
    (kvs : List (Bytes × Bytes))
    → same c.role (codes "admin") ≡ true
    → AreListed p.ip_whitelist
    → access_changes net p ≡ ok kvs
    → let a = access_control_put net now false rows cur c (document p) in
      let new = changed p (load_access_config net rows) in
      (load_access_config net a.0 ≡ new)
      × (a.1 ≡ new)
      × (a.2 ≡ ok (record { status = 200; body = shown new }))
unfolding access_control_put require_admin decode_json_body apply_changes set_many
    access_control_config access_changes
access_control_put_lem net now rows cur c p kvs admin listed h =
    let e = access_changes_lem net p kvs p.ip_whitelist h in
    let run : access_control_put net now false rows cur c (document p)
        ≡ store_changes net rows cur (some (set_all now rows kvs c.id)) =
      rw admin (ap (apply_changes net now false rows cur c) h) in
    let new =
      ap (λ k. load_access_config net (set_all now rows k c.id)) e
      ∙ load-writes net now rows p c.id (whitelist_text-AreCidrs net p kvs p.ip_whitelist h)
          listed in
    (
      ap (λ x. load_access_config net x.0) run ∙ new,
      ap (λ x. x.1) run ∙ new,
      ap (λ x. x.2) run ∙ ap (λ n. ok (record { status = 200; body = shown n })) new,
    )
