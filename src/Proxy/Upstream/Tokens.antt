-- ===== src/Proxy/Upstream/Tokens.antt =====
-- What is sent to the upstream, and how long a token is kept.
use cncache_hub.Prelude.{
  ℕ, ◌<◌, ◌≡◌, refl, ap, ◌∙◌, true, false, not, Option, none, some, List, [], ◌∷◌, ◌++◌, any,
  if◌then◌else◌, ltb, arith, Bool-cases, inl, inr, All,
}
use cncache_hub.Text.{Bytes, codes, same, is_empty, has_prefix, to_lower}
use cncache_hub.Text.Equality.{same_refl}
use cncache_hub.Proxy.Pool.{Upstream}
use cncache_hub.Proxy.Headers.{Headers, one_of, skipped, passes_up, copy_request_headers}
use cncache_hub.Proxy.Upstream.{
  TokenResponse, TokenAnswer, answered, cache_key, cached_token, find_token, expires, token_of,
  store_token, take_answer, fetch_token, Response, Send, do_raw, or_bad_gateway, forwarded, or_ask,
  after_token, after_challenge, after_first, Challenge, round_trip, wants_token,
  parse_www_authenticate,
}

passes_up_sound : (k : Bytes) → passes_up k ≡ true → one_of skipped k ≡ false
unfolding passes_up
passes_up_sound k h = elim (Bool-cases (one_of skipped k)) [
  | inl e ↦ let q : false ≡ true = rw e at h in cc
  | inr e ↦ e
]

skip_one :
    (k : Bytes) (vs : List Bytes) (hs : Headers)
    → one_of skipped k ≡ true
    → copy_request_headers ((k, vs) ∷ hs) ≡ copy_request_headers hs
unfolding copy_request_headers passes_up
skip_one k vs hs h = rw h refl

-- No header that goes to the upstream is one of those that are to be skipped.
pub copy_request_headers-All :
    (hs : Headers) → All (λ h. one_of skipped h.0 ≡ false) (copy_request_headers hs)
unfolding copy_request_headers passes_up
copy_request_headers-All [] = tt
copy_request_headers-All ((k, vs) ∷ hs) = elim (Bool-cases (passes_up k)) [
  | inl e ↦ rw e (passes_up_sound k e, copy_request_headers-All hs)
  | inr e ↦ rw e (copy_request_headers-All hs)
]

skip_inside :
    (k : Bytes) (vs : List Bytes) (front back : Headers)
    → one_of skipped k ≡ true
    → copy_request_headers (front ++ (k, vs) ∷ back) ≡ copy_request_headers (front ++ back)
unfolding copy_request_headers
skip_inside k vs [] back h = skip_one k vs back h
skip_inside k vs ((j, ws) ∷ front) back h = elim (Bool-cases (passes_up j)) [
  | inl e ↦ rw e (ap (λ hs. (j, ws) ∷ hs) (skip_inside k vs front back h))
  | inr e ↦ rw e (skip_inside k vs front back h)
]

-- Two lists of headers of which the same ones are copied.
module _ (send : Send) (method path : Bytes) (hs hs' : Headers)
    (same_copy : copy_request_headers hs ≡ copy_request_headers hs') where
  do_raw_skips :
      (u : Upstream) (token : Bytes)
      → do_raw send u method path hs token ≡ do_raw send u method path hs' token
  unfolding do_raw
  do_raw_skips u token = rw same_copy refl

  token_skips :
      (r : Upstream × Option Bytes)
      → after_token send method path hs r ≡ after_token send method path hs' r
  unfolding after_token
  token_skips (u, none) = refl
  token_skips (u, some t) = ap (λ x. (u, or_bad_gateway x)) (do_raw_skips u t)

  challenge_skips :
      (ask : Challenge → TokenAnswer) (now : ℕ) (u : Upstream) (resp : Response)
      (o : Option Challenge)
      → after_challenge send ask now u method path hs resp o
        ≡ after_challenge send ask now u method path hs' resp o
  unfolding after_challenge
  challenge_skips ask now u resp none = refl
  challenge_skips ask now u resp (some c) = token_skips (fetch_token ask now u c)

  first_skips :
      (ask : Challenge → TokenAnswer) (now : ℕ) (u : Upstream) (o : Option Response)
      → after_first send ask now u method path hs o ≡ after_first send ask now u method path hs' o
  unfolding after_first
  first_skips ask now u none = refl
  first_skips ask now u (some resp) =
      ap (λ x. if not (wants_token resp) then (u, forwarded resp) else x)
        (challenge_skips ask now u resp (parse_www_authenticate resp.www_authenticate))

  round_trip_copies :
      (ask : Challenge → TokenAnswer) (now : ℕ) (u : Upstream)
      → round_trip send ask now u method path hs ≡ round_trip send ask now u method path hs'
  unfolding round_trip
  round_trip_copies ask now u =
      ap (after_first send ask now u method path hs) (do_raw_skips u [])
      ∙ first_skips ask now u (do_raw send u method path hs' [])

-- The names under which a client's credentials and its address travel.
abbrev pub private_names : List Bytes
private_names =
    codes "Authorization"
    ∷ codes "Cookie"
    ∷ codes "Proxy-Authorization"
    ∷ codes "X-Forwarded-For"
    ∷ codes "X-Real-Ip"
    ∷ codes "Forwarded"
    ∷ codes "Client-Ip"
    ∷ codes "X-Client-Ip"
    ∷ codes "True-Client-Ip"
    ∷ codes "Cf-Connecting-Ip"
    ∷ codes "Fastly-Client-Ip"
    ∷ []

private_skipped : (k : Bytes) → any (λ n. same n k) private_names ≡ true → one_of skipped k ≡ true
private_skipped k h = ground (arith, h)

-- A header of the client under a private name, such as its Authorization, its Cookie or its
-- X-Forwarded-For, wherever it stands among the headers, has no part in a round trip: neither in a
-- request, nor in the tokens, nor in the answer.
pub round_trip_skips :
    (send : Send) (ask : Challenge → TokenAnswer) (now : ℕ) (u : Upstream) (method path : Bytes)
    (k : Bytes) (vs : List Bytes) (front back : Headers)
    → any (λ n. same n k) private_names ≡ true
    → round_trip send ask now u method path (front ++ (k, vs) ∷ back)
      ≡ round_trip send ask now u method path (front ++ back)
round_trip_skips send ask now u method path k vs front back h =
    round_trip_copies send method path (front ++ (k, vs) ∷ back) (front ++ back)
      (skip_inside k vs front back (private_skipped k h)) ask now u

-- The token of the proxy's own access control goes to the upstream with its header.
copy_request_headers_leaks :
    (vs : List Bytes) (hs : Headers)
    → copy_request_headers ((codes "X-Cncachehub-Token", vs) ∷ hs)
      ≡ (codes "X-Cncachehub-Token", vs) ∷ copy_request_headers hs
unfolding copy_request_headers passes_up same has_prefix to_lower
copy_request_headers_leaks vs hs = refl

taken_token :
    (now : ℕ) (u : Upstream) (key : Bytes) (tr : TokenResponse)
    → is_empty (token_of tr) ≡ false
    → take_answer now u key (answered 200 (some tr))
      ≡ (store_token now u key tr, some (token_of tr))
taken_token now u key tr full = rw full refl

stored_token :
    (now later : ℕ) (u : Upstream) (key : Bytes) (tr : TokenResponse)
    → later < expires now tr.expires_in
    → cached_token later (store_token now u key tr) key ≡ some (token_of tr)
unfolding cached_token find_token
stored_token now later u key tr fresh =
    let good : ltb later (expires now tr.expires_in) ≡ true = ground (arith, fresh) in
    rw (cached_token, find_token, same_refl key, good) refl

-- A token that the upstream gave is given again for the same service and scope until thirty seconds
-- before its end, and the upstream is not asked: `ask'` is never looked at.
fetch_token_again :
    (ask ask' : Challenge → TokenAnswer) (now later : ℕ) (u : Upstream) (c c' : Challenge)
    (tr : TokenResponse)
    → cached_token now u (cache_key c.service c.scope) ≡ none
    → ask c ≡ answered 200 (some tr)
    → is_empty (token_of tr) ≡ false
    → cache_key c'.service c'.scope ≡ cache_key c.service c.scope
    → later < expires now tr.expires_in
    → let r = fetch_token ask now u c in
      (r.1 ≡ some (token_of tr)) × (fetch_token ask' later r.0 c' ≡ (r.0, some (token_of tr)))
unfolding fetch_token
fetch_token_again ask ask' now later u c c' tr absent got full key fresh =
    let k = cache_key c.service c.scope in
    let first : fetch_token ask now u c ≡ (store_token now u k tr, some (token_of tr)) =
      ap (or_ask ask now u c) absent ∙ ap (take_answer now u k) got ∙ taken_token now u k tr full in
    let again : fetch_token ask' later (store_token now u k tr) c'
        ≡ (store_token now u k tr, some (token_of tr)) =
      ap (or_ask ask' later (store_token now u k tr) c') (
        ap (cached_token later (store_token now u k tr)) key
        ∙ stored_token now later u k tr fresh) in
    rw first (refl, again)
