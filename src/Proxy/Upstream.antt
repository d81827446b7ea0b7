-- ===== src/Proxy/Upstream.antt =====
-- proxy/upstream.go: the tokens, and RoundTrip. What the network answers is an argument: `send`
-- builds and sends one request, `ask` asks a realm for a token.
pub mod Tokens
use cncache_hub.Prelude.{
  ℕ, zero, suc, ◌+◌, ◌-◌, ◌*◌, Bool, true, false, not, ◌&&◌, ◌||◌, Option, none, some, List, [],
  ◌∷◌, ◌++◌, if◌then◌else◌, ◌==◌, ltb, take, drop, reverse, Result, ok, err,
}
use cncache_hub.Prelude.Int.{ℤ}
use cncache_hub.Text.{
  Bytes, codes, same, is_empty, has_prefix, index, split, trim_space, trim_right, trim_prefix,
}
use cncache_hub.Proxy.Pool.{Upstream, TokenCacheEntry}
use cncache_hub.Proxy.Headers.{Headers, copy_request_headers, without, copy_answer_headers}

pub record Challenge : Type 0 where
  pub realm : Bytes
  pub service : Bytes
  pub scope : Bytes

abbrev pub trim_quotes : Bytes → Bytes
trim_quotes v = trim_right (reverse (trim_right (reverse v) 34)) 34

abbrev pub set_field : Bytes → Bytes → Challenge → Challenge
set_field k v c =
    if same k (codes "realm")
    then record c { realm = v }
    else if same k (codes "service")
    then record c { service = v }
    else if same k (codes "scope")
    then record c { scope = v }
    else c

-- One part of the challenge: key=value, or nothing that counts.
unfoldable pub read_part : Bytes → Challenge → Challenge
read_part part c =
    let p = trim_space part in
    elim (index p (codes "=")) [
      | none ↦ c
      | some eq ↦ set_field (trim_space (take eq p)) (trim_quotes (drop (suc eq) p)) c
    ]

unfoldable pub read_parts : List Bytes → Challenge → Challenge
unfolding read_part
read_parts [] c = c
read_parts (p ∷ ps) c = read_parts ps (read_part p c)

-- parseWwwAuthenticate; `none` is an error.
unfoldable pub parse_www_authenticate : Bytes → Option Challenge
unfolding read_parts
parse_www_authenticate h =
    let c =
      read_parts (split (trim_prefix h (codes "Bearer ")) 44)
        (record { realm = []; service = []; scope = [] }) in
    if not (has_prefix h (codes "Bearer ")) then none else if is_empty c.realm then none else some c

pub record TokenResponse : Type 0 where
  pub token : Bytes
  pub access_token : Bytes
  pub expires_in : ℕ

-- What asking for a token gives: no request or no answer, or a status with the decoded body, `none`
-- where it does not decode.
pub data TokenAnswer : Type 0 where
  no_answer : TokenAnswer
  answered : ℕ → Option TokenResponse → TokenAnswer

abbrev pub second : ℕ
second = 1000000000

unfoldable pub find_token : Bytes → List (Bytes × TokenCacheEntry) → Option TokenCacheEntry
find_token key [] = none
find_token key ((k, e) ∷ rest) = if same k key then some e else find_token key rest

-- service + "\x00" + scope
abbrev pub cache_key : Bytes → Bytes → Bytes
cache_key service scope = service ++ 0 ∷ scope

-- A token that the cache has and that is still good.
unfoldable pub cached_token : ℕ → Upstream → Bytes → Option Bytes
unfolding find_token
cached_token now u key = elim (find_token key u.token_cache) [
  | none ↦ none
  | some e ↦ if ltb now e.expires_at then some e.token else none
]

-- When a token that says `expires_in` is dropped: thirty seconds early, and a minute where it does
-- not say. An expiry of less than thirty seconds lies in the past, which is as good as now.
abbrev pub expires : ℕ → ℕ → ℕ
expires now expires_in =
    let secs = if expires_in == 0 then 60 else expires_in in (now + secs * second) - 30 * second

abbrev pub token_of : TokenResponse → Bytes
token_of tr = if is_empty tr.token then tr.access_token else tr.token

abbrev pub store_token : ℕ → Upstream → Bytes → TokenResponse → Upstream
store_token now u key tr = record u {
  token_cache =
      (key, record { token = token_of tr; expires_at = expires now tr.expires_in }) ∷ u.token_cache;
}

abbrev pub take_answer : ℕ → Upstream → Bytes → TokenAnswer → Upstream × Option Bytes
take_answer now u key no_answer = (u, none)
take_answer now u key (answered status none) = (u, none)
take_answer now u key (answered status (some tr)) =
    if not (status == 200)
    then (u, none)
    else if is_empty (token_of tr)
    then (u, none)
    else (store_token now u key tr, some (token_of tr))

abbrev pub or_ask :
    (Challenge → TokenAnswer) → ℕ → Upstream → Challenge → Option Bytes → Upstream × Option Bytes
or_ask ask now u c (some t) = (u, some t)
or_ask ask now u c none = take_answer now u (cache_key c.service c.scope) (ask c)

-- fetchToken; `none` is an error.
unfoldable pub fetch_token :
    (Challenge → TokenAnswer) → ℕ → Upstream → Challenge → Upstream × Option Bytes
unfolding cached_token
fetch_token ask now u c = or_ask ask now u c (cached_token now u (cache_key c.service c.scope))

pub record Response : Type 0 where
  pub status : ℕ
  pub headers : Headers
  pub www_authenticate : Bytes
  pub content_type : Bytes
  pub content_length : ℤ
  pub chunks : List Bytes
  pub breaks : Bool

pub record OutRequest : Type 0 where
  pub method : Bytes
  pub url : Bytes
  pub headers : Headers
  pub user_agent : Bytes
  pub auth_token : Bytes

abbrev pub Send : Type 0
Send = OutRequest → Option Response

-- doRaw. The field user_agent is the header of that name, which replaces the client's.
unfoldable pub do_raw : Send → Upstream → Bytes → Bytes → Headers → Bytes → Option Response
unfolding copy_request_headers without
do_raw send u method path headers auth_token = send (record {
  method = method;
  url = u.base_url ++ path;
  headers = without (codes "User-Agent") (copy_request_headers headers);
  user_agent = u.ua;
  auth_token = auth_token;
})

abbrev pub wants_token : Response → Bool
wants_token resp = resp.status == 401 && not (is_empty resp.www_authenticate)

-- What RoundTrip writes to the client: the upstream's answer, or a 502.
pub data Outcome : Type 0 where
  forwarded : Response → Outcome
  bad_gateway : Outcome

abbrev pub or_bad_gateway : Option Response → Outcome
or_bad_gateway none = bad_gateway
or_bad_gateway (some r) = forwarded r

-- The second request of RoundTrip, with the token.
unfoldable pub after_token :
    Send → Bytes → Bytes → Headers → Upstream × Option Bytes → Upstream × Outcome
unfolding do_raw
after_token send method path headers (u, none) = (u, bad_gateway)
after_token send method path headers (u, some t) =
    (u, or_bad_gateway (do_raw send u method path headers t))

-- A challenge that does not parse is handed on as it came.
unfoldable pub after_challenge :
    Send
    → (Challenge → TokenAnswer)
    → ℕ
    → Upstream
    → Bytes
    → Bytes
    → Headers
    → Response
    → Option Challenge
    → Upstream × Outcome
unfolding after_token fetch_token
after_challenge send ask now u method path headers resp none = (u, forwarded resp)
after_challenge send ask now u method path headers resp (some c) =
    after_token send method path headers (fetch_token ask now u c)

unfoldable pub after_first :
    Send
    → (Challenge → TokenAnswer)
    → ℕ
    → Upstream
    → Bytes
    → Bytes
    → Headers
    → Option Response
    → Upstream × Outcome
unfolding after_challenge parse_www_authenticate
after_first send ask now u method path headers none = (u, bad_gateway)
after_first send ask now u method path headers (some resp) =
    if not (wants_token resp)
    then (u, forwarded resp)
    else after_challenge send ask now u method path headers resp
        (parse_www_authenticate resp.www_authenticate)

-- RoundTrip: a 401 with a challenge is answered by one more request with a token.
unfoldable pub round_trip :
    Send → (Challenge → TokenAnswer) → ℕ → Upstream → Bytes → Bytes → Headers → Upstream × Outcome
unfolding do_raw after_first
round_trip send ask now u method path headers =
    after_first send ask now u method path headers (do_raw send u method path headers [])

-- forward: the status, the headers that pass, and the body as far as it comes.
unfoldable pub forward : Response → ℕ × Headers
unfolding copy_answer_headers
forward resp = (resp.status, copy_answer_headers resp.headers)
