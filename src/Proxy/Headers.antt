-- ===== src/Proxy/Headers.antt =====
-- proxy/upstream.go: the headers that pass, in both directions. A name is in the canonical form
-- that net/http gives the names it reads.
use cncache_hub.Prelude.{
  ℕ, Bool, true, false, not, ◌&&◌, ◌||◌, List, [], ◌∷◌, ◌++◌, if◌then◌else◌, any, ◌==◌,
}
use cncache_hub.Text.{Bytes, codes, same, to_lower, has_prefix}

abbrev pub Headers : Type 0
Headers = List (Bytes × List Bytes)

abbrev pub one_of : List Bytes → Bytes → Bool
one_of names k = any (λ n. same n k) names

-- isHopByHopHeader
unfoldable pub is_hop_by_hop_header : Bytes → Bool
is_hop_by_hop_header k =
    one_of
      (codes "connection"
        ∷ codes "keep-alive"
        ∷ codes "proxy-authenticate"
        ∷ codes "proxy-authorization"
        ∷ codes "te"
        ∷ codes "trailer"
        ∷ codes "transfer-encoding"
        ∷ codes "upgrade"
        ∷ [])
      (to_lower k)

-- The names that copyRequestHeaders skips.
abbrev pub skipped : List Bytes
skipped =
    codes "Connection"
    ∷ codes "Keep-Alive"
    ∷ codes "Proxy-Authenticate"
    ∷ codes "Proxy-Authorization"
    ∷ codes "Te"
    ∷ codes "Trailer"
    ∷ codes "Transfer-Encoding"
    ∷ codes "Upgrade"
    ∷ codes "Host"
    ∷ codes "Authorization"
    ∷ codes "Cookie"
    ∷ codes "X-Forwarded-For"
    ∷ codes "X-Forwarded-Proto"
    ∷ codes "X-Forwarded-Host"
    ∷ codes "X-Forwarded-Port"
    ∷ codes "X-Forwarded-Scheme"
    ∷ codes "X-Real-IP"
    ∷ codes "X-Real-Ip"
    ∷ codes "Forwarded"
    ∷ codes "Client-Ip"
    ∷ codes "Cf-Connecting-Ip"
    ∷ codes "True-Client-Ip"
    ∷ codes "Fastly-Client-Ip"
    ∷ codes "X-Client-Ip"
    ∷ codes "X-Original-Forwarded-For"
    ∷ []

unfoldable pub passes_up : Bytes → Bool
passes_up k = not (one_of skipped k) && not (has_prefix (to_lower k) (codes "x-cnch-"))

-- copyRequestHeaders, into an empty header.
unfoldable pub copy_request_headers : Headers → Headers
unfolding passes_up
copy_request_headers [] = []
copy_request_headers ((k, vs) ∷ rest) =
    if passes_up k then (k, vs) ∷ copy_request_headers rest else copy_request_headers rest

-- The headers but for one name, as before it is set anew.
unfoldable pub without : Bytes → Headers → Headers
without name [] = []
without name ((k, vs) ∷ rest) =
    if same k name then without name rest else (k, vs) ∷ without name rest

-- The answer's headers that forward and fetchAndCache add.
unfoldable pub copy_answer_headers : Headers → Headers
unfolding is_hop_by_hop_header
copy_answer_headers [] = []
copy_answer_headers ((k, vs) ∷ rest) =
    if is_hop_by_hop_header k || same k (codes "Date") || same k (codes "Server")
    then copy_answer_headers rest
    else (k, vs) ∷ copy_answer_headers rest

-- escapeJSON: the backslashes first, then the quotes.
unfoldable pub replace_byte : ℕ → Bytes → Bytes → Bytes
replace_byte b by [] = []
replace_byte b by (c ∷ s) = elim (c == b) [
  | true ↦ by ++ replace_byte b by s
  | false ↦ c ∷ replace_byte b by s
]

unfoldable pub escape_json : Bytes → Bytes
unfolding replace_byte
escape_json s = replace_byte 34 (92 ∷ 34 ∷ []) (replace_byte 92 (92 ∷ 92 ∷ []) s)
