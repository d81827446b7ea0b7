-- ===== src/Api/Requests.antt =====
-- api/bodylimit.go, api/dns_handlers.go: the body of a request and the check for an administrator. An
-- error is its status and code; the message is left out.
use cncache_hub.Prelude.{ℕ, Bool, true, Option, none, some, if◌then◌else◌, Result, ok, err}
use cncache_hub.Prelude.Int.{ℤ, pos, lt_ℤ, pos_part}
use cncache_hub.Text.{Bytes, codes, same}

pub record ApiError : Type 0 where
  pub status : ℕ
  pub code : Bytes

-- An answer without an error: its status and what it says.
pub record ApiReply (A : Type 0) : Type 0 where
  pub status : ℕ
  pub body : A

abbrev pub Handled : Type 0 → Type 0
Handled A = Result ApiError A

abbrev pub refuse : {A : Type 0} → ℕ → Bytes → Result ApiError A
refuse status code = err (record { status = status; code = code })

-- What a json.Decoder makes of a body of at most 1 MiB that may hold one document.
pub data Decoded (A : Type 0) : Type 0 where
  too_large empty_body malformed : Decoded A
  followed : A → Decoded A
  document : A → Decoded A

-- decodeJSONBody
unfoldable pub decode_json_body : {A : Type 0} → Decoded A → Handled A
decode_json_body too_large = refuse 413 (codes "body_too_large")
decode_json_body empty_body = refuse 400 (codes "invalid_json")
decode_json_body malformed = refuse 400 (codes "invalid_json")
decode_json_body (followed a) = refuse 400 (codes "invalid_json")
decode_json_body (document a) = ok a

-- Who calls: the role and the id that the session gives.
pub record Caller : Type 0 where
  pub role : Bytes
  pub id : ℕ

-- requireAdmin
unfoldable pub require_admin : Caller → Handled Bool
unfolding same
require_admin c =
    if same c.role (codes "admin") then ok true else refuse 403 (codes "admin_required")

-- The id in a path, as strconv.ParseInt reads it; it must be positive.
unfoldable pub positive_id : Option ℤ → Handled ℕ
positive_id none = refuse 400 (codes "invalid_id")
positive_id (some n) = if lt_ℤ (pos 0) n then ok (pos_part n) else refuse 400 (codes "invalid_id")
