-- ===== src/Auth/Handlers.antt =====
-- api/auth.go: login, logout and the guard before the administration's handlers. The audit log is
-- left out: nothing reads it back.
pub mod Guarded
pub mod Logins
use cncache_hub.Prelude.{
  ℕ, ◌+◌, Bool, true, false, not, ◌&&◌, ◌||◌, Option, none, some, List, [], ◌∷◌, if◌then◌else◌, ltb,
  any, drop,
}
use cncache_hub.Text.{Bytes, codes, same, is_empty, has_prefix, trim_space, trim_prefix}
use cncache_hub.Auth.Accounts.{
  User, Session, Accounts, get_user_by_username, get_user_by_id, update_user_last_login,
  create_session, get_session, delete_session, touch_session,
}

-- verifyBcrypt
unfoldable pub verify_bcrypt : (Bytes → Bytes → Bool) → Bytes → Bytes → Bool
verify_bcrypt bcrypt hash plain = if is_empty hash then false else bcrypt hash plain

pub data LoginAnswer : Type 0 where
  missing_credentials : LoginAnswer
  invalid_credentials : LoginAnswer
  account_disabled : LoginAnswer
  logged_in : User → Session → LoginAnswer

abbrev pub session_ttl : ℕ
session_ttl = 604800

-- The new session of a user whose password was right.
abbrev pub open_session : ℕ → Bytes → Accounts → User → Bytes → Bytes → Accounts × LoginAnswer
open_session now token a u ip ua =
    let (b, s) = create_session now token a u.id ip ua session_ttl in
    (update_user_last_login now b u.id, logged_in u s)

unfoldable pub login_user :
    (Bytes → Bytes → Bool)
    → ℕ
    → Bytes
    → Accounts
    → Bytes
    → Bytes
    → Bytes
    → Option User
    → Accounts × LoginAnswer
unfolding verify_bcrypt create_session update_user_last_login
login_user bcrypt now token a password ip ua none = (a, invalid_credentials)
login_user bcrypt now token a password ip ua (some u) =
    if u.disabled
    then (a, account_disabled)
    else if not (verify_bcrypt bcrypt u.password_hash password)
    then (a, invalid_credentials)
    else open_session now token a u ip ua

-- loginHandler, with the token that CreateSession draws.
unfoldable pub login :
    (Bytes → Bytes → Bool)
    → ℕ
    → Bytes
    → Accounts
    → Bytes
    → Bytes
    → Bytes
    → Bytes
    → Accounts × LoginAnswer
unfolding login_user get_user_by_username
login bcrypt now token a username password ip ua =
    let name = trim_space username in
    if is_empty name || is_empty password
    then (a, missing_credentials)
    else login_user bcrypt now token a password ip ua (get_user_by_username a name)

-- What a request brings: its path, its cookie and its Authorization header.
pub record ApiRequest : Type 0 where
  pub path : Bytes
  pub cookie : Bytes
  pub authorization : Bytes

-- sessionTokenFromRequest
unfoldable pub session_token : ApiRequest → Bytes
session_token r =
    if not (is_empty r.cookie)
    then r.cookie
    else if has_prefix r.authorization (codes "Bearer ")
    then trim_prefix r.authorization (codes "Bearer ")
    else []

-- logoutHandler
unfoldable pub logout : Accounts → ApiRequest → Accounts
unfolding delete_session
logout a r = if is_empty r.cookie then a else delete_session a r.cookie

abbrev pub public_paths : List Bytes
public_paths =
    codes "/api/auth/login"
    ∷ codes "/api/auth/logout"
    ∷ codes "/api/auth/me"
    ∷ codes "/api/auth/init"
    ∷ codes "/api/auth/init-status"
    ∷ codes "/api/healthz"
    ∷ codes "/api/version"
    ∷ codes "/api/client-config"
    ∷ codes "/api/client-config/bundle"
    ∷ []

-- needsAuth
unfoldable pub needs_auth : Bytes → Bool
needs_auth path =
    if any (λ p. same p path) public_paths
    then false
    else if has_prefix path (codes "/v2/")
    then false
    else if same path (codes "/v2")
    then false
    else has_prefix path (codes "/api/")

pub data GuardAnswer : Type 0 where
  unguarded : GuardAnswer
  login_required : GuardAnswer
  session_expired : GuardAnswer
  user_missing : GuardAnswer
  user_locked : GuardAnswer
  admitted : User → GuardAnswer

unfoldable pub check_user : ℕ → Accounts → Bytes → Option User → Accounts × GuardAnswer
unfolding delete_session touch_session
check_user now a tok none = (a, user_missing)
check_user now a tok (some u) =
    if u.disabled
    then (delete_session a tok, user_locked)
    else (touch_session now a tok, admitted u)

-- The session's expiry is looked at once more.
unfoldable pub check_session : ℕ → Bytes → Accounts × Option Session → Accounts × GuardAnswer
unfolding check_user get_user_by_id delete_session
check_session now tok (a, none) = (a, session_expired)
check_session now tok (a, some s) =
    if ltb s.expires_at now
    then (delete_session a tok, session_expired)
    else check_user now a tok (get_user_by_id a s.user_id)

-- requireAuth
unfoldable pub require_auth : ℕ → Accounts → ApiRequest → Accounts × GuardAnswer
unfolding check_session get_session needs_auth session_token
require_auth now a r =
    if not (needs_auth r.path)
    then (a, unguarded)
    else if is_empty (session_token r)
    then (a, login_required)
    else check_session now (session_token r) (get_session now a (session_token r))
