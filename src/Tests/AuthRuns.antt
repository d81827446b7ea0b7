-- ===== src/Tests/AuthRuns.antt =====
-- The administration's accounts at concrete inputs.
use cncache_hub.Prelude.{◌≡◌, refl, true, false, Option, subst, ap, none, some, [], ◌∷◌}
use cncache_hub.Text.{has_prefix, Bytes, codes, same, trim_space, trim_left_space}
use cncache_hub.Auth.Accounts.{
  User, Session, Accounts, find_session, find_user_id, get_user_by_id, get_session, find_user,
  get_user_by_username, create_session, update_user_last_login, hash_password, change_user,
  update_hash, update_user_password, create_user, insert_user, count_users,
}
use cncache_hub.Auth.Handlers.{
  ApiRequest, session_token, needs_auth, require_auth, check_session, check_user, logged_in,
  session_ttl, verify_bcrypt, login_user, login,
}
use cncache_hub.Auth.Setup.{init, change_password, change_of, first_login}
use cncache_hub.Auth.Setup.First.{IsVerified, is_initialized, init-login}
use cncache_hub.Auth.Setup.Changes.{rehashed, change_password_lem}
use cncache_hub.Text.Equality.{same_refl}
use cncache_hub.Auth.Handlers.Logins.{HasPassword, IsNew, login_sound}
use cncache_hub.Auth.Handlers.Guarded.{IsOpen, require_auth_sound}

abbrev admin : User
admin = record {
  id = 1;
  username = codes "admin";
  password_hash = codes "h";
  is_admin = true;
  must_change_password = false;
  created_at = 0;
  last_login_at = 0;
  disabled = false;
}

abbrev session : Session
session = record {
  token = codes "tok";
  user_id = 1;
  created_at = 0;
  expires_at = 100;
  last_seen_at = 0;
  ip = [];
  user_agent = [];
}

abbrev accounts : Accounts
accounts = record { users = admin ∷ []; next_user_id = 2; sessions = session ∷ [] }

abbrev api_request : ApiRequest
api_request = record { path = codes "/api/users"; cookie = codes "tok"; authorization = [] }

require_auth_sound_example :
    (needs_auth (codes "/api/users") ≡ true) × IsOpen 50 accounts (session_token api_request) admin
unfolding require_auth check_session check_user get_session find_session find_user_id get_user_by_id
    needs_auth session_token same has_prefix
require_auth_sound_example = require_auth_sound 50 accounts api_request admin refl

abbrev new_session : Session
new_session = record {
  token = codes "new";
  user_id = 1;
  created_at = 50;
  expires_at = 604850;
  last_seen_at = 50;
  ip = [];
  user_agent = [];
}

login_sound_example :
    (get_user_by_username accounts (trim_space (codes "admin")) ≡ some admin)
    × HasPassword (λ h p. true) (codes "pw") admin
    × IsNew 50 (codes "new") admin new_session
unfolding login login_user create_session update_user_last_login verify_bcrypt get_user_by_username
    find_user same trim_space trim_left_space
login_sound_example =
    login_sound (λ h p. true) 50 (codes "new") accounts (codes "admin") (codes "pw") [] [] admin
      new_session refl

abbrev bytes_of : Option Bytes → Bytes
bytes_of none = []
bytes_of (some p) = p

-- A hash that is the password itself.
kept-IsVerified : IsVerified some same
unfolding hash_password verify_bcrypt
kept-IsVerified [] h e = cc
kept-IsVerified (x ∷ p) h e =
    subst (λ k. verify_bcrypt same k (x ∷ p) ≡ true) (ap bytes_of e) (same_refl (x ∷ p))

abbrev unused : Accounts
unused = record { users = []; next_user_id = 1; sessions = [] }

abbrev first_admin : User
first_admin = record admin { password_hash = codes "password"; created_at = 9 }

abbrev first_session : Session
first_session = record new_session {
  token = codes "tok";
  created_at = 9;
  expires_at = 604809;
  last_seen_at = 9;
}

init-login_example :
    let b = (init some 9 (codes "tok") unused (codes "admin ") (codes "password") [] []).0 in
    ((login same 50 (codes "new") b (codes " admin") (codes "password") [] []).1
      ≡ logged_in first_admin (create_session 50 (codes "new") b 1 [] [] session_ttl).1)
    × ((init some 50 (codes "new") b (codes "eve") (codes "other word") [] []).0 ≡ b)
    × (is_initialized (init some 50 (codes "new") b (codes "eve") (codes "other word") [] []).1
        ≡ false)
unfolding init first_login count_users create_user insert_user hash_password find_user
    create_session trim_space trim_left_space
init-login_example =
    init-login some same 9 50 (codes "tok") (codes "new") unused (codes "admin ") (codes " admin")
      (codes "password") (codes "eve") (codes "other word") [] [] first_admin first_session
      kept-IsVerified refl refl

change_password_lem_example :
    let b =
      (change_password some (λ h p. true) accounts (some 1) (codes "pw") (codes "password")).0 in
    (verify_bcrypt (λ h p. true) (codes "h") (codes "pw") ≡ true)
    × (same (codes "pw") (codes "password") ≡ false)
    × (get_user_by_id b 1 ≡ some (rehashed (codes "password") admin))
    × (b.sessions ≡ accounts.sessions)
unfolding change_password change_of update_user_password update_hash hash_password get_user_by_id
    find_user_id change_user verify_bcrypt same
change_password_lem_example =
    change_password_lem some (λ h p. true) accounts 1 (codes "pw") (codes "password")
      (codes "password") admin refl refl refl
