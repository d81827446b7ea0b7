-- ===== src/Auth/Setup.antt =====
-- api/auth.go: the first administrator, and the change of a password. The audit log is left out:
-- nothing reads it back.
pub mod Changes
pub mod First
use cncache_hub.Prelude.{
  ℕ, ◌+◌, ◌≡◌, refl, sym, ap, Bool, true, false, not, ◌||◌, Option, none, some, List, [], ◌∷◌, ◌++◌,
  if◌then◌else◌, ltb, length,
}
use cncache_hub.Text.{Bytes, same, is_empty, trim_space}
use cncache_hub.Text.Equality.{same_refl}
use cncache_hub.Auth.Accounts.{
  User, Session, Accounts, Creation, hash_failed, name_taken, created, count_users, create_user,
  insert_user, hash_password, find_user, get_user_by_username, get_user_by_id, create_session,
  update_user_password,
}
use cncache_hub.Auth.Handlers.{
  LoginAnswer, logged_in, verify_bcrypt, session_ttl, login_user, login, open_session,
}

pub data InitAnswer : Type 0 where
  invalid_init : InitAnswer
  already_initialized : InitAnswer
  user_create_failed : InitAnswer
  initialized : User → Session → InitAnswer

-- The login that follows the new administrator.
unfoldable pub first_login : ℕ → Bytes → Accounts → Bytes → Bytes → Creation → Accounts × InitAnswer
unfolding create_session
first_login now token a ip ua hash_failed = (a, user_create_failed)
first_login now token a ip ua name_taken = (a, already_initialized)
first_login now token a ip ua (created b u) =
    let (c, s) = create_session now token b u.id ip ua session_ttl in (c, initialized u s)

-- initHandler
unfoldable pub init :
    (Bytes → Option Bytes)
    → ℕ
    → Bytes
    → Accounts
    → Bytes
    → Bytes
    → Bytes
    → Bytes
    → Accounts × InitAnswer
unfolding first_login count_users create_user
init bcrypt now token a username password ip ua =
    let name = trim_space username in
    if is_empty name || ltb (length password) 8
    then (a, invalid_init)
    else if ltb 0 (count_users a)
    then (a, already_initialized)
    else first_login now token a ip ua (create_user bcrypt now a name password true)

pub data ChangeAnswer : Type 0 where
  unauthorized : ChangeAnswer
  weak_password : ChangeAnswer
  user_not_found : ChangeAnswer
  invalid_old_password : ChangeAnswer
  same_password : ChangeAnswer
  password_update_failed : ChangeAnswer
  changed : ChangeAnswer

abbrev pub updated : Accounts → Option Accounts → Accounts × ChangeAnswer
updated a none = (a, password_update_failed)
updated a (some b) = (b, changed)

unfoldable pub change_of :
    (Bytes → Option Bytes)
    → (Bytes → Bytes → Bool)
    → Accounts
    → ℕ
    → Bytes
    → Bytes
    → Option User
    → Accounts × ChangeAnswer
unfolding update_user_password verify_bcrypt
change_of hash bcrypt a uid old new none = (a, user_not_found)
change_of hash bcrypt a uid old new (some u) =
    if not (verify_bcrypt bcrypt u.password_hash old)
    then (a, invalid_old_password)
    else if same old new
    then (a, same_password)
    else updated a (update_user_password hash a uid new)

-- changePasswordHandler, with the user that the guard put into the context.
unfoldable pub change_password :
    (Bytes → Option Bytes)
    → (Bytes → Bytes → Bool)
    → Accounts
    → Option ℕ
    → Bytes
    → Bytes
    → Accounts × ChangeAnswer
unfolding change_of get_user_by_id
change_password hash bcrypt a none old new = (a, unauthorized)
change_password hash bcrypt a (some uid) old new =
    if ltb (length new) 8
    then (a, weak_password)
    else change_of hash bcrypt a uid old new (get_user_by_id a uid)
