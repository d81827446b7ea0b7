-- ===== src/Auth/Accounts.antt =====
-- storage/auth.go: users and sessions. Times are Unix seconds; bcrypt and the random token are
-- arguments where a function needs them.
use cncache_hub.Prelude.{
  ℕ, ◌+◌, ◌-◌, Bool, false, Option, none, some, List, [], ◌∷◌, ◌++◌, if◌then◌else◌, ◌==◌, ltb,
  length,
}
use cncache_hub.Text.{Bytes, same, is_empty}

pub record User : Type 0 where
  pub id : ℕ
  pub username : Bytes
  pub password_hash : Bytes
  pub is_admin : Bool
  pub must_change_password : Bool
  pub created_at : ℕ
  pub last_login_at : ℕ
  pub disabled : Bool

pub record Session : Type 0 where
  pub token : Bytes
  pub user_id : ℕ
  pub created_at : ℕ
  pub expires_at : ℕ
  pub last_seen_at : ℕ
  pub ip : Bytes
  pub user_agent : Bytes

pub record Accounts : Type 0 where
  pub users : List User
  pub next_user_id : ℕ
  pub sessions : List Session

unfoldable pub find_user : Bytes → List User → Option User
find_user name [] = none
find_user name (u ∷ us) = if same u.username name then some u else find_user name us

unfoldable pub find_user_id : ℕ → List User → Option User
find_user_id id [] = none
find_user_id id (u ∷ us) = if u.id == id then some u else find_user_id id us

-- GetUserByUsername, GetUserByID and CountUsers
unfoldable pub get_user_by_username : Accounts → Bytes → Option User
unfolding find_user
get_user_by_username a name = find_user name a.users

unfoldable pub get_user_by_id : Accounts → ℕ → Option User
unfolding find_user_id
get_user_by_id a id = find_user_id id a.users

unfoldable pub count_users : Accounts → ℕ
count_users a = length a.users

unfoldable pub change_user : ℕ → (User → User) → List User → List User
change_user id f [] = []
change_user id f (u ∷ us) = (if u.id == id then f u else u) ∷ change_user id f us

-- HashPassword: an empty password is refused, and bcrypt may fail.
unfoldable pub hash_password : (Bytes → Option Bytes) → Bytes → Option Bytes
hash_password bcrypt plain = if is_empty plain then none else bcrypt plain

pub data Creation : Type 0 where
  hash_failed : Creation
  name_taken : Creation
  created : Accounts → User → Creation

-- The row of a user whose password has its hash; the name is unique.
unfoldable pub insert_user : ℕ → Accounts → Bytes → Bool → Option Bytes → Creation
unfolding find_user
insert_user now a username is_admin none = hash_failed
insert_user now a username is_admin (some hash) =
    let u : User = record {
      id = a.next_user_id;
      username = username;
      password_hash = hash;
      is_admin = is_admin;
      must_change_password = false;
      created_at = now;
      last_login_at = 0;
      disabled = false;
    } in
    elim (find_user username a.users) [
      | some _ ↦ name_taken
      | none ↦ created (record a { users = a.users ++ u ∷ []; next_user_id = a.next_user_id + 1 }) u
    ]

-- CreateUser
unfoldable pub create_user : (Bytes → Option Bytes) → ℕ → Accounts → Bytes → Bytes → Bool → Creation
unfolding hash_password insert_user
create_user bcrypt now a username plain is_admin =
    insert_user now a username is_admin (hash_password bcrypt plain)

-- UpdateUserPassword, with the hash that was made.
unfoldable pub update_hash : Accounts → ℕ → Option Bytes → Option Accounts
unfolding change_user
update_hash a id none = none
update_hash a id (some hash) = some (record a {
  users =
      change_user id (λ u. record u { password_hash = hash; must_change_password = false }) a.users;
})

unfoldable pub update_user_password :
    (Bytes → Option Bytes) → Accounts → ℕ → Bytes → Option Accounts
unfolding update_hash hash_password
update_user_password bcrypt a id plain = update_hash a id (hash_password bcrypt plain)

-- UpdateUserLastLogin
unfoldable pub update_user_last_login : ℕ → Accounts → ℕ → Accounts
unfolding change_user
update_user_last_login now a id = record a {
  users = change_user id (λ u. record u { last_login_at = now }) a.users;
}

-- CreateSession: a time to live that is not positive is a week.
unfoldable pub create_session : ℕ → Bytes → Accounts → ℕ → Bytes → Bytes → ℕ → Accounts × Session
create_session now token a user_id ip user_agent ttl =
    let s : Session = record {
      token = token;
      user_id = user_id;
      created_at = now;
      expires_at = now + (if ttl == 0 then 604800 else ttl);
      last_seen_at = now;
      ip = ip;
      user_agent = user_agent;
    } in
    (record a { sessions = a.sessions ++ s ∷ [] }, s)

unfoldable pub find_session : Bytes → List Session → Option Session
find_session token [] = none
find_session token (s ∷ ss) = if same s.token token then some s else find_session token ss

unfoldable pub delete_sessions : (Session → Bool) → List Session → List Session
delete_sessions p [] = []
delete_sessions p (s ∷ ss) = let rest = delete_sessions p ss in if p s then rest else s ∷ rest

-- DeleteSession and DeleteUserSessions
unfoldable pub delete_session : Accounts → Bytes → Accounts
unfolding delete_sessions
delete_session a token = record a {
  sessions = delete_sessions (λ s. same s.token token) a.sessions;
}

unfoldable pub delete_user_sessions : Accounts → ℕ → Accounts
unfolding delete_sessions
delete_user_sessions a user_id = record a {
  sessions = delete_sessions (λ s. s.user_id == user_id) a.sessions;
}

-- PurgeExpiredSessions, with the number of the rows that it deletes.
unfoldable pub purge_expired_sessions : ℕ → Accounts → Accounts × ℕ
unfolding delete_sessions
purge_expired_sessions now a =
    let kept = delete_sessions (λ s. ltb s.expires_at now) a.sessions in
    (record a { sessions = kept }, length a.sessions - length kept)

unfoldable pub touch_sessions : ℕ → Bytes → List Session → List Session
touch_sessions now token [] = []
touch_sessions now token (s ∷ ss) =
    (if same s.token token then record s { last_seen_at = now } else s)
    ∷ touch_sessions now token ss

-- TouchSession
unfoldable pub touch_session : ℕ → Accounts → Bytes → Accounts
unfolding touch_sessions
touch_session now a token = record a { sessions = touch_sessions now token a.sessions }

abbrev pub alive : ℕ → Accounts → Bytes → Option Session → Accounts × Option Session
alive now a token none = (a, none)
alive now a token (some s) =
    if ltb s.expires_at now then (delete_session a token, none) else (a, some s)

-- GetSession: one that has expired is deleted.
unfoldable pub get_session : ℕ → Accounts → Bytes → Accounts × Option Session
unfolding find_session delete_session
get_session now a token = alive now a token (find_session token a.sessions)
