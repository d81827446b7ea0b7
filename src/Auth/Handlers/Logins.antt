-- ===== src/Auth/Handlers/Logins.antt =====
-- Who is logged in.
use cncache_hub.Prelude.{
  ℕ, ◌≡◌, refl, ap, subst, Bool, true, false, ◌||◌, Option, none, some, Bool-cases, inl, inr,
}
use cncache_hub.Text.{Bytes, is_empty, trim_space}
use cncache_hub.Auth.Accounts.{User, Session, Accounts, get_user_by_username, create_session}
use cncache_hub.Auth.Handlers.{
  LoginAnswer, missing_credentials, invalid_credentials, account_disabled, logged_in, verify_bcrypt,
  session_ttl, login_user, login,
}

abbrev logged_of : LoginAnswer → Option (User × Session)
logged_of missing_credentials = none
logged_of invalid_credentials = none
logged_of account_disabled = none
logged_of (logged_in u s) = some (u, s)

abbrev user_of : Option (User × Session) → User → User
user_of none d = d
user_of (some (u, s)) d = u

abbrev session_of : Option (User × Session) → Session → Session
session_of none d = d
session_of (some (u, s)) d = s

-- A user who may log in with this password.
abbrev pub HasPassword : (Bytes → Bytes → Bool) → Bytes → User → Type 0
HasPassword bcrypt password u =
    (u.disabled ≡ false) × (verify_bcrypt bcrypt u.password_hash password ≡ true)

-- The session that a login opens.
abbrev pub IsNew : ℕ → Bytes → User → Session → Type 0
IsNew now token u s = (s.token ≡ token) × (s.user_id ≡ u.id) × (s.created_at ≡ now)

user_logged_in :
    (bcrypt : Bytes → Bytes → Bool) (now : ℕ) (token : Bytes) (a : Accounts)
    (password ip ua : Bytes) (o : Option User) (u : User) (s : Session)
    → logged_of (login_user bcrypt now token a password ip ua o).1 ≡ some (u, s)
    → (o ≡ some u) × HasPassword bcrypt password u × IsNew now token u s
unfolding login_user create_session
user_logged_in bcrypt now token a password ip ua none u s h = cc
user_logged_in bcrypt now token a password ip ua (some v) u s h = elim (Bool-cases v.disabled) [
  | inl d ↦ let q : none ≡ some (u, s) = simp d at h in cc
  | inr d ↦ elim (Bool-cases (verify_bcrypt bcrypt v.password_hash password)) [
    | inl p ↦
        let q : some (v, (create_session now token a v.id ip ua session_ttl).1) ≡ some (u, s) =
          simp (d, p) at h in
        let same_user : v ≡ u = ap (λ x. user_of x v) q in
        let same_session : (create_session now token a v.id ip ua session_ttl).1 ≡ s =
          ap (λ x. session_of x s) q in
        (
          ap some same_user,
          subst (HasPassword bcrypt password) same_user (d, p),
          subst (λ x. IsNew now token u x) same_session
              (subst (λ x. IsNew now token x (create_session now token a v.id ip ua session_ttl).1)
                same_user (refl, refl, refl)),
        )
    | inr p ↦ let q : none ≡ some (u, s) = simp (d, p) at h in cc
  ]
]

-- A login that is answered with a user and a session: the user is the one of that name, is not
-- disabled and has a hash that the password verifies, and the session is a new one of that user with
-- the token that was drawn.
pub login_sound :
    (bcrypt : Bytes → Bytes → Bool) (now : ℕ) (token : Bytes) (a : Accounts)
    (username password ip ua : Bytes) (u : User) (s : Session)
    → (login bcrypt now token a username password ip ua).1 ≡ logged_in u s
    → (get_user_by_username a (trim_space username) ≡ some u)
      × HasPassword bcrypt password u
      × IsNew now token u s
unfolding login
login_sound bcrypt now token a username password ip ua u s h =
    let passed : logged_of (login bcrypt now token a username password ip ua).1 ≡ some (u, s) =
      ap logged_of h in
    elim (Bool-cases (is_empty (trim_space username) || is_empty password)) [
      | inl e ↦ let q : none ≡ some (u, s) = rw (login, e) at passed in cc
      | inr e ↦
          user_logged_in bcrypt now token a password ip ua
            (get_user_by_username a (trim_space username)) u s (rw (login, e) at passed)
    ]

-- A user who is not disabled logs in with the password that the hash verifies.
pub login_complete :
    (bcrypt : Bytes → Bytes → Bool) (now : ℕ) (token : Bytes) (a : Accounts)
    (username password ip ua : Bytes) (u : User)
    → get_user_by_username a (trim_space username) ≡ some u
    → HasPassword bcrypt password u
    → is_empty (trim_space username) ≡ false
    → is_empty password ≡ false
    → (login bcrypt now token a username password ip ua).1
      ≡ logged_in u (create_session now token a u.id ip ua session_ttl).1
unfolding login login_user create_session
login_complete bcrypt now token a username password ip ua u found (enabled, verified) named filled =
    simp (login, login_user, named, filled, found, enabled, verified)
