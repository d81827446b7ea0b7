-- ===== src/Auth/Setup/First.antt =====
-- The first administrator can log in, and stays the only one.
use cncache_hub.Prelude.{
  ℕ, ◌≡◌, refl, sym, ap, subst, Bool, true, false, ◌||◌, Option, none, some, List, [], ◌∷◌, ltb,
  length, Bool-cases, inl, inr, arith,
}
use cncache_hub.Text.{Bytes, is_empty, trim_space}
use cncache_hub.Text.Equality.{same_refl}
use cncache_hub.Auth.Accounts.{
  User, Session, Accounts, count_users, create_user, insert_user, hash_password, find_user,
  get_user_by_username, create_session,
}
use cncache_hub.Auth.Handlers.{logged_in, verify_bcrypt, session_ttl, login}
use cncache_hub.Auth.Handlers.Logins.{HasPassword, login_complete}
use cncache_hub.Auth.Setup.{
  InitAnswer, invalid_init, already_initialized, user_create_failed, initialized, first_login, init,
}

-- What bcrypt makes of a password, the password verifies.
abbrev pub IsVerified : (Bytes → Option Bytes) → (Bytes → Bytes → Bool) → Type 0
IsVerified hash bcrypt =
    (p h : Bytes) → hash_password hash p ≡ some h → verify_bcrypt bcrypt h p ≡ true

-- The accounts whose one user is u, by that name and with that password.
abbrev pub IsFirst : (Bytes → Bytes → Bool) → Bytes → Bytes → Accounts → User → Type 0
IsFirst bcrypt name password b u =
    (find_user name b.users ≡ some u) × HasPassword bcrypt password u × (length b.users ≡ 1)

abbrev user_in : InitAnswer → User → User
user_in (initialized u s) d = u
user_in invalid_init d = d
user_in already_initialized d = d
user_in user_create_failed d = d

abbrev pub is_initialized : InitAnswer → Bool
is_initialized (initialized u s) = true
is_initialized invalid_init = false
is_initialized already_initialized = false
is_initialized user_create_failed = false

abbrev nobody : ℕ → List Session → Accounts
nobody n ss = record { users = []; next_user_id = n; sessions = ss }

created_alone :
    (bcrypt : Bytes → Bytes → Bool) (now : ℕ) (token : Bytes) (n : ℕ) (ss : List Session)
    (name password ip ua : Bytes) (o : Option Bytes) (u : User) (s : Session)
    → ((h : Bytes) → o ≡ some h → verify_bcrypt bcrypt h password ≡ true)
    → (first_login now token (nobody n ss) ip ua (insert_user now (nobody n ss) name true o)).1
      ≡ initialized u s
    → IsFirst bcrypt name password
        (first_login now token (nobody n ss) ip ua (insert_user now (nobody n ss) name true o)).0
        u
unfolding first_login insert_user find_user create_session
created_alone bcrypt now token n ss name password ip ua none u s v h =
    let q : false ≡ true = ap is_initialized h in cc
created_alone bcrypt now token n ss name password ip ua (some x) u s v h =
    let w : User = record {
      id = n;
      username = name;
      password_hash = x;
      is_admin = true;
      must_change_password = false;
      created_at = now;
      last_login_at = 0;
      disabled = false;
    } in
    let b =
      (first_login now token (nobody n ss) ip ua
        (insert_user now (nobody n ss) name true (some x))).0 in
    subst (IsFirst bcrypt name password b) (ap (λ r. user_in r w) h)
      (simp (same_refl name), (refl, v x refl), refl)

first_login-IsFirst :
    (bcrypt : Bytes → Bytes → Bool) (now : ℕ) (token : Bytes) (a : Accounts)
    (name password ip ua : Bytes) (o : Option Bytes) (u : User) (s : Session)
    → ((h : Bytes) → o ≡ some h → verify_bcrypt bcrypt h password ≡ true)
    → a.users ≡ []
    → (first_login now token a ip ua (insert_user now a name true o)).1 ≡ initialized u s
    → IsFirst bcrypt name password
        (first_login now token a ip ua (insert_user now a name true o)).0
        u
first_login-IsFirst bcrypt now token a name password ip ua o u s v e =
    let alone : nobody a.next_user_id a.sessions ≡ a = ap (λ us. record a { users = us }) (sym e) in
    subst
      (λ c.
        (first_login now token c ip ua (insert_user now c name true o)).1 ≡ initialized u s
        → IsFirst bcrypt name password
            (first_login now token c ip ua (insert_user now c name true o)).0 u)
      alone (created_alone bcrypt now token a.next_user_id a.sessions name password ip ua o u s v)

none_counted : (us : List User) → ltb 0 (length us) ≡ false → us ≡ []
none_counted [] e = refl
none_counted (u ∷ us) e = ground arith

or_false : (x y : Bool) → x || y ≡ false → (x ≡ false) × (y ≡ false)
or_false false y e = (refl, e)
or_false true y e = ground arith

long_filled : (p : Bytes) → ltb (length p) 8 ≡ false → is_empty p ≡ false
long_filled [] e = ground arith
long_filled (x ∷ p) e = refl

-- The first start, where it succeeds.
init-IsFirst :
    (hash : Bytes → Option Bytes) (bcrypt : Bytes → Bytes → Bool) (now : ℕ) (token : Bytes)
    (a : Accounts) (username password ip ua : Bytes) (u : User) (s : Session)
    → IsVerified hash bcrypt
    → (init hash now token a username password ip ua).1 ≡ initialized u s
    → IsFirst bcrypt
        (trim_space username)
        password
        (init hash now token a username password ip ua).0
        u
      × (is_empty (trim_space username) ≡ false)
      × (ltb (length password) 8 ≡ false)
unfolding init create_user count_users
init-IsFirst hash bcrypt now token a username password ip ua u s v h =
    elim (Bool-cases (is_empty (trim_space username) || ltb (length password) 8)) [
      | inl e ↦ let q : false ≡ true = ap is_initialized (rw (init, e) at h) in cc
      | inr e ↦ elim (Bool-cases (ltb 0 (length a.users))) [
        | inl n ↦ let q : false ≡ true = ap is_initialized (rw (init, e, n) at h) in cc
        | inr n ↦
            let made : init hash now token a username password ip ua
                ≡ first_login now token a ip ua
                    (insert_user now a (trim_space username) true (hash_password hash password)) =
              rw (init, e, n) refl in
            let filled = or_false (is_empty (trim_space username)) (ltb (length password) 8) e in
            (
              subst
                  (λ r. r.1 ≡ initialized u s → IsFirst bcrypt (trim_space username) password r.0 u)
                  (sym made)
                  (first_login-IsFirst bcrypt now token a (trim_space username) password ip ua
                    (hash_password hash password) u s (v password) (none_counted a.users n))
                  h,
              filled.0,
              filled.1,
            )
      ]
    ]

init_again :
    (hash : Bytes → Option Bytes) (now : ℕ) (token : Bytes) (b : Accounts)
    (username password ip ua : Bytes)
    → length b.users ≡ 1
    → ((init hash now token b username password ip ua).0 ≡ b)
      × (is_initialized (init hash now token b username password ip ua).1 ≡ false)
unfolding init count_users
init_again hash now token b username password ip ua one =
    elim (Bool-cases (is_empty (trim_space username) || ltb (length password) 8)) [
      | inl e ↦ (simp (init, e), simp (init, e))
      | inr e ↦ (simp (init, e, one), simp (init, e, one))
    ]

-- After a first start that succeeded, the password it was given logs the administrator in, at any
-- time and under any spelling of the name that trims to the same; what bcrypt makes of a password
-- is assumed to verify it. Any further first start, under whatever name and with whatever password, is
-- refused and changes nothing.
pub init-login :
    (hash : Bytes → Option Bytes) (bcrypt : Bytes → Bytes → Bool) (now later : ℕ)
    (token fresh : Bytes) (a : Accounts) (username typed password another other ip ua : Bytes)
    (u : User) (s : Session)
    → IsVerified hash bcrypt
    → (init hash now token a username password ip ua).1 ≡ initialized u s
    → trim_space typed ≡ trim_space username
    → let b = (init hash now token a username password ip ua).0 in
      ((login bcrypt later fresh b typed password ip ua).1
        ≡ logged_in u (create_session later fresh b u.id ip ua session_ttl).1)
      × ((init hash later fresh b another other ip ua).0 ≡ b)
      × (is_initialized (init hash later fresh b another other ip ua).1 ≡ false)
unfolding get_user_by_username find_user
init-login hash bcrypt now later token fresh a username typed password another other ip ua u s v h
      same_name =
    let first = init-IsFirst hash bcrypt now token a username password ip ua u s v h in
    let b = (init hash now token a username password ip ua).0 in
    let again = init_again hash later fresh b another other ip ua first.0.2 in
    (
      login_complete bcrypt later fresh b typed password ip ua u (rw same_name (first.0.0))
          first.0.1 (rw same_name (first.1)) (long_filled password first.2),
      again.0,
      again.1,
    )
