-- ===== src/Auth/Handlers/Guarded.antt =====
-- Who passes the guard.
use cncache_hub.Prelude.{
  ℕ, ◌≤◌, ◌≡◌, inl, inr, refl, ap, subst, Bool, true, false, Option, none, some, List, [], ◌∷◌,
  if◌then◌else◌, ltb, arith, Bool-cases,
}
use cncache_hub.Text.{Bytes, same, is_empty}
use cncache_hub.Auth.Accounts.{
  User, Session, Accounts, find_session, delete_sessions, delete_session, get_session, alive,
  get_user_by_id, touch_session,
}
use cncache_hub.Auth.Handlers.{
  ApiRequest, GuardAnswer, unguarded, login_required, session_expired, user_missing, user_locked,
  admitted, needs_auth, session_token, check_user, check_session, require_auth, logout,
}

-- A session that is in the table and not over, of this user, who is there and not disabled.
abbrev pub IsOpen : ℕ → Accounts → Bytes → User → Type 0
IsOpen now a tok u =
    (s : Session) × (find_session tok a.sessions ≡ some s)
    × (now ≤ s.expires_at)
    × (get_user_by_id a s.user_id ≡ some u)
    × (u.disabled ≡ false)

user_admitted : GuardAnswer → Option User
user_admitted (admitted u) = some u
user_admitted unguarded = none
user_admitted login_required = none
user_admitted session_expired = none
user_admitted user_missing = none
user_admitted user_locked = none

admitted_user :
    (b : Bool) (x y : Accounts) (v u : User)
    → v.disabled ≡ b
    → let r : Accounts × GuardAnswer = if b then (x, user_locked) else (y, admitted v) in
      user_admitted r.1 ≡ some u → (some v ≡ some u) × (u.disabled ≡ false)
unfolding user_admitted
admitted_user true x y v u d h = cc
admitted_user false x y v u d h =
    let same_user : v ≡ u = cc in (h, subst (λ w. w.disabled ≡ false) same_user d)

check_user_sound :
    (now : ℕ) (a : Accounts) (tok : Bytes) (o : Option User) (u : User)
    → user_admitted (check_user now a tok o).1 ≡ some u
    → (o ≡ some u) × (u.disabled ≡ false)
unfolding check_user user_admitted
check_user_sound now a tok none u h = cc
check_user_sound now a tok (some v) u h =
    admitted_user v.disabled (delete_session a tok) (touch_session now a tok) v u refl h

check_session_sound :
    (now : ℕ) (a : Accounts) (tok : Bytes) (u : User) (o : Option Session)
    → find_session tok a.sessions ≡ o
    → user_admitted (check_session now tok (alive now a tok o)).1 ≡ some u
    → IsOpen now a tok u
unfolding check_session user_admitted
check_session_sound now a tok u none e h = cc
check_session_sound now a tok u (some s) e h = elim (Bool-cases (ltb s.expires_at now)) [
  | inl x ↦ let q : none ≡ some u = rw x at h in cc
  | inr x ↦
      let h' : user_admitted (check_user now a tok (get_user_by_id a s.user_id)).1 ≡ some u =
        rw (x, check_session, x) at h in
      let (f, d) = check_user_sound now a tok (get_user_by_id a s.user_id) u h' in
      (s, e, ground arith, f, d)
]

-- A guarded path is passed only with a session that is in the table and not over, of a user who is
-- there and not disabled, and the user that the handler sees is that one.
pub require_auth_sound :
    (now : ℕ) (a : Accounts) (r : ApiRequest) (u : User)
    → (require_auth now a r).1 ≡ admitted u
    → (needs_auth r.path ≡ true) × IsOpen now a (session_token r) u
unfolding require_auth get_session user_admitted
require_auth_sound now a r u h =
    let tok = session_token r in
    let passed : user_admitted (require_auth now a r).1 ≡ some u = ap user_admitted h in
    elim (Bool-cases (needs_auth r.path)) [
      | inr n ↦ let q : none ≡ some u = rw (require_auth, n) at passed in cc
      | inl n ↦ elim (Bool-cases (is_empty tok)) [
        | inl e ↦ let q : none ≡ some u = rw (require_auth, n, e) at passed in cc
        | inr e ↦ (
          n,
          check_session_sound now a tok u (find_session tok a.sessions) refl
              (rw (require_auth, n, e) at passed),
        )
      ]
    ]

find-delete_sessions :
    (tok : Bytes) (ss : List Session)
    → find_session tok (delete_sessions (λ s. same s.token tok) ss) ≡ none
unfolding find_session delete_sessions
find-delete_sessions tok [] = refl
find-delete_sessions tok (s ∷ ss) = elim (Bool-cases (same s.token tok)) [
  | inl e ↦ rw e (find-delete_sessions tok ss)
  | inr e ↦ rw (e, e) (find-delete_sessions tok ss)
]

check_session-none :
    (now : ℕ) (a : Accounts) (tok : Bytes) (o : Option Session)
    → o ≡ none
    → (check_session now tok (alive now a tok o)).1 ≡ session_expired
unfolding check_session
check_session-none now a tok none e = refl
check_session-none now a tok (some s) e = cc

-- After a logout with its cookie a session passes no guarded path any more, whenever it would end.
require_auth-logout :
    (now : ℕ) (a : Accounts) (r : ApiRequest)
    → is_empty r.cookie ≡ false
    → needs_auth r.path ≡ true
    → (require_auth now (logout a r) r).1 ≡ session_expired
unfolding require_auth get_session session_token logout delete_session
require_auth-logout now a r c n =
    rw (n, c, session_token, c)
      (check_session-none now (delete_session a r.cookie) r.cookie
        (find_session r.cookie (delete_sessions (λ s. same s.token r.cookie) a.sessions))
        (find-delete_sessions r.cookie a.sessions))
