-- ===== src/Auth/Setup/Changes.antt =====
-- What a change of the password changes.
use cncache_hub.Prelude.{
  ℕ, ◌≡◌, refl, sym, ap, subst, Bool, true, false, Option, none, some, List, [], ◌∷◌, ltb, length,
  ◌==◌, Bool-cases, inl, inr,
}
use cncache_hub.Text.{Bytes, same}
use cncache_hub.Auth.Accounts.{
  User, Accounts, hash_password, find_user_id, get_user_by_id, change_user, update_user_password,
  update_hash,
}
use cncache_hub.Auth.Handlers.{verify_bcrypt}
use cncache_hub.Auth.Setup.{
  ChangeAnswer, unauthorized, weak_password, user_not_found, invalid_old_password, same_password,
  password_update_failed, changed, updated, change_of, change_password,
}

abbrev pub is_changed : ChangeAnswer → Bool
is_changed unauthorized = false
is_changed weak_password = false
is_changed user_not_found = false
is_changed invalid_old_password = false
is_changed same_password = false
is_changed password_update_failed = false
is_changed changed = true

-- The user with a new hash.
abbrev pub rehashed : Bytes → User → User
rehashed h u = record u { password_hash = h; must_change_password = false }

abbrev user_of : Option User → User → User
user_of none d = d
user_of (some u) d = u

find_user_id-change_user :
    (id : ℕ) (h : Bytes) (us : List User) (u : User)
    → find_user_id id us ≡ some u
    → find_user_id id (change_user id (rehashed h) us) ≡ some (rehashed h u)
unfolding find_user_id change_user
find_user_id-change_user id h [] u e = cc
find_user_id-change_user id h (v ∷ us) u e = elim (Bool-cases (v.id == id)) [
  | inl p ↦
      let q : some v ≡ some u = simp p at e in
      simp p (ap some (ap (λ o. rehashed h (user_of o v)) q))
  | inr p ↦ simp (p, find_user_id-change_user id h us u (simp p at e))
]

changed_user :
    (hash : Bytes → Option Bytes) (bcrypt : Bytes → Bytes → Bool) (a : Accounts) (uid : ℕ)
    (old new h : Bytes) (u : User)
    → hash_password hash new ≡ some h
    → find_user_id uid a.users ≡ some u
    → is_changed (change_of hash bcrypt a uid old new (some u)).1 ≡ true
    → (verify_bcrypt bcrypt u.password_hash old ≡ true)
      × (same old new ≡ false)
      × (find_user_id uid (change_of hash bcrypt a uid old new (some u)).0.users
          ≡ some (rehashed h u))
      × ((change_of hash bcrypt a uid old new (some u)).0.sessions ≡ a.sessions)
unfolding change_of update_user_password update_hash
changed_user hash bcrypt a uid old new h u hashed found c =
    elim (Bool-cases (verify_bcrypt bcrypt u.password_hash old)) [
      | inr v ↦ let q : false ≡ true = simp v at c in cc
      | inl v ↦ elim (Bool-cases (same old new)) [
        | inl s ↦ let q : false ≡ true = simp (v, s) at c in cc
        | inr s ↦ (
          v,
          s,
          simp (v, s, update_user_password, hashed, find_user_id-change_user uid h a.users u found),
          simp (v, s, update_user_password, hashed),
        )
      ]
    ]

updated_keeps :
    (a : Accounts) (o : Option Accounts) → is_changed (updated a o).1 ≡ false → (updated a o).0 ≡ a
updated_keeps a none c = refl
updated_keeps a (some b) c = cc

refused_user :
    (hash : Bytes → Option Bytes) (bcrypt : Bytes → Bytes → Bool) (a : Accounts) (uid : ℕ)
    (old new : Bytes) (o : Option User)
    → is_changed (change_of hash bcrypt a uid old new o).1 ≡ false
    → (change_of hash bcrypt a uid old new o).0 ≡ a
unfolding change_of
refused_user hash bcrypt a uid old new none c = refl
refused_user hash bcrypt a uid old new (some u) c =
    elim (Bool-cases (verify_bcrypt bcrypt u.password_hash old)) [
      | inr v ↦ simp v
      | inl v ↦ elim (Bool-cases (same old new)) [
        | inl s ↦ simp (v, s)
        | inr s ↦
            simp (v, s) (updated_keeps a (update_user_password hash a uid new) (simp (v, s) at c))
      ]
    ]

-- A change of the password that is made, for a user that the id finds and a new password that has
-- a hash: the old password was verified and is not the new one, the user's row has the new hash and
-- no longer asks for a change, and the sessions are those from before.
pub change_password_lem :
    (hash : Bytes → Option Bytes) (bcrypt : Bytes → Bytes → Bool) (a : Accounts) (uid : ℕ)
    (old new h : Bytes) (u : User)
    → hash_password hash new ≡ some h
    → get_user_by_id a uid ≡ some u
    → is_changed (change_password hash bcrypt a (some uid) old new).1 ≡ true
    → let b = (change_password hash bcrypt a (some uid) old new).0 in
      (verify_bcrypt bcrypt u.password_hash old ≡ true)
      × (same old new ≡ false)
      × (get_user_by_id b uid ≡ some (rehashed h u))
      × (b.sessions ≡ a.sessions)
unfolding change_password get_user_by_id
change_password_lem hash bcrypt a uid old new h u hashed found c =
    elim (Bool-cases (ltb (length new) 8)) [
      | inl w ↦ let q : false ≡ true = simp (change_password, w) at c in cc
      | inr w ↦
          let run : change_password hash bcrypt a (some uid) old new
              ≡ change_of hash bcrypt a uid old new (some u) =
            simp (change_password, w, found) in
          subst
            (λ r.
              (verify_bcrypt bcrypt u.password_hash old ≡ true)
              × (same old new ≡ false)
              × (get_user_by_id r.0 uid ≡ some (rehashed h u))
              × (r.0.sessions ≡ a.sessions))
            (sym run) (changed_user hash bcrypt a uid old new h u hashed found (rw run at c))
    ]

-- A change of the password that is refused, for whatever reason, leaves the accounts as they are.
pub change_password_refused :
    (hash : Bytes → Option Bytes) (bcrypt : Bytes → Bytes → Bool) (a : Accounts) (uid : Option ℕ)
    (old new : Bytes)
    → is_changed (change_password hash bcrypt a uid old new).1 ≡ false
    → (change_password hash bcrypt a uid old new).0 ≡ a
unfolding change_password
change_password_refused hash bcrypt a none old new c = refl
change_password_refused hash bcrypt a (some uid) old new c =
    elim (Bool-cases (ltb (length new) 8)) [
      | inl w ↦ simp (change_password, w)
      | inr w ↦
          simp (change_password, w)
            (refused_user hash bcrypt a uid old new (get_user_by_id a uid)
              (simp (change_password, w) at c))
    ]
