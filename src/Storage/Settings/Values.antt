-- ===== src/Storage/Settings/Values.antt =====
-- The settings as a map from keys to values.
use cncache_hub.Prelude.{
  ◌++◌, ℕ, ◌≡◌, refl, sym, ap, ◌∙◌, subst, true, false, Option, none, some, List, [], ◌∷◌,
  if◌then◌else◌, Bool-cases, inl, inr, is_some,
}
use mathlib.Core.Option
use cncache_hub.Text.{Bytes, same}
use cncache_hub.Text.Equality.{same_refl, same→≡}
use cncache_hub.Storage.Sql.{find_where}
use cncache_hub.Storage.Sql.Laws.{find_where-append, find_where-update, find_where-update_other}
use cncache_hub.Storage.Settings.{
  Setting, has_setting_key, get_setting, written, new_setting, put_setting, set_setting, get_string,
  set_all,
}

abbrev value_or : Bytes → Option Setting → Bytes
value_or fallback o = elim o [ none ↦ fallback | some s ↦ s.value ]

or_none {ℓ} : {A : Type ℓ} (o : Option A) → (if is_some o then o else none) ≡ o
or_none none = refl
or_none (some x) = refl

other_key :
    (key other : Bytes)
    → same key other ≡ false
    → (row : Setting) → has_setting_key key row ≡ true
    → has_setting_key other row ≡ false
other_key key other n row h = subst (λ k. same k other ≡ false) (sym (same→≡ row.key key h)) n

put_setting-own :
    (now : ℕ) (rows : List Setting) (key value fallback : Bytes) (user : ℕ) (o : Option Setting)
    → get_setting rows key ≡ o
    → get_string (put_setting now rows key value user o) key fallback ≡ value
unfolding put_setting get_string get_setting find_where
put_setting-own now rows key value fallback user none h =
    ap (value_or fallback) {y = some (new_setting now key value user)} (
      find_where-append (has_setting_key key) rows (new_setting now key value user ∷ [])
      ∙ rw (h, same_refl key) refl)
put_setting-own now rows key value fallback user (some s) h = ap (value_or fallback) (
    find_where-update (has_setting_key key) (written now value user) (λ row e. e) rows
    ∙ ap (Option.map (written now value user)) h)

put_setting-other :
    (now : ℕ) (rows : List Setting) (key value other fallback : Bytes) (user : ℕ)
    (o : Option Setting)
    → same key other ≡ false
    → get_string (put_setting now rows key value user o) other fallback
      ≡ get_string rows other fallback
unfolding put_setting get_string get_setting find_where
put_setting-other now rows key value other fallback user none n =
    ap (value_or fallback) {y = get_setting rows other} (
      find_where-append (has_setting_key other) rows (new_setting now key value user ∷ [])
      ∙ rw n (or_none (find_where (has_setting_key other) rows)))
put_setting-other now rows key value other fallback user (some s) n = ap (value_or fallback) (
    find_where-update_other (has_setting_key key) (has_setting_key other) (written now value user)
      (λ row h. let apart = other_key key other n row h in (apart, apart)) rows)

-- A setting that was written is read back, whatever the fallback, and the others stay.
pub get_string-set :
    (now : ℕ) (rows : List Setting) (key value other fallback : Bytes) (user : ℕ)
    → get_string (set_setting now rows key value user) other fallback
      ≡ (if same key other then value else get_string rows other fallback)
unfolding set_setting
get_string-set now rows key value other fallback user = elim (Bool-cases (same key other)) [
  | inl e ↦ rw e (
      subst
        (λ k.
          get_string (put_setting now rows key value user (get_setting rows key)) k fallback
          ≡ value)
        (same→≡ key other e)
        (put_setting-own now rows key value fallback user (get_setting rows key) refl))
  | inr e ↦ rw e (put_setting-other now rows key value other fallback user (get_setting rows key) e)
]

-- What the last write of a key in a list of writes leaves, and the old value where there is none.
unfoldable pub last_written : List (Bytes × Bytes) → Bytes → Bytes → Bytes
last_written [] key old = old
last_written ((k, v) ∷ kvs) key old = last_written kvs key (if same k key then v else old)

-- A batch of writes: each key has the value that was written last, and the rest stay.
pub get_string-set_all :
    (now : ℕ) (rows : List Setting) (kvs : List (Bytes × Bytes)) (key fallback : Bytes) (user : ℕ)
    → get_string (set_all now rows kvs user) key fallback
      ≡ last_written kvs key (get_string rows key fallback)
unfolding set_all last_written
get_string-set_all now rows [] key fallback user = refl
get_string-set_all now rows ((k, v) ∷ kvs) key fallback user =
    get_string-set_all now (set_setting now rows k v user) kvs key fallback user
    ∙ ap (last_written kvs key) (get_string-set now rows k v key fallback user)

-- Two batches of writes, one after the other.
pub last_written-append :
    (xs ys : List (Bytes × Bytes)) (key old : Bytes)
    → last_written (xs ++ ys) key old ≡ last_written ys key (last_written xs key old)
unfolding last_written
last_written-append [] ys key old = refl
last_written-append ((k, v) ∷ xs) ys key old =
    last_written-append xs ys key (if same k key then v else old)
