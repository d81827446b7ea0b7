-- ===== src/Storage/Sql/Laws.antt =====
-- What the statements leave for a later one to find.
use mathlib.Core.Option
use mathlib.Core.Option.{some-injective}
use cncache_hub.Prelude.{
  ◌≡◌, refl, sym, ◌∙◌, subst, Bool, true, false, none, some, List, [], ◌∷◌, ◌++◌, if◌then◌else◌,
  Bool-cases, inl, inr, is_some, All,
}
use cncache_hub.Storage.Sql.{find_where, update_where, delete_where}

module _ {ℓ} {A : Type ℓ} where
  -- An update that keeps its own condition changes the row that is found by it.
  pub find_where-update :
      (p : A → Bool) (f : A → A)
      → ((row : A) → p row ≡ true → p (f row) ≡ true)
      → (rows : List A) → find_where p (update_where p f rows) ≡ Option.map f (find_where p rows)
  unfolding find_where update_where
  find_where-update p f keeps [] = refl
  find_where-update p f keeps (row ∷ rows) = elim (Bool-cases (p row)) [
    | inl e ↦ rw (e, keeps row e) refl
    | inr e ↦ rw (e, e) (find_where-update p f keeps rows)
  ]

  -- Rows that the condition leaves out are not touched.
  pub find_where-update_other :
      (p q : A → Bool) (f : A → A)
      → ((row : A) → p row ≡ true → (q row ≡ false) × (q (f row) ≡ false))
      → (rows : List A) → find_where q (update_where p f rows) ≡ find_where q rows
  unfolding find_where update_where
  find_where-update_other p q f apart [] = refl
  find_where-update_other p q f apart (row ∷ rows) = elim (Bool-cases (p row)) [
    | inl e ↦ rw (e, (apart row e).0, (apart row e).1) (find_where-update_other p q f apart rows)
    | inr e ↦ rw (e, find_where-update_other p q f apart rows) refl
  ]

  pub find_where-delete : (p : A → Bool) (rows : List A) → find_where p (delete_where p rows) ≡ none
  unfolding find_where delete_where
  find_where-delete p [] = refl
  find_where-delete p (row ∷ rows) = elim (Bool-cases (p row)) [
    | inl e ↦ rw e (find_where-delete p rows)
    | inr e ↦ rw (e, e) (find_where-delete p rows)
  ]

  pub find_where-delete_other :
      (p q : A → Bool)
      → ((row : A) → p row ≡ true → q row ≡ false)
      → (rows : List A) → find_where q (delete_where p rows) ≡ find_where q rows
  unfolding find_where delete_where
  find_where-delete_other p q apart [] = refl
  find_where-delete_other p q apart (row ∷ rows) = elim (Bool-cases (p row)) [
    | inl e ↦ rw (e, apart row e) (find_where-delete_other p q apart rows)
    | inr e ↦ rw (e, find_where-delete_other p q apart rows) refl
  ]

  pub find_where-append :
      (p : A → Bool) (xs ys : List A)
      → find_where p (xs ++ ys)
        ≡ (if is_some (find_where p xs) then find_where p xs else find_where p ys)
  unfolding find_where
  find_where-append p [] ys = refl
  find_where-append p (x ∷ xs) ys = elim (Bool-cases (p x)) [
    | inl e ↦ rw e refl
    | inr e ↦ rw e (find_where-append p xs ys)
  ]

  -- What is found meets the condition.
  pub find_where_sound :
      (p : A → Bool) (rows : List A) (row : A) → find_where p rows ≡ some row → p row ≡ true
  unfolding find_where
  find_where_sound p [] row h = cc
  find_where_sound p (x ∷ xs) row h = elim (Bool-cases (p x)) [
    | inl e ↦
        let q : some x ≡ some row = rw e at h in
        let same_row : x ≡ row = cc in subst (λ r. p r ≡ true) same_row e
    | inr e ↦ find_where_sound p xs row (rw e at h)
  ]

  pub find_where_first :
      (p : A → Bool) (row : A) (rows : List A) → p row ≡ true → find_where p (row ∷ rows) ≡ some row
  unfolding find_where
  find_where_first p row rows h = rw h refl

  -- A condition that only rows of a deleted kind meet finds nothing afterwards.
  pub find_where-delete_within :
      (p q : A → Bool)
      → ((row : A) → q row ≡ true → p row ≡ true)
      → (rows : List A) → find_where q (delete_where p rows) ≡ none
  unfolding find_where delete_where
  find_where-delete_within p q within [] = refl
  find_where-delete_within p q within (row ∷ rows) = elim (Bool-cases (p row)) [
    | inl e ↦ rw e (find_where-delete_within p q within rows)
    | inr e ↦ elim (Bool-cases (q row)) [
      | inl y ↦ let both : false ≡ true = sym e ∙ within row y in cc
      | inr n ↦ rw (e, n) (find_where-delete_within p q within rows)
    ]
  ]

  -- An update that keeps another condition changes what is found by that one, if it meets its own.
  pub find_where-update_any :
      (p q : A → Bool) (f : A → A)
      → ((row : A) → q (f row) ≡ q row)
      → (rows : List A)
      → find_where q (update_where p f rows)
        ≡ Option.map (λ row. if p row then f row else row) (find_where q rows)
  unfolding find_where update_where
  find_where-update_any p q f keeps [] = refl
  find_where-update_any p q f keeps (row ∷ rows) = elim (Bool-cases (p row)) [
    | inl e ↦ elim (Bool-cases (q row)) [
      | inl y ↦ rw (e, keeps row, y) (rw e refl)
      | inr n ↦ rw (e, keeps row, n) (find_where-update_any p q f keeps rows)
    ]
    | inr e ↦ elim (Bool-cases (q row)) [
      | inl y ↦ rw (e, y) (rw e refl)
      | inr n ↦ rw (e, n) (find_where-update_any p q f keeps rows)
    ]
  ]

  pub All-find_where {κ} :
      (P : A → Type κ) (p : A → Bool) (rows : List A) (row : A)
      → All P rows
      → find_where p rows ≡ some row
      → P row
  unfolding find_where
  All-find_where P p [] row h f = cc
  All-find_where P p (x ∷ rows) row h f = elim (Bool-cases (p x)) [
    | inl e ↦ let q : some x ≡ some row = rw e at f in subst P (some-injective x row q) h.0
    | inr e ↦ All-find_where P p rows row h.1 (rw e at f)
  ]

  -- The rows that stay do not meet the condition.
  pub All-delete_where {κ} :
      (P : A → Type κ) (p : A → Bool) (rows : List A)
      → All P rows
      → All (λ row. P row × (p row ≡ false)) (delete_where p rows)
  unfolding delete_where
  All-delete_where P p [] h = tt
  All-delete_where P p (x ∷ rows) h = elim (Bool-cases (p x)) [
    | inl e ↦ rw e (All-delete_where P p rows h.1)
    | inr e ↦ rw e ((h.0, e), All-delete_where P p rows h.1)
  ]

  pub All-update_where {κ} :
      (P : A → Type κ) (p : A → Bool) (f : A → A)
      → ((row : A) → P row → P (f row))
      → (rows : List A) → All P rows
      → All P (update_where p f rows)
  unfolding update_where
  All-update_where P p f keeps [] h = tt
  All-update_where P p f keeps (x ∷ rows) h = elim (Bool-cases (p x)) [
    | inl e ↦ rw e (keeps x h.0, All-update_where P p f keeps rows h.1)
    | inr e ↦ rw e (h.0, All-update_where P p f keeps rows h.1)
  ]
