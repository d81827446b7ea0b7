-- ===== src/Storage/Sql.antt =====
-- The statements of SQL that package storage runs on one table, over its rows in the order of their
-- ids: a row found by a condition, an UPDATE, a DELETE and a SELECT with WHERE.
pub mod Laws
use cncache_hub.Prelude.{Bool, true, false, Option, none, some, List, [], ◌∷◌, if◌then◌else◌}

module _ {ℓ} {A : Type ℓ} where
  unfoldable pub find_where : (A → Bool) → List A → Option A
  find_where p [] = none
  find_where p (row ∷ rows) = if p row then some row else find_where p rows

  unfoldable pub update_where : (A → Bool) → (A → A) → List A → List A
  update_where p f [] = []
  update_where p f (row ∷ rows) = (if p row then f row else row) ∷ update_where p f rows

  unfoldable pub delete_where : (A → Bool) → List A → List A
  delete_where p [] = []
  delete_where p (row ∷ rows) = let rest = delete_where p rows in if p row then rest else row ∷ rest

  unfoldable pub select_where : (A → Bool) → List A → List A
  select_where p [] = []
  select_where p (row ∷ rows) = let rest = select_where p rows in if p row then row ∷ rest else rest
