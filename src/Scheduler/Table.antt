-- ===== src/Scheduler/Table.antt =====
-- Rows with a number as their key, in the order of their keys: what the SQL of store.go does by `id`.
pub mod Laws
use infra_shelf.Common.{ℕ, Bool, List, [], ◌∷◌, Option, none, some, ◌==◌, if◌then◌else◌}

module _ {ℓ} {A : Type ℓ} (key : A → ℕ) where
  -- `WHERE id = ?`
  unfoldable pub find_row : ℕ → List A → Option A
  find_row id [] = none
  find_row id (r ∷ rs) = if key r == id then some r else find_row id rs

  unfoldable pub change_row : ℕ → (A → A) → List A → List A
  change_row id f [] = []
  change_row id f (r ∷ rs) = (if key r == id then f r else r) ∷ change_row id f rs

  unfoldable pub remove_row : ℕ → List A → List A
  remove_row id [] = []
  remove_row id (r ∷ rs) = let rest = remove_row id rs in if key r == id then rest else r ∷ rest
