-- ===== src/Common/Sorting.antt =====
-- ORDER BY: a stable sort.
use mathlib.Core.Bool.{Bool}
use mathlib.Core.List.{List, [], ◌∷◌}
use jira_microservices_lab.Common.Tests.{if◌then◌else◌}

module _ {ℓ} {A : Type ℓ} (before : A → A → Bool) where
  unfoldable pub insert_row : A → List A → List A
  insert_row r [] = r ∷ []
  insert_row r (s ∷ rows) = if before s r then s ∷ insert_row r rows else r ∷ s ∷ rows

  unfoldable pub sort_rows : List A → List A
  unfolding insert_row
  sort_rows [] = []
  sort_rows (r ∷ rows) = insert_row r (sort_rows rows)
