-- ===== src/Repository/Recipients.antt =====
-- `recipients` of apps/issue-service-nest/src/infrastructure/postgres-issue.repository.ts: whom an
-- event is addressed to.
pub mod Addressed
use jira_microservices_lab.Common.{Text, text_eq, Option, not, none, some, List, [], ◌∷◌, keep}

-- The texts among the values that are neither `null` nor empty.
unfoldable pub present : List (Option Text) → List Text
present [] = []
present (none ∷ vs) = present vs
present (some [] ∷ vs) = present vs
present (some (c ∷ s) ∷ vs) = (c ∷ s) ∷ present vs

-- `[...new Set(values)]`: each value once, in the order of first occurrence.
unfoldable pub distinct : List Text → List Text
distinct [] = []
distinct (t ∷ ts) = t ∷ keep (λ u. not (text_eq u t)) (distinct ts)

unfoldable pub recipients : List (Option Text) → Text → List Text
unfolding present distinct
recipients values actor_user_id =
    keep (λ value. not (text_eq value actor_user_id)) (distinct (present values))
