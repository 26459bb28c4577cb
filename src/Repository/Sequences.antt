-- ===== src/Repository/Sequences.antt =====
-- apps/issue-service-nest/src/infrastructure/postgres-issue.repository.ts: the upsert of
-- project_issue_sequences in `createIssue`, against the last numbers of the projects.
use jira_microservices_lab.Common.{
  ℕ, suc, ◌+◌, ◌≡◌, refl, ap, ◌∙◌, Text, text_eq, text_eq_sound, text_eq_refl, false, List, [], ◌∷◌,
  if◌then◌else◌, if_cases, arith,
}
use jira_microservices_lab.Repository.Statements.{bump}

-- The number that a project's last issue has, or 0 for a project without one.
abbrev pub last_number : Text → List (Text × ℕ) → ℕ
last_number project_id [] = 0
last_number project_id ((p, n) ∷ rest) =
    if text_eq p project_id then n else last_number project_id rest

pub bump-last_number :
    (project_id : Text) (sequences : List (Text × ℕ))
    → (bump project_id sequences).0 ≡ suc (last_number project_id sequences)
unfolding bump
bump-last_number project_id [] = refl
bump-last_number project_id ((p, n) ∷ rest) = ground (arith, bump-last_number project_id rest)

pub last_number-bump :
    (project_id : Text) (sequences : List (Text × ℕ))
    → last_number project_id (bump project_id sequences).1 ≡ (bump project_id sequences).0
unfolding bump
last_number-bump project_id [] = rw (text_eq_refl project_id) refl
last_number-bump project_id ((p, n) ∷ rest) = ground (arith, last_number-bump project_id rest)

pub last_number-bump_other :
    (project_id other : Text) (sequences : List (Text × ℕ))
    → text_eq project_id other ≡ false
    → last_number other (bump project_id sequences).1 ≡ last_number other sequences
unfolding bump
last_number-bump_other project_id other [] h = rw h refl
last_number-bump_other project_id other ((p, n) ∷ rest) h =
    let below = last_number-bump_other project_id other rest h in
    if_cases
      (λ (r : ℕ × List (Text × ℕ)).
        last_number other r.1 ≡ (if text_eq p other then n else last_number other rest))
      (text_eq p project_id) (n + 1, (p, n + 1) ∷ rest)
      ((bump project_id rest).0, (p, n) ∷ (bump project_id rest).1)
      (λ e.
        let same = text_eq_sound p project_id e in
        let apart : text_eq p other ≡ false = ap (λ t. text_eq t other) same ∙ h in rw apart refl)
      (λ e. ap (λ m. if text_eq p other then n else m) below)
