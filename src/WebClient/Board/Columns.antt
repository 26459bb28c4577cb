-- ===== src/WebClient/Board/Columns.antt =====
-- apps/web-client/src/features/issue/components/Board/Board.tsx: the columns against the issues that
-- the board was given.
use jira_microservices_lab.Common.{
  ℕ, ◌+◌, ◌≡◌, refl, ◌↔◌, Text, Option, List, [], ◌∷◌, length, keep, map, IsIn, All, All-keep, inl,
  inr, Bool, ◌⊎◌, if_cases, ap, sym, ◌∙◌, arith, true,
}
use jira_microservices_lab.Domain.Issue.{
  Issue, IssueStatus, todo, in_progress, done, IssuePriority, status_eq,
}
use jira_microservices_lab.WebClient.Board.{columns, column_issues, visible_issues}

-- The numbers on the columns, added up.
abbrev pub badges : List Issue → List IssueStatus → ℕ
badges issues [] = 0
badges issues (column ∷ rest) = length (column_issues column issues) + badges issues rest

status_cases : (s : IssueStatus) → (s ≡ todo) ⊎ (s ≡ in_progress) ⊎ (s ≡ done)
status_cases todo = inl refl
status_cases in_progress = inr (inl refl)
status_cases done = inr (inr refl)

column_badges :
    (issues : List Issue)
    → length (column_issues todo issues)
        + (length (column_issues in_progress issues) + (length (column_issues done issues) + 0))
      ≡ length issues
unfolding column_issues
column_badges [] = refl
column_badges (issue ∷ issues) =
    let rest = column_badges issues in
    elim (status_cases issue.status) [
      | inl e ↦ rw e (omega arith)
      | inr (inl e) ↦ rw e (omega arith)
      | inr (inr e) ↦ rw e (omega arith)
    ]

status_eq_iff : (s t : IssueStatus) → (status_eq s t ≡ true) ↔ (s ≡ t)
status_eq_iff s t = grind arith

kept-IsIn :
    (p : Issue → Bool) (issues : List Issue) (issue : Issue)
    → IsIn issue (keep p issues)
    → IsIn issue issues × (p issue ≡ true)
kept-IsIn p [] issue m = absurd m
kept-IsIn p (i ∷ issues) issue m =
    let rest = kept-IsIn p issues issue in
    if_cases (λ (ks : List Issue). IsIn issue ks → IsIn issue (i ∷ issues) × (p issue ≡ true)) (p i)
      (i ∷ keep p issues) (keep p issues)
      (λ e l. elim l [ inl f ↦ (inl f, ap p (sym f) ∙ e) | inr n ↦ (inr (rest n).0, (rest n).1) ])
      (λ e n. (inr (rest n).0, (rest n).1)) m

IsIn-keep :
    (p : Issue → Bool) (issues : List Issue) (issue : Issue)
    → IsIn issue issues
    → p issue ≡ true
    → IsIn issue (keep p issues)
IsIn-keep p [] issue m h = absurd m
IsIn-keep p (i ∷ issues) issue (inl f) h = rw (ap p f ∙ h) (inl f)
IsIn-keep p (i ∷ issues) issue (inr m) h =
    let rest = IsIn-keep p issues issue m h in
    if_cases (IsIn issue) (p i) (i ∷ keep p issues) (keep p issues) (λ e. inr rest) (λ e. rest)

column_issues_iff :
    (column : IssueStatus) (issues : List Issue) (issue : Issue)
    → IsIn issue (column_issues column issues) ↔ (IsIn issue issues × (issue.status ≡ column))
unfolding column_issues
column_issues_iff column issues issue =
    let fits : Issue → Bool = λ i. status_eq i.status column in
    (
      λ m.
          let (here, e) = kept-IsIn fits issues issue m in
          (here, (status_eq_iff issue.status column).0 e),
      λ m. IsIn-keep fits issues issue m.0 ((status_eq_iff issue.status column).1 m.1),
    )

-- The columns of the board divide the issues that the search and the priority leave: an issue stands
-- in a column just when it is left and has the status of the column, what is left was given to the
-- board, and the numbers on the columns add up to the number of issues left.
columns_divide :
    (lower_case : Text → Text) (query : Text) (priority : Option IssuePriority)
    (issues : List Issue) (issue : Issue) (column : IssueStatus)
    → (IsIn issue (column_issues column (visible_issues lower_case query priority issues))
        ↔ (IsIn issue (visible_issues lower_case query priority issues) × (issue.status ≡ column)))
      × All (λ i. IsIn i issues) (visible_issues lower_case query priority issues)
      × (badges (visible_issues lower_case query priority issues) (map (λ c. c.0) columns)
          ≡ length (visible_issues lower_case query priority issues))
unfolding visible_issues
columns_divide lower_case query priority issues issue column =
    let visible = visible_issues lower_case query priority issues in
    (
      column_issues_iff column visible issue,
      All-keep (λ i. IsIn i issues) _ issues (λ i m e. m),
      column_badges visible,
    )
