-- ===== src/Tests/Repository.antt =====
-- The repository on the database with one issue.
use jira_microservices_lab.Common.{◌+◌, ◌≡◌, ◌⊎◌, suc, Text, refl, codes, Bool, none, List, [], ◌∷◌}
use jira_microservices_lab.Domain.Errors.{ok}
use jira_microservices_lab.Domain.Issue.{todo, in_progress}
use jira_microservices_lab.Repository.Table.{find_row}
use jira_microservices_lab.Repository.Writes.{create_issue}
use jira_microservices_lab.Repository.Changes.{Change}
use jira_microservices_lab.Repository.Creation.Stored.{IsNew, create_issue_ok}
use jira_microservices_lab.Repository.Sequences.{last_number}
use jira_microservices_lab.Repository.Invariant.{IsValid}
use jira_microservices_lab.Repository.Steps.{
  Request, transition, claim, published, run, run-IsValid,
}
use jira_microservices_lab.Repository.Versions.{Evolves, run-Evolves}
use jira_microservices_lab.Common.{none, arith}
use jira_microservices_lab.Repository.Writes.{transition_issue}
use jira_microservices_lab.Repository.Progress.{IsFresh, IsDecided}
use jira_microservices_lab.Repository.Progress.Decided.{transition_issue-IsDecided}
use jira_microservices_lab.Tests.Running.{code}
use jira_microservices_lab.Tests.Data.{
  first_env, second_env, new_issue, first_issue, one_issue, one_issue-IsValid, empty_db, alice,
  issue_id,
}

created_now : create_issue first_env new_issue empty_db ≡ (ok first_issue, one_issue)
unfolding code
created_now = refl

create_issue_ok_example :
    IsNew first_env new_issue first_issue
    × (first_issue.number ≡ suc (last_number new_issue.project_id empty_db.sequences))
    × (last_number new_issue.project_id one_issue.sequences ≡ first_issue.number)
    × ((other : Text)
        → (new_issue.project_id ≡ other)
          ⊎ (last_number other one_issue.sequences ≡ last_number other empty_db.sequences))
    × (find_row first_issue.id empty_db.issues ≡ none)
    × Change empty_db one_issue first_issue
create_issue_ok_example =
    create_issue_ok first_env new_issue empty_db first_issue one_issue tt created_now

-- A change of status, the publication of its event, and a repetition of the change, which fails.
abbrev requests : List Request
requests =
    transition second_env first_issue 1 (record { from = todo; to = in_progress }) alice
    ∷ claim 50 (λ id. Bool.false) 100
    ∷ published (codes "e1" ∷ []) 101
    ∷ transition second_env first_issue 1 (record { from = todo; to = in_progress }) alice
    ∷ []

run-IsValid_example : IsValid (run requests one_issue)
run-IsValid_example = run-IsValid requests one_issue one_issue-IsValid

run-Evolves_example : Evolves issue_id one_issue (run requests one_issue)
run-Evolves_example = run-Evolves requests one_issue issue_id one_issue-IsValid

alice-uuid : second_env.is_uuid alice ≡ Bool.true
unfolding codes
alice-uuid = refl

second_env-IsFresh : IsFresh second_env one_issue
unfolding code
second_env-IsFresh = (refl, refl)

-- A stale version is refused.
transition_issue-IsDecided_example :
    IsDecided one_issue issue_id 7
      (λ r. record r { status = in_progress; version = r.version + 1; updated_at = 23 })
      (transition_issue second_env first_issue 7
        (record { from = todo; to = in_progress })
        alice
        one_issue)
transition_issue-IsDecided_example =
    transition_issue-IsDecided second_env first_issue 7 (record { from = todo; to = in_progress })
      alice one_issue alice-uuid one_issue-IsValid.unique second_env-IsFresh (omega arith)
