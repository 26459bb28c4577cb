-- ===== src/Repository/Versions.antt =====
-- apps/issue-service-nest/src/infrastructure/postgres-issue.repository.ts: the versions of
-- issues over histories of operations, on which the optimistic lock rests.
use jira_microservices_lab.Common.{◌≤◌, ◌≡◌, refl, ap, ◌∙◌, Text, some, List, [], ◌∷◌, arith}
use jira_microservices_lab.Domain.Issue.{Issue}
use jira_microservices_lab.Repository.Db.{Db}
use jira_microservices_lab.Repository.Table.{find_row}
use jira_microservices_lab.Repository.Changes.{version_at}
use jira_microservices_lab.Repository.Invariant.{IsValid, Change-version_at}
use jira_microservices_lab.Repository.Steps.{
  Request, step, run, Effect, same, changed, outboxed, step-Effect, step-IsValid,
}

pub record Evolves (id : Text) (db db' : Db) : Type 0 where
  pub grows : version_at id db ≤ version_at id db'
  pub kept : version_at id db' ≡ version_at id db → find_row id db'.issues ≡ find_row id db.issues

Effect-Evolves : (id : Text) (db db' : Db) → Effect db db' → Evolves id db db'
Effect-Evolves id db db' (same e) = record {
  grows = rw e (omega arith);
  kept = λ _. ap (λ d. find_row id d.issues) e;
}
Effect-Evolves id db db' (changed row c) = record {
  grows = ground (arith, Change-version_at db db' row id c);
  kept = λ h. ground (arith, Change-version_at db db' row id c, c.rows id, h);
}
Effect-Evolves id db db' (outboxed outbox e h) = record {
  grows = rw e (omega arith);
  kept = λ _. ap (λ d. find_row id d.issues) e;
}

-- From a valid database, over any history of operations on issues and on the outbox the version
-- of an issue does not fall, and if it is the same at the end as at the start, so is the whole
-- row.
pub run-Evolves : (rs : List Request) (db : Db) (id : Text) → IsValid db → Evolves id db (run rs db)
unfolding run
run-Evolves [] db id v = record { grows = omega arith; kept = λ _. refl }
run-Evolves (r ∷ rs) db id v =
    let first = Effect-Evolves id db (step r db) (step-Effect r db v) in
    let rest = run-Evolves rs (step r db) id (step-IsValid r db v) in
    record {
      grows = omega (arith, first.grows, rest.grows);
      kept = λ h.
          rest.kept (omega (arith, h, first.grows, rest.grows))
          ∙ first.kept (omega (arith, h, first.grows, rest.grows));
    }

-- An issue that was read before a history of operations, and whose version is still the same after
-- it, still stands in the table as it was read.
pub unchanged_if_same_version :
    (rs : List Request) (db : Db) (id : Text) (issue before : Issue)
    → IsValid db
    → find_row id db.issues ≡ some issue
    → find_row id (run rs db).issues ≡ some before
    → before.version ≡ issue.version
    → before ≡ issue
unchanged_if_same_version rs db id issue before v e e' h =
    let kept = (run-Evolves rs db id v).kept (ground (arith, e, e', h)) in
    ground (arith, kept, e, e')
