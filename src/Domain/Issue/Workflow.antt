-- ===== src/Domain/Issue/Workflow.antt =====
-- apps/issue-service-nest/src/domain/issue.ts: the workflow of statuses as a relation, beside
-- `assertTransition`.
use jira_microservices_lab.Common.{◌≡◌, refl, ◌↔◌, arith}
use jira_microservices_lab.Domain.Errors.{ok, err}
use jira_microservices_lab.Domain.Issue.{
  IssueStatus, todo, in_progress, done, ValidatedIssueTransition, invalid_transition,
  assert_transition,
}

-- The edges of the workflow.
pub data Edge : IssueStatus → IssueStatus → Type 0 where
  start : Edge todo in_progress
  stop : Edge in_progress todo
  finish : Edge in_progress done
  reopen : Edge done in_progress

ruleset edges = (start, stop, finish, reopen)

Edge-accepted :
    {from to : IssueStatus}
    → Edge from to
    → assert_transition from to ≡ ok (record { from = from; to = to })
unfolding assert_transition
Edge-accepted start = refl
Edge-accepted stop = refl
Edge-accepted finish = refl
Edge-accepted reopen = refl

accepted-Edge :
    (from to : IssueStatus) (v : ValidatedIssueTransition)
    → assert_transition from to ≡ ok v
    → Edge from to × (v.from ≡ from) × (v.to ≡ to)
unfolding assert_transition
accepted-Edge from to v h = grind (arith, edges)

-- A change of status is accepted exactly when it is an edge of the workflow, and what comes back
-- holds the two statuses that were asked for.
pub assert_transition_iff :
    (from to : IssueStatus) (v : ValidatedIssueTransition)
    → (assert_transition from to ≡ ok v) ↔ (Edge from to × (v.from ≡ from) × (v.to ≡ to))
assert_transition_iff from to v = (accepted-Edge from to v, accepts)
  where
    accepts : Edge from to × (v.from ≡ from) × (v.to ≡ to) → assert_transition from to ≡ ok v
    accepts (e, f, t) = ground (arith, Edge-accepted e)

-- A change that is not accepted is refused as an invalid transition, and no other way.
pub assert_transition_refuses :
    (from to : IssueStatus)
    → (Edge from to → ⊥)
    → assert_transition from to ≡ err (invalid_transition from to)
unfolding assert_transition
assert_transition_refuses from to h = grind (arith, edges)

-- A chain of accepted changes of status.
pub data Chain : IssueStatus → IssueStatus → Type 0 where
  here : {s : IssueStatus} → Chain s s
  then :
      {s t u : IssueStatus}
      → assert_transition s t ≡ ok (record { from = s; to = t })
      → Chain t u
      → Chain s u

Chain-append : {s t u : IssueStatus} → Chain s t → Chain t u → Chain s u
Chain-append here d = d
Chain-append (then a c) d = then a (Chain-append c d)

to_middle : (s : IssueStatus) → Chain s in_progress
to_middle todo = then (Edge-accepted start) here
to_middle in_progress = here
to_middle done = then (Edge-accepted reopen) here

from_middle : (t : IssueStatus) → Chain in_progress t
from_middle todo = then (Edge-accepted stop) here
from_middle in_progress = here
from_middle done = then (Edge-accepted finish) here

-- The workflow has no dead end: accepted changes lead from every status to every other.
Chain-total : (s t : IssueStatus) → Chain s t
Chain-total s t = Chain-append (to_middle s) (from_middle t)

-- Every accepted change can be undone by an accepted change.
assert_transition_undo :
    (from to : IssueStatus) (v : ValidatedIssueTransition)
    → assert_transition from to ≡ ok v
    → assert_transition to from ≡ ok (record { from = to; to = from })
unfolding assert_transition
assert_transition_undo from to v h = ground arith
