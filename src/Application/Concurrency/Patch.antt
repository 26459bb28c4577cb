-- ===== src/Application/Concurrency/Patch.antt =====
-- apps/issue-service-nest/src/application/issue-application.service.ts: a change of the details,
-- among other requests.
use jira_microservices_lab.Common.{
  ◌+◌, ℕ, ◌≡◌, ap, refl, sym, ◌∙◌, subst, Text, Bool, true, false, some, List, arith,
}
use jira_microservices_lab.Json.{Value, Fields, has_own}
use jira_microservices_lab.Domain.Errors.{ok}
use jira_microservices_lab.Domain.Issue.{Issue, issue_status_name}
use jira_microservices_lab.Repository.Db.{Db, Env}
use jira_microservices_lab.Repository.Table.{find_row}
use jira_microservices_lab.Repository.Statements.{next_version}
use jira_microservices_lab.Repository.Writes.{UpdateIssueData}
use jira_microservices_lab.Repository.Operations.{update_issue_ok}
use jira_microservices_lab.Repository.Invariant.{IsValid}
use jira_microservices_lab.Repository.Steps.{Request, run, run-IsValid}
use jira_microservices_lab.Application.Access.{ProjectAccess, RequestContext, require_visible_issue}
use jira_microservices_lab.Application.Input.{body, expected_version, assert_expected_version}
use jira_microservices_lab.Application.Plans.{
  UpdatePlan, read_only, change, update_plan, update_branch, patched,
}
use jira_microservices_lab.Application.Handlers.{write_update, update_issue}
use jira_microservices_lab.Application.Visibility.{bind-eq-ok, Granted, require_visible_issue_ok}
use jira_microservices_lab.Application.Concurrency.{
  carry_out_ok, Planned, Planned-seen, WrittenAsRead, Written-as_read,
}
use jira_microservices_lab.Application.Plans.{version_if_given}
use jira_microservices_lab.Common.{◌⊎◌, inl, inr}
use jira_microservices_lab.Application.Input.{assert_core_patch_fields, has_core_patch_mutation}

update_branch_change :
    (get_access : ProjectAccess) (changes : Bool) (id : Text) (input : Fields)
    (context : RequestContext) (db : Db) (issue : Issue) (expected : ℕ) (given : UpdateIssueData)
    → update_branch get_access changes id input context db ≡ ok (change issue expected given)
    → Planned get_access context db issue expected × (patched issue input ≡ ok given)
unfolding update_branch
update_branch_change get_access false id input context db issue expected given h =
    absurd (ground arith)
update_branch_change get_access true id input context db issue expected given h =
    let (n, _, h1) = bind-eq-ok (expected_version input) _ (change issue expected given) h in
    let (seen, visible, h2) =
      bind-eq-ok (require_visible_issue get_access id context true db) _
        (change issue expected given) h1 in
    let (u, version, h3) =
      bind-eq-ok (assert_expected_version seen n) _ (change issue expected given) h2 in
    let (g, made, h4) = bind-eq-ok (patched seen input) _ (change issue expected given) h3 in
    let same : seen ≡ issue = ground (arith, h4) in
    (
      Planned-seen get_access id context db seen issue n expected visible version same
          (ground (arith, h4)),
      subst (λ (i : Issue). patched i input ≡ ok given) same (made ∙ ground (arith, h4)),
    )

update_plan_change :
    (get_access : ProjectAccess) (id : Text) (value : Value) (context : RequestContext) (db : Db)
    (issue : Issue) (expected : ℕ) (given : UpdateIssueData)
    → update_plan get_access id value context db ≡ ok (change issue expected given)
    → Planned get_access context db issue expected
      × ((input : Fields) × (body value ≡ ok input) × (patched issue input ≡ ok given))
unfolding update_plan
update_plan_change get_access id value context db issue expected given h =
    let (input, b, h1) = bind-eq-ok (body value) _ (change issue expected given) h in
    let (u, _, h2) =
      bind-eq-ok (assert_core_patch_fields input) _ (change issue expected given) h1 in
    let (there, made) =
      update_branch_change get_access (has_core_patch_mutation input) id input context db issue
        expected given h2 in
    (there, (input, b, made))

-- What a plan that only reads has established.
update_branch_read :
    (get_access : ProjectAccess) (changes : Bool) (id : Text) (input : Fields)
    (context : RequestContext) (db : Db) (issue : Issue)
    → update_branch get_access changes id input context db ≡ ok (read_only issue)
    → (find_row issue.id db.issues ≡ some issue) × Granted get_access context false issue
unfolding update_branch
update_branch_read get_access true id input context db issue h = absurd (ground arith)
update_branch_read get_access false id input context db issue h =
    let (u, _, h1) = bind-eq-ok (version_if_given input) _ (read_only issue) h in
    let (seen, visible, h2) =
      bind-eq-ok (require_visible_issue get_access id context false db) _ (read_only issue) h1 in
    let same : seen ≡ issue = ground (arith, h2) in
    require_visible_issue_ok get_access id context false db issue (visible ∙ ap ok same)

-- A patch that only reads names none of the fields.
update_branch_names :
    (get_access : ProjectAccess) (changes : Bool) (id : Text) (input : Fields)
    (context : RequestContext) (db : Db) (issue : Issue)
    → update_branch get_access changes id input context db ≡ ok (read_only issue)
    → changes ≡ false
unfolding update_branch
update_branch_names get_access false id input context db issue h = refl
update_branch_names get_access true id input context db issue h = absurd (ground arith)

-- No field of the patch is one of the four that change an issue.
abbrev NamesNone : Fields → Type 0
NamesNone input =
    (has_own "summary" input ≡ false)
    × (has_own "description" input ≡ false)
    × (has_own "type" input ≡ false)
    × (has_own "priority" input ≡ false)

has_core_patch_mutation_none :
    (input : Fields) → has_core_patch_mutation input ≡ false → NamesNone input
unfolding has_core_patch_mutation
has_core_patch_mutation_none input h = (ground arith, ground arith, ground arith, ground arith)

update_plan_read :
    (get_access : ProjectAccess) (id : Text) (value : Value) (context : RequestContext) (db : Db)
    (issue : Issue)
    → update_plan get_access id value context db ≡ ok (read_only issue)
    → ((input : Fields) × (body value ≡ ok input) × NamesNone input)
      × (find_row issue.id db.issues ≡ some issue)
      × Granted get_access context false issue
unfolding update_plan
update_plan_read get_access id value context db issue h =
    let (input, b, h1) = bind-eq-ok (body value) _ (read_only issue) h in
    let (u, _, h2) = bind-eq-ok (assert_core_patch_fields input) _ (read_only issue) h1 in
    let names = has_core_patch_mutation_none input (
      update_branch_names get_access (has_core_patch_mutation input) id input context db issue
        h2) in
    let (there, granted) =
      update_branch_read get_access (has_core_patch_mutation input) id input context db issue h2 in
    ((input, b, names), there, granted)

-- If the database was valid when the request read it, a patch that succeeds names neither
-- summary, description, type nor priority, writes nothing and returns the issue as it was read;
-- or it finds the issue as it was read, whatever operations on issues and on the outbox ran
-- since, stores the patched details with the next version and a new time of update, changes no
-- other issue, and adds one event and one history row. The user had access to the project, which
-- for a change was not archived.
pub update_issue_safe :
    (get_access : ProjectAccess) (context : RequestContext) (env : Env) (id : Text) (value : Value)
    (rs : List Request) (read : Db) (row : Issue) (db' : Db)
    → IsValid read
    → update_issue get_access context env id value read (run rs read) ≡ (ok row, db')
    → ((input : Fields) × (body value ≡ ok input)
        × (has_own "summary" input ≡ false)
        × (has_own "description" input ≡ false)
        × (has_own "type" input ≡ false)
        × (has_own "priority" input ≡ false)
        × (db' ≡ run rs read)
        × (find_row row.id read.issues ≡ some row)
        × Granted get_access context false row)
      ⊎ ((issue : Issue) × (input : Fields) × (given : UpdateIssueData) × Granted get_access context
            true issue
          × (body value ≡ ok input)
          × (patched issue input ≡ ok given)
          × WrittenAsRead read
              (run rs read)
              db'
              (λ r. record r {
                summary = given.summary;
                description = given.description;
                type = given.type;
                priority = given.priority;
                version = r.version + 1;
                updated_at = env.db_now;
              })
              issue
              row)
unfolding update_issue next_version
update_issue_safe get_access context env id value rs read row db' v h =
    let (plan, planned, k) =
      carry_out_ok (update_plan get_access id value context read) (write_update env context.user_id)
        (run rs read) row db' h in
    from_plan plan planned k
  where
    from_plan :
        (plan : UpdatePlan)
        → update_plan get_access id value context read ≡ ok plan
        → write_update env context.user_id plan (run rs read) ≡ (ok row, db')
        → ((input : Fields) × (body value ≡ ok input)
            × (has_own "summary" input ≡ false)
            × (has_own "description" input ≡ false)
            × (has_own "type" input ≡ false)
            × (has_own "priority" input ≡ false)
            × (db' ≡ run rs read)
            × (find_row row.id read.issues ≡ some row)
            × Granted get_access context false row)
          ⊎ ((issue : Issue) × (input : Fields) × (given : UpdateIssueData) × Granted get_access
                context true issue
              × (body value ≡ ok input)
              × (patched issue input ≡ ok given)
              × WrittenAsRead read
                  (run rs read)
                  db'
                  (λ r. record r {
                    summary = given.summary;
                    description = given.description;
                    type = given.type;
                    priority = given.priority;
                    version = r.version + 1;
                    updated_at = env.db_now;
                  })
                  issue
                  row)
    from_plan (read_only issue) planned k =
        let same : issue ≡ row = ground (arith, k) in
        let ((input, b, names), there, granted) =
          update_plan_read get_access id value context read row
            (planned ∙ ap (λ i. ok (read_only i)) same) in
        inl (input, b, names.0, names.1, names.2, names.3, sym (ap (λ t. t.1) k), there, granted)
    from_plan (change issue expected given) planned k =
        let (there, (input, b, made)) =
          update_plan_change get_access id value context read issue expected given planned in
        let w =
          update_issue_ok env issue expected given context.user_id (run rs read) row db'
            (run-IsValid rs read v).unique k in
        inr (
          issue,
          input,
          given,
          there.1,
          b,
          made,
          Written-as_read rs read db' _ issue row expected v there.0 there.2 w,
        )
