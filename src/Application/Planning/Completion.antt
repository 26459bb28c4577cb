-- ===== src/Application/Planning/Completion.antt =====
-- apps/issue-service-nest/src/application/planning-application.service.ts: what `completeSprint`
-- does when other requests have run since it read the sprint.
pub mod Twice
use jira_microservices_lab.Common.{
  ℕ, ◌≡◌, ◌≢◌, ◌⊎◌, inl, inr, refl, ap, sym, ◌∙◌, subst, Text, text_eq, text_eq_sound,
  text_eq-false, contains, Bool, true, false, ◌&&◌, if◌then◌else◌, Option, none, some, List, [],
  ◌∷◌, ◌++◌, map, first, keep, any_of, All, IsIn, if_cases, Bool-cases, arith,
}
use jira_microservices_lab.Json.{str}
use jira_microservices_lab.Domain.Errors.{ok, err, failure, some_or, require}
use jira_microservices_lab.Domain.Values.{uuid}
use jira_microservices_lab.Domain.Planning.{Sprint, active, completed}
use jira_microservices_lab.Repository.Db.{Db, Env}
use jira_microservices_lab.Repository.Planning.{
  is_active, is_unfinished, finish, finish_where, find_sprint,
}
use jira_microservices_lab.Repository.Planning
use jira_microservices_lab.Repository.Planning.Invariant.{
  PlanningRequest, new_epic, change_epic, new_sprint, end_sprint, plan_step, plan_run,
}
use jira_microservices_lab.Application.Access.{
  ProjectAccess, ProjectAccessContext, RequestContext, active as open_project, archived,
}
use jira_microservices_lab.Application.Visibility.{bind-eq-ok, some_or_ok}
use jira_microservices_lab.Application.Planning.{
  completion_plan, complete_sprint, require_writable_plan, writable_planning, sprint_not_found,
  sprint_already_completed,
}

-- A sprint with an identifier is to be completed, or another one is, or it has been.
pub unfinished_lem :
    (id : Text) (s : Sprint)
    → ((is_unfinished id s ≡ true) × (s.id ≡ id) × (s.status ≡ active))
      ⊎ ((is_unfinished id s ≡ false) × ((s.id ≢ id) ⊎ (s.status ≡ completed)))
unfinished_lem id s = elim (Bool-cases (text_eq s.id id)) [
  | inl e ↦ by_status s.status refl e
  | inr e ↦ inr (ground (arith, e), inl (text_eq-false s.id id e))
]
  where
    by_status :
        (status : _)
        → s.status ≡ status
        → text_eq s.id id ≡ true
        → ((is_unfinished id s ≡ true) × (s.id ≡ id) × (s.status ≡ active))
          ⊎ ((is_unfinished id s ≡ false) × ((s.id ≢ id) ⊎ (s.status ≡ completed)))
    by_status active h e = inl (ground (arith, h, e), text_eq_sound s.id id e, h)
    by_status completed h e = inr (ground (arith, h, e), inr h)

-- The first sprint that is to be completed, if there is one.
pub unfinished_cases :
    (id : Text) (sprints : List Sprint)
    → ((s : Sprint) × IsIn s sprints
        × (s.id ≡ id)
        × (s.status ≡ active)
        × (first (keep (is_unfinished id) sprints) ≡ some s))
      ⊎ (All (λ s. (s.id ≢ id) ⊎ (s.status ≡ completed)) sprints
          × (first (keep (is_unfinished id) sprints) ≡ none))
unfinished_cases id [] = inr (tt, refl)
unfinished_cases id (s ∷ sprints) =
    let rest = unfinished_cases id sprints in
    elim (unfinished_lem id s) [
      | inl (u, e, a) ↦ inl (s, inl refl, e, a, rw u refl)
      | inr (u, h) ↦ elim rest [
        | inl (t, m, e, a, f) ↦ inl (t, inr m, e, a, rw u f)
        | inr (n, f) ↦ inr ((h, n), rw u f)
      ]
    ]

-- The sprints, and what they are after the completion of the active one with an identifier: that one
-- is completed at a time, and each other one is as it was.
abbrev pub Completes : Text → ℕ → List Sprint → List Sprint → Type 0
Completes id now [] [] = Unit {0}
Completes id now [] (t ∷ ts) = ⊥
Completes id now (s ∷ ss) [] = ⊥
Completes id now (s ∷ ss) (t ∷ ts) =
    (((s.id ≡ id)
        × (s.status ≡ active)
        × (t ≡ record s { status = completed; completed_at = some now }))
      ⊎ (((s.id ≢ id) ⊎ (s.status ≡ completed)) × (t ≡ s)))
    × Completes id now ss ts

finish_where-Completes :
    (id : Text) (now : ℕ) (sprints : List Sprint)
    → Completes id now sprints (finish_where id now sprints)
unfolding finish_where
finish_where-Completes id now [] = tt
finish_where-Completes id now (s ∷ sprints) =
    let rest = finish_where-Completes id now sprints in
    elim (unfinished_lem id s) [
      | inl (u, e, a) ↦ rw u (inl (e, a, refl), rest)
      | inr (u, h) ↦ rw u (inr (h, refl), rest)
    ]

find_sprint_found :
    (id : Text) (sprints : List Sprint) (s : Sprint)
    → find_sprint id sprints ≡ some s
    → IsIn s sprints × (s.id ≡ id)
unfolding find_sprint
find_sprint_found id [] s h = absurd (ground arith)
find_sprint_found id (t ∷ sprints) s h =
    if_cases (λ (o : Option Sprint). o ≡ some s → IsIn s (t ∷ sprints) × (s.id ≡ id))
      (text_eq t.id id) _ _
      (λ e k.
        let same : t ≡ s = ground arith in
        (inl same, ap (λ (x : Sprint). x.id) (sym same) ∙ text_eq_sound t.id id e))
      (λ e k. let (m, i) = find_sprint_found id sprints s k in (inr m, i)) h

module _ (get_access : ProjectAccess) (id : Text) (context : RequestContext) where
  require_writable_plan_ok :
      (project_id : Text)
      → require_writable_plan get_access project_id context ≡ ok tt
      → (access : ProjectAccessContext) × (get_access project_id context.user_id
            context.correlation_id
          ≡ ok access)
        × (access.project_status ≡ open_project)
  unfolding require_writable_plan
  require_writable_plan_ok project_id h =
      let (access, granted, w) =
        bind-eq-ok (get_access project_id context.user_id context.correlation_id) _ tt h in
      (access, granted, writable access.project_status w)
    where
      writable : (status : _) → writable_planning status ≡ ok tt → status ≡ open_project
      writable open_project w = refl
      writable archived w = absurd (ground arith)

  -- What the checks of a completion have established: the sprint that is named was stored and active,
  -- and the user has access to its project, which is not archived.
  abbrev pub IsAllowed : Db → Sprint → Type 0
  IsAllowed read sprint =
      (uuid (str id) "sprintId" ≡ ok sprint.id)
      × IsIn sprint read.sprints
      × (sprint.status ≡ active)
      × ((access : ProjectAccessContext) × (get_access sprint.project_id context.user_id
              context.correlation_id
            ≡ ok access)
          × (access.project_status ≡ open_project))

  completion_plan-IsAllowed :
      (read : Db) (sprint : Sprint)
      → completion_plan get_access id context read ≡ ok sprint
      → IsAllowed read sprint
  unfolding completion_plan
  completion_plan-IsAllowed read sprint h =
      let (sprint_id, named, h1) = bind-eq-ok (uuid (str id) "sprintId") _ sprint h in
      let (s, found, h2) =
        bind-eq-ok (some_or (find_sprint sprint_id read.sprints) sprint_not_found) _ sprint h1 in
      let (u, granted, h3) =
        bind-eq-ok (require_writable_plan get_access s.project_id context) _ sprint h2 in
      let (v, still, h4) =
        bind-eq-ok (require (is_active s.status) sprint_already_completed) _ sprint h3 in
      let (there, same_id) = find_sprint_found sprint_id read.sprints s (some_or_ok _ _ s found) in
      subst (λ (x : Sprint). IsAllowed read x) (ground (arith, h4))
        (
          named ∙ ap (λ t. ok t) (sym same_id),
          there,
          active_lem s.status still,
          require_writable_plan_ok s.project_id granted,
        )
    where
      active_lem :
          (status : _)
          → require (is_active status) sprint_already_completed ≡ ok tt
          → status ≡ active
      active_lem active h = refl
      active_lem completed h = absurd (ground arith)

  -- If the checks of a completion let a sprint through, they have read it as stored and active, and the
  -- project service has granted the user access to its project, which was not archived. If it is still
  -- active when it is written, the request returns it completed at the time of the database, and stores
  -- it so; every other sprint, and all other tables, stay as they are. If not, nothing is written, and
  -- the error is no domain error.
  pub complete_sprint_outcome :
      (env : Env) (read write : Db) (sprint : Sprint)
      → completion_plan get_access id context read ≡ ok sprint
      → IsAllowed read sprint
        × (((s : Sprint) × (sprints : List Sprint) × IsIn s write.sprints
              × (s.id ≡ sprint.id)
              × (s.status ≡ active)
              × Completes sprint.id env.db_now write.sprints sprints
              × (complete_sprint get_access env id context read write ≡ (
                ok (record s { status = completed; completed_at = some env.db_now }),
                record write { sprints = sprints },
              )))
            ⊎ (All (λ s. (s.id ≢ sprint.id) ⊎ (s.status ≡ completed)) write.sprints
                × (complete_sprint get_access env id context read write ≡ (err failure, write))))
  unfolding complete_sprint Planning.complete_sprint
  complete_sprint_outcome env read write sprint h = (
    completion_plan-IsAllowed read sprint h,
    elim (unfinished_cases sprint.id write.sprints) [
      | inl (s, m, e, a, f) ↦ inl (
        s,
        finish_where sprint.id env.db_now write.sprints,
        m,
        e,
        a,
        finish_where-Completes sprint.id env.db_now write.sprints,
        ground (arith, h, f),
      )
      | inr (n, f) ↦ inr (n, ground (arith, h, f))
    ],
  )
