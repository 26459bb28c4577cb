-- ===== src/Application/Planning/Completion/Twice.antt =====
-- apps/issue-service-nest/src/infrastructure/postgres-planning.repository.ts: `completeSprint` for a
-- sprint that another request has completed since it was read.
use jira_microservices_lab.Common.{
  ℕ, ◌≡◌, inl, inr, refl, ap, sym, ◌∙◌, subst, Text, text_eq, text_eq_sound, text_eq_refl, contains,
  Option-cases, true, false, none, some, List, [], ◌∷◌, ◌++◌, map, first, keep, any_of, arith,
}
use jira_microservices_lab.Domain.Errors.{ok, err, failure}
use jira_microservices_lab.Domain.Planning.{Sprint}
use jira_microservices_lab.Repository.Db.{Db, Env}
use jira_microservices_lab.Repository.Planning.{
  NewSprintData, is_active, is_unfinished, finish, finish_where, create_sprint, sprint_row,
}
use jira_microservices_lab.Repository.Planning
use jira_microservices_lab.Repository.Planning.Invariant.{
  PlanningRequest, new_epic, change_epic, new_sprint, end_sprint, plan_step, plan_run,
  create_epic-sprints, update_epic-sprints, complete_sprint-sprints,
}
use jira_microservices_lab.Application.Access.{ProjectAccess, RequestContext}
use jira_microservices_lab.Application.Planning.{completion_plan, complete_sprint}

-- The sprint with an identifier is stored, and no stored one with it is active.
abbrev IsClosed : Text → List Sprint → Type 0
IsClosed id sprints =
    (contains id (map (λ s. s.id) sprints) ≡ true) × (any_of (is_unfinished id) sprints ≡ false)

finish_where-ids :
    (id : Text) (now : ℕ) (sprints : List Sprint)
    → map (λ s. s.id) (finish_where id now sprints) ≡ map (λ s. s.id) sprints
unfolding finish_where
finish_where-ids id now [] = refl
finish_where-ids id now (s ∷ sprints) = ground (arith, finish_where-ids id now sprints)

finish_where-finished :
    (id other : Text) (now : ℕ) (sprints : List Sprint)
    → any_of (is_unfinished id) sprints ≡ false
    → any_of (is_unfinished id) (finish_where other now sprints) ≡ false
unfolding finish_where
finish_where-finished id other now [] h = refl
finish_where-finished id other now (s ∷ sprints) h =
    ground (arith, finish_where-finished id other now sprints)

finish_where_all :
    (id : Text) (now : ℕ) (sprints : List Sprint)
    → any_of (is_unfinished id) (finish_where id now sprints) ≡ false
unfolding finish_where
finish_where_all id now [] = refl
finish_where_all id now (s ∷ sprints) = ground (arith, finish_where_all id now sprints)

IsClosed-finish_where :
    (id other : Text) (now : ℕ) (sprints : List Sprint)
    → IsClosed id sprints
    → IsClosed id (finish_where other now sprints)
IsClosed-finish_where id other now sprints (there, n) = (
  ap (λ ids. contains id ids) (finish_where-ids other now sprints) ∙ there,
  finish_where-finished id other now sprints n,
)

-- A new sprint has another identifier than those that are stored.
IsClosed-snoc :
    (id : Text) (sprints : List Sprint) (s : Sprint)
    → contains s.id (map (λ t. t.id) sprints) ≡ false
    → IsClosed id sprints
    → IsClosed id (sprints ++ s ∷ [])
unfolding contains
IsClosed-snoc id sprints s fresh (there, n) = (contains_snoc sprints there, any_of_snoc sprints n)
  where
    other : text_eq s.id id ≡ false
    other = ground (arith, text_eq_sound s.id id, there, fresh)

    contains_snoc :
        (ss : List Sprint)
        → contains id (map (λ t. t.id) ss) ≡ true
        → contains id (map (λ t. t.id) (ss ++ s ∷ [])) ≡ true
    contains_snoc [] h = absurd (ground arith)
    contains_snoc (t ∷ ss) h = ground (arith, contains_snoc ss)

    any_of_snoc :
        (ss : List Sprint)
        → any_of (is_unfinished id) ss ≡ false
        → any_of (is_unfinished id) (ss ++ s ∷ []) ≡ false
    any_of_snoc [] h = ground (arith, other)
    any_of_snoc (t ∷ ss) h = ground (arith, any_of_snoc ss, other)

create_sprint-IsClosed :
    (id : Text) (env : Env) (given : NewSprintData) (db : Db)
    → IsClosed id db.sprints
    → IsClosed id (create_sprint env given db).1.sprints
unfolding create_sprint
create_sprint-IsClosed id env given db c =
    ground (arith, IsClosed-snoc id db.sprints (sprint_row env given))

step-IsClosed :
    (id : Text) (r : PlanningRequest) (db : Db)
    → IsClosed id db.sprints
    → IsClosed id (plan_step r db).sprints
unfolding plan_step
step-IsClosed id (new_epic env given) db c =
    subst (IsClosed id) (sym (create_epic-sprints env given db)) c
step-IsClosed id (change_epic env epic given) db c =
    subst (IsClosed id) (sym (update_epic-sprints env epic given db)) c
step-IsClosed id (new_sprint env given) db c = create_sprint-IsClosed id env given db c
step-IsClosed id (end_sprint env sprint) db c = elim (complete_sprint-sprints env sprint db) [
  | inl e ↦ subst (IsClosed id) (sym e) (IsClosed-finish_where id sprint.id env.db_now db.sprints c)
  | inr e ↦ subst (IsClosed id) (sym e) c
]

run-IsClosed :
    (id : Text) (rs : List PlanningRequest) (db : Db)
    → IsClosed id db.sprints
    → IsClosed id (plan_run rs db).sprints
unfolding plan_run
run-IsClosed id [] db c = c
run-IsClosed id (r ∷ rs) db c = run-IsClosed id rs (plan_step r db) (step-IsClosed id r db c)

keep-none :
    (id : Text) (sprints : List Sprint)
    → any_of (is_unfinished id) sprints ≡ false
    → first (keep (is_unfinished id) sprints) ≡ none
keep-none id [] h = refl
keep-none id (s ∷ sprints) h = ground (arith, keep-none id sprints)

-- A list in which a sprint with an identifier is to be completed has this identifier.
first-contains :
    (id : Text) (sprints : List Sprint) (s : Sprint)
    → first (keep (is_unfinished id) sprints) ≡ some s
    → contains id (map (λ t. t.id) sprints) ≡ true
unfolding contains
first-contains id [] s h = absurd (ground arith)
first-contains id (t ∷ sprints) s h =
    ground (arith, first-contains id sprints s, text_eq_sound t.id id, text_eq_refl id)

-- A completion that succeeds leaves the sprint closed.
completed-IsClosed :
    (env : Env) (sprint : Sprint) (db : Db) (row : Sprint) (db' : Db)
    → Planning.complete_sprint env sprint db ≡ (ok row, db')
    → IsClosed sprint.id db'.sprints
unfolding Planning.complete_sprint
completed-IsClosed env sprint db row db' h =
    elim (Option-cases (first (keep (is_unfinished sprint.id) db.sprints))) [
      | inl n ↦ absurd (ground (arith, n))
      | inr (s, f) ↦
          let after : db'.sprints ≡ finish_where sprint.id env.db_now db.sprints =
            ground (arith, f) in
          subst (IsClosed sprint.id) (sym after) (
            ap (λ ids. contains sprint.id ids) (finish_where-ids sprint.id env.db_now db.sprints)
                ∙ first-contains sprint.id db.sprints s f,
            finish_where_all sprint.id env.db_now db.sprints,
          )
    ]

-- Of two requests that complete the same sprint, each of which was let through by its checks on a read
-- of its own, if one has succeeded, the other fails with an error that is no domain error, and writes
-- nothing: whoever the two are from, and whatever operations on epics and sprints ran between the two
-- writes.
pub complete_sprint_twice :
    (get_access get_access' : ProjectAccess) (env env' : Env) (id id' : Text)
    (context context' : RequestContext) (read read' write : Db) (sprint sprint' row : Sprint)
    (after : Db) (rs : List PlanningRequest)
    → completion_plan get_access id context read ≡ ok sprint
    → completion_plan get_access' id' context' read' ≡ ok sprint'
    → sprint'.id ≡ sprint.id
    → complete_sprint get_access env id context read write ≡ (ok row, after)
    → complete_sprint get_access' env' id' context' read' (plan_run rs after)
      ≡ (err failure, plan_run rs after)
unfolding complete_sprint Planning.complete_sprint
complete_sprint_twice get_access get_access' env env' id id' context context' read read' write
      sprint sprint' row after rs h h' same e =
    let written : Planning.complete_sprint env sprint write ≡ (ok row, after) =
      ground (arith, h, e) in
    let closed : IsClosed sprint'.id (plan_run rs after).sprints =
      subst (λ i. IsClosed i (plan_run rs after).sprints) (sym same)
        (run-IsClosed sprint.id rs after (completed-IsClosed env sprint write row after written)) in
    ground (arith, h', keep-none sprint'.id (plan_run rs after).sprints closed.1)
