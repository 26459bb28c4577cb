-- ===== src/Application/Listing/Answers.antt =====
-- apps/issue-service-nest/src/application/issue-application.service.ts: what is in an answer of
-- `listIssues`.
use jira_microservices_lab.Common.{
  ℕ, zero, suc, ◌+◌, ◌≡◌, ◌≤◌, ap, ◌∙◌, subst, Text, Option, Bool, ◌⊎◌, inl, inr, refl, sym, ◌++◌,
  text_eq_sound, All-imp, true, none, some, List, [], ◌∷◌, ◌&&◌, take, length, arith, All, All-take,
  All-sort_rows, All-keep, if_cases,
}
use jira_microservices_lab.Json.{Value, Fields, str, get, is_undefined}
use jira_microservices_lab.Domain.Errors.{Result, ok}
use jira_microservices_lab.Domain.Values.{uuid, enum_value, required_text}
use jira_microservices_lab.Repository.Db.{Db}
use jira_microservices_lab.Repository.Listing
use jira_microservices_lab.Repository.Listing.{
  Platform, page_of, matches, is_after, like_escape, like_pattern, fits_status, equals, if_given,
}
use jira_microservices_lab.Domain.Issue.{
  Issue, IssueStatus, todo, in_progress, done, issue_statuses, status_eq, issue_status_name,
}
use jira_microservices_lab.Repository.Listing.Filter.{IssueListFilter, IssueListPosition}
use jira_microservices_lab.Application.Access.{ProjectAccess, ProjectAccessContext, RequestContext}
use jira_microservices_lab.Application.Visibility.{bind-eq-ok}
use jira_microservices_lab.Application.ListQuery.{
  IssueListQuery, check_parameters, parse_filter, parse_limit, given, or_default, text_of,
  decode_issue_cursor, parse_issue_list_query,
}
use jira_microservices_lab.Application.Listing.{IssueList, answer, list_issues}

ok_injective : {A : Type 0} (a b : A) → ok a ≡ ok b → a ≡ b
ok_injective a b h = ground arith

-- What a parsed limit is.
parse_limit_most : (t : Text) (n : ℕ) → parse_limit t ≡ ok n → n ≤ 50
unfolding parse_limit
parse_limit_most t n h = ground arith

given_limit :
    (value : Value) (l : Option ℕ)
    → given value (parse_limit (text_of value)) ≡ ok l
    → or_default l ≤ 50
given_limit value l h =
    if_cases (λ m. m ≡ ok l → or_default l ≤ 50) (is_undefined value) _ _
      (λ e k. subst (λ o. or_default o ≤ 50) (ok_injective none l k) (omega arith))
      (λ e k.
        let (n, parsed, made) = bind-eq-ok (parse_limit (text_of value)) _ l k in
        let most = parse_limit_most (text_of value) n parsed in
        subst (λ o. or_default o ≤ 50) (ok_injective (some n) l made) most)
      h

parsed_limit :
    (to_base64 from_base64 : Text → Text) (query : Fields) (parsed : IssueListQuery)
    → parse_issue_list_query to_base64 from_base64 query ≡ ok parsed
    → parsed.limit ≤ 50
unfolding parse_issue_list_query
parsed_limit to_base64 from_base64 query parsed h =
    let (u, checked, h1) = bind-eq-ok (check_parameters query) _ parsed h in
    let (f, filtered, h2) = bind-eq-ok (parse_filter query) _ parsed h1 in
    let (l, limited, h3) =
      bind-eq-ok (given (get "limit" query) (parse_limit (text_of (get "limit" query)))) _ parsed
        h2 in
    let (a, placed, h4) =
      bind-eq-ok
        (given (get "cursor" query)
          (decode_issue_cursor to_base64 from_base64 (text_of (get "cursor" query))))
        _ parsed h3 in
    subst (λ (q : IssueListQuery). q.limit ≤ 50) (ok_injective _ parsed h4)
      (given_limit (get "limit" query) l limited)

parsed_filter :
    (to_base64 from_base64 : Text → Text) (query : Fields) (parsed : IssueListQuery)
    → parse_issue_list_query to_base64 from_base64 query ≡ ok parsed
    → parse_filter query ≡ ok parsed.filter
unfolding parse_issue_list_query
parsed_filter to_base64 from_base64 query parsed h =
    let (u, checked, h1) = bind-eq-ok (check_parameters query) _ parsed h in
    let (f, filtered, h2) = bind-eq-ok (parse_filter query) _ parsed h1 in
    let (l, limited, h3) =
      bind-eq-ok (given (get "limit" query) (parse_limit (text_of (get "limit" query)))) _ parsed
        h2 in
    let (a, placed, h4) =
      bind-eq-ok
        (given (get "cursor" query)
          (decode_issue_cursor to_base64 from_base64 (text_of (get "cursor" query))))
        _ parsed h3 in
    filtered ∙ ap (λ (q : IssueListQuery). ok q.filter) (ok_injective _ parsed h4)

length-take : {A : Type 0} (n : ℕ) (xs : List A) → length (take n xs) ≤ n
length-take zero xs = omega arith
length-take (suc n) [] = omega arith
length-take (suc n) (x ∷ xs) = omega (arith, length-take n xs)

status_eq_sound : (s t : IssueStatus) → status_eq s t ≡ true → s ≡ t
status_eq_sound todo todo h = refl
status_eq_sound todo in_progress h = absurd (ground arith)
status_eq_sound todo done h = absurd (ground arith)
status_eq_sound in_progress todo h = absurd (ground arith)
status_eq_sound in_progress in_progress h = refl
status_eq_sound in_progress done h = absurd (ground arith)
status_eq_sound done todo h = absurd (ground arith)
status_eq_sound done in_progress h = absurd (ground arith)
status_eq_sound done done h = refl

-- What a parameter of the query gives: nothing without the parameter, or what it is read as.
abbrev pub Gives : {A : Type 0} → Value → Result A → Option A → Type 0
Gives {A} value read o =
    ((is_undefined value ≡ true) × (o ≡ none)) ⊎ ((a : A) × (read ≡ ok a) × (o ≡ some a))

given_lem :
    {A : Type 0} (value : Value) (read : Result A) (o : Option A)
    → given value read ≡ ok o
    → Gives value read o
given_lem {A} value read o h =
    if_cases (λ (m : Result (Option A)). m ≡ ok o → Gives value read o) (is_undefined value) _ _
      (λ e k. inl (e, sym (ok_injective none o k)))
      (λ e k.
        let (a, made, same) = bind-eq-ok read _ o k in
        inr (a, made, sym (ok_injective (some a) o same)))
      h

-- The filter has what the parameters give.
abbrev pub IsFilter : Fields → IssueListFilter → Type 0
IsFilter query f =
    Gives (get "status" query) (enum_value (get "status" query) "status" issue_statuses) f.status
    × Gives (get "assigneeUserId" query) (uuid (get "assigneeUserId" query) "assigneeUserId")
        f.assignee_user_id
    × Gives (get "sprintId" query) (uuid (get "sprintId" query) "sprintId") f.sprint_id
    × Gives (get "q" query) (required_text (get "q" query) "q" 200) f.q

parse_filter-IsFilter :
    (query : Fields) (f : IssueListFilter) → parse_filter query ≡ ok f → IsFilter query f
unfolding parse_filter
parse_filter-IsFilter query f h =
    let (s, es, h1) =
      bind-eq-ok
        (given (get "status" query) (enum_value (get "status" query) "status" issue_statuses)) _ f
        h in
    let (a, ea, h2) =
      bind-eq-ok
        (given (get "assigneeUserId" query) (uuid (get "assigneeUserId" query) "assigneeUserId")) _
        f h1 in
    let (p, ep, h3) =
      bind-eq-ok (given (get "sprintId" query) (uuid (get "sprintId" query) "sprintId")) _ f h2 in
    let (q, eq, h4) =
      bind-eq-ok (given (get "q" query) (required_text (get "q" query) "q" 200)) _ f h3 in
    let made : IssueListFilter = record {
      status = s;
      assignee_user_id = a;
      sprint_id = p;
      q = q;
    } in
    subst (λ (x : IssueListFilter). IsFilter query x) (ok_injective made f h4)
      (given_lem _ _ s es, given_lem _ _ a ea, given_lem _ _ p ep, given_lem _ _ q eq)

fits_status_lem :
    (given : Option IssueStatus) (r : Issue)
    → fits_status given r ≡ true
    → (given ≡ none) ⊎ (given ≡ some r.status)
fits_status_lem none r h = inl refl
fits_status_lem (some s) r h = inr (ap (λ x. some x) (status_eq_sound s r.status h))

equals_sound : (column : Option Text) (t : Text) → equals column t ≡ true → some t ≡ column
equals_sound none t h = absurd (ground arith)
equals_sound (some u) t h = ap (λ x. some x) (sym (text_eq_sound u t h))

given_equals :
    (given column : Option Text)
    → if_given given (equals column) ≡ true
    → (given ≡ none) ⊎ (given ≡ some []) ⊎ (given ≡ column)
given_equals none column h = inl refl
given_equals (some []) column h = inr (inl refl)
given_equals (some (c ∷ s)) column h = inr (inr (equals_sound column (c ∷ s) h))

given_text :
    (given : Option Text) (p : Text → Bool)
    → if_given given p ≡ true
    → (given ≡ none) ⊎ (given ≡ some []) ⊎ ((t : Text) × (given ≡ some t) × (p t ≡ true))
given_text none p h = inl refl
given_text (some []) p h = inr (inl refl)
given_text (some (c ∷ s)) p h = inr (inr (c ∷ s, refl, h))

module _ (platform : Platform) where
  page_length :
      (project_id : Text) (f : IssueListFilter) (after : Option IssueListPosition) (limit : ℕ)
      (db : Db)
      → length (Listing.list_issues platform project_id f after limit db).items ≤ limit
  unfolding Listing.list_issues page_of
  page_length project_id f after limit db = length-take limit _

  -- An issue of the project that has what a filter gives: its status, its assignee, its sprint, and a
  -- text in its summary, between the wildcards of ILIKE.
  abbrev pub Fits : Text → IssueListFilter → Issue → Type 0
  Fits project_id f r =
      (r.project_id ≡ project_id)
      × ((f.status ≡ none) ⊎ (f.status ≡ some r.status))
      × ((f.assignee_user_id ≡ none)
          ⊎ (f.assignee_user_id ≡ some [])
          ⊎ (f.assignee_user_id ≡ r.assignee_user_id))
      × ((f.sprint_id ≡ none) ⊎ (f.sprint_id ≡ some []) ⊎ (f.sprint_id ≡ r.sprint_id))
      × ((f.q ≡ none)
          ⊎ (f.q ≡ some [])
          ⊎ ((q : Text) × (f.q ≡ some q)
              × (platform.ilike (b'%' ∷ like_escape q ++ b'%' ∷ []) r.summary ≡ true)))

  matches-Fits :
      (project_id : Text) (f : IssueListFilter) (r : Issue)
      → matches platform project_id f r ≡ true
      → Fits project_id f r
  unfolding matches
  matches-Fits project_id f r h = (
    text_eq_sound r.project_id project_id (ground arith),
    fits_status_lem f.status r (ground arith),
    given_equals f.assignee_user_id r.assignee_user_id (ground arith),
    given_equals f.sprint_id r.sprint_id (ground arith),
    given_text f.q (λ q. platform.ilike (like_pattern q) r.summary) (ground arith),
  )

  page_matches :
      (project_id : Text) (f : IssueListFilter) (after : Option IssueListPosition) (limit : ℕ)
      (db : Db)
      → All
          (λ r. matches platform project_id f r ≡ true)
          (Listing.list_issues platform project_id f after limit db).items
  unfolding Listing.list_issues page_of
  page_matches project_id f after limit db =
      All-take (λ r. matches platform project_id f r ≡ true) limit _
        (All-take (λ r. matches platform project_id f r ≡ true) (limit + 1) _
          (All-sort_rows (λ r. matches platform project_id f r ≡ true) Listing.later _
            (All-keep (λ r. matches platform project_id f r ≡ true)
              (λ r. matches platform project_id f r && is_after platform after r) db.issues
              (λ r there e. ground (arith, e)))))

  page-Fits :
      (project_id : Text) (f : IssueListFilter) (after : Option IssueListPosition) (limit : ℕ)
      (db : Db)
      → All
          (λ r. Fits project_id f r)
          (Listing.list_issues platform project_id f after limit db).items
  page-Fits project_id f after limit db =
      All-imp _ _ _ (λ r. matches-Fits project_id f r) (page_matches project_id f after limit db)

  -- The steps that lead to an answer.
  Answered : ProjectAccess → Text → Fields → RequestContext → Db → IssueList → Type 0
  Answered get_access project_id_value query_value context db list =
      (project_id : Text) × (query : IssueListQuery) × (access : ProjectAccessContext) × (uuid
          (str project_id_value) "projectId"
        ≡ ok project_id)
      × (parse_issue_list_query platform.to_base64 platform.from_base64 query_value ≡ ok query)
      × (get_access project_id context.user_id context.correlation_id ≡ ok access)
      × (answer platform
            (Listing.list_issues platform project_id query.filter query.after query.limit db)
          ≡ list)

  answered :
      (get_access : ProjectAccess) (project_id_value : Text) (query_value : Fields)
      (context : RequestContext) (db : Db) (list : IssueList)
      → list_issues platform get_access project_id_value query_value context db ≡ ok list
      → Answered get_access project_id_value query_value context db list
  unfolding list_issues Answered
  answered get_access project_id_value query_value context db list h =
      let (project_id, named, h1) = bind-eq-ok (uuid (str project_id_value) "projectId") _ list h in
      let (query, parsed, h2) =
        bind-eq-ok (parse_issue_list_query platform.to_base64 platform.from_base64 query_value) _
          list h1 in
      let (access, granted, h3) =
        bind-eq-ok (get_access project_id context.user_id context.correlation_id) _ list h2 in
      (project_id, query, access, named, parsed, granted, ok_injective _ list h3)

  -- An answer of the issue service has at most 50 issues, whatever the parameters of the request.
  pub list_issues_bounded :
      (get_access : ProjectAccess) (project_id_value : Text) (query_value : Fields)
      (context : RequestContext) (db : Db) (list : IssueList)
      → list_issues platform get_access project_id_value query_value context db ≡ ok list
      → length list.items ≤ 50
  unfolding Answered
  list_issues_bounded get_access project_id_value query_value context db list h =
      let (project_id, query, access, named, parsed, granted, made) =
        answered get_access project_id_value query_value context db list h in
      let most = parsed_limit platform.to_base64 platform.from_base64 query_value query parsed in
      let few = page_length project_id query.filter query.after query.limit db in
      subst (λ (l : IssueList). length l.items ≤ 50) made (omega (arith, most, few))

  -- The issues in an answer of the issue service are all of the project that the request names, to
  -- which the caller has been granted access; and each has the status, the assignee and the sprint, and
  -- matches the text, that the parameters of the request give, if they give one.
  pub list_issues_safe :
      (get_access : ProjectAccess) (project_id_value : Text) (query_value : Fields)
      (context : RequestContext) (db : Db) (list : IssueList)
      → list_issues platform get_access project_id_value query_value context db ≡ ok list
      → (project_id : Text) × (f : IssueListFilter) × (access : ProjectAccessContext) × (uuid
            (str project_id_value)
            "projectId"
          ≡ ok project_id)
        × (parse_filter query_value ≡ ok f)
        × IsFilter query_value f
        × (get_access project_id context.user_id context.correlation_id ≡ ok access)
        × All (λ r. Fits project_id f r) list.items
  unfolding Answered
  list_issues_safe get_access project_id_value query_value context db list h =
      let (project_id, query, access, named, parsed, granted, made) =
        answered get_access project_id_value query_value context db list h in
      let filtered =
        parsed_filter platform.to_base64 platform.from_base64 query_value query parsed in
      (
        project_id,
        query.filter,
        access,
        named,
        filtered,
        parse_filter-IsFilter query_value query.filter filtered,
        granted,
        subst (λ (l : IssueList). All (λ r. Fits project_id query.filter r) l.items) made
            (page-Fits project_id query.filter query.after query.limit db),
      )
