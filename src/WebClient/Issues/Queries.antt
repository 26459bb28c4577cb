-- ===== src/WebClient/Issues/Queries.antt =====
-- apps/web-client/src/features/issue/api.ts and
-- apps/issue-service-nest/src/application/issue-list-query.ts: what the issue service reads from the
-- parameters that the web client sends.
use Prim.Native.String.{String}
use text.Mathlib.Text.{◌==◌ as str_eq}
use jira_microservices_lab.Common.{
  ℕ, ◌≡◌, refl, ◌∙◌, Text, codes, true, false, Option, none, some, ◌∷◌, any_of, arith,
}
use jira_microservices_lab.Json.{Value, Fields, end, field, str, undefined, get}
use jira_microservices_lab.Domain.Errors.{ok}
use jira_microservices_lab.Repository.Listing.Filter.{IssueListFilter, IssueListPosition}
use jira_microservices_lab.Application.ListQuery.{
  parameters, check_parameters, parse_filter, given, or_default, text_of, parse_limit,
  parse_issue_list_query, decode_issue_cursor,
}
use jira_microservices_lab.WebClient.Issues.{
  IssueListFilters, add, truthy, status_text, issue_page_size, params,
}

get-add_same :
    (k j : String) (o : Option Text) (fs gs : Fields)
    → get k fs ≡ get k gs
    → get k (add j o fs) ≡ get k (add j o gs)
unfolding get
get-add_same k j none fs gs h = h
get-add_same k j (some t) fs gs h = ground arith

get-add_other :
    (k j : String) (o : Option Text) (fs : Fields)
    → str_eq j k ≡ false
    → get k (add j o fs) ≡ get k fs
unfolding get
get-add_other k j none fs h = refl
get-add_other k j (some t) fs h = ground arith

check_parameters-add :
    (k : String) (o : Option Text) (fs : Fields)
    → any_of (str_eq k) parameters ≡ true
    → check_parameters fs ≡ ok tt
    → check_parameters (add k o fs) ≡ ok tt
unfolding check_parameters
check_parameters-add k none fs h e = e
check_parameters-add k (some t) fs h e = ground arith

check_parameters-end : check_parameters end ≡ ok tt
unfolding check_parameters
check_parameters-end = refl

check_parameters-params :
    (filters : IssueListFilters) (cursor : Option Text)
    → check_parameters (params filters cursor) ≡ ok tt
unfolding params
check_parameters-params filters cursor =
    check_parameters-add "status" (status_text filters.status) _ refl (
      check_parameters-add "assigneeUserId" filters.assignee_user_id _ refl (
        check_parameters-add "sprintId" filters.sprint_id _ refl (
          check_parameters-add "q" filters.q _ refl (
            check_parameters-add "limit" (some issue_page_size) _ refl
              (check_parameters-add "cursor" (truthy cursor) end refl check_parameters-end)))))

-- A parameter other than the cursor does not depend on the cursor.
get-params_cursor :
    (k : String) (filters : IssueListFilters) (cursor : Option Text)
    → str_eq "cursor" k ≡ false
    → get k (params filters cursor) ≡ get k (params filters none)
unfolding params
get-params_cursor k filters cursor h = get-add_same k "status" (status_text filters.status) _ _ (
    get-add_same k "assigneeUserId" filters.assignee_user_id _ _ (
      get-add_same k "sprintId" filters.sprint_id _ _ (
        get-add_same k "q" filters.q _ _ (
          get-add_same k "limit" (some issue_page_size) _ _
            (get-add_other k "cursor" (truthy cursor) end h)))))

-- The limit and the cursor stand behind the filter.
get-params_behind :
    (k : String) (filters : IssueListFilters) (cursor : Option Text)
    → str_eq "status" k ≡ false
    → str_eq "assigneeUserId" k ≡ false
    → str_eq "sprintId" k ≡ false
    → str_eq "q" k ≡ false
    → get k (params filters cursor)
      ≡ get k (field "limit" (str issue_page_size) (add "cursor" (truthy cursor) end))
unfolding params
get-params_behind k filters cursor a b c d =
    get-add_other k "status" (status_text filters.status) _ a
    ∙ get-add_other k "assigneeUserId" filters.assignee_user_id _ b
    ∙ get-add_other k "sprintId" filters.sprint_id _ c
    ∙ get-add_other k "q" filters.q _ d

pub get-params_limit :
    (filters : IssueListFilters) (cursor : Option Text)
    → get "limit" (params filters cursor) ≡ str issue_page_size
unfolding get
get-params_limit filters cursor = get-params_behind "limit" filters cursor refl refl refl refl

parse_filter-params :
    (filters : IssueListFilters) (cursor : Option Text)
    → parse_filter (params filters cursor) ≡ parse_filter (params filters none)
unfolding parse_filter
parse_filter-params filters cursor =
    rw
      (
        get-params_cursor "status" filters cursor refl,
        get-params_cursor "assigneeUserId" filters cursor refl,
        get-params_cursor "sprintId" filters cursor refl,
        get-params_cursor "q" filters cursor refl,
      )
      refl

-- The four steps of the parser.
parse_steps :
    (to_base64 from_base64 : Text → Text) (query : Fields) (f : IssueListFilter) (l : Option ℕ)
    (after : Option IssueListPosition)
    → check_parameters query ≡ ok tt
    → parse_filter query ≡ ok f
    → given (get "limit" query) (parse_limit (text_of (get "limit" query))) ≡ ok l
    → given
        (get "cursor" query)
        (decode_issue_cursor to_base64 from_base64 (text_of (get "cursor" query)))
      ≡ ok after
    → parse_issue_list_query to_base64 from_base64 query
      ≡ ok (record { filter = f; limit = or_default l; after = after })
unfolding parse_issue_list_query
parse_steps to_base64 from_base64 query f l after a b c d = rw (a, b, c, d) refl

params_limit :
    (filters : IssueListFilters) (cursor : Option Text)
    → given
        (get "limit" (params filters cursor))
        (parse_limit (text_of (get "limit" (params filters cursor))))
      ≡ ok (some 50)
unfolding parse_limit codes
params_limit filters cursor = rw (get-params_limit filters cursor) refl

get-cursor :
    (o : Option Text) (v : Value)
    → get "cursor" (add "cursor" o end) ≡ v
    → get "cursor" (field "limit" (str issue_page_size) (add "cursor" o end)) ≡ v
unfolding get
get-cursor o v h = h

pub parse_query :
    (to_base64 from_base64 : Text → Text) (filters : IssueListFilters) (f : IssueListFilter)
    → parse_filter (params filters none) ≡ ok f
    → parse_issue_list_query to_base64 from_base64 (params filters none)
      ≡ ok (record { filter = f; limit = 50; after = none })
unfolding get
parse_query to_base64 from_base64 filters f h =
    let e : get "cursor" (params filters none) ≡ undefined =
      get-params_behind "cursor" filters none refl refl refl refl in
    parse_steps to_base64 from_base64 (params filters none) f (some 50) none
      (check_parameters-params filters none) h (params_limit filters none) (rw e refl)

pub parse_query_after :
    (to_base64 from_base64 : Text → Text) (filters : IssueListFilters) (f : IssueListFilter) (c : ℕ)
    (s : Text) (p : IssueListPosition)
    → parse_filter (params filters none) ≡ ok f
    → decode_issue_cursor to_base64 from_base64 (c ∷ s) ≡ ok p
    → parse_issue_list_query to_base64 from_base64 (params filters (some (c ∷ s)))
      ≡ ok (record { filter = f; limit = 50; after = some p })
unfolding get
parse_query_after to_base64 from_base64 filters f c s p h d =
    let e : get "cursor" (params filters (some (c ∷ s))) ≡ str (c ∷ s) =
      get-params_behind "cursor" filters (some (c ∷ s)) refl refl refl refl in
    parse_steps to_base64 from_base64 (params filters (some (c ∷ s))) f (some 50) (some p)
      (check_parameters-params filters (some (c ∷ s)))
      (parse_filter-params filters (some (c ∷ s)) ∙ h) (params_limit filters (some (c ∷ s)))
      (rw (e, d) refl)
