-- ===== src/WebClient/Issues/Complete.antt =====
-- apps/web-client/src/features/issue/api.ts over
-- apps/issue-service-nest/src/application/issue-application.service.ts: the web client's loop over
-- the pages of the issue service.
use jira_microservices_lab.Common.{
  ℕ, zero, suc, ◌≡◌, ◌<◌, refl, ap, sym, ◌∙◌, subst, Text, true, Option, none, some, List, [], ◌∷◌,
  ◌++◌, keep, keep-All, take, length, lower, arith, All, All-middle,
}
use mathlib.Core.List.{append_assoc}
use jira_microservices_lab.Json.{Fields, str}
use jira_microservices_lab.Domain.Errors.{Result, ok}
use jira_microservices_lab.Domain.Issue.{Issue}
use jira_microservices_lab.Domain.Values.{uuid, is_uuid}
use jira_microservices_lab.Repository.Db.{Db}
use jira_microservices_lab.Repository.Table.{issue_ids, IsUnique}
use jira_microservices_lab.Repository.Listing.{Platform, is_after, position_of, page_of}
use jira_microservices_lab.Repository.Listing.Filter.{IssueListFilter, IssueListPosition}
use jira_microservices_lab.Repository.Listing.Pages.{
  ends, goes_on, page_of-PageCase, listed, list_issues_lem, listed-All, rows_behind,
}
use jira_microservices_lab.Application.Access.{ProjectAccess, ProjectAccessContext, RequestContext}
use jira_microservices_lab.Application.ListQuery.{
  is_position_time, encode_issue_cursor, parse_issue_list_query, decode_issue_cursor, parse_filter,
}
use jira_microservices_lab.Application.ListQuery.Cursor.{decode_issue_cursor-encode_issue_cursor}
use jira_microservices_lab.Application.Listing as Answers
use jira_microservices_lab.Application.Listing.{IssueList, answer, cursor_of}
use jira_microservices_lab.WebClient.Issues.{
  IssueListFilters, params, list_issues_from, list_issues, with_items, after_page, after_answer,
  truthy,
}
use jira_microservices_lab.WebClient.Issues.Queries.{parse_query, parse_query_after}

-- What the cursor of an issue rests on: the database renders its time in the form of the cursor and
-- reads it back, renders its identifier as a UUID in lower case, and base64url gives the text back.
abbrev pub IsListable : Platform → Issue → Type 0
IsListable platform r =
    (platform.timestamptz (platform.to_char r.created_at) ≡ r.created_at)
    × (is_position_time (platform.to_char r.created_at) ≡ true)
    × (is_uuid r.id ≡ true)
    × (lower r.id ≡ r.id)
    × (platform.from_base64 (platform.to_base64 (platform.to_char r.created_at ++ b'|' ∷ r.id))
        ≡ platform.to_char r.created_at ++ b'|' ∷ r.id)

-- The last round of the loop, and a round before it.
module _ (get : Fields → Result IssueList) (filters : IssueListFilters) where
  last_round :
      (fuel : ℕ) (cursor : Option Text) (page : IssueList)
      → get (params filters cursor) ≡ ok page
      → page.next_cursor ≡ none
      → list_issues_from get filters (suc fuel) cursor ≡ some (ok page.items)
  unfolding list_issues_from
  last_round fuel cursor page e n =
      ap (after_answer (λ c. list_issues_from get filters fuel (some c))) e
      ∙ ap (λ o. after_page (λ c. list_issues_from get filters fuel (some c)) page.items (truthy o))
          n

  next_round :
      (fuel : ℕ) (cursor : Option Text) (page : IssueList) (c : ℕ) (s : Text) (rest : List Issue)
      → get (params filters cursor) ≡ ok page
      → page.next_cursor ≡ some (c ∷ s)
      → list_issues_from get filters fuel (some (c ∷ s)) ≡ some (ok rest)
      → list_issues_from get filters (suc fuel) cursor ≡ some (ok (page.items ++ rest))
  unfolding list_issues_from
  next_round fuel cursor page c s rest e n r =
      ap (after_answer (λ t. list_issues_from get filters fuel (some t))) e
      ∙ ap (λ o. after_page (λ t. list_issues_from get filters fuel (some t)) page.items (truthy o))
          n
      ∙ ap (with_items page.items) r

-- An encoded cursor is not empty.
NonEmpty : Text → Type 0
NonEmpty t = (c : ℕ) × (s : Text) × (t ≡ c ∷ s)

nonempty_of :
    (from : Text → Text) (t a b : Text) → from [] ≡ [] → from t ≡ a ++ b'|' ∷ b → NonEmpty t
unfolding NonEmpty
nonempty_of from [] [] b z e = absurd (ground arith)
nonempty_of from [] (d ∷ a) b z e = absurd (ground arith)
nonempty_of from (c ∷ s) a b z e = (c, s, refl)

nonempty_cursor :
    (platform : Platform) (r : Issue)
    → platform.from_base64 [] ≡ []
    → IsListable platform r
    → NonEmpty
        (encode_issue_cursor platform.to_base64 platform.from_base64 (position_of platform r))
unfolding encode_issue_cursor
nonempty_cursor platform r z l =
    nonempty_of platform.from_base64 _ (platform.to_char r.created_at) r.id z l.4

module _ (platform : Platform) (get_access : ProjectAccess) (project_id_value project_id : Text)
    (context : RequestContext) (access : ProjectAccessContext) (filters : IssueListFilters)
    (f : IssueListFilter) (db : Db) where
  -- The issue service's answer to the query string that is sent to it.
  abbrev pub server : Fields → Result IssueList
  server query = Answers.list_issues platform get_access project_id_value query context db

  -- What the project, its access and the filter must be for the list to be answered.
  abbrev pub IsAnswered : Type 0
  IsAnswered =
      (uuid (str project_id_value) "projectId" ≡ ok project_id)
      × (get_access project_id context.user_id context.correlation_id ≡ ok access)
      × (parse_filter (params filters none) ≡ ok f)

  served :
      (query : Fields) (after : Option IssueListPosition) (rows : List Issue)
      → IsAnswered
      → parse_issue_list_query platform.to_base64 platform.from_base64 query
        ≡ ok (record { filter = f; limit = 50; after = after })
      → keep (is_after platform after) (listed platform project_id f db) ≡ rows
      → server query ≡ ok (answer platform (page_of platform 50 (take 51 rows)))
  unfolding Answers.list_issues
  served query after rows h p r =
      rw (h.0, p, h.1)
        (ap (λ page. ok (answer platform page))
          (list_issues_lem platform project_id f after 50 db
            ∙ ap (λ (xs : List Issue). page_of platform 50 (take 51 xs)) r))

  -- From any position the loop collects the rows that are left.
  collected :
      (fuel : ℕ) (cursor : Option Text) (after : Option IssueListPosition) (front rows : List Issue)
      → IsAnswered
      → IsUnique (issue_ids db.issues)
      → All (IsListable platform) db.issues
      → platform.from_base64 [] ≡ []
      → length rows < fuel
      → listed platform project_id f db ≡ front ++ rows
      → keep (is_after platform after) (listed platform project_id f db) ≡ rows
      → parse_issue_list_query platform.to_base64 platform.from_base64 (params filters cursor)
        ≡ ok (record { filter = f; limit = 50; after = after })
      → list_issues_from server filters fuel cursor ≡ some (ok rows)
  unfolding NonEmpty
  collected zero cursor after front rows h u l z few whole left parsed = absurd (omega arith)
  collected (suc fuel) cursor after front rows h u l z few whole left parsed =
      let page = page_of platform 50 (take 51 rows) in
      let got = served (params filters cursor) after rows h parsed left in
      elim (page_of-PageCase platform 49 rows) [
        | ends items next ↦
            last_round server filters fuel cursor (answer platform page) got
              (ap (cursor_of platform) next)
            ∙ ap (λ xs. some (ok xs)) items
        | goes_on pre x post items next split less ↦
            let whole2 : listed platform project_id f db ≡ (front ++ pre) ++ x ∷ post =
              whole ∙ ap (◌++◌ front) split ∙ sym (append_assoc front pre (x ∷ post)) in
            let listable =
              (All-middle (IsListable platform) (front ++ pre) x post (
                subst (All (IsListable platform)) whole2
                  (listed-All platform (IsListable platform) project_id f db l))).0 in
            let (c, s, nonempty) = nonempty_cursor platform x z listable in
            let decoded =
              ap (decode_issue_cursor platform.to_base64 platform.from_base64) (sym nonempty)
              ∙ decode_issue_cursor-encode_issue_cursor platform.to_base64 platform.from_base64
                  (position_of platform x) listable.4 listable.1 listable.2 listable.3 in
            let rest =
              collected fuel (some (c ∷ s)) (some (position_of platform x))
                ((front ++ pre) ++ x ∷ []) post h u l z (omega (arith, less))
                (whole2 ∙ sym (append_assoc (front ++ pre) (x ∷ []) post))
                (rows_behind platform project_id f db (front ++ pre) x post u whole2 listable.0)
                (parse_query_after platform.to_base64 platform.from_base64 filters f c s
                  (position_of platform x) h.2 decoded) in
            next_round server filters fuel cursor (answer platform page) c s post got
              (ap (cursor_of platform) next ∙ ap (λ (t : Text). some t) nonempty) rest
            ∙ ap (λ xs. some (ok (xs ++ post))) items
            ∙ ap (λ xs. some (ok xs)) (append_assoc pre (x ∷ []) post ∙ sym split)
      ]

  -- The client's loop over the pages ends and gives all issues of the project that the filter
  -- selects, the last created first and each once, as one query without a limit does: if the
  -- service answers requests with this project, caller and filter, if the fuel exceeds the number
  -- of these issues, if the identifiers of the issues are distinct and their cursors can be read
  -- back, and if the empty text is decoded as the empty one. The requests reach the handler of the
  -- issue service as they are, and the tables stay as they are between them.
  pub list_issues_complete :
      (fuel : ℕ)
      → uuid (str project_id_value) "projectId" ≡ ok project_id
      → get_access project_id context.user_id context.correlation_id ≡ ok access
      → parse_filter (params filters none) ≡ ok f
      → IsUnique (issue_ids db.issues)
      → All (IsListable platform) db.issues
      → platform.from_base64 [] ≡ []
      → length (listed platform project_id f db) < fuel
      → list_issues server filters fuel ≡ some (ok (listed platform project_id f db))
  unfolding list_issues is_after
  list_issues_complete fuel id granted accepted u l z enough =
      collected fuel none none [] (listed platform project_id f db) (id, granted, accepted) u l z
        enough refl (keep-All (λ r. true) _ (all_true _))
        (parse_query platform.to_base64 platform.from_base64 filters f accepted)
    where
      all_true : (rows : List Issue) → All (λ r. true ≡ true) rows
      all_true [] = tt
      all_true (r ∷ rows) = (refl, all_true rows)
