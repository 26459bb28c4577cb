-- ===== src/WebClient/Cache/Fresh.antt =====
-- The hooks of the web client, as in the parent: what a change leaves in the cache.
use jira_microservices_lab.Common.{
  ℕ, ◌≡◌, refl, true, if◌then◌else◌, Text, Option, some, List, [], ◌∷◌, ◌++◌, IsIn, inl, inr,
}
use jira_microservices_lab.WebClient.ApiError.{RequestError}
use jira_microservices_lab.WebClient.Issues.{IssueListFilters}
use jira_microservices_lab.WebClient.Requests.{is_concurrent_issue_modification}
use jira_microservices_lab.WebClient.Cache.{
  Key, name, filters, key_for, issues_of, issue_keys, comment_keys, details_error, on_success,
  on_error, is_archived, Query, issues, epics, sprints, issue, comments, history, workspaces,
  projects, project, workspace_members, notifications, query_key, Mutation, create_issue,
  create_epic, create_sprint, complete_sprint, transition_issue, add_comment, update_issue,
  assign_issue, create_workspace, create_project, update_project, archive_project, add_member,
  change_role, remove_member, mark_read, mark_all_read, Settled, success, error, invalidated,
}

-- The answers that show an issue of a project: itself, its history, and the lists of the project.
pub data Shows : Text → Text → Query → Type 0 where
  itself : {p i : Text} → Shows p i (issue i)
  its_history : {p i : Text} → Shows p i (history i)
  its_list : {p i : Text} (f : IssueListFilters) → Shows p i (issues p f)

-- The answers that a change concerns, as a list of cases: after a success, those that show what was
-- changed; after any error of a move, and after a change of the details, an assignment or a comment that
-- was refused as a concurrent modification, those that show the issue; after a move, a change of the
-- details or an assignment that was refused since the project is archived, the project; and after any
-- error of a change or the archiving of a project, this project and the list it is in. Other refusals
-- concern nothing here, though they may tell of something that has changed.
pub data Concerns : Mutation → Settled → Query → Type 0 where
  issue_created : {p : Text} (f : IssueListFilters) → Concerns (create_issue p) success (issues p f)
  epic_created : {p : Text} → Concerns (create_epic p) success (epics p)
  sprint_created : {p : Text} → Concerns (create_sprint p) success (sprints p)
  sprint_completed : {p : Text} → Concerns (complete_sprint p) success (sprints p)
  moved : {p i : Text} {q : Query} → Shows p i q → Concerns (transition_issue p i) success q
  not_moved :
      {p i : Text} {q : Query} (e : RequestError)
      → Shows p i q
      → Concerns (transition_issue p i) (error e) q
  commented :
      {c : ℕ} {p i : Text} {q : Query}
      → Shows (c ∷ p) i q
      → Concerns (add_comment (some (c ∷ p)) i) success q
  comment_listed : {p : Option Text} {i : Text} → Concerns (add_comment p i) success (comments i)
  updated :
      {c : ℕ} {p i : Text} {q : Query}
      → Shows (c ∷ p) i q
      → Concerns (update_issue (some (c ∷ p)) i) success q
  assigned :
      {c : ℕ} {p i : Text} {q : Query}
      → Shows (c ∷ p) i q
      → Concerns (assign_issue (some (c ∷ p)) i) success q
  update_conflict :
      {c : ℕ} {p i : Text} {q : Query} (e : RequestError)
      → is_concurrent_issue_modification e ≡ true
      → Shows (c ∷ p) i q
      → Concerns (update_issue (some (c ∷ p)) i) (error e) q
  assign_conflict :
      {c : ℕ} {p i : Text} {q : Query} (e : RequestError)
      → is_concurrent_issue_modification e ≡ true
      → Shows (c ∷ p) i q
      → Concerns (assign_issue (some (c ∷ p)) i) (error e) q
  comment_conflict :
      {c : ℕ} {p i : Text} {q : Query} (e : RequestError)
      → is_concurrent_issue_modification e ≡ true
      → Shows (c ∷ p) i q
      → Concerns (add_comment (some (c ∷ p)) i) (error e) q
  move_archived :
      {p i : Text} (e : RequestError)
      → is_archived e ≡ true
      → Concerns (transition_issue p i) (error e) (project p)
  update_archived :
      {c : ℕ} {p i : Text} (e : RequestError)
      → is_archived e ≡ true
      → Concerns (update_issue (some (c ∷ p)) i) (error e) (project (c ∷ p))
  assign_archived :
      {c : ℕ} {p i : Text} (e : RequestError)
      → is_archived e ≡ true
      → Concerns (assign_issue (some (c ∷ p)) i) (error e) (project (c ∷ p))
  workspace_created : Concerns create_workspace success workspaces
  project_created : {w : Text} → Concerns (create_project w) success (projects w)
  project_updated : {w p : Text} (s : Settled) → Concerns (update_project w p) s (project p)
  list_updated : {w p : Text} (s : Settled) → Concerns (update_project w p) s (projects w)
  project_closed : {w p : Text} (s : Settled) → Concerns (archive_project w p) s (project p)
  list_archived : {w p : Text} (s : Settled) → Concerns (archive_project w p) s (projects w)
  member_added : {w : Text} → Concerns (add_member w) success (workspace_members w)
  role_changed : {w : Text} → Concerns (change_role w) success (workspace_members w)
  member_removed : {w : Text} → Concerns (remove_member w) success (workspace_members w)
  one_read : Concerns mark_read success notifications
  all_read : Concerns mark_all_read success notifications

-- One of the keys is the beginning of another.
abbrev pub Covers : List Key → Key → Type 0
Covers keys key = (first : Key) × IsIn first keys × (rest : Key) × (key ≡ first ++ rest)

-- The keys of an issue and of the lists of its project cover all that shows the issue.
shown_Covers :
    (p i : Text) (q : Query) (keys : List Key)
    → Shows p i q
    → IsIn (key_for "issue" i) keys
    → IsIn (issues_of p) keys
    → Covers keys (query_key q)
shown_Covers p i q keys itself m n = (key_for "issue" i, m, [], refl)
shown_Covers p i q keys its_history m n = (key_for "issue" i, m, name "history" ∷ [], refl)
shown_Covers p i q keys (its_list f) m n = (issues_of p, n, filters f ∷ [], refl)

IsIn-append : (k : Key) (ks ls : List Key) → IsIn k ks → IsIn k (ks ++ ls)
IsIn-append k [] ls m = absurd m
IsIn-append k (l ∷ ks) ls (inl e) = inl e
IsIn-append k (l ∷ ks) ls (inr m) = inr (IsIn-append k ks ls m)

append-IsIn : (k : Key) (ks ls : List Key) → IsIn k ls → IsIn k (ks ++ ls)
append-IsIn k [] ls m = m
append-IsIn k (l ∷ ks) ls m = inr (append-IsIn k ks ls m)

-- What an error of an update or an assignment makes invalid.
conflict_Covers :
    (c : ℕ) (p i : Text) (q : Query) (e : RequestError)
    → is_concurrent_issue_modification e ≡ true
    → Shows (c ∷ p) i q
    → Covers (details_error (some (c ∷ p)) i e) (query_key q)
conflict_Covers c p i q e h s =
    let keys : List Key =
      if is_concurrent_issue_modification e then issue_keys (some (c ∷ p)) i else [] in
    let more : List Key = if is_archived e then key_for "project" (c ∷ p) ∷ [] else [] in
    let itself : IsIn (key_for "issue" i) keys = rw h (inl refl) in
    let lists : IsIn (issues_of (c ∷ p)) keys = rw h (inr (inl refl)) in
    shown_Covers (c ∷ p) i q (keys ++ more) s (IsIn-append (key_for "issue" i) keys more itself)
      (IsIn-append (issues_of (c ∷ p)) keys more lists)

archived_Covers :
    (c : ℕ) (p i : Text) (e : RequestError)
    → is_archived e ≡ true
    → Covers (details_error (some (c ∷ p)) i e) (query_key (project (c ∷ p)))
archived_Covers c p i e h =
    let keys : List Key =
      if is_concurrent_issue_modification e then issue_keys (some (c ∷ p)) i else [] in
    let more : List Key = if is_archived e then key_for "project" (c ∷ p) ∷ [] else [] in
    let there : IsIn (key_for "project" (c ∷ p)) more = rw h (inl refl) in
    (key_for "project" (c ∷ p), append-IsIn (key_for "project" (c ∷ p)) keys more there, [], refl)

-- After a success the answers that show what was changed are made invalid, in that one of the keys
-- that the hook names begins the key under which the answer is kept: the list of a new issue, epic,
-- sprint, workspace or project; the sprints when one is completed; for a move, new details, an
-- assignee or a comment the issue, its history and the lists of its project, and for a comment the
-- comments; a changed project and its list; the members of a workspace; and the notifications. So is
-- each answer that shows an issue after any error of its move, and after
-- CONCURRENT_ISSUE_MODIFICATION for its details, its assignee or a comment; the project after
-- PROJECT_ARCHIVED for a move, details or an assignee; and a project and its list after any error of
-- its update or its archiving. This is for issues whose project is known; nothing is said of other
-- refusals.
pub invalidated-Covers :
    (m : Mutation) (s : Settled) (q : Query)
    → Concerns m s q
    → Covers (invalidated m s) (query_key q)
invalidated-Covers m s q (issue_created {p} f) = (issues_of p, inl refl, filters f ∷ [], refl)
invalidated-Covers m s q epic_created = (_, inl refl, [], refl)
invalidated-Covers m s q sprint_created = (_, inl refl, [], refl)
invalidated-Covers m s q sprint_completed = (_, inl refl, [], refl)
invalidated-Covers m s q (moved {p} {i} t) =
    shown_Covers p i q (on_success (transition_issue p i)) t (inr (inl refl)) (inl refl)
invalidated-Covers m s q (not_moved {p} {i} e t) =
    shown_Covers p i q (on_error e (transition_issue p i)) t (inr (inl refl)) (inl refl)
invalidated-Covers m s q (commented {c} {p} {i} t) =
    shown_Covers (c ∷ p) i q (comment_keys (some (c ∷ p)) i) t (inl refl)
      (inr (inr (inr (inl refl))))
invalidated-Covers m s q comment_listed = (_, inr (inl refl), [], refl)
invalidated-Covers m s q (updated {c} {p} {i} t) =
    shown_Covers (c ∷ p) i q (issue_keys (some (c ∷ p)) i) t (inl refl) (inr (inl refl))
invalidated-Covers m s q (assigned {c} {p} {i} t) =
    shown_Covers (c ∷ p) i q (issue_keys (some (c ∷ p)) i) t (inl refl) (inr (inl refl))
invalidated-Covers m s q (update_conflict {c} {p} {i} e h t) = conflict_Covers c p i q e h t
invalidated-Covers m s q (assign_conflict {c} {p} {i} e h t) = conflict_Covers c p i q e h t
invalidated-Covers m s q (comment_conflict {c} {p} {i} e h t) =
    let keys = comment_keys (some (c ∷ p)) i in
    let kept = shown_Covers (c ∷ p) i q keys t (inl refl) (inr (inr (inr (inl refl)))) in rw h kept
invalidated-Covers m s q (move_archived {p} {i} e h) =
    let more : List Key = if is_archived e then key_for "project" p ∷ [] else [] in
    let there : IsIn (key_for "project" p) more = rw h (inl refl) in
    (key_for "project" p, inr (inr there), [], refl)
invalidated-Covers m s q (update_archived {c} {p} {i} e h) = archived_Covers c p i e h
invalidated-Covers m s q (assign_archived {c} {p} {i} e h) = archived_Covers c p i e h
invalidated-Covers m s q workspace_created = (_, inl refl, [], refl)
invalidated-Covers m s q project_created = (_, inl refl, [], refl)
invalidated-Covers m s q (project_updated success) = (_, inr (inl refl), [], refl)
invalidated-Covers m s q (project_updated (error e)) = (_, inr (inl refl), [], refl)
invalidated-Covers m s q (list_updated success) = (_, inl refl, [], refl)
invalidated-Covers m s q (list_updated (error e)) = (_, inl refl, [], refl)
invalidated-Covers m s q (project_closed success) = (_, inr (inl refl), [], refl)
invalidated-Covers m s q (project_closed (error e)) = (_, inr (inl refl), [], refl)
invalidated-Covers m s q (list_archived success) = (_, inl refl, [], refl)
invalidated-Covers m s q (list_archived (error e)) = (_, inl refl, [], refl)
invalidated-Covers m s q member_added = (_, inl refl, [], refl)
invalidated-Covers m s q role_changed = (_, inl refl, [], refl)
invalidated-Covers m s q member_removed = (_, inl refl, [], refl)
invalidated-Covers m s q one_read = (_, inl refl, [], refl)
invalidated-Covers m s q all_read = (_, inl refl, [], refl)
