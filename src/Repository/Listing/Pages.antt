-- ===== src/Repository/Listing/Pages.antt =====
-- apps/issue-service-nest/src/infrastructure/postgres-issue.repository.ts: the pages of `listIssues`
-- as parts of one sorted list.
use jira_microservices_lab.Common.{
  ℕ, zero, suc, ◌+◌, ◌≡◌, ◌≤◌, ◌<◌, refl, ap, sym, ◌∙◌, subst, inl, inr, Text, text_eq, text_eq_iff,
  true, false, Option, none, some, List, [], ◌∷◌, ◌++◌, contains, keep, take, length, ltb, arith,
  Bool-cases, All, sort_rows, IsSorted, sort_rows-IsSorted, keep-sort_rows, Pairs, Pairs-keep,
  Pairs-sort_rows, All-middle, keep-All, keep-keep, text_lt_irrefl, text_lt_asymm,
  text_lt-false_trans, text_lt_total, All-keep_of, All-sort_rows,
}
use jira_microservices_lab.Domain.Issue.{Issue}
use jira_microservices_lab.Repository.Db.{Db}
use jira_microservices_lab.Repository.Table.{issue_ids, IsUnique}
use jira_microservices_lab.Repository.Reads.{earlier}
use jira_microservices_lab.Repository.Listing.Filter.{IssueListFilter, IssueListPosition}
use jira_microservices_lab.Repository.Listing.{
  Platform, IssueListPage, later, matches, is_after, last_of, position_of, page_of, list_issues,
}

later_asymm : (a b : Issue) → later a b ≡ true → later b a ≡ false
later_asymm a b h = ground (arith, text_lt_asymm b.id a.id)

later-false_trans : (a b c : Issue) → later a b ≡ false → later b c ≡ false → later a c ≡ false
later-false_trans a b c h k = ground (arith, text_lt-false_trans c.id b.id a.id)

abbrev pub IsApart : Issue → Issue → Type 0
IsApart a b = text_eq a.id b.id ≡ false

IsApart-symm : (a b : Issue) → IsApart a b → IsApart b a
IsApart-symm a b h = ground (arith, text_eq_iff a.id b.id, text_eq_iff b.id a.id)

IsUnique-All :
    (id : Text) (rows : List Issue)
    → contains id (issue_ids rows) ≡ false
    → All (λ r. text_eq id r.id ≡ false) rows
unfolding contains
IsUnique-All id [] h = tt
IsUnique-All id (r ∷ rows) h = (ground arith, IsUnique-All id rows (ground arith))

IsUnique-Pairs : (rows : List Issue) → IsUnique (issue_ids rows) → Pairs IsApart rows
IsUnique-Pairs [] u = tt
IsUnique-Pairs (r ∷ rows) u = (IsUnique-All r.id rows u.0, IsUnique-Pairs rows u.1)

-- Of two issues the one that does not come first comes second.
later_total : (x y : Issue) → later y x ≡ false → IsApart x y → later x y ≡ true
later_total x y h a = ground (arith, text_lt_total x.id y.id, text_eq_iff x.id y.id)

-- What follows an issue in a sorted list is what its position selects.
keep-later :
    (front : List Issue) (x : Issue) (post : List Issue)
    → IsSorted later (front ++ x ∷ post)
    → Pairs IsApart (front ++ x ∷ post)
    → keep (later x) (front ++ x ∷ post) ≡ post
keep-later [] x post s a =
    ground (arith, text_lt_irrefl x.id, keep-All (later x) post (both post s.0 a.0))
  where
    both :
        (ys : List Issue)
        → All (λ y. later y x ≡ false) ys
        → All (IsApart x) ys
        → All (λ y. later x y ≡ true) ys
    both [] h k = tt
    both (y ∷ ys) h k = (later_total x y h.0 k.0, both ys h.1 k.1)
keep-later (z ∷ front) x post s a =
    ground (arith, (All-middle _ front x post s.0).0, keep-later front x post s.1 a.1)

-- The first rows of a longer list end with an issue, and something follows it.
Split : ℕ → List Issue → Type 0
Split n rows =
    (pre : List Issue) × (x : Issue) × (post : List Issue) × (rows ≡ pre ++ x ∷ post)
    × (take n rows ≡ pre ++ x ∷ [])
    × (length post < length rows)

Split-at : (n : ℕ) (rows : List Issue) → suc n < suc (length rows) → Split (suc n) rows
unfolding Split
Split-at n [] h = absurd (omega arith)
Split-at zero (r ∷ rows) h = ([], r, rows, refl, refl, omega arith)
Split-at (suc n) (r ∷ rows) h =
    let (pre, x, post, e, t, l) = Split-at n rows (omega arith) in
    (r ∷ pre, x, post, ap (◌∷◌ r) e, ap (◌∷◌ r) t, omega (arith, l))

last_of-snoc : (pre : List Issue) (x : Issue) → last_of (pre ++ x ∷ []) ≡ some x
last_of-snoc [] x = refl
last_of-snoc (y ∷ []) x = refl
last_of-snoc (y ∷ z ∷ pre) x = last_of-snoc (z ∷ pre) x

take-take : (n : ℕ) (rows : List Issue) → take n (take (n + 1) rows) ≡ take n rows
take-take n rows =
    let e : suc n ≡ n + 1 = omega arith in
    subst (λ m. take n (take m rows) ≡ take n rows) e (go n rows)
  where
    go : (n : ℕ) (rows : List Issue) → take n (take (suc n) rows) ≡ take n rows
    go zero rows = refl
    go (suc n) [] = refl
    go (suc n) (r ∷ rows) = ap (◌∷◌ r) (go n rows)

take_all : (n : ℕ) (rows : List Issue) → length rows ≤ n → take n rows ≡ rows
take_all zero [] h = refl
take_all zero (r ∷ rows) h = absurd (omega arith)
take_all (suc n) [] h = refl
take_all (suc n) (r ∷ rows) h = ap (◌∷◌ r) (take_all n rows (omega arith))

length-take : (n : ℕ) (rows : List Issue) → n < length rows → length (take (n + 1) rows) ≡ n + 1
length-take n rows h =
    subst (λ m. length (take m rows) ≡ m) (omega arith) (go (suc n) rows (omega arith))
  where
    go : (m : ℕ) (rows : List Issue) → m ≤ length rows → length (take m rows) ≡ m
    go zero rows h = refl
    go (suc m) [] h = absurd (omega arith)
    go (suc m) (r ∷ rows) h = omega (arith, go m rows (omega arith))

module _ (platform : Platform) where
  -- A page of rows that follow others in a list: it is the last, or it ends with an issue and the
  -- rows behind that issue are left.
  pub data PageCase (rows : List Issue) (page : IssueListPage) : Type 0 where
    ends : page.items ≡ rows → page.next ≡ none → PageCase rows page
    goes_on :
        (pre : List Issue) (x : Issue) (post : List Issue)
        → page.items ≡ pre ++ x ∷ []
        → page.next ≡ some (position_of platform x)
        → rows ≡ pre ++ x ∷ post
        → length post < length rows
        → PageCase rows page

  pub page_of-PageCase :
      (n : ℕ) (rows : List Issue) → PageCase rows (page_of platform (suc n) (take (suc n + 1) rows))
  unfolding page_of Split
  page_of-PageCase n rows = elim (Bool-cases (ltb (suc n) (length rows))) [
    | inl e ↦
        let (pre, x, post, whole, front, less) = Split-at n rows (ground (arith, e)) in
        let taken = take-take (suc n) rows ∙ front in
        let long = length-take (suc n) rows (ground (arith, e)) in
        goes_on pre x post taken (ground (arith, long, ap last_of taken, last_of-snoc pre x)) whole
          less
    | inr e ↦
        let all : take (suc n + 1) rows ≡ rows = take_all (suc n + 1) rows (ground (arith, e)) in
        let most : take (suc n) rows ≡ rows = take_all (suc n) rows (ground (arith, e)) in
        ends (take-take (suc n) rows ∙ most) (ground (arith, e, ap length all))
  ]

  -- All issues that a filter selects, in the order of the list.
  unfoldable pub listed : Text → IssueListFilter → Db → List Issue
  listed project_id filter db =
      sort_rows later (keep (matches platform project_id filter) db.issues)

  pub list_issues_lem :
      (project_id : Text) (filter : IssueListFilter) (after : Option IssueListPosition) (limit : ℕ)
      (db : Db)
      → list_issues platform project_id filter after limit db
        ≡ page_of platform limit
            (take (limit + 1) (keep (is_after platform after) (listed project_id filter db)))
  unfolding list_issues listed
  list_issues_lem project_id filter after limit db =
      let selected = keep (matches platform project_id filter) db.issues in
      ap (λ rows. page_of platform limit (take (limit + 1) rows))
        (ap (sort_rows later)
            (keep-keep (matches platform project_id filter) (is_after platform after) db.issues)
          ∙ sym (
              keep-sort_rows later later_asymm later-false_trans (is_after platform after)
                selected))

  pub listed-IsSorted :
      (project_id : Text) (filter : IssueListFilter) (db : Db)
      → IsSorted later (listed project_id filter db)
  unfolding listed
  listed-IsSorted project_id filter db = sort_rows-IsSorted later later_asymm later-false_trans _

  pub listed-Pairs :
      (project_id : Text) (filter : IssueListFilter) (db : Db)
      → IsUnique (issue_ids db.issues)
      → Pairs IsApart (listed project_id filter db)
  unfolding listed
  listed-Pairs project_id filter db u = Pairs-sort_rows IsApart IsApart-symm later _ (
      Pairs-keep IsApart (matches platform project_id filter) db.issues
        (IsUnique-Pairs db.issues u))

  pub listed-All :
      (P : Issue → Type 0) (project_id : Text) (filter : IssueListFilter) (db : Db)
      → All P db.issues
      → All P (listed project_id filter db)
  unfolding listed
  listed-All P project_id filter db h =
      All-sort_rows P later _ (All-keep_of P (matches platform project_id filter) db.issues h)

  -- The rows behind an issue are what the page after its position is made of.
  pub rows_behind :
      (project_id : Text) (filter : IssueListFilter) (db : Db) (front : List Issue) (x : Issue)
      (post : List Issue)
      → IsUnique (issue_ids db.issues)
      → listed project_id filter db ≡ front ++ x ∷ post
      → platform.timestamptz (platform.to_char x.created_at) ≡ x.created_at
      → keep (is_after platform (some (position_of platform x))) (listed project_id filter db)
        ≡ post
  unfolding is_after
  rows_behind project_id filter db front x post u e time =
      ap (λ (t : ℕ). keep (λ r. earlier r.created_at r.id t x.id) (listed project_id filter db))
        time
      ∙ ap (keep (later x)) e
      ∙ keep-later front x post (subst (IsSorted later) e (listed-IsSorted project_id filter db))
          (subst (Pairs IsApart) e (listed-Pairs project_id filter db u))
