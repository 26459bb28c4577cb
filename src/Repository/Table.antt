-- ===== src/Repository/Table.antt =====
-- apps/issue-service-nest/src/infrastructure/postgres-issue.repository.ts: UPDATE … WHERE id =
-- $1 AND version = $2 RETURNING * on the table of issues, and lookups by key.
use jira_microservices_lab.Common.{
  ℕ, ◌≡◌, ◌≢◌, refl, ap, subst, Text, text_eq, text_eq_iff, text_eq_sound, Option, Bool, true,
  false, ◌&&◌, none, some, List, [], ◌∷◌, ◌++◌, map, ◌==◌, if◌then◌else◌, arith, Bool-cases, inl,
  inr, contains,
}
use jira_microservices_lab.Domain.Issue.{Issue}

-- `SELECT * FROM issues WHERE id = $1`, its first row.
unfoldable pub find_row : Text → List Issue → Option Issue
find_row id [] = none
find_row id (r ∷ rs) = if text_eq r.id id then some r else find_row id rs

-- The rows that the WHERE clause selects are rewritten in place, and returned.
unfoldable pub update_where :
    (Issue → Bool) → (Issue → Issue) → List Issue → List Issue × List Issue
update_where p f [] = ([], [])
update_where p f (r ∷ rs) =
    let (rows, returned) = update_where p f rs in
    if p r then (f r ∷ rows, f r ∷ returned) else (r ∷ rows, returned)

-- The identifiers of the issues, and that each stands once: the table's primary key.
abbrev pub issue_ids : List Issue → List Text
issue_ids = map (λ r. r.id)

abbrev pub IsUnique : List Text → Type 0
IsUnique [] = Unit
IsUnique (t ∷ ts) = (contains t ts ≡ false) × IsUnique ts

pub find_row-id : (id : Text) (rs : List Issue) (r : Issue) → find_row id rs ≡ some r → r.id ≡ id
unfolding find_row
find_row-id id [] r h = cc
find_row-id id (x ∷ rs) r h = ground (arith, text_eq_iff x.id id, find_row-id id rs r)

pub find_row_of_fresh :
    (id : Text) (rs : List Issue) → contains id (issue_ids rs) ≡ false → find_row id rs ≡ none
unfolding find_row contains
find_row_of_fresh id [] h = refl
find_row_of_fresh id (r ∷ rs) h =
    ground (arith, text_eq_iff r.id id, text_eq_iff id r.id, find_row_of_fresh id rs)

pub find_row-append :
    (id : Text) (rs : List Issue) (r : Issue)
    → contains r.id (issue_ids rs) ≡ false
    → find_row id (rs ++ r ∷ []) ≡ (if text_eq r.id id then some r else find_row id rs)
unfolding find_row contains
find_row-append id [] r h = refl
find_row-append id (x ∷ rs) r h = ground (
  arith,
  text_eq_iff x.id id,
  text_eq_iff r.id id,
  text_eq_iff r.id x.id,
  find_row-append id rs r,
)

contains-snoc :
    (id : Text) (rs : List Issue) (r : Issue)
    → contains id (issue_ids rs) ≡ false
    → text_eq id r.id ≡ false
    → contains id (issue_ids (rs ++ r ∷ [])) ≡ false
unfolding contains
contains-snoc id [] r h e = rw e
contains-snoc id (x ∷ rs) r h e = ground (arith, contains-snoc id rs r)

pub IsUnique-snoc :
    (rs : List Issue) (r : Issue)
    → IsUnique (issue_ids rs)
    → contains r.id (issue_ids rs) ≡ false
    → IsUnique (issue_ids (rs ++ r ∷ []))
unfolding contains
IsUnique-snoc [] r u h = ground arith
IsUnique-snoc (x ∷ rs) r u h = (
  contains-snoc x.id rs r (ground arith)
      (ground (arith, text_eq_iff r.id x.id, text_eq_iff x.id r.id)),
  IsUnique-snoc rs r u.1 (ground arith),
)

-- The WHERE clause of `update_with_version`.
abbrev pub is_target : Text → ℕ → Issue → Bool
is_target id version r = text_eq r.id id && r.version == version

module _ (id : Text) (version : ℕ) (f : Issue → Issue)
    (same_id : (r : Issue) → (f r).id ≡ r.id) where
  pub update_where-ids :
      (rs : List Issue) → issue_ids (update_where (is_target id version) f rs).0 ≡ issue_ids rs
  unfolding update_where
  update_where-ids [] = refl
  update_where-ids (r ∷ rs) = ground (arith, same_id r, update_where-ids rs)

  update_where_absent :
      (rs : List Issue)
      → contains id (issue_ids rs) ≡ false
      → update_where (is_target id version) f rs ≡ (rs, [])
  unfolding update_where contains
  update_where_absent [] h = refl
  update_where_absent (r ∷ rs) h =
      ground (arith, text_eq_iff id r.id, text_eq_iff r.id id, update_where_absent rs)

  -- The outcome of the statement: no row has the identifier and the version, or exactly one has.
  pub data Outcome (rs : List Issue) : Type 0 where
    missed :
        update_where (is_target id version) f rs ≡ (rs, [])
        → ((r : Issue) → find_row id rs ≡ some r → r.version ≢ version)
        → Outcome rs
    hit :
        (r : Issue)
        → find_row id rs ≡ some r
        → r.version ≡ version
        → (update_where (is_target id version) f rs).1 ≡ f r ∷ []
        → ((j : Text)
            → find_row j (update_where (is_target id version) f rs).0
              ≡ (if text_eq id j then some (f r) else find_row j rs))
        → Outcome rs

  Outcome-there :
      (x : Issue) (rs : List Issue)
      → text_eq x.id id ≡ true
      → contains x.id (issue_ids rs) ≡ false
      → Outcome (x ∷ rs)
  unfolding find_row update_where
  Outcome-there x rs here fresh =
      let same : x.id ≡ id = text_eq_sound x.id id here in
      let gone =
        update_where_absent rs (subst (λ t. contains t (issue_ids rs) ≡ false) same fresh) in
      elim (Bool-cases (x.version == version)) [
        | inl e ↦
            hit x (ground arith) (ground arith) (ground (arith, gone))
              (λ j. ground (arith, gone, same_id x, ap (λ t. text_eq t j) same))
        | inr e ↦ missed (ground (arith, gone)) (λ r h. ground (arith, h))
      ]

  Outcome-behind :
      (x : Issue) (rs : List Issue) → text_eq x.id id ≡ false → Outcome rs → Outcome (x ∷ rs)
  unfolding find_row update_where
  Outcome-behind x rs there (missed e h) = missed (ground arith) (λ r k. h r (ground arith))
  Outcome-behind x rs there (hit r found same e h) =
      hit r (ground arith) same (ground arith)
        (λ j. ground (arith, h j, text_eq_iff x.id id, text_eq_iff x.id j, text_eq_iff id j))

  pub update_where-Outcome : (rs : List Issue) → IsUnique (issue_ids rs) → Outcome rs
  unfolding update_where find_row
  update_where-Outcome [] u = missed refl (λ r h. cc)
  update_where-Outcome (x ∷ rs) u = elim (Bool-cases (text_eq x.id id)) [
    | inl e ↦ Outcome-there x rs e u.0
    | inr e ↦ Outcome-behind x rs e (update_where-Outcome rs u.1)
  ]
