-- ===== src/Repository/Recipients/Addressed.antt =====
-- apps/issue-service-nest/src/infrastructure/postgres-issue.repository.ts: whom `recipients`
-- selects.
use jira_microservices_lab.Common.{
  ◌≡◌, ◌≢◌, ◌↔◌, inl, inr, refl, ap, sym, Text, text_eq, text_eq_iff, text_eq_refl, contains,
  Option, Bool, true, ◌&&◌, not, none, some, List, [], ◌∷◌, keep, IsIn, Bool-cases, if_cases, arith,
}
use jira_microservices_lab.Repository.Table.{IsUnique}
use jira_microservices_lab.Repository.Recipients.{present, distinct, recipients}

contains-keep :
    (p : Text → Bool) (u : Text) (ts : List Text) → contains u (keep p ts) ≡ (contains u ts && p u)
unfolding contains
contains-keep p u [] = refl
contains-keep p u (t ∷ ts) = elim (Bool-cases (text_eq u t)) [
  | inl e ↦ ground (arith, contains-keep p u ts, e, ap p ((text_eq_iff u t).0 e))
  | inr e ↦ ground (arith, contains-keep p u ts, e)
]

contains-distinct : (u : Text) (ts : List Text) → contains u (distinct ts) ≡ contains u ts
unfolding distinct contains
contains-distinct u [] = refl
contains-distinct u (t ∷ ts) =
    ground (arith, contains-keep (λ v. not (text_eq v t)) u (distinct ts), contains-distinct u ts)

IsUnique-keep : (p : Text → Bool) (ts : List Text) → IsUnique ts → IsUnique (keep p ts)
IsUnique-keep p [] u = tt
IsUnique-keep p (t ∷ ts) u =
    let rest = IsUnique-keep p ts u.1 in
    if_cases IsUnique (p t) (t ∷ keep p ts) (keep p ts)
      (λ e. (ground (arith, contains-keep p t ts, u.0), rest)) (λ e. rest)

IsUnique-distinct : (ts : List Text) → IsUnique (distinct ts)
unfolding distinct
IsUnique-distinct [] = tt
IsUnique-distinct (t ∷ ts) = (
  ground (arith, contains-keep (λ v. not (text_eq v t)) t (distinct ts), text_eq_refl t),
  IsUnique-keep (λ v. not (text_eq v t)) (distinct ts) (IsUnique-distinct ts),
)

present_sound :
    (u : Text) (vs : List (Option Text))
    → contains u (present vs) ≡ true
    → (u ≢ []) × IsIn (some u) vs
unfolding present contains
present_sound u [] h = absurd (ground arith)
present_sound u (none ∷ vs) h = let (n, m) = present_sound u vs h in (n, inr m)
present_sound u (some [] ∷ vs) h = let (n, m) = present_sound u vs h in (n, inr m)
present_sound u (some (c ∷ s) ∷ vs) h = elim (Bool-cases (text_eq u (c ∷ s))) [
  | inl e ↦
      let same = (text_eq_iff u (c ∷ s)).0 e in
      ((λ n. ground (arith, same, n)), inl (ap some (sym same)))
  | inr e ↦ let (n, m) = present_sound u vs (ground (arith, e, h)) in (n, inr m)
]

present_complete :
    (u : Text) (vs : List (Option Text))
    → u ≢ []
    → IsIn (some u) vs
    → contains u (present vs) ≡ true
unfolding present contains
present_complete u [] n m = absurd m
present_complete u (none ∷ vs) n (inl e) = cc
present_complete u (none ∷ vs) n (inr m) = present_complete u vs n m
present_complete u (some [] ∷ vs) n (inl e) = absurd (n (ground (arith, e)))
present_complete u (some [] ∷ vs) n (inr m) = present_complete u vs n m
present_complete u (some (c ∷ s) ∷ vs) n (inl e) = ground (arith, e, text_eq_iff u (c ∷ s))
present_complete u (some (c ∷ s) ∷ vs) n (inr m) = ground (arith, present_complete u vs n m)

-- An event is addressed to exactly the users among the values, save the one who acts; to nobody
-- twice, and to no empty identifier.
pub recipients_iff :
    (values : List (Option Text)) (actor : Text)
    → IsUnique (recipients values actor)
      × ((u : Text)
          → (contains u (recipients values actor) ≡ true)
            ↔ ((u ≢ []) × IsIn (some u) values × (u ≢ actor)))
unfolding recipients
recipients_iff values actor = (
  IsUnique-keep (λ v. not (text_eq v actor)) (distinct (present values))
      (IsUnique-distinct (present values)),
  λ u. (
    λ h.
        let (n, m) =
          present_sound u values
            (ground (arith, h, among u, contains-distinct u (present values))) in
        (n, m, λ e. ground (arith, h, among u, (text_eq_iff u actor).1 e)),
    λ k. ground (
      arith,
      among u,
      contains-distinct u (present values),
      present_complete u values k.0 k.1,
      text_eq_iff u actor,
      k.2,
    ),
  ),
)
  where
    among :
        (u : Text)
        → contains u (keep (λ v. not (text_eq v actor)) (distinct (present values)))
          ≡ (contains u (distinct (present values)) && not (text_eq u actor))
    among u = contains-keep (λ v. not (text_eq v actor)) u (distinct (present values))
