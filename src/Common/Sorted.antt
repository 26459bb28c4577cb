-- ===== src/Common/Sorted.antt =====
-- Sorted lists: what ORDER BY yields, and that a WHERE clause may be taken before or after it.
use mathlib.Core.Bool.{Bool, true, false}
use mathlib.Core.List.{List, [], ◌∷◌}
use mathlib.Core.Path.{◌≡◌, refl, ◌∙◌}
use mathlib.Core.Logic.{inl, inr}
use native.Mathlib.Omega.{arith}
use jira_microservices_lab.Common.Tests.{if◌then◌else◌, Bool-cases}
use jira_microservices_lab.Common.Lists.{All, keep}
use jira_microservices_lab.Common.Sorting.{insert_row, sort_rows}
use jira_microservices_lab.Common.Members.{
  if_cases, All-insert_row, All-keep_of, All-sort_rows, All-imp,
}

module _ {A : Type 0} (before : A → A → Bool) where
  -- No later element comes before an earlier one.
  abbrev pub IsSorted : List A → Type 0
  IsSorted [] = Unit
  IsSorted (x ∷ xs) = All (λ y. before y x ≡ false) xs × IsSorted xs

  insert_row_first :
      (x : A) (xs : List A) → All (λ y. before y x ≡ false) xs → insert_row before x xs ≡ x ∷ xs
  unfolding insert_row
  insert_row_first x [] h = refl
  insert_row_first x (y ∷ ys) h = ground arith

  module _ (asymm : (a b : A) → before a b ≡ true → before b a ≡ false)
      (false_trans : (a b c : A)
        → before a b ≡ false
        → before b c ≡ false
        → before a c ≡ false) where
    insert_row-IsSorted : (x : A) (xs : List A) → IsSorted xs → IsSorted (insert_row before x xs)
    unfolding insert_row
    insert_row-IsSorted x [] s = (tt, tt)
    insert_row-IsSorted x (y ∷ ys) s =
        let rest = insert_row-IsSorted x ys s.1 in
        elim (Bool-cases (before y x)) [
          | inl e ↦ rw e (All-insert_row _ before x ys (asymm y x e) s.0, rest)
          | inr e ↦ rw e ((e, All-imp _ _ ys (λ z h. false_trans z y x h e) s.0), s)
        ]

    pub sort_rows-IsSorted : (xs : List A) → IsSorted (sort_rows before xs)
    unfolding sort_rows
    sort_rows-IsSorted [] = tt
    sort_rows-IsSorted (x ∷ xs) =
        insert_row-IsSorted x (sort_rows before xs) (sort_rows-IsSorted xs)

    module _ (p : A → Bool) where
      keep-insert_row :
          (x : A) (xs : List A)
          → IsSorted xs
          → keep p (insert_row before x xs)
            ≡ (if p x then insert_row before x (keep p xs) else keep p xs)
      unfolding insert_row
      keep-insert_row x [] s = ground arith
      keep-insert_row x (y ∷ ys) s =
          let rest = keep-insert_row x ys s.1 in
          elim (Bool-cases (before y x)) [
            | inl e ↦ ground (arith, e, rest)
            | inr e ↦
                let below = All-imp _ _ ys (λ z h. false_trans z y x h e) s.0 in
                let first = insert_row_first x (keep p ys) (All-keep_of _ p ys below) in
                ground (arith, e, first)
          ]

      pub keep-sort_rows :
          (xs : List A) → keep p (sort_rows before xs) ≡ sort_rows before (keep p xs)
      unfolding sort_rows
      keep-sort_rows [] = refl
      keep-sort_rows (x ∷ xs) =
          keep-insert_row x (sort_rows before xs) (sort_rows-IsSorted xs)
          ∙ ground (arith, keep-sort_rows xs)

-- A symmetric relation between all pairs of elements, and the list functions that keep it.
module _ {A : Type 0} (R : A → A → Type 0) where
  abbrev pub Pairs : List A → Type 0
  Pairs [] = Unit
  Pairs (x ∷ xs) = All (R x) xs × Pairs xs

  pub Pairs-keep : (p : A → Bool) (xs : List A) → Pairs xs → Pairs (keep p xs)
  Pairs-keep p [] h = tt
  Pairs-keep p (x ∷ xs) h =
      let rest = Pairs-keep p xs h.1 in
      if_cases Pairs (p x) (x ∷ keep p xs) (keep p xs) (λ e. (All-keep_of _ p xs h.0, rest))
        (λ e. rest)

  module _ (symm : (a b : A) → R a b → R b a) (before : A → A → Bool) where
    Pairs-insert_row :
        (x : A) (xs : List A) → All (R x) xs → Pairs xs → Pairs (insert_row before x xs)
    unfolding insert_row
    Pairs-insert_row x [] a h = (tt, tt)
    Pairs-insert_row x (y ∷ ys) a h =
        let rest = Pairs-insert_row x ys a.1 h.1 in
        if_cases Pairs (before y x) (y ∷ insert_row before x ys) (x ∷ y ∷ ys)
          (λ e. (All-insert_row _ before x ys (symm x y a.0) h.0, rest)) (λ e. (a, h))

    pub Pairs-sort_rows : (xs : List A) → Pairs xs → Pairs (sort_rows before xs)
    unfolding sort_rows
    Pairs-sort_rows [] h = tt
    Pairs-sort_rows (x ∷ xs) h =
        Pairs-insert_row x (sort_rows before xs) (All-sort_rows _ before xs h.0)
          (Pairs-sort_rows xs h.1)
