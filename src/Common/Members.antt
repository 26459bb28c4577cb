-- ===== src/Common/Members.antt =====
-- What holds of every element of a list, under the list functions of the source.
use Prim.Native.Nat.{ℕ, zero, suc}
use mathlib.Core.Path.{◌≡◌, subst, refl, ap, sym}
use mathlib.Core.Logic.{◌⊎◌, inl, inr}
use mathlib.Core.List.{List, [], ◌∷◌, ◌++◌, map}
use mathlib.Core.Bool.{Bool, true, false, ◌&&◌}
use native.Mathlib.Omega.{arith}
use jira_microservices_lab.Common.Tests.{if◌then◌else◌, Bool-cases}
use jira_microservices_lab.Common.Lists.{All, keep, take, any_of}
use jira_microservices_lab.Common.Sorting.{sort_rows, insert_row}
use jira_microservices_lab.Common.Texts.{Text, text_eq, text_eq_sound, contains}

-- A property of a conditional, by its test.
pub if_cases {ℓ κ} :
    {C : Type ℓ} (Q : C → Type κ) (b : Bool) (x y : C)
    → (b ≡ true → Q x)
    → (b ≡ false → Q y)
    → Q (if b then x else y)
if_cases Q true x y h k = h refl
if_cases Q false x y h k = k refl

module _ {A : Type 0} where
  -- An element stands in a list.
  abbrev pub IsIn : A → List A → Type 0
  IsIn x [] = ⊥
  IsIn x (y ∷ ys) = (y ≡ x) ⊎ IsIn x ys

  pub any_of-false :
      (p : A → Bool) (xs : List A) (x : A) → any_of p xs ≡ false → IsIn x xs → p x ≡ false
  any_of-false p [] x h m = absurd m
  any_of-false p (y ∷ ys) x h (inl e) = ground (arith, ap p e)
  any_of-false p (y ∷ ys) x h (inr m) = any_of-false p ys x (ground arith) m

  module _ {κ} (P : A → Type κ) where
    pub All-keep :
        (p : A → Bool) (xs : List A) → ((x : A) → IsIn x xs → p x ≡ true → P x) → All P (keep p xs)
    All-keep p [] h = tt
    All-keep p (x ∷ xs) h =
        let rest = All-keep p xs (λ y m. h y (inr m)) in
        if_cases (All P) (p x) (x ∷ keep p xs) (keep p xs) (λ e. (h x (inl refl) e, rest))
          (λ e. rest)

    pub All-keep_of : (p : A → Bool) (xs : List A) → All P xs → All P (keep p xs)
    All-keep_of p [] h = tt
    All-keep_of p (x ∷ xs) h =
        let rest = All-keep_of p xs h.1 in
        if_cases (All P) (p x) (x ∷ keep p xs) (keep p xs) (λ e. (h.0, rest)) (λ e. rest)

    pub All-take : (n : ℕ) (xs : List A) → All P xs → All P (take n xs)
    All-take zero xs h = tt
    All-take (suc n) [] h = tt
    All-take (suc n) (x ∷ xs) h = (h.0, All-take n xs h.1)

    module _ (before : A → A → Bool) where
      pub All-insert_row : (x : A) (xs : List A) → P x → All P xs → All P (insert_row before x xs)
      unfolding insert_row
      All-insert_row x [] p h = (p, tt)
      All-insert_row x (y ∷ ys) p h =
          let rest = All-insert_row x ys p h.1 in
          if_cases (All P) (before y x) (y ∷ insert_row before x ys) (x ∷ y ∷ ys) (λ e. (h.0, rest))
            (λ e. (p, h))

      pub All-sort_rows : (xs : List A) → All P xs → All P (sort_rows before xs)
      unfolding sort_rows
      All-sort_rows [] h = tt
      All-sort_rows (x ∷ xs) h = All-insert_row x (sort_rows before xs) h.0 (All-sort_rows xs h.1)

    pub found_by :
        (key : A → Text) (t : Text) (xs : List A)
        → All P xs
        → contains t (map key xs) ≡ true
        → (x : A) × P x × (key x ≡ t)
    unfolding contains
    found_by key t [] h c = absurd (ground arith)
    found_by key t (x ∷ xs) h c = elim (Bool-cases (text_eq t (key x))) [
      | inl e ↦ (x, h.0, sym (text_eq_sound t (key x) e))
      | inr e ↦ found_by key t xs h.1 (ground arith)
    ]

  pub All-map {κ μ} :
      {B : Type κ} (P : B → Type μ) (f : A → B) (xs : List A)
      → All (λ x. P (f x)) xs
      → All P (map f xs)
  All-map P f [] h = tt
  All-map P f (x ∷ xs) h = (h.0, All-map P f xs h.1)

-- What holds of all elements holds of each.
pub All-IsIn {κ} : {A : Type 0} (P : A → Type κ) (xs : List A) (x : A) → All P xs → IsIn x xs → P x
All-IsIn P [] x h m = absurd m
All-IsIn P (y ∷ ys) x h (inl e) = subst P e h.0
All-IsIn P (y ∷ ys) x h (inr m) = All-IsIn P ys x h.1 m

pub All-imp {κ μ} :
    {A : Type 0} (P : A → Type κ) (Q : A → Type μ) (xs : List A)
    → ((x : A) → P x → Q x)
    → All P xs
    → All Q xs
All-imp P Q [] h a = tt
All-imp P Q (x ∷ xs) h a = (h x a.0, All-imp P Q xs h a.1)

module _ {A : Type 0} where
  pub All-middle {κ} :
      (P : A → Type κ) (xs : List A) (x : A) (ys : List A) → All P (xs ++ x ∷ ys) → P x × All P ys
  All-middle P [] x ys h = h
  All-middle P (z ∷ zs) x ys h = All-middle P zs x ys h.1

  pub keep-All : (p : A → Bool) (xs : List A) → All (λ x. p x ≡ true) xs → keep p xs ≡ xs
  keep-All p [] h = refl
  keep-All p (x ∷ xs) h = ground (arith, keep-All p xs h.1)

  pub keep-keep : (p q : A → Bool) (xs : List A) → keep (λ x. p x && q x) xs ≡ keep q (keep p xs)
  keep-keep p q [] = refl
  keep-keep p q (x ∷ xs) = ground (arith, keep-keep p q xs)
