-- ===== src/Common/Decimal.antt =====
-- The decimal text of a number, as a template literal prints it.
use Prim.Native.Nat.{ℕ, zero, suc, ◌+◌, ◌-◌, ◌*◌, ◌/◌, ◌%◌, ◌<◌}
use mathlib.Core.List.{[], ◌∷◌}
use mathlib.Core.Path.{◌≡◌, sym, ◌∙◌, ap}
use mathlib.Core.Logic.{inl, inr}
use native.Mathlib.Omega.{arith}
use jira_microservices_lab.Common.Tests.{ltb, if◌then◌else◌, Bool-cases}
use jira_microservices_lab.Common.Texts.{Text}

-- The digits of `n` before `acc`, last digit first; the fuel bounds their number.
digits_before : ℕ → ℕ → Text → Text
digits_before zero n acc = acc
digits_before (suc f) n acc =
    let rest = digits_before f (n / 10) ((48 + n % 10) ∷ acc) in
    if ltb n 10 then (48 + n) ∷ acc else rest

-- A number has fewer digits than `n + 1`, so the fuel is enough.
unfoldable pub decimal : ℕ → Text
unfolding digits_before
decimal n = digits_before (suc n) n []

-- The number that a text of digits stands for, after the value of the digits before it.
value_from : ℕ → Text → ℕ
value_from v [] = v
value_from v (c ∷ s) = value_from (v * 10 + (c - 48)) s

value_from-digits_before :
    (f n : ℕ) (acc : Text) → n < f → value_from 0 (digits_before f n acc) ≡ value_from n acc
unfolding digits_before value_from
value_from-digits_before zero n acc h = absurd (omega arith)
value_from-digits_before (suc f) n acc h = elim (Bool-cases (ltb n 10)) [
  | inl e ↦ rw e (ap (λ v. value_from v acc) (omega arith))
  | inr e ↦ rw e (
      value_from-digits_before f (n / 10) ((48 + n % 10) ∷ acc) (ground arith)
      ∙ ap (λ v. value_from v acc) (omega arith))
]

-- Two numbers with the same decimal text are equal.
pub decimal_injective : (m n : ℕ) → decimal m ≡ decimal n → m ≡ n
unfolding decimal value_from
decimal_injective m n e =
    sym (value_from-digits_before (suc m) m [] (omega arith))
    ∙ ap (value_from 0) e
    ∙ value_from-digits_before (suc n) n [] (omega arith)
