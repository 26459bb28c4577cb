-- ===== src/Common/TextOrder.antt =====
-- The order of texts by code units.
use mathlib.Core.Bool.{true, false}
use mathlib.Core.List.{[], ◌∷◌}
use mathlib.Core.Path.{◌≡◌, refl}
use native.Mathlib.Omega.{arith}
use jira_microservices_lab.Common.Texts.{Text, text_lt}

pub text_lt_irrefl : (s : Text) → text_lt s s ≡ false
unfolding text_lt
text_lt_irrefl [] = refl
text_lt_irrefl (c ∷ s) = ground (arith, text_lt_irrefl s)

pub text_lt_asymm : (s t : Text) → text_lt s t ≡ true → text_lt t s ≡ false
unfolding text_lt
text_lt_asymm [] [] h = cc
text_lt_asymm [] (d ∷ t) h = refl
text_lt_asymm (c ∷ s) [] h = cc
text_lt_asymm (c ∷ s) (d ∷ t) h = ground (arith, text_lt_asymm s t)

pub text_lt-false_trans :
    (s t u : Text) → text_lt s t ≡ false → text_lt t u ≡ false → text_lt s u ≡ false
unfolding text_lt
text_lt-false_trans [] [] u h k = k
text_lt-false_trans [] (d ∷ t) u h k = cc
text_lt-false_trans (c ∷ s) [] [] h k = refl
text_lt-false_trans (c ∷ s) [] (e ∷ u) h k = cc
text_lt-false_trans (c ∷ s) (d ∷ t) [] h k = refl
text_lt-false_trans (c ∷ s) (d ∷ t) (e ∷ u) h k = ground (arith, text_lt-false_trans s t u)

-- Texts neither of which comes first are equal.
pub text_lt_total : (s t : Text) → text_lt s t ≡ false → text_lt t s ≡ false → s ≡ t
unfolding text_lt
text_lt_total [] [] h k = refl
text_lt_total [] (d ∷ t) h k = cc
text_lt_total (c ∷ s) [] h k = cc
text_lt_total (c ∷ s) (d ∷ t) h k = ground (arith, text_lt_total s t)
