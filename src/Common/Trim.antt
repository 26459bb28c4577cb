-- ===== src/Common/Trim.antt =====
-- `String.prototype.trim`.
use Prim.Native.Nat.{ℕ}
use mathlib.Core.Bool.{Bool, false, ◌&&◌, ◌||◌}
use mathlib.Core.List.{[], ◌∷◌}
use mathlib.Core.Logic.{inl, inr}
use mathlib.Core.Path.{◌≡◌, refl}
use native.Mathlib.Omega.{arith}
use jira_microservices_lab.Common.Tests.{leb, ◌==◌, if◌then◌else◌, Bool-cases}
use jira_microservices_lab.Common.Texts.{Text}

-- WhiteSpace and LineTerminator of ECMAScript.
unfoldable pub is_space : ℕ → Bool
is_space c =
    (leb 9 c && leb c 13)
    || c == 32
    || c == 160
    || c == 0x1680
    || (leb 0x2000 c && leb c 0x200a)
    || c == 0x2028
    || c == 0x2029
    || c == 0x202f
    || c == 0x205f
    || c == 0x3000
    || c == 0xfeff

trim_start : Text → Text
trim_start [] = []
trim_start (c ∷ s) = if is_space c then trim_start s else c ∷ s

-- `c` before a text whose end is trimmed already.
before_trimmed : ℕ → Text → Text
before_trimmed c [] = if is_space c then [] else c ∷ []
before_trimmed c (d ∷ t) = c ∷ d ∷ t

trim_end : Text → Text
unfolding before_trimmed
trim_end [] = []
trim_end (c ∷ s) = before_trimmed c (trim_end s)

unfoldable pub trim : Text → Text
unfolding is_space trim_start trim_end
trim s = trim_end (trim_start s)

trim_end-before_trimmed :
    (c : ℕ) (t : Text) → trim_end t ≡ t → trim_end (before_trimmed c t) ≡ before_trimmed c t
unfolding trim_end
trim_end-before_trimmed c [] h = ground arith
trim_end-before_trimmed c (d ∷ t) h = ground arith

trim_end_idem : (s : Text) → trim_end (trim_end s) ≡ trim_end s
unfolding trim_end
trim_end_idem [] = refl
trim_end_idem (c ∷ s) = trim_end-before_trimmed c (trim_end s) (trim_end_idem s)

-- The start is not a space.
abbrev StartsTight : Text → Type 0
StartsTight [] = Unit
StartsTight (c ∷ s) = is_space c ≡ false

trim_start-StartsTight : (s : Text) → StartsTight (trim_start s)
unfolding trim_start
trim_start-StartsTight [] = tt
trim_start-StartsTight (c ∷ s) = elim (Bool-cases (is_space c)) [
  | inl e ↦ rw e (trim_start-StartsTight s)
  | inr e ↦ rw e e
]

before_trimmed-StartsTight :
    (c : ℕ) (t : Text) → is_space c ≡ false → StartsTight (before_trimmed c t)
unfolding before_trimmed
before_trimmed-StartsTight c [] h = rw h h
before_trimmed-StartsTight c (d ∷ t) h = h

trim_end-StartsTight : (s : Text) → StartsTight s → StartsTight (trim_end s)
unfolding trim_end
trim_end-StartsTight [] h = tt
trim_end-StartsTight (c ∷ s) h = before_trimmed-StartsTight c (trim_end s) h

trim_start_of_StartsTight : (s : Text) → StartsTight s → trim_start s ≡ s
unfolding trim_start
trim_start_of_StartsTight [] h = refl
trim_start_of_StartsTight (c ∷ s) h = rw h refl

pub trim_idem : (s : Text) → trim (trim s) ≡ trim s
trim_idem s =
    let tight = trim_end-StartsTight (trim_start s) (trim_start-StartsTight s) in
    unfold trim in
    rw (trim_start_of_StartsTight (trim_end (trim_start s)) tight) (trim_end_idem (trim_start s))
