-- ===== src/Common/Cases.antt =====
-- `toUpperCase` and `toLowerCase`, as far as the program compares their results.
use Prim.Native.Nat.{ℕ, ◌+◌, ◌-◌}
use mathlib.Core.Bool.{◌&&◌}
use mathlib.Core.List.{List, [], ◌∷◌, ◌++◌}
use mathlib.Core.Path.{◌≡◌, refl, ap₂}
use native.Mathlib.Omega.{arith}
use Prim.Native.String.{String}
use jira_microservices_lab.Common.Tests.{leb, ◌==◌, if◌then◌else◌}
use jira_microservices_lab.Common.Texts.{Text, codes}

-- The units that are not ASCII and whose upper case is. Every other unit outside ASCII has an
-- upper case outside ASCII; it is kept, and no comparison with an ASCII constant can tell.
special_upper : List (ℕ × String)
special_upper =
    (0xdf, "SS")
    ∷ (0x131, "I")
    ∷ (0x17f, "S")
    ∷ (0xfb00, "FF")
    ∷ (0xfb01, "FI")
    ∷ (0xfb02, "FL")
    ∷ (0xfb03, "FFI")
    ∷ (0xfb04, "FFL")
    ∷ (0xfb05, "ST")
    ∷ (0xfb06, "ST")
    ∷ []

find_upper : ℕ → List (ℕ × String) → Text
find_upper c [] = c ∷ []
find_upper c ((d, s) ∷ table) = if c == d then codes s else find_upper c table

upper_unit : ℕ → Text
unfolding special_upper find_upper
upper_unit c = if leb b'a' c && leb c b'z' then (c - 32) ∷ [] else find_upper c special_upper

-- `toUpperCase()` of a text that is then compared with ASCII constants.
unfoldable pub upper : Text → Text
unfolding upper_unit
upper [] = []
upper (c ∷ s) = upper_unit c ++ upper s

-- `toLowerCase()` of one ASCII unit.
unfoldable pub lower_unit : ℕ → ℕ
lower_unit c = if leb b'A' c && leb c b'Z' then c + 32 else c

-- `toLowerCase()` of an ASCII text.
unfoldable pub lower : Text → Text
lower [] = []
lower (c ∷ s) = lower_unit c ∷ lower s

lower_unit_idem : (c : ℕ) → lower_unit (lower_unit c) ≡ lower_unit c
unfolding lower_unit
lower_unit_idem c = ground arith

pub lower_idem : (s : Text) → lower (lower s) ≡ lower s
unfolding lower
lower_idem [] = refl
lower_idem (c ∷ s) = ap₂ ◌∷◌ (lower_unit_idem c) (lower_idem s)
