-- ===== src/Tests/Paths.antt =====
-- A reader of paths for the runs: the texts between the slashes, as they stand.
use Prim.Native.String.{String}
use text.Mathlib.Text.{◌==◌ as str_eq}
use text.Mathlib.TextPositions.{eq_refl}
use text.Mathlib.TextEquality.{eq_iff}
use mathlib.Core.List.{append-nil}
use jira_microservices_lab.Common.{
  ◌≡◌, refl, ap, sym, ◌∙◌, Text, codes, text_eq, text_eq_refl, true, false, ◌==◌, all_of, Option,
  none, some, List, [], ◌∷◌, ◌++◌, if◌then◌else◌, if_cases, arith,
}
use jira_microservices_lab.Presentation.Routes.{Segment, word, param, text_of_segment, path_of}
use jira_microservices_lab.WebClient.Requests.Served.{
  PathReader, is_plain_char, is_plain, Agree, ReadsPlain,
}

-- The text before the first slash, and what is left from it on.
cut : Text → Text × Text
cut [] = ([], [])
cut (c ∷ s) = let (before, rest) = cut s in if c == b'/' then ([], c ∷ s) else (c ∷ before, rest)

-- The parameters with one more.
abbrev bound : String → Text → (String → Text) → String → Text
bound n t found m = if str_eq m n then t else found m

abbrev with_segment : Segment → Text → Option (String → Text) → Option (String → Text)
with_segment g t none = none
with_segment (word w) t (some found) = if text_eq t (codes w) then some found else none
with_segment (param n) t (some found) = some (bound n t found)

abbrev pub read_path : PathReader
unfolding cut
read_path [] [] = some (λ name. [])
read_path [] (c ∷ s) = none
read_path (g ∷ gs) [] = none
read_path (g ∷ gs) (c ∷ s) =
    let rest = read_path gs (cut s).1 in if c == b'/' then with_segment g (cut s).0 rest else none

-- Nothing, or a text that begins with a slash.
abbrev IsRest : Text → Type 0
IsRest [] = Unit {0}
IsRest (c ∷ s) = c ≡ b'/'

cut_rest : (t : Text) → IsRest t → cut t ≡ ([], t)
unfolding cut
cut_rest [] r = refl
cut_rest (c ∷ s) r = ground arith

cut_plain : (s t : Text) → all_of is_plain_char s ≡ true → IsRest t → cut (s ++ t) ≡ (s, t)
unfolding cut
cut_plain [] t h r = cut_rest t r
cut_plain (c ∷ s) t h r =
    let below = cut_plain s t (ground arith) r in
    let apart : (c == b'/') ≡ false = ground arith in
    rw apart (ap (λ (p : Text × Text). (c ∷ p.0, p.1)) below)

is_plain_all : (t : Text) → is_plain t ≡ true → all_of is_plain_char t ≡ true
is_plain_all [] h = refl
is_plain_all (c ∷ s) h = ground arith

path_of-IsRest : (params : String → Text) (gs : List Segment) → IsRest (path_of params gs)
path_of-IsRest params [] = tt
path_of-IsRest params (g ∷ []) = refl
path_of-IsRest params (g ∷ h ∷ gs) = refl

path_of-cons :
    (params : String → Text) (g : Segment) (gs : List Segment)
    → path_of params (g ∷ gs) ≡ b'/' ∷ (text_of_segment params g ++ path_of params gs)
path_of-cons params g [] = ap (λ t. b'/' ∷ t) (sym (append-nil (text_of_segment params g)))
path_of-cons params g (h ∷ gs) = refl

-- One more parameter, with the text that the path has for it, keeps the others right.
Agree-bound :
    (params found : String → Text) (n : String) (gs : List Segment)
    → Agree found params gs
    → Agree (bound n (params n) found) params gs
Agree-bound params found n [] a = tt
Agree-bound params found n (word w ∷ gs) a = Agree-bound params found n gs a
Agree-bound params found n (param m ∷ gs) a = (
  if_cases (λ (t : Text). t ≡ params m) (str_eq m n) (params n) (found m)
      (λ e. ap params (sym ((eq_iff m n).0 e))) (λ e. a.0),
  Agree-bound params found n gs a.1,
)

read_segment :
    (g : Segment) (gs : List Segment) (params found : String → Text)
    → read_path gs (path_of params gs) ≡ some found
    → is_plain (text_of_segment params g) ≡ true
    → read_path (g ∷ gs) (path_of params (g ∷ gs))
      ≡ with_segment g (text_of_segment params g) (some found)
unfolding read_path
read_segment g gs params found e plain =
    let t = text_of_segment params g in
    let rest = path_of params gs in
    let split : cut (t ++ rest) ≡ (t, rest) =
      cut_plain t rest (is_plain_all t plain) (path_of-IsRest params gs) in
    ap (read_path (g ∷ gs)) (path_of-cons params g gs)
    ∙ (ap (λ (p : Text × Text). with_segment g p.0 (read_path gs p.1)) split
        ∙ ap (with_segment g t) e)

pub read_path-ReadsPlain : ReadsPlain read_path
unfolding read_path
read_path-ReadsPlain [] params plain = (λ name. [], refl, tt)
read_path-ReadsPlain (word w ∷ gs) params plain =
    let (found, e, same) = read_path-ReadsPlain gs params plain.1 in
    let matched : with_segment (word w) (codes w) (some found) ≡ some found =
      rw (text_eq_refl (codes w)) refl in
    (found, read_segment (word w) gs params found e plain.0 ∙ matched, same)
read_path-ReadsPlain (param n ∷ gs) params plain =
    let (found, e, same) = read_path-ReadsPlain gs params plain.1 in
    let own : bound n (params n) found n ≡ params n = rw (eq_refl n) refl in
    (
      bound n (params n) found,
      read_segment (param n) gs params found e plain.0,
      (own, Agree-bound params found n gs same),
    )
