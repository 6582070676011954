-- ===== src/Semantic/Language.antt =====
-- submod/semantic/src/ptx_declaration_semantics.cpp: `languageCode`, the operand of `.language`.
pub mod Codes
use ptx_frontend.Common.{
  ℕ, ◌+◌, ◌-◌, ◌≡◌, Bool, true, false, ◌&&◌, Option, none, some, List, [], ◌∷◌, String, Text, codes,
  same_text, length, drop, take, find_if, leb, ◌==◌, if◌then◌else◌,
}
use mathlib.Core.List.{map}
use ptx_frontend.Base.Integer.{parse_integer_magnitude}

abbrev pub to_lower : ℕ → ℕ
to_lower c = if leb b'A' c && leb c b'Z' then c - b'A' + b'a' else c

abbrev pub lower : Text → Text
lower t = map to_lower t

-- `spelling.front() == c` and `spelling.back() == c`, false for the empty text
abbrev pub front_is : ℕ → Text → Bool
front_is q [] = false
front_is q (c ∷ t) = c == q

abbrev pub back_is : ℕ → Text → Bool
back_is q [] = false
back_is q (c ∷ []) = c == q
back_is q (c ∷ d ∷ t) = back_is q (d ∷ t)

abbrev pub is_quoted : Text → Bool
is_quoted s = leb 2 (length s) && (front_is b'"' s && back_is b'"' s)

pub record LanguageName : Type 0 where
  pub name : Text
  pub code : ℕ

abbrev language : String → ℕ → LanguageName
language n c = record { name = codes n; code = c }

unfoldable pub names : List LanguageName
names =
    language "unknown" 0
    ∷ language "ptx" 3
    ∷ language "nvvm" 4
    ∷ language "cuda c++" 5
    ∷ language "cuda c++ tile" 6
    ∷ language "tile ir" 7
    ∷ language "python-cutile" 8
    ∷ language "fortran" 9
    ∷ language "optix" 10
    ∷ []

abbrev pub code_of : Option LanguageName → Option ℕ
code_of none = none
code_of (some l) = some l.code

abbrev pub at_most_ten : Option ℕ → Option ℕ
at_most_ten none = none
at_most_ten (some c) = if leb c 10 then some c else none

unfoldable pub language_code : Text → Option ℕ
unfolding names parse_integer_magnitude
language_code s =
    if is_quoted s
    then code_of (find_if (λ l. same_text l.name (lower (take (length s - 2) (drop 1 s)))) names)
    else at_most_ten (parse_integer_magnitude s)
