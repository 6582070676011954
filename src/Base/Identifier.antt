-- ===== src/Base/Identifier.antt =====
-- submod/base/include/ptx_identifier.hpp.
use ptx_frontend.Common.{
  ◌≡◌, ◌↔◌, refl, ◌⊎◌, inl, inr, Bool, true, false, not, ◌&&◌, ◌||◌, [], ◌∷◌, ℕ, Text, all, arith,
  leb, ◌==◌, if◌then◌else◌, is_empty, Bool-cases,
}

unfoldable pub letter : ℕ → Bool
letter c = (leb b'a' c && leb c b'z') || (leb b'A' c && leb c b'Z')

unfoldable pub follows : ℕ → Bool
unfolding letter
follows c = letter c || (leb b'0' c && leb c b'9') || (c == b'_') || (c == b'$')

unfoldable pub is_identifier : Text → Bool
unfolding letter follows
is_identifier [] = false
is_identifier (c ∷ t) =
    if (not (letter c) && not (c == b'_') && not (c == b'$') && not (c == b'%'))
      || (is_empty t && not (letter c))
    then false
    else all follows t

-- The grammar of PTX ISA 4.4, as the comment on the function states it.
pub data Identifier : Text → Type 0 where
  letter_first : {c : ℕ} {t : Text} → letter c ≡ true → all follows t ≡ true → Identifier (c ∷ t)
  prefixed :
      {p c : ℕ} {t : Text}
      → (p ≡ b'_') ⊎ ((p ≡ b'$') ⊎ (p ≡ b'%'))
      → all follows (c ∷ t) ≡ true
      → Identifier (p ∷ c ∷ t)

is_identifier_sound : (t : Text) → is_identifier t ≡ true → Identifier t
unfolding is_identifier
is_identifier_sound [] h = ground arith
is_identifier_sound (c ∷ []) h = letter_first (ground arith) refl
is_identifier_sound (c ∷ d ∷ t) h = elim (Bool-cases (letter c)) [
  | inl e ↦ letter_first e (ground arith)
  | inr e ↦ prefixed (ground arith) (ground arith)
]

is_identifier_complete : {t : Text} → Identifier t → is_identifier t ≡ true
unfolding is_identifier
is_identifier_complete (letter_first h k) = ground arith
is_identifier_complete (prefixed h k) = ground arith

-- A text is accepted exactly if it is in the grammar: a letter and any letters, digits, `_` and `$`, or
-- one of `_`, `$` and `%` and at least one of those.
pub is_identifier-iff-Identifier : (t : Text) → (is_identifier t ≡ true) ↔ Identifier t
is_identifier-iff-Identifier t = (is_identifier_sound t, is_identifier_complete)
