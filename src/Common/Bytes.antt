-- ===== src/Common/Bytes.antt =====
-- `std::string_view` as a list of bytes, with the tests and the cuts that the sources use.
use Prim.Native.Nat.{ℕ}
use Prim.Native.Char.{code}
use Prim.Native.String.{String}
use mathlib.Core.Path.{◌≡◌, refl}
use mathlib.Core.Bool.{Bool, true, false, ◌&&◌}
use mathlib.Core.List.{List, [], ◌∷◌, ◌++◌}
use native.Mathlib.Omega.{arith}
use ptx_frontend.Common.Tests.{◌==◌}

abbrev pub Text : Type 0
Text = List ℕ

-- The bytes of an ASCII literal.
abbrev pub codes : String → Text
codes String.[] = []
codes (String.◌∷◌ c s) = code c ∷ codes s

-- `==` on string views
abbrev pub same_text : Text → Text → Bool
same_text [] [] = true
same_text [] (b ∷ t) = false
same_text (a ∷ s) [] = false
same_text (a ∷ s) (b ∷ t) = (a == b) && same_text s t

-- `text.starts_with(prefix)`, prefix first
abbrev pub starts_with : Text → Text → Bool
starts_with [] t = true
starts_with (a ∷ p) [] = false
starts_with (a ∷ p) (b ∷ t) = (a == b) && starts_with p t

abbrev pub is_empty : Text → Bool
is_empty [] = true
is_empty (a ∷ s) = false

pub same_text_refl : (s : Text) → same_text s s ≡ true
same_text_refl [] = refl
same_text_refl (a ∷ s) = ground (arith, same_text_refl s)

pub same_text_sound : (s t : Text) → same_text s t ≡ true → s ≡ t
same_text_sound [] [] h = refl
same_text_sound [] (b ∷ t) h = ground arith
same_text_sound (a ∷ s) [] h = ground arith
same_text_sound (a ∷ s) (b ∷ t) h = ground (arith, same_text_sound s t)

pub starts_with-append : (p t : Text) → starts_with p (p ++ t) ≡ true
starts_with-append [] t = refl
starts_with-append (a ∷ p) t = ground (arith, starts_with-append p t)

pub starts_with_sound : (p t : Text) → starts_with p t ≡ true → (r : Text) × (t ≡ p ++ r)
starts_with_sound [] t h = (t, refl)
starts_with_sound (a ∷ p) [] h = ground arith
starts_with_sound (a ∷ p) (b ∷ t) h =
    let (r, e) = starts_with_sound p t (ground arith) in (r, ground arith)

pub is_empty_sound : (t : Text) → is_empty t ≡ true → t ≡ []
is_empty_sound [] h = refl
is_empty_sound (a ∷ t) h = cc
