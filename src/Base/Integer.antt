-- ===== src/Base/Integer.antt =====
-- submod/base/include/ptx_integer.hpp. Text is a list of bytes.
pub mod Spelling
use ptx_frontend.Common.{
  ℕ, ◌≡◌, Bool, true, false, ◌||◌, Option, none, some, List, [], ◌∷◌, Text, codes, starts_with,
  is_empty, drop, ◌==◌, if◌then◌else◌,
}
use ptx_frontend.Common.FromChars.{whole, from_chars}

-- `text.back() == 'u' || text.back() == 'U'`, false for the empty text
ends_unsigned : Text → Bool
ends_unsigned [] = false
ends_unsigned (c ∷ []) = (c == b'u') || (c == b'U')
ends_unsigned (c ∷ d ∷ t) = ends_unsigned (d ∷ t)

-- `text.remove_suffix(1)`
remove_last : Text → Text
remove_last [] = []
remove_last (c ∷ []) = []
remove_last (c ∷ d ∷ t) = c ∷ remove_last (d ∷ t)

unfoldable pub explicitly_unsigned : Text → Bool
unfolding ends_unsigned
explicitly_unsigned t = ends_unsigned t

strip_suffix : Text → Text
strip_suffix t = if ends_unsigned t then remove_last t else t

begins_zero : Text → Bool
begins_zero [] = false
begins_zero (c ∷ t) = c == b'0'

radix_of : Text → ℕ
radix_of t =
    if starts_with (codes "0x") t || starts_with (codes "0X") t
    then 16
    else if starts_with (codes "0b") t || starts_with (codes "0B") t
    then 2
    else if begins_zero t
    then 8
    else 10

body_of : Text → Text
body_of t = let r = radix_of t in if (r == 16) || (r == 2) then drop 2 t else t

unfoldable pub parse_integer_magnitude : Text → Option ℕ
unfolding ends_unsigned remove_last strip_suffix begins_zero radix_of body_of
parse_integer_magnitude text =
    let t = strip_suffix text in
    if is_empty t
    then none
    else if is_empty (body_of t)
    then none
    else whole (from_chars 64 (radix_of t) (body_of t))
