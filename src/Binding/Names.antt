-- ===== src/Binding/Names.antt =====
-- submod/binding/src/ptx_symbol_table.cpp: the names that a declaration stands for. A parameterized
-- declaration `base<count>` stands for `base0`, `base1`, … below its count.
pub mod Members
pub mod Overlap
use ptx_frontend.Common.{
  ℕ, ◌+◌, ◌-◌, ◌≡◌, Bool, true, false, not, ◌&&◌, ◌||◌, Option, none, some, List, [], ◌∷◌, ◌++◌,
  Text, codes, same_text, starts_with, is_empty, length, drop, all, ltb, leb, ◌==◌, if◌then◌else◌,
}
use ptx_frontend.Common.FromChars.{from_chars, whole}
use ptx_frontend.Common.Decimal.{leading_zero}

-- `std::isdigit` in the "C" locale
abbrev pub is_digit : ℕ → Bool
is_digit c = leb b'0' c && leb c b'9'

-- The first test: the name is not longer than the base, is too long, or does not start with it.
abbrev pub cannot_be_member : Text → Text → Bool
cannot_be_member base name =
    leb (length name) (length base)
    || (ltb 10 (length name - length base) || not (starts_with base name))

unfoldable pub parse_parameterized_index : Text → Text → Option ℕ
parse_parameterized_index base name =
    let suffix = drop (length base) name in
    if cannot_be_member base name
    then none
    else if leading_zero suffix
    then none
    else if not (all is_digit suffix)
    then none
    else whole (from_chars 32 10 suffix)

abbrev pub index_below : ℕ → Option ℕ → Bool
index_below count none = false
index_below count (some i) = ltb i count

unfoldable pub parameterized_name_contains : Text → ℕ → Text → Bool
unfolding parse_parameterized_index
parameterized_name_contains base count name =
    index_below count (parse_parameterized_index base name)

-- An existing symbol is given by its members `name` and `parameterized_count`.
unfoldable pub symbol_name_sets_overlap : Text → Option ℕ → Text → Option ℕ → Bool
unfolding parameterized_name_contains
symbol_name_sets_overlap existing none name none = same_text existing name
symbol_name_sets_overlap existing none name (some count) =
    parameterized_name_contains name count existing
symbol_name_sets_overlap existing (some existing_count) name none =
    parameterized_name_contains existing existing_count name
symbol_name_sets_overlap existing (some existing_count) name (some count) =
    if (existing_count == 0) || (count == 0)
    then false
    else parameterized_name_contains existing existing_count (name ++ codes "0")
      || parameterized_name_contains name count (existing ++ codes "0")
