-- ===== src/Tests/Binding.antt =====
-- Runs of submod/binding, and instances of its theorems.
use ptx_frontend.Common.{
  ℕ, ◌^◌, ◌<◌, ◌≤◌, ◌≡◌, ◌↔◌, refl, sym, Bool, true, false, Option, none, some, List, ◌++◌, Text,
  codes, arith,
}
use ptx_frontend.Common.Decimal.{decimal}
use ptx_frontend.Binding.Names.{
  parse_parameterized_index, parameterized_name_contains, symbol_name_sets_overlap,
}
use ptx_frontend.Binding.Names.Members.{
  IsMember, parse_parameterized_index_iff, parameterized_name_contains_iff,
}
use ptx_frontend.Binding.Names.Overlap.{IsName, symbol_name_sets_overlap_iff}

-- `r<20>` and `r1<5>` both stand for `r10`.
overlapping : symbol_name_sets_overlap (codes "r") (some 20) (codes "r1") (some 5) ≡ true
unfolding symbol_name_sets_overlap parameterized_name_contains parse_parameterized_index
    ptx_frontend.Common.FromChars.from_chars ptx_frontend.Common.Digits.number_from
overlapping = refl

apart : symbol_name_sets_overlap (codes "r") (some 10) (codes "r1") (some 5) ≡ false
unfolding symbol_name_sets_overlap parameterized_name_contains parse_parameterized_index
    ptx_frontend.Common.FromChars.from_chars ptx_frontend.Common.Digits.number_from
apart = refl

symbol_name_sets_overlap_iff_example :
    (t : Text) × IsName (codes "r") (some 20) t × IsName (codes "r1") (some 5) t
symbol_name_sets_overlap_iff_example =
    (symbol_name_sets_overlap_iff (codes "r") (some 20) (codes "r1") (some 5) (omega arith)
        (omega arith)).0
      overlapping

r17_read : parse_parameterized_index (codes "r") (codes "r17") ≡ some 17
unfolding parse_parameterized_index ptx_frontend.Common.FromChars.from_chars
    ptx_frontend.Common.Digits.number_from
r17_read = refl

leading_zero_refused : parse_parameterized_index (codes "r") (codes "r07") ≡ none
unfolding parse_parameterized_index
leading_zero_refused = refl

parse_parameterized_index_iff_example : (codes "r17" ≡ codes "r" ++ decimal 17) × (17 < 2 ^ 32)
parse_parameterized_index_iff_example =
    (parse_parameterized_index_iff (codes "r") (codes "r17") 17).0 r17_read

r17_contained : parameterized_name_contains (codes "r") 20 (codes "r17") ≡ true
unfolding parameterized_name_contains parse_parameterized_index
    ptx_frontend.Common.FromChars.from_chars ptx_frontend.Common.Digits.number_from
r17_contained = refl

parameterized_name_contains_iff_example : IsMember (codes "r") 20 (codes "r17")
parameterized_name_contains_iff_example =
    (parameterized_name_contains_iff (codes "r") 20 (codes "r17") (omega arith)).0 r17_contained
