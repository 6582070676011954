-- ===== src/Binding/Declarators.antt =====
-- submod/binding/src/ptx_symbol_table.cpp: what the builder reads from a declaration: its linkage, the
-- alignment of its address, the width of its vectors and the count of a group.
pub mod Alignment
use Prim.Native.Nat.{bit_and}
use ptx_frontend.Common.{
  ℕ, zero, suc, ◌+◌, ◌-◌, ◌*◌, ◌%◌, ◌^◌, ◌≡◌, Bool, true, false, not, ◌||◌, Option, none, some,
  List, [], ◌∷◌, ◌++◌, Text, codes, same_text, ltb, ◌==◌, if◌then◌else◌, any,
}
use ptx_frontend.Base.Integer.{parse_integer_magnitude}
use ptx_frontend.Syntax.{AstSyntax, SourceRange}
use ptx_frontend.Binding.Symbols.{
  SymbolLinkage, no_linkage, external, visible, weak, common, BindDiagnostic,
  conflicting_linkage_qualifiers, invalid_parameterized_count,
}

unfoldable pub linkage_from_spelling : Text → SymbolLinkage
linkage_from_spelling spelling =
    if same_text spelling (codes ".extern")
    then external
    else if same_text spelling (codes ".visible")
    then visible
    else if same_text spelling (codes ".weak")
    then weak
    else if same_text spelling (codes ".common")
    then common
    else no_linkage

abbrev is_one_of : Text → List Text → Bool
is_one_of text spellings = any (same_text text) spellings

-- The chain of tests, of which the first that holds gives the bytes.
abbrev pub bytes_of : Bool → Bool → Bool → Bool → Bool → Option ℕ
bytes_of one two four eight sixteen =
    if one
    then some 1
    else if two
    then some 2
    else if four
    then some 4
    else if eight
    then some 8
    else if sixteen
    then some 16
    else none

unfoldable pub scalar_alignment : Text → Option ℕ
scalar_alignment type =
    bytes_of (is_one_of type (codes ".u8" ∷ codes ".s8" ∷ codes ".b8" ∷ codes ".pred" ∷ []))
      (is_one_of type
        (codes ".u16" ∷ codes ".s16" ∷ codes ".b16" ∷ codes ".f16" ∷ codes ".bf16" ∷ []))
      (is_one_of type (
        codes ".u32"
        ∷ codes ".s32"
        ∷ codes ".b32"
        ∷ codes ".f32"
        ∷ codes ".f16x2"
        ∷ codes ".tf32"
        ∷ []))
      (is_one_of type (codes ".u64" ∷ codes ".s64" ∷ codes ".b64" ∷ codes ".f64" ∷ []))
      (same_text type (codes ".b128"))

-- `(value & (value - 1)) != 0`; zero is tested before.
abbrev pub has_two_bits : ℕ → Bool
has_two_bits value = ltb 0 (bit_and value (value - 1))

abbrev pub single_bit : Option ℕ → Option ℕ
single_bit none = none
single_bit (some value) = if (value == 0) || has_two_bits value then none else some value

unfoldable pub parse_alignment : Text → Option ℕ
parse_alignment text = single_bit (parse_integer_magnitude text)

abbrev pub elements : AstSyntax → ℕ
elements vector_type = if same_text vector_type.text (codes ".v2") then 2 else 4

-- The product is one of `uint64_t`.
abbrev pub vector_alignment : Option ℕ → Option AstSyntax → Option ℕ
vector_alignment none vector_type = none
vector_alignment (some scalar) none = some scalar
vector_alignment (some scalar) (some vector_type) = some (scalar * elements vector_type % 2 ^ 64)

unfoldable pub declaration_alignment : Option AstSyntax → Option AstSyntax → Text → Option ℕ
unfolding parse_alignment scalar_alignment
declaration_alignment (some alignment) vector_type type = parse_alignment alignment.text
declaration_alignment none vector_type type = vector_alignment (scalar_alignment type) vector_type

abbrev pub vector_width : Option AstSyntax → Option ℕ
vector_width none = none
vector_width (some vector_type) = some (elements vector_type)

abbrev pub is_linked : SymbolLinkage → Bool
is_linked no_linkage = false
is_linked external = true
is_linked visible = true
is_linked weak = true
is_linked common = true

abbrev pub range_or : Option SourceRange → SourceRange → SourceRange
range_or none default = default
range_or (some range) default = range

abbrev pub conflicting : SourceRange → SourceRange → BindDiagnostic
conflicting range previous = record {
  kind = conflicting_linkage_qualifiers;
  range = range;
  previous_range = some previous;
  message = codes "A declaration may have only one linkage qualifier.";
}

-- The loop over the qualifiers, with the linkage so far and the range of its qualifier.
unfoldable pub linkage_from :
    List AstSyntax
    → SourceRange
    → SymbolLinkage
    → Option SourceRange
    → List BindDiagnostic
    → SymbolLinkage × List BindDiagnostic
linkage_from [] declaration_range result first diagnostics = (result, diagnostics)
linkage_from (qualifier ∷ qualifiers) declaration_range result first diagnostics =
    let candidate = linkage_from_spelling qualifier.text in
    let passed = linkage_from qualifiers declaration_range result first diagnostics in
    let refused =
      linkage_from qualifiers declaration_range result first
        (diagnostics ++ conflicting qualifier.range (range_or first declaration_range) ∷ []) in
    let taken =
      linkage_from qualifiers declaration_range candidate (some qualifier.range) diagnostics in
    if not (is_linked candidate) then passed else if is_linked result then refused else taken

unfoldable pub linkage : List AstSyntax → SourceRange → SymbolLinkage × List BindDiagnostic
unfolding linkage_from
linkage qualifiers declaration_range = linkage_from qualifiers declaration_range no_linkage none []

abbrev pub invalid_count : SourceRange → BindDiagnostic
invalid_count range = record {
  kind = invalid_parameterized_count;
  range = range;
  previous_range = none;
  message = codes "Parameterized variable count must be a positive 32-bit integer.";
}

-- `!count || *count == 0 || *count > std::numeric_limits<uint32_t>::max()`
abbrev pub valid_count : Option ℕ → Option ℕ
valid_count none = none
valid_count (some count) = if (count == 0) || ltb (2 ^ 32 - 1) count then none else some count

abbrev pub count_or_report : Option ℕ → SourceRange → ℕ × List BindDiagnostic
count_or_report none range = (0, invalid_count range ∷ [])
count_or_report (some count) range = (count % 2 ^ 32, [])

unfoldable pub parameterized_count : Option AstSyntax → Option ℕ × List BindDiagnostic
parameterized_count none = (none, [])
parameterized_count (some written) =
    let (count, diagnostics) =
      count_or_report (valid_count (parse_integer_magnitude written.text)) written.range in
    (some count, diagnostics)
