-- ===== src/Binding/Scopes.antt =====
-- submod/binding/src/ptx_symbol_table.cpp: the names of a lexical scope, with the indexes that answer
-- whether a new declaration overlaps an earlier one. `none` is an access that the indexes rule out.
pub mod Members
pub mod Spellings
pub mod Held
pub mod Add
pub mod Overlapping
pub mod Refines
use ptx_frontend.Common.{
  ℕ, zero, suc, ◌+◌, ◌-◌, ◌≡◌, Bool, true, false, Option, none, some, List, [], ◌∷◌, ◌++◌, Text,
  codes, same_text, length, take, get_elem?, ltb, ◌==◌, if◌then◌else◌, is_some,
}
use ptx_frontend.Binding.Names.{parse_parameterized_index}
use ptx_frontend.Binding.Symbols.{Symbol}
use ptx_frontend.Binding.Index.{keep_earliest}
use ptx_frontend.Binding.Index.Numeric.{
  NumericMemberIndex, new_index, index_member_number, earliest_member_below,
}
use ptx_frontend.Binding.Index.Prefix.{
  ParameterizedPrefixIndex, new_prefixes, index_parameterized_base, parameterized_containing,
}

-- `std::unordered_map` with texts for keys
abbrev pub TextMap : Type 0 → Type 0
TextMap A = List (Text × A)

module _ {A : Type 0} where
  abbrev pub find : Text → TextMap A → Option A
  find key [] = none
  find key ((k, a) ∷ others) =
      let found = find key others in if same_text key k then some a else found

  -- `emplace` leaves an element that is there.
  abbrev pub emplace : Text → A → TextMap A → TextMap A
  emplace key a map = if is_some (find key map) then map else (key, a) ∷ map

  -- The element of a key, new or old, changed through its reference: the first of a key counts.
  abbrev pub assign : Text → A → TextMap A → TextMap A
  assign key a map = (key, a) ∷ map

pub record ScopeNameIndex : Type 0 where
  pub ordinary_exact : TextMap ℕ
  pub parameterized_exact : TextMap ℕ
  pub parameterized_prefixes : ParameterizedPrefixIndex
  pub member_prefixes : TextMap NumericMemberIndex

abbrev pub new_scope : ScopeNameIndex
new_scope = record {
  ordinary_exact = [];
  parameterized_exact = [];
  parameterized_prefixes = new_prefixes;
  member_prefixes = [];
}

abbrev pub or_new : Option NumericMemberIndex → NumericMemberIndex
or_new none = new_index
or_new (some index) = index

-- A base and the member that a spelling is of it.
unfoldable pub index_member_of :
    TextMap NumericMemberIndex → Text → Option ℕ → ℕ → Option (TextMap NumericMemberIndex)
index_member_of prefixes base none symbol = some prefixes
index_member_of prefixes base (some member) symbol =
    elim (index_member_number (or_new (find base prefixes)) member symbol) [
      | none ↦ none
      | some index ↦ some (assign base index prefixes)
    ]

-- The rounds of the loop over the lengths of a base.
unfoldable pub index_bases :
    ℕ → ℕ → TextMap NumericMemberIndex → Text → ℕ → Option (TextMap NumericMemberIndex)
unfolding index_member_of
index_bases zero base_length prefixes spelling symbol = some prefixes
index_bases (suc rounds) base_length prefixes spelling symbol =
    let base = take base_length spelling in
    elim (index_member_of prefixes base (parse_parameterized_index base spelling) symbol) [
      | none ↦ none
      | some grown ↦ index_bases rounds (suc base_length) grown spelling symbol
    ]

-- `std::max(1, ...)`
abbrev pub first_base_length : Text → ℕ
first_base_length spelling =
    let shortest = if ltb 10 (length spelling) then length spelling - 10 else 1 in
    if ltb 1 shortest then shortest else 1

unfoldable pub index_member_spelling :
    TextMap NumericMemberIndex → Text → ℕ → Option (TextMap NumericMemberIndex)
unfolding index_bases
index_member_spelling prefixes spelling symbol =
    let first = first_base_length spelling in
    index_bases (length spelling - first) first prefixes spelling symbol

abbrev pub with_members :
    ScopeNameIndex → Option (TextMap NumericMemberIndex) → Option ScopeNameIndex
with_members index none = none
with_members index (some members) = some (record index { member_prefixes = members })

-- A group's first member is indexed, if it has one.
unfoldable pub index_group : ScopeNameIndex → Text → ℕ → ℕ → Option ScopeNameIndex
unfolding index_member_spelling
index_group index name count id =
    elim (index_parameterized_base index.parameterized_prefixes name id) [
      | none ↦ none
      | some prefixes ↦
          let grown = record index {
            parameterized_exact = emplace name id index.parameterized_exact;
            parameterized_prefixes = prefixes;
          } in
          if count == 0
          then some grown
          else with_members grown
              (index_member_spelling index.member_prefixes (name ++ codes "0") id)
    ]

-- A symbol is given by its members `name`, `parameterized_count` and `id`.
unfoldable pub index_symbol : ScopeNameIndex → Text → Option ℕ → ℕ → Option ScopeNameIndex
unfolding index_group
index_symbol index name none id =
    with_members (record index { ordinary_exact = emplace name id index.ordinary_exact })
      (index_member_spelling index.member_prefixes name id)
index_symbol index name (some count) id = index_group index name count id

unfoldable pub exact_symbol : ScopeNameIndex → Text → Option ℕ → Option ℕ
exact_symbol index name none = find name index.ordinary_exact
exact_symbol index name (some count) = find name index.parameterized_exact

abbrev pub keep_if_found : Option ℕ → Option ℕ → Option ℕ
keep_if_found result none = result
keep_if_found result (some symbol) = keep_earliest result symbol

-- The members of a new group that are declared.
unfoldable pub declared_member : TextMap NumericMemberIndex → Text → ℕ → Option (Option ℕ)
declared_member prefixes name count = elim (find name prefixes) [
  | none ↦ some none
  | some members ↦ earliest_member_below members count
]

unfoldable pub overlapping_symbol :
    ScopeNameIndex → List Symbol → Text → Option ℕ → Option (Option ℕ)
unfolding declared_member
overlapping_symbol index symbols name none =
    parameterized_containing index.parameterized_prefixes symbols name
overlapping_symbol index symbols name (some count) =
    if count == 0
    then some none
    else elim (parameterized_containing index.parameterized_prefixes symbols (name ++ codes "0")) [
      | none ↦ none
      | some containing ↦ elim (declared_member index.member_prefixes name count) [
        | none ↦ none
        | some member ↦ some (keep_if_found (keep_if_found none containing) member)
      ]
    ]
