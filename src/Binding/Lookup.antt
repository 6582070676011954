-- ===== src/Binding/Lookup.antt =====
-- submod/binding/src/ptx_symbol_table.cpp: the lookup of a name, from a scope outwards. `none` is an
-- access outside of a vector, or a loop that runs out of fuel.
pub mod Local
pub mod Outwards
use ptx_frontend.Common.{
  ℕ, zero, suc, ◌+◌, ◌%◌, ◌^◌, ◌≡◌, Bool, true, false, not, ◌&&◌, ◌||◌, Option, none, some, List,
  [], ◌∷◌, ◌++◌, Text, codes, length, get_elem?, set, find_if, ltb, ◌==◌, if◌then◌else◌, is_some,
}
use ptx_frontend.Binding.Names.{symbol_name_sets_overlap, parse_parameterized_index}
use ptx_frontend.Syntax.{SourceRange}
use ptx_frontend.Binding.Symbols.{
  Scope, ScopeKind, module_scope, function_scope, block_scope, Symbol, SymbolKind, SymbolLinkage,
  AstStateSpace, SymbolLookup, SymbolDeclarationOccurrence, BindDiagnostic, BindDiagnosticKind,
  duplicate_symbol, same_range,
}
use ptx_frontend.Binding.Index.Prefix.{is_member_of, parameterized_containing}
use ptx_frontend.Binding.Scopes.{
  ScopeNameIndex, TextMap, find, new_scope, index_symbol, exact_symbol, overlapping_symbol,
}
use ptx_frontend.Binding.Table.{SymbolTable}

-- `std::optional` of a lookup in one scope, by the only group.
unfoldable pub single_group : List Symbol → ℕ → Text → Option (Option SymbolLookup)
single_group symbols id name = elim (get_elem? symbols id) [
  | none ↦ none
  | some symbol ↦ some (
      if is_member_of symbol name
      then some (record {
        symbol = symbol.id;
        parameterized_index = parse_parameterized_index symbol.name name;
      })
      else none)
]

unfoldable pub any_group : ScopeNameIndex → List Symbol → Text → Option (Option SymbolLookup)
any_group index symbols name =
    elim (parameterized_containing index.parameterized_prefixes symbols name) [
      | none ↦ none
      | some none ↦ some none
      | some (some group) ↦ elim (get_elem? symbols group) [
        | none ↦ none
        | some symbol ↦ some (
            some (record {
              symbol = group;
              parameterized_index = parse_parameterized_index symbol.name name;
            }))
      ]
    ]

-- A single group is tried without the index.
unfoldable pub lookup_group :
    ScopeNameIndex → TextMap ℕ → List Symbol → Text → Option (Option SymbolLookup)
unfolding single_group any_group
lookup_group index ((base, id) ∷ []) symbols name = single_group symbols id name
lookup_group index groups symbols name = any_group index symbols name

unfoldable pub lookup_local : ScopeNameIndex → List Symbol → Text → Option (Option SymbolLookup)
unfolding lookup_group
lookup_local index symbols name = elim (find name index.ordinary_exact) [
  | some symbol ↦ some (some (record { symbol = symbol; parameterized_index = none }))
  | none ↦ lookup_group index index.parameterized_exact symbols name
]

-- The loop over a scope and those around it, on fuel.
unfoldable pub lookup : ℕ → SymbolTable → ℕ → Text → Option (Option SymbolLookup)
unfolding lookup_local
lookup zero t scope_id name = none
lookup (suc fuel) t scope_id name = elim (get_elem? t.scope_name_indexes scope_id) [
  | none ↦ none
  | some index ↦ elim (lookup_local index t.symbols name) [
    | none ↦ none
    | some (some found) ↦ some (some found)
    | some none ↦ elim (get_elem? t.scopes scope_id) [
      | none ↦ none
      | some current ↦ elim current.parent [
        | none ↦ some none
        | some parent ↦ lookup fuel t parent name
      ]
    ]
  ]
]
