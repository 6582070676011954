-- ===== src/Binding/Builder/Queries.antt =====
-- submod/binding/src/ptx_symbol_table.cpp: the queries of scopes, exact declarations and occurrences.
use ptx_frontend.Common.{
  ℕ, Bool, true, false, not, ◌&&◌, ◌||◌, Option, none, some, List, [], ◌∷◌, Text, get_elem?,
  find_if, any, ltb, ◌==◌, if◌then◌else◌, is_some,
}
use ptx_frontend.Syntax.{SourceRange}
use ptx_frontend.Binding.Symbols.{
  Scope, ScopeKind, module_scope, function_scope, block_scope, SymbolDeclarationOccurrence,
  same_range,
}
use ptx_frontend.Binding.Scopes.{find}
use ptx_frontend.Binding.Table.{SymbolTable}
use ptx_frontend.Binding.Builder.{find_order}

abbrev pub is_function : ScopeKind → Bool
is_function module_scope = false
is_function function_scope = true
is_function block_scope = false

abbrev pub is_block : ScopeKind → Bool
is_block module_scope = false
is_block function_scope = false
is_block block_scope = true

abbrev pub is_range : Option SourceRange → SourceRange → Bool
is_range none range = false
is_range (some r) range = same_range r range

abbrev pub is_id : Option ℕ → ℕ → Bool
is_id none id = false
is_id (some i) id = i == id

-- The loop over the scopes, with the result so far: a second scope ends it without a result.
function_scope_from : List Scope → SourceRange → Option ℕ → Option ℕ
function_scope_from [] range result = result
function_scope_from (candidate ∷ scopes) range result =
    let skipped = function_scope_from scopes range result in
    let found = function_scope_from scopes range (some candidate.id) in
    if not (is_function candidate.kind) || not (is_range candidate.range range)
    then skipped
    else if is_some result
    then none
    else found

unfoldable pub function_scope_at : SymbolTable → SourceRange → Option ℕ
unfolding function_scope_from
function_scope_at t range = function_scope_from t.scopes range none

unfoldable pub block_scope_at : SymbolTable → ℕ → SourceRange → Option ℕ
block_scope_at t parent range =
    elim (find_if
      (λ (s : Scope). is_block s.kind && (is_id s.parent parent && is_range s.range range))
      t.scopes) [ none ↦ none | some found ↦ some found.id ]

-- `none` is the exception of `at`.
unfoldable pub exact_declaration : SymbolTable → ℕ → Text → Bool → Option (Option ℕ)
exact_declaration t scope name parameterized = elim (get_elem? t.scope_name_indexes scope) [
  | none ↦ none
  | some index ↦
      some (find name (if parameterized then index.parameterized_exact else index.ordinary_exact))
]

abbrev pub is_before : Option ℕ → ℕ → Bool
is_before none use_order = false
is_before (some order) use_order = ltb order use_order

-- The loop over the occurrences, with the flag of an occurrence without an order.
unfoldable pub prior_from : List SymbolDeclarationOccurrence → ℕ → Bool → Option Bool
prior_from [] use_order unknown = if unknown then none else some false
prior_from (o ∷ occurrences) use_order unknown =
    let others = prior_from occurrences use_order (unknown || not (is_some o.lexical_order)) in
    if is_before o.lexical_order use_order then some true else others

unfoldable pub has_prior_declaration :
    List (SourceRange × ℕ) → SymbolTable → ℕ → SourceRange → Option Bool
unfolding prior_from
has_prior_declaration orders t symbol use_order = elim (find_order use_order orders) [
  | none ↦ none
  | some order ↦ elim (get_elem? t.declaration_occurrences symbol) [
    | none ↦ none
    | some occurrences ↦ prior_from occurrences order false
  ]
]

unfoldable pub declaration_occurrences_of : SymbolTable → ℕ → List SymbolDeclarationOccurrence
declaration_occurrences_of t symbol = elim (get_elem? t.declaration_occurrences symbol) [
  | none ↦ []
  | some occurrences ↦ occurrences
]

unfoldable pub has_variable_declaration : SymbolTable → ℕ → SourceRange → Bool
has_variable_declaration t symbol range = elim (get_elem? t.declaration_occurrences symbol) [
  | none ↦ false
  | some occurrences ↦
      any (λ (o : SymbolDeclarationOccurrence). is_range o.variable_declaration_range range)
        occurrences
]
