-- ===== src/Binding/Table.antt =====
-- submod/binding/src/ptx_symbol_table.cpp: the symbol table and its builder. `none` is an access outside
-- of a vector, or an exception that `at` throws. `format` is the `fmt` library's function of that name.
pub mod Declarations
pub mod Formed
pub mod Add
pub mod Kept
pub mod Declare
use ptx_frontend.Common.{
  ℕ, zero, suc, ◌+◌, ◌%◌, ◌^◌, ◌≡◌, Bool, true, false, not, ◌&&◌, ◌||◌, Option, none, some, List,
  [], ◌∷◌, ◌++◌, Text, codes, length, get_elem?, set, find_if, ltb, ◌==◌, if◌then◌else◌, is_some,
}
use ptx_frontend.Binding.Names.{symbol_name_sets_overlap, parse_parameterized_index}
use ptx_frontend.Syntax.{SourceRange}
use ptx_frontend.Binding.Symbols.{
  Scope, ScopeKind, module_scope, function_scope, block_scope, Symbol, SymbolKind, SymbolLinkage,
  AstStateSpace, SymbolLookup, SymbolDeclarationOccurrence, BindDiagnostic, BindDiagnosticKind,
  duplicate_symbol, same_range,
}
use ptx_frontend.Binding.Index.Prefix.{is_member_of, parameterized_containing}
use ptx_frontend.Binding.Scopes.{
  ScopeNameIndex, TextMap, find, new_scope, index_symbol, exact_symbol, overlapping_symbol,
}

-- The members that the modelled operations read or change: references, debug declarations and the indexes
-- of ranges are left out.
pub record SymbolTable : Type 0 where
  pub scopes : List Scope
  pub symbols : List Symbol
  pub declaration_occurrences : List (List SymbolDeclarationOccurrence)
  pub scope_name_indexes : List ScopeNameIndex

pub record SymbolBinding : Type 0 where
  pub table : SymbolTable
  pub diagnostics : List BindDiagnostic

-- The builder's constructor: the module scope.
abbrev pub new_table : SymbolTable
new_table = record {
  scopes = record { id = 0; kind = module_scope; parent = none; owner = none; range = none } ∷ [];
  symbols = [];
  declaration_occurrences = [];
  scope_name_indexes = new_scope ∷ [];
}

-- The arguments of `addSymbol`.
pub record NewSymbol : Type 0 where
  pub scope : ℕ
  pub kind : SymbolKind
  pub name : Text
  pub declaration_range : SourceRange
  pub linkage : SymbolLinkage
  pub state_space : Option AstStateSpace
  pub type : Option Text
  pub address_alignment : Option ℕ
  pub parameterized_count : Option ℕ
  pub allow_redeclaration : Bool
  pub function_is_entry : Bool
  pub vector_width : Option ℕ
  pub is_array : Bool

abbrev pub symbol_of : NewSymbol → ℕ → Symbol
symbol_of s id = record {
  id = id;
  scope = s.scope;
  kind = s.kind;
  name = s.name;
  declaration_range = s.declaration_range;
  linkage = s.linkage;
  state_space = s.state_space;
  type = s.type;
  vector_width = s.vector_width;
  is_array = s.is_array;
  address_alignment = s.address_alignment;
  parameterized_count = s.parameterized_count;
  owned_scope = none;
  function_is_entry = s.function_is_entry;
  canonical_function = none;
}

module _ (format : Text → List Text → Text) where
  abbrev pub duplicate : NewSymbol → Symbol → Text → BindDiagnostic
  duplicate s existing message = record {
    kind = duplicate_symbol;
    range = s.declaration_range;
    previous_range = some existing.declaration_range;
    message = message;
  }

  abbrev pub duplicate_message : NewSymbol → Text
  duplicate_message s = format (codes "Duplicate symbol '{}' in the same scope.") (s.name ∷ [])

  abbrev pub overlap_message : NewSymbol → Symbol → Text
  overlap_message s existing =
      format
        (codes "Declarations '{}' and '{}' produce overlapping symbol names in the same scope.")
        (s.name ∷ existing.name ∷ [])

  -- The branch for a name that is declared in the same form.
  unfoldable pub redeclare : SymbolBinding → NewSymbol → ℕ → Option (SymbolBinding × ℕ)
  redeclare b s previous = elim (get_elem? b.table.symbols previous) [
    | none ↦ none
    | some existing ↦
        let changed = record existing { is_array = existing.is_array || s.is_array } in
        let table = record b.table { symbols = set b.table.symbols previous changed } in
        let diagnostics =
          if not s.allow_redeclaration
          then b.diagnostics ++ duplicate s existing (duplicate_message s) ∷ []
          else b.diagnostics in
        some (record { table = table; diagnostics = diagnostics }, previous)
  ]

  -- The diagnostics after the test for overlapping names.
  unfoldable pub report_overlap :
      SymbolBinding → NewSymbol → Option ℕ → Option (List BindDiagnostic)
  report_overlap b s none = some b.diagnostics
  report_overlap b s (some overlap) = elim (get_elem? b.table.symbols overlap) [
    | none ↦ none
    | some existing ↦ some (
        if symbol_name_sets_overlap existing.name existing.parameterized_count s.name
          s.parameterized_count
        then b.diagnostics ++ duplicate s existing (overlap_message s existing) ∷ []
        else b.diagnostics)
  ]

  -- The new symbol, and its scope's indexes.
  unfoldable pub append_as :
      SymbolTable
      → ScopeNameIndex
      → NewSymbol
      → List BindDiagnostic
      → ℕ
      → Option (SymbolBinding × ℕ)
  append_as t index s diagnostics id = elim (index_symbol index s.name s.parameterized_count id) [
    | none ↦ none
    | some grown ↦
        let table = record t {
          symbols = t.symbols ++ symbol_of s id ∷ [];
          declaration_occurrences = t.declaration_occurrences ++ [] ∷ [];
          scope_name_indexes = set t.scope_name_indexes s.scope grown;
        } in
        some (record { table = table; diagnostics = diagnostics }, id)
  ]

  -- `static_cast<uint32_t>` of the number of symbols is the next id.
  unfoldable pub append_symbol :
      SymbolTable → ScopeNameIndex → NewSymbol → List BindDiagnostic → Option (SymbolBinding × ℕ)
  unfolding append_as
  append_symbol t index s diagnostics = append_as t index s diagnostics (length t.symbols % 2 ^ 32)

  unfoldable pub declare_new :
      SymbolBinding → ScopeNameIndex → NewSymbol → Option (SymbolBinding × ℕ)
  unfolding report_overlap append_symbol
  declare_new b index s =
      elim (overlapping_symbol index b.table.symbols s.name s.parameterized_count) [
        | none ↦ none
        | some overlap ↦ elim (report_overlap b s overlap) [
          | none ↦ none
          | some diagnostics ↦ append_symbol b.table index s diagnostics
        ]
      ]

  unfoldable pub add_symbol : SymbolBinding → NewSymbol → Option (SymbolBinding × ℕ)
  unfolding redeclare declare_new
  add_symbol b s = elim (get_elem? b.table.scope_name_indexes s.scope) [
    | none ↦ none
    | some index ↦ elim (exact_symbol index s.name s.parameterized_count) [
      | some previous ↦ redeclare b s previous
      | none ↦ declare_new b index s
    ]
  ]
