-- ===== src/Binding/Builder.antt =====
-- submod/binding/src/ptx_symbol_table.cpp: the other operations of the builder that change the table, and
-- the queries of its scopes and occurrences. `none` is an access outside of a vector, or an exception.
pub mod Steps
pub mod Invariant
pub mod Operations
pub mod Reach
pub mod Queries
pub mod Ranges
pub mod Follows
pub mod Orders
pub mod Recorded
pub mod Prior
pub mod Traverse
use ptx_frontend.Common.{
  ℕ, zero, suc, ◌+◌, ◌%◌, ◌^◌, ◌≡◌, Bool, true, false, not, ◌&&◌, ◌||◌, Option, none, some, List,
  [], ◌∷◌, ◌++◌, Text, codes, same_text, length, get_elem?, set, find_if, any, ltb, ◌==◌,
  if◌then◌else◌, is_some,
}
use ptx_frontend.Syntax.{SourceRange}
use ptx_frontend.Binding.Symbols.{
  Scope, ScopeKind, module_scope, function_scope, block_scope, Symbol, SymbolKind, SymbolLinkage,
  no_linkage, SymbolDeclarationOccurrence, BindDiagnostic, duplicate_symbol, same_range, variable,
  input_parameter, return_parameter, call_parameter, function, label, call_prototype,
  call_target_set, branch_target_set, debug_file, debug_string_label,
}
use ptx_frontend.Binding.Scopes.{ScopeNameIndex, new_scope, TextMap, find}
use ptx_frontend.Binding.Table.{SymbolTable, SymbolBinding}

abbrev pub push_scope : SymbolTable → Scope → SymbolTable
push_scope t scope = record t {
  scopes = t.scopes ++ scope ∷ [];
  scope_name_indexes = t.scope_name_indexes ++ new_scope ∷ [];
}

-- The scope of a declaration, which its function's symbol owns.
unfoldable pub add_function_scope : SymbolTable → ℕ → SourceRange → Bool → Option (SymbolTable × ℕ)
add_function_scope t owner range prefer_as_owned_scope = elim (get_elem? t.symbols owner) [
  | none ↦ none
  | some symbol ↦
      let id = length t.scopes % 2 ^ 32 in
      let scope : Scope = record {
        id = id;
        kind = function_scope;
        parent = some 0;
        owner = some owner;
        range = some range;
      } in
      let owned =
        if not (is_some symbol.owned_scope) || prefer_as_owned_scope
        then record symbol { owned_scope = some id }
        else symbol in
      let pushed = push_scope t scope in
      some (record pushed { symbols = set t.symbols owner owned }, id)
]

unfoldable pub add_block_scope : SymbolTable → ℕ → SourceRange → SymbolTable × ℕ
add_block_scope t parent range =
    let id = length t.scopes % 2 ^ 32 in
    (
      push_scope t (record {
        id = id;
        kind = block_scope;
        parent = some parent;
        owner = none;
        range = some range;
      }),
      id,
    )

-- `operator==` of kinds
abbrev pub kind_code : SymbolKind → ℕ
kind_code variable = 0
kind_code input_parameter = 1
kind_code return_parameter = 2
kind_code call_parameter = 3
kind_code function = 4
kind_code label = 5
kind_code call_prototype = 6
kind_code call_target_set = 7
kind_code branch_target_set = 8
kind_code debug_file = 9
kind_code debug_string_label = 10

abbrev pub is_metadata : SymbolKind → Text → Symbol → Bool
is_metadata kind name symbol =
    (symbol.scope == 0) && ((kind_code symbol.kind == kind_code kind) && same_text symbol.name name)

unfoldable pub find_metadata_symbol : List Symbol → SymbolKind → Text → Option ℕ
find_metadata_symbol symbols kind name = elim (find_if (is_metadata kind name) symbols) [
  | none ↦ none
  | some symbol ↦ some symbol.id
]

abbrev pub metadata_symbol : SymbolKind → Text → SourceRange → ℕ → Symbol
metadata_symbol kind name range id = record {
  id = id;
  scope = 0;
  kind = kind;
  name = name;
  declaration_range = range;
  linkage = no_linkage;
  state_space = none;
  type = none;
  vector_width = none;
  is_array = false;
  address_alignment = none;
  parameterized_count = none;
  owned_scope = none;
  function_is_entry = false;
  canonical_function = none;
}

abbrev pub metadata_duplicate :
    (Text → List Text → Text) → Text → SourceRange → Symbol → BindDiagnostic
metadata_duplicate format name range existing = record {
  kind = duplicate_symbol;
  range = range;
  previous_range = some existing.declaration_range;
  message = format (codes "Duplicate symbol '{}' in debug metadata.") (name ∷ []);
}

-- The diagnostic for metadata that is declared twice.
unfoldable pub report_metadata :
    (Text → List Text → Text) → SymbolBinding → Text → SourceRange → ℕ → Option SymbolBinding
report_metadata format b name range previous = elim (get_elem? b.table.symbols previous) [
  | none ↦ none
  | some existing ↦ some (record b {
    diagnostics = b.diagnostics ++ metadata_duplicate format name range existing ∷ [];
  })
]

unfoldable pub add_metadata_symbol :
    (Text → List Text → Text)
    → SymbolBinding
    → SymbolKind
    → Text
    → SourceRange
    → Bool
    → Option (SymbolBinding × ℕ)
unfolding find_metadata_symbol report_metadata
add_metadata_symbol format b kind name range idempotent =
    elim (find_metadata_symbol b.table.symbols kind name) [
      | some previous ↦
          if idempotent
          then some (b, previous)
          else elim (report_metadata format b name range previous) [
            | none ↦ none
            | some reported ↦ some (reported, previous)
          ]
      | none ↦
          let id = length b.table.symbols % 2 ^ 32 in
          some (
            record b {
              table = record b.table {
                symbols = b.table.symbols ++ metadata_symbol kind name range id ∷ [];
                declaration_occurrences = b.table.declaration_occurrences ++ [] ∷ [];
              };
            },
            id,
          )
    ]

-- The end of `collectAlias`: an alias that is a function gets its target.
unfoldable pub link_alias : SymbolTable → ℕ → ℕ → Option SymbolTable
link_alias t alias_symbol target = elim (get_elem? t.symbols alias_symbol) [
  | none ↦ none
  | some symbol ↦ some (
      if kind_code symbol.kind == kind_code function
      then record t {
        symbols = set t.symbols alias_symbol (record symbol { canonical_function = some target });
      }
      else t)
]

-- The orders of the source ranges, and those that occur twice.
pub record SourceOrders : Type 0 where
  pub orders : List (SourceRange × ℕ)
  pub ambiguous : List SourceRange
  pub next : ℕ

abbrev pub find_order : SourceRange → List (SourceRange × ℕ) → Option ℕ
find_order range [] = none
find_order range ((r, order) ∷ orders) =
    let others = find_order range orders in if same_range range r then some order else others

abbrev pub erase_order : SourceRange → List (SourceRange × ℕ) → List (SourceRange × ℕ)
erase_order range [] = []
erase_order range ((r, order) ∷ orders) =
    let others = erase_order range orders in
    if same_range range r then others else (r, order) ∷ others

-- `next_source_order++` is evaluated whether the range is new or not.
unfoldable pub index_source_range : SourceOrders → SourceRange → SourceOrders
index_source_range s range =
    if any (same_range range) s.ambiguous
    then s
    else if is_some (find_order range s.orders)
    then record {
      orders = erase_order range s.orders;
      ambiguous = range ∷ s.ambiguous;
      next = (s.next + 1) % 2 ^ 32;
    }
    else record {
      orders = (range, s.next) ∷ s.orders;
      ambiguous = s.ambiguous;
      next = (s.next + 1) % 2 ^ 32;
    }

unfoldable pub record_declaration_occurrence :
    List (SourceRange × ℕ) → SymbolTable → ℕ → SourceRange → Option SourceRange → Option SymbolTable
record_declaration_occurrence orders t symbol range variable_range =
    elim (get_elem? t.declaration_occurrences symbol) [
      | none ↦ none
      | some occurrences ↦
          let occurrence : SymbolDeclarationOccurrence = record {
            symbol = symbol;
            range = range;
            lexical_order = find_order range orders;
            variable_declaration_range = variable_range;
          } in
          some (record t {
            declaration_occurrences =
                set t.declaration_occurrences symbol (occurrences ++ occurrence ∷ []);
          })
    ]
