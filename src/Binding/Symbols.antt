-- ===== src/Binding/Symbols.antt =====
-- submod/binding/include/ptx_symbol_table.hpp: scopes, symbols and the diagnostics of their binding.
use ptx_frontend.Common.{ℕ, Bool, false, ◌&&◌, ◌==◌, Option, Text}
use ptx_frontend.Common.Int.{ℤ, pos, negsuc}
use ptx_frontend.Syntax.{SourcePos, SourceRange}

pub data ScopeKind : Type 0 where
  module_scope function_scope block_scope : ScopeKind

pub data SymbolKind : Type 0 where
  variable input_parameter return_parameter call_parameter function label call_prototype :
      SymbolKind
  call_target_set branch_target_set debug_file debug_string_label : SymbolKind

pub data SymbolLinkage : Type 0 where
  no_linkage external visible weak common : SymbolLinkage

-- submod/base/include/ptx_ast_types.hpp
pub data AstStateSpace : Type 0 where
  register parameter local shared global constant : AstStateSpace

-- Ids of scopes and symbols are their `value`.
pub record Scope : Type 0 where
  pub id : ℕ
  pub kind : ScopeKind
  pub parent : Option ℕ
  pub owner : Option ℕ
  pub range : Option SourceRange

pub record Symbol : Type 0 where
  pub id : ℕ
  pub scope : ℕ
  pub kind : SymbolKind
  pub name : Text
  pub declaration_range : SourceRange
  pub linkage : SymbolLinkage
  pub state_space : Option AstStateSpace
  pub type : Option Text
  pub vector_width : Option ℕ
  pub is_array : Bool
  pub address_alignment : Option ℕ
  pub parameterized_count : Option ℕ
  pub owned_scope : Option ℕ
  pub function_is_entry : Bool
  pub canonical_function : Option ℕ

pub record SymbolLookup : Type 0 where
  pub symbol : ℕ
  pub parameterized_index : Option ℕ

pub record SymbolDeclarationOccurrence : Type 0 where
  pub symbol : ℕ
  pub range : SourceRange
  pub lexical_order : Option ℕ
  pub variable_declaration_range : Option SourceRange

pub data BindDiagnosticKind : Type 0 where
  duplicate_symbol invalid_parameterized_count invalid_debug_file_id : BindDiagnosticKind
  conflicting_linkage_qualifiers unresolved_reference invalid_reference_target : BindDiagnosticKind

pub record BindDiagnostic : Type 0 where
  pub kind : BindDiagnosticKind
  pub range : SourceRange
  pub previous_range : Option SourceRange
  pub message : Text

-- `operator==` of positions and ranges: the defaulted comparison of the members
abbrev pub same_int : ℤ → ℤ → Bool
same_int (pos m) (pos n) = m == n
same_int (pos m) (negsuc n) = false
same_int (negsuc m) (pos n) = false
same_int (negsuc m) (negsuc n) = m == n

abbrev pub same_pos : SourcePos → SourcePos → Bool
same_pos a b = same_int a.line b.line && same_int a.column b.column

abbrev pub same_range : SourceRange → SourceRange → Bool
same_range a b = same_pos a.start b.start && same_pos a.end b.end
