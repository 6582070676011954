-- ===== src/Tests/Table.antt =====
-- Runs of the symbol table of submod/binding, and instances of its theorems.
use ptx_frontend.Common.{
  ℕ, zero, suc, none≢some, ◌≢◌, ◌⊎◌, ◌+◌, ◌*◌, ◌^◌, ◌<◌, ◌≤◌, ◌≡◌, refl, sym, ap, ◌∙◌, subst, Bool,
  true, false, Option, none, some, List, [], ◌∷◌, ◌++◌, Text, codes, arith, length, get_elem?,
  get_elem?-in, is_some, ◌==◌,
}
use ptx_frontend.Common.Int.{pos}
use ptx_frontend.Syntax.{SourceRange, AstSyntax}
use ptx_frontend.Binding.Symbols.{SymbolLookup, variable, no_linkage}
use ptx_frontend.Binding.Index.Numeric.{NumericMemberIndex, earliest_member_below}
use ptx_frontend.Binding.Index.Numeric.Refines.{
  index_members, earliest_below, index_members-earliest_member_below,
}
use ptx_frontend.Binding.Scopes.{ScopeNameIndex, find, new_scope, exact_symbol, overlapping_symbol}
use ptx_frontend.Binding.Scopes.Held.{Holds}
use ptx_frontend.Binding.Scopes.Overlapping.{earliest_overlap}
use ptx_frontend.Binding.Scopes.Refines.{overlapping_symbol-earliest_overlap}
use ptx_frontend.Binding.Table.{
  SymbolTable, SymbolBinding, NewSymbol, new_table, symbol_of, add_symbol,
}
use ptx_frontend.Binding.Table.Formed.{IsFormed, names_size}
use ptx_frontend.Binding.Table.Add.{HasRoom, declare, append_symbol_lem}
use ptx_frontend.Binding.Table.Kept.{IsAdded}
use ptx_frontend.Binding.Table.Declare.{IsReported, add_symbol-IsFormed, add_symbol_new}
use ptx_frontend.Binding.Lookup.{lookup}
use ptx_frontend.Binding.Lookup.Outwards.{IsVisible, lookup_terminates}
use ptx_frontend.Binding.Builder.Steps.{start, step, symbol, new_table-IsFormed}
use ptx_frontend.Binding.Builder.Invariant.{HasInvariant}
use ptx_frontend.Binding.Builder.Reach.{Reaches-HasInvariant}
use ptx_frontend.Binding.Declarators.{declaration_alignment}
use ptx_frontend.Binding.Declarators.Alignment.{IsPower, declaration_alignment-IsPower}

-- A stand-in for `fmt::format`.
abbrev plain : Text → List Text → Text
plain text arguments = text

abbrev somewhere : SourceRange
somewhere = record {
  start = record { line = pos 1; column = pos 1 };
  end = record { line = pos 1; column = pos 9 };
}

abbrev registers : Text → Option ℕ → NewSymbol
registers name count = record {
  scope = 0;
  kind = variable;
  name = name;
  declaration_range = somewhere;
  linkage = no_linkage;
  state_space = none;
  type = some (codes ".u32");
  address_alignment = none;
  parameterized_count = count;
  allow_redeclaration = false;
  function_is_entry = false;
  vector_width = none;
  is_array = false;
}

abbrev r20 : NewSymbol
r20 = registers (codes "r") (some 20)

abbrev r1_5 : NewSymbol
r1_5 = registers (codes "r1") (some 5)

abbrev empty : SymbolBinding
empty = record { table = new_table; diagnostics = [] }

room0 : HasRoom new_table r20
room0 = record {
  in_scope = omega arith;
  some_name = omega arith;
  fits = omega arith;
  ids = omega arith;
  texts = omega arith;
}

no_r : exact_symbol new_scope (codes "r") (some 20) ≡ none
unfolding exact_symbol
no_r = refl

abbrev first :
    (t' : SymbolTable) × (ptx_frontend.Binding.Table.append_symbol plain new_table new_scope r20 []
      ≡ some (record { table = t'; diagnostics = [] }, 0))
    × IsFormed t' (declare (λ k. []) r20 0)
    × (t'.symbols ≡ symbol_of r20 0 ∷ [])
    × (t'.scopes ≡ new_table.scopes)
first =
    append_symbol_lem plain new_table (λ k. []) new_table-IsFormed r20 room0 new_scope [] refl no_r

abbrev t1 : SymbolTable
t1 = first.0

abbrev b1 : SymbolBinding
b1 = record { table = t1; diagnostics = [] }

room1 : HasRoom t1 r1_5
room1 =
    let formed = first.2 in
    let aligned = formed.aligned in
    let some_scope = formed.some_scope in
    let size : length t1.symbols ≡ 1 = ap length first.3 in
    let texts : names_size t1.symbols ≡ 1 = ap names_size first.3 ∙ omega arith in
    record {
      in_scope = omega arith;
      some_name = omega arith;
      fits = omega arith;
      ids = omega arith;
      texts = omega arith;
    }

scope1 : (index : ScopeNameIndex) × (get_elem? t1.scope_name_indexes 0 ≡ some index)
scope1 = get_elem?-in t1.scope_name_indexes 0 room1.in_scope

no_r1 : exact_symbol scope1.0 (codes "r1") (some 5) ≡ none
unfolding exact_symbol
no_r1 =
    let formed = first.2 in
    let held = formed.holds 0 scope1.0 scope1.1 in ap (find (codes "r1")) held.groups

add_symbol-IsFormed_example : IsAdded t1 (declare (λ k. []) r20 0) r1_5 (add_symbol plain b1 r1_5)
add_symbol-IsFormed_example =
    add_symbol-IsFormed plain b1 (declare (λ k. []) r20 0) r1_5 first.2 room1

add_symbol_new_example :
    (b' : SymbolBinding) × (add_symbol plain b1 r1_5 ≡ some (b', length b1.table.symbols))
    × (b'.table.symbols ≡ b1.table.symbols ++ symbol_of r1_5 (length b1.table.symbols) ∷ [])
    × IsReported plain b1 r1_5
        (earliest_overlap
          (codes "r1")
          (some 5)
          (record { id = 0; name = codes "r"; count = some 20 } ∷ []))
        b'.diagnostics
add_symbol_new_example =
    add_symbol_new plain b1 (declare (λ k. []) r20 0) r1_5 scope1.0 first.2 room1 scope1.1 no_r1

overlapping_symbol-earliest_overlap_example :
    overlapping_symbol scope1.0 t1.symbols (codes "r1") (some 5)
    ≡ some (
        earliest_overlap
          (codes "r1")
          (some 5)
          (record { id = 0; name = codes "r"; count = some 20 } ∷ []))
overlapping_symbol-earliest_overlap_example =
    overlapping_symbol-earliest_overlap scope1.0 t1.symbols
      (record { id = 0; name = codes "r"; count = some 20 } ∷ []) (codes "r1") (some 5)
      (held_in first.2) (known_in first.2) (omega arith) (omega arith) no_r1
  where
    held_in :
        IsFormed t1 (declare (λ k. []) r20 0)
        → Holds scope1.0 (record { id = 0; name = codes "r"; count = some 20 } ∷ [])
    held_in formed = formed.holds 0 scope1.0 scope1.1

    known_in :
        IsFormed t1 (declare (λ k. []) r20 0)
        → ptx_frontend.Binding.Scopes.Overlapping.AllDeclared t1.symbols
            (record { id = 0; name = codes "r"; count = some 20 } ∷ [])
    known_in formed = formed.known 0

lookup_terminates_example :
    (r : Option SymbolLookup) × (lookup 1 t1 0 (codes "r7") ≡ some r)
    × IsVisible t1 (declare (λ k. []) r20 0) (codes "r7") 0 r
lookup_terminates_example =
    lookup_terminates t1 (declare (λ k. []) r20 0) 1 0 (codes "r7") first.2 (inside first.2)
      (omega arith)
  where
    inside : IsFormed t1 (declare (λ k. []) r20 0) → 0 < length t1.scopes
    inside formed = formed.some_scope

index_members-earliest_member_below_example :
    (index : NumericMemberIndex) × (index_members ((3, 7) ∷ (5, 2) ∷ []) ≡ some index)
    × ((limit : ℕ)
        → limit < 2 ^ 32
        → earliest_member_below index limit ≡ some (earliest_below limit ((3, 7) ∷ (5, 2) ∷ [])))
index_members-earliest_member_below_example =
    index_members-earliest_member_below ((3, 7) ∷ (5, 2) ∷ []) (omega arith, (omega arith, tt))
      (omega arith)

declared_r :
    (b' : SymbolBinding) × (add_symbol plain empty r20 ≡ some (b', 0))
    × (b'.table.symbols ≡ symbol_of r20 0 ∷ [])
    × IsReported plain empty r20 (earliest_overlap (codes "r") (some 20) []) b'.diagnostics
declared_r = add_symbol_new plain empty (λ k. []) r20 new_scope new_table-IsFormed room0 refl no_r

Reaches-HasInvariant_example : HasInvariant declared_r.0.table
Reaches-HasInvariant_example =
    Reaches-HasInvariant plain declared_r.0 (step start (symbol r20 0 room0 refl declared_r.1))

abbrev v2 : AstSyntax
v2 = record { text = codes ".v2"; range = somewhere }

v2_f64 : declaration_alignment none (some v2) (codes ".f64") ≡ some 16
unfolding declaration_alignment ptx_frontend.Binding.Declarators.scalar_alignment
v2_f64 = refl

declaration_alignment-IsPower_example : IsPower 16
declaration_alignment-IsPower_example =
    (declaration_alignment-IsPower none (some v2) (codes ".f64") 16).0 v2_f64

-- The diagnostics of two declarations in the module scope.
abbrev reports : Option (SymbolBinding × ℕ) → NewSymbol → Option ℕ
reports none s = none
reports (some (b, id)) s = elim (add_symbol plain b s) [
  | none ↦ none
  | some (b', id') ↦ some (length b'.diagnostics)
]

abbrev looked_up : Option (SymbolBinding × ℕ) → Text → Option (Option SymbolLookup)
looked_up none name = none
looked_up (some (b, id)) name = lookup 1 b.table 0 name

overlap_reported : reports (add_symbol plain empty r20) r1_5 ≡ some 1
unfolding add_symbol exact_symbol overlapping_symbol
    ptx_frontend.Binding.Index.Prefix.parameterized_containing
    ptx_frontend.Binding.Scopes.index_symbol
    ptx_frontend.Binding.Index.Prefix.index_parameterized_base ptx_frontend.Binding.Index.descend
    ptx_frontend.Binding.Index.keep_at ptx_frontend.Binding.Names.parse_parameterized_index
    ptx_frontend.Common.FromChars.from_chars ptx_frontend.Common.Digits.number_from
    ptx_frontend.Binding.Index.Numeric.index_member_number
    ptx_frontend.Binding.Index.Numeric.index_bits
    ptx_frontend.Binding.Names.symbol_name_sets_overlap
overlap_reported = refl

member_found :
    looked_up (add_symbol plain empty r20) (codes "r7")
    ≡ some (some (record { symbol = 0; parameterized_index = some 7 }))
unfolding add_symbol lookup exact_symbol overlapping_symbol
    ptx_frontend.Binding.Index.Prefix.parameterized_containing
    ptx_frontend.Binding.Scopes.index_symbol
    ptx_frontend.Binding.Index.Prefix.index_parameterized_base ptx_frontend.Binding.Index.descend
    ptx_frontend.Binding.Index.keep_at ptx_frontend.Binding.Names.parse_parameterized_index
    ptx_frontend.Common.FromChars.from_chars ptx_frontend.Common.Digits.number_from
    ptx_frontend.Binding.Index.Numeric.index_member_number
    ptx_frontend.Binding.Index.Numeric.index_bits
member_found = refl
