-- ===== src/Binding/Table/Declare.antt =====
-- `addSymbol` on a table with the invariant.
use ptx_frontend.Common.{
  ℕ, ◌≡◌, refl, sym, ap, ◌∙◌, subst, inl, inr, true, Option, none, some, List, [], ◌∷◌, ◌++◌, Text,
  Option-cases, length, get_elem?, get_elem?-append_end, get_elem?-in,
}
use ptx_frontend.Binding.Names.{symbol_name_sets_overlap}
use ptx_frontend.Binding.Symbols.{Symbol, BindDiagnostic}
use ptx_frontend.Binding.Scopes.{ScopeNameIndex, exact_symbol}
use ptx_frontend.Binding.Scopes.Held.{Declared}
use ptx_frontend.Binding.Scopes.Overlapping.{earliest_overlap}
use ptx_frontend.Binding.Scopes.Refines.{overlapping_symbol-earliest_overlap}
use ptx_frontend.Binding.Table.{
  SymbolTable, SymbolBinding, NewSymbol, symbol_of, duplicate, overlap_message, report_overlap,
  declare_new, add_symbol,
}
use ptx_frontend.Binding.Table.Formed.{IsFormed, earliest_overlap_sound}
use ptx_frontend.Binding.Table.Add.{HasRoom, declare, append_symbol_lem}
use ptx_frontend.Binding.Table.Kept.{IsAdded, declared_as, exact_symbol-declared_as, redeclare_lem}

-- The diagnostics for a new name: one for the earliest declaration with an overlap, if there is one.
abbrev pub IsReported :
    (Text → List Text → Text) → SymbolBinding → NewSymbol → Option ℕ → List BindDiagnostic → Type 0
IsReported format b s none diagnostics = diagnostics ≡ b.diagnostics
IsReported format b s (some o) diagnostics =
    (existing : Symbol) × (get_elem? b.table.symbols o ≡ some existing)
    × (diagnostics
        ≡ b.diagnostics ++ duplicate format s existing (overlap_message format s existing) ∷ [])

module _ (format : Text → List Text → Text) (b : SymbolBinding) (declared : ℕ → List Declared)
    (formed : IsFormed b.table declared) (s : NewSymbol) where
  report_overlap_lem :
      (o : Option ℕ)
      → earliest_overlap s.name s.parameterized_count (declared s.scope) ≡ o
      → (diagnostics : List BindDiagnostic) × (report_overlap format b s o ≡ some diagnostics)
        × IsReported format b s o diagnostics
  unfolding report_overlap
  report_overlap_lem none e = (b.diagnostics, refl, refl)
  report_overlap_lem (some o) e =
      let (d, is, same, overlaps) =
        earliest_overlap_sound b.table.symbols s.name s.parameterized_count (declared s.scope) o
          (formed.known s.scope) e in
      let at : get_elem? b.table.symbols o ≡ some is.symbol =
        subst (λ i. get_elem? b.table.symbols i ≡ some is.symbol) same is.at in
      let test : symbol_name_sets_overlap is.symbol.name is.symbol.parameterized_count s.name
            s.parameterized_count
          ≡ true =
        rw (is.name, is.count) overlaps in
      (
        b.diagnostics ++ duplicate format s is.symbol (overlap_message format s is.symbol) ∷ [],
        rw (report_overlap, at, test) refl,
        (is.symbol, at, refl),
      )

  module _ (index : ScopeNameIndex)
      (at : get_elem? b.table.scope_name_indexes s.scope ≡ some index) where
    declare_new_lem :
        HasRoom b.table s
        → exact_symbol index s.name s.parameterized_count ≡ none
        → (t' : SymbolTable) × (diagnostics : List BindDiagnostic) × (declare_new format b index s
            ≡ some (record { table = t'; diagnostics = diagnostics }, length b.table.symbols))
          × IsFormed t' (declare declared s (length b.table.symbols))
          × (t'.symbols ≡ b.table.symbols ++ symbol_of s (length b.table.symbols) ∷ [])
          × (t'.scopes ≡ b.table.scopes)
          × IsReported format b s
              (earliest_overlap s.name s.parameterized_count (declared s.scope))
              diagnostics
    unfolding declare_new
    declare_new_lem room new =
        let o = earliest_overlap s.name s.parameterized_count (declared s.scope) in
        let found =
          overlapping_symbol-earliest_overlap index b.table.symbols (declared s.scope) s.name
            s.parameterized_count (formed.holds s.scope index at) (formed.known s.scope)
            room.some_name room.fits new in
        let (diagnostics, reports, reported) = report_overlap_lem o refl in
        let (t', run, formed', symbols, scopes) =
          append_symbol_lem format b.table declared formed s room index diagnostics at new in
        (t', diagnostics, rw (declare_new, found, reports) run, formed', symbols, scopes, reported)

-- A symbol that is added to a table with the invariant and room for it: nothing is accessed outside of a
-- vector, and the scopes stay. If the scope declares the name in the same form, the id is that of the last
-- such declaration, whose symbol alone changes, in `is_array`, and the indexes hold the same declarations.
-- If not, the symbol is appended under the next id, and the indexes of its scope hold its declaration and
-- those before, the indexes of the other scopes those before. The id is that of a symbol with the name in
-- the same form.
pub add_symbol-IsFormed :
    (format : Text → List Text → Text) (b : SymbolBinding) (declared : ℕ → List Declared)
    (s : NewSymbol)
    → IsFormed b.table declared
    → HasRoom b.table s
    → IsAdded b.table declared s (add_symbol format b s)
unfolding add_symbol
add_symbol-IsFormed format b declared s formed room =
    let (index, at) = get_elem?-in b.table.scope_name_indexes s.scope room.in_scope in
    elim (Option-cases (exact_symbol index s.name s.parameterized_count)) [
      | inl new ↦
          let (t', diagnostics, run, formed', symbols, scopes, reported) =
            declare_new_lem format b declared formed s index at room new in
          let declares : declared_as s.name s.parameterized_count (declared s.scope) ≡ none =
            sym (
              exact_symbol-declared_as index (declared s.scope) s.name s.parameterized_count
                (formed.holds s.scope index at))
            ∙ new in
          let placed =
            get_elem?-append_end b.table.symbols (symbol_of s (length b.table.symbols)) in
          record {
            after = record { table = t'; diagnostics = diagnostics };
            id = length b.table.symbols;
            runs = rw (add_symbol, at, new) run;
            scopes = scopes;
            kept = rw declares (refl, formed', symbols);
            found = (
              symbol_of s (length b.table.symbols),
              ap (λ l. get_elem? l (length b.table.symbols)) symbols ∙ placed,
              refl,
              refl,
            );
          }
      | inr (previous, old) ↦
          let added = redeclare_lem format b declared formed s index at previous old in
          record {
            after = added.after;
            id = added.id;
            runs = rw (add_symbol, at, old) added.runs;
            scopes = added.scopes;
            kept = added.kept;
            found = added.found;
          }
    ]

-- A symbol of a name that its scope does not declare in the same form: it is appended, with the number
-- of symbols as its id, and reported exactly if the names of a declaration of the scope overlap its own,
-- with the earliest such declaration.
pub add_symbol_new :
    (format : Text → List Text → Text) (b : SymbolBinding) (declared : ℕ → List Declared)
    (s : NewSymbol) (index : ScopeNameIndex)
    → IsFormed b.table declared
    → HasRoom b.table s
    → get_elem? b.table.scope_name_indexes s.scope ≡ some index
    → exact_symbol index s.name s.parameterized_count ≡ none
    → (b' : SymbolBinding) × (add_symbol format b s ≡ some (b', length b.table.symbols))
      × (b'.table.symbols ≡ b.table.symbols ++ symbol_of s (length b.table.symbols) ∷ [])
      × IsReported format b s
          (earliest_overlap s.name s.parameterized_count (declared s.scope))
          b'.diagnostics
unfolding add_symbol
add_symbol_new format b declared s index formed room at new =
    let (t', diagnostics, run, formed', symbols, scopes, reported) =
      declare_new_lem format b declared formed s index at room new in
    (
      record { table = t'; diagnostics = diagnostics },
      rw (add_symbol, at, new) run,
      symbols,
      reported,
    )
