-- ===== src/Binding/Builder/Reach.antt =====
-- Every table that the builder reaches has the invariant.
use ptx_frontend.Common.{
  ℕ, ◌≡◌, ◌<◌, refl, sym, ap, ◌∙◌, subst, inl, inr, ◌||◌, Option, none, some, List, [], ◌∷◌, ◌++◌,
  Text, arith, none≢some, Bool-cases, ◌==◌, length, false,
}
use ptx_frontend.Binding.Symbols.{Symbol}
use ptx_frontend.Binding.Table.{SymbolTable, SymbolBinding, new_table, NewSymbol, symbol_of}
use ptx_frontend.Binding.Table.Formed.{IsFormed}
use ptx_frontend.Binding.Table.Add.{declare}
use ptx_frontend.Binding.Table.Declarations.{
  scope_declarations, own_declaration, scope_declarations-append, scope_declarations-set, AllInside,
  AllInside-append, AllInside-set, is_debug,
}
use ptx_frontend.Binding.Builder.Invariant.{HasInvariant, HasInvariant_lem}
use ptx_frontend.Binding.Table.Kept.{IsKept}
use ptx_frontend.Binding.Table.Declare.{add_symbol-IsFormed}
use ptx_frontend.Binding.Builder.Steps.{
  Step, Reaches, symbol, function_scope, block_scope, metadata_entry, occurrence, alias, start,
  step, new_table-IsFormed,
}
use ptx_frontend.Binding.Builder.Operations.{
  add_function_scope-IsFormed, add_block_scope-IsFormed, add_metadata_symbol-IsFormed,
  record_declaration_occurrence-IsFormed, link_alias-IsFormed,
}

-- A symbol that is not metadata, in its scope and in the others.
own_declare :
    (symbols : List Symbol) (s : NewSymbol) (id k : ℕ)
    → is_debug s.kind ≡ false
    → declare (scope_declarations symbols) s id k
      ≡ own_declaration (symbol_of s id) k ++ scope_declarations symbols k
own_declare symbols s id k plain = elim (Bool-cases (k == s.scope)) [
  | inl e ↦ rw (e, plain) refl
  | inr e ↦ rw e refl
]

module _ {t : SymbolTable} (formed : IsFormed t (scope_declarations t.symbols))
    (inside : AllInside t.symbols (length t.scopes)) where
  kept-HasInvariant :
      (s : NewSymbol) (t' : SymbolTable) (id : ℕ) (previous : Option ℕ)
      → s.scope < length t.scopes
      → is_debug s.kind ≡ false
      → t'.scopes ≡ t.scopes
      → IsKept t (scope_declarations t.symbols) s t' id previous
      → HasInvariant t'
  kept-HasInvariant s t' id none in_scope plain scopes (is, formed', symbols) =
      let grown = t.symbols ++ symbol_of s id ∷ [] in
      HasInvariant_lem t' formed'
        (λ k.
          own_declare t.symbols s id k plain
          ∙ sym (scope_declarations-append t.symbols (symbol_of s id) k)
          ∙ ap (λ l. scope_declarations l k) (sym symbols))
        (rw (symbols, scopes)
          (AllInside-append t.symbols (symbol_of s id) (length t.scopes) inside in_scope))
  kept-HasInvariant s t' id (some previous) in_scope plain scopes (is, formed', c, at, symbols) =
      let changed = record c { is_array = c.is_array || s.is_array } in
      HasInvariant_lem t' formed'
        (λ k.
          sym (scope_declarations-set t.symbols id c changed k at refl)
          ∙ ap (λ l. scope_declarations l k) (sym symbols))
        (rw (symbols, scopes)
          (AllInside-set t.symbols id c changed (length t.scopes) at refl inside))

module _ (format : Text → List Text → Text) where
  Step-HasInvariant :
      {b b' : SymbolBinding} → Step format b b' → HasInvariant b.table → HasInvariant b'.table
  Step-HasInvariant {b} {b'} (symbol s id room plain e) (formed, inside) =
      let added = add_symbol-IsFormed format b (scope_declarations b.table.symbols) s formed room in
      let runs : some (added.after, added.id) ≡ some (b', id) = sym added.runs ∙ e in
      let same : added.after ≡ b' = cc runs in
      subst (λ (x : SymbolBinding). HasInvariant x.table) same
        (kept-HasInvariant formed inside s added.after.table added.id _
          (omega (arith, formed.aligned, room.in_scope)) plain added.scopes added.kept)
  Step-HasInvariant {b} (function_scope t' owner range prefer id e is) (formed, inside) =
      rw is (add_function_scope-IsFormed formed inside t' owner range prefer id e)
  Step-HasInvariant {b} (block_scope parent range below is) (formed, inside) =
      rw is (add_block_scope-IsFormed formed inside parent range below)
  Step-HasInvariant {b} {b'} (metadata_entry kind name range idempotent id debug e)
        (formed, inside) =
      add_metadata_symbol-IsFormed formed inside format b.diagnostics b' kind name range idempotent
        id debug e
  Step-HasInvariant {b} (occurrence orders t' id range variable_range e is) (formed, inside) =
      rw is
        (record_declaration_occurrence-IsFormed formed inside orders t' id range variable_range e)
  Step-HasInvariant {b} (alias t' alias_symbol target e is) (formed, inside) =
      rw is (link_alias-IsFormed formed inside t' alias_symbol target e)

  -- In every table that a builder reaches from its constructor, the indexes of each scope hold exactly the
  -- symbols of the table that stand in the scope and are not metadata of the debug sections, each symbol
  -- stands in one of the scopes, and the parent of a scope has a smaller id.
  pub Reaches-HasInvariant : (b : SymbolBinding) → Reaches format b → HasInvariant b.table
  Reaches-HasInvariant b start =
      HasInvariant_lem new_table new_table-IsFormed (λ k. refl) (λ i x at. absurd (none≢some at))
  Reaches-HasInvariant b (step {b = earlier} r s) =
      Step-HasInvariant s (Reaches-HasInvariant earlier r)
