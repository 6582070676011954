-- ===== src/Binding/Builder/Operations.antt =====
-- The builder's operations on scopes, metadata, occurrences and aliases, for the invariant.
use ptx_frontend.Common.{
  ℕ, ◌%◌, ◌^◌, ◌≡◌, ◌<◌, refl, sym, ap, ◌∙◌, subst, inl, inr, Bool, not, ◌||◌, Option, none, some,
  List, [], ◌∷◌, ◌++◌, Text, arith, none≢some, Bool-cases, Option-cases, ◌==◌, length,
  length-append, get_elem?, set, is_some, true,
}
use ptx_frontend.Binding.Symbols
use ptx_frontend.Syntax.{SourceRange}
use ptx_frontend.Binding.Symbols.{
  Symbol, Scope, SymbolKind, SymbolDeclarationOccurrence, BindDiagnostic,
}
use ptx_frontend.Binding.Table.{SymbolTable, SymbolBinding}
use ptx_frontend.Binding.Table.Formed.{IsFormed, IsDeclared-append}
use ptx_frontend.Binding.Table.Add.{names_size-append}
use ptx_frontend.Binding.Table.Declarations.{
  scope_declarations, own_declaration, scope_declarations-append, AllInside, AllInside-append,
  is_debug,
}
use ptx_frontend.Binding.Builder.Invariant.{
  HasInvariant, HasInvariant_lem, HasInvariant-set, HasInvariant-push_scope,
}
use ptx_frontend.Binding.Builder.{
  push_scope, add_function_scope, add_block_scope, metadata_symbol, report_metadata,
  add_metadata_symbol, find_metadata_symbol, record_declaration_occurrence, link_alias, kind_code,
  find_order, metadata_duplicate,
}
use ptx_frontend.Binding.Builder.Steps.{IsFormed-symbols}

abbrev new_occurrence :
    ℕ → SourceRange → Option ℕ → Option SourceRange → SymbolDeclarationOccurrence
new_occurrence id range order variable_range = record {
  symbol = id;
  range = range;
  lexical_order = order;
  variable_declaration_range = variable_range;
}

report_metadata_table :
    (format : Text → List Text → Text) (b : SymbolBinding) (name : Text) (range : SourceRange)
    (previous : ℕ) (b' : SymbolBinding)
    → report_metadata format b name range previous ≡ some b'
    → b.table ≡ b'.table
unfolding report_metadata
report_metadata_table format b name range previous b' e =
    elim (Option-cases (get_elem? b.table.symbols previous)) [
      | inl f ↦ let run : none ≡ some b' = rw (report_metadata, f) at e in absurd (none≢some run)
      | inr (c, f) ↦
          let after : SymbolBinding = record b {
            diagnostics = b.diagnostics ++ metadata_duplicate format name range c ∷ [];
          } in
          let run : some after ≡ some b' = rw (report_metadata, f) at e in
          let same : after ≡ b' = cc run in ap (λ (x : SymbolBinding). x.table) same
    ]

abbrev owned_scope_of : ℕ → ℕ → SourceRange → Scope
owned_scope_of id owner range = record {
  id = id;
  kind = Symbols.ScopeKind.function_scope;
  parent = some 0;
  owner = some owner;
  range = some range;
}

module _ {t : SymbolTable} (formed : IsFormed t (scope_declarations t.symbols))
    (inside : AllInside t.symbols (length t.scopes)) where
  pub add_function_scope-IsFormed :
      (t' : SymbolTable) (owner : ℕ) (range : SourceRange) (prefer : Bool) (id : ℕ)
      → add_function_scope t owner range prefer ≡ some (t', id)
      → HasInvariant t'
  unfolding add_function_scope
  add_function_scope-IsFormed t' owner range prefer id e =
      elim (Option-cases (get_elem? t.symbols owner)) [
        | inl f ↦ absurd (none≢some (rw (add_function_scope, f) at e))
        | inr (c, f) ↦
            let scope_id = length t.scopes % 2 ^ 32 in
            let pushed = push_scope t (owned_scope_of scope_id owner range) in
            let (formed', inside') =
              HasInvariant-push_scope formed inside (owned_scope_of scope_id owner range) 0 refl
                formed.some_scope in
            elim (Bool-cases (not (is_some c.owned_scope) || prefer)) [
              | inl g ↦
                  let owned = record c { owned_scope = some scope_id } in
                  let run : some (record pushed { symbols = set t.symbols owner owned }, scope_id)
                      ≡ some (t', id) =
                    rw (add_function_scope, f, g) at e in
                  let same : record pushed { symbols = set t.symbols owner owned } ≡ t' = cc run in
                  subst HasInvariant same
                    (HasInvariant-set formed' inside' owner c owned f refl refl refl refl refl)
              | inr g ↦
                  let run : some (record pushed { symbols = set t.symbols owner c }, scope_id)
                      ≡ some (t', id) =
                    rw (add_function_scope, f, g) at e in
                  let same : record pushed { symbols = set t.symbols owner c } ≡ t' = cc run in
                  subst HasInvariant same
                    (HasInvariant-set formed' inside' owner c c f refl refl refl refl refl)
            ]
      ]

  pub add_block_scope-IsFormed :
      (parent : ℕ) (range : SourceRange)
      → parent < length t.scopes
      → HasInvariant (add_block_scope t parent range).0
  unfolding add_block_scope
  add_block_scope-IsFormed parent range below =
      HasInvariant-push_scope formed inside _ parent refl below

  unindexed :
      (k : ℕ) (x : Symbol)
      → is_debug x.kind ≡ true
      → own_declaration x k ++ scope_declarations t.symbols k ≡ scope_declarations t.symbols k
  unindexed k x debug = elim (Bool-cases (k == x.scope)) [
    | inl e ↦ rw (e, debug) refl
    | inr e ↦ rw e refl
  ]

  pub add_metadata_symbol-IsFormed :
      (format : Text → List Text → Text) (diagnostics : List BindDiagnostic) (b' : SymbolBinding)
      (kind : SymbolKind) (name : Text) (range : SourceRange) (idempotent : Bool) (id : ℕ)
      → is_debug kind ≡ true
      → add_metadata_symbol format
          (record { table = t; diagnostics = diagnostics })
          kind
          name
          range
          idempotent
        ≡ some (b', id)
      → HasInvariant b'.table
  unfolding add_metadata_symbol
  add_metadata_symbol-IsFormed format diagnostics b' kind name range idempotent id debug e =
      let b : SymbolBinding = record { table = t; diagnostics = diagnostics } in
      elim (Option-cases (find_metadata_symbol t.symbols kind name)) [
        | inl f ↦
            let new_id = length t.symbols % 2 ^ 32 in
            let new = metadata_symbol kind name range new_id in
            let symbols = t.symbols ++ new ∷ [] in
            let occurrences = t.declaration_occurrences ++ [] ∷ [] in
            let after : SymbolBinding = record {
              table = record t { symbols = symbols; declaration_occurrences = occurrences };
              diagnostics = diagnostics;
            } in
            let run : some (after, new_id) ≡ some (b', id) = rw (add_metadata_symbol, f) at e in
            let same : after ≡ b' = cc run in
            subst (λ (x : SymbolBinding). HasInvariant x.table) same
              (HasInvariant_lem after.table
                (IsFormed-symbols formed symbols occurrences
                  (IsDeclared-append t.symbols (new ∷ []))
                  (omega (arith, length-append t.symbols (new ∷ [])))
                  (omega (arith, names_size-append t.symbols (new ∷ []))))
                (λ k. sym (scope_declarations-append t.symbols new k ∙ unindexed k new debug))
                (AllInside-append t.symbols new (length t.scopes) inside formed.some_scope))
        | inr (previous, f) ↦ elim (Bool-cases idempotent) [
          | inl g ↦
              let run : some (b, previous) ≡ some (b', id) = rw (add_metadata_symbol, f, g) at e in
              let same : b ≡ b' = cc run in
              subst (λ (x : SymbolBinding). HasInvariant x.table) same (formed, inside)
          | inr g ↦ elim (Option-cases (report_metadata format b name range previous)) [
            | inl h ↦
                let run : none ≡ some (b', id) = rw (add_metadata_symbol, f, g, h) at e in
                absurd (none≢some run)
            | inr (reported, h) ↦
                let run : some (reported, previous) ≡ some (b', id) =
                  rw (add_metadata_symbol, f, g, h) at e in
                let same : reported ≡ b' = cc run in
                let kept = report_metadata_table format b name range previous reported h in
                subst (λ (x : SymbolBinding). HasInvariant x.table) same
                  (subst HasInvariant kept (formed, inside))
          ]
        ]
      ]

  pub link_alias-IsFormed :
      (t' : SymbolTable) (alias_symbol target : ℕ)
      → link_alias t alias_symbol target ≡ some t'
      → HasInvariant t'
  unfolding link_alias
  link_alias-IsFormed t' alias_symbol target e =
      elim (Option-cases (get_elem? t.symbols alias_symbol)) [
        | inl f ↦ let run : none ≡ some t' = rw (link_alias, f) at e in absurd (none≢some run)
        | inr (c, f) ↦
            let new = record c { canonical_function = some target } in
            let linked = record t { symbols = set t.symbols alias_symbol new } in
            elim (Bool-cases (kind_code c.kind == 4)) [
              | inl g ↦
                  let run : some linked ≡ some t' = rw (link_alias, f, g) at e in
                  let same : linked ≡ t' = cc run in
                  subst HasInvariant same
                    (HasInvariant-set formed inside alias_symbol c new f refl refl refl refl refl)
              | inr g ↦
                  let run : some t ≡ some t' = rw (link_alias, f, g) at e in
                  let same : t ≡ t' = cc run in subst HasInvariant same (formed, inside)
            ]
      ]

  pub record_declaration_occurrence-IsFormed :
      (orders : List (SourceRange × ℕ)) (t' : SymbolTable) (id : ℕ) (range : SourceRange)
      (variable_range : Option SourceRange)
      → record_declaration_occurrence orders t id range variable_range ≡ some t'
      → HasInvariant t'
  unfolding record_declaration_occurrence
  record_declaration_occurrence-IsFormed orders t' id range variable_range e =
      elim (Option-cases (get_elem? t.declaration_occurrences id)) [
        | inl f ↦
            let run : none ≡ some t' = rw (record_declaration_occurrence, f) at e in
            absurd (none≢some run)
        | inr (occurrences, f) ↦
            let occurrence = new_occurrence id range (find_order range orders) variable_range in
            let all = set t.declaration_occurrences id (occurrences ++ occurrence ∷ []) in
            let run : some (record t { declaration_occurrences = all }) ≡ some t' =
              rw (record_declaration_occurrence, f) at e in
            let same : record t { declaration_occurrences = all } ≡ t' = cc run in
            subst HasInvariant same
              (IsFormed-symbols formed t.symbols all (λ d h. h) (omega arith) (omega arith), inside)
      ]
