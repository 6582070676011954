-- ===== src/Binding/Builder/Recorded.antt =====
-- recordDeclarationOccurrence: the occurrences of a table have the orders of their ranges.
use ptx_frontend.Common.{
  ℕ, ◌≡◌, refl, sym, ap, ◌∙◌, subst, inl, inr, Option, none, some, List, [], ◌∷◌, ◌++◌, none≢some,
  Option-cases, get_elem?, set, get_elem?-set,
}
use ptx_frontend.Syntax.{SourceRange}
use ptx_frontend.Binding.Symbols.{SymbolDeclarationOccurrence}
use ptx_frontend.Binding.Table.{SymbolTable}
use ptx_frontend.Binding.Builder.{find_order, record_declaration_occurrence}

-- The order of each occurrence is that of its range, as `record_declaration_occurrence` writes it.
abbrev pub AllOrdered : List (SourceRange × ℕ) → List SymbolDeclarationOccurrence → Type 0
AllOrdered orders [] = Unit
AllOrdered orders (o ∷ os) = (o.lexical_order ≡ find_order o.range orders) × AllOrdered orders os

AllOrdered-append :
    (orders : List (SourceRange × ℕ)) (os : List SymbolDeclarationOccurrence)
    (o : SymbolDeclarationOccurrence)
    → o.lexical_order ≡ find_order o.range orders
    → AllOrdered orders os
    → AllOrdered orders (os ++ o ∷ [])
AllOrdered-append orders [] o e h = (e, tt)
AllOrdered-append orders (x ∷ os) o e h = (h.0, AllOrdered-append orders os o e h.1)

-- A table whose recorded occurrences all have the orders of their ranges.
abbrev pub HasOrders : List (SourceRange × ℕ) → SymbolTable → Type 0
HasOrders orders t =
    (k : ℕ) (os : List SymbolDeclarationOccurrence)
    → get_elem? t.declaration_occurrences k ≡ some os
    → AllOrdered orders os

kept : Option SymbolTable → List (List SymbolDeclarationOccurrence)
kept none = []
kept (some t) = t.declaration_occurrences

pub record_declaration_occurrence-HasOrders :
    (orders : List (SourceRange × ℕ)) (t t' : SymbolTable) (symbol : ℕ) (range : SourceRange)
    (variable_range : Option SourceRange)
    → record_declaration_occurrence orders t symbol range variable_range ≡ some t'
    → HasOrders orders t
    → HasOrders orders t'
unfolding record_declaration_occurrence kept
record_declaration_occurrence-HasOrders orders t t' symbol range variable_range run has k os at =
    elim (Option-cases (get_elem? t.declaration_occurrences symbol)) [
      | inl e ↦
          let failed : record_declaration_occurrence orders t symbol range variable_range ≡ none =
            rw (record_declaration_occurrence, e) refl in
          absurd (none≢some (sym failed ∙ run))
      | inr (before, e) ↦
          let o : SymbolDeclarationOccurrence = record {
            symbol = symbol;
            range = range;
            lexical_order = find_order range orders;
            variable_declaration_range = variable_range;
          } in
          let done : kept (record_declaration_occurrence orders t symbol range variable_range)
              ≡ set t.declaration_occurrences symbol (before ++ o ∷ []) =
            rw (record_declaration_occurrence, e) refl in
          let now_held : set t.declaration_occurrences symbol (before ++ o ∷ [])
              ≡ t'.declaration_occurrences =
            sym done ∙ ap kept run in
          elim (get_elem?-set t.declaration_occurrences symbol (before ++ o ∷ []) k
            (subst (λ l. get_elem? l k ≡ some os) (sym now_held) at)) [
              | inl (here, is) ↦
                  subst (AllOrdered orders) (sym is)
                    (AllOrdered-append orders before o refl (has symbol before e))
              | inr (other, old) ↦ has k os old
            ]
    ]
