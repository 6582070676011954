-- ===== src/Binding/Builder/Steps.antt =====
-- The builder's steps: every table that they reach has the invariant.
use ptx_frontend.Common.{
  ℕ, zero, suc, ◌≡◌, ◌<◌, ◌≤◌, refl, sym, ap, ◌∙◌, subst, inl, inr, Bool, true, false, Option, none,
  some, List, [], ◌∷◌, Text, arith, none≢some, Bool-cases, ◌==◌, if◌then◌else◌, length,
  length-append, get_elem?, get_elem?-snoc,
}
use ptx_frontend.Syntax.{SourceRange}
use ptx_frontend.Binding.Symbols.{Symbol, Scope, SymbolKind, SymbolDeclarationOccurrence}
use ptx_frontend.Binding.Scopes.{ScopeNameIndex, new_scope}
use ptx_frontend.Binding.Scopes.Held.{Declared, Holds, new_scope-Holds, name_size}
use ptx_frontend.Binding.Scopes.Overlapping.{IsDeclared, AllDeclared}
use ptx_frontend.Binding.Table.{SymbolTable, SymbolBinding, NewSymbol, new_table, add_symbol}
use ptx_frontend.Binding.Table.Formed.{IsFormed, names_size, AllDeclared-mono}
use ptx_frontend.Binding.Table.Add.{HasRoom}
use ptx_frontend.Binding.Table.Declarations.{is_debug}
use ptx_frontend.Binding.Builder.{
  push_scope, add_function_scope, add_block_scope, add_metadata_symbol,
  record_declaration_occurrence, link_alias,
}

parent_of : Option Scope → Option ℕ
parent_of none = none
parent_of (some s) = s.parent

pub new_table-IsFormed : IsFormed new_table (λ k. [])
unfolding parent_of
new_table-IsFormed = record {
  some_scope = omega arith;
  aligned = refl;
  holds = λ k index e. only k index e;
  known = λ k. tt;
  few = λ k. omega arith;
  short = λ k. omega arith;
  outer = λ k scope p e q. root k scope p e q;
}
  where
    only :
        (k : ℕ) (index : ScopeNameIndex)
        → get_elem? new_table.scope_name_indexes k ≡ some index
        → Holds index []
    only zero index e =
        let same : new_scope ≡ index = cc e in subst (λ i. Holds i []) same new_scope-Holds
    only (suc k) index e = absurd (none≢some e)

    root :
        (k : ℕ) (scope : Scope) (p : ℕ)
        → get_elem? new_table.scopes k ≡ some scope
        → scope.parent ≡ some p
        → p < k
    root zero scope p e q = let same : none ≡ some p = ap parent_of e ∙ q in absurd (none≢some same)
    root (suc k) scope p e q = absurd (none≢some e)

module _ {t : SymbolTable} {declared : ℕ → List Declared} (formed : IsFormed t declared) where
  -- A new scope is without declarations.
  abbrev pub fresh_at : ℕ → List Declared
  fresh_at k = if k == length t.scopes then [] else declared k

  fresh_known : (k : ℕ) → AllDeclared t.symbols (fresh_at k)
  fresh_known k = elim (Bool-cases (k == length t.scopes)) [
    | inl e ↦ rw e tt
    | inr e ↦ rw e (formed.known k)
  ]

  fresh_sizes :
      (k : ℕ)
      → (length (fresh_at k) ≤ length t.symbols) × (name_size (fresh_at k) ≤ names_size t.symbols)
  fresh_sizes k = elim (Bool-cases (k == length t.scopes)) [
    | inl e ↦ rw e (omega arith, omega arith)
    | inr e ↦ rw e (formed.few k, formed.short k)
  ]

  pub IsFormed-push_scope :
      (scope : Scope) (p : ℕ)
      → scope.parent ≡ some p
      → p < length t.scopes
      → IsFormed (push_scope t scope) fresh_at
  IsFormed-push_scope scope p parent inside =
      let size = length-append t.scopes (scope ∷ []) in
      let size' = length-append t.scope_name_indexes (new_scope ∷ []) in
      let aligned = formed.aligned in
      record {
        some_scope = omega arith;
        aligned = omega arith;
        holds = λ k index e. elim (get_elem?-snoc t.scope_name_indexes new_scope k e) [
          | inl (last, is) ↦
              let here : (k == length t.scopes) ≡ true = ground arith in
              rw here (subst (λ i. Holds i []) (sym is) new_scope-Holds)
          | inr (before, old) ↦
              let other : (k == length t.scopes) ≡ false = ground arith in
              rw other (formed.holds k index old)
        ];
        known = fresh_known;
        few = λ k. (fresh_sizes k).0;
        short = λ k. (fresh_sizes k).1;
        outer = λ k s q e out. elim (get_elem?-snoc t.scopes scope k e) [
          | inl (last, is) ↦
              let same : some p ≡ some q = cc (parent, is, out) in
              let same' : p ≡ q = cc same in omega arith
          | inr (before, old) ↦ formed.outer k s q old out
        ];
      }

  -- Other symbols that keep the declarations.
  pub IsFormed-symbols :
      (symbols : List Symbol) (occurrences : List (List SymbolDeclarationOccurrence))
      → ((d : Declared) → IsDeclared t.symbols d → IsDeclared symbols d)
      → length t.symbols ≤ length symbols
      → names_size t.symbols ≤ names_size symbols
      → IsFormed (record t { symbols = symbols; declaration_occurrences = occurrences }) declared
  IsFormed-symbols symbols occurrences keep longer texts = record {
    some_scope = formed.some_scope;
    aligned = formed.aligned;
    holds = formed.holds;
    known = λ k. AllDeclared-mono (declared k) keep (formed.known k);
    few = λ k. omega (arith, formed.few k);
    short = λ k. omega (arith, formed.short k);
    outer = formed.outer;
  }

-- The steps of the builder that change the table. The kinds of the debug sections are those of
-- `addMetadataSymbol`, the others those of `addSymbol`, as in the calls of the two.
pub data Step (format : Text → List Text → Text) (b : SymbolBinding) (b' : SymbolBinding)
    : Type 0 where
  symbol :
      (s : NewSymbol) (id : ℕ)
      → HasRoom b.table s
      → is_debug s.kind ≡ false
      → add_symbol format b s ≡ some (b', id)
      → Step format b b'
  function_scope :
      (t' : SymbolTable) (owner : ℕ) (range : SourceRange) (prefer : Bool) (id : ℕ)
      → add_function_scope b.table owner range prefer ≡ some (t', id)
      → b' ≡ record b { table = t' }
      → Step format b b'
  block_scope :
      (parent : ℕ) (range : SourceRange)
      → parent < length b.table.scopes
      → b' ≡ record b { table = (add_block_scope b.table parent range).0 }
      → Step format b b'
  metadata_entry :
      (kind : SymbolKind) (name : Text) (range : SourceRange) (idempotent : Bool) (id : ℕ)
      → is_debug kind ≡ true
      → add_metadata_symbol format b kind name range idempotent ≡ some (b', id)
      → Step format b b'
  occurrence :
      (orders : List (SourceRange × ℕ)) (t' : SymbolTable) (id : ℕ) (range : SourceRange)
      (variable_range : Option SourceRange)
      → record_declaration_occurrence orders b.table id range variable_range ≡ some t'
      → b' ≡ record b { table = t' }
      → Step format b b'
  alias :
      (t' : SymbolTable) (alias_symbol target : ℕ)
      → link_alias b.table alias_symbol target ≡ some t'
      → b' ≡ record b { table = t' }
      → Step format b b'

-- The states of a builder, from its constructor on.
pub data Reaches (format : Text → List Text → Text) : SymbolBinding → Type 0 where
  start : Reaches format (record { table = new_table; diagnostics = [] })
  step : {b b' : SymbolBinding} → Reaches format b → Step format b b' → Reaches format b'
