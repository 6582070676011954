-- ===== src/Binding/Lookup/Outwards.antt =====
-- The lookup ends at the latest in the scope without a parent, since a parent has a smaller id.
use ptx_frontend.Common.{
  ℕ, zero, suc, ◌≡◌, ◌<◌, refl, inl, inr, Option, none, some, List, Text, arith, Option-cases,
  length, get_elem?, get_elem?-in,
}
use ptx_frontend.Binding.Symbols.{Scope, SymbolLookup}
use ptx_frontend.Binding.Scopes.{ScopeNameIndex}
use ptx_frontend.Binding.Scopes.Held.{Declared}
use ptx_frontend.Binding.Table.{SymbolTable}
use ptx_frontend.Binding.Table.Formed.{IsFormed}
use ptx_frontend.Binding.Lookup.{lookup_local, lookup}
use ptx_frontend.Binding.Lookup.Local.{IsLocal, lookup_local_lem}

-- What a name stands for in a scope: in the nearest scope, from it outwards, where it stands for something.
pub data IsVisible (t : SymbolTable) (declared : ℕ → List Declared) (name : Text)
    : ℕ → Option SymbolLookup → Type 0 where
  here :
      (k : ℕ) (l : SymbolLookup)
      → IsLocal t.symbols (declared k) name (some l)
      → IsVisible t declared name k (some l)
  outside :
      (k p : ℕ) (scope : Scope) (r : Option SymbolLookup)
      → IsLocal t.symbols (declared k) name none
      → get_elem? t.scopes k ≡ some scope
      → scope.parent ≡ some p
      → IsVisible t declared name p r
      → IsVisible t declared name k r
  nowhere :
      (k : ℕ) (scope : Scope)
      → IsLocal t.symbols (declared k) name none
      → get_elem? t.scopes k ≡ some scope
      → scope.parent ≡ none
      → IsVisible t declared name k none

-- A round of the loop, from what it finds in the scope.
round_of :
    (t : SymbolTable) (declared : ℕ → List Declared) (fuel k : ℕ) (name : Text)
    (index : ScopeNameIndex) (scope : Scope) (r : Option SymbolLookup)
    → get_elem? t.scope_name_indexes k ≡ some index
    → get_elem? t.scopes k ≡ some scope
    → lookup_local index t.symbols name ≡ some r
    → IsLocal t.symbols (declared k) name r
    → ((p : ℕ)
        → scope.parent ≡ some p
        → (r' : Option SymbolLookup) × (lookup fuel t p name ≡ some r')
          × IsVisible t declared name p r')
    → (r' : Option SymbolLookup) × (lookup (suc fuel) t k name ≡ some r')
      × IsVisible t declared name k r'
unfolding lookup
round_of t declared fuel k name index scope (some l) at at_scope run is outer =
    (some l, rw (lookup, at, run) refl, here k l is)
round_of t declared fuel k name index scope none at at_scope run is outer =
    elim (Option-cases scope.parent) [
      | inl e ↦ (none, rw (lookup, at, run, at_scope, e) refl, nowhere k scope is at_scope e)
      | inr (p, e) ↦
          let (r, found, visible) = outer p e in
          (r, rw (lookup, at, run, at_scope, e) found, outside k p scope r is at_scope e visible)
    ]

-- In a table with the invariant the loop ends, without an access outside of a vector, after as many
-- rounds as the id of the scope and one more, and gives what the name stands for in the scope.
pub lookup_terminates :
    (t : SymbolTable) (declared : ℕ → List Declared) (fuel k : ℕ) (name : Text)
    → IsFormed t declared
    → k < length t.scopes
    → k < fuel
    → (r : Option SymbolLookup) × (lookup fuel t k name ≡ some r) × IsVisible t declared name k r
lookup_terminates t declared zero k name formed inside h = absurd (omega arith)
lookup_terminates t declared (suc fuel) k name formed inside h =
    let aligned = formed.aligned in
    let (index, at) = get_elem?-in t.scope_name_indexes k (omega arith) in
    let (scope, at_scope) = get_elem?-in t.scopes k inside in
    let (r, run, is) =
      lookup_local_lem t.symbols name index (declared k) (formed.holds k index at)
        (formed.known k) in
    round_of t declared fuel k name index scope r at at_scope run is (λ p e.
      let smaller = formed.outer k scope p at_scope e in
      lookup_terminates t declared fuel p name formed (omega arith) (omega arith))
