-- ===== src/Binding/Table/Kept.antt =====
-- `addSymbol` and the invariant: the table afterwards, and the case of a name that is declared already.
use ptx_frontend.Common.{
  ℕ, zero, suc, ◌+◌, ◌≡◌, refl, sym, ap, ◌∙◌, not, ◌||◌, Option, none, some, List, [], ◌∷◌, ◌++◌,
  Text, arith, if◌then◌else◌, length, length-set, get_elem?, set, get_elem?-set_self, get_elem?-lt,
  is_some,
}
use ptx_frontend.Binding.Symbols.{Symbol}
use ptx_frontend.Binding.Scopes.{ScopeNameIndex, find, exact_symbol}
use ptx_frontend.Binding.Scopes.Held.{Declared, Holds, ordinary_names, group_names}
use ptx_frontend.Binding.Table.{
  SymbolTable, SymbolBinding, NewSymbol, symbol_of, duplicate, duplicate_message, redeclare,
}
use ptx_frontend.Binding.Table.Formed.{
  IsFormed, IsFound, names_size, AllDeclared-mono, IsDeclared-set, exact_symbol-IsFound,
}
use ptx_frontend.Binding.Table.Add.{declare}

-- The declaration of the name in the same form, a group or not: the last one.
abbrev pub declared_as : Text → Option ℕ → List Declared → Option ℕ
declared_as name none ds = find name (ordinary_names ds)
declared_as name (some count) ds = find name (group_names ds)

-- The table after a symbol that the scope declares already, or not.
abbrev pub IsKept :
    SymbolTable → (ℕ → List Declared) → NewSymbol → SymbolTable → ℕ → Option ℕ → Type 0
IsKept t declared s t' id none =
    (id ≡ length t.symbols)
    × IsFormed t' (declare declared s id)
    × (t'.symbols ≡ t.symbols ++ symbol_of s id ∷ [])
IsKept t declared s t' id (some previous) =
    (id ≡ previous)
    × IsFormed t' declared
    × (c : Symbol) × (get_elem? t.symbols id ≡ some c)
    × (t'.symbols ≡ set t.symbols id (record c { is_array = c.is_array || s.is_array }))

pub record IsAdded (t : SymbolTable) (declared : ℕ → List Declared) (s : NewSymbol)
    (o : Option (SymbolBinding × ℕ)) : Type 0 where
  pub after : SymbolBinding
  pub id : ℕ
  pub runs : o ≡ some (after, id)
  pub scopes : after.table.scopes ≡ t.scopes
  pub kept :
      IsKept t declared s after.table id
        (declared_as s.name s.parameterized_count (declared s.scope))
  pub found : IsFound after.table.symbols s.name (is_some s.parameterized_count) id

pub exact_symbol-declared_as :
    (index : ScopeNameIndex) (ds : List Declared) (name : Text) (count : Option ℕ)
    → Holds index ds
    → exact_symbol index name count ≡ declared_as name count ds
unfolding exact_symbol
exact_symbol-declared_as index ds name none held = ap (find name) held.ordinary
exact_symbol-declared_as index ds name (some n) held = ap (find name) held.groups

pub names_size-set :
    (symbols : List Symbol) (i : ℕ) (old new : Symbol)
    → get_elem? symbols i ≡ some old
    → new.name ≡ old.name
    → names_size (set symbols i new) ≡ names_size symbols
names_size-set [] i old new at e = refl
names_size-set (x ∷ symbols) zero old new at e = let same : x ≡ old = cc at in rw (e, same) refl
names_size-set (x ∷ symbols) (suc i) old new at e =
    ap (λ n. length x.name + n) (names_size-set symbols i old new at e)

module _ (format : Text → List Text → Text) (b : SymbolBinding) (declared : ℕ → List Declared)
    (formed : IsFormed b.table declared) (s : NewSymbol) where
  module _ (index : ScopeNameIndex)
      (at : get_elem? b.table.scope_name_indexes s.scope ≡ some index) where
    pub redeclare_lem :
        (previous : ℕ)
        → exact_symbol index s.name s.parameterized_count ≡ some previous
        → IsAdded b.table declared s (redeclare format b s previous)
    unfolding redeclare
    redeclare_lem previous old =
        let symbols = b.table.symbols in
        let (c, at_c, name, form) =
          exact_symbol-IsFound symbols index (declared s.scope) s.name s.parameterized_count
            previous (formed.holds s.scope index at) (formed.known s.scope) old in
        let changed = record c { is_array = c.is_array || s.is_array } in
        let size = length-set symbols previous changed in
        let texts = names_size-set symbols previous c changed at_c refl in
        let inside = get_elem?-lt symbols previous at_c in
        let declares : declared_as s.name s.parameterized_count (declared s.scope) ≡ some previous =
          sym (
            exact_symbol-declared_as index (declared s.scope) s.name s.parameterized_count
              (formed.holds s.scope index at))
          ∙ old in
        let formed' : IsFormed (record b.table { symbols = set symbols previous changed })
            declared =
          record {
            some_scope = formed.some_scope;
            aligned = formed.aligned;
            holds = formed.holds;
            known = λ k.
                AllDeclared-mono (declared k)
                  (λ d. IsDeclared-set symbols previous c changed d at_c refl refl refl)
                  (formed.known k);
            few = λ k. omega (arith, formed.few k);
            short = λ k. omega (arith, formed.short k);
            outer = formed.outer;
          } in
        record {
          after = record {
            table = record b.table { symbols = set symbols previous changed };
            diagnostics =
                if not s.allow_redeclaration
                then b.diagnostics ++ duplicate format s c (duplicate_message format s) ∷ []
                else b.diagnostics;
          };
          id = previous;
          runs = rw (redeclare, at_c) refl;
          scopes = refl;
          kept = rw (declares) (refl, formed', c, at_c, refl);
          found = (changed, get_elem?-set_self symbols previous changed inside, name, form);
        }
