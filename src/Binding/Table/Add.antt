-- ===== src/Binding/Table/Add.antt =====
-- A new symbol keeps the invariant of the symbol table.
use ptx_frontend.Common.{
  ℕ, ◌+◌, ◌*◌, ◌%◌, ◌^◌, ◌≡◌, ◌<◌, ◌≤◌, refl, ap, ◌∙◌, inl, inr, false, none, some, List, [], ◌∷◌,
  ◌++◌, Text, arith, Bool-cases, ◌==◌, ==_refl, if◌then◌else◌, length, length-append, length-set,
  get_elem?, set, get_elem?-append_end, get_elem?-set,
}
use ptx_frontend.Binding.Names.Overlap.{Fits}
use ptx_frontend.Binding.Symbols.{Symbol, BindDiagnostic}
use ptx_frontend.Binding.Scopes.{ScopeNameIndex, exact_symbol}
use ptx_frontend.Binding.Scopes.Held.{Declared, name_size}
use ptx_frontend.Binding.Scopes.Add.{index_symbol-Holds}
use ptx_frontend.Binding.Scopes.Overlapping.{IsDeclared, AllDeclared}
use ptx_frontend.Binding.Table.{SymbolTable, NewSymbol, symbol_of, append_as, append_symbol}
use ptx_frontend.Binding.Table.Formed.{IsFormed, names_size, AllDeclared-mono, IsDeclared-append}

-- The table has the scope of a new symbol, and room for it.
pub record HasRoom (t : SymbolTable) (s : NewSymbol) : Type 0 where
  pub in_scope : s.scope < length t.scope_name_indexes
  pub some_name : 1 ≤ length s.name
  pub fits : Fits s.parameterized_count
  pub ids : 32 * length t.symbols + 33 < 2 ^ 32
  pub texts : names_size t.symbols + length s.name + 1 < 2 ^ 32

pub names_size-append :
    (symbols more : List Symbol)
    → names_size (symbols ++ more) ≡ names_size symbols + names_size more
names_size-append [] more = omega arith
names_size-append (s ∷ symbols) more = omega (arith, names_size-append symbols more)

abbrev pub declare : (ℕ → List Declared) → NewSymbol → ℕ → ℕ → List Declared
declare declared s id k =
    if k == s.scope
    then record { id = id; name = s.name; count = s.parameterized_count } ∷ declared k
    else declared k

module _ (format : Text → List Text → Text) (t : SymbolTable) (declared : ℕ → List Declared)
    (formed : IsFormed t declared) (s : NewSymbol) (room : HasRoom t s) where
  abbrev pub new_id : ℕ
  new_id = length t.symbols

  abbrev pub with_new : List Symbol
  with_new = t.symbols ++ symbol_of s (length t.symbols) ∷ []

  new-IsDeclared :
      IsDeclared with_new (record { id = new_id; name = s.name; count = s.parameterized_count })
  new-IsDeclared = record {
    symbol = symbol_of s (length t.symbols);
    at = get_elem?-append_end t.symbols (symbol_of s (length t.symbols));
    id = refl;
    name = refl;
    count = refl;
    some_name = room.some_name;
  }

  known_after : (k : ℕ) → AllDeclared with_new (declare declared s new_id k)
  known_after k =
      let kept =
        AllDeclared-mono (declared k)
          (IsDeclared-append t.symbols (symbol_of s (length t.symbols) ∷ [])) (formed.known k) in
      elim (Bool-cases (k == s.scope)) [ inl e ↦ rw e (new-IsDeclared, kept) | inr e ↦ rw e kept ]

  sizes_after :
      (k : ℕ)
      → (length (declare declared s new_id k) ≤ length with_new)
        × (name_size (declare declared s new_id k) ≤ names_size with_new)
  sizes_after k =
      let new = symbol_of s (length t.symbols) ∷ [] in
      let size = length-append t.symbols new in
      let texts : names_size with_new ≡ names_size t.symbols + (length s.name + 0) =
        names_size-append t.symbols new in
      let few = formed.few k in
      let short = formed.short k in
      elim (Bool-cases (k == s.scope)) [
        | inl e ↦ rw e (omega arith, omega arith)
        | inr e ↦ rw e (omega arith, omega arith)
      ]

  pub append_symbol_lem :
      (index : ScopeNameIndex) (diagnostics : List BindDiagnostic)
      → get_elem? t.scope_name_indexes s.scope ≡ some index
      → exact_symbol index s.name s.parameterized_count ≡ none
      → (t' : SymbolTable) × (append_symbol format t index s diagnostics
          ≡ some (record { table = t'; diagnostics = diagnostics }, new_id))
        × IsFormed t' (declare declared s new_id)
        × (t'.symbols ≡ with_new)
        × (t'.scopes ≡ t.scopes)
  unfolding append_symbol append_as
  append_symbol_lem index diagnostics at new =
      let few = formed.few s.scope in
      let short = formed.short s.scope in
      let room_ids = room.ids in
      let room_texts = room.texts in
      let fits : length t.symbols % 2 ^ 32 ≡ length t.symbols = omega arith in
      let (grown, run, held) =
        index_symbol-Holds index (declared s.scope) s.name s.parameterized_count new_id
          (formed.holds s.scope index at) room.some_name (omega arith) (omega arith) new in
      let indexes = set t.scope_name_indexes s.scope grown in
      let t' = record t {
        symbols = with_new;
        declaration_occurrences = t.declaration_occurrences ++ [] ∷ [];
        scope_name_indexes = indexes;
      } in
      let appended : append_as format t index s diagnostics new_id
          ≡ some (record { table = t'; diagnostics = diagnostics }, new_id) =
        rw (append_as, run) refl in
      (
        t',
        ap (λ id. append_as format t index s diagnostics id) fits ∙ appended,
        record {
          some_scope = formed.some_scope;
          aligned = length-set t.scope_name_indexes s.scope grown ∙ formed.aligned;
          holds = λ k index' e. elim (get_elem?-set t.scope_name_indexes s.scope grown k e) [
            | inl (here, is) ↦ rw (is, here, ==_refl s.scope) held
            | inr (apart, old) ↦
                let other : (k == s.scope) ≡ false = ground arith in
                rw other (formed.holds k index' old)
          ];
          known = known_after;
          few = λ k. (sizes_after k).0;
          short = λ k. (sizes_after k).1;
          outer = formed.outer;
        },
        refl,
        refl,
      )
