-- ===== src/Binding/Table/Formed.antt =====
-- The invariant of the symbol table: the indexes of each scope hold the declarations of that scope.
use ptx_frontend.Common.{
  ℕ, ◌+◌, ◌≡◌, ◌≢◌, ◌<◌, ◌≤◌, refl, sym, ap, ◌∙◌, subst, inl, inr, Bool, true, false, Option, none,
  some, List, [], ◌∷◌, ◌++◌, Text, arith, none≢some, Bool-cases, ◌==◌, length, get_elem?, set,
  get_elem?-append, get_elem?-set_self, get_elem?-set_ne, get_elem?-lt, is_some, same_text,
  same_text_sound,
}
use ptx_frontend.Binding.Names.{symbol_name_sets_overlap}
use ptx_frontend.Binding.Symbols.{Symbol, Scope}
use ptx_frontend.Binding.Index.Prefix.Query.{kept_one}
use ptx_frontend.Binding.Scopes.{ScopeNameIndex, TextMap, find, exact_symbol}
use ptx_frontend.Binding.Scopes.Held.{
  Declared, Holds, group_names, ordinary_names, add_group, add_ordinary, name_size,
}
use ptx_frontend.Binding.Scopes.Overlapping.{IsDeclared, AllDeclared, earliest_overlap}
use ptx_frontend.Binding.Table.{SymbolTable}

abbrev pub names_size : List Symbol → ℕ
names_size [] = 0
names_size (s ∷ symbols) = length s.name + names_size symbols

-- `declared` gives the declarations of each scope, the newest first.
pub record IsFormed (t : SymbolTable) (declared : ℕ → List Declared) : Type 0 where
  pub some_scope : 0 < length t.scopes
  pub aligned : length t.scope_name_indexes ≡ length t.scopes
  pub holds :
      (k : ℕ) (index : ScopeNameIndex)
      → get_elem? t.scope_name_indexes k ≡ some index
      → Holds index (declared k)
  pub known : (k : ℕ) → AllDeclared t.symbols (declared k)
  pub few : (k : ℕ) → length (declared k) ≤ length t.symbols
  pub short : (k : ℕ) → name_size (declared k) ≤ names_size t.symbols
  pub outer :
      (k : ℕ) (scope : Scope) (p : ℕ)
      → get_elem? t.scopes k ≡ some scope
      → scope.parent ≡ some p
      → p < k

pub AllDeclared-mono :
    {symbols symbols' : List Symbol} (ds : List Declared)
    → ((d : Declared) → IsDeclared symbols d → IsDeclared symbols' d)
    → AllDeclared symbols ds
    → AllDeclared symbols' ds
AllDeclared-mono [] keep h = tt
AllDeclared-mono (d ∷ ds) keep (k, h) = (keep d k, AllDeclared-mono ds keep h)

pub IsDeclared-append :
    (symbols more : List Symbol) (d : Declared)
    → IsDeclared symbols d
    → IsDeclared (symbols ++ more) d
IsDeclared-append symbols more d h = record {
  symbol = h.symbol;
  at = get_elem?-append symbols more d.id h.at;
  id = h.id;
  name = h.name;
  count = h.count;
  some_name = h.some_name;
}

-- A change of a symbol that leaves its id, name and count.
pub IsDeclared-set :
    (symbols : List Symbol) (i : ℕ) (old new : Symbol) (d : Declared)
    → get_elem? symbols i ≡ some old
    → new.id ≡ old.id
    → new.name ≡ old.name
    → new.parameterized_count ≡ old.parameterized_count
    → IsDeclared symbols d
    → IsDeclared (set symbols i new) d
IsDeclared-set symbols i old new d at ids names counts h = elim (Bool-cases (i == d.id)) [
  | inl e ↦
      let here : i ≡ d.id = ground arith in
      let found : some old ≡ some h.symbol = cc (at, h.at, here) in
      let same : old ≡ h.symbol = cc found in
      let placed = get_elem?-set_self symbols i new (get_elem?-lt symbols i at) in
      record {
        symbol = new;
        at = subst (λ k. get_elem? (set symbols i new) k ≡ some new) here placed;
        id = ids ∙ ap (λ (s : Symbol). s.id) same ∙ h.id;
        name = names ∙ ap (λ (s : Symbol). s.name) same ∙ h.name;
        count = counts ∙ ap (λ (s : Symbol). s.parameterized_count) same ∙ h.count;
        some_name = h.some_name;
      }
  | inr e ↦
      let apart : i ≢ d.id = ground arith in
      record {
        symbol = h.symbol;
        at = get_elem?-set_ne symbols new apart ∙ h.at;
        id = h.id;
        name = h.name;
        count = h.count;
        some_name = h.some_name;
      }
]

module _ (symbols : List Symbol) where
  -- A symbol of the table with a name, in the form of a group or not.
  abbrev pub IsFound : Text → Bool → ℕ → Type 0
  IsFound name grouped id =
      (c : Symbol) × (get_elem? symbols id ≡ some c)
      × (c.name ≡ name)
      × (is_some c.parameterized_count ≡ grouped)

  IsFound-or_later :
      (name old : Text) (k : Option ℕ) (id id' : ℕ) (grouped : Bool) (names : TextMap ℕ)
      → IsDeclared symbols (record { id = id'; name = old; count = k })
      → is_some k ≡ grouped
      → (find name names ≡ some id → IsFound name grouped id)
      → find name ((old, id') ∷ names) ≡ some id
      → IsFound name grouped id
  IsFound-or_later name old k id id' grouped names d form later e =
      elim (Bool-cases (same_text name old)) [
        | inl t ↦
            let is : some id' ≡ some id = rw t at e in
            let same : id' ≡ id = cc is in
            let key = same_text_sound name old t in
            (
              d.symbol,
              subst (λ i. get_elem? symbols i ≡ some d.symbol) same d.at,
              d.name ∙ sym key,
              ap is_some d.count ∙ form,
            )
        | inr t ↦ later (rw t at e)
      ]

  ordinary_step :
      (name old : Text) (k : Option ℕ) (id id' : ℕ) (names : TextMap ℕ)
      → IsDeclared symbols (record { id = id'; name = old; count = k })
      → (find name names ≡ some id → IsFound name false id)
      → find name (add_ordinary k old id' names) ≡ some id
      → IsFound name false id
  ordinary_step name old none id id' names d later e =
      IsFound-or_later name old none id id' false names d refl later e
  ordinary_step name old (some n) id id' names d later e = later e

  group_step :
      (name old : Text) (k : Option ℕ) (id id' : ℕ) (names : TextMap ℕ)
      → IsDeclared symbols (record { id = id'; name = old; count = k })
      → (find name names ≡ some id → IsFound name true id)
      → find name (add_group k old id' names) ≡ some id
      → IsFound name true id
  group_step name old none id id' names d later e = later e
  group_step name old (some n) id id' names d later e =
      IsFound-or_later name old (some n) id id' true names d refl later e

  ordinary-IsFound :
      (name : Text) (ds : List Declared) (id : ℕ)
      → AllDeclared symbols ds
      → find name (ordinary_names ds) ≡ some id
      → IsFound name false id
  ordinary-IsFound name [] id h e = absurd (none≢some e)
  ordinary-IsFound name (d ∷ ds) id (k, h) e =
      ordinary_step name d.name d.count id d.id (ordinary_names ds) k
        (ordinary-IsFound name ds id h) e

  group-IsFound :
      (name : Text) (ds : List Declared) (id : ℕ)
      → AllDeclared symbols ds
      → find name (group_names ds) ≡ some id
      → IsFound name true id
  group-IsFound name [] id h e = absurd (none≢some e)
  group-IsFound name (d ∷ ds) id (k, h) e =
      group_step name d.name d.count id d.id (group_names ds) k (group-IsFound name ds id h) e

  pub exact_symbol-IsFound :
      (index : ScopeNameIndex) (ds : List Declared) (name : Text) (count : Option ℕ) (id : ℕ)
      → Holds index ds
      → AllDeclared symbols ds
      → exact_symbol index name count ≡ some id
      → IsFound name (is_some count) id
  unfolding exact_symbol
  exact_symbol-IsFound index ds name none id held known e =
      ordinary-IsFound name ds id known (subst (λ m. find name m ≡ some id) held.ordinary e)
  exact_symbol-IsFound index ds name (some n) id held known e =
      group-IsFound name ds id known (subst (λ m. find name m ≡ some id) held.groups e)

  -- The declaration that the search for an overlap finds.
  pub earliest_overlap_sound :
      (name : Text) (count : Option ℕ) (ds : List Declared) (o : ℕ)
      → AllDeclared symbols ds
      → earliest_overlap name count ds ≡ some o
      → (d : Declared) × IsDeclared symbols d
        × (d.id ≡ o)
        × (symbol_name_sets_overlap d.name d.count name count ≡ true)
  unfolding earliest_overlap
  earliest_overlap_sound name count [] o h e = absurd (none≢some e)
  earliest_overlap_sound name count (d ∷ ds) o (k, h) e =
      elim (Bool-cases (symbol_name_sets_overlap d.name d.count name count)) [
        | inl t ↦ elim (kept_one symbols (earliest_overlap name count ds) d.id) [
          | inl same ↦ earliest_overlap_sound name count ds o h (sym same ∙ rw t at e)
          | inr new ↦ let is : some d.id ≡ some o = sym new ∙ rw t at e in (d, k, cc is, t)
        ]
        | inr t ↦ earliest_overlap_sound name count ds o h (rw t at e)
      ]
