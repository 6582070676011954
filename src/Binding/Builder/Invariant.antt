-- ===== src/Binding/Builder/Invariant.antt =====
-- The invariant of the builder's table, for a changed symbol and a new scope.
use ptx_frontend.Common.{
  ℕ, ◌≡◌, ◌<◌, refl, sym, ap, ◌∙◌, subst, inl, inr, some, List, [], ◌∷◌, arith, Bool-cases, ◌==◌,
  length, length-append, length-set, get_elem?, set,
}
use ptx_frontend.Binding.Symbols.{Symbol, Scope}
use ptx_frontend.Binding.Scopes.Held.{Declared}
use ptx_frontend.Binding.Table.{SymbolTable}
use ptx_frontend.Binding.Table.Formed.{IsFormed, IsDeclared-set}
use ptx_frontend.Binding.Table.Declarations.{
  scope_declarations, own_declaration, scope_declarations-set, AllInside, AllInside-set,
  outside-empty,
}
use std.Path.{fun_ext}
use ptx_frontend.Binding.Table.Kept.{names_size-set}
use ptx_frontend.Binding.Builder.{push_scope}
use ptx_frontend.Binding.Builder.Steps.{fresh_at, IsFormed-push_scope, IsFormed-symbols}

-- The declarations that the indexes are to hold are those of the symbols in the table.
abbrev pub HasInvariant : SymbolTable → Type 0
HasInvariant t = IsFormed t (scope_declarations t.symbols) × AllInside t.symbols (length t.scopes)

pub HasInvariant_lem :
    (t : SymbolTable) {declared : ℕ → List Declared}
    → IsFormed t declared
    → ((k : ℕ) → declared k ≡ scope_declarations t.symbols k)
    → AllInside t.symbols (length t.scopes)
    → HasInvariant t
HasInvariant_lem t formed same inside = (subst (IsFormed t) (fun_ext same) formed, inside)

module _ {t : SymbolTable} {declared : ℕ → List Declared} (formed : IsFormed t declared) where
  -- A change of a symbol that leaves its id, name and count.
  IsFormed-set :
      (i : ℕ) (old new : Symbol)
      → get_elem? t.symbols i ≡ some old
      → new.id ≡ old.id
      → new.name ≡ old.name
      → new.parameterized_count ≡ old.parameterized_count
      → IsFormed (record t { symbols = set t.symbols i new }) declared
  IsFormed-set i old new at ids names counts =
      IsFormed-symbols formed (set t.symbols i new) t.declaration_occurrences
        (λ d. IsDeclared-set t.symbols i old new d at ids names counts)
        (omega (arith, length-set t.symbols i new))
        (omega (arith, names_size-set t.symbols i old new at names))

own_declaration_cong :
    (x y : Symbol) (k : ℕ)
    → y.id ≡ x.id
    → y.name ≡ x.name
    → y.parameterized_count ≡ x.parameterized_count
    → y.scope ≡ x.scope
    → y.kind ≡ x.kind
    → own_declaration y k ≡ own_declaration x k
own_declaration_cong x y k ids names counts scopes kinds =
    rw (ids, names, counts, scopes, kinds) refl

module _ {t : SymbolTable} (formed : IsFormed t (scope_declarations t.symbols))
    (inside : AllInside t.symbols (length t.scopes)) where
  -- A change of a symbol that leaves its place, name and count.
  pub HasInvariant-set :
      (i : ℕ) (old new : Symbol)
      → get_elem? t.symbols i ≡ some old
      → new.id ≡ old.id
      → new.name ≡ old.name
      → new.parameterized_count ≡ old.parameterized_count
      → new.scope ≡ old.scope
      → new.kind ≡ old.kind
      → HasInvariant (record t { symbols = set t.symbols i new })
  HasInvariant-set i old new at ids names counts scopes kinds =
      HasInvariant_lem (record t { symbols = set t.symbols i new })
        (IsFormed-set formed i old new at ids names counts)
        (λ k. sym (
          scope_declarations-set t.symbols i old new k at
            (own_declaration_cong old new k ids names counts scopes kinds)))
        (AllInside-set t.symbols i old new (length t.scopes) at scopes inside)

  pub HasInvariant-push_scope :
      (scope : Scope) (p : ℕ)
      → scope.parent ≡ some p
      → p < length t.scopes
      → HasInvariant (push_scope t scope)
  HasInvariant-push_scope scope p parent below =
      let size = length-append t.scopes (scope ∷ []) in
      HasInvariant_lem (push_scope t scope) (IsFormed-push_scope formed scope p parent below) fresh
        (λ i x at. let low = inside i x at in omega arith)
    where
      fresh : (k : ℕ) → fresh_at formed k ≡ scope_declarations t.symbols k
      fresh k = elim (Bool-cases (k == length t.scopes)) [
        | inl e ↦
            let last : k ≡ length t.scopes = ground arith in
            rw e (
              sym (
                ap (scope_declarations t.symbols) last
                ∙ outside-empty t.symbols (length t.scopes) inside))
        | inr e ↦ rw e refl
      ]
