-- ===== src/Binding/Table/Declarations.antt =====
-- The declarations of a scope, read off the symbols of the table: those that stand in the scope, without
-- the metadata of the debug sections, which have no entry in the indexes.
use ptx_frontend.Common.{
  ℕ, ◌≡◌, ◌<◌, refl, sym, ap, ◌∙◌, Bool, true, false, not, ◌&&◌, some, List, [], ◌∷◌, ◌++◌, ◌==◌,
  zero, suc, if◌then◌else◌, get_elem?, set, arith, inl, inr, get_elem?-snoc, get_elem?-set,
}
use ptx_frontend.Binding.Symbols.{Symbol, SymbolKind, debug_file, debug_string_label}
use ptx_frontend.Binding.Scopes.Held.{Declared}

abbrev pub is_debug : SymbolKind → Bool
is_debug debug_file = true
is_debug debug_string_label = true
is_debug _ = false

abbrev pub own_declaration : Symbol → ℕ → List Declared
own_declaration x k =
    if (k == x.scope) && not (is_debug x.kind)
    then record { id = x.id; name = x.name; count = x.parameterized_count } ∷ []
    else []

-- The newest first.
abbrev pub scope_declarations : List Symbol → ℕ → List Declared
scope_declarations [] k = []
scope_declarations (x ∷ symbols) k = scope_declarations symbols k ++ own_declaration x k

append_assoc : (xs ys zs : List Declared) → (xs ++ ys) ++ zs ≡ xs ++ (ys ++ zs)
append_assoc [] ys zs = refl
append_assoc (x ∷ xs) ys zs = ap (λ l. x ∷ l) (append_assoc xs ys zs)

append_nil : (xs : List Declared) → xs ++ [] ≡ xs
append_nil [] = refl
append_nil (x ∷ xs) = ap (λ l. x ∷ l) (append_nil xs)

pub scope_declarations-append :
    (symbols : List Symbol) (x : Symbol) (k : ℕ)
    → scope_declarations (symbols ++ x ∷ []) k ≡ own_declaration x k ++ scope_declarations symbols k
scope_declarations-append [] x k = sym (append_nil (own_declaration x k))
scope_declarations-append (y ∷ symbols) x k =
    ap (λ l. l ++ own_declaration y k) (scope_declarations-append symbols x k)
    ∙ append_assoc (own_declaration x k) (scope_declarations symbols k) (own_declaration y k)

pub scope_declarations-set :
    (symbols : List Symbol) (i : ℕ) (old new : Symbol) (k : ℕ)
    → get_elem? symbols i ≡ some old
    → own_declaration new k ≡ own_declaration old k
    → scope_declarations (set symbols i new) k ≡ scope_declarations symbols k
scope_declarations-set [] i old new k at e = refl
scope_declarations-set (y ∷ symbols) zero old new k at e =
    let same : y ≡ old = cc at in
    ap (λ l. scope_declarations symbols k ++ l) (e ∙ ap (λ q. own_declaration q k) (sym same))
scope_declarations-set (y ∷ symbols) (suc i) old new k at e =
    ap (λ l. l ++ own_declaration y k) (scope_declarations-set symbols i old new k at e)

-- Every symbol stands in one of the first scopes.
abbrev pub AllInside : List Symbol → ℕ → Type 0
AllInside symbols count = (i : ℕ) (x : Symbol) → get_elem? symbols i ≡ some x → x.scope < count

pub AllInside-append :
    (symbols : List Symbol) (x : Symbol) (count : ℕ)
    → AllInside symbols count
    → x.scope < count
    → AllInside (symbols ++ x ∷ []) count
AllInside-append symbols x count all inside i y at = elim (get_elem?-snoc symbols x i at) [
  | inl (last, is) ↦ rw is inside
  | inr (before, old) ↦ all i y old
]

pub AllInside-set :
    (symbols : List Symbol) (i : ℕ) (old new : Symbol) (count : ℕ)
    → get_elem? symbols i ≡ some old
    → new.scope ≡ old.scope
    → AllInside symbols count
    → AllInside (set symbols i new) count
AllInside-set symbols i old new count at same all j y e = elim (get_elem?-set symbols i new j e) [
  | inl (here, is) ↦ rw (is, same) (all i old at)
  | inr (other, kept) ↦ all j y kept
]

pub outside-empty :
    (symbols : List Symbol) (count : ℕ)
    → AllInside symbols count
    → scope_declarations symbols count ≡ []
outside-empty [] count all = refl
outside-empty (x ∷ symbols) count all =
    let inside = all 0 x refl in
    let other : (count == x.scope) ≡ false = ground arith in
    let rest = outside-empty symbols count (λ i y at. all (suc i) y at) in rw (rest, other) refl
