-- ===== src/Binding/Lookup/Local.antt =====
-- A name in one scope: an ordinary declaration of it, or else the earliest group with it as a member.
use ptx_frontend.Common.{
  ℕ, ◌≡◌, ◌≤◌, refl, sym, ap, ◌∙◌, subst, inl, inr, Bool, true, false, Option, none, some, List, [],
  ◌∷◌, Text, arith, none≢some, false≢true, Bool-cases, Option-cases, if◌then◌else◌, length,
  get_elem?,
}
use ptx_frontend.Binding.Names.{parse_parameterized_index, parameterized_name_contains}
use ptx_frontend.Binding.Symbols.{Symbol, SymbolLookup}
use ptx_frontend.Binding.Index.{keep_earliest}
use ptx_frontend.Binding.Index.Prefix.{is_member_of}
use ptx_frontend.Binding.Index.Prefix.Query.{hit, kept_one, AllKnown}
use ptx_frontend.Binding.Index.Prefix.Groups.{longer_hits}
use ptx_frontend.Binding.Scopes.{ScopeNameIndex, TextMap, find}
use ptx_frontend.Binding.Scopes.Held.{Declared, Holds, group_names, ordinary_names, add_group}
use ptx_frontend.Binding.Scopes.Overlapping.{
  IsDeclared, AllDeclared, containing_lem, longer_hits-add_group, group_names-AllKnown,
}
use ptx_frontend.Binding.Lookup.{single_group, any_group, lookup_group, lookup_local}

-- The specification: the earliest group of the declarations with a name as a member.
abbrev pub contains_name : Option ℕ → Text → Text → Bool
contains_name none base name = false
contains_name (some count) base name = parameterized_name_contains base count name

unfoldable pub earliest_group : Text → List Declared → Option ℕ
earliest_group name [] = none
earliest_group name (d ∷ ds) =
    let others = earliest_group name ds in
    if contains_name d.count d.name name then keep_earliest others d.id else others

-- What a name stands for among the declarations of a scope.
pub data IsLocal (symbols : List Symbol) (ds : List Declared) (name : Text)
    : Option SymbolLookup → Type 0 where
  ordinary :
      (id : ℕ)
      → find name (ordinary_names ds) ≡ some id
      → IsLocal symbols ds name (some (record { symbol = id; parameterized_index = none }))
  member :
      (group i : ℕ) (c : Symbol)
      → find name (ordinary_names ds) ≡ none
      → earliest_group name ds ≡ some group
      → get_elem? symbols group ≡ some c
      → parse_parameterized_index c.name name ≡ some i
      → IsLocal symbols ds name (some (record { symbol = group; parameterized_index = some i }))
  absent :
      find name (ordinary_names ds) ≡ none
      → earliest_group name ds ≡ none
      → IsLocal symbols ds name none

abbrev HaveNames : TextMap ℕ → Type 0
HaveNames [] = Unit
HaveNames ((p, s) ∷ names) = (1 ≤ length p) × HaveNames names

HaveNames-add_group :
    (k : Option ℕ) (old : Text) (id : ℕ) (names : TextMap ℕ)
    → 1 ≤ length old
    → HaveNames names
    → HaveNames (add_group k old id names)
HaveNames-add_group none old id names h rest = rest
HaveNames-add_group (some n) old id names h rest = (h, rest)

group_names-HaveNames :
    (symbols : List Symbol) (ds : List Declared)
    → AllDeclared symbols ds
    → HaveNames (group_names ds)
group_names-HaveNames symbols [] h = tt
group_names-HaveNames symbols (d ∷ ds) (k, h) =
    HaveNames-add_group d.count d.name d.id (group_names ds) k.some_name
      (group_names-HaveNames symbols ds h)

module _ (symbols : List Symbol) (name : Text) where
  group_step :
      (k : Option ℕ) (old : Text) (id : ℕ) (names : TextMap ℕ)
      → IsDeclared symbols (record { id = id; name = old; count = k })
      → longer_hits symbols name (add_group k old id names) ≡ (
          if contains_name k old name
          then keep_earliest (longer_hits symbols name names) id
          else longer_hits symbols name names)
  group_step none old id names d = refl
  group_step (some n) old id names d = longer_hits-add_group symbols name n old id names d

  longer_hits-earliest_group :
      (ds : List Declared)
      → AllDeclared symbols ds
      → longer_hits symbols name (group_names ds) ≡ earliest_group name ds
  unfolding earliest_group
  longer_hits-earliest_group [] h = refl
  longer_hits-earliest_group (d ∷ ds) (k, h) =
      group_step d.count d.name d.id (group_names ds) k
      ∙ ap (λ o. if contains_name d.count d.name name then keep_earliest o d.id else o)
          (longer_hits-earliest_group ds h)

  longer_hits_sound :
      (names : TextMap ℕ) (g : ℕ)
      → longer_hits symbols name names ≡ some g
      → hit symbols name g ≡ true
  longer_hits_sound [] g e = absurd (none≢some e)
  longer_hits_sound (([], s) ∷ names) g e = longer_hits_sound names g e
  longer_hits_sound ((c ∷ p, s) ∷ names) g e = elim (Bool-cases (hit symbols name s)) [
    | inl t ↦ elim (kept_one symbols (longer_hits symbols name names) s) [
      | inl same ↦ longer_hits_sound names g (sym same ∙ rw t at e)
      | inr new ↦
          let is : some s ≡ some g = sym new ∙ rw t at e in
          let same : s ≡ g = cc is in subst (λ i. hit symbols name i ≡ true) same t
    ]
    | inr t ↦ longer_hits_sound names g (rw t at e)
  ]

  -- A hit is a symbol of the table with an index for the name.
  hit_sound :
      (g : ℕ)
      → hit symbols name g ≡ true
      → (c : Symbol) × (i : ℕ) × (get_elem? symbols g ≡ some c)
        × (parse_parameterized_index c.name name ≡ some i)
  unfolding hit is_member_of
  hit_sound g h = elim (Option-cases (get_elem? symbols g)) [
    | inl e ↦ absurd (false≢true (rw (hit, e) at h))
    | inr (c, e) ↦
        let test : is_member_of c name ≡ true = rw (hit, e) at h in
        elim (Option-cases c.parameterized_count) [
          | inl f ↦ absurd (false≢true (rw (is_member_of, f) at test))
          | inr (n, f) ↦ elim (Option-cases (parse_parameterized_index c.name name)) [
            | inl p ↦ absurd (false≢true (rw (is_member_of, f, p) at test))
            | inr (i, p) ↦ (c, i, e, p)
          ]
        ]
  ]

  -- What a search of the groups of a scope gives.
  abbrev IsGroup : Option ℕ → Option SymbolLookup → Type 0
  IsGroup none r = r ≡ none
  IsGroup (some g) r =
      (c : Symbol) × (i : ℕ) × (get_elem? symbols g ≡ some c)
      × (parse_parameterized_index c.name name ≡ some i)
      × (r ≡ some (record { symbol = g; parameterized_index = some i }))

  module _ (index : ScopeNameIndex) (ds : List Declared) (held : Holds index ds)
      (known : AllDeclared symbols ds) where
    any_group_lem :
        (o : Option ℕ)
        → longer_hits symbols name (group_names ds) ≡ o
        → (r : Option SymbolLookup) × (any_group index symbols name ≡ some r) × IsGroup o r
    unfolding any_group
    any_group_lem none e =
        (none, rw (any_group, containing_lem symbols name index ds held known, e) refl, refl)
    any_group_lem (some g) e =
        let (c, i, at, parsed) = hit_sound g (longer_hits_sound (group_names ds) g e) in
        (
          some (record { symbol = g; parameterized_index = some i }),
          rw (any_group, containing_lem symbols name index ds held known, e, at, parsed) refl,
          (c, i, at, parsed, refl),
        )

    -- The shortcut for a single group finds what the index of the groups finds.
    single_group_lem :
        (base : Text) (id : ℕ) (o : Option ℕ)
        → (base, id) ∷ [] ≡ group_names ds
        → longer_hits symbols name (group_names ds) ≡ o
        → (r : Option SymbolLookup) × (single_group symbols id name ≡ some r) × IsGroup o r
    unfolding single_group hit
    single_group_lem [] id o only e =
        let named : HaveNames (([], id) ∷ []) =
          subst HaveNames (sym only) (group_names-HaveNames symbols ds known) in
        absurd (omega (arith, named.0))
    single_group_lem (b ∷ base) id o only e =
        let (k, rest) : AllKnown symbols ((b ∷ base, id) ∷ []) =
          subst (AllKnown symbols) (sym only) (group_names-AllKnown symbols name ds known) in
        let (c, at, ids) = k in
        let found : longer_hits symbols name ((b ∷ base, id) ∷ []) ≡ o =
          ap (longer_hits symbols name) only ∙ e in
        elim (Bool-cases (is_member_of c name)) [
          | inl t ↦
              let is_hit : hit symbols name id ≡ true = rw (hit, at) t in
              let (c', i, at', parsed) = hit_sound id is_hit in
              let same_some : some c ≡ some c' = sym at ∙ at' in
              let same : c ≡ c' = cc same_some in
              let parsed' : parse_parameterized_index c.name name ≡ some i = rw same parsed in
              let group : some id ≡ o = rw is_hit at found in
              (
                some (record { symbol = id; parameterized_index = some i }),
                rw (single_group, at, t, parsed', ids) refl,
                subst
                    (λ o'. IsGroup o' (some (record { symbol = id; parameterized_index = some i })))
                    group (c, i, at, parsed', refl),
              )
          | inr t ↦
              let is_hit : hit symbols name id ≡ false = rw (hit, at) t in
              let group : none ≡ o = rw is_hit at found in
              (none, rw (single_group, at, t) refl, subst (λ o'. IsGroup o' none) group refl)
        ]

    lookup_group_lem :
        (groups : TextMap ℕ) (o : Option ℕ)
        → groups ≡ group_names ds
        → longer_hits symbols name (group_names ds) ≡ o
        → (r : Option SymbolLookup) × (lookup_group index groups symbols name ≡ some r)
          × IsGroup o r
    unfolding lookup_group
    lookup_group_lem [] o same e = any_group_lem o e
    lookup_group_lem ((base, id) ∷ []) o same e = single_group_lem base id o same e
    lookup_group_lem (x ∷ y ∷ groups) o same e = any_group_lem o e

    IsLocal-group :
        (o : Option ℕ) (r : Option SymbolLookup)
        → find name (ordinary_names ds) ≡ none
        → earliest_group name ds ≡ o
        → IsGroup o r
        → IsLocal symbols ds name r
    IsLocal-group none r none_exact e is = rw is (absent none_exact e)
    IsLocal-group (some g) r none_exact e (c, i, at, parsed, is) =
        rw is (member g i c none_exact e at parsed)

    -- The lookup in a scope finds what the name stands for among its declarations.
    pub lookup_local_lem :
        (r : Option SymbolLookup) × (lookup_local index symbols name ≡ some r)
        × IsLocal symbols ds name r
    unfolding lookup_local
    lookup_local_lem = elim (Option-cases (find name index.ordinary_exact)) [
      | inl e ↦
          let none_exact : find name (ordinary_names ds) ≡ none =
            subst (λ m. find name m ≡ none) held.ordinary e in
          let o = longer_hits symbols name (group_names ds) in
          let (r, run, is) = lookup_group_lem index.parameterized_exact o held.groups refl in
          (
            r,
            rw (lookup_local, e) run,
            IsLocal-group o r none_exact (sym (longer_hits-earliest_group ds known)) is,
          )
      | inr (id, e) ↦ (
        some (record { symbol = id; parameterized_index = none }),
        rw (lookup_local, e) refl,
        ordinary id (subst (λ m. find name m ≡ some id) held.ordinary e),
      )
    ]
