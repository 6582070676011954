-- ===== src/Binding/Scopes/Overlapping.antt =====
-- The earliest declaration of a scope that overlaps a new one is found by the indexes.
use ptx_frontend.Common.{
  ℕ, ◌≡◌, ◌≤◌, refl, sym, ap, ◌∙◌, inl, inr, true, Option, none, some, List, [], ◌∷◌, ◌++◌, Text,
  get_elem?, arith, Bool-cases, Option-cases, if◌then◌else◌, false≢true, length, same_text,
  same_text_refl, same_text_sound,
}
use ptx_frontend.Common.Decimal.{decimal}
use ptx_frontend.Binding.Names.{
  parse_parameterized_index, parameterized_name_contains, symbol_name_sets_overlap,
}
use ptx_frontend.Binding.Names.Members.{parse_parameterized_index_iff}
use ptx_frontend.Binding.Symbols.{Symbol}
use ptx_frontend.Binding.Index.{keep_earliest}
use ptx_frontend.Binding.Index.Entries.{rest}
use ptx_frontend.Binding.Index.Prefix.{is_member_of, parameterized_containing, prefix_nodes}
use ptx_frontend.Binding.Index.Prefix.Insert.{same_character}
use ptx_frontend.Binding.Index.Prefix.Query.{hit, AllKnown, IsKnown, parameterized_containing-met}
use ptx_frontend.Binding.Index.Prefix.Groups.{longer_hits, met-longer_hits, ArePrefixes}
use ptx_frontend.Binding.Scopes.{ScopeNameIndex, TextMap, find}
use ptx_frontend.Binding.Scopes.Held.{
  Declared, Holds, group_names, ordinary_names, add_group, add_ordinary,
}

-- The declaration in the table of symbols.
pub record IsDeclared (symbols : List Symbol) (d : Declared) : Type 0 where
  pub symbol : Symbol
  pub at : get_elem? symbols d.id ≡ some symbol
  pub id : symbol.id ≡ d.id
  pub name : symbol.name ≡ d.name
  pub count : symbol.parameterized_count ≡ d.count
  pub some_name : 1 ≤ length d.name

abbrev pub AllDeclared : List Symbol → List Declared → Type 0
AllDeclared symbols [] = Unit
AllDeclared symbols (d ∷ ds) = IsDeclared symbols d × AllDeclared symbols ds

-- The specification: the earliest of the declarations that overlap the new one.
unfoldable pub earliest_overlap : Text → Option ℕ → List Declared → Option ℕ
earliest_overlap name count [] = none
earliest_overlap name count (d ∷ ds) =
    let others = earliest_overlap name count ds in
    if symbol_name_sets_overlap d.name d.count name count then keep_earliest others d.id else others

rest_append : (p t : Text) → rest same_character p (p ++ t) ≡ some t
rest_append [] t = refl
rest_append (c ∷ p) t = rw (prefix_nodes.same_refl c) (rest_append p t)

module _ (symbols : List Symbol) (spelling : Text) where
  hit_contains :
      (id n : ℕ) (name : Text)
      → IsDeclared symbols (record { id = id; name = name; count = some n })
      → hit symbols spelling id ≡ parameterized_name_contains name n spelling
  unfolding hit is_member_of parameterized_name_contains
  hit_contains id n name d = rw (hit, d.at, is_member_of, d.count, d.name) refl

  contains_prefix :
      (name : Text) (n : ℕ)
      → parameterized_name_contains name n spelling ≡ true
      → (r : Text) × (rest same_character name spelling ≡ some r)
  unfolding parameterized_name_contains
  contains_prefix name n h = elim (Option-cases (parse_parameterized_index name spelling)) [
    | inl e ↦ absurd (false≢true (rw e at h))
    | inr (i, e) ↦
        let is = ((parse_parameterized_index_iff name spelling i).0 e).0 in
        (decimal i, rw is (rest_append name (decimal i)))
  ]

  AllKnown-add_group :
      (count : Option ℕ) (name : Text) (id : ℕ) (names : TextMap ℕ)
      → IsKnown symbols id
      → AllKnown symbols names
      → AllKnown symbols (add_group count name id names)
  AllKnown-add_group none name id names k h = h
  AllKnown-add_group (some n) name id names k h = (k, h)

  pub group_names-AllKnown :
      (ds : List Declared) → AllDeclared symbols ds → AllKnown symbols (group_names ds)
  group_names-AllKnown [] h = tt
  group_names-AllKnown (d ∷ ds) (k, h) =
      AllKnown-add_group d.count d.name d.id (group_names ds) (k.symbol, k.at, k.id)
        (group_names-AllKnown ds h)

  ArePrefixes-add_group :
      (count : Option ℕ) (name : Text) (id : ℕ) (names : TextMap ℕ)
      → IsDeclared symbols (record { id = id; name = name; count = count })
      → ArePrefixes symbols spelling spelling names
      → ArePrefixes symbols spelling spelling (add_group count name id names)
  ArePrefixes-add_group none name id names d h = h
  ArePrefixes-add_group (some n) name id names d h =
      (λ t. contains_prefix name n (sym (hit_contains id n name d) ∙ t), h)

  group_names-ArePrefixes :
      (ds : List Declared)
      → AllDeclared symbols ds
      → ArePrefixes symbols spelling spelling (group_names ds)
  group_names-ArePrefixes [] h = tt
  group_names-ArePrefixes (d ∷ ds) (k, h) =
      ArePrefixes-add_group d.count d.name d.id (group_names ds) k (group_names-ArePrefixes ds h)

  -- The earliest group with the spelling as a member.
  pub containing_lem :
      (index : ScopeNameIndex) (ds : List Declared)
      → Holds index ds
      → AllDeclared symbols ds
      → parameterized_containing index.parameterized_prefixes symbols spelling
        ≡ some (longer_hits symbols spelling (group_names ds))
  containing_lem index ds held known =
      parameterized_containing-met symbols spelling index.parameterized_prefixes (group_names ds)
        held.prefixes (group_names-AllKnown ds known)
      ∙ ap some (
          met-longer_hits symbols spelling spelling (group_names ds)
            (group_names-ArePrefixes ds known) held.distinct)

  pub longer_hits-add_group :
      (n : ℕ) (name : Text) (id : ℕ) (names : TextMap ℕ)
      → IsDeclared symbols (record { id = id; name = name; count = some n })
      → longer_hits symbols spelling (add_group (some n) name id names) ≡ (
          if parameterized_name_contains name n spelling
          then keep_earliest (longer_hits symbols spelling names) id
          else longer_hits symbols spelling names)
  longer_hits-add_group n [] id names d = let some_name = d.some_name in absurd (omega arith)
  longer_hits-add_group n (c ∷ name) id names d = rw (hit_contains id n (c ∷ name) d) refl

module _ (symbols : List Symbol) (name : Text) where
  ordinary_step :
      (count : Option ℕ) (old : Text) (id : ℕ) (ordinary names : TextMap ℕ) (o : Option ℕ)
      → IsDeclared symbols (record { id = id; name = old; count = count })
      → find name (add_ordinary count old id ordinary) ≡ none
      → longer_hits symbols name names ≡ o
      → (find name ordinary ≡ none)
        × (longer_hits symbols name (add_group count old id names)
            ≡ (if symbol_name_sets_overlap old count name none then keep_earliest o id else o))
  unfolding symbol_name_sets_overlap
  ordinary_step none old id ordinary names o d absent e = elim (Bool-cases (same_text name old)) [
    | inl t ↦ let found : some id ≡ none = rw t at absent in absurd (cc found)
    | inr t ↦ elim (Bool-cases (same_text old name)) [
      | inl u ↦
          let same = same_text_sound old name u in
          absurd (false≢true (sym t ∙ rw same (same_text_refl name)))
      | inr u ↦ (rw t at absent, rw u e)
    ]
  ]
  ordinary_step (some n) old id ordinary names o d absent e =
      (absent, longer_hits-add_group symbols name n old id names d ∙ rw e refl)

  pub ordinary_overlap :
      (ds : List Declared)
      → AllDeclared symbols ds
      → find name (ordinary_names ds) ≡ none
      → longer_hits symbols name (group_names ds) ≡ earliest_overlap name none ds
  unfolding earliest_overlap
  ordinary_overlap [] h absent = refl
  ordinary_overlap (d ∷ ds) (k, h) absent =
      let absent' : find name (ordinary_names ds) ≡ none =
        (ordinary_step d.count d.name d.id (ordinary_names ds) (group_names ds)
          (longer_hits symbols name (group_names ds)) k absent refl).0 in
      (ordinary_step d.count d.name d.id (ordinary_names ds) (group_names ds)
        (earliest_overlap name none ds) k absent (ordinary_overlap ds h absent')).1
