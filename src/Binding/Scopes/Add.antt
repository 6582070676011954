-- ===== src/Binding/Scopes/Add.antt =====
-- A declaration is entered into the indexes of its scope.
use ptx_frontend.Common.{
  ℕ, ◌+◌, ◌*◌, ◌^◌, ◌≡◌, ◌<◌, ◌≤◌, refl, ap, subst, inl, inr, Option, none, some, List, ◌∷◌, ◌++◌,
  Text, codes, arith, Bool-cases, ◌==◌, length, length-append,
}
use ptx_frontend.Binding.Index.Prefix.Insert.{index_parameterized_base_lem}
use ptx_frontend.Binding.Scopes.{
  ScopeNameIndex, find, emplace, index_group, index_symbol, exact_symbol,
}
use ptx_frontend.Binding.Scopes.Spellings.{index_member_spelling_lem}
use ptx_frontend.Binding.Scopes.Held.{
  Declared, Holds, group_names, members_of, length-members_of, name_size, find-ends_at,
}

module _ (index : ScopeNameIndex) (ds : List Declared) (name : Text) (id : ℕ)
    (held : Holds index ds) (some_name : 1 ≤ length name)
    (small : 32 * length ds + 33 < 2 ^ 32) where
  few : (b : Text) → 32 * length (members_of ds b) + 33 < 2 ^ 32
  few b = omega (arith, length-members_of ds b)

  ordinary-Holds :
      exact_symbol index name none ≡ none
      → (index' : ScopeNameIndex) × (index_symbol index name none id ≡ some index')
        × Holds index' (record { id = id; name = name; count = none } ∷ ds)
  unfolding index_symbol exact_symbol
  ordinary-Holds new =
      let (members, run, entered) = index_member_spelling_lem name id held.members few some_name in
      (
        record index {
          ordinary_exact = emplace name id index.ordinary_exact;
          member_prefixes = members;
        },
        rw (index_symbol, run) refl,
        record {
          ordinary = rw new (ap (λ l. (name, id) ∷ l) held.ordinary);
          groups = held.groups;
          prefixes = held.prefixes;
          prefixes_size = omega (arith, held.prefixes_size);
          members = entered;
          distinct = held.distinct;
        },
      )

  group-Holds :
      (count : ℕ)
      → exact_symbol index name (some count) ≡ none
      → name_size ds + length name + 1 < 2 ^ 32
      → (index' : ScopeNameIndex) × (index_symbol index name (some count) id ≡ some index')
        × Holds index' (record { id = id; name = name; count = some count } ∷ ds)
  unfolding index_symbol index_group exact_symbol
  group-Holds count new fits =
      let (prefixes, run, size, entered) =
        index_parameterized_base_lem index.parameterized_prefixes name id (group_names ds)
          held.prefixes (omega (arith, held.prefixes_size)) in
      let absent : find name (group_names ds) ≡ none =
        subst (λ m. find name m ≡ none) held.groups new in
      let distinct = find-ends_at name (group_names ds) absent in
      let exact = emplace name id index.parameterized_exact in
      let exact_is : exact ≡ (name, id) ∷ group_names ds =
        rw new (ap (λ l. (name, id) ∷ l) held.groups) in
      let grown = record index { parameterized_exact = exact; parameterized_prefixes = prefixes } in
      elim (Bool-cases (count == 0)) [
        | inl e ↦ (
          grown,
          rw (index_symbol, index_group, run, e) refl,
          record {
            ordinary = held.ordinary;
            groups = exact_is;
            prefixes = entered;
            prefixes_size = omega (arith, held.prefixes_size);
            members = rw e held.members;
            distinct = (distinct, held.distinct);
          },
        )
        | inr e ↦
            let first = name ++ codes "0" in
            let some_first : 1 ≤ length first = omega (arith, length-append name (codes "0")) in
            let (members, run', entered') =
              index_member_spelling_lem first id held.members few some_first in
            (
              record grown { member_prefixes = members },
              rw (index_symbol, index_group, run, e, run') refl,
              record {
                ordinary = held.ordinary;
                groups = exact_is;
                prefixes = entered;
                prefixes_size = omega (arith, held.prefixes_size);
                members = rw e entered';
                distinct = (distinct, held.distinct);
              },
            )
      ]

-- A symbol with a new name is entered, and the indexes are those of the declarations with the new one.
pub index_symbol-Holds :
    (index : ScopeNameIndex) (ds : List Declared) (name : Text) (count : Option ℕ) (id : ℕ)
    → Holds index ds
    → 1 ≤ length name
    → 32 * length ds + 33 < 2 ^ 32
    → name_size ds + length name + 1 < 2 ^ 32
    → exact_symbol index name count ≡ none
    → (index' : ScopeNameIndex) × (index_symbol index name count id ≡ some index')
      × Holds index' (record { id = id; name = name; count = count } ∷ ds)
index_symbol-Holds index ds name none id held some_name small fits new =
    ordinary-Holds index ds name id held some_name small new
index_symbol-Holds index ds name (some count) id held some_name small fits new =
    group-Holds index ds name id held some_name small count new fits
