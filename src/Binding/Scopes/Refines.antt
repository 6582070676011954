-- ===== src/Binding/Scopes/Refines.antt =====
-- The indexes of a scope refine a search of its declarations for one that overlaps a new one.
use ptx_frontend.Common.{
  ℕ, ◌^◌, ◌≡◌, ◌<◌, ◌≤◌, refl, sym, ap, ◌∙◌, subst, inl, inr, Bool, true, false, ◌||◌, Option, none,
  some, List, [], ◌∷◌, ◌++◌, Text, codes, arith, Bool-cases, Option-cases, ◌==◌, if◌then◌else◌,
  length,
}
use ptx_frontend.Binding.Names.{
  parse_parameterized_index, index_below, parameterized_name_contains, symbol_name_sets_overlap,
}
use ptx_frontend.Binding.Names.Members.{parse_parameterized_index_iff}
use ptx_frontend.Binding.Names.Overlap.{Fits}
use ptx_frontend.Binding.Symbols.{Symbol}
use ptx_frontend.Binding.Index.Numeric.{NumericMemberIndex}
use ptx_frontend.Binding.Index.{keep_earliest}
use ptx_frontend.Binding.Index.Numeric.Query.{join, join-none}
use ptx_frontend.Binding.Index.Numeric.Below.{Members, keep_join_left, keep_join_right}
use ptx_frontend.Binding.Index.Numeric.Refines.{earliest_below, earliest_member_below_lem, AllBelow}
use ptx_frontend.Binding.Index.Prefix.Groups.{longer_hits}
use ptx_frontend.Binding.Scopes.{
  ScopeNameIndex, TextMap, find, declared_member, overlapping_symbol, exact_symbol, keep_if_found,
}
use ptx_frontend.Binding.Scopes.Members.{HoldMembers, add_member}
use ptx_frontend.Binding.Scopes.Held.{Declared, Holds, group_names, members_of, add_group, enter}
use ptx_frontend.Binding.Scopes.Overlapping.{
  IsDeclared, AllDeclared, earliest_overlap, containing_lem, longer_hits-add_group,
  ordinary_overlap,
}

contains_none :
    (base : Text) (n : ℕ) (t : Text) → n ≡ 0 → parameterized_name_contains base n t ≡ false
unfolding parameterized_name_contains
contains_none base n t e = rw e (elim (Option-cases (parse_parameterized_index base t)) [
  | inl h ↦ rw h refl
  | inr (i, h) ↦ rw h (ground arith)
])

join_both :
    (l r : Option ℕ) (s : ℕ)
    → join (keep_earliest l s) (keep_earliest r s) ≡ keep_earliest (join l r) s
join_both l r s = ground arith

keep_either :
    (a b : Bool) (l r : Option ℕ) (s : ℕ)
    → join (if a then keep_earliest l s else l) (if b then keep_earliest r s else r)
      ≡ (if a || b then keep_earliest (join l r) s else join l r)
keep_either true true l r s = join_both l r s
keep_either true false l r s = keep_join_left l r s
keep_either false true l r s = keep_join_right l r s
keep_either false false l r s = refl

-- A member that a declaration adds counts if it is below the limit.
earliest_below-add_member :
    (o : Option ℕ) (id count : ℕ) (ms : Members)
    → earliest_below count (add_member o id ms) ≡ (
        if index_below count o
        then keep_earliest (earliest_below count ms) id
        else earliest_below count ms)
unfolding earliest_below
earliest_below-add_member none id count ms = refl
earliest_below-add_member (some m) id count ms = refl

module _ (symbols : List Symbol) (c : ℕ) (cs : Text) (count : ℕ)
    (some_members : (count == 0) ≡ false) where
  abbrev name : Text
  name = c ∷ cs

  abbrev first : Text
  first = (c ∷ cs) ++ codes "0"

  group_step :
      (k : Option ℕ) (old : Text) (id : ℕ) (names : TextMap ℕ) (content : Text → Members)
      → IsDeclared symbols (record { id = id; name = old; count = k })
      → join
          (longer_hits symbols first (add_group k old id names))
          (earliest_below count (enter k old id content name))
        ≡ (if symbol_name_sets_overlap old k name (some count)
            then keep_earliest
                (join (longer_hits symbols first names) (earliest_below count (content name)))
                id
            else join (longer_hits symbols first names) (earliest_below count (content name)))
  unfolding symbol_name_sets_overlap parameterized_name_contains
  group_step none old id names content d =
      rw (earliest_below-add_member (parse_parameterized_index name old) id count (content name)) (
        keep_either false (index_below count (parse_parameterized_index name old))
          (longer_hits symbols first names) (earliest_below count (content name)) id)
  group_step (some n) old id names content d = elim (Bool-cases (n == 0)) [
    | inl e ↦
        let zero_count : n ≡ 0 = ground arith in
        rw
          (
            e,
            longer_hits-add_group symbols first n old id names d,
            contains_none old n first zero_count,
          )
          refl
    | inr e ↦
        rw
          (
            e,
            some_members,
            longer_hits-add_group symbols first n old id names d,
            earliest_below-add_member (parse_parameterized_index name (old ++ codes "0")) id count
                (content name),
          )
          (keep_either (parameterized_name_contains old n first)
            (index_below count (parse_parameterized_index name (old ++ codes "0")))
            (longer_hits symbols first names) (earliest_below count (content name)) id)
  ]

  group_overlap :
      (ds : List Declared)
      → AllDeclared symbols ds
      → join
          (longer_hits symbols first (group_names ds))
          (earliest_below count (members_of ds name))
        ≡ earliest_overlap name (some count) ds
  unfolding earliest_overlap earliest_below
  group_overlap [] h = refl
  group_overlap (d ∷ ds) (k, h) =
      let further = group_overlap ds h in
      group_step d.count d.name d.id (group_names ds) (λ b. members_of ds b) k
      ∙ ap
          (λ o.
            if symbol_name_sets_overlap d.name d.count name (some count)
            then keep_earliest o d.id
            else o)
          further

AllBelow-add_member :
    (base spelling : Text) (id : ℕ) (ms : Members)
    → AllBelow (2 ^ 32) ms
    → AllBelow (2 ^ 32) (add_member (parse_parameterized_index base spelling) id ms)
AllBelow-add_member base spelling id ms h =
    elim (Option-cases (parse_parameterized_index base spelling)) [
      | inl e ↦ rw e h
      | inr (m, e) ↦ rw e (((parse_parameterized_index_iff base spelling m).0 e).1, h)
    ]

AllBelow-enter :
    (k : Option ℕ) (old : Text) (id : ℕ) (content : Text → Members) (c : ℕ) (cs : Text)
    → AllBelow (2 ^ 32) (content (c ∷ cs))
    → AllBelow (2 ^ 32) (enter k old id content (c ∷ cs))
AllBelow-enter none old id content c cs h = AllBelow-add_member (c ∷ cs) old id (content (c ∷ cs)) h
AllBelow-enter (some n) old id content c cs h = elim (Bool-cases (n == 0)) [
  | inl e ↦ rw e h
  | inr e ↦ rw e (AllBelow-add_member (c ∷ cs) (old ++ codes "0") id (content (c ∷ cs)) h)
]

members_of-AllBelow :
    (ds : List Declared) (c : ℕ) (cs : Text) → AllBelow (2 ^ 32) (members_of ds (c ∷ cs))
members_of-AllBelow [] c cs = tt
members_of-AllBelow (d ∷ ds) c cs =
    AllBelow-enter d.count d.name d.id (λ b. members_of ds b) c cs (members_of-AllBelow ds c cs)

declared_member_lem :
    (prefixes : TextMap NumericMemberIndex) (content : Text → Members) (name : Text) (count : ℕ)
    → HoldMembers prefixes content
    → AllBelow (2 ^ 32) (content name)
    → count < 2 ^ 32
    → declared_member prefixes name count ≡ some (earliest_below count (content name))
unfolding declared_member earliest_below
declared_member_lem prefixes content name count h all small =
    elim (Option-cases (find name prefixes)) [
      | inl e ↦ rw (declared_member, e, h.absent name e) refl
      | inr (index, e) ↦
          let (size, held) = h.present name index e in
          rw (declared_member, e)
            (earliest_member_below_lem index count (content name) held small all)
    ]

keep_if_found-join : (r o : Option ℕ) → keep_if_found r o ≡ join r o
keep_if_found-join r none = refl
keep_if_found-join r (some s) = refl

-- A group without members overlaps nothing.
without_members :
    (k : Option ℕ) (old name : Text) → symbol_name_sets_overlap old k name (some 0) ≡ false
unfolding symbol_name_sets_overlap
without_members none old name = contains_none name 0 old refl
without_members (some n) old name = elim (Bool-cases (n == 0)) [ inl e ↦ rw e | inr e ↦ rw e ]

none_without_members : (name : Text) (ds : List Declared) → earliest_overlap name (some 0) ds ≡ none
unfolding earliest_overlap
none_without_members name [] = refl
none_without_members name (d ∷ ds) =
    rw (without_members d.count d.name name) (none_without_members name ds)

-- The indexes find, without an access outside of their nodes, the earliest declaration of the scope whose
-- names overlap those of the new one.
pub overlapping_symbol-earliest_overlap :
    (index : ScopeNameIndex) (symbols : List Symbol) (ds : List Declared) (name : Text)
    (count : Option ℕ)
    → Holds index ds
    → AllDeclared symbols ds
    → 1 ≤ length name
    → Fits count
    → exact_symbol index name count ≡ none
    → overlapping_symbol index symbols name count ≡ some (earliest_overlap name count ds)
unfolding overlapping_symbol exact_symbol
overlapping_symbol-earliest_overlap index symbols ds [] count held known some_name fits new =
    absurd (omega arith)
overlapping_symbol-earliest_overlap index symbols ds (c ∷ cs) none held known some_name fits new =
    let absent = subst (λ m. find (c ∷ cs) m ≡ none) held.ordinary new in
    containing_lem symbols (c ∷ cs) index ds held known
    ∙ ap some (ordinary_overlap symbols (c ∷ cs) ds known absent)
overlapping_symbol-earliest_overlap index symbols ds (c ∷ cs) (some count) held known some_name fits
      new =
    elim (Bool-cases (count == 0)) [
      | inl e ↦
          let zero_count : count ≡ 0 = ground arith in
          rw (e, zero_count) (ap some (sym (none_without_members (c ∷ cs) ds)))
      | inr e ↦
          let name = c ∷ cs in
          let containing = containing_lem symbols (name ++ codes "0") index ds held known in
          let member =
            declared_member_lem index.member_prefixes (λ b. members_of ds b) name count held.members
              (members_of-AllBelow ds c cs) fits in
          let found = longer_hits symbols (name ++ codes "0") (group_names ds) in
          let earliest = earliest_below count (members_of ds name) in
          rw (e, containing, member)
            (ap some (
              keep_if_found-join (keep_if_found none found) earliest
              ∙ ap (λ o. join o earliest) (keep_if_found-join none found ∙ join-none found)
              ∙ group_overlap symbols c cs count e ds known))
    ]
