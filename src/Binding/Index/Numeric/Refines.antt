-- ===== src/Binding/Index/Numeric/Refines.antt =====
-- The trie of members finds what a search of a list of the members finds.
use ptx_frontend.Common.{
  ℕ, ◌+◌, ◌*◌, ◌%◌, ◌^◌, ◌≡◌, ◌<◌, ◌≤◌, refl, ap, ◌∙◌, inl, inr, false, Option, none, some, [], ◌∷◌,
  length, arith, Bool-cases, ltb, ◌==◌,
}
use ptx_frontend.Binding.Index.Entries.{under}
use ptx_frontend.Binding.Index.Numeric.{
  NumericMemberIndex, same_branch, earliest_member_below, index_member_number, new_index,
}
use ptx_frontend.Binding.Index.Numeric.Insert.{
  branches, IsIndex, index_member_number_lem, new_index-IsIndex,
}
use ptx_frontend.Binding.Index.Numeric.Query.{join, earliest_before, below_bits_lem, join-none}
use ptx_frontend.Binding.Index.Numeric.Below.{Members, earliest_where, paths, less, before-paths}

abbrev pub AllBelow : ℕ → Members → Type 0
AllBelow n [] = Unit
AllBelow n ((m, s) ∷ ms) = (m < n) × AllBelow n ms

-- The specification: the members in order of insertion, without an index.
unfoldable pub earliest_below : ℕ → Members → Option ℕ
earliest_below limit ms = earliest_where (λ m. ltb m limit) ms

where-earliest_below :
    (limit : ℕ) (ms : Members)
    → limit < 2 ^ 32
    → AllBelow (2 ^ 32) ms
    → earliest_where (less 32 limit) ms ≡ earliest_below limit ms
unfolding earliest_below
where-earliest_below limit [] small all = refl
where-earliest_below limit ((m, s) ∷ ms) small (h, all) =
    let rest = where-earliest_below limit ms small all in
    let a : m % 2 ^ 32 ≡ m = omega arith in
    let b : limit % 2 ^ 32 ≡ limit = omega arith in rw (a, b, rest) refl

where_zero : (ms : Members) → earliest_where (λ m. ltb m 0) ms ≡ none
where_zero [] = refl
where_zero ((m, s) ∷ ms) = let never : ltb m 0 ≡ false = ground arith in rw never (where_zero ms)

pub earliest_member_below_lem :
    (index : NumericMemberIndex) (limit : ℕ) (ms : Members)
    → IsIndex index (paths 32 ms)
    → limit < 2 ^ 32
    → AllBelow (2 ^ 32) ms
    → earliest_member_below index limit ≡ some (earliest_below limit ms)
unfolding earliest_member_below earliest_below
earliest_member_below_lem [] limit ms h small all = absurd (omega (arith, h.tree.some_node))
earliest_member_below_lem (n ∷ index) limit ms h small all = elim (Bool-cases (limit == 0)) [
  | inl e ↦ let zero_limit : limit ≡ 0 = ground arith in rw (zero_limit, where_zero ms) refl
  | inr e ↦
      let found = below_bits_lem h.tree 32 0 limit none h.tree.some_node in
      let held = before-paths 32 limit ms ∙ where-earliest_below limit ms small all in
      rw (earliest_member_below, e)
        (found
          ∙ ap
              (λ l. some (
                join none
                  (earliest_before (branches 32 limit) (under same_branch l (paths 32 ms)))))
              h.tree.root
          ∙ ap (λ o. some (join none o)) held
          ∙ ap some (join-none (earliest_below limit ms)))
]

-- The index of a list of members, the last of the list inserted first.
unfoldable pub index_members : Members → Option NumericMemberIndex
index_members [] = some new_index
index_members ((member, symbol) ∷ ms) = elim (index_members ms) [
  | none ↦ none
  | some index ↦ index_member_number index member symbol
]

index_members_lem :
    (ms : Members)
    → 32 * length ms + 1 < 2 ^ 32
    → (index : NumericMemberIndex) × (index_members ms ≡ some index)
      × (length index ≤ 32 * length ms + 1)
      × IsIndex index (paths 32 ms)
unfolding index_members
index_members_lem [] small = (new_index, refl, omega arith, new_index-IsIndex)
index_members_lem ((m, s) ∷ ms) small =
    let (index, run, size, held) = index_members_lem ms (omega arith) in
    let (index', run', size', held') =
      index_member_number_lem index m s (paths 32 ms) held (omega arith) in
    (index', rw (index_members, run) run', omega arith, held')

-- The index of any members that are numbers of 32 bits, as many as the numbers of the nodes allow, is
-- built and searched without an access outside of its nodes, and finds for every limit what a search of
-- the members finds.
pub index_members-earliest_member_below :
    (ms : Members)
    → AllBelow (2 ^ 32) ms
    → 32 * length ms + 1 < 2 ^ 32
    → (index : NumericMemberIndex) × (index_members ms ≡ some index)
      × ((limit : ℕ)
          → limit < 2 ^ 32
          → earliest_member_below index limit ≡ some (earliest_below limit ms))
index_members-earliest_member_below ms all small =
    let (index, run, size, held) = index_members_lem ms small in
    (index, run, λ limit h. earliest_member_below_lem index limit ms held h all)
