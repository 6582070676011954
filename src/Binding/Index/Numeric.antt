-- ===== src/Binding/Index/Numeric.antt =====
-- submod/binding/include/ptx_symbol_table.hpp and src/ptx_symbol_table.cpp: the binary trie of the
-- members of a group, `NumericMemberIndex`, with a level for each bit of a `uint32_t`.
pub mod Insert
pub mod Query
pub mod Below
pub mod Refines
use ptx_frontend.Common.{
  ℕ, zero, suc, ◌/◌, ◌%◌, ◌^◌, ◌≡◌, ◌≢◌, refl, Bool, true, false, Option, none, some, List, [], ◌∷◌,
  get_elem?, arith, ◌==◌, if◌then◌else◌,
}
use ptx_frontend.Binding.Index.{NodeKind, descend, keep_at, keep_earliest}

pub record NumericMemberIndexNode : Type 0 where
  pub children : Option ℕ × Option ℕ
  pub earliest_symbol : Option ℕ

abbrev pub NumericMemberIndex : Type 0
NumericMemberIndex = List NumericMemberIndexNode

abbrev pub empty_node : NumericMemberIndexNode
empty_node = record { children = (none, none); earliest_symbol = none }

-- The nodes of a new index.
abbrev pub new_index : NumericMemberIndex
new_index = empty_node ∷ []

abbrev pub child_of : Bool → NumericMemberIndexNode → Option ℕ
child_of false n = n.children.0
child_of true n = n.children.1

abbrev pub link_child : Bool → ℕ → NumericMemberIndexNode → NumericMemberIndexNode
link_child false j n = record n { children = (some j, n.children.1) }
link_child true j n = record n { children = (n.children.0, some j) }

abbrev pub same_branch : Bool → Bool → Bool
same_branch true c = c
same_branch false true = false
same_branch false false = true

abbrev pub member_nodes : NodeKind Bool NumericMemberIndexNode
member_nodes = record {
  fresh = empty_node;
  child = child_of;
  link = link_child;
  kept = λ n. n.earliest_symbol;
  keep = λ s n. record n { earliest_symbol = s };
  same = same_branch;
  same_sound = λ b c h. ground arith;
  same_refl = λ b. ground arith;
  child-fresh = λ b. ground arith;
  child-link = λ b j n. ground arith;
  child-link_other = λ b c j n h. ground arith;
  child-keep = λ b s n. ground arith;
  kept-fresh = refl;
  kept-link = λ b j n. ground arith;
  kept-keep = λ s n. refl;
}

-- `(member >> bit) & 1u`
abbrev pub branch_at : ℕ → ℕ → Bool
branch_at member bit = member / 2 ^ bit % 2 == 1

-- The rounds of the loop for the bits below the first argument, from the highest.
unfoldable pub index_bits : ℕ → NumericMemberIndex → ℕ → ℕ → ℕ → Option NumericMemberIndex
index_bits zero nodes node member symbol = some nodes
index_bits (suc bit) nodes node member symbol =
    elim (descend member_nodes nodes node (branch_at member bit)) [
      | none ↦ none
      | some (grown, next) ↦ elim (keep_at member_nodes grown next symbol) [
        | none ↦ none
        | some kept ↦ index_bits bit kept next member symbol
      ]
    ]

unfoldable pub index_member_number : NumericMemberIndex → ℕ → ℕ → Option NumericMemberIndex
index_member_number index member symbol = elim (keep_at member_nodes index 0 symbol) [
  | none ↦ none
  | some kept ↦ index_bits 32 kept 0 member symbol
]

-- The subtree of a clear bit, where the limit has a set one: all its members are below the limit.
unfoldable pub keep_clear_child :
    NumericMemberIndex → NumericMemberIndexNode → Bool → Option ℕ → Option (Option ℕ)
keep_clear_child index n false result = some result
keep_clear_child index n true result = elim n.children.0 [
  | none ↦ some result
  | some clear ↦ elim (get_elem? index clear) [
    | none ↦ none
    | some m ↦ elim m.earliest_symbol [
      | none ↦ none
      | some symbol ↦ some (keep_earliest result symbol)
    ]
  ]
]

unfoldable pub below_bits : ℕ → NumericMemberIndex → ℕ → ℕ → Option ℕ → Option (Option ℕ)
unfolding keep_clear_child
below_bits zero index node limit result = some result
below_bits (suc bit) index node limit result = elim (get_elem? index node) [
  | none ↦ none
  | some n ↦ elim (keep_clear_child index n (branch_at limit bit) result) [
    | none ↦ none
    | some kept ↦ elim (child_of (branch_at limit bit) n) [
      | none ↦ some kept
      | some next ↦ below_bits bit index next limit kept
    ]
  ]
]

unfoldable pub earliest_member_below : NumericMemberIndex → ℕ → Option (Option ℕ)
unfolding below_bits
earliest_member_below [] limit = some none
earliest_member_below (n ∷ index) limit =
    if limit == 0 then some none else below_bits 32 (n ∷ index) 0 limit none
