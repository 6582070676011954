-- ===== src/Binding/Index/Prefix.antt =====
-- submod/binding/include/ptx_symbol_table.hpp and src/ptx_symbol_table.cpp: the trie of the bases of
-- parameterized declarations, `ParameterizedPrefixIndex`, with a level for each character.
pub mod Insert
pub mod Query
pub mod Groups
use ptx_frontend.Common.{
  ℕ, zero, suc, ◌+◌, ◌≡◌, ◌≢◌, refl, Bool, true, false, Option, none, some, List, [], ◌∷◌, Text,
  get_elem?, ◌==◌, if◌then◌else◌, arith, ==_refl,
}
use ptx_frontend.Binding.Names.{parse_parameterized_index, index_below}
use ptx_frontend.Binding.Symbols.{Symbol}
use ptx_frontend.Binding.Index.{NodeKind, descend, keep_at, keep_earliest}

pub record ParameterizedPrefixNode : Type 0 where
  pub children : List (ℕ × ℕ)
  pub symbol : Option ℕ

abbrev pub ParameterizedPrefixIndex : Type 0
ParameterizedPrefixIndex = List ParameterizedPrefixNode

abbrev pub empty_prefix : ParameterizedPrefixNode
empty_prefix = record { children = []; symbol = none }

abbrev pub new_prefixes : ParameterizedPrefixIndex
new_prefixes = empty_prefix ∷ []

-- The map of the outgoing edges.
abbrev pub find_child : ℕ → List (ℕ × ℕ) → Option ℕ
find_child character [] = none
find_child character ((c, node) ∷ others) =
    if character == c then some node else find_child character others

abbrev pub emplace_child : ℕ → ℕ → ParameterizedPrefixNode → ParameterizedPrefixNode
emplace_child character node n = record n { children = (character, node) ∷ n.children }

abbrev pub prefix_nodes : NodeKind ℕ ParameterizedPrefixNode
prefix_nodes = record {
  fresh = empty_prefix;
  child = λ c n. find_child c n.children;
  link = emplace_child;
  kept = λ n. n.symbol;
  keep = λ s n. record n { symbol = s };
  same = λ b c. b == c;
  same_sound = λ b c h. ground arith;
  same_refl = ==_refl;
  child-fresh = λ b. refl;
  child-link = λ b j n. ground arith;
  child-link_other = λ b c j n h. let apart : (c == b) ≡ false = ground arith in rw apart;
  child-keep = λ b s n. refl;
  kept-fresh = refl;
  kept-link = λ b j n. refl;
  kept-keep = λ s n. refl;
}

-- The loop over the characters of a base: the nodes, and the node of the base.
unfoldable pub index_characters :
    ParameterizedPrefixIndex → ℕ → Text → Option (ParameterizedPrefixIndex × ℕ)
index_characters index node [] = some (index, node)
index_characters index node (character ∷ base) = elim (descend prefix_nodes index node character) [
  | none ↦ none
  | some (grown, next) ↦ index_characters grown next base
]

unfoldable pub index_parameterized_base :
    ParameterizedPrefixIndex → Text → ℕ → Option ParameterizedPrefixIndex
unfolding index_characters
index_parameterized_base index base symbol = elim (index_characters index 0 base) [
  | none ↦ none
  | some (grown, node) ↦ keep_at prefix_nodes grown node symbol
]

-- `*member < *candidate.parameterized_count`, with both present
unfoldable pub is_member_of : Symbol → Text → Bool
is_member_of candidate spelling = elim candidate.parameterized_count [
  | none ↦ false
  | some count ↦ index_below count (parse_parameterized_index candidate.name spelling)
]

-- The symbol of a node, if it is a group with the spelling as a member.
unfoldable pub keep_containing : List Symbol → Text → Option ℕ → Option ℕ → Option (Option ℕ)
unfolding is_member_of
keep_containing symbols spelling none result = some result
keep_containing symbols spelling (some symbol) result = elim (get_elem? symbols symbol) [
  | none ↦ none
  | some candidate ↦
      some (if is_member_of candidate spelling then keep_earliest result candidate.id else result)
]

-- The loop over the characters that are left of the spelling.
unfoldable pub containing_from :
    ParameterizedPrefixIndex → List Symbol → Text → ℕ → Text → Option ℕ → Option (Option ℕ)
unfolding keep_containing
containing_from index symbols spelling node [] result = some result
containing_from index symbols spelling node (character ∷ left) result =
    elim (get_elem? index node) [
      | none ↦ none
      | some n ↦ elim (find_child character n.children) [
        | none ↦ some result
        | some next ↦ elim (get_elem? index next) [
          | none ↦ none
          | some found ↦ elim (keep_containing symbols spelling found.symbol result) [
            | none ↦ none
            | some kept ↦ containing_from index symbols spelling next left kept
          ]
        ]
      ]
    ]

unfoldable pub parameterized_containing :
    ParameterizedPrefixIndex → List Symbol → Text → Option (Option ℕ)
unfolding containing_from
parameterized_containing [] symbols spelling = some none
parameterized_containing (n ∷ index) symbols spelling =
    containing_from (n ∷ index) symbols spelling 0 spelling none
