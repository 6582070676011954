-- ===== src/Binding/Index.antt =====
-- submod/binding/src/ptx_symbol_table.cpp: the two tries of a scope's names, each a vector of nodes whose
-- children are indexes into the vector. `none` is an access outside of the vector, or the value of an
-- empty `std::optional` that the source dereferences.
pub mod Entries
pub mod Shape
pub mod Grow
pub mod Earliest
pub mod Descend
pub mod Start
pub mod Numeric
pub mod Prefix
use ptx_frontend.Common.{
  ℕ, zero, suc, ◌+◌, ◌-◌, ◌/◌, ◌%◌, ◌^◌, ◌≡◌, ◌≢◌, ◌⊎◌, Bool, true, false, Option, none, some, List,
  [], ◌∷◌, ◌++◌, Text, length, get_elem?, set, ltb, ◌==◌, if◌then◌else◌,
}

-- `keepEarliest`: symbols are their ids.
abbrev pub keep_earliest : Option ℕ → ℕ → Option ℕ
keep_earliest none candidate = some candidate
keep_earliest (some kept) candidate = if ltb candidate kept then some candidate else some kept

-- What the two kinds of nodes have in common: a child for each branch, and the symbol kept at the node.
pub record NodeKind (B N : Type 0) : Type 0 where
  pub fresh : N
  pub child : B → N → Option ℕ
  pub link : B → ℕ → N → N
  pub kept : N → Option ℕ
  pub keep : Option ℕ → N → N
  pub same : B → B → Bool
  pub same_sound : (b c : B) → same b c ≡ true → b ≡ c
  pub same_refl : (b : B) → same b b ≡ true
  pub child-fresh : (b : B) → child b fresh ≡ none
  pub child-link : (b : B) (j : ℕ) (n : N) → child b (link b j n) ≡ some j
  pub child-link_other : (b c : B) (j : ℕ) (n : N) → c ≢ b → child c (link b j n) ≡ child c n
  pub child-keep : (b : B) (s : Option ℕ) (n : N) → child b (keep s n) ≡ child b n
  pub kept-fresh : kept fresh ≡ none
  pub kept-link : (b : B) (j : ℕ) (n : N) → kept (link b j n) ≡ kept n
  pub kept-keep : (s : Option ℕ) (n : N) → kept (keep s n) ≡ s

module _ {B N : Type 0} (K : NodeKind B N) where
  -- The child of a node, added behind the others if it is missing.
  unfoldable pub descend : List N → ℕ → B → Option (List N × ℕ)
  descend nodes node b = elim (get_elem? nodes node) [
    | none ↦ none
    | some n ↦ elim (K.child b n) [
      | some next ↦ some (nodes, next)
      | none ↦
          let next = length nodes % 2 ^ 32 in
          some (set nodes node (K.link b next n) ++ K.fresh ∷ [], next)
    ]
  ]

  unfoldable pub keep_at : List N → ℕ → ℕ → Option (List N)
  keep_at nodes node symbol = elim (get_elem? nodes node) [
    | none ↦ none
    | some n ↦ some (set nodes node (K.keep (keep_earliest (K.kept n) symbol) n))
  ]
