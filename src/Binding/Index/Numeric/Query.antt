-- ===== src/Binding/Index/Numeric/Query.antt =====
-- The earliest member below a limit is read off the trie.
use ptx_frontend.Common.{
  ℕ, zero, suc, ◌≡◌, ◌≢◌, ◌<◌, refl, sym, ap, ◌∙◌, inl, inr, Bool, true, false, Option, none, some,
  List, [], ◌∷◌, ◌++◌, length, get_elem?, arith, Option-cases, Bool-cases, get_elem?-in, ltb,
  if◌then◌else◌,
}
use ptx_frontend.Binding.Index.{keep_earliest}
use ptx_frontend.Binding.Index.Entries.{Entries, under, strip, under-snoc}
use ptx_frontend.Binding.Index.Earliest.{earliest}
use ptx_frontend.Binding.Index.Shape.{Shape}
use ptx_frontend.Binding.Index.Grow.{snoc_ne}
use ptx_frontend.Binding.Index.Numeric.{
  NumericMemberIndex, NumericMemberIndexNode, member_nodes, same_branch, branch_at, child_of,
  below_bits, keep_clear_child,
}
use ptx_frontend.Binding.Index.Numeric.Insert.{branches, kept_for}

abbrev pub join : Option ℕ → Option ℕ → Option ℕ
join r none = r
join r (some s) = keep_earliest r s

pub join_assoc : (a b c : Option ℕ) → join (join a b) c ≡ join a (join b c)
join_assoc a b c = ground arith

pub join_comm : (a b : Option ℕ) → join a b ≡ join b a
join_comm a b = ground arith

pub join-none : (a : Option ℕ) → join none a ≡ a
join-none a = ground arith

-- The entries below a path: those that leave it at a set branch for the clear one.
abbrev pub earliest_before : List Bool → Entries Bool → Option ℕ
earliest_before [] es = none
earliest_before (true ∷ p) es =
    join (earliest (strip same_branch false es)) (earliest_before p (strip same_branch true es))
earliest_before (false ∷ p) es = earliest_before p (strip same_branch false es)

earliest_before_nil : (p : List Bool) → earliest_before p [] ≡ none
earliest_before_nil [] = refl
earliest_before_nil (true ∷ p) = rw (earliest_before_nil p)
earliest_before_nil (false ∷ p) = earliest_before_nil p

before_split :
    (b : Bool) (rest : List Bool) (es : Entries Bool) (r : Option ℕ)
    → join
        (if b then join r (earliest (strip same_branch false es)) else r)
        (earliest_before rest (strip same_branch b es))
      ≡ join r (earliest_before (b ∷ rest) es)
before_split true rest es r =
    join_assoc r (earliest (strip same_branch false es))
      (earliest_before rest (strip same_branch true es))
before_split false rest es r = refl

earliest-some : (es : Entries Bool) → es ≢ [] → (s : ℕ) × (earliest es ≡ some s)
earliest-some [] h = absurd (h refl)
earliest-some ((p, s) ∷ es) h = elim (Option-cases (earliest es)) [
  | inl e ↦ (s, rw e)
  | inr (t, e) ↦ elim (Bool-cases (ltb s t)) [ inl b ↦ (s, rw (e, b)) | inr b ↦ (t, rw (e, b)) ]
]

module _ {index : NumericMemberIndex} {label : ℕ → List Bool} {es : Entries Bool}
    (tree : Shape member_nodes index label es (kept_for es)) where
  -- The symbols kept at a missing child are those of no entry.
  under_missing :
      (node : ℕ) (n : NumericMemberIndexNode) (b : Bool)
      → get_elem? index node ≡ some n
      → child_of b n ≡ none
      → strip same_branch b (under same_branch (label node) es) ≡ []
  under_missing node n b at missing =
      sym (under-snoc same_branch (label node) b es) ∙ tree.no_child node n b at missing

  child_pos : (j : ℕ) (l : List Bool) (b : Bool) → label j ≡ l ++ b ∷ [] → 0 < j
  child_pos zero l b path = absurd (snoc_ne l b (sym tree.root ∙ path))
  child_pos (suc j) l b path = omega arith

  under_child :
      (node : ℕ) (n : NumericMemberIndexNode) (b : Bool) (j : ℕ)
      → get_elem? index node ≡ some n
      → child_of b n ≡ some j
      → strip same_branch b (under same_branch (label node) es) ≡ under same_branch (label j) es
  under_child node n b j at has =
      sym (under-snoc same_branch (label node) b es)
      ∙ ap (λ l. under same_branch l es) (sym (tree.child node n b j at has).1)

  keep_clear_child_lem :
      (node : ℕ) (n : NumericMemberIndexNode) (b : Bool) (result : Option ℕ)
      → get_elem? index node ≡ some n
      → keep_clear_child index n b result
        ≡ some (
            if b
            then join result
                (earliest (strip same_branch false (under same_branch (label node) es)))
            else result)
  unfolding keep_clear_child
  keep_clear_child_lem node n false result at = refl
  keep_clear_child_lem node n true result at = elim (Option-cases (n.children.0)) [
    | inl missing ↦ rw (keep_clear_child, missing, under_missing node n false at missing) refl
    | inr (j, has) ↦
        let (inside, path) = tree.child node n false j at has in
        let (m, there) = get_elem?-in index j inside in
        let (s, found) =
          earliest-some (under same_branch (label j) es)
            (tree.used j (child_pos j (label node) false path) inside) in
        rw
          (
            keep_clear_child,
            has,
            there,
            tree.kept j m there ∙ found,
            under_child node n false j at has,
            found,
          )
          refl
  ]

  pub below_bits_lem :
      (bit node limit : ℕ) (result : Option ℕ)
      → node < length index
      → below_bits bit index node limit result
        ≡ some
            (join result (earliest_before (branches bit limit) (under same_branch (label node) es)))
  unfolding below_bits
  below_bits_lem zero node limit result inside = refl
  below_bits_lem (suc bit) node limit result inside =
      let (n, at) = get_elem?-in index node inside in
      let b = branch_at limit bit in
      let held = under same_branch (label node) es in
      let rest = branches bit limit in
      let so_far = if b then join result (earliest (strip same_branch false held)) else result in
      let split = before_split b rest held result in
      elim (Option-cases (child_of b n)) [
        | inl missing ↦
            let nothing : earliest_before rest (strip same_branch b held) ≡ none =
              ap (earliest_before rest) (under_missing node n b at missing)
              ∙ earliest_before_nil rest in
            rw (below_bits, at, keep_clear_child_lem node n b result at, missing)
              (ap some (sym (ap (join so_far) nothing) ∙ split))
        | inr (j, has) ↦
            let (lt, path) = tree.child node n b j at has in
            rw (below_bits, at, keep_clear_child_lem node n b result at, has)
              (below_bits_lem bit j limit so_far lt
                ∙ ap some (
                    ap (λ e. join so_far (earliest_before rest e))
                      (sym (under_child node n b j at has))
                    ∙ split))
      ]
