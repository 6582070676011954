-- ===== src/Binding/Index/Numeric/Insert.antt =====
-- An insertion into the trie of members: no access is outside of the nodes, and the trie is that of the
-- entries with the new one.
use ptx_frontend.Common.{
  ℕ, zero, suc, ◌+◌, ◌^◌, ◌≡◌, ◌<◌, ◌≤◌, refl, sym, ap, ◌∙◌, subst, Bool, Option, some, List, [],
  ◌∷◌, ◌++◌, length, arith,
}
use mathlib.Core.List.{append_assoc, append-nil}
use ptx_frontend.Binding.Index.Entries.{Entries, under}
use ptx_frontend.Binding.Index.Earliest.{earliest, earliest-longer, earliest-longer_self}
use ptx_frontend.Binding.Index.Shape.{Shape, keep_at_lem}
use ptx_frontend.Binding.Index.Start.{under_start, Shape-start, Shape-new}
use ptx_frontend.Binding.Index.Descend.{descend_lem}
use ptx_frontend.Binding.Index.Numeric.{
  NumericMemberIndex, member_nodes, same_branch, branch_at, index_bits, index_member_number,
  new_index,
}

-- The branches of a member from the k-th bit down.
abbrev pub branches : ℕ → ℕ → List Bool
branches zero member = []
branches (suc bit) member = branch_at member bit ∷ branches bit member

-- The symbols that the nodes keep, for some entries.
abbrev pub kept_for : Entries Bool → List Bool → Option ℕ
kept_for es l = earliest (under same_branch l es)

-- The trie of some entries.
pub record IsIndex (index : NumericMemberIndex) (es : Entries Bool) : Type 0 where
  pub labels : ℕ → List Bool
  pub tree : Shape member_nodes index labels es (kept_for es)

record Inserted (nodes : NumericMemberIndex) (count : ℕ) (o : Option NumericMemberIndex)
    (es : Entries Bool) : Type 0 where
  index : NumericMemberIndex
  runs : o ≡ some index
  grows : length index ≤ length nodes + count
  is_index : IsIndex index es

index_bits_lem :
    (bit : ℕ) {nodes : NumericMemberIndex} {label : ℕ → List Bool} (node member symbol : ℕ)
    (es : Entries Bool)
    → Shape member_nodes nodes label
        ((label node, symbol) ∷ es)
        (kept_for ((label node, symbol) ∷ es))
    → node < length nodes
    → length nodes + bit < 2 ^ 32
    → Inserted nodes bit
        (index_bits bit nodes node member symbol)
        ((label node ++ branches bit member, symbol) ∷ es)
unfolding index_bits
index_bits_lem zero {nodes} {label} node member symbol es tree inside small = record {
  index = nodes;
  runs = refl;
  grows = omega arith;
  is_index = rw append-nil (record { labels = label; tree = tree });
}
index_bits_lem (suc bit) {nodes} {label} node member symbol es tree inside small =
    let b = branch_at member bit in
    let path = label node ++ b ∷ [] in
    let grown : Entries Bool = (path, symbol) ∷ es in
    let step =
      descend_lem member_nodes symbol es node b tree (omega arith) (λ e. ap earliest e) inside in
    let (kept, run, size, kept_tree) =
      keep_at_lem member_nodes step.tree step.node symbol (kept_for grown) step.inside
        (λ l ne.
          earliest-longer same_branch member_nodes.same_sound member_nodes.same_refl l (label node)
            b symbol es (λ f. ne (f ∙ sym step.at_path)))
        (rw step.at_path (
          earliest-longer_self same_branch member_nodes.same_sound member_nodes.same_refl
            (label node) b symbol es)) in
    let tree' =
      subst
        (λ q. Shape member_nodes kept step.labels ((q, symbol) ∷ es) (kept_for ((q, symbol) ∷ es)))
        (sym step.at_path) kept_tree in
    let further =
      index_bits_lem bit step.node member symbol es tree' (omega (arith, step.inside))
        (omega (arith, step.grows)) in
    let whole : step.labels step.node ++ branches bit member
        ≡ label node ++ b ∷ branches bit member =
      ap (λ q. q ++ branches bit member) step.at_path
      ∙ append_assoc (label node) (b ∷ []) (branches bit member) in
    record {
      index = further.index;
      runs = rw (index_bits, step.runs, run) further.runs;
      grows = omega (arith, further.grows, step.grows);
      is_index = subst (λ q. IsIndex further.index ((q, symbol) ∷ es)) whole further.is_index;
    }

-- An insertion adds its entry, and at most 32 nodes.
pub index_member_number_lem :
    (index : NumericMemberIndex) (member symbol : ℕ) (es : Entries Bool)
    → IsIndex index es
    → length index + 32 < 2 ^ 32
    → (index' : NumericMemberIndex) × (index_member_number index member symbol ≡ some index')
      × (length index' ≤ length index + 32)
      × IsIndex index' ((branches 32 member, symbol) ∷ es)
unfolding index_member_number
index_member_number_lem index member symbol es h small =
    let start = Shape-start member_nodes symbol h.tree in
    let (kept, run, size, kept_tree) =
      keep_at_lem member_nodes start 0 symbol (kept_for ((h.labels 0, symbol) ∷ es))
        h.tree.some_node
        (λ l ne.
          subst (λ q. kept_for ((q, symbol) ∷ es) l ≡ kept_for es l) (sym h.tree.root)
            (ap earliest (under_start member_nodes l symbol es (λ f. ne (f ∙ sym h.tree.root)))))
        (rw h.tree.root refl) in
    let full =
      index_bits_lem 32 0 member symbol es kept_tree (omega (arith, h.tree.some_node))
        (omega arith) in
    (
      full.index,
      rw (index_member_number, run) full.runs,
      omega (arith, full.grows),
      subst (λ q. IsIndex full.index ((q ++ branches 32 member, symbol) ∷ es)) h.tree.root
          full.is_index,
    )

pub new_index-IsIndex : IsIndex new_index []
new_index-IsIndex = record { labels = λ _. []; tree = Shape-new member_nodes (kept_for []) refl }
