-- ===== src/Binding/Index/Descend.antt =====
-- The step of an insertion from a node to its child, as one operation on the tree.
use ptx_frontend.Common.{
  ℕ, suc, ◌%◌, ◌^◌, ◌≡◌, ◌≢◌, ◌<◌, ◌≤◌, inl, inr, refl, Option, none, some, List, [], ◌∷◌, ◌++◌,
  length, arith, Option-cases, get_elem?-in,
}
use ptx_frontend.Binding.Index.{NodeKind, descend}
use ptx_frontend.Binding.Index.Entries.{Entries, under, under-longer, under-longer_mono, under_self}
use ptx_frontend.Binding.Index.Shape.{Shape}
use ptx_frontend.Binding.Index.Grow.{
  Shape-grown, Shape-attached, attached, label', label-new, length-attached,
}

module _ {B N : Type 0} (K : NodeKind B N) where
  -- After the step to the child for `b`: the nodes, the child and its label, for the entries `es`.
  pub record Stepped (nodes : List N) (o : Option (List N × ℕ)) (path : List B) (es : Entries B)
      (value : List B → Option ℕ) : Type 0 where
    pub nodes' : List N
    pub node : ℕ
    pub labels : ℕ → List B
    pub runs : o ≡ some (nodes', node)
    pub inside : node < length nodes'
    pub grows : length nodes' ≤ suc (length nodes)
    pub at_path : labels node ≡ path
    pub tree : Shape K nodes' labels es value

  module _ {nodes : List N} {label : ℕ → List B} {value : List B → Option ℕ} (s : ℕ)
      (es : Entries B) (i : ℕ) (b : B) (tree : Shape K nodes label ((label i, s) ∷ es) value)
      (small : length nodes < 2 ^ 32)
      (empty : under K.same (label i ++ b ∷ []) ((label i, s) ∷ es) ≡ []
        → value (label i ++ b ∷ []) ≡ none) where
    abbrev before : Entries B
    before = (label i, s) ∷ es

    abbrev after : Entries B
    after = (label i ++ b ∷ [], s) ∷ es

    mono : (l : List B) → under K.same l before ≢ [] → under K.same l after ≢ []
    mono l = under-longer_mono K.same K.same_sound K.same_refl l (label i) b s es

    others :
        (l : List B)
        → l ≢ label i ++ b ∷ []
        → under K.same l before ≡ []
        → under K.same l after ≡ []
    others l = under-longer K.same K.same_sound K.same_refl l (label i) b s es

    there : under K.same (label i ++ b ∷ []) after ≢ []
    there = under_self K.same K.same_sound K.same_refl (label i ++ b ∷ []) s es

    pub descend_lem :
        i < length nodes
        → Stepped nodes
            (descend K nodes i b)
            (label i ++ b ∷ [])
            ((label i ++ b ∷ [], s) ∷ es)
            value
    unfolding descend
    descend_lem inside =
        let (n, at) = get_elem?-in nodes i inside in
        elim (Option-cases (K.child b n)) [
          | inl missing ↦
              let none_below = empty (tree.no_child i n b at missing) in
              let fits : length nodes % 2 ^ 32 ≡ length nodes = omega arith in
              let size = length-attached K tree i n at b after mono others there in
              record {
                nodes' = attached K tree i n at b after mono others there;
                node = length nodes;
                labels = label' K tree i n at b after mono others there;
                runs = rw (descend, at, missing, fits) refl;
                inside = omega (arith, size);
                grows = omega (arith, size);
                at_path = label-new K tree i n at b after mono others there;
                tree = Shape-attached K tree i n at b after mono others there missing none_below;
              }
          | inr (j, has) ↦
              let (lt, path) = tree.child i n b j at has in
              record {
                nodes' = nodes;
                node = j;
                labels = label;
                runs = rw (descend, at, has) refl;
                inside = lt;
                grows = omega arith;
                at_path = path;
                tree = Shape-grown K tree i n at b after mono others there j has;
              }
        ]
