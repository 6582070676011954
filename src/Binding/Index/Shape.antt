-- ===== src/Binding/Index/Shape.antt =====
-- The nodes of an index form a tree: each node has a label, the path to it, and stands for the entries
-- under its label. A ghost function gives the labels.
use ptx_frontend.Common.{
  ℕ, ◌≡◌, ◌≢◌, ◌<◌, inl, inr, refl, sym, ap, ◌∙◌, Option, none, some, List, [], ◌∷◌, ◌++◌, length,
  get_elem?, set, length-set, get_elem?-lt, arith, get_elem?-in, get_elem?-set,
}
use ptx_frontend.Binding.Index.{NodeKind, keep_at, keep_earliest}
use ptx_frontend.Binding.Index.Entries.{Entries, under}

module _ {B N : Type 0} (K : NodeKind B N) where
  -- The tree that the entries `es` make, with the symbol `value l` kept at the node with the label `l`.
  pub record Shape (nodes : List N) (label : ℕ → List B) (es : Entries B)
      (value : List B → Option ℕ) : Type 0 where
    pub some_node : 0 < length nodes
    pub root : label 0 ≡ []
    pub child :
        (i : ℕ) (n : N) (b : B) (j : ℕ)
        → get_elem? nodes i ≡ some n
        → K.child b n ≡ some j
        → (j < length nodes) × (label j ≡ label i ++ b ∷ [])
    pub no_child :
        (i : ℕ) (n : N) (b : B)
        → get_elem? nodes i ≡ some n
        → K.child b n ≡ none
        → under K.same (label i ++ b ∷ []) es ≡ []
    pub used : (i : ℕ) → 0 < i → i < length nodes → under K.same (label i) es ≢ []
    pub inj : (i j : ℕ) → i < length nodes → j < length nodes → label i ≡ label j → i ≡ j
    pub kept : (i : ℕ) (n : N) → get_elem? nodes i ≡ some n → K.kept n ≡ value (label i)

  module _ {nodes : List N} {label : ℕ → List B} {es : Entries B} {value : List B → Option ℕ}
      (tree : Shape nodes label es value) where
    module _ (i : ℕ) (n : N) (at : get_elem? nodes i ≡ some n) where
      -- Another symbol kept at a node.
      Shape-keep :
          (o : Option ℕ) (value' : List B → Option ℕ)
          → ((l : List B) → l ≢ label i → value' l ≡ value l)
          → value' (label i) ≡ o
          → Shape (set nodes i (K.keep o n)) label es value'
      Shape-keep o value' others here =
          let m = K.keep o n in
          let size = length-set nodes i m in
          let inside = get_elem?-lt nodes i at in
          record {
            some_node = omega (arith, tree.some_node);
            root = tree.root;
            child = λ k x b j e c. elim (get_elem?-set nodes i m k e) [
              | inl (same, is) ↦
                  let before : K.child b n ≡ some j = cc (K.child-keep b o n, is, c) in
                  let (lt, path) = tree.child i n b j at before in
                  (omega arith, path ∙ ap (λ k'. label k' ++ b ∷ []) (sym same))
              | inr (apart, old) ↦ let (lt, path) = tree.child k x b j old c in (omega arith, path)
            ];
            no_child = λ k x b e c. elim (get_elem?-set nodes i m k e) [
              | inl (same, is) ↦
                  let before : K.child b n ≡ none = cc (K.child-keep b o n, is, c) in
                  rw same (tree.no_child i n b at before)
              | inr (apart, old) ↦ tree.no_child k x b old c
            ];
            used = λ k pos lt. tree.used k pos (omega arith);
            inj = λ j k a b e. tree.inj j k (omega arith) (omega arith) e;
            kept = λ k x e. elim (get_elem?-set nodes i m k e) [
              | inl (same, is) ↦
                  ap K.kept is ∙ K.kept-keep o n ∙ sym (ap value' (ap label same) ∙ here)
              | inr (apart, old) ↦
                  let lt = get_elem?-lt nodes k old in
                  let distinct : label k ≢ label i = λ f. apart (tree.inj k i lt inside f) in
                  tree.kept k x old ∙ sym (others (label k) distinct)
            ];
          }

    pub keep_at_lem :
        (i s : ℕ) (value' : List B → Option ℕ)
        → i < length nodes
        → ((l : List B) → l ≢ label i → value' l ≡ value l)
        → value' (label i) ≡ keep_earliest (value (label i)) s
        → (nodes' : List N) × (keep_at K nodes i s ≡ some nodes')
          × (length nodes' ≡ length nodes)
          × Shape nodes' label es value'
    unfolding keep_at
    keep_at_lem i s value' inside others here =
        let (n, at) = get_elem?-in nodes i inside in
        let o = keep_earliest (K.kept n) s in
        let old = tree.kept i n at in
        (
          set nodes i (K.keep o n),
          rw (keep_at, at) refl,
          length-set nodes i (K.keep o n),
          Shape-keep i n at o value' others (here ∙ ap (λ v. keep_earliest v s) (sym old)),
        )
