-- ===== src/Binding/Index/Start.antt =====
-- A new index, and the start of an insertion at the root.
use ptx_frontend.Common.{
  ℕ, zero, suc, ◌≡◌, ◌≢◌, ◌<◌, refl, sym, ap, ◌∙◌, Option, none, some, List, [], ◌∷◌, ◌++◌,
  get_elem?, arith, none≢some,
}
use ptx_frontend.Binding.Index.{NodeKind}
use ptx_frontend.Binding.Index.Entries.{Entries, under, under-nil}
use ptx_frontend.Binding.Index.Shape.{Shape}

snoc_cons : {A : Type 0} (l : List A) (b : A) → (c : A) × (m : List A) × (l ++ b ∷ [] ≡ c ∷ m)
snoc_cons [] b = (b, [], refl)
snoc_cons (x ∷ l) b = (x, l ++ b ∷ [], refl)

module _ {B N : Type 0} (K : NodeKind B N) where
  pub Shape-new :
      (value : List B → Option ℕ) → value [] ≡ none → Shape K (K.fresh ∷ []) (λ _. []) [] value
  Shape-new value empty = record {
    some_node = omega arith;
    root = refl;
    child = λ i n b j e m. absurd (childless i n b j e m);
    no_child = λ i n b e m. under-nil K.same (b ∷ []);
    used = λ i pos lt. absurd (omega arith);
    inj = λ i j p q e. omega arith;
    kept = λ i n e. only i n e;
  }
    where
      childless :
          (i : ℕ) (n : N) (b : B) (j : ℕ)
          → get_elem? (K.fresh ∷ []) i ≡ some n
          → K.child b n ≡ some j
          → ⊥
      childless zero n b j e m =
          let same : K.fresh ≡ n = cc e in
          let found : none ≡ some j = cc (m, same, K.child-fresh b) in none≢some found
      childless (suc i) n b j e m = none≢some e

      only : (i : ℕ) (n : N) → get_elem? (K.fresh ∷ []) i ≡ some n → K.kept n ≡ value []
      only zero n e =
          let same : K.fresh ≡ n = cc e in ap K.kept (sym same) ∙ K.kept-fresh ∙ sym empty
      only (suc i) n e = absurd (none≢some e)

  -- An entry for the root is under no label but the root's.
  pub under_start :
      (l : List B) (s : ℕ) (es : Entries B)
      → l ≢ []
      → under K.same l (([], s) ∷ es) ≡ under K.same l es
  under_start [] s es h = absurd (h refl)
  under_start (b ∷ l) s es h = refl

  pub Shape-start :
      {nodes : List N} {label : ℕ → List B} {es : Entries B} {value : List B → Option ℕ} (s : ℕ)
      → Shape K nodes label es value
      → Shape K nodes label ((label 0, s) ∷ es) value
  Shape-start {nodes} {label} {es} s tree = rw tree.root (record {
    some_node = tree.some_node;
    root = tree.root;
    child = tree.child;
    no_child = λ i n b e m.
        let (c, l, path) = snoc_cons (label i) b in
        under_start (label i ++ b ∷ []) s es (λ f. cons_ne (sym path ∙ f))
        ∙ tree.no_child i n b e m;
    used = λ i pos lt.
        let not_root : label i ≢ [] =
          λ f. zero_lt i pos (tree.inj i 0 lt tree.some_node (f ∙ sym tree.root)) in
        rw (under_start (label i) s es not_root) (tree.used i pos lt);
    inj = tree.inj;
    kept = tree.kept;
  })
    where
      cons_ne : {c : B} {m : List B} → c ∷ m ≢ []
      cons_ne f = cc f

      zero_lt : (i : ℕ) → 0 < i → i ≢ 0
      zero_lt i h e = omega arith
