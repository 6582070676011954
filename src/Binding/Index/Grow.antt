-- ===== src/Binding/Index/Grow.antt =====
-- A step down in the tree: the child is there, or is added as a new node.
use ptx_frontend.Common.{
  ℕ, zero, suc, ◌≡◌, ◌≢◌, ◌<◌, ◌⊎◌, inl, inr, refl, sym, ap, ◌∙◌, false, Option, none, some, List,
  [], ◌∷◌, ◌++◌, length, get_elem?, set, length-set, length-append, get_elem?-lt, ◌==◌,
  if◌then◌else◌, arith, Bool-cases, get_elem?-snoc, get_elem?-set, none≢some, false≢true, ltb,
  ltb→lt,
}
use ptx_frontend.Binding.Index.{NodeKind}
use ptx_frontend.Binding.Index.Entries.{Entries, under, snoc_inj, under-snoc}
use ptx_frontend.Binding.Index.Shape.{Shape}

pub snoc_ne : {A : Type 0} (l : List A) (b : A) → [] ≢ l ++ b ∷ []
snoc_ne [] b e = cc e
snoc_ne (x ∷ l) b e = cc e

longer : {A : Type 0} (l : List A) (c : A) → l ++ c ∷ [] ≢ l
longer [] c e = cc e
longer (x ∷ l) c e = longer l c (cc e)

module _ {B N : Type 0} (K : NodeKind B N) {nodes : List N} {label : ℕ → List B} {es : Entries B}
    {value : List B → Option ℕ} (tree : Shape K nodes label es value) (i : ℕ) (n : N)
    (at : get_elem? nodes i ≡ some n) (b : B) (es' : Entries B)
    (mono : (l : List B) → under K.same l es ≢ [] → under K.same l es' ≢ [])
    (others : (l : List B)
      → l ≢ label i ++ b ∷ []
      → under K.same l es ≡ []
      → under K.same l es' ≡ [])
    (there : under K.same (label i ++ b ∷ []) es' ≢ []) where
  -- The only node with a child of the label `label i ++ b ∷ []` is the i-th.
  no_other_parent :
      (k : ℕ) (x : N) (c : B)
      → get_elem? nodes k ≡ some x
      → label k ++ c ∷ [] ≡ label i ++ b ∷ []
      → (k ≡ i) × (x ≡ n) × (c ≡ b)
  no_other_parent k x c e path =
      let (parent, step) = snoc_inj (label k) (label i) path in
      let same = tree.inj k i (get_elem?-lt nodes k e) (get_elem?-lt nodes i at) parent in
      let found : some x ≡ some n = cc (e, at, same) in (same, cc found, step)

  pub Shape-grown : (j : ℕ) → K.child b n ≡ some j → Shape K nodes label es' value
  Shape-grown j has = record {
    some_node = tree.some_node;
    root = tree.root;
    child = tree.child;
    no_child = λ k x c e m.
        others (label k ++ c ∷ [])
          (λ path.
            let (same, is, step) = no_other_parent k x c e path in
            let missing : none ≡ some j = cc (m, has, is, step) in none≢some missing)
          (tree.no_child k x c e m);
    used = λ k pos lt. mono (label k) (tree.used k pos lt);
    inj = tree.inj;
    kept = tree.kept;
  }

  pub label' : ℕ → List B
  label' k = if k == length nodes then label i ++ b ∷ [] else label k

  abbrev pub attached : List N
  attached = set nodes i (K.link b (length nodes) n) ++ K.fresh ∷ []

  pub length-attached : length attached ≡ suc (length nodes)
  length-attached =
      let m = K.link b (length nodes) n in
      omega (arith, length-append (set nodes i m) (K.fresh ∷ []), length-set nodes i m)

  pub label-new : label' (length nodes) ≡ label i ++ b ∷ []
  unfolding label'
  label-new = ground arith

  pub label-old : (k : ℕ) → k < length nodes → label' k ≡ label k
  unfolding label'
  label-old k h = let apart : (k == length nodes) ≡ false = ground arith in rw apart

  -- The nodes afterwards: the new one, the parent, and those that are as before.
  get_elem?-attached :
      (k : ℕ) (x : N)
      → get_elem? attached k ≡ some x
      → ((k ≡ length nodes) × (x ≡ K.fresh))
        ⊎ (((k ≡ i) × (x ≡ K.link b (length nodes) n))
            ⊎ ((k ≢ i) × (k < length nodes) × (get_elem? nodes k ≡ some x)))
  get_elem?-attached k x e =
      let m = K.link b (length nodes) n in
      elim (get_elem?-snoc (set nodes i m) K.fresh k e) [
        | inl (same, is) ↦ inl (same ∙ length-set nodes i m, is)
        | inr (lt, old) ↦ elim (get_elem?-set nodes i m k old) [
          | inl h ↦ inr (inl h)
          | inr (apart, e') ↦ inr (inr (apart, get_elem?-lt nodes k e', e'))
        ]
      ]

  module _ (missing : K.child b n ≡ none) (empty : value (label i ++ b ∷ []) ≡ none) where
    inside : i < length nodes
    inside = get_elem?-lt nodes i at

    nothing_there : under K.same (label i ++ b ∷ []) es ≡ []
    nothing_there = tree.no_child i n b at missing

    fresh_path : (k : ℕ) → k < length nodes → label k ≢ label i ++ b ∷ []
    fresh_path zero h e = snoc_ne (label i) b (sym tree.root ∙ e)
    fresh_path (suc k) h e = tree.used (suc k) (omega arith) h (rw e nothing_there)

    label'_step :
        (k j : ℕ) (c : B)
        → k < length nodes
        → j < length nodes
        → label j ≡ label k ++ c ∷ []
        → label' j ≡ label' k ++ c ∷ []
    label'_step k j c hk hj e = rw (label-old k hk, label-old j hj) e

    child-parent :
        (c : B) (j : ℕ)
        → K.child c (K.link b (length nodes) n) ≡ some j
        → (j < length attached) × (label' j ≡ label' i ++ c ∷ [])
    child-parent c j m = elim (Bool-cases (K.same c b)) [
      | inl t ↦
          let step = K.same_sound c b t in
          let found : some (length nodes) ≡ some j =
            cc (m, step, K.child-link b (length nodes) n) in
          let is : length nodes ≡ j = cc found in
          (
            omega (arith, length-attached),
            ap label' (sym is) ∙ label-new ∙ sym (rw (label-old i inside, step)),
          )
      | inr t ↦
          let step : c ≢ b = λ e. false≢true (sym t ∙ rw e (K.same_refl b)) in
          let old : K.child c n ≡ some j = sym (K.child-link_other b c (length nodes) n step) ∙ m in
          let (lt, path) = tree.child i n c j at old in
          (omega (arith, length-attached), label'_step i j c inside lt path)
    ]

    no_child-parent :
        (c : B)
        → K.child c (K.link b (length nodes) n) ≡ none
        → under K.same (label i ++ c ∷ []) es' ≡ []
    no_child-parent c m =
        let step : c ≢ b = λ e.
          let added : none ≡ some (length nodes) = cc (m, e, K.child-link b (length nodes) n) in
          none≢some added in
        let old : K.child c n ≡ none = sym (K.child-link_other b c (length nodes) n step) ∙ m in
        others (label i ++ c ∷ []) (λ e. step (snoc_inj (label i) (label i) e).1)
          (tree.no_child i n c at old)

    no_child-new : (c : B) → under K.same ((label i ++ b ∷ []) ++ c ∷ []) es' ≡ []
    no_child-new c =
        let path = label i ++ b ∷ [] in
        others (path ++ c ∷ []) (longer path c)
          (rw (under-snoc K.same path c es, nothing_there) refl)

    label'_inj :
        (j k : ℕ) → j < suc (length nodes) → k < suc (length nodes) → label' j ≡ label' k → j ≡ k
    label'_inj j k p q e = elim (Bool-cases (ltb j (length nodes))) [
      | inl s ↦ elim (Bool-cases (ltb k (length nodes))) [
        | inl t ↦
            let hj = ltb→lt j (length nodes) s in
            let hk = ltb→lt k (length nodes) t in
            tree.inj j k hj hk (sym (label-old j hj) ∙ e ∙ label-old k hk)
        | inr t ↦
            let hj = ltb→lt j (length nodes) s in
            let last : k ≡ length nodes = ground arith in
            absurd (fresh_path j hj (sym (label-old j hj) ∙ e ∙ ap label' last ∙ label-new))
      ]
      | inr s ↦ elim (Bool-cases (ltb k (length nodes))) [
        | inl t ↦
            let hk = ltb→lt k (length nodes) t in
            let last : j ≡ length nodes = ground arith in
            absurd (fresh_path k hk (sym (label-old k hk) ∙ sym e ∙ ap label' last ∙ label-new))
        | inr t ↦ ground arith
      ]
    ]

    used-attached : (k : ℕ) → 0 < k → k < suc (length nodes) → under K.same (label' k) es' ≢ []
    used-attached k pos lt = elim (Bool-cases (ltb k (length nodes))) [
      | inl t ↦
          let h = ltb→lt k (length nodes) t in
          rw (label-old k h) (mono (label k) (tree.used k pos h))
      | inr t ↦ let last : k ≡ length nodes = ground arith in rw (last, label-new) there
    ]

    pub Shape-attached : Shape K attached label' es' value
    Shape-attached = record {
      some_node = omega (arith, length-attached);
      root = label-old 0 tree.some_node ∙ tree.root;
      child = λ k x c j e m. elim (get_elem?-attached k x e) [
        | inl (same, is) ↦
            let found : none ≡ some j = cc (m, is, K.child-fresh c) in absurd (none≢some found)
        | inr (inl (same, is)) ↦
            let found : K.child c (K.link b (length nodes) n) ≡ some j = cc (m, is) in
            rw same (child-parent c j found)
        | inr (inr (apart, lt, old)) ↦
            let (inside', path) = tree.child k x c j old m in
            (omega (arith, length-attached), label'_step k j c lt inside' path)
      ];
      no_child = λ k x c e m. elim (get_elem?-attached k x e) [
        | inl (same, is) ↦ rw (same, label-new) (no_child-new c)
        | inr (inl (same, is)) ↦
            let found : K.child c (K.link b (length nodes) n) ≡ none = cc (m, is) in
            rw (same, label-old i inside) (no_child-parent c found)
        | inr (inr (apart, lt, old)) ↦ rw (label-old k lt) (
            others (label k ++ c ∷ []) (λ path. apart (no_other_parent k x c old path).0)
              (tree.no_child k x c old m))
      ];
      used = λ k pos lt. used-attached k pos (omega (arith, length-attached));
      inj = λ j k p q e.
          label'_inj j k (omega (arith, length-attached)) (omega (arith, length-attached)) e;
      kept = λ k x e. elim (get_elem?-attached k x e) [
        | inl (same, is) ↦
            ap K.kept is ∙ K.kept-fresh ∙ sym (ap value (ap label' same ∙ label-new) ∙ empty)
        | inr (inl (same, is)) ↦
            ap K.kept is
            ∙ K.kept-link b (length nodes) n
            ∙ tree.kept i n at
            ∙ sym (ap value (ap label' same ∙ label-old i inside))
        | inr (inr (apart, lt, old)) ↦ tree.kept k x old ∙ sym (ap value (label-old k lt))
      ];
    }
