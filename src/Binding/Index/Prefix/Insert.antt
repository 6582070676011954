-- ===== src/Binding/Index/Prefix/Insert.antt =====
-- An insertion into the trie of bases: no access is outside of the nodes, and the trie is that of the
-- entries with the new one.
use mathlib.Core.List.{append_assoc, append-nil}
use ptx_frontend.Common.{
  ℕ, ◌+◌, ◌^◌, ◌≡◌, ◌≢◌, ◌<◌, ◌≤◌, refl, sym, ap, ◌∙◌, subst, inl, inr, Bool, Option, none, some,
  [], ◌∷◌, ◌++◌, length, Text, arith, none≢some, Bool-cases, ◌==◌,
}
use ptx_frontend.Binding.Index.{keep_earliest}
use ptx_frontend.Binding.Index.Entries.{Entries, under, under-cons, rest, rest_self, add}
use ptx_frontend.Binding.Index.Earliest.{rest_shorter}
use ptx_frontend.Binding.Index.Shape.{Shape, keep_at_lem}
use ptx_frontend.Binding.Index.Start.{Shape-start, Shape-new}
use ptx_frontend.Binding.Index.Descend.{descend_lem}
use ptx_frontend.Binding.Index.Prefix.{
  ParameterizedPrefixIndex, prefix_nodes, index_characters, index_parameterized_base, new_prefixes,
}

-- The earliest symbol of the entries that end at a label.
abbrev pub ends : Entries ℕ → Option ℕ
ends [] = none
ends (([], s) ∷ es) = keep_earliest (ends es) s
ends ((c ∷ p, s) ∷ es) = ends es

abbrev pub same_character : ℕ → ℕ → Bool
same_character b c = b == c

abbrev pub ends_at : Entries ℕ → Text → Option ℕ
ends_at es l = ends (under same_character l es)

-- The trie of some entries.
pub record IsPrefixIndex (index : ParameterizedPrefixIndex) (es : Entries ℕ) : Type 0 where
  pub labels : ℕ → Text
  pub tree : Shape prefix_nodes index labels es (ends_at es)

pub rest_sound : (l p r : Text) → rest same_character l p ≡ some r → p ≡ l ++ r
rest_sound [] p r h = cc h
rest_sound (b ∷ l) [] r h = absurd (none≢some h)
rest_sound (b ∷ l) (c ∷ p) r h = elim (Bool-cases (c == b)) [
  | inl e ↦
      let further = rest_sound l p r (rw e at h) in
      let first = prefix_nodes.same_sound c b e in cc (first, further)
  | inr e ↦ absurd (none≢some (rw e at h))
]

-- A new entry counts at its own label only.
pub ends_at-cons_other :
    (l p : Text) (s : ℕ) (es : Entries ℕ) → l ≢ p → ends_at ((p, s) ∷ es) l ≡ ends_at es l
ends_at-cons_other l p s es ne =
    rw (under-cons same_character l p s es) (cases (rest same_character l p) refl)
  where
    cases :
        (o : Option Text)
        → rest same_character l p ≡ o
        → ends (add same_character o s (under same_character l es)) ≡ ends_at es l
    cases none e = refl
    cases (some []) e = absurd (ne (sym (rest_sound l p [] e ∙ append-nil l)))
    cases (some (c ∷ r)) e = refl

ends_at-cons_self :
    (p : Text) (s : ℕ) (es : Entries ℕ) → ends_at ((p, s) ∷ es) p ≡ keep_earliest (ends_at es p) s
ends_at-cons_self p s es =
    rw (under-cons same_character p p s es)
      (rw (rest_self same_character prefix_nodes.same_sound prefix_nodes.same_refl p) refl)

record Walked (nodes : ParameterizedPrefixIndex) (count : ℕ)
    (o : Option (ParameterizedPrefixIndex × ℕ)) (path : Text) (s : ℕ) (es : Entries ℕ)
    : Type 0 where
  index : ParameterizedPrefixIndex
  node : ℕ
  labels : ℕ → Text
  runs : o ≡ some (index, node)
  inside : node < length index
  grows : length index ≤ length nodes + count
  at_path : labels node ≡ path
  tree : Shape prefix_nodes index labels ((path, s) ∷ es) (ends_at es)

index_characters_lem :
    (base : Text) {nodes : ParameterizedPrefixIndex} {label : ℕ → Text} (node s : ℕ)
    (es : Entries ℕ)
    → Shape prefix_nodes nodes label ((label node, s) ∷ es) (ends_at es)
    → node < length nodes
    → length nodes + length base < 2 ^ 32
    → Walked nodes (length base) (index_characters nodes node base) (label node ++ base) s es
unfolding index_characters
index_characters_lem [] {nodes} {label} node s es tree inside small = rw append-nil (record {
  index = nodes;
  node = node;
  labels = label;
  runs = refl;
  inside = inside;
  grows = omega arith;
  at_path = refl;
  tree = tree;
})
index_characters_lem (c ∷ base) {nodes} {label} node s es tree inside small =
    let path = label node ++ c ∷ [] in
    let unseen : under same_character path ((label node, s) ∷ es) ≡ under same_character path es =
      rw (under-cons same_character path (label node) s es) (
        ap (λ o. add same_character o s (under same_character path es))
          (rest_shorter same_character prefix_nodes.same_sound prefix_nodes.same_refl (label node)
            c)) in
    let step =
      descend_lem prefix_nodes s es node c tree (omega arith) (λ e. ap ends (sym unseen ∙ e))
        inside in
    let tree' =
      subst (λ q. Shape prefix_nodes step.nodes' step.labels ((q, s) ∷ es) (ends_at es))
        (sym step.at_path) step.tree in
    let further =
      index_characters_lem base step.node s es tree' step.inside (omega (arith, step.grows)) in
    let whole : step.labels step.node ++ base ≡ label node ++ c ∷ base =
      ap (λ q. q ++ base) step.at_path ∙ append_assoc (label node) (c ∷ []) base in
    record {
      index = further.index;
      node = further.node;
      labels = further.labels;
      runs = rw (index_characters, step.runs) further.runs;
      inside = further.inside;
      grows = omega (arith, further.grows, step.grows);
      at_path = further.at_path ∙ whole;
      tree =
          subst (λ q. Shape prefix_nodes further.index further.labels ((q, s) ∷ es) (ends_at es))
            whole further.tree;
    }

-- An insertion adds its entry, and at most a node for each character.
pub index_parameterized_base_lem :
    (index : ParameterizedPrefixIndex) (base : Text) (s : ℕ) (es : Entries ℕ)
    → IsPrefixIndex index es
    → length index + length base < 2 ^ 32
    → (index' : ParameterizedPrefixIndex) × (index_parameterized_base index base s ≡ some index')
      × (length index' ≤ length index + length base)
      × IsPrefixIndex index' ((base, s) ∷ es)
unfolding index_parameterized_base
index_parameterized_base_lem index base s es h small =
    let start = Shape-start prefix_nodes s h.tree in
    let walk = index_characters_lem base 0 s es start h.tree.some_node small in
    let root : h.labels 0 ++ base ≡ base = ap (λ q. q ++ base) h.tree.root in
    let tree =
      subst (λ q. Shape prefix_nodes walk.index walk.labels ((q, s) ∷ es) (ends_at es)) root
        walk.tree in
    let at_base = walk.at_path ∙ root in
    let (kept, run, size, kept_tree) =
      keep_at_lem prefix_nodes tree walk.node s (ends_at ((base, s) ∷ es)) walk.inside
        (λ l ne. ends_at-cons_other l base s es (λ f. ne (f ∙ sym at_base)))
        (rw at_base (ends_at-cons_self base s es)) in
    (
      kept,
      rw (index_parameterized_base, walk.runs) run,
      omega (arith, walk.grows),
      record { labels = walk.labels; tree = kept_tree },
    )

pub new_prefixes-IsPrefixIndex : IsPrefixIndex new_prefixes []
new_prefixes-IsPrefixIndex = record {
  labels = λ _. [];
  tree = Shape-new prefix_nodes (ends_at []) refl;
}
