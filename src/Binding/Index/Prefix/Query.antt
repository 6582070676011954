-- ===== src/Binding/Index/Prefix/Query.antt =====
-- The walk along a spelling through the trie of bases meets, one after the other, the groups whose base
-- is a prefix of the spelling.
use ptx_frontend.Common.{
  ℕ, ◌≡◌, ◌<◌, refl, sym, ap, ◌∙◌, subst, inl, inr, ◌⊎◌, Bool, false, Option, none, some, List, [],
  ◌∷◌, length, Text, get_elem?, get_elem?-in, arith, Option-cases, none≢some, Bool-cases, ◌==◌, ltb,
  if◌then◌else◌,
}
use ptx_frontend.Binding.Symbols.{Symbol}
use ptx_frontend.Binding.Index.{keep_earliest}
use ptx_frontend.Binding.Index.Entries.{Entries, under, under-snoc, strip}
use ptx_frontend.Binding.Index.Shape.{Shape}
use ptx_frontend.Binding.Index.Numeric.Query.{join, join_assoc, join-none}
use ptx_frontend.Binding.Index.Prefix.{
  ParameterizedPrefixIndex, prefix_nodes, find_child, is_member_of, keep_containing,
  containing_from, parameterized_containing,
}
use ptx_frontend.Binding.Index.Prefix.Insert.{ends, same_character, ends_at, IsPrefixIndex}

module _ (symbols : List Symbol) where
  -- An id of the table: the symbol there carries it.
  abbrev pub IsKnown : ℕ → Type 0
  IsKnown s = (c : Symbol) × (get_elem? symbols s ≡ some c) × (c.id ≡ s)

  abbrev pub AllKnown : Entries ℕ → Type 0
  AllKnown [] = Unit
  AllKnown ((p, s) ∷ es) = IsKnown s × AllKnown es

  pub AllKnown-strip : (c : ℕ) (es : Entries ℕ) → AllKnown es → AllKnown (strip same_character c es)
  AllKnown-strip c [] h = tt
  AllKnown-strip c (([], s) ∷ es) (k, h) = AllKnown-strip c es h
  AllKnown-strip c ((d ∷ p, s) ∷ es) (k, h) = elim (Bool-cases (d == c)) [
    | inl e ↦ rw e (k, AllKnown-strip c es h)
    | inr e ↦ rw e (AllKnown-strip c es h)
  ]

  AllKnown-under : (l : Text) (es : Entries ℕ) → AllKnown es → AllKnown (under same_character l es)
  AllKnown-under [] es h = h
  AllKnown-under (c ∷ l) es h = AllKnown-under l (strip same_character c es) (AllKnown-strip c es h)

  pub kept_one : (o : Option ℕ) (s : ℕ) → (keep_earliest o s ≡ o) ⊎ (keep_earliest o s ≡ some s)
  kept_one none s = inr refl
  kept_one (some t) s = elim (Bool-cases (ltb s t)) [ inl e ↦ inr (rw e) | inr e ↦ inl (rw e) ]

  ends-IsKnown : (es : Entries ℕ) {s : ℕ} → AllKnown es → ends es ≡ some s → IsKnown s
  ends-IsKnown [] h e = absurd (none≢some e)
  ends-IsKnown (([], t) ∷ es) {s} (k, h) e = elim (kept_one (ends es) t) [
    | inl same ↦ ends-IsKnown es h (sym same ∙ e)
    | inr new ↦ let is : t ≡ s = cc (new, e) in subst IsKnown is k
  ]
  ends-IsKnown ((c ∷ p, t) ∷ es) (k, h) e = ends-IsKnown es h e

  module _ (spelling : Text) where
    -- Whether a symbol is a group with the spelling as a member.
    unfoldable pub hit : ℕ → Bool
    hit s = elim (get_elem? symbols s) [ none ↦ false | some c ↦ is_member_of c spelling ]

    abbrev pub only_hit : Option ℕ → Option ℕ
    only_hit none = none
    only_hit (some s) = if hit s then some s else none

    abbrev pub met : Entries ℕ → Text → Option ℕ
    met es [] = none
    met es (c ∷ left) =
        let further = met (strip same_character c es) left in
        join (only_hit (ends (strip same_character c es))) further

    met_nil : (left : Text) → met [] left ≡ none
    met_nil [] = refl
    met_nil (c ∷ left) = rw (met_nil left)

    keep_containing_lem :
        (o r : Option ℕ)
        → ((s : ℕ) → o ≡ some s → IsKnown s)
        → keep_containing symbols spelling o r ≡ some (join r (only_hit o))
    unfolding keep_containing hit
    keep_containing_lem none r h = refl
    keep_containing_lem (some s) r h =
        let (c, at, id) = h s refl in
        elim (Bool-cases (is_member_of c spelling)) [
          | inl e ↦ rw (keep_containing, hit, at, e, id) refl
          | inr e ↦ rw (keep_containing, hit, at, e) refl
        ]

    module _ {index : ParameterizedPrefixIndex} {label : ℕ → Text} {es : Entries ℕ}
        (tree : Shape prefix_nodes index label es (ends_at es)) (known : AllKnown es) where
      containing_from_lem :
          (left : Text) (node : ℕ) (r : Option ℕ)
          → node < length index
          → containing_from index symbols spelling node left r
            ≡ some (join r (met (under same_character (label node) es) left))
      unfolding containing_from
      containing_from_lem [] node r inside = refl
      containing_from_lem (c ∷ left) node r inside =
          let (n, at) = get_elem?-in index node inside in
          let held = under same_character (label node) es in
          let snoc = under-snoc same_character (label node) c es in
          elim (Option-cases (find_child c n.children)) [
            | inl missing ↦
                let nothing : strip same_character c held ≡ [] =
                  sym snoc ∙ tree.no_child node n c at missing in
                rw (containing_from, at, missing, nothing, met_nil left) refl
            | inr (j, has) ↦
                let (lt, path) = tree.child node n c j at has in
                let (m, there) = get_elem?-in index j lt in
                let below : under same_character (label j) es ≡ strip same_character c held =
                  ap (λ l. under same_character l es) path ∙ snoc in
                let kept : m.symbol ≡ ends (strip same_character c held) =
                  tree.kept j m there ∙ ap ends below in
                let found = AllKnown-under (label j) es known in
                let keeps = keep_containing_lem m.symbol r (λ s e.
                  ends-IsKnown (under same_character (label j) es) found
                    (sym (tree.kept j m there) ∙ e)) in
                rw (containing_from, at, has, there, keeps)
                  (containing_from_lem left j (join r (only_hit m.symbol)) lt
                    ∙ rw (kept, below)
                        (ap some (
                          join_assoc r (only_hit (ends (strip same_character c held)))
                            (met (strip same_character c held) left))))
          ]

    pub parameterized_containing-met :
        (index : ParameterizedPrefixIndex) (es : Entries ℕ)
        → IsPrefixIndex index es
        → AllKnown es
        → parameterized_containing index symbols spelling ≡ some (met es spelling)
    unfolding parameterized_containing
    parameterized_containing-met [] es h known = absurd (omega (arith, h.tree.some_node))
    parameterized_containing-met (n ∷ index) es h known =
        let walk = containing_from_lem h.tree known spelling 0 none h.tree.some_node in
        walk
        ∙ ap (λ l. some (join none (met (under same_character l es) spelling))) h.tree.root
        ∙ ap some (join-none (met es spelling))
