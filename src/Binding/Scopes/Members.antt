-- ===== src/Binding/Scopes/Members.antt =====
-- The indexes of member spellings: a spelling is entered under each base that it is a member of.
use ptx_frontend.Common.{
  ℕ, zero, suc, ◌+◌, ◌*◌, ◌^◌, ◌≡◌, ◌≢◌, ◌<◌, ◌≤◌, refl, ap, ◌∙◌, subst, inl, inr, true, false,
  Option, none, some, [], ◌∷◌, Text, arith, Bool-cases, Option-cases, ◌==◌, if◌then◌else◌, length,
  take, same_text, same_text_refl, same_text_sound,
}
use ptx_frontend.Binding.Names.{parse_parameterized_index}
use ptx_frontend.Binding.Index.Numeric.{NumericMemberIndex}
use ptx_frontend.Binding.Index.Numeric.Insert.{IsIndex, index_member_number_lem, new_index-IsIndex}
use ptx_frontend.Binding.Index.Numeric.Below.{Members, paths}
use ptx_frontend.Binding.Scopes.{TextMap, find, assign, or_new, index_member_of}

-- The indexes are those of the members that `content` gives for each base.
pub record HoldMembers (prefixes : TextMap NumericMemberIndex) (content : Text → Members)
    : Type 0 where
  pub absent : (b : Text) → find b prefixes ≡ none → content b ≡ []
  pub present :
      (b : Text) (index : NumericMemberIndex)
      → find b prefixes ≡ some index
      → (length index ≤ 32 * length (content b) + 1) × IsIndex index (paths 32 (content b))

abbrev pub add_member : Option ℕ → ℕ → Members → Members
add_member none symbol ms = ms
add_member (some m) symbol ms = (m, symbol) ∷ ms

abbrev pub with_member : (Text → Members) → Text → Option ℕ → ℕ → Text → Members
with_member content base o symbol b =
    if same_text b base then add_member o symbol (content b) else content b

module _ {prefixes : TextMap NumericMemberIndex} {content : Text → Members} where
  old-IsIndex :
      (base : Text)
      → HoldMembers prefixes content
      → (length (or_new (find base prefixes)) ≤ 32 * length (content base) + 1)
        × IsIndex (or_new (find base prefixes)) (paths 32 (content base))
  old-IsIndex base h = elim (Option-cases (find base prefixes)) [
    | inl e ↦ rw (e, h.absent base e) (omega arith, new_index-IsIndex)
    | inr (index, e) ↦ rw e (h.present base index e)
  ]

  pub index_member_of_lem :
      (base : Text) (o : Option ℕ) (symbol : ℕ)
      → HoldMembers prefixes content
      → 32 * length (content base) + 33 < 2 ^ 32
      → (prefixes' : TextMap NumericMemberIndex) × (index_member_of prefixes base o symbol
          ≡ some prefixes')
        × HoldMembers prefixes' (with_member content base o symbol)
  unfolding index_member_of
  index_member_of_lem base none symbol h small = (
    prefixes,
    refl,
    record {
      absent = λ b e. rw (with_none b) (h.absent b e);
      present = λ b index e. rw (with_none b) (h.present b index e);
    },
  )
    where
      with_none : (b : Text) → with_member content base none symbol b ≡ content b
      with_none b = elim (Bool-cases (same_text b base)) [ inl e ↦ rw e | inr e ↦ rw e ]
  index_member_of_lem base (some m) symbol h small =
      let (size, old) = old-IsIndex base h in
      let (index, run, size', new) =
        index_member_number_lem (or_new (find base prefixes)) m symbol (paths 32 (content base)) old
          (omega arith) in
      (
        assign base index prefixes,
        rw (index_member_of, run) refl,
        record {
          absent = λ b e. elim (Bool-cases (same_text b base)) [
            | inl t ↦ let found : some index ≡ none = rw t at e in absurd (cc found)
            | inr t ↦ rw t (h.absent b (rw t at e))
          ];
          present = λ b index' e. elim (Bool-cases (same_text b base)) [
            | inl t ↦
                let is : some index ≡ some index' = rw t at e in
                let same : index ≡ index' = cc is in
                let key = same_text_sound b base t in rw (← same, t, key) (omega arith, new)
            | inr t ↦ rw t (h.present b index' (rw t at e))
          ];
        },
      )

-- What the loop over the bases enters.
module _ (spelling : Text) (symbol : ℕ) where
  abbrev pub read : Text → Option ℕ
  read b = parse_parameterized_index b spelling

  unfoldable pub entered : ℕ → ℕ → (Text → Members) → Text → Members
  entered zero k content = content
  entered (suc r) k content =
      entered r (suc k) (with_member content (take k spelling) (read (take k spelling)) symbol)

  pub length-take : (k : ℕ) (t : Text) → k ≤ length t → length (take k t) ≡ k
  length-take zero t h = refl
  length-take (suc k) [] h = absurd (omega arith)
  length-take (suc k) (c ∷ t) h = ap suc (length-take k t (omega arith))

  other_length :
      (k : ℕ) (b : Text)
      → k ≤ length spelling
      → length b ≢ k
      → same_text b (take k spelling) ≡ false
  other_length k b h ne = elim (Bool-cases (same_text b (take k spelling))) [
    | inl e ↦
        let same = same_text_sound b (take k spelling) e in
        absurd (ne (ap length same ∙ length-take k spelling h))
    | inr e ↦ e
  ]

  -- A base shorter than those of the rounds that are left gets no entry.
  pub entered-passed :
      (r k : ℕ) (content : Text → Members) (b : Text)
      → length b < k
      → k + r ≤ length spelling
      → entered r k content b ≡ content b
  unfolding entered
  entered-passed zero k content b h fits = refl
  entered-passed (suc r) k content b h fits =
      let base = take k spelling in
      let other = other_length k b (omega arith) (omega arith) in
      entered-passed r (suc k) (with_member content base (read base) symbol) b (omega arith)
        (omega arith)
      ∙ rw other refl

  pub entered-read :
      (r k m : ℕ) (content : Text → Members) (b : Text)
      → read b ≡ some m
      → b ≡ take (length b) spelling
      → k ≤ length b
      → length b < k + r
      → k + r ≤ length spelling
      → entered r k content b ≡ (m, symbol) ∷ content b
  unfolding entered
  entered-read zero k m content b e cut low high fits = absurd (omega arith)
  entered-read (suc r) k m content b e cut low high fits =
      let base = take k spelling in
      let next = with_member content base (read base) symbol in
      elim (Bool-cases (length b == k)) [
        | inl t ↦
            let same : length b ≡ k = ground arith in
            let is : b ≡ base = cut ∙ ap (λ n. take n spelling) same in
            let found : same_text b base ≡ true =
              subst (λ u. same_text b u ≡ true) is (same_text_refl b) in
            let e' : read base ≡ some m = subst (λ u. read u ≡ some m) is e in
            entered-passed r (suc k) next b (omega arith) (omega arith) ∙ rw (found, e') refl
        | inr t ↦
            let apart : length b ≢ k = ground arith in
            let other = other_length k b (omega arith) apart in
            entered-read r (suc k) m next b e cut (omega arith) (omega arith) (omega arith)
            ∙ rw other refl
      ]

  pub entered-unread :
      (r k : ℕ) (content : Text → Members) (b : Text)
      → read b ≡ none
      → entered r k content b ≡ content b
  unfolding entered
  entered-unread zero k content b e = refl
  entered-unread (suc r) k content b e =
      let base = take k spelling in
      let next = with_member content base (read base) symbol in
      entered-unread r (suc k) next b e ∙ elim (Bool-cases (same_text b base)) [
        | inl t ↦
            let is = same_text_sound b base t in
            let e' : read base ≡ none = subst (λ u. read u ≡ none) is e in rw (t, e') refl
        | inr t ↦ rw t refl
      ]
