-- ===== src/Binding/Scopes/Spellings.antt =====
-- A declared spelling is entered under exactly the bases that it is a member of.
use ptx_frontend.Common.{
  ℕ, zero, suc, ◌+◌, ◌-◌, ◌*◌, ◌^◌, ◌≡◌, ◌≢◌, ◌<◌, ◌≤◌, refl, sym, ap, ◌∙◌, inl, inr, some, [], ◌∷◌,
  Text, arith, Bool-cases, Option-cases, length, take, same_text, same_text_sound, take-append,
  length-append,
}
use ptx_frontend.Common.Decimal.{decimal, decimal_cons}
use ptx_frontend.Binding.Names.{parse_parameterized_index}
use ptx_frontend.Binding.Names.Members.{parse_parameterized_index_iff, short_decimal}
use ptx_frontend.Binding.Index.Numeric.{NumericMemberIndex}
use ptx_frontend.Binding.Index.Numeric.Below.{Members}
use ptx_frontend.Binding.Scopes.{TextMap, index_bases, first_base_length, index_member_spelling}
use ptx_frontend.Binding.Scopes.Members.{
  HoldMembers, add_member, with_member, index_member_of_lem, read, entered, entered-passed,
  entered-read, entered-unread, length-take,
}

cons_ne : {c : ℕ} {b : Text} → c ∷ b ≢ []
cons_ne e = cc e

index_bases_lem :
    (r k : ℕ) {prefixes : TextMap NumericMemberIndex} {content : Text → Members} (spelling : Text)
    (symbol : ℕ)
    → HoldMembers prefixes content
    → ((b : Text) → k ≤ length b → 32 * length (content b) + 33 < 2 ^ 32)
    → k + r ≤ length spelling
    → (prefixes' : TextMap NumericMemberIndex) × (index_bases r k prefixes spelling symbol
        ≡ some prefixes')
      × HoldMembers prefixes' (entered spelling symbol r k content)
unfolding index_bases entered
index_bases_lem zero k {prefixes} spelling symbol h small fits = (prefixes, refl, h)
index_bases_lem (suc r) k {content} spelling symbol h small fits =
    let base = take k spelling in
    let size = length-take spelling symbol k spelling (omega arith) in
    let (grown, run, held) =
      index_member_of_lem base (read spelling symbol base) symbol h (small base (omega arith)) in
    let small' : (b : Text)
        → suc k ≤ length b
        → 32 * length (with_member content base (read spelling symbol base) symbol b) + 33
          < 2 ^ 32 =
      λ b longer. elim (Bool-cases (same_text b base)) [
        | inl t ↦ let same = same_text_sound b base t in absurd (too_long b base same (omega arith))
        | inr t ↦ rw t (small b (omega arith))
      ] in
    let (prefixes', run', held') =
      index_bases_lem r (suc k) spelling symbol held small' (omega arith) in
    (prefixes', rw (index_bases, run) run', held')
  where
    too_long : (b base : Text) → b ≡ base → length base < length b → ⊥
    too_long b base e h = let same = ap length e in omega arith

-- The bases of a member are among those that the loop visits.
member_base :
    (b spelling : Text) (m : ℕ)
    → b ≢ []
    → parse_parameterized_index b spelling ≡ some m
    → (b ≡ take (length b) spelling)
      × (first_base_length spelling ≤ length b)
      × (length b < length spelling)
member_base b spelling m some_base e =
    let (is, small) = (parse_parameterized_index_iff b spelling m).0 e in
    let short = short_decimal m small in
    let digits : 1 ≤ length (decimal m) = let (c, t, d) = decimal_cons m in rw d (omega arith) in
    let size : length spelling ≡ length b + length (decimal m) =
      ap length is ∙ length-append b (decimal m) in
    let pos : 1 ≤ length b = not_empty b some_base in
    (sym (take-append b (decimal m)) ∙ ap (take (length b)) (sym is), ground arith, omega arith)
  where
    not_empty : (b : Text) → b ≢ [] → 1 ≤ length b
    not_empty [] h = absurd (h refl)
    not_empty (c ∷ b) h = omega arith

abbrev pub with_spelling : (Text → Members) → Text → ℕ → Text → Members
with_spelling content spelling symbol [] = content []
with_spelling content spelling symbol (c ∷ b) =
    add_member (parse_parameterized_index (c ∷ b) spelling) symbol (content (c ∷ b))

HoldMembers-ext :
    {prefixes : TextMap NumericMemberIndex} {content content' : Text → Members}
    → ((b : Text) → content b ≡ content' b)
    → HoldMembers prefixes content
    → HoldMembers prefixes content'
HoldMembers-ext same h = record {
  absent = λ b e. rw (← same b) (h.absent b e);
  present = λ b index e. rw (← same b) (h.present b index e);
}

first_base_length_lem :
    (spelling : Text)
    → 1 ≤ length spelling
    → (1 ≤ first_base_length spelling) × (first_base_length spelling ≤ length spelling)
first_base_length_lem spelling h = (ground arith, ground arith)

entered-with_spelling :
    (content : Text → Members) (spelling : Text) (symbol : ℕ) (b : Text)
    → 1 ≤ length spelling
    → entered spelling symbol
        (length spelling - first_base_length spelling)
        (first_base_length spelling)
        content
        b
      ≡ with_spelling content spelling symbol b
entered-with_spelling content spelling symbol [] some_text =
    let (low, high) = first_base_length_lem spelling some_text in
    entered-passed spelling symbol (length spelling - first_base_length spelling)
      (first_base_length spelling) content [] (omega arith) (omega arith)
entered-with_spelling content spelling symbol (c ∷ b) some_text =
    let (low, high) = first_base_length_lem spelling some_text in
    let first = first_base_length spelling in
    elim (Option-cases (parse_parameterized_index (c ∷ b) spelling)) [
      | inl e ↦
          rw e (entered-unread spelling symbol (length spelling - first) first content (c ∷ b) e)
      | inr (m, e) ↦
          let (cut, after, before) = member_base (c ∷ b) spelling m cons_ne e in
          rw e (
            entered-read spelling symbol (length spelling - first) first m content (c ∷ b) e cut
              after (omega arith) (omega arith))
    ]

pub index_member_spelling_lem :
    {prefixes : TextMap NumericMemberIndex} {content : Text → Members} (spelling : Text)
    (symbol : ℕ)
    → HoldMembers prefixes content
    → ((b : Text) → 32 * length (content b) + 33 < 2 ^ 32)
    → 1 ≤ length spelling
    → (prefixes' : TextMap NumericMemberIndex) × (index_member_spelling prefixes spelling symbol
        ≡ some prefixes')
      × HoldMembers prefixes' (with_spelling content spelling symbol)
unfolding index_member_spelling
index_member_spelling_lem {prefixes} {content} spelling symbol h small some_text =
    let (low, high) = first_base_length_lem spelling some_text in
    let first = first_base_length spelling in
    let (prefixes', run, held) =
      index_bases_lem (length spelling - first) first spelling symbol h (λ b longer. small b)
        (omega arith) in
    (
      prefixes',
      run,
      HoldMembers-ext (λ b. entered-with_spelling content spelling symbol b some_text) held,
    )
