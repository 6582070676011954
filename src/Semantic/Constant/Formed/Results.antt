-- ===== src/Semantic/Constant/Formed/Results.antt =====
-- Calls, casts, unary operators and conditionals keep the parts of an `ExpressionInfo` consistent.
use ptx_frontend.Common.{
  ◌≡◌, inl, inr, refl, sym, subst, ◌∙◌, Bool, true, not, ◌&&◌, ◌||◌, Option, none, some, Text,
  is_some, codes, same_text, arith, ◌==◌, if◌then◌else◌, Bool-cases,
}
use ptx_frontend.Base.Scalar.{f64}
use ptx_frontend.Syntax.Constant.{AstConstantUnaryOperator, plus, minus, logical_not, bitwise_not}
use ptx_frontend.Semantic.Integer.{IntegerType, signed, unsigned, IntegerValue, usual_integer_type}
use ptx_frontend.Semantic.Constant.{
  Binary64, ExpressionCategory, invalid, integral, floating, address, same_category, ExpressionInfo,
  invalid_info, with_integer, retype,
}
use ptx_frontend.Semantic.Constant.Binary.{promote_floating_operands}
use ptx_frontend.Semantic.Constant.Result.{
  call_result, retyped, cast_result, unary_result, common_integer, chosen, integer_branches,
  promoted_branches, conditional_result, same_integer, logical_integer, complement_integer,
  negated_integer, negated_floating,
}
use ptx_frontend.Semantic.Constant.Formed.{
  AllWords, FormedAs, IsFormed, boolean_word, invalid-IsFormed, both, operands, words,
}
use ptx_frontend.Semantic.Integer.Range.{negate_bits-IsWord}

abbrev info : {F : Type 0} → ExpressionCategory → Option IntegerValue → Option F → ExpressionInfo F
info c v x = record { category = c; integer_value = v; floating_value = x; floating_type = f64 }

same_category_sound : (a b : ExpressionCategory) → same_category a b ≡ true → a ≡ b
same_category_sound invalid invalid h = refl
same_category_sound integral integral h = refl
same_category_sound floating floating h = refl
same_category_sound address address h = refl
same_category_sound _ _ h = cc h

module _ {F : Type 0} where
  -- Another word in an integral result.
  with_word :
      (i : ExpressionInfo F) (w : Option IntegerValue)
      → IsFormed i
      → i.category ≡ integral
      → AllWords w
      → IsFormed (with_integer i w)
  with_word i w h e k =
      let as_integral : FormedAs integral i.integer_value i.floating_value =
        subst (λ (c : ExpressionCategory). FormedAs c i.integer_value i.floating_value) e h.0 in
      (
        subst (λ (c : ExpressionCategory). FormedAs c w i.floating_value) (sym e)
            (k, as_integral.1),
        h.1,
      )

  -- The same, behind the test for an integral operand.
  when_integral :
      (i : ExpressionInfo F) (w : Option IntegerValue)
      → IsFormed i
      → AllWords w
      → IsFormed
          (if not (same_category i.category integral) then invalid_info else with_integer i w)
  when_integral i w h k = elim (Bool-cases (same_category i.category integral)) [
    | inl e ↦ rw e (with_word i w h (same_category_sound i.category integral e) k)
    | inr e ↦ rw e invalid-IsFormed
  ]

module _ {F : Type 0} (float : Binary64 F) where
  pub call-IsFormed :
      (generic mask : Bool) (c a : ExpressionInfo F) → IsFormed (call_result float generic mask c a)
  unfolding call_result
  call-IsFormed generic mask c a =
      both IsFormed generic
        (both IsFormed (same_category a.category address) ((refl, refl), refl) invalid-IsFormed)
        (both IsFormed
          ((mask && is_some c.integer_value)
            && (same_category c.category integral
                && (same_category a.category integral || same_category a.category address)))
          ((tt, refl), refl) invalid-IsFormed)

  retyped_words :
      (t : IntegerType) (v : Option IntegerValue) → AllWords v → AllWords (retyped float t v)
  unfolding retyped
  retyped_words t none h = tt
  retyped_words t (some v) h = h

  pub cast-IsFormed :
      (t : Text) (i : ExpressionInfo F) → IsFormed i → IsFormed (cast_result float t i)
  unfolding cast_result
  cast-IsFormed t i h =
      let u : IntegerType = if same_text t (codes ".u64") then unsigned else signed in
      when_integral i (retyped float u i.integer_value) h
        (retyped_words u i.integer_value (words float i h))

  logical_words : (v : Option IntegerValue) → AllWords (logical_integer float v)
  unfolding logical_integer
  logical_words none = tt
  logical_words (some v) = boolean_word (v.bits == 0)

  complement_words : (v : Option IntegerValue) → AllWords (complement_integer float v)
  unfolding complement_integer
  complement_words none = tt
  complement_words (some v) = omega arith

  minus_formed :
      (c : ExpressionCategory) (v : Option IntegerValue) (x : Option F)
      → FormedAs c v x
      → FormedAs c (negated_integer float v) (negated_floating float x)
  unfolding negated_integer negated_floating
  minus_formed integral none x h = rw h.1 (tt, refl)
  minus_formed integral (some v) x h = rw h.1 (negate_bits-IsWord v.bits, refl)
  minus_formed floating v x h = rw h refl
  minus_formed address v x h = rw (h.0, h.1) (refl, refl)
  minus_formed invalid v x h = rw (h.0, h.1) (refl, refl)

  pub unary-IsFormed :
      (op : AstConstantUnaryOperator) (i : ExpressionInfo F)
      → IsFormed i
      → IsFormed (unary_result float op i)
  unfolding unary_result
  unary-IsFormed plus i h =
      both IsFormed
        (not (same_category i.category integral) && not (same_category i.category floating))
        invalid-IsFormed h
  unary-IsFormed minus i h =
      both IsFormed
        (not (same_category i.category integral) && not (same_category i.category floating))
        invalid-IsFormed (minus_formed i.category i.integer_value i.floating_value h.0, h.1)
  unary-IsFormed logical_not i h =
      when_integral i (logical_integer float i.integer_value) h (logical_words i.integer_value)
  unary-IsFormed bitwise_not i h =
      when_integral i (complement_integer float i.integer_value) h
        (complement_words i.integer_value)

  common_formed :
      (c : ExpressionCategory) (v w : Option IntegerValue) (x : Option F)
      → FormedAs c v x
      → FormedAs {F = F} c (common_integer float v w) none
  unfolding common_integer
  common_formed integral none w x h = (tt, refl)
  common_formed integral (some v) none x h = (tt, refl)
  common_formed integral (some v) (some w) x h =
      (elim (Bool-cases (same_integer float v w)) [ inl e ↦ rw e h.0 | inr e ↦ rw e tt ], refl)
  common_formed floating v w x h = rw h refl
  common_formed address v w x h = rw h.0 (refl, refl)
  common_formed invalid v w x h = rw h.0 (refl, refl)

  chosen-IsFormed :
      (c : Option IntegerValue) (a b : ExpressionInfo F)
      → IsFormed a
      → IsFormed b
      → IsFormed (chosen float c a b)
  unfolding chosen
  chosen-IsFormed (some c) a b h k = both IsFormed (not (c.bits == 0)) h k
  chosen-IsFormed none a b h k =
      (common_formed a.category a.integer_value b.integer_value a.floating_value h.0, refl)

  branches-IsFormed :
      (c v w : Option IntegerValue) (a b : ExpressionInfo F)
      → IsFormed a
      → IsFormed b
      → a.category ≡ integral
      → b.category ≡ integral
      → AllWords v
      → AllWords w
      → IsFormed (integer_branches float c v w a b)
  unfolding integer_branches
  branches-IsFormed c none w a b h k d e p q = ((tt, refl), refl)
  branches-IsFormed c (some v) none a b h k d e p q = ((tt, refl), refl)
  branches-IsFormed c (some v) (some w) a b h k d e p q =
      let t = usual_integer_type v w in
      chosen-IsFormed c (with_integer a (some (retype t v))) (with_integer b (some (retype t w)))
        (with_word a (some (retype t v)) h d p) (with_word b (some (retype t w)) k e q)

  promoted-IsFormed :
      (c a b : ExpressionInfo F)
      → IsFormed a
      → IsFormed b
      → IsFormed (promoted_branches float c a b)
  unfolding promoted_branches
  promoted-IsFormed c a b h k =
      elim (Bool-cases
        (not (same_category c.category integral) || not (same_category a.category b.category))) [
          | inl e ↦ rw e invalid-IsFormed
          | inr e ↦
              let same = same_category_sound a.category b.category (ground arith) in
              rw e (elim (Bool-cases (same_category a.category integral)) [
                | inl d ↦
                    let at_a = same_category_sound a.category integral d in
                    rw d (
                      branches-IsFormed c.integer_value a.integer_value b.integer_value a b h k at_a
                        (sym same ∙ at_a) (words float a h) (words float b k))
                | inr d ↦ rw d (chosen-IsFormed c.integer_value a b h k)
              ])
        ]

  pub conditional-IsFormed :
      (c a b : ExpressionInfo F)
      → IsFormed a
      → IsFormed b
      → IsFormed (conditional_result float c a b)
  unfolding conditional_result
  conditional-IsFormed c a b h k =
      let p = operands float a b h k in
      promoted-IsFormed c (promote_floating_operands float a b).0
        (promote_floating_operands float a b).1 p.0 p.1
