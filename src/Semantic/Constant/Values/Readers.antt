-- ===== src/Semantic/Constant/Values/Readers.antt =====
-- The readers of constant values against one another.
use ptx_frontend.Common.{
  ℕ, ◌^◌, ◌≡◌, inl, inr, refl, sym, ap, ◌∙◌, Bool, true, false, Option, none, some, arith, ltb,
  if◌then◌else◌, Bool-cases, ◌↔◌, ◌≢◌,
}
use ptx_frontend.Syntax.{SourceRange}
use ptx_frontend.Syntax.Constant.{AstConstantExpression, range_of}
use ptx_frontend.Semantic.Integer.{
  IntegerType, signed, unsigned, IntegerValue, integer, signed_of, is_unsigned, is_negative,
  as_signed,
}
use ptx_frontend.Semantic.Constant.{
  Binary64, integral, floating, same_category, ExpressionInfo, nonnegative,
  nonnegative_integer_value,
}
use ptx_frontend.Semantic.Constant.Classify.{classify_expression}
use ptx_frontend.Semantic.Integer.Shift.{signed_small, signed_large}
use ptx_frontend.Common.Int.{ltb_ℤ, pos}
use mathlib.Core.Option.{some-injective}
use ptx_frontend.Semantic.Constant.Values.{
  no_sinks, NumericResult, expected, NumericConstantValue, integer_constant, IntegerConstantValue,
  integer_constant_of, concrete_integer, concrete_floating, numeric_constant_value,
  constant_array_extent, constant_integer_value, integer_only,
}
use ptx_frontend.Semantic.Constant.Failures.{has_invalid, has_symbol}
use ptx_frontend.Semantic.Integer.Order.{value}
use ptx_frontend.Semantic.Constant.Values.Outcome.{IsError, numeric_constant_value-Outcome}

module _ {F : Type 0} (float : Binary64 F) where
  floating_is_no_integer :
      (at : SourceRange) (b : Bool) (x : Option F) (v : IntegerConstantValue)
      → concrete_floating float at b x ≢ expected (integer_constant v)
  floating_is_no_integer at true (some x) v h = cc h
  floating_is_no_integer at true none v h = cc h
  floating_is_no_integer at false x v h = cc h

  integral_reader :
      (at : SourceRange) (b : Bool) (w : Option IntegerValue) (i : ExpressionInfo F)
      (v : IntegerConstantValue)
      → (concrete_integer float at b w i ≡ expected (integer_constant v))
        ↔ (integer_only float b w ≡ some v)
  integral_reader at true (some w) i v = (λ h. cc h, λ h. cc h)
  integral_reader at true none i v = (
    λ h.
        absurd (floating_is_no_integer at (same_category i.category floating) i.floating_value v h),
    λ h. cc h,
  )
  integral_reader at false w i v = (
    λ h.
        absurd (floating_is_no_integer at (same_category i.category floating) i.floating_value v h),
    λ h. cc h,
  )

  error_is_no_value :
      (later : Bool) (r : NumericResult F) (v : NumericConstantValue F)
      → IsError later r
      → r ≢ expected v
  error_is_no_value later r v (d, h, _, _) k = cc (h, k)

  -- `numericConstantValue` answers with an integer exactly when `constantIntegerValue` answers with the
  -- same one, no subexpression is invalid and no symbol occurs.
  pub numeric_constant_value-iff-constant_integer_value :
      (e : AstConstantExpression) (v : IntegerConstantValue)
      → (numeric_constant_value float e ≡ expected (integer_constant v)) ↔ (
          (constant_integer_value float e ≡ some v)
          × (has_invalid float false e ≡ false)
          × (has_symbol e ≡ false))
  unfolding constant_integer_value
  numeric_constant_value-iff-constant_integer_value e v =
      let o = numeric_constant_value-Outcome float e in
      let i = (classify_expression float false e no_sinks).0 in
      let reader =
        integral_reader (range_of e) (same_category i.category integral) i.integer_value i v in
      (
        λ h. elim (Bool-cases (has_invalid float false e)) [
          | inl bad ↦ absurd (error_is_no_value false _ (integer_constant v) (o.when_invalid bad) h)
          | inr good ↦ elim (Bool-cases (has_symbol e)) [
            | inl symbolic ↦
                absurd
                  (error_is_no_value true _ (integer_constant v) (o.when_symbolic good symbolic) h)
            | inr closed ↦ (reader.0 (sym (o.otherwise good closed) ∙ h), good, closed)
          ]
        ],
        λ h. o.otherwise h.1 h.2 ∙ reader.1 h.0,
      )

nonnegative-value :
    (b n : ℕ) (t : IntegerType) → (nonnegative (some (integer b t)) ≡ some n) ↔ (value t b ≡ pos n)
unfolding nonnegative is_negative as_signed
nonnegative-value b n unsigned = (λ h. cc h, λ h. cc h)
nonnegative-value b n signed = elim (Bool-cases (ltb b (2 ^ 63))) [
  | inl e ↦
      let z = signed_small b (ground arith) in
      let below : ltb_ℤ (signed_of b) (pos 0) ≡ false = rw z (ground arith) in
      rw (below, z) (λ h. cc h, λ h. cc h)
  | inr e ↦
      let z = signed_large b (ground arith) in
      let below : ltb_ℤ (signed_of b) (pos 0) ≡ true = rw z (ground arith) in
      rw (below, z) (λ h. cc h, λ h. cc h)
]

same_type : (a b : IntegerType) → is_unsigned a ≡ is_unsigned b → a ≡ b
same_type unsigned unsigned h = refl
same_type signed signed h = refl
same_type unsigned signed h = cc h
same_type signed unsigned h = cc h

-- The published form of an integer determines it.
published_value :
    (w v : IntegerValue)
    → some (integer_constant_of w) ≡ some (integer_constant_of v)
    → value w.type w.bits ≡ value v.type v.bits
published_value w v h =
    let same : integer_constant_of w ≡ integer_constant_of v =
      some-injective (integer_constant_of w) (integer_constant_of v) h in
    let t : w.type ≡ v.type =
      same_type w.type v.type (ap (λ (c : IntegerConstantValue). c.unsigned_type) same) in
    ap (λ (u : IntegerType). value u w.bits) t
    ∙ ap (λ (c : IntegerConstantValue). value v.type c.bits) same

module _ {F : Type 0} (float : Binary64 F) where
  extent_reader :
      (b : Bool) (w : Option IntegerValue) (n : ℕ)
      → ((if b then nonnegative w else none) ≡ some n) ↔ (
          (v : IntegerValue) × (integer_only float b w ≡ some (integer_constant_of v))
          × (value v.type v.bits ≡ pos n))
  unfolding nonnegative
  extent_reader false w n = (λ h. cc h, λ (v, h, k). cc h)
  extent_reader true none n = (λ h. cc h, λ (v, h, k). cc h)
  extent_reader true (some w) n = (
    λ h. (w, refl, (nonnegative-value w.bits n w.type).0 h),
    λ (v, h, k). (nonnegative-value w.bits n w.type).1 (published_value w v h ∙ k),
  )

  -- `constantArrayExtent` answers `n` exactly when `constantIntegerValue` answers with bits and a
  -- signedness that stand for the integer `n`; in particular it has no answer for a negative value.
  pub constant_array_extent_iff :
      (e : AstConstantExpression) (n : ℕ)
      → (constant_array_extent float e ≡ some n) ↔ (
          (v : IntegerValue) × (constant_integer_value float e ≡ some (integer_constant_of v))
          × (value v.type v.bits ≡ pos n))
  unfolding constant_array_extent nonnegative_integer_value constant_integer_value
  constant_array_extent_iff e n =
      let i = (classify_expression float false e no_sinks).0 in
      extent_reader (same_category i.category integral) i.integer_value n
