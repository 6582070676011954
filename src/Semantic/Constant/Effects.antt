-- ===== src/Semantic/Constant/Effects.antt =====
-- What one node does to the sinks: nothing, or one failure together with an invalid result. Its result
-- does not depend on them.
use ptx_frontend.Common.{
  ◌≡◌, ◌⊎◌, inl, inr, refl, Bool, true, false, not, ◌&&◌, Option, none, some, Text, is_empty, arith,
  leb, ◌==◌, if◌then◌else◌, Bool-cases,
}
use ptx_frontend.Syntax.{
  SourceRange, AstImmediate, AstImmediateKind, decimal_integer, hex_integer, f32_hex, f64_hex,
  decimal_float, warp_size, binary_integer,
}
use ptx_frontend.Semantic.Integer.{
  IntegerValue, BinaryOperator, multiply, divide, add, subtract, evaluate_integer_binary,
  shift_left, shift_right, remainder,
}
use ptx_frontend.Semantic.Constant.{
  Binary64, floating, same_category, ExpressionInfo, Sinks, Step, parse_integer_literal,
  invalid_info, evaluated, report_invalid_integer_literal, fail,
}
use ptx_frontend.Semantic.Constant.Operators.{is_comparison, is_division, is_shift}
use ptx_frontend.Semantic.Constant.Literal.{
  classify_literal, integer_literal, single_literal, has_sign, integer_message, single_message,
}
use ptx_frontend.Semantic.Constant.Binary.{
  promote_floating_operands, floating_arithmetic, floating_binary, integer_binary, numeric_binary,
  classify_binary, across, not_numeric, moves_address, adds_address, compares_addresses,
  floating_zero_message, zero_message, shift_message, integer_failure,
}
use ptx_frontend.Semantic.Integer.Range.{evaluate_integer_binary-none}

module _ {F : Type 0} (s : Sinks) where
  -- An invalid result, with a failure that has a message.
  pub record IsFailed (p : Step F) : Type 0 where
    pub where_at : SourceRange
    pub why : Text
    pub has_message : is_empty why ≡ false
    pub is_invalid : p.0 ≡ invalid_info
    pub reported : p.1 ≡ fail where_at why s

  abbrev pub Effect : Step F → Type 0
  Effect p = (p.1 ≡ s) ⊎ IsFailed p

  either : (b : Bool) (p q : Step F) → Effect p → Effect q → Effect (if b then p else q)
  either true p q h k = h
  either false p q h k = k

  failed :
      (at : SourceRange) (why : Text) → is_empty why ≡ false → Effect (invalid_info, fail at why s)
  failed at why h =
      inr (record { where_at = at; why = why; has_message = h; is_invalid = refl; reported = refl })

module _ {F : Type 0} (float : Binary64 F) (s : Sinks) where
  arithmetic-Effect :
      (op : BinaryOperator) (at : SourceRange) (l r : F)
      → Effect s (floating_arithmetic float op at l r s)
  unfolding floating_arithmetic
  arithmetic-Effect multiply at l r = inl refl
  arithmetic-Effect divide at l r =
      either s (float.is_equal r float.zero_value) _ _ (failed s at floating_zero_message refl)
        (inl refl)
  arithmetic-Effect add at l r = inl refl
  arithmetic-Effect subtract at l r = inl refl
  arithmetic-Effect _ at l r = inl refl

  floating-Effect :
      (op : BinaryOperator) (at : SourceRange) (l r : Option F)
      → Effect s (floating_binary float op at l r s)
  unfolding floating_binary
  floating-Effect op at none r = inl refl
  floating-Effect op at (some l) none = inl refl
  floating-Effect op at (some l) (some r) =
      either s (is_comparison op) _ _ (inl refl) (arithmetic-Effect op at l r)

  division_none :
      (op : BinaryOperator) (l r : IntegerValue)
      → (is_division op && (r.bits == 0)) ≡ true
      → evaluate_integer_binary op l r ≡ none
  division_none divide l r h = (evaluate_integer_binary-none divide l r).1 (ground arith)
  division_none remainder l r h = (evaluate_integer_binary-none remainder l r).1 (ground arith)
  division_none _ l r h = cc h

  shift_none :
      (op : BinaryOperator) (l r : IntegerValue)
      → (is_shift op && leb 64 r.bits) ≡ true
      → evaluate_integer_binary op l r ≡ none
  shift_none shift_left l r h = (evaluate_integer_binary-none shift_left l r).1 (ground arith)
  shift_none shift_right l r h = (evaluate_integer_binary-none shift_right l r).1 (ground arith)
  shift_none _ l r h = cc h

  invalid-Effect :
      (v : Option IntegerValue) (at : SourceRange) (why : Text)
      → is_empty why ≡ false
      → v ≡ none
      → Effect {F = F} s (evaluated v, fail at why s)
  invalid-Effect none at why h e = failed s at why h
  invalid-Effect (some v) at why h e = cc e

  integer-Effect :
      (op : BinaryOperator) (left_at right_at : SourceRange) (l r : Option IntegerValue)
      → Effect s (integer_binary float op left_at right_at l r s)
  unfolding integer_binary integer_failure
  integer-Effect op left_at right_at none r = inl refl
  integer-Effect op left_at right_at (some l) none = inl refl
  integer-Effect op left_at right_at (some l) (some r) =
      elim (Bool-cases (is_division op && (r.bits == 0))) [
        | inl e ↦ rw e (
            invalid-Effect (evaluate_integer_binary op l r) (across left_at right_at) zero_message
              refl (division_none op l r e))
        | inr e ↦ elim (Bool-cases (is_shift op && leb 64 r.bits)) [
          | inl d ↦
              rw (e, d)
                (invalid-Effect (evaluate_integer_binary op l r) right_at shift_message refl
                  (shift_none op l r d))
          | inr d ↦ rw (e, d) (inl refl)
        ]
      ]

  numeric-Effect :
      (op : BinaryOperator) (left_at right_at : SourceRange) (l r : ExpressionInfo F)
      → Effect s (numeric_binary float op left_at right_at l r s)
  unfolding numeric_binary
  numeric-Effect op left_at right_at l r =
      either s (not_numeric l.category r.category) _ _ (inl refl) (
        either s (same_category l.category floating) _ _
          (floating-Effect op (across left_at right_at) l.floating_value r.floating_value)
          (integer-Effect op left_at right_at l.integer_value r.integer_value))

  pub binary-Effect :
      (op : BinaryOperator) (left_at right_at : SourceRange) (l r : ExpressionInfo F)
      → Effect s (classify_binary float op left_at right_at l r s)
  unfolding classify_binary
  binary-Effect op left_at right_at l r =
      let p = promote_floating_operands float l r in
      either s (moves_address op l.category r.category) _ _ (inl refl) (
        either s (adds_address op l.category r.category) _ _ (inl refl) (
          either s (compares_addresses op l.category r.category) _ _ (inl refl)
            (numeric-Effect op left_at right_at p.0 p.1)))

  -- An integer literal that is not representable is also reported to the other sink.
  integers-Effect :
      (i : AstImmediate) (v : Option IntegerValue)
      → (t : Sinks) × (t.failure ≡ s.failure) × Effect t (integer_literal float i v s)
  unfolding integer_literal
  integers-Effect i none = (
    report_invalid_integer_literal i s,
    refl,
    failed (report_invalid_integer_literal i s) i.syntax.range integer_message refl,
  )
  integers-Effect i (some v) = (s, refl, inl refl)

  pub literal-Effect :
      (allow : Bool) (i : AstImmediate) (k : AstImmediateKind)
      → (t : Sinks) × (t.failure ≡ s.failure) × Effect t (classify_literal float allow i k s)
  unfolding classify_literal single_literal
  literal-Effect allow i decimal_integer = integers-Effect i (parse_integer_literal i.syntax.text)
  literal-Effect allow i binary_integer = integers-Effect i (parse_integer_literal i.syntax.text)
  literal-Effect allow i hex_integer = integers-Effect i (parse_integer_literal i.syntax.text)
  literal-Effect allow i warp_size = (s, refl, inl refl)
  literal-Effect allow i f32_hex = (
    s,
    refl,
    either s (allow && not (has_sign i.syntax.text)) _ _ (inl refl)
        (failed s i.syntax.range single_message refl),
  )
  literal-Effect allow i f64_hex = (s, refl, inl refl)
  literal-Effect allow i decimal_float = (s, refl, inl refl)
