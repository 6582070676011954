-- ===== src/Semantic/Constant/Values/Outcome.antt =====
-- When a constant expression has a numeric value, and what the three readers have in common.
use ptx_frontend.Common.{
  ◌≡◌, refl, ap, ◌∙◌, Bool, true, false, ◌||◌, Option, none, some, is_empty, arith,
}
use ptx_frontend.Syntax.Constant.{AstConstantExpression, range_of}
use ptx_frontend.Semantic.Constant.{Binary64, ConstantEvaluationDiagnostic}
use ptx_frontend.Semantic.Constant.Classify.{classify_expression}
use ptx_frontend.Semantic.Constant.Values.{
  no_sinks, NumericResult, unexpected, failure_sink, concrete, unless_failed,
  numeric_constant_value,
}
use ptx_frontend.Semantic.Constant.Independence.{classify_expression-independent}
use ptx_frontend.Semantic.Constant.Failures.{settled, has_report, has_invalid, has_symbol}
use ptx_frontend.Semantic.Constant.Failures.Expression.{classify_expression-Moves}

-- A result without a value: `deferred` tells whether a later stage may still know it.
abbrev pub IsError : {F : Type 0} → Bool → NumericResult F → Type 0
IsError {F} later r =
    (d : ConstantEvaluationDiagnostic) × (r ≡ unexpected d)
    × (d.deferred ≡ later)
    × (is_empty d.message ≡ false)

module _ {F : Type 0} (float : Binary64 F) where
  settled-IsError :
      (b : Option ConstantEvaluationDiagnostic) (r : NumericResult F)
      → settled b ≡ true
      → IsError false (unless_failed float b r)
  settled-IsError none r h = cc h
  settled-IsError (some f) r h =
      let reported : is_empty f.message ≡ false = ground arith in
      let now : f.deferred ≡ false = ground arith in rw reported (f, refl, now, reported)

  later-IsError :
      (b : Option ConstantEvaluationDiagnostic) (r : NumericResult F)
      → settled b ≡ false
      → has_report b ≡ true
      → IsError true (unless_failed float b r)
  later-IsError none r h k = cc k
  later-IsError (some f) r h k =
      let reported : is_empty f.message ≡ false = ground arith in
      let later : f.deferred ≡ true = ground arith in rw reported (f, refl, later, reported)

  not_failed :
      (b : Option ConstantEvaluationDiagnostic) (r : NumericResult F)
      → has_report b ≡ false
      → unless_failed float b r ≡ r
  not_failed none r h = refl
  not_failed (some f) r h = rw h refl

  -- The three outcomes of `numericConstantValue`.
  pub record Outcome (e : AstConstantExpression) : Type 0 where
    pub when_invalid :
        has_invalid float false e ≡ true → IsError false (numeric_constant_value float e)
    pub when_symbolic :
        has_invalid float false e ≡ false
        → has_symbol e ≡ true
        → IsError true (numeric_constant_value float e)
    pub otherwise :
        has_invalid float false e ≡ false
        → has_symbol e ≡ false
        → numeric_constant_value float e
          ≡ concrete float (range_of e) (classify_expression float false e no_sinks).0

  -- `numericConstantValue` answers with an error that is not deferred exactly when a subexpression is
  -- invalid, unselected branches included; without one it answers with a deferred error when a symbol
  -- occurs; otherwise its answer is the value of the result, evaluated with no pointers.
  pub numeric_constant_value-Outcome : (e : AstConstantExpression) → Outcome e
  unfolding numeric_constant_value
  numeric_constant_value-Outcome e =
      let p = classify_expression float false e failure_sink in
      let moves = classify_expression-Moves float false e failure_sink in
      let answer = concrete float (range_of e) p.0 in
      let bad : settled p.1.failure ≡ has_invalid float false e = moves.is_settled in
      let reported : has_report p.1.failure ≡ (has_invalid float false e || has_symbol e) =
        moves.is_reported in
      record {
        when_invalid = λ h. settled-IsError p.1.failure answer (bad ∙ h);
        when_symbolic = λ h k. later-IsError p.1.failure answer (bad ∙ h) (ground arith);
        otherwise = λ h k.
            not_failed p.1.failure answer (ground arith)
            ∙ ap (concrete float (range_of e))
                (classify_expression-independent float false e failure_sink no_sinks);
      }
