-- ===== src/Semantic/Constant/Failures.antt =====
-- The failure that is left after the evaluation of an expression, from the subexpressions that are
-- invalid and from its symbols.
pub mod Expression
use ptx_frontend.Common.{
  ℕ, ◌+◌, ◌-◌, ◌^◌, ◌≤◌, ◌<◌, ◌≡◌, ◌⊎◌, inl, inr, refl, sym, ap, subst, ◌∙◌, Bool, true, false, not,
  ◌&&◌, ◌||◌, Option, none, some, Text, is_some, is_empty, codes, same_text, arith, ltb, leb, ◌==◌,
  if◌then◌else◌, Bool-cases, ◌↔◌,
}
use ptx_frontend.Base.Scalar.{f32, f64}
use ptx_frontend.Base.Integer.Spelling.{parse_integer_magnitude-lt}
use ptx_frontend.Base.Integer.{parse_integer_magnitude, explicitly_unsigned}
use ptx_frontend.Syntax.{
  SourceRange, AstImmediate, AstImmediateKind, decimal_integer, hex_integer, f32_hex, f64_hex,
  decimal_float, warp_size, binary_integer,
}
use ptx_frontend.Syntax.Constant.{
  AstConstantExpression, literal, symbol, parenthesized, call, cast, unary, binary, conditional,
  range_of, AstConstantUnaryOperator, plus, minus, logical_not, bitwise_not,
}
use ptx_frontend.Semantic.Integer.{
  IntegerType, signed, unsigned, IntegerValue, integer, BinaryOperator, multiply, divide, add,
  subtract, negate_bits, modulus, signed_boolean, usual_integer_type, evaluate_integer_binary,
  shift_left, shift_right, remainder,
}
use ptx_frontend.Semantic.Integer.Range.{
  IsWord, evaluate_integer_binary-IsWord, evaluate_integer_binary-none,
}
use ptx_frontend.Semantic.Constant.{
  Binary64, ExpressionCategory, invalid, integral, floating, address, same_category, ExpressionInfo,
  Sinks, Step, parse_integer_literal, invalid_info, integer_info, floating_info, address_info,
  evaluated, with_integer, with_floating, retype, report_invalid_integer_literal, fail, defer,
  ConstantEvaluationDiagnostic, replace_failure, defer_failure,
}
use ptx_frontend.Semantic.Constant.Operators.{
  is_comparison, is_add, is_add_or_subtract, is_arithmetic, is_division, is_shift,
}
use ptx_frontend.Semantic.Constant.Literal.{
  classify_literal, integer_literal, single_literal, double_literal, decimal_literal, has_sign,
  integer_message, single_message,
}
use ptx_frontend.Semantic.Constant.Binary.{
  promote, promote_floating_operands, floating_arithmetic, floating_unknown, floating_binary,
  integer_binary, numeric_binary, classify_binary, across, compare_floats, not_numeric,
  moves_address, adds_address, compares_addresses, floating_zero_message, zero_message,
  shift_message, integer_failure,
}
use ptx_frontend.Semantic.Constant.Result.{
  call_result, retyped, cast_result, unary_result, common_integer, chosen, integer_branches,
  promoted_branches, conditional_result, is_generic, is_literal,
}
use ptx_frontend.Semantic.Constant.Classify.{
  finish, classify_expression, invalid_message, symbol_message,
}
use ptx_frontend.Semantic.Constant.Effects.{Effect, IsFailed, binary-Effect, literal-Effect}
use ptx_frontend.Semantic.Constant.Values.{no_sinks}
use ptx_frontend.Semantic.Constant.Formed.Expression.{finish_info}
use ptx_frontend.Semantic.Constant.Independence.{classify_expression-independent}

-- A failure with a message that is not deferred.
abbrev pub settled : Option ConstantEvaluationDiagnostic → Bool
settled none = false
settled (some f) = not (is_empty f.message) && not f.deferred

-- A failure with a message.
abbrev pub has_report : Option ConstantEvaluationDiagnostic → Bool
has_report none = false
has_report (some f) = not (is_empty f.message)

-- From the failure `a` to the failure `b`: with `bad` a settled failure is there at the end, with
-- `symbolic` a failure; the first settled one stays.
pub record Moves (a b : Option ConstantEvaluationDiagnostic) (bad symbolic : Bool) : Type 0 where
  pub is_settled : settled b ≡ (settled a || (is_some a && bad))
  pub is_reported : has_report b ≡ (has_report a || (is_some a && (bad || symbolic)))
  pub is_present : is_some b ≡ is_some a
  pub first_stays : settled a ≡ true → b ≡ a

-- Two steps of a test that is only ever set, behind a condition that does not change.
set_twice :
    (a b c p q x y : Bool)
    → b ≡ (a || (p && x))
    → c ≡ (b || (q && y))
    → q ≡ p
    → c ≡ (a || (p && (x || y)))
set_twice a b c p q x y h k e = ground arith

set_twice_or :
    (a b c p q x y x' y' : Bool)
    → b ≡ (a || (p && (x || y)))
    → c ≡ (b || (q && (x' || y')))
    → q ≡ p
    → c ≡ (a || (p && ((x || x') || (y || y'))))
set_twice_or a b c p q x y x' y' h k e = ground arith

pub Moves-refl : (a : Option ConstantEvaluationDiagnostic) → Moves a a false false
Moves-refl none = record {
  is_settled = refl;
  is_reported = refl;
  is_present = refl;
  first_stays = λ h. refl;
}
Moves-refl (some f) = record {
  is_settled = ground arith;
  is_reported = ground arith;
  is_present = refl;
  first_stays = λ h. refl;
}

pub Moves-trans :
    {a b c : Option ConstantEvaluationDiagnostic} {x y x' y' : Bool}
    → Moves a b x y
    → Moves b c x' y'
    → Moves a c (x || x') (y || y')
Moves-trans {a} {b} {c} {x} {y} {x'} {y'} h k = record {
  is_settled =
      set_twice (settled a) (settled b) (settled c) (is_some a) (is_some b) x x' h.is_settled
        k.is_settled h.is_present;
  is_reported =
      set_twice_or (has_report a) (has_report b) (has_report c) (is_some a) (is_some b) x y x' y'
        h.is_reported k.is_reported h.is_present;
  is_present = k.is_present ∙ h.is_present;
  first_stays = λ e.
      let still : settled b ≡ true = ground (arith, h.is_settled) in
      k.first_stays still ∙ h.first_stays e;
}

pub Moves-fail :
    (a : Option ConstantEvaluationDiagnostic) (at : SourceRange) (why : Text)
    → is_empty why ≡ false
    → Moves a
        (replace_failure (record { range = at; message = why; deferred = false }) a)
        true
        false
Moves-fail none at why h = record {
  is_settled = refl;
  is_reported = refl;
  is_present = refl;
  first_stays = λ e. refl;
}
Moves-fail (some f) at why h = elim (Bool-cases (is_empty f.message || f.deferred)) [
  | inl e ↦ rw e (record {
    is_settled = ground arith;
    is_reported = ground arith;
    is_present = refl;
    first_stays = λ d. absurd (ground arith);
  })
  | inr e ↦ rw e (record {
    is_settled = ground arith;
    is_reported = ground arith;
    is_present = refl;
    first_stays = λ d. refl;
  })
]

pub Moves-defer :
    (a : Option ConstantEvaluationDiagnostic) (at : SourceRange) (why : Text)
    → is_empty why ≡ false
    → Moves a (defer_failure (record { range = at; message = why; deferred = true }) a) false true
Moves-defer none at why h = record {
  is_settled = refl;
  is_reported = refl;
  is_present = refl;
  first_stays = λ e. refl;
}
Moves-defer (some f) at why h = elim (Bool-cases (is_empty f.message)) [
  | inl e ↦ rw e (record {
    is_settled = ground arith;
    is_reported = ground arith;
    is_present = refl;
    first_stays = λ d. absurd (ground arith);
  })
  | inr e ↦ rw e (record {
    is_settled = ground arith;
    is_reported = ground arith;
    is_present = refl;
    first_stays = λ d. refl;
  })
]

-- Whether a subexpression, or the expression itself, is invalid.
module _ {F : Type 0} (float : Binary64 F) where
  abbrev pub is_invalid : Bool → AstConstantExpression → Bool
  is_invalid allow e = same_category (classify_expression float allow e no_sinks).0.category invalid

  abbrev pub has_invalid : Bool → AstConstantExpression → Bool
  has_invalid allow (literal i at) = is_invalid allow (literal i at)
  has_invalid allow (symbol n at) = is_invalid allow (symbol n at)
  has_invalid allow (parenthesized e at) =
      has_invalid false e || is_invalid allow (parenthesized e at)
  has_invalid allow (call c a at) =
      (has_invalid false c || has_invalid false a) || is_invalid allow (call c a at)
  has_invalid allow (cast t e at) = has_invalid false e || is_invalid allow (cast t e at)
  has_invalid allow (unary op e at) = has_invalid false e || is_invalid allow (unary op e at)
  has_invalid allow (binary l op r at) =
      (has_invalid false l || has_invalid false r) || is_invalid allow (binary l op r at)
  has_invalid allow (conditional c a b at) =
      (has_invalid false c || (has_invalid false a || has_invalid false b))
      || is_invalid allow (conditional c a b at)

-- Whether a symbol occurs.
abbrev pub has_symbol : AstConstantExpression → Bool
has_symbol (literal i at) = false
has_symbol (symbol n at) = true
has_symbol (parenthesized e at) = has_symbol e
has_symbol (call c a at) = has_symbol c || has_symbol a
has_symbol (cast t e at) = has_symbol e
has_symbol (unary op e at) = has_symbol e
has_symbol (binary l op r at) = has_symbol l || has_symbol r
has_symbol (conditional c a b at) = has_symbol c || (has_symbol a || has_symbol b)
