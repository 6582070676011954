-- ===== src/Semantic/Constant/Values.antt =====
-- submod/semantic/src/ptx_declaration_semantics.cpp and submod/semantic/include/constant_value.hpp: the
-- values that callers take from a constant expression.
pub mod Outcome
pub mod Readers
use ptx_frontend.Common.{ℕ, Bool, true, false, not, Option, none, some, [], is_empty, if◌then◌else◌}
use ptx_frontend.Syntax.{SourcePos, SourceRange}
use ptx_frontend.Common.Int.{pos}
use ptx_frontend.Syntax.Constant.{AstConstantExpression, range_of}
use ptx_frontend.Semantic.Integer.{IntegerValue, is_unsigned}
use ptx_frontend.Semantic.Constant.{
  Binary64, same_category, integral, floating, ExpressionInfo, ConstantEvaluationDiagnostic, Sinks,
  nonnegative_integer_value,
}
use ptx_frontend.Semantic.Constant.Classify.{classify_expression, no_value_message}

pub record IntegerConstantValue : Type 0 where
  pub bits : ℕ
  pub unsigned_type : Bool

pub data NumericConstantValue (F : Type 0) : Type 0 where
  integer_constant : IntegerConstantValue → NumericConstantValue F
  floating_constant : F → NumericConstantValue F

-- `std::expected<NumericConstantValue, ConstantEvaluationDiagnostic>`
pub data NumericResult (F : Type 0) : Type 0 where
  expected : NumericConstantValue F → NumericResult F
  unexpected : ConstantEvaluationDiagnostic → NumericResult F

-- A diagnostic by default initialisation: an empty message, an empty range.
abbrev pub no_diagnostic : ConstantEvaluationDiagnostic
no_diagnostic =
    let origin : SourcePos = record { line = pos 0; column = pos 0 } in
    record { range = record { start = origin; end = origin }; message = []; deferred = false }

-- Neither pointer.
abbrev pub no_sinks : Sinks
no_sinks = record { diagnostics = none; failure = none }

abbrev pub failure_sink : Sinks
failure_sink = record { diagnostics = none; failure = some no_diagnostic }

abbrev pub integer_constant_of : IntegerValue → IntegerConstantValue
integer_constant_of v = record { bits = v.bits; unsigned_type = is_unsigned v.type }

module _ {F : Type 0} (float : Binary64 F) where
  abbrev pub no_value : SourceRange → NumericResult F
  no_value at = unexpected (record { range = at; message = no_value_message; deferred = true })

  abbrev pub concrete_floating : SourceRange → Bool → Option F → NumericResult F
  concrete_floating at true (some x) = expected (floating_constant x)
  concrete_floating at true none = no_value at
  concrete_floating at false x = no_value at

  abbrev pub concrete_integer :
      SourceRange → Bool → Option IntegerValue → ExpressionInfo F → NumericResult F
  concrete_integer at true (some v) i = expected (integer_constant (integer_constant_of v))
  concrete_integer at true none i =
      concrete_floating at (same_category i.category floating) i.floating_value
  concrete_integer at false v i =
      concrete_floating at (same_category i.category floating) i.floating_value

  abbrev pub concrete : SourceRange → ExpressionInfo F → NumericResult F
  concrete at i = concrete_integer at (same_category i.category integral) i.integer_value i

  abbrev pub unless_failed : Option ConstantEvaluationDiagnostic → NumericResult F → NumericResult F
  unless_failed none r = r
  unless_failed (some f) r = if not (is_empty f.message) then unexpected f else r

  unfoldable pub numeric_constant_value : AstConstantExpression → NumericResult F
  unfolding classify_expression
  numeric_constant_value e =
      let p = classify_expression float false e failure_sink in
      unless_failed p.1.failure (concrete (range_of e) p.0)

  unfoldable pub constant_array_extent : AstConstantExpression → Option ℕ
  unfolding classify_expression nonnegative_integer_value
  constant_array_extent e = nonnegative_integer_value (classify_expression float false e no_sinks).0

  abbrev pub integer_only : Bool → Option IntegerValue → Option IntegerConstantValue
  integer_only true (some v) = some (integer_constant_of v)
  integer_only true none = none
  integer_only false v = none

  unfoldable pub constant_integer_value : AstConstantExpression → Option IntegerConstantValue
  unfolding classify_expression
  constant_integer_value e =
      let i = (classify_expression float false e no_sinks).0 in
      integer_only (same_category i.category integral) i.integer_value
