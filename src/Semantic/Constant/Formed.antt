-- ===== src/Semantic/Constant/Formed.antt =====
-- What the parts of an `ExpressionInfo` say together.
pub mod Results
pub mod Expression
use ptx_frontend.Common.{
  ℕ, ◌+◌, ◌-◌, ◌^◌, ◌≤◌, ◌<◌, ◌≡◌, ◌⊎◌, inl, inr, refl, sym, ap, subst, ◌∙◌, Bool, true, false, not,
  ◌&&◌, ◌||◌, Option, none, some, Text, is_some, is_empty, codes, same_text, arith, ltb, leb, ◌==◌,
  if◌then◌else◌, Bool-cases,
}
use ptx_frontend.Base.Scalar.{f32, f64}
use ptx_frontend.Base.Integer.Spelling.{parse_integer_magnitude-lt}
use ptx_frontend.Base.Integer.{parse_integer_magnitude, explicitly_unsigned}
use ptx_frontend.Syntax.{
  SourceRange, AstImmediate, AstImmediateKind, decimal_integer, hex_integer, f32_hex, f64_hex,
  decimal_float, warp_size, binary_integer,
}
use ptx_frontend.Syntax.Constant.{
  AstConstantExpression, literal, symbol, parenthesized, call, cast, unary, binary, conditional,
  range_of, AstConstantUnaryOperator, plus, minus, logical_not, bitwise_not,
}
use ptx_frontend.Semantic.Integer.{
  IntegerType, signed, unsigned, IntegerValue, integer, BinaryOperator, multiply, divide, add,
  subtract, negate_bits, modulus, signed_boolean, usual_integer_type, evaluate_integer_binary,
}
use ptx_frontend.Semantic.Integer.Range.{IsWord, evaluate_integer_binary-IsWord}
use ptx_frontend.Semantic.Constant.{
  Binary64, ExpressionCategory, invalid, integral, floating, address, same_category, ExpressionInfo,
  Sinks, Step, parse_integer_literal, invalid_info, integer_info, floating_info, address_info,
  evaluated, with_integer, with_floating, retype,
}
use ptx_frontend.Semantic.Constant.Operators.{
  is_comparison, is_add, is_add_or_subtract, is_arithmetic,
}
use ptx_frontend.Semantic.Constant.Literal.{
  classify_literal, integer_literal, single_literal, double_literal, decimal_literal,
}
use ptx_frontend.Semantic.Constant.Binary.{
  promote, promote_floating_operands, floating_arithmetic, floating_unknown, floating_binary,
  integer_binary, numeric_binary, classify_binary, across, compare_floats, not_numeric,
  moves_address, adds_address, compares_addresses,
}
use ptx_frontend.Semantic.Constant.Result.{
  call_result, retyped, cast_result, unary_result, common_integer, chosen, integer_branches,
  promoted_branches, conditional_result,
}
use ptx_frontend.Semantic.Constant.Classify.{finish, classify_expression}

abbrev pub AllWords : Option IntegerValue → Type 0
AllWords none = Unit {0}
AllWords (some v) = IsWord v.bits

pub all_words :
    (v : Option IntegerValue) → ((w : IntegerValue) → v ≡ some w → IsWord w.bits) → AllWords v
all_words none h = tt
all_words (some w) h = h w refl

pub boolean_word : (b : Bool) → AllWords (some (signed_boolean b))
unfolding signed_boolean
boolean_word true = omega arith
boolean_word false = omega arith

module _ {F : Type 0} where
  -- An integer stands in an integral result only, and in 64 bits; a `double` in a floating one only.
  abbrev pub FormedAs : ExpressionCategory → Option IntegerValue → Option F → Type 0
  FormedAs integral v x = AllWords v × (x ≡ none)
  FormedAs floating v x = v ≡ none
  FormedAs address v x = (v ≡ none) × (x ≡ none)
  FormedAs invalid v x = (v ≡ none) × (x ≡ none)

  abbrev pub IsFormed : ExpressionInfo F → Type 0
  IsFormed i = FormedAs i.category i.integer_value i.floating_value × (i.floating_type ≡ f64)

  words_of :
      (c : ExpressionCategory) (v : Option IntegerValue) (x : Option F)
      → FormedAs c v x
      → AllWords v
  words_of integral v x h = h.0
  words_of floating v x h = subst AllWords (sym h) tt
  words_of address v x h = subst AllWords (sym h.0) tt
  words_of invalid v x h = subst AllWords (sym h.0) tt

  pub invalid-IsFormed : IsFormed invalid_info
  invalid-IsFormed = ((refl, refl), refl)

  -- A test chooses between two results of which the property holds.
  pub both :
      (P : ExpressionInfo F → Type 0) (b : Bool) {p q : ExpressionInfo F}
      → P p
      → P q
      → P (if b then p else q)
  both P true h k = h
  both P false h k = k

  pub steps :
      (P : ExpressionInfo F → Type 0) (b : Bool) (p q : Step F)
      → P p.0
      → P q.0
      → P (if b then p else q).0
  steps P true p q h k = h
  steps P false p q h k = k

module _ {F : Type 0} (float : Binary64 F) where
  promoted : (i : ExpressionInfo F) → IsFormed i → IsFormed (promote float i)
  unfolding promote
  promoted i h = (refl, h.1)

  pub operands :
      (l r : ExpressionInfo F)
      → IsFormed l
      → IsFormed r
      → IsFormed (promote_floating_operands float l r).0
        × IsFormed (promote_floating_operands float l r).1
  unfolding promote_floating_operands
  operands l r h k =
      elim (Bool-cases (same_category l.category floating && same_category r.category integral)) [
        | inl e ↦ rw e (h, promoted r k)
        | inr e ↦
            rw e
              (elim (Bool-cases
                (same_category r.category floating && same_category l.category integral)) [
                  | inl d ↦ rw d (promoted l h, k)
                  | inr d ↦ rw d (h, k)
                ])
      ]

  arithmetic-IsFormed :
      (op : BinaryOperator) (at : SourceRange) (l r : F) (s : Sinks)
      → IsFormed (floating_arithmetic float op at l r s).0
  unfolding floating_arithmetic
  arithmetic-IsFormed multiply at l r s = (refl, refl)
  arithmetic-IsFormed divide at l r s =
      steps IsFormed (float.is_equal r float.zero_value) _ _ invalid-IsFormed (refl, refl)
  arithmetic-IsFormed add at l r s = (refl, refl)
  arithmetic-IsFormed subtract at l r s = (refl, refl)
  arithmetic-IsFormed _ at l r s = invalid-IsFormed

  unknown-IsFormed : (op : BinaryOperator) → IsFormed (floating_unknown float op)
  unfolding floating_unknown
  unknown-IsFormed op =
      both IsFormed (is_comparison op) ((tt, refl), refl)
        (both IsFormed (is_arithmetic op) (refl, refl) invalid-IsFormed)

  floating-IsFormed :
      (op : BinaryOperator) (at : SourceRange) (l r : Option F) (s : Sinks)
      → IsFormed (floating_binary float op at l r s).0
  unfolding floating_binary
  floating-IsFormed op at none r s = unknown-IsFormed op
  floating-IsFormed op at (some l) none s = unknown-IsFormed op
  floating-IsFormed op at (some l) (some r) s =
      steps IsFormed (is_comparison op) _ _
        ((boolean_word (compare_floats float op l r), refl), refl) (arithmetic-IsFormed op at l r s)

  pub evaluated-IsFormed : (v : Option IntegerValue) → AllWords v → IsFormed {F = F} (evaluated v)
  evaluated-IsFormed none h = invalid-IsFormed
  evaluated-IsFormed (some v) h = ((h, refl), refl)

  integers-IsFormed :
      (op : BinaryOperator) (at where_right : SourceRange) (l r : Option IntegerValue) (s : Sinks)
      → AllWords l
      → AllWords r
      → IsFormed (integer_binary float op at where_right l r s).0
  unfolding integer_binary
  integers-IsFormed op at right_at none r s h k = ((tt, refl), refl)
  integers-IsFormed op at right_at (some l) none s h k = ((tt, refl), refl)
  integers-IsFormed op at right_at (some l) (some r) s h k =
      evaluated-IsFormed (evaluate_integer_binary op l r) (
        all_words (evaluate_integer_binary op l r)
          (λ v e. evaluate_integer_binary-IsWord op l r v h k e))

  pub words : (i : ExpressionInfo F) → IsFormed i → AllWords i.integer_value
  words i h = words_of i.category i.integer_value i.floating_value h.0

  numeric-IsFormed :
      (op : BinaryOperator) (left_at right_at : SourceRange) (l r : ExpressionInfo F) (s : Sinks)
      → IsFormed l
      → IsFormed r
      → IsFormed (numeric_binary float op left_at right_at l r s).0
  unfolding numeric_binary
  numeric-IsFormed op left_at right_at l r s h k =
      steps IsFormed (not_numeric l.category r.category) _ _ invalid-IsFormed (
        steps IsFormed (same_category l.category floating) _ _
          (floating-IsFormed op (across left_at right_at) l.floating_value r.floating_value s)
          (integers-IsFormed op left_at right_at l.integer_value r.integer_value s (words l h)
            (words r k)))

  pub binary-IsFormed :
      (op : BinaryOperator) (left_at right_at : SourceRange) (l r : ExpressionInfo F) (s : Sinks)
      → IsFormed l
      → IsFormed r
      → IsFormed (classify_binary float op left_at right_at l r s).0
  unfolding classify_binary
  binary-IsFormed op left_at right_at l r s h k =
      let p = operands l r h k in
      let address_formed : IsFormed {F = F} address_info = ((refl, refl), refl) in
      steps IsFormed (moves_address op l.category r.category) _ _ address_formed (
        steps IsFormed (adds_address op l.category r.category) _ _ address_formed (
          steps IsFormed (compares_addresses op l.category r.category) _ _ ((tt, refl), refl)
            (numeric-IsFormed op left_at right_at (promote_floating_operands float l r).0
              (promote_floating_operands float l r).1 s p.0 p.1)))
