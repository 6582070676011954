-- ===== src/Semantic/Constant/Settled.antt =====
-- Which results have a value: operands with a value give a result with a value, or an invalid one.
pub mod Total
use ptx_frontend.Common.{
  ℕ, ◌≡◌, ◌⊎◌, inl, inr, refl, sym, ap, subst, ◌∙◌, Bool, true, false, not, ◌&&◌, ◌||◌, Option,
  none, some, Text, codes, is_some, same_text, length, drop, starts_with, arith, ltb, leb, ◌==◌,
  if◌then◌else◌, Bool-cases,
}
use ptx_frontend.Common.FromChars.{from_chars, whole}
use ptx_frontend.Base.Scalar.{ScalarType, f64}
use ptx_frontend.Syntax.{
  SourceRange, AstImmediate, AstImmediateKind, decimal_integer, hex_integer, f32_hex, f64_hex,
  decimal_float, warp_size, binary_integer,
}
use ptx_frontend.Syntax.Constant.{AstConstantUnaryOperator, plus, minus, logical_not, bitwise_not}
use ptx_frontend.Semantic.Integer.{
  IntegerType, signed, unsigned, IntegerValue, BinaryOperator, multiply, divide, add, subtract,
  usual_integer_type, evaluate_integer_binary,
}
use ptx_frontend.Semantic.Constant.{
  Binary64, ExpressionCategory, invalid, integral, floating, address, same_category, ExpressionInfo,
  Sinks, Step, parse_integer_literal, invalid_info, evaluated, retype, with_integer,
}
use ptx_frontend.Semantic.Constant.Operators.{
  is_comparison, is_add, is_add_or_subtract, is_arithmetic,
}
use ptx_frontend.Semantic.Constant.Literal.{
  classify_literal, integer_literal, single_literal, double_of, double_literal, decimal_literal,
  unsigned_text,
}
use ptx_frontend.Semantic.Constant.Binary.{
  converted, promote, promote_floating_operands, across, compare_floats, floating_arithmetic,
  floating_binary, integer_binary, numeric_binary, moves_address, adds_address, compares_addresses,
  classify_binary,
}
use ptx_frontend.Semantic.Constant.Result.{
  retyped, cast_result, negated_integer, negated_floating, logical_integer, complement_integer,
  unary_result, chosen, integer_branches, promoted_branches, conditional_result,
}

-- An integer, or a `double`, that is known.
pub data HasValueAs (F : Type 0)
    : ExpressionCategory → Option IntegerValue → Option F → Type 0 where
  known_integer : (v : IntegerValue) (x : Option F) → HasValueAs F integral (some v) x
  known_double : (v : Option IntegerValue) (x : F) → HasValueAs F floating v (some x)

module _ {F : Type 0} where
  abbrev pub HasValue : ExpressionInfo F → Type 0
  HasValue i = HasValueAs F i.category i.integer_value i.floating_value

  abbrev pub IsSettled : ExpressionInfo F → Type 0
  IsSettled i = HasValue i ⊎ (i.category ≡ invalid)

  abbrev pub info :
      ExpressionCategory → Option IntegerValue → Option F → ScalarType → ExpressionInfo F
  info c v x t = record { category = c; integer_value = v; floating_value = x; floating_type = t }

  stepped :
      (b : Bool) (p q : Step F) → IsSettled p.0 → IsSettled q.0 → IsSettled (if b then p else q).0
  stepped true p q h k = h
  stepped false p q h k = k

  either-IsSettled :
      (b : Bool) (p q : ExpressionInfo F)
      → IsSettled p
      → IsSettled q
      → IsSettled (if b then p else q)
  either-IsSettled true p q h k = h
  either-IsSettled false p q h k = k

  evaluated-IsSettled : (v : Option IntegerValue) → IsSettled (evaluated v)
  evaluated-IsSettled none = inr refl
  evaluated-IsSettled (some v) = inl (known_integer v none)

and_false : (b : Bool) → (b && false) ≡ false
and_false true = refl
and_false false = refl

module _ {F : Type 0} (float : Binary64 F) where
  arithmetic-IsSettled :
      (op : BinaryOperator) (at : SourceRange) (l r : F) (s : Sinks)
      → IsSettled (floating_arithmetic float op at l r s).0
  unfolding floating_arithmetic
  arithmetic-IsSettled multiply at l r s = inl (known_double none _)
  arithmetic-IsSettled divide at l r s =
      stepped (float.is_equal r float.zero_value) _ _ (inr refl) (inl (known_double none _))
  arithmetic-IsSettled add at l r s = inl (known_double none _)
  arithmetic-IsSettled subtract at l r s = inl (known_double none _)
  arithmetic-IsSettled _ at l r s = inr refl

  floats-IsSettled :
      (op : BinaryOperator) (at : SourceRange) (l r : F) (s : Sinks)
      → IsSettled (floating_binary float op at (some l) (some r) s).0
  unfolding floating_binary
  floats-IsSettled op at l r s =
      stepped (is_comparison op) _ _ (inl (known_integer _ none)) (arithmetic-IsSettled op at l r s)

  pub binary-IsSettled :
      (op : BinaryOperator) (left_at right_at : SourceRange) {lc rc : ExpressionCategory}
      {lv rv : Option IntegerValue} {lx rx : Option F} (lt rt : ScalarType) (s : Sinks)
      → HasValueAs F lc lv lx
      → HasValueAs F rc rv rx
      → IsSettled
          (classify_binary float op left_at right_at (info lc lv lx lt) (info rc rv rx rt) s).0
  unfolding classify_binary promote_floating_operands promote converted numeric_binary
      integer_binary
  binary-IsSettled op left_at right_at lt rt s (known_integer v x) (known_integer w y) =
      rw (and_false (is_add_or_subtract op), and_false (is_add op), and_false (is_comparison op))
        (evaluated-IsSettled (evaluate_integer_binary op v w))
  binary-IsSettled op left_at right_at lt rt s (known_integer v x) (known_double w y) =
      rw (and_false (is_add_or_subtract op), and_false (is_add op), and_false (is_comparison op))
        (floats-IsSettled op (across left_at right_at) _ y s)
  binary-IsSettled op left_at right_at lt rt s (known_double v x) (known_integer w y) =
      rw (and_false (is_add_or_subtract op), and_false (is_add op), and_false (is_comparison op))
        (floats-IsSettled op (across left_at right_at) x _ s)
  binary-IsSettled op left_at right_at lt rt s (known_double v x) (known_double w y) =
      rw (and_false (is_add_or_subtract op), and_false (is_add op), and_false (is_comparison op))
        (floats-IsSettled op (across left_at right_at) x y s)

  pub cast-IsSettled :
      (text : Text) {c : ExpressionCategory} {v : Option IntegerValue} {x : Option F}
      (t : ScalarType)
      → HasValueAs F c v x
      → IsSettled (cast_result float text (info c v x t))
  unfolding cast_result retyped
  cast-IsSettled text t (known_integer v x) = inl (known_integer _ x)
  cast-IsSettled text t (known_double v x) = inr refl

  pub unary-IsSettled :
      (op : AstConstantUnaryOperator) {c : ExpressionCategory} {v : Option IntegerValue}
      {x : Option F} (t : ScalarType)
      → HasValueAs F c v x
      → IsSettled (unary_result float op (info c v x t))
  unfolding unary_result negated_integer negated_floating logical_integer complement_integer
  unary-IsSettled plus t (known_integer v x) = inl (known_integer v x)
  unary-IsSettled minus t (known_integer v x) = inl (known_integer _ _)
  unary-IsSettled logical_not t (known_integer v x) = inl (known_integer _ x)
  unary-IsSettled bitwise_not t (known_integer v x) = inl (known_integer _ x)
  unary-IsSettled plus t (known_double v x) = inl (known_double v x)
  unary-IsSettled minus t (known_double v x) = inl (known_double _ _)
  unary-IsSettled logical_not t (known_double v x) = inr refl
  unary-IsSettled bitwise_not t (known_double v x) = inr refl

  -- With a condition that is an integer both branches are converted to one kind, and one is chosen.
  branches-IsSettled :
      (c : IntegerValue) (cx : Option F) (ct : ScalarType) {lc rc : ExpressionCategory}
      {lv rv : Option IntegerValue} {lx rx : Option F} (lt rt : ScalarType)
      → HasValueAs F lc lv lx
      → HasValueAs F rc rv rx
      → IsSettled (
          conditional_result float
            (info integral (some c) cx ct)
            (info lc lv lx lt)
            (info rc rv rx rt))
  unfolding conditional_result promote_floating_operands promote converted promoted_branches
      integer_branches chosen
  branches-IsSettled c cx ct lt rt (known_integer v x) (known_integer w y) =
      either-IsSettled (not (c.bits == 0)) _ _ (inl (known_integer _ x)) (inl (known_integer _ y))
  branches-IsSettled c cx ct lt rt (known_integer v x) (known_double w y) =
      either-IsSettled (not (c.bits == 0)) _ _ (inl (known_double _ _)) (inl (known_double w y))
  branches-IsSettled c cx ct lt rt (known_double v x) (known_integer w y) =
      either-IsSettled (not (c.bits == 0)) _ _ (inl (known_double v x)) (inl (known_double _ _))
  branches-IsSettled c cx ct lt rt (known_double v x) (known_double w y) =
      either-IsSettled (not (c.bits == 0)) _ _ (inl (known_double v x)) (inl (known_double w y))

  pub conditional-IsSettled :
      {cc lc rc : ExpressionCategory} {cv lv rv : Option IntegerValue} {cx lx rx : Option F}
      (ct lt rt : ScalarType)
      → HasValueAs F cc cv cx
      → HasValueAs F lc lv lx
      → HasValueAs F rc rv rx
      → IsSettled
          (conditional_result float (info cc cv cx ct) (info lc lv lx lt) (info rc rv rx rt))
  unfolding conditional_result promoted_branches
  conditional-IsSettled ct lt rt (known_integer v x) l r = branches-IsSettled v x ct lt rt l r
  conditional-IsSettled ct lt rt (known_double v x) l r = inr refl

  integers-IsSettled :
      (i : AstImmediate) (v : Option IntegerValue) (s : Sinks)
      → IsSettled (integer_literal float i v s).0
  unfolding integer_literal
  integers-IsSettled i none s = inr refl
  integers-IsSettled i (some v) s = inl (known_integer v none)

  double-IsSettled : (negative : Bool) (v : Option ℕ) → IsSettled (double_of float negative v)
  unfolding double_of
  double-IsSettled negative none = inr refl
  double-IsSettled negative (some v) = inl (known_double none _)

  decimal-IsSettled : (v : Option F) → IsSettled (decimal_literal float v)
  unfolding decimal_literal
  decimal-IsSettled none = inr refl
  decimal-IsSettled (some v) = inl (known_double none v)

  pub literal-IsSettled :
      (i : AstImmediate) (k : AstImmediateKind) (s : Sinks)
      → IsSettled (classify_literal float false i k s).0
  unfolding classify_literal single_literal double_literal
  literal-IsSettled i decimal_integer s =
      integers-IsSettled i (parse_integer_literal i.syntax.text) s
  literal-IsSettled i binary_integer s =
      integers-IsSettled i (parse_integer_literal i.syntax.text) s
  literal-IsSettled i hex_integer s = integers-IsSettled i (parse_integer_literal i.syntax.text) s
  literal-IsSettled i warp_size s = inl (known_integer _ none)
  literal-IsSettled i f32_hex s = inr refl
  literal-IsSettled i f64_hex s =
      let t = i.syntax.text in
      either-IsSettled (ltb (length (unsigned_text t)) 2) _ _ (inr refl) (
        double-IsSettled (starts_with (codes "-") t)
          (whole (from_chars 64 16 (drop 2 (unsigned_text t)))))
  literal-IsSettled i decimal_float s = decimal-IsSettled (float.decimal i.syntax.text)
