-- ===== src/Semantic/Constant/Independence.antt =====
-- What an expression evaluates to does not depend on the sinks.
use ptx_frontend.Common.{
  ◌≡◌, refl, sym, ap, ◌∙◌, Bool, true, false, not, ◌&&◌, Option, none, some, if◌then◌else◌,
}
use ptx_frontend.Syntax.{
  SourceRange, AstImmediate, AstImmediateKind, decimal_integer, hex_integer, f32_hex, f64_hex,
  decimal_float, warp_size, binary_integer,
}
use ptx_frontend.Syntax.Constant.{
  AstConstantExpression, literal, symbol, parenthesized, call, cast, unary, binary, conditional,
  range_of,
}
use ptx_frontend.Semantic.Integer.{IntegerValue, BinaryOperator, multiply, divide, add, subtract}
use ptx_frontend.Semantic.Constant.{
  Binary64, floating, same_category, ExpressionInfo, Sinks, Step, parse_integer_literal,
  address_info, defer,
}
use ptx_frontend.Semantic.Constant.Operators.{is_comparison}
use ptx_frontend.Semantic.Constant.Literal.{
  classify_literal, integer_literal, single_literal, has_sign,
}
use ptx_frontend.Semantic.Constant.Binary.{
  promote_floating_operands, floating_arithmetic, floating_binary, integer_binary, numeric_binary,
  classify_binary, across, not_numeric, moves_address, adds_address, compares_addresses,
}
use ptx_frontend.Semantic.Constant.Result.{
  call_result, cast_result, unary_result, conditional_result, is_generic, is_literal,
}
use ptx_frontend.Semantic.Constant.Classify.{finish, classify_expression, symbol_message}
use ptx_frontend.Semantic.Constant.Formed.Expression.{finish_info}

module _ {F : Type 0} (float : Binary64 F) (s t : Sinks) where
  alike :
      (b : Bool) (p q p' q' : Step F)
      → p.0 ≡ p'.0
      → q.0 ≡ q'.0
      → (if b then p else q).0 ≡ (if b then p' else q').0
  alike true p q p' q' h k = h
  alike false p q p' q' h k = k

  arithmetic_alike :
      (op : BinaryOperator) (at : SourceRange) (l r : F)
      → (floating_arithmetic float op at l r s).0 ≡ (floating_arithmetic float op at l r t).0
  unfolding floating_arithmetic
  arithmetic_alike multiply at l r = refl
  arithmetic_alike divide at l r = alike (float.is_equal r float.zero_value) _ _ _ _ refl refl
  arithmetic_alike add at l r = refl
  arithmetic_alike subtract at l r = refl
  arithmetic_alike _ at l r = refl

  floating_alike :
      (op : BinaryOperator) (at : SourceRange) (l r : Option F)
      → (floating_binary float op at l r s).0 ≡ (floating_binary float op at l r t).0
  unfolding floating_binary
  floating_alike op at none r = refl
  floating_alike op at (some l) none = refl
  floating_alike op at (some l) (some r) =
      alike (is_comparison op) _ _ _ _ refl (arithmetic_alike op at l r)

  integer_alike :
      (op : BinaryOperator) (left_at right_at : SourceRange) (l r : Option IntegerValue)
      → (integer_binary float op left_at right_at l r s).0
        ≡ (integer_binary float op left_at right_at l r t).0
  unfolding integer_binary
  integer_alike op left_at right_at none r = refl
  integer_alike op left_at right_at (some l) none = refl
  integer_alike op left_at right_at (some l) (some r) = refl

  numeric_alike :
      (op : BinaryOperator) (left_at right_at : SourceRange) (l r : ExpressionInfo F)
      → (numeric_binary float op left_at right_at l r s).0
        ≡ (numeric_binary float op left_at right_at l r t).0
  unfolding numeric_binary
  numeric_alike op left_at right_at l r = alike (not_numeric l.category r.category) _ _ _ _ refl (
      alike (same_category l.category floating) _ _ _ _
        (floating_alike op (across left_at right_at) l.floating_value r.floating_value)
        (integer_alike op left_at right_at l.integer_value r.integer_value))

  binary_alike :
      (op : BinaryOperator) (left_at right_at : SourceRange) (l r : ExpressionInfo F)
      → (classify_binary float op left_at right_at l r s).0
        ≡ (classify_binary float op left_at right_at l r t).0
  unfolding classify_binary
  binary_alike op left_at right_at l r =
      let p = promote_floating_operands float l r in
      alike (moves_address op l.category r.category) _ _ _ _ refl (
        alike (adds_address op l.category r.category) _ _ _ _ refl (
          alike (compares_addresses op l.category r.category) _ _ _ _ refl
            (numeric_alike op left_at right_at p.0 p.1)))

  integers_alike :
      (i : AstImmediate) (v : Option IntegerValue)
      → (integer_literal float i v s).0 ≡ (integer_literal float i v t).0
  unfolding integer_literal
  integers_alike i none = refl
  integers_alike i (some v) = refl

  literal_alike :
      (allow : Bool) (i : AstImmediate) (k : AstImmediateKind)
      → (classify_literal float allow i k s).0 ≡ (classify_literal float allow i k t).0
  unfolding classify_literal single_literal
  literal_alike allow i decimal_integer = integers_alike i (parse_integer_literal i.syntax.text)
  literal_alike allow i binary_integer = integers_alike i (parse_integer_literal i.syntax.text)
  literal_alike allow i hex_integer = integers_alike i (parse_integer_literal i.syntax.text)
  literal_alike allow i warp_size = refl
  literal_alike allow i f32_hex = alike (allow && not (has_sign i.syntax.text)) _ _ _ _ refl refl
  literal_alike allow i f64_hex = refl
  literal_alike allow i decimal_float = refl

module _ {F : Type 0} (float : Binary64 F) where
  finish_alike :
      (at : SourceRange) (p q : Step F) → p.0 ≡ q.0 → (finish float at p).0 ≡ (finish float at q).0
  finish_alike at p q h = finish_info float at p ∙ h ∙ sym (finish_info float at q)

  -- The result of an expression is the same whatever the sinks are when its evaluation starts.
  pub classify_expression-independent :
      (allow : Bool) (e : AstConstantExpression) (s t : Sinks)
      → (classify_expression float allow e s).0 ≡ (classify_expression float allow e t).0
  unfolding classify_expression
  classify_expression-independent allow (literal i at) s t =
      finish_alike at (classify_literal float allow i i.kind s)
        (classify_literal float allow i i.kind t) (literal_alike float s t allow i i.kind)
  classify_expression-independent allow (symbol n at) s t =
      finish_alike at (address_info, defer n.range symbol_message s)
        (address_info, defer n.range symbol_message t) refl
  classify_expression-independent allow (parenthesized e at) s t =
      finish_alike at (classify_expression float false e s) (classify_expression float false e t)
        (classify_expression-independent false e s t)
  classify_expression-independent allow (call callee argument at) s t =
      let c = classify_expression float false callee s in
      let c' = classify_expression float false callee t in
      let a = classify_expression float false argument c.1 in
      let a' = classify_expression float false argument c'.1 in
      let result = call_result float (is_generic callee) (is_literal callee) in
      finish_alike at (result c.0 a.0, a.1) (result c'.0 a'.0, a'.1)
        (ap (λ (x : ExpressionInfo F). result x a.0)
            (classify_expression-independent false callee s t)
          ∙ ap (result c'.0) (classify_expression-independent false argument c.1 c'.1))
  classify_expression-independent allow (cast u e at) s t =
      let o = classify_expression float false e s in
      let o' = classify_expression float false e t in
      finish_alike at (cast_result float u.text o.0, o.1) (cast_result float u.text o'.0, o'.1)
        (ap (cast_result float u.text) (classify_expression-independent false e s t))
  classify_expression-independent allow (unary op e at) s t =
      let o = classify_expression float false e s in
      let o' = classify_expression float false e t in
      finish_alike at (unary_result float op o.0, o.1) (unary_result float op o'.0, o'.1)
        (ap (unary_result float op) (classify_expression-independent false e s t))
  classify_expression-independent allow (binary left op right at) s t =
      let l = classify_expression float false left s in
      let l' = classify_expression float false left t in
      let r = classify_expression float false right l.1 in
      let r' = classify_expression float false right l'.1 in
      let result = classify_binary float op (range_of left) (range_of right) in
      finish_alike at (result l.0 r.0 r.1) (result l'.0 r'.0 r'.1) (
        binary_alike float r.1 r'.1 op (range_of left) (range_of right) l.0 r.0
        ∙ ap (λ (x : ExpressionInfo F). (result x r.0 r'.1).0)
            (classify_expression-independent false left s t)
        ∙ ap (λ (x : ExpressionInfo F). (result l'.0 x r'.1).0)
            (classify_expression-independent false right l.1 l'.1))
  classify_expression-independent allow (conditional condition true_value false_value at) s t =
      let c = classify_expression float false condition s in
      let c' = classify_expression float false condition t in
      let y = classify_expression float false true_value c.1 in
      let y' = classify_expression float false true_value c'.1 in
      let o = classify_expression float false false_value y.1 in
      let o' = classify_expression float false false_value y'.1 in
      let result = conditional_result float in
      finish_alike at (result c.0 y.0 o.0, o.1) (result c'.0 y'.0 o'.0, o'.1)
        (ap (λ (x : ExpressionInfo F). result x y.0 o.0)
            (classify_expression-independent false condition s t)
          ∙ ap (λ (x : ExpressionInfo F). result c'.0 x o.0)
              (classify_expression-independent false true_value c.1 c'.1)
          ∙ ap (result c'.0 y'.0) (classify_expression-independent false false_value y.1 y'.1))
