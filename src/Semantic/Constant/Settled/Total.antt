-- ===== src/Semantic/Constant/Settled/Total.antt =====
-- A numeric expression has a value.
use ptx_frontend.Common.{◌≡◌, refl, sym, ap, ◌∙◌, Bool, true, false, Option, ◌||◌, inl, inr, subst}
use ptx_frontend.Syntax.{SourceRange}
use ptx_frontend.Syntax.Constant.{
  AstConstantExpression, literal, symbol, parenthesized, call, cast, unary, binary, conditional,
  range_of,
}
use ptx_frontend.Semantic.Integer.{IntegerValue}
use ptx_frontend.Semantic.Constant.{
  Binary64, same_category, ExpressionInfo, Sinks, Step, ExpressionCategory, invalid,
}
use ptx_frontend.Semantic.Constant.Literal.{classify_literal}
use ptx_frontend.Semantic.Constant.Binary.{classify_binary}
use ptx_frontend.Semantic.Constant.Result.{cast_result, unary_result, conditional_result}
use ptx_frontend.Semantic.Constant.Classify.{finish, classify_expression}
use ptx_frontend.Semantic.Constant.Formed.Expression.{finish_info}
use ptx_frontend.Base.Scalar.{ScalarType}
use ptx_frontend.Semantic.Constant.Independence.{classify_expression-independent}
use ptx_frontend.Semantic.Constant.Failures.{is_invalid, has_invalid, has_symbol}
use ptx_frontend.Semantic.Constant.Values.{
  no_sinks, NumericConstantValue, integer_constant, integer_constant_of, floating_constant,
  expected, concrete, numeric_constant_value,
}
use ptx_frontend.Semantic.Constant.Values.Outcome.{numeric_constant_value-Outcome}
use ptx_frontend.Semantic.Constant.Settled.{
  HasValueAs, known_integer, known_double, HasValue, IsSettled, info, binary-IsSettled,
  cast-IsSettled, unary-IsSettled, conditional-IsSettled, literal-IsSettled,
}

-- An expression of numbers and operators: no symbol and no call.
abbrev pub IsNumeric : AstConstantExpression → Type 0
IsNumeric (literal i at) = Unit {0}
IsNumeric (symbol n at) = ⊥
IsNumeric (parenthesized e at) = IsNumeric e
IsNumeric (call c a at) = ⊥
IsNumeric (cast t e at) = IsNumeric e
IsNumeric (unary op e at) = IsNumeric e
IsNumeric (binary l op r at) = IsNumeric l × IsNumeric r
IsNumeric (conditional c a b at) = IsNumeric c × IsNumeric a × IsNumeric b

numeric_without_symbol : (e : AstConstantExpression) → IsNumeric e → has_symbol e ≡ false
numeric_without_symbol (literal i at) h = refl
numeric_without_symbol (symbol n at) h = absurd h
numeric_without_symbol (parenthesized e at) h = numeric_without_symbol e h
numeric_without_symbol (call c a at) h = absurd h
numeric_without_symbol (cast t e at) h = numeric_without_symbol e h
numeric_without_symbol (unary op e at) h = numeric_without_symbol e h
numeric_without_symbol (binary l op r at) h =
    rw (numeric_without_symbol l h.0, numeric_without_symbol r h.1) refl
numeric_without_symbol (conditional c a b at) h =
    rw (numeric_without_symbol c h.0, numeric_without_symbol a h.1, numeric_without_symbol b h.2)
      refl

or_false_both : (a b : Bool) → (a || b) ≡ false → (a ≡ false) × (b ≡ false)
or_false_both false b h = (refl, h)
or_false_both true b h = cc h

module _ {F : Type 0} (float : Binary64 F) where
  node_value :
      (e : AstConstantExpression) (at : SourceRange) (s : Sinks) (p : Step F)
      → classify_expression float false e s ≡ finish float at p
      → IsSettled p.0
      → is_invalid float false e ≡ false
      → HasValue (classify_expression float false e s).0
  node_value e at s p same settled good =
      let result : (classify_expression float false e s).0 ≡ p.0 =
        ap (λ (q : Step F). q.0) same ∙ finish_info float at p in
      let alone : (classify_expression float false e no_sinks).0 ≡ p.0 =
        classify_expression-independent float false e no_sinks s ∙ result in
      elim settled [
        | inl h ↦ subst HasValue (sym result) h
        | inr bad ↦
            let category : (classify_expression float false e no_sinks).0.category ≡ invalid =
              ap (λ (i : ExpressionInfo F). i.category) alone ∙ bad in
            absurd (
              contradiction (ap (λ (c : ExpressionCategory). same_category c invalid) category)
                good)
      ]
    where
      contradiction : {b : Bool} → b ≡ true → b ≡ false → ⊥
      contradiction h k = cc (h, k)

  pub value_known :
      (e : AstConstantExpression) (s : Sinks)
      → IsNumeric e
      → has_invalid float false e ≡ false
      → HasValue (classify_expression float false e s).0
  unfolding classify_expression
  value_known (literal i at) s n h =
      node_value (literal i at) at s (classify_literal float false i i.kind s) refl
        (literal-IsSettled float i i.kind s) h
  value_known (symbol name at) s n h = absurd n
  value_known (parenthesized e at) s n h =
      let g = or_false_both (has_invalid float false e) _ h in
      node_value (parenthesized e at) at s (classify_expression float false e s) refl
        (inl (value_known e s n g.0)) g.1
  value_known (call c a at) s n h = absurd n
  value_known (cast t e at) s n h =
      let g = or_false_both (has_invalid float false e) _ h in
      let o = classify_expression float false e s in
      node_value (cast t e at) at s (cast_result float t.text o.0, o.1) refl
        (cast-IsSettled float t.text o.0.floating_type (value_known e s n g.0)) g.1
  value_known (unary op e at) s n h =
      let g = or_false_both (has_invalid float false e) _ h in
      let o = classify_expression float false e s in
      node_value (unary op e at) at s (unary_result float op o.0, o.1) refl
        (unary-IsSettled float op o.0.floating_type (value_known e s n g.0)) g.1
  value_known (binary left op right at) s n h =
      let g = or_false_both (has_invalid float false left || has_invalid float false right) _ h in
      let both = or_false_both (has_invalid float false left) (has_invalid float false right) g.0 in
      let l = classify_expression float false left s in
      let r = classify_expression float false right l.1 in
      node_value (binary left op right at) at s
        (classify_binary float op (range_of left) (range_of right) l.0 r.0 r.1) refl
        (binary-IsSettled float op (range_of left) (range_of right) l.0.floating_type
          r.0.floating_type r.1 (value_known left s n.0 both.0) (value_known right l.1 n.1 both.1))
        g.1
  value_known (conditional condition true_value false_value at) s n h =
      let bad = has_invalid float false in
      let g = or_false_both (bad condition || (bad true_value || bad false_value)) _ h in
      let first = or_false_both (bad condition) (bad true_value || bad false_value) g.0 in
      let rest = or_false_both (bad true_value) (bad false_value) first.1 in
      let c = classify_expression float false condition s in
      let y = classify_expression float false true_value c.1 in
      let o = classify_expression float false false_value y.1 in
      node_value (conditional condition true_value false_value at) at s
        (conditional_result float c.0 y.0 o.0, o.1) refl
        (conditional-IsSettled float c.0.floating_type y.0.floating_type o.0.floating_type
          (value_known condition s n.0 first.0) (value_known true_value c.1 n.1 rest.0)
          (value_known false_value y.1 n.2 rest.1))
        g.1

  concrete_value :
      (at : SourceRange) (t : ScalarType) {c : ExpressionCategory} {v : Option IntegerValue}
      {x : Option F}
      → HasValueAs F c v x
      → (w : NumericConstantValue F) × (concrete float at (info c v x t) ≡ expected w)
  concrete_value at t (known_integer v x) = (integer_constant (integer_constant_of v), refl)
  concrete_value at t (known_double v x) = (floating_constant x, refl)

  -- An expression of literals, parentheses, casts and operators without an invalid subexpression has a
  -- numeric value: the evaluation succeeds.
  pub numeric_constant_value_total :
      (e : AstConstantExpression)
      → IsNumeric e
      → has_invalid float false e ≡ false
      → (v : NumericConstantValue F) × (numeric_constant_value float e ≡ expected v)
  numeric_constant_value_total e n h =
      let i = (classify_expression float false e no_sinks).0 in
      let (v, found) = concrete_value (range_of e) i.floating_type (value_known e no_sinks n h) in
      (v, (numeric_constant_value-Outcome float e).otherwise h (numeric_without_symbol e n) ∙ found)
