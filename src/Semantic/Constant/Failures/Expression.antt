-- ===== src/Semantic/Constant/Failures/Expression.antt =====
-- The failure after a whole expression.
use ptx_frontend.Common.{
  ◌≡◌, inl, inr, refl, sym, ap, subst, ◌∙◌, Bool, true, false, ◌||◌, Text, is_empty, Bool-cases,
}
use ptx_frontend.Syntax.{SourceRange}
use ptx_frontend.Syntax.Constant.{
  AstConstantExpression, literal, symbol, parenthesized, call, cast, unary, binary, conditional,
  range_of,
}
use ptx_frontend.Semantic.Constant.{
  Binary64, invalid, same_category, ExpressionInfo, Sinks, Step, invalid_info, address_info, fail,
  defer,
}
use ptx_frontend.Semantic.Constant.Literal.{classify_literal}
use ptx_frontend.Semantic.Constant.Binary.{classify_binary}
use ptx_frontend.Semantic.Constant.Result.{
  call_result, cast_result, unary_result, conditional_result, is_generic, is_literal,
}
use ptx_frontend.Semantic.Constant.Classify.{
  finish, classify_expression, invalid_message, symbol_message,
}
use ptx_frontend.Semantic.Constant.Effects.{Effect, binary-Effect, literal-Effect}
use ptx_frontend.Semantic.Constant.Values.{no_sinks}
use ptx_frontend.Semantic.Constant.Formed.Expression.{finish_info}
use ptx_frontend.Semantic.Constant.Independence.{classify_expression-independent}
use ptx_frontend.Semantic.Constant.Failures.{
  Moves, Moves-refl, Moves-trans, Moves-fail, Moves-defer, is_invalid, has_invalid, has_symbol,
}

or_false : (b : Bool) → (b || false) ≡ b
or_false true = refl
or_false false = refl

module _ {F : Type 0} (float : Binary64 F) where
  untouched :
      (at : SourceRange) (s : Sinks) (p : Step F)
      → p.1 ≡ s
      → Moves s.failure (finish float at p).1.failure (same_category p.0.category invalid) false
  unfolding finish
  untouched at s p h =
      subst
        (λ (t : Sinks).
          Moves t.failure (finish float at p).1.failure (same_category p.0.category invalid) false)
        h
        (elim (Bool-cases (same_category p.0.category invalid)) [
          | inl e ↦ rw e (Moves-fail p.1.failure at invalid_message refl)
          | inr e ↦ rw e (Moves-refl p.1.failure)
        ])

  finish_failed :
      (at other : SourceRange) (why : Text) (s : Sinks)
      → is_empty why ≡ false
      → Moves s.failure (finish float at (invalid_info, fail other why s)).1.failure true false
  unfolding finish
  finish_failed at other why s h =
      Moves-trans (Moves-fail s.failure other why h)
        (Moves-fail (fail other why s).failure at invalid_message refl)

  finish-Moves :
      (at : SourceRange) (s : Sinks) (p : Step F)
      → Effect s p
      → Moves s.failure (finish float at p).1.failure (same_category p.0.category invalid) false
  finish-Moves at s p (inl h) = untouched at s p h
  finish-Moves at s p (inr h) =
      let same : (invalid_info, fail h.where_at h.why s) ≡ p =
        ap (λ (i : ExpressionInfo F). (i, fail h.where_at h.why s)) (sym h.is_invalid)
        ∙ ap (λ (t : Sinks). (p.0, t)) (sym h.reported) in
      subst
        (λ (q : Step F).
          Moves s.failure (finish float at q).1.failure (same_category q.0.category invalid) false)
        same (finish_failed at h.where_at h.why s h.has_message)

  -- A node after its operands.
  node-Moves :
      (allow : Bool) (e : AstConstantExpression) (at : SourceRange) (s m : Sinks) (p : Step F)
      (x y : Bool)
      → classify_expression float allow e s ≡ finish float at p
      → Moves s.failure m.failure x y
      → Effect m p
      → Moves s.failure
          (classify_expression float allow e s).1.failure
          (x || is_invalid float allow e)
          y
  node-Moves allow e at s m p x y same before effect =
      let bad : same_category p.0.category invalid ≡ is_invalid float allow e =
        ap (λ (i : ExpressionInfo F). same_category i.category invalid)
          (sym (finish_info float at p)
            ∙ ap (λ (q : Step F). q.0) (sym same)
            ∙ classify_expression-independent float allow e s no_sinks) in
      let all = Moves-trans before (finish-Moves at m p effect) in
      rw same (
        subst (λ (b : Bool). Moves s.failure (finish float at p).1.failure (x || b) y) bad
          (subst
            (λ (b : Bool).
              Moves s.failure (finish float at p).1.failure
                (x || same_category p.0.category invalid) b)
            (or_false y) all))

  -- Evaluation with a failure to write to leaves a settled one exactly if there was one before or a
  -- subexpression is invalid, and a failure of either kind exactly if there was one, a subexpression is
  -- invalid or a symbol occurs. The first settled failure stays; without the pointer none is written.
  pub classify_expression-Moves :
      (allow : Bool) (e : AstConstantExpression) (s : Sinks)
      → Moves s.failure
          (classify_expression float allow e s).1.failure
          (has_invalid float allow e)
          (has_symbol e)
  unfolding classify_expression
  classify_expression-Moves allow (literal i at) s =
      let effect = literal-Effect float s allow i i.kind in
      let before : Moves s.failure effect.0.failure false false =
        rw effect.1 (Moves-refl s.failure) in
      node-Moves allow (literal i at) at s effect.0 (classify_literal float allow i i.kind s) false
        false refl before effect.2
  classify_expression-Moves allow (symbol n at) s =
      node-Moves allow (symbol n at) at s (defer n.range symbol_message s)
        (address_info, defer n.range symbol_message s) false true refl
        (Moves-defer s.failure n.range symbol_message refl) (inl refl)
  classify_expression-Moves allow (parenthesized e at) s =
      let o = classify_expression float false e s in
      node-Moves allow (parenthesized e at) at s o.1 o (has_invalid float false e) (has_symbol e)
        refl (classify_expression-Moves false e s) (inl refl)
  classify_expression-Moves allow (call callee argument at) s =
      let c = classify_expression float false callee s in
      let a = classify_expression float false argument c.1 in
      node-Moves allow (call callee argument at) at s a.1
        (call_result float (is_generic callee) (is_literal callee) c.0 a.0, a.1)
        (has_invalid float false callee || has_invalid float false argument)
        (has_symbol callee || has_symbol argument) refl
        (Moves-trans (classify_expression-Moves false callee s)
          (classify_expression-Moves false argument c.1))
        (inl refl)
  classify_expression-Moves allow (cast t e at) s =
      let o = classify_expression float false e s in
      node-Moves allow (cast t e at) at s o.1 (cast_result float t.text o.0, o.1)
        (has_invalid float false e) (has_symbol e) refl (classify_expression-Moves false e s)
        (inl refl)
  classify_expression-Moves allow (unary op e at) s =
      let o = classify_expression float false e s in
      node-Moves allow (unary op e at) at s o.1 (unary_result float op o.0, o.1)
        (has_invalid float false e) (has_symbol e) refl (classify_expression-Moves false e s)
        (inl refl)
  classify_expression-Moves allow (binary left op right at) s =
      let l = classify_expression float false left s in
      let r = classify_expression float false right l.1 in
      node-Moves allow (binary left op right at) at s r.1
        (classify_binary float op (range_of left) (range_of right) l.0 r.0 r.1)
        (has_invalid float false left || has_invalid float false right)
        (has_symbol left || has_symbol right) refl
        (Moves-trans (classify_expression-Moves false left s)
          (classify_expression-Moves false right l.1))
        (binary-Effect float r.1 op (range_of left) (range_of right) l.0 r.0)
  classify_expression-Moves allow (conditional condition true_value false_value at) s =
      let c = classify_expression float false condition s in
      let y = classify_expression float false true_value c.1 in
      let o = classify_expression float false false_value y.1 in
      node-Moves allow (conditional condition true_value false_value at) at s o.1
        (conditional_result float c.0 y.0 o.0, o.1)
        (has_invalid float false condition
          || (has_invalid float false true_value || has_invalid float false false_value))
        (has_symbol condition || (has_symbol true_value || has_symbol false_value)) refl
        (Moves-trans (classify_expression-Moves false condition s) (
          Moves-trans (classify_expression-Moves false true_value c.1)
            (classify_expression-Moves false false_value y.1)))
        (inl refl)
