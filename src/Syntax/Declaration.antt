-- ===== src/Syntax/Declaration.antt =====
-- submod/syntax/include/ptx_syntax_ast.hpp: initializers and the declarators of a variable declaration.
-- A list of initializers is a data type of its own.
use ptx_frontend.Common.{Option, List}
use ptx_frontend.Syntax.{SourceRange, AstSyntax}
use ptx_frontend.Syntax.Constant.{AstConstantExpression}

mutual
  pub data AstInitializer : Type 0 where
    expression : AstConstantExpression → SourceRange → AstInitializer
    list : AstInitializerList → SourceRange → AstInitializer
    -- The member, its value and the range of `AstNamedInitializer`.
    named : AstSyntax → AstConstantExpression → SourceRange → SourceRange → AstInitializer

  pub data AstInitializerList : Type 0 where
    end : SourceRange → AstInitializerList
    element : AstInitializer → AstInitializerList → AstInitializerList

pub record AstArrayDimension : Type 0 where
  pub size : Option AstConstantExpression
  pub range : SourceRange

pub record AstVariableDeclarator : Type 0 where
  pub name : AstSyntax
  pub parameterized_count : Option AstSyntax
  pub array_dimensions : List AstArrayDimension
  pub initializer : Option AstInitializer
  pub range : SourceRange
