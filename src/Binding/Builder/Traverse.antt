-- ===== src/Binding/Builder/Traverse.antt =====
-- submod/binding/src/ptx_symbol_table.cpp: the source ranges that a variable declaration is indexed with.
use ptx_frontend.Common.{
  ℕ, ◌^◌, ◌≡◌, ◌<◌, refl, sym, ap, ◌∙◌, Bool, true, false, Option, none, some, List, [], ◌∷◌, ◌++◌,
  ◌==◌, length, is_some, if◌then◌else◌,
}
use ptx_frontend.Syntax.{SourceRange}
use ptx_frontend.Syntax.Constant.{
  AstConstantExpression, literal, symbol, parenthesized, call, cast, unary, binary, conditional,
}
use ptx_frontend.Syntax.Declaration.{
  AstInitializer, AstInitializerList, expression, list, named, end, element, AstVariableDeclarator,
}
use ptx_frontend.Binding.Builder.{SourceOrders, find_order, index_source_range}
use ptx_frontend.Binding.Builder.Orders.{index_source_ranges, no_orders, index_source_ranges-order}
use ptx_frontend.Binding.Builder.Follows.{IsEarlier, count}

unfoldable pub index_constant_expression : SourceOrders → AstConstantExpression → SourceOrders
index_constant_expression s (literal i r) = s
index_constant_expression s (symbol name r) = index_source_range s name.range
index_constant_expression s (parenthesized e r) = index_constant_expression s e
index_constant_expression s (call callee argument r) =
    index_constant_expression (index_constant_expression s callee) argument
index_constant_expression s (cast t e r) = index_constant_expression s e
index_constant_expression s (unary o e r) = index_constant_expression s e
index_constant_expression s (binary left o right r) =
    index_constant_expression (index_constant_expression s left) right
index_constant_expression s (conditional c a b r) =
    index_constant_expression (index_constant_expression (index_constant_expression s c) a) b

-- `std::holds_alternative<AstConstantSymbol>`
abbrev pub is_symbol : AstConstantExpression → Bool
is_symbol (literal i r) = false
is_symbol (symbol name r) = true
is_symbol (parenthesized e r) = false
is_symbol (call c a r) = false
is_symbol (cast t e r) = false
is_symbol (unary o e r) = false
is_symbol (binary a o b r) = false
is_symbol (conditional c a b r) = false

unfoldable mutual
  unfolding index_constant_expression

  pub index_initializer : SourceOrders → AstInitializer → SourceOrders
  index_initializer s (expression e r) = index_constant_expression s e
  index_initializer s (list elements r) = index_elements s elements
  index_initializer s (named member value r r') =
      if is_symbol value then s else index_constant_expression s value

  pub index_elements : SourceOrders → AstInitializerList → SourceOrders
  index_elements s (end r) = s
  index_elements s (element i elements) = index_elements (index_initializer s i) elements

-- `indexVariableInitializers` on the declarators of its declaration, which it reads alone.
unfoldable pub index_variable_initializers :
    SourceOrders → List AstVariableDeclarator → SourceOrders
index_variable_initializers s [] = s
index_variable_initializers s (declarator ∷ declarators) =
    let named = index_source_range s declarator.name.range in
    index_variable_initializers
      (elim declarator.initializer [ none ↦ named | some i ↦ index_initializer named i ])
      declarators

-- The ranges of the names in an expression, the newest first.
abbrev pub names_of : AstConstantExpression → List SourceRange
names_of (literal i r) = []
names_of (symbol name r) = name.range ∷ []
names_of (parenthesized e r) = names_of e
names_of (call callee argument r) = names_of argument ++ names_of callee
names_of (cast t e r) = names_of e
names_of (unary o e r) = names_of e
names_of (binary left o right r) = names_of right ++ names_of left
names_of (conditional c a b r) = names_of b ++ (names_of a ++ names_of c)

-- A name that is the whole value of a member is not a reference to a symbol.
abbrev mutual
  pub initializer_names : AstInitializer → List SourceRange
  initializer_names (expression e r) = names_of e
  initializer_names (list elements r) = element_names elements
  initializer_names (named member value r r') = if is_symbol value then [] else names_of value

  pub element_names : AstInitializerList → List SourceRange
  element_names (end r) = []
  element_names (element i elements) = element_names elements ++ initializer_names i

abbrev pub value_names : Option AstInitializer → List SourceRange
value_names none = []
value_names (some i) = initializer_names i

abbrev pub declarator_names : List AstVariableDeclarator → List SourceRange
declarator_names [] = []
declarator_names (d ∷ ds) = declarator_names ds ++ (value_names d.initializer ++ d.name.range ∷ [])

index_source_ranges-append :
    (s : SourceOrders) (xs ys : List SourceRange)
    → index_source_ranges s (xs ++ ys) ≡ index_source_ranges (index_source_ranges s ys) xs
unfolding index_source_ranges
index_source_ranges-append s [] ys = refl
index_source_ranges-append s (x ∷ xs) ys =
    ap (λ q. index_source_range q x) (index_source_ranges-append s xs ys)

index_constant_expression-names :
    (s : SourceOrders) (e : AstConstantExpression)
    → index_constant_expression s e ≡ index_source_ranges s (names_of e)
unfolding index_constant_expression index_source_ranges
index_constant_expression-names s (literal i r) = refl
index_constant_expression-names s (symbol name r) = refl
index_constant_expression-names s (parenthesized e r) = index_constant_expression-names s e
index_constant_expression-names s (call f x r) =
    ap (λ q. index_constant_expression q x) (index_constant_expression-names s f)
    ∙ index_constant_expression-names (index_source_ranges s (names_of f)) x
    ∙ sym (index_source_ranges-append s (names_of x) (names_of f))
index_constant_expression-names s (cast t e r) = index_constant_expression-names s e
index_constant_expression-names s (unary o e r) = index_constant_expression-names s e
index_constant_expression-names s (binary a o b r) =
    ap (λ q. index_constant_expression q b) (index_constant_expression-names s a)
    ∙ index_constant_expression-names (index_source_ranges s (names_of a)) b
    ∙ sym (index_source_ranges-append s (names_of b) (names_of a))
index_constant_expression-names s (conditional c a b r) =
    ap (λ q. index_constant_expression (index_constant_expression q a) b)
      (index_constant_expression-names s c)
    ∙ ap (λ q. index_constant_expression q b)
        (index_constant_expression-names (index_source_ranges s (names_of c)) a
          ∙ sym (index_source_ranges-append s (names_of a) (names_of c)))
    ∙ index_constant_expression-names (index_source_ranges s (names_of a ++ names_of c)) b
    ∙ sym (index_source_ranges-append s (names_of b) (names_of a ++ names_of c))

named_value :
    (s : SourceOrders) (value : AstConstantExpression) (whole : Bool)
    → index_constant_expression s value ≡ index_source_ranges s (names_of value)
    → (if whole then s else index_constant_expression s value)
      ≡ index_source_ranges s (if whole then [] else names_of value)
unfolding index_source_ranges
named_value s value true e = refl
named_value s value false e = e

mutual
  unfolding index_initializer index_elements index_constant_expression index_source_ranges

  index_initializer-names :
      (s : SourceOrders) (i : AstInitializer)
      → index_initializer s i ≡ index_source_ranges s (initializer_names i)
  index_initializer-names s (expression e r) = index_constant_expression-names s e
  index_initializer-names s (list elements r) = index_elements-names s elements
  index_initializer-names s (named member value r r') =
      named_value s value (is_symbol value) (index_constant_expression-names s value)

  index_elements-names :
      (s : SourceOrders) (elements : AstInitializerList)
      → index_elements s elements ≡ index_source_ranges s (element_names elements)
  index_elements-names s (end r) = refl
  index_elements-names s (element i elements) =
      ap (λ q. index_elements q elements) (index_initializer-names s i)
      ∙ index_elements-names (index_source_ranges s (initializer_names i)) elements
      ∙ sym (index_source_ranges-append s (element_names elements) (initializer_names i))

value-names :
    (s : SourceOrders) (initializer : Option AstInitializer)
    → (elim initializer [ none ↦ s | some i ↦ index_initializer s i ])
      ≡ index_source_ranges s (value_names initializer)
unfolding index_source_ranges
value-names s none = refl
value-names s (some i) = index_initializer-names s i

index_variable_initializers-names :
    (s : SourceOrders) (ds : List AstVariableDeclarator)
    → index_variable_initializers s ds ≡ index_source_ranges s (declarator_names ds)
unfolding index_variable_initializers index_source_ranges
index_variable_initializers-names s [] = refl
index_variable_initializers-names s (d ∷ ds) =
    let named = index_source_range s d.name.range in
    ap (λ q. index_variable_initializers q ds)
      (value-names named d.initializer
        ∙ sym (index_source_ranges-append s (value_names d.initializer) (d.name.range ∷ [])))
    ∙ index_variable_initializers-names
        (index_source_ranges s (value_names d.initializer ++ d.name.range ∷ [])) ds
    ∙ sym (
        index_source_ranges-append s (declarator_names ds)
          (value_names d.initializer ++ d.name.range ∷ []))

-- For declarators with fewer than 2^32 names and references to symbols in initializers: from no orders on,
-- the ranges that get an order are those that occur once among them, and where an ordered range occurs
-- before an ordered one its order is lower.
pub index_variable_initializers-order :
    (ds : List AstVariableDeclarator)
    → length (declarator_names ds) < 2 ^ 32
    → ((r : SourceRange)
        → is_some (find_order r (index_variable_initializers no_orders ds).orders)
          ≡ (count r (declarator_names ds) == 1))
      × ((a b : SourceRange) (i j : ℕ)
          → IsEarlier a b (declarator_names ds)
          → find_order a (index_variable_initializers no_orders ds).orders ≡ some i
          → find_order b (index_variable_initializers no_orders ds).orders ≡ some j
          → i < j)
index_variable_initializers-order ds room =
    rw (index_variable_initializers-names no_orders ds)
      (index_source_ranges-order (declarator_names ds) room)
