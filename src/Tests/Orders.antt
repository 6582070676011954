-- ===== src/Tests/Orders.antt =====
-- Runs of the orders of source ranges, and instances of their theorems.
use ptx_frontend.Common.{
  ℕ, zero, suc, none≢some, ◌≢◌, ◌⊎◌, ◌<◌, ◌≡◌, refl, subst, true, false, none, some, List, [], ◌∷◌,
  arith, codes, is_some, ◌==◌,
}
use ptx_frontend.Common.Int.{pos}
use ptx_frontend.Syntax.{SourceRange, AstSyntax}
use ptx_frontend.Binding.Symbols.{SymbolDeclarationOccurrence}
use ptx_frontend.Binding.Table.{SymbolTable, new_table}
use ptx_frontend.Binding.Builder.{find_order, record_declaration_occurrence}
use ptx_frontend.Binding.Builder.Queries.{has_prior_declaration}
use ptx_frontend.Binding.Builder.Follows.{IsEarlier, count}
use ptx_frontend.Binding.Builder.Recorded.{
  AllOrdered, HasOrders, record_declaration_occurrence-HasOrders,
}
use ptx_frontend.Binding.Builder.Prior.{Answers, has_prior_declaration-Answers}
use ptx_frontend.Binding.Builder.Orders.{index_source_ranges, no_orders}
use ptx_frontend.Binding.Builder.Traverse.{
  index_variable_initializers, declarator_names, index_variable_initializers-order,
}
use ptx_frontend.Syntax.Declaration.{AstVariableDeclarator, list, end, element, expression}
use ptx_frontend.Syntax.Constant.{AstConstantExpression, symbol, binary}
use ptx_frontend.Semantic.Integer.{add}

abbrev line : ℕ → SourceRange
line n = record {
  start = record { line = pos n; column = pos 1 };
  end = record { line = pos n; column = pos 9 };
}

-- The newest range first: the second line occurs twice.
abbrev lines : List SourceRange
lines = line 3 ∷ line 2 ∷ line 2 ∷ line 1 ∷ []

third_line : find_order (line 3) (index_source_ranges no_orders lines).orders ≡ some 3
unfolding index_source_ranges no_orders ptx_frontend.Binding.Builder.index_source_range
third_line = refl

abbrev lines_orders : List (SourceRange × ℕ)
lines_orders = (index_source_ranges no_orders lines).orders

abbrev first_line : SymbolDeclarationOccurrence
first_line = record {
  symbol = 0;
  range = line 1;
  lexical_order = find_order (line 1) lines_orders;
  variable_declaration_range = none;
}

abbrev one_symbol : SymbolTable
one_symbol = record new_table { declaration_occurrences = [] ∷ [] }

abbrev declared_once : SymbolTable
declared_once = record new_table { declaration_occurrences = (first_line ∷ []) ∷ [] }

one_symbol-HasOrders : HasOrders lines_orders one_symbol
one_symbol-HasOrders zero os e =
    let none_yet : [] ≡ os = cc e in subst (AllOrdered lines_orders) none_yet tt
one_symbol-HasOrders (suc k) os e = absurd (none≢some e)

declared_once-HasOrders : HasOrders lines_orders declared_once
unfolding record_declaration_occurrence
declared_once-HasOrders =
    record_declaration_occurrence-HasOrders lines_orders one_symbol declared_once 0 (line 1) none
      refl one_symbol-HasOrders

declared_before : has_prior_declaration lines_orders declared_once 0 (line 3) ≡ some true
unfolding has_prior_declaration index_source_ranges ptx_frontend.Binding.Builder.index_source_range
    no_orders
declared_before = refl

has_prior_declaration-Answers_example :
    ((count (line 3) lines ≡ 1)
      × Answers lines
          (line 3)
          (first_line ∷ [])
          false
          (has_prior_declaration lines_orders declared_once 0 (line 3)))
    ⊎ ((count (line 3) lines ≢ 1)
        × (has_prior_declaration lines_orders declared_once 0 (line 3) ≡ none))
has_prior_declaration-Answers_example =
    has_prior_declaration-Answers lines declared_once 0 (line 3) (first_line ∷ []) (omega arith)
      refl declared_once-HasOrders

abbrev name_at : ℕ → AstSyntax
name_at n = record { text = codes "x"; range = line n }

abbrev reference : ℕ → AstConstantExpression
reference n = symbol (name_at n) (line n)

-- A declarator on line 1 with the initializer `{x + x, x}`, whose names are on lines 2 to 4.
abbrev table : List AstVariableDeclarator
table =
    record {
      name = name_at 1;
      parameterized_count = none;
      array_dimensions = [];
      initializer = some (
          list
            (element (expression (binary (reference 2) add (reference 3) (line 2)) (line 2))
              (element (expression (reference 4) (line 4)) (end (line 4))))
            (line 2));
      range = line 1;
    }
    ∷ []

index_variable_initializers-order_example :
    ((r : SourceRange)
      → is_some (find_order r (index_variable_initializers no_orders table).orders)
        ≡ (count r (declarator_names table) == 1))
    × ((a b : SourceRange) (i j : ℕ)
        → IsEarlier a b (declarator_names table)
        → find_order a (index_variable_initializers no_orders table).orders ≡ some i
        → find_order b (index_variable_initializers no_orders table).orders ≡ some j
        → i < j)
index_variable_initializers-order_example = index_variable_initializers-order table (omega arith)

last_name : find_order (line 4) (index_variable_initializers no_orders table).orders ≡ some 3
unfolding index_variable_initializers no_orders ptx_frontend.Binding.Builder.index_source_range
    ptx_frontend.Binding.Builder.Traverse.index_initializer
last_name = refl
