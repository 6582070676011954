-- ===== src/Lib.antt =====
-- ptx_frontend, a front end for PTX: its base tables, constant expressions and symbol table.
--
-- The program's parts and how they interact. The base library (submod/base) holds what all stages
-- share: the spelling of integers and identifiers, the table of scalar types, the catalog of targets
-- and the special registers. The parser builds a syntax tree (submod/syntax), in which a constant
-- expression is a tree of its own. The semantic stage (submod/semantic) evaluates these trees, for
-- array extents, initializers and operands; it reads integer literals by the base library. The
-- symbol table (submod/binding) collects the declarations of each lexical scope, keeps indexes of their
-- names, with which it finds overlapping declarations, and resolves a name from a scope outwards.
--
-- Which file models which part:
--   Base/Integer            submod/base/include/ptx_integer.hpp (parseIntegerMagnitude)
--   Base/Identifier         submod/base/include/ptx_identifier.hpp (isIdentifier)
--   Base/Scalar             submod/base/include/base.hpp, submod/base/src/base.cpp
--   Base/Target             submod/base/include/ptx_target.hpp, submod/base/src/ptx_target.cpp
--   Base/SpecialRegister    submod/base/include/ptx_special_register.hpp and its source file
--   Syntax                  positions and ranges, AstSyntax, AstImmediate
--   Syntax/Constant         AstConstantExpression of submod/syntax/include/ptx_syntax_ast.hpp
--   Syntax/Declaration      initializers and declarators of the same file
--   Semantic/Integer        evaluateIntegerBinary and its helpers, in
--                           submod/semantic/src/ptx_declaration_semantics.cpp
--   Semantic/Constant       the results and sinks of classifyExpression, of the same file
--   Semantic/Constant/Operators, Literal, Binary, Result, Classify
--                           the kinds of operators, the literals, classifyBinary, the other nodes, classifyExpression
--   Semantic/Constant/Values
--                           numericConstantValue, constantArrayExtent, constantIntegerValue
--   Semantic/Language       languageCode, of submod/semantic/src/ptx_declaration_semantics.cpp
--   Binding/Names           parseParameterizedIndex, parameterizedNameContains and
--                           symbolNameSetsOverlap of submod/binding/src/ptx_symbol_table.cpp
--   Binding/Symbols         the records of submod/binding/include/ptx_symbol_table.hpp
--   Binding/Index           what the two tries of a scope share: a step to a child, a kept symbol
--   Binding/Index/Numeric   NumericMemberIndex, indexMemberNumber, earliestMemberBelow
--   Binding/Index/Prefix    ParameterizedPrefixIndex, indexParameterizedBase, parameterizedContaining
--   Binding/Scopes          ScopeNameIndex, indexMemberSpelling, indexSymbol, exactSymbol and
--                           overlappingSymbol
--   Binding/Table           SymbolTable, and addSymbol of SymbolTableBuilder
--   Binding/Table/Declarations
--                           which symbols of the table the indexes of a scope are to hold
--   Binding/Lookup          SymbolTable::lookup
--   Binding/Builder         the scopes, metadata symbols and occurrences of SymbolTableBuilder
--   Binding/Builder/Queries functionScope, blockScope, exactDeclaration, hasPriorDeclaration and the
--                           other queries of SymbolTable
--   Binding/Builder/Orders  indexSourceRange on the ranges of a source, with the lemmas of Ranges and
--                           Follows beside it
--   Binding/Builder/Traverse
--                           indexConstantExpression and indexVariableInitializers
--   Binding/Builder/Prior   hasPriorDeclaration against the order of the source
--   Binding/Declarators     linkage, alignment, vector width and count of a declaration
-- The modules below these hold the theorems, Common the shared helpers, Tests runs and witnesses.
--
-- State. `classifyExpression` writes through two pointers, the list of diagnostics and the failure.
-- They are the record `Sinks`, with `none` for `nullptr`, which each step takes and returns, in the
-- order in which the program evaluates the operands. A result of category `Invalid` of
-- `evaluateIntegerBinary` is `none`.
-- The builder's table and diagnostics are the record `SymbolBinding`, which each operation takes and
-- returns; a vector is a list, an id the number that is its `value`, a map a list of pairs in which the
-- first of a key counts. `none` in place of a table is an access outside of a vector, an empty
-- `std::optional` that is dereferenced, or an exception of `at`. The steps of a builder are the data
-- type `Step`, and `Reaches` the states from its constructor on; as in the program, metadata of the debug
-- sections is added by `addMetadataSymbol` alone. The other functions are pure.
--
-- Bounds and fuel. Texts are lists of bytes. A `uint64_t` is a natural number with `% 2 ^ 64` written
-- out, an `int64_t` the integer that its bits stand for; `std::from_chars` refuses what does not fit
-- its type. The digits of a number take as many rounds as the number and one more. The lookup takes fuel:
-- the id of the scope and one more is enough, since a parent has a smaller id. All other recursion of the
-- program that is modelled is on lists, trees and the bits of a number. Ids of nodes and symbols are
-- `uint32_t`, with `% 2 ^ 32` written out; a theorem on an insertion supposes room for the ids.
--
-- Not modelled. `double`, its operations and `std::from_chars` for it are a parameter, `Binary64`, of
-- which nothing is assumed; so is `fmt::format`. Left out are the lexer (generated by flex), the concrete tree and its
-- lowering, the declaration checks, the traversal of functions and modules by the symbol table's builder
-- and its resolution of references, the hash of source ranges (it only distributes keys), the call graph, the
-- resolved IR (its instruction descriptors are generated by the build), and the generator in Python.
pub mod Common
pub mod Base
pub mod Syntax
pub mod Semantic
pub mod Binding
pub mod Tests
