-- ===== src/Lib.antt =====
-- The compiler core of Noqeri: the lexer, the parser, the rules of types, the check of raw
-- pointers, the lowering of the syntax tree to the intermediate representation (NIR), the
-- optimizer on NIR and the reference interpreter of NIR. `Lexer::lex` cuts a source into tokens,
-- `Parser::parse` makes a tree of them, `GenericEngine::monomorphize` puts instances in the place of
-- its generic declarations, `TypeChecker::check` checks its names and types, `SafetyAnnotator::check`
-- its `unsafe` blocks and `BorrowChecker::check` its borrows; `Lowerer::lower` turns the tree into a
-- `NirProgram`, `PassManager::optimize` rewrites each function of it, and
-- `NirAnalyzer::analyze` gives it types and blocks; `compileProgram` calls these in turn, and
-- `Interpreter::run` runs the entry function, whose calls find their callees in the program or in
-- the host's services.
--
-- Which file is about which part (paths from the root of the repository):
--   Types, Types/Names, Types/Printing, Types/Ranges
--        Include/noqeri/types.hpp and the part on types of
--     Compiler/core.cpp: `Type` is `Ty`, `canAssign` `can_assign`, `typeFromName` `type_from_name`;
--     Types/Ranges says which integers a kind holds
--   Ast                                 Include/noqeri/ast.hpp, Include/noqeri/diagnostics.hpp
--   Diagnostics                         `Diagnostics::error` of Compiler/core.cpp
--   Lexer and its children              Compiler/bootstrap/lexer_host.cpp: Chars has the tables and the
--     classes of characters, State the primitives, Scan a function for each function that reads a
--     token; Lexer/Spans and its children say where the tokens lie
--   Parser and its children             Compiler/bootstrap/parser_host.cpp: State has the tokens left
--     and the primitives (`match`, `consume`, `synchronize`), Expressions, Declarations, Statements and
--     Programs a function for each function of `Parser`
--   Parser/Progress and its children    the tokens that each of them takes off
--   Nir                                 Include/noqeri/nir.hpp
--   Lower and its children              Compiler/nir.cpp: a lowering function is a step on a
--     `Builder`, the code and the register count of the function that is built; `fn.nextReg++` is
--     `fresh`, `emit` keeps its name, and `fn.code[at].target=fn.code.size()` is `patch`
--   Lower/WellFormed and its children   the invariant of the builder, for every lowering function
--   Safety and its children             Compiler/safety.cpp: a visit of
--     `Annotator` is a function of the tree and the annotator's fields; Safety/Guarded is the rule
--     it enforces, stated on the tree alone
--   TypeChecker and its children        Compiler/type_checker.cpp: State has the fields of `TypeChecker`
--     and its scopes, Literals, Resolve and Generics the functions of types, Operators, Binary and
--     Builtins what is done with an expression once its parts have been visited, Expressions
--     `checkExpr`, Statements `checkStmt`, Layout the layout of records, and Check `check`. A visit gives
--     the tree with the fields that the checker fills in, and the state. Known and Sound are about the
--     names of an expression, Steps and StatementSteps about the state around a statement,
--     LayoutBounds and RecordBounds about records, Arguments, Signatures and Program about a program
--   Lifetime and its children           Compiler/lifetime.cpp: Summary has `SummaryCollector`,
--     Functions `buildSummaries`, Inspector and Scopes `LifetimeInspector`, Check `BorrowChecker::check`;
--     Expiry and Passes are about the end of a scope and the passes over the functions, Reports
--     and Acceptance about the diagnostics, Declared and Returned about addresses that are returned
--   Flow and its children               Compiler/nir_analysis.cpp: the basic blocks, and Flow/Registers
--     the types of registers (`NirAnalyzer::analyze`)
--   Generics and its children           Compiler/generics.cpp: Hex and Mangle have the names of generic
--     types, Substitute, Bind, Instances and Clone the functions on names and trees, State the fields
--     of `Monomorphizer` and `ensureType`, Calls `processCall` and `instantiate`, Monomorphize `infer`,
--     `processStmt` and `run`; Plain, Names, Lengths, Enough, BindEnough and Squeeze are about names,
--     Unchanged, Walk and Programs about programs without generic declarations, and Ensured, Cloned,
--     Bare, Instantiated, Finished, Collected, Reported, CallSteps, WalkSteps and Results about the
--     instances
--   RegisterAlloc and its children      Compiler/register_alloc.cpp: Intervals has the live intervals and
--     their sort, Scan the loop over them; Uses, Scanned and Placed are about the registers that are
--     held and free in the scan, Sorted about the intervals in front of it, Apart about the plan;
--     Live and Reaches are about the uses in an interval
--   Interp and its children             Compiler/bootstrap/interpreter_host.cpp: Arith and Values
--     have the functions on values, Memory raw memory, State the frame of a call, Ops and Step a
--     function for each `case` of `runFunction`, Loop the loop, calls and `run`
--   Optimizer, Optimizer/Passes         Compiler/optimizer.cpp: `fold`, `constants`, `dce`,
--     `pipeline`, `optimize`
--   Optimizer/Fold, Optimizer/Constants the optimizer against the interpreter
--   Compile and its children            `compileProgram` of Compiler/core.cpp, which calls the passes
--
-- An `int64_t` is an integer of `Prelude.Int` in the range `IsI64`; a `uint64_t` is a natural number
-- below 2^64, and the places where it wraps are written out. A register is its number. A
-- `std::runtime_error` is a value of `RuntimeError`. A `std::unordered_map` is an association list;
-- where the source runs through one, in Compiler/lifetime.cpp, the order of the list is the order
-- taken.
--
-- Parameters, the code and the devices that are not in these files: floating point (`Floats`, `stod`), the
-- addresses of fresh objects, the clock and the host's services (`Machine`). No hypothesis is made on
-- them.
--
-- The loop of the interpreter is on fuel, one unit for an instruction, and gives `out_of_fuel` where
-- it does not suffice; on code that takes no jump, one unit more than there are instructions is
-- enough. `type_from` and `resolve_from` are on fuel as well, more than the length of the text, since each round
-- takes a character off. The parser is on fuel, one unit more than there are tokens, for every loop
-- and every recursion, since each round takes a token off. The loops of the lexer that can skip
-- several characters a round are on fuel, one unit more than there are characters.
--
-- `substitute_from` and `bind_from` are on fuel, one more than the length of the name. The instances
-- of generic functions and records are on fuel, since the source does not end where they ask for
-- further instances without end; where it runs out, `compile_program` gives `none`. A program without
-- generic declarations needs none.
--
-- Not modelled: of Compiler/generics.cpp the scans that rewrite the source text
-- (`preprocessGenericSyntax`), so what they read is given, as a `GenericSyntax`, and with them
-- `compileSource`; the loading of modules and workspaces, packages, the database, the linker and the
-- command line, which do what the host's files, processes and sockets do; the native and the web
-- backend, whose output has a meaning on machines that are not in the repository; the tools around the
-- compiler; and printing (`printNir`, `valueToString`). Reads outside every object are undefined in the
-- source and read the byte at that address here.
pub mod Prelude
pub mod Types
pub mod Nir
pub mod Ast
pub mod Diagnostics
pub mod Lexer
pub mod Parser
pub mod Lower
pub mod Safety
pub mod Generics
pub mod TypeChecker
pub mod Lifetime
pub mod Flow
pub mod RegisterAlloc
pub mod Interp
pub mod Optimizer
pub mod Compile
