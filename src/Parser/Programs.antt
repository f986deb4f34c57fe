-- ===== src/Parser/Programs.antt =====
-- `Parser::parse` (Compiler/bootstrap/parser_host.cpp), from the tokens of a source.
use noe_code.Prelude.{ℕ, zero, suc, List, [], ◌∷◌, Option, Text, length}
use noe_code.Ast.{
  TokenKind, Token, Diagnostic, Stmt, function_stmt, record_stmt, import_stmt, module_stmt,
  TopLevel, function_decl, record_decl, import_decl, module_decl, statement,
}
use noe_code.Parser.State.{Parser, Outcome, Parse, ◌>>=◌, pure, no_fuel, recovered, eof_token}
use noe_code.Parser.Expressions.{expression}
use noe_code.Parser.Statements.{declare_one}
use noe_code.Parser.Declarations.{until, kept}

-- `declaration()`, on fuel for the blocks inside each other.
unfoldable pub declaration : (Text → Option ℕ) → ℕ → ℕ → Parse Stmt
unfolding declare_one expression
declaration stod n zero = no_fuel
declaration stod n (suc k) = declare_one n (expression stod n n) (declaration stod n k)

-- The loop of `parse`.
unfoldable pub parse_statements : (Text → Option ℕ) → ℕ → Parse (List Stmt)
unfolding until kept declaration
parse_statements stod n = do
  items ← until (TokenKind.eof ∷ []) n (recovered (declaration stod n n))
  pure (kept items)

unfoldable pub start_parser : List Token → List Diagnostic → Parser
start_parser tokens items = record { tokens = tokens; previous = eof_token; diagnostics = items }

-- A statement at the top level, by what it is.
unfoldable pub top_level : Stmt → TopLevel
top_level (function_stmt f body) = function_decl (record {
  span = f.span;
  name = f.name;
  generic_params = f.generic_params;
  params = f.params;
  return_type = f.return_type;
  body = body;
  is_extern = f.is_extern;
  is_export = f.is_export;
})
top_level (record_stmt r) = record_decl r
top_level (import_stmt sp path) = import_decl sp path
top_level (module_stmt sp x) = module_decl sp x
top_level s = statement s

-- `Parser::parse`: fuel for one round more than there are tokens.
unfoldable pub parse : (Text → Option ℕ) → List Token → List Diagnostic → Outcome (List Stmt)
unfolding parse_statements start_parser
parse stod tokens items = parse_statements stod (suc (length tokens)) (start_parser tokens items)
