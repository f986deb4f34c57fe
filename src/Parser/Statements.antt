-- ===== src/Parser/Statements.antt =====
-- Statements and declarations (Compiler/bootstrap/parser_host.cpp). `expr` is `expression()`, `stmt` is
-- `statement()` and `decl` is `declaration()` where they stand inside another statement.
use noe_code.Prelude.{
  ℕ, zero, suc, ◌||◌, Bool, true, false, [], ◌∷◌, ◌++◌, none, some, Text, codes, to_string,
  if◌then◌else◌,
}
use noe_code.Prelude.Int.{pos}
use noe_code.Nir.{int}
use noe_code.Ast.{
  TokenKind, Span, Expr, literal, name, binary, cast, Stmt, Stmts, no_stmts, more_stmts, no_stmt,
  some_stmt, expr_stmt, let_stmt, block_stmt, if_stmt, while_stmt, return_stmt, throw_stmt,
}
use noe_code.Parser.State.{
  Parse, ◌>>=◌, pure, no_fuel, previous_token, on_match, match, on_check, report, parse_error,
  consume,
}
use noe_code.Parser.Declarations.{
  annotation, module_declaration, import_declaration, record_declaration, block, block_statement,
  function_declaration,
}

abbrev pub repeat_suffix : Span → Text
repeat_suffix sp = to_string sp.source ++ (codes "_" ++ to_string sp.start)

abbrev pub limit_name : Span → Text
limit_name sp = codes "__nq_repeat_limit_" ++ repeat_suffix sp

abbrev pub index_name : Span → Text
index_name sp = codes "__nq_repeat_index_" ++ repeat_suffix sp

-- `loopBody->statements.push_back(increment)`
unfoldable pub push_back : Stmts → Stmt → Stmts
push_back no_stmts last = more_stmts last no_stmts
push_back (more_stmts s ss) last = more_stmts s (push_back ss last)

-- What `repeat count { body }` stands for: a loop over a counter that no program can name.
unfoldable pub repeat_loop : Span → Expr → Span → Stmts → Stmt
unfolding push_back
repeat_loop sp count body_span body =
    let limit =
      let_stmt sp false (limit_name sp) (some (codes "int")) (cast sp count (codes "int")) in
    let counter =
      let_stmt sp false (index_name sp) (some (codes "int")) (literal sp (int (pos 0))) in
    let condition = binary sp (name sp (index_name sp)) TokenKind.less (name sp (limit_name sp)) in
    let increment = expr_stmt sp (
      binary sp (name sp (index_name sp)) TokenKind.equal
        (binary sp (name sp (index_name sp)) TokenKind.plus (literal sp (int (pos 1))))) in
    let loop = while_stmt sp condition (block_stmt body_span (push_back body increment) false) in
    block_stmt sp (more_stmts limit (more_stmts counter (more_stmts loop no_stmts))) false

abbrev pub expr_span : Expr → Span
expr_span (literal sp v) = sp
expr_span (name sp x) = sp
expr_span (Expr.unary sp op e w v) = sp
expr_span (binary sp l op r) = sp
expr_span (Expr.call sp c es info) = sp
expr_span (cast sp e t) = sp
expr_span (Expr.index sp o i info) = sp
expr_span (Expr.member sp o m info) = sp
expr_span (Expr.array sp es size) = sp

module _ (n : ℕ) (expr : Parse Expr) (decl : Parse Stmt) where
  unfoldable pub let_declaration : Bool → Parse Stmt
  unfolding annotation
  let_declaration is_const = do
    x ← consume TokenKind.identifier (codes "expected variable name")
    type ← annotation n
    _ ← consume TokenKind.equal (codes "expected '=' after variable name")
    e ← expr
    _ ← match (TokenKind.semicolon ∷ [])
    pure (let_stmt x.span is_const x.lexeme type e)

  -- The condition of `if` and `while`, whose brackets may be left out.
  unfoldable pub condition : Text → Parse Expr
  condition message =
      on_match (TokenKind.l_paren ∷ []) (do e ← expr; _ ← consume TokenKind.r_paren message; pure e)
        expr

  unfoldable pub if_statement : Parse Stmt → Parse Stmt
  unfolding condition
  if_statement stmt = do
    t ← previous_token
    c ← condition (codes "expected ')' after if condition")
    branch ← stmt
    on_match (TokenKind.else_kw ∷ [])
        (do other ← stmt; pure (if_stmt t.span c branch (some_stmt other)))
        (pure (if_stmt t.span c branch no_stmt))

  unfoldable pub while_statement : Parse Stmt → Parse Stmt
  unfolding condition
  while_statement stmt = do
    t ← previous_token
    c ← condition (codes "expected ')' after while condition")
    body ← stmt
    pure (while_stmt t.span c body)

  unfoldable pub repeat_statement : Parse Stmt
  unfolding block repeat_loop
  repeat_statement = do
    t ← previous_token
    count ← expr
    _ ← consume TokenKind.l_brace (codes "expected '{' after repeat count")
    b ← block n decl
    pure (repeat_loop t.span count b.0 b.1)

  unfoldable pub return_statement : Parse Stmt
  return_statement = do
    t ← previous_token
    value ←
        on_check (TokenKind.semicolon ∷ TokenKind.r_brace ∷ TokenKind.eof ∷ []) (pure none)
          (do e ← expr; pure (some e))
    _ ← match (TokenKind.semicolon ∷ [])
    pure (return_stmt t.span value)

  unfoldable pub throw_statement : Parse Stmt
  throw_statement = do
    t ← previous_token
    e ← expr
    _ ← match (TokenKind.semicolon ∷ [])
    pure (throw_stmt t.span e)

  unfoldable pub unsafe_statement : Parse Stmt
  unfolding block
  unsafe_statement = do
    t ← previous_token
    _ ← consume TokenKind.l_brace (codes "expected '{' after unsafe")
    b ← block n decl
    pure (block_stmt t.span b.1 true)

  unfoldable pub expression_statement : Parse Stmt
  expression_statement = do
    e ← expr
    _ ← match (TokenKind.semicolon ∷ [])
    pure (expr_stmt (expr_span e) e)

  -- `statement`, on fuel for the branches inside each other.
  unfoldable pub statement : ℕ → Parse Stmt
  unfolding if_statement while_statement repeat_statement return_statement throw_statement
      unsafe_statement block_statement expression_statement
  statement zero = no_fuel
  statement (suc k) = on_match (TokenKind.if_kw ∷ []) (if_statement (statement k)) (
      on_match (TokenKind.while_kw ∷ []) (while_statement (statement k)) (
        on_match (TokenKind.repeat ∷ []) repeat_statement (
          on_match (TokenKind.return ∷ []) return_statement (
            on_match (TokenKind.throw ∷ []) throw_statement (
              on_match (TokenKind.unsafe ∷ []) unsafe_statement (
                on_match (TokenKind.l_brace ∷ []) (block_statement n decl)
                  expression_statement))))))

  -- `if(is_extern && match(...))`: the marks in front of a declaration.
  unfoldable pub match_if : Bool → TokenKind → Parse Bool
  match_if test kind = if test then match (kind ∷ []) else pure false

  unfoldable pub misplaced_marks : Parse Stmt
  unfolding report
  misplaced_marks s = parse_error (
      report (codes "NOE-P2010") (codes "export/extern currently apply to function declarations")
        s.previous.span s)

  unfoldable pub unmarked : Parse Stmt
  unfolding module_declaration import_declaration record_declaration let_declaration statement
  unmarked = on_match (TokenKind.module_kw ∷ []) (module_declaration n) (
      on_match (TokenKind.import ∷ []) import_declaration (
        on_match (TokenKind.record_kw ∷ []) (record_declaration n) (
          on_match (TokenKind.let_kw ∷ []) (let_declaration false)
            (on_match (TokenKind.const_kw ∷ []) (let_declaration true) (statement n)))))

  -- `declaration`
  unfoldable pub declare_one : Parse Stmt
  unfolding match_if function_declaration misplaced_marks unmarked
  declare_one = do
    export_first ← match (TokenKind.export ∷ [])
    extern_first ← match (TokenKind.extern ∷ [])
    extern_second ← match_if export_first TokenKind.extern
    export_second ← match_if (extern_first || extern_second) TokenKind.export
    on_match (TokenKind.function ∷ [])
        (function_declaration n decl (extern_first || extern_second)
          (export_first || export_second))
        (if (extern_first || extern_second) || (export_first || export_second)
          then misplaced_marks
          else unmarked)
