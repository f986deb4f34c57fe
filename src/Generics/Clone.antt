-- ===== src/Generics/Clone.antt =====
-- `cloneExpr` and `cloneStmt` (Compiler/generics.cpp), which copy the body of a generic function. A
-- declaration of a function is not copied but shared.
use noe_code.Prelude.{none, some}
use noe_code.Ast.{
  Expr, Exprs, literal, name, unary, binary, call, cast, index, member, array, no_exprs, more_exprs,
  Stmt, Stmts, OptStmt, expr_stmt, let_stmt, block_stmt, if_stmt, while_stmt, return_stmt,
  throw_stmt, no_stmts, more_stmts, no_stmt, some_stmt,
}

unfoldable mutual
  pub clone_expr : Expr → Expr
  clone_expr (literal sp v) = literal sp v
  clone_expr (name sp x) = name sp x
  clone_expr (unary sp op e w v) = unary sp op (clone_expr e) w v
  clone_expr (binary sp l op r) = binary sp (clone_expr l) op (clone_expr r)
  clone_expr (call sp f es info) = call sp (clone_expr f) (clone_exprs es) info
  clone_expr (cast sp e t) = cast sp (clone_expr e) t
  clone_expr (index sp o i info) = index sp (clone_expr o) (clone_expr i) info
  clone_expr (member sp o x info) = member sp (clone_expr o) x info
  clone_expr (array sp es w) = array sp (clone_exprs es) w

  pub clone_exprs : Exprs → Exprs
  clone_exprs no_exprs = no_exprs
  clone_exprs (more_exprs e es) = more_exprs (clone_expr e) (clone_exprs es)

unfoldable mutual
  unfolding clone_expr clone_exprs

  pub clone_stmt : Stmt → Stmt
  clone_stmt (expr_stmt sp e) = expr_stmt sp (clone_expr e)
  clone_stmt (let_stmt sp c x t e) = let_stmt sp c x t (clone_expr e)
  clone_stmt (block_stmt sp body u) = block_stmt sp (clone_stmts body) u
  clone_stmt (if_stmt sp e s o) = if_stmt sp (clone_expr e) (clone_stmt s) (clone_branch o)
  clone_stmt (while_stmt sp e s) = while_stmt sp (clone_expr e) (clone_stmt s)
  clone_stmt (return_stmt sp none) = return_stmt sp none
  clone_stmt (return_stmt sp (some e)) = return_stmt sp (some (clone_expr e))
  clone_stmt (throw_stmt sp e) = throw_stmt sp (clone_expr e)
  clone_stmt s = s

  pub clone_stmts : Stmts → Stmts
  clone_stmts no_stmts = no_stmts
  clone_stmts (more_stmts s ss) = more_stmts (clone_stmt s) (clone_stmts ss)

  pub clone_branch : OptStmt → OptStmt
  clone_branch no_stmt = no_stmt
  clone_branch (some_stmt s) = some_stmt (clone_stmt s)
