-- ===== src/Generics/Cloned.antt =====
-- What `cloneStmt` (Compiler/generics.cpp) gives.
use noe_code.Prelude.{◌≡◌, refl, ap, none, some}
use noe_code.Ast.{
  Expr, Exprs, literal, name, unary, binary, call, cast, index, member, array, no_exprs, more_exprs,
  Stmt, Stmts, OptStmt, expr_stmt, let_stmt, block_stmt, if_stmt, while_stmt, return_stmt,
  throw_stmt, function_stmt, record_stmt, import_stmt, module_stmt, no_stmts, more_stmts, no_stmt,
  some_stmt,
}
use noe_code.Generics.Clone.{clone_expr, clone_exprs, clone_stmt, clone_stmts, clone_branch}

-- A copy is the tree itself.
mutual
  unfolding clone_expr clone_exprs

  clone_expr_same : (e : Expr) → clone_expr e ≡ e
  clone_expr_same (literal sp v) = refl
  clone_expr_same (name sp x) = refl
  clone_expr_same (unary sp op e w v) = ap (λ x. unary sp op x w v) (clone_expr_same e)
  clone_expr_same (binary sp l op r) = cc (clone_expr_same l, clone_expr_same r)
  clone_expr_same (call sp f es info) = cc (clone_expr_same f, clone_exprs_same es)
  clone_expr_same (cast sp e t) = ap (λ x. cast sp x t) (clone_expr_same e)
  clone_expr_same (index sp o i info) = cc (clone_expr_same o, clone_expr_same i)
  clone_expr_same (member sp o x info) = ap (λ y. member sp y x info) (clone_expr_same o)
  clone_expr_same (array sp es w) = ap (λ x. array sp x w) (clone_exprs_same es)

  clone_exprs_same : (es : Exprs) → clone_exprs es ≡ es
  clone_exprs_same no_exprs = refl
  clone_exprs_same (more_exprs e es) = cc (clone_expr_same e, clone_exprs_same es)

mutual
  unfolding clone_stmt clone_stmts clone_branch

  clone_stmt_same : (s : Stmt) → clone_stmt s ≡ s
  clone_stmt_same (expr_stmt sp e) = ap (λ x. expr_stmt sp x) (clone_expr_same e)
  clone_stmt_same (let_stmt sp c x t e) = ap (λ y. let_stmt sp c x t y) (clone_expr_same e)
  clone_stmt_same (block_stmt sp body u) = ap (λ x. block_stmt sp x u) (stmts_same body)
  clone_stmt_same (if_stmt sp e s o) =
      cc (clone_expr_same e, clone_stmt_same s, clone_branch_same o)
  clone_stmt_same (while_stmt sp e s) = cc (clone_expr_same e, clone_stmt_same s)
  clone_stmt_same (return_stmt sp none) = refl
  clone_stmt_same (return_stmt sp (some e)) = ap (λ x. return_stmt sp (some x)) (clone_expr_same e)
  clone_stmt_same (throw_stmt sp e) = ap (λ x. throw_stmt sp x) (clone_expr_same e)
  clone_stmt_same (function_stmt g body) = refl
  clone_stmt_same (record_stmt r) = refl
  clone_stmt_same (import_stmt sp x) = refl
  clone_stmt_same (module_stmt sp x) = refl

  stmts_same : (ss : Stmts) → clone_stmts ss ≡ ss
  stmts_same no_stmts = refl
  stmts_same (more_stmts s ss) = cc (clone_stmt_same s, stmts_same ss)

  clone_branch_same : (o : OptStmt) → clone_branch o ≡ o
  clone_branch_same no_stmt = refl
  clone_branch_same (some_stmt s) = ap (λ x. some_stmt x) (clone_stmt_same s)

pub clone_stmts_same : (ss : Stmts) → clone_stmts ss ≡ ss
clone_stmts_same ss = stmts_same ss
