-- ===== src/Safety/Guarded.antt =====
-- Where raw-pointer operations stand in a tree, without the check's own state.
use noe_code.Prelude.{◌≡◌, true, false, none, some, if◌then◌else◌}
use noe_code.Ast.{
  Expr, Exprs, no_exprs, more_exprs, literal, name, unary, binary, call, cast, index, member, array,
  Stmt, Stmts, no_stmts, more_stmts, OptStmt, no_stmt, some_stmt, expr_stmt, let_stmt, block_stmt,
  if_stmt, while_stmt, return_stmt, throw_stmt, function_stmt, record_stmt, import_stmt,
  module_stmt, TopLevel, function_decl,
}
use noe_code.Safety.Annotator.{is_star, pointer_type}

-- No raw-pointer operation: no `*e`, no cast to a pointer, no member of a pointer.
abbrev mutual
  pub NoRaw : Expr → Type 0
  NoRaw (literal sp v) = Unit
  NoRaw (name sp x) = Unit
  NoRaw (unary sp op e w v) = NoRaw e × (is_star op ≡ false)
  NoRaw (binary sp l op r) = NoRaw l × NoRaw r
  NoRaw (call sp callee args info) = NoRaw callee × AllNoRaw args
  NoRaw (cast sp e t) = NoRaw e × (pointer_type t ≡ false)
  NoRaw (index sp o i info) = NoRaw o × NoRaw i
  NoRaw (member sp o m info) = NoRaw o × (info.base_is_pointer ≡ false)
  NoRaw (array sp es size) = AllNoRaw es

  pub AllNoRaw : Exprs → Type 0
  AllNoRaw no_exprs = Unit
  AllNoRaw (more_exprs e es) = NoRaw e × AllNoRaw es

-- Raw-pointer operations stand in unsafe blocks only. A function declared among the statements is passed
-- over, as the check does.
abbrev mutual
  pub IsGuarded : Stmt → Type 0
  IsGuarded (expr_stmt sp e) = NoRaw e
  IsGuarded (let_stmt sp c x t e) = NoRaw e
  IsGuarded (block_stmt sp body true) = Unit
  IsGuarded (block_stmt sp body false) = AreGuarded body
  IsGuarded (if_stmt sp c t o) = NoRaw c × IsGuarded t × IsGuardedBranch o
  IsGuarded (while_stmt sp c body) = NoRaw c × IsGuarded body
  IsGuarded (return_stmt sp none) = Unit
  IsGuarded (return_stmt sp (some e)) = NoRaw e
  IsGuarded (throw_stmt sp e) = NoRaw e
  IsGuarded (function_stmt f body) = Unit
  IsGuarded (record_stmt r) = Unit
  IsGuarded (import_stmt sp path) = Unit
  IsGuarded (module_stmt sp x) = Unit

  pub AreGuarded : Stmts → Type 0
  AreGuarded no_stmts = Unit
  AreGuarded (more_stmts s ss) = IsGuarded s × AreGuarded ss

  pub IsGuardedBranch : OptStmt → Type 0
  IsGuardedBranch no_stmt = Unit
  IsGuardedBranch (some_stmt s) = IsGuarded s

abbrev pub IsGuardedTop : TopLevel → Type 0
IsGuardedTop (function_decl f) = if f.is_extern then Unit else AreGuarded f.body
IsGuardedTop _ = Unit
