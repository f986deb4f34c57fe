-- ===== src/Lower/Statements.antt =====
-- Lowering of statements, functions and programs: `Lowerer::lowerStmt` and `Lowerer::lower`
-- (Compiler/nir.cpp).
use noe_code.Prelude.{
  ℕ, Bool, true, false, List, [], ◌∷◌, Option, none, some, codes, map, if◌then◌else◌,
}
use noe_code.Types.{default_type}
use noe_code.Nir.{NirOp, Instruction, blank, Function, Program}
use noe_code.Ast.{
  Expr, Stmt, Stmts, no_stmts, more_stmts, OptStmt, no_stmt, some_stmt, expr_stmt, let_stmt,
  block_stmt, if_stmt, while_stmt, return_stmt, throw_stmt, function_stmt, record_stmt, import_stmt,
  module_stmt, FunctionDecl, TopLevel, function_decl, statement,
}
use noe_code.Lower.Builder.{
  Builder, Lower, ◌>>=◌, ◌>>◌, pure, emit, position, patch, with_args, named,
}
use noe_code.Lower.Calls.{lower_expr}

-- `if` without `else`: the jump over the branch.
unfoldable pub lower_when : Lower ℕ → Lower (Unit {0}) → Lower (Unit {0})
lower_when condition branch = do
  c ← condition
  at ← position
  emit (with_args NirOp.jump_if_false (c ∷ []))
  branch
  patch at

unfoldable pub lower_if : Lower ℕ → Lower (Unit {0}) → Lower (Unit {0}) → Lower (Unit {0})
lower_if condition branch other = do
  c ← condition
  at ← position
  emit (with_args NirOp.jump_if_false (c ∷ []))
  branch
  end ← position
  emit (blank NirOp.jump)
  patch at
  other
  patch end

unfoldable pub lower_while : Lower ℕ → Lower (Unit {0}) → Lower (Unit {0})
lower_while condition body = do
  start ← position
  c ← condition
  at ← position
  emit (with_args NirOp.jump_if_false (c ∷ []))
  body
  emit (record (blank NirOp.jump) { target = start })
  patch at

-- `return` and `throw`, with the lowering of their value.
unfoldable pub lower_exit : NirOp → Lower ℕ → Lower (Unit {0})
lower_exit op value = do r ← value; emit (with_args op (r ∷ []))

unfoldable pub lower_return : Option Expr → Lower (Unit {0})
unfolding lower_exit
lower_return none = emit (blank NirOp.return)
lower_return (some e) = lower_exit NirOp.return (lower_expr e)

unfoldable mutual
  pub lower_stmt : Stmt → Lower (Unit {0})
  lower_stmt (let_stmt sp is_const name annotation e) = do
    r ← lower_expr e
    emit (named NirOp.store name (r ∷ []))
  lower_stmt (expr_stmt sp e) = do _ ← lower_expr e; pure tt
  lower_stmt (block_stmt sp body is_unsafe) = lower_stmts body
  lower_stmt (return_stmt sp value) = lower_return value
  lower_stmt (throw_stmt sp e) = lower_exit NirOp.throw (lower_expr e)
  lower_stmt (if_stmt sp c branch other) = lower_branches (lower_expr c) (lower_stmt branch) other
  lower_stmt (while_stmt sp c body) = lower_while (lower_expr c) (lower_stmt body)
  lower_stmt (function_stmt f body) = pure tt
  lower_stmt (record_stmt r) = pure tt
  lower_stmt (import_stmt sp path) = pure tt
  lower_stmt (module_stmt sp x) = pure tt

  pub lower_stmts : Stmts → Lower (Unit {0})
  lower_stmts no_stmts = pure tt
  lower_stmts (more_stmts s ss) = do lower_stmt s; lower_stmts ss

  pub lower_branches : Lower ℕ → Lower (Unit {0}) → OptStmt → Lower (Unit {0})
  lower_branches condition branch no_stmt = lower_when condition branch
  lower_branches condition branch (some_stmt other) = lower_if condition branch (lower_stmt other)

abbrev pub empty_builder : Builder
empty_builder = record { code = []; next_reg = 0 }

-- Whether the last instruction is a `return`.
unfoldable pub ends_in_return : List Instruction → Bool
ends_in_return [] = false
ends_in_return (i ∷ []) = elim i.op [ NirOp.return ↦ true | _ ↦ false ]
ends_in_return (i ∷ j ∷ code) = ends_in_return (j ∷ code)

unfoldable pub close : Lower (Unit {0})
unfolding ends_in_return
close b = if ends_in_return b.code then pure tt b else emit (blank NirOp.return) b

unfoldable pub lower_body : FunctionDecl → Builder
unfolding close
lower_body f = if f.is_extern then empty_builder else (close (lower_stmts f.body empty_builder).1).1

unfoldable pub lower_function : FunctionDecl → Function
unfolding lower_body
lower_function f = record {
  name = f.name;
  generic_params = f.generic_params;
  params = map (λ p. p.name) f.params;
  param_types = [];
  result_type = default_type;
  code = (lower_body f).code;
  register_types = [];
  blocks = [];
  next_reg = (lower_body f).next_reg;
  is_extern = f.is_extern;
  is_export = f.is_export;
}

-- The entry function collects the statements that stand outside of functions.
unfoldable pub lower_entry : List TopLevel → Lower (Unit {0})
lower_entry [] = emit (blank NirOp.return)
lower_entry (statement s ∷ rest) = do lower_stmt s; lower_entry rest
lower_entry (_ ∷ rest) = lower_entry rest

unfoldable pub lower_functions : List TopLevel → List Function
unfolding lower_function
lower_functions [] = []
lower_functions (function_decl f ∷ rest) = lower_function f ∷ lower_functions rest
lower_functions (_ ∷ rest) = lower_functions rest

unfoldable pub entry_of : Builder → Function
entry_of b = record {
  name = codes "__entry";
  generic_params = [];
  params = [];
  param_types = [];
  result_type = default_type;
  code = b.code;
  register_types = [];
  blocks = [];
  next_reg = b.next_reg;
  is_extern = false;
  is_export = false;
}

-- `Lowerer::lower`
unfoldable pub lower : List TopLevel → Program
unfolding lower_entry lower_functions entry_of
lower program = record {
  entry = entry_of (lower_entry program empty_builder).1;
  functions = lower_functions program;
}
