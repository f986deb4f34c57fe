-- ===== src/TypeChecker/Statements.antt =====
-- `TypeChecker::checkStmt` (Compiler/type_checker.cpp).
use noe_code.Prelude.{
  Bool, true, false, not, ◌||◌, List, [], ◌∷◌, ◌++◌, Option, none, some, Text, codes, find_text,
}
use noe_code.Types.{Ty, kind, kind_eq, is_integer, simple_type, default_type, unknown, void, bool}
use noe_code.Types.Printing.{ty_name}
use noe_code.Ast.{
  Span, Expr, Parameter, Stmt, Stmts, no_stmts, more_stmts, OptStmt, no_stmt, some_stmt, expr_stmt,
  let_stmt, block_stmt, if_stmt, while_stmt, return_stmt, throw_stmt, function_stmt, record_stmt,
  import_stmt, module_stmt,
}
use noe_code.Parser.Statements.{expr_span}
use noe_code.Lifetime.Sets.{put_text}
use noe_code.TypeChecker.State.{
  Checker, Typed, FunctionType, report_if, push_scope, pop_scope, define,
}
use noe_code.TypeChecker.Literals.{can_assign_value}
use noe_code.TypeChecker.Resolve.{resolve_type}
use noe_code.TypeChecker.Operators.{is_kind, integer_or_unknown}
use noe_code.TypeChecker.Binary.{explicit_cast}
use noe_code.TypeChecker.Expressions.{check_expr}

-- The type of an annotation, or else the one given.
unfoldable pub annotated_type : Option Text → Span → Ty → Checker → Ty × Checker
annotated_type none sp t c = (t, c)
annotated_type (some x) sp t c = resolve_type x sp c

unfoldable pub check_let : Span → Bool → Text → Option Text → Typed → Checker
check_let sp is_const x annotation r =
    let t = annotated_type annotation sp r.type r.state in
    define x t.0 is_const sp (
      report_if (not (can_assign_value t.0 r.type (some r.expr))) (codes "NOE-T3001") sp
        (codes "cannot assign " ++ ty_name r.type ++ codes " to " ++ ty_name t.0) explicit_cast t.1)

-- The condition of an `if` or a `while`.
unfoldable pub check_condition : Text → Typed → Checker
unfolding kind kind_eq
check_condition what r =
    report_if (not (is_kind bool r.type || is_kind unknown r.type)) (codes "NOE-T3004")
      (expr_span r.expr) (what ++ codes " condition must be bool, found " ++ ty_name r.type)
      (codes "") r.state

unfoldable pub check_return : Span → Ty → Option Expr → Checker → Checker
check_return sp t e c =
    report_if (not (can_assign_value c.current_return t e)) (codes "NOE-T3005") sp
      (codes "return type mismatch: expected "
        ++ ty_name c.current_return
        ++ codes ", found "
        ++ ty_name t)
      (codes "") c

unfoldable pub check_throw : Span → Typed → Checker
unfolding is_integer kind kind_eq
check_throw sp r =
    let c₁ =
      report_if (not r.state.inside_function) (codes "NOE-T3031") sp
        (codes "throw is only valid inside a function") (codes "") r.state in
    let c₂ =
      report_if (not (integer_or_unknown r.type)) (codes "NOE-T3032") sp
        (codes "throw requires an integer error code") (codes "") c₁ in
    report_if (not (integer_or_unknown r.state.current_return)) (codes "NOE-T3033") sp
      (codes "throw requires an integer-returning function")
      (codes "use an integer status return such as isize when using lightweight try/throw") c₂

abbrev pub no_signature : FunctionType
no_signature = record { params = []; result = default_type; generic_params = [] }

-- `functions_[name]`, which enters an empty signature for a name that has none.
unfoldable pub signature_of : Text → Checker → FunctionType × Checker
unfolding find_text put_text default_type
signature_of x c = elim (find_text c.functions x) [
  | some sig ↦ (sig, c)
  | none ↦ (no_signature, record c { functions = put_text c.functions x no_signature })
]

-- `sig.params[i]` of each parameter in turn.
unfoldable pub define_params : List Parameter → List Ty → Checker → Checker
unfolding default_type
define_params [] ts c = c
define_params (p ∷ ps) (t ∷ ts) c = define_params ps ts (define p.name t false p.span c)
define_params (p ∷ ps) [] c =
    define_params ps [] (define p.name default_type false p.span (record c { out_of_range = true }))

unfoldable pub enter_function : FunctionType → List Text → List Parameter → Checker → Checker
enter_function sig generics params c = define_params params sig.params (
    push_scope
      (record c { current_return = sig.result; inside_function = true; generics = generics }))

-- The scope of the parameters is left, and what was saved comes back.
unfoldable pub leave_function : Checker → Checker → Checker
leave_function saved c = record (pop_scope c) {
  current_return = saved.current_return;
  inside_function = saved.inside_function;
  generics = saved.generics;
}

unfoldable mutual
  unfolding simple_type

  pub check_stmt : Stmt → Checker → Stmt × Checker
  check_stmt (let_stmt sp is_const x annotation e) c =
      let r = check_expr e c in
      (let_stmt sp is_const x annotation r.expr, check_let sp is_const x annotation r)
  check_stmt (expr_stmt sp e) c = let r = check_expr e c in (expr_stmt sp r.expr, r.state)
  check_stmt (block_stmt sp body u) c =
      let r = check_stmts body (push_scope c) in (block_stmt sp r.0 u, pop_scope r.1)
  check_stmt (if_stmt sp e s o) c =
      let r = check_expr e c in
      let q = check_stmt s (check_condition (codes "if") r) in
      let p = check_branch o q.1 in (if_stmt sp r.expr q.0 p.0, p.1)
  check_stmt (while_stmt sp e s) c =
      let r = check_expr e c in
      let q = check_stmt s (check_condition (codes "while") r) in (while_stmt sp r.expr q.0, q.1)
  check_stmt (return_stmt sp none) c =
      (return_stmt sp none, check_return sp (simple_type void) none c)
  check_stmt (return_stmt sp (some e)) c =
      let r = check_expr e c in
      (return_stmt sp (some r.expr), check_return sp r.type (some r.expr) r.state)
  check_stmt (throw_stmt sp e) c =
      let r = check_expr e c in (throw_stmt sp r.expr, check_throw sp r)
  check_stmt (function_stmt f body) c =
      let s = signature_of f.name c in
      elim f.is_extern [
        | true ↦ (function_stmt f body, s.1)
        | false ↦
            let r = check_stmts body (enter_function s.0 f.generic_params f.params s.1) in
            (function_stmt f r.0, leave_function s.1 r.1)
      ]
  check_stmt (record_stmt r) c = (record_stmt r, c)
  check_stmt (import_stmt sp path) c = (import_stmt sp path, c)
  check_stmt (module_stmt sp x) c = (module_stmt sp x, c)

  pub check_stmts : Stmts → Checker → Stmts × Checker
  check_stmts no_stmts c = (no_stmts, c)
  check_stmts (more_stmts s ss) c =
      let r = check_stmt s c in let q = check_stmts ss r.1 in (more_stmts r.0 q.0, q.1)

  pub check_branch : OptStmt → Checker → OptStmt × Checker
  check_branch no_stmt c = (no_stmt, c)
  check_branch (some_stmt s) c = let r = check_stmt s c in (some_stmt r.0, r.1)
