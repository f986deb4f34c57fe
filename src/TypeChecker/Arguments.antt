-- ===== src/TypeChecker/Arguments.antt =====
-- `sig.params[i]` in `checkStmt` (Compiler/type_checker.cpp) stays inside the parameters.
use noe_code.Prelude.{
  ◌≤◌, ◌≡◌, refl, ap, ◌∙◌, inl, inr, Bool, false, List, [], ◌∷◌, Option, none, some, Text, length,
  arith, Option-cases,
}
use noe_code.Types.{Ty}
use noe_code.Ast.{
  Span, Expr, Parameter, Stmt, Stmts, no_stmts, more_stmts, OptStmt, no_stmt, some_stmt, expr_stmt,
  let_stmt, block_stmt, if_stmt, while_stmt, return_stmt, throw_stmt, function_stmt, record_stmt,
  import_stmt, module_stmt,
}
use noe_code.TypeChecker.State.{Checker, Typed, define, find_innermost, push_scope, pop_scope}
use noe_code.TypeChecker.Expressions.{check_expr}
use noe_code.TypeChecker.Statements.{
  check_let, check_condition, check_return, check_throw, define_params, check_stmt, check_stmts,
  check_branch,
}
use noe_code.TypeChecker.Visits.{Visit, both, report-Visit, report_if-Visit}
use noe_code.TypeChecker.Sound.{check_expr-Visit}
use noe_code.TypeChecker.StatementSteps.{annotated_type-Visit}

-- No read past the parameters, and the signatures as they were.
pub record Fixed (a b : Checker) : Type 0 where
  pub functions : b.functions ≡ a.functions
  pub out_of_range : b.out_of_range ≡ a.out_of_range

pub same-Fixed : (a : Checker) → Fixed a a
same-Fixed a = record { functions = refl; out_of_range = refl }

pub then-Fixed : {a b c : Checker} → Fixed a b → Fixed b c → Fixed a c
then-Fixed p q = record {
  functions = q.functions ∙ p.functions;
  out_of_range = q.out_of_range ∙ p.out_of_range;
}

pub visit-Fixed : {P : Type 0} {a b : Checker} → Visit a b P → Fixed a b
visit-Fixed v = record {
  functions = ap (λ (s : Checker). s.functions) v.state;
  out_of_range = ap (λ (s : Checker). s.out_of_range) v.state;
}

define-Fixed :
    (x : Text) (t : Ty) (k : Bool) (sp : Span) (c : Checker) → Fixed c (define x t k sp c)
unfolding define
define-Fixed x t k sp c = elim (Option-cases (find_innermost c.scopes x)) [
  | inr (u, e) ↦ rw (e, define) (visit-Fixed (report-Visit {P = Unit} _ _ _ _ c))
  | inl e ↦ rw (e, define) (record { functions = refl; out_of_range = refl })
]

pub define_params-Fixed :
    (ps : List Parameter) (ts : List Ty) (c : Checker)
    → length ps ≤ length ts
    → Fixed c (define_params ps ts c)
unfolding define_params
define_params-Fixed [] ts c h = same-Fixed c
define_params-Fixed (p ∷ ps) (t ∷ ts) c h =
    then-Fixed (define-Fixed p.name t false p.span c)
      (define_params-Fixed ps ts _ (omega (arith, h)))
define_params-Fixed (p ∷ ps) [] c h = absurd (omega (arith, h))

abbrev mutual
  -- No function is declared inside a block.
  pub IsFlat : Stmt → Type 0
  IsFlat (block_stmt sp body u) = AreFlat body
  IsFlat (if_stmt sp e s o) = IsFlat s × IsFlatBranch o
  IsFlat (while_stmt sp e s) = IsFlat s
  IsFlat (function_stmt f body) = ⊥
  IsFlat _ = Unit

  pub AreFlat : Stmts → Type 0
  AreFlat no_stmts = Unit
  AreFlat (more_stmts s ss) = IsFlat s × AreFlat ss

  pub IsFlatBranch : OptStmt → Type 0
  IsFlatBranch no_stmt = Unit
  IsFlatBranch (some_stmt s) = IsFlat s

expr-Fixed : (e : Expr) (c : Checker) → Fixed c (check_expr e c).state
expr-Fixed e c = visit-Fixed (check_expr-Visit e c)

check_let-Fixed :
    (sp : Span) (k : Bool) (x : Text) (o : Option Text) (r : Typed)
    → Fixed r.state (check_let sp k x o r)
unfolding check_let
check_let-Fixed sp k x o r =
    then-Fixed
      (visit-Fixed (both (annotated_type-Visit o sp r.type r.state) (report_if-Visit _ _ _ _ _ _)))
      (define-Fixed x _ k sp _)

mutual
  unfolding check_stmt check_condition check_return check_throw push_scope pop_scope

  pub check_stmt-Fixed : (s : Stmt) (c : Checker) → IsFlat s → Fixed c (check_stmt s c).1
  check_stmt-Fixed (let_stmt sp k x o e) c h =
      then-Fixed (expr-Fixed e c) (check_let-Fixed sp k x o (check_expr e c))
  check_stmt-Fixed (expr_stmt sp e) c h = expr-Fixed e c
  check_stmt-Fixed (block_stmt sp body u) c h =
      let f = check_stmts-Fixed body (push_scope c) h in
      record { functions = f.functions; out_of_range = f.out_of_range }
  check_stmt-Fixed (if_stmt sp e s o) c (h, k) =
      then-Fixed (then-Fixed (expr-Fixed e c) (visit-Fixed (report_if-Visit _ _ _ _ _ _)))
        (then-Fixed (check_stmt-Fixed s _ h) (check_branch-Fixed o _ k))
  check_stmt-Fixed (while_stmt sp e s) c h =
      then-Fixed (then-Fixed (expr-Fixed e c) (visit-Fixed (report_if-Visit _ _ _ _ _ _)))
        (check_stmt-Fixed s _ h)
  check_stmt-Fixed (return_stmt sp none) c h = visit-Fixed (report_if-Visit _ _ _ _ _ c)
  check_stmt-Fixed (return_stmt sp (some e)) c h =
      then-Fixed (expr-Fixed e c) (visit-Fixed (report_if-Visit _ _ _ _ _ _))
  check_stmt-Fixed (throw_stmt sp e) c h = then-Fixed (expr-Fixed e c) (
      visit-Fixed (
        both (report_if-Visit _ _ _ _ _ _)
          (both (report_if-Visit _ _ _ _ _ _) (report_if-Visit _ _ _ _ _ _))))
  check_stmt-Fixed (function_stmt f body) c h = absurd h
  check_stmt-Fixed (record_stmt r) c h = same-Fixed c
  check_stmt-Fixed (import_stmt sp path) c h = same-Fixed c
  check_stmt-Fixed (module_stmt sp x) c h = same-Fixed c

  pub check_stmts-Fixed : (ss : Stmts) (c : Checker) → AreFlat ss → Fixed c (check_stmts ss c).1
  check_stmts-Fixed no_stmts c h = same-Fixed c
  check_stmts-Fixed (more_stmts s ss) c (h, k) =
      then-Fixed (check_stmt-Fixed s c h) (check_stmts-Fixed ss _ k)

  check_branch-Fixed : (o : OptStmt) (c : Checker) → IsFlatBranch o → Fixed c (check_branch o c).1
  check_branch-Fixed no_stmt c h = same-Fixed c
  check_branch-Fixed (some_stmt s) c h = check_stmt-Fixed s c h
