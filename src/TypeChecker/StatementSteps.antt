-- ===== src/TypeChecker/StatementSteps.antt =====
-- What `checkStmt` (Compiler/type_checker.cpp) leaves of the state in front of it.
use noe_code.Prelude.{
  ◌≡◌, refl, sym, ap, subst, ◌∙◌, inl, inr, Bool, true, false, List, [], ◌∷◌, Option, none, some,
  Text, codes, text_eq, text_eq→eq, find_text, length, Bool-cases, Option-cases,
  find_text-erase_text_ne,
}
use mathlib.Core.List.{append-nil}
use noe_code.Types.{Ty}
use noe_code.Ast.{
  Span, Expr, Parameter, Stmt, Stmts, no_stmts, more_stmts, OptStmt, no_stmt, some_stmt, expr_stmt,
  let_stmt, block_stmt, if_stmt, while_stmt, return_stmt, throw_stmt, function_stmt, record_stmt,
  import_stmt, module_stmt,
}
use noe_code.Lifetime.Sets.{put_text}
use noe_code.TypeChecker.State.{
  Checker, Typed, FunctionType, push_scope, pop_scope, find_innermost, tail_of,
}
use noe_code.TypeChecker.Expressions.{check_expr}
use noe_code.TypeChecker.Statements.{
  annotated_type, check_let, check_condition, check_return, check_throw, no_signature, signature_of,
  define_params, enter_function, leave_function, check_stmt, check_stmts, check_branch,
}
use noe_code.TypeChecker.Visits.{Visit, stay, both, report_if-Visit}
use noe_code.TypeChecker.Parts.{resolve_type-Visit}
use noe_code.TypeChecker.Sound.{check_expr-Visit}
use noe_code.TypeChecker.Steps.{
  Step, then-Step, visit-Step, no-Step, none-some, define-Step, pop_scope-Step,
}

expr-Step : (e : Expr) (c : Checker) → Step c (check_expr e c).state
expr-Step e c = visit-Step (check_expr-Visit e c)

pub annotated_type-Visit :
    (o : Option Text) (sp : Span) (t : Ty) (c : Checker) → Visit c (annotated_type o sp t c).1 Unit
unfolding annotated_type
annotated_type-Visit none sp t c = stay c tt
annotated_type-Visit (some x) sp t c = resolve_type-Visit x sp c

check_let-Step :
    (sp : Span) (is_const : Bool) (x : Text) (o : Option Text) (r : Typed)
    → Step r.state (check_let sp is_const x o r)
unfolding check_let
check_let-Step sp is_const x o r =
    then-Step
      (visit-Step (both (annotated_type-Visit o sp r.type r.state) (report_if-Visit _ _ _ _ _ _)))
      (define-Step x _ is_const sp _)

check_condition-Step : (what : Text) (r : Typed) → Step r.state (check_condition what r)
unfolding check_condition
check_condition-Step what r = visit-Step (report_if-Visit _ _ _ _ _ _)

check_return-Step :
    (sp : Span) (t : Ty) (e : Option Expr) (c : Checker) → Step c (check_return sp t e c)
unfolding check_return
check_return-Step sp t e c = visit-Step (report_if-Visit _ _ _ _ _ _)

check_throw-Step : (sp : Span) (r : Typed) → Step r.state (check_throw sp r)
unfolding check_throw
check_throw-Step sp r = visit-Step (
    both (report_if-Visit _ _ _ _ _ _)
      (both (report_if-Visit _ _ _ _ _ _) (report_if-Visit _ _ _ _ _ _)))

-- A function that is entered for the first time changes no other.
find_text-put_text_new :
    (m : List (Text × FunctionType)) (x y : Text) (v : FunctionType) {sig : FunctionType}
    → find_text m x ≡ none
    → find_text m y ≡ some sig
    → find_text (put_text m x v) y ≡ some sig
unfolding put_text find_text
find_text-put_text_new m x y v e h = elim (Bool-cases (text_eq x y)) [
  | inl f ↦ absurd (none-some (sym e ∙ (ap (find_text m) (text_eq→eq x y f) ∙ h)))
  | inr f ↦ rw (f, find_text) (find_text-erase_text_ne m x y f ∙ h)
]

pub signature_of-Step : (x : Text) (c : Checker) → Step c (signature_of x c).1
unfolding signature_of
signature_of-Step x c = elim (Option-cases (find_text c.functions x)) [
  | inr (sig, e) ↦ rw (e, signature_of) (no-Step c)
  | inl e ↦
      rw (e, signature_of)
        (record {
          depth = refl;
          outer = refl;
          outer_consts = refl;
          inner = λ y t h. h;
          signatures = λ y g h. find_text-put_text_new c.functions x y no_signature e h;
          records = refl;
          generics = refl;
          current_return = refl;
          inside_function = refl;
          reports = [];
          appended = sym (append-nil c.diagnostics);
        })
]

range-Step : (c : Checker) → Step c (record c { out_of_range = true })
range-Step c = record {
  depth = refl;
  outer = refl;
  outer_consts = refl;
  inner = λ y t h. h;
  signatures = λ y g h. h;
  records = refl;
  generics = refl;
  current_return = refl;
  inside_function = refl;
  reports = [];
  appended = sym (append-nil c.diagnostics);
}

define_params-Step :
    (ps : List Parameter) (ts : List Ty) (c : Checker) → Step c (define_params ps ts c)
unfolding define_params
define_params-Step [] ts c = no-Step c
define_params-Step (p ∷ ps) (t ∷ ts) c =
    then-Step (define-Step p.name t false p.span c) (define_params-Step ps ts _)
define_params-Step (p ∷ ps) [] c =
    then-Step (then-Step (range-Step c) (define-Step p.name _ false p.span _))
      (define_params-Step ps [] _)

-- Whatever was done inside, the function is left with what was saved.
pub leave_function-Step :
    (a b : Checker) (sig : FunctionType) (gs : List Text) (ps : List Parameter)
    → Step (enter_function sig gs ps a) b
    → Step a (leave_function a b)
unfolding enter_function leave_function push_scope pop_scope
leave_function-Step a b sig gs ps s =
    let t = then-Step (define_params-Step ps sig.params _) s in
    record {
      depth = ap length t.outer;
      outer = ap tail_of t.outer;
      outer_consts = ap tail_of t.outer_consts;
      inner = λ x u h. subst (λ l. find_innermost l x ≡ some u) (sym t.outer) h;
      signatures = t.signatures;
      records = t.records;
      generics = refl;
      current_return = refl;
      inside_function = refl;
      reports = t.reports;
      appended = t.appended;
    }

mutual
  unfolding check_stmt

  stmt-Step : (s : Stmt) (c : Checker) → Step c (check_stmt s c).1
  stmt-Step (let_stmt sp k x o e) c =
      then-Step (expr-Step e c) (check_let-Step sp k x o (check_expr e c))
  stmt-Step (expr_stmt sp e) c = expr-Step e c
  stmt-Step (block_stmt sp body u) c = pop_scope-Step c _ (stmts-Step body _)
  stmt-Step (if_stmt sp e s o) c =
      then-Step (then-Step (expr-Step e c) (check_condition-Step (codes "if") (check_expr e c)))
        (then-Step (stmt-Step s _) (branch-Step o _))
  stmt-Step (while_stmt sp e s) c =
      then-Step (then-Step (expr-Step e c) (check_condition-Step (codes "while") (check_expr e c)))
        (stmt-Step s _)
  stmt-Step (return_stmt sp none) c = check_return-Step sp _ none c
  stmt-Step (return_stmt sp (some e)) c =
      then-Step (expr-Step e c) (check_return-Step sp _ (some _) _)
  stmt-Step (throw_stmt sp e) c = then-Step (expr-Step e c) (check_throw-Step sp (check_expr e c))
  stmt-Step (function_stmt f body) c = elim (Bool-cases f.is_extern) [
    | inl e ↦ rw (e, check_stmt) (signature_of-Step f.name c)
    | inr e ↦
        rw (e, check_stmt)
          (then-Step (signature_of-Step f.name c)
            (leave_function-Step _ _ _ f.generic_params f.params (stmts-Step body _)))
  ]
  stmt-Step (record_stmt r) c = no-Step c
  stmt-Step (import_stmt sp path) c = no-Step c
  stmt-Step (module_stmt sp x) c = no-Step c

  pub stmts-Step : (ss : Stmts) (c : Checker) → Step c (check_stmts ss c).1
  stmts-Step no_stmts c = no-Step c
  stmts-Step (more_stmts s ss) c = then-Step (stmt-Step s c) (stmts-Step ss _)

  branch-Step : (o : OptStmt) (c : Checker) → Step c (check_branch o c).1
  branch-Step no_stmt c = no-Step c
  branch-Step (some_stmt s) c = stmt-Step s c

-- A statement leaves the scopes as many as they were. The scopes around the innermost one are the
-- same, every name of the innermost one keeps its type, and every signature stays; the records, the
-- generic parameters and the function that is being checked are those before, and no diagnostic is
-- lost.
pub check_stmt-Step : (s : Stmt) (c : Checker) → Step c (check_stmt s c).1
check_stmt-Step s c = stmt-Step s c
