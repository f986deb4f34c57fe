-- ===== src/Generics/Bare.antt =====
-- What the walk over statements (Compiler/generics.cpp) leaves of a tree: all but the names of callees.
use noe_code.Prelude.{
  ℕ, zero, suc, ◌≡◌, refl, ap, List, [], none, some, Text, find_text, Option-cases, Bool-cases, inl,
  inr, if_both,
}
use noe_code.Ast.{
  Span, Expr, Exprs, literal, name, unary, binary, call, cast, index, member, array, no_exprs,
  more_exprs, Stmt, Stmts, OptStmt, expr_stmt, let_stmt, block_stmt, if_stmt, while_stmt,
  return_stmt, throw_stmt, function_stmt, record_stmt, import_stmt, module_stmt, no_stmts,
  more_stmts, no_stmt, some_stmt, FunctionDecl,
}
use noe_code.Lifetime.Check.{no_errors}
use noe_code.Generics.State.{Monomorphizer, is_generic, ensure_type}
use noe_code.Generics.Calls.{
  Env, Called, rename_callee, plain_callee, bind_parameters, check_bound, check_constraints,
  constraints_of, call_instance, call_generic, process_call,
}
use noe_code.Generics.Monomorphize.{
  infer, infer_args, process_stmt, process_stmts, process_branch, process_body,
}

-- A callee without its name.
abbrev pub bare_callee : Expr → Expr
bare_callee (name sp x) = name sp []
bare_callee e = e

-- A tree without the names of callees.
abbrev mutual
  pub bare_expr : Expr → Expr
  bare_expr (literal sp v) = literal sp v
  bare_expr (name sp x) = name sp x
  bare_expr (unary sp op e w v) = unary sp op (bare_expr e) w v
  bare_expr (binary sp l op r) = binary sp (bare_expr l) op (bare_expr r)
  bare_expr (call sp f es info) = call sp (bare_callee f) (bare_exprs es) info
  bare_expr (cast sp e t) = cast sp (bare_expr e) t
  bare_expr (index sp o i info) = index sp (bare_expr o) (bare_expr i) info
  bare_expr (member sp o x info) = member sp (bare_expr o) x info
  bare_expr (array sp es w) = array sp (bare_exprs es) w

  pub bare_exprs : Exprs → Exprs
  bare_exprs no_exprs = no_exprs
  bare_exprs (more_exprs e es) = more_exprs (bare_expr e) (bare_exprs es)

abbrev mutual
  pub bare_stmt : Stmt → Stmt
  bare_stmt (expr_stmt sp e) = expr_stmt sp (bare_expr e)
  bare_stmt (let_stmt sp c x t e) = let_stmt sp c x t (bare_expr e)
  bare_stmt (block_stmt sp body u) = block_stmt sp (bare_stmts body) u
  bare_stmt (if_stmt sp e s o) = if_stmt sp (bare_expr e) (bare_stmt s) (bare_branch o)
  bare_stmt (while_stmt sp e s) = while_stmt sp (bare_expr e) (bare_stmt s)
  bare_stmt (return_stmt sp none) = return_stmt sp none
  bare_stmt (return_stmt sp (some e)) = return_stmt sp (some (bare_expr e))
  bare_stmt (throw_stmt sp e) = throw_stmt sp (bare_expr e)
  bare_stmt s = s

  pub bare_stmts : Stmts → Stmts
  bare_stmts no_stmts = no_stmts
  bare_stmts (more_stmts s ss) = more_stmts (bare_stmt s) (bare_stmts ss)

  pub bare_branch : OptStmt → OptStmt
  bare_branch no_stmt = no_stmt
  bare_branch (some_stmt s) = some_stmt (bare_stmt s)

-- A finished call has the callee that it had, but for the name.
abbrev Renames : (Span → Expr → List Text → Monomorphizer → Called) → Type 0
Renames finish =
    (sp : Span) (e : Expr) (ts : List Text) (m : Monomorphizer)
    → bare_callee (finish sp e ts m).callee ≡ bare_callee e

module _ (ensure : Text → Monomorphizer → Monomorphizer)
    (finish : Span → Expr → List Text → Monomorphizer → Called) (renames : Renames finish) where
  mutual
    unfolding infer infer_args

    infer-bare :
        (e : Expr) (env : Env) (m : Monomorphizer)
        → bare_expr (infer ensure finish env e m).expr ≡ bare_expr e
    infer-bare (literal sp v) env m = refl
    infer-bare (name sp x) env m = refl
    infer-bare (cast sp e t) env m = refl
    infer-bare (unary sp op e w q) env m = ap (λ x. unary sp op x w q) (infer-bare e env m)
    infer-bare (binary sp l op e) env m =
        cc (infer-bare l env m, infer-bare e env (infer ensure finish env l m).state)
    infer-bare (array sp no_exprs w) env m = refl
    infer-bare (array sp (more_exprs e es) w) env m =
        ap (λ x. array sp (more_exprs x (bare_exprs es)) w) (infer-bare e env m)
    infer-bare (index sp o i info) env m =
        ap (λ x. index sp x (bare_expr i) info) (infer-bare o env m)
    infer-bare (member sp o x info) env m = ap (λ y. member sp y x info) (infer-bare o env m)
    infer-bare (call sp f es info) env m =
        let r = infer_args ensure finish env es m in
        cc (infer_args-bare es env m, renames sp f r.types r.state)

    infer_args-bare :
        (es : Exprs) (env : Env) (m : Monomorphizer)
        → bare_exprs (infer_args ensure finish env es m).args ≡ bare_exprs es
    infer_args-bare no_exprs env m = refl
    infer_args-bare (more_exprs e es) env m =
        cc (infer-bare e env m, infer_args-bare es env (infer ensure finish env e m).state)

  mutual
    unfolding process_stmt process_stmts process_branch

    stmt-bare :
        (s : Stmt) (env : Env) (m : Monomorphizer)
        → bare_stmt (process_stmt ensure finish s env m).0 ≡ bare_stmt s
    stmt-bare (expr_stmt sp e) env m = ap (λ x. expr_stmt sp x) (infer-bare e env m)
    stmt-bare (let_stmt sp c x t e) env m = ap (λ y. let_stmt sp c x t y) (infer-bare e env m)
    stmt-bare (return_stmt sp none) env m = refl
    stmt-bare (return_stmt sp (some e)) env m =
        ap (λ x. return_stmt sp (some x)) (infer-bare e env m)
    stmt-bare (throw_stmt sp e) env m = ap (λ x. throw_stmt sp x) (infer-bare e env m)
    stmt-bare (block_stmt sp body u) env m = ap (λ x. block_stmt sp x u) (stmts-bare body env m)
    stmt-bare (if_stmt sp e s o) env m =
        let c = infer ensure finish env e m in
        let a = process_stmt ensure finish s env c.state in
        cc (infer-bare e env m, stmt-bare s env c.state, branch-bare o env a.2)
    stmt-bare (while_stmt sp e s) env m =
        cc (infer-bare e env m, stmt-bare s env (infer ensure finish env e m).state)
    stmt-bare (function_stmt g body) env m = refl
    stmt-bare (record_stmt r) env m = refl
    stmt-bare (import_stmt sp x) env m = refl
    stmt-bare (module_stmt sp x) env m = refl

    stmts-bare :
        (ss : Stmts) (env : Env) (m : Monomorphizer)
        → bare_stmts (process_stmts ensure finish ss env m).0 ≡ bare_stmts ss
    stmts-bare no_stmts env m = refl
    stmts-bare (more_stmts s ss) env m =
        let r = process_stmt ensure finish s env m in cc (stmt-bare s env m, stmts-bare ss r.1 r.2)

    branch-bare :
        (o : OptStmt) (env : Env) (m : Monomorphizer)
        → bare_branch (process_branch ensure finish o env m).0 ≡ bare_branch o
    branch-bare no_stmt env m = refl
    branch-bare (some_stmt s) env m = ap (λ x. some_stmt x) (stmt-bare s env m)

  process_stmts-bare :
      (ss : Stmts) (env : Env) (m : Monomorphizer)
      → bare_stmts (process_stmts ensure finish ss env m).0 ≡ bare_stmts ss
  process_stmts-bare ss env m = stmts-bare ss env m

pub bare_callee-rename : (x : Text) (e : Expr) → bare_callee (rename_callee x e) ≡ bare_callee e
unfolding rename_callee
bare_callee-rename x (name sp y) = refl
bare_callee-rename x (literal sp v) = refl
bare_callee-rename x (unary sp op e w q) = refl
bare_callee-rename x (binary sp l op r) = refl
bare_callee-rename x (call sp e es info) = refl
bare_callee-rename x (cast sp e t) = refl
bare_callee-rename x (index sp o i info) = refl
bare_callee-rename x (member sp o y info) = refl
bare_callee-rename x (array sp es w) = refl

module _ (ensure : Text → Monomorphizer → Monomorphizer)
    (process : Stmts → Env → Monomorphizer → Stmts × Monomorphizer) where
  call_generic-Renames :
      (f : FunctionDecl) (sp : Span) (e : Expr) (ts : List Text) (m : Monomorphizer)
      → bare_callee (call_generic ensure process f sp e ts m).callee ≡ bare_callee e
  unfolding call_generic call_instance
  call_generic-Renames f sp e ts m =
      let x = plain_callee e in
      let b = bind_parameters x sp f.generic_params f.params ts [] m.diagnostics in
      let bound = check_bound x sp f.generic_params b.0 b.1 in
      let met = check_constraints sp (constraints_of m f.name) b.0 bound in
      let same = λ (c : Called). bare_callee c.callee ≡ bare_callee e in
      if_both same (no_errors bound) (if_both same (no_errors met) (bare_callee-rename _ e) refl)
        refl

  pub process_call-Renames :
      (sp : Span) (e : Expr) (ts : List Text) (m : Monomorphizer)
      → bare_callee (process_call ensure process sp e ts m).callee ≡ bare_callee e
  unfolding process_call
  process_call-Renames sp e ts m = elim (Option-cases (find_text m.functions (plain_callee e))) [
    | inl h ↦ rw (h, process_call) refl
    | inr (f, h) ↦ elim (Bool-cases (is_generic f.generic_params)) [
      | inl g ↦ rw (h, g, process_call) (call_generic-Renames f sp e ts m)
      | inr g ↦ rw (h, g, process_call) refl
    ]
  ]

-- A body, walked through, is the body but for the names of callees.
pub process_body-bare :
    (f : ℕ) (s : Stmts) (env : Env) (m : Monomorphizer)
    → bare_stmts (process_body f s env m).0 ≡ bare_stmts s
unfolding process_body
process_body-bare zero s env m = refl
process_body-bare (suc f) s env m =
    process_stmts-bare (ensure_type f) (process_call (ensure_type f) (process_body f))
      (process_call-Renames (ensure_type f) (process_body f)) s env m
