-- ===== src/Generics/WalkSteps.antt =====
-- What the walk over statements (Compiler/generics.cpp) does to the instances.
use noe_code.Prelude.{ℕ, zero, suc, refl, List, [], ◌∷◌, Option, none, some, Text}
use noe_code.Ast.{
  Span, Parameter, Expr, Exprs, literal, name, unary, binary, call, cast, index, member, array,
  no_exprs, more_exprs, Stmt, Stmts, OptStmt, expr_stmt, let_stmt, block_stmt, if_stmt, while_stmt,
  return_stmt, throw_stmt, function_stmt, record_stmt, import_stmt, module_stmt, no_stmts,
  more_stmts, no_stmt, some_stmt, RecordField,
}
use noe_code.Generics.State.{Monomorphizer, exhaust, ensure_type}
use noe_code.Generics.Calls.{Env, Called, ensure_opt, process_call}
use noe_code.Generics.Monomorphize.{
  infer, infer_args, process_stmt, process_stmts, process_branch, process_body, ensure_params,
  ensure_fields,
}
use noe_code.Generics.Ensured.{Appended-refl, Ensures, ensure_type-Ensures}
use noe_code.Generics.Bare.{process_body-bare}
use noe_code.Generics.Instantiated.{
  IsInstanced, IsInstanced-refl, IsInstanced-trans, reported-IsInstanced, IsEnsured-IsInstanced,
  Instances, IsCall,
}
use noe_code.Generics.CallSteps.{ensure_opt-IsEnsured, process_call-IsCall}

-- A finished call keeps the instances.
abbrev pub Finishes : (Span → Expr → List Text → Monomorphizer → Called) → Type 0
Finishes finish =
    (sp : Span) (e : Expr) (ts : List Text) (m : Monomorphizer)
    → IsInstanced m (finish sp e ts m).state

module _ (ensure : Text → Monomorphizer → Monomorphizer) (ensures : Ensures ensure)
    (finish : Span → Expr → List Text → Monomorphizer → Called) (finishes : Finishes finish) where
  mutual
    unfolding infer infer_args

    infer-Step :
        (e : Expr) (env : Env) (m : Monomorphizer)
        → IsInstanced m (infer ensure finish env e m).state
    infer-Step (literal sp v) env m = IsInstanced-refl m
    infer-Step (name sp x) env m = IsInstanced-refl m
    infer-Step (cast sp e t) env m = IsEnsured-IsInstanced (ensures t m)
    infer-Step (unary sp op e w q) env m = infer-Step e env m
    infer-Step (binary sp l op e) env m =
        IsInstanced-trans (infer-Step l env m)
          (infer-Step e env (infer ensure finish env l m).state)
    infer-Step (array sp no_exprs w) env m = IsInstanced-refl m
    infer-Step (array sp (more_exprs e es) w) env m = infer-Step e env m
    infer-Step (index sp o i info) env m = infer-Step o env m
    infer-Step (member sp o x info) env m = infer-Step o env m
    infer-Step (call sp f es info) env m =
        let r = infer_args ensure finish env es m in
        IsInstanced-trans (infer_args-Step es env m) (finishes sp f r.types r.state)

    infer_args-Step :
        (es : Exprs) (env : Env) (m : Monomorphizer)
        → IsInstanced m (infer_args ensure finish env es m).state
    infer_args-Step no_exprs env m = IsInstanced-refl m
    infer_args-Step (more_exprs e es) env m =
        IsInstanced-trans (infer-Step e env m)
          (infer_args-Step es env (infer ensure finish env e m).state)

  opt-Step : (t : Option Text) (m : Monomorphizer) → IsInstanced m (ensure_opt ensure t m)
  opt-Step t m = IsEnsured-IsInstanced (ensure_opt-IsEnsured ensure ensures t m)

  mutual
    unfolding process_stmt process_stmts process_branch

    stmt-Step :
        (s : Stmt) (env : Env) (m : Monomorphizer)
        → IsInstanced m (process_stmt ensure finish s env m).2
    stmt-Step (expr_stmt sp e) env m = infer-Step e env m
    stmt-Step (let_stmt sp c x t e) env m =
        IsInstanced-trans (infer-Step e env m) (opt-Step t (infer ensure finish env e m).state)
    stmt-Step (return_stmt sp none) env m = IsInstanced-refl m
    stmt-Step (return_stmt sp (some e)) env m = infer-Step e env m
    stmt-Step (throw_stmt sp e) env m = infer-Step e env m
    stmt-Step (block_stmt sp body u) env m = stmts-Step body env m
    stmt-Step (if_stmt sp e s o) env m =
        let c = infer ensure finish env e m in
        let a = process_stmt ensure finish s env c.state in
        IsInstanced-trans (infer-Step e env m)
          (IsInstanced-trans (stmt-Step s env c.state) (branch-Step o env a.2))
    stmt-Step (while_stmt sp e s) env m =
        IsInstanced-trans (infer-Step e env m) (stmt-Step s env (infer ensure finish env e m).state)
    stmt-Step (function_stmt g body) env m = IsInstanced-refl m
    stmt-Step (record_stmt r) env m = IsInstanced-refl m
    stmt-Step (import_stmt sp x) env m = IsInstanced-refl m
    stmt-Step (module_stmt sp x) env m = IsInstanced-refl m

    stmts-Step :
        (ss : Stmts) (env : Env) (m : Monomorphizer)
        → IsInstanced m (process_stmts ensure finish ss env m).1
    stmts-Step no_stmts env m = IsInstanced-refl m
    stmts-Step (more_stmts s ss) env m =
        let r = process_stmt ensure finish s env m in
        IsInstanced-trans (stmt-Step s env m) (stmts-Step ss r.1 r.2)

    branch-Step :
        (o : OptStmt) (env : Env) (m : Monomorphizer)
        → IsInstanced m (process_branch ensure finish o env m).1
    branch-Step no_stmt env m = IsInstanced-refl m
    branch-Step (some_stmt s) env m = stmt-Step s env m

  pub process_stmt-IsInstanced :
      (s : Stmt) (env : Env) (m : Monomorphizer)
      → IsInstanced m (process_stmt ensure finish s env m).2
  process_stmt-IsInstanced s env m = stmt-Step s env m

  pub process_stmts-IsInstanced :
      (ss : Stmts) (env : Env) (m : Monomorphizer)
      → IsInstanced m (process_stmts ensure finish ss env m).1
  process_stmts-IsInstanced ss env m = stmts-Step ss env m

module _ (ensure : Text → Monomorphizer → Monomorphizer) (ensures : Ensures ensure) where
  pub ensure_params-IsInstanced :
      (ps : List Parameter) (m : Monomorphizer) → IsInstanced m (ensure_params ensure ps m)
  unfolding ensure_params
  ensure_params-IsInstanced [] m = IsInstanced-refl m
  ensure_params-IsInstanced (p ∷ ps) m =
      IsInstanced-trans (IsEnsured-IsInstanced (ensure_opt-IsEnsured ensure ensures p.annotation m))
        (ensure_params-IsInstanced ps (ensure_opt ensure p.annotation m))

  pub ensure_fields-IsInstanced :
      (fs : List RecordField) (m : Monomorphizer) → IsInstanced m (ensure_fields ensure fs m)
  unfolding ensure_fields
  ensure_fields-IsInstanced [] m = IsInstanced-refl m
  ensure_fields-IsInstanced (f ∷ fs) m =
      IsInstanced-trans (IsEnsured-IsInstanced (ensures f.type_name m))
        (ensure_fields-IsInstanced fs (ensure f.type_name m))

process_body-steps :
    (f : ℕ) (s : Stmts) (env : Env) (m : Monomorphizer) → IsInstanced m (process_body f s env m).1
unfolding process_body exhaust
process_body-steps zero s env m = reported-IsInstanced refl refl refl (Appended-refl m.diagnostics)
process_body-steps (suc f) s env m =
    process_stmts-IsInstanced (ensure_type f) (ensure_type-Ensures f)
      (process_call (ensure_type f) (process_body f))
      (λ sp e ts n.
        (process_call-IsCall (ensure_type f) (ensure_type-Ensures f) (process_body f)
          (record { state = process_body-steps f; body = process_body-bare f }) sp e ts n).0)
      s env m

pub process_body-Instances : (f : ℕ) → Instances (process_body f)
process_body-Instances f = record { state = process_body-steps f; body = process_body-bare f }

-- A call of a function leaves the functions of the program and the instances that there are as they
-- are, and keeps every diagnostic, in order. The instances that it adds are copies of generic functions
-- of the program if those before are: each has the parameters, the result and the body of one of them
-- with types put in for its generic parameters, where only the names of callees in the body may differ.
-- Of the callee nothing but the name changes, and if the cache has names of instances only, that stays
-- as it is or becomes the name of an instance.
pub process_call-leads_to_instance :
    (f : ℕ) (sp : Span) (callee : Expr) (args : List Text) (m : Monomorphizer)
    → IsCall callee m (process_call (ensure_type f) (process_body f) sp callee args m)
process_call-leads_to_instance f sp callee args m =
    process_call-IsCall (ensure_type f) (ensure_type-Ensures f) (process_body f)
      (process_body-Instances f) sp callee args m
