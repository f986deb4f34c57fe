-- ===== src/Generics/Walk.antt =====
-- The walk over statements that ask for no instance (Compiler/generics.cpp) changes nothing.
use noe_code.Prelude.{ℕ, ◌≡◌, refl, ap, ◌∙◌, List, [], ◌∷◌, Option, none, some, Text}
use noe_code.Ast.{
  Span, Parameter, Expr, Exprs, literal, name, unary, binary, call, cast, index, member, array,
  no_exprs, more_exprs, Stmt, Stmts, OptStmt, expr_stmt, let_stmt, block_stmt, if_stmt, while_stmt,
  return_stmt, throw_stmt, function_stmt, record_stmt, import_stmt, module_stmt, no_stmts,
  more_stmts, no_stmt, some_stmt, RecordField,
}
use noe_code.Generics.State.{Monomorphizer, ensure_type}
use noe_code.Generics.Calls.{Env, Called, ensure_opt, process_call}
use noe_code.Generics.Monomorphize.{
  infer, infer_args, process_stmt, process_stmts, process_branch, ensure_params, ensure_fields,
}
use noe_code.Generics.Unchanged.{IsIdle, ensure_type_same, process_call_same}

-- What the walk is given changes nothing of the state `m`.
pub record IsQuiet (m : Monomorphizer) (ensure : Text → Monomorphizer → Monomorphizer)
    (finish : Span → Expr → List Text → Monomorphizer → Called) : Type 0 where
  pub ensured : (t : Text) (n : Monomorphizer) → n ≡ m → ensure t n ≡ m
  pub callee :
      (sp : Span) (e : Expr) (ts : List Text) (n : Monomorphizer)
      → n ≡ m
      → (finish sp e ts n).callee ≡ e
  pub state :
      (sp : Span) (e : Expr) (ts : List Text) (n : Monomorphizer)
      → n ≡ m
      → (finish sp e ts n).state ≡ m

module _ (m : Monomorphizer) (ensure : Text → Monomorphizer → Monomorphizer)
    (finish : Span → Expr → List Text → Monomorphizer → Called)
    (quiet : IsQuiet m ensure finish) where
  mutual
    unfolding infer infer_args

    infer-kept :
        (e : Expr) (env : Env) (n : Monomorphizer)
        → n ≡ m
        → ((infer ensure finish env e n).expr ≡ e) × ((infer ensure finish env e n).state ≡ m)
    infer-kept (literal sp v) env n h = (refl, h)
    infer-kept (name sp x) env n h = (refl, h)
    infer-kept (cast sp e t) env n h = (refl, quiet.ensured t n h)
    infer-kept (unary sp op e w q) env n h =
        let (p, s) = infer-kept e env n h in (ap (λ x. unary sp op x w q) p, s)
    infer-kept (binary sp l op e) env n h =
        let (p, s) = infer-kept l env n h in let (q, t) = infer-kept e env _ s in (cc (p, q), t)
    infer-kept (array sp no_exprs w) env n h = (refl, h)
    infer-kept (array sp (more_exprs e es) w) env n h =
        let (p, s) = infer-kept e env n h in (ap (λ x. array sp (more_exprs x es) w) p, s)
    infer-kept (index sp o i info) env n h =
        let (p, s) = infer-kept o env n h in (ap (λ x. index sp x i info) p, s)
    infer-kept (member sp o x info) env n h =
        let (p, s) = infer-kept o env n h in (ap (λ y. member sp y x info) p, s)
    infer-kept (call sp f es info) env n h =
        let (p, s) = infer_args-kept es env n h in
        let ts = (infer_args ensure finish env es n).types in
        let q = quiet.callee sp f ts _ s in (cc (p, q), quiet.state sp f ts _ s)

    infer_args-kept :
        (es : Exprs) (env : Env) (n : Monomorphizer)
        → n ≡ m
        → ((infer_args ensure finish env es n).args ≡ es)
          × ((infer_args ensure finish env es n).state ≡ m)
    infer_args-kept no_exprs env n h = (refl, h)
    infer_args-kept (more_exprs e es) env n h =
        let (p, s) = infer-kept e env n h in
        let (q, t) = infer_args-kept es env _ s in (cc (p, q), t)

  ensure_opt-kept : (t : Option Text) (n : Monomorphizer) → n ≡ m → ensure_opt ensure t n ≡ m
  unfolding ensure_opt
  ensure_opt-kept none n h = h
  ensure_opt-kept (some t) n h = quiet.ensured t n h

  mutual
    unfolding process_stmt process_stmts process_branch

    stmt-kept :
        (s : Stmt) (env : Env) (n : Monomorphizer)
        → n ≡ m
        → ((process_stmt ensure finish s env n).0 ≡ s)
          × ((process_stmt ensure finish s env n).2 ≡ m)
    stmt-kept (expr_stmt sp e) env n h =
        let (p, s) = infer-kept e env n h in (ap (λ x. expr_stmt sp x) p, s)
    stmt-kept (let_stmt sp c x t e) env n h =
        let (p, s) = infer-kept e env n h in
        (ap (λ y. let_stmt sp c x t y) p, ensure_opt-kept t _ s)
    stmt-kept (return_stmt sp none) env n h = (refl, h)
    stmt-kept (return_stmt sp (some e)) env n h =
        let (p, s) = infer-kept e env n h in (ap (λ x. return_stmt sp (some x)) p, s)
    stmt-kept (throw_stmt sp e) env n h =
        let (p, s) = infer-kept e env n h in (ap (λ x. throw_stmt sp x) p, s)
    stmt-kept (block_stmt sp body u) env n h =
        let (p, s) = stmts-kept body env n h in (ap (λ x. block_stmt sp x u) p, s)
    stmt-kept (if_stmt sp e s o) env n h =
        let (p, a) = infer-kept e env n h in
        let (q, b) = stmt-kept s env _ a in let (r, c) = branch-kept o env _ b in (cc (p, q, r), c)
    stmt-kept (while_stmt sp e s) env n h =
        let (p, a) = infer-kept e env n h in let (q, b) = stmt-kept s env _ a in (cc (p, q), b)
    stmt-kept (function_stmt g body) env n h = (refl, h)
    stmt-kept (record_stmt r) env n h = (refl, h)
    stmt-kept (import_stmt sp x) env n h = (refl, h)
    stmt-kept (module_stmt sp x) env n h = (refl, h)

    stmts-kept :
        (ss : Stmts) (env : Env) (n : Monomorphizer)
        → n ≡ m
        → ((process_stmts ensure finish ss env n).0 ≡ ss)
          × ((process_stmts ensure finish ss env n).1 ≡ m)
    stmts-kept no_stmts env n h = (refl, h)
    stmts-kept (more_stmts s ss) env n h =
        let (p, a) = stmt-kept s env n h in let (q, b) = stmts-kept ss _ _ a in (cc (p, q), b)

    branch-kept :
        (o : OptStmt) (env : Env) (n : Monomorphizer)
        → n ≡ m
        → ((process_branch ensure finish o env n).0 ≡ o)
          × ((process_branch ensure finish o env n).1 ≡ m)
    branch-kept no_stmt env n h = (refl, h)
    branch-kept (some_stmt s) env n h =
        let (p, a) = stmt-kept s env n h in (ap (λ x. some_stmt x) p, a)

  ensure_params-kept :
      (ps : List Parameter) (n : Monomorphizer) → n ≡ m → ensure_params ensure ps n ≡ m
  unfolding ensure_params
  ensure_params-kept [] n h = h
  ensure_params-kept (p ∷ ps) n h = ensure_params-kept ps _ (ensure_opt-kept p.annotation n h)

  pub ensure_fields-kept :
      (fs : List RecordField) (n : Monomorphizer) → n ≡ m → ensure_fields ensure fs n ≡ m
  unfolding ensure_fields
  ensure_fields-kept [] n h = h
  ensure_fields-kept (f ∷ fs) n h = ensure_fields-kept fs _ (quiet.ensured f.type_name n h)

  pub ensure_signature-kept :
      (ps : List Parameter) (t : Option Text) → ensure_opt ensure t (ensure_params ensure ps m) ≡ m
  ensure_signature-kept ps t = ensure_opt-kept t _ (ensure_params-kept ps m refl)

  pub process_stmt-kept :
      (s : Stmt) (env : Env)
      → ((process_stmt ensure finish s env m).0 ≡ s) × ((process_stmt ensure finish s env m).2 ≡ m)
  process_stmt-kept s env = stmt-kept s env m refl

  pub process_stmts-kept :
      (ss : Stmts) (env : Env) (n : Monomorphizer)
      → n ≡ m
      → ((process_stmts ensure finish ss env n).0 ≡ ss)
        × ((process_stmts ensure finish ss env n).1 ≡ m)
  process_stmts-kept ss env n h = stmts-kept ss env n h

-- Where no record is a template and no function generic, nothing that the walk is given changes the
-- state.
pub process-IsQuiet :
    (f : ℕ) (process : Stmts → Env → Monomorphizer → Stmts × Monomorphizer) (m : Monomorphizer)
    → IsIdle m
    → IsQuiet m (ensure_type f) (process_call (ensure_type f) process)
process-IsQuiet f process m h = record {
  ensured = λ t n e. ap (ensure_type f t) e ∙ ensure_type_same f t m h.templates;
  callee = λ sp e ts n q.
      ap (λ k. (process_call (ensure_type f) process sp e ts k).callee) q
      ∙ (process_call_same (ensure_type f) process sp e ts m h).0;
  state = λ sp e ts n q.
      ap (λ k. (process_call (ensure_type f) process sp e ts k).state) q
      ∙ (process_call_same (ensure_type f) process sp e ts m h).1;
}
