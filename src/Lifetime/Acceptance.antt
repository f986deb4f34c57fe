-- ===== src/Lifetime/Acceptance.antt =====
-- The diagnostics and the depths of names before and after a visit (Compiler/lifetime.cpp).
use mathlib.Core.List.{append-nil, append_assoc}
use noe_code.Prelude.{
  ℕ, suc, ◌≡◌, refl, sym, ap, ◌∙◌, Bool, not, ◌&&◌, List, [], ◌∷◌, ◌++◌, Option, none, some, Text,
  codes, if_both, if◌then◌else◌,
}
use noe_code.Ast.{
  TokenKind, Span, Diagnostic, Expr, literal, name, unary, binary, call, cast, index, member, array,
  Parameter, Stmt, Stmts, no_stmts, more_stmts, OptStmt, no_stmt, some_stmt, expr_stmt, let_stmt,
  block_stmt, if_stmt, while_stmt, return_stmt, throw_stmt, function_stmt, record_stmt, import_stmt,
  module_stmt, FunctionDecl, TopLevel, function_decl, record_decl, import_decl, module_decl,
}
use noe_code.Diagnostics.{error}
use noe_code.Parser.Kinds.{same_kind}
use noe_code.Lifetime.Sets.{starts_with, borrow_type}
use noe_code.Lifetime.Summary.{SummaryMap}
use noe_code.Lifetime.Inspector.{
  BorrowInfo, Inspector, report, report_if, parameter, expression, borrow_of,
}
use noe_code.Lifetime.Scopes.{
  locals_at, fields_of, erase_fields, erase_local, erase_locals, mark, expire_scope, report_return,
  report_fields, report_returned, check_return, declare, assign, is_place, expression_statement,
  statement, statements, branch,
}
use noe_code.Lifetime.Check.{start_inspector, enter_params, inspect, inspect_all}
use noe_code.Lifetime.Reports.{
  Grows, same-Grows, then-Grows, Keeps, same-Keeps, then-Keeps, added-Keeps, expression-Keeps,
  assign_borrow-Keeps, assign_aggregate-Keeps,
}

diagnostics-erase_fields :
    (keys : List Text) (s : Inspector) → (erase_fields keys s).diagnostics ≡ s.diagnostics
unfolding erase_fields
diagnostics-erase_fields [] s = refl
diagnostics-erase_fields (key ∷ keys) s = diagnostics-erase_fields keys _

diagnostics-erase_locals :
    (xs : List Text) (s : Inspector) → (erase_locals xs s).diagnostics ≡ s.diagnostics
unfolding erase_locals erase_local
diagnostics-erase_locals [] s = refl
diagnostics-erase_locals (x ∷ xs) s =
    diagnostics-erase_locals xs (erase_local x s)
    ∙ diagnostics-erase_fields (fields_of (x ++ codes ".") s.aggregate_borrows) _

expire_scope-Grows : (depth : ℕ) (s : Inspector) → Grows s (expire_scope depth s)
unfolding expire_scope mark
expire_scope-Grows depth s =
    same-Grows (diagnostics-erase_locals (locals_at depth s.declared_depth) (mark depth s))

report_return-Keeps :
    (sp : Span) (o : Option BorrowInfo) (s : Inspector) → Keeps s (report_return sp o s)
unfolding report_return report_if report error
report_return-Keeps sp none s = same-Keeps refl refl
report_return-Keeps sp (some b) s =
    if_both (Keeps s) (not b.parameter) (added-Keeps _ refl refl) (same-Keeps refl refl)

report_fields-Keeps :
    (sp : Span) (prefix : Text) (m : List (Text × BorrowInfo)) (s : Inspector)
    → Keeps s (report_fields sp prefix m s)
unfolding report_fields report_if report error
report_fields-Keeps sp prefix [] s = same-Keeps refl refl
report_fields-Keeps sp prefix ((key, b) ∷ m) s =
    then-Keeps
      (if_both (Keeps s) (starts_with prefix key && not b.parameter) (added-Keeps _ refl refl)
        (same-Keeps refl refl))
      (report_fields-Keeps sp prefix m _)

report_returned-Keeps : (sp : Span) (e : Expr) (s : Inspector) → Keeps s (report_returned sp e s)
unfolding report_returned
report_returned-Keeps sp (name sn x) s =
    report_fields-Keeps sp (x ++ codes ".") s.aggregate_borrows s
report_returned-Keeps sp (literal _ _) s = same-Keeps refl refl
report_returned-Keeps sp (unary _ _ _ _ _) s = same-Keeps refl refl
report_returned-Keeps sp (binary _ _ _ _) s = same-Keeps refl refl
report_returned-Keeps sp (call _ _ _ _) s = same-Keeps refl refl
report_returned-Keeps sp (cast _ _ _) s = same-Keeps refl refl
report_returned-Keeps sp (index _ _ _ _) s = same-Keeps refl refl
report_returned-Keeps sp (member _ _ _ _) s = same-Keeps refl refl
report_returned-Keeps sp (array _ _ _) s = same-Keeps refl refl

module _ (summaries : SummaryMap) (b : Bool) where
  pub check_return-Keeps :
      (sp : Span) (o : Option Expr) (s : Inspector) → Keeps s (check_return summaries b sp o s)
  unfolding check_return
  check_return-Keeps sp none s = same-Keeps refl refl
  check_return-Keeps sp (some e) s =
      let visited = expression-Keeps summaries e s in
      let s' = expression summaries e s in
      if_both (Keeps s) b
        (then-Keeps visited (
          then-Keeps (report_return-Keeps sp (borrow_of summaries s' e) s')
            (report_returned-Keeps sp e _)))
        visited

  assign-Keeps : (l e : Expr) (s : Inspector) → Keeps s (assign summaries b l e s)
  unfolding assign
  assign-Keeps (name sp x) e s = assign_borrow-Keeps summaries x e s
  assign-Keeps (member sp o m info) e s =
      then-Keeps (expression-Keeps summaries o s) (assign_aggregate-Keeps summaries o m e _)
  assign-Keeps (literal _ _) e s = same-Keeps refl refl
  assign-Keeps (unary _ _ _ _ _) e s = same-Keeps refl refl
  assign-Keeps (binary _ _ _ _) e s = same-Keeps refl refl
  assign-Keeps (call _ _ _ _) e s = same-Keeps refl refl
  assign-Keeps (cast _ _ _) e s = same-Keeps refl refl
  assign-Keeps (index _ _ _ _) e s = same-Keeps refl refl
  assign-Keeps (array _ _ _) e s = same-Keeps refl refl

  declare-Grows :
      (x : Text) (type : Option Text) (e : Expr) (depth : ℕ) (s : Inspector)
      → Grows s (declare summaries b x type e depth s)
  unfolding declare
  declare-Grows x type e depth s =
      then-Grows (same-Grows refl) (assign_borrow-Keeps summaries x e _).grows

  pub expression_statement-Keeps :
      (e : Expr) (s : Inspector) → Keeps s (expression_statement summaries b e s)
  unfolding expression_statement
  expression_statement-Keeps (binary sp l op r) s =
      let visited = expression-Keeps summaries r s in
      if_both (Keeps s) (same_kind op TokenKind.equal)
        (then-Keeps visited (
          if_both (Keeps (expression summaries r s)) (is_place summaries b l) (assign-Keeps l r _)
            (expression-Keeps summaries (binary sp l op r) _)))
        (expression-Keeps summaries (binary sp l op r) s)
  expression_statement-Keeps (literal sp v) s = expression-Keeps summaries (literal sp v) s
  expression_statement-Keeps (name sp x) s = expression-Keeps summaries (name sp x) s
  expression_statement-Keeps (unary sp op e w v) s =
      expression-Keeps summaries (unary sp op e w v) s
  expression_statement-Keeps (call sp c es info) s =
      expression-Keeps summaries (call sp c es info) s
  expression_statement-Keeps (cast sp e t) s = expression-Keeps summaries (cast sp e t) s
  expression_statement-Keeps (index sp o i info) s =
      expression-Keeps summaries (index sp o i info) s
  expression_statement-Keeps (member sp o m info) s =
      expression-Keeps summaries (member sp o m info) s
  expression_statement-Keeps (array sp es size) s = expression-Keeps summaries (array sp es size) s

  mutual
    unfolding statement statements branch

    statement-Grows :
        (t : Stmt) (depth : ℕ) (s : Inspector) → Grows s (statement summaries b t depth s)
    statement-Grows (let_stmt sp k x type e) depth s =
        then-Grows (expression-Keeps summaries e s).grows (declare-Grows x type e depth _)
    statement-Grows (expr_stmt sp e) depth s = (expression_statement-Keeps e s).grows
    statement-Grows (return_stmt sp e) depth s = (check_return-Keeps sp e s).grows
    statement-Grows (throw_stmt sp e) depth s = (expression-Keeps summaries e s).grows
    statement-Grows (block_stmt sp body u) depth s =
        then-Grows (statements-Grows body (suc depth) s) (expire_scope-Grows (suc depth) _)
    statement-Grows (if_stmt sp e t o) depth s = then-Grows (expression-Keeps summaries e s).grows (
        then-Grows (statement-Grows t (suc depth) _) (
          then-Grows (expire_scope-Grows (suc depth) _)
            (then-Grows (branch-Grows o (suc depth) _) (expire_scope-Grows (suc depth) _))))
    statement-Grows (while_stmt sp e body) depth s =
        then-Grows (expression-Keeps summaries e s).grows
          (then-Grows (statement-Grows body (suc depth) _) (expire_scope-Grows (suc depth) _))
    statement-Grows (function_stmt f body) depth s = same-Grows refl
    statement-Grows (record_stmt r) depth s = same-Grows refl
    statement-Grows (import_stmt sp path) depth s = same-Grows refl
    statement-Grows (module_stmt sp x) depth s = same-Grows refl

    pub statements-Grows :
        (ts : Stmts) (depth : ℕ) (s : Inspector) → Grows s (statements summaries b ts depth s)
    statements-Grows no_stmts depth s = same-Grows refl
    statements-Grows (more_stmts t ts) depth s =
        then-Grows (statement-Grows t depth s) (statements-Grows ts depth _)

    branch-Grows :
        (o : OptStmt) (depth : ℕ) (s : Inspector) → Grows s (branch summaries b o depth s)
    branch-Grows no_stmt depth s = same-Grows refl
    branch-Grows (some_stmt t) depth s = statement-Grows t depth s

enter_params-Grows : (ps : List Parameter) (i : ℕ) (s : Inspector) → Grows s (enter_params ps i s)
unfolding enter_params parameter
enter_params-Grows [] i s = same-Grows refl
enter_params-Grows (p ∷ ps) i s = then-Grows (same-Grows refl) (enter_params-Grows ps (suc i) _)

inspect_appends :
    (summaries : SummaryMap) (f : FunctionDecl) (items : List Diagnostic)
    → (more : List Diagnostic) × (inspect summaries f items ≡ items ++ more)
unfolding inspect start_inspector
inspect_appends summaries f items =
    let g =
      then-Grows (enter_params-Grows f.params 0 (start_inspector items))
        (statements-Grows summaries (borrow_type f.return_type) f.body 0 _) in
    (g.reports, g.appended)

pub inspect_all_appends :
    (summaries : SummaryMap) (ds : List TopLevel) (items : List Diagnostic)
    → (more : List Diagnostic) × (inspect_all summaries ds items ≡ items ++ more)
unfolding inspect_all
inspect_all_appends summaries [] items = ([], sym (append-nil items))
inspect_all_appends summaries (function_decl f ∷ ds) items =
    let next = if f.is_extern then items else inspect summaries f items in
    let first =
      if_both (λ (l : List Diagnostic). (more : List Diagnostic) × (l ≡ items ++ more)) f.is_extern
        ([], sym (append-nil items)) (inspect_appends summaries f items) in
    let rest = inspect_all_appends summaries ds next in
    (
      first.0 ++ rest.0,
      rest.1
          ∙ (ap (λ (l : List Diagnostic). l ++ rest.0) first.1 ∙ append_assoc items first.0 rest.0),
    )
inspect_all_appends summaries (record_decl r ∷ ds) items = inspect_all_appends summaries ds items
inspect_all_appends summaries (import_decl sp p ∷ ds) items = inspect_all_appends summaries ds items
inspect_all_appends summaries (module_decl sp p ∷ ds) items = inspect_all_appends summaries ds items
inspect_all_appends summaries (TopLevel.statement t ∷ ds) items =
    inspect_all_appends summaries ds items
