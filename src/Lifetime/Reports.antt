-- ===== src/Lifetime/Reports.antt =====
-- The diagnostics before and after a visit of an expression (Compiler/lifetime.cpp).
use noe_code.Prelude.{
  ℕ, ◌≡◌, refl, sym, ap, ◌∙◌, Bool, true, false, ◌&&◌, List, [], ◌∷◌, ◌++◌, Option, none, some,
  Text, codes, find_text, if_both,
}
use mathlib.Core.List.{append-nil, append_assoc}
use noe_code.Ast.{
  Span, Diagnostic, Expr, Exprs, no_exprs, more_exprs, literal, name, unary, binary, call, cast,
  index, member, array,
}
use noe_code.Diagnostics.{error}
use noe_code.Lower.Expressions.{callee_name}
use noe_code.Safety.Annotator.{holds_name, is_star}
use noe_code.Lifetime.Sets.{null_expression, field_key}
use noe_code.Lifetime.Summary.{SummaryMap}
use noe_code.Lifetime.Inspector.{
  BorrowInfo, Inspector, report, report_if, check_index, index_outside, local_at, report_escape,
  report_escapes, arg_borrows, check_escaping_call, check_field, expression, expressions,
  assign_borrow, assign_aggregate,
}

-- `s'` has the diagnostics of `s` and more behind them.
pub record Grows (s s' : Inspector) : Type 0 where
  pub reports : List Diagnostic
  pub appended : s'.diagnostics ≡ s.diagnostics ++ reports

pub same-Grows : {s s' : Inspector} → s'.diagnostics ≡ s.diagnostics → Grows s s'
same-Grows {s} e = record { reports = []; appended = e ∙ sym (append-nil s.diagnostics) }

pub then-Grows : {s s' s'' : Inspector} → Grows s s' → Grows s' s'' → Grows s s''
then-Grows {s} g h = record {
  reports = g.reports ++ h.reports;
  appended =
      h.appended
      ∙ (ap (λ (l : List Diagnostic). l ++ h.reports) g.appended
          ∙ append_assoc s.diagnostics g.reports h.reports);
}

-- One diagnostic more.
added :
    {s s' : Inspector} (d : Diagnostic) → s'.diagnostics ≡ s.diagnostics ++ (d ∷ []) → Grows s s'
added d e = record { reports = d ∷ []; appended = e }

-- And the depths of the declared names are the same.
pub record Keeps (s s' : Inspector) : Type 0 where
  pub grows : Grows s s'
  pub declared : s'.declared_depth ≡ s.declared_depth

pub same-Keeps :
    {s s' : Inspector}
    → s'.diagnostics ≡ s.diagnostics
    → s'.declared_depth ≡ s.declared_depth
    → Keeps s s'
same-Keeps e d = record { grows = same-Grows e; declared = d }

pub then-Keeps : {s s' s'' : Inspector} → Keeps s s' → Keeps s' s'' → Keeps s s''
then-Keeps g h = record { grows = then-Grows g.grows h.grows; declared = h.declared ∙ g.declared }

pub added-Keeps :
    {s s' : Inspector} (d : Diagnostic)
    → s'.diagnostics ≡ s.diagnostics ++ (d ∷ [])
    → s'.declared_depth ≡ s.declared_depth
    → Keeps s s'
added-Keeps d e k = record { grows = added d e; declared = k }

report_if-Keeps :
    (b : Bool) (code : Text) (sp : Span) (message help : Text) (s : Inspector)
    → Keeps s (report_if b code sp message help s)
unfolding report_if report error
report_if-Keeps true code sp message help s = added-Keeps _ refl refl
report_if-Keeps false code sp message help s = same-Keeps refl refl

check_index-Keeps : (sp : Span) (o i : Expr) (s : Inspector) → Keeps s (check_index sp o i s)
unfolding check_index report_if report error
check_index-Keeps sp o i s =
    if_both (Keeps s) (index_outside o i s) (added-Keeps _ refl refl) (same-Keeps refl refl)

report_escape-Keeps : (sp : Span) (o : Option Text) (s : Inspector) → Keeps s (report_escape sp o s)
unfolding report_escape report error
report_escape-Keeps sp none s = same-Keeps refl refl
report_escape-Keeps sp (some source) s = added-Keeps _ refl refl

report_escapes-Keeps :
    (sp : Span) (args : List (Option BorrowInfo)) (is : List ℕ) (s : Inspector)
    → Keeps s (report_escapes sp args is s)
unfolding report_escapes
report_escapes-Keeps sp args [] s = same-Keeps refl refl
report_escapes-Keeps sp args (i ∷ is) s =
    then-Keeps (report_escape-Keeps sp (local_at args i) s) (report_escapes-Keeps sp args is _)

module _ (summaries : SummaryMap) where
  check_escaping_call-Keeps :
      (sp : Span) (callee : Expr) (args : Exprs) (s : Inspector)
      → Keeps s (check_escaping_call summaries sp callee args s)
  unfolding check_escaping_call
  check_escaping_call-Keeps sp callee args s =
      elim (find_text summaries (callee_name callee))
        as (λ o. Keeps s (elim o as (λ o. Inspector) [
          | none ↦ s
          | some t ↦ report_escapes sp (arg_borrows summaries s args) t.escape_params s
        ])) [
          | none ↦ same-Keeps refl refl
          | some t ↦ report_escapes-Keeps sp (arg_borrows summaries s args) t.escape_params s
        ]

  check_field-Keeps :
      (sp : Span) (o : Expr) (m : Text) (s : Inspector) → Keeps s (check_field summaries sp o m s)
  unfolding check_field report_if report error
  check_field-Keeps sp (name sn x) m s =
      if_both (Keeps s) (holds_name s.dangling_fields (field_key x m)) (added-Keeps _ refl refl)
        (same-Keeps refl refl)
  check_field-Keeps sp (literal _ _) m s = same-Keeps refl refl
  check_field-Keeps sp (unary _ _ _ _ _) m s = same-Keeps refl refl
  check_field-Keeps sp (binary _ _ _ _) m s = same-Keeps refl refl
  check_field-Keeps sp (call _ _ _ _) m s = same-Keeps refl refl
  check_field-Keeps sp (cast _ _ _) m s = same-Keeps refl refl
  check_field-Keeps sp (index _ _ _ _) m s = same-Keeps refl refl
  check_field-Keeps sp (member _ _ _ _) m s = same-Keeps refl refl
  check_field-Keeps sp (array _ _ _) m s = same-Keeps refl refl

  check_name-Keeps :
      (sp : Span) (x : Text) (s : Inspector) → Keeps s (expression summaries (name sp x) s)
  unfolding expression report_if report error
  check_name-Keeps sp x s =
      if_both (Keeps s) (holds_name s.dangling x) (added-Keeps _ refl refl) (same-Keeps refl refl)

  mutual
    unfolding expression expressions

    pub expression-Keeps : (e : Expr) (s : Inspector) → Keeps s (expression summaries e s)
    expression-Keeps (name sp x) s = check_name-Keeps sp x s
    expression-Keeps (unary sp op e w v) s =
        then-Keeps
          (report_if-Keeps (is_star op && null_expression e) (codes "NQR-L4103") sp
            (codes "provable null pointer dereference")
            (codes "guard nullable pointers before dereferencing") s)
          (expression-Keeps e _)
    expression-Keeps (index sp o i info) s =
        then-Keeps
          (report_if-Keeps (null_expression o) (codes "NQR-L4103") sp
            (codes "provable null pointer indexing")
            (codes "guard nullable pointers before indexing") s)
          (then-Keeps (check_index-Keeps sp o i _)
            (then-Keeps (expression-Keeps o _) (expression-Keeps i _)))
    expression-Keeps (member sp o m info) s =
        then-Keeps (check_field-Keeps sp o m s) (expression-Keeps o _)
    expression-Keeps (cast sp e t) s = expression-Keeps e s
    expression-Keeps (call sp callee args info) s =
        then-Keeps (check_escaping_call-Keeps sp callee args s)
          (then-Keeps (expression-Keeps callee _) (expressions-Keeps args _))
    expression-Keeps (binary sp l op r) s = then-Keeps (expression-Keeps l s) (expression-Keeps r _)
    expression-Keeps (array sp es size) s = expressions-Keeps es s
    expression-Keeps (literal sp v) s = same-Keeps refl refl

    expressions-Keeps : (es : Exprs) (s : Inspector) → Keeps s (expressions summaries es s)
    expressions-Keeps no_exprs s = same-Keeps refl refl
    expressions-Keeps (more_exprs e es) s =
        then-Keeps (expression-Keeps e s) (expressions-Keeps es _)

  pub assign_borrow-Keeps :
      (x : Text) (e : Expr) (s : Inspector) → Keeps s (assign_borrow summaries x e s)
  unfolding assign_borrow
  assign_borrow-Keeps x e s = same-Keeps refl refl

  pub assign_aggregate-Keeps :
      (o : Expr) (m : Text) (e : Expr) (s : Inspector)
      → Keeps s (assign_aggregate summaries o m e s)
  unfolding assign_aggregate
  assign_aggregate-Keeps (name sp x) m e s = same-Keeps refl refl
  assign_aggregate-Keeps (literal _ _) m e s = same-Keeps refl refl
  assign_aggregate-Keeps (unary _ _ _ _ _) m e s = same-Keeps refl refl
  assign_aggregate-Keeps (binary _ _ _ _) m e s = same-Keeps refl refl
  assign_aggregate-Keeps (call _ _ _ _) m e s = same-Keeps refl refl
  assign_aggregate-Keeps (cast _ _ _) m e s = same-Keeps refl refl
  assign_aggregate-Keeps (index _ _ _ _) m e s = same-Keeps refl refl
  assign_aggregate-Keeps (member _ _ _ _) m e s = same-Keeps refl refl
  assign_aggregate-Keeps (array _ _ _) m e s = same-Keeps refl refl
