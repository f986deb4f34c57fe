-- ===== src/Lifetime/Check.antt =====
-- `BorrowChecker::check` (Compiler/lifetime.cpp).
use noe_code.Prelude.{ℕ, suc, Bool, true, false, List, [], ◌∷◌, if◌then◌else◌}
use noe_code.Ast.{Diagnostic, Parameter, FunctionDecl, TopLevel, function_decl}
use noe_code.Lifetime.Sets.{borrow_type}
use noe_code.Lifetime.Summary.{SummaryMap}
use noe_code.Lifetime.Functions.{build_summaries}
use noe_code.Lifetime.Inspector.{Inspector, parameter}
use noe_code.Lifetime.Scopes.{statements}

unfoldable pub start_inspector : List Diagnostic → Inspector
start_inspector items = record {
  declared_depth = [];
  array_sizes = [];
  parameters = [];
  borrowed = [];
  aggregate_borrows = [];
  dangling = [];
  dangling_fields = [];
  diagnostics = items;
}

unfoldable pub enter_params : List Parameter → ℕ → Inspector → Inspector
unfolding parameter
enter_params [] i s = s
enter_params (p ∷ ps) i s = enter_params ps (suc i) (parameter p i s)

unfoldable pub inspect : SummaryMap → FunctionDecl → List Diagnostic → List Diagnostic
unfolding start_inspector enter_params statements borrow_type
inspect summaries f items =
    (statements summaries (borrow_type f.return_type) f.body 0
      (enter_params f.params 0 (start_inspector items))).diagnostics

unfoldable pub inspect_all : SummaryMap → List TopLevel → List Diagnostic → List Diagnostic
unfolding inspect
inspect_all summaries [] items = items
inspect_all summaries (function_decl f ∷ ds) items =
    inspect_all summaries ds (if f.is_extern then items else inspect summaries f items)
inspect_all summaries (d ∷ ds) items = inspect_all summaries ds items

abbrev pub no_errors : List Diagnostic → Bool
no_errors [] = true
no_errors (d ∷ ds) = false

-- `BorrowChecker::check`: the diagnostics, and whether there is none. Every diagnostic is an error.
unfoldable pub check_borrows : List TopLevel → List Diagnostic → List Diagnostic × Bool
unfolding inspect_all build_summaries
check_borrows program items =
    let found = inspect_all (build_summaries program) program items in (found, no_errors found)
