-- ===== src/TypeChecker/Program.antt =====
-- The check of a whole program (`TypeChecker::check`, Compiler/type_checker.cpp).
use noe_code.Prelude.{◌≡◌, refl, sym, ap, ◌∙◌, false, List, [], ◌∷◌, ◌++◌, All}
use mathlib.Core.List.{append-nil, append_assoc}
use noe_code.Ast.{
  Diagnostic, RecordField, RecordDecl, FunctionDecl, TopLevel, function_decl, record_decl,
  import_decl, module_decl, statement,
}
use noe_code.TypeChecker.State.{Checker, start_checker}
use noe_code.TypeChecker.Layout.{
  Layout, lay_field, lay_fields, lay_record, lay_records, declare_records,
}
use noe_code.TypeChecker.Check.{declare_function, declare_functions, declarations, check_program}
use noe_code.TypeChecker.Visits.{Visit, both, report_if-Visit}
use noe_code.TypeChecker.LayoutBounds.{measure_field-Visit}
use noe_code.TypeChecker.StatementSteps.{annotated_type-Visit}
use noe_code.TypeChecker.Signatures.{
  param_types-Visit, AreDistinct, IsFlatTop, declare_functions-IsSigned, check_tops-Fixed,
}

-- Diagnostics are only added, and no read goes past the parameters.
record Grows (a b : Checker) : Type 0 where
  reports : List Diagnostic
  appended : b.diagnostics ≡ a.diagnostics ++ reports
  out_of_range : b.out_of_range ≡ a.out_of_range

same-Grows :
    {a b : Checker} → b.diagnostics ≡ a.diagnostics → b.out_of_range ≡ a.out_of_range → Grows a b
same-Grows {a} e f = record {
  reports = [];
  appended = e ∙ sym (append-nil a.diagnostics);
  out_of_range = f;
}

then-Grows : {a b c : Checker} → Grows a b → Grows b c → Grows a c
then-Grows {a} p q = record {
  reports = p.reports ++ q.reports;
  appended =
      q.appended
      ∙ (ap (λ (l : List Diagnostic). l ++ q.reports) p.appended
          ∙ append_assoc a.diagnostics p.reports q.reports);
  out_of_range = q.out_of_range ∙ p.out_of_range;
}

visit-Grows : {P : Type 0} {a b : Checker} → Visit a b P → Grows a b
visit-Grows v = record {
  reports = v.reports;
  appended = ap (λ (s : Checker). s.diagnostics) v.state;
  out_of_range = ap (λ (s : Checker). s.out_of_range) v.state;
}

declare_records-Grows : (ts : List TopLevel) (c : Checker) → Grows c (declare_records ts c)
unfolding declare_records
declare_records-Grows [] c = same-Grows refl refl
declare_records-Grows (record_decl r ∷ ts) c =
    then-Grows (same-Grows refl refl) (declare_records-Grows ts _)
declare_records-Grows (function_decl f ∷ ts) c = declare_records-Grows ts c
declare_records-Grows (import_decl sp p ∷ ts) c = declare_records-Grows ts c
declare_records-Grows (module_decl sp p ∷ ts) c = declare_records-Grows ts c
declare_records-Grows (statement s ∷ ts) c = declare_records-Grows ts c

lay_fields-Grows :
    (fs : List RecordField) (l : Layout) (c : Checker) → Grows c (lay_fields fs l c).1
unfolding lay_fields lay_field
lay_fields-Grows [] l c = same-Grows refl refl
lay_fields-Grows (f ∷ fs) l c =
    then-Grows (visit-Grows (measure_field-Visit f c)) (lay_fields-Grows fs _ _)

lay_record-Grows : (r : RecordDecl) (c : Checker) → Grows c (lay_record r c)
unfolding lay_record
lay_record-Grows r c = then-Grows (lay_fields-Grows r.fields _ c) (same-Grows refl refl)

lay_records-Grows : (ts : List TopLevel) (c : Checker) → Grows c (lay_records ts c)
unfolding lay_records
lay_records-Grows [] c = same-Grows refl refl
lay_records-Grows (record_decl r ∷ ts) c =
    then-Grows (lay_record-Grows r c) (lay_records-Grows ts _)
lay_records-Grows (function_decl f ∷ ts) c = lay_records-Grows ts c
lay_records-Grows (import_decl sp p ∷ ts) c = lay_records-Grows ts c
lay_records-Grows (module_decl sp p ∷ ts) c = lay_records-Grows ts c
lay_records-Grows (statement s ∷ ts) c = lay_records-Grows ts c

declare_function-Grows : (f : FunctionDecl) (c : Checker) → Grows c (declare_function f c)
unfolding declare_function
declare_function-Grows f c =
    let start = record c { generics = f.generic_params } in
    let v = visit-Grows (
      both (param_types-Visit f.params start)
        (both (annotated_type-Visit f.return_type f.span _ _) (report_if-Visit _ _ _ _ _ _))) in
    record { reports = v.reports; appended = v.appended; out_of_range = v.out_of_range }

declare_functions-Grows : (ts : List TopLevel) (c : Checker) → Grows c (declare_functions ts c)
unfolding declare_functions
declare_functions-Grows [] c = same-Grows refl refl
declare_functions-Grows (function_decl f ∷ ts) c =
    then-Grows (declare_function-Grows f c) (declare_functions-Grows ts _)
declare_functions-Grows (record_decl r ∷ ts) c = declare_functions-Grows ts c
declare_functions-Grows (import_decl sp p ∷ ts) c = declare_functions-Grows ts c
declare_functions-Grows (module_decl sp p ∷ ts) c = declare_functions-Grows ts c
declare_functions-Grows (statement s ∷ ts) c = declare_functions-Grows ts c

declarations-Grows : (ts : List TopLevel) (c : Checker) → Grows c (declarations ts c)
unfolding declarations
declarations-Grows ts c =
    then-Grows (then-Grows (same-Grows refl refl) (declare_records-Grows ts _))
      (then-Grows (lay_records-Grows ts _) (declare_functions-Grows ts _))

-- Where no two functions of a program have the same name, and none is declared inside another or
-- inside a block, the parameters that the check reads of a signature are all there.
pub check_program-out_of_range :
    (ts : List TopLevel) (items : List Diagnostic)
    → AreDistinct ts
    → All IsFlatTop ts
    → (check_program ts items).1.out_of_range ≡ false
unfolding check_program start_checker declarations
check_program-out_of_range ts items h k =
    (check_tops-Fixed ts (declarations ts (start_checker items)) k
      (declare_functions-IsSigned ts _ h)).out_of_range
    ∙ (declarations-Grows ts (start_checker items)).out_of_range
