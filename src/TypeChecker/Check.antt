-- ===== src/TypeChecker/Check.antt =====
-- `TypeChecker::check` (Compiler/type_checker.cpp): records, signatures, and then every statement.
use noe_code.Prelude.{
  Bool, true, false, List, [], ◌∷◌, ◌++◌, none, some, Text, codes, find_text, if◌then◌else◌,
}
use noe_code.Types.{Ty, simple_type, default_type, unknown, void, i64, usize, string}
use noe_code.Ast.{Diagnostic, Parameter, FunctionDecl, TopLevel, function_decl, statement}
use noe_code.Lifetime.Sets.{put_text}
use noe_code.Lifetime.Check.{no_errors}
use noe_code.TypeChecker.State.{Checker, FunctionType, report_if, start_checker}
use noe_code.TypeChecker.Statements.{
  annotated_type, signature_of, enter_function, leave_function, check_stmts, check_stmt,
}
use noe_code.TypeChecker.Layout.{declare_records, lay_records}

abbrev pub builtin : List Ty → Ty → FunctionType
builtin params result = record { params = params; result = result; generic_params = [] }

unfoldable pub builtin_functions : List (Text × FunctionType)
unfolding simple_type
builtin_functions =
    (codes "print", builtin (simple_type unknown ∷ []) (simple_type void))
    ∷ (codes "clockMillis", builtin [] (simple_type i64))
    ∷ (codes "platform", builtin [] (simple_type string))
    ∷ (codes "textLength", builtin (simple_type string ∷ []) (simple_type usize))
    ∷ []

unfoldable pub param_types : List Parameter → Checker → List Ty × Checker
unfolding simple_type
param_types [] c = ([], c)
param_types (p ∷ ps) c =
    let t = annotated_type p.annotation p.span (simple_type unknown) c in
    let q = param_types ps t.1 in (t.0 ∷ q.0, q.1)

unfoldable pub is_declared : Text → Checker → Bool
unfolding find_text
is_declared x c = elim (find_text c.functions x) [ some _ ↦ true | none ↦ false ]

-- The signature of a function is entered, also where the name has one already.
unfoldable pub declare_function : FunctionDecl → Checker → Checker
unfolding put_text simple_type
declare_function f c =
    let params = param_types f.params (record c { generics = f.generic_params }) in
    let result = annotated_type f.return_type f.span (simple_type void) params.1 in
    let c₃ =
      report_if (is_declared f.name c) (codes "NOE-T3021") f.span
        (codes "function '" ++ f.name ++ codes "' is already declared") (codes "") result.1 in
    record c₃ {
      functions =
          put_text c₃.functions f.name
            (record { params = params.0; result = result.0; generic_params = f.generic_params });
      generics = [];
    }

unfoldable pub declare_functions : List TopLevel → Checker → Checker
declare_functions [] c = c
declare_functions (function_decl f ∷ ts) c = declare_functions ts (declare_function f c)
declare_functions (t ∷ ts) c = declare_functions ts c

unfoldable pub check_function : FunctionDecl → Checker → FunctionDecl × Checker
check_function f c =
    let s = signature_of f.name c in
    let r = check_stmts f.body (enter_function s.0 f.generic_params f.params s.1) in
    if f.is_extern then (f, s.1) else (record f { body = r.0 }, leave_function s.1 r.1)

unfoldable pub check_top : TopLevel → Checker → TopLevel × Checker
check_top (function_decl f) c = let r = check_function f c in (function_decl r.0, r.1)
check_top (statement s) c = let r = check_stmt s c in (statement r.0, r.1)
check_top t c = (t, c)

unfoldable pub check_tops : List TopLevel → Checker → List TopLevel × Checker
check_tops [] c = ([], c)
check_tops (t ∷ ts) c = let r = check_top t c in let q = check_tops ts r.1 in (r.0 ∷ q.0, q.1)

-- The state in front of the statements.
unfoldable pub declarations : List TopLevel → Checker → Checker
declarations ts c =
    declare_functions ts (
      lay_records ts
        (declare_records ts (record c { functions = builtin_functions; records = [] })))

-- `TypeChecker::check` of a new checker: the program with what the checker filled in, the state, and
-- whether there are no diagnostics at all.
unfoldable pub check_program : List TopLevel → List Diagnostic → List TopLevel × Checker × Bool
unfolding noe_code.TypeChecker.State.report noe_code.TypeChecker.State.report_if
    noe_code.TypeChecker.State.push_scope noe_code.TypeChecker.State.pop_scope
    noe_code.TypeChecker.State.add_innermost noe_code.TypeChecker.State.find_innermost
    noe_code.TypeChecker.State.define noe_code.TypeChecker.State.lookup
    noe_code.TypeChecker.State.resolve noe_code.TypeChecker.State.is_const_symbol
    noe_code.TypeChecker.State.start_checker noe_code.TypeChecker.Literals.literal_string
    noe_code.TypeChecker.Literals.negated noe_code.TypeChecker.Literals.signed
    noe_code.TypeChecker.Literals.integer_literal noe_code.TypeChecker.Literals.literal_fits_integer
    noe_code.TypeChecker.Literals.literal_fits noe_code.TypeChecker.Literals.can_assign_value
    noe_code.TypeChecker.Literals.literal_type noe_code.TypeChecker.Resolve.record_name
    noe_code.TypeChecker.Resolve.with_layout noe_code.TypeChecker.Resolve.resolve_name
    noe_code.TypeChecker.Resolve.array_count noe_code.TypeChecker.Resolve.resolve_from
    noe_code.TypeChecker.Resolve.resolve_type noe_code.TypeChecker.Resolve.object_type
    noe_code.TypeChecker.Resolve.find_field noe_code.TypeChecker.Resolve.resolve_field
    noe_code.TypeChecker.Generics.element noe_code.TypeChecker.Generics.count
    noe_code.TypeChecker.Generics.bind_name noe_code.TypeChecker.Generics.bind_generic
    noe_code.TypeChecker.Generics.substitute_generic noe_code.TypeChecker.Operators.target_of
    noe_code.TypeChecker.Operators.element_of noe_code.TypeChecker.Operators.known_namespace
    noe_code.TypeChecker.Operators.check_name noe_code.TypeChecker.Operators.is_place
    noe_code.TypeChecker.Operators.check_try noe_code.TypeChecker.Operators.check_star
    noe_code.TypeChecker.Operators.check_unary noe_code.TypeChecker.Operators.member_info
    noe_code.TypeChecker.Operators.check_member noe_code.TypeChecker.Operators.index_type
    noe_code.TypeChecker.Operators.check_index noe_code.TypeChecker.Operators.can_cast
    noe_code.TypeChecker.Operators.check_cast noe_code.TypeChecker.Binary.check_const
    noe_code.TypeChecker.Binary.check_assign noe_code.TypeChecker.Binary.arithmetic_operands
    noe_code.TypeChecker.Binary.check_arithmetic noe_code.TypeChecker.Binary.joins_strings
    noe_code.TypeChecker.Binary.moves_pointer noe_code.TypeChecker.Binary.check_plus
    noe_code.TypeChecker.Binary.operator_class noe_code.TypeChecker.Binary.check_class
    noe_code.TypeChecker.Binary.check_binary noe_code.TypeChecker.Builtins.has_part
    noe_code.TypeChecker.Builtins.callee_of noe_code.TypeChecker.Builtins.is_store
    noe_code.TypeChecker.Builtins.atomic_count noe_code.TypeChecker.Builtins.refuse
    noe_code.TypeChecker.Builtins.check_service_name noe_code.TypeChecker.Builtins.finish_len
    noe_code.TypeChecker.Builtins.slice_array noe_code.TypeChecker.Builtins.slice_pointer
    noe_code.TypeChecker.Builtins.check_atomic_value noe_code.TypeChecker.Builtins.atomic_result
    noe_code.TypeChecker.Builtins.check_assembly noe_code.TypeChecker.Builtins.finish_intrinsic
    noe_code.TypeChecker.Builtins.check_count noe_code.TypeChecker.Builtins.check_argument
    noe_code.TypeChecker.Expressions.check_next noe_code.TypeChecker.Expressions.check_expr
    noe_code.TypeChecker.Statements.annotated_type noe_code.TypeChecker.Statements.check_let
    noe_code.TypeChecker.Statements.check_condition noe_code.TypeChecker.Statements.check_return
    noe_code.TypeChecker.Statements.check_throw noe_code.TypeChecker.Statements.signature_of
    noe_code.TypeChecker.Statements.define_params noe_code.TypeChecker.Statements.enter_function
    noe_code.TypeChecker.Statements.leave_function noe_code.TypeChecker.Statements.check_stmt
    noe_code.TypeChecker.Layout.round_up noe_code.TypeChecker.Layout.place_field
    noe_code.TypeChecker.Layout.field_extent noe_code.TypeChecker.Layout.measure_field
    noe_code.TypeChecker.Layout.lay_field noe_code.TypeChecker.Layout.lay_fields
    noe_code.TypeChecker.Layout.finish_record noe_code.TypeChecker.Layout.fields_so_far
    noe_code.TypeChecker.Layout.lay_record noe_code.TypeChecker.Layout.declare_records
    noe_code.TypeChecker.Layout.lay_records builtin_functions param_types is_declared
    declare_function declare_functions check_function check_top check_tops declarations
    noe_code.Types.ty_eq noe_code.Types.can_assign noe_code.Types.Printing.ty_name
    noe_code.Types.Printing.is_numeric noe_code.Types.Names.type_from_name
    noe_code.Types.Names.array_parts noe_code.Types.Names.pointer_part noe_code.Types.Names.strip
    noe_code.Lower.Expressions.callee_name noe_code.Lower.Calls.count_exprs
    noe_code.Safety.Annotator.holds_name noe_code.Types.size noe_code.Types.alignment
check_program ts items =
    let r = check_tops ts (declarations ts (start_checker items)) in
    (r.0, r.1, no_errors r.1.diagnostics)
