-- ===== src/TypeChecker/Examples.antt =====
-- The type checker on small programs.
use noe_code.Prelude.{
  ℕ, ◌≡◌, refl, ◌↔◌, ◌⊎◌, true, false, List, [], ◌∷◌, ◌++◌, Option, none, some, Text, codes, map,
  find_text, arith,
}
use noe_code.Prelude.Int.{pos}
use noe_code.Nir.{Value}
use noe_code.Types.{
  TypeKind, ty_eq, kind, simple_type, is_integer, can_assign, integer_signed, integer_bits,
}
use noe_code.Ast.{
  TokenKind, Span, Diagnostic, Expr, no_exprs, more_exprs, name, literal, binary, call, CallInfo,
  Stmt, Stmts, no_stmts, more_stmts, expr_stmt, let_stmt, block_stmt, return_stmt, function_stmt,
  Parameter, RecordField, RecordDecl, TopLevel, function_decl, record_decl,
}
use noe_code.TypeChecker.State.{Checker, LaidField, RecordType}
use noe_code.TypeChecker.Literals.{integer_literal, can_assign_value}
use noe_code.TypeChecker.Expressions.{check_expr}
use noe_code.TypeChecker.Statements.{check_stmt}
use noe_code.TypeChecker.Layout.{lay_record}
use noe_code.TypeChecker.Check.{check_program}
use noe_code.TypeChecker.Known.{names_of, IsKnown}
use noe_code.TypeChecker.Sound.{check_expr-IsKnown}
use noe_code.TypeChecker.Steps.{Step}
use noe_code.TypeChecker.StatementSteps.{check_stmt-Step}
use noe_code.TypeChecker.LiteralRanges.{IsLiteralIn, can_assign_value_iff}
use noe_code.TypeChecker.LayoutBounds.{IsAligned, extents}
use noe_code.TypeChecker.RecordBounds.{IsLaidRecord, lay_record-IsLaidRecord}
use noe_code.TypeChecker.Program.{check_program-out_of_range}

abbrev spot : Span
spot = record { start = 0; end = 0; line = 1; column = 1; source = 0 }

abbrev var : Text → Expr
var x = name spot x

abbrev number : Expr
number = literal spot (Value.int (pos 7))

abbrev plain_call : CallInfo
plain_call = record { builtin_width = 0; builtin_count = 0; builtin_text = codes "" }

abbrev function_of : Text → List Parameter → Option Text → Stmts → TopLevel
function_of x params result body = function_decl (record {
  span = spot;
  name = x;
  generic_params = [];
  params = params;
  return_type = result;
  body = body;
  is_extern = false;
  is_export = false;
})

abbrev field_of : Text → Text → RecordField
field_of x t = record { name = x; type_name = t; span = spot }

abbrev param_of : Text → Text → Parameter
param_of x t = record { name = x; annotation = some t; span = spot }

-- `record P { a: u8; b: i32; c: u16 }`
abbrev sample_decl : RecordDecl
sample_decl = record {
  span = spot;
  name = codes "P";
  fields =
      field_of (codes "a") (codes "u8")
      ∷ field_of (codes "b") (codes "i32")
      ∷ field_of (codes "c") (codes "u16")
      ∷ [];
}

abbrev sample_record : TopLevel
sample_record = record_decl sample_decl

-- `function f(x: i32): i32 { let y: u8 = 7; return g(x) + y; }` for a given `g`.
abbrev caller_of : Text → TopLevel
caller_of g =
    function_of (codes "f") (param_of (codes "x") (codes "i32") ∷ []) (some (codes "i32")) (
      more_stmts (let_stmt spot false (codes "y") (some (codes "u8")) number) (
        more_stmts
          (return_stmt spot (
            some (
              binary spot (call spot (var g) (more_exprs (var (codes "x")) no_exprs) plain_call)
                TokenKind.plus (var (codes "y")))))
          no_stmts))

abbrev codes_of : Checker → List Text
codes_of c = map (λ (d : Diagnostic). d.code) c.diagnostics

accepted : (check_program (sample_record ∷ caller_of (codes "f") ∷ []) []).2 ≡ true
unfolding check_program ty_eq
accepted = refl

unknown_callee : codes_of (check_program (caller_of (codes "g") ∷ []) []).1 ≡ codes "NQR-T3011" ∷ []
unfolding check_program ty_eq
unknown_callee = refl

abbrev placed : RecordField → ℕ → ℕ → LaidField
placed f at size = record { field = f; offset = at; size = size }

layout :
    find_text (check_program (sample_record ∷ []) []).1.records (codes "P")
    ≡ some (record {
      fields =
          placed (field_of (codes "a") (codes "u8")) 0 1
          ∷ placed (field_of (codes "b") (codes "i32")) 4 4
          ∷ placed (field_of (codes "c") (codes "u16")) 8 2
          ∷ [];
      size = 12;
      alignment = 4;
    })
unfolding check_program ty_eq
layout = refl

-- A variable `x` of type `int` in scope.
abbrev ready : Checker
ready = record {
  scopes = ((codes "x", simple_type TypeKind.int) ∷ []) ∷ [];
  const_scopes = ((codes "x", false) ∷ []) ∷ [];
  functions = [];
  records = [];
  generics = [];
  current_return = simple_type TypeKind.void;
  inside_function = false;
  out_of_range = false;
  diagnostics = [];
}

-- `x = 7`
abbrev store : Expr
store = binary spot (var (codes "x")) TokenKind.equal number

check_expr-IsKnown_example :
    (reports : List Diagnostic) × ((check_expr store ready).state
      ≡ record ready { diagnostics = [] ++ reports })
    × (reports ≡ [] → IsKnown (names_of ready) store)
check_expr-IsKnown_example = check_expr-IsKnown store ready

-- `{ let x: u8 = 7; x = 7; }`
abbrev shadowing : Stmt
shadowing =
    block_stmt spot
      (more_stmts (let_stmt spot false (codes "x") (some (codes "u8")) number)
        (more_stmts (expr_stmt spot store) no_stmts))
      false

check_stmt-Step_example : Step ready (check_stmt shadowing ready).1
check_stmt-Step_example = check_stmt-Step shadowing ready

lay_record-IsLaidRecord_example :
    ((t : RecordType) × (find_text (lay_record sample_decl ready).records (codes "P") ≡ some t)
      × IsLaidRecord (extents sample_decl.fields ready) t)
    × IsAligned (lay_record sample_decl ready)
unfolding check_program
lay_record-IsLaidRecord_example = lay_record-IsLaidRecord sample_decl ready tt refl (omega arith)

can_assign_value_iff_example :
    (can_assign_value (simple_type TypeKind.u8) (simple_type TypeKind.int) (some number) ≡ true) ↔ (
      (can_assign (simple_type TypeKind.u8) (simple_type TypeKind.int) ≡ true)
      ⊎ IsLiteralIn (kind (simple_type TypeKind.u8)) number)
unfolding simple_type is_integer integer_literal integer_signed integer_bits
can_assign_value_iff_example =
    can_assign_value_iff (simple_type TypeKind.u8) (simple_type TypeKind.int) number refl refl
      (omega arith, omega arith)

abbrev accepted_program : List TopLevel
accepted_program = sample_record ∷ caller_of (codes "f") ∷ []

abbrev no_items : List Diagnostic
no_items = []

check_program-out_of_range_example : (check_program accepted_program []).1.out_of_range ≡ false
check_program-out_of_range_example =
    check_program-out_of_range accepted_program [] (tt, tt) (tt, ((tt, (tt, tt)), tt))

-- `function f() { function g(x: int) {} }`: the inner function has no signature, and the read of its
-- first parameter is out of range.
abbrev nested_program : List TopLevel
nested_program =
    function_of (codes "f") [] none (
      more_stmts
        (function_stmt
          (record {
            span = spot;
            name = codes "g";
            generic_params = [];
            params = param_of (codes "x") (codes "int") ∷ [];
            return_type = none;
            is_extern = false;
            is_export = false;
          })
          no_stmts)
        no_stmts)
    ∷ []

nested_out_of_range : (check_program nested_program []).1.out_of_range ≡ true
unfolding check_program ty_eq
nested_out_of_range = refl

nested_accepted : (check_program nested_program []).2 ≡ true
unfolding check_program ty_eq
nested_accepted = refl
