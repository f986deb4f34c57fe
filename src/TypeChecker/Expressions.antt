-- ===== src/TypeChecker/Expressions.antt =====
-- `TypeChecker::checkExpr` (Compiler/type_checker.cpp).
use noe_code.Prelude.{
  suc, true, false, not, List, [], ◌∷◌, ◌++◌, Option, none, some, Text, codes, find_text, ◌==◌,
}
use noe_code.Types.{Ty, no_ty, some_ty, simple_type, unknown, void, usize, size}
use noe_code.Types.Names.{array_of}
use noe_code.Ast.{
  Span, Expr, Exprs, no_exprs, more_exprs, literal, name, unary, binary, call, cast, index, member,
  array, CallInfo,
}
use noe_code.Parser.Statements.{expr_span}
use noe_code.Lower.Calls.{count_exprs}
use noe_code.Lower.Expressions.{callee_name}
use noe_code.TypeChecker.State.{
  Checker, Typed, TypedCall, typed, typed_call, FunctionType, report, report_if,
}
use noe_code.TypeChecker.Literals.{literal_string, literal_type, can_assign_value}
use noe_code.TypeChecker.Generics.{Bindings, substitute_generic}
use noe_code.TypeChecker.Operators.{
  check_name, check_unary, check_member, check_index, check_cast, width_of, target_of,
}
use noe_code.TypeChecker.Binary.{check_binary}
use noe_code.TypeChecker.Builtins.{
  unnamed, service, len, make_slice, atomic, fence, assembly, intrinsic, function, callee_of,
  atomic_count, atomic_result, refuse, check_service_name, finish_len, slice_array, slice_pointer,
  check_atomic_value, check_assembly, finish_intrinsic, check_count, check_argument,
}

abbrev pub rebuild_call : Span → Expr → TypedCall → Typed
rebuild_call sp callee r = typed (call sp callee r.args r.info) r.type r.state

-- The next parameter, and the parameters behind it.
abbrev pub next_param : List Ty → Option Ty × List Ty
next_param [] = (none, [])
next_param (t ∷ ts) = (some t, ts)

-- An argument beyond the last parameter is checked against nothing.
unfoldable pub check_next : FunctionType → Option Ty → Typed → Bindings → Bindings × Checker
check_next sig none r bs = (bs, r.state)
check_next sig (some expected) r bs = check_argument sig expected r bs

unfoldable mutual
  unfolding simple_type size find_text

  pub check_expr : Expr → Checker → Typed
  check_expr (literal sp v) c = typed (literal sp v) (literal_type v) c
  check_expr (array sp no_exprs w) c = typed (array sp no_exprs w) (simple_type unknown) (
      report (codes "NOE-T3034") sp
        (codes "cannot infer the element type of an empty array literal")
        (codes "add a typed non-empty initializer") c)
  check_expr (array sp (more_exprs e es) w) c =
      let r = check_expr e c in
      let q =
        check_against r.type (codes "NOE-T3035")
          (codes "array literal elements must have one compatible type") es r.state in
      typed (array sp (more_exprs r.expr q.0) (width_of r.type))
        (array_of r.type (suc (count_exprs es))) q.1
  check_expr (name sp x) c = check_name sp x c
  check_expr (unary sp op e w v) c = let r = check_expr e c in check_unary sp op r w v
  check_expr (member sp o m info) c = let r = check_expr o c in check_member sp r m info
  check_expr (index sp o i info) c =
      let r = check_expr o c in let q = check_expr i r.state in check_index sp r q info
  check_expr (cast sp e t) c = let r = check_expr e c in check_cast sp r t
  check_expr (binary sp l op r) c =
      let a = check_expr l c in let b = check_expr r a.state in check_binary sp op a b
  check_expr (call sp callee args info) c =
      let x = callee_name callee in
      rebuild_call sp callee (elim (callee_of x) [
        | unnamed ↦
            refuse (codes "NOE-T3010") sp
              (codes "only named functions and simple namespaces are callable") args info c
        | service ↦ check_service x sp args info c
        | len ↦ check_len sp args info c
        | make_slice ↦ check_slice sp args info c
        | atomic ↦ elim (count_exprs args == atomic_count x) [
          | true ↦ check_atomic x sp args info c
          | false ↦
              refuse (codes "NOE-T3046") sp (codes "wrong argument count for atomic operation") args
                info c
        ]
        | fence ↦ typed_call args info (simple_type void) (
            report_if (not (count_exprs args == 0)) (codes "NOE-T3050") sp
              (codes "atomic fence takes no arguments") (codes "") c)
        | assembly ↦ check_assembly sp args info c
        | intrinsic ↦ check_intrinsic sp args info c
        | function ↦ elim (find_text c.functions x) [
          | none ↦
              refuse (codes "NOE-T3011") sp (codes "unknown function '" ++ x ++ codes "'") args info
                c
          | some sig ↦
              let q =
                check_args sig sig.params [] args (check_count sp x sig (count_exprs args) c) in
              typed_call q.0 info (substitute_generic sig.result q.1) q.2
        ]
      ])

  -- `for(...)checkExpr(e->args[i]);`
  pub check_all : Exprs → Checker → Exprs × Checker
  check_all no_exprs c = (no_exprs, c)
  check_all (more_exprs e es) c =
      let r = check_expr e c in let q = check_all es r.state in (more_exprs r.expr q.0, q.1)

  -- Every expression is to be assignable to one type.
  pub check_against : Ty → Text → Text → Exprs → Checker → Exprs × Checker
  check_against t code message no_exprs c = (no_exprs, c)
  check_against t code message (more_exprs e es) c =
      let r = check_expr e c in
      let q = check_against t code message es (
        report_if (not (can_assign_value t r.type (some r.expr))) code (expr_span r.expr) message
          (codes "") r.state) in
      (more_exprs r.expr q.0, q.1)

  -- The arguments of a function, against the parameters that are left.
  pub check_args : FunctionType → List Ty → Bindings → Exprs → Checker → Exprs × Bindings × Checker
  check_args sig ts bs no_exprs c = (no_exprs, bs, c)
  check_args sig ts bs (more_exprs e es) c =
      let r = check_expr e c in
      let b = check_next sig (next_param ts).0 r bs in
      let q = check_args sig (next_param ts).1 b.0 es b.1 in (more_exprs r.expr q.0, q.1, q.2)

  -- `host(...)` and `abi(...)`
  pub check_service : Text → Span → Exprs → CallInfo → Checker → TypedCall
  check_service x sp no_exprs info c =
      refuse (codes "NOE-T3015") sp (x ++ codes " requires a service name") no_exprs info c
  check_service x sp (more_exprs e es) info c =
      let r = check_expr e c in
      let q = check_all es (check_service_name r) in
      typed_call (more_exprs r.expr q.0) info (simple_type unknown) q.1

  pub check_len : Span → Exprs → CallInfo → Checker → TypedCall
  check_len sp (more_exprs e no_exprs) info c = let r = check_expr e c in finish_len r info
  check_len sp args info c =
      typed_call args info (simple_type usize) (
        report (codes "NOE-T3040") sp (codes "len expects exactly one array or slice") (codes "") c)

  pub check_slice : Span → Exprs → CallInfo → Checker → TypedCall
  check_slice sp (more_exprs e no_exprs) info c = let r = check_expr e c in slice_array sp r info
  check_slice sp (more_exprs e (more_exprs n no_exprs)) info c =
      let r = check_expr e c in let q = check_expr n r.state in slice_pointer r q info
  check_slice sp args info c =
      refuse (codes "NOE-T3045") sp (codes "slice expects either an array or pointer plus length")
        args info c

  -- With the right number of arguments.
  pub check_atomic : Text → Span → Exprs → CallInfo → Checker → TypedCall
  check_atomic x sp no_exprs info c = typed_call no_exprs info (simple_type unknown) c
  check_atomic x sp (more_exprs e es) info c =
      let p = check_expr e c in
      elim (target_of p.type) [
        | no_ty ↦
            refuse (codes "NOE-T3047") (expr_span p.expr)
              (codes "atomic operation requires a pointer") (more_exprs p.expr es) info p.state
        | some_ty t ↦
            let q =
              check_against t (codes "NOE-T3049") (codes "atomic value type mismatch") es
                (check_atomic_value t p) in
            typed_call (more_exprs p.expr q.0) (record info { builtin_width = width_of t })
              (atomic_result x t) q.1
      ]

  pub check_intrinsic : Span → Exprs → CallInfo → Checker → TypedCall
  check_intrinsic sp no_exprs info c =
      refuse (codes "NOE-T3052") sp (codes "intrinsic expects a string literal intrinsic name")
        no_exprs info c
  check_intrinsic sp (more_exprs e es) info c = elim (literal_string e) [
    | none ↦
        refuse (codes "NOE-T3052") sp (codes "intrinsic expects a string literal intrinsic name")
          (more_exprs e es) info c
    | some x ↦ let q = check_all es c in finish_intrinsic sp x (more_exprs e q.0) info q.1
  ]
