-- ===== src/TypeChecker/Builtins.antt =====
-- The builtin calls of `checkExpr` (Compiler/type_checker.cpp): which callee is which, and what is done
-- with a call once its arguments have been visited.
use noe_code.Prelude.{
  ℕ, Bool, true, false, not, ◌&&◌, ◌||◌, List, [], ◌∷◌, ◌++◌, none, some, Text, codes, text_eq,
  find_text, length, ltb, ◌==◌, if◌then◌else◌,
}
use noe_code.Types.{
  TypeKind, Ty, no_ty, some_ty, kind, kind_eq, is_integer, size, simple_type, unknown, void, bool,
  u64, usize, string, pointer, array, slice,
}
use noe_code.Types.Names.{strip, slice_of}
use noe_code.Types.Printing.{ty_name}
use noe_code.Ast.{Span, Exprs, no_exprs, more_exprs, CallInfo}
use noe_code.Parser.Statements.{expr_span}
use noe_code.TypeChecker.State.{
  Checker, Typed, TypedCall, typed_call, FunctionType, report, report_if,
}
use noe_code.TypeChecker.Literals.{literal_string, can_assign_value}
use noe_code.TypeChecker.Generics.{Bindings, bind_generic, count}
use noe_code.TypeChecker.Operators.{is_kind, integer_or_unknown, target_of, element_of}

-- `s.find(part)!=std::string::npos`
unfoldable pub has_part : Text → Text → Bool
has_part part [] = elim (strip part []) [ some _ ↦ true | none ↦ false ]
has_part part (c ∷ s) = elim (strip part (c ∷ s)) [ some _ ↦ true | none ↦ has_part part s ]

-- What a call is, by the name of its callee.
pub data Callee : Type 0 where
  unnamed service len make_slice atomic fence assembly intrinsic function : Callee

abbrev pub callees : List (Text × Callee)
callees =
    (codes "", unnamed)
    ∷ (codes "host", service)
    ∷ (codes "abi", service)
    ∷ (codes "len", len)
    ∷ (codes "slice", make_slice)
    ∷ (codes "atomic.load", atomic)
    ∷ (codes "atomicLoad", atomic)
    ∷ (codes "atomic.store", atomic)
    ∷ (codes "atomicStore", atomic)
    ∷ (codes "atomic.exchange", atomic)
    ∷ (codes "atomicExchange", atomic)
    ∷ (codes "atomic.compareExchange", atomic)
    ∷ (codes "atomicCompareExchange", atomic)
    ∷ (codes "atomic.fence", fence)
    ∷ (codes "atomicFence", fence)
    ∷ (codes "asm", assembly)
    ∷ (codes "intrinsic", intrinsic)
    ∷ []

unfoldable pub callee_of : Text → Callee
unfolding find_text
callee_of x = elim (find_text callees x) [ some k ↦ k | none ↦ function ]

unfoldable pub is_store : Text → Bool
unfolding has_part
is_store x = has_part (codes "store") x || has_part (codes "Store") x

-- The number of arguments of an atomic operation.
unfoldable pub atomic_count : Text → ℕ
unfolding has_part
atomic_count x =
    if has_part (codes "compare") x || has_part (codes "Compare") x
    then 3
    else if is_store x || has_part (codes "exchange") x || has_part (codes "Exchange") x
    then 2
    else 1

-- A call that gives no type that is known, with a report.
unfoldable pub refuse : Text → Span → Text → Exprs → CallInfo → Checker → TypedCall
unfolding simple_type
refuse code sp message args info c =
    typed_call args info (simple_type unknown) (report code sp message (codes "") c)

unfoldable pub check_service_name : Typed → Checker
unfolding kind kind_eq
check_service_name r =
    report_if (not (is_kind string r.type || is_kind unknown r.type)) (codes "NOE-T3016")
      (expr_span r.expr) (codes "service name must be a string") (codes "") r.state

-- `len(e)`
unfoldable pub finish_len : Typed → CallInfo → TypedCall
unfolding kind kind_eq count simple_type
finish_len r info =
    typed_call (more_exprs r.expr no_exprs)
      (if is_kind array r.type then record info { builtin_count = count r.type } else info)
      (simple_type usize)
      (report_if (not (is_kind array r.type || is_kind slice r.type)) (codes "NOE-T3041")
        (expr_span r.expr) (codes "len expects an array or slice") (codes "") r.state)

-- `slice(array)`
unfoldable pub slice_array : Span → Typed → CallInfo → TypedCall
unfolding count size
slice_array sp r info = elim (element_of array r.type) [
  | no_ty ↦
      refuse (codes "NOE-T3042") sp (codes "slice(array) expects a fixed array")
        (more_exprs r.expr no_exprs) info r.state
  | some_ty e ↦
      typed_call (more_exprs r.expr no_exprs)
        (record info { builtin_count = count r.type; builtin_width = size e }) (slice_of e) r.state
]

-- `slice(pointer, length)`
unfoldable pub slice_pointer : Typed → Typed → CallInfo → TypedCall
unfolding size is_integer kind kind_eq
slice_pointer p n info = elim (target_of p.type) [
  | no_ty ↦
      refuse (codes "NOE-T3043") (expr_span p.expr)
        (codes "slice(pointer, length) expects a pointer")
        (more_exprs p.expr (more_exprs n.expr no_exprs)) info n.state
  | some_ty t ↦
      typed_call (more_exprs p.expr (more_exprs n.expr no_exprs))
        (record info { builtin_width = size t }) (slice_of t)
        (report_if (not (integer_or_unknown n.type)) (codes "NOE-T3044") (expr_span n.expr)
          (codes "slice length must be an integer") (codes "") n.state)
]

-- The value that an atomic operation works on: it is reported if it is too large or of a wrong kind.
unfoldable pub check_atomic_value : Ty → Typed → Checker
unfolding is_integer kind kind_eq size
check_atomic_value t p =
    report_if (not (is_integer t || is_kind pointer t || is_kind bool t) || ltb 8 (size t))
      (codes "NOE-T3048") (expr_span p.expr)
      (codes "atomic values must be integer, bool or pointer sized at most 8 bytes") (codes "")
      p.state

unfoldable pub atomic_result : Text → Ty → Ty
unfolding simple_type
atomic_result x t = if is_store x then simple_type void else t

-- `asm(e)`
unfoldable pub check_assembly : Span → Exprs → CallInfo → Checker → TypedCall
unfolding simple_type
check_assembly sp (more_exprs e no_exprs) info c = elim (literal_string e) [
  | some s ↦
      typed_call (more_exprs e no_exprs) (record info { builtin_text = s }) (simple_type void) c
  | none ↦ typed_call (more_exprs e no_exprs) info (simple_type void) (
      report (codes "NOE-T3051") sp (codes "asm expects one string literal instruction") (codes "")
        c)
]
check_assembly sp args info c = typed_call args info (simple_type void) (
    report (codes "NOE-T3051") sp (codes "asm expects one string literal instruction") (codes "") c)

abbrev pub intrinsics : List (Text × TypeKind)
intrinsics =
    (codes "x86.rdtsc", u64)
    ∷ (codes "x86.pause", void)
    ∷ (codes "x86.halt", void)
    ∷ (codes "compiler.fence", void)
    ∷ []

-- An intrinsic by its name, once the other arguments have been visited.
unfoldable pub finish_intrinsic : Span → Text → Exprs → CallInfo → Checker → TypedCall
unfolding find_text simple_type
finish_intrinsic sp x args info c = elim (find_text intrinsics x) [
  | some k ↦ typed_call args (record info { builtin_text = x }) (simple_type k) c
  | none ↦
      refuse (codes "NOE-T3053") sp (codes "unknown intrinsic '" ++ x ++ codes "'") args
        (record info { builtin_text = x }) c
]

unfoldable pub check_count : Span → Text → FunctionType → ℕ → Checker → Checker
unfolding text_eq
check_count sp x sig n c =
    report_if (not (text_eq x (codes "print")) && not (n == length sig.params)) (codes "NOE-T3012")
      sp (codes "wrong argument count for '" ++ x ++ codes "'") (codes "") c

-- An argument against its parameter; the parameters bound by the call so far go along.
unfoldable pub check_argument : FunctionType → Ty → Typed → Bindings → Bindings × Checker
check_argument sig expected r bs = elim sig.generic_params [
  | [] ↦ (
    bs,
    report_if (not (can_assign_value expected r.type (some r.expr))) (codes "NOE-T3013")
        (expr_span r.expr)
        (codes "argument type mismatch: expected "
          ++ ty_name expected
          ++ codes ", found "
          ++ ty_name r.type)
        (codes "") r.state,
  )
  | _ ∷ _ ↦
      let b = bind_generic expected r.type bs in
      (
        b.1,
        report_if (not b.0) (codes "NOE-T3054") (expr_span r.expr)
            (codes "generic argument does not match parameter " ++ ty_name expected) (codes "")
            r.state,
      )
]
