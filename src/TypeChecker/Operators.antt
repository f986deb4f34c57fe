-- ===== src/TypeChecker/Operators.antt =====
-- What `checkExpr` (Compiler/type_checker.cpp) does with an expression that is no call, once its parts
-- have been visited.
use noe_code.Prelude.{
  ℕ, Bool, true, false, not, ◌&&◌, ◌||◌, Option, none, some, ◌++◌, Text, codes, text_eq, find_text,
  max, if◌then◌else◌,
}
use noe_code.Types.{
  TypeKind, Ty, OptTy, no_ty, some_ty, mk_ty, kind, kind_eq, pointee, is_integer, size, simple_type,
  unknown, null, bool, isize, usize, int, pointer, array, slice, generic,
}
use noe_code.Types.Names.{pointer_to}
use noe_code.Types.Printing.{ty_name, is_numeric}
use noe_code.Ast.{TokenKind, Span, Expr, name, unary, cast, index, member, IndexInfo, MemberInfo}
use noe_code.Parser.Statements.{expr_span}
use noe_code.TypeChecker.State.{Checker, Typed, typed, report, report_if, resolve, LaidField}
use noe_code.TypeChecker.Resolve.{resolve_type, resolve_field}
use noe_code.TypeChecker.Generics.{element}

abbrev pub is_kind : TypeKind → Ty → Bool
is_kind k t = kind_eq (kind t) k

-- An integer, or a type that is not known.
abbrev pub integer_or_unknown : Ty → Bool
integer_or_unknown t = is_integer t || is_kind unknown t

abbrev pub is_volatile : Ty → Bool
is_volatile (mk_ty k rn gn p e n rs ra v) = v

-- `std::max<std::size_t>(1,t.size())`
abbrev pub width_of : Ty → ℕ
width_of t = max 1 (size t)

-- The target of a pointer type; none if the type is no pointer or its target is not known.
unfoldable pub target_of : Ty → OptTy
unfolding kind kind_eq pointee
target_of t = if kind_eq (kind t) pointer then pointee t else no_ty

-- The element type, where the type is of the kind `k`.
unfoldable pub element_of : TypeKind → Ty → OptTy
unfolding kind kind_eq element
element_of k t = if kind_eq (kind t) k then element t else no_ty

unfoldable pub known_namespace : Text → Bool
unfolding text_eq
known_namespace x = text_eq x (codes "host") || text_eq x (codes "abi")

abbrev pub is_some {ℓ} : {A : Type ℓ} → Option A → Bool
is_some none = false
is_some (some a) = true

unfoldable pub check_name : Span → Text → Checker → Typed
unfolding find_text simple_type
check_name sp x c = elim (resolve x c) [
  | some t ↦ typed (name sp x) t c
  | none ↦ typed (name sp x) (simple_type unknown) (
      report_if (not (is_some (find_text c.functions x) || known_namespace x)) (codes "NOE-T3002")
        sp (codes "unknown symbol '" ++ x ++ codes "'") (codes "") c)
]

unfoldable pub is_place : Expr → Bool
is_place (name sp x) = true
is_place (member sp o m info) = true
is_place (index sp o i info) = true
is_place (unary sp TokenKind.star e w v) = true
is_place _ = false

unfoldable pub check_try : Span → Typed → ℕ → Bool → Typed
unfolding is_integer kind kind_eq
check_try sp r w v =
    let c₁ =
      report_if (not r.state.inside_function) (codes "NOE-T3036") sp
        (codes "try is only valid inside a function") (codes "") r.state in
    let c₂ =
      report_if (not (integer_or_unknown r.type)) (codes "NOE-T3037") sp
        (codes "try expects an integer status value") (codes "") c₁ in
    let c₃ =
      report_if (not (integer_or_unknown r.state.current_return)) (codes "NOE-T3038") sp
        (codes "try propagation requires an integer-returning function") (codes "") c₂ in
    typed (unary sp TokenKind.try r.expr w v) r.type c₃

unfoldable pub check_star : Span → Typed → ℕ → Bool → Typed
unfolding simple_type size
check_star sp r w v = elim (target_of r.type) [
  | no_ty ↦
      typed (unary sp TokenKind.star r.expr w v) (simple_type unknown)
        (report (codes "NOE-T3023") sp (codes "dereference requires a pointer") (codes "") r.state)
  | some_ty t ↦ typed (unary sp TokenKind.star r.expr (width_of t) (is_volatile r.type)) t r.state
]

unfoldable pub check_unary : Span → TokenKind → Typed → ℕ → Bool → Typed
unfolding simple_type kind kind_eq
check_unary sp TokenKind.try r w v = check_try sp r w v
check_unary sp TokenKind.ampersand r w v =
    typed (unary sp TokenKind.ampersand r.expr w v) (pointer_to false r.type) (
      report_if (not (is_place r.expr)) (codes "NOE-T3022") sp
        (codes "address-of requires an addressable value") (codes "") r.state)
check_unary sp TokenKind.star r w v = check_star sp r w v
check_unary sp TokenKind.bang r w v =
    typed (unary sp TokenKind.bang r.expr w v) (simple_type bool) (
      report_if (not (is_kind bool r.type || is_kind unknown r.type)) (codes "NOE-T3006") sp
        (codes "operator ! requires bool") (codes "") r.state)
check_unary sp op r w v = typed (unary sp op r.expr w v) r.type (
    report_if (not (is_numeric r.type || is_kind unknown r.type || is_kind generic r.type))
      (codes "NOE-T3006") sp (codes "numeric unary operator requires a numeric type") (codes "")
      r.state)

-- `volatileAccess` and `baseIsPointer` are written only below a pointer.
unfoldable pub member_info : Ty → LaidField → MemberInfo → MemberInfo
unfolding kind kind_eq
member_info base f info = record {
  offset = f.offset;
  field_size = f.size;
  volatile_access = if is_kind pointer base then is_volatile base else info.volatile_access;
  base_is_pointer = is_kind pointer base || info.base_is_pointer;
}

unfoldable pub check_member : Span → Typed → Text → MemberInfo → Typed
unfolding simple_type
check_member sp r m info = elim (resolve_field r.type m r.state) [
  | none ↦ typed (member sp r.expr m info) (simple_type unknown) (
      report (codes "NOE-T3024") sp
        (codes "type '" ++ ty_name r.type ++ codes "' has no field '" ++ m ++ codes "'") (codes "")
        r.state)
  | some f ↦
      let t = resolve_type f.field.type_name sp r.state in
      typed (member sp r.expr m (member_info r.type f info)) t.0 t.1
]

-- An index, by the type of its container: the element's type and the fields filled in.
unfoldable pub index_type : Ty → IndexInfo → Option (Ty × IndexInfo)
unfolding size
index_type t info = elim (target_of t) [
  | some_ty p ↦ some (p, record info { element_size = width_of p; volatile_access = is_volatile t })
  | no_ty ↦ elim (element_of array t) [
    | some_ty e ↦ some (e, record info { element_size = width_of e })
    | no_ty ↦ elim (element_of slice t) [
      | some_ty e ↦ some (e, record info { element_size = width_of e; base_is_slice = true })
      | no_ty ↦ none
    ]
  ]
]

-- The container `o` and then the index `i` have been visited.
unfoldable pub check_index : Span → Typed → Typed → IndexInfo → Typed
unfolding is_integer kind kind_eq simple_type
check_index sp o i info =
    let c =
      report_if (not (integer_or_unknown i.type)) (codes "NOE-T3025") (expr_span i.expr)
        (codes "index must be an integer") (codes "") i.state in
    elim (index_type o.type info) [
      | some (t, filled) ↦ typed (index sp o.expr i.expr filled) t c
      | none ↦ typed (index sp o.expr i.expr info) (simple_type unknown) (
          report (codes "NOE-T3026") sp (codes "indexing requires a pointer, array or slice")
            (codes "") c)
    ]

unfoldable pub can_cast : Ty → Ty → Bool
unfolding kind kind_eq
can_cast from to =
    (is_numeric from && is_numeric to)
    || (is_kind pointer from && is_kind pointer to)
    || (is_kind pointer from && (is_kind usize to || is_kind isize to))
    || (is_kind pointer to && (is_kind usize from || is_kind isize from || is_kind int from))
    || (is_kind null from && is_kind pointer to)

unfoldable pub check_cast : Span → Typed → Text → Typed
unfolding kind kind_eq
check_cast sp r target =
    let t = resolve_type target sp r.state in
    typed (cast sp r.expr target) t.0 (
      report_if (not (can_cast r.type t.0 || is_kind unknown r.type || is_kind unknown t.0))
        (codes "NOE-T3027") sp
        (codes "cannot cast " ++ ty_name r.type ++ codes " to " ++ ty_name t.0) (codes "") t.1)
