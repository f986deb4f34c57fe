-- ===== src/TypeChecker/Sound.antt =====
-- What an expression that the checker accepts refers to (`checkExpr`, Compiler/type_checker.cpp).
use noe_code.Prelude.{
  ◌≡◌, refl, subst, inl, inr, List, [], ◌++◌, Text, find_text, ◌==◌, Bool-cases, Option-cases,
  ==_iff, arith,
}
use noe_code.Ast.{
  Diagnostic, TokenKind, Span, Expr, Exprs, no_exprs, more_exprs, literal, name, unary, binary,
  call, cast, index, member, array, CallInfo,
}
use noe_code.Types.{Ty}
use noe_code.Lower.Expressions.{callee_name}
use noe_code.Lower.Calls.{count_exprs}
use noe_code.TypeChecker.State.{Checker, FunctionType, resolve}
use noe_code.TypeChecker.Literals.{literal_string}
use noe_code.TypeChecker.Generics.{Bindings}
use noe_code.TypeChecker.Operators.{target_of, check_name}
use noe_code.TypeChecker.Builtins.{
  Callee, unnamed, service, len, make_slice, atomic, fence, assembly, intrinsic, function,
  callee_of, atomic_count,
}
use noe_code.TypeChecker.Expressions.{
  check_expr, check_all, check_against, check_args, check_service, check_len, check_slice,
  check_atomic, check_intrinsic, next_param,
}
use noe_code.TypeChecker.Known.{Names, names_of, IsKnown, AreKnown, IsVariable, IsAssignable}
use noe_code.TypeChecker.Visits.{Visit, stay, both, weaken, then_in, report-Visit, report_if-Visit}
use noe_code.TypeChecker.Parts.{
  OptTy-cases, not-false, check_name-Visit, check_unary-Visit, check_member-Visit,
  check_index-Visit, check_cast-Visit, check_binary-Visit,
}
use noe_code.TypeChecker.BuiltinParts.{
  refuse-Visit, check_service_name-Visit, finish_len-Visit, slice_array-Visit, slice_pointer-Visit,
  check_atomic_value-Visit, literal_string-IsKnown, check_assembly-Visit, finish_intrinsic-Visit,
  check_count-Visit, check_next-Visit,
}

-- A step after a visit that leaves the result as it is.
and_then : {P Q : Type 0} {a b c : Checker} → Visit a b P → Visit b c Q → Visit a c P
and_then p q = weaken (λ r. r.0) (both p q)

with_unit : {P : Type 0} → P → P × Unit {0}
with_unit p = (p, tt)

none_given : (n : Names) (es : Exprs) → count_exprs es ≡ 0 → AreKnown n es × (count_exprs es ≡ 0)
unfolding count_exprs
none_given n no_exprs h = (tt, refl)
none_given n (more_exprs e es) h = absurd (omega (arith, h))

name-checked : (sp : Span) (x : Text) (c : Checker) → (check_name sp x c).expr ≡ name sp x
unfolding check_name
name-checked sp x c = elim (Option-cases (resolve x c)) [
  | inl e ↦ rw (e, check_name) refl
  | inr (t, e) ↦ rw (e, check_name) refl
]

-- A name stays what it is when it is checked.
checked-IsVariable :
    (l : Expr) (c : Checker) (n : Names) → IsVariable n (check_expr l c).expr → IsVariable n l
unfolding check_expr
checked-IsVariable (name sp x) c n h = subst (IsVariable n) (name-checked sp x c) h
checked-IsVariable (literal _ _) c n h = tt
checked-IsVariable (unary _ _ _ _ _) c n h = tt
checked-IsVariable (binary _ _ _ _) c n h = tt
checked-IsVariable (call _ _ _ _) c n h = tt
checked-IsVariable (cast _ _ _) c n h = tt
checked-IsVariable (index _ _ _ _) c n h = tt
checked-IsVariable (member _ _ _ _) c n h = tt
checked-IsVariable (array _ _ _) c n h = tt

checked_target :
    (l : Expr) (c : Checker) (op : TokenKind) (n : Names)
    → IsAssignable n op (check_expr l c).expr
    → IsAssignable n op l
checked_target l c TokenKind.equal n h = checked-IsVariable l c n h
checked_target l c _ n h = tt

mutual
  unfolding check_expr

  pub check_expr-Visit :
      (e : Expr) (c : Checker) → Visit c (check_expr e c).state (IsKnown (names_of c) e)
  check_expr-Visit (literal sp v) c = stay c tt
  check_expr-Visit (array sp no_exprs w) c = report-Visit _ _ _ _ c
  check_expr-Visit (array sp (more_exprs e es) w) c =
      then_in (λ n. AreKnown n es) (check_expr-Visit e c) (check_against-Visit _ _ _ es _)
  check_expr-Visit (name sp x) c = check_name-Visit sp x c
  check_expr-Visit (unary sp op e w v) c =
      and_then (check_expr-Visit e c) (check_unary-Visit sp op _ w v)
  check_expr-Visit (member sp o m info) c =
      and_then (check_expr-Visit o c) (check_member-Visit sp _ m info)
  check_expr-Visit (index sp o i info) c =
      and_then (then_in (λ n. IsKnown n i) (check_expr-Visit o c) (check_expr-Visit i _))
        (check_index-Visit sp _ _ info)
  check_expr-Visit (cast sp e t) c = and_then (check_expr-Visit e c) (check_cast-Visit sp _ t)
  check_expr-Visit (binary sp l op r) c =
      weaken (λ p. (p.0.0, p.0.1, p.1))
        (then_in (λ n. IsAssignable n op l)
          (then_in (λ n. IsKnown n r) (check_expr-Visit l c) (check_expr-Visit r _))
          (weaken (checked_target l c op (names_of (check_expr r (check_expr l c).state).state))
            (check_binary-Visit sp op _ _)))
  check_expr-Visit (call sp callee args info) c =
      let x = callee_name callee in
      let Q : Callee → Type 0 = λ k.
        callee_of x ≡ k
        → Visit c (check_expr (call sp callee args info) c).state
            (IsKnown (names_of c) (call sp callee args info)) in
      (elim (callee_of x) as Q [
        | unnamed ↦ λ e. rw (e, check_expr) (refuse-Visit _ _ _ _ _ c)
        | service ↦
            λ e. rw (e, check_expr) (weaken with_unit (check_service-Visit x sp args info c))
        | len ↦ λ e. rw (e, check_expr) (weaken with_unit (check_len-Visit sp args info c))
        | make_slice ↦ λ e. rw (e, check_expr) (weaken with_unit (check_slice-Visit sp args info c))
        | atomic ↦ λ e. elim (Bool-cases (count_exprs args == atomic_count x)) [
          | inl f ↦ rw (e, f, check_expr) (weaken with_unit (check_atomic-Visit x sp args info c))
          | inr f ↦ rw (e, f, check_expr) (refuse-Visit _ _ _ _ _ c)
        ]
        | fence ↦ λ e.
            rw (e, check_expr)
              (weaken (λ h. none_given (names_of c) args ((==_iff _ _).0 (not-false h)))
                (report_if-Visit _ _ _ _ _ c))
        | assembly ↦
            λ e. rw (e, check_expr) (weaken with_unit (check_assembly-Visit sp args info c))
        | intrinsic ↦
            λ e. rw (e, check_expr) (weaken with_unit (check_intrinsic-Visit sp args info c))
        | function ↦ λ e. elim (Option-cases (find_text c.functions x)) [
          | inl f ↦ rw (e, f, check_expr) (refuse-Visit _ _ _ _ _ c)
          | inr (sig, f) ↦
              rw (e, f, check_expr)
                (weaken (λ p. (p.1, (sig, refl, p.0)))
                  (then_in (λ n. AreKnown n args) (check_count-Visit sp x sig (count_exprs args) c)
                    (check_args-Visit sig _ _ args _)))
        ]
      ])
        refl

  check_all-Visit :
      (es : Exprs) (c : Checker) → Visit c (check_all es c).1 (AreKnown (names_of c) es)
  check_all-Visit no_exprs c = stay c tt
  check_all-Visit (more_exprs e es) c =
      then_in (λ n. AreKnown n es) (check_expr-Visit e c) (check_all-Visit es _)

  check_against-Visit :
      (t : Ty) (code message : Text) (es : Exprs) (c : Checker)
      → Visit c (check_against t code message es c).1 (AreKnown (names_of c) es)
  check_against-Visit t code message no_exprs c = stay c tt
  check_against-Visit t code message (more_exprs e es) c =
      then_in (λ n. AreKnown n es) (and_then (check_expr-Visit e c) (report_if-Visit _ _ _ _ _ _))
        (check_against-Visit t code message es _)

  check_args-Visit :
      (sig : FunctionType) (ts : List Ty) (bs : Bindings) (es : Exprs) (c : Checker)
      → Visit c (check_args sig ts bs es c).2 (AreKnown (names_of c) es)
  check_args-Visit sig ts bs no_exprs c = stay c tt
  check_args-Visit sig ts bs (more_exprs e es) c =
      then_in (λ n. AreKnown n es)
        (and_then (check_expr-Visit e c) (check_next-Visit sig (next_param ts).0 _ bs))
        (check_args-Visit sig _ _ es _)

  check_service-Visit :
      (x : Text) (sp : Span) (es : Exprs) (info : CallInfo) (c : Checker)
      → Visit c (check_service x sp es info c).state (AreKnown (names_of c) es)
  check_service-Visit x sp no_exprs info c = refuse-Visit _ _ _ _ _ c
  check_service-Visit x sp (more_exprs e es) info c =
      then_in (λ n. AreKnown n es) (and_then (check_expr-Visit e c) (check_service_name-Visit _))
        (check_all-Visit es _)

  check_len-Visit :
      (sp : Span) (es : Exprs) (info : CallInfo) (c : Checker)
      → Visit c (check_len sp es info c).state (AreKnown (names_of c) es)
  check_len-Visit sp no_exprs info c = report-Visit _ _ _ _ c
  check_len-Visit sp (more_exprs e no_exprs) info c =
      weaken (λ h. (h, tt)) (and_then (check_expr-Visit e c) (finish_len-Visit _ info))
  check_len-Visit sp (more_exprs e (more_exprs f es)) info c = report-Visit _ _ _ _ c

  check_slice-Visit :
      (sp : Span) (es : Exprs) (info : CallInfo) (c : Checker)
      → Visit c (check_slice sp es info c).state (AreKnown (names_of c) es)
  check_slice-Visit sp no_exprs info c = refuse-Visit _ _ _ _ _ c
  check_slice-Visit sp (more_exprs e no_exprs) info c =
      weaken (λ h. (h, tt)) (and_then (check_expr-Visit e c) (slice_array-Visit sp _ info))
  check_slice-Visit sp (more_exprs e (more_exprs f no_exprs)) info c =
      weaken (λ h. (h.0, (h.1, tt)))
        (and_then (then_in (λ n. IsKnown n f) (check_expr-Visit e c) (check_expr-Visit f _))
          (slice_pointer-Visit _ _ info))
  check_slice-Visit sp (more_exprs e (more_exprs f (more_exprs g es))) info c =
      refuse-Visit _ _ _ _ _ c

  check_atomic-Visit :
      (x : Text) (sp : Span) (es : Exprs) (info : CallInfo) (c : Checker)
      → Visit c (check_atomic x sp es info c).state (AreKnown (names_of c) es)
  check_atomic-Visit x sp no_exprs info c = stay c tt
  check_atomic-Visit x sp (more_exprs e es) info c =
      elim (OptTy-cases (target_of (check_expr e c).type)) [
        | inl h ↦
            rw (h, check_atomic)
              (weaken (λ p. p.1) (both (check_expr-Visit e c) (refuse-Visit _ _ _ _ _ _)))
        | inr (t, h) ↦
            rw (h, check_atomic)
              (then_in (λ n. AreKnown n es)
                (and_then (check_expr-Visit e c) (check_atomic_value-Visit t _))
                (check_against-Visit t _ _ es _))
      ]

  check_intrinsic-Visit :
      (sp : Span) (es : Exprs) (info : CallInfo) (c : Checker)
      → Visit c (check_intrinsic sp es info c).state (AreKnown (names_of c) es)
  check_intrinsic-Visit sp no_exprs info c = refuse-Visit _ _ _ _ _ c
  check_intrinsic-Visit sp (more_exprs e es) info c = elim (Option-cases (literal_string e)) [
    | inl h ↦ rw (h, check_intrinsic) (refuse-Visit _ _ _ _ _ c)
    | inr (x, h) ↦
        rw (h, check_intrinsic)
          (weaken (λ p. (literal_string-IsKnown (names_of c) e h, p))
            (and_then (check_all-Visit es c) (finish_intrinsic-Visit sp x _ info _)))
  ]

-- A check of an expression changes nothing of the checker but its diagnostics, to which it may add.
-- If it adds none, then every name of the expression is in scope, a function or a namespace, no
-- constant is assigned, and each call is of a builtin or of a declared function with as many
-- arguments as that has parameters (`print` excepted).
pub check_expr-IsKnown :
    (e : Expr) (c : Checker)
    → (reports : List Diagnostic) × ((check_expr e c).state
        ≡ record c { diagnostics = c.diagnostics ++ reports })
      × (reports ≡ [] → IsKnown (names_of c) e)
check_expr-IsKnown e c = let v = check_expr-Visit e c in (v.reports, v.state, v.sound)
