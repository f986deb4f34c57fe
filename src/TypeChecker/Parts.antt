-- ===== src/TypeChecker/Parts.antt =====
-- What each step of a visit (Compiler/type_checker.cpp) does to the state.
use noe_code.Prelude.{
  ℕ, zero, suc, ◌≡◌, ◌⊎◌, refl, inl, inr, Bool, true, false, not, some, Text, codes, find_text,
  Bool-cases, Option-cases,
}
use noe_code.Ast.{
  TokenKind, Span, Expr, literal, name, unary, binary, call, cast, index, member, array, MemberInfo,
  IndexInfo,
}
use noe_code.Types.{Ty, OptTy, no_ty, some_ty, kind, kind_eq, record_kind}
use noe_code.Types.Names.{type_from_name, pointer_part, array_parts, strip}
use noe_code.Safety.Annotator.{holds_name}
use noe_code.TypeChecker.State.{Checker, Typed, resolve, lookup, is_const_symbol}
use noe_code.TypeChecker.Resolve.{
  resolve_name, resolve_from, resolve_type, resolve_field, record_name,
}
use noe_code.TypeChecker.Operators.{
  check_name, check_try, check_star, check_unary, check_member, check_index, check_cast,
  known_namespace, index_type, target_of,
}
use noe_code.TypeChecker.Binary.{
  check_const, check_assign, check_arithmetic, check_plus, check_class, check_binary,
  operator_class, joins_strings, moves_pointer,
}
use noe_code.TypeChecker.Known.{names_of, IsNamed, IsVariable, IsAssignable}
use noe_code.TypeChecker.Visits.{Visit, stay, both, weaken, report-Visit, report_if-Visit}

-- A visit of which only the state matters.
pub quiet : {a b : Checker} {P : Type 0} → Visit a b P → Visit a b Unit
quiet v = weaken (λ p. tt) v

pub OptTy-cases : (o : OptTy) → (o ≡ no_ty) ⊎ ((t : Ty) × (o ≡ some_ty t))
OptTy-cases no_ty = inl refl
OptTy-cases (some_ty t) = inr (t, refl)

resolve_name-Visit : (x : Text) (sp : Span) (c : Checker) → Visit c (resolve_name x sp c).1 Unit
unfolding resolve_name
resolve_name-Visit x sp c =
    let named = type_from_name x in
    elim (Bool-cases (kind_eq (kind named) record_kind)) [
      | inl e ↦ elim (Option-cases (find_text c.records (record_name named))) [
        | inl f ↦ rw (e, f) (report-Visit _ _ _ _ c)
        | inr (r, f) ↦ rw (e, f) (stay c tt)
      ]
      | inr e ↦ rw e (stay c tt)
    ]

resolve_from-Visit :
    (n : ℕ) (x : Text) (sp : Span) (c : Checker) → Visit c (resolve_from n x sp c).1 Unit
unfolding resolve_from
resolve_from-Visit zero x sp c = stay c tt
resolve_from-Visit (suc n) x sp c = elim (Bool-cases (holds_name c.generics x)) [
  | inl e ↦ rw (e, resolve_from) (stay c tt)
  | inr e ↦ elim (Option-cases (pointer_part x)) [
    | inr (p, f) ↦ rw (e, f, resolve_from) (resolve_from-Visit n p.1 sp c)
    | inl f ↦ elim (Option-cases (strip (codes "[]") x)) [
      | inr (rest, g) ↦ rw (e, f, g, resolve_from) (resolve_from-Visit n rest sp c)
      | inl g ↦ elim (Option-cases (array_parts x)) [
        | inr (p, h) ↦
            rw (e, f, g, h, resolve_from)
              (quiet (both (resolve_from-Visit n p.0 sp c) (report_if-Visit _ _ _ _ _ _)))
        | inl h ↦ rw (e, f, g, h, resolve_from) (resolve_name-Visit x sp c)
      ]
    ]
  ]
]

pub resolve_type-Visit : (x : Text) (sp : Span) (c : Checker) → Visit c (resolve_type x sp c).1 Unit
unfolding resolve_type
resolve_type-Visit x sp c = resolve_from-Visit _ x sp c

pub not-false : {b : Bool} → not b ≡ false → b ≡ true
not-false {b = true} h = refl
not-false {b = false} h = cc

pub check_name-Visit :
    (sp : Span) (x : Text) (c : Checker)
    → Visit c (check_name sp x c).state (IsNamed (names_of c) x)
unfolding check_name resolve
check_name-Visit sp x c = elim (Option-cases (lookup c.scopes x)) [
  | inr (t, e) ↦ rw (e, check_name, resolve) (stay c (inl (λ q. cc)))
  | inl e ↦ elim (Option-cases (find_text c.functions x)) [
    | inr (sig, f) ↦
        rw (e, f, check_name, resolve)
          (weaken (λ h. inr (inl (λ q. cc))) (report_if-Visit _ _ _ _ _ c))
    | inl f ↦
        rw (e, f, check_name, resolve)
          (weaken (λ h. inr (inr (not-false h)))
            (report_if-Visit (not (known_namespace x)) _ _ _ _ c))
  ]
]

check_try-Visit :
    (sp : Span) (r : Typed) (w : ℕ) (v : Bool) → Visit r.state (check_try sp r w v).state Unit
unfolding check_try
check_try-Visit sp r w v = quiet (
    both (report_if-Visit _ _ _ _ _ _)
      (both (report_if-Visit _ _ _ _ _ _) (report_if-Visit _ _ _ _ _ _)))

check_star-Visit :
    (sp : Span) (r : Typed) (w : ℕ) (v : Bool) → Visit r.state (check_star sp r w v).state Unit
unfolding check_star
check_star-Visit sp r w v = elim (OptTy-cases (target_of r.type)) [
  | inl e ↦ rw (e, check_star) (report-Visit _ _ _ _ _)
  | inr (t, e) ↦ rw (e, check_star) (stay _ tt)
]

pub check_unary-Visit :
    (sp : Span) (op : TokenKind) (r : Typed) (w : ℕ) (v : Bool)
    → Visit r.state (check_unary sp op r w v).state Unit
unfolding check_unary
check_unary-Visit sp TokenKind.try r w v = check_try-Visit sp r w v
check_unary-Visit sp TokenKind.star r w v = check_star-Visit sp r w v
check_unary-Visit sp TokenKind.ampersand r w v = quiet (report_if-Visit _ _ _ _ _ _)
check_unary-Visit sp TokenKind.bang r w v = quiet (report_if-Visit _ _ _ _ _ _)
check_unary-Visit sp _ r w v = quiet (report_if-Visit _ _ _ _ _ _)

pub check_member-Visit :
    (sp : Span) (r : Typed) (m : Text) (info : MemberInfo)
    → Visit r.state (check_member sp r m info).state Unit
unfolding check_member
check_member-Visit sp r m info = elim (Option-cases (resolve_field r.type m r.state)) [
  | inl e ↦ rw (e, check_member) (report-Visit _ _ _ _ _)
  | inr (f, e) ↦ rw (e, check_member) (resolve_type-Visit _ _ _)
]

pub check_index-Visit :
    (sp : Span) (o i : Typed) (info : IndexInfo)
    → Visit i.state (check_index sp o i info).state Unit
unfolding check_index
check_index-Visit sp o i info = elim (Option-cases (index_type o.type info)) [
  | inl e ↦
      rw (e, check_index)
        (quiet (both (report_if-Visit _ _ _ _ _ _) (report-Visit {P = Unit} _ _ _ _ _)))
  | inr (f, e) ↦ rw (e, check_index) (quiet (report_if-Visit _ _ _ _ _ _))
]

pub check_cast-Visit :
    (sp : Span) (r : Typed) (t : Text) → Visit r.state (check_cast sp r t).state Unit
unfolding check_cast
check_cast-Visit sp r t = quiet (both (resolve_type-Visit _ _ _) (report_if-Visit _ _ _ _ _ _))

not-const :
    (x : Text) (c : Checker) → is_const_symbol x c ≡ false → lookup c.const_scopes x ≡ some true → ⊥
unfolding is_const_symbol
not-const x c h k = cc

check_const-Visit :
    (sp : Span) (e : Expr) (c : Checker) → Visit c (check_const sp e c) (IsVariable (names_of c) e)
unfolding check_const is_const_symbol
check_const-Visit sp (name sn x) c =
    weaken (λ h k. not-const x c h k) (report_if-Visit (is_const_symbol x c) _ _ _ _ c)
check_const-Visit sp (literal _ _) c = stay c tt
check_const-Visit sp (unary _ _ _ _ _) c = stay c tt
check_const-Visit sp (binary _ _ _ _) c = stay c tt
check_const-Visit sp (call _ _ _ _) c = stay c tt
check_const-Visit sp (cast _ _ _) c = stay c tt
check_const-Visit sp (index _ _ _ _) c = stay c tt
check_const-Visit sp (member _ _ _ _) c = stay c tt
check_const-Visit sp (array _ _ _) c = stay c tt

check_assign-Visit :
    (sp : Span) (l r : Typed)
    → Visit r.state (check_assign sp l r).state (IsVariable (names_of r.state) l.expr)
unfolding check_assign
check_assign-Visit sp l r =
    weaken (λ p. p.0) (both (check_const-Visit sp l.expr r.state) (report_if-Visit _ _ _ _ _ _))

check_arithmetic-Visit :
    (sp : Span) (op : TokenKind) (l r : Typed)
    → Visit r.state (check_arithmetic sp op l r).state Unit
unfolding check_arithmetic
check_arithmetic-Visit sp op l r = quiet (report_if-Visit _ _ _ _ _ _)

check_plus-Visit : (sp : Span) (l r : Typed) → Visit r.state (check_plus sp l r).state Unit
unfolding check_plus
check_plus-Visit sp l r = elim (Bool-cases (joins_strings l.type r.type)) [
  | inl e ↦ rw (e, check_plus) (stay r.state tt)
  | inr e ↦ elim (Bool-cases (moves_pointer l.type r.type)) [
    | inl f ↦ rw (e, f, check_plus) (stay r.state tt)
    | inr f ↦ elim (Bool-cases (moves_pointer r.type l.type)) [
      | inl g ↦ rw (e, f, g, check_plus) (stay r.state tt)
      | inr g ↦ rw (e, f, g, check_plus) (check_arithmetic-Visit sp TokenKind.plus l r)
    ]
  ]
]

pub check_binary-Visit :
    (sp : Span) (op : TokenKind) (l r : Typed)
    → Visit r.state (check_binary sp op l r).state (IsAssignable (names_of r.state) op l.expr)
unfolding check_binary check_class operator_class
check_binary-Visit sp TokenKind.equal l r = check_assign-Visit sp l r
check_binary-Visit sp TokenKind.plus l r = check_plus-Visit sp l r
check_binary-Visit sp TokenKind.minus l r = check_arithmetic-Visit sp TokenKind.minus l r
check_binary-Visit sp TokenKind.star l r = check_arithmetic-Visit sp TokenKind.star l r
check_binary-Visit sp TokenKind.slash l r = check_arithmetic-Visit sp TokenKind.slash l r
check_binary-Visit sp TokenKind.percent l r = check_arithmetic-Visit sp TokenKind.percent l r
check_binary-Visit sp _ l r = stay r.state tt
