-- ===== src/TypeChecker/BuiltinParts.antt =====
-- What each step of a builtin call (Compiler/type_checker.cpp) does to the state.
use noe_code.Prelude.{
  ℕ, ◌≡◌, ◌⊎◌, refl, inl, inr, Bool, true, false, not, ◌&&◌, List, [], ◌∷◌, Option, none, some,
  Text, codes, text_eq, find_text, length, ◌==◌, ==_iff, Option-cases,
}
use noe_code.Ast.{Span, Expr, Exprs, no_exprs, more_exprs, literal, CallInfo}
use noe_code.Types.{TypeKind, Ty}
use noe_code.TypeChecker.State.{Checker, Typed, FunctionType}
use noe_code.TypeChecker.Literals.{literal_string}
use noe_code.TypeChecker.Generics.{Bindings}
use noe_code.TypeChecker.Operators.{target_of, element_of}
use noe_code.TypeChecker.Builtins.{
  refuse, check_service_name, finish_len, slice_array, slice_pointer, check_atomic_value,
  check_assembly, finish_intrinsic, intrinsics, check_count, check_argument,
}
use noe_code.TypeChecker.Expressions.{check_next}
use noe_code.TypeChecker.Known.{Names, names_of, IsKnown, AreKnown}
use noe_code.TypeChecker.Visits.{Visit, stay, weaken, report-Visit, report_if-Visit}
use noe_code.TypeChecker.Parts.{quiet, OptTy-cases}

pub refuse-Visit :
    {P : Type 0} (code : Text) (sp : Span) (message : Text) (args : Exprs) (info : CallInfo)
    (c : Checker)
    → Visit c (refuse code sp message args info c).state P
unfolding refuse
refuse-Visit code sp message args info c = report-Visit _ _ _ _ c

pub check_service_name-Visit : (r : Typed) → Visit r.state (check_service_name r) Unit
unfolding check_service_name
check_service_name-Visit r = quiet (report_if-Visit _ _ _ _ _ _)

pub finish_len-Visit : (r : Typed) (info : CallInfo) → Visit r.state (finish_len r info).state Unit
unfolding finish_len
finish_len-Visit r info = quiet (report_if-Visit _ _ _ _ _ _)

pub slice_array-Visit :
    (sp : Span) (r : Typed) (info : CallInfo) → Visit r.state (slice_array sp r info).state Unit
unfolding slice_array
slice_array-Visit sp r info = elim (OptTy-cases (element_of TypeKind.array r.type)) [
  | inl e ↦ rw (e, slice_array) (refuse-Visit _ _ _ _ _ _)
  | inr (t, e) ↦ rw (e, slice_array) (stay _ tt)
]

pub slice_pointer-Visit :
    (p n : Typed) (info : CallInfo) → Visit n.state (slice_pointer p n info).state Unit
unfolding slice_pointer
slice_pointer-Visit p n info = elim (OptTy-cases (target_of p.type)) [
  | inl e ↦ rw (e, slice_pointer) (refuse-Visit _ _ _ _ _ _)
  | inr (t, e) ↦ rw (e, slice_pointer) (quiet (report_if-Visit _ _ _ _ _ _))
]

pub check_atomic_value-Visit : (t : Ty) (p : Typed) → Visit p.state (check_atomic_value t p) Unit
unfolding check_atomic_value
check_atomic_value-Visit t p = quiet (report_if-Visit _ _ _ _ _ _)

-- A string literal names nothing.
pub literal_string-IsKnown :
    (n : Names) (e : Expr) {s : Text} → literal_string e ≡ some s → IsKnown n e
unfolding literal_string
literal_string-IsKnown n (literal sp v) h = tt
literal_string-IsKnown n _ h = cc

pub check_assembly-Visit :
    (sp : Span) (args : Exprs) (info : CallInfo) (c : Checker)
    → Visit c (check_assembly sp args info c).state (AreKnown (names_of c) args)
unfolding check_assembly
check_assembly-Visit sp no_exprs info c = report-Visit _ _ _ _ c
check_assembly-Visit sp (more_exprs e (more_exprs f es)) info c = report-Visit _ _ _ _ c
check_assembly-Visit sp (more_exprs e no_exprs) info c = elim (Option-cases (literal_string e)) [
  | inl h ↦ rw (h, check_assembly) (report-Visit _ _ _ _ c)
  | inr (s, h) ↦ rw (h, check_assembly) (stay c (literal_string-IsKnown (names_of c) e h, tt))
]

pub finish_intrinsic-Visit :
    (sp : Span) (x : Text) (args : Exprs) (info : CallInfo) (c : Checker)
    → Visit c (finish_intrinsic sp x args info c).state Unit
unfolding finish_intrinsic
finish_intrinsic-Visit sp x args info c = elim (Option-cases (find_text intrinsics x)) [
  | inl h ↦ rw (h, finish_intrinsic) (refuse-Visit _ _ _ _ _ _)
  | inr (k, h) ↦ rw (h, finish_intrinsic) (stay c tt)
]

one_of : (a b : Bool) → (not a && not b) ≡ false → (a ≡ true) ⊎ (b ≡ true)
one_of true b h = inl refl
one_of false true h = inr refl
one_of false false h = cc

count_fits :
    (x : Text) (n m : ℕ)
    → (not (text_eq x (codes "print")) && not (n == m)) ≡ false
    → (text_eq x (codes "print") ≡ true) ⊎ (n ≡ m)
count_fits x n m h = elim (one_of (text_eq x (codes "print")) (n == m) h) [
  | inl e ↦ inl e
  | inr f ↦ inr ((==_iff n m).0 f)
]

pub check_count-Visit :
    (sp : Span) (x : Text) (sig : FunctionType) (n : ℕ) (c : Checker)
    → Visit c
        (check_count sp x sig n c)
        ((text_eq x (codes "print") ≡ true) ⊎ (n ≡ length sig.params))
unfolding check_count
check_count-Visit sp x sig n c =
    weaken (count_fits x n (length sig.params)) (report_if-Visit _ _ _ _ _ c)

List-cases {ℓ} : {A : Type ℓ} (xs : List A) → (xs ≡ []) ⊎ ((x : A) × (ys : List A) × (xs ≡ x ∷ ys))
List-cases [] = inl refl
List-cases (x ∷ xs) = inr (x, xs, refl)

check_argument-Visit :
    (sig : FunctionType) (t : Ty) (r : Typed) (bs : Bindings)
    → Visit r.state (check_argument sig t r bs).1 Unit
unfolding check_argument
check_argument-Visit sig t r bs = elim (List-cases sig.generic_params) [
  | inl e ↦ rw (e, check_argument) (quiet (report_if-Visit _ _ _ _ _ _))
  | inr (x, xs, e) ↦ rw (e, check_argument) (quiet (report_if-Visit _ _ _ _ _ _))
]

pub check_next-Visit :
    (sig : FunctionType) (o : Option Ty) (r : Typed) (bs : Bindings)
    → Visit r.state (check_next sig o r bs).1 Unit
unfolding check_next
check_next-Visit sig none r bs = stay r.state tt
check_next-Visit sig (some t) r bs = check_argument-Visit sig t r bs
