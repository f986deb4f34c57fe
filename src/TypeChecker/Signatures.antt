-- ===== src/TypeChecker/Signatures.antt =====
-- The signatures that `TypeChecker::check` (Compiler/type_checker.cpp) enters in front of the
-- statements, and the parameters that it then reads of them.
use noe_code.Prelude.{
  suc, ◌≤◌, ◌≡◌, refl, sym, ap, subst, ◌∙◌, inl, inr, false, List, [], ◌∷◌, some, Text, text_eq,
  text_eq_refl, find_text, length, All, arith, Bool-cases, find_text-erase_text_ne,
}
use noe_code.Types.{simple_type, void}
use noe_code.Ast.{
  Parameter, FunctionDecl, TopLevel, function_decl, record_decl, import_decl, module_decl,
  statement,
}
use noe_code.Lifetime.Sets.{put_text}
use noe_code.TypeChecker.State.{Checker, FunctionType, push_scope, pop_scope}
use noe_code.TypeChecker.Statements.{annotated_type, signature_of, enter_function, leave_function}
use noe_code.TypeChecker.Check.{
  param_types, declare_function, declare_functions, check_function, check_top, check_tops,
}
use noe_code.TypeChecker.Visits.{Visit, stay, both, weaken, report_if-Visit}
use noe_code.TypeChecker.StatementSteps.{annotated_type-Visit}
use noe_code.TypeChecker.Arguments.{
  Fixed, same-Fixed, then-Fixed, visit-Fixed, define_params-Fixed, IsFlat, AreFlat,
  check_stmt-Fixed, check_stmts-Fixed,
}

abbrev pub IsOther : Text → TopLevel → Type 0
IsOther x (function_decl f) = text_eq f.name x ≡ false
IsOther x _ = Unit

-- No two functions of the program have the same name.
abbrev pub AreDistinct : List TopLevel → Type 0
AreDistinct [] = Unit
AreDistinct (function_decl f ∷ ts) = All (IsOther f.name) ts × AreDistinct ts
AreDistinct (t ∷ ts) = AreDistinct ts

-- No function is declared inside another or inside a block.
abbrev pub IsFlatTop : TopLevel → Type 0
IsFlatTop (function_decl f) = AreFlat f.body
IsFlatTop (statement s) = IsFlat s
IsFlatTop _ = Unit

-- A function has a signature with as many parameters as its declaration.
abbrev pub IsSigned : List (Text × FunctionType) → TopLevel → Type 0
IsSigned m (function_decl f) =
    (sig : FunctionType) × (find_text m f.name ≡ some sig) × (length f.params ≤ length sig.params)
IsSigned m _ = Unit

pub param_types-Visit : (ps : List Parameter) (c : Checker) → Visit c (param_types ps c).1 Unit
unfolding param_types
param_types-Visit [] c = stay c tt
param_types-Visit (p ∷ ps) c =
    weaken (λ q. tt) (both (annotated_type-Visit p.annotation p.span _ c) (param_types-Visit ps _))

param_types-length : (ps : List Parameter) (c : Checker) → length (param_types ps c).0 ≡ length ps
unfolding param_types
param_types-length [] c = refl
param_types-length (p ∷ ps) c = ap suc (param_types-length ps _)

-- The functions after a declaration are those before, with the new one.
declare_function-functions :
    (f : FunctionDecl) (c : Checker)
    → (sig : FunctionType) × ((declare_function f c).functions ≡ put_text c.functions f.name sig)
      × (length f.params ≤ length sig.params)
unfolding declare_function
declare_function-functions f c =
    let start = record c { generics = f.generic_params } in
    let params = param_types f.params start in
    let result = annotated_type f.return_type f.span (simple_type void) params.1 in
    let sig : FunctionType = record {
      params = params.0;
      result = result.0;
      generic_params = f.generic_params;
    } in
    let v = visit-Fixed (
      both (param_types-Visit f.params start) (
        both (annotated_type-Visit f.return_type f.span (simple_type void) params.1)
          (report_if-Visit _ _ _ _ _ _))) in
    (
      sig,
      ap (λ (m : List (Text × FunctionType)). put_text m f.name sig) v.functions,
      omega (arith, param_types-length f.params start),
    )

find_text-put_text :
    (m : List (Text × FunctionType)) (x : Text) (v : FunctionType)
    → find_text (put_text m x v) x ≡ some v
unfolding put_text find_text
find_text-put_text m x v = rw (text_eq_refl x) refl

find_text-put_text_ne :
    (m : List (Text × FunctionType)) (x y : Text) (v : FunctionType)
    → text_eq x y ≡ false
    → find_text (put_text m x v) y ≡ find_text m y
unfolding put_text find_text
find_text-put_text_ne m x y v h = rw (h, find_text) (find_text-erase_text_ne m x y h)

declare_functions-other :
    (ts : List TopLevel) (c : Checker) (x : Text)
    → All (IsOther x) ts
    → find_text (declare_functions ts c).functions x ≡ find_text c.functions x
unfolding declare_functions
declare_functions-other [] c x h = refl
declare_functions-other (function_decl f ∷ ts) c x (h, hs) =
    let (sig, e, l) = declare_function-functions f c in
    declare_functions-other ts _ x hs
    ∙ (ap (λ (m : List (Text × FunctionType)). find_text m x) e
        ∙ find_text-put_text_ne c.functions f.name x sig h)
declare_functions-other (record_decl r ∷ ts) c x (h, hs) = declare_functions-other ts c x hs
declare_functions-other (import_decl sp p ∷ ts) c x (h, hs) = declare_functions-other ts c x hs
declare_functions-other (module_decl sp p ∷ ts) c x (h, hs) = declare_functions-other ts c x hs
declare_functions-other (statement s ∷ ts) c x (h, hs) = declare_functions-other ts c x hs

pub declare_functions-IsSigned :
    (ts : List TopLevel) (c : Checker)
    → AreDistinct ts
    → All (IsSigned (declare_functions ts c).functions) ts
unfolding declare_functions
declare_functions-IsSigned [] c h = tt
declare_functions-IsSigned (function_decl f ∷ ts) c (h, hs) =
    let (sig, e, l) = declare_function-functions f c in
    (
      (
        sig,
        declare_functions-other ts _ f.name h
            ∙ (ap (λ (m : List (Text × FunctionType)). find_text m f.name) e
                ∙ find_text-put_text c.functions f.name sig),
        l,
      ),
      declare_functions-IsSigned ts _ hs,
    )
declare_functions-IsSigned (record_decl r ∷ ts) c h = (tt, declare_functions-IsSigned ts c h)
declare_functions-IsSigned (import_decl sp p ∷ ts) c h = (tt, declare_functions-IsSigned ts c h)
declare_functions-IsSigned (module_decl sp p ∷ ts) c h = (tt, declare_functions-IsSigned ts c h)
declare_functions-IsSigned (statement s ∷ ts) c h = (tt, declare_functions-IsSigned ts c h)

check_function-Fixed :
    (f : FunctionDecl) (c : Checker)
    → AreFlat f.body
    → IsSigned c.functions (function_decl f)
    → Fixed c (check_function f c).1
unfolding check_function signature_of enter_function leave_function push_scope pop_scope
check_function-Fixed f c h (sig, e, l) = elim (Bool-cases f.is_extern) [
  | inl k ↦ rw (k, e, check_function, signature_of) (same-Fixed c)
  | inr k ↦
      let q =
        then-Fixed (define_params-Fixed f.params sig.params _ l)
          (check_stmts-Fixed f.body (enter_function sig f.generic_params f.params c) h) in
      rw (k, e, check_function, signature_of)
        (record { functions = q.functions; out_of_range = q.out_of_range })
]

check_top-Fixed :
    (t : TopLevel) (c : Checker) → IsFlatTop t → IsSigned c.functions t → Fixed c (check_top t c).1
unfolding check_top
check_top-Fixed (function_decl f) c h k = check_function-Fixed f c h k
check_top-Fixed (statement s) c h k = check_stmt-Fixed s c h
check_top-Fixed (record_decl r) c h k = same-Fixed c
check_top-Fixed (import_decl sp p) c h k = same-Fixed c
check_top-Fixed (module_decl sp p) c h k = same-Fixed c

pub check_tops-Fixed :
    (ts : List TopLevel) (c : Checker)
    → All IsFlatTop ts
    → All (IsSigned c.functions) ts
    → Fixed c (check_tops ts c).1
unfolding check_tops
check_tops-Fixed [] c h k = same-Fixed c
check_tops-Fixed (t ∷ ts) c (h, hs) (k, ks) =
    let p = check_top-Fixed t c h k in
    then-Fixed p (
      check_tops-Fixed ts _ hs
        (subst (λ (m : List (Text × FunctionType)). All (IsSigned m) ts) (sym p.functions) ks))
