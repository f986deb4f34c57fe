-- ===== src/Safety/Sound.antt =====
-- What the check of `unsafe` blocks lets through.
use noe_code.Prelude.{
  ◌≤◌, ◌≡◌, refl, ap, Bool, true, false, List, [], ◌∷◌, Option, none, some, Text, length, arith,
  if◌then◌else◌, All,
}
use noe_code.Ast.{
  Span, Diagnostic, Stmts, block_stmt, FunctionDecl, TopLevel, Parameter, function_decl,
  record_decl, import_decl, module_decl, statement,
}
use noe_code.Safety.Annotator.{
  Annotator, leave_block, enter_block, statement_visit, declare_param, declare_params,
  function_visit, check_from, check,
}
use noe_code.Safety.Guarded.{AreGuarded, IsGuardedTop}
use noe_code.Safety.Visit.{Visit, stay, both, weaken, statements-Visit}

declare_param-Visit :
    (x : Text) (t : Option Text) (a : Annotator) → Visit a (declare_param x t a) Unit
unfolding declare_param
declare_param-Visit x none a = stay a a refl refl tt
declare_param-Visit x (some t) a = stay _ _ refl refl tt

declare_params-Visit : (ps : List Parameter) (a : Annotator) → Visit a (declare_params ps a) Unit
unfolding declare_params
declare_params-Visit [] a = stay a a refl refl tt
declare_params-Visit (p ∷ ps) a =
    weaken (λ h. tt)
      (both (declare_param-Visit p.name p.annotation a)
        (declare_params-Visit ps (declare_param p.name p.annotation a)))

-- A visit of a function from its diagnostics alone.
record Checked (before after : List Diagnostic) (P : Type 0) : Type 0 where
  grows : length before ≤ length after
  sound : length after ≡ length before → P

function_visit-Checked :
    (f : FunctionDecl) (items : List Diagnostic)
    → Checked items (function_visit f items).1 (AreGuarded f.body)
unfolding function_visit
function_visit-Checked f items =
    let v = both (declare_params-Visit f.params _) (statements-Visit f.body _) in
    record { grows = v.grows; sound = λ same. (v.sound refl same).1 }

function-Checked :
    (f : FunctionDecl) (items : List Diagnostic) (b : Bool)
    → Checked items
        (if b then (f, items) else function_visit f items).1
        (if b then Unit else AreGuarded f.body)
function-Checked f items true = record { grows = omega arith; sound = λ same. tt }
function-Checked f items false = function_visit-Checked f items

check_from-Checked :
    (ts : List TopLevel) (items : List Diagnostic)
    → Checked items (check_from ts items).1 (All IsGuardedTop ts)
unfolding check_from
check_from-Checked [] items = record { grows = omega arith; sound = λ same. tt }
check_from-Checked (function_decl f ∷ ts) items =
    let v = function-Checked f items f.is_extern in
    let w = check_from-Checked ts (if f.is_extern then (f, items) else function_visit f items).1 in
    record {
      grows = omega (arith, v.grows, w.grows);
      sound = λ same. (
        v.sound (omega (arith, v.grows, w.grows, same)),
        w.sound (omega (arith, v.grows, w.grows, same)),
      );
    }
check_from-Checked (record_decl r ∷ ts) items =
    let w = check_from-Checked ts items in
    record { grows = w.grows; sound = λ same. (tt, w.sound same) }
check_from-Checked (import_decl sp x ∷ ts) items =
    let w = check_from-Checked ts items in
    record { grows = w.grows; sound = λ same. (tt, w.sound same) }
check_from-Checked (module_decl sp x ∷ ts) items =
    let w = check_from-Checked ts items in
    record { grows = w.grows; sound = λ same. (tt, w.sound same) }
check_from-Checked (statement s ∷ ts) items =
    let w = check_from-Checked ts items in
    record { grows = w.grows; sound = λ same. (tt, w.sound same) }

-- In a program that the check accepts, every dereference, cast to a pointer and member access through
-- a pointer in the body of a function at the top level that is not extern stands in an unsafe block,
-- those apart that are inside a function declared in that body.
pub check-IsGuarded :
    (ts : List TopLevel) (items : List Diagnostic) → (check ts items).2 ≡ true → All IsGuardedTop ts
unfolding check
check-IsGuarded ts items h = (check_from-Checked ts items).sound (ground (arith, h))

-- A visit of an unsafe block adds no diagnostic, and after it the bounds, the pointers and the depth
-- are those before it.
pub statement_visit-unsafe :
    (sp : Span) (body : Stmts) (a : Annotator) → (statement_visit (block_stmt sp body true) a).1 ≡ a
unfolding statement_visit leave_block enter_block
statement_visit-unsafe sp body a =
    ap (λ (items : List Diagnostic). record a { diagnostics = items })
      ((statements-Visit body (enter_block true a)).quiet (omega arith))
