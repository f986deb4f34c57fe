-- ===== src/Compile/Plain.antt =====
-- `compileProgram` (Compiler/core.cpp) on programs without generic declarations.
use noe_code.Prelude.{ℕ, ◌≡◌, refl, ap, ◌∙◌, true, List, [], some}
use noe_code.Ast.{TopLevel}
use noe_code.Interp.Values.{Floats}
use noe_code.Generics.State.{GenericSyntax}
use noe_code.Generics.Monomorphize.{monomorphize}
use noe_code.Generics.Programs.{AreConcrete, monomorphize-unchanged}
use noe_code.TypeChecker.Check.{check_program}
use noe_code.Safety.Annotator.{check}
use noe_code.Lifetime.Check.{no_errors, check_borrows}
use noe_code.Optimizer.Passes.{OptimizationLevel}
use noe_code.Compile.{type_stage, compile_program}
use noe_code.Compile.Outcome.{monomorphize-no_errors}

-- The three checks accept the program, each what the one before it leaves.
pub record IsAccepted (ast : List TopLevel) : Type 0 where
  pub typed : (check_program ast []).2 ≡ true
  pub safe : (check (check_program ast []).0 []).2 ≡ true
  pub borrows : (check_borrows (check (check_program ast []).0 []).0 []).1 ≡ true

pub compile_program-type_stage :
    (floats : Floats) (level : OptimizationLevel) (fuel : ℕ) (syntax : GenericSyntax)
    (ast : List TopLevel)
    → AreConcrete syntax ast
    → compile_program floats level fuel syntax ast [] ≡ some (type_stage floats level ast [])
unfolding compile_program
compile_program-type_stage floats level fuel syntax ast k =
    let (p, d, x) = monomorphize-unchanged fuel syntax ast [] k in
    let accepted : (monomorphize fuel syntax ast []).2 ≡ true =
      monomorphize-no_errors fuel syntax ast [] ∙ ap no_errors d in
    rw (x, accepted, p, d, compile_program) refl
