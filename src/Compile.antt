-- ===== src/Compile.antt =====
-- `compileProgram` (Compiler/core.cpp): the passes in turn, each on what the one before it left. A
-- pass that reports ends the compilation, and no code is made. The module graph, which is only passed
-- on, is left out.
mod Outcome
mod Plain
mod Examples
use noe_code.Prelude.{ℕ, Bool, true, false, List, [], Option, none, some, codes}
use noe_code.Types.{default_type}
use noe_code.Nir.{Function, Program}
use noe_code.Ast.{TopLevel, Diagnostic}
use noe_code.Interp.Values.{Floats}
use noe_code.Generics.State.{GenericSyntax}
use noe_code.Generics.Monomorphize.{monomorphize}
use noe_code.TypeChecker.Check.{check_program}
use noe_code.Safety.Annotator.{check}
use noe_code.Lifetime.Check.{no_errors, check_borrows}
use noe_code.Lower.Statements.{lower}
use noe_code.Optimizer.Passes.{OptimizationLevel, optimize}
use noe_code.Flow.Registers.{analyze}

pub record CompileResult : Type 0 where
  pub ast : List TopLevel
  pub nir : Program
  pub diagnostics : List Diagnostic

-- `NirProgram{}`
abbrev pub empty_program : Program
empty_program = record {
  entry = record {
    name = [];
    generic_params = [];
    params = [];
    param_types = [];
    result_type = default_type;
    code = [];
    register_types = [];
    blocks = [];
    next_reg = 0;
    is_extern = false;
    is_export = false;
  };
  functions = [];
}

-- The result of a pass that has reported.
abbrev pub stopped : List TopLevel → List Diagnostic → CompileResult
stopped ast items = record { ast = ast; nir = empty_program; diagnostics = items }

module _ (floats : Floats) (level : OptimizationLevel) where
  unfoldable pub generate : List TopLevel → List Diagnostic → CompileResult
  generate ast items = record {
    ast = ast;
    nir = analyze ast (optimize floats level (lower ast));
    diagnostics = items;
  }

  unfoldable pub borrow_stage : List TopLevel → List Diagnostic → CompileResult
  borrow_stage ast items =
      let b = check_borrows ast items in
      elim b.1 [ true ↦ generate ast b.0 | false ↦ stopped ast b.0 ]

  unfoldable pub safety_stage : List TopLevel → List Diagnostic → CompileResult
  safety_stage ast items =
      let s = check ast items in elim s.2 [ true ↦ borrow_stage s.0 s.1 | false ↦ stopped s.0 s.1 ]

  unfoldable pub type_stage : List TopLevel → List Diagnostic → CompileResult
  type_stage ast items =
      let t = check_program ast items in
      elim t.2 [ true ↦ safety_stage t.0 t.1.diagnostics | false ↦ stopped t.0 t.1.diagnostics ]

  -- None where the fuel for generic instances runs out.
  unfoldable pub compile_program :
      ℕ → GenericSyntax → List TopLevel → List Diagnostic → Option CompileResult
  compile_program fuel syntax ast items =
      let m = monomorphize fuel syntax ast items in
      elim (no_errors items) [
        | false ↦ some (stopped ast items)
        | true ↦ elim m.1.exhausted [
          | true ↦ none
          | false ↦ some (elim m.2 [
            | true ↦ type_stage m.0 m.1.diagnostics
            | false ↦ stopped m.0 m.1.diagnostics
          ])
        ]
      ]
