-- ===== src/Compile/Examples.antt =====
-- The compilation of a small program.
use noe_code.Prelude.{◌≡◌, refl, false, List, [], ◌∷◌, some, codes}
use noe_code.Prelude.Int.{pos}
use noe_code.Nir.{Value}
use noe_code.Ast.{
  TokenKind, Span, Expr, literal, name, binary, call, no_exprs, more_exprs, expr_stmt, return_stmt,
  no_stmts, more_stmts, TopLevel, function_decl, statement,
}
use noe_code.Interp.Samples.{sample_floats}
use noe_code.Optimizer.Passes.{OptimizationLevel}
use noe_code.Generics.State.{GenericSyntax}
use noe_code.Generics.Monomorphize.{monomorphize}
use noe_code.Compile.{
  CompileResult, generate, borrow_stage, safety_stage, type_stage, compile_program,
}
use noe_code.TypeChecker.Check.{check_program}
use noe_code.Safety.Annotator.{check}
use noe_code.Lifetime.Check.{check_borrows}
use noe_code.Types.{simple_type}
use noe_code.Compile.Outcome.{IsOutcome, compile_program-IsOutcome}
use noe_code.Compile.Plain.{compile_program-type_stage}

abbrev no_syntax : GenericSyntax
no_syntax = record { constraints = []; record_params = [] }

abbrev here : Span
here = record { start = 0; end = 0; line = 1; column = 1; source = 0 }

abbrev x : Expr
x = name here (codes "x")

-- `function twice(x: int): int { return x + x; } twice(4);`
abbrev twice_program : List TopLevel
twice_program =
    function_decl (record {
      span = here;
      name = codes "twice";
      generic_params = [];
      params = record { name = codes "x"; annotation = some (codes "int"); span = here } ∷ [];
      return_type = some (codes "int");
      body = more_stmts (return_stmt here (some (binary here x TokenKind.plus x))) no_stmts;
      is_extern = false;
      is_export = false;
    })
    ∷ statement (
        expr_stmt here (
          call here (name here (codes "twice"))
            (more_exprs (literal here (Value.int (pos 4))) no_exprs)
            (record { builtin_width = 0; builtin_count = 0; builtin_text = [] })))
    ∷ []

abbrev compiled : CompileResult
compiled = type_stage sample_floats OptimizationLevel.o1 twice_program []

twice_is_compiled :
    compile_program sample_floats OptimizationLevel.o1 0 no_syntax twice_program [] ≡ some compiled
unfolding monomorphize
twice_is_compiled =
    compile_program-type_stage sample_floats OptimizationLevel.o1 0 no_syntax twice_program
      (refl, (refl, tt))

compile_program-IsOutcome_example :
    IsOutcome sample_floats OptimizationLevel.o1
      (monomorphize 0 no_syntax twice_program []).0
      compiled
compile_program-IsOutcome_example =
    compile_program-IsOutcome sample_floats OptimizationLevel.o1 0 no_syntax twice_program []
      compiled twice_is_compiled

compiled_diagnostics : compiled.diagnostics ≡ []
unfolding type_stage safety_stage borrow_stage generate check_program check check_borrows
    simple_type
compiled_diagnostics = refl
