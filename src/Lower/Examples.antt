-- ===== src/Lower/Examples.antt =====
-- Lowering on a small program.
use noe_code.Prelude.{◌≡◌, refl, List, [], ◌∷◌, none, codes, All, false}
use noe_code.Prelude.Int.{pos}
use noe_code.Nir.{int}
use noe_code.Ast.{
  TokenKind, Span, Expr, name, binary, literal, no_stmts, more_stmts, expr_stmt, let_stmt,
  block_stmt, while_stmt, TopLevel, function_decl, statement,
}
use noe_code.Interp.Loop.{frame}
use noe_code.Interp.Block.{run_block}
use noe_code.Interp.Samples.{sample_machine, no_functions, sample_shared}
use noe_code.Optimizer.Passes.{constants}
use noe_code.Lower.Statements.{lower}
use noe_code.Lower.WellFormed.Programs.{IsWellFormedFunction, lower-IsWellFormed, constants-lower}

abbrev here : Span
here = record { start = 0; end = 0; line = 1; column = 1; source = 0 }

abbrev number : Expr
number = literal here (int (pos 3))

-- `function f() { while (x < 3 && 3) { x = x + 3 } }  let y = 3 + 3`
abbrev sample_program : List TopLevel
sample_program =
    function_decl (record {
      span = here;
      name = codes "f";
      generic_params = [];
      params = [];
      return_type = none;
      body =
          more_stmts
            (while_stmt here
              (binary here (binary here (name here (codes "x")) TokenKind.less number)
                TokenKind.and_and number)
              (block_stmt here
                (more_stmts
                  (expr_stmt here (
                    binary here (name here (codes "x")) TokenKind.equal
                      (binary here (name here (codes "x")) TokenKind.plus number)))
                  no_stmts)
                false))
            no_stmts;
      is_extern = false;
      is_export = false;
    })
    ∷ statement (let_stmt here false (codes "y") none (binary here number TokenKind.plus number))
    ∷ []

lower-IsWellFormed_example :
    IsWellFormedFunction (lower sample_program).entry
    × All IsWellFormedFunction (lower sample_program).functions
lower-IsWellFormed_example = lower-IsWellFormed sample_program

constants-lower_example :
    run_block sample_machine no_functions
      (constants sample_machine.floats (lower sample_program).entry.code).0
      (frame sample_machine (lower sample_program).entry sample_shared)
    ≡ run_block sample_machine no_functions
        (lower sample_program).entry.code
        (frame sample_machine (lower sample_program).entry sample_shared)
constants-lower_example =
    constants-lower sample_machine no_functions sample_program sample_shared refl
