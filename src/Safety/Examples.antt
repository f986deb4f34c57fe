-- ===== src/Safety/Examples.antt =====
-- The check of `unsafe` blocks on a small function.
use noe_code.Prelude.{◌≡◌, refl, List, [], ◌∷◌, some, codes, true, false, none, All}
use noe_code.Prelude.Int.{pos}
use noe_code.Nir.{int}
use noe_code.Ast.{
  TokenKind, Span, name, unary, literal, binary, Stmts, no_stmts, more_stmts, expr_stmt, block_stmt,
  TopLevel, function_decl,
}
use noe_code.Safety.Annotator.{Annotator, is_star, check, statement_visit}
use noe_code.Safety.Guarded.{IsGuardedTop}
use noe_code.Safety.Sound.{check-IsGuarded, statement_visit-unsafe}

abbrev here : Span
here = record { start = 0; end = 0; line = 1; column = 1; source = 0 }

-- `*p = 3`
abbrev store_through : Stmts
store_through =
    more_stmts
      (expr_stmt here (
        binary here (unary here TokenKind.star (name here (codes "p")) 8 false) TokenKind.equal
          (literal here (int (pos 3)))))
      no_stmts

-- `function f(p: *int) { unsafe { *p = 3 } }`
abbrev guarded_program : List TopLevel
guarded_program =
    function_decl (record {
      span = here;
      name = codes "f";
      generic_params = [];
      params = record { name = codes "p"; annotation = some (codes "*int"); span = here } ∷ [];
      return_type = none;
      body = more_stmts (block_stmt here store_through true) no_stmts;
      is_extern = false;
      is_export = false;
    })
    ∷ []

check-IsGuarded_example : All IsGuardedTop guarded_program
unfolding check is_star
check-IsGuarded_example = check-IsGuarded guarded_program [] refl

abbrev fresh_annotator : Annotator
fresh_annotator = record {
  bounds = [];
  raw_pointers = codes "p" ∷ [];
  unsafe_depth = 0;
  diagnostics = [];
}

statement_visit-unsafe_example :
    (statement_visit (block_stmt here store_through true) fresh_annotator).1 ≡ fresh_annotator
statement_visit-unsafe_example = statement_visit-unsafe here store_through fresh_annotator
