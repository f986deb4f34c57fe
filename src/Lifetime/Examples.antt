-- ===== src/Lifetime/Examples.antt =====
-- The lifetime checker on concrete programs.
use noe_code.Prelude.{
  ◌≡◌, ◌⊎◌, ◌++◌, refl, true, false, List, [], ◌∷◌, none, some, Text, codes, arith, text_eq, length,
}
use noe_code.Prelude.Int.{pos}
use noe_code.Nir.{int}
use noe_code.Ast.{
  TokenKind, Span, Expr, no_exprs, more_exprs, literal, name, unary, binary, call, CallInfo,
  Parameter, Stmt, Stmts, no_stmts, more_stmts, no_stmt, expr_stmt, let_stmt, block_stmt, if_stmt,
  return_stmt, FunctionDecl, TopLevel, function_decl,
}
use noe_code.Diagnostics.{error}
use noe_code.Lower.Expressions.{callee_name}
use noe_code.Lifetime.Functions.{defined_functions, summary_passes}
use noe_code.Lifetime.Inspector.{Inspector, BorrowInfo, expression}
use noe_code.Lifetime.Scopes.{expire_scope}
use noe_code.Lifetime.Returned.{check_borrows-refuses_local}
use noe_code.Lifetime.Sets.{borrow_type}
use noe_code.Lifetime.Check.{check_borrows}
use noe_code.Lifetime.Expiry.{expire_scope-expression}
use noe_code.Lifetime.Passes.{Stable, AllUnstable, summary_passes-Stable}

abbrev spot : Span
spot = record { start = 0; end = 1; line = 1; column = 1; source = 0 }

abbrev var : Text → Expr
var x = name spot x

abbrev address : Text → Expr
address x = unary spot TokenKind.ampersand (var x) 8 false

abbrev pointer_param : Text → Parameter
pointer_param x = record { name = x; annotation = some (codes "*int"); span = spot }

abbrev local_int : Text → Stmt
local_int x = let_stmt spot false x none (literal spot (int (pos 1)))

abbrev function_of : Text → List Parameter → Stmts → TopLevel
function_of x params body = function_decl (record {
  span = spot;
  name = x;
  generic_params = [];
  params = params;
  return_type = some (codes "*int");
  body = body;
  is_extern = false;
  is_export = false;
})

-- `let r = p; { let y = 1; r = &y; } r;`
abbrev stale_use : TopLevel
stale_use = function_of (codes "f") (pointer_param (codes "p") ∷ []) (
    more_stmts (let_stmt spot false (codes "r") none (var (codes "p"))) (
      more_stmts
        (block_stmt spot
          (more_stmts (local_int (codes "y")) (
            more_stmts
              (expr_stmt spot (binary spot (var (codes "r")) TokenKind.equal (address (codes "y"))))
              no_stmts))
          false)
        (more_stmts (expr_stmt spot (var (codes "r"))) no_stmts)))

-- `if (c) { return a; } return b;`
abbrev pick : TopLevel
pick = function_of (codes "pick") (pointer_param (codes "a") ∷ pointer_param (codes "b") ∷ []) (
    more_stmts (if_stmt spot (var (codes "c")) (return_stmt spot (some (var (codes "a")))) no_stmt)
      (more_stmts (return_stmt spot (some (var (codes "b")))) no_stmts))

abbrev no_info : CallInfo
no_info = record { builtin_width = 8; builtin_count = 0; builtin_text = codes "" }

-- `let x = 1; return pick(left, right);`
abbrev picker : Expr → Expr → TopLevel
picker left right = function_of (codes "g") (pointer_param (codes "p") ∷ []) (
    more_stmts (local_int (codes "x")) (
      more_stmts
        (return_stmt spot (
          some
            (call spot (var (codes "pick")) (more_exprs left (more_exprs right no_exprs)) no_info)))
        no_stmts))

stale_use_is_reported : length (check_borrows (stale_use ∷ []) []).0 ≡ 1
unfolding check_borrows
stale_use_is_reported = refl

local_is_reported :
    (check_borrows (pick ∷ picker (var (codes "p")) (address (codes "x")) ∷ []) []).1 ≡ false
unfolding check_borrows callee_name
local_is_reported = refl

-- Only the first borrow that a call may give is looked at.
local_is_missed :
    (check_borrows (pick ∷ picker (address (codes "x")) (var (codes "p")) ∷ []) []).1 ≡ true
unfolding check_borrows callee_name
local_is_missed = refl

abbrev borrow_of_y : BorrowInfo
borrow_of_y = record {
  source_depth = 1;
  source = codes "y";
  parameter = false;
  parameter_index = 0;
}

-- At the end of the block of `stale_use`.
abbrev inside_block : Inspector
inside_block = record {
  declared_depth = (codes "y", 1) ∷ (codes "r", 0) ∷ [];
  array_sizes = [];
  parameters = [];
  borrowed = (codes "r", borrow_of_y) ∷ [];
  aggregate_borrows = [];
  dangling = [];
  dangling_fields = [];
  diagnostics = [];
}

expire_scope-expression_example :
    (expression [] (var (codes "r")) (expire_scope 1 inside_block)).diagnostics
    ≡ error
        (codes "NQR-L4102")
        spot
        (codes "use of reference whose borrowed storage has left scope")
        (codes "rebind the reference to caller-owned or longer-lived storage before using it")
        (expire_scope 1 inside_block).diagnostics
unfolding expire_scope text_eq
expire_scope-expression_example =
    expire_scope-expression [] 1 inside_block spot (codes "r") borrow_of_y 0 refl refl refl
      (omega arith) (omega arith)

summary_passes-Stable_example :
    Stable (defined_functions (pick ∷ [])) (summary_passes 6 (defined_functions (pick ∷ [])) [])
    ⊎ AllUnstable 6 (defined_functions (pick ∷ [])) []
summary_passes-Stable_example = summary_passes-Stable 6 (defined_functions (pick ∷ [])) []

-- `p; let x = 1; if (c) { return p; } return &x;`
abbrev returns_local : FunctionDecl
returns_local = record {
  span = spot;
  name = codes "h";
  generic_params = [];
  params = pointer_param (codes "p") ∷ [];
  return_type = some (codes "*int");
  body = more_stmts (expr_stmt spot (var (codes "p"))) (
      more_stmts (local_int (codes "x")) (
        more_stmts
          (if_stmt spot (var (codes "c")) (return_stmt spot (some (var (codes "p")))) no_stmt)
          (more_stmts (return_stmt spot (some (address (codes "x")))) no_stmts)));
  is_extern = false;
  is_export = false;
}

check_borrows-refuses_local_example :
    (check_borrows ((pick ∷ []) ++ (function_decl returns_local ∷ stale_use ∷ [])) []).1 ≡ false
unfolding borrow_type
check_borrows-refuses_local_example =
    check_borrows-refuses_local (pick ∷ []) (stale_use ∷ []) returns_local []
      (more_stmts (expr_stmt spot (var (codes "p"))) no_stmts)
      (more_stmts
        (if_stmt spot (var (codes "c")) (return_stmt spot (some (var (codes "p")))) no_stmt)
        no_stmts)
      no_stmts spot spot spot spot false (codes "x") none (literal spot (int (pos 1))) 8 false refl
      refl refl ((tt, tt), tt)
