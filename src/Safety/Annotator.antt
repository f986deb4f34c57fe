-- ===== src/Safety/Annotator.antt =====
-- `Annotator` and `SafetyAnnotator::check` (Compiler/safety.cpp). A visit gives the tree with the bounds it filled in, and the state after it.
use noe_code.Prelude.{
  ℕ, suc, ◌+◌, ◌-◌, Bool, true, false, not, ◌&&◌, ◌||◌, List, [], ◌∷◌, ◌++◌, Option, none, some,
  Text, codes, text_eq, find_text, erase_text, length, leb, ltb, ◌==◌, if◌then◌else◌,
}
use noe_code.Prelude.Opt.{◌>>=◌}
use noe_code.Types.Names.{strip, rfind, substr, stoull}
use noe_code.Ast.{
  TokenKind, Span, Diagnostic, Expr, Exprs, no_exprs, more_exprs, literal, name, unary, binary,
  call, cast, index, member, array, IndexInfo, Parameter, Stmt, Stmts, no_stmts, more_stmts,
  OptStmt, no_stmt, some_stmt, expr_stmt, let_stmt, block_stmt, if_stmt, while_stmt, return_stmt,
  throw_stmt, function_stmt, record_stmt, import_stmt, module_stmt, FunctionDecl, TopLevel,
  function_decl,
}
use noe_code.Diagnostics.{error}
use noe_code.Lower.Calls.{count_exprs}

unfoldable pub fixed_array_count : Text → Option ℕ
unfolding strip rfind substr stoull
fixed_array_count type = if ltb (length type) 4 then none else (do
  rest ← strip (codes "[") type
  elim (strip (codes "]") rest) [
    | some _ ↦ none
    | none ↦ (do
      semi ← rfind b';' type
      close ← rfind b']' type
      if leb close semi then none else stoull (substr type (semi + 1) (close - semi - 1)))
  ])

unfoldable pub pointer_type : Text → Bool
unfolding strip
pointer_type type = elim (strip (codes "*") type) [ some _ ↦ true | none ↦ false ]

-- `bounds_`, `rawPointers_`, `unsafeDepth_` and the diagnostics.
pub record Annotator : Type 0 where
  pub bounds : List (Text × ℕ)
  pub raw_pointers : List Text
  pub unsafe_depth : ℕ
  pub diagnostics : List Diagnostic

unfoldable pub holds_name : List Text → Text → Bool
holds_name [] x = false
holds_name (y ∷ ys) x = text_eq y x || holds_name ys x

unfoldable pub erase_name : List Text → Text → List Text
erase_name [] x = []
erase_name (y ∷ ys) x = let rest = erase_name ys x in if text_eq y x then rest else y ∷ rest

unfoldable pub require_unsafe : Span → Text → Annotator → Annotator
unfolding error
require_unsafe span operation a = if ltb 0 a.unsafe_depth then a else record a {
  diagnostics =
      error (codes "NQR-S3100") span (operation ++ codes " requires an explicit unsafe block")
        (codes "wrap only the smallest raw-memory operation in unsafe { ... }") a.diagnostics;
}

-- `if(test)requireUnsafe(span,operation);`
unfoldable pub require_unsafe_if : Bool → Span → Text → Annotator → Annotator
unfolding require_unsafe
require_unsafe_if test span operation a = if test then require_unsafe span operation a else a

unfoldable pub expression_produces_pointer : List Text → Expr → Bool
unfolding pointer_type holds_name
expression_produces_pointer raw (unary sp TokenKind.ampersand e w v) = true
expression_produces_pointer raw (cast sp e t) = pointer_type t
expression_produces_pointer raw (name sp x) = holds_name raw x
expression_produces_pointer raw _ = false

abbrev pub with_bound : IndexInfo → Option ℕ → IndexInfo
with_bound info none = info
with_bound info (some n) = record info { has_fixed_bound = true; fixed_bound = n }

-- The bound of an index whose object and index have been visited, and its raw-pointer test.
unfoldable pub finish_index : Span → Expr → Expr → IndexInfo → Annotator → Expr × Annotator
unfolding require_unsafe_if holds_name find_text
finish_index sp (name sn x) i info a =
    let bound = with_bound info (find_text a.bounds x) in
    (
      index sp (name sn x) i bound,
      require_unsafe_if (holds_name a.raw_pointers x && not info.base_is_slice) sp
          (codes "raw pointer indexing") a,
    )
finish_index sp (array sa es size) i info a =
    (index sp (array sa es size) i (with_bound info (some (count_exprs es))), a)
finish_index sp o i info a = (index sp o i info, a)

unfoldable pub is_star : TokenKind → Bool
is_star TokenKind.star = true
is_star _ = false

unfoldable mutual
  unfolding require_unsafe_if finish_index

  pub expression : Expr → Annotator → Expr × Annotator
  expression (literal sp v) a = (literal sp v, a)
  expression (name sp x) a = (name sp x, a)
  expression (index sp o i info) a =
      let r = expression o a in let q = expression i r.1 in finish_index sp r.0 q.0 info q.1
  expression (unary sp op e w v) a =
      let r = expression e a in
      (unary sp op r.0 w v, require_unsafe_if (is_star op) sp (codes "raw pointer dereference") r.1)
  expression (binary sp left op right) a =
      let r = expression left a in let q = expression right r.1 in (binary sp r.0 op q.0, q.1)
  expression (call sp callee args info) a =
      let r = expression callee a in let q = expressions args r.1 in (call sp r.0 q.0 info, q.1)
  expression (cast sp e t) a =
      let r = expression e a in
      (cast sp r.0 t, require_unsafe_if (pointer_type t) sp (codes "cast to raw pointer") r.1)
  expression (member sp o m info) a =
      let r = expression o a in
      (
        member sp r.0 m info,
        require_unsafe_if info.base_is_pointer sp (codes "raw pointer member access") r.1,
      )
  expression (array sp es size) a = let r = expressions es a in (array sp r.0 size, r.1)

  pub expressions : Exprs → Annotator → Exprs × Annotator
  expressions no_exprs a = (no_exprs, a)
  expressions (more_exprs e es) a =
      let r = expression e a in let q = expressions es r.1 in (more_exprs r.0 q.0, q.1)

-- What is known of a name after its declaration, by the annotation or else by the initializer.
unfoldable pub set_bound : Text → Option ℕ → Annotator → Annotator
unfolding erase_text
set_bound x none a = record a { bounds = erase_text a.bounds x }
set_bound x (some n) a = record a { bounds = (x, n) ∷ a.bounds }

unfoldable pub set_pointer : Text → Bool → Annotator → Annotator
unfolding erase_name
set_pointer x false a = record a { raw_pointers = erase_name a.raw_pointers x }
set_pointer x true a = record a { raw_pointers = x ∷ a.raw_pointers }

unfoldable pub initial_bound : Expr → Option ℕ
initial_bound (array sp es size) = some (count_exprs es)
initial_bound _ = none

-- An array is no pointer for `expression_produces_pointer`, and its name is no pointer in the source.
unfoldable pub declare : Text → Option Text → Expr → Annotator → Annotator
unfolding set_bound set_pointer initial_bound fixed_array_count pointer_type
    expression_produces_pointer
declare x (some type) e a =
    set_pointer x (pointer_type type) (set_bound x (fixed_array_count type) a)
declare x none e a =
    let b = set_bound x (initial_bound e) a in
    set_pointer x (expression_produces_pointer b.raw_pointers e) b

-- The scope as it was, with the diagnostics since.
unfoldable pub leave_scope : Annotator → Annotator → Annotator
leave_scope saved a = record a { bounds = saved.bounds; raw_pointers = saved.raw_pointers }

unfoldable pub leave_block : Annotator → Annotator → Annotator
leave_block saved a = record saved { diagnostics = a.diagnostics }

unfoldable pub enter_block : Bool → Annotator → Annotator
enter_block true a = record a { unsafe_depth = suc a.unsafe_depth }
enter_block false a = a

unfoldable mutual
  unfolding expression declare leave_scope leave_block enter_block

  pub statement_visit : Stmt → Annotator → Stmt × Annotator
  statement_visit (let_stmt sp c x type e) a =
      let r = expression e a in (let_stmt sp c x type r.0, declare x type r.0 r.1)
  statement_visit (expr_stmt sp e) a = let r = expression e a in (expr_stmt sp r.0, r.1)
  statement_visit (return_stmt sp none) a = (return_stmt sp none, a)
  statement_visit (return_stmt sp (some e)) a =
      let r = expression e a in (return_stmt sp (some r.0), r.1)
  statement_visit (throw_stmt sp e) a = let r = expression e a in (throw_stmt sp r.0, r.1)
  statement_visit (block_stmt sp body u) a =
      let r = statements_visit body (enter_block u a) in (block_stmt sp r.0 u, leave_block a r.1)
  statement_visit (if_stmt sp c t o) a =
      let r = expression c a in
      let q = statement_visit t r.1 in
      let p = branch_visit o (leave_scope r.1 q.1) in (if_stmt sp r.0 q.0 p.0, leave_scope r.1 p.1)
  statement_visit (while_stmt sp c body) a =
      let r = expression c a in
      let q = statement_visit body r.1 in (while_stmt sp r.0 q.0, leave_scope r.1 q.1)
  statement_visit (function_stmt f body) a = ((function_stmt f body), a)
  statement_visit (record_stmt r) a = ((record_stmt r), a)
  statement_visit (import_stmt sp path) a = ((import_stmt sp path), a)
  statement_visit (module_stmt sp x) a = ((module_stmt sp x), a)

  pub statements_visit : Stmts → Annotator → Stmts × Annotator
  statements_visit no_stmts a = (no_stmts, a)
  statements_visit (more_stmts s ss) a =
      let r = statement_visit s a in let q = statements_visit ss r.1 in (more_stmts r.0 q.0, q.1)

  pub branch_visit : OptStmt → Annotator → OptStmt × Annotator
  branch_visit no_stmt a = (no_stmt, a)
  branch_visit (some_stmt s) a = let r = statement_visit s a in (some_stmt r.0, r.1)

unfoldable pub declare_param : Text → Option Text → Annotator → Annotator
unfolding fixed_array_count pointer_type
declare_param x none a = a
declare_param x (some type) a = record a {
  bounds = elim (fixed_array_count type) [ none ↦ a.bounds | some n ↦ (x, n) ∷ a.bounds ];
  raw_pointers = if pointer_type type then x ∷ a.raw_pointers else a.raw_pointers;
}

unfoldable pub declare_params : List Parameter → Annotator → Annotator
unfolding declare_param
declare_params [] a = a
declare_params (p ∷ ps) a = declare_params ps (declare_param p.name p.annotation a)

-- `Annotator::function`, on a new annotator. The body is a block that is not unsafe, so its statements
-- are visited from the depth 0; nothing is visited after it.
unfoldable pub function_visit : FunctionDecl → List Diagnostic → FunctionDecl × List Diagnostic
unfolding declare_params statements_visit
function_visit f items =
    let start : Annotator = record {
      bounds = [];
      raw_pointers = [];
      unsafe_depth = 0;
      diagnostics = items;
    } in
    let r = statements_visit f.body (declare_params f.params start) in
    (record f { body = r.0 }, r.1.diagnostics)

unfoldable pub check_from : List TopLevel → List Diagnostic → List TopLevel × List Diagnostic
unfolding function_visit
check_from [] items = ([], items)
check_from (function_decl f ∷ ts) items =
    let r = if f.is_extern then (f, items) else function_visit f items in
    let q = check_from ts r.1 in (function_decl r.0 ∷ q.0, q.1)
check_from (t ∷ ts) items = let q = check_from ts items in (t ∷ q.0, q.1)

-- `SafetyAnnotator::check`: the program with its bounds, the diagnostics, and whether none was new.
unfoldable pub check : List TopLevel → List Diagnostic → List TopLevel × List Diagnostic × Bool
unfolding check_from
check ts items = let r = check_from ts items in (r.0, r.1, length r.1 == length items)
