-- ===== src/Safety/Visit.antt =====
-- What a visit of an expression or a statement does to the annotator.
use noe_code.Prelude.{
  ℕ, ◌<◌, ◌≤◌, ◌≡◌, refl, ◌∙◌, Bool, true, false, not, ◌&&◌, codes, Option, none, some, Text,
  length, length-append, ltb, arith, Bool-cases, inl, inr, if◌then◌else◌,
}
use noe_code.Ast.{
  Span, Expr, Exprs, no_exprs, more_exprs, literal, name, unary, binary, call, cast, index, member,
  array, IndexInfo, Stmt, Stmts, no_stmts, more_stmts, OptStmt, no_stmt, some_stmt, expr_stmt,
  let_stmt, block_stmt, if_stmt, while_stmt, return_stmt, throw_stmt, function_stmt, record_stmt,
  import_stmt, module_stmt,
}
use noe_code.Diagnostics.{error}
use noe_code.Safety.Annotator.{
  Annotator, require_unsafe, require_unsafe_if, finish_index, is_star, pointer_type, expression,
  expressions, holds_name, fixed_array_count, expression_produces_pointer, initial_bound, declare,
  set_bound, set_pointer, leave_scope, leave_block, enter_block, statement_visit, statements_visit,
  branch_visit,
}
use noe_code.Safety.Guarded.{NoRaw, AllNoRaw, IsGuarded, AreGuarded, IsGuardedBranch}

-- From `a` to `b` the depth stays and the diagnostics grow; inside an unsafe block none is added, and
-- outside of one `P` holds unless one is added.
pub record Visit (a b : Annotator) (P : Type 0) : Type 0 where
  pub depth : b.unsafe_depth ≡ a.unsafe_depth
  pub grows : length a.diagnostics ≤ length b.diagnostics
  pub quiet : 0 < a.unsafe_depth → b.diagnostics ≡ a.diagnostics
  pub sound : a.unsafe_depth ≡ 0 → length b.diagnostics ≡ length a.diagnostics → P

pub stay :
    {P : Type 0} (a b : Annotator)
    → b.unsafe_depth ≡ a.unsafe_depth
    → b.diagnostics ≡ a.diagnostics
    → P
    → Visit a b P
stay a b d e p = record {
  depth = d;
  grows = rw e (omega arith);
  quiet = λ l. e;
  sound = λ z same. p;
}

module _ {P Q : Type 0} {a b c : Annotator} where
  pub both : Visit a b P → Visit b c Q → Visit a c (P × Q)
  both p q = record {
    depth = q.depth ∙ p.depth;
    grows = omega (arith, p.grows, q.grows);
    quiet = λ l. q.quiet (omega (arith, l, p.depth)) ∙ p.quiet l;
    sound = λ z same. (
      p.sound z (omega (arith, p.grows, q.grows, same)),
      q.sound (omega (arith, z, p.depth)) (omega (arith, p.grows, q.grows, same)),
    );
  }

module _ {P Q : Type 0} {a b : Annotator} where
  pub weaken : (P → Q) → Visit a b P → Visit a b Q
  weaken f p = record {
    depth = p.depth;
    grows = p.grows;
    quiet = p.quiet;
    sound = λ z same. f (p.sound z same);
  }

require_unsafe-Visit :
    (sp : Span) (operation : Text) (a : Annotator) → Visit a (require_unsafe sp operation a) ⊥
unfolding require_unsafe error
require_unsafe-Visit sp operation a = elim (Bool-cases (ltb 0 a.unsafe_depth)) [
  | inl e ↦ rw e (record {
    depth = refl;
    grows = omega arith;
    quiet = λ l. refl;
    sound = λ z same. ground (arith, e, z);
  })
  | inr e ↦ rw e (record {
    depth = refl;
    grows = omega (arith, length-append a.diagnostics);
    quiet = λ l. absurd (ground (arith, e, l));
    sound = λ z same. omega (arith, length-append a.diagnostics, same);
  })
]

require_unsafe_if-Visit :
    (test : Bool) (sp : Span) (operation : Text) (a : Annotator)
    → Visit a (require_unsafe_if test sp operation a) (test ≡ false)
unfolding require_unsafe_if
require_unsafe_if-Visit true sp operation a =
    weaken (λ k. elim k [ ]) (require_unsafe-Visit sp operation a)
require_unsafe_if-Visit false sp operation a = stay a a refl refl refl

finish_index-Visit :
    (sp : Span) (o i : Expr) (info : IndexInfo) (a : Annotator)
    → Visit a (finish_index sp o i info a).1 Unit
unfolding finish_index
finish_index-Visit sp (name sn x) i info a =
    weaken (λ e. tt)
      (require_unsafe_if-Visit (holds_name a.raw_pointers x && not info.base_is_slice) sp
        (codes "raw pointer indexing") a)
finish_index-Visit sp o i info a = stay a a refl refl tt

mutual
  unfolding expression

  expression-Visit : (e : Expr) (a : Annotator) → Visit a (expression e a).1 (NoRaw e)
  expression-Visit (literal sp v) a = stay a a refl refl tt
  expression-Visit (name sp x) a = stay a a refl refl tt
  expression-Visit (index sp o i info) a =
      let r = expression o a in
      let q = expression i r.1 in
      weaken (λ (h, k). h)
        (both (both (expression-Visit o a) (expression-Visit i r.1))
          (finish_index-Visit sp r.0 q.0 info q.1))
  expression-Visit (unary sp op e w v) a =
      both (expression-Visit e a)
        (require_unsafe_if-Visit (is_star op) sp (codes "raw pointer dereference") _)
  expression-Visit (binary sp l op r) a = both (expression-Visit l a) (expression-Visit r _)
  expression-Visit (call sp callee args info) a =
      both (expression-Visit callee a) (expressions-Visit args _)
  expression-Visit (cast sp e t) a =
      both (expression-Visit e a)
        (require_unsafe_if-Visit (pointer_type t) sp (codes "cast to raw pointer") _)
  expression-Visit (member sp o m info) a =
      both (expression-Visit o a)
        (require_unsafe_if-Visit info.base_is_pointer sp (codes "raw pointer member access") _)
  expression-Visit (array sp es size) a = expressions-Visit es a

  expressions-Visit : (es : Exprs) (a : Annotator) → Visit a (expressions es a).1 (AllNoRaw es)
  expressions-Visit no_exprs a = stay a a refl refl tt
  expressions-Visit (more_exprs e es) a = both (expression-Visit e a) (expressions-Visit es _)

set_bound-Visit : (x : Text) (n : Option ℕ) (a : Annotator) → Visit a (set_bound x n a) Unit
unfolding set_bound
set_bound-Visit x none a = stay _ _ refl refl tt
set_bound-Visit x (some n) a = stay _ _ refl refl tt

set_pointer-Visit : (x : Text) (p : Bool) (a : Annotator) → Visit a (set_pointer x p a) Unit
unfolding set_pointer
set_pointer-Visit x true a = stay _ _ refl refl tt
set_pointer-Visit x false a = stay _ _ refl refl tt

declare-Visit :
    (x : Text) (t : Option Text) (e : Expr) (a : Annotator) → Visit a (declare x t e a) Unit
unfolding declare
declare-Visit x (some t) e a =
    weaken (λ h. tt)
      (both (set_bound-Visit x (fixed_array_count t) a) (set_pointer-Visit x (pointer_type t) _))
declare-Visit x none e a =
    let b = set_bound x (initial_bound e) a in
    weaken (λ h. tt)
      (both (set_bound-Visit x (initial_bound e) a)
        (set_pointer-Visit x (expression_produces_pointer b.raw_pointers e) b))

leave_scope-Visit : (saved a : Annotator) → Visit a (leave_scope saved a) Unit
unfolding leave_scope
leave_scope-Visit saved a = stay _ _ refl refl tt

-- A block, from the visit of its statements: one that is unsafe asks nothing of them.
block-Visit :
    {P : Type 0} (a b : Annotator) (u : Bool)
    → Visit (enter_block u a) b P
    → Visit a (leave_block a b) (if u then Unit else P)
unfolding enter_block leave_block
block-Visit a b true v = record {
  depth = refl;
  grows = omega (arith, v.grows);
  quiet = λ l. v.quiet (omega arith);
  sound = λ z same. tt;
}
block-Visit a b false v = record { depth = refl; grows = v.grows; quiet = v.quiet; sound = v.sound }

IsGuarded-block :
    (sp : Span) (body : Stmts) (u : Bool)
    → (if u then Unit else AreGuarded body)
    → IsGuarded (block_stmt sp body u)
IsGuarded-block sp body true h = tt
IsGuarded-block sp body false h = h

mutual
  unfolding statement_visit

  statement-Visit : (s : Stmt) (a : Annotator) → Visit a (statement_visit s a).1 (IsGuarded s)
  statement-Visit (let_stmt sp c x t e) a =
      weaken (λ (h, k). h) (both (expression-Visit e a) (declare-Visit x t _ _))
  statement-Visit (expr_stmt sp e) a = expression-Visit e a
  statement-Visit (return_stmt sp none) a = stay a a refl refl tt
  statement-Visit (return_stmt sp (some e)) a = expression-Visit e a
  statement-Visit (throw_stmt sp e) a = expression-Visit e a
  statement-Visit (block_stmt sp body u) a =
      weaken (IsGuarded-block sp body u)
        (block-Visit a _ u (statements-Visit body (enter_block u a)))
  statement-Visit (if_stmt sp c t o) a =
      weaken (λ ((h, (k, u)), (j, v)). (h, k, j))
        (both
          (both (expression-Visit c a)
            (both (statement-Visit t _) (leave_scope-Visit (expression c a).1 _)))
          (both (branch-Visit o _) (leave_scope-Visit (expression c a).1 _)))
  statement-Visit (while_stmt sp c body) a =
      weaken (λ (h, (k, u)). (h, k))
        (both (expression-Visit c a)
          (both (statement-Visit body _) (leave_scope-Visit (expression c a).1 _)))
  statement-Visit (function_stmt f body) a = stay a a refl refl tt
  statement-Visit (record_stmt r) a = stay a a refl refl tt
  statement-Visit (import_stmt sp path) a = stay a a refl refl tt
  statement-Visit (module_stmt sp x) a = stay a a refl refl tt

  pub statements-Visit :
      (ss : Stmts) (a : Annotator) → Visit a (statements_visit ss a).1 (AreGuarded ss)
  statements-Visit no_stmts a = stay a a refl refl tt
  statements-Visit (more_stmts s ss) a = both (statement-Visit s a) (statements-Visit ss _)

  branch-Visit : (o : OptStmt) (a : Annotator) → Visit a (branch_visit o a).1 (IsGuardedBranch o)
  branch-Visit no_stmt a = stay a a refl refl tt
  branch-Visit (some_stmt s) a = statement-Visit s a
