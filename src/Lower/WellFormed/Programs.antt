-- ===== src/Lower/WellFormed/Programs.antt =====
-- Lowered statements, functions and programs are well-formed.
use noe_code.Prelude.{
  ℕ, ◌≡◌, false, List, [], ◌∷◌, Option, none, some, All, arith, if_both, length, length-replicate,
  All-mono, sym, subst, Text,
}
use noe_code.Nir.{NirOp, blank, Function, Value, monostate}
use noe_code.Interp.State.{Machine, Shared}
use noe_code.Interp.Step.{Run}
use noe_code.Interp.Loop.{frame}
use noe_code.Interp.Block.{DestBelow, run_block}
use noe_code.Optimizer.Passes.{constants}
use noe_code.Optimizer.Constants.Sound.{constants-run_block}
use noe_code.Ast.{
  Expr, Stmt, Stmts, no_stmts, more_stmts, OptStmt, no_stmt, some_stmt, expr_stmt, let_stmt,
  block_stmt, if_stmt, while_stmt, return_stmt, throw_stmt, function_stmt, record_stmt, import_stmt,
  module_stmt, FunctionDecl, TopLevel, function_decl, record_decl, import_decl, module_decl,
  statement,
}
use noe_code.Lower.Builder.{Builder, Lower, ◌>>=◌, ◌>>◌, pure}
use noe_code.Lower.Statements.{
  lower_when, lower_if, lower_while, lower_exit, lower_return, lower_stmt, lower_stmts,
  lower_branches, empty_builder, ends_in_return, close, lower_body, lower_function, lower_entry,
  lower_functions, entry_of, lower,
}
use noe_code.Lower.WellFormed.{
  Anything, Fits, IsWellFormed, TargetFits-of, bind, seq, pure_any, emit_any, position_at,
  patch_any, Grows, Grows-refl,
}
use noe_code.Lower.WellFormed.Expressions.{IsSafe, IsSafeUnit}
use noe_code.Lower.WellFormed.Calls.{lower_expr-IsSafe}

lower_when-IsSafe :
    {c : Lower ℕ} {t : Lower (Unit {0})} → IsSafe c → IsSafeUnit t → IsSafeUnit (lower_when c t)
unfolding lower_when
lower_when-IsSafe hc ht n s = bind (hc n s) λ r n₁ s₁ l₁ k₁ h₁.
    bind position_at λ at n₂ s₂ l₂ k₂ h₂.
      seq (emit_any _ (omega arith)) λ n₃ s₃ l₃ k₃. seq (ht n₃ s₃) λ n₄ s₄ l₄ k₄. patch_any at

lower_if-IsSafe :
    {c : Lower ℕ} {t e : Lower (Unit {0})}
    → IsSafe c
    → IsSafeUnit t
    → IsSafeUnit e
    → IsSafeUnit (lower_if c t e)
unfolding lower_if
lower_if-IsSafe hc ht he n s = bind (hc n s) λ r n₁ s₁ l₁ k₁ h₁.
    bind position_at λ at n₂ s₂ l₂ k₂ h₂. seq (emit_any _ (omega arith)) λ n₃ s₃ l₃ k₃.
      seq (ht n₃ s₃) λ n₄ s₄ l₄ k₄. bind position_at λ end n₅ s₅ l₅ k₅ h₅.
        seq (emit_any _ (omega arith)) λ n₆ s₆ l₆ k₆.
          seq (patch_any at) λ n₇ s₇ l₇ k₇. seq (he n₇ s₇) λ n₈ s₈ l₈ k₈. patch_any end

lower_while-IsSafe :
    {c : Lower ℕ} {t : Lower (Unit {0})} → IsSafe c → IsSafeUnit t → IsSafeUnit (lower_while c t)
unfolding lower_while
lower_while-IsSafe hc ht n s = bind position_at λ start n₀ s₀ l₀ k₀ h₀.
    bind (hc n₀ s₀) λ r n₁ s₁ l₁ k₁ h₁. bind position_at λ at n₂ s₂ l₂ k₂ h₂.
      seq (emit_any _ (omega arith)) λ n₃ s₃ l₃ k₃.
        seq (ht n₃ s₃) λ n₄ s₄ l₄ k₄. seq (emit_any _ (omega arith)) λ n₅ s₅ l₅ k₅. patch_any at

-- `return` and `throw`
lower_exit-IsSafe : {m : Lower ℕ} (op : NirOp) → IsSafe m → IsSafeUnit (lower_exit op m)
unfolding lower_exit
lower_exit-IsSafe op h n s = bind (h n s) λ r n₁ s₁ l₁ k₁ h₁.
    emit_any _ (record { args = (h₁, tt); dest = tt; target = TargetFits-of op s₁ 0 (omega arith) })

lower_return-IsSafe : (value : Option Expr) → IsSafeUnit (lower_return value)
unfolding lower_return lower_exit
lower_return-IsSafe none n s = emit_any _ (omega arith)
lower_return-IsSafe (some e) n s = lower_exit-IsSafe NirOp.return (lower_expr-IsSafe e) n s

mutual
  unfolding lower_stmt

  stmt-IsSafe : (st : Stmt) → IsSafeUnit (lower_stmt st)
  stmt-IsSafe (let_stmt sp c x t e) n s =
      bind (lower_expr-IsSafe e n s) λ r n₁ s₁ l₁ k₁ h₁. emit_any _ (omega arith)
  stmt-IsSafe (expr_stmt sp e) n s = bind (lower_expr-IsSafe e n s) λ r n₁ s₁ l₁ k₁ h₁. pure_any tt
  stmt-IsSafe (block_stmt sp body u) n s = stmts-IsSafe body n s
  stmt-IsSafe (return_stmt sp v) n s = lower_return-IsSafe v n s
  stmt-IsSafe (throw_stmt sp e) n s = lower_exit-IsSafe NirOp.throw (lower_expr-IsSafe e) n s
  stmt-IsSafe (if_stmt sp c t o) n s = branches-IsSafe (lower_expr-IsSafe c) (stmt-IsSafe t) o n s
  stmt-IsSafe (while_stmt sp c body) n s =
      lower_while-IsSafe (lower_expr-IsSafe c) (stmt-IsSafe body) n s
  stmt-IsSafe (function_stmt f body) n s = pure_any tt
  stmt-IsSafe (record_stmt r) n s = pure_any tt
  stmt-IsSafe (import_stmt sp path) n s = pure_any tt
  stmt-IsSafe (module_stmt sp x) n s = pure_any tt

  stmts-IsSafe : (ss : Stmts) → IsSafeUnit (lower_stmts ss)
  stmts-IsSafe no_stmts n s = pure_any tt
  stmts-IsSafe (more_stmts st ss) n s =
      seq (stmt-IsSafe st n s) λ n₁ s₁ l₁ k₁. stmts-IsSafe ss n₁ s₁

  branches-IsSafe :
      {c : Lower ℕ} {t : Lower (Unit {0})}
      → IsSafe c
      → IsSafeUnit t
      → (o : OptStmt) → IsSafeUnit (lower_branches c t o)
  branches-IsSafe hc ht no_stmt n s = lower_when-IsSafe hc ht n s
  branches-IsSafe hc ht (some_stmt o) n s = lower_if-IsSafe hc ht (stmt-IsSafe o) n s

entry-IsSafe : (ts : List TopLevel) → IsSafeUnit (lower_entry ts)
unfolding lower_entry
entry-IsSafe [] n s = emit_any _ (omega arith)
entry-IsSafe (statement st ∷ ts) n s = seq (stmt-IsSafe st n s) λ n₁ s₁ l₁ k₁. entry-IsSafe ts n₁ s₁
entry-IsSafe (function_decl f ∷ ts) n s = entry-IsSafe ts n s
entry-IsSafe (record_decl r ∷ ts) n s = entry-IsSafe ts n s
entry-IsSafe (import_decl sp x ∷ ts) n s = entry-IsSafe ts n s
entry-IsSafe (module_decl sp x ∷ ts) n s = entry-IsSafe ts n s

close-IsSafe : IsSafeUnit close
unfolding close pure
close-IsSafe n s = record {
  run = λ b valid ln ls.
      if_both {X = Unit {0} × Builder}
        (λ r. Grows b r.1 × Anything r.0 r.1.next_reg (length r.1.code)) (ends_in_return b.code)
        (Grows-refl b valid, tt)
        ((emit_any {n = n} {s = s} (blank NirOp.return) (omega arith)).run b valid ln ls);
}

run-IsWellFormed : {m : Lower (Unit {0})} → IsSafeUnit m → IsWellFormed (m empty_builder).1
run-IsWellFormed {m} h = ((h 0 0).run empty_builder tt (omega arith) (omega arith)).0.valid

body-IsSafe : (ss : Stmts) → IsSafeUnit (lower_stmts ss >> close)
body-IsSafe ss n s = seq (stmts-IsSafe ss n s) λ n' s' ln ls. close-IsSafe n' s'

lower_body-IsWellFormed : (f : FunctionDecl) → IsWellFormed (lower_body f)
unfolding lower_body ◌>>◌ ◌>>=◌
lower_body-IsWellFormed f =
    if_both IsWellFormed f.is_extern tt (run-IsWellFormed (body-IsSafe f.body))

-- A function as the lowering leaves it: registers below `next_reg`, and jumps inside the code.
abbrev pub IsWellFormedFunction : Function → Type 0
IsWellFormedFunction f = All (Fits f.next_reg (length f.code)) f.code

functions-IsWellFormed : (ts : List TopLevel) → All IsWellFormedFunction (lower_functions ts)
unfolding lower_functions lower_function
functions-IsWellFormed [] = tt
functions-IsWellFormed (function_decl f ∷ ts) =
    (lower_body-IsWellFormed f, functions-IsWellFormed ts)
functions-IsWellFormed (record_decl r ∷ ts) = functions-IsWellFormed ts
functions-IsWellFormed (import_decl sp x ∷ ts) = functions-IsWellFormed ts
functions-IsWellFormed (module_decl sp x ∷ ts) = functions-IsWellFormed ts
functions-IsWellFormed (statement s ∷ ts) = functions-IsWellFormed ts

-- In the entry function and in every function of the lowered program, each register an instruction
-- reads or writes is below the function's register count, and each jump leads to an instruction of
-- the function or to the end of its code.
pub lower-IsWellFormed :
    (ts : List TopLevel)
    → IsWellFormedFunction (lower ts).entry × All IsWellFormedFunction (lower ts).functions
unfolding lower entry_of
lower-IsWellFormed ts = (run-IsWellFormed (entry-IsSafe ts), functions-IsWellFormed ts)

-- A frame of the function has the registers that its instructions write.
destinations :
    (f : Function) (n : ℕ)
    → n ≡ f.next_reg
    → IsWellFormedFunction f
    → All (λ i. DestBelow n i.dest) f.code
destinations f n e h = All-mono f.code (λ i k. subst (λ x. DestBelow x i.dest) (sym e) k.dest) h

-- The entry function of every lowered program, run from its fresh frame, does the same before and
-- after constant folding, up to and including the first instruction that leaves its code's order
-- (a taken jump, the end, a result or a failure), on a machine that does not check overflow.
pub constants-lower :
    {W : Type 0} (m : Machine W)
    (user : Text → Option (List Value → Shared W → Run (Value × Shared W))) (ts : List TopLevel)
    (shared : Shared W)
    → m.checked_overflow ≡ false
    → run_block m user
        (constants m.floats (lower ts).entry.code).0
        (frame m (lower ts).entry shared)
      ≡ run_block m user (lower ts).entry.code (frame m (lower ts).entry shared)
constants-lower m user ts shared unchecked =
    let f = (lower ts).entry in
    constants-run_block m user f.code (frame m f shared) unchecked
      (destinations f _ (length-replicate f.next_reg monostate) (lower-IsWellFormed ts).0)
