-- ===== src/Lower/WellFormed/Calls.antt =====
-- Lowered calls, arrays and whole expressions keep a function well-formed.
use noe_code.Prelude.{
  ℕ, ◌<◌, ◌≡◌, refl, suc, List, [], ◌∷◌, Option, none, some, Text, arith, ◌==◌, if◌then◌else◌,
  if_both, text_eq, codes, find_text,
}
use noe_code.Nir.{NirOp, Instruction, blank}
use noe_code.Interp.Values.{is_empty}
use noe_code.Ast.{
  TokenKind, Expr, Exprs, no_exprs, more_exprs, literal, name, unary, binary, call, cast, index,
  member, array, CallInfo,
}
use noe_code.Lower.Builder.{Lower, named}
use noe_code.Lower.Expressions.{callee_name}
use noe_code.Lower.Calls.{
  CallArgs, lower_unknown, lower_len, lower_slice, lower_reserved, lower_plain, lower_atomic,
  lower_other, lower_call, lower_array, lower_element, lower_expr, lower_address, lower_elements,
  lower_args, lower_first, lower_second, lower_rest, count_exprs, atomics, has_result,
}
use noe_code.Lower.WellFormed.{
  Ensures, IsReg, Anything, TargetFits, TargetFits-of, bind, seq, pure-IsReg, pure_regs, pure_any,
  emit_any, emit-IsReg, fresh-IsReg,
}
use noe_code.Lower.WellFormed.Expressions.{
  IsSafe, AreSafe, checked_operand-IsSafe, load_from-IsSafe, address_of_index-IsSafe,
  address_of_member-IsSafe, lower_unary-IsSafe, lower_binary-IsSafe,
}

record CallIsSafe (args : CallArgs) : Type 0 where
  all : AreSafe args.all
  first : IsSafe args.first
  second : IsSafe args.second
  rest : AreSafe args.rest

lower_unknown-IsSafe : IsSafe lower_unknown
unfolding lower_unknown
lower_unknown-IsSafe n s = emit-IsReg _ tt tt

lower_len-IsSafe :
    (info : CallInfo) (args : CallArgs) → CallIsSafe args → IsSafe (lower_len info args)
unfolding lower_len
lower_len-IsSafe info args h n s =
    if_both (Ensures n s IsReg) (info.builtin_count == 0)
      (bind (h.first n s) λ r n₁ s₁ l₁ k₁ h₁.
        seq (emit_any _ (omega arith)) λ n₂ s₂ l₂ k₂. emit-IsReg _ (omega arith) tt)
      (emit-IsReg _ tt tt)

lower_slice-IsSafe :
    (info : CallInfo) (args : CallArgs) → CallIsSafe args → IsSafe (lower_slice info args)
unfolding lower_slice
lower_slice-IsSafe info args h n s = bind (h.first n s) λ r n₁ s₁ l₁ k₁ h₁.
    bind (if_both (Ensures n₁ s₁ IsReg) (args.count == 2) (h.second n₁ s₁) (emit-IsReg _ tt tt))
      λ q n₂ s₂ l₂ k₂ h₂. emit-IsReg _ (omega arith) tt

-- An operation of a call, whose target is no jump target.
abbrev IsPlain : Instruction → Type 0
IsPlain i = (t : ℕ) → TargetFits t i.op i.target

lower_reserved-IsSafe :
    {m : Lower (List ℕ)} (i : Instruction) → IsPlain i → AreSafe m → IsSafe (lower_reserved i m)
unfolding lower_reserved
lower_reserved-IsSafe i hi h n s = bind fresh-IsReg λ d n₁ s₁ l₁ k₁ h₁.
    bind (h n₁ s₁) λ rs n₂ s₂ l₂ k₂ h₂.
      seq
        (emit_any (record i { dest = some d; args = rs })
          (record { args = h₂; dest = omega arith; target = hi s₂ }))
        λ n₃ s₃ l₃ k₃. pure-IsReg d (omega arith)

lower_plain-IsSafe :
    {m : Lower (List ℕ)} (i : Instruction)
    → IsPlain i
    → i.dest ≡ none
    → AreSafe m
    → IsSafe (lower_plain i m)
unfolding lower_plain
lower_plain-IsSafe i hi e h n s = bind (h n s) λ rs n₁ s₁ l₁ k₁ h₁.
    seq (emit_any (record i { args = rs }) (record { args = h₁; dest = rw e tt; target = hi s₁ }))
      λ n₂ s₂ l₂ k₂. emit-IsReg _ tt tt

lower_atomic-IsSafe :
    (op : NirOp) (info : CallInfo) (args : CallArgs)
    → ((s : ℕ) → TargetFits s op 0)
    → CallIsSafe args
    → IsSafe (lower_atomic op info args)
unfolding lower_atomic
lower_atomic-IsSafe op info args ho h n s =
    if_both (Ensures n s IsReg) (has_result op)
      (lower_reserved-IsSafe (record (blank op) { width = info.builtin_width }) ho h.all n s)
      (lower_plain-IsSafe (record (blank op) { width = info.builtin_width }) ho refl h.all n s)

call-IsSafe :
    (callee : Text) (info : CallInfo) (args : CallArgs) (atomic : Option NirOp)
    → CallIsSafe args
    → IsSafe (lower_other callee info args atomic)
unfolding lower_other
call-IsSafe callee info args (some op) h n s =
    lower_atomic-IsSafe op info args (λ t. TargetFits-of op t 0 (omega arith)) h n s
call-IsSafe callee info args none h n s =
    if_both (Ensures n s IsReg) (text_eq callee (codes "asm")) (emit-IsReg _ tt tt) (
      if_both (Ensures n s IsReg) (text_eq callee (codes "intrinsic"))
        (lower_reserved-IsSafe (named NirOp.intrinsic info.builtin_text []) (λ t. tt) h.rest n s)
        (lower_reserved-IsSafe
          (named NirOp.call (if is_empty callee then codes "<call>" else callee) []) (λ t. tt) h.all
          n s))

lower_call-IsSafe :
    (callee : Text) (info : CallInfo) (args : CallArgs)
    → CallIsSafe args
    → IsSafe (lower_call callee info args)
unfolding lower_call
lower_call-IsSafe callee info args h n s =
    if_both (Ensures n s IsReg) (text_eq callee (codes "len")) (lower_len-IsSafe info args h n s) (
      if_both (Ensures n s IsReg) (text_eq callee (codes "slice"))
        (lower_slice-IsSafe info args h n s)
        (call-IsSafe callee info args (find_text atomics callee) h n s))

lower_array-IsSafe :
    {f : ℕ → Lower (Unit {0})} (count size : ℕ)
    → ((base n s : ℕ) → base < n → Ensures n s Anything (f base))
    → IsSafe (lower_array count size f)
unfolding lower_array
lower_array-IsSafe count size h n s =
    bind (emit-IsReg _ tt tt)
      λ base n₁ s₁ l₁ k₁ h₁. seq (h base n₁ s₁ h₁) λ n₂ s₂ l₂ k₂. pure-IsReg base (omega arith)

lower_element-IsSafe :
    {m : Lower ℕ} (base offset size n s : ℕ)
    → base < n
    → IsSafe m
    → Ensures n s Anything (lower_element base offset size m)
unfolding lower_element
lower_element-IsSafe base offset size n s hb h = bind (h n s) λ v n₁ s₁ l₁ k₁ h₁.
    bind (emit-IsReg _ (omega arith) tt) λ a n₂ s₂ l₂ k₂ h₂. emit_any _ (omega arith)

mutual
  unfolding lower_expr

  expr-IsSafe : (e : Expr) → IsSafe (lower_expr e)
  expr-IsSafe (literal sp v) n s = emit-IsReg _ tt tt
  expr-IsSafe (array sp es size) n s =
      lower_array-IsSafe (count_exprs es) size (λ base n s l. elements-IsSafe es size 0 base n s l)
        n s
  expr-IsSafe (name sp x) n s = emit-IsReg _ tt tt
  expr-IsSafe (unary sp op e w v) n s =
      lower_unary-IsSafe op w v (expr-IsSafe e) (address-IsSafe e) n s
  expr-IsSafe (member sp o m info) n s =
      load_from-IsSafe _ _ (address_of_member-IsSafe info (expr-IsSafe o) (address-IsSafe o)) n s
  expr-IsSafe (index sp o i info) n s =
      load_from-IsSafe _ _ (address_of_index-IsSafe info (expr-IsSafe o) (expr-IsSafe i)) n s
  expr-IsSafe (cast sp e t) n s =
      bind (expr-IsSafe e n s) λ a n₁ s₁ l₁ k₁ h₁. emit-IsReg _ (omega arith) tt
  expr-IsSafe (binary sp l op r) n s =
      lower_binary-IsSafe l op (expr-IsSafe l) (address-IsSafe l) (expr-IsSafe r) n s
  expr-IsSafe (call sp callee args info) n s =
      lower_call-IsSafe (callee_name callee) info _
        (record {
          all = args-AreSafe args;
          first = first-IsSafe args;
          second = second-IsSafe args;
          rest = rest-AreSafe args;
        })
        n s

  address-IsSafe : (e : Expr) → IsSafe (lower_address e)
  address-IsSafe (name sp x) n s = emit-IsReg _ tt tt
  address-IsSafe (unary sp TokenKind.star e w v) n s = checked_operand-IsSafe (expr-IsSafe e) n s
  address-IsSafe (index sp o i info) n s =
      address_of_index-IsSafe info (expr-IsSafe o) (expr-IsSafe i) n s
  address-IsSafe (member sp o m info) n s =
      address_of_member-IsSafe info (expr-IsSafe o) (address-IsSafe o) n s
  address-IsSafe _ n s = emit-IsReg _ tt tt

  elements-IsSafe :
      (es : Exprs) (size at base n s : ℕ)
      → base < n
      → Ensures n s Anything (lower_elements es size at base)
  elements-IsSafe no_exprs size at base n s l = pure_any tt
  elements-IsSafe (more_exprs e es) size at base n s l =
      seq (lower_element-IsSafe base _ size n s l (expr-IsSafe e))
        λ n₁ s₁ l₁ k₁. elements-IsSafe es size (suc at) base n₁ s₁ (omega arith)

  args-AreSafe : (es : Exprs) → AreSafe (lower_args es)
  args-AreSafe no_exprs n s = pure_regs [] tt
  args-AreSafe (more_exprs e es) n s = bind (expr-IsSafe e n s) λ r n₁ s₁ l₁ k₁ h₁.
      bind (args-AreSafe es n₁ s₁) λ rs n₂ s₂ l₂ k₂ h₂. pure_regs (r ∷ rs) (omega arith, h₂)

  first-IsSafe : (es : Exprs) → IsSafe (lower_first es)
  first-IsSafe no_exprs n s = lower_unknown-IsSafe n s
  first-IsSafe (more_exprs e es) n s = expr-IsSafe e n s

  second-IsSafe : (es : Exprs) → IsSafe (lower_second es)
  second-IsSafe no_exprs n s = lower_unknown-IsSafe n s
  second-IsSafe (more_exprs e es) n s = first-IsSafe es n s

  rest-AreSafe : (es : Exprs) → AreSafe (lower_rest es)
  rest-AreSafe no_exprs n s = pure_regs [] tt
  rest-AreSafe (more_exprs e es) n s = args-AreSafe es n s

pub lower_expr-IsSafe : (e : Expr) → IsSafe (lower_expr e)
lower_expr-IsSafe e = expr-IsSafe e
