-- ===== src/Lower/WellFormed/Expressions.antt =====
-- Lowered expressions keep a function well-formed, and give a register of it.
use noe_code.Prelude.{ℕ, Bool, List, arith, if_both}
use noe_code.Ast.{TokenKind, Expr, name, IndexInfo, MemberInfo}
use noe_code.Lower.Builder.{Lower}
use noe_code.Lower.Expressions.{
  address_of_index, address_of_member, load_from, checked_operand, lower_unary, assign_to,
  temporary, lower_and, lower_or, lower_binary,
}
use noe_code.Lower.WellFormed.{
  Ensures, IsReg, AreRegs, Anything, bind, seq, pure-IsReg, emit_any, emit-IsReg, Grows-refl,
  position_at, patch_any,
}

-- A step that gives a register, registers or nothing, wherever it starts.
abbrev pub IsSafe : Lower ℕ → Type 0
IsSafe m = (n s : ℕ) → Ensures n s IsReg m

abbrev pub AreSafe : Lower (List ℕ) → Type 0
AreSafe m = (n s : ℕ) → Ensures n s AreRegs m

abbrev pub IsSafeUnit : Lower (Unit {0}) → Type 0
IsSafeUnit m = (n s : ℕ) → Ensures n s Anything m

pub checked_operand-IsSafe : {m : Lower ℕ} → IsSafe m → IsSafe (checked_operand m)
unfolding checked_operand
checked_operand-IsSafe h n s =
    bind (h n s)
      λ r n₁ s₁ l₁ k₁ hr. seq (emit_any _ (omega arith)) λ n₂ s₂ l₂ k₂. pure-IsReg r (omega arith)

pub load_from-IsSafe : {m : Lower ℕ} (w : ℕ) (v : Bool) → IsSafe m → IsSafe (load_from m w v)
unfolding load_from
load_from-IsSafe w v h n s = bind (h n s) λ r n₁ s₁ l₁ k₁ hr. emit-IsReg _ (omega arith) tt

pub address_of_index-IsSafe :
    {o i : Lower ℕ} (info : IndexInfo) → IsSafe o → IsSafe i → IsSafe (address_of_index info o i)
unfolding address_of_index
address_of_index-IsSafe {o} {i} info ho hi n s =
    if_both (Ensures n s IsReg) info.base_is_slice
      (bind (ho n s) λ base n₁ s₁ l₁ k₁ h₁. bind (hi n₁ s₁) λ idx n₂ s₂ l₂ k₂ h₂.
        seq (emit_any _ (omega arith)) λ n₃ s₃ l₃ k₃.
          bind (emit-IsReg _ (omega arith) tt) λ length n₄ s₄ l₄ k₄ h₄.
            seq (emit_any _ (omega arith)) λ n₅ s₅ l₅ k₅.
              bind (emit-IsReg _ (omega arith) tt) λ elements n₆ s₆ l₆ k₆ h₆.
                seq (emit_any _ (omega arith)) λ n₇ s₇ l₇ k₇. emit-IsReg _ (omega arith) tt)
      (if_both (Ensures n s IsReg) info.has_fixed_bound
        (bind (ho n s) λ base n₁ s₁ l₁ k₁ h₁. bind (hi n₁ s₁) λ idx n₂ s₂ l₂ k₂ h₂.
          bind (emit-IsReg _ tt tt) λ length n₃ s₃ l₃ k₃ h₃.
            seq (emit_any _ (omega arith)) λ n₄ s₄ l₄ k₄. emit-IsReg _ (omega arith) tt)
        (bind (ho n s) λ base n₁ s₁ l₁ k₁ h₁. bind (hi n₁ s₁) λ idx n₂ s₂ l₂ k₂ h₂.
          seq (emit_any _ (omega arith)) λ n₃ s₃ l₃ k₃. emit-IsReg _ (omega arith) tt))

pub address_of_member-IsSafe :
    {o a : Lower ℕ} (info : MemberInfo) → IsSafe o → IsSafe a → IsSafe (address_of_member info o a)
unfolding address_of_member
address_of_member-IsSafe {o} {a} info ho ha n s =
    if_both (Ensures n s IsReg) info.base_is_pointer
      (bind (ho n s) λ base n₁ s₁ l₁ k₁ h₁.
        seq (emit_any _ (omega arith)) λ n₂ s₂ l₂ k₂. emit-IsReg _ (omega arith) tt)
      (bind (ha n s) λ base n₁ s₁ l₁ k₁ h₁. emit-IsReg _ (omega arith) tt)

pub lower_unary-IsSafe :
    {o a : Lower ℕ} (op : TokenKind) (w : ℕ) (v : Bool)
    → IsSafe o
    → IsSafe a
    → IsSafe (lower_unary op o a w v)
unfolding lower_unary
lower_unary-IsSafe TokenKind.ampersand w v ho ha n s = ha n s
lower_unary-IsSafe TokenKind.star w v ho ha n s =
    load_from-IsSafe w v (checked_operand-IsSafe ho) n s
lower_unary-IsSafe TokenKind.try w v ho ha n s =
    bind (ho n s) λ r n₁ s₁ l₁ k₁ h₁. emit-IsReg _ (omega arith) tt
lower_unary-IsSafe _ w v ho ha n s = bind (ho n s) λ r n₁ s₁ l₁ k₁ h₁. emit-IsReg _ (omega arith) tt

assign_to-IsSafe : {r a : Lower ℕ} (left : Expr) → IsSafe r → IsSafe a → IsSafe (assign_to left r a)
unfolding assign_to
assign_to-IsSafe (name sp x) hr ha n s =
    bind (hr n s)
      λ v n₁ s₁ l₁ k₁ h₁. seq (emit_any _ (omega arith)) λ n₂ s₂ l₂ k₂. pure-IsReg v (omega arith)
assign_to-IsSafe _ hr ha n s = bind (hr n s) λ v n₁ s₁ l₁ k₁ h₁.
    bind (ha n₁ s₁)
      λ a n₂ s₂ l₂ k₂ h₂. seq (emit_any _ (omega arith)) λ n₃ s₃ l₃ k₃. pure-IsReg v (omega arith)

temporary_any : {n s : ℕ} → Ensures n s Anything temporary
unfolding temporary
temporary_any = record { run = λ b valid ln ls. (Grows-refl b valid, tt) }

lower_and-IsSafe : {l r : Lower ℕ} → IsSafe l → IsSafe r → IsSafe (lower_and l r)
unfolding lower_and
lower_and-IsSafe hl hr n s = bind (hl n s) λ l n₁ s₁ l₁ k₁ h₁.
    bind temporary_any λ temp n₂ s₂ l₂ k₂ h₂. seq (emit_any _ (omega arith)) λ n₃ s₃ l₃ k₃.
      bind position_at λ test n₄ s₄ l₄ k₄ h₄. seq (emit_any _ (omega arith)) λ n₅ s₅ l₅ k₅.
        bind (hr n₅ s₅) λ r n₆ s₆ l₆ k₆ h₆.
          seq (emit_any _ (omega arith))
            λ n₇ s₇ l₇ k₇. seq (patch_any test) λ n₈ s₈ l₈ k₈. emit-IsReg _ tt tt

lower_or-IsSafe : {l r : Lower ℕ} → IsSafe l → IsSafe r → IsSafe (lower_or l r)
unfolding lower_or
lower_or-IsSafe hl hr n s = bind (hl n s) λ l n₁ s₁ l₁ k₁ h₁.
    bind temporary_any λ temp n₂ s₂ l₂ k₂ h₂. seq (emit_any _ (omega arith)) λ n₃ s₃ l₃ k₃.
      bind position_at λ test n₄ s₄ l₄ k₄ h₄. seq (emit_any _ (omega arith)) λ n₅ s₅ l₅ k₅.
        bind position_at λ skip n₆ s₆ l₆ k₆ h₆. seq (emit_any _ (omega arith)) λ n₇ s₇ l₇ k₇.
          seq (patch_any test) λ n₈ s₈ l₈ k₈. bind (hr n₈ s₈) λ r n₉ s₉ l₉ k₉ h₉.
            seq (emit_any _ (omega arith))
              λ n₁₀ s₁₀ l₁₀ k₁₀. seq (patch_any skip) λ n₁₁ s₁₁ l₁₁ k₁₁. emit-IsReg _ tt tt

pub lower_binary-IsSafe :
    {l a r : Lower ℕ} (left : Expr) (op : TokenKind)
    → IsSafe l
    → IsSafe a
    → IsSafe r
    → IsSafe (lower_binary left op l a r)
unfolding lower_binary
lower_binary-IsSafe left TokenKind.equal hl ha hr n s = assign_to-IsSafe left hr ha n s
lower_binary-IsSafe left TokenKind.and_and hl ha hr n s = lower_and-IsSafe hl hr n s
lower_binary-IsSafe left TokenKind.or_or hl ha hr n s = lower_or-IsSafe hl hr n s
lower_binary-IsSafe left _ hl ha hr n s =
    bind (hl n s)
      λ l n₁ s₁ l₁ k₁ h₁. bind (hr n₁ s₁) λ r n₂ s₂ l₂ k₂ h₂. emit-IsReg _ (omega arith) tt
