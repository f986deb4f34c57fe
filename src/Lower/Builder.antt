-- ===== src/Lower/Builder.antt =====
-- The function under construction (`emit`, `nextReg++` and the patching of jump targets), and the
-- instructions that lowering writes (Compiler/nir.cpp).
use noe_code.Prelude.{ℕ, zero, suc, max, List, [], ◌∷◌, ◌++◌, Option, none, some, Text, length}
use noe_code.Nir.{Value, NirOp, Instruction, blank}

-- The code and the next free register of a `NirFunction` that is being lowered.
pub record Builder : Type 0 where
  pub code : List Instruction
  pub next_reg : ℕ

-- A step of lowering: a result and the function after it.
abbrev pub Lower : Type 0 → Type 0
Lower A = Builder → A × Builder

infixl 5 ◌>>=◌ ◌>>◌
unfoldable pub ◌>>=◌ : {A B : Type 0} → Lower A → (A → Lower B) → Lower B
◌>>=◌ m f b = let r = m b in f r.0 r.1

unfoldable pub ◌>>◌ : {B : Type 0} → Lower (Unit {0}) → Lower B → Lower B
◌>>◌ m k b = k (m b).1

unfoldable pub pure : {A : Type 0} → A → Lower A
pure a b = (a, b)

abbrev pub reserve_for : Option ℕ → ℕ → ℕ
reserve_for none n = n
reserve_for (some d) n = max n (suc d)

-- `Lowerer::emit`
unfoldable pub emit : Instruction → Lower (Unit {0})
emit i b = (tt, record { code = b.code ++ i ∷ []; next_reg = reserve_for i.dest b.next_reg })

-- `fn.nextReg++`
unfoldable pub fresh : Lower ℕ
fresh b = (b.next_reg, record b { next_reg = suc b.next_reg })

-- `i.dest=fn.nextReg++; emit(fn,i); return *i.dest;`
unfoldable pub emit_fresh : Instruction → Lower ℕ
unfolding emit fresh
emit_fresh i = do d ← fresh; emit (record i { dest = some d }); pure d

-- `fn.code.size()`
unfoldable pub position : Lower ℕ
position b = (length b.code, b)

unfoldable pub retarget : List Instruction → ℕ → ℕ → List Instruction
retarget [] at t = []
retarget (i ∷ code) zero t = record i { target = t } ∷ code
retarget (i ∷ code) (suc at) t = i ∷ retarget code at t

-- `fn.code[at].target=fn.code.size()`
unfoldable pub patch : ℕ → Lower (Unit {0})
unfolding retarget
patch at b = (tt, record b { code = retarget b.code at (length b.code) })

abbrev pub with_args : NirOp → List ℕ → Instruction
with_args op args = record (blank op) { args = args }

abbrev pub literal_of : Value → Instruction
literal_of v = record (blank NirOp.const) { literal = v }

abbrev pub named : NirOp → Text → List ℕ → Instruction
named op text args = record (blank op) { text = text; args = args }
