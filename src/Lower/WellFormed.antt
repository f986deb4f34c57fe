-- ===== src/Lower/WellFormed.antt =====
-- Well-formed code of a function under construction, and that each step of lowering keeps it.
pub mod Expressions
pub mod Calls
pub mod Programs
use noe_code.Prelude.{
  ℕ, zero, suc, ◌+◌, ◌<◌, ◌≤◌, ◌≡◌, refl, ap, max, List, [], ◌∷◌, ◌++◌, Option, none, some, length,
  length-append, All, All-append, All-mono, arith, Bool, true, false, if◌then◌else◌, if_both,
}
use noe_code.Nir.{NirOp, jump, jump_if_false, Instruction, blank}
use noe_code.Interp.Block.{DestBelow}
use noe_code.Lower.Builder.{
  Builder, Lower, ◌>>=◌, ◌>>◌, pure, reserve_for, emit, fresh, emit_fresh, position, patch,
  retarget, with_args,
}

abbrev pub TargetFits : ℕ → NirOp → ℕ → Type 0
TargetFits size jump target = target ≤ size
TargetFits size jump_if_false target = target ≤ size
TargetFits size _ target = Unit

-- Arguments and destination are registers below `regs`, and a jump leads into the code or to its end.
pub record Fits (regs size : ℕ) (i : Instruction) : Type 0 where
  pub args : All (λ r. r < regs) i.args
  pub dest : DestBelow regs i.dest
  pub target : TargetFits size i.op i.target

abbrev pub IsWellFormed : Builder → Type 0
IsWellFormed b = All (Fits b.next_reg (length b.code)) b.code

-- The function has grown to a well-formed one.
pub record Grows (b b' : Builder) : Type 0 where
  pub valid : IsWellFormed b'
  pub regs : b.next_reg ≤ b'.next_reg
  pub size : length b.code ≤ length b'.code

DestBelow-mono : (d : Option ℕ) (n n' : ℕ) → n ≤ n' → DestBelow n d → DestBelow n' d
DestBelow-mono none n n' l h = tt
DestBelow-mono (some d) n n' l h = omega arith

TargetFits-mono : (op : NirOp) (s s' t : ℕ) → s ≤ s' → TargetFits s op t → TargetFits s' op t
TargetFits-mono op s s' t l h = ground arith

pub TargetFits-of : (op : NirOp) (s t : ℕ) → t ≤ s → TargetFits s op t
TargetFits-of op s t l = ground arith

Fits-mono : (n n' s s' : ℕ) (i : Instruction) → n ≤ n' → s ≤ s' → Fits n s i → Fits n' s' i
Fits-mono n n' s s' i ln ls f = record {
  args = All-mono i.args (λ r h. omega arith) f.args;
  dest = DestBelow-mono i.dest n n' ln f.dest;
  target = TargetFits-mono i.op s s' i.target ls f.target;
}

-- Started in a well-formed function with at least `n` registers and `s` instructions, the step makes
-- it grow to a well-formed one, and its result satisfies `Q` with the registers and the size then.
pub record Ensures {A : Type 0} (n s : ℕ) (Q : A → ℕ → ℕ → Type 0) (m : Lower A) : Type 0 where
  pub run :
      (b : Builder)
      → IsWellFormed b
      → n ≤ b.next_reg
      → s ≤ length b.code
      → Grows b (m b).1 × Q (m b).0 (m b).1.next_reg (length (m b).1.code)

-- The three kinds of results: a register, some registers, anything.
abbrev pub IsReg : ℕ → ℕ → ℕ → Type 0
IsReg r n s = r < n

abbrev pub AreRegs : List ℕ → ℕ → ℕ → Type 0
AreRegs rs n s = All (λ r. r < n) rs

abbrev pub Anything {ℓ} : {A : Type ℓ} → A → ℕ → ℕ → Type 0
Anything a n s = Unit

Grows-trans : (a b c : Builder) → Grows a b → Grows b c → Grows a c
Grows-trans a b c f g = record { valid = g.valid; regs = omega arith; size = omega arith }

module _ {A B : Type 0} {n s : ℕ} {Q : A → ℕ → ℕ → Type 0} {R : B → ℕ → ℕ → Type 0} where
  pub bind :
      {m : Lower A} {f : A → Lower B}
      → Ensures n s Q m
      → ((a : A) (n' s' : ℕ) → n ≤ n' → s ≤ s' → Q a n' s' → Ensures n' s' R (f a))
      → Ensures n s R (m >>= f)
  unfolding ◌>>=◌
  bind {m} {f} hm hf = record {
    run = λ b valid ln ls.
        let (g, q) = hm.run b valid ln ls in
        let b' = (m b).1 in
        let a = (m b).0 in
        let (g', r) =
          (hf a b'.next_reg (length b'.code) (omega arith) (omega arith) q).run b' g.valid
            (omega arith) (omega arith) in
        (Grows-trans b b' _ g g', r);
  }

module _ {B : Type 0} {n s : ℕ} {R : B → ℕ → ℕ → Type 0} where
  pub seq :
      {m : Lower (Unit {0})} {k : Lower B}
      → Ensures n s Anything m
      → ((n' s' : ℕ) → n ≤ n' → s ≤ s' → Ensures n' s' R k)
      → Ensures n s R (m >> k)
  unfolding ◌>>=◌ ◌>>◌
  seq {m} {k} hm hk = bind {f = λ _. k} hm (λ a n' s' ln ls _. hk n' s' ln ls)

pub Grows-refl : (b : Builder) → IsWellFormed b → Grows b b
Grows-refl b h = record { valid = h; regs = omega arith; size = omega arith }

pub pure-IsReg : {n s : ℕ} (r : ℕ) → r < n → Ensures n s IsReg (pure r)
unfolding pure
pure-IsReg r h = record { run = λ b valid ln ls. (Grows-refl b valid, omega arith) }

pub pure_regs : {n s : ℕ} (rs : List ℕ) → AreRegs rs n s → Ensures n s AreRegs (pure rs)
unfolding pure
pure_regs rs h = record {
  run = λ b valid ln ls. (Grows-refl b valid, All-mono rs (λ r k. omega arith) h);
}

pub pure_any : {A : Type 0} {n s : ℕ} (a : A) → Ensures n s Anything (pure a)
unfolding pure
pure_any a = record { run = λ b valid ln ls. (Grows-refl b valid, tt) }

reserve-dest : (d : Option ℕ) (n m : ℕ) → DestBelow n d → n ≤ m → reserve_for d m ≡ m
reserve-dest none n m h l = refl
reserve-dest (some d) n m h l = omega arith

emit-Grows :
    (b : Builder) (i : Instruction)
    → IsWellFormed b
    → Fits b.next_reg (length b.code) i
    → Grows b (emit i b).1
unfolding emit
emit-Grows b i valid f =
    let grown = length-append b.code (i ∷ []) in
    let lift : (j : Instruction)
        → Fits b.next_reg (length b.code) j
        → Fits b.next_reg (length (b.code ++ i ∷ [])) j =
      λ j g. Fits-mono _ _ _ _ j (omega arith) (omega (arith, grown)) g in
    record {
      valid = rw (reserve-dest i.dest b.next_reg b.next_reg f.dest (omega arith)) (
          All-append (Fits b.next_reg (length (b.code ++ i ∷ []))) b.code (i ∷ [])
            (All-mono b.code lift valid) (lift i f, tt));
      regs = rw (reserve-dest i.dest b.next_reg b.next_reg f.dest (omega arith)) (omega arith);
      size = omega (arith, grown);
    }

pub emit_any : {n s : ℕ} (i : Instruction) → Fits n s i → Ensures n s Anything (emit i)
emit_any {n} {s} i f = record {
  run = λ b valid ln ls. (emit-Grows b i valid (Fits-mono n _ s _ i ln ls f), tt);
}

pub fresh-IsReg : {n s : ℕ} → Ensures n s IsReg fresh
unfolding fresh
fresh-IsReg = record {
  run = λ b valid ln ls. (
    record {
      valid = All-mono b.code (λ i f. Fits-mono _ _ _ _ i (omega arith) (omega arith) f) valid;
      regs = omega arith;
      size = omega arith;
    },
    omega arith,
  );
}

pub position_at : {n s : ℕ} → Ensures n s (λ p n' s'. p ≤ s') position
unfolding position
position_at = record { run = λ b valid ln ls. (Grows-refl b valid, omega arith) }

length-retarget : (code : List Instruction) (at t : ℕ) → length (retarget code at t) ≡ length code
unfolding retarget
length-retarget [] at t = refl
length-retarget (i ∷ code) zero t = refl
length-retarget (i ∷ code) (suc at) t = ap suc (length-retarget code at t)

retarget-Fits :
    (n s : ℕ) (code : List Instruction) (at t : ℕ)
    → t ≤ s
    → All (Fits n s) code
    → All (Fits n s) (retarget code at t)
unfolding retarget
retarget-Fits n s [] at t l h = tt
retarget-Fits n s (i ∷ code) zero t l (h, hs) =
    (record { args = h.args; dest = h.dest; target = TargetFits-of i.op s t l }, hs)
retarget-Fits n s (i ∷ code) (suc at) t l (h, hs) = (h, retarget-Fits n s code at t l hs)

pub patch_any : {n s : ℕ} (at : ℕ) → Ensures n s Anything (patch at)
unfolding patch
patch_any at = record {
  run = λ b valid ln ls.
      let same = length-retarget b.code at (length b.code) in
      (
        record {
          valid = rw same (
              retarget-Fits b.next_reg (length b.code) b.code at (length b.code) (omega arith)
                valid);
          regs = omega arith;
          size = omega (arith, same);
        },
        tt,
      );
}

pub emit-IsReg :
    {n s : ℕ} (i : Instruction)
    → All (λ r. r < n) i.args
    → TargetFits s i.op i.target
    → Ensures n s IsReg (emit_fresh i)
unfolding emit_fresh
emit-IsReg i ha ht = bind fresh-IsReg λ d n' s' ln ls hd.
    seq
      (emit_any (record i { dest = some d })
        (record {
          args = All-mono i.args (λ r h. omega arith) ha;
          dest = hd;
          target = TargetFits-mono i.op _ s' i.target ls ht;
        }))
      λ n'' s'' ln' ls'. pure-IsReg d (omega arith)
