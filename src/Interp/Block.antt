-- ===== src/Interp/Block.antt =====
-- Code run in order, up to the first instruction that leaves it, and the loop of the interpreter on
-- code without jumps.
use noe_code.Prelude.{
  ℕ, zero, suc, ◌+◌, ◌<◌, ◌≡◌, refl, ap, subst, length-append, ◌∙◌, sym, inl, inr, List, [], ◌∷◌,
  ◌++◌, Option, none, some, Text, length, length-set, get_elem?, arith,
}
use noe_code.Nir.{Value, monostate, Instruction}
use noe_code.Interp.State.{
  Shared, State, Machine, Outcome, next, goto, returned, failed, out_of_fuel, write,
}
use noe_code.Interp.Step.{Run, step}
use noe_code.Interp.Loop.{run_from}
use noe_code.Interp.Registers.{RegsWritten}

-- A destination is a register of the frame.
abbrev pub DestBelow : ℕ → Option ℕ → Type 0
DestBelow n none = Unit
DestBelow n (some d) = d < n

length-write :
    (d : Option ℕ) (v : Value) (regs : List Value) → length (write d v regs) ≡ length regs
unfolding write
length-write none v regs = refl
length-write (some d) v regs = length-set regs d v

pub length-RegsWritten :
    (d : Option ℕ) (regs regs' : List Value) → RegsWritten d regs regs' → length regs' ≡ length regs
length-RegsWritten d regs regs' (inl e) = ap length e
length-RegsWritten d regs regs' (inr (v, e)) = ap length e ∙ length-write d v regs

module _ {W : Type 0} where
  abbrev pub and_then : Outcome W → (State W → Outcome W) → Outcome W
  and_then (next s) f = f s
  and_then (goto t s) f = goto t s
  and_then (returned v s) f = returned v s
  and_then (failed e) f = failed e
  and_then out_of_fuel f = out_of_fuel

module _ {W : Type 0} (m : Machine W)
    (user : Text → Option (List Value → Shared W → Run (Value × Shared W))) where
  unfoldable pub run_block : List Instruction → State W → Outcome W
  run_block [] s = next s
  run_block (i ∷ code) s = and_then (step m user i s) (run_block code)

-- An outcome that is no jump.
abbrev pub NoJump : {W : Type 0} → Outcome W → Type 0
NoJump (goto t s) = ⊥
NoJump _ = Unit

-- What the loop gives when the block it runs ends so: the end of the code returns `null`.
abbrev pub finish : {W : Type 0} → Outcome W → Outcome W
finish (next s) = returned monostate s
finish o = o

get_elem?-middle :
    (before : List Instruction) (i : Instruction) (code : List Instruction)
    → get_elem? (before ++ i ∷ code) (length before) ≡ some i
get_elem?-middle [] i code = refl
get_elem?-middle (j ∷ before) i code = get_elem?-middle before i code

get_elem?-end : (code : List Instruction) → get_elem? (code ++ []) (length code) ≡ none
get_elem?-end [] = refl
get_elem?-end (i ∷ code) = get_elem?-end code

append-middle :
    (before : List Instruction) (i : Instruction) (code : List Instruction)
    → before ++ i ∷ code ≡ (before ++ i ∷ []) ++ code
append-middle [] i code = refl
append-middle (j ∷ before) i code = ap (λ c. j ∷ c) (append-middle before i code)

module _ {W : Type 0} (m : Machine W)
    (user : Text → Option (List Value → Shared W → Run (Value × Shared W))) where
  -- One round of the loop, after the instruction at its place.
  abbrev round : ℕ → List Instruction → ℕ → Outcome W → Outcome W
  round fuel code pc (next s) = run_from m user fuel code (pc + 1) s
  round fuel code pc (goto t s) = run_from m user fuel code t s
  round fuel code pc (returned v s) = returned v s
  round fuel code pc (failed e) = failed e
  round fuel code pc out_of_fuel = out_of_fuel

  run_from-round :
      (fuel : ℕ) (code : List Instruction) (pc : ℕ) (i : Instruction) (s : State W)
      → get_elem? code pc ≡ some i
      → run_from m user (suc fuel) code pc s ≡ round fuel code pc (step m user i s)
  unfolding run_from
  run_from-round fuel code pc i s e = rw (e, run_from) refl

  run_from-end :
      (fuel : ℕ) (code : List Instruction) (pc : ℕ) (s : State W)
      → get_elem? code pc ≡ none
      → run_from m user (suc fuel) code pc s ≡ returned monostate s
  unfolding run_from
  run_from-end fuel code pc s e = rw (e, run_from) refl

  round-finish :
      (fuel : ℕ) (code rest : List Instruction) (pc : ℕ) (o : Outcome W)
      → NoJump (and_then o (run_block m user rest))
      → ((s : State W)
          → NoJump (run_block m user rest s)
          → run_from m user fuel code (pc + 1) s ≡ finish (run_block m user rest s))
      → round fuel code pc o ≡ finish (and_then o (run_block m user rest))
  round-finish fuel code rest pc (next s) h k = k s h
  round-finish fuel code rest pc (goto t s) h k = elim h [ ]
  round-finish fuel code rest pc (returned v s) h k = refl
  round-finish fuel code rest pc (failed e) h k = refl
  round-finish fuel code rest pc out_of_fuel h k = refl

  run_from-after :
      (before code : List Instruction) (fuel : ℕ) (s : State W)
      → length code < fuel
      → NoJump (run_block m user code s)
      → run_from m user fuel (before ++ code) (length before) s ≡ finish (run_block m user code s)
  unfolding run_block
  run_from-after before code zero s l h = absurd (omega arith)
  run_from-after before [] (suc fuel) s l h =
      run_from-end fuel (before ++ []) (length before) s (get_elem?-end before)
  run_from-after before (i ∷ code) (suc fuel) s l h =
      run_from-round fuel (before ++ i ∷ code) (length before) i s (get_elem?-middle before i code)
      ∙ round-finish fuel (before ++ i ∷ code) code (length before) (step m user i s) h λ s' h'.
        subst
          (λ c. run_from m user fuel c (length before + 1) s' ≡ finish (run_block m user code s'))
          (sym (append-middle before i code))
          (subst
            (λ n.
              run_from m user fuel ((before ++ i ∷ []) ++ code) n s'
              ≡ finish (run_block m user code s'))
            (length-append before (i ∷ []))
            (run_from-after (before ++ i ∷ []) code fuel s' (omega arith) h'))

-- With more fuel than there are instructions, the loop of the interpreter on code that takes no jump
-- ends as the code run in order does, and returns `null` where the code ends without `return`.
pub run_from-run_block :
    {W : Type 0} (m : Machine W)
    (user : Text → Option (List Value → Shared W → Run (Value × Shared W)))
    (code : List Instruction) (fuel : ℕ) (s : State W)
    → length code < fuel
    → NoJump (run_block m user code s)
    → run_from m user fuel code 0 s ≡ finish (run_block m user code s)
run_from-run_block m user code fuel s l h = run_from-after m user [] code fuel s l h
