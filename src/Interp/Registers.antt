-- ===== src/Interp/Registers.antt =====
-- What an instruction does to the registers of its frame.
use noe_code.Prelude.{
  ℕ, ◌≡◌, refl, ◌⊎◌, inl, inr, List, [], ◌∷◌, Option, none, some, Text, ◌||◌, codes, text_eq, true,
  false, if◌then◌else◌, if_both,
}
use noe_code.Prelude.Int.{ℤ, pos, ltb_ℤ}
use noe_code.Nir.{
  Value, int, monostate, NirOp, Instruction, const, load, store, unary, binary, cast, call,
  address_of, load_memory, store_memory, ptr_offset, stack_alloc, make_slice, slice_data, slice_len,
  check_non_null, check_bounds, atomic_load, atomic_store, atomic_exchange, atomic_compare_exchange,
  atomic_fence, intrinsic, inline_asm, try, throw, jump, jump_if_false, return, nop,
}
use noe_code.Interp.Result.{Result, ok, err}
use noe_code.Interp.Values.{truthy_value}
use noe_code.Interp.State.{
  Shared, State, Machine, Outcome, next, goto, returned, write, assign, effect, get, get_int,
}
use noe_code.Interp.Step.{
  get_all, Run, done, fault, exhausted, step, step_on, give_null, try_value, throw_value,
  return_value, call_with, called, branch_on, do_try, do_throw, do_return, do_cast, do_binary,
  do_unary, do_intrinsic, do_call, do_jump_if_false,
}

-- The registers are as before, or the destination has been written.
abbrev pub RegsWritten : Option ℕ → List Value → List Value → Type 0
RegsWritten d regs regs' = (regs' ≡ regs) ⊎ ((v : Value) × (regs' ≡ write d v regs))

-- The registers after an outcome that goes on, and after one that jumps.
abbrev pub Writes : {W : Type 0} → Option ℕ → List Value → Outcome W → Type 0
Writes d regs (next s') = RegsWritten d regs s'.regs
Writes d regs (goto t s') = s'.regs ≡ regs
Writes d regs _ = Unit

module _ {W : Type 0} where
  assign-Writes :
      (i : Instruction) (s : State W) (r : Result (Value × State W))
      → Writes i.dest s.regs (assign i s r)
  unfolding assign
  assign-Writes i s (ok (v, s')) = inr (v, refl)
  assign-Writes i s (err e) = tt

  effect-Writes : (d : Option ℕ) (s : State W) (r : Result (State W)) → Writes d s.regs (effect s r)
  unfolding effect
  effect-Writes d s (ok s') = inl refl
  effect-Writes d s (err e) = tt

  give_null-Writes : (i : Instruction) (s : State W) → Writes i.dest s.regs (give_null i s)
  unfolding give_null
  give_null-Writes i s = assign-Writes i s (ok (monostate, s))

  try_value-Writes :
      (i : Instruction) (s : State W) (r : Result ℤ) → Writes i.dest s.regs (try_value i s r)
  unfolding try_value
  try_value-Writes i s (err e) = tt
  try_value-Writes i s (ok z) =
      elim (ltb_ℤ z (pos 0))
        as (λ b.
          Writes i.dest s.regs (if b then returned (int z) s else assign i s (ok (int z, s)))) [
            | true ↦ tt
            | false ↦ assign-Writes i s (ok (int z, s))
          ]

  throw_value-Writes :
      (d : Option ℕ) (s : State W) (r : Result ℤ) → Writes d s.regs (throw_value s r)
  unfolding throw_value
  throw_value-Writes d s (err e) = tt
  throw_value-Writes d s (ok z) = tt

  return_value-Writes :
      (d : Option ℕ) (s : State W) (r : Result Value) → Writes d s.regs (return_value s r)
  unfolding return_value
  return_value-Writes d s (err e) = tt
  return_value-Writes d s (ok v) = tt

module _ {W : Type 0} (m : Machine W) where
  called-Writes :
      (i : Instruction) (s : State W) (r : Run (Value × Shared W))
      → Writes i.dest s.regs (called m i s r)
  unfolding called
  called-Writes i s (done (v, shared)) = assign-Writes i s _
  called-Writes i s (fault e) = tt
  called-Writes i s exhausted = tt

  call_with-Writes :
      (user : Option (List Value → Shared W → Run (Value × Shared W))) (i : Instruction)
      (s : State W) (r : Result (List Value))
      → Writes i.dest s.regs (call_with m user i s r)
  unfolding call_with
  call_with-Writes user i s (err e) = tt
  call_with-Writes none i s (ok args) = assign-Writes i s _
  call_with-Writes (some f) i s (ok args) = called-Writes i s (f args s.shared)

  branch_on-Writes :
      (i : Instruction) (s : State W) (r : Result Value) → Writes i.dest s.regs (branch_on m i s r)
  unfolding branch_on
  branch_on-Writes i s (err e) = tt
  branch_on-Writes i s (ok v) =
      elim (truthy_value m.floats v)
        as (λ b. Writes i.dest s.regs (if b then next s else goto i.target s)) [
          | true ↦ inl refl
          | false ↦ refl
        ]

  do_intrinsic-Writes : (i : Instruction) (s : State W) → Writes i.dest s.regs (do_intrinsic m i s)
  unfolding do_intrinsic
  do_intrinsic-Writes i s =
      if_both (Writes i.dest s.regs) (text_eq i.text (codes "x86.rdtsc")) (assign-Writes i s _) (
        if_both (Writes i.dest s.regs)
          (text_eq i.text (codes "compiler.fence") || text_eq i.text (codes "x86.pause"))
          (give_null-Writes i s)
          (if_both (Writes i.dest s.regs) (text_eq i.text (codes "x86.halt")) tt tt))

  -- An instruction writes no register but its destination, and a jump writes none.
  pub step_on-Writes :
      (op : NirOp) (user : Text → Option (List Value → Shared W → Run (Value × Shared W)))
      (i : Instruction) (s : State W)
      → Writes i.dest s.regs (step_on m op user i s)
  unfolding step_on do_try do_throw do_return do_cast do_binary do_unary do_call do_jump_if_false
  step_on-Writes const user i s = assign-Writes i s _
  step_on-Writes load user i s = assign-Writes i s _
  step_on-Writes store user i s = effect-Writes i.dest s _
  step_on-Writes unary user i s = assign-Writes i s _
  step_on-Writes binary user i s = assign-Writes i s _
  step_on-Writes cast user i s = assign-Writes i s _
  step_on-Writes call user i s = call_with-Writes (user i.text) i s (get_all s i.args)
  step_on-Writes address_of user i s = assign-Writes i s _
  step_on-Writes load_memory user i s = assign-Writes i s _
  step_on-Writes store_memory user i s = effect-Writes i.dest s _
  step_on-Writes ptr_offset user i s = assign-Writes i s _
  step_on-Writes stack_alloc user i s = assign-Writes i s _
  step_on-Writes make_slice user i s = assign-Writes i s _
  step_on-Writes slice_data user i s = assign-Writes i s _
  step_on-Writes slice_len user i s = assign-Writes i s _
  step_on-Writes check_non_null user i s = effect-Writes i.dest s _
  step_on-Writes check_bounds user i s = effect-Writes i.dest s _
  step_on-Writes atomic_load user i s = assign-Writes i s _
  step_on-Writes atomic_store user i s = effect-Writes i.dest s _
  step_on-Writes atomic_exchange user i s = assign-Writes i s _
  step_on-Writes atomic_compare_exchange user i s = assign-Writes i s _
  step_on-Writes atomic_fence user i s = give_null-Writes i s
  step_on-Writes intrinsic user i s = do_intrinsic-Writes i s
  step_on-Writes inline_asm user i s = give_null-Writes i s
  step_on-Writes try user i s = try_value-Writes i s (get_int s i 0)
  step_on-Writes throw user i s = throw_value-Writes i.dest s (get_int s i 0)
  step_on-Writes jump user i s = refl
  step_on-Writes jump_if_false user i s = branch_on-Writes i s (get s i 0)
  step_on-Writes return user i s =
      return_value-Writes i.dest s (elim i.args [ [] ↦ ok monostate | _ ∷ _ ↦ get s i 0 ])
  step_on-Writes nop user i s = inl refl

  pub step-Writes :
      (user : Text → Option (List Value → Shared W → Run (Value × Shared W))) (i : Instruction)
      (s : State W)
      → Writes i.dest s.regs (step m user i s)
  unfolding step
  step-Writes user i s = step_on-Writes i.op user i s
