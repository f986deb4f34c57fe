-- ===== src/Interp/Step.antt =====
-- One instruction of the interpreter, and the loop over the code of a function:
-- `Interpreter::runFunction` and `Interpreter::run` (Compiler/bootstrap/interpreter_host.cpp). A call
-- takes one unit of fuel and so does each instruction.
use noe_code.Prelude.{
  ℕ, ◌||◌, List, [], ◌∷◌, Option, none, some, Text, codes, text_eq, get_elem?, if◌then◌else◌,
}
use noe_code.Prelude.Int.{ℤ, pos, ◌+ℤ◌, ◌-ℤ◌, ltb_ℤ}
use noe_code.Types.{TypeKind, Ty, kind, kind_eq, is_integer}
use noe_code.Types.Names.{type_from_name}
use noe_code.Nir.{
  Value, monostate, int, double, text, NirOp, Instruction, const, load, store, unary, binary, cast,
  call, address_of, load_memory, store_memory, ptr_offset, stack_alloc, make_slice, slice_data,
  slice_len, check_non_null, check_bounds, atomic_load, atomic_store, atomic_exchange,
  atomic_compare_exchange, atomic_fence, intrinsic, inline_asm, try, throw, jump, jump_if_false,
  return, nop,
}
use noe_code.Interp.Result.{
  RuntimeError, Result, ok, err, ◌>>=◌, invalid_register, halt_intrinsic, unknown_intrinsic,
  service_name_required,
}
use noe_code.Interp.Values.{
  truthy_value, as_int, as_double, binary as binary_value, unary as unary_value,
}
use noe_code.Interp.State.{
  Shared, State, Machine, Outcome, next, goto, returned, failed, out_of_fuel, get, get_int, assign,
  effect,
}
use noe_code.Interp.Ops.{
  set_var, do_load, do_address_of, do_load_memory, do_store_memory, do_ptr_offset, do_stack_alloc,
  do_make_slice, do_slice_word, do_check_non_null, do_check_bounds, do_atomic_exchange,
  do_atomic_compare_exchange,
}

-- What a call of a function of the program gives.
pub data Run {ℓ} (A : Type ℓ) : Type ℓ where
  done : A → Run A
  fault : RuntimeError → Run A
  exhausted : Run A

-- `NirOp::Throw`: the status that the function returns.
unfoldable pub thrown : ℤ → ℤ
unfolding ◌+ℤ◌ ◌-ℤ◌
thrown code = if ltb_ℤ code (pos 0) then code else pos 0 -ℤ (code +ℤ pos 1)

module _ {W : Type 0} where
  -- An instruction that gives `monostate` to its destination, if it has one.
  unfoldable pub give_null : Instruction → State W → Outcome W
  give_null i s = assign i s (ok (monostate, s))

  unfoldable pub try_value : Instruction → State W → Result ℤ → Outcome W
  try_value i s (err e) = failed e
  try_value i s (ok z) = if ltb_ℤ z (pos 0) then returned (int z) s else assign i s (ok (int z, s))

  unfoldable pub do_try : Instruction → State W → Outcome W
  unfolding get_int try_value
  do_try i s = try_value i s (get_int s i 0)

  unfoldable pub throw_value : State W → Result ℤ → Outcome W
  unfolding thrown
  throw_value s (err e) = failed e
  throw_value s (ok z) = returned (int (thrown z)) s

  unfoldable pub do_throw : Instruction → State W → Outcome W
  unfolding get_int throw_value
  do_throw i s = throw_value s (get_int s i 0)

  unfoldable pub return_value : State W → Result Value → Outcome W
  return_value s (err e) = failed e
  return_value s (ok v) = returned v s

  unfoldable pub do_return : Instruction → State W → Outcome W
  unfolding get return_value
  do_return i s = return_value s (elim i.args [ [] ↦ ok monostate | _ ∷ _ ↦ get s i 0 ])

  -- `for(auto r:i.args)a.push_back(get(r));`
  unfoldable pub get_all : State W → List ℕ → Result (List Value)
  get_all s [] = ok []
  get_all s (r ∷ rs) = elim (get_elem? s.regs r) [
    | none ↦ err invalid_register
    | some v ↦ do vs ← get_all s rs; ok (v ∷ vs)
  ]

module _ {W : Type 0} (m : Machine W) where
  unfoldable pub cast_value : Ty → Value → Result Value
  unfolding is_integer kind kind_eq as_double as_int
  cast_value t v =
      if kind_eq (kind t) TypeKind.float
      then (do d ← as_double m.floats v; ok (double d))
      else if is_integer t || kind_eq (kind t) TypeKind.pointer
      then (do z ← as_int v; ok (int z))
      else ok v

  unfoldable pub do_cast : Instruction → State W → Outcome W
  unfolding get cast_value
  do_cast i s = assign i s (do a ← get s i 0; v ← cast_value (type_from_name i.text) a; ok (v, s))

  unfoldable pub do_binary : Instruction → State W → Outcome W
  unfolding get
  do_binary i s = assign i s (do
    a ← get s i 0
    b ← get s i 1
    v ← binary_value m.floats m.checked_overflow i.text a b
    ok (v, s))

  unfoldable pub do_unary : Instruction → State W → Outcome W
  unfolding get
  do_unary i s =
      assign i s (do a ← get s i 0; v ← unary_value m.floats m.checked_overflow i.text a; ok (v, s))

  unfoldable pub read_clock : State W → Result (Value × State W)
  read_clock s =
      let (now, world) = m.clock s.shared.world in
      ok (int now, record s { shared = record { memory = s.shared.memory; world = world } })

  unfoldable pub do_intrinsic : Instruction → State W → Outcome W
  do_intrinsic i s =
      if text_eq i.text (codes "x86.rdtsc")
      then assign i s (read_clock s)
      else if text_eq i.text (codes "compiler.fence") || text_eq i.text (codes "x86.pause")
      then give_null i s
      else if text_eq i.text (codes "x86.halt")
      then failed halt_intrinsic
      else failed (unknown_intrinsic i.text)

  -- A service of the host: under its own name, or under `host` or `abi` with the name as argument.
  unfoldable pub call_service : Text → List Value → Shared W → Result (Value × Shared W)
  call_service name args shared =
      if text_eq name (codes "host") || text_eq name (codes "abi")
      then elim args [
        | [] ↦ err (service_name_required name)
        | v ∷ rest ↦ elim v [
          | text service ↦ m.service service rest shared
          | _ ↦ err (service_name_required name)
        ]
      ]
      else m.service name args shared

  unfoldable pub called : Instruction → State W → Run (Value × Shared W) → Outcome W
  called i s (done (v, shared)) = assign i s (ok (v, record s { shared = shared }))
  called i s (fault e) = failed e
  called i s exhausted = out_of_fuel

  unfoldable pub call_with :
      Option (List Value → Shared W → Run (Value × Shared W))
      → Instruction
      → State W
      → Result (List Value)
      → Outcome W
  unfolding call_service
  call_with user i s (err e) = failed e
  call_with none i s (ok args) =
      assign i s
        (do (v, shared) ← call_service i.text args s.shared; ok (v, record s { shared = shared }))
  call_with (some f) i s (ok args) = called i s (f args s.shared)

  unfoldable pub do_call :
      (Text → Option (List Value → Shared W → Run (Value × Shared W)))
      → Instruction
      → State W
      → Outcome W
  unfolding get_all call_with
  do_call user i s = call_with (user i.text) i s (get_all s i.args)

  unfoldable pub branch_on : Instruction → State W → Result Value → Outcome W
  branch_on i s (err e) = failed e
  branch_on i s (ok v) = if truthy_value m.floats v then next s else goto i.target s

  unfoldable pub do_jump_if_false : Instruction → State W → Outcome W
  unfolding get branch_on
  do_jump_if_false i s = branch_on i s (get s i 0)

  -- The `switch` on the operation.
  unfoldable pub step_on :
      NirOp
      → (Text → Option (List Value → Shared W → Run (Value × Shared W)))
      → Instruction
      → State W
      → Outcome W
  step_on const user i s = assign i s (ok (i.literal, s))
  step_on load user i s = assign i s (do_load m i.text s)
  step_on store user i s = effect s (do v ← get s i 0; set_var m i.text v s)
  step_on unary user i s = do_unary i s
  step_on binary user i s = do_binary i s
  step_on cast user i s = do_cast i s
  step_on call user i s = do_call user i s
  step_on address_of user i s = assign i s (do_address_of m i.text s)
  step_on load_memory user i s = assign i s (do_load_memory i s)
  step_on store_memory user i s = effect s (do_store_memory i s)
  step_on ptr_offset user i s = assign i s (do_ptr_offset m i s)
  step_on stack_alloc user i s = assign i s (do_stack_alloc m i s)
  step_on make_slice user i s = assign i s (do_make_slice m i s)
  step_on slice_data user i s = assign i s (do_slice_word 0 i s)
  step_on slice_len user i s = assign i s (do_slice_word 8 i s)
  step_on check_non_null user i s = effect s (do_check_non_null i s)
  step_on check_bounds user i s = effect s (do_check_bounds i s)
  step_on atomic_load user i s = assign i s (do_load_memory i s)
  step_on atomic_store user i s = effect s (do_store_memory i s)
  step_on atomic_exchange user i s = assign i s (do_atomic_exchange i s)
  step_on atomic_compare_exchange user i s = assign i s (do_atomic_compare_exchange i s)
  step_on atomic_fence user i s = give_null i s
  step_on intrinsic user i s = do_intrinsic i s
  step_on inline_asm user i s = give_null i s
  step_on try user i s = do_try i s
  step_on throw user i s = do_throw i s
  step_on jump user i s = goto i.target s
  step_on jump_if_false user i s = do_jump_if_false i s
  step_on return user i s = do_return i s
  step_on nop user i s = next s

  unfoldable pub step :
      (Text → Option (List Value → Shared W → Run (Value × Shared W)))
      → Instruction
      → State W
      → Outcome W
  unfolding step_on
  step user i s = step_on i.op user i s
