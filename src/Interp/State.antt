-- ===== src/Interp/State.antt =====
-- The state of the interpreter (`Interpreter::runFunction`, Compiler/bootstrap/interpreter_host.cpp):
-- a frame's variables, its cells (a name with the address of its node), the names whose address is
-- taken and its registers, with the memory and the world that all frames share. What lies outside the
-- interpreter is a `Machine`: floating point, the addresses that the allocator chooses, the clock and
-- the host's services. Where the source reads a missing argument or writes a missing destination it
-- is undefined; here the read fails and the write does nothing.
use noe_code.Prelude.{
  ℕ, Bool, false, ◌||◌, List, [], ◌∷◌, Option, none, some, Text, text_eq, get_elem?, set,
}
use noe_code.Prelude.Int.{ℤ}
use noe_code.Nir.{Value, Instruction}
use noe_code.Interp.Result.{RuntimeError, Result, ok, err, ◌>>=◌, invalid_register}
use noe_code.Interp.Arith.{as_u64}
use noe_code.Interp.Values.{Floats, as_int}
use noe_code.Interp.Memory.{Memory}

-- Memory and the rest of the world, which all frames share.
pub record Shared (W : Type 0) : Type 0 where
  pub memory : Memory
  pub world : W

pub record State (W : Type 0) : Type 0 where
  pub vars : List (Text × Value)
  pub cells : List (Text × ℕ)
  pub address_taken : List Text
  pub regs : List Value
  pub shared : Shared W

pub record Machine (W : Type 0) : Type 0 where
  pub floats : Floats
  pub alloc : Memory → ℕ → ℕ
  pub checked_overflow : Bool
  pub clock : W → ℤ × W
  -- `callNoqeriAbi` on the embedder's table and then the default one: a value or an error.
  pub service : Text → List Value → Shared W → Result (Value × Shared W)

-- What an instruction does to the control of its function.
pub data Outcome (W : Type 0) : Type 0 where
  next : State W → Outcome W
  goto : ℕ → State W → Outcome W
  returned : Value → State W → Outcome W
  failed : RuntimeError → Outcome W
  out_of_fuel : Outcome W

unfoldable pub member_text : List Text → Text → Bool
member_text [] k = false
member_text (j ∷ s) k = text_eq j k || member_text s k

-- `regs[*i.dest]=v`
unfoldable pub write : Option ℕ → Value → List Value → List Value
write none v regs = regs
write (some d) v regs = set regs d v

module _ {W : Type 0} where
  -- `get(i.args[k])`
  unfoldable pub get : State W → Instruction → ℕ → Result Value
  get s i k = elim (get_elem? i.args k) [
    | none ↦ err invalid_register
    | some r ↦ elim (get_elem? s.regs r) [ none ↦ err invalid_register | some v ↦ ok v ]
  ]

  -- `asInt(get(i.args[k]))`
  unfoldable pub get_int : State W → Instruction → ℕ → Result ℤ
  unfolding get
  get_int s i k = do v ← get s i k; as_int v

  -- The same as an address or as bits.
  unfoldable pub get_word : State W → Instruction → ℕ → Result ℕ
  unfolding get_int
  get_word s i k = do z ← get_int s i k; ok (as_u64 z)

  -- An instruction that writes its destination, from the value and the state without its registers.
  unfoldable pub assign : Instruction → State W → Result (Value × State W) → Outcome W
  unfolding write
  assign i s r = elim r [
    | err e ↦ failed e
    | ok (v, s') ↦ next (record s' { regs = write i.dest v s.regs })
  ]

  -- An instruction that writes no register.
  unfoldable pub effect : State W → Result (State W) → Outcome W
  effect s r = elim r [ err e ↦ failed e | ok s' ↦ next (record s' { regs = s.regs }) ]

  abbrev pub with_memory : State W → Memory → State W
  with_memory s m = record s { shared = record { memory = m; world = s.shared.world } }
