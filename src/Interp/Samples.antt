-- ===== src/Interp/Samples.antt =====
-- A machine, a state and some code to try the interpreter on.
use noe_code.Prelude.{
  ℕ, ◌+◌, false, List, [], ◌∷◌, Option, none, some, Text, codes, text_eq, ltb, leb, ◌==◌,
}
use noe_code.Prelude.Int.{pos}
use noe_code.Nir.{Value, int, monostate, NirOp, Instruction, blank}
use noe_code.Interp.Result.{err, service_error}
use noe_code.Interp.Values.{Floats}
use noe_code.Interp.Memory.{Memory}
use noe_code.Interp.State.{Shared, State, Machine, assign}
use noe_code.Interp.Step.{Run, step, do_binary, do_return}
use noe_code.Interp.Values.{binary}
use noe_code.Interp.Arith.{add_int}
use noe_code.Interp.Block.{run_block, NoJump}

abbrev pub sample_floats : Floats
sample_floats = record {
  add = λ a b. a + b;
  sub = λ a b. a;
  mul = λ a b. b;
  div = λ a b. a;
  negate = λ a. a;
  eq = λ a b. a == b;
  lt = λ a b. ltb a b;
  le = λ a b. leb a b;
  of_int = λ z. 0;
}

abbrev pub empty_memory : Memory
empty_memory = record { byte = λ a. 0 }

abbrev pub sample_machine : Machine ℕ
sample_machine = record {
  floats = sample_floats;
  alloc = λ m n. 4096;
  checked_overflow = false;
  clock = λ t. (pos t, t + 1);
  service = λ name args s. err (service_error name);
}

abbrev pub sample_shared : Shared ℕ
sample_shared = record { memory = empty_memory; world = 0 }

-- A frame of three registers.
abbrev pub sample_state : State ℕ
sample_state = record {
  vars = [];
  cells = [];
  address_taken = [];
  regs = monostate ∷ monostate ∷ monostate ∷ [];
  shared = sample_shared;
}

abbrev pub no_functions : Text → Option (List Value → Shared ℕ → Run (Value × Shared ℕ))
no_functions name = none

-- `20 + 22`, returned.
abbrev pub sample_code : List Instruction
sample_code =
    record (blank NirOp.const) { dest = some 0; literal = int (pos 20) }
    ∷ record (blank NirOp.const) { dest = some 1; literal = int (pos 22) }
    ∷ record (blank NirOp.binary) { dest = some 2; text = codes "+"; args = 0 ∷ 1 ∷ [] }
    ∷ record (blank NirOp.return) { args = 2 ∷ [] }
    ∷ []

pub sample_code-NoJump : NoJump (run_block sample_machine no_functions sample_code sample_state)
unfolding run_block step assign do_binary binary text_eq add_int do_return
sample_code-NoJump = tt
