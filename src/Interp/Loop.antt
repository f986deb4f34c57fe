-- ===== src/Interp/Loop.antt =====
-- The loop over the code of a function, the calls between functions and the run of a program:
-- `Interpreter::runFunction` and `Interpreter::run` (Compiler/bootstrap/interpreter_host.cpp). The
-- loop is on fuel, a unit for each instruction, and a call hands on the fuel of its caller less one.
use noe_code.Prelude.{
  ℕ, zero, suc, ◌+◌, not, ◌&&◌, List, [], ◌∷◌, Option, none, some, Text, text_eq, get_elem?,
  replicate, if◌then◌else◌,
}
use noe_code.Nir.{Value, monostate, int, Instruction, Function, Program}
use noe_code.Interp.Result.{Result, ok, err, extern_function}
use noe_code.Interp.Arith.{as_u64}
use noe_code.Interp.State.{
  Shared, State, Machine, Outcome, next, goto, returned, failed, out_of_fuel,
}
use noe_code.Interp.Ops.{set_cell}
use noe_code.Interp.Step.{Run, done, fault, exhausted, step}

module _ {W : Type 0} (m : Machine W) where
  unfoldable pub run_from :
      (Text → Option (List Value → Shared W → Run (Value × Shared W)))
      → ℕ
      → List Instruction
      → ℕ
      → State W
      → Outcome W
  run_from user zero code pc s = out_of_fuel
  run_from user (suc fuel) code pc s = elim (get_elem? code pc) [
    | none ↦ returned monostate s
    | some i ↦ elim (step m user i s) [
      | next s' ↦ run_from user fuel code (pc + 1) s'
      | goto target s' ↦ run_from user fuel code target s'
      | returned v s' ↦ returned v s'
      | failed e ↦ failed e
      | out_of_fuel ↦ out_of_fuel
    ]
  ]

  -- The variables of a call: a parameter for each argument, with a cell where it is an integer.
  unfoldable pub bind_params : List Text → List Value → State W → Result (State W)
  unfolding set_cell
  bind_params [] args s = ok s
  bind_params (p ∷ ps) [] s = ok s
  bind_params (p ∷ ps) (v ∷ vs) s =
      let s' : State W = record s { vars = (p, v) ∷ s.vars } in
      elim v [
        | int n ↦ elim (set_cell m p (as_u64 n) s') [
          | err e ↦ err e
          | ok s'' ↦ bind_params ps vs s''
        ]
        | _ ↦ bind_params ps vs s'
      ]

  abbrev pub frame : Function → Shared W → State W
  frame fn shared = record {
    vars = [];
    cells = [];
    address_taken = [];
    regs = replicate fn.next_reg monostate;
    shared = shared;
  }

  unfoldable pub of_outcome : Outcome W → Run (Value × Shared W)
  of_outcome (returned v s) = done (v, s.shared)
  of_outcome (failed e) = fault e
  of_outcome o = exhausted

  -- The first function of that name which is not extern.
  unfoldable pub find_function : List Function → Text → Option Function
  find_function [] name = none
  find_function (f ∷ fs) name =
      if text_eq f.name name && not f.is_extern then some f else find_function fs name

  unfoldable pub run_function :
      ℕ → Program → Function → List Value → Shared W → Run (Value × Shared W)
  unfolding run_from bind_params of_outcome find_function
  run_function zero p fn args shared = exhausted
  run_function (suc fuel) p fn args shared =
      let user : Text → Option (List Value → Shared W → Run (Value × Shared W)) = λ name.
        elim (find_function p.functions name) [
          | none ↦ none
          | some callee ↦ some (run_function fuel p callee)
        ] in
      if fn.is_extern
      then fault (extern_function fn.name)
      else elim (bind_params fn.params args (frame fn shared)) [
        | err e ↦ fault e
        | ok s ↦ of_outcome (run_from user fuel fn.code 0 s)
      ]

  -- `Interpreter::run`: 0, or 1 after an error; `none` where the fuel does not suffice.
  unfoldable pub run : ℕ → Program → Shared W → Option ℕ
  unfolding run_function
  run fuel p shared = elim (run_function fuel p p.entry [] shared) [
    | done _ ↦ some 0
    | fault _ ↦ some 1
    | exhausted ↦ none
  ]
