-- ===== src/Nir.antt =====
-- The intermediate representation: Include/noqeri/nir.hpp. A register is its number, a `double` its
-- 64-bit pattern (what is computed with it is a parameter, `Interp.Floats`).
use noe_code.Prelude.{ℕ, Bool, false, List, [], Option, none, Text, codes}
use noe_code.Prelude.Int.{ℤ}
use noe_code.Types.{Ty, default_type}

-- `NirValue`
pub data Value : Type 0 where
  monostate : Value
  int : ℤ → Value
  double : ℕ → Value
  boolean : Bool → Value
  text : Text → Value

pub data NirOp : Type 0 where
  const load store unary binary cast call : NirOp
  address_of load_memory store_memory ptr_offset stack_alloc : NirOp
  make_slice slice_data slice_len : NirOp
  check_non_null check_bounds : NirOp
  atomic_load atomic_store atomic_exchange atomic_compare_exchange atomic_fence : NirOp
  intrinsic inline_asm try throw : NirOp
  jump jump_if_false return nop : NirOp

pub record Instruction : Type 0 where
  pub op : NirOp
  pub dest : Option ℕ
  pub ty : Ty
  pub text : Text
  pub literal : Value
  pub args : List ℕ
  pub target : ℕ
  pub width : ℕ
  pub is_volatile : Bool

-- `NirInstruction i; i.op = op;`
abbrev pub blank : NirOp → Instruction
blank op = record {
  op = op;
  dest = none;
  ty = default_type;
  text = codes "";
  literal = monostate;
  args = [];
  target = 0;
  width = 8;
  is_volatile = false;
}

pub record BasicBlock : Type 0 where
  pub id : ℕ
  pub begin : ℕ
  pub end : ℕ
  pub successors : List ℕ

pub record Function : Type 0 where
  pub name : Text
  pub generic_params : List Text
  pub params : List Text
  pub param_types : List Ty
  pub result_type : Ty
  pub code : List Instruction
  pub register_types : List Ty
  pub blocks : List BasicBlock
  pub next_reg : ℕ
  pub is_extern : Bool
  pub is_export : Bool

pub record Program : Type 0 where
  pub entry : Function
  pub functions : List Function
