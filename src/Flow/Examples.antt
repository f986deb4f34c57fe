-- ===== src/Flow/Examples.antt =====
-- The cut of a small program into blocks.
use noe_code.Prelude.{
  ℕ, some, arith, [], ◌∷◌, All, codes, false, List, ◌≡◌, refl, map, find_text, text_eq,
}
use noe_code.Types.{default_type, simple_type, TypeKind}
use noe_code.Types.Names.{type_from_name}
use noe_code.Nir.{Value, NirOp, Instruction, blank, Function, Program}
use noe_code.Flow.{is_jump, block_from, rebuild_control_flow, blocks_of}
use noe_code.Flow.Registers.{reg_type, analyze_function}
use noe_code.Flow.Typing.{last_write, untyped, analyze_function-last_write}
use noe_code.Flow.Targets.{block_from-jump}
use noe_code.Flow.Partition.{IsCut, rebuild_control_flow-IsCut}

-- A loop: its test, its body and the jump back.
abbrev sample_loop : List Instruction
sample_loop =
    blank NirOp.const
    ∷ record (blank NirOp.jump_if_false) { args = 0 ∷ []; target = 4 }
    ∷ blank NirOp.nop
    ∷ blank NirOp.jump
    ∷ blank NirOp.return
    ∷ []

abbrev sample_function : Function
sample_function = record {
  name = codes "f";
  generic_params = [];
  params = [];
  param_types = [];
  result_type = default_type;
  code = sample_loop;
  register_types = [];
  blocks = [];
  next_reg = 1;
  is_extern = false;
  is_export = false;
}

abbrev sample_program : Program
sample_program = record { entry = sample_function; functions = sample_function ∷ [] }

rebuild_control_flow-IsCut_example :
    IsCut (rebuild_control_flow sample_program).entry
    × All IsCut (rebuild_control_flow sample_program).functions
rebuild_control_flow-IsCut_example = rebuild_control_flow-IsCut sample_program

sample_blocks :
    blocks_of sample_loop
    ≡ record { id = 0; begin = 0; end = 2; successors = 2 ∷ 1 ∷ [] }
      ∷ record { id = 1; begin = 2; end = 4; successors = 0 ∷ [] }
      ∷ record { id = 2; begin = 4; end = 5; successors = [] }
      ∷ []
unfolding blocks_of
sample_blocks = refl

block_from-jump_example : (id : ℕ) × (block_from (blocks_of sample_loop) 4 ≡ some id)
unfolding is_jump
block_from-jump_example =
    block_from-jump sample_loop 1 (record (blank NirOp.jump_if_false) { args = 0 ∷ []; target = 4 })
      refl refl (omega arith)

-- A register that is written twice: a constant, and its cast.
abbrev sample_casts : Function
sample_casts = record sample_function {
  code =
      record (blank NirOp.const) { dest = some 0; literal = Value.boolean false }
      ∷ record (blank NirOp.cast) { dest = some 0; text = codes "u8"; args = 0 ∷ [] }
      ∷ [];
}

sample_register_types :
    (analyze_function [] sample_casts).register_types ≡ simple_type TypeKind.u8 ∷ []
unfolding analyze_function find_text text_eq type_from_name simple_type
sample_register_types = refl

analyze_function-last_write_example :
    (reg_type (analyze_function [] sample_casts).register_types 0
      ≡ last_write (analyze_function [] sample_casts).code 0 default_type)
    × (map untyped (analyze_function [] sample_casts).code ≡ map untyped sample_casts.code)
analyze_function-last_write_example = analyze_function-last_write [] sample_casts 0
