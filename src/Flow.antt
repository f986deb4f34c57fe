-- ===== src/Flow.antt =====
-- The control flow of a function (Compiler/nir_analysis.cpp): `blocks` and
-- `NirAnalyzer::rebuildControlFlow`. A `std::set` is a list without repetition, in order.
pub mod Partition
pub mod Targets
pub mod Registers
pub mod Typing
mod Examples
use noe_code.Prelude.{
  ℕ, zero, suc, ◌+◌, ◌-◌, ◌%◌, ◌^◌, Bool, true, false, ◌&&◌, List, [], ◌∷◌, ◌++◌, Option, none,
  some, length, get_elem?, contains, map, ltb, leb, ◌==◌, if◌then◌else◌,
}
use noe_code.Nir.{NirOp, Instruction, BasicBlock, Function, Program}

-- `leaders.insert(n)`
unfoldable pub insert : ℕ → List ℕ → List ℕ
insert n [] = n ∷ []
insert n (m ∷ ms) =
    let rest = insert n ms in if ltb n m then n ∷ m ∷ ms else if n == m then m ∷ ms else m ∷ rest

unfoldable pub insert_if : Bool → ℕ → List ℕ → List ℕ
unfolding insert
insert_if true n s = insert n s
insert_if false n s = s

unfoldable pub is_jump : NirOp → Bool
is_jump NirOp.jump = true
is_jump NirOp.jump_if_false = true
is_jump _ = false

unfoldable pub ends_block : NirOp → Bool
ends_block NirOp.jump = true
ends_block NirOp.jump_if_false = true
ends_block NirOp.return = true
ends_block NirOp.throw = true
ends_block _ = false

-- The leaders that the instructions from position `at` on add.
unfoldable pub leaders_from : ℕ → ℕ → List Instruction → List ℕ → List ℕ
unfolding insert_if is_jump ends_block
leaders_from size at [] s = s
leaders_from size at (i ∷ code) s = leaders_from size (at + 1) code (
    insert_if (ends_block i.op && ltb (at + 1) size) (at + 1)
      (insert_if (is_jump i.op && ltb i.target size) i.target s))

unfoldable pub next_start : ℕ → List ℕ → ℕ
next_start size [] = size
next_start size (s ∷ starts) = s

unfoldable pub make_blocks : ℕ → ℕ → List ℕ → List BasicBlock
unfolding next_start
make_blocks number size [] = []
make_blocks number size (s ∷ starts) =
    record { id = number % 2 ^ 32; begin = s; end = next_start size starts; successors = [] }
    ∷ make_blocks (suc number) size starts

-- `byPc.find(pc)`
unfoldable pub block_from : List BasicBlock → ℕ → Option ℕ
block_from [] pc = none
block_from (b ∷ bs) pc = if b.begin == pc then some b.id else block_from bs pc

unfoldable pub block_around : List BasicBlock → ℕ → Option ℕ
block_around [] pc = none
block_around (b ∷ bs) pc = if leb b.begin pc && ltb pc b.end then some b.id else block_around bs pc

unfoldable pub block_at : List BasicBlock → ℕ → Option ℕ
unfolding block_from block_around
block_at bs pc = elim (block_from bs pc) [ some id ↦ some id | none ↦ block_around bs pc ]

unfoldable pub add_successor : Option ℕ → List ℕ → List ℕ
add_successor none s = s
add_successor (some id) s = if contains s id then s else s ++ id ∷ []

unfoldable pub next_id : List BasicBlock → Option ℕ
next_id [] = none
next_id (b ∷ bs) = some b.id

-- By the last operation of a block, with its target's block and the block that follows.
unfoldable pub successors_on : NirOp → Option ℕ → Option ℕ → List ℕ
unfolding add_successor
successors_on NirOp.jump target next = add_successor target []
successors_on NirOp.jump_if_false target next = add_successor next (add_successor target [])
successors_on NirOp.return target next = []
successors_on NirOp.throw target next = []
successors_on _ target next = add_successor next []

unfoldable pub successors_of :
    List BasicBlock → List Instruction → BasicBlock → List BasicBlock → List ℕ
unfolding successors_on block_at next_id
successors_of all code b rest =
    if leb b.end b.begin then b.successors else elim (get_elem? code (b.end - 1)) [
      | none ↦ b.successors
      | some last ↦ successors_on last.op (block_at all last.target) (next_id rest)
    ]

unfoldable pub link : List BasicBlock → List Instruction → List BasicBlock → List BasicBlock
unfolding successors_of
link all code [] = []
link all code (b ∷ bs) = record b { successors = successors_of all code b bs } ∷ link all code bs

unfoldable pub blocks_of : List Instruction → List BasicBlock
unfolding link make_blocks leaders_from
blocks_of [] = []
blocks_of (i ∷ code) =
    let size = length (i ∷ code) in
    let all = make_blocks 0 size (leaders_from size 0 (i ∷ code) (0 ∷ [])) in
    link all (i ∷ code) all

unfoldable pub blocks : Function → Function
unfolding blocks_of
blocks f = record f { blocks = blocks_of f.code }

-- `NirAnalyzer::rebuildControlFlow`
unfoldable pub rebuild_control_flow : Program → Program
unfolding blocks
rebuild_control_flow p = record { entry = blocks p.entry; functions = map blocks p.functions }
