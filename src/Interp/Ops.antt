-- ===== src/Interp/Ops.antt =====
-- The instructions of the interpreter that read or write memory and variables, and the two checks:
-- the cases of the `switch` of `Interpreter::runFunction` (Compiler/bootstrap/interpreter_host.cpp).
use noe_code.Prelude.{
  ℕ, ◌+◌, ◌^◌, ◌%◌, not, ◌||◌, [], ◌∷◌, none, some, Text, find_text, ◌==◌, if◌then◌else◌,
}
use noe_code.Prelude.Int.{ℤ, pos, ltb_ℤ, leb_ℤ}
use noe_code.Nir.{Value, int, boolean, Instruction}
use noe_code.Interp.Result.{
  Result, ok, err, ◌>>=◌, ◌>>◌, guard, undefined_variable, null_access, malformed_bounds_check,
  out_of_bounds,
}
use noe_code.Interp.Arith.{as_u64, wrapped, add_int, mul_int, eq_ℤ}
use noe_code.Interp.Memory.{raw_load, raw_store, allocate_bytes}
use noe_code.Interp.State.{State, Machine, member_text, get_int, get_word, with_memory}

module _ {W : Type 0} where
  unfoldable pub do_load_memory : Instruction → State W → Result (Value × State W)
  unfolding get_word
  do_load_memory i s = do
    address ← get_word s i 0
    bits ← raw_load s.shared.memory address i.width
    ok (int (wrapped bits), s)

  unfoldable pub do_store_memory : Instruction → State W → Result (State W)
  unfolding get_word
  do_store_memory i s = do
    address ← get_word s i 0
    value ← get_word s i 1
    memory ← raw_store s.shared.memory address i.width value
    ok (with_memory s memory)

  -- `SliceData` and `SliceLen`: a word of the descriptor.
  unfoldable pub do_slice_word : ℕ → Instruction → State W → Result (Value × State W)
  unfolding get_word
  do_slice_word k i s = do
    descriptor ← get_word s i 0
    bits ← raw_load s.shared.memory ((descriptor + k) % 2 ^ 64) 8
    ok (int (wrapped bits), s)

  unfoldable pub do_check_non_null : Instruction → State W → Result (State W)
  unfolding get_int
  do_check_non_null i s = elim i.args [
    | [] ↦ err null_access
    | _ ∷ _ ↦ do z ← get_int s i 0; guard (not (eq_ℤ z (pos 0))) null_access; ok s
  ]

  unfoldable pub do_check_bounds : Instruction → State W → Result (State W)
  unfolding get_int
  do_check_bounds i s = elim i.args [
    | [] ↦ err malformed_bounds_check
    | _ ∷ [] ↦ err malformed_bounds_check
    | _ ∷ _ ∷ _ ↦ do
      index ← get_int s i 0
      length ← get_int s i 1
      guard (not (ltb_ℤ index (pos 0) || ltb_ℤ length (pos 0) || leb_ℤ length index))
          (out_of_bounds index length)
      ok s
  ]

  unfoldable pub do_atomic_exchange : Instruction → State W → Result (Value × State W)
  unfolding get_word
  do_atomic_exchange i s = do
    address ← get_word s i 0
    old ← raw_load s.shared.memory address i.width
    value ← get_word s i 1
    memory ← raw_store s.shared.memory address i.width value
    ok (int (wrapped old), with_memory s memory)

  unfoldable pub do_atomic_compare_exchange : Instruction → State W → Result (Value × State W)
  unfolding get_word
  do_atomic_compare_exchange i s = do
    address ← get_word s i 0
    old ← raw_load s.shared.memory address i.width
    expected ← get_word s i 1
    let exchanged = do
      value ← get_word s i 2
      memory ← raw_store s.shared.memory address i.width value
      ok (int (wrapped old), with_memory s memory)
    if old == expected then exchanged else ok (int (wrapped old), s)

module _ {W : Type 0} (m : Machine W) where
  -- The address of `cells[name]`, which is made, and is zero, if it is not there.
  unfoldable pub cell : Text → State W → ℕ × State W
  cell name s = elim (find_text s.cells name) [
    | some a ↦ (a, s)
    | none ↦
        let (a, memory) = allocate_bytes m.alloc s.shared.memory 8 in
        (a, record (with_memory s memory) { cells = (name, a) ∷ s.cells })
  ]

  unfoldable pub set_cell : Text → ℕ → State W → Result (State W)
  unfolding cell
  set_cell name value s =
      let (a, s') = cell name s in
      do memory ← raw_store s'.shared.memory a 8 value; ok (with_memory s' memory)

  -- `vars[name]=v`, with the cell for an integer or a Boolean.
  unfoldable pub set_var : Text → Value → State W → Result (State W)
  unfolding set_cell
  set_var name v s =
      let s' : State W = record s { vars = (name, v) ∷ s.vars } in
      elim v [
        | int n ↦ set_cell name (as_u64 n) s'
        | boolean b ↦ set_cell name (if b then 1 else 0) s'
        | _ ↦ ok s'
      ]

  unfoldable pub do_load : Text → State W → Result (Value × State W)
  unfolding cell member_text
  do_load name s =
      if member_text s.address_taken name
      then (let (a, s') = cell name s in
          do bits ← raw_load s'.shared.memory a 8; ok (int (wrapped bits), s'))
      else elim (find_text s.vars name) [
        | none ↦ err (undefined_variable name)
        | some v ↦ ok (v, s)
      ]

  unfoldable pub do_address_of : Text → State W → Result (Value × State W)
  unfolding cell
  do_address_of name s =
      let (a, s') = cell name (record s { address_taken = name ∷ s.address_taken }) in
      ok (int (wrapped a), s')

  unfoldable pub offset : Instruction → State W → Result ℤ
  unfolding get_int
  offset i s = elim i.args [
    | [] ↦ ok (wrapped i.target)
    | _ ∷ [] ↦ ok (wrapped i.target)
    | _ ∷ _ ∷ _ ↦ do k ← get_int s i 1; mul_int m.checked_overflow k (wrapped i.width)
  ]

  unfoldable pub do_ptr_offset : Instruction → State W → Result (Value × State W)
  unfolding get_int offset
  do_ptr_offset i s = do
    base ← get_int s i 0
    delta ← offset i s
    z ← add_int m.checked_overflow base delta
    ok (int z, s)

  unfoldable pub do_stack_alloc : Instruction → State W → Result (Value × State W)
  do_stack_alloc i s =
      let (a, memory) = allocate_bytes m.alloc s.shared.memory i.width in
      ok (int (wrapped a), with_memory s memory)

  unfoldable pub do_make_slice : Instruction → State W → Result (Value × State W)
  unfolding get_word
  do_make_slice i s =
      let (a, memory) = allocate_bytes m.alloc s.shared.memory 16 in
      do
        first ← get_word s i 0
        memory₁ ← raw_store memory a 8 first
        count ← get_word s i 1
        memory₂ ← raw_store memory₁ (a + 8) 8 count
        ok (int (wrapped a), with_memory s memory₂)
