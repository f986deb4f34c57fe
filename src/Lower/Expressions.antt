-- ===== src/Lower/Expressions.antt =====
-- Lowering of expressions: `opText`, `memoryInfo`, `calleeName`, `Lowerer::lowerAddress` and
-- `Lowerer::lowerExpr` (Compiler/nir.cpp). The source lowers the address of a member or of an element
-- by a call on the same node; here the two functions share `address_of_index` and
-- `address_of_member`. `args[0]` of a call without arguments, undefined in the source, is lowered
-- like an unknown expression.
use noe_code.Prelude.{
  ℕ, Bool, false, [], ◌∷◌, ◌++◌, Text, codes, length, to_string, ◌==◌, if◌then◌else◌,
}
use noe_code.Nir.{Value, int, NirOp, Instruction, blank}
use noe_code.Interp.Arith.{wrapped}
use noe_code.Ast.{TokenKind, Expr, name, unary, index, member, IndexInfo, MemberInfo}
use noe_code.Lower.Builder.{
  Builder, Lower, ◌>>=◌, ◌>>◌, pure, emit, emit_fresh, position, patch, with_args, literal_of,
  named,
}

unfoldable pub op_text : TokenKind → Text
op_text TokenKind.plus = codes "+"
op_text TokenKind.minus = codes "-"
op_text TokenKind.star = codes "*"
op_text TokenKind.slash = codes "/"
op_text TokenKind.percent = codes "%"
op_text TokenKind.bang = codes "!"
op_text TokenKind.ampersand = codes "&"
op_text TokenKind.equal_equal = codes "=="
op_text TokenKind.bang_equal = codes "!="
op_text TokenKind.less = codes "<"
op_text TokenKind.less_equal = codes "<="
op_text TokenKind.greater = codes ">"
op_text TokenKind.greater_equal = codes ">="
op_text TokenKind.and_and = codes "&&"
op_text TokenKind.or_or = codes "||"
op_text TokenKind.try = codes "try"
op_text _ = codes "?"

-- The width and the volatility of the memory that an expression denotes.
unfoldable pub memory_info : Expr → ℕ × Bool
memory_info (index sp o i info) = (info.element_size, info.volatile_access)
memory_info (member sp o m info) =
    (if info.field_size == 0 then 8 else info.field_size, info.volatile_access)
memory_info (unary sp TokenKind.star e width is_volatile) = (width, is_volatile)
memory_info _ = (8, false)

unfoldable pub callee_name : Expr → Text
callee_name (name sp n) = n
callee_name (member sp (name sp' n) m info) = n ++ (codes "." ++ m)
callee_name _ = codes ""

abbrev pub int_literal : ℕ → Value
int_literal n = int (wrapped n)

-- The address of an element, from the lowering of the object and of the index.
unfoldable pub address_of_index : IndexInfo → Lower ℕ → Lower ℕ → Lower ℕ
unfolding wrapped
address_of_index info object at =
    if info.base_is_slice
    then (do
      base ← object
      idx ← at
      emit (with_args NirOp.check_non_null (base ∷ []))
      length ← emit_fresh (with_args NirOp.slice_len (base ∷ []))
      emit (with_args NirOp.check_bounds (idx ∷ length ∷ []))
      elements ← emit_fresh (with_args NirOp.slice_data (base ∷ []))
      emit (with_args NirOp.check_non_null (elements ∷ []))
      emit_fresh
          (record (with_args NirOp.ptr_offset (elements ∷ idx ∷ [])) { width = info.element_size }))
    else if info.has_fixed_bound
    then (do
      base ← object
      idx ← at
      length ← emit_fresh (literal_of (int_literal info.fixed_bound))
      emit (with_args NirOp.check_bounds (idx ∷ length ∷ []))
      emit_fresh
          (record (with_args NirOp.ptr_offset (base ∷ idx ∷ [])) { width = info.element_size }))
    else (do
      base ← object
      idx ← at
      emit (with_args NirOp.check_non_null (base ∷ []))
      emit_fresh
          (record (with_args NirOp.ptr_offset (base ∷ idx ∷ [])) { width = info.element_size }))

unfoldable pub offset_of : ℕ → ℕ → Instruction
offset_of base offset = record (with_args NirOp.ptr_offset (base ∷ [])) {
  target = offset;
  width = 1;
}

-- The address of a field, from the lowering of the object and of its address.
unfoldable pub address_of_member : MemberInfo → Lower ℕ → Lower ℕ → Lower ℕ
unfolding offset_of
address_of_member info object address =
    if info.base_is_pointer
    then (do
      base ← object
      emit (with_args NirOp.check_non_null (base ∷ []))
      emit_fresh (offset_of base info.offset))
    else (do base ← address; emit_fresh (offset_of base info.offset))

unfoldable pub load_from : Lower ℕ → ℕ → Bool → Lower ℕ
load_from address width is_volatile = do
  a ← address
  emit_fresh
      (record (with_args NirOp.load_memory (a ∷ [])) { width = width; is_volatile = is_volatile })

unfoldable pub checked_operand : Lower ℕ → Lower ℕ
checked_operand operand = do
  base ← operand
  emit (with_args NirOp.check_non_null (base ∷ []))
  pure base

unfoldable pub lower_unary : TokenKind → Lower ℕ → Lower ℕ → ℕ → Bool → Lower ℕ
unfolding load_from op_text checked_operand
lower_unary TokenKind.ampersand operand address width is_volatile = address
lower_unary TokenKind.star operand address width is_volatile =
    load_from (checked_operand operand) width is_volatile
lower_unary TokenKind.try operand address width is_volatile = do
  a ← operand
  emit_fresh (with_args NirOp.try (a ∷ []))
lower_unary op operand address width is_volatile = do
  a ← operand
  emit_fresh (named NirOp.unary (op_text op) (a ∷ []))

-- An assignment to a name, or through the address of the left side.
unfoldable pub assign_to : Expr → Lower ℕ → Lower ℕ → Lower ℕ
unfolding memory_info
assign_to (name sp n) right address = do r ← right; emit (named NirOp.store n (r ∷ [])); pure r
assign_to left right address = do
  r ← right
  a ← address
  emit (record (with_args NirOp.store_memory (a ∷ r ∷ [])) {
    width = (memory_info left).0;
    is_volatile = (memory_info left).1;
  })
  pure r

-- The variable that holds the value of `&&` or `||`.
unfoldable pub temporary_name : Builder → Text
temporary_name b =
    codes "$noqeri.logic." ++ (to_string (length b.code) ++ (codes "." ++ to_string b.next_reg))

unfoldable pub temporary : Lower Text
unfolding temporary_name
temporary b = (temporary_name b, b)

unfoldable pub lower_and : Lower ℕ → Lower ℕ → Lower ℕ
unfolding temporary
lower_and left right = do
  l ← left
  temp ← temporary
  emit (named NirOp.store temp (l ∷ []))
  test ← position
  emit (with_args NirOp.jump_if_false (l ∷ []))
  r ← right
  emit (named NirOp.store temp (r ∷ []))
  patch test
  emit_fresh (named NirOp.load temp [])

unfoldable pub lower_or : Lower ℕ → Lower ℕ → Lower ℕ
unfolding temporary
lower_or left right = do
  l ← left
  temp ← temporary
  emit (named NirOp.store temp (l ∷ []))
  test ← position
  emit (with_args NirOp.jump_if_false (l ∷ []))
  skip ← position
  emit (blank NirOp.jump)
  patch test
  r ← right
  emit (named NirOp.store temp (r ∷ []))
  patch skip
  emit_fresh (named NirOp.load temp [])

unfoldable pub lower_binary : Expr → TokenKind → Lower ℕ → Lower ℕ → Lower ℕ → Lower ℕ
unfolding assign_to lower_and lower_or op_text
lower_binary left TokenKind.equal value address right = assign_to left right address
lower_binary left TokenKind.and_and value address right = lower_and value right
lower_binary left TokenKind.or_or value address right = lower_or value right
lower_binary left op value address right = do
  l ← value
  r ← right
  emit_fresh (named NirOp.binary (op_text op) (l ∷ r ∷ []))
