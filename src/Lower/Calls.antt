-- ===== src/Lower/Calls.antt =====
-- Lowering of calls and of whole expressions: the last part of `Lowerer::lowerExpr`, with
-- `Lowerer::lowerAddress` (Compiler/nir.cpp).
use noe_code.Prelude.{
  ℕ, suc, ◌*◌, ◌%◌, ◌^◌, Bool, true, false, List, [], ◌∷◌, Option, none, some, Text, codes, text_eq,
  max, ◌==◌, if◌then◌else◌, find_text,
}
use noe_code.Prelude.Int.{pos}
use noe_code.Nir.{monostate, int, NirOp, Instruction, blank}
use noe_code.Interp.Arith.{wrapped}
use noe_code.Interp.Values.{is_empty}
use noe_code.Ast.{
  TokenKind, Expr, Exprs, no_exprs, more_exprs, literal, name, unary, binary, call, cast, index,
  member, array, CallInfo,
}
use noe_code.Lower.Builder.{
  Lower, ◌>>=◌, ◌>>◌, pure, emit, fresh, emit_fresh, with_args, literal_of, named,
}
use noe_code.Lower.Expressions.{
  callee_name, int_literal, address_of_index, address_of_member, load_from, checked_operand,
  lower_unary, lower_binary,
}

-- The lowerings of the arguments of a call: of all, of the first, the second and all but the first.
pub record CallArgs : Type 0 where
  pub count : ℕ
  pub all : Lower (List ℕ)
  pub first : Lower ℕ
  pub second : Lower ℕ
  pub rest : Lower (List ℕ)

unfoldable pub lower_unknown : Lower ℕ
lower_unknown = emit_fresh (literal_of monostate)

unfoldable pub lower_len : CallInfo → CallArgs → Lower ℕ
unfolding wrapped
lower_len info args =
    if info.builtin_count == 0
    then (do
      slice ← args.first
      emit (with_args NirOp.check_non_null (slice ∷ []))
      emit_fresh (with_args NirOp.slice_len (slice ∷ [])))
    else emit_fresh (literal_of (int_literal info.builtin_count))

unfoldable pub lower_slice : CallInfo → CallArgs → Lower ℕ
unfolding wrapped
lower_slice info args = do
  elements ← args.first
  length ←
      if args.count == 2
      then args.second
      else emit_fresh (literal_of (int_literal info.builtin_count))
  emit_fresh
      (record (with_args NirOp.make_slice (elements ∷ length ∷ [])) { width = info.builtin_width })

-- An instruction whose destination is reserved before its arguments are lowered.
unfoldable pub lower_reserved : Instruction → Lower (List ℕ) → Lower ℕ
lower_reserved i args = do
  d ← fresh
  rs ← args
  emit (record i { dest = some d; args = rs })
  pure d

-- An atomic operation with no result, whose value is `null`.
unfoldable pub lower_plain : Instruction → Lower (List ℕ) → Lower ℕ
lower_plain i args = do rs ← args; emit (record i { args = rs }); emit_fresh (literal_of monostate)

abbrev pub atomics : List (Text × NirOp)
atomics =
    (codes "atomic.load", NirOp.atomic_load)
    ∷ (codes "atomicLoad", NirOp.atomic_load)
    ∷ (codes "atomic.store", NirOp.atomic_store)
    ∷ (codes "atomicStore", NirOp.atomic_store)
    ∷ (codes "atomic.exchange", NirOp.atomic_exchange)
    ∷ (codes "atomicExchange", NirOp.atomic_exchange)
    ∷ (codes "atomic.compareExchange", NirOp.atomic_compare_exchange)
    ∷ (codes "atomicCompareExchange", NirOp.atomic_compare_exchange)
    ∷ (codes "atomic.fence", NirOp.atomic_fence)
    ∷ (codes "atomicFence", NirOp.atomic_fence)
    ∷ []

unfoldable pub has_result : NirOp → Bool
has_result NirOp.atomic_store = false
has_result NirOp.atomic_fence = false
has_result _ = true

unfoldable pub lower_atomic : NirOp → CallInfo → CallArgs → Lower ℕ
unfolding has_result lower_reserved lower_plain
lower_atomic op info args =
    if has_result op
    then lower_reserved (record (blank op) { width = info.builtin_width }) args.all
    else lower_plain (record (blank op) { width = info.builtin_width }) args.all

-- A call that is neither `len` nor `slice`, with the atomic operation that its name stands for.
unfoldable pub lower_other : Text → CallInfo → CallArgs → Option NirOp → Lower ℕ
unfolding lower_atomic lower_reserved is_empty
lower_other callee info args (some op) = lower_atomic op info args
lower_other callee info args none =
    if text_eq callee (codes "asm")
    then emit_fresh (named NirOp.inline_asm info.builtin_text [])
    else if text_eq callee (codes "intrinsic")
    then lower_reserved (named NirOp.intrinsic info.builtin_text []) args.rest
    else lower_reserved (named NirOp.call (if is_empty callee then codes "<call>" else callee) [])
        args.all

unfoldable pub lower_call : Text → CallInfo → CallArgs → Lower ℕ
unfolding lower_len lower_slice lower_other
lower_call callee info args =
    if text_eq callee (codes "len")
    then lower_len info args
    else if text_eq callee (codes "slice")
    then lower_slice info args
    else lower_other callee info args (find_text atomics callee)

unfoldable pub count_exprs : Exprs → ℕ
count_exprs no_exprs = 0
count_exprs (more_exprs e es) = suc (count_exprs es)

-- The allocation of an array literal.
unfoldable pub lower_array : ℕ → ℕ → (ℕ → Lower (Unit {0})) → Lower ℕ
lower_array count element_size elements = do
  base ←
      emit_fresh
        (record (blank NirOp.stack_alloc) { width = max 1 (element_size * count % 2 ^ 64) })
  elements base
  pure base

-- One element of an array literal: its value, its address and the store.
unfoldable pub lower_element : ℕ → ℕ → ℕ → Lower ℕ → Lower (Unit {0})
lower_element base offset element_size element = do
  value ← element
  address ←
      emit_fresh (record (with_args NirOp.ptr_offset (base ∷ [])) { target = offset; width = 1 })
  emit (record (with_args NirOp.store_memory (address ∷ value ∷ [])) { width = element_size })

unfoldable mutual
  pub lower_expr : Expr → Lower ℕ
  lower_expr (literal sp v) = emit_fresh (literal_of v)
  lower_expr (array sp es size) = lower_array (count_exprs es) size (lower_elements es size 0)
  lower_expr (name sp n) = emit_fresh (named NirOp.load n [])
  lower_expr (unary sp op e width is_volatile) =
      lower_unary op (lower_expr e) (lower_address e) width is_volatile
  lower_expr (member sp o m info) =
      load_from (address_of_member info (lower_expr o) (lower_address o))
        (if info.field_size == 0 then 8 else info.field_size) info.volatile_access
  lower_expr (index sp o i info) =
      load_from (address_of_index info (lower_expr o) (lower_expr i)) info.element_size
        info.volatile_access
  lower_expr (cast sp e type_name) = do
    a ← lower_expr e
    emit_fresh (named NirOp.cast type_name (a ∷ []))
  lower_expr (binary sp l op r) = lower_binary l op (lower_expr l) (lower_address l) (lower_expr r)
  lower_expr (call sp callee args info) = lower_call (callee_name callee) info (record {
    count = count_exprs args;
    all = lower_args args;
    first = lower_first args;
    second = lower_second args;
    rest = lower_rest args;
  })

  pub lower_address : Expr → Lower ℕ
  lower_address (name sp n) = emit_fresh (named NirOp.address_of n [])
  lower_address (unary sp TokenKind.star e width is_volatile) = checked_operand (lower_expr e)
  lower_address (index sp o i info) = address_of_index info (lower_expr o) (lower_expr i)
  lower_address (member sp o m info) = address_of_member info (lower_expr o) (lower_address o)
  lower_address _ = emit_fresh (literal_of (int (pos 0)))

  pub lower_elements : Exprs → ℕ → ℕ → ℕ → Lower (Unit {0})
  lower_elements no_exprs size at base = pure tt
  lower_elements (more_exprs e es) size at base = do
    lower_element base (at * size % 2 ^ 64) size (lower_expr e)
    lower_elements es size (suc at) base

  pub lower_args : Exprs → Lower (List ℕ)
  lower_args no_exprs = pure []
  lower_args (more_exprs e es) = do r ← lower_expr e; rs ← lower_args es; pure (r ∷ rs)

  pub lower_first : Exprs → Lower ℕ
  lower_first no_exprs = lower_unknown
  lower_first (more_exprs e es) = lower_expr e

  pub lower_second : Exprs → Lower ℕ
  lower_second no_exprs = lower_unknown
  lower_second (more_exprs e es) = lower_first es

  pub lower_rest : Exprs → Lower (List ℕ)
  lower_rest no_exprs = pure []
  lower_rest (more_exprs e es) = lower_args es
