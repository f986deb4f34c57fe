-- ===== src/Optimizer.antt =====
-- The optimizer (Compiler/optimizer.cpp): constant folding, removal of redundant checks, removal of
-- unused instructions, and the pipeline of the optimization levels. A `std::unordered_map` or `_set`
-- over registers is an association list or a list.
pub mod Fold
pub mod Passes
pub mod Constants
mod Examples
use noe_code.Prelude.{
  ℕ, zero, suc, ◌%◌, ◌+◌, ◌-◌, ◌*◌, ◌^◌, Bool, true, false, not, ◌&&◌, ◌||◌, List, [], ◌∷◌, ◌++◌,
  Option, none, some, Text, codes, text_eq, ltb, leb, ◌==◌, if◌then◌else◌, find, erase, put,
  contains, map,
}
use mathlib.Core.Option
use noe_code.Prelude.Int.{ℤ, pos, negsuc, ltb_ℤ, leb_ℤ, ◌/ℤ◌, ◌%ℤ◌}
use noe_code.Nir.{
  Value, monostate, int, double, boolean, text, NirOp, Instruction, Function, Program,
}
use noe_code.Interp.Arith.{eq_ℤ, i64_min, as_u64, wrapped}
use noe_code.Interp.Values.{Floats, is_empty, ◌or_else◌}

-- The integer part of `fold`.
unfoldable pub fold_ints : Text → ℤ → ℤ → Option Value
unfolding as_u64 wrapped
fold_ints op x y =
    if text_eq op (codes "+")
    then some (int (wrapped ((as_u64 x + as_u64 y) % 2 ^ 64)))
    else if text_eq op (codes "-")
    then some (int (wrapped ((as_u64 x + 2 ^ 64 - as_u64 y) % 2 ^ 64)))
    else if text_eq op (codes "*")
    then some (int (wrapped (as_u64 x * as_u64 y % 2 ^ 64)))
    else if text_eq op (codes "/") && not (eq_ℤ y (pos 0))
    then some (int (if eq_ℤ x i64_min && eq_ℤ y (negsuc 0) then x else x /ℤ y))
    else if text_eq op (codes "%") && not (eq_ℤ y (pos 0))
    then some (int (if eq_ℤ x i64_min && eq_ℤ y (negsuc 0) then pos 0 else x %ℤ y))
    else if text_eq op (codes "==")
    then some (boolean (eq_ℤ x y))
    else if text_eq op (codes "!=")
    then some (boolean (not (eq_ℤ x y)))
    else if text_eq op (codes "<")
    then some (boolean (ltb_ℤ x y))
    else if text_eq op (codes "<=")
    then some (boolean (leb_ℤ x y))
    else if text_eq op (codes ">")
    then some (boolean (ltb_ℤ y x))
    else if text_eq op (codes ">=")
    then some (boolean (leb_ℤ y x))
    else none

unfoldable pub fold_texts : Text → Text → Text → Option Value
fold_texts op x y =
    if text_eq op (codes "+")
    then some (text (x ++ y))
    else if text_eq op (codes "==")
    then some (boolean (text_eq x y))
    else if text_eq op (codes "!=")
    then some (boolean (not (text_eq x y)))
    else none

module _ (fl : Floats) where
  unfoldable pub truthy : Value → Bool
  unfolding is_empty
  truthy (boolean b) = b
  truthy (int z) = not (eq_ℤ z (pos 0))
  truthy (double d) = not (fl.eq d 0)
  truthy (text s) = not (is_empty s)
  truthy monostate = false

  unfoldable pub fold_doubles : Text → ℕ → ℕ → Option Value
  fold_doubles op x y =
      if text_eq op (codes "+")
      then some (double (fl.add x y))
      else if text_eq op (codes "-")
      then some (double (fl.sub x y))
      else if text_eq op (codes "*")
      then some (double (fl.mul x y))
      else if text_eq op (codes "/") && not (fl.eq y 0)
      then some (double (fl.div x y))
      else if text_eq op (codes "==")
      then some (boolean (fl.eq x y))
      else if text_eq op (codes "!=")
      then some (boolean (not (fl.eq x y)))
      else if text_eq op (codes "<")
      then some (boolean (fl.lt x y))
      else if text_eq op (codes "<=")
      then some (boolean (fl.le x y))
      else if text_eq op (codes ">")
      then some (boolean (fl.lt y x))
      else if text_eq op (codes ">=")
      then some (boolean (fl.le y x))
      else none

  -- The tests of `fold` on two values of one type.
  unfoldable pub fold_same : Text → Value → Value → Option Value
  unfolding fold_ints fold_doubles fold_texts
  fold_same op (int x) (int y) = fold_ints op x y
  fold_same op (double x) (double y) = fold_doubles op x y
  fold_same op (text x) (text y) = fold_texts op x y
  fold_same op a b = none

  unfoldable pub fold_logic : Text → Value → Value → Option Value
  unfolding truthy
  fold_logic op a b =
      if text_eq op (codes "&&")
      then some (boolean (truthy a && truthy b))
      else if text_eq op (codes "||")
      then some (boolean (truthy a || truthy b))
      else none

  unfoldable pub fold : Text → Value → Value → Option Value
  unfolding fold_same fold_logic
  fold op a b = Option.map some (fold_same op a b) or_else fold_logic op a b
