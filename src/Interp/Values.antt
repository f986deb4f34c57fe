-- ===== src/Interp/Values.antt =====
-- Values of the interpreter: `truthyValue`, `asInt`, `asDouble`, `binary` and the unary operators.
use noe_code.Prelude.{
  ℕ, Bool, true, false, not, ◌&&◌, ◌||◌, [], ◌∷◌, ◌++◌, Option, none, some, Text, codes, text_eq,
  if◌then◌else◌,
}
use mathlib.Core.Option
use noe_code.Prelude.Int.{ℤ, pos, ltb_ℤ, leb_ℤ}
use noe_code.Nir.{Value, monostate, int, double, boolean, text}
use noe_code.Interp.Result.{
  Result, ok, err, ◌>>=◌, integer_required, numeric_required, unsupported_operation,
}
use noe_code.Interp.Arith.{eq_ℤ, add_int, sub_int, mul_int, div_int, mod_int, negate_int}

-- What the machine does with `double`s, each the 64-bit pattern of its value. The pattern 0 is 0.0.
pub record Floats : Type 0 where
  pub add : ℕ → ℕ → ℕ
  pub sub : ℕ → ℕ → ℕ
  pub mul : ℕ → ℕ → ℕ
  pub div : ℕ → ℕ → ℕ
  pub negate : ℕ → ℕ
  pub eq : ℕ → ℕ → Bool
  pub lt : ℕ → ℕ → Bool
  pub le : ℕ → ℕ → Bool
  pub of_int : ℤ → ℕ

unfoldable pub is_empty : Text → Bool
is_empty [] = true
is_empty (c ∷ s) = false

module _ (fl : Floats) where
  unfoldable pub truthy_value : Value → Bool
  unfolding is_empty
  truthy_value monostate = false
  truthy_value (int z) = not (eq_ℤ z (pos 0))
  truthy_value (double d) = not (fl.eq d 0)
  truthy_value (boolean b) = b
  truthy_value (text s) = not (is_empty s)

  unfoldable pub as_double : Value → Result ℕ
  as_double (double d) = ok d
  as_double (int z) = ok (fl.of_int z)
  as_double v = err numeric_required

  -- The operators on two `double`s, or a `double` and an integer; `none` where no test matches.
  unfoldable pub double_binary : Text → ℕ → ℕ → Option Value
  double_binary op x y =
      if text_eq op (codes "+")
      then some (double (fl.add x y))
      else if text_eq op (codes "-")
      then some (double (fl.sub x y))
      else if text_eq op (codes "*")
      then some (double (fl.mul x y))
      else if text_eq op (codes "/")
      then some (double (fl.div x y))
      else if text_eq op (codes "==")
      then some (boolean (fl.eq x y))
      else if text_eq op (codes "!=")
      then some (boolean (not (fl.eq x y)))
      else if text_eq op (codes "<")
      then some (boolean (fl.lt x y))
      else if text_eq op (codes "<=")
      then some (boolean (fl.le x y))
      else if text_eq op (codes ">")
      then some (boolean (fl.lt y x))
      else if text_eq op (codes ">=")
      then some (boolean (fl.le y x))
      else none

  -- The part of `binary` below its test for two integers, on values that are numbers.
  unfoldable pub numeric_binary : Text → Value → Value → Option Value
  unfolding double_binary
  numeric_binary op (double x) (double y) = double_binary op x y
  numeric_binary op (double x) (int y) = double_binary op x (fl.of_int y)
  numeric_binary op (int x) (double y) = double_binary op (fl.of_int x) y
  numeric_binary op (int x) (int y) = double_binary op (fl.of_int x) (fl.of_int y)
  numeric_binary op a b = none

unfoldable pub as_int : Value → Result ℤ
as_int (int z) = ok z
as_int (boolean b) = ok (if b then pos 1 else pos 0)
as_int monostate = ok (pos 0)
as_int v = err integer_required

unfoldable pub of_int_result : Result ℤ → Result Value
of_int_result r = do z ← r; ok (int z)

-- The operators on two integers; `none` where no test matches.
unfoldable pub int_binary : Bool → Text → ℤ → ℤ → Option (Result Value)
unfolding of_int_result
int_binary checked op x y =
    if text_eq op (codes "+")
    then some (of_int_result (add_int checked x y))
    else if text_eq op (codes "-")
    then some (of_int_result (sub_int checked x y))
    else if text_eq op (codes "*")
    then some (of_int_result (mul_int checked x y))
    else if text_eq op (codes "/")
    then some (of_int_result (div_int checked x y))
    else if text_eq op (codes "%")
    then some (of_int_result (mod_int x y))
    else if text_eq op (codes "==")
    then some (ok (boolean (eq_ℤ x y)))
    else if text_eq op (codes "!=")
    then some (ok (boolean (not (eq_ℤ x y))))
    else if text_eq op (codes "<")
    then some (ok (boolean (ltb_ℤ x y)))
    else if text_eq op (codes "<=")
    then some (ok (boolean (leb_ℤ x y)))
    else if text_eq op (codes ">")
    then some (ok (boolean (ltb_ℤ y x)))
    else if text_eq op (codes ">=")
    then some (ok (boolean (leb_ℤ y x)))
    else none

unfoldable pub text_binary : Text → Text → Text → Option Value
text_binary op x y =
    if text_eq op (codes "+")
    then some (text (x ++ y))
    else if text_eq op (codes "==")
    then some (boolean (text_eq x y))
    else if text_eq op (codes "!=")
    then some (boolean (not (text_eq x y)))
    else none

unfoldable pub ints_binary : Bool → Text → Value → Value → Option (Result Value)
unfolding int_binary
ints_binary checked op (int x) (int y) = int_binary checked op x y
ints_binary checked op a b = none

unfoldable pub texts_binary : Text → Value → Value → Option Value
unfolding text_binary
texts_binary op (text x) (text y) = text_binary op x y
texts_binary op a b = none

-- `else` of a chain of tests.
infixr 30 ◌or_else◌
abbrev pub ◌or_else◌ {ℓ} : {A : Type ℓ} → Option A → A → A
some a or_else b = a
none or_else b = b

module _ (fl : Floats) where
  unfoldable pub logic_binary : Text → Value → Value → Result Value
  logic_binary op a b =
      if text_eq op (codes "&&")
      then ok (boolean (truthy_value fl a && truthy_value fl b))
      else if text_eq op (codes "||")
      then ok (boolean (truthy_value fl a || truthy_value fl b))
      else err (unsupported_operation op)

  unfoldable pub binary : Bool → Text → Value → Value → Result Value
  unfolding ints_binary numeric_binary texts_binary logic_binary
  binary checked op a b =
      ints_binary checked op a b
      or_else Option.map ok (numeric_binary fl op a b)
      or_else Option.map ok (texts_binary op a b)
      or_else logic_binary op a b

  unfoldable pub negated : Bool → Value → Result Value
  unfolding as_double of_int_result
  negated checked (int n) = of_int_result (negate_int checked n)
  negated checked v = do d ← as_double fl v; ok (double (fl.negate d))

  -- `NirOp::Unary`: `!`, `-`, and any other operator, which passes the value on.
  unfoldable pub unary : Bool → Text → Value → Result Value
  unfolding truthy_value negated
  unary checked op v =
      if text_eq op (codes "!")
      then ok (boolean (not (truthy_value fl v)))
      else if text_eq op (codes "-")
      then negated checked v
      else ok v
