-- ===== src/TypeChecker/Literals.antt =====
-- Literals and what may be assigned: the helpers in front of Compiler/type_checker.cpp.
use noe_code.Prelude.{
  ◌-◌, ◌^◌, Bool, true, false, ◌&&◌, ◌||◌, Option, none, some, Text, ◌==◌, if◌then◌else◌,
}
use noe_code.Prelude.Opt.{◌>>=◌}
use noe_code.Prelude.Int.{ℤ, pos, negsuc, ◌-ℤ◌, leb_ℤ}
use noe_code.Types.{
  TypeKind, Ty, kind, is_integer, can_assign, simple_type, i8, i16, i32, i64, u8, u16, u32, u64,
  isize, usize,
}
use noe_code.Nir.{Value}
use noe_code.Ast.{TokenKind, Expr, literal, unary}

unfoldable pub literal_string : Expr → Option Text
literal_string (literal sp (Value.text s)) = some s
literal_string _ = none

-- `-v`, and nothing for the least `int64_t`.
unfoldable pub negated : ℤ → Option ℤ
unfolding ◌-ℤ◌
negated (pos n) = some (pos 0 -ℤ pos n)
negated (negsuc n) = if n == 2 ^ 63 - 1 then none else some (pos 0 -ℤ negsuc n)

-- A literal with a sign in front.
unfoldable pub signed : TokenKind → ℤ → Option ℤ
unfolding negated
signed TokenKind.plus v = some v
signed TokenKind.minus v = negated v
signed _ v = none

-- `literalInteger`
unfoldable pub integer_literal : Expr → Option ℤ
unfolding signed
integer_literal (literal sp (Value.int v)) = some v
integer_literal (unary sp op e w q) = let value = integer_literal e in value >>= signed op
integer_literal _ = none

abbrev between : ℤ → ℤ → ℤ → Bool
between low high v = leb_ℤ low v && leb_ℤ v high

unfoldable pub literal_fits_integer : TypeKind → ℤ → Bool
literal_fits_integer u8 v = between (pos 0) (pos 255) v
literal_fits_integer u16 v = between (pos 0) (pos 65535) v
literal_fits_integer u32 v = between (pos 0) (pos 4294967295) v
literal_fits_integer u64 v = leb_ℤ (pos 0) v
literal_fits_integer usize v = leb_ℤ (pos 0) v
literal_fits_integer i8 v = between (negsuc 127) (pos 127) v
literal_fits_integer i16 v = between (negsuc 32767) (pos 32767) v
literal_fits_integer i32 v = between (negsuc 2147483647) (pos 2147483647) v
literal_fits_integer i64 v = true
literal_fits_integer isize v = true
literal_fits_integer TypeKind.int v = true
literal_fits_integer _ v = false

-- The literal that an expression stands for fits the target.
unfoldable pub literal_fits : Ty → Option Expr → Bool
unfolding integer_literal literal_fits_integer kind
literal_fits target none = false
literal_fits target (some e) = elim (integer_literal e) [
  | some v ↦ literal_fits_integer (kind target) v
  | none ↦ false
]

-- `canAssignValue`; the expression is absent where the source passes a null pointer.
unfoldable pub can_assign_value : Ty → Ty → Option Expr → Bool
unfolding is_integer
can_assign_value target value e =
    can_assign target value || (is_integer target && is_integer value && literal_fits target e)

-- The type of a literal.
unfoldable pub literal_type : Value → Ty
unfolding simple_type
literal_type Value.monostate = simple_type TypeKind.null
literal_type (Value.int v) = simple_type TypeKind.int
literal_type (Value.double d) = simple_type TypeKind.float
literal_type (Value.boolean b) = simple_type TypeKind.bool
literal_type (Value.text s) = simple_type TypeKind.string
