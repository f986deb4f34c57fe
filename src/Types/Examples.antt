-- ===== src/Types/Examples.antt =====
-- The rules of assignment on concrete types.
use noe_code.Prelude.{◌≡◌, ◌↔◌, refl, true}
use noe_code.Prelude.Int.{ℤ}
use noe_code.Types.{TypeKind, kind, simple_type, is_integer, is_integer_kind, can_assign}
use noe_code.Types.Ranges.{InRange, can_assign-iff-range}

can_assign-iff-range_example :
    (can_assign (simple_type TypeKind.i64) (simple_type TypeKind.u32) ≡ true) ↔ (
      (z : ℤ)
      → InRange (kind (simple_type TypeKind.u32)) z
      → InRange (kind (simple_type TypeKind.i64)) z)
unfolding is_integer is_integer_kind simple_type
can_assign-iff-range_example =
    can_assign-iff-range (simple_type TypeKind.i64) (simple_type TypeKind.u32) refl refl
