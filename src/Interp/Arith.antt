-- ===== src/Interp/Arith.antt =====
-- 64-bit integer arithmetic of the interpreter: `addInt` to `negateInt`. An `int64_t` is an integer
-- in `IsI64`; `NOQERI_CHECKED_OVERFLOW` is the argument `checked`.
pub mod Laws
pub mod Product
use noe_code.Prelude.{
  ℕ, zero, suc, ◌+◌, ◌-◌, ◌*◌, ◌%◌, ◌^◌, Bool, true, false, not, ◌&&◌, ◌||◌, ltb, ◌==◌,
  if◌then◌else◌,
}
use noe_code.Prelude.Int.{
  ℤ, pos, negsuc, ◌+ℤ◌, ◌-ℤ◌, ◌*ℤ◌, ◌/ℤ◌, ◌%ℤ◌, ◌≤ℤ◌, ltb_ℤ, pos_part, neg_part,
}
use noe_code.Interp.Result.{
  Result, ok, err, overflow_addition, overflow_subtraction, overflow_multiplication,
  overflow_division, overflow_negation, division_by_zero, remainder_by_zero,
}

abbrev pub i64_max : ℤ
i64_max = pos (2 ^ 63 - 1)

abbrev pub i64_min : ℤ
i64_min = negsuc (2 ^ 63 - 1)

abbrev pub IsI64 : ℤ → Type 0
IsI64 z = (i64_min ≤ℤ z) × (z ≤ℤ i64_max)

abbrev pub eq_ℤ : ℤ → ℤ → Bool
eq_ℤ a b = pos_part a == pos_part b && neg_part a == neg_part b

-- `static_cast<std::uint64_t>(z)`
unfoldable pub as_u64 : ℤ → ℕ
as_u64 (pos n) = n % 2 ^ 64
as_u64 (negsuc n) = 2 ^ 64 - 1 - n % 2 ^ 64

-- The `int64_t` with the bits of a `uint64_t`.
unfoldable pub wrapped : ℕ → ℤ
wrapped u = if ltb u (2 ^ 63) then pos u else negsuc (2 ^ 64 - 1 - u)

unfoldable pub add_int : Bool → ℤ → ℤ → Result ℤ
unfolding ◌+ℤ◌ ◌-ℤ◌ wrapped as_u64
add_int checked a b =
    if checked
    then (if (ltb_ℤ (pos 0) b && ltb_ℤ (i64_max -ℤ b) a)
          || (ltb_ℤ b (pos 0) && ltb_ℤ a (i64_min -ℤ b))
        then err overflow_addition
        else ok (a +ℤ b))
    else ok (wrapped ((as_u64 a + as_u64 b) % 2 ^ 64))

unfoldable pub sub_int : Bool → ℤ → ℤ → Result ℤ
unfolding ◌+ℤ◌ ◌-ℤ◌ wrapped as_u64
sub_int checked a b =
    if checked
    then (if (ltb_ℤ b (pos 0) && ltb_ℤ (i64_max +ℤ b) a)
          || (ltb_ℤ (pos 0) b && ltb_ℤ a (i64_min +ℤ b))
        then err overflow_subtraction
        else ok (a -ℤ b))
    else ok (wrapped ((as_u64 a + 2 ^ 64 - as_u64 b) % 2 ^ 64))

unfoldable pub mul_overflows : ℤ → ℤ → Bool
mul_overflows a b =
    if eq_ℤ a (pos 0) || eq_ℤ b (pos 0)
    then false
    else if eq_ℤ a (negsuc 0)
    then eq_ℤ b i64_min
    else if eq_ℤ b (negsuc 0)
    then eq_ℤ a i64_min
    else if ltb_ℤ (pos 0) a
    then (if ltb_ℤ (pos 0) b then ltb_ℤ (i64_max /ℤ b) a else ltb_ℤ b (i64_min /ℤ a))
    else if ltb_ℤ (pos 0) b
    then ltb_ℤ a (i64_min /ℤ b)
    else ltb_ℤ a (i64_max /ℤ b)

unfoldable pub mul_int : Bool → ℤ → ℤ → Result ℤ
unfolding wrapped as_u64
mul_int checked a b =
    if checked && mul_overflows a b
    then err overflow_multiplication
    else if checked
    then ok (a *ℤ b)
    else ok (wrapped (as_u64 a * as_u64 b % 2 ^ 64))

unfoldable pub div_int : Bool → ℤ → ℤ → Result ℤ
div_int checked a b =
    if eq_ℤ b (pos 0)
    then err division_by_zero
    else if eq_ℤ a i64_min && eq_ℤ b (negsuc 0)
    then (if checked then err overflow_division else ok a)
    else ok (a /ℤ b)

unfoldable pub mod_int : ℤ → ℤ → Result ℤ
mod_int a b =
    if eq_ℤ b (pos 0)
    then err remainder_by_zero
    else if eq_ℤ a i64_min && eq_ℤ b (negsuc 0)
    then ok (pos 0)
    else ok (a %ℤ b)

unfoldable pub negate_int : Bool → ℤ → Result ℤ
unfolding ◌-ℤ◌
negate_int checked value =
    if eq_ℤ value i64_min
    then (if checked then err overflow_negation else ok value)
    else ok (pos 0 -ℤ value)
