-- ===== src/Interp/Arith/Product.antt =====
-- The overflow test of multiplication (`mulOverflows`) against the product itself.
use noe_code.Interp.Arith.Laws.{IsChecked, IsWrapped, IsChecked-cases, wrapped-IsWrapped}
use noe_code.Prelude.{
  ℕ, suc, zero, ◌-◌, ◌*◌, ◌/◌, ◌%◌, ◌^◌, ◌<◌, ◌≡◌, refl, ◌↔◌, true, false, arith, Bool-cases, inl,
  inr,
}
use noe_code.Prelude.Int.{ℤ, pos, negsuc, ◌*ℤ◌, ◌/ℤ◌}
use noe_code.Interp.Result.{overflow_multiplication}
use noe_code.Interp.Arith.{IsI64, mul_overflows, mul_int, as_u64}

div-lt : (m a b : ℕ) → 0 < b → (m / b < a) ↔ (m < a * b)
div-lt m a b h = (λ p. grind arith, λ p. grind arith)

pub mul_overflows_iff :
    (a b : ℤ) → IsI64 a → IsI64 b → (mul_overflows a b ≡ true) ↔ (¬ IsI64 (a *ℤ b))
unfolding mul_overflows ◌*ℤ◌ ◌/ℤ◌
mul_overflows_iff (pos zero) b ha hb = ground arith
mul_overflows_iff (pos (suc a)) (pos zero) ha hb = ground arith
mul_overflows_iff (pos (suc a)) (pos (suc b)) ha hb =
    ground (arith, div-lt (2 ^ 63 - 1) (suc a) (suc b))
mul_overflows_iff (pos (suc a)) (negsuc b) ha hb = ground (arith, div-lt (2 ^ 63) (suc b) (suc a))
mul_overflows_iff (negsuc a) (pos zero) ha hb = ground arith
mul_overflows_iff (negsuc a) (pos (suc b)) ha hb = ground (arith, div-lt (2 ^ 63) (suc a) (suc b))
mul_overflows_iff (negsuc a) (negsuc b) ha hb = ground (arith, div-lt (2 ^ 63 - 1) (suc a) (suc b))

fits-not_overflows : (a b : ℤ) → IsI64 a → IsI64 b → IsI64 (a *ℤ b) → mul_overflows a b ≡ false
fits-not_overflows a b ha hb h = elim (Bool-cases (mul_overflows a b)) [
  | inl e ↦ absurd ((mul_overflows_iff a b ha hb).0 e h)
  | inr e ↦ e
]

-- The checked product of two 64-bit integers is their product where that is an integer of 64 bits, and
-- an error where it is not. The unchecked product is the 64-bit integer whose bits are those of the
-- product of the bits, modulo 2^64.
pub mul_int-Product :
    (a b : ℤ)
    → IsI64 a
    → IsI64 b
    → IsChecked (mul_int true a b) overflow_multiplication (a *ℤ b)
      × IsWrapped (mul_int false a b) (as_u64 a * as_u64 b % 2 ^ 64)
unfolding mul_int
mul_int-Product a b ha hb = (
  IsChecked-cases (a *ℤ b) (λ h. rw (fits-not_overflows a b ha hb h) refl)
      (λ h. rw ((mul_overflows_iff a b ha hb).1 h) refl),
  wrapped-IsWrapped _ (omega arith),
)
