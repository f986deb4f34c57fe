-- ===== src/Interp/Arith/Laws.antt =====
-- What sums, differences and negations of 64-bit integers give, with and without overflow checks.
use noe_code.Prelude.{
  ℕ, ◌+◌, ◌-◌, ◌%◌, ◌^◌, ◌<◌, ◌≡◌, refl, Bool, true, false, ◌&&◌, Bool-cases, inl, inr,
  if◌then◌else◌, arith,
}
use noe_code.Prelude.Int.{ℤ, ◌+ℤ◌, ◌-ℤ◌, leb_ℤ}
use noe_code.Interp.Result.{RuntimeError, Result, ok, err, overflow_addition, overflow_subtraction}
use noe_code.Interp.Arith.{i64_min, i64_max, IsI64, as_u64, wrapped, add_int, sub_int}

pub wrapped-IsI64 : (u : ℕ) → u < 2 ^ 64 → IsI64 (wrapped u)
unfolding wrapped
wrapped-IsI64 u h = ground arith

pub as_u64-wrapped : (u : ℕ) → u < 2 ^ 64 → as_u64 (wrapped u) ≡ u
unfolding wrapped as_u64
as_u64-wrapped u h = ground arith

pub add_int-checked_fits :
    (a b : ℤ) → IsI64 a → IsI64 b → IsI64 (a +ℤ b) → add_int true a b ≡ ok (a +ℤ b)
unfolding add_int
add_int-checked_fits a b ha hb h = ground arith

pub add_int-checked_overflow :
    (a b : ℤ) → IsI64 a → IsI64 b → ¬ IsI64 (a +ℤ b) → add_int true a b ≡ err overflow_addition
unfolding add_int
add_int-checked_overflow a b ha hb h = ground arith

pub sub_int-checked_fits :
    (a b : ℤ) → IsI64 a → IsI64 b → IsI64 (a -ℤ b) → sub_int true a b ≡ ok (a -ℤ b)
unfolding sub_int
sub_int-checked_fits a b ha hb h = ground arith

pub sub_int-checked_overflow :
    (a b : ℤ) → IsI64 a → IsI64 b → ¬ IsI64 (a -ℤ b) → sub_int true a b ≡ err overflow_subtraction
unfolding sub_int
sub_int-checked_overflow a b ha hb h = ground arith

-- Whether an integer is one of 64 bits.
abbrev pub in_i64 : ℤ → Bool
in_i64 z = leb_ℤ i64_min z && leb_ℤ z i64_max

-- A checked operation gives the exact integer, or an error where it is none of 64 bits.
abbrev pub IsChecked : Result ℤ → RuntimeError → ℤ → Type 0
IsChecked r e z = r ≡ (if in_i64 z then ok z else err e)

-- An unchecked operation gives the 64-bit integer whose bits are `u`.
abbrev pub IsWrapped : Result ℤ → ℕ → Type 0
IsWrapped r u = (z : ℤ) × (r ≡ ok z) × IsI64 z × (as_u64 z ≡ u)

pub IsChecked-cases :
    {r : Result ℤ} {e : RuntimeError} (z : ℤ)
    → (IsI64 z → r ≡ ok z)
    → (¬ IsI64 z → r ≡ err e)
    → IsChecked r e z
IsChecked-cases z fits fails = elim (Bool-cases (in_i64 z)) [
  | inl h ↦ rw h (fits (ground (arith, h)))
  | inr h ↦ rw h (fails (λ k. ground (arith, h, k)))
]

pub wrapped-IsWrapped : (u : ℕ) → u < 2 ^ 64 → IsWrapped (ok (wrapped u)) u
wrapped-IsWrapped u h = (wrapped u, refl, wrapped-IsI64 u h, as_u64-wrapped u h)

-- The checked sum of two 64-bit integers is their sum where that is an integer of 64 bits, and an
-- error where it is not. The unchecked sum is the 64-bit integer whose bits are those of the sum of
-- the bits, modulo 2^64.
pub add_int-Sum :
    (a b : ℤ)
    → IsI64 a
    → IsI64 b
    → IsChecked (add_int true a b) overflow_addition (a +ℤ b)
      × IsWrapped (add_int false a b) ((as_u64 a + as_u64 b) % 2 ^ 64)
unfolding add_int
add_int-Sum a b ha hb = (
  IsChecked-cases (a +ℤ b) (add_int-checked_fits a b ha hb) (add_int-checked_overflow a b ha hb),
  wrapped-IsWrapped _ (omega arith),
)

-- The checked difference of two 64-bit integers is their difference where that is an integer of 64
-- bits, and an error where it is not. The unchecked difference is the 64-bit integer whose bits are
-- those of the difference of the bits, modulo 2^64.
pub sub_int-Difference :
    (a b : ℤ)
    → IsI64 a
    → IsI64 b
    → IsChecked (sub_int true a b) overflow_subtraction (a -ℤ b)
      × IsWrapped (sub_int false a b) ((as_u64 a + 2 ^ 64 - as_u64 b) % 2 ^ 64)
unfolding sub_int
sub_int-Difference a b ha hb = (
  IsChecked-cases (a -ℤ b) (sub_int-checked_fits a b ha hb) (sub_int-checked_overflow a b ha hb),
  wrapped-IsWrapped _ (omega arith),
)
