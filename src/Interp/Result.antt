-- ===== src/Interp/Result.antt =====
-- The `std::runtime_error`s of the interpreter as values.
use noe_code.Prelude.{Text, Bool, true, false}
use noe_code.Prelude.Int.{ℤ}

pub data RuntimeError : Type 0 where
  integer_required numeric_required : RuntimeError
  overflow_addition overflow_subtraction overflow_multiplication : RuntimeError
  overflow_division overflow_negation : RuntimeError
  division_by_zero remainder_by_zero : RuntimeError
  unsupported_operation : Text → RuntimeError
  null_dereference null_store unsupported_load_width unsupported_store_width : RuntimeError
  extern_function : Text → RuntimeError
  invalid_register : RuntimeError
  undefined_variable : Text → RuntimeError
  null_access malformed_bounds_check : RuntimeError
  out_of_bounds : ℤ → ℤ → RuntimeError
  halt_intrinsic : RuntimeError
  unknown_intrinsic : Text → RuntimeError
  service_name_required : Text → RuntimeError
  service_error : Text → RuntimeError

pub data Result {ℓ} (A : Type ℓ) : Type ℓ where
  ok : A → Result A
  err : RuntimeError → Result A

infixl 5 ◌>>=◌ ◌>>◌
abbrev pub ◌>>=◌ {ℓ κ} : {X : Type ℓ} {Y : Type κ} (r : Result X) → (X → Result Y) → Result Y
◌>>=◌ (err e) next = err e
◌>>=◌ (ok x) next = next x

abbrev pub ◌>>◌ {κ} : {Y : Type κ} (r : Result (Unit {0})) → Result Y → Result Y
◌>>◌ (err e) rest = err e
◌>>◌ (ok _) rest = rest

-- `if(!test) throw e;`
abbrev pub guard : (test : Bool) → RuntimeError → Result (Unit {0})
guard false e = err e
guard true e = ok tt
