-- ===== src/Interp/Examples.antt =====
-- The interpreter on concrete inputs.
use noe_code.Prelude.{◌+◌, ◌-◌, ◌*◌, ◌%◌, ◌^◌, ◌≡◌, refl, inr, true, false, arith}
use noe_code.Prelude.Int.{pos, negsuc, ◌+ℤ◌, ◌-ℤ◌, ◌*ℤ◌}
use noe_code.Interp.Result.{ok, overflow_addition, overflow_subtraction, overflow_multiplication}
use noe_code.Interp.Arith.{as_u64, add_int, sub_int, mul_int}
use noe_code.Interp.Arith.Laws.{IsChecked, IsWrapped, add_int-Sum, sub_int-Difference}
use noe_code.Interp.Arith.Product.{mul_int-Product}
use noe_code.Interp.Memory.{Memory, raw_load, raw_store, load_bytes, store_bytes}
use noe_code.Interp.Memory.Laws.{raw_load-raw_store}
use noe_code.Interp.Loop.{run_from}
use noe_code.Interp.Block.{run_block, finish, run_from-run_block}
use noe_code.Interp.Samples.{
  empty_memory, sample_machine, sample_state, no_functions, sample_code, sample_code-NoJump,
}

add_int-Sum_example :
    IsChecked
      (add_int true (pos (2 ^ 63 - 1)) (pos 5))
      overflow_addition
      (pos (2 ^ 63 - 1) +ℤ pos 5)
    × IsWrapped
        (add_int false (pos (2 ^ 63 - 1)) (pos 5))
        ((as_u64 (pos (2 ^ 63 - 1)) + as_u64 (pos 5)) % 2 ^ 64)
add_int-Sum_example = add_int-Sum (pos (2 ^ 63 - 1)) (pos 5) (omega arith) (omega arith)

sub_int-Difference_example :
    IsChecked (sub_int true (pos 3) (pos 5)) overflow_subtraction (pos 3 -ℤ pos 5)
    × IsWrapped
        (sub_int false (pos 3) (pos 5))
        ((as_u64 (pos 3) + 2 ^ 64 - as_u64 (pos 5)) % 2 ^ 64)
sub_int-Difference_example = sub_int-Difference (pos 3) (pos 5) (omega arith) (omega arith)

mul_int-Product_example :
    IsChecked (mul_int true (negsuc 6) (pos 9)) overflow_multiplication (negsuc 6 *ℤ pos 9)
    × IsWrapped (mul_int false (negsuc 6) (pos 9)) (as_u64 (negsuc 6) * as_u64 (pos 9) % 2 ^ 64)
mul_int-Product_example = mul_int-Product (negsuc 6) (pos 9) (omega arith) (omega arith)

abbrev stored : Memory
stored = store_bytes empty_memory 8 2 (70000 % 2 ^ (8 * 2))

raw_load-raw_store_example :
    (raw_load stored 8 2 ≡ ok (70000 % 2 ^ (8 * 2)))
    × (load_bytes stored 10 4 ≡ load_bytes empty_memory 10 4)
unfolding raw_store
raw_load-raw_store_example =
    raw_load-raw_store empty_memory stored 8 2 70000 10 4 refl (inr (omega arith))

run_from-run_block_example :
    run_from sample_machine no_functions 5 sample_code 0 sample_state
    ≡ finish (run_block sample_machine no_functions sample_code sample_state)
run_from-run_block_example =
    run_from-run_block sample_machine no_functions sample_code 5 sample_state (omega arith)
      sample_code-NoJump
