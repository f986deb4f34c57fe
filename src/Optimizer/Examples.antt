-- ===== src/Optimizer/Examples.antt =====
-- The optimizer on concrete inputs.
use noe_code.Prelude.{◌≡◌, refl, arith, codes, some, text_eq, ◌^◌, ◌-◌, true, false}
use noe_code.Prelude.Int.{pos, ◌+ℤ◌}
use noe_code.Nir.{Value, int}
use noe_code.Interp.Result.{ok, err, overflow_addition}
use noe_code.Interp.Values.{binary}
use noe_code.Interp.Loop.{run_from}
use noe_code.Interp.Block.{run_block, finish}
use noe_code.Interp.Samples.{
  sample_floats, sample_machine, sample_state, no_functions, sample_code, sample_code-NoJump,
}
use noe_code.Optimizer.{fold}
use noe_code.Optimizer.Fold.{fold-binary, fold-hides_overflow}
use noe_code.Optimizer.Passes.{constants}
use noe_code.Optimizer.Constants.Sound.{constants-run_block}
use noe_code.Optimizer.Constants.Loop.{constants-run_from}

fold-binary_example :
    binary sample_floats false (codes "*") (int (pos 6)) (int (pos 7)) ≡ ok (int (pos 42))
unfolding fold text_eq
fold-binary_example =
    fold-binary sample_floats (codes "*") (int (pos 6)) (int (pos 7)) (int (pos 42)) refl

fold-hides_overflow_example :
    ((v : Value) × (fold sample_floats (codes "+") (int (pos (2 ^ 63 - 1))) (int (pos 1)) ≡ some v))
    × (binary sample_floats true (codes "+") (int (pos (2 ^ 63 - 1))) (int (pos 1))
        ≡ err overflow_addition)
unfolding ◌+ℤ◌
fold-hides_overflow_example =
    fold-hides_overflow sample_floats (pos (2 ^ 63 - 1)) (pos 1) (omega arith) (omega arith)
      (omega arith)

constants-run_block_example :
    run_block sample_machine no_functions
      (constants sample_machine.floats sample_code).0
      sample_state
    ≡ run_block sample_machine no_functions sample_code sample_state
constants-run_block_example =
    constants-run_block sample_machine no_functions sample_code sample_state refl (omega arith)

constants-run_from_example :
    (run_from sample_machine no_functions 9
        (constants sample_machine.floats sample_code).0
        0
        sample_state
      ≡ run_from sample_machine no_functions 9 sample_code 0 sample_state)
    × (run_from sample_machine no_functions 9 sample_code 0 sample_state
        ≡ finish (run_block sample_machine no_functions sample_code sample_state))
constants-run_from_example =
    constants-run_from sample_machine no_functions sample_code 9 sample_state refl (omega arith)
      (omega arith) sample_code-NoJump
