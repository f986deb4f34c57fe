-- ===== src/Optimizer/Constants/Loop.antt =====
-- Folding keeps what the loop of the interpreter does with code that takes no jump.
use noe_code.Prelude.{
  ℕ, suc, ◌<◌, ◌≡◌, refl, sym, ap, subst, ◌∙◌, false, List, [], ◌∷◌, Option, Text, length, All,
  arith,
}
use noe_code.Nir.{Value, Instruction}
use noe_code.Interp.Values.{Floats}
use noe_code.Interp.Loop.{run_from}
use noe_code.Interp.State.{Shared, State, Machine}
use noe_code.Interp.Step.{Run}
use noe_code.Interp.Block.{DestBelow, run_block, NoJump, finish, run_from-run_block}
use noe_code.Optimizer.Passes.{Known, constants_step, constants_from, constants}
use noe_code.Optimizer.Constants.Sound.{constants-run_block}

length-constants_from :
    (fl : Floats) (known : Known) (code : List Instruction)
    → length (constants_from fl known code).0 ≡ length code
unfolding constants_from
length-constants_from fl known [] = refl
length-constants_from fl known (i ∷ code) =
    ap suc (length-constants_from fl (constants_step fl known i).0 code)

length-constants :
    (fl : Floats) (code : List Instruction) → length (constants fl code).0 ≡ length code
unfolding constants
length-constants fl code = length-constants_from fl [] code

-- Where the code of a function takes no jump, the loop of the interpreter on the folded code, given
-- more fuel than there are instructions, ends with the same result, state and failure as on the code
-- itself. Overflow is not checked, and every destination is a register of the frame.
pub constants-run_from :
    {W : Type 0} (m : Machine W)
    (user : Text → Option (List Value → Shared W → Run (Value × Shared W)))
    (code : List Instruction) (fuel : ℕ) (s : State W)
    → m.checked_overflow ≡ false
    → All (λ i. DestBelow (length s.regs) i.dest) code
    → length code < fuel
    → NoJump (run_block m user code s)
    → (run_from m user fuel (constants m.floats code).0 0 s ≡ run_from m user fuel code 0 s)
      × (run_from m user fuel code 0 s ≡ finish (run_block m user code s))
constants-run_from m user code fuel s unchecked l f h =
    let same = constants-run_block m user code s unchecked l in
    let direct = run_from-run_block m user code fuel s f h in
    let sized = length-constants m.floats code in
    (
      run_from-run_block m user (constants m.floats code).0 fuel s (omega (arith, sized))
            (subst NoJump (sym same) h)
          ∙ ap finish same
          ∙ sym direct,
      direct,
    )
