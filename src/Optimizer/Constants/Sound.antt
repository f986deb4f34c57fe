-- ===== src/Optimizer/Constants/Sound.antt =====
-- Folding keeps what code does when it is run in order.
use noe_code.Prelude.{
  ℕ, ◌<◌, ◌≡◌, refl, sym, ap, subst, ◌∙◌, Bool, true, false, List, [], ◌∷◌, Option, none, some,
  Text, length, All, find, put,
}
use noe_code.Nir.{Value, NirOp, const, binary, check_non_null, check_bounds, Instruction}
use noe_code.Interp.Result.{ok}
use noe_code.Interp.State.{Shared, State, Machine, Outcome, next, write, assign, effect}
use noe_code.Interp.Step.{Run, step, step_on}
use noe_code.Interp.Registers.{Writes, step-Writes, step_on-Writes}
use noe_code.Interp.Block.{DestBelow, and_then, run_block, length-RegsWritten}
use noe_code.Optimizer.Passes.{
  Known, forget, folded, known_non_null, known_in_bounds, to_const, to_nop, constants_on,
  note_const, replace_binary, drop_check, constants_step, constants_from, constants,
}
use noe_code.Optimizer.Constants.{
  Holds, KnownAfter, Holds-put, Writes-KnownAfter, do_binary-folded, check_non_null-known,
  check_bounds-known,
}

module _ {W : Type 0} (m : Machine W) (unchecked : m.checked_overflow ≡ false)
    (user : Text → Option (List Value → Shared W → Run (Value × Shared W))) where
  -- The new instruction does what the old one does, and what is then known holds afterwards.
  abbrev Sound : Known × Instruction × Bool → Outcome W → State W → Type 0
  Sound (known, i, _) o s = (step m user i s ≡ o) × KnownAfter known o

  same_op :
      (i : Instruction) (op : NirOp) (s : State W)
      → i.op ≡ op
      → step m user i s ≡ step_on m op user i s
  unfolding step
  same_op i op s e = ap (λ o. step_on m o user i s) e

  assign-KnownAfter :
      (known : Known) (i : Instruction) (s : State W) (d : ℕ) (v : Value)
      → i.dest ≡ some d
      → d < length s.regs
      → Holds known s.regs
      → KnownAfter (put known d v) (assign i s (ok (v, s)))
  unfolding assign write
  assign-KnownAfter known i s d v e l h = rw e (Holds-put known s.regs d v h l)

  -- An instruction that stays as it is, where its destination is forgotten.
  kept-Sound :
      (op : NirOp) (known : Known) (i : Instruction) (s : State W) (d : Option ℕ) (c : Bool)
      → i.op ≡ op
      → i.dest ≡ d
      → Holds known s.regs
      → Sound (forget known d, i, c) (step_on m op user i s) s
  kept-Sound op known i s d c e f h = (
    same_op i op s e,
    Writes-KnownAfter known s.regs d _ h
        (subst (λ k. Writes k s.regs (step_on m op user i s)) f (step_on-Writes m op user i s)),
  )

  note_const-Sound :
      (known : Known) (i : Instruction) (s : State W) (d : Option ℕ)
      → i.op ≡ const
      → i.dest ≡ d
      → DestBelow (length s.regs) d
      → Holds known s.regs
      → Sound (note_const known i d) (step_on m const user i s) s
  unfolding note_const step_on forget
  note_const-Sound known i s none e f l h = kept-Sound const known i s none false e f h
  note_const-Sound known i s (some d) e f l h =
      (same_op i const s e, assign-KnownAfter known i s d i.literal f l h)

  step-literal :
      (i : Instruction) (s : State W) (v : Value)
      → step m user (to_const v i) s ≡ assign i s (ok (v, s))
  unfolding step step_on assign
  step-literal i s v = refl

  step-folded :
      (known : Known) (i : Instruction) (s : State W) (v : Value)
      → Holds known s.regs
      → folded m.floats known i ≡ some v
      → step_on m binary user i s ≡ assign i s (ok (v, s))
  unfolding step_on
  step-folded known i s v h g = do_binary-folded m unchecked known i s v h g

  replace_binary-Sound :
      (known : Known) (i : Instruction) (s : State W) (d : Option ℕ) (v : Option Value)
      → i.op ≡ binary
      → i.dest ≡ d
      → folded m.floats known i ≡ v
      → DestBelow (length s.regs) d
      → Holds known s.regs
      → Sound (replace_binary known i d v) (step_on m binary user i s) s
  unfolding replace_binary forget
  replace_binary-Sound known i s none v e f g l h = kept-Sound binary known i s none false e f h
  replace_binary-Sound known i s (some d) none e f g l h =
      kept-Sound binary known i s (some d) false e f h
  replace_binary-Sound known i s (some d) (some v) e f g l h = (
    step-literal i s v ∙ sym (step-folded known i s v h g),
    rw (step-folded known i s v h g) (assign-KnownAfter known i s d v f l h),
  )

  step-nop : (i : Instruction) (s : State W) → step m user (to_nop i) s ≡ next s
  unfolding step step_on
  step-nop i s = refl

  -- A check that passes, whatever the operation it belongs to.
  drop_check-Sound :
      (op : NirOp) (known : Known) (i : Instruction) (s : State W) (b : Bool)
      → i.op ≡ op
      → (b ≡ true → step_on m op user i s ≡ next s)
      → Holds known s.regs
      → Sound (drop_check known i b) (step_on m op user i s) s
  unfolding drop_check
  drop_check-Sound op known i s true e passes h =
      (step-nop i s ∙ sym (passes refl), rw (passes refl) h)
  drop_check-Sound op known i s false e passes h = kept-Sound op known i s i.dest false e refl h

  constants_on-Sound :
      (op : NirOp) (known : Known) (i : Instruction) (s : State W)
      → i.op ≡ op
      → DestBelow (length s.regs) i.dest
      → Holds known s.regs
      → Sound (constants_on op m.floats known i) (step_on m op user i s) s
  unfolding constants_on step_on effect
  constants_on-Sound const known i s e l h = note_const-Sound known i s i.dest e refl l h
  constants_on-Sound binary known i s e l h =
      replace_binary-Sound known i s i.dest (folded m.floats known i) e refl refl l h
  constants_on-Sound check_non_null known i s e l h =
      drop_check-Sound check_non_null known i s (known_non_null known i) e
        (λ b. rw (check_non_null-known known i s h b) refl) h
  constants_on-Sound check_bounds known i s e l h =
      drop_check-Sound check_bounds known i s (known_in_bounds known i) e
        (λ b. rw (check_bounds-known known i s h b) refl) h
  constants_on-Sound op known i s e l h = kept-Sound op known i s i.dest false e refl h

  constants_step-Sound :
      (known : Known) (i : Instruction) (s : State W)
      → DestBelow (length s.regs) i.dest
      → Holds known s.regs
      → Sound (constants_step m.floats known i) (step m user i s) s
  unfolding constants_step step
  constants_step-Sound known i s l h = constants_on-Sound i.op known i s refl l h

  and_then-known :
      (n : ℕ) (known : Known) (d : Option ℕ) (regs : List Value) (f g : State W → Outcome W)
      (o : Outcome W)
      → length regs ≡ n
      → Writes d regs o
      → KnownAfter known o
      → ((s : State W) → length s.regs ≡ n → Holds known s.regs → f s ≡ g s)
      → and_then o f ≡ and_then o g
  and_then-known n known d regs f g (next s) e w k same =
      same s (length-RegsWritten d regs s.regs w ∙ e) k
  and_then-known n known d regs f g _ e w k same = refl

  constants_from-run_block :
      (n : ℕ) (known : Known) (code : List Instruction) (s : State W)
      → All (λ i. DestBelow n i.dest) code
      → length s.regs ≡ n
      → Holds known s.regs
      → run_block m user (constants_from m.floats known code).0 s ≡ run_block m user code s
  unfolding constants_from run_block
  constants_from-run_block n known [] s l e h = refl
  constants_from-run_block n known (i ∷ code) s (l, ls) e h =
      let sound = constants_step-Sound known i s (subst (λ k. DestBelow k i.dest) (sym e) l) h in
      let known' = (constants_step m.floats known i).0 in
      rw (sound.0) (
        and_then-known n known' i.dest s.regs _ (run_block m user code) (step m user i s) e
          (step-Writes m user i s) sound.1
          (λ s' e' h'. constants_from-run_block n known' code s' ls e' h'))

-- Code that is run in order does the same before and after constant folding, up to and including the
-- first instruction that leaves it: the same state with the same registers, the same jump, result or
-- failure. Overflow is not checked, and every destination is a register of the frame.
pub constants-run_block :
    {W : Type 0} (m : Machine W)
    (user : Text → Option (List Value → Shared W → Run (Value × Shared W)))
    (code : List Instruction) (s : State W)
    → m.checked_overflow ≡ false
    → All (λ i. DestBelow (length s.regs) i.dest) code
    → run_block m user (constants m.floats code).0 s ≡ run_block m user code s
unfolding constants find
constants-run_block m user code s unchecked l =
    constants_from-run_block m unchecked user (length s.regs) [] code s l refl (λ r v e. cc)
