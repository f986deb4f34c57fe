-- ===== src/Optimizer/Passes.antt =====
-- The passes of the optimizer and their order: `sideEffect`, `constants`, `dce`, `pipeline` and
-- `PassManager::optimize` (Compiler/optimizer.cpp). An `unordered_map` or `unordered_set` over
-- registers is an association list or a list.
use noe_code.Prelude.{
  ℕ, zero, suc, Bool, true, false, not, ◌&&◌, ◌||◌, List, [], ◌∷◌, ◌++◌, Option, none, some, codes,
  find, erase, put, contains, map, if◌then◌else◌,
}
use noe_code.Prelude.Opt.{◌>>=◌}
use noe_code.Prelude.Int.{ℤ, pos, leb_ℤ, ltb_ℤ}
use noe_code.Nir.{
  Value, int, NirOp, const, load_memory, store, store_memory, binary, call, check_non_null,
  check_bounds, atomic_load, atomic_store, atomic_exchange, atomic_compare_exchange, atomic_fence,
  intrinsic, inline_asm, try, throw, jump, jump_if_false, return, nop, Instruction, Function,
  Program,
}
use noe_code.Interp.Arith.{eq_ℤ}
use noe_code.Interp.Values.{Floats}
use noe_code.Optimizer.{fold}

unfoldable pub side_effect : Instruction → Bool
side_effect i = elim i.op [
  | check_non_null ↦ true
  | check_bounds ↦ true
  | store ↦ true
  | store_memory ↦ true
  | call ↦ true
  | atomic_store ↦ true
  | atomic_exchange ↦ true
  | atomic_compare_exchange ↦ true
  | atomic_fence ↦ true
  | intrinsic ↦ true
  | inline_asm ↦ true
  | try ↦ true
  | throw ↦ true
  | jump ↦ true
  | jump_if_false ↦ true
  | return ↦ true
  | load_memory ↦ i.is_volatile
  | atomic_load ↦ true
  | _ ↦ false
]

abbrev pub Known : Type 0
Known = List (ℕ × Value)

-- The registers of an instruction with exactly one argument, or exactly two.
unfoldable pub one_arg : List ℕ → Option ℕ
one_arg (r ∷ []) = some r
one_arg _ = none

unfoldable pub two_args : List ℕ → Option (ℕ × ℕ)
two_args (r ∷ q ∷ []) = some (r, q)
two_args _ = none

-- `if(i.dest)known.erase(*i.dest);`
unfoldable pub forget : Known → Option ℕ → Known
forget known none = known
forget known (some d) = erase known d

-- The value of a binary instruction with known arguments.
unfoldable pub folded : Floats → Known → Instruction → Option Value
folded fl known i = do
  (r, q) ← two_args i.args
  a ← find known r
  b ← find known q
  fold fl i.text a b

unfoldable pub int_of : Value → Option ℤ
int_of (int z) = some z
int_of v = none

abbrev pub is_true : Option Bool → Bool
is_true none = false
is_true (some b) = b

-- A literal that `CheckNonNull` lets through.
unfoldable pub known_non_null : Known → Instruction → Bool
unfolding int_of one_arg
known_non_null known i =
    is_true
      (do r ← one_arg i.args; v ← find known r; value ← int_of v; some (not (eq_ℤ value (pos 0))))

-- Two literals that `CheckBounds` lets through.
unfoldable pub known_in_bounds : Known → Instruction → Bool
unfolding int_of two_args
known_in_bounds known i = is_true (do
  (r, q) ← two_args i.args
  a ← find known r
  b ← find known q
  index ← int_of a
  length ← int_of b
  some (leb_ℤ (pos 0) index && leb_ℤ (pos 0) length && ltb_ℤ index length))

abbrev pub to_const : Value → Instruction → Instruction
to_const v i = record i { op = const; literal = v; text = codes ""; args = [] }

abbrev pub to_nop : Instruction → Instruction
to_nop i = record i { op = nop; args = [] }

-- The three ways in which a round of the loop of `constants` ends: the table, the instruction, and
-- whether it changed.
unfoldable pub note_const : Known → Instruction → Option ℕ → Known × Instruction × Bool
note_const known i none = (known, i, false)
note_const known i (some d) = (put known d i.literal, i, false)

unfoldable pub replace_binary :
    Known → Instruction → Option ℕ → Option Value → Known × Instruction × Bool
replace_binary known i none v = (known, i, false)
replace_binary known i (some d) none = (erase known d, i, false)
replace_binary known i (some d) (some v) = (put known d v, to_const v i, true)

unfoldable pub drop_check : Known → Instruction → Bool → Known × Instruction × Bool
unfolding forget
drop_check known i true = (known, to_nop i, true)
drop_check known i false = (forget known i.dest, i, false)

unfoldable pub constants_on : NirOp → Floats → Known → Instruction → Known × Instruction × Bool
unfolding forget folded known_non_null known_in_bounds note_const replace_binary drop_check
constants_on const fl known i = note_const known i i.dest
constants_on binary fl known i = replace_binary known i i.dest (folded fl known i)
constants_on check_non_null fl known i = drop_check known i (known_non_null known i)
constants_on check_bounds fl known i = drop_check known i (known_in_bounds known i)
constants_on _ fl known i = (forget known i.dest, i, false)

unfoldable pub constants_step : Floats → Known → Instruction → Known × Instruction × Bool
unfolding constants_on
constants_step fl known i = constants_on i.op fl known i

unfoldable pub constants_from : Floats → Known → List Instruction → List Instruction × Bool
unfolding constants_step
constants_from fl known [] = ([], false)
constants_from fl known (i ∷ code) =
    let (known', i', changed) = constants_step fl known i in
    let (code', more) = constants_from fl known' code in (i' ∷ code', changed || more)

-- `constants`, on the code of a function.
unfoldable pub constants : Floats → List Instruction → List Instruction × Bool
unfolding constants_from
constants fl code = constants_from fl [] code

-- The registers that some instruction takes as an argument.
unfoldable pub used_args : List Instruction → List ℕ
used_args [] = []
used_args (i ∷ code) = i.args ++ used_args code

unfoldable pub is_nop : Instruction → Bool
is_nop i = elim i.op [ nop ↦ true | _ ↦ false ]

-- Whether `dce` drops an instruction.
unfoldable pub dropped : List ℕ → Instruction → Bool
unfolding is_nop side_effect
dropped used i =
    is_nop i || elim i.dest [ none ↦ false | some d ↦ not (contains used d) && not (side_effect i) ]

unfoldable pub keep : List ℕ → List Instruction → List Instruction × Bool
unfolding dropped
keep used [] = ([], false)
keep used (i ∷ code) =
    let (kept, changed) = keep used code in
    if dropped used i then (kept, true) else (i ∷ kept, changed)

unfoldable pub dce : List Instruction → List Instruction × Bool
unfolding keep used_args
dce code = keep (used_args code) code

pub data OptimizationLevel : Type 0 where
  o0 o1 o2 o3 os oz : OptimizationLevel

unfoldable pub rounds : OptimizationLevel → ℕ
rounds o0 = 0
rounds o1 = 1
rounds o2 = 2
rounds o3 = 3
rounds os = 1
rounds oz = 1

-- The loop of `pipeline`, on the rounds left.
unfoldable pub pipeline_rounds : Floats → ℕ → List Instruction → List Instruction
unfolding constants dce
pipeline_rounds fl zero code = code
pipeline_rounds fl (suc r) code =
    let (code₁, a) = constants fl code in
    let (code₂, b) = dce code₁ in
    let rest = pipeline_rounds fl r code₂ in if not a && not b then code₂ else rest

unfoldable pub pipeline_code : Floats → OptimizationLevel → List Instruction → List Instruction
unfolding pipeline_rounds rounds dce
pipeline_code fl oz code = (dce (pipeline_rounds fl (rounds oz) code)).0
pipeline_code fl level code = pipeline_rounds fl (rounds level) code

unfoldable pub pipeline : Floats → OptimizationLevel → Function → Function
unfolding pipeline_code
pipeline fl level f = record f { code = pipeline_code fl level f.code }

-- `PassManager::optimize`
unfoldable pub optimize : Floats → OptimizationLevel → Program → Program
unfolding pipeline
optimize fl level p = record {
  entry = pipeline fl level p.entry;
  functions = map (pipeline fl level) p.functions;
}
