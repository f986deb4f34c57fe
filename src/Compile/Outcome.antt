-- ===== src/Compile/Outcome.antt =====
-- What `compileProgram` (Compiler/core.cpp) returns.
use noe_code.Prelude.{
  ℕ, ◌≡◌, ◌≢◌, ◌⊎◌, inl, inr, refl, sym, subst, ◌∙◌, true, false, List, [], ◌∷◌, Option, none, some,
  All, length, ◌==◌, arith, Bool-cases, Option-cases, Text, find_text, map, replicate,
}
use noe_code.Ast.{FunctionDecl, TopLevel, Diagnostic}
use noe_code.Interp.Values.{Floats}
use noe_code.Generics.State.{GenericSyntax}
use noe_code.Generics.Monomorphize.{monomorphize}
use noe_code.TypeChecker.Check.{check_program}
use noe_code.Safety.Annotator.{check, check_from}
use noe_code.Safety.Guarded.{IsGuardedTop}
use noe_code.Safety.Sound.{check-IsGuarded}
use noe_code.Lifetime.Check.{no_errors, check_borrows}
use noe_code.Lower.Statements.{lower}
use noe_code.Optimizer.Passes.{OptimizationLevel, optimize}
use noe_code.Nir.{Function, Program}
use noe_code.Types.{default_type}
use noe_code.Flow.{blocks}
use noe_code.Flow.Registers.{
  analyze, analyze_function, type_function, type_code, returns_of, given_variables,
  declared_variables, declared_signature, TypeMap,
}
use noe_code.Flow.Partition.{IsCut, blocks_of-Cuts}
use noe_code.Compile.{
  CompileResult, empty_program, stopped, generate, borrow_stage, safety_stage, type_stage,
  compile_program,
}

-- The code is that of `source` after the type checker, which accepts it, and the safety check, which
-- fills in what the type checker leaves and accepts it.
pub record IsBuilt (floats : Floats) (level : OptimizationLevel) (source : List TopLevel)
    (r : CompileResult) : Type 0 where
  pub typed : (check_program source []).2 ≡ true
  pub safe : (check (check_program source []).0 []).2 ≡ true
  pub guarded : All IsGuardedTop (check_program source []).0
  pub annotated : r.ast ≡ (check (check_program source []).0 []).0
  pub borrows : (check_borrows r.ast []).1 ≡ true
  pub nir : r.nir ≡ analyze r.ast (optimize floats level (lower r.ast))
  pub cut : IsCut r.nir.entry × All IsCut r.nir.functions

abbrev pub IsOutcome : Floats → OptimizationLevel → List TopLevel → CompileResult → Type 0
IsOutcome floats level source r =
    ((r.diagnostics ≢ []) × (r.nir ≡ empty_program))
    ⊎ ((r.diagnostics ≡ []) × IsBuilt floats level source r)

some_diagnostic : (items : List Diagnostic) → no_errors items ≡ false → items ≢ []
some_diagnostic [] e = cc
some_diagnostic (d ∷ ds) e = λ f. cc

pub no_diagnostic : (items : List Diagnostic) → no_errors items ≡ true → items ≡ []
no_diagnostic [] e = refl
no_diagnostic (d ∷ ds) e = cc

stopped-IsOutcome :
    (floats : Floats) (level : OptimizationLevel) (source ast : List TopLevel)
    (items : List Diagnostic)
    → items ≢ []
    → IsOutcome floats level source (stopped ast items)
stopped-IsOutcome floats level source ast items h = inl (h, refl)

length_zero : (items : List Diagnostic) → (length items == 0) ≡ no_errors items
length_zero [] = refl
length_zero (d ∷ ds) = ground arith

-- Where there was no diagnostic, each pass accepts exactly if it leaves none.
pub check-no_errors : (ast : List TopLevel) → (check ast []).2 ≡ no_errors (check ast []).1
unfolding check
check-no_errors ast = length_zero (check_from ast []).1

pub check_borrows-no_errors :
    (ast : List TopLevel) (items : List Diagnostic)
    → (check_borrows ast items).1 ≡ no_errors (check_borrows ast items).0
unfolding check_borrows
check_borrows-no_errors ast items = refl

pub check_program-no_errors :
    (ast : List TopLevel) (items : List Diagnostic)
    → (check_program ast items).2 ≡ no_errors (check_program ast items).1.diagnostics
unfolding check_program
check_program-no_errors ast items = refl

pub monomorphize-no_errors :
    (fuel : ℕ) (syntax : GenericSyntax) (ast : List TopLevel) (items : List Diagnostic)
    → (monomorphize fuel syntax ast items).2
      ≡ no_errors (monomorphize fuel syntax ast items).1.diagnostics
unfolding monomorphize
monomorphize-no_errors fuel syntax ast items = refl

type_function-IsCut :
    (functions : List (Text × FunctionDecl)) (variables : TypeMap) (f : Function)
    → IsCut (type_function functions variables f)
unfolding type_function blocks
type_function-IsCut functions variables f =
    blocks_of-Cuts
      (type_code (returns_of functions functions) (replicate f.next_reg default_type) variables
        f.code).1

analyze_function-IsCut :
    (functions : List (Text × FunctionDecl)) (f : Function) → IsCut (analyze_function functions f)
unfolding analyze_function
analyze_function-IsCut functions f = elim (Option-cases (find_text functions f.name)) [
  | inl e ↦
      rw (e, analyze_function)
        (type_function-IsCut functions (given_variables f.params f.param_types []) f)
  | inr (g, e) ↦
      rw (e, analyze_function)
        (type_function-IsCut functions (declared_variables g.params []) (declared_signature g f))
]

analyze_functions-IsCut :
    (functions : List (Text × FunctionDecl)) (fs : List Function)
    → All IsCut (map (analyze_function functions) fs)
analyze_functions-IsCut functions [] = tt
analyze_functions-IsCut functions (f ∷ fs) =
    (analyze_function-IsCut functions f, analyze_functions-IsCut functions fs)

analyze-IsCut :
    (ast : List TopLevel) (p : Program)
    → IsCut (analyze ast p).entry × All IsCut (analyze ast p).functions
unfolding analyze
analyze-IsCut ast p = (analyze_function-IsCut _ p.entry, analyze_functions-IsCut _ p.functions)

module _ (floats : Floats) (level : OptimizationLevel) (source : List TopLevel)
    (typed : (check_program source []).2 ≡ true) where
  abbrev checked : List TopLevel
  checked = (check_program source []).0

  borrow_stage-IsOutcome :
      (check checked []).2 ≡ true
      → IsOutcome floats level source (borrow_stage floats level (check checked []).0 [])
  unfolding borrow_stage generate
  borrow_stage-IsOutcome safe =
      let ast = (check checked []).0 in
      elim (Bool-cases (check_borrows ast []).1) [
        | inl e ↦
            rw (e, borrow_stage)
              (inr (
                no_diagnostic _ (sym (check_borrows-no_errors ast []) ∙ e),
                record {
                  typed = typed;
                  safe = safe;
                  guarded = check-IsGuarded checked [] safe;
                  annotated = refl;
                  borrows = e;
                  nir = refl;
                  cut = analyze-IsCut ast (optimize floats level (lower ast));
                },
              ))
        | inr e ↦
            rw (e, borrow_stage)
              (stopped-IsOutcome floats level source ast _
                (some_diagnostic _ (sym (check_borrows-no_errors ast []) ∙ e)))
      ]

  safety_stage-IsOutcome : IsOutcome floats level source (safety_stage floats level checked [])
  unfolding safety_stage
  safety_stage-IsOutcome = elim (Bool-cases (check checked []).2) [
    | inl e ↦
        rw (e, safety_stage)
          (subst
            (λ (items : List Diagnostic).
              IsOutcome floats level source (borrow_stage floats level (check checked []).0 items))
            (sym (no_diagnostic _ (sym (check-no_errors checked) ∙ e))) (borrow_stage-IsOutcome e))
    | inr e ↦
        rw (e, safety_stage)
          (stopped-IsOutcome floats level source (check checked []).0 _
            (some_diagnostic _ (sym (check-no_errors checked) ∙ e)))
  ]

pub type_stage-IsOutcome :
    (floats : Floats) (level : OptimizationLevel) (ast : List TopLevel)
    → IsOutcome floats level ast (type_stage floats level ast [])
unfolding type_stage
type_stage-IsOutcome floats level ast = elim (Bool-cases (check_program ast []).2) [
  | inl e ↦
      rw (e, type_stage)
        (subst
          (λ (l : List Diagnostic).
            IsOutcome floats level ast (safety_stage floats level (check_program ast []).0 l))
          (sym (no_diagnostic _ (sym (check_program-no_errors ast []) ∙ e)))
          (safety_stage-IsOutcome floats level ast e))
  | inr e ↦
      rw (e, type_stage)
        (stopped-IsOutcome floats level ast (check_program ast []).0 _
          (some_diagnostic _ (sym (check_program-no_errors ast []) ∙ e)))
]

-- What is returned, if anything is.
abbrev IsReturn : Floats → OptimizationLevel → List TopLevel → Option CompileResult → Type 0
IsReturn floats level source none = Unit
IsReturn floats level source (some r) = IsOutcome floats level source r

compile_program-IsReturn :
    (floats : Floats) (level : OptimizationLevel) (fuel : ℕ) (syntax : GenericSyntax)
    (ast : List TopLevel) (items : List Diagnostic)
    → IsReturn floats level
        (monomorphize fuel syntax ast items).0
        (compile_program floats level fuel syntax ast items)
unfolding compile_program
compile_program-IsReturn floats level fuel syntax ast items =
    let m = monomorphize fuel syntax ast items in
    elim (Bool-cases (no_errors items)) [
      | inr e ↦
          rw (e, compile_program)
            (stopped-IsOutcome floats level m.0 ast items (some_diagnostic items e))
      | inl e ↦ elim (Bool-cases m.1.exhausted) [
        | inl f ↦ rw (e, f, compile_program) tt
        | inr f ↦ elim (Bool-cases m.2) [
          | inl g ↦
              rw (e, f, g, compile_program)
                (subst
                  (λ (l : List Diagnostic).
                    IsOutcome floats level m.0 (type_stage floats level m.0 l))
                  (sym (no_diagnostic _ (sym (monomorphize-no_errors fuel syntax ast items) ∙ g)))
                  (type_stage-IsOutcome floats level m.0))
          | inr g ↦
              rw (e, f, g, compile_program)
                (stopped-IsOutcome floats level m.0 m.0 m.1.diagnostics (
                  some_diagnostic m.1.diagnostics
                    (sym (monomorphize-no_errors fuel syntax ast items) ∙ g)))
        ]
      ]
    ]

-- Where `compileProgram` returns, there are two ways. Either there are diagnostics, and no code is
-- made; or there is none, and then the type checker accepts what `monomorphize` makes of the program,
-- the safety check accepts the tree that the type checker leaves, the borrow checker accepts the tree
-- that the safety check leaves, which is the tree of the result, and the code is what the optimizer and
-- the analysis make of that tree when it is lowered, with blocks that cut the code of each function.
-- Then every dereference, cast to a pointer and member access through a pointer in the body of a
-- function at the top level that is not extern stands in an unsafe block, those apart that are inside
-- a function declared in that body.
pub compile_program-IsOutcome :
    (floats : Floats) (level : OptimizationLevel) (fuel : ℕ) (syntax : GenericSyntax)
    (ast : List TopLevel) (items : List Diagnostic) (r : CompileResult)
    → compile_program floats level fuel syntax ast items ≡ some r
    → IsOutcome floats level (monomorphize fuel syntax ast items).0 r
compile_program-IsOutcome floats level fuel syntax ast items r h =
    subst (IsReturn floats level (monomorphize fuel syntax ast items).0) h
      (compile_program-IsReturn floats level fuel syntax ast items)
