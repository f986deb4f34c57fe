-- ===== src/Flow/Typing.antt =====
-- The types of registers against the code (Compiler/nir_analysis.cpp).
use noe_code.Prelude.{
  ℕ, zero, suc, ◌≡◌, refl, ap, ◌∙◌, Bool, false, List, [], ◌∷◌, Option, none, some, Text, arith,
  replicate, map, find_text, ◌==◌, if◌then◌else◌,
}
use noe_code.Types.{Ty, default_type}
use noe_code.Nir.{Instruction, Function}
use noe_code.Ast.{FunctionDecl}
use noe_code.Flow.{blocks}
use noe_code.Flow.Registers.{
  reg_type, put_reg, put_dest, TypeMap, instruction_type, store_type, type_code, type_function,
  returns_of, analyze_function, declared_signature, declared_variables, given_variables,
}

abbrev is_dest : Option ℕ → ℕ → Bool
is_dest none r = false
is_dest (some d) r = d == r

-- The type at the last instruction that writes a register, and `t` where none does.
unfoldable pub last_write : List Instruction → ℕ → Ty → Ty
last_write [] r t = t
last_write (i ∷ code) r t = last_write code r (if is_dest i.dest r then i.ty else t)

-- An instruction without its type.
abbrev pub untyped : Instruction → Instruction
untyped i = record i { ty = default_type }

reg_type-put_reg :
    (ts : List Ty) (d : ℕ) (t : Ty) (r : ℕ)
    → reg_type (put_reg ts d t) r ≡ (if d == r then t else reg_type ts r)
unfolding reg_type put_reg
reg_type-put_reg [] zero t zero = refl
reg_type-put_reg [] zero t (suc r) = ground arith
reg_type-put_reg [] (suc d) t zero = ground arith
reg_type-put_reg [] (suc d) t (suc r) = ground (arith, reg_type-put_reg [] d t r)
reg_type-put_reg (x ∷ ts) zero t zero = refl
reg_type-put_reg (x ∷ ts) zero t (suc r) = ground arith
reg_type-put_reg (x ∷ ts) (suc d) t zero = ground arith
reg_type-put_reg (x ∷ ts) (suc d) t (suc r) = ground (arith, reg_type-put_reg ts d t r)

module _ (returns : TypeMap) where
  reg_type-put_dest :
      (d : Option ℕ) (t : Ty) (regs : List Ty) (r : ℕ)
      → reg_type (put_dest returns d t regs) r ≡ (if is_dest d r then t else reg_type regs r)
  unfolding put_dest
  reg_type-put_dest none t regs r = refl
  reg_type-put_dest (some d) t regs r = reg_type-put_reg regs d t r

  reg_type-type_code :
      (regs : List Ty) (variables : TypeMap) (code : List Instruction) (r : ℕ)
      → reg_type (type_code returns regs variables code).0 r
        ≡ last_write (type_code returns regs variables code).1 r (reg_type regs r)
  unfolding type_code last_write
  reg_type-type_code regs variables [] r = refl
  reg_type-type_code regs variables (i ∷ code) r =
      let t = instruction_type returns regs variables i in
      let next = store_type returns i.op i.text regs i.args variables in
      reg_type-type_code (put_dest returns i.dest t regs) next code r
      ∙ ap (last_write (type_code returns (put_dest returns i.dest t regs) next code).1 r)
          (reg_type-put_dest i.dest t regs r)

  untyped-type_code :
      (regs : List Ty) (variables : TypeMap) (code : List Instruction)
      → map untyped (type_code returns regs variables code).1 ≡ map untyped code
  unfolding type_code
  untyped-type_code regs variables [] = refl
  untyped-type_code regs variables (i ∷ code) =
      ap (λ (rest : List Instruction). untyped i ∷ rest)
        (untyped-type_code
          (put_dest returns i.dest (instruction_type returns regs variables i) regs)
          (store_type returns i.op i.text regs i.args variables) code)

reg_type-replicate : (n r : ℕ) → reg_type (replicate n default_type) r ≡ default_type
unfolding reg_type
reg_type-replicate zero r = refl
reg_type-replicate (suc n) zero = refl
reg_type-replicate (suc n) (suc r) = reg_type-replicate n r

-- What the analysis of `fn` has made.
record Typed (fn fn' : Function) : Type 0 where
  last_writes : (r : ℕ) → reg_type fn'.register_types r ≡ last_write fn'.code r default_type
  same_code : map untyped fn'.code ≡ map untyped fn.code

type_function-Typed :
    (functions : List (Text × FunctionDecl)) (variables : TypeMap) (fn : Function)
    → Typed fn (type_function functions variables fn)
unfolding type_function blocks
type_function-Typed functions variables fn =
    let regs = replicate fn.next_reg default_type in
    record {
      last_writes = λ r.
          reg_type-type_code (returns_of functions functions) regs variables fn.code r
          ∙ ap (last_write (type_code (returns_of functions functions) regs variables fn.code).1 r)
              (reg_type-replicate fn.next_reg r);
      same_code = untyped-type_code (returns_of functions functions) regs variables fn.code;
    }

analyze_function-Typed :
    (functions : List (Text × FunctionDecl)) (fn : Function)
    → Typed fn (analyze_function functions fn)
unfolding analyze_function declared_signature
analyze_function-Typed functions fn =
    elim (find_text functions fn.name)
      as (λ o. Typed fn (elim o as (λ o. Function) [
        | some f ↦
            type_function functions (declared_variables f.params []) (declared_signature f fn)
        | none ↦ type_function functions (given_variables fn.params fn.param_types []) fn
      ])) [
        | some f ↦
            let typed =
              type_function-Typed functions (declared_variables f.params [])
                (declared_signature f fn) in
            record { last_writes = typed.last_writes; same_code = typed.same_code }
        | none ↦ type_function-Typed functions (given_variables fn.params fn.param_types []) fn
      ]

-- `NirAnalyzer::analyze` gives each register of a function the type of the last instruction that writes
-- it, and the unknown type to a register that none writes. Of the code it changes nothing but the
-- types of the instructions.
pub analyze_function-last_write :
    (functions : List (Text × FunctionDecl)) (fn : Function) (r : ℕ)
    → (reg_type (analyze_function functions fn).register_types r
        ≡ last_write (analyze_function functions fn).code r default_type)
      × (map untyped (analyze_function functions fn).code ≡ map untyped fn.code)
analyze_function-last_write functions fn r =
    let typed = analyze_function-Typed functions fn in (typed.last_writes r, typed.same_code)
