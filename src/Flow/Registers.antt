-- ===== src/Flow/Registers.antt =====
-- The types of registers: `NirAnalyzer::analyze` (Compiler/nir_analysis.cpp).
use noe_code.Prelude.{
  ℕ, zero, suc, Bool, false, ◌||◌, List, [], ◌∷◌, Option, none, some, Text, codes, text_eq,
  find_text, replicate, map, if◌then◌else◌,
}
use noe_code.Types.{
  TypeKind, Ty, OptTy, no_ty, some_ty, mk_ty, kind, pointee, simple_type, default_type, kind_eq,
}
use noe_code.Types.Names.{type_from_name}
use noe_code.Nir.{Value, NirOp, Instruction, Function, Program}
use noe_code.Ast.{Parameter, FunctionDecl, TopLevel, function_decl}
use noe_code.Flow.{blocks}

unfoldable pub const_type : Value → Ty
unfolding simple_type
const_type (Value.int v) = simple_type TypeKind.int
const_type (Value.double v) = simple_type TypeKind.float
const_type (Value.boolean v) = simple_type TypeKind.bool
const_type (Value.text v) = simple_type TypeKind.string
const_type Value.monostate = simple_type TypeKind.null

abbrev pub is_one_of : List Text → Text → Bool
is_one_of [] x = false
is_one_of (y ∷ ys) x = text_eq x y || is_one_of ys x

unfoldable pub comparison : Text → Bool
unfolding text_eq
comparison op =
    is_one_of
      (codes "=="
        ∷ codes "!="
        ∷ codes "<"
        ∷ codes "<="
        ∷ codes ">"
        ∷ codes ">="
        ∷ codes "&&"
        ∷ codes "||"
        ∷ [])
      op

-- `regType`
unfoldable pub reg_type : List Ty → ℕ → Ty
reg_type [] r = default_type
reg_type (t ∷ ts) zero = t
reg_type (t ∷ ts) (suc r) = reg_type ts r

-- `ensureReg(fn,r);fn.registerTypes[r]=t;`
unfoldable pub put_reg : List Ty → ℕ → Ty → List Ty
put_reg [] zero t = t ∷ []
put_reg [] (suc r) t = default_type ∷ put_reg [] r t
put_reg (x ∷ xs) zero t = t ∷ xs
put_reg (x ∷ xs) (suc r) t = x ∷ put_reg xs r t

unfoldable pub first_type : List Ty → List ℕ → Ty
unfolding reg_type
first_type regs [] = default_type
first_type regs (r ∷ rs) = reg_type regs r

abbrev or_default : Option Ty → Ty
or_default none = default_type
or_default (some t) = t

abbrev element_of : Ty → OptTy
element_of (mk_ty k rn gn p e n rs ra v) = e

abbrev some_or_default : OptTy → Ty
some_or_default no_ty = default_type
some_or_default (some_ty t) = t

-- The pointee of a pointer that has one.
unfoldable pub pointee_type : Ty → OptTy
unfolding kind kind_eq pointee
pointee_type p = if kind_eq (kind p) TypeKind.pointer then pointee p else no_ty

unfoldable pub element_type : Ty → OptTy
unfolding kind kind_eq
element_type s = if kind_eq (kind s) TypeKind.slice then element_of s else no_ty

abbrev pointer_type : OptTy → Ty
pointer_type p = mk_ty TypeKind.pointer (codes "") (codes "") p no_ty 0 0 1 false

abbrev slice_type : OptTy → Ty
slice_type e = mk_ty TypeKind.slice (codes "") (codes "") no_ty e 0 0 1 false

abbrev pub TypeMap : Type 0
TypeMap = List (Text × Ty)

unfoldable pub slice_data_type : List Ty → List ℕ → Ty
unfolding reg_type element_type
slice_data_type regs [] = default_type
slice_data_type regs (r ∷ rs) = pointer_type (element_type (reg_type regs r))

abbrev opt_ty : Option Ty → OptTy
opt_ty none = no_ty
opt_ty (some t) = some_ty t

module _ (returns : TypeMap) where
  unfoldable pub call_type : Text → Ty
  unfolding find_text text_eq simple_type
  call_type f = elim (find_text returns f) [
    | some t ↦ t
    | none ↦
        if text_eq f (codes "clockMillis")
        then simple_type TypeKind.i64
        else if text_eq f (codes "platform")
        then simple_type TypeKind.string
        else if is_one_of (codes "textLength" ∷ codes "len" ∷ []) f
        then simple_type TypeKind.usize
        else if text_eq f (codes "print")
        then simple_type TypeKind.void
        else default_type
  ]

  -- The type of what an instruction gives, from the types of registers and variables so far.
  unfoldable pub instruction_type : List Ty → TypeMap → Instruction → Ty
  unfolding const_type find_text text_eq first_type comparison call_type pointee_type
      slice_data_type type_from_name simple_type
  instruction_type regs variables i = elim i.op [
    | NirOp.const ↦ const_type i.literal
    | NirOp.load ↦ or_default (find_text variables i.text)
    | NirOp.store ↦ default_type
    | NirOp.unary ↦
        if text_eq i.text (codes "!") then simple_type TypeKind.bool else first_type regs i.args
    | NirOp.binary ↦ if comparison i.text then simple_type TypeKind.bool else first_type regs i.args
    | NirOp.cast ↦ type_from_name i.text
    | NirOp.call ↦ call_type i.text
    | NirOp.address_of ↦ pointer_type (opt_ty (find_text variables i.text))
    | NirOp.load_memory ↦ some_or_default (pointee_type (first_type regs i.args))
    | NirOp.ptr_offset ↦ first_type regs i.args
    | NirOp.stack_alloc ↦ pointer_type (some_ty (simple_type TypeKind.u8))
    | NirOp.make_slice ↦ slice_type (pointee_type (first_type regs i.args))
    | NirOp.slice_data ↦ slice_data_type regs i.args
    | NirOp.slice_len ↦ simple_type TypeKind.usize
    | NirOp.atomic_load ↦ some_or_default (pointee_type (first_type regs i.args))
    | NirOp.atomic_exchange ↦ some_or_default (pointee_type (first_type regs i.args))
    | NirOp.atomic_compare_exchange ↦ some_or_default (pointee_type (first_type regs i.args))
    | NirOp.intrinsic ↦
        if text_eq i.text (codes "x86.rdtsc")
        then simple_type TypeKind.u64
        else simple_type TypeKind.void
    | NirOp.try ↦ first_type regs i.args
    | _ ↦ simple_type TypeKind.void
  ]

  -- A store gives its variable the type of the register stored.
  unfoldable pub store_type : NirOp → Text → List Ty → List ℕ → TypeMap → TypeMap
  unfolding reg_type
  store_type NirOp.store x regs (r ∷ rs) variables = (x, reg_type regs r) ∷ variables
  store_type _ x regs rs variables = variables

  unfoldable pub put_dest : Option ℕ → Ty → List Ty → List Ty
  unfolding put_reg
  put_dest none t regs = regs
  put_dest (some r) t regs = put_reg regs r t

  -- The loop over the code: the types of the registers behind it, and the code with its types.
  unfoldable pub type_code : List Ty → TypeMap → List Instruction → List Ty × List Instruction
  unfolding instruction_type store_type put_dest
  type_code regs variables [] = (regs, [])
  type_code regs variables (i ∷ code) =
      let t = instruction_type regs variables i in
      let rest =
        type_code (put_dest i.dest t regs) (store_type i.op i.text regs i.args variables) code in
      (rest.0, record i { ty = t } ∷ rest.1)

-- `p.annotation?typeFromName(*p.annotation):Type{}`
unfoldable pub annotated_type : Option Text → Ty → Ty
unfolding type_from_name
annotated_type none t = t
annotated_type (some x) t = type_from_name x

unfoldable pub return_type_of : FunctionDecl → Ty
unfolding annotated_type simple_type
return_type_of f = annotated_type f.return_type (simple_type TypeKind.void)

abbrev pub ast_functions : List TopLevel → List (Text × FunctionDecl) → List (Text × FunctionDecl)
ast_functions [] m = m
ast_functions (function_decl f ∷ ds) m = ast_functions ds ((f.name, f) ∷ m)
ast_functions (d ∷ ds) m = ast_functions ds m

unfoldable pub declared_variables : List Parameter → TypeMap → TypeMap
unfolding annotated_type
declared_variables [] m = m
declared_variables (p ∷ ps) m =
    declared_variables ps ((p.name, annotated_type p.annotation default_type) ∷ m)

unfoldable pub given_variables : List Text → List Ty → TypeMap → TypeMap
given_variables (x ∷ xs) (t ∷ ts) m = given_variables xs ts ((x, t) ∷ m)
given_variables xs ts m = m

unfoldable pub declared_signature : FunctionDecl → Function → Function
unfolding annotated_type return_type_of
declared_signature f fn = record fn {
  param_types = map (λ (p : Parameter). annotated_type p.annotation default_type) f.params;
  result_type = return_type_of f;
}

module _ (functions : List (Text × FunctionDecl)) where
  abbrev pub returns_of : List (Text × FunctionDecl) → TypeMap
  returns_of [] = []
  returns_of ((x, f) ∷ m) = (x, return_type_of f) ∷ returns_of m

  unfoldable pub type_function : TypeMap → Function → Function
  unfolding type_code blocks
  type_function variables fn =
      let r =
        type_code (returns_of functions) (replicate fn.next_reg default_type) variables fn.code in
      blocks (record fn { register_types = r.0; code = r.1 })

  -- `analyzeFunction`
  unfoldable pub analyze_function : Function → Function
  unfolding find_text type_function declared_variables given_variables declared_signature
  analyze_function fn = elim (find_text functions fn.name) [
    | some f ↦ type_function (declared_variables f.params []) (declared_signature f fn)
    | none ↦ type_function (given_variables fn.params fn.param_types []) fn
  ]

-- `NirAnalyzer::analyze`
unfoldable pub analyze : List TopLevel → Program → Program
unfolding analyze_function
analyze program p =
    let functions = ast_functions program [] in
    record {
      entry = analyze_function functions p.entry;
      functions = map (analyze_function functions) p.functions;
    }
