-- ===== src/Generics/Examples.antt =====
-- Names of types, and the instance of a generic function.
use noe_code.Prelude.{
  In, ◌≡◌, ◌≢◌, refl, true, false, List, [], ◌∷◌, ◌++◌, some, Text, codes, map, All, text_eq, arith,
}
use noe_code.Prelude.Int.{pos}
use noe_code.Nir.{Value}
use noe_code.Ast.{
  Span, Diagnostic, Expr, literal, name, call, no_exprs, more_exprs, expr_stmt, return_stmt,
  no_stmts, more_stmts, FunctionDecl, TopLevel, function_decl, statement,
}
use noe_code.Generics.Mangle.{
  mangle_generic, parse_mangled_generic, application, pieces, begins_with, is_blank, trim,
  trim_start, trim_end, keep_end,
}
use noe_code.Generics.Plain.{IsPlain}
use noe_code.Generics.Names.{parse_mangled_generic-mangle_generic}
use noe_code.Generics.Substitute.{substitute_from, substitute}
use noe_code.Generics.Bind.{bind_from, bind}
use noe_code.Generics.State.{GenericSyntax, Monomorphizer, ensure_type}
use noe_code.Generics.Instances.{safe_byte, or_unknown, safe_type, name_suffix, key_suffix}
use noe_code.Generics.Monomorphize.{monomorphize, process_body, start_monomorphizer}
use noe_code.Generics.Calls.{process_call}
use noe_code.Generics.Ensured.{Appended}
use noe_code.Generics.Instantiated.{IsCall}
use noe_code.Generics.WalkSteps.{process_call-leads_to_instance}
use noe_code.Generics.Results.{IsInstance, IsMadeFrom, function_names, monomorphize-instances}
use noe_code.Generics.Programs.{monomorphize-unchanged}
use noe_code.Generics.Squeeze.{squeeze, safe_type-squeeze, name_suffix-collides}
use noe_code.Generics.Enough.{substitute_from-substitute}
use noe_code.Generics.BindEnough.{bind_from-bind}

abbrev pair : Text
pair = codes "Pair"

abbrev int_and_flag : List Text
int_and_flag = codes " int" ∷ codes "u8" ∷ []

pair-IsPlain : IsPlain pair
unfolding IsPlain begins_with
pair-IsPlain = (refl, (refl, (refl, (refl, tt))))

parse_mangled_generic-mangle_generic_example :
    parse_mangled_generic (mangle_generic pair int_and_flag)
    ≡ some (record { base = pair; args = codes "int" ∷ codes "u8" ∷ [] })
unfolding trim trim_start trim_end keep_end is_blank
parse_mangled_generic-mangle_generic_example =
    parse_mangled_generic-mangle_generic b'P' (codes "air") (codes " int") (codes "u8" ∷ [])
      pair-IsPlain
      (
        (omega arith, (omega arith, (omega arith, (omega arith, tt)))),
        ((omega arith, (omega arith, tt)), tt),
      )

abbrev t_is_u8 : List (Text × Text)
t_is_u8 = (codes "T", codes "u8") ∷ []

substitute_from-substitute_example :
    substitute_from 9 t_is_u8 (codes "[]T") ≡ substitute (codes "[]T") t_is_u8
substitute_from-substitute_example =
    substitute_from-substitute 9 t_is_u8 (codes "[]T") (omega arith)

substituted : substitute (codes "[*T;4]") t_is_u8 ≡ codes "[*u8;4]"
unfolding substitute parse_mangled_generic application pieces begins_with text_eq
substituted = refl

bind_from-bind_example :
    bind_from (λ p a c. (true, [])) 9 (codes "T" ∷ []) (codes "*T") (codes "*u8") []
    ≡ bind (codes "*T") (codes "*u8") (codes "T" ∷ []) []
bind_from-bind_example =
    bind_from-bind (λ p a c. (true, [])) 9 (codes "T" ∷ []) (codes "*T") (codes "*u8") []
      (omega arith)

safe_type-squeeze_example :
    safe_type (codes "[]u8") ≡ or_unknown (squeeze (map safe_byte (codes "[]u8")))
safe_type-squeeze_example = safe_type-squeeze (codes "[]u8")

name_suffix-collides_example :
    (name_suffix (codes "T" ∷ []) ((codes "T", codes "*" ++ codes "u8") ∷ [])
      ≡ name_suffix (codes "T" ∷ []) ((codes "T", codes "[]" ++ codes "u8") ∷ []))
    × (key_suffix (codes "T" ∷ []) ((codes "T", codes "*" ++ codes "u8") ∷ [])
        ≢ key_suffix (codes "T" ∷ []) ((codes "T", codes "[]" ++ codes "u8") ∷ []))
name_suffix-collides_example = name_suffix-collides (codes "T") (codes "u8")

abbrev here : Span
here = record { start = 0; end = 0; line = 1; column = 1; source = 0 }

abbrev no_syntax : GenericSyntax
no_syntax = record { constraints = []; record_params = [] }

-- `function <x>(x: <t>): <t> { return x; }` with the parameters `gps`.
abbrev identity : Text → List Text → Text → FunctionDecl
identity f gps t = record {
  span = here;
  name = f;
  generic_params = gps;
  params = record { name = codes "x"; annotation = some t; span = here } ∷ [];
  return_type = some t;
  body = more_stmts (return_stmt here (some (name here (codes "x")))) no_stmts;
  is_extern = false;
  is_export = false;
}

-- `<f>(4);`
abbrev call_of : Text → TopLevel
call_of f = statement (
    expr_stmt here (
      call here (name here f) (more_exprs (literal here (Value.int (pos 4))) no_exprs)
        (record { builtin_width = 0; builtin_count = 0; builtin_text = [] })))

abbrev plain_program : List TopLevel
plain_program = function_decl (identity (codes "id") [] (codes "int")) ∷ call_of (codes "id") ∷ []

monomorphize-unchanged_example :
    ((monomorphize 0 no_syntax plain_program []).0 ≡ plain_program)
    × ((monomorphize 0 no_syntax plain_program []).1.diagnostics ≡ [])
    × ((monomorphize 0 no_syntax plain_program []).1.exhausted ≡ false)
unfolding monomorphize
monomorphize-unchanged_example =
    monomorphize-unchanged 0 no_syntax plain_program [] (refl, (refl, tt))

-- `function id<T>(x: T): T { return x; } id(4);`
abbrev generic_program : List TopLevel
generic_program =
    function_decl (identity (codes "id") (codes "T" ∷ []) (codes "T")) ∷ call_of (codes "id") ∷ []

-- It has one instance, which the call is led to.
instance_of_id :
    (monomorphize 2 no_syntax generic_program []).0
    ≡ call_of (codes "id__int") ∷ function_decl (identity (codes "id__int") [] (codes "int")) ∷ []
unfolding monomorphize ensure_type parse_mangled_generic application pieces begins_with
instance_of_id = refl

monomorphize-instances_example :
    All IsInstance (monomorphize 2 no_syntax generic_program []).0
    × All (IsMadeFrom generic_program) (monomorphize 2 no_syntax generic_program []).1.instances
    × All
        (λ (p : Text × Text).
          In p.1 (function_names (monomorphize 2 no_syntax generic_program []).0))
        (monomorphize 2 no_syntax generic_program []).1.cache
    × Appended {A = Diagnostic} [] (monomorphize 2 no_syntax generic_program []).1.diagnostics
monomorphize-instances_example = monomorphize-instances 2 no_syntax generic_program []

abbrev callee : Expr
callee = name here (codes "id")

abbrev start : Monomorphizer
start = start_monomorphizer no_syntax generic_program []

process_call-leads_to_instance_example :
    IsCall callee start
      (process_call (ensure_type 1) (process_body 1) here callee (codes "int" ∷ []) start)
process_call-leads_to_instance_example =
    process_call-leads_to_instance 1 here callee (codes "int" ∷ []) start
