-- ===== src/Generics/State.antt =====
-- The state of the class Monomorphizer, and the instances of generic records (Compiler/generics.cpp).
-- What `applyGenericSyntax` writes into the tree, the parameters of a record and the constraints of a
-- function, is looked up by its name instead.
use noe_code.Prelude.{
  ℕ, zero, suc, Bool, true, false, ◌&&◌, ◌||◌, List, [], ◌∷◌, ◌++◌, Option, none, some, Text, codes,
  length, ltb, ◌==◌, find_text, text_eq, to_string, if◌then◌else◌,
}
use noe_code.Types.Names.{strip}
use noe_code.Ast.{
  Diagnostic, RecordField, RecordDecl, FunctionDecl, TopLevel, function_decl, record_decl,
}
use noe_code.Diagnostics.{error}
use noe_code.Generics.Mangle.{GenericApplication, mangle_generic, parse_mangled_generic}
use noe_code.Generics.Substitute.{substitute, array_element}
use noe_code.Generics.Bind.{Bindings, bind_all}

-- `constraints` and `recordParams` of a `GenericSyntaxInfo`.
pub record GenericSyntax : Type 0 where
  pub constraints : List (Text × List (Text × List Text))
  pub record_params : List (Text × List Text)

-- A generic record with its parameters.
pub record Template : Type 0 where
  pub params : List Text
  pub decl : RecordDecl

-- `exhausted`: the fuel for instances within instances has run out.
pub record Monomorphizer : Type 0 where
  pub functions : List (Text × FunctionDecl)
  pub constraints : List (Text × List (Text × List Text))
  pub templates : List (Text × Template)
  pub cache : List (Text × Text)
  pub record_cache : List Text
  pub record_instances : List RecordDecl
  pub instances : List FunctionDecl
  pub diagnostics : List Diagnostic
  pub exhausted : Bool

unfoldable pub exhaust : Monomorphizer → Monomorphizer
exhaust m = record m { exhausted = true }

unfoldable pub record_params_of : GenericSyntax → RecordDecl → List Text
unfolding find_text
record_params_of syntax r = elim (find_text syntax.record_params r.name) [
  | some ps ↦ ps
  | none ↦ []
]

unfoldable pub is_generic : List Text → Bool
is_generic [] = false
is_generic (g ∷ gs) = true

-- The constructor's loop: a later declaration of a name takes the place of an earlier one.
unfoldable pub collect_declarations : GenericSyntax → List TopLevel → Monomorphizer → Monomorphizer
unfolding record_params_of is_generic
collect_declarations syntax [] m = m
collect_declarations syntax (function_decl f ∷ ts) m =
    collect_declarations syntax ts (record m { functions = (f.name, f) ∷ m.functions })
collect_declarations syntax (record_decl r ∷ ts) m =
    let ps = record_params_of syntax r in
    let t : Template = record { params = ps; decl = r } in
    collect_declarations syntax ts
      (if is_generic ps then record m { templates = (r.name, t) ∷ m.templates } else m)
collect_declarations syntax (t ∷ ts) m = collect_declarations syntax ts m

unfoldable pub contains_text : List Text → Text → Bool
unfolding text_eq
contains_text [] x = false
contains_text (y ∷ ys) x = text_eq y x || contains_text ys x

unfoldable pub is_bracketed : Text → Bool
is_bracketed [] = false
is_bracketed (c ∷ s) = c == b'[' && ltb 3 (length (c ∷ s))

-- The name that a type's name is looked through to: some where a prefix or an array is taken off, and
-- then none where nothing is looked at any more.
unfoldable pub inner_type : Text → Option (Option Text)
unfolding strip array_element is_bracketed
inner_type t = elim (strip (codes "*volatile ") t) [
  | some u ↦ some (some u)
  | none ↦ elim (strip (codes "*") t) [
    | some u ↦ some (some u)
    | none ↦ elim (strip (codes "[]") t) [
      | some u ↦ some (some u)
      | none ↦ if is_bracketed t then some (array_element t) else none
    ]
  ]
]

unfoldable pub ensure_all :
    (Text → Monomorphizer → Monomorphizer) → List Text → Monomorphizer → Monomorphizer
ensure_all ensure [] m = m
ensure_all ensure (t ∷ ts) m = ensure_all ensure ts (ensure t m)

-- The fields of an instance; each type is ensured once it is substituted.
unfoldable pub instance_fields :
    (Text → Monomorphizer → Monomorphizer)
    → Bindings
    → List RecordField
    → Monomorphizer
    → List RecordField × Monomorphizer
instance_fields ensure b [] m = ([], m)
instance_fields ensure b (f ∷ fs) m =
    let t = substitute f.type_name b in
    let r = instance_fields ensure b fs (ensure t m) in (record f { type_name = t } ∷ r.0, r.1)

-- The report of an application with another number of arguments than its record has parameters.
unfoldable pub arity_report : GenericApplication → Template → List Diagnostic → List Diagnostic
unfolding error to_string
arity_report app t items =
    error (codes "NQR-G4010") t.decl.span
      (codes "generic record '"
        ++ (t.decl.name
            ++ (codes "' expects "
                ++ (to_string (length t.params)
                    ++ (codes " type arguments, found " ++ to_string (length app.args))))))
      (codes "") items

-- An application whose arguments have been ensured, of a record with this template.
unfoldable pub ensure_instance :
    (Text → Monomorphizer → Monomorphizer)
    → GenericApplication
    → Template
    → Monomorphizer
    → Monomorphizer
unfolding contains_text bind_all instance_fields substitute arity_report mangle_generic
ensure_instance ensure app t m =
    let key = mangle_generic app.base app.args in
    let cached = record m { record_cache = key ∷ m.record_cache } in
    let r = instance_fields ensure (bind_all t.params app.args []) t.decl.fields cached in
    if contains_text m.record_cache key
    then m
    else if length t.params == length app.args
    then record r.1 {
      record_instances = r.1.record_instances ++ (record t.decl { name = key; fields = r.0 } ∷ []);
    }
    else record cached { diagnostics = arity_report app t m.diagnostics }

-- `ensureType` up to the instances, whose fields are ensured by `deeper`. It is on fuel; one more than
-- the length of the name is enough, since every call of its own is on a shorter name.
unfoldable pub ensure_in :
    (Text → Monomorphizer → Monomorphizer) → ℕ → Text → Monomorphizer → Monomorphizer
unfolding inner_type ensure_all ensure_instance exhaust find_text
ensure_in deeper zero t m = exhaust m
ensure_in deeper (suc k) t m = elim (inner_type t) [
  | some (some u) ↦ ensure_in deeper k u m
  | some none ↦ m
  | none ↦ elim (parse_mangled_generic t) [
    | none ↦ m
    | some app ↦ elim (find_text m.templates app.base) [
      | none ↦ ensure_all (ensure_in deeper k) app.args m
      | some templ ↦ ensure_instance deeper app templ (ensure_all (ensure_in deeper k) app.args m)
    ]
  ]
]

-- `ensureType`, on fuel for the records whose fields are within one another.
unfoldable pub ensure_type : ℕ → Text → Monomorphizer → Monomorphizer
unfolding ensure_in
ensure_type zero t m = ensure_in (λ u n. exhaust n) (suc (length t)) t m
ensure_type (suc f) t m = ensure_in (ensure_type f) (suc (length t)) t m
