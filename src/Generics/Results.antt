-- ===== src/Generics/Results.antt =====
-- What `GenericEngine::monomorphize` (Compiler/generics.cpp) gives.
use noe_code.Prelude.{
  In, ℕ, suc, ◌≡◌, refl, sym, ap, subst, inl, inr, true, false, List, [], ◌∷◌, ◌++◌, Text, map, All,
  All-append, All-mono, Bool-cases, if_both,
}
use noe_code.Ast.{
  Diagnostic, FunctionDecl, RecordDecl, TopLevel, function_decl, record_decl, import_decl,
  module_decl, statement,
}
use noe_code.Generics.State.{GenericSyntax, Monomorphizer, is_generic, ensure_type}
use noe_code.Generics.Calls.{env_of, ensure_opt, process_call}
use noe_code.Generics.Monomorphize.{
  process_body, process_top, process_tops, is_template, start_monomorphizer, monomorphize,
  ensure_params,
}
use noe_code.Generics.Ensured.{Appended, ensure_type-Ensures}
use noe_code.Generics.Unchanged.{find_text-All}
use noe_code.Generics.Instantiated.{
  names, IsCopy, IsInstanceOf, AreInstances, IsCached, IsInstanced, IsInstanced-refl,
  IsInstanced-trans, IsEnsured-IsInstanced, In-right,
}
use noe_code.Generics.Collected.{AreFrom, collect_declarations-IsCollected}
use noe_code.Generics.CallSteps.{ensure_opt-IsEnsured, process_call-IsCall}
use noe_code.Generics.WalkSteps.{
  process_stmt-IsInstanced, ensure_params-IsInstanced, ensure_fields-IsInstanced,
  process_body-Instances,
}

-- A copy of a generic function that the program declares.
pub record IsMadeFrom (ts : List TopLevel) (g : FunctionDecl) : Type 0 where
  pub template : FunctionDecl
  pub declared : In (function_decl template) ts
  pub generic : is_generic template.generic_params ≡ true
  pub copy : IsCopy template g

-- A declaration that is no generic function.
abbrev pub IsInstance : TopLevel → Type 0
IsInstance (function_decl f) = is_generic f.generic_params ≡ false
IsInstance t = Unit

-- The names of the functions of a program.
unfoldable pub function_names : List TopLevel → List Text
function_names [] = []
function_names (function_decl f ∷ ts) = f.name ∷ function_names ts
function_names (t ∷ ts) = function_names ts

process_top-IsInstanced :
    (f : ℕ) (t : TopLevel) (m : Monomorphizer) → IsInstanced m (process_top f t m).1
unfolding process_top
process_top-IsInstanced f (function_decl g) m =
    let params = ensure_params (ensure_type f) g.params m in
    IsInstanced-trans (ensure_params-IsInstanced (ensure_type f) (ensure_type-Ensures f) g.params m)
      (IsInstanced-trans
        (IsEnsured-IsInstanced
          (ensure_opt-IsEnsured (ensure_type f) (ensure_type-Ensures f) g.return_type params))
        ((process_body-Instances (suc f)).state g.body (env_of g.params [])
          (ensure_opt (ensure_type f) g.return_type params)))
process_top-IsInstanced f (record_decl r) m =
    ensure_fields-IsInstanced (ensure_type f) (ensure_type-Ensures f) r.fields m
process_top-IsInstanced f (statement s) m =
    process_stmt-IsInstanced (ensure_type f) (ensure_type-Ensures f)
      (process_call (ensure_type f) (process_body f))
      (λ sp e ts n.
        (process_call-IsCall (ensure_type f) (ensure_type-Ensures f) (process_body f)
          (process_body-Instances f) sp e ts n).0)
      s [] m
process_top-IsInstanced f (import_decl sp x) m = IsInstanced-refl m
process_top-IsInstanced f (module_decl sp x) m = IsInstanced-refl m

process_tops-IsInstanced :
    (f : ℕ) (syntax : GenericSyntax) (ts : List TopLevel) (m : Monomorphizer)
    → IsInstanced m (process_tops f syntax ts m).1
unfolding process_tops
process_tops-IsInstanced f syntax [] m = IsInstanced-refl m
process_tops-IsInstanced f syntax (t ∷ ts) m =
    if_both (λ (r : List TopLevel × Monomorphizer). IsInstanced m r.1) (is_template syntax t)
      (process_tops-IsInstanced f syntax ts m)
      (IsInstanced-trans (process_top-IsInstanced f t m)
        (process_tops-IsInstanced f syntax ts (process_top f t m).1))

process_top-IsInstance :
    (f : ℕ) (syntax : GenericSyntax) (t : TopLevel) (m : Monomorphizer)
    → is_template syntax t ≡ false
    → IsInstance (process_top f t m).0
unfolding process_top is_template
process_top-IsInstance f syntax (function_decl g) m h = h
process_top-IsInstance f syntax (record_decl r) m h = tt
process_top-IsInstance f syntax (statement s) m h = tt
process_top-IsInstance f syntax (import_decl sp x) m h = tt
process_top-IsInstance f syntax (module_decl sp x) m h = tt

process_tops-IsInstance :
    (f : ℕ) (syntax : GenericSyntax) (ts : List TopLevel) (m : Monomorphizer)
    → All IsInstance (process_tops f syntax ts m).0
unfolding process_tops
process_tops-IsInstance f syntax [] m = tt
process_tops-IsInstance f syntax (t ∷ ts) m = elim (Bool-cases (is_template syntax t)) [
  | inl e ↦ rw (e, process_tops) (process_tops-IsInstance f syntax ts m)
  | inr e ↦
      rw (e, process_tops)
        (
          process_top-IsInstance f syntax t m e,
          process_tops-IsInstance f syntax ts (process_top f t m).1,
        )
]

records-IsInstance : (rs : List RecordDecl) → All IsInstance (map record_decl rs)
records-IsInstance [] = tt
records-IsInstance (r ∷ rs) = (tt, records-IsInstance rs)

functions-IsInstance :
    (ts : List TopLevel) (fs : List FunctionDecl)
    → All (IsMadeFrom ts) fs
    → All IsInstance (map function_decl fs)
functions-IsInstance ts [] h = tt
functions-IsInstance ts (f ∷ fs) (h, k) = (h.copy.concrete, functions-IsInstance ts fs k)

instances-AreMade :
    (ts : List TopLevel) (functions : List (Text × FunctionDecl)) (gs : List FunctionDecl)
    → AreFrom ts functions
    → All (IsInstanceOf functions) gs
    → All (IsMadeFrom ts) gs
instances-AreMade ts functions gs h k =
    All-mono gs
      (λ g i. record {
        template = i.template;
        declared =
            find_text-All (λ (f : FunctionDecl). In (function_decl f) ts) functions i.called
              i.template h i.found;
        generic = i.generic;
        copy = i.copy;
      })
      k

function_names-append :
    (ts us : List TopLevel) → function_names (ts ++ us) ≡ function_names ts ++ function_names us
unfolding function_names
function_names-append [] us = refl
function_names-append (function_decl f ∷ ts) us =
    ap (λ (l : List Text). f.name ∷ l) (function_names-append ts us)
function_names-append (record_decl r ∷ ts) us = function_names-append ts us
function_names-append (import_decl sp x ∷ ts) us = function_names-append ts us
function_names-append (module_decl sp x ∷ ts) us = function_names-append ts us
function_names-append (statement s ∷ ts) us = function_names-append ts us

function_names-records :
    (rs : List RecordDecl) (fs : List FunctionDecl)
    → function_names (map record_decl rs ++ map function_decl fs) ≡ names fs
unfolding function_names
function_names-records [] [] = refl
function_names-records [] (f ∷ fs) =
    ap (λ (l : List Text). f.name ∷ l) (function_names-records [] fs)
function_names-records (r ∷ rs) fs = function_names-records rs fs

-- `monomorphize` leaves no generic function among the declarations of the program; every function that
-- it makes is a copy of a generic function that the program declares, with types put in for the generic
-- parameters in its parameters, its result and its body, where only the names of callees in the body may
-- differ; every name that its cache has for an instance, which is what calls are led to, is the name of
-- a function among the declarations; and it keeps every diagnostic that there was, in order, and puts
-- its own behind them. Nothing is said of declarations inside of functions.
pub monomorphize-instances :
    (fuel : ℕ) (syntax : GenericSyntax) (ts : List TopLevel) (items : List Diagnostic)
    → All IsInstance (monomorphize fuel syntax ts items).0
      × All (IsMadeFrom ts) (monomorphize fuel syntax ts items).1.instances
      × All
          (λ (p : Text × Text). In p.1 (function_names (monomorphize fuel syntax ts items).0))
          (monomorphize fuel syntax ts items).1.cache
      × Appended items (monomorphize fuel syntax ts items).1.diagnostics
unfolding monomorphize start_monomorphizer
monomorphize-instances fuel syntax ts items =
    let start = start_monomorphizer syntax ts items in
    let c = collect_declarations-IsCollected ts syntax ts _ (λ t k. k) in
    let r = process_tops fuel syntax ts start in
    let p = process_tops-IsInstanced fuel syntax ts start in
    let none_yet : AreInstances start =
      subst (λ (gs : List FunctionDecl). All (IsInstanceOf start.functions) gs) (sym c.instances)
        tt in
    let empty_cache : IsCached start =
      subst
        (λ (l : List (Text × Text)). All (λ (q : Text × Text). In q.1 (names start.instances)) l)
        (sym c.cache) tt in
    let copies : All (IsMadeFrom ts) r.1.instances =
      instances-AreMade ts r.1.functions r.1.instances
        (subst (AreFrom ts) (sym p.functions) (c.functions tt)) (p.copies none_yet) in
    let made = map record_decl r.1.record_instances ++ map function_decl r.1.instances in
    (
      All-append IsInstance r.0 made (process_tops-IsInstance fuel syntax ts start) (
          All-append IsInstance (map record_decl r.1.record_instances)
            (map function_decl r.1.instances) (records-IsInstance r.1.record_instances)
            (functions-IsInstance ts r.1.instances copies)),
      copies,
      All-mono r.1.cache
          (λ q h. subst (In q.1) (sym (function_names-append r.0 made)) (
            In-right q.1 (function_names r.0) (function_names made)
              (subst (In q.1) (sym (function_names-records r.1.record_instances r.1.instances)) h)))
          (p.cached empty_cache),
      subst (λ (l : List Diagnostic). Appended l r.1.diagnostics) c.reports p.reports,
    )
