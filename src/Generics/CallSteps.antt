-- ===== src/Generics/CallSteps.antt =====
-- What `processCall` and `instantiate` (Compiler/generics.cpp) do to the instances.
use noe_code.Prelude.{
  In, ◌≡◌, ◌⊎◌, refl, ap, ◌∙◌, inl, inr, true, List, [], ◌∷◌, ◌++◌, Option, none, some, Text, codes,
  find_text, map, if_both, Bool-cases, Option-cases,
}
use noe_code.Ast.{
  Span, Parameter, Expr, Stmts, FunctionDecl, literal, name, unary, binary, call, cast, index,
  member, array,
}
use noe_code.Lifetime.Check.{no_errors}
use noe_code.Generics.Bind.{Bindings}
use noe_code.Generics.Substitute.{substitute}
use noe_code.Generics.Clone.{clone_stmts}
use noe_code.Generics.Instances.{name_suffix, key_suffix}
use noe_code.Generics.State.{Monomorphizer, is_generic}
use noe_code.Generics.Calls.{
  Env, Called, plain_callee, rename_callee, or_void, bind_parameters, check_bound,
  check_constraints, constraints_of, substitute_annotation, ensure_opt, copy_params,
  substitute_stmts, env_of, instantiate, call_instance, call_generic, process_call,
}
use noe_code.Generics.Ensured.{Appended-trans, IsEnsured, IsEnsured-refl, IsEnsured-trans, Ensures}
use noe_code.Generics.Cloned.{clone_stmts_same}
use noe_code.Generics.Bare.{bare_stmts, bare_callee-rename}
use noe_code.Generics.Instantiated.{
  names, copied, IsInstanceOf, IsCached, IsCall, IsInstanced, IsInstanced-refl, IsInstanced-trans,
  reported-IsInstanced, IsEnsured-IsInstanced, Instances, In-appended, pushed-IsInstanced,
}
use noe_code.Generics.Finished.{finished-IsInstanced, finished-In}
use noe_code.Generics.Unchanged.{find_text-All}
use noe_code.Generics.Reported.{
  bind_parameters-Appended, check_bound-Appended, check_constraints-Appended,
}

module _ (ensure : Text → Monomorphizer → Monomorphizer) (ensures : Ensures ensure) where
  pub ensure_opt-IsEnsured :
      (t : Option Text) (m : Monomorphizer) → IsEnsured m (ensure_opt ensure t m)
  unfolding ensure_opt
  ensure_opt-IsEnsured none m = IsEnsured-refl m
  ensure_opt-IsEnsured (some t) m = ensures t m

  copy_params-IsEnsured :
      (b : Bindings) (ps : List Parameter) (m : Monomorphizer)
      → IsEnsured m (copy_params ensure b ps m).1
  unfolding copy_params
  copy_params-IsEnsured b [] m = IsEnsured-refl m
  copy_params-IsEnsured b (p ∷ ps) m =
      let t = substitute_annotation b p.annotation in
      IsEnsured-trans (ensure_opt-IsEnsured t m)
        (copy_params-IsEnsured b ps (ensure_opt ensure t m))

  copy_params-map :
      (b : Bindings) (ps : List Parameter) (m : Monomorphizer)
      → (copy_params ensure b ps m).0 ≡ map (copied b) ps
  unfolding copy_params
  copy_params-map b [] m = refl
  copy_params-map b (p ∷ ps) m =
      ap (λ (l : List Parameter). copied b p ∷ l)
        (copy_params-map b ps (ensure_opt ensure (substitute_annotation b p.annotation) m))

  module _ (process : Stmts → Env → Monomorphizer → Stmts × Monomorphizer)
      (processes : Instances process) where
    -- `instantiate` for a generic function of the program: the name that it gives is that of an
    -- instance.
    instantiate-IsInstanced :
        (f : FunctionDecl) (b : Bindings) (m : Monomorphizer) (x : Text)
        → find_text m.functions x ≡ some f
        → is_generic f.generic_params ≡ true
        → IsInstanced m (instantiate ensure process f b m).1
          × (IsCached m
              → In
                  (instantiate ensure process f b m).0
                  (names (instantiate ensure process f b m).1.instances))
    unfolding instantiate is_generic
    instantiate-IsInstanced f b m x found generic =
        let key = f.name ++ key_suffix f.generic_params b in
        let instance' = f.name ++ name_suffix f.generic_params b in
        let entered : Monomorphizer = record m { cache = (key, instance') ∷ m.cache } in
        let params = copy_params ensure b f.params entered in
        let result = substitute_annotation b f.return_type in
        let ensured = ensure_opt ensure result params.1 in
        let kept : IsEnsured entered ensured =
          IsEnsured-trans (copy_params-IsEnsured b f.params entered)
            (ensure_opt-IsEnsured result params.1) in
        let copy : FunctionDecl = record f {
          name = instance';
          generic_params = [];
          params = params.0;
          return_type = result;
          body = substitute_stmts b (clone_stmts f.body);
        } in
        let same : bare_stmts copy.body ≡ bare_stmts (substitute_stmts b f.body) =
          ap (λ (ss : Stmts). bare_stmts (substitute_stmts b ss)) (clone_stmts_same f.body) in
        let made : IsInstanceOf m.functions copy = record {
          template = f;
          called = x;
          found = found;
          generic = generic;
          copy = record {
            bindings = b;
            named = refl;
            concrete = refl;
            params = copy_params-map b f.params entered;
            result = refl;
            body = same;
          };
        } in
        let pushed : Monomorphizer = record ensured {
          instances = ensured.instances ++ (copy ∷ []);
        } in
        let first =
          pushed-IsInstanced m ensured key copy made kept.functions kept.cache kept.instances
            kept.reports in
        let r = process copy.body (env_of params.0 []) pushed in
        let second = processes.state copy.body (env_of params.0 []) pushed in
        let both = IsInstanced-trans first second in
        let done : FunctionDecl = record copy { body = r.0 } in
        let ready : IsInstanceOf r.1.functions done = record {
          template = f;
          called = x;
          found = ap (λ (fs : List (Text × FunctionDecl)). find_text fs x) both.functions ∙ found;
          generic = generic;
          copy = record {
            bindings = b;
            named = refl;
            concrete = refl;
            params = copy_params-map b f.params entered;
            result = refl;
            body = processes.body copy.body (env_of params.0 []) pushed ∙ same;
          };
        } in
        let third =
          finished-IsInstanced m r.1 ensured.instances copy done kept.instances refl second.kept
            ready both in
        elim (Option-cases (find_text m.cache key)) [
          | inr (known, e) ↦
              rw (e, instantiate)
                (
                  IsInstanced-refl m,
                  λ h. find_text-All (λ (y : Text). In y (names m.instances)) m.cache key known h e,
                )
          | inl e ↦
              rw (e, instantiate)
                (third, λ h. finished-In r.1 ensured.instances copy done refl second.kept)
        ]

    renamed_callee :
        (x : Text) (callee : Expr) (xs : List Text)
        → In x xs
        → (rename_callee x callee ≡ callee) ⊎ In (plain_callee (rename_callee x callee)) xs
    unfolding rename_callee plain_callee
    renamed_callee x (name sp y) xs h = inr h
    renamed_callee x (literal sp v) xs h = inl refl
    renamed_callee x (unary sp op e w q) xs h = inl refl
    renamed_callee x (binary sp l op r) xs h = inl refl
    renamed_callee x (call sp e es info) xs h = inl refl
    renamed_callee x (cast sp e t) xs h = inl refl
    renamed_callee x (index sp o i info) xs h = inl refl
    renamed_callee x (member sp o y info) xs h = inl refl
    renamed_callee x (array sp es w) xs h = inl refl

    call_instance-IsCall :
        (f : FunctionDecl) (b : Bindings) (callee : Expr) (m : Monomorphizer) (x : Text)
        → find_text m.functions x ≡ some f
        → is_generic f.generic_params ≡ true
        → IsCall callee m (call_instance ensure process f b callee m)
    unfolding call_instance
    call_instance-IsCall f b callee m x found generic =
        let (p, q) = instantiate-IsInstanced f b m x found generic in
        let i = instantiate ensure process f b m in
        let e = IsEnsured-IsInstanced (ensures (substitute (or_void f.return_type) b) i.1) in
        (
          IsInstanced-trans p e,
          bare_callee-rename i.0 callee,
          λ h. renamed_callee i.0 callee _ (In-appended i.0 i.1.instances _ e.kept (q h)),
        )

    -- A call that is refused: only the diagnostics have changed.
    refused-IsCall :
        (callee : Expr) (m n : Monomorphizer) (t : Text)
        → IsInstanced m n
        → IsCall callee m (record { callee = callee; type = t; state = n })
    refused-IsCall callee m n t p = (p, refl, λ h. inl refl)

    then-IsCall :
        (m n : Monomorphizer) (callee : Expr) (c : Called)
        → IsInstanced m n
        → IsCall callee n c
        → IsCall callee m c
    then-IsCall m n callee c p (q, s, r) = (IsInstanced-trans p q, s, λ h. r (p.cached h))

    call_generic-IsCall :
        (f : FunctionDecl) (sp : Span) (callee : Expr) (args : List Text) (m : Monomorphizer)
        → find_text m.functions (plain_callee callee) ≡ some f
        → is_generic f.generic_params ≡ true
        → IsCall callee m (call_generic ensure process f sp callee args m)
    unfolding call_generic
    call_generic-IsCall f sp callee args m found generic =
        let x = plain_callee callee in
        let b = bind_parameters x sp f.generic_params f.params args [] m.diagnostics in
        let bound : Monomorphizer = record m {
          diagnostics = check_bound x sp f.generic_params b.0 b.1;
        } in
        let met : Monomorphizer = record bound {
          diagnostics = check_constraints sp (constraints_of m f.name) b.0 bound.diagnostics;
        } in
        let p : IsInstanced m bound = reported-IsInstanced refl refl refl (
          Appended-trans m.diagnostics b.1 bound.diagnostics
            (bind_parameters-Appended x sp f.generic_params f.params args [] m.diagnostics)
            (check_bound-Appended x sp f.generic_params b.0 b.1)) in
        let q : IsInstanced bound met =
          reported-IsInstanced refl refl refl
            (check_constraints-Appended sp (constraints_of m f.name) b.0 bound.diagnostics) in
        if_both (IsCall callee m) (no_errors bound.diagnostics)
          (if_both (IsCall callee m) (no_errors met.diagnostics)
            (then-IsCall m met callee (call_instance ensure process f b.0 callee met)
              (IsInstanced-trans p q) (call_instance-IsCall f b.0 callee met x found generic))
            (refused-IsCall callee m met (codes "unknown") (IsInstanced-trans p q)))
          (refused-IsCall callee m bound (codes "unknown") p)

    -- What `processCall` does: no instance and no diagnostic is lost, the instances that come are copies
    -- of generic functions, and the callee stays or becomes the name of an instance.
    pub process_call-IsCall :
        (sp : Span) (callee : Expr) (args : List Text) (m : Monomorphizer)
        → IsCall callee m (process_call ensure process sp callee args m)
    unfolding process_call
    process_call-IsCall sp callee args m =
        elim (Option-cases (find_text m.functions (plain_callee callee))) [
          | inl e ↦ rw (e, process_call) (IsInstanced-refl m, refl, λ h. inl refl)
          | inr (f, e) ↦ elim (Bool-cases (is_generic f.generic_params)) [
            | inl g ↦ rw (e, g, process_call) (call_generic-IsCall f sp callee args m e g)
            | inr g ↦ rw (e, g, process_call) (IsInstanced-refl m, refl, λ h. inl refl)
          ]
        ]
