-- ===== src/Generics/Reported.antt =====
-- The reports of a generic call (Compiler/generics.cpp) are put behind the diagnostics.
use noe_code.Prelude.{
  refl, inl, inr, Bool, List, [], ◌∷◌, ◌++◌, Text, find_text, if_both, Option-cases, if◌then◌else◌,
}
use noe_code.Ast.{Span, Diagnostic, Parameter}
use noe_code.Diagnostics.{error}
use noe_code.Generics.Bind.{Bindings, bind, capability}
use noe_code.Generics.Calls.{
  bind_parameters, is_bound, check_bound, check_requirements, check_constraints,
}
use noe_code.Generics.Ensured.{Appended, Appended-refl, Appended-trans}

-- A report that is made unless a test holds.
Appended-unless :
    (test : Bool) (items : List Diagnostic) (d : Diagnostic)
    → Appended items (if test then items else items ++ (d ∷ []))
Appended-unless test items d = if_both (Appended items) test (Appended-refl items) (d ∷ [], refl)

pub bind_parameters-Appended :
    (f : Text) (sp : Span) (gps : List Text) (ps : List Parameter) (args : List Text) (b : Bindings)
    (items : List Diagnostic)
    → Appended items (bind_parameters f sp gps ps args b items).1
unfolding bind_parameters error
bind_parameters-Appended f sp gps [] args b items = Appended-refl items
bind_parameters-Appended f sp gps (p ∷ ps) [] b items = Appended-refl items
bind_parameters-Appended f sp gps (p ∷ ps) (a ∷ args) b items = elim (Option-cases p.annotation) [
  | inl e ↦ rw (e, bind_parameters) (bind_parameters-Appended f sp gps ps args b items)
  | inr (t, e) ↦
      rw (e, bind_parameters)
        (Appended-trans items _ _ (Appended-unless (bind t a gps b).0 items _)
          (bind_parameters-Appended f sp gps ps args (bind t a gps b).1 _))
]

pub check_bound-Appended :
    (f : Text) (sp : Span) (gps : List Text) (b : Bindings) (items : List Diagnostic)
    → Appended items (check_bound f sp gps b items)
unfolding check_bound error
check_bound-Appended f sp [] b items = Appended-refl items
check_bound-Appended f sp (gp ∷ gps) b items =
    Appended-trans items _ _ (Appended-unless (is_bound b gp) items _)
      (check_bound-Appended f sp gps b _)

check_requirements-Appended :
    (sp : Span) (gp t : Text) (reqs : List Text) (items : List Diagnostic)
    → Appended items (check_requirements sp gp t reqs items)
unfolding check_requirements error
check_requirements-Appended sp gp t [] items = Appended-refl items
check_requirements-Appended sp gp t (req ∷ reqs) items =
    Appended-trans items _ _ (Appended-unless (capability t req) items _)
      (check_requirements-Appended sp gp t reqs _)

pub check_constraints-Appended :
    (sp : Span) (cs : List (Text × List Text)) (b : Bindings) (items : List Diagnostic)
    → Appended items (check_constraints sp cs b items)
unfolding check_constraints
check_constraints-Appended sp [] b items = Appended-refl items
check_constraints-Appended sp ((gp, reqs) ∷ cs) b items = elim (Option-cases (find_text b gp)) [
  | inl e ↦ rw (e, check_constraints) (check_constraints-Appended sp cs b items)
  | inr (t, e) ↦
      rw (e, check_constraints)
        (Appended-trans items _ _ (check_requirements-Appended sp gp t reqs items)
          (check_constraints-Appended sp cs b (check_requirements sp gp t reqs items)))
]
