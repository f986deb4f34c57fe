-- ===== src/Generics/Collected.antt =====
-- What the constructor of the class Monomorphizer (Compiler/generics.cpp) collects.
use noe_code.Prelude.{In, ◌≡◌, refl, inl, inr, List, [], ◌∷◌, Text, All, Bool-cases}
use noe_code.Ast.{
  FunctionDecl, TopLevel, function_decl, record_decl, import_decl, module_decl, statement,
}
use noe_code.Generics.State.{
  GenericSyntax, Monomorphizer, is_generic, record_params_of, collect_declarations,
}

-- The functions of the list are declared in the program.
abbrev pub AreFrom : List TopLevel → List (Text × FunctionDecl) → Type 0
AreFrom ts fs = All (λ (p : Text × FunctionDecl). In (function_decl p.1) ts) fs

-- What `collect_declarations` leaves, and where the functions that it enters are from.
pub record IsCollected (ts : List TopLevel) (m n : Monomorphizer) : Type 0 where
  pub cache : n.cache ≡ m.cache
  pub instances : n.instances ≡ m.instances
  pub reports : n.diagnostics ≡ m.diagnostics
  pub functions : AreFrom ts m.functions → AreFrom ts n.functions

pub collect_declarations-IsCollected :
    (all : List TopLevel) (syntax : GenericSyntax) (ts : List TopLevel) (m : Monomorphizer)
    → ((t : TopLevel) → In t ts → In t all)
    → IsCollected all m (collect_declarations syntax ts m)
unfolding collect_declarations
collect_declarations-IsCollected all syntax [] m h = record {
  cache = refl;
  instances = refl;
  reports = refl;
  functions = λ k. k;
}
collect_declarations-IsCollected all syntax (function_decl f ∷ ts) m h =
    let r =
      collect_declarations-IsCollected all syntax ts
        (record m { functions = (f.name, f) ∷ m.functions }) (λ t k. h t (inr k)) in
    record {
      cache = r.cache;
      instances = r.instances;
      reports = r.reports;
      functions = λ k. r.functions (h (function_decl f) (inl refl), k);
    }
collect_declarations-IsCollected all syntax (record_decl d ∷ ts) m h =
    elim (Bool-cases (is_generic (record_params_of syntax d))) [
      | inl e ↦
          let ps = record_params_of syntax d in
          let r =
            collect_declarations-IsCollected all syntax ts
              (record m { templates = (d.name, record { params = ps; decl = d }) ∷ m.templates })
              (λ t k. h t (inr k)) in
          rw (e, collect_declarations)
            (record {
              cache = r.cache;
              instances = r.instances;
              reports = r.reports;
              functions = r.functions;
            })
      | inr e ↦
          rw (e, collect_declarations)
            (collect_declarations-IsCollected all syntax ts m (λ t k. h t (inr k)))
    ]
collect_declarations-IsCollected all syntax (import_decl sp x ∷ ts) m h =
    collect_declarations-IsCollected all syntax ts m (λ t k. h t (inr k))
collect_declarations-IsCollected all syntax (module_decl sp x ∷ ts) m h =
    collect_declarations-IsCollected all syntax ts m (λ t k. h t (inr k))
collect_declarations-IsCollected all syntax (statement s ∷ ts) m h =
    collect_declarations-IsCollected all syntax ts m (λ t k. h t (inr k))
