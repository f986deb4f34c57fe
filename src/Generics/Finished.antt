-- ===== src/Generics/Finished.antt =====
-- The instance whose body has been walked through takes its place among the instances
-- (`instantiate`, Compiler/generics.cpp).
use noe_code.Prelude.{
  In, ℕ, zero, suc, ◌≡◌, refl, sym, ap, subst, ◌∙◌, List, [], ◌∷◌, ◌++◌, Text, length, set, All,
}
use mathlib.Core.List.{append_assoc}
use noe_code.Ast.{FunctionDecl}
use noe_code.Generics.State.{Monomorphizer}
use noe_code.Generics.Ensured.{Appended}
use noe_code.Generics.Instantiated.{
  names, names-append, In-appended, In-last, IsInstanceOf, IsInstanced,
}

-- What is behind `fs` is replaced.
set_behind :
    (fs zs : List FunctionDecl) (f d : FunctionDecl)
    → set (fs ++ (f ∷ zs)) (length fs) d ≡ fs ++ (d ∷ zs)
set_behind [] zs f d = refl
set_behind (g ∷ fs) zs f d = ap (λ (l : List FunctionDecl). g ∷ l) (set_behind fs zs f d)

All-set :
    (P : FunctionDecl → Type 0) (gs : List FunctionDecl) (n : ℕ) (d : FunctionDecl)
    → P d
    → All P gs
    → All P (set gs n d)
All-set P [] n d h k = tt
All-set P (g ∷ gs) zero d h (p, k) = (h, k)
All-set P (g ∷ gs) (suc n) d h (p, k) = (p, All-set P gs n d h k)

replaced_behind :
    (fs gs zs : List FunctionDecl) (f d : FunctionDecl)
    → gs ≡ (fs ++ (f ∷ [])) ++ zs
    → set gs (length fs) d ≡ fs ++ (d ∷ zs)
replaced_behind fs gs zs f d e =
    ap (λ (l : List FunctionDecl). set l (length fs) d) (e ∙ append_assoc fs (f ∷ []) zs)
    ∙ set_behind fs zs f d

names_replaced :
    (fs gs zs : List FunctionDecl) (f d : FunctionDecl)
    → f.name ≡ d.name
    → gs ≡ (fs ++ (f ∷ [])) ++ zs
    → names (set gs (length fs) d) ≡ names gs
names_replaced fs gs zs f d e q =
    ap names (replaced_behind fs gs zs f d q)
    ∙ (names-append fs (d ∷ zs)
        ∙ (ap (λ (x : Text). names fs ++ (x ∷ names zs)) (sym e)
            ∙ (sym (names-append fs (f ∷ zs))
                ∙ ap names (sym (append_assoc fs (f ∷ []) zs) ∙ sym q))))

-- An instance that takes the place of the one of its name that was put behind those of `m`.
pub finished-IsInstanced :
    (m n : Monomorphizer) (fs : List FunctionDecl) (f d : FunctionDecl)
    → fs ≡ m.instances
    → f.name ≡ d.name
    → Appended (fs ++ (f ∷ [])) n.instances
    → IsInstanceOf n.functions d
    → IsInstanced m n
    → IsInstanced m (record n { instances = set n.instances (length fs) d })
finished-IsInstanced m n fs f d s e (zs, q) h p = record {
  functions = p.functions;
  kept = (
    d ∷ zs,
    replaced_behind fs n.instances zs f d q ∙ ap (λ (l : List FunctionDecl). l ++ (d ∷ zs)) s,
  );
  copies = λ k. All-set (IsInstanceOf n.functions) n.instances (length fs) d h (p.copies k);
  cached = λ k.
      subst (λ (l : List Text). All (λ (c : Text × Text). In c.1 l) n.cache)
        (sym (names_replaced fs n.instances zs f d e q)) (p.cached k);
  reports = p.reports;
}

-- And it is among the instances then.
pub finished-In :
    (n : Monomorphizer) (fs : List FunctionDecl) (f d : FunctionDecl)
    → f.name ≡ d.name
    → Appended (fs ++ (f ∷ [])) n.instances
    → In f.name (names (set n.instances (length fs) d))
finished-In n fs f d e (zs, q) =
    subst (In f.name) (sym (names_replaced fs n.instances zs f d e q))
      (In-appended f.name (fs ++ (f ∷ [])) n.instances (zs, q) (In-last f.name fs f refl))
