-- ===== src/Generics/Instantiated.antt =====
-- What a call of a generic function (Compiler/generics.cpp) does to the instances.
use noe_code.Prelude.{
  In, ◌≡◌, ◌⊎◌, refl, sym, ap, subst, ◌∙◌, inl, inr, true, false, List, [], ◌∷◌, ◌++◌, some, Text,
  find_text, map, All, All-append, All-mono,
}
use mathlib.Core.List.{append-nil}
use noe_code.Ast.{Expr, Stmts, Parameter, FunctionDecl}
use noe_code.Generics.Bind.{Bindings}
use noe_code.Generics.Instances.{name_suffix}
use noe_code.Generics.Bare.{bare_callee, bare_stmts}
use noe_code.Generics.State.{Monomorphizer, is_generic}
use noe_code.Generics.Calls.{Env, Called, plain_callee, substitute_annotation, substitute_stmts}
use noe_code.Generics.Ensured.{Appended, Appended-trans, IsEnsured, IsEnsured-refl}

abbrev pub names : List FunctionDecl → List Text
names fs = map (λ (f : FunctionDecl). f.name) fs

-- A parameter of a copy.
abbrev pub copied : Bindings → Parameter → Parameter
copied b p = record p { annotation = substitute_annotation b p.annotation }

-- `g` is a copy of `f` in which the parameters of `f` are what `bindings` says: it is not generic, and
-- its parameters, its result and its body are those of `f` with the types put in, but for the names
-- of the callees in the body.
pub record IsCopy (f g : FunctionDecl) : Type 0 where
  pub bindings : Bindings
  pub named : g.name ≡ f.name ++ name_suffix f.generic_params bindings
  pub concrete : is_generic g.generic_params ≡ false
  pub params : g.params ≡ map (copied bindings) f.params
  pub result : g.return_type ≡ substitute_annotation bindings f.return_type
  pub body : bare_stmts g.body ≡ bare_stmts (substitute_stmts bindings f.body)

-- A copy of a generic function of the list.
pub record IsInstanceOf (functions : List (Text × FunctionDecl)) (g : FunctionDecl) : Type 0 where
  pub template : FunctionDecl
  pub called : Text
  pub found : find_text functions called ≡ some template
  pub generic : is_generic template.generic_params ≡ true
  pub copy : IsCopy template g

-- Every instance is a copy of a generic function.
abbrev pub AreInstances : Monomorphizer → Type 0
AreInstances m = All (IsInstanceOf m.functions) m.instances

-- Every name that the cache gives is that of an instance.
abbrev pub IsCached : Monomorphizer → Type 0
IsCached m = All (λ (p : Text × Text). In p.1 (names m.instances)) m.cache

-- The functions stay, and the instances are the same with more behind them, which are copies of
-- generic functions if those before are; every name in the cache is that of an instance if each was,
-- and no diagnostic is lost.
pub record IsInstanced (m n : Monomorphizer) : Type 0 where
  pub functions : n.functions ≡ m.functions
  pub kept : Appended m.instances n.instances
  pub copies : AreInstances m → AreInstances n
  pub cached : IsCached m → IsCached n
  pub reports : Appended m.diagnostics n.diagnostics

pub IsInstanced-trans :
    {m n k : Monomorphizer} → IsInstanced m n → IsInstanced n k → IsInstanced m k
IsInstanced-trans {m} {n} {k} p q = record {
  functions = q.functions ∙ p.functions;
  kept = Appended-trans m.instances n.instances k.instances p.kept q.kept;
  copies = λ h. q.copies (p.copies h);
  cached = λ h. q.cached (p.cached h);
  reports = Appended-trans m.diagnostics n.diagnostics k.diagnostics p.reports q.reports;
}

-- The same functions, instances and cache, and more diagnostics.
pub reported-IsInstanced :
    {m n : Monomorphizer}
    → n.functions ≡ m.functions
    → n.cache ≡ m.cache
    → n.instances ≡ m.instances
    → Appended m.diagnostics n.diagnostics
    → IsInstanced m n
reported-IsInstanced {m} {n} f c i r = record {
  functions = f;
  kept = ([], i ∙ sym (append-nil m.instances));
  copies = λ h.
      subst (λ (fs : List (Text × FunctionDecl)). All (IsInstanceOf fs) n.instances) (sym f)
        (subst (λ (gs : List FunctionDecl). All (IsInstanceOf m.functions) gs) (sym i) h);
  cached = λ h.
      subst (λ (fs : List FunctionDecl). All (λ (p : Text × Text). In p.1 (names fs)) n.cache)
        (sym i)
        (subst (λ (l : List (Text × Text)). All (λ (p : Text × Text). In p.1 (names m.instances)) l)
          (sym c) h);
  reports = r;
}

pub IsEnsured-IsInstanced : {m n : Monomorphizer} → IsEnsured m n → IsInstanced m n
IsEnsured-IsInstanced e = reported-IsInstanced e.functions e.cache e.instances e.reports

pub IsInstanced-refl : (m : Monomorphizer) → IsInstanced m m
IsInstanced-refl m = IsEnsured-IsInstanced (IsEnsured-refl m)

-- What a call does: the state, and a callee that is that of the source but for its name, which is
-- that of the source or of an instance.
abbrev pub IsCall : Expr → Monomorphizer → Called → Type 0
IsCall callee m c =
    IsInstanced m c.state
    × (bare_callee c.callee ≡ bare_callee callee)
    × (IsCached m → (c.callee ≡ callee) ⊎ In (plain_callee c.callee) (names c.state.instances))

-- A walk over a body that makes instances, and leaves the body but for the names of callees.
pub record Instances (process : Stmts → Env → Monomorphizer → Stmts × Monomorphizer) : Type 0 where
  pub state : (s : Stmts) (env : Env) (m : Monomorphizer) → IsInstanced m (process s env m).1
  pub body :
      (s : Stmts) (env : Env) (m : Monomorphizer) → bare_stmts (process s env m).0 ≡ bare_stmts s

In-left : (x : Text) (xs zs : List Text) → In x xs → In x (xs ++ zs)
In-left x [] zs h = absurd h
In-left x (y ∷ xs) zs (inl e) = inl e
In-left x (y ∷ xs) zs (inr h) = inr (In-left x xs zs h)

pub In-right : (x : Text) (xs zs : List Text) → In x zs → In x (xs ++ zs)
In-right x [] zs h = h
In-right x (y ∷ xs) zs h = inr (In-right x xs zs h)

pub names-append : (fs gs : List FunctionDecl) → names (fs ++ gs) ≡ names fs ++ names gs
names-append [] gs = refl
names-append (f ∷ fs) gs = ap (λ (l : List Text). f.name ∷ l) (names-append fs gs)

pub In-appended :
    (x : Text) (fs gs : List FunctionDecl) → Appended fs gs → In x (names fs) → In x (names gs)
In-appended x fs gs (zs, e) h =
    subst (In x) (sym (ap names e ∙ names-append fs zs)) (In-left x (names fs) (names zs) h)

pub In-last :
    (x : Text) (fs : List FunctionDecl) (f : FunctionDecl)
    → f.name ≡ x
    → In x (names (fs ++ (f ∷ [])))
In-last x fs f e =
    subst (In x) (sym (names-append fs (f ∷ []))) (In-right x (names fs) (f.name ∷ []) (inl e))

-- An instance that is put behind the others, and its name in the cache.
pub pushed-IsInstanced :
    (m n : Monomorphizer) (key : Text) (g : FunctionDecl)
    → IsInstanceOf m.functions g
    → n.functions ≡ m.functions
    → n.cache ≡ (key, g.name) ∷ m.cache
    → n.instances ≡ m.instances
    → Appended m.diagnostics n.diagnostics
    → IsInstanced m (record n { instances = n.instances ++ (g ∷ []) })
pushed-IsInstanced m n key g h s c i r =
    let grown : n.instances ++ (g ∷ []) ≡ m.instances ++ (g ∷ []) =
      ap (λ (l : List FunctionDecl). l ++ (g ∷ [])) i in
    let all : All (IsInstanceOf m.functions) m.instances
        → All (IsInstanceOf m.functions) (n.instances ++ (g ∷ [])) =
      λ k.
        subst (λ (l : List FunctionDecl). All (IsInstanceOf m.functions) l) (sym grown)
          (All-append (IsInstanceOf m.functions) m.instances (g ∷ []) k (h, tt)) in
    record {
      functions = s;
      kept = (g ∷ [], grown);
      copies = λ k.
          subst
            (λ (fs : List (Text × FunctionDecl)). All (IsInstanceOf fs) (n.instances ++ (g ∷ [])))
            (sym s) (all k);
      cached = λ k.
          subst
            (λ (l : List (Text × Text)).
              All (λ (p : Text × Text). In p.1 (names (n.instances ++ (g ∷ [])))) l)
            (sym c)
            (
              In-last g.name n.instances g refl,
              All-mono m.cache
                  (λ p q. In-appended p.1 m.instances (n.instances ++ (g ∷ [])) (g ∷ [], grown) q)
                  k,
            );
      reports = r;
    }
