-- ===== src/TypeChecker/Steps.antt =====
-- The state before and after a statement (Compiler/type_checker.cpp).
use noe_code.Prelude.{
  ◌≡◌, refl, sym, ap, subst, ◌∙◌, inl, inr, Bool, List, [], ◌∷◌, ◌++◌, none, some, Text, text_eq,
  text_eq→eq, find_text, length, Bool-cases, Option-cases,
}
use mathlib.Core.List.{append-nil, append_assoc}
use noe_code.Types.{Ty}
use noe_code.Ast.{Span, Diagnostic}
use noe_code.TypeChecker.State.{
  Checker, FunctionType, define, add_innermost, find_innermost, tail_of, push_scope, pop_scope,
}
use noe_code.TypeChecker.Visits.{Visit, report-Visit}

-- From `a` to `b` the scopes around the innermost one are the same, the names of the innermost one
-- keep their types, and so do the functions that have a signature; diagnostics are only added, and
-- the rest but `out_of_range` is as it was.
pub record Step (a b : Checker) : Type 0 where
  pub depth : length b.scopes ≡ length a.scopes
  pub outer : tail_of b.scopes ≡ tail_of a.scopes
  pub outer_consts : tail_of b.const_scopes ≡ tail_of a.const_scopes
  pub inner :
      (x : Text) (t : Ty) → find_innermost a.scopes x ≡ some t → find_innermost b.scopes x ≡ some t
  pub signatures :
      (x : Text) (sig : FunctionType)
      → find_text a.functions x ≡ some sig
      → find_text b.functions x ≡ some sig
  pub records : b.records ≡ a.records
  pub generics : b.generics ≡ a.generics
  pub current_return : b.current_return ≡ a.current_return
  pub inside_function : b.inside_function ≡ a.inside_function
  pub reports : List Diagnostic
  pub appended : b.diagnostics ≡ a.diagnostics ++ reports

pub then-Step : {a b c : Checker} → Step a b → Step b c → Step a c
then-Step {a} s t = record {
  depth = t.depth ∙ s.depth;
  outer = t.outer ∙ s.outer;
  outer_consts = t.outer_consts ∙ s.outer_consts;
  inner = λ x u h. t.inner x u (s.inner x u h);
  signatures = λ x g h. t.signatures x g (s.signatures x g h);
  records = t.records ∙ s.records;
  generics = t.generics ∙ s.generics;
  current_return = t.current_return ∙ s.current_return;
  inside_function = t.inside_function ∙ s.inside_function;
  reports = s.reports ++ t.reports;
  appended =
      t.appended
      ∙ (ap (λ (l : List Diagnostic). l ++ t.reports) s.appended
          ∙ append_assoc a.diagnostics s.reports t.reports);
}

-- A state with other diagnostics only.
reported-Step :
    (a : Checker) (ds : List Diagnostic) → Step a (record a { diagnostics = a.diagnostics ++ ds })
reported-Step a ds = record {
  depth = refl;
  outer = refl;
  outer_consts = refl;
  inner = λ x t h. h;
  signatures = λ x g h. h;
  records = refl;
  generics = refl;
  current_return = refl;
  inside_function = refl;
  reports = ds;
  appended = refl;
}

pub visit-Step : {P : Type 0} {a b : Checker} → Visit a b P → Step a b
visit-Step {P} {a} {b} v = subst (λ s. Step a s) (sym v.state) (reported-Step a v.reports)

pub no-Step : (a : Checker) → Step a a
no-Step a =
    subst (λ s. Step a s)
      (ap (λ (l : List Diagnostic). record a { diagnostics = l }) (append-nil a.diagnostics))
      (reported-Step a [])

pub none-some {ℓ} : {A : Type ℓ} {a : A} → none ≡ some a → ⊥
none-some h = cc

-- The innermost scope with one name more.
module _ {ℓ} {V : Type ℓ} where
  tail_of-add_innermost :
      (x : Text) (v : V) (s : List (List (Text × V))) → tail_of (add_innermost x v s) ≡ tail_of s
  unfolding add_innermost
  tail_of-add_innermost x v [] = refl
  tail_of-add_innermost x v (scope ∷ rest) = refl

  length-add_innermost :
      (x : Text) (v : V) (s : List (List (Text × V))) → length (add_innermost x v s) ≡ length s
  unfolding add_innermost
  length-add_innermost x v [] = refl
  length-add_innermost x v (scope ∷ rest) = refl

  find_innermost-add_innermost :
      (x : Text) (v : V) (s : List (List (Text × V))) (y : Text) (u : V)
      → find_innermost s x ≡ none
      → find_innermost s y ≡ some u
      → find_innermost (add_innermost x v s) y ≡ some u
  unfolding add_innermost find_innermost
  find_innermost-add_innermost x v [] y u e h = h
  find_innermost-add_innermost x v (scope ∷ rest) y u e h = elim (Bool-cases (text_eq x y)) [
    | inl f ↦ absurd (none-some (sym e ∙ (ap (find_text scope) (text_eq→eq x y f) ∙ h)))
    | inr f ↦ rw (f, find_text) h
  ]

pub define-Step :
    (x : Text) (t : Ty) (is_const : Bool) (sp : Span) (c : Checker)
    → Step c (define x t is_const sp c)
unfolding define
define-Step x t is_const sp c = elim (Option-cases (find_innermost c.scopes x)) [
  | inr (u, e) ↦ rw (e, define) (visit-Step (report-Visit {P = Unit} _ _ _ _ c))
  | inl e ↦
      rw (e, define)
        (record {
          depth = length-add_innermost x t c.scopes;
          outer = tail_of-add_innermost x t c.scopes;
          outer_consts = tail_of-add_innermost x is_const c.const_scopes;
          inner = λ y u h. find_innermost-add_innermost x t c.scopes y u e h;
          signatures = λ y g h. h;
          records = refl;
          generics = refl;
          current_return = refl;
          inside_function = refl;
          reports = [];
          appended = sym (append-nil c.diagnostics);
        })
]

-- A scope that is entered and left again.
pub pop_scope-Step : (a b : Checker) → Step (push_scope a) b → Step a (pop_scope b)
unfolding push_scope pop_scope
pop_scope-Step a b s = record {
  depth = ap length s.outer;
  outer = ap tail_of s.outer;
  outer_consts = ap tail_of s.outer_consts;
  inner = λ x t h. subst (λ l. find_innermost l x ≡ some t) (sym s.outer) h;
  signatures = s.signatures;
  records = s.records;
  generics = s.generics;
  current_return = s.current_return;
  inside_function = s.inside_function;
  reports = s.reports;
  appended = s.appended;
}
