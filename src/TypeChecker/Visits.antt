-- ===== src/TypeChecker/Visits.antt =====
-- The state before and after a visit of an expression (Compiler/type_checker.cpp).
use noe_code.Prelude.{◌≡◌, refl, sym, ap, subst, ◌∙◌, Bool, true, false, List, [], ◌∷◌, ◌++◌, Text}
use mathlib.Core.List.{append-nil, append_assoc}
use noe_code.Ast.{Span, Diagnostic}
use noe_code.Diagnostics.{error}
use noe_code.TypeChecker.State.{Checker, report, report_if}
use noe_code.TypeChecker.Known.{Names, names_of}

-- From `a` to `b` only diagnostics are added, and `P` holds unless one was.
pub record Visit (a b : Checker) (P : Type 0) : Type 0 where
  pub reports : List Diagnostic
  pub state : b ≡ record a { diagnostics = a.diagnostics ++ reports }
  pub sound : reports ≡ [] → P

pub stay : {P : Type 0} (a : Checker) → P → Visit a a P
stay a p = record {
  reports = [];
  state =
      ap (λ (l : List Diagnostic). record a { diagnostics = l }) (sym (append-nil a.diagnostics));
  sound = λ e. p;
}

pub append_empty : (xs ys : List Diagnostic) → xs ++ ys ≡ [] → (xs ≡ []) × (ys ≡ [])
append_empty [] ys e = (refl, e)
append_empty (x ∷ xs) ys e = cc

pub both : {P Q : Type 0} {a b c : Checker} → Visit a b P → Visit b c Q → Visit a c (P × Q)
both {P} {Q} {a} {b} {c} p q = record {
  reports = p.reports ++ q.reports;
  state =
      q.state
      ∙ (ap (λ (s : Checker). record s { diagnostics = s.diagnostics ++ q.reports }) p.state
          ∙ ap (λ (l : List Diagnostic). record a { diagnostics = l })
              (append_assoc a.diagnostics p.reports q.reports));
  sound = λ e. (
    p.sound (append_empty p.reports q.reports e).0,
    q.sound (append_empty p.reports q.reports e).1,
  );
}

pub weaken : {P Q : Type 0} {a b : Checker} → (P → Q) → Visit a b P → Visit a b Q
weaken f p = record { reports = p.reports; state = p.state; sound = λ e. f (p.sound e) }

pub Visit-names : {P : Type 0} {a b : Checker} → Visit a b P → names_of b ≡ names_of a
Visit-names p = ap (λ (s : Checker). names_of s) p.state

-- One visit and then another, whose result is on the names that the first has left as they were.
pub then_in :
    {P : Type 0} {a b c : Checker} (Q : Names → Type 0)
    → Visit a b P
    → Visit b c (Q (names_of b))
    → Visit a c (P × Q (names_of a))
then_in Q p q = both p (weaken (subst Q (Visit-names p)) q)

pub report-Visit :
    {P : Type 0} (code : Text) (sp : Span) (message help : Text) (a : Checker)
    → Visit a (report code sp message help a) P
unfolding report error
report-Visit code sp message help a = record { reports = _ ∷ []; state = refl; sound = λ e. cc }

pub report_if-Visit :
    (test : Bool) (code : Text) (sp : Span) (message help : Text) (a : Checker)
    → Visit a (report_if test code sp message help a) (test ≡ false)
unfolding report_if
report_if-Visit true code sp message help a = report-Visit code sp message help a
report_if-Visit false code sp message help a = stay a refl
