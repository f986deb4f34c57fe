-- ===== src/Lifetime/Returned.antt =====
-- Functions that return the address of a local (`checkReturn`, Compiler/lifetime.cpp).
use noe_code.Prelude.{
  ℕ, ◌≡◌, refl, ap, ◌∙◌, Bool, true, false, List, [], ◌∷◌, ◌++◌, Option, some, Text, find_text,
  Option-cases, inl, inr, if◌then◌else◌,
}
use noe_code.Ast.{
  TokenKind, Span, Diagnostic, Expr, name, unary, Stmts, no_stmts, more_stmts, let_stmt,
  return_stmt, FunctionDecl, TopLevel, function_decl, record_decl, import_decl, module_decl,
}
use noe_code.Diagnostics.{error}
use noe_code.Lifetime.Sets.{borrow_type}
use noe_code.Lifetime.Summary.{SummaryMap}
use noe_code.Lifetime.Functions.{build_summaries}
use noe_code.Lifetime.Inspector.{
  BorrowInfo, Inspector, report, report_if, source_of, of_variable, borrow_of_address, borrow_of,
  expression, assign_borrow,
}
use noe_code.Lifetime.Scopes.{
  report_return, report_returned, check_return, declare, statement, statements,
}
use noe_code.Lifetime.Check.{
  start_inspector, enter_params, inspect, inspect_all, no_errors, check_borrows,
}
use noe_code.Lifetime.Reports.{Grows, expression-Keeps}
use noe_code.Lifetime.Acceptance.{statements-Grows, inspect_all_appends}
use noe_code.Lifetime.Declared.{IsOutermost, IsOutermost-put_self, AreUndeclared, statements-keeps}

-- The statements of the first, and then those of the second.
abbrev pub join : Stmts → Stmts → Stmts
join no_stmts ts = ts
join (more_stmts s ss) ts = more_stmts s (join ss ts)

-- `&x`
abbrev pub address_of : Span → Span → Text → ℕ → Bool → Expr
address_of sa sn x w v = unary sa TokenKind.ampersand (name sn x) w v

refused-append : (xs ys : List Diagnostic) → no_errors xs ≡ false → no_errors (xs ++ ys) ≡ false
refused-append [] ys h = cc
refused-append (x ∷ xs) ys h = refl

refused-last : (xs : List Diagnostic) (d : Diagnostic) → no_errors (xs ++ (d ∷ [])) ≡ false
refused-last [] d = refl
refused-last (x ∷ xs) d = refl

refused-Grows :
    {s s' : Inspector}
    → Grows s s'
    → no_errors s.diagnostics ≡ false
    → no_errors s'.diagnostics ≡ false
refused-Grows {s} {s'} g h =
    ap (λ (l : List Diagnostic). no_errors l) g.appended ∙ refused-append s.diagnostics g.reports h

module _ (summaries : SummaryMap) where
  statements-join :
      (b : Bool) (ss ts : Stmts) (depth : ℕ) (s : Inspector)
      → statements summaries b (join ss ts) depth s
        ≡ statements summaries b ts depth (statements summaries b ss depth s)
  unfolding statements
  statements-join b no_stmts ts depth s = refl
  statements-join b (more_stmts t ss) ts depth s =
      statements-join b ss ts depth (statement summaries b t depth s)

  -- The address of a variable is a borrow that is no parameter's.
  borrow_of_local :
      (s : Inspector) (sa sn : Span) (x : Text) (w : ℕ) (v : Bool) (d : ℕ)
      → find_text s.declared_depth x ≡ some d
      → (i : BorrowInfo) × (borrow_of summaries s (address_of sa sn x w v) ≡ some i)
        × (i.parameter ≡ false)
  unfolding borrow_of borrow_of_address source_of of_variable
  borrow_of_local s sa sn x w v d h = elim (Option-cases (find_text s.parameters x)) [
    | inl e ↦ rw (h, borrow_of, borrow_of_address) (rw e (_, refl, rw (e, of_variable) refl))
    | inr (i, e) ↦ rw (h, borrow_of, borrow_of_address) (rw e (_, refl, rw (e, of_variable) refl))
  ]

  report_return-refuses :
      (sp : Span) (o : Option BorrowInfo) (i : BorrowInfo) (s : Inspector)
      → o ≡ some i
      → i.parameter ≡ false
      → no_errors (report_return sp o s).diagnostics ≡ false
  unfolding report_return report_if report error
  report_return-refuses sp o i s e p =
      rw (e, report_return) (rw (p, report_if) (refused-last s.diagnostics _))

  check_return-refuses :
      (sp sa sn : Span) (x : Text) (w : ℕ) (v : Bool) (s : Inspector)
      → IsOutermost x s.declared_depth
      → no_errors (check_return summaries true sp (some (address_of sa sn x w v)) s).diagnostics
        ≡ false
  unfolding check_return report_returned
  check_return-refuses sp sa sn x w v s o =
      let s' = expression summaries (address_of sa sn x w v) s in
      let kept = (expression-Keeps summaries (address_of sa sn x w v) s).declared in
      let (i, e, p) =
        borrow_of_local s' sa sn x w v 0
          (ap (λ (m : List (Text × ℕ)). find_text m x) kept ∙ o.found) in
      report_return-refuses sp (borrow_of summaries s' (address_of sa sn x w v)) i s' e p

  module _ (pre mid rest : Stmts) (sl sr sa sn : Span) (c : Bool) (x : Text) (t : Option Text)
      (e : Expr) (w : ℕ) (v : Bool) where
    abbrev ending : Stmts
    ending = more_stmts (return_stmt sr (some (address_of sa sn x w v))) rest

    abbrev whole : Stmts
    whole = join pre (more_stmts (let_stmt sl c x t e) (join mid ending))

    body-refused :
        (s : Inspector)
        → AreUndeclared x mid
        → no_errors (statements summaries true whole 0 s).diagnostics ≡ false
    unfolding statements statement declare assign_borrow
    body-refused s h =
        let before = statements summaries true pre 0 s in
        let declared = statement summaries true (let_stmt sl c x t e) 0 before in
        let first : IsOutermost x declared.declared_depth = IsOutermost-put_self _ x in
        let after = statements summaries true mid 0 declared in
        let reported =
          check_return-refuses sr sa sn x w v after
            (statements-keeps summaries true x mid 0 declared h first) in
        ap (λ (k : Inspector). no_errors k.diagnostics)
          (statements-join true pre (more_stmts (let_stmt sl c x t e) (join mid ending)) 0 s
            ∙ statements-join true mid ending 0 declared)
        ∙ refused-Grows
            (statements-Grows summaries true rest 0
              (check_return summaries true sr (some (address_of sa sn x w v)) after))
            reported

  inspect_all-refused :
      (ds : List TopLevel) (items : List Diagnostic)
      → no_errors items ≡ false
      → no_errors (inspect_all summaries ds items) ≡ false
  inspect_all-refused ds items h =
      let (more, e) = inspect_all_appends summaries ds items in
      ap (λ (l : List Diagnostic). no_errors l) e ∙ refused-append items more h

  -- A function that is refused whatever came before it refuses every program that has it.
  program-refused :
      (before after : List TopLevel) (f : FunctionDecl) (items : List Diagnostic)
      → f.is_extern ≡ false
      → ((l : List Diagnostic) → no_errors (inspect summaries f l) ≡ false)
      → no_errors (inspect_all summaries (before ++ (function_decl f ∷ after)) items) ≡ false
  unfolding inspect_all
  program-refused [] after f items x h =
      inspect_all-refused after (if f.is_extern then items else inspect summaries f items)
        (ap (λ (b : Bool). no_errors (if b then items else inspect summaries f items)) x ∙ h items)
  program-refused (function_decl g ∷ before) after f items x h =
      program-refused before after f _ x h
  program-refused (record_decl r ∷ before) after f items x h =
      program-refused before after f items x h
  program-refused (import_decl sp p ∷ before) after f items x h =
      program-refused before after f items x h
  program-refused (module_decl sp p ∷ before) after f items x h =
      program-refused before after f items x h
  program-refused (TopLevel.statement s ∷ before) after f items x h =
      program-refused before after f items x h

-- A program is refused by `BorrowChecker::check` if one of its functions, which is not extern and
-- returns a reference, declares a variable among the statements of its body and returns the address
-- of it by a later one of them, where no statement between the two declares a variable of its name. It
-- does not matter what else the program and the function have, nor what was reported before.
pub check_borrows-refuses_local :
    (before after : List TopLevel) (f : FunctionDecl) (items : List Diagnostic)
    (pre mid rest : Stmts) (sl sr sa sn : Span) (c : Bool) (x : Text) (t : Option Text) (e : Expr)
    (w : ℕ) (v : Bool)
    → f.is_extern ≡ false
    → borrow_type f.return_type ≡ true
    → f.body
      ≡ join pre (
          more_stmts
            (let_stmt sl c x t e)
            (join mid (more_stmts (return_stmt sr (some (address_of sa sn x w v))) rest)))
    → AreUndeclared x mid
    → (check_borrows (before ++ (function_decl f ∷ after)) items).1 ≡ false
unfolding check_borrows inspect
check_borrows-refuses_local before after f items pre mid rest sl sr sa sn c x t e w v n b h k =
    let program = before ++ (function_decl f ∷ after) in
    let summaries = build_summaries program in
    program-refused summaries before after f items n (λ l.
      let s = enter_params f.params 0 (start_inspector l) in
      ap (λ (y : Bool). no_errors (statements summaries y f.body 0 s).diagnostics) b
      ∙ (ap (λ (ss : Stmts). no_errors (statements summaries true ss 0 s).diagnostics) h
          ∙ body-refused summaries pre mid rest sl sr sa sn c x t e w v s k))
