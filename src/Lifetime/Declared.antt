-- ===== src/Lifetime/Declared.antt =====
-- A variable that a function declares in its outermost scope stays declared as long as no statement
-- declares another variable of its name (Compiler/lifetime.cpp).
use noe_code.Prelude.{
  ℕ, suc, ◌≡◌, refl, sym, subst, ◌∙◌, Bool, true, false, List, [], ◌∷◌, ◌++◌, some, Text, codes,
  text_eq, text_eq_refl, find_text, erase_text, arith, All, Bool-cases, inl, inr, if_cases, ◌==◌,
  find_text-erase_text_ne,
}
use noe_code.Ast.{
  Stmt, Stmts, no_stmts, more_stmts, OptStmt, no_stmt, some_stmt, expr_stmt, let_stmt, block_stmt,
  if_stmt, while_stmt, return_stmt, throw_stmt, function_stmt, record_stmt, import_stmt,
  module_stmt,
}
use noe_code.Lifetime.Sets.{put_text}
use noe_code.Lifetime.Summary.{SummaryMap}
use noe_code.Lifetime.Inspector.{Inspector, assign_borrow}
use noe_code.Lifetime.Scopes.{
  locals_at, fields_of, erase_fields, erase_local, erase_locals, mark, expire_scope, declare,
  statement, statements, branch,
}
use noe_code.Lifetime.Reports.{Keeps, expression-Keeps}
use noe_code.Lifetime.Acceptance.{check_return-Keeps, expression_statement-Keeps}

-- The name is declared at the depth 0, and at no other depth.
pub record IsOutermost (x : Text) (m : List (Text × ℕ)) : Type 0 where
  pub found : find_text m x ≡ some 0
  pub only : All (λ (p : Text × ℕ). text_eq p.0 x ≡ true → p.1 ≡ 0) m

true-false : {b : Bool} → b ≡ true → b ≡ false → ⊥
true-false e f = cc

All-erase_text :
    (P : Text × ℕ → Type 0) (m : List (Text × ℕ)) (y : Text) → All P m → All P (erase_text m y)
unfolding erase_text
All-erase_text P [] y h = tt
All-erase_text P ((z, n) ∷ m) y (h, hs) = elim (Bool-cases (text_eq z y)) [
  | inl e ↦ rw (e, erase_text) (All-erase_text P m y hs)
  | inr e ↦ rw (e, erase_text) (h, All-erase_text P m y hs)
]

-- What is left without the name has no entry of it.
erased_self :
    (m : List (Text × ℕ)) (x : Text)
    → All (λ (p : Text × ℕ). text_eq p.0 x ≡ true → p.1 ≡ 0) (erase_text m x)
unfolding erase_text
erased_self [] x = tt
erased_self ((z, n) ∷ m) x = elim (Bool-cases (text_eq z x)) [
  | inl e ↦ rw (e, erase_text) (erased_self m x)
  | inr e ↦ rw (e, erase_text) (λ f. absurd (true-false f e), erased_self m x)
]

pub IsOutermost-put_self : (m : List (Text × ℕ)) (x : Text) → IsOutermost x (put_text m x 0)
unfolding put_text find_text
IsOutermost-put_self m x = record {
  found = rw (text_eq_refl x) refl;
  only = (λ e. refl, erased_self m x);
}

IsOutermost-erase_text :
    (m : List (Text × ℕ)) (y x : Text)
    → text_eq y x ≡ false
    → IsOutermost x m
    → IsOutermost x (erase_text m y)
IsOutermost-erase_text m y x h o = record {
  found = find_text-erase_text_ne m y x h ∙ o.found;
  only = All-erase_text _ m y o.only;
}

IsOutermost-put_ne :
    (m : List (Text × ℕ)) (y x : Text) (n : ℕ)
    → text_eq y x ≡ false
    → IsOutermost x m
    → IsOutermost x (put_text m y n)
unfolding put_text find_text
IsOutermost-put_ne m y x n h o =
    let rest = IsOutermost-erase_text m y x h o in
    record { found = rw h rest.found; only = (λ e. absurd (true-false e h), rest.only) }

declared-erase_fields :
    (keys : List Text) (s : Inspector) → (erase_fields keys s).declared_depth ≡ s.declared_depth
unfolding erase_fields
declared-erase_fields [] s = refl
declared-erase_fields (key ∷ keys) s = declared-erase_fields keys _

declared-erase_local :
    (y : Text) (s : Inspector) → (erase_local y s).declared_depth ≡ erase_text s.declared_depth y
unfolding erase_local
declared-erase_local y s = declared-erase_fields (fields_of (y ++ codes ".") s.aggregate_borrows) _

-- The names that leave with an inner scope are others.
locals_at-others :
    (depth : ℕ) (m : List (Text × ℕ)) (x : Text)
    → All (λ (p : Text × ℕ). text_eq p.0 x ≡ true → p.1 ≡ 0) m
    → All (λ (y : Text). text_eq y x ≡ false) (locals_at (suc depth) m)
unfolding locals_at
locals_at-others depth [] x h = tt
locals_at-others depth ((y, n) ∷ m) x (h, hs) =
    let rest = locals_at-others depth m x hs in
    if_cases (λ (ys : List Text). All (λ (z : Text). text_eq z x ≡ false) ys) (n == suc depth)
      (λ e. elim (Bool-cases (text_eq y x)) [
        | inl f ↦ absurd (ground (arith, e, h f))
        | inr f ↦ (f, rest)
      ])
      (λ e. rest)

module _ (x : Text) where
  erase_locals-keeps :
      (ys : List Text) (s : Inspector)
      → All (λ (y : Text). text_eq y x ≡ false) ys
      → IsOutermost x s.declared_depth
      → IsOutermost x (erase_locals ys s).declared_depth
  unfolding erase_locals
  erase_locals-keeps [] s h o = o
  erase_locals-keeps (y ∷ ys) s (h, hs) o = erase_locals-keeps ys (erase_local y s) hs (
      subst (IsOutermost x) (sym (declared-erase_local y s))
        (IsOutermost-erase_text s.declared_depth y x h o))

  expire_scope-keeps :
      (depth : ℕ) (s : Inspector)
      → IsOutermost x s.declared_depth
      → IsOutermost x (expire_scope (suc depth) s).declared_depth
  unfolding expire_scope mark
  expire_scope-keeps depth s o =
      erase_locals-keeps (locals_at (suc depth) s.declared_depth) (mark (suc depth) s)
        (locals_at-others depth s.declared_depth x o.only) o

-- No statement declares a variable of the name.
abbrev mutual
  pub IsUndeclared : Text → Stmt → Type 0
  IsUndeclared x (let_stmt sp c y t e) = text_eq y x ≡ false
  IsUndeclared x (block_stmt sp body u) = AreUndeclared x body
  IsUndeclared x (if_stmt sp c t o) = IsUndeclared x t × IsUndeclaredBranch x o
  IsUndeclared x (while_stmt sp c body) = IsUndeclared x body
  IsUndeclared x s = Unit

  pub AreUndeclared : Text → Stmts → Type 0
  AreUndeclared x no_stmts = Unit
  AreUndeclared x (more_stmts s ss) = IsUndeclared x s × AreUndeclared x ss

  pub IsUndeclaredBranch : Text → OptStmt → Type 0
  IsUndeclaredBranch x no_stmt = Unit
  IsUndeclaredBranch x (some_stmt s) = IsUndeclared x s

same_depths :
    (x : Text) {s s' : Inspector}
    → Keeps s s'
    → IsOutermost x s.declared_depth
    → IsOutermost x s'.declared_depth
same_depths x k o = subst (IsOutermost x) (sym k.declared) o

module _ (summaries : SummaryMap) (b : Bool) (x : Text) where
  mutual
    unfolding statement statements branch declare assign_borrow

    statement-keeps :
        (t : Stmt) (depth : ℕ) (s : Inspector)
        → IsUndeclared x t
        → IsOutermost x s.declared_depth
        → IsOutermost x (statement summaries b t depth s).declared_depth
    statement-keeps (let_stmt sp k y type e) depth s h o =
        IsOutermost-put_ne _ y x depth h (same_depths x (expression-Keeps summaries e s) o)
    statement-keeps (expr_stmt sp e) depth s h o =
        same_depths x (expression_statement-Keeps summaries b e s) o
    statement-keeps (return_stmt sp e) depth s h o =
        same_depths x (check_return-Keeps summaries b sp e s) o
    statement-keeps (throw_stmt sp e) depth s h o = same_depths x (expression-Keeps summaries e s) o
    statement-keeps (block_stmt sp body u) depth s h o =
        expire_scope-keeps x depth _ (statements_keep body (suc depth) s h o)
    statement-keeps (if_stmt sp e t c) depth s (h, k) o = expire_scope-keeps x depth _ (
        branch-keeps c (suc depth) _ k (
          expire_scope-keeps x depth _
            (statement-keeps t (suc depth) _ h (same_depths x (expression-Keeps summaries e s) o))))
    statement-keeps (while_stmt sp e body) depth s h o =
        expire_scope-keeps x depth _
          (statement-keeps body (suc depth) _ h (same_depths x (expression-Keeps summaries e s) o))
    statement-keeps (function_stmt f body) depth s h o = o
    statement-keeps (record_stmt r) depth s h o = o
    statement-keeps (import_stmt sp path) depth s h o = o
    statement-keeps (module_stmt sp y) depth s h o = o

    statements_keep :
        (ts : Stmts) (depth : ℕ) (s : Inspector)
        → AreUndeclared x ts
        → IsOutermost x s.declared_depth
        → IsOutermost x (statements summaries b ts depth s).declared_depth
    statements_keep no_stmts depth s h o = o
    statements_keep (more_stmts t ts) depth s (h, k) o =
        statements_keep ts depth _ k (statement-keeps t depth s h o)

    branch-keeps :
        (c : OptStmt) (depth : ℕ) (s : Inspector)
        → IsUndeclaredBranch x c
        → IsOutermost x s.declared_depth
        → IsOutermost x (branch summaries b c depth s).declared_depth
    branch-keeps no_stmt depth s h o = o
    branch-keeps (some_stmt t) depth s h o = statement-keeps t depth s h o

  pub statements-keeps :
      (ts : Stmts) (depth : ℕ) (s : Inspector)
      → AreUndeclared x ts
      → IsOutermost x s.declared_depth
      → IsOutermost x (statements summaries b ts depth s).declared_depth
  statements-keeps ts depth s h o = statements_keep ts depth s h o
