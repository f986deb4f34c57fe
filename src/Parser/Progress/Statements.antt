-- ===== src/Parser/Progress/Statements.antt =====
-- The tokens that statements, and a declaration as a whole, take off
-- (Compiler/bootstrap/parser_host.cpp).
use noe_code.Prelude.{
  ℕ, zero, suc, ◌≤◌, refl, Bool, true, false, ◌||◌, [], ◌∷◌, some, none, Text, arith, if_both,
}
use noe_code.Ast.{TokenKind, Expr, Stmt}
use noe_code.Parser.State.{Parse, report}
use noe_code.Parser.Statements.{
  let_declaration, condition, if_statement, while_statement, repeat_statement, return_statement,
  throw_statement, unsafe_statement, expression_statement, statement, match_if, misplaced_marks,
  unmarked, declare_one,
}
use noe_code.Parser.Progress.{
  Within, NoEof, drop, narrow, bind, bind_token, pure-Within, previous_token-Within,
  on_match-Within, on_check-Within, match-Within, consume-Within,
}
use noe_code.Parser.Progress.Expressions.{no_fuel-Within}
use noe_code.Parser.Progress.Expressions.{vacuous}
use noe_code.Parser.Progress.Declarations.{
  annotation-Within, module_declaration-Within, import_declaration-Within,
  record_declaration-Within, block-Within, block_statement-Within, function_declaration-Within,
}

module _ (n : ℕ) (expr : Parse Expr) (decl : Parse Stmt) (whole : Within n 1 expr) where
  let_declaration-Within : (l : ℕ) (b : Bool) → l ≤ n → Within l 1 (let_declaration n expr decl b)
  unfolding let_declaration
  let_declaration-Within l b h = bind_token (consume-Within TokenKind.identifier _ refl) λ x l₁ k₁.
      bind (annotation-Within n l₁ (omega arith)) λ type l₂ k₂.
        bind (drop (consume-Within TokenKind.equal _ refl)) λ t l₃ k₃.
          bind (drop (narrow l₃ (omega arith) whole))
            λ e l₄ k₄. bind (match-Within (TokenKind.semicolon ∷ []) refl) λ b l₅ k₅. pure-Within _

  condition-Within : (l : ℕ) (message : Text) → l ≤ n → Within l 1 (condition n expr decl message)
  unfolding condition
  condition-Within l message h =
      on_match-Within (TokenKind.l_paren ∷ []) refl (omega arith)
        (λ l₁ k₁.
          bind (drop (narrow l₁ (omega arith) whole)) λ e l₂ k₂.
            bind (drop (consume-Within TokenKind.r_paren _ refl)) λ t l₃ k₃. pure-Within e)
        (narrow l h whole)

  module _ (m : ℕ) (stmt : Parse Stmt) (nested : Within m 1 stmt) where
    if_statement-Within : (l : ℕ) → l ≤ m → l ≤ n → Within l 0 (if_statement n expr decl stmt)
    unfolding if_statement
    if_statement-Within l h h' = bind previous_token-Within λ t l₁ k₁.
        bind (drop (condition-Within l₁ _ (omega arith))) λ c l₂ k₂.
          bind (drop (narrow l₂ (omega arith) nested)) λ branch l₃ k₃.
            on_match-Within (TokenKind.else_kw ∷ []) refl (omega arith)
              (λ l₄ k₄. bind (drop (narrow l₄ (omega arith) nested)) λ other l₅ k₅. pure-Within _)
              (pure-Within _)

    while_statement-Within : (l : ℕ) → l ≤ m → l ≤ n → Within l 0 (while_statement n expr decl stmt)
    unfolding while_statement
    while_statement-Within l h h' = bind previous_token-Within λ t l₁ k₁.
        bind (drop (condition-Within l₁ _ (omega arith)))
          λ c l₂ k₂. bind (drop (narrow l₂ (omega arith) nested)) λ body l₃ k₃. pure-Within _

  return_statement-Within : (l : ℕ) → l ≤ n → Within l 0 (return_statement n expr decl)
  unfolding return_statement
  return_statement-Within l h = bind previous_token-Within λ t l₁ k₁.
      bind
        (on_check-Within _ (pure-Within none)
          (bind (drop (narrow l₁ (omega arith) whole)) λ e l₂ k₂. pure-Within (some e)))
        λ value l₂ k₂. bind (match-Within (TokenKind.semicolon ∷ []) refl) λ b l₃ k₃. pure-Within _

  throw_statement-Within : (l : ℕ) → l ≤ n → Within l 0 (throw_statement n expr decl)
  unfolding throw_statement
  throw_statement-Within l h = bind previous_token-Within λ t l₁ k₁.
      bind (drop (narrow l₁ (omega arith) whole))
        λ e l₂ k₂. bind (match-Within (TokenKind.semicolon ∷ []) refl) λ b l₃ k₃. pure-Within _

  expression_statement-Within : (l : ℕ) → l ≤ n → Within l 1 (expression_statement n expr decl)
  unfolding expression_statement
  expression_statement-Within l h =
      bind_token (narrow l h whole)
        λ e l₁ k₁. bind (match-Within (TokenKind.semicolon ∷ []) refl) λ b l₂ k₂. pure-Within _

  match_if-Within :
      {l : ℕ} (b : Bool) (kind : TokenKind)
      → NoEof (kind ∷ [])
      → Within l 0 (match_if n expr decl b kind)
  unfolding match_if
  match_if-Within true kind plain = match-Within (kind ∷ []) plain
  match_if-Within false kind plain = pure-Within false

  module _ (m : ℕ) (fuel : m ≤ n) (inner : Within m 1 decl) where
    repeat_statement-Within : (l : ℕ) → l ≤ m → Within l 0 (repeat_statement n expr decl)
    unfolding repeat_statement
    repeat_statement-Within l h = bind previous_token-Within λ t l₁ k₁.
        bind (drop (narrow l₁ (omega (arith, fuel)) whole)) λ count l₂ k₂.
          bind (drop (consume-Within TokenKind.l_brace _ refl)) λ u l₃ k₃.
            bind (block-Within n m fuel decl inner l₃ (omega arith)) λ b l₄ k₄. pure-Within _

    unsafe_statement-Within : (l : ℕ) → l ≤ m → Within l 0 (unsafe_statement n expr decl)
    unfolding unsafe_statement
    unsafe_statement-Within l h = bind previous_token-Within λ t l₁ k₁.
        bind (drop (consume-Within TokenKind.l_brace _ refl)) λ u l₃ k₃.
          bind (block-Within n m fuel decl inner l₃ (omega arith)) λ b l₄ k₄. pure-Within _

    statement-Within : (k l : ℕ) → l ≤ k → l ≤ suc m → l ≤ n → Within l 1 (statement n expr decl k)
    unfolding statement
    statement-Within zero l h h' h'' = no_fuel-Within h
    statement-Within (suc k) zero h h' h'' = vacuous _
    statement-Within (suc k) (suc l) h h' h'' =
        let nested = statement-Within k l (omega arith) (omega arith) (omega arith) in
        on_match-Within (TokenKind.if_kw ∷ []) refl (omega arith)
          (λ l₁ k₁.
            if_statement-Within l (statement n expr decl k) nested l₁ (omega arith) (omega arith))
          (on_match-Within (TokenKind.while_kw ∷ []) refl (omega arith)
            (λ l₁ k₁.
              while_statement-Within l (statement n expr decl k) nested l₁ (omega arith)
                (omega arith))
            (on_match-Within (TokenKind.repeat ∷ []) refl (omega arith)
              (λ l₁ k₁. repeat_statement-Within l₁ (omega arith))
              (on_match-Within (TokenKind.return ∷ []) refl (omega arith)
                (λ l₁ k₁. return_statement-Within l₁ (omega arith))
                (on_match-Within (TokenKind.throw ∷ []) refl (omega arith)
                  (λ l₁ k₁. throw_statement-Within l₁ (omega arith))
                  (on_match-Within (TokenKind.unsafe ∷ []) refl (omega arith)
                    (λ l₁ k₁. unsafe_statement-Within l₁ (omega arith))
                    (on_match-Within (TokenKind.l_brace ∷ []) refl (omega arith)
                      (λ l₁ k₁. block_statement-Within n m fuel decl inner l₁ (omega arith))
                      (expression_statement-Within (suc l) h'')))))))

    unmarked-Within : (l : ℕ) → l ≤ suc m → l ≤ n → Within l 1 (unmarked n expr decl)
    unfolding unmarked
    unmarked-Within l h h' =
        on_match-Within (TokenKind.module_kw ∷ []) refl (omega arith)
          (λ l₁ k₁. drop (module_declaration-Within n l₁ (omega arith)))
          (on_match-Within (TokenKind.import ∷ []) refl (omega arith)
            (λ l₁ k₁. drop (import_declaration-Within l₁))
            (on_match-Within (TokenKind.record_kw ∷ []) refl (omega arith)
              (λ l₁ k₁. drop (record_declaration-Within n l₁ (omega arith)))
              (on_match-Within (TokenKind.let_kw ∷ []) refl (omega arith)
                (λ l₁ k₁. drop (let_declaration-Within l₁ false (omega arith)))
                (on_match-Within (TokenKind.const_kw ∷ []) refl (omega arith)
                  (λ l₁ k₁. drop (let_declaration-Within l₁ true (omega arith)))
                  (statement-Within n l h' h h')))))

    misplaced_marks-Within : {l : ℕ} → Within l 1 (misplaced_marks n expr decl)
    unfolding misplaced_marks report
    misplaced_marks-Within = record { run = λ s lt. omega arith }

    pub declare_one-Within : (l : ℕ) → l ≤ suc m → l ≤ n → Within l 1 (declare_one n expr decl)
    unfolding declare_one
    declare_one-Within l h h' = bind (match-Within (TokenKind.export ∷ []) refl) λ e l₁ k₁.
        bind (match-Within (TokenKind.extern ∷ []) refl) λ x l₂ k₂.
          bind (match_if-Within e TokenKind.extern refl) λ x' l₃ k₃.
            bind (match_if-Within (x || x') TokenKind.export refl) λ e' l₄ k₄.
              on_match-Within (TokenKind.function ∷ []) refl (omega arith)
                (λ l₅ k₅. drop (
                  function_declaration-Within n m fuel decl inner l₅ _ _ (omega arith)
                    (omega arith)))
                (if_both (Within l₄ 1) ((x || x') || (e || e')) misplaced_marks-Within
                  (unmarked-Within l₄ (omega arith) (omega arith)))
