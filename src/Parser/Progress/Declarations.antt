-- ===== src/Parser/Progress/Declarations.antt =====
-- The tokens that blocks and the declarations but `let` take off
-- (Compiler/bootstrap/parser_host.cpp).
use noe_code.Prelude.{
  ℕ, zero, suc, ◌≤◌, refl, Bool, true, false, [], ◌∷◌, none, Text, arith, if◌then◌else◌, codes,
}
use noe_code.Ast.{function_stmt, no_stmts, TokenKind, Stmt, Signature}
use noe_code.Parser.State.{Parse, ◌>>=◌, pure, match, consume}
use noe_code.Parser.Declarations.{
  annotation, generic_params, module_rest, module_declaration, import_declaration, record_field,
  closing, record_declaration, parameter, block, block_statement, function_body,
  function_declaration,
}
use noe_code.Parser.Progress.{
  Within, drop, narrow, bind, bind_token, pure-Within, previous_token-Within, on_match-Within,
  match-Within, consume-Within,
}
use noe_code.Parser.Progress.Expressions.{
  no_fuel-Within, type_name-Within, comma_list-Within, items_before-Within,
}
use noe_code.Parser.Progress.Recovery.{recovered-Progress, within-Progress, until-Within}

pub annotation-Within : (n l : ℕ) → l ≤ n → Within l 0 (annotation n)
unfolding annotation
annotation-Within n l h =
    on_match-Within (TokenKind.colon ∷ []) refl (omega arith)
      (λ l₁ k₁. bind (drop (type_name-Within n l₁ (omega arith))) λ type l₂ k₂. pure-Within _)
      (pure-Within none)

generic_params-Within : (n l : ℕ) → l ≤ n → Within l 0 (generic_params n)
unfolding generic_params
generic_params-Within n l h =
    on_match-Within (TokenKind.less ∷ []) refl (omega arith)
      (λ l₁ k₁.
        bind
          (drop (
            comma_list-Within n l₁ (omega arith)
              (bind_token (consume-Within TokenKind.identifier _ refl) λ t l₂ k₂. pure-Within _)))
          λ names l₂ k₂.
            bind (drop (consume-Within TokenKind.greater _ refl)) λ t l₃ k₃. pure-Within names)
      (pure-Within [])

module_rest-Within : (n l : ℕ) (x : Text) → l ≤ n → Within l 0 (module_rest n x)
unfolding module_rest
module_rest-Within zero l x h = no_fuel-Within h
module_rest-Within (suc n) l x h =
    on_match-Within (TokenKind.dot ∷ []) refl (omega arith)
      (λ l₁ k₁.
        bind (drop (consume-Within TokenKind.identifier _ refl))
          λ t l₂ k₂. module_rest-Within n l₂ _ (omega arith))
      (pure-Within x)

pub module_declaration-Within : (n l : ℕ) → l ≤ n → Within l 1 (module_declaration n)
unfolding module_declaration
module_declaration-Within n l h =
    bind_token (consume-Within TokenKind.identifier _ refl) λ first l₁ k₁.
      bind (module_rest-Within n l₁ first.lexeme (omega arith))
        λ x l₂ k₂. bind (match-Within (TokenKind.semicolon ∷ []) refl) λ b l₃ k₃. pure-Within _

pub import_declaration-Within : (l : ℕ) → Within l 1 import_declaration
unfolding import_declaration
import_declaration-Within l =
    bind_token (consume-Within TokenKind.string _ refl)
      λ path l₁ k₁. bind (match-Within (TokenKind.semicolon ∷ []) refl) λ b l₃ k₃. pure-Within _

record_field-Within : (n l : ℕ) → l ≤ n → Within l 1 (record_field n)
unfolding record_field
record_field-Within n l h = bind_token (consume-Within TokenKind.identifier _ refl) λ field l₁ k₁.
    bind (drop (consume-Within TokenKind.colon _ refl)) λ colon l₂ k₂.
      bind (drop (type_name-Within n l₂ (omega arith))) λ type l₃ k₃.
        bind (match-Within (TokenKind.comma ∷ TokenKind.semicolon ∷ []) refl)
          λ b l₄ k₄. pure-Within _

pub record_declaration-Within : (n l : ℕ) → l ≤ n → Within l 1 (record_declaration n)
unfolding record_declaration closing
record_declaration-Within n l h = bind_token (consume-Within TokenKind.identifier _ refl) λ x l₁ k₁.
    bind (drop (consume-Within TokenKind.l_brace _ refl)) λ t l₂ k₂.
      bind
        (until-Within closing n l₂ refl (omega arith)
          (within-Progress (record_field-Within n l₂ (omega arith))))
        λ fields l₃ k₃.
          bind (drop (consume-Within TokenKind.r_brace _ refl))
            λ t l₄ k₄. bind (match-Within (TokenKind.semicolon ∷ []) refl) λ b l₅ k₅. pure-Within _

parameter-Within : (n l : ℕ) → l ≤ n → Within l 1 (parameter n)
unfolding parameter
parameter-Within n l h =
    bind_token (consume-Within TokenKind.identifier _ refl)
      λ p l₁ k₁. bind (annotation-Within n l₁ (omega arith)) λ type l₂ k₂. pure-Within _

module _ (n m : ℕ) (fuel : m ≤ n) (decl : Parse Stmt) (inner : Within m 1 decl) where
  pub block-Within : (l : ℕ) → l ≤ m → Within l 0 (block n decl)
  unfolding block closing
  block-Within l h = bind previous_token-Within λ t l₁ k₁.
      bind
        (until-Within closing n l₁ refl (omega (arith, fuel))
          (recovered-Progress (narrow l₁ (omega arith) inner)))
        λ items l₂ k₂.
          bind (drop (consume-Within TokenKind.r_brace _ refl)) λ u l₃ k₃. pure-Within _

  pub block_statement-Within : (l : ℕ) → l ≤ m → Within l 0 (block_statement n decl)
  unfolding block_statement
  block_statement-Within l h = bind (block-Within l h) λ b l₁ k₁. pure-Within _

  function_body-Within : (l : ℕ) (f : Signature) → l ≤ m → Within l 0 (function_body n decl f)
  unfolding function_body
  function_body-Within l f h =
      elim f.is_extern
        as (λ b. Within l 0 (
          if b
          then (do _ ← match (TokenKind.semicolon ∷ []); pure (function_stmt f no_stmts))
          else (do
            _ ← consume TokenKind.l_brace (codes "expected '{' before function body")
            b ← block n decl
            pure (function_stmt f b.1)))) [
              | true ↦ bind (match-Within (TokenKind.semicolon ∷ []) refl) λ b l₁ k₁. pure-Within _
              | false ↦
                  bind (drop (consume-Within TokenKind.l_brace _ refl))
                    λ t l₁ k₁. bind (block-Within l₁ (omega arith)) λ b l₂ k₂. pure-Within _
            ]

  pub function_declaration-Within :
      (l : ℕ) (e x : Bool) → l ≤ suc m → l ≤ n → Within l 1 (function_declaration n decl e x)
  unfolding function_declaration
  function_declaration-Within l e x h h' =
      bind_token (consume-Within TokenKind.identifier _ refl) λ t l₁ k₁.
        bind (generic_params-Within n l₁ (omega arith)) λ generics l₂ k₂.
          bind (drop (consume-Within TokenKind.l_paren _ refl)) λ u l₃ k₃.
            bind
              (items_before-Within n l₃ TokenKind.r_paren (omega arith)
                (parameter-Within n l₃ (omega arith)))
              λ params l₄ k₄. bind (drop (consume-Within TokenKind.r_paren _ refl)) λ v l₅ k₅.
                bind (annotation-Within n l₅ (omega arith))
                  λ result l₆ k₆. function_body-Within l₆ _ (omega arith)
