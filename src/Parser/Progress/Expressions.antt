-- ===== src/Parser/Progress/Expressions.antt =====
-- The tokens that type names and expressions take off (Compiler/bootstrap/parser_host.cpp).
use noe_code.Prelude.{
  ℕ, zero, suc, ◌≤◌, refl, List, [], ◌∷◌, Option, some, none, Text, arith, Bool-cases, inl, inr,
}
use noe_code.Nir.{Value}
use noe_code.Ast.{TokenKind, Token, Span, Expr}
use noe_code.Parser.State.{Parse, pure, no_fuel, throw_other, report}
use noe_code.Parser.Expressions.{
  type_name, comma_list, items_before, literal_or_throw, literal_value, primary_literal,
  literal_kinds, primary, call_rest, cast_rest, cast_level, unary_level, prefixes, binary_rest,
  binary_level, is_target, assigned, factor, term, comparison, equality, logical_and, logical_or,
  assignment, expression,
}
use noe_code.Parser.Progress.{
  Within, NoEof, drop, narrow, bind, bind_token, pure-Within, throw_other-Within,
  previous_token-Within, fail-Within, on_match-Within, on_check-Within, match-Within,
  consume-Within, left,
}

-- With no state in reach nothing is claimed.
pub vacuous : {A : Type 0} {d : ℕ} (p : Parse A) → Within 0 d p
vacuous p = record { run = λ s lt. absurd (omega arith) }

pub no_fuel-Within : {A : Type 0} {l d : ℕ} → l ≤ 0 → Within {A = A} l d no_fuel
no_fuel-Within h = record { run = λ s lt. absurd (omega arith) }

pub type_name-Within : (n l : ℕ) → l ≤ n → Within l 1 (type_name n)
unfolding type_name
type_name-Within zero l h = no_fuel-Within h
type_name-Within (suc n) l h =
    on_match-Within (TokenKind.star ∷ []) refl (omega arith)
      (λ l₁ k₁.
        bind (match-Within (TokenKind.volatile ∷ []) refl)
          λ v l₂ k₂. bind (drop (type_name-Within n l₂ (omega arith))) λ r l₃ k₃. pure-Within _)
      (on_match-Within (TokenKind.l_bracket ∷ []) refl (omega arith)
        (λ l₁ k₁.
          on_match-Within (TokenKind.r_bracket ∷ []) refl (omega arith)
            (λ l₂ k₂. bind (drop (type_name-Within n l₂ (omega arith))) λ r l₃ k₃. pure-Within _)
            (bind (drop (type_name-Within n l₁ (omega arith))) λ r l₃ k₃.
              bind (drop (consume-Within TokenKind.semicolon _ refl)) λ t l₄ k₄.
                bind (drop (consume-Within TokenKind.integer _ refl)) λ u l₅ k₅.
                  bind (drop (consume-Within TokenKind.r_bracket _ refl)) λ v l₆ k₆. pure-Within _))
        (bind_token (consume-Within TokenKind.identifier _ refl) λ t l₁ k₁. pure-Within _))

module _ {A : Type 0} {p : Parse A} where
  pub comma_list-Within : (n l : ℕ) → l ≤ n → Within l 1 p → Within l 1 (comma_list n p)
  unfolding comma_list
  comma_list-Within zero l h w = no_fuel-Within h
  comma_list-Within (suc n) l h w = bind_token w λ x l₁ k₁.
      on_match-Within (TokenKind.comma ∷ []) refl (omega arith)
        (λ l₂ k₂.
          bind (drop (comma_list-Within n l₂ (omega arith) (narrow l₂ (omega arith) w)))
            λ xs l₃ k₃. pure-Within (x ∷ xs))
        (pure-Within (x ∷ []))

  pub items_before-Within :
      (n l : ℕ) (close : TokenKind) → l ≤ n → Within l 1 p → Within l 0 (items_before n close p)
  unfolding items_before
  items_before-Within n l close h w =
      on_check-Within (close ∷ []) (pure-Within []) (drop (comma_list-Within n l h w))

literal_or_throw-Within :
    {l : ℕ} (sp : Span) (v : Option Value) → Within l 0 (literal_or_throw sp v)
unfolding literal_or_throw
literal_or_throw-Within sp none = throw_other-Within
literal_or_throw-Within sp (some v) = pure-Within _

module _ (stod : Text → Option ℕ) (n m : ℕ) (expr : Parse Expr) (fuel : m ≤ n)
    (inner : Within m 1 expr) where
  primary_literal-Within : {l : ℕ} (t : Token) → Within l 0 (primary_literal stod n expr t)
  unfolding primary_literal
  primary_literal-Within {l} t =
      elim (literal_value stod n expr t)
        as (λ v. Within l 0 (elim v [ none ↦ throw_other | some v ↦ literal_or_throw t.span v ])) [
          | none ↦ throw_other-Within
          | some v ↦ literal_or_throw-Within t.span v
        ]

  primary-Within : (l : ℕ) → l ≤ suc m → Within l 1 (primary stod n expr)
  unfolding primary literal_kinds
  primary-Within l h =
      on_match-Within (literal_kinds stod n expr) refl (omega arith)
        (λ l₁ k₁. bind previous_token-Within λ t l₂ k₂. primary_literal-Within t)
        (on_match-Within (TokenKind.identifier ∷ []) refl (omega arith)
          (λ l₁ k₁. bind previous_token-Within λ t l₂ k₂. pure-Within _)
          (on_match-Within (TokenKind.l_bracket ∷ []) refl (omega arith)
            (λ l₁ k₁. bind previous_token-Within λ t l₂ k₂.
              bind
                (items_before-Within n l₂ TokenKind.r_bracket (omega (arith, fuel))
                  (narrow l₂ (omega arith) inner))
                λ es l₃ k₃.
                  bind (drop (consume-Within TokenKind.r_bracket _ refl)) λ u l₄ k₄. pure-Within _)
            (on_match-Within (TokenKind.l_paren ∷ []) refl (omega arith)
              (λ l₁ k₁. bind (drop (narrow l₁ (omega arith) inner)) λ e l₂ k₂.
                bind (drop (consume-Within TokenKind.r_paren _ refl)) λ u l₃ k₃. pure-Within _)
              (fail-Within _ _))))

  call_rest-Within :
      (k l : ℕ) (e : Expr) → l ≤ k → l ≤ suc m → Within l 0 (call_rest stod n expr k e)
  unfolding call_rest
  call_rest-Within zero l e h h' = no_fuel-Within h
  call_rest-Within (suc k) l e h h' =
      on_match-Within (TokenKind.l_paren ∷ []) refl (omega arith)
        (λ l₁ k₁. bind previous_token-Within λ t l₂ k₂.
          bind
            (items_before-Within n l₂ TokenKind.r_paren (omega (arith, fuel))
              (narrow l₂ (omega arith) inner))
            λ es l₃ k₃.
              bind (drop (consume-Within TokenKind.r_paren _ refl))
                λ u l₄ k₄. call_rest-Within k l₄ _ (omega arith) (omega arith))
        (on_match-Within (TokenKind.l_bracket ∷ []) refl (omega arith)
          (λ l₁ k₁. bind (drop (narrow l₁ (omega arith) inner)) λ i l₂ k₂.
            bind previous_token-Within λ t l₃ k₃.
              bind (drop (consume-Within TokenKind.r_bracket _ refl))
                λ u l₄ k₄. call_rest-Within k l₄ _ (omega arith) (omega arith))
          (on_match-Within (TokenKind.dot ∷ []) refl (omega arith)
            (λ l₁ k₁.
              bind (drop (consume-Within TokenKind.identifier _ refl))
                λ t l₂ k₂. call_rest-Within k l₂ _ (omega arith) (omega arith))
            (pure-Within e)))

  cast_rest-Within :
      (k l : ℕ) (e : Expr) → l ≤ k → l ≤ suc m → Within l 0 (cast_rest stod n expr k e)
  unfolding cast_rest
  cast_rest-Within zero l e h h' = no_fuel-Within h
  cast_rest-Within (suc k) l e h h' =
      on_match-Within (TokenKind.as_kw ∷ []) refl (omega arith)
        (λ l₁ k₁. bind previous_token-Within λ t l₂ k₂.
          bind (drop (type_name-Within n l₂ (omega (arith, fuel))))
            λ type l₃ k₃. cast_rest-Within k l₃ _ (omega arith) (omega arith))
        (pure-Within e)

  cast_level-Within : (l : ℕ) → l ≤ n → l ≤ suc m → Within l 1 (cast_level stod n expr)
  unfolding cast_level
  cast_level-Within l h h' = bind_token (primary-Within l h') λ e l₁ k₁.
      bind (call_rest-Within n l₁ e (omega arith) (omega arith))
        λ e' l₂ k₂. cast_rest-Within n l₂ e' (omega arith) (omega arith)

  unary_level-Within :
      (k l : ℕ) → l ≤ k → l ≤ n → l ≤ suc m → Within l 1 (unary_level stod n expr k)
  unfolding unary_level prefixes
  unary_level-Within zero l h h' h'' = no_fuel-Within h
  unary_level-Within (suc k) l h h' h'' =
      on_match-Within (prefixes stod n expr) refl (omega arith)
        (λ l₁ k₁. bind previous_token-Within λ op l₂ k₂.
          bind (drop (unary_level-Within k l₂ (omega arith) (omega arith) (omega arith)))
            λ e l₃ k₃. pure-Within _)
        (cast_level-Within l h' h'')

module _ (kinds : List TokenKind) (plain : NoEof kinds) {next : Parse Expr} where
  binary_rest-Within :
      (k l : ℕ) (e : Expr) → l ≤ k → Within l 1 next → Within l 0 (binary_rest k kinds next e)
  unfolding binary_rest
  binary_rest-Within zero l e h w = no_fuel-Within h
  binary_rest-Within (suc k) l e h w =
      on_match-Within kinds plain (omega arith)
        (λ l₁ k₁. bind previous_token-Within λ o l₂ k₂.
          bind (drop (narrow l₂ (omega arith) w))
            λ r l₃ k₃. binary_rest-Within k l₃ _ (omega arith) (narrow l₃ (omega arith) w))
        (pure-Within e)

  binary_level-Within : (n l : ℕ) → l ≤ n → Within l 1 next → Within l 1 (binary_level n kinds next)
  unfolding binary_level
  binary_level-Within n l h w =
      bind_token w λ e l₁ k₁. binary_rest-Within n l₁ e (omega arith) (narrow l₁ (omega arith) w)

assigned-Within : {l : ℕ} (eq : Token) (left value : Expr) → Within l 0 (assigned eq left value)
unfolding assigned report pure
assigned-Within eq left value = elim (Bool-cases (is_target left)) [
  | inl e ↦ record { run = λ s lt. rw e (omega arith) }
  | inr e ↦ record { run = λ s lt. rw e (omega arith) }
]

module _ (stod : Text → Option ℕ) (n m : ℕ) (expr : Parse Expr) (inner : Within m 1 expr) where
  logical_or-Within : (l : ℕ) → l ≤ n → l ≤ suc m → m ≤ n → Within l 1 (logical_or stod n expr)
  unfolding logical_or logical_and equality comparison term factor
  logical_or-Within l h h' fuel = binary_level-Within _ refl n l h (
      binary_level-Within _ refl n l h (
        binary_level-Within _ refl n l h (
          binary_level-Within _ refl n l h (
            binary_level-Within _ refl n l h (
              binary_level-Within _ refl n l h
                (unary_level-Within stod n m expr fuel inner n l h h h'))))))

  assignment-Within :
      (k l : ℕ) → l ≤ k → l ≤ n → l ≤ suc m → m ≤ n → Within l 1 (assignment stod n expr k)
  unfolding assignment
  assignment-Within zero l h h' h'' fuel = no_fuel-Within h
  assignment-Within (suc k) l h h' h'' fuel =
      bind_token (logical_or-Within l h' h'' fuel) λ left l₁ k₁.
        on_match-Within (TokenKind.equal ∷ []) refl (omega arith)
          (λ l₂ k₂. bind previous_token-Within λ eq l₃ k₃.
            bind (drop (assignment-Within k l₃ (omega arith) (omega arith) (omega arith) fuel))
              λ value l₄ k₄. assigned-Within eq left value)
          (pure-Within left)

pub expression-Within :
    (stod : Text → Option ℕ) (n k l : ℕ) → l ≤ k → l ≤ n → Within l 1 (expression stod n k)
unfolding expression
expression-Within stod n zero l h h' = no_fuel-Within h
expression-Within stod n (suc k) zero h h' = vacuous _
expression-Within stod n (suc k) (suc m) h h' =
    assignment-Within stod n m (expression stod n k)
      (expression-Within stod n k m (omega arith) (omega arith)) n (suc m) h' h' (omega arith)
      (omega arith)
