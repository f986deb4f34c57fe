-- ===== src/Parser/Progress/Programs.antt =====
-- The end of `Parser::parse` (Compiler/bootstrap/parser_host.cpp).
use noe_code.Prelude.{
  ℕ, zero, suc, ◌<◌, ◌≤◌, ◌≡◌, refl, List, [], ◌∷◌, Option, some, none, Text, arith, length,
  Bool-cases, inl, inr,
}
use noe_code.Ast.{TokenKind, Token, Diagnostic}
use noe_code.Parser.Kinds.{same_kind, holds_kind}
use noe_code.Parser.State.{
  Parser, Outcome, parsed, parse_error, thrown, out_of_fuel, Parse, ◌>>=◌, pure, peek, head_token,
  on_check, recovered, synchronize,
}
use noe_code.Parser.Expressions.{expression}
use noe_code.Parser.Declarations.{until, kept}
use noe_code.Parser.Programs.{declaration, parse_statements, start_parser, parse}
use noe_code.Parser.Progress.{remaining, left, After, Within, Progress}
use noe_code.Parser.Progress.Expressions.{no_fuel-Within, vacuous, expression-Within}
use noe_code.Parser.Progress.Recovery.{recovered-Progress, remaining-eof, positive_left}
use noe_code.Parser.Progress.Statements.{declare_one-Within}

declaration-Within :
    (stod : Text → Option ℕ) (n k l : ℕ) → l ≤ k → l ≤ n → Within l 1 (declaration stod n k)
unfolding declaration
declaration-Within stod n zero l h h' = no_fuel-Within h
declaration-Within stod n (suc k) zero h h' = vacuous _
declaration-Within stod n (suc k) (suc m) h h' =
    declare_one-Within n (expression stod n n) (declaration stod n k)
      (expression-Within stod n n n (omega arith) (omega arith)) m (omega arith)
      (declaration-Within stod n k m (omega arith) (omega arith)) (suc m) (omega arith) h'

-- No `ParseError` comes out.
abbrev Handled : {A : Type 0} → Outcome A → Type 0
Handled (parse_error s) = ⊥
Handled _ = Unit

recovered-Handled : {A : Type 0} (p : Parse A) (s : Parser) → Handled (recovered p s)
unfolding recovered
recovered-Handled {A} p s =
    elim (p s)
      as (λ o. Handled (elim o as (λ o. Outcome (Option A)) [
        | parsed a s' ↦ parsed (some a) s'
        | parse_error s' ↦ parsed none (synchronize s')
        | thrown ↦ thrown
        | out_of_fuel ↦ out_of_fuel
      ])) [ parsed a s' ↦ tt | parse_error s' ↦ tt | thrown ↦ tt | out_of_fuel ↦ tt ]

-- A value comes with no token in front of the `Eof`, and neither a `ParseError` comes out nor does the
-- fuel.
abbrev pub AtEnd : {A : Type 0} → Outcome A → Type 0
AtEnd (parsed a s) = remaining s.tokens ≡ 0
AtEnd (parse_error s) = ⊥
AtEnd thrown = Unit
AtEnd out_of_fuel = ⊥

bind-AtEnd :
    {A B : Type 0} (m : ℕ) (f : A → Parse B) (o : Outcome A)
    → After m 1 o
    → Handled o
    → ((a : A) (s : Parser) → left s < m → AtEnd (f a s))
    → AtEnd (elim o as (λ o. Outcome B) [
      | parsed a s' ↦ f a s'
      | parse_error s' ↦ parse_error s'
      | thrown ↦ thrown
      | out_of_fuel ↦ out_of_fuel
    ])
bind-AtEnd m f (parsed a s) h k g = g a s (omega arith)
bind-AtEnd m f (parse_error s) h k g = absurd k
bind-AtEnd m f thrown h k g = tt
bind-AtEnd m f out_of_fuel h k g = absurd h

map-AtEnd :
    {A B : Type 0} (g : A → B) (p : Parse A) (s : Parser)
    → AtEnd (p s)
    → AtEnd ((p >>= λ a. pure (g a)) s)
unfolding ◌>>=◌ pure
map-AtEnd {A} {B} g p s h =
    elim (p s)
        as (λ o.
          AtEnd o
          → AtEnd (elim o as (λ o. Outcome B) [
            | parsed a s' ↦ parsed (g a) s'
            | parse_error s' ↦ parse_error s'
            | thrown ↦ thrown
            | out_of_fuel ↦ out_of_fuel
          ])) [
            | parsed a s' ↦ λ e. e
            | parse_error s' ↦ λ e. e
            | thrown ↦ λ e. e
            | out_of_fuel ↦ λ e. e
          ]
      h

until-AtEnd :
    {A : Type 0} (p : Parse A) (n : ℕ) (s : Parser)
    → left s < n
    → Progress (suc (left s)) p
    → ((s : Parser) → Handled (p s))
    → AtEnd (until (TokenKind.eof ∷ []) n p s)
unfolding until on_check peek ◌>>=◌ pure
until-AtEnd p zero s h w k = absurd (omega arith)
until-AtEnd p (suc n) s h w k =
    elim (Bool-cases (holds_kind (TokenKind.eof ∷ []) (head_token s.tokens).kind)) [
      | inl e ↦ rw e (remaining-eof s.tokens (ground (arith, e)))
      | inr e ↦ rw e (
          bind-AtEnd (left s) _ (p s)
            (w.run s (omega arith) (positive_left (TokenKind.eof ∷ []) s refl e)) (k s)
            λ a s' lt.
              map-AtEnd (λ xs. a ∷ xs) (until (TokenKind.eof ∷ []) n p) s'
                (until-AtEnd p n s' (omega arith)
                  (record { run = λ s₁ l₁ pos. w.run s₁ (omega arith) pos }) k))
    ]

remaining≤length : (ts : List Token) → remaining ts ≤ length ts
unfolding remaining
remaining≤length [] = omega arith
remaining≤length (t ∷ ts) = elim (Bool-cases (same_kind t.kind TokenKind.eof)) [
  | inl e ↦ rw e (omega arith)
  | inr e ↦ rw e (omega (arith, remaining≤length ts))
]

-- `Parser::parse` comes to an end on every list of tokens, in as many rounds of every loop as there are
-- tokens, and what it returns stands in front of the first `Eof`: it neither stops early nor lets a
-- `ParseError` out. Only what `std::stoull` and `std::stod` throw gets past it.
pub parse-AtEnd :
    (stod : Text → Option ℕ) (tokens : List Token) (items : List Diagnostic)
    → AtEnd (parse stod tokens items)
unfolding parse parse_statements start_parser
parse-AtEnd stod tokens items =
    let n = suc (length tokens) in
    let s = start_parser tokens items in
    map-AtEnd kept (until (TokenKind.eof ∷ []) n (recovered (declaration stod n n))) s (
      until-AtEnd (recovered (declaration stod n n)) n s (omega (arith, remaining≤length tokens))
        (recovered-Progress (
          declaration-Within stod n n (suc (left s)) (omega (arith, remaining≤length tokens))
            (omega (arith, remaining≤length tokens))))
        (recovered-Handled (declaration stod n n)))
