-- ===== src/Lexer/Examples.antt =====
-- The lexer on a concrete source.
use noe_code.Prelude.{
  ℕ, ◌≡◌, refl, false, List, [], ◌∷◌, ◌++◌, Option, none, some, Text, codes, map, length, text_eq,
}
use noe_code.Ast.{Token}
use noe_code.Lexer.Chars.{is_space, is_alpha, is_alnum, is_xdigit}
use noe_code.Lexer.State.{Lexer}
use noe_code.Lexer.Scan.{lex}
use noe_code.Lexer.Spans.Sources.{Lexed, lex-Lexed}

-- `let x1 = 0x1f; // end` and an unterminated text.
abbrev sample_source : Text
sample_source = codes "let x1 = 0x1f; // end" ++ (10 ∷ (b'"' ∷ codes "a"))

abbrev lexemes : Option (List Token × Lexer) → List Text
lexemes none = []
lexemes (some r) = map (λ (t : Token). t.lexeme) r.0

abbrev reports : Option (List Token × Lexer) → ℕ
reports none = 0
reports (some r) = length r.1.diagnostics

lexemes-lex :
    lexemes (lex sample_source [] 0 false)
    ≡ codes "let" ∷ codes "x1" ∷ codes "=" ∷ codes "0x1f" ∷ codes ";" ∷ (b'"' ∷ codes "a") ∷ [] ∷ []
unfolding lex is_space is_alpha text_eq is_alnum is_xdigit
lexemes-lex = refl

reports-lex : reports (lex sample_source [] 0 false) ≡ 1
unfolding lex is_space is_alpha text_eq is_alnum is_xdigit
reports-lex = refl

lex-Lexed_example :
    (r : List Token × Lexer) × (lex sample_source [] 0 false ≡ some r) × Lexed sample_source 0 r.0
lex-Lexed_example = lex-Lexed sample_source [] 0 false
