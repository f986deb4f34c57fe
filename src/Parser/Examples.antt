-- ===== src/Parser/Examples.antt =====
-- The parser on concrete tokens.
use noe_code.Prelude.{ℕ, ◌+◌, false, ◌≡◌, refl, List, [], ◌∷◌, Option, none, Text, codes}
use noe_code.Prelude.Int.{pos}
use noe_code.Nir.{int}
use noe_code.Ast.{TokenKind, Token, Span, literal, binary, Stmt, let_stmt}
use noe_code.Parser.State.{Outcome, parsed, ◌>>=◌, on_check, recovered, match, pure, fail, consume}
use noe_code.Parser.Programs.{parse}
use noe_code.Parser.Progress.Programs.{AtEnd, parse-AtEnd}

abbrev no_floats : Text → Option ℕ
no_floats s = none

abbrev spot : ℕ → Span
spot n = record { start = n; end = n + 1; line = 1; column = n + 1; source = 0 }

abbrev token : TokenKind → Text → ℕ → Token
token kind lexeme n = record { kind = kind; lexeme = lexeme; span = spot n }

-- `) ; let x = 1 + 2 * 3 ;`: the bracket is reported, and the rest is read.
abbrev sample_tokens : List Token
sample_tokens =
    token TokenKind.r_paren (codes ")") 0
    ∷ token TokenKind.semicolon (codes ";") 1
    ∷ token TokenKind.let_kw (codes "let") 2
    ∷ token TokenKind.identifier (codes "x") 3
    ∷ token TokenKind.equal (codes "=") 4
    ∷ token TokenKind.integer (codes "1") 5
    ∷ token TokenKind.plus (codes "+") 6
    ∷ token TokenKind.integer (codes "2") 7
    ∷ token TokenKind.star (codes "*") 8
    ∷ token TokenKind.integer (codes "3") 9
    ∷ token TokenKind.semicolon (codes ";") 10
    ∷ token TokenKind.eof (codes "") 11
    ∷ []

abbrev statements_of : Outcome (List Stmt) → List Stmt
statements_of (parsed ss s) = ss
statements_of _ = []

parse_recovers :
    statements_of (parse no_floats sample_tokens [])
    ≡ let_stmt (spot 3) false (codes "x") none (
        binary (spot 6) (literal (spot 5) (int (pos 1))) TokenKind.plus (
          binary
            (spot 8)
            (literal (spot 7) (int (pos 2)))
            TokenKind.star
            (literal (spot 9) (int (pos 3)))))
      ∷ []
unfolding parse ◌>>=◌ on_check recovered match pure fail consume
parse_recovers = refl

parse-AtEnd_example : AtEnd (parse no_floats sample_tokens [])
parse-AtEnd_example = parse-AtEnd no_floats sample_tokens []
