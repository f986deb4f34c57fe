-- ===== src/Lexer/Chars.antt =====
-- The classes of characters that the lexer asks the C library for, in its default locale, and the tables
-- of keywords and of tokens with one character (Compiler/bootstrap/lexer_host.cpp).
use noe_code.Prelude.{ℕ, Bool, ◌&&◌, ◌||◌, List, [], ◌∷◌, Text, codes, leb, ◌==◌}
use noe_code.Ast.{TokenKind}

abbrev pub between : ℕ → ℕ → ℕ → Bool
between low high c = leb low c && leb c high

unfoldable pub is_digit : ℕ → Bool
is_digit c = between b'0' b'9' c

unfoldable pub is_xdigit : ℕ → Bool
unfolding is_digit
is_xdigit c = is_digit c || (between b'a' b'f' c || between b'A' b'F' c)

unfoldable pub is_alpha : ℕ → Bool
is_alpha c = between b'a' b'z' c || between b'A' b'Z' c

unfoldable pub is_alnum : ℕ → Bool
unfolding is_alpha is_digit
is_alnum c = is_alpha c || is_digit c

unfoldable pub is_space : ℕ → Bool
is_space c = c == b' ' || (c == 9 || (c == 13 || c == 10))

abbrev pub keywords : List (Text × TokenKind)
keywords =
    (codes "let", TokenKind.let_kw)
    ∷ (codes "const", TokenKind.const_kw)
    ∷ (codes "function", TokenKind.function)
    ∷ (codes "if", TokenKind.if_kw)
    ∷ (codes "else", TokenKind.else_kw)
    ∷ (codes "while", TokenKind.while_kw)
    ∷ (codes "repeat", TokenKind.repeat)
    ∷ (codes "return", TokenKind.return)
    ∷ (codes "true", TokenKind.true_kw)
    ∷ (codes "false", TokenKind.false_kw)
    ∷ (codes "null", TokenKind.null)
    ∷ (codes "import", TokenKind.import)
    ∷ (codes "module", TokenKind.module_kw)
    ∷ (codes "record", TokenKind.record_kw)
    ∷ (codes "class", TokenKind.class)
    ∷ (codes "extern", TokenKind.extern)
    ∷ (codes "export", TokenKind.export)
    ∷ (codes "volatile", TokenKind.volatile)
    ∷ (codes "as", TokenKind.as_kw)
    ∷ (codes "throw", TokenKind.throw)
    ∷ (codes "try", TokenKind.try)
    ∷ (codes "unsafe", TokenKind.unsafe)
    ∷ []

abbrev pub singles : List (ℕ × TokenKind)
singles =
    (b'(', TokenKind.l_paren)
    ∷ (b')', TokenKind.r_paren)
    ∷ (b'{', TokenKind.l_brace)
    ∷ (b'}', TokenKind.r_brace)
    ∷ (b'[', TokenKind.l_bracket)
    ∷ (b']', TokenKind.r_bracket)
    ∷ (b',', TokenKind.comma)
    ∷ (b':', TokenKind.colon)
    ∷ (b';', TokenKind.semicolon)
    ∷ (b'.', TokenKind.dot)
    ∷ (b'+', TokenKind.plus)
    ∷ (b'-', TokenKind.minus)
    ∷ (b'*', TokenKind.star)
    ∷ (b'%', TokenKind.percent)
    ∷ []
