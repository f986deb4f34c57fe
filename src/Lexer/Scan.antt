-- ===== src/Lexer/Scan.antt =====
-- The functions of `Lexer` that read a token (Compiler/bootstrap/lexer_host.cpp). The loop of
-- `skipWhitespaceAndComments` and that of `lex` are on fuel.
use noe_code.Prelude.Opt.{◌>>=◌}
use noe_code.Prelude.{
  ℕ, zero, suc, Bool, true, false, not, ◌&&◌, ◌||◌, List, [], ◌∷◌, ◌++◌, Option, none, some, Text,
  codes, find, find_text, length, ◌==◌, if◌then◌else◌,
}
use noe_code.Ast.{TokenKind, Token, Diagnostic}
use noe_code.Parser.Kinds.{same_kind}
use noe_code.Lexer.Chars.{is_digit, is_xdigit, is_alpha, is_alnum, is_space, keywords, singles}
use noe_code.Lexer.State.{
  Lexer, Place, start_lexer, head_char, peek, peek_next, advance, advance_while, here, one_back,
  text_from, make, report,
}

abbrev pub in_line : Text → Bool
in_line s = not (head_char s == 10) && not (head_char s == 0)

abbrev pub tail_char : Text → ℕ
tail_char [] = 0
tail_char (c ∷ s) = head_char s

abbrev pub in_comment : Text → Bool
in_comment s = not (head_char s == 0) && not (head_char s == b'*' && tail_char s == b'/')

abbrev pub in_name : Text → Bool
in_name s = is_alnum (head_char s) || head_char s == b'_'

-- What a round of `skipWhitespaceAndComments` does: another round, or the end.
pub data Round : Type 0 where
  again stop : Lexer → Round

unfoldable pub skip_comment : Place → Lexer → Round
unfolding advance advance_while peek report
skip_comment at s =
    let opened = advance (advance s) in
    let s' = advance_while in_comment opened.rest opened in
    if peek s' == 0
    then stop (report (codes "NQR-L1002") (codes "unterminated block comment") at s')
    else again (advance (advance s'))

unfoldable pub skip_round : Lexer → Round
unfolding advance advance_while peek peek_next skip_comment here
skip_round s =
    if is_space (peek s)
    then again (advance s)
    else if peek s == b'/' && peek_next s == b'/'
    then (if s.preserve_trivia then stop s else again (advance_while in_line s.rest s))
    else if peek s == b'/' && peek_next s == b'*'
    then (if s.preserve_trivia then stop s else skip_comment (here s) s)
    else stop s

unfoldable pub skip_whitespace_and_comments : ℕ → Lexer → Option Lexer
unfolding skip_round
skip_whitespace_and_comments zero s = none
skip_whitespace_and_comments (suc n) s = elim (skip_round s) [
  | again s' ↦ skip_whitespace_and_comments n s'
  | stop s' ↦ some s'
]

-- A token, and the lexer behind it.
abbrev pub Scanned : Type 0
Scanned = Token × Lexer

unfoldable pub keyword_or_name : Text → TokenKind
unfolding find_text
keyword_or_name x = elim (find_text keywords x) [ none ↦ TokenKind.identifier | some kind ↦ kind ]

unfoldable pub identifier : Lexer → Scanned
unfolding advance_while keyword_or_name one_back text_from make
identifier s =
    let s' = advance_while in_name s.rest s in
    (make (keyword_or_name (text_from (one_back s) s')) (one_back s) s', s')

abbrev pub digits : Lexer → Lexer
digits s = advance_while (λ r. is_digit (head_char r)) s.rest s

abbrev pub xdigits : Lexer → Lexer
xdigits s = advance_while (λ r. is_xdigit (head_char r)) s.rest s

-- `first` is `source_[start]`.
unfoldable pub number : ℕ → Lexer → Scanned
unfolding advance peek peek_next one_back make
number first s =
    let hex = xdigits (advance s) in
    let whole = digits s in
    let fraction = digits (advance whole) in
    if first == b'0' && (peek s == b'x' || peek s == b'X')
    then (make TokenKind.integer (one_back s) hex, hex)
    else if peek whole == b'.' && is_digit (peek_next whole)
    then (make TokenKind.float (one_back s) fraction, fraction)
    else (make TokenKind.integer (one_back s) whole, whole)

-- The loop of `stringLiteral`, on what is left.
unfoldable pub string_rest : Text → Lexer → Lexer
unfolding advance
string_rest [] s = s
string_rest (c ∷ []) s = if c == b'"' || c == 0 then s else advance s
string_rest (c ∷ d ∷ rest) s = elim (c == b'"' || c == 0) [
  | true ↦ s
  | false ↦ elim (c == 92 && not (d == 0)) [
    | true ↦ string_rest rest (advance (advance s))
    | false ↦ string_rest (d ∷ rest) (advance s)
  ]
]

unfoldable pub string_literal : Lexer → Scanned
unfolding string_rest advance peek one_back make report
string_literal s =
    let s' = string_rest s.rest s in
    let failed = report (codes "NQR-L1001") (codes "unterminated string literal") (one_back s) s' in
    let closed = advance s' in
    if peek s' == 0
    then (make TokenKind.string (one_back s) failed, failed)
    else (make TokenKind.string (one_back s) closed, closed)

-- `make(match(expected)?both:alone,start,line,col)`
unfoldable pub make_match : ℕ → TokenKind → TokenKind → Place → Lexer → Scanned
unfolding advance peek make
make_match expected both alone at s =
    if peek s == expected then (make both at (advance s), advance s) else (make alone at s, s)

unfoldable pub block_comment : Place → Lexer → Scanned
unfolding advance advance_while peek make report
block_comment at s =
    let opened = advance s in
    let s' = advance_while in_comment opened.rest opened in
    let failed = report (codes "NQR-L1002") (codes "unterminated block comment") at s' in
    let closed = advance (advance s') in
    if peek s' == 0
    then (make TokenKind.block_comment at failed, failed)
    else (make TokenKind.block_comment at closed, closed)

unfoldable pub slash_or_comment : Place → Lexer → Scanned
unfolding advance advance_while peek make block_comment
slash_or_comment at s =
    let opened = advance s in
    let s' = advance_while in_line opened.rest opened in
    if s.preserve_trivia && peek s == b'/'
    then (make TokenKind.line_comment at s', s')
    else if s.preserve_trivia && peek s == b'*'
    then block_comment at s
    else (make TokenKind.slash at s, s)

-- What `scanToken` does where it breaks out of its `switch`.
unfoldable pub unexpected : ℕ → Place → Lexer → Scanned
unfolding report make
unexpected c at s =
    let s' = report (codes "NQR-L1000") (codes "unexpected character '" ++ (c ∷ codes "'")) at s in
    (make TokenKind.eof at s', s')

-- The cases of the `switch` of `scanToken` that read on, behind the character `c`.
unfoldable pub longer_symbol : ℕ → Place → Lexer → Scanned
unfolding make make_match slash_or_comment string_literal unexpected advance peek
longer_symbol c at s =
    if c == b'/'
    then slash_or_comment at s
    else if c == b'!'
    then make_match b'=' TokenKind.bang_equal TokenKind.bang at s
    else if c == b'='
    then make_match b'=' TokenKind.equal_equal TokenKind.equal at s
    else if c == b'<'
    then make_match b'=' TokenKind.less_equal TokenKind.less at s
    else if c == b'>'
    then make_match b'=' TokenKind.greater_equal TokenKind.greater at s
    else if c == b'&'
    then make_match b'&' TokenKind.and_and TokenKind.ampersand at s
    else if c == b'|'
    then (if peek s == b'|'
        then (make TokenKind.or_or at (advance s), advance s)
        else unexpected c at s)
    else if c == b'"'
    then string_literal s
    else unexpected c at s

-- The `switch` of `scanToken`.
unfoldable pub scan_symbol : ℕ → Place → Lexer → Scanned
unfolding find make longer_symbol
scan_symbol c at s = elim (find singles c) [
  | some kind ↦ (make kind at s, s)
  | none ↦ longer_symbol c at s
]

-- `scanToken` behind the white space.
unfoldable pub scan_from : Text → Lexer → Scanned
unfolding make here advance identifier number scan_symbol
scan_from [] s = (make TokenKind.eof (here s) s, s)
scan_from (c ∷ rest) s =
    if is_alpha c || c == b'_'
    then identifier (advance s)
    else if is_digit c
    then number c (advance s)
    else scan_symbol c (here s) (advance s)

-- `scanToken`: fuel for one round more than there are characters.
unfoldable pub scan_token : Lexer → Option Scanned
unfolding skip_whitespace_and_comments scan_from
scan_token s = do
  s' ← skip_whitespace_and_comments (suc (length s.rest)) s
  some (scan_from s'.rest s')

unfoldable pub lex_from : ℕ → Lexer → Option (List Token × Lexer)
unfolding scan_token
lex_from zero s = none
lex_from (suc n) s = do
  r ← scan_token s
  elim (same_kind r.0.kind TokenKind.eof) [
    | true ↦ some (r.0 ∷ [], r.1)
    | false ↦ do q ← lex_from n r.1; some (r.0 ∷ q.0, q.1)
  ]

-- `Lexer::lex`, of a lexer on `source`.
unfoldable pub lex : Text → List Diagnostic → ℕ → Bool → Option (List Token × Lexer)
unfolding lex_from start_lexer
lex source items source_id preserve_trivia =
    lex_from (suc (length source)) (start_lexer source items source_id preserve_trivia)
