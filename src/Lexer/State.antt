-- ===== src/Lexer/State.antt =====
-- The state of `Lexer` and its primitives (Compiler/bootstrap/lexer_host.cpp). `rest` is the source from
-- `current_` on; where it ends `peek` gives a NUL.
use noe_code.Prelude.{
  ℕ, suc, ◌-◌, Bool, true, false, List, [], ◌∷◌, Text, codes, take, drop, ◌==◌, if◌then◌else◌,
}
use noe_code.Ast.{TokenKind, Token, Span, Diagnostic}
use noe_code.Diagnostics.{error}

pub record Lexer : Type 0 where
  pub source : Text
  pub rest : Text
  pub current : ℕ
  pub line : ℕ
  pub column : ℕ
  pub source_id : ℕ
  pub preserve_trivia : Bool
  pub diagnostics : List Diagnostic

-- `Lexer::Lexer`
unfoldable pub start_lexer : Text → List Diagnostic → ℕ → Bool → Lexer
start_lexer source items source_id preserve_trivia = record {
  source = source;
  rest = source;
  current = 0;
  line = 1;
  column = 1;
  source_id = source_id;
  preserve_trivia = preserve_trivia;
  diagnostics = items;
}

abbrev pub head_char : Text → ℕ
head_char [] = 0
head_char (c ∷ s) = c

abbrev pub tail_chars : Text → Text
tail_chars [] = []
tail_chars (c ∷ s) = s

-- `peek()` and `peek(1)`
unfoldable pub peek : Lexer → ℕ
peek s = head_char s.rest

unfoldable pub peek_next : Lexer → ℕ
peek_next s = head_char (tail_chars s.rest)

-- `advance()`, on what is left.
unfoldable pub advanced : Text → Lexer → Lexer
advanced [] s = s
advanced (c ∷ rest) s = record s {
  rest = rest;
  current = suc s.current;
  line = if c == 10 then suc s.line else s.line;
  column = if c == 10 then 1 else suc s.column;
}

unfoldable pub advance : Lexer → Lexer
unfolding advanced
advance s = advanced s.rest s

-- `while(test)advance();`, on what is left: no test holds at the end.
unfoldable pub advance_while : (Text → Bool) → Text → Lexer → Lexer
unfolding advance
advance_while test [] s = s
advance_while test (c ∷ rest) s = elim (test (c ∷ rest)) [
  | true ↦ advance_while test rest (advance s)
  | false ↦ s
]

-- Where a token starts.
pub record Place : Type 0 where
  pub start : ℕ
  pub line : ℕ
  pub column : ℕ

-- `start=current_,line=line_,col=column_`
unfoldable pub here : Lexer → Place
here s = record { start = s.current; line = s.line; column = s.column }

-- `start=current_-1,line=line_,col=column_-1`
unfoldable pub one_back : Lexer → Place
one_back s = record { start = s.current - 1; line = s.line; column = s.column - 1 }

unfoldable pub span_from : Place → Lexer → Span
span_from at s = record {
  start = at.start;
  end = s.current;
  line = at.line;
  column = at.column;
  source = s.source_id;
}

-- `source_.substr(start,current_-start)`
unfoldable pub text_from : Place → Lexer → Text
text_from at s = take (s.current - at.start) (drop at.start s.source)

-- `make(kind,start,line,col)`
unfoldable pub make : TokenKind → Place → Lexer → Token
unfolding span_from text_from
make kind at s = record { kind = kind; lexeme = text_from at s; span = span_from at s }

unfoldable pub report : Text → Text → Place → Lexer → Lexer
unfolding error span_from
report code message at s = record s {
  diagnostics = error code (span_from at s) message (codes "") s.diagnostics;
}
