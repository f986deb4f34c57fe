-- ===== src/Parser/State.antt =====
-- The state of `Parser`, its outcomes and its primitives (Compiler/bootstrap/parser_host.cpp). The
-- state holds the tokens from `current_` on and the token before them. At the end of the list
-- `peek` reads an `Eof`, which every list that the lexer makes ends with.
use noe_code.Prelude.{
  Bool, true, false, ◌||◌, List, [], ◌∷◌, Option, none, some, Text, codes, if◌then◌else◌,
}
use noe_code.Ast.{TokenKind, Token, Span, Diagnostic}
use noe_code.Diagnostics.{error}
use noe_code.Parser.Kinds.{same_kind, holds_kind}

pub record Parser : Type 0 where
  pub tokens : List Token
  pub previous : Token
  pub diagnostics : List Diagnostic

-- What a parsing function does: it returns, throws a `ParseError`, or throws what no handler of the
-- parser catches.
pub data Outcome (A : Type 0) : Type 0 where
  parsed : A → Parser → Outcome A
  parse_error : Parser → Outcome A
  thrown : Outcome A
  out_of_fuel : Outcome A

abbrev pub Parse : Type 0 → Type 0
Parse A = Parser → Outcome A

infixl 5 ◌>>=◌ ◌>>◌
unfoldable pub ◌>>=◌ : {A B : Type 0} → Parse A → (A → Parse B) → Parse B
◌>>=◌ m f s = elim (m s) [
  | parsed a s' ↦ f a s'
  | parse_error s' ↦ parse_error s'
  | thrown ↦ thrown
  | out_of_fuel ↦ out_of_fuel
]

unfoldable pub ◌>>◌ : {B : Type 0} → Parse (Unit {0}) → Parse B → Parse B
unfolding ◌>>=◌
m >> k = m >>= λ _. k

unfoldable pub pure : {A : Type 0} → A → Parse A
pure a s = parsed a s

unfoldable pub throw_other : {A : Type 0} → Parse A
throw_other s = thrown

unfoldable pub no_fuel : {A : Type 0} → Parse A
no_fuel s = out_of_fuel

abbrev pub no_span : Span
no_span = record { start = 0; end = 0; line = 1; column = 1; source = 0 }

abbrev pub eof_token : Token
eof_token = record { kind = TokenKind.eof; lexeme = codes ""; span = no_span }

abbrev pub head_token : List Token → Token
head_token [] = eof_token
head_token (t ∷ ts) = t

-- `peek()`
unfoldable pub peek : Parser → Token
peek s = head_token s.tokens

-- `advance()` on the tokens and the previous token: at an `Eof` it stays.
unfoldable pub advanced : List Token → Parser → Parser
advanced [] s = s
advanced (t ∷ ts) s =
    if same_kind t.kind TokenKind.eof then s else record s { tokens = ts; previous = t }

unfoldable pub advance : Parser → Parser
unfolding advanced
advance s = advanced s.tokens s

unfoldable pub previous_token : Parse Token
previous_token s = parsed s.previous s

-- `if(match(kinds)) p else q`
unfoldable pub on_match : {A : Type 0} → List TokenKind → Parse A → Parse A → Parse A
unfolding peek advance
on_match kinds p q s = if holds_kind kinds (peek s).kind then p (advance s) else q s

-- `match(kinds);`, with what it returns.
unfoldable pub match : List TokenKind → Parse Bool
unfolding on_match
match kinds = on_match kinds (pure true) (pure false)

-- `if(check(kinds)) p else q`, for one or several checks joined by `||`.
unfoldable pub on_check : {A : Type 0} → List TokenKind → Parse A → Parse A → Parse A
unfolding peek
on_check kinds p q s = if holds_kind kinds (peek s).kind then p s else q s

unfoldable pub report : Text → Text → Span → Parser → Parser
unfolding error
report code message span s = record s {
  diagnostics = error code span message (codes "") s.diagnostics;
}

-- `diagnostics_.error(code,peek().span,message);throw ParseError("parse");`
unfoldable pub fail : {A : Type 0} → Text → Text → Parse A
unfolding report peek
fail code message s = parse_error (report code message (peek s).span s)

unfoldable pub consume : TokenKind → Text → Parse Token
unfolding on_match fail previous_token
consume kind message = on_match (kind ∷ []) previous_token (fail (codes "NOE-P2000") message)

-- The tokens at which `synchronize` stops.
abbrev pub starters : List TokenKind
starters =
    TokenKind.function ∷ TokenKind.record_kw ∷ TokenKind.module_kw ∷ TokenKind.import
    ∷ TokenKind.extern ∷ TokenKind.export ∷ TokenKind.let_kw ∷ TokenKind.const_kw ∷ TokenKind.if_kw
    ∷ TokenKind.while_kw ∷ TokenKind.repeat ∷ TokenKind.return ∷ TokenKind.throw ∷ TokenKind.unsafe
    ∷ []

-- The loop of `synchronize`, on the tokens and the previous token.
unfoldable pub skip_from : List Token → Token → List Token × Token
skip_from [] previous = ([], previous)
skip_from (t ∷ ts) previous =
    let rest = skip_from ts t in
    if same_kind t.kind TokenKind.eof
      || (same_kind previous.kind TokenKind.semicolon || holds_kind starters t.kind)
    then (t ∷ ts, previous)
    else rest

unfoldable pub synchronize : Parser → Parser
unfolding advance skip_from
synchronize s =
    let s' = advance s in
    let r = skip_from s'.tokens s'.previous in record s' { tokens = r.0; previous = r.1 }

-- `try{...}catch(const ParseError&){synchronize();}`, with the value if there is one.
unfoldable pub recovered : {A : Type 0} → Parse A → Parse (Option A)
unfolding synchronize
recovered p s = elim (p s) [
  | parsed a s' ↦ parsed (some a) s'
  | parse_error s' ↦ parsed none (synchronize s')
  | thrown ↦ thrown
  | out_of_fuel ↦ out_of_fuel
]
