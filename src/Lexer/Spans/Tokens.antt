-- ===== src/Lexer/Spans/Tokens.antt =====
-- The place of a single token (Compiler/bootstrap/lexer_host.cpp).
use noe_code.Prelude.{
  ℕ, suc, ◌<◌, ◌≡◌, refl, false, ◌||◌, [], ◌∷◌, ◌++◌, none, some, Text, codes, arith, if_both, ◌==◌,
  find,
}
use noe_code.Ast.{TokenKind}
use noe_code.Parser.Kinds.{same_kind}
use noe_code.Lexer.Chars.{is_digit, is_alpha, singles}
use noe_code.Lexer.State.{Lexer, Place, here, one_back, peek, advance, make}
use noe_code.Lexer.Scan.{
  in_line, in_comment, in_name, Scanned, identifier, number, string_literal, make_match,
  block_comment, slash_or_comment, unexpected, longer_symbol, scan_symbol, scan_from,
}
use noe_code.Lexer.Spans.{
  Valid, Reads, no_step, then-Ahead, advance-Ahead, advance_while-Ahead, string_rest-Ahead,
  report-Ahead, make-Reads, current-advance_cons,
}

module _ (start : ℕ) (s : Lexer) (v : Valid s) where
  identifier-Reads : s.current ≡ suc start → Reads start s (identifier s)
  unfolding identifier one_back
  identifier-Reads e =
      make-Reads _ (one_back s) start (omega (arith, e))
        (advance_while-Ahead in_name s.rest s refl v)

  number-Reads : (c : ℕ) → s.current ≡ suc start → Reads start s (number c s)
  unfolding number one_back
  number-Reads c e =
      let one = advance-Ahead v in
      let hex =
        then-Ahead one (advance_while-Ahead _ (advance s).rest (advance s) refl one.valid) in
      let whole = advance_while-Ahead _ s.rest s refl v in
      let dot = advance-Ahead whole.valid in
      let fraction = then-Ahead (then-Ahead whole dot) (advance_while-Ahead _ _ _ refl dot.valid) in
      if_both (Reads start s) _
        (make-Reads TokenKind.integer (one_back s) start (omega (arith, e)) hex)
        (if_both (Reads start s) _
          (make-Reads TokenKind.float (one_back s) start (omega (arith, e)) fraction)
          (make-Reads TokenKind.integer (one_back s) start (omega (arith, e)) whole))

  string_literal-Reads : s.current ≡ suc start → Reads start s (string_literal s)
  unfolding string_literal one_back
  string_literal-Reads e =
      let read = string_rest-Ahead s.rest s refl v in
      if_both (Reads start s) _
        (make-Reads TokenKind.string (one_back s) start (omega (arith, e)) (
          report-Ahead (codes "NQR-L1001") (codes "unterminated string literal") (one_back s) read))
        (make-Reads TokenKind.string (one_back s) start (omega (arith, e))
          (then-Ahead read (advance-Ahead read.valid)))

  module _ (at : Place) (same : at.start ≡ start) where
    make_match-Reads :
        (expected : ℕ) (both alone : TokenKind)
        → Reads start s (make_match expected both alone at s)
    unfolding make_match
    make_match-Reads expected both alone =
        if_both (Reads start s) _ (make-Reads both at start same (advance-Ahead v))
          (make-Reads alone at start same (no_step v))

    block_comment-Reads : Reads start s (block_comment at s)
    unfolding block_comment
    block_comment-Reads =
        let one = advance-Ahead v in
        let read =
          then-Ahead one
            (advance_while-Ahead in_comment (advance s).rest (advance s) refl one.valid) in
        let closed = then-Ahead read (advance-Ahead read.valid) in
        if_both (Reads start s) _
          (make-Reads TokenKind.block_comment at start same
            (report-Ahead (codes "NQR-L1002") (codes "unterminated block comment") at read))
          (make-Reads TokenKind.block_comment at start same
            (then-Ahead closed (advance-Ahead closed.valid)))

    slash_or_comment-Reads : Reads start s (slash_or_comment at s)
    unfolding slash_or_comment
    slash_or_comment-Reads =
        let one = advance-Ahead v in
        if_both (Reads start s) _
          (make-Reads TokenKind.line_comment at start same (
            then-Ahead one
              (advance_while-Ahead in_line (advance s).rest (advance s) refl one.valid)))
          (if_both (Reads start s) _ block_comment-Reads
            (make-Reads TokenKind.slash at start same (no_step v)))

    unexpected-Reads : (c : ℕ) → Reads start s (unexpected c at s)
    unfolding unexpected
    unexpected-Reads c = make-Reads TokenKind.eof at start same (
        report-Ahead (codes "NQR-L1000") (codes "unexpected character '" ++ (c ∷ codes "'")) at
          (no_step v))

    longer_symbol-Reads : (c : ℕ) → s.current ≡ suc start → Reads start s (longer_symbol c at s)
    unfolding longer_symbol
    longer_symbol-Reads c e = if_both (Reads start s) (c == b'/') slash_or_comment-Reads (
        if_both (Reads start s) (c == b'!')
          (make_match-Reads b'=' TokenKind.bang_equal TokenKind.bang)
          (if_both (Reads start s) (c == b'=')
            (make_match-Reads b'=' TokenKind.equal_equal TokenKind.equal)
            (if_both (Reads start s) (c == b'<')
              (make_match-Reads b'=' TokenKind.less_equal TokenKind.less)
              (if_both (Reads start s) (c == b'>')
                (make_match-Reads b'=' TokenKind.greater_equal TokenKind.greater)
                (if_both (Reads start s) (c == b'&')
                  (make_match-Reads b'&' TokenKind.and_and TokenKind.ampersand)
                  (if_both (Reads start s) (c == b'|')
                    (if_both (Reads start s) (peek s == b'|')
                      (make-Reads TokenKind.or_or at start same (advance-Ahead v))
                      (unexpected-Reads c))
                    (if_both (Reads start s) (c == b'"') (string_literal-Reads e)
                      (unexpected-Reads c))))))))

    scan_symbol-Reads : (c : ℕ) → s.current ≡ suc start → Reads start s (scan_symbol c at s)
    unfolding scan_symbol
    scan_symbol-Reads c e =
        elim (find singles c)
          as (λ o. Reads start s (elim o as (λ o. Scanned) [
            | some kind ↦ (make kind at s, s)
            | none ↦ longer_symbol c at s
          ])) [
            | some kind ↦ make-Reads kind at start same (no_step v)
            | none ↦ longer_symbol-Reads c e
          ]

-- Every token but an `Eof` takes a character.
pub scan_from-Reads :
    (ts : Text) (s : Lexer)
    → s.rest ≡ ts
    → Valid s
    → Reads s.current s (scan_from ts s)
      × (same_kind (scan_from ts s).0.kind TokenKind.eof ≡ false
          → s.current < (scan_from ts s).1.current)
unfolding scan_from make here
scan_from-Reads [] s e v =
    (make-Reads TokenKind.eof (here s) s.current refl (no_step v), λ h. absurd (ground (arith, h)))
scan_from-Reads (c ∷ ts) s e v =
    let one = advance-Ahead v in
    let next = current-advance_cons c ts s e in
    let read : Reads s.current (advance s) (scan_from (c ∷ ts) s) =
      if_both (Reads s.current (advance s)) (is_alpha c || c == b'_')
        (identifier-Reads s.current (advance s) one.valid next)
        (if_both (Reads s.current (advance s)) (is_digit c)
          (number-Reads s.current (advance s) one.valid c next)
          (scan_symbol-Reads s.current (advance s) one.valid (here s) refl c next)) in
    (
      record {
        ahead = then-Ahead one read.ahead;
        starts = read.starts;
        ends = read.ends;
        lexeme_of = read.lexeme_of;
      },
      λ h. omega (arith, next, read.ahead.further),
    )
