-- ===== src/Lexer/Spans/Sources.antt =====
-- The places of the tokens of a whole source: `Lexer::lex` (Compiler/bootstrap/lexer_host.cpp).
use noe_code.Prelude.{
  ℕ, zero, suc, ◌-◌, ◌≤◌, ◌<◌, ◌≡◌, refl, ap, sym, subst, ◌∙◌, Bool, true, false, List, [], ◌∷◌,
  Option, some, Text, length, arith, take, drop, Bool-cases, inl, inr,
}
use noe_code.Prelude.Opt.{◌>>=◌}
use noe_code.Ast.{TokenKind, Token, Diagnostic}
use noe_code.Parser.Kinds.{same_kind}
use noe_code.Lexer.State.{Lexer, start_lexer}
use noe_code.Lexer.Scan.{Scanned, scan_from, scan_token, lex_from, lex}
use noe_code.Lexer.Spans.{Valid, Ahead, Reads, then-Ahead, start_lexer-Valid}
use noe_code.Lexer.Spans.Skip.{skip-Ahead}
use noe_code.Lexer.Spans.Tokens.{scan_from-Reads}

-- A token at or behind `from`, whose lexeme is what the source has at its span.
pub record Placed (source : Text) (from : ℕ) (t : Token) : Type 0 where
  pub behind : from ≤ t.span.start
  pub ordered : t.span.start ≤ t.span.end
  pub inside : t.span.end ≤ length source
  pub lexeme_of : t.lexeme ≡ take (t.span.end - t.span.start) (drop t.span.start source)

-- Tokens one behind the other, none of them empty, and a last one that alone is an `Eof`.
pub data Lexed (source : Text) : ℕ → List Token → Type 0 where
  last :
      {from : ℕ} (t : Token)
      → Placed source from t
      → same_kind t.kind TokenKind.eof ≡ true
      → Lexed source from (t ∷ [])
  more :
      {from : ℕ} (t : Token) (ts : List Token)
      → Placed source from t
      → same_kind t.kind TokenKind.eof ≡ false
      → t.span.start < t.span.end
      → Lexed source t.span.end ts
      → Lexed source from (t ∷ ts)

Reads-Placed :
    (s s' : Lexer) (r : Scanned)
    → Ahead s s'
    → Reads s'.current s' r
    → Placed s.source s.current r.0
Reads-Placed s s' r a h =
    let source = h.ahead.same ∙ a.same in
    let tokens_end = h.ends in
    record {
      behind = omega (arith, a.further, h.starts);
      ordered = omega (arith, h.starts, h.ends, h.ahead.further);
      inside = omega (arith, h.ends, h.ahead.valid.count, ap (λ (x : Text). length x) source);
      lexeme_of =
          h.lexeme_of
          ∙ (ap (λ (x : Text). take (r.1.current - s'.current) (drop s'.current x)) source
              ∙ (ap (λ (n : ℕ). take (n - s'.current) (drop s'.current s.source)) (sym h.ends)
                  ∙ ap (λ (n : ℕ). take (r.0.span.end - n) (drop n s.source)) (sym h.starts)));
    }

record Next (s : Lexer) (r : Scanned) : Type 0 where
  scanned : scan_token s ≡ some r
  placed : Placed s.source s.current r.0
  ahead : Ahead s r.1
  ends : r.0.span.end ≡ r.1.current
  filled : same_kind r.0.kind TokenKind.eof ≡ false → r.0.span.start < r.0.span.end

scan_token-Next : (s : Lexer) → Valid s → (r : Scanned) × Next s r
unfolding scan_token
scan_token-Next s v =
    let (s', skipped, a) = skip-Ahead (suc (length s.rest)) s v (omega arith) in
    let read = scan_from-Reads s'.rest s' refl a.valid in
    (
      scan_from s'.rest s',
      record {
        scanned = rw skipped refl;
        placed = Reads-Placed s s' (scan_from s'.rest s') a read.0;
        ahead = then-Ahead a read.0.ahead;
        ends = read.0.ends;
        filled = λ h. omega (arith, read.0.starts, read.0.ends, read.1 h);
      },
    )

-- What a round of `lex` does behind its token.
unfoldable continued : Bool → Scanned → Option (List Token × Lexer) → Option (List Token × Lexer)
continued b r more_tokens = elim b [
  | true ↦ some (r.0 ∷ [], r.1)
  | false ↦ more_tokens >>= λ q. some (r.0 ∷ q.0, q.1)
]

lex_from-continued :
    (n : ℕ) (s : Lexer) (r : Scanned) (b : Bool) (o : Option (List Token × Lexer))
    → scan_token s ≡ some r
    → same_kind r.0.kind TokenKind.eof ≡ b
    → lex_from n r.1 ≡ o
    → lex_from (suc n) s ≡ continued b r o
unfolding lex_from continued
lex_from-continued n s r b o h e m =
    ap
      (λ (x : Option Scanned).
        x >>= λ (r : Scanned). continued (same_kind r.0.kind TokenKind.eof) r (lex_from n r.1))
      h
    ∙ (ap (λ (b : Bool). continued b r (lex_from n r.1)) e ∙ ap (continued b r) m)

lex_from-Lexed :
    (n : ℕ) (s : Lexer)
    → Valid s
    → length s.rest < n
    → (r : List Token × Lexer) × (lex_from n s ≡ some r) × Lexed s.source s.current r.0
unfolding continued
lex_from-Lexed zero s v h = absurd (omega arith)
lex_from-Lexed (suc n) s v h =
    let ((t, s'), next) = scan_token-Next s v in
    let same_length = ap (λ (x : Text). length x) next.ahead.same in
    elim (Bool-cases (same_kind t.kind TokenKind.eof)) [
      | inl e ↦ (
        (t ∷ [], s'),
        lex_from-continued n s (t, s') true _ next.scanned e refl,
        last t next.placed e,
      )
      | inr e ↦
          let (r, rest, tokens) = lex_from-Lexed n s' next.ahead.valid (
            omega (
              arith,
              v.count,
              next.ahead.valid.count,
              same_length,
              next.placed.behind,
              next.filled e,
              next.ends,
            )) in
          (
            (t ∷ r.0, r.1),
            lex_from-continued n s (t, s') false (some r) next.scanned e rest,
            more t r.0 next.placed e (next.filled e) (
                subst (λ source. Lexed source t.span.end r.0) next.ahead.same
                  (subst (λ n. Lexed s'.source n r.0) (sym next.ends) tokens)),
          )
    ]

-- `Lexer::lex` comes to an end on every source, also one with unterminated comments or texts or with
-- characters of no token, in as many rounds as there are characters. Its tokens stand one behind the
-- other inside the source, each but the last has a character at least, the lexeme of each is what the
-- source has at its span, and the last is an `Eof`, which no other is.
pub lex-Lexed :
    (source : Text) (items : List Diagnostic) (source_id : ℕ) (preserve_trivia : Bool)
    → (r : List Token × Lexer) × (lex source items source_id preserve_trivia ≡ some r)
      × Lexed source 0 r.0
unfolding lex start_lexer
lex-Lexed source items source_id preserve_trivia =
    lex_from-Lexed (suc (length source)) (start_lexer source items source_id preserve_trivia)
      (start_lexer-Valid source items source_id preserve_trivia) (omega arith)
