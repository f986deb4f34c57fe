-- ===== src/Lexer/Spans.antt =====
-- The places in the source that the functions of the lexer come to
-- (Compiler/bootstrap/lexer_host.cpp).
pub mod Skip
pub mod Tokens
pub mod Sources
use noe_code.Prelude.{
  ℕ, zero, suc, ◌+◌, ◌-◌, ◌≤◌, ◌<◌, ◌≡◌, ◌≢◌, refl, sym, ap, ◌∙◌, Bool, true, false, List, [], ◌∷◌,
  Text, take, drop, length, arith, if_cases, Bool-cases, inl, inr, ◌&&◌, ◌||◌, not, ◌==◌,
}
use noe_code.Ast.{TokenKind, Token, Diagnostic}
use noe_code.Lexer.State.{
  Lexer, Place, start_lexer, head_char, tail_chars, peek, advanced, advance, advance_while,
  text_from, make, report, span_from,
}
use noe_code.Lexer.Scan.{Scanned, string_rest}

-- What is left is the source from `current_` on.
pub record Valid (s : Lexer) : Type 0 where
  pub rest_of : s.rest ≡ drop s.current s.source
  pub count : s.current + length s.rest ≡ length s.source

-- From `s` the lexer has come to `s'`, on the same source.
pub record Ahead (s s' : Lexer) : Type 0 where
  pub same : s'.source ≡ s.source
  pub further : s.current ≤ s'.current
  pub valid : Valid s'

-- Between them the lexer has read the token of `r`, from `start` on.
pub record Reads (start : ℕ) (s : Lexer) (r : Scanned) : Type 0 where
  pub ahead : Ahead s r.1
  pub starts : r.0.span.start ≡ start
  pub ends : r.0.span.end ≡ r.1.current
  pub lexeme_of : r.0.lexeme ≡ take (r.1.current - start) (drop start r.1.source)

tail_chars-drop : (n : ℕ) (xs : Text) → tail_chars (drop n xs) ≡ drop (suc n) xs
tail_chars-drop zero [] = refl
tail_chars-drop zero (x ∷ xs) = refl
tail_chars-drop (suc n) [] = refl
tail_chars-drop (suc n) (x ∷ xs) = tail_chars-drop n xs

pub no_step : {s : Lexer} → Valid s → Ahead s s
no_step v = record { same = refl; further = omega arith; valid = v }

pub then-Ahead : {s s' s'' : Lexer} → Ahead s s' → Ahead s' s'' → Ahead s s''
then-Ahead a b = record {
  same = b.same ∙ a.same;
  further = omega (arith, a.further, b.further);
  valid = b.valid;
}

advanced-Ahead : (ts : Text) (s : Lexer) → s.rest ≡ ts → Valid s → Ahead s (advanced ts s)
unfolding advanced
advanced-Ahead [] s e v = no_step v
advanced-Ahead (c ∷ ts) s e v = record {
  same = refl;
  further = omega arith;
  valid = record {
    rest_of = ap tail_chars (sym e ∙ v.rest_of) ∙ tail_chars-drop s.current s.source;
    count = omega (arith, v.count, ap (λ (r : Text). length r) e);
  };
}

pub advance-Ahead : {s : Lexer} → Valid s → Ahead s (advance s)
unfolding advance
advance-Ahead {s} v = advanced-Ahead s.rest s refl v

current-advanced :
    (ts : Text) (s : Lexer) → head_char ts ≢ 0 → (advanced ts s).current ≡ suc s.current
unfolding advanced
current-advanced [] s h = absurd (h refl)
current-advanced (c ∷ ts) s h = refl

-- Only at the end, where `peek` gives a NUL, does `advance` stay.
pub current-advance : (s : Lexer) → peek s ≢ 0 → (advance s).current ≡ suc s.current
unfolding advance peek
current-advance s h = current-advanced s.rest s h

current-advanced_cons :
    (c : ℕ) (ts us : Text) (s : Lexer) → us ≡ c ∷ ts → (advanced us s).current ≡ suc s.current
unfolding advanced
current-advanced_cons c ts [] s h = absurd (cc h)
current-advanced_cons c ts (u ∷ us) s h = refl

pub current-advance_cons :
    (c : ℕ) (ts : Text) (s : Lexer) → s.rest ≡ c ∷ ts → (advance s).current ≡ suc s.current
unfolding advance
current-advance_cons c ts s h = current-advanced_cons c ts s.rest s h

rest-advanced : (c : ℕ) (ts us : Text) (s : Lexer) → us ≡ c ∷ ts → (advanced us s).rest ≡ ts
unfolding advanced
rest-advanced c ts [] s h = absurd (cc h)
rest-advanced c ts (u ∷ us) s h = ap tail_chars h

pub rest-advance : (c : ℕ) (ts : Text) (s : Lexer) → s.rest ≡ c ∷ ts → (advance s).rest ≡ ts
unfolding advance
rest-advance c ts s h = rest-advanced c ts s.rest s h

pub advance_while-Ahead :
    (test : Text → Bool) (ts : Text) (s : Lexer)
    → s.rest ≡ ts
    → Valid s
    → Ahead s (advance_while test ts s)
unfolding advance_while
advance_while-Ahead test [] s e v = no_step v
advance_while-Ahead test (c ∷ ts) s e v =
    let step = advance-Ahead v in
    elim (Bool-cases (test (c ∷ ts))) [
      | inl t ↦
          rw (t, advance_while)
            (then-Ahead step
              (advance_while-Ahead test ts (advance s) (rest-advance c ts s e) step.valid))
      | inr t ↦ rw (t, advance_while) (no_step v)
    ]

pub string_rest-Ahead : (ts : Text) (s : Lexer) → s.rest ≡ ts → Valid s → Ahead s (string_rest ts s)
unfolding string_rest
string_rest-Ahead [] s e v = no_step v
string_rest-Ahead (c ∷ []) s e v =
    if_cases (Ahead s) (c == b'"' || c == 0) (λ t. no_step v) (λ t. advance-Ahead v)
string_rest-Ahead (c ∷ d ∷ ts) s e v =
    let one = advance-Ahead v in
    let two = advance-Ahead one.valid in
    let first = rest-advance c (d ∷ ts) s e in
    elim (Bool-cases (c == b'"' || c == 0)) [
      | inl t ↦ rw (t, string_rest) (no_step v)
      | inr t ↦
          rw (t, string_rest)
            (elim (Bool-cases (c == 92 && not (d == 0))) [
              | inl u ↦
                  rw (u, string_rest)
                    (then-Ahead (then-Ahead one two) (
                      string_rest-Ahead ts (advance (advance s))
                        (rest-advance d ts (advance s) first) two.valid))
              | inr u ↦
                  rw (u, string_rest)
                    (then-Ahead one (string_rest-Ahead (d ∷ ts) (advance s) first one.valid))
            ])
    ]

pub report-Ahead :
    {s s' : Lexer} (code message : Text) (at : Place)
    → Ahead s s'
    → Ahead s (report code message at s')
unfolding report
report-Ahead code message at a = record {
  same = a.same;
  further = a.further;
  valid = record { rest_of = a.valid.rest_of; count = a.valid.count };
}

pub make-Reads :
    {s s' : Lexer} (kind : TokenKind) (at : Place) (start : ℕ)
    → at.start ≡ start
    → Ahead s s'
    → Reads start s (make kind at s', s')
unfolding make text_from span_from
make-Reads {s} {s'} kind at start e a = record {
  ahead = a;
  starts = e;
  ends = refl;
  lexeme_of = ap (λ (n : ℕ). take (s'.current - n) (drop n s'.source)) e;
}

pub start_lexer-Valid :
    (source : Text) (items : List Diagnostic) (n : ℕ) (b : Bool)
    → Valid (start_lexer source items n b)
unfolding start_lexer
start_lexer-Valid source items n b = record { rest_of = refl; count = omega arith }
