-- ===== src/Lexer/Spans/Skip.antt =====
-- The places that white space and comments lead to (Compiler/bootstrap/lexer_host.cpp).
use noe_code.Prelude.{
  ℕ, zero, suc, ◌<◌, ◌≡◌, ◌≢◌, refl, ap, sym, ◌∙◌, Bool, true, false, ◌&&◌, [], ◌∷◌, Option, some,
  Text, codes, length, arith, if_cases, if_both, ◌==◌,
}
use noe_code.Lexer.Chars.{is_space}
use noe_code.Lexer.State.{
  Lexer, Place, here, head_char, peek, peek_next, advance, advance_while, report,
}
use noe_code.Lexer.Scan.{
  in_line, in_comment, Round, again, stop, skip_comment, skip_round, skip_whitespace_and_comments,
}
use noe_code.Lexer.Spans.{
  Valid, Ahead, no_step, then-Ahead, advance-Ahead, current-advance, advance_while-Ahead,
  report-Ahead, rest-advance,
}

-- A round that is followed by another has taken a character.
abbrev Rounded : Lexer → Round → Type 0
Rounded s (again s') = Ahead s s' × (s.current < s'.current)
Rounded s (stop s') = Ahead s s'

further_by_one :
    (s : Lexer) {s' : Lexer} → peek s ≢ 0 → Ahead (advance s) s' → s.current < s'.current
further_by_one s h a = omega (arith, current-advance s h, a.further)

nonzero : (x c : ℕ) → (x == suc c) ≡ true → x ≢ 0
nonzero x c h e = ground arith

is_space_nonzero : (x : ℕ) → is_space x ≡ true → x ≢ 0
unfolding is_space
is_space_nonzero x h e = ground arith

advance_while-first :
    (test : Text → Bool) (ts : Text) (s : Lexer)
    → s.rest ≡ ts
    → Valid s
    → test ts ≡ true
    → head_char ts ≢ 0
    → s.current < (advance_while test ts s).current
unfolding advance_while peek
advance_while-first test [] s e v t h = absurd (h refl)
advance_while-first test (c ∷ ts) s e v t h =
    let step = advance-Ahead v in
    rw (t, advance_while)
      (further_by_one s (λ z. h (sym (ap head_char e) ∙ z))
        (advance_while-Ahead test ts (advance s) (rest-advance c ts s e) step.valid))

skip_comment-Rounded :
    (at : Place) (s : Lexer) → Valid s → peek s ≢ 0 → Rounded s (skip_comment at s)
unfolding skip_comment
skip_comment-Rounded at s v h =
    let one = advance-Ahead v in
    let two = advance-Ahead one.valid in
    let opened = advance (advance s) in
    let end = advance_while in_comment opened.rest opened in
    let read = advance_while-Ahead in_comment opened.rest opened refl two.valid in
    let from_one = then-Ahead two read in
    let closed =
      then-Ahead (advance-Ahead read.valid) (advance-Ahead (advance-Ahead read.valid).valid) in
    if_both {yes = stop (report (codes "NQR-L1002") (codes "unterminated block comment") at end)}
      {no = again (advance (advance end))} (Rounded s) (peek end == 0)
      (report-Ahead (codes "NQR-L1002") (codes "unterminated block comment") at
        (then-Ahead one from_one))
      (then-Ahead (then-Ahead one from_one) closed, further_by_one s h (then-Ahead from_one closed))

left_of : (a b : Bool) → a && b ≡ true → a ≡ true
left_of true b h = refl
left_of false b h = h

in_line-slash : (ts : Text) → (head_char ts == 47) ≡ true → in_line ts ≡ true
in_line-slash ts h = ground arith

skip_round-Rounded : (s : Lexer) → Valid s → Rounded s (skip_round s)
unfolding skip_round peek
skip_round-Rounded s v =
    if_cases {yes = again (advance s)} (Rounded s) (is_space (peek s))
      (λ t. (
        advance-Ahead v,
        further_by_one s (is_space_nonzero (peek s) t) (no_step (advance-Ahead v).valid),
      ))
      (λ t.
        if_cases (Rounded s) (peek s == b'/' && peek_next s == b'/')
          (λ u.
            if_both {yes = stop s} {no = again (advance_while in_line s.rest s)} (Rounded s)
              s.preserve_trivia (no_step v)
              (
                advance_while-Ahead in_line s.rest s refl v,
                advance_while-first in_line s.rest s refl v (in_line-slash s.rest (left_of _ _ u))
                    (nonzero (peek s) 46 (left_of _ _ u)),
              ))
          (λ u.
            if_cases (Rounded s) (peek s == b'/' && peek_next s == b'*')
              (λ w.
                if_both (Rounded s) s.preserve_trivia (no_step v)
                  (skip_comment-Rounded (here s) s v (nonzero (peek s) 46 (left_of _ _ w))))
              (λ w. no_step v)))

-- What `skipWhitespaceAndComments` comes to, with fuel for a round more than there are characters left.
pub skip-Ahead :
    (n : ℕ) (s : Lexer)
    → Valid s
    → length s.rest < n
    → (s' : Lexer) × (skip_whitespace_and_comments n s ≡ some s') × Ahead s s'
unfolding skip_whitespace_and_comments
skip-Ahead zero s v h = absurd (omega arith)
skip-Ahead (suc n) s v h =
    elim (skip_round s)
        as (λ r.
          Rounded s r
          → (s' : Lexer) × (elim r as (λ r. Option Lexer) [
            | again s' ↦ skip_whitespace_and_comments n s'
            | stop s' ↦ some s'
          ]
              ≡ some s')
            × Ahead s s') [
              | again s' ↦ λ r.
                  let rest = skip-Ahead n s' r.0.valid (
                    omega
                      (arith, v.count, r.0.valid.count, ap (λ (x : Text). length x) r.0.same)) in
                  (rest.0, rest.1, then-Ahead r.0 rest.2)
              | stop s' ↦ λ r. (s', refl, r)
            ]
      (skip_round-Rounded s v)
