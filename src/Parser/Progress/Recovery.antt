-- ===== src/Parser/Progress/Recovery.antt =====
-- The tokens that recovery from an error takes off, and the loops up to a closing token
-- (Compiler/bootstrap/parser_host.cpp).
use noe_code.Prelude.{
  ℕ, zero, suc, ◌+◌, ◌<◌, ◌≤◌, ◌≡◌, refl, Bool, true, false, List, [], ◌∷◌, Option, some, none,
  arith, if◌then◌else◌, Bool-cases, inl, inr,
}
use noe_code.Ast.{TokenKind, Token}
use noe_code.Parser.Kinds.{same_kind, holds_kind}
use noe_code.Parser.State.{
  Parser, Outcome, parsed, parse_error, thrown, out_of_fuel, Parse, ◌>>=◌, peek, head_token,
  advance, advanced, skip_from, synchronize, recovered, on_check,
}
use noe_code.Parser.Declarations.{until}
use noe_code.Parser.Progress.{
  remaining, left, After, Within, Progress, bind, pure-Within, eq_of_test, bind-After, After-mono,
  holds_kind_eq,
}
use noe_code.Parser.Progress.Expressions.{no_fuel-Within}

remaining-if :
    (b : Bool) (x y : List Token × Token) (m : ℕ)
    → remaining x.0 ≤ m
    → remaining y.0 ≤ m
    → remaining (if b then x else y).0 ≤ m
remaining-if true x y m h k = h
remaining-if false x y m h k = k

remaining-skip_from : (ts : List Token) (t : Token) → remaining (skip_from ts t).0 ≤ remaining ts
unfolding remaining skip_from
remaining-skip_from [] t = omega arith
remaining-skip_from (u ∷ ts) t = elim (Bool-cases (same_kind u.kind TokenKind.eof)) [
  | inl e ↦ rw e (rw e (omega arith))
  | inr e ↦ rw e (
      remaining-if _ (u ∷ ts, t) (skip_from ts u) (suc (remaining ts)) (rw e (omega arith))
        (omega (arith, remaining-skip_from ts u)))
]

remaining-not_eof :
    (ts : List Token)
    → same_kind (head_token ts).kind TokenKind.eof ≡ false
    → (s : Parser) → suc (left (advanced ts s)) ≡ remaining ts
unfolding advanced remaining
remaining-not_eof [] h s = absurd (ground (arith, h))
remaining-not_eof (t ∷ ts) h s = rw h refl

-- At an `Eof` no token is left.
pub remaining-eof :
    (ts : List Token) → same_kind (head_token ts).kind TokenKind.eof ≡ true → remaining ts ≡ 0
unfolding remaining
remaining-eof [] h = refl
remaining-eof (t ∷ ts) h = rw h refl

left-advanced-eof :
    (ts : List Token) (s : Parser)
    → same_kind (head_token ts).kind TokenKind.eof ≡ true
    → left (advanced ts s) ≡ left s
unfolding advanced
left-advanced-eof [] s h = refl
left-advanced-eof (t ∷ ts) s h = rw h refl

left-synchronize : (s : Parser) (m : ℕ) → left s ≤ m → 0 < m → left (synchronize s) + 1 ≤ m
unfolding synchronize advance
left-synchronize s m h p =
    let skipped = remaining-skip_from (advanced s.tokens s).tokens (advanced s.tokens s).previous in
    elim (Bool-cases (same_kind (head_token s.tokens).kind TokenKind.eof)) [
      | inl e ↦ omega (arith, skipped, left-advanced-eof s.tokens s e, remaining-eof s.tokens e)
      | inr e ↦ omega (arith, skipped, remaining-not_eof s.tokens e s)
    ]

recovered-After :
    {A : Type 0} (m : ℕ) (o : Outcome A)
    → 0 < m
    → After m 1 o
    → After m 1 (elim o as (λ o. Outcome (Option A)) [
      | parsed a s' ↦ parsed (some a) s'
      | parse_error s' ↦ parsed none (synchronize s')
      | thrown ↦ thrown
      | out_of_fuel ↦ out_of_fuel
    ])
recovered-After m (parsed a s) p h = h
recovered-After m (parse_error s) p h = left-synchronize s m h p
recovered-After m thrown p h = tt
recovered-After m out_of_fuel p h = h

pub recovered-Progress :
    {A : Type 0} {l : ℕ} {p : Parse A} → Within l 1 p → Progress l (recovered p)
unfolding recovered
recovered-Progress {p} w = record {
  run = λ s lt pos. recovered-After (left s) (p s) pos (w.run s lt);
}

pub within-Progress : {A : Type 0} {l : ℕ} {p : Parse A} → Within l 1 p → Progress l p
within-Progress w = record { run = λ s lt pos. w.run s lt }

narrow-Progress :
    {A : Type 0} {l : ℕ} (l' : ℕ) {p : Parse A} → l' ≤ l → Progress l p → Progress l' p
narrow-Progress l' le w = record { run = λ s lt pos. w.run s (omega arith) pos }

bind-Progress :
    {A B : Type 0} {l : ℕ} {m : Parse A} {f : A → Parse B}
    → Progress l m
    → ((a : A) (l' : ℕ) → l' < l → Within l' 0 (f a))
    → Progress l (m >>= f)
unfolding ◌>>=◌
bind-Progress {l} {m} {f} h g = record {
  run = λ s lt pos.
      bind-After (left s) 1 0 1 f (m s) (omega arith) (h.run s lt pos)
        λ a s' q. (g a (suc (left s')) (omega arith)).run s' (omega arith);
}

-- Where an `Eof` is among the kinds, a token is left behind a check that failed.
pub positive_left :
    (kinds : List TokenKind) (s : Parser)
    → holds_kind kinds TokenKind.eof ≡ true
    → holds_kind kinds (head_token s.tokens).kind ≡ false
    → 0 < left s
positive_left kinds s h fails =
    elim (Bool-cases (same_kind (head_token s.tokens).kind TokenKind.eof)) [
      | inl e ↦ absurd (
          ground (
            arith,
            holds_kind_eq kinds (head_token s.tokens).kind TokenKind.eof (eq_of_test _ _ e),
            h,
            fails,
          ))
      | inr e ↦ omega (arith, remaining-not_eof s.tokens e s)
    ]

on_check-Progress :
    {A : Type 0} {l : ℕ} {p q : Parse A} (kinds : List TokenKind)
    → holds_kind kinds TokenKind.eof ≡ true
    → Within l 0 p
    → Progress l q
    → Within l 0 (on_check kinds p q)
unfolding on_check peek
on_check-Progress {q} kinds ends h g = record {
  run = λ s lt. elim (Bool-cases (holds_kind kinds (head_token s.tokens).kind)) [
    | inl e ↦ rw e (h.run s lt)
    | inr e ↦ rw e (
        After-mono (left s) 1 (left s) 0 (q s) (omega arith) (omega arith)
          (g.run s lt (positive_left kinds s ends e)))
  ];
}

pub until-Within :
    {A : Type 0} {p : Parse A} (kinds : List TokenKind) (n l : ℕ)
    → holds_kind kinds TokenKind.eof ≡ true
    → l ≤ n
    → Progress l p
    → Within l 0 (until kinds n p)
unfolding until
until-Within kinds zero l ends h w = no_fuel-Within h
until-Within kinds (suc n) l ends h w = on_check-Progress kinds ends (pure-Within []) (
    bind-Progress w λ x l₁ k₁.
      bind (until-Within kinds n l₁ ends (omega arith) (narrow-Progress l₁ (omega arith) w))
        λ xs l₂ k₂. pure-Within (x ∷ xs))
