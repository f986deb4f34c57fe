-- ===== src/Parser/Progress.antt =====
-- The number of tokens that the parsing functions take off (Compiler/bootstrap/parser_host.cpp).
pub mod Expressions
pub mod Recovery
pub mod Declarations
pub mod Statements
pub mod Programs
use noe_code.Prelude.{
  ℕ, zero, suc, ◌+◌, ◌<◌, ◌≤◌, ◌≡◌, refl, ap, ◌∙◌, codes, Bool, true, false, ◌||◌, List, [], ◌∷◌,
  Option, some, none, Text, arith, if◌then◌else◌, Bool-cases, inl, inr, ◌==◌,
}
use noe_code.Ast.{TokenKind, Token}
use noe_code.Parser.Kinds.{token_index, same_kind, holds_kind}
use noe_code.Parser.State.{
  Parser, Outcome, parsed, parse_error, thrown, out_of_fuel, Parse, ◌>>=◌, ◌>>◌, pure, throw_other,
  eof_token, peek, head_token, advance, advanced, previous_token, on_match, match, on_check, report,
  fail, consume, skip_from, synchronize, recovered, starters,
}

-- The tokens in front of the first `Eof`.
unfoldable pub remaining : List Token → ℕ
remaining [] = 0
remaining (t ∷ ts) =
    let more = suc (remaining ts) in if same_kind t.kind TokenKind.eof then 0 else more

abbrev pub left : Parser → ℕ
left s = remaining s.tokens

-- From a state with `m` tokens left: a value comes with `d` of them taken off at least.
abbrev pub After : {A : Type 0} → ℕ → ℕ → Outcome A → Type 0
After m d (parsed a s) = left s + d ≤ m
After m d (parse_error s) = left s ≤ m
After m d thrown = Unit
After m d out_of_fuel = ⊥

-- On every state with less than `l` tokens left.
pub record Within {A : Type 0} (l d : ℕ) (p : Parse A) : Type 0 where
  pub run : (s : Parser) → left s < l → After (left s) d (p s)

-- The same where at least one token is left.
pub record Progress {A : Type 0} (l : ℕ) (p : Parse A) : Type 0 where
  pub run : (s : Parser) → left s < l → 0 < left s → After (left s) 1 (p s)

After-mono :
    {A : Type 0} (m d m' d' : ℕ) (o : Outcome A)
    → m + d' ≤ m' + d
    → m ≤ m'
    → After m d o
    → After m' d' o
After-mono m d m' d' (parsed a s) l k h = omega arith
After-mono m d m' d' (parse_error s) l k h = omega arith
After-mono m d m' d' thrown l k h = tt
After-mono m d m' d' out_of_fuel l k h = h

shrink :
    {A : Type 0} {l d l' d' : ℕ} {p : Parse A} → l' ≤ l → d' ≤ d → Within l d p → Within l' d' p
shrink {l} {d} {l'} {d'} {p} le de h = record {
  run = λ s k. After-mono _ d _ d' (p s) (omega arith) (omega arith) (h.run s (omega arith));
}

-- What takes a token off puts none back.
pub drop : {A : Type 0} {l : ℕ} {p : Parse A} → Within l 1 p → Within l 0 p
drop {l} h = shrink {l = l} {d = 1} (omega arith) (omega arith) h

pub narrow : {A : Type 0} {l d : ℕ} (l' : ℕ) {p : Parse A} → l' ≤ l → Within l d p → Within l' d p
narrow {d} l' le h = shrink {d = d} le (omega arith) h

bind-After :
    {A B : Type 0} (m d e k : ℕ) (f : A → Parse B) (o : Outcome A)
    → k ≤ d + e
    → After m d o
    → ((a : A) (s : Parser) → left s + d ≤ m → After (left s) e (f a s))
    → After m k (elim o as (λ o. Outcome B) [
      | parsed a s' ↦ f a s'
      | parse_error s' ↦ parse_error s'
      | thrown ↦ thrown
      | out_of_fuel ↦ out_of_fuel
    ])
bind-After m d e k f (parsed a s) l h g =
    After-mono (left s) e m k (f a s) (omega arith) (omega arith) (g a s h)
bind-After m d e k f (parse_error s) l h g = h
bind-After m d e k f thrown l h g = tt
bind-After m d e k f out_of_fuel l h g = h

module _ {A B : Type 0} {l : ℕ} {m : Parse A} {f : A → Parse B} where
  bind_any :
      (d e k : ℕ)
      → k ≤ d + e
      → Within l d m
      → ((a : A) (l' : ℕ) → l' + d ≤ l → Within l' e (f a))
      → Within l k (m >>= f)
  unfolding ◌>>=◌
  bind_any d e k le h g = record {
    run = λ s lt.
        bind-After (left s) d e k f (m s) le (h.run s lt)
          λ a s' q. (g a (suc (left s')) (omega arith)).run s' (omega arith);
  }

  -- A first step that takes a token off, and one that may not.
  pub bind_token :
      Within l 1 m → ((a : A) (l' : ℕ) → l' < l → Within l' 0 (f a)) → Within l 1 (m >>= f)
  bind_token h g = bind_any 1 0 1 (omega arith) h (λ a l' q. g a l' (omega arith))

  pub bind :
      {k : ℕ}
      → Within l 0 m
      → ((a : A) (l' : ℕ) → l' ≤ l → Within l' k (f a))
      → Within l k (m >>= f)
  bind {k} h g = bind_any 0 k k (omega arith) h (λ a l' q. g a l' (omega arith))

pub pure-Within : {A : Type 0} {l : ℕ} (a : A) → Within l 0 (pure a)
unfolding pure
pure-Within a = record { run = λ s lt. omega arith }

pub throw_other-Within : {A : Type 0} {l d : ℕ} → Within {A = A} l d throw_other
unfolding throw_other
throw_other-Within = record { run = λ s lt. tt }

pub previous_token-Within : {l : ℕ} → Within l 0 previous_token
unfolding previous_token
previous_token-Within = record { run = λ s lt. omega arith }

pub fail-Within :
    {A : Type 0} {l d : ℕ} (code message : Text) → Within {A = A} l d (fail code message)
unfolding fail report
fail-Within code message = record { run = λ s lt. omega arith }

eq_of_test : (x y : ℕ) → (x == y) ≡ true → x ≡ y
eq_of_test x y h = ground arith

holds_kind_eq :
    (kinds : List TokenKind) (a b : TokenKind)
    → token_index a ≡ token_index b
    → holds_kind kinds a ≡ holds_kind kinds b
holds_kind_eq [] a b h = refl
holds_kind_eq (k ∷ kinds) a b h =
    ap (λ (x : ℕ). x == token_index k || holds_kind kinds a) h
    ∙ ap (λ (y : Bool). token_index b == token_index k || y) (holds_kind_eq kinds a b h)

-- Kinds that are no `Eof`.
abbrev pub NoEof : List TokenKind → Type 0
NoEof kinds = holds_kind kinds TokenKind.eof ≡ false

remaining-advanced :
    (kinds : List TokenKind) (ts : List Token) (s : Parser)
    → NoEof kinds
    → holds_kind kinds (head_token ts).kind ≡ true
    → suc (left (advanced ts s)) ≡ remaining ts
unfolding advanced remaining
remaining-advanced kinds [] s n h = absurd (ground (arith, n, h))
remaining-advanced kinds (t ∷ ts) s n h = elim (Bool-cases (same_kind t.kind TokenKind.eof)) [
  | inl e ↦
      absurd (ground (arith, holds_kind_eq kinds t.kind TokenKind.eof (eq_of_test _ _ e), n, h))
  | inr e ↦ rw e refl
]

module _ {A : Type 0} {l k : ℕ} {p q : Parse A} where
  pub on_match-Within :
      (kinds : List TokenKind)
      → NoEof kinds
      → k ≤ 1
      → ((l' : ℕ) → l' < l → Within l' 0 p)
      → Within l k q
      → Within l k (on_match kinds p q)
  unfolding on_match peek advance
  on_match-Within kinds n le h g = record {
    run = λ s lt. elim (Bool-cases (holds_kind kinds (head_token s.tokens).kind)) [
      | inl e ↦
          let less = remaining-advanced kinds s.tokens s n e in
          let s' = advanced s.tokens s in
          rw e (
            After-mono (left s') 0 (left s) k (p s') (omega (arith, less)) (omega (arith, less))
              ((h (suc (left s')) (omega (arith, less))).run s' (omega arith)))
      | inr e ↦ rw e (g.run s lt)
    ];
  }

  pub on_check-Within :
      (kinds : List TokenKind) → Within l k p → Within l k q → Within l k (on_check kinds p q)
  unfolding on_check peek
  on_check-Within kinds h g = record {
    run = λ s lt. elim (Bool-cases (holds_kind kinds (head_token s.tokens).kind)) [
      | inl e ↦ rw e (h.run s lt)
      | inr e ↦ rw e (g.run s lt)
    ];
  }

pub match-Within : {l : ℕ} (kinds : List TokenKind) → NoEof kinds → Within l 0 (match kinds)
unfolding match
match-Within kinds n =
    on_match-Within kinds n (omega arith) (λ l' lt. pure-Within true) (pure-Within false)

pub consume-Within :
    {l : ℕ} (kind : TokenKind) (message : Text)
    → NoEof (kind ∷ [])
    → Within l 1 (consume kind message)
unfolding consume
consume-Within kind message n =
    on_match-Within (kind ∷ []) n (omega arith) (λ l' lt. previous_token-Within)
      (fail-Within (codes "NOE-P2000") message)
