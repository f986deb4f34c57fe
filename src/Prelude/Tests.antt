-- ===== src/Prelude/Tests.antt =====
-- Boolean tests on the native numbers, and the conditional.
use Prim.Native.Nat.{ℕ, ◌<◌, compare, Ordering}
use mathlib.Core.Path.{◌≡◌, refl, ap}
use mathlib.Core.Logic.{◌↔◌, ◌⊎◌, inl, inr}
use mathlib.Core.Bool.{Bool, true, false}
use mathlib.Core.Option.{Option, none, some}
use native.Mathlib.Omega.{arith}

abbrev pub ltb : ℕ → ℕ → Bool
ltb a b = elim (compare a b) [ Ordering.lt ↦ true | _ ↦ false ]

abbrev pub leb : ℕ → ℕ → Bool
leb a b = elim (compare a b) [ Ordering.gt ↦ false | _ ↦ true ]

infix 50 ◌==◌
abbrev pub ◌==◌ : ℕ → ℕ → Bool
a == b = elim (compare a b) [ Ordering.eq ↦ true | _ ↦ false ]

infix 1 if◌then◌else◌
abbrev pub if◌then◌else◌ {ℓ} : {A : Type ℓ} → Bool → A → A → A
if true then x else y = x
if false then x else y = y

pub ltb→lt : (a b : ℕ) → ltb a b ≡ true → a < b
ltb→lt a b h = ground arith

pub ==_iff : (a b : ℕ) → ((a == b) ≡ true) ↔ (a ≡ b)
==_iff a b = ground arith

-- To split on a computed value and keep the equation.
pub Bool-cases : (b : Bool) → (b ≡ true) ⊎ (b ≡ false)
Bool-cases true = inl refl
Bool-cases false = inr refl

pub Option-cases {ℓ} : {A : Type ℓ} (o : Option A) → (o ≡ none) ⊎ ((a : A) × (o ≡ some a))
Option-cases none = inl refl
Option-cases (some a) = inr (a, refl)

pub some_injective {ℓ} : {A : Type ℓ} {a b : A} → some a ≡ some b → a ≡ b
some_injective {A} {a} e = ap (λ (o : Option A). elim o [ some n ↦ n | none ↦ a ]) e

pub if_both {ℓ κ} :
    {X : Type ℓ} {yes no : X} (Q : X → Type κ) (test : Bool)
    → Q yes
    → Q no
    → Q (if test then yes else no)
if_both Q false left right = right
if_both Q true left right = left

-- The same where each branch may know how the test came out.
pub if_cases {ℓ κ} :
    {X : Type ℓ} {yes no : X} (Q : X → Type κ) (test : Bool)
    → (test ≡ true → Q yes)
    → (test ≡ false → Q no)
    → Q (if test then yes else no)
if_cases Q false left right = right refl
if_cases Q true left right = left refl

-- The same of a split on an option.
pub option_both {ℓ κ μ} :
    {A : Type ℓ} {X : Type κ} {absent : X} {present : A → X} (Q : X → Type μ) (o : Option A)
    → Q absent
    → ((a : A) → o ≡ some a → Q (present a))
    → Q (elim o [ none ↦ absent | some a ↦ present a ])
option_both Q none left right = left
option_both Q (some a) left right = right a refl
