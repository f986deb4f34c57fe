-- ===== src/Optimizer/Fold.antt =====
-- `fold` against the interpreter's `binary`.
use noe_code.Prelude.{
  ℕ, ◌≡◌, refl, sym, ◌∙◌, true, false, ◌&&◌, some, Text, codes, text_eq, text_eq→eq, ◌||◌, arith,
  Bool-cases, inl, inr,
}
use noe_code.Prelude.Int.{ℤ, ◌+ℤ◌}
use noe_code.Nir.{Value, monostate, int, double, boolean, text}
use noe_code.Interp.Result.{ok, err, overflow_addition}
use noe_code.Interp.Arith.{IsI64, add_int, sub_int, mul_int, div_int, mod_int}
use noe_code.Interp.Arith.Laws.{add_int-checked_overflow}
use noe_code.Interp.Values.{Floats, truthy_value, binary, int_binary, double_binary, text_binary}
use noe_code.Optimizer.{truthy, fold, fold_ints, fold_doubles, fold_texts, fold_same}

-- `/` and `%` by zero are left to the tests below, which another operator would have to pass.
abbrev Agrees : Text → ℤ → ℤ → Type 0
Agrees op x y = (v : Value) → fold_ints op x y ≡ some v → int_binary false op x y ≡ some (ok v)

Agrees-quotient : (x y : ℤ) → Agrees (codes "/") x y
unfolding fold_ints int_binary div_int text_eq
Agrees-quotient x y v h = ground arith

Agrees-remainder : (x y : ℤ) → Agrees (codes "%") x y
unfolding fold_ints int_binary mod_int text_eq
Agrees-remainder x y v h = ground arith

Agrees-other :
    (op : Text) (x y : ℤ)
    → text_eq op (codes "/") ≡ false
    → text_eq op (codes "%") ≡ false
    → Agrees op x y
unfolding fold_ints int_binary add_int sub_int mul_int
Agrees-other op x y d m v h = ground arith

fold_ints-int_binary : (op : Text) (x y : ℤ) → Agrees op x y
fold_ints-int_binary op x y = elim (Bool-cases (text_eq op (codes "/"))) [
  | inl d ↦ rw (text_eq→eq op _ d) (Agrees-quotient x y)
  | inr d ↦ elim (Bool-cases (text_eq op (codes "%"))) [
    | inl m ↦ rw (text_eq→eq op _ m) (Agrees-remainder x y)
    | inr m ↦ Agrees-other op x y d m
  ]
]

fold_texts-text_binary :
    (op : Text) (x y : Text) {v : Value} → fold_texts op x y ≡ some v → text_binary op x y ≡ some v
unfolding fold_texts text_binary
fold_texts-text_binary op x y h = h

module _ (fl : Floats) where
  abbrev AgreesDouble : Text → ℕ → ℕ → Type 0
  AgreesDouble op x y =
      (v : Value) → fold_doubles fl op x y ≡ some v → double_binary fl op x y ≡ some v

  AgreesDouble-quotient : (x y : ℕ) → AgreesDouble (codes "/") x y
  unfolding fold_doubles double_binary text_eq
  AgreesDouble-quotient x y v h = ground arith

  AgreesDouble-other : (op : Text) (x y : ℕ) → text_eq op (codes "/") ≡ false → AgreesDouble op x y
  unfolding fold_doubles double_binary
  AgreesDouble-other op x y d v h = ground arith

  fold_doubles-double_binary : (op : Text) (x y : ℕ) → AgreesDouble op x y
  fold_doubles-double_binary op x y = elim (Bool-cases (text_eq op (codes "/"))) [
    | inl d ↦ rw (text_eq→eq op _ d) (AgreesDouble-quotient x y)
    | inr d ↦ AgreesDouble-other op x y d
  ]

  truthy-eq : (a : Value) → truthy fl a ≡ truthy_value fl a
  unfolding truthy truthy_value
  truthy-eq monostate = refl
  truthy-eq _ = refl

  -- The operators of numbers are not `&&` and `||`, where the two functions treat all values alike.
  and-agrees :
      (a b : Value)
      → (fold fl (codes "&&") a b ≡ some (boolean (truthy fl a && truthy fl b)))
        × (binary fl false (codes "&&") a b ≡ ok (boolean (truthy_value fl a && truthy_value fl b)))
  unfolding fold binary text_eq
  and-agrees a b = (ground arith, ground arith)

  or-agrees :
      (a b : Value)
      → (fold fl (codes "||") a b ≡ some (boolean (truthy fl a || truthy fl b)))
        × (binary fl false (codes "||") a b ≡ ok (boolean (truthy_value fl a || truthy_value fl b)))
  unfolding fold binary text_eq
  or-agrees a b = (ground arith, ground arith)

  same-agrees :
      (op : Text) (a b : Value) {v : Value}
      → fold_same fl op a b ≡ some v
      → binary fl false op a b ≡ ok v
  unfolding fold_same binary
  same-agrees op (int x) (int y) {v} h = rw (fold_ints-int_binary op x y v h)
  same-agrees op (double x) (double y) {v} h = rw (fold_doubles-double_binary op x y v h)
  same-agrees op (text x) (text y) {v} h = rw (fold_texts-text_binary op x y h)
  same-agrees op a b h = cc

  fold-no_logic :
      (op : Text) (a b : Value)
      → text_eq op (codes "&&") ≡ false
      → text_eq op (codes "||") ≡ false
      → fold fl op a b ≡ fold_same fl op a b
  unfolding fold
  fold-no_logic op a b h k = ground arith

  abbrev FoldAgrees : Text → Value → Value → Type 0
  FoldAgrees op a b = (v : Value) → fold fl op a b ≡ some v → binary fl false op a b ≡ ok v

  FoldAgrees-and : (a b : Value) → FoldAgrees (codes "&&") a b
  FoldAgrees-and a b v h =
      let (f, g) = and-agrees a b in ground (arith, f, g, truthy-eq a, truthy-eq b)

  FoldAgrees-or : (a b : Value) → FoldAgrees (codes "||") a b
  FoldAgrees-or a b v h =
      let (f, g) = or-agrees a b in ground (arith, f, g, truthy-eq a, truthy-eq b)

  fold_agrees : (op : Text) (a b : Value) → FoldAgrees op a b
  fold_agrees op a b = elim (Bool-cases (text_eq op (codes "&&"))) [
    | inl e ↦ rw (text_eq→eq op _ e) (FoldAgrees-and a b)
    | inr e ↦ elim (Bool-cases (text_eq op (codes "||"))) [
      | inl f ↦ rw (text_eq→eq op _ f) (FoldAgrees-or a b)
      | inr f ↦ λ v h. same-agrees op a b (sym (fold-no_logic op a b e f) ∙ h)
    ]
  ]

-- What folding computes is what the interpreter computes when overflow is not checked, for every
-- operator and all pairs of values; in particular the interpreter does not fail there.
pub fold-binary :
    (fl : Floats) (op : Text) (a b v : Value)
    → fold fl op a b ≡ some v
    → binary fl false op a b ≡ ok v
fold-binary fl op a b v h = fold_agrees fl op a b v h

-- Where the sum of two 64-bit integers does not fit, folding gives a literal for it, and the
-- interpreter that checks overflow fails: a program optimized before it runs loses the failure.
pub fold-hides_overflow :
    (fl : Floats) (a b : ℤ)
    → IsI64 a
    → IsI64 b
    → ¬ IsI64 (a +ℤ b)
    → ((v : Value) × (fold fl (codes "+") (int a) (int b) ≡ some v))
      × (binary fl true (codes "+") (int a) (int b) ≡ err overflow_addition)
unfolding fold binary int_binary text_eq fold_ints
fold-hides_overflow fl a b ha hb h = ((_, refl), rw (add_int-checked_overflow a b ha hb h))
