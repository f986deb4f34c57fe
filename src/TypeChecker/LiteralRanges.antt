-- ===== src/TypeChecker/LiteralRanges.antt =====
-- Which literals fit a type (`literalFitsInteger`, `literalInteger`, Compiler/type_checker.cpp).
use noe_code.Prelude.{
  some_injective, ◌-◌, ◌^◌, ◌≡◌, refl, sym, subst, ◌↔◌, ◌⊎◌, inl, inr, Bool, true, false, ◌||◌,
  none, some, arith, Option-cases, ◌==◌, if◌then◌else◌,
}
use noe_code.Prelude.Opt.{bind-some}
use noe_code.Prelude.Int.{ℤ, pos, negsuc, ◌-ℤ◌}
use noe_code.Types.{
  TypeKind, Ty, kind, is_integer, is_integer_kind, integer_bits, integer_signed, can_assign,
}
use noe_code.Types.Ranges.{InRange}
use noe_code.Nir.{Value}
use noe_code.Ast.{TokenKind, Expr, literal, unary}
use noe_code.TypeChecker.Literals.{
  negated, signed, integer_literal, literal_fits_integer, literal_fits, can_assign_value,
}

-- For a value that an `int64_t` holds, the test is that it lies in the range of the type.
literal_fits_integer_iff :
    (k : TypeKind) (v : ℤ)
    → is_integer_kind k ≡ true
    → InRange TypeKind.i64 v
    → (literal_fits_integer k v ≡ true) ↔ InRange k v
unfolding literal_fits_integer is_integer_kind integer_bits integer_signed
literal_fits_integer_iff TypeKind.u8 v h r = ground arith
literal_fits_integer_iff TypeKind.u16 v h r = ground arith
literal_fits_integer_iff TypeKind.u32 v h r = ground arith
literal_fits_integer_iff TypeKind.u64 v h r = ground arith
literal_fits_integer_iff TypeKind.usize v h r = ground arith
literal_fits_integer_iff TypeKind.i8 v h r = ground arith
literal_fits_integer_iff TypeKind.i16 v h r = ground arith
literal_fits_integer_iff TypeKind.i32 v h r = ground arith
literal_fits_integer_iff TypeKind.i64 v h r = (λ e. r, λ e. refl)
literal_fits_integer_iff TypeKind.isize v h r = (λ e. r, λ e. refl)
literal_fits_integer_iff TypeKind.int v h r = (λ e. r, λ e. refl)
literal_fits_integer_iff _ v h r = cc

if_none : (b : Bool) {v w : ℤ} → (if b then none else some v) ≡ some w → (b ≡ false) × (v ≡ w)
if_none true h = cc
if_none false h = (refl, some_injective h)

negated-InRange :
    (v : ℤ) {w : ℤ} → InRange TypeKind.i64 v → negated v ≡ some w → InRange TypeKind.i64 w
unfolding negated ◌-ℤ◌ integer_bits integer_signed
negated-InRange (pos n) {w} r h = subst (InRange TypeKind.i64) (some_injective h) (ground arith)
negated-InRange (negsuc n) {w} r h =
    let (f, g) = if_none (n == 2 ^ 63 - 1) h in subst (InRange TypeKind.i64) g (ground (arith, f))

signed-InRange :
    (op : TokenKind) (v : ℤ) {w : ℤ}
    → InRange TypeKind.i64 v
    → signed op v ≡ some w
    → InRange TypeKind.i64 w
unfolding signed
signed-InRange TokenKind.plus v r h = subst (InRange TypeKind.i64) (some_injective h) r
signed-InRange TokenKind.minus v r h = negated-InRange v r h
signed-InRange _ v r h = cc

-- Every integer literal below the signs is one that an `int64_t` holds.
abbrev pub IsInt64 : Expr → Type 0
IsInt64 (literal sp (Value.int v)) = InRange TypeKind.i64 v
IsInt64 (unary sp op e w q) = IsInt64 e
IsInt64 _ = Unit

integer_literal-InRange :
    (e : Expr) {v : ℤ} → IsInt64 e → integer_literal e ≡ some v → InRange TypeKind.i64 v
unfolding integer_literal
integer_literal-InRange (literal sp (Value.int u)) r h =
    subst (InRange TypeKind.i64) (some_injective h) r
integer_literal-InRange (unary sp op e w q) r h =
    let (v, g, f) = bind-some (integer_literal e) (signed op) h in
    signed-InRange op v (integer_literal-InRange e r g) f
integer_literal-InRange _ r h = cc

false-true : false ≡ true → ⊥
false-true e = cc

some-none : {n : ℤ} → none ≡ some n → ⊥
some-none e = cc

-- The expression stands for a literal, and its value lies in the range of the kind.
abbrev pub IsLiteralIn : TypeKind → Expr → Type 0
IsLiteralIn k e = (n : ℤ) × (integer_literal e ≡ some n) × InRange k n

literal_fits_iff :
    (t : Ty) (e : Expr)
    → is_integer_kind (kind t) ≡ true
    → IsInt64 e
    → (literal_fits t (some e) ≡ true) ↔ IsLiteralIn (kind t) e
unfolding literal_fits
literal_fits_iff t e ht r = elim (Option-cases (integer_literal e)) [
  | inl h ↦ rw (h, literal_fits) (λ f. absurd (false-true f), λ (n, f, g). absurd (some-none f))
  | inr (n, h) ↦
      let fits = literal_fits_integer_iff (kind t) n ht (integer_literal-InRange e r h) in
      rw (h, literal_fits)
        (
          λ f. (n, refl, fits.0 f),
          λ (k, f, g). fits.1 (subst (InRange (kind t)) (sym (some_injective f)) g),
        )
]

either_iff : {P : Type 0} (a b : Bool) → (b ≡ true) ↔ P → ((a || b) ≡ true) ↔ ((a ≡ true) ⊎ P)
either_iff true b h = (λ e. inl refl, λ e. refl)
either_iff false b h =
    (λ e. inr (h.0 e), λ e. elim e [ inl f ↦ absurd (false-true f) | inr p ↦ h.1 p ])

-- An integer type takes the value of an expression of an integer type exactly when it takes that
-- type, or when the expression is a literal, perhaps with signs, whose value lies in the range of the
-- target; the literals are to be `int64_t` values, as those of the lexer are.
pub can_assign_value_iff :
    (t v : Ty) (e : Expr)
    → is_integer t ≡ true
    → is_integer v ≡ true
    → IsInt64 e
    → (can_assign_value t v (some e) ≡ true) ↔ ((can_assign t v ≡ true) ⊎ IsLiteralIn (kind t) e)
unfolding can_assign_value is_integer
can_assign_value_iff t v e ht hv r =
    rw (ht, hv) (either_iff (can_assign t v) (literal_fits t (some e)) (literal_fits_iff t e ht r))
