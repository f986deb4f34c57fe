-- ===== src/Types/Ranges.antt =====
-- Assignability of integer types against the ranges of their values (`canAssign`, Compiler/core.cpp).
use noe_code.Prelude.{
  ℕ, ◌-◌, ◌^◌, ◌≡◌, refl, sym, ◌↔◌, inl, inr, Bool, true, false, not, ◌&&◌, ltb, leb, Bool-cases,
  arith, if◌then◌else◌,
}
use noe_code.Prelude.Int.{ℤ, pos, negsuc, ◌≤ℤ◌, leb_ℤ}
use noe_code.Types.{
  TypeKind, Ty, mk_ty, kind_eq, integer_bits, integer_signed, is_integer, is_integer_kind,
  integer_fits, kind, can_assign, ty_eq,
}

-- The least and the greatest value of an integer of `b` bits.
abbrev pub least : Bool → ℕ → ℤ
least signed b = if signed then negsuc (2 ^ (b - 1) - 1) else pos 0

abbrev pub greatest : Bool → ℕ → ℤ
greatest signed b = if signed then pos (2 ^ (b - 1) - 1) else pos (2 ^ b - 1)

-- `z` is a value of the integer type `k`.
abbrev pub InRange : TypeKind → ℤ → Type 0
InRange k z =
    (least (integer_signed k) (integer_bits k) ≤ℤ z)
    × (z ≤ℤ greatest (integer_signed k) (integer_bits k))

data Width : Type 0 where
  w8 w16 w32 w64 : Width

abbrev bits : Width → ℕ
bits w8 = 8
bits w16 = 16
bits w32 = 32
bits w64 = 64

bits-of_kind : (k : TypeKind) → is_integer_kind k ≡ true → (w : Width) × (integer_bits k ≡ bits w)
unfolding is_integer_kind integer_bits
bits-of_kind TypeKind.i8 h = (w8, refl)
bits-of_kind TypeKind.u8 h = (w8, refl)
bits-of_kind TypeKind.i16 h = (w16, refl)
bits-of_kind TypeKind.u16 h = (w16, refl)
bits-of_kind TypeKind.i32 h = (w32, refl)
bits-of_kind TypeKind.u32 h = (w32, refl)
bits-of_kind TypeKind.i64 h = (w64, refl)
bits-of_kind TypeKind.u64 h = (w64, refl)
bits-of_kind TypeKind.isize h = (w64, refl)
bits-of_kind TypeKind.usize h = (w64, refl)
bits-of_kind TypeKind.int h = (w64, refl)
bits-of_kind _ h = cc

abbrev fits_on : Bool → Bool → ℕ → ℕ → Bool
fits_on s s' b b' =
    if (if s then s' else not s') then leb b' b else if s && not s' then ltb b' b else false

abbrev ends_on : Bool → Bool → ℕ → ℕ → Bool
ends_on s s' b b' = leb_ℤ (least s b) (least s' b') && leb_ℤ (greatest s' b') (greatest s b)

fits-ends :
    (s s' : Bool) (w w' : Width) → fits_on s s' (bits w) (bits w') ≡ ends_on s s' (bits w) (bits w')
fits-ends s s' w w' = ground arith

least-le-greatest : (s : Bool) (w : Width) → least s (bits w) ≤ℤ greatest s (bits w)
least-le-greatest true w8 = omega arith
least-le-greatest _ _ = omega arith

≤ℤ_trans : (a b c : ℤ) → a ≤ℤ b → b ≤ℤ c → a ≤ℤ c
≤ℤ_trans a b c h k = omega arith

leb_ℤ_iff : (a b : ℤ) → (leb_ℤ a b ≡ true) ↔ (a ≤ℤ b)
leb_ℤ_iff a b = ground arith

≤ℤ_refl : (a : ℤ) → a ≤ℤ a
≤ℤ_refl a = omega arith

-- Two intervals: the second lies in the first exactly when its ends do.
interval_iff :
    (lo hi lo' hi' : ℤ)
    → lo' ≤ℤ hi'
    → ((leb_ℤ lo lo' && leb_ℤ hi' hi) ≡ true)
      ↔ ((z : ℤ) → (lo' ≤ℤ z) × (z ≤ℤ hi') → (lo ≤ℤ z) × (z ≤ℤ hi))
interval_iff lo hi lo' hi' h =
    let ends : (leb_ℤ lo lo' && leb_ℤ hi' hi) ≡ true → (lo ≤ℤ lo') × (hi' ≤ℤ hi) =
      λ e. ground arith in
    (
      λ e z p. (≤ℤ_trans lo lo' z (ends e).0 p.0, ≤ℤ_trans z hi' hi p.1 (ends e).1),
      λ f.
          let low : lo ≤ℤ lo' = (f lo' (≤ℤ_refl lo', h)).0 in
          let high : hi' ≤ℤ hi = (f hi' (h, ≤ℤ_refl hi')).1 in ground (arith, low, high),
    )

integer_fits_lem :
    (t v : TypeKind)
    → integer_fits t v
      ≡ fits_on (integer_signed t) (integer_signed v) (integer_bits t) (integer_bits v)
unfolding integer_fits
integer_fits_lem t v = refl

-- Of two integer kinds the code lets a value through exactly when no value of the source kind
-- lies outside the target kind.
pub integer_fits_iff :
    (t v : TypeKind)
    → is_integer_kind t ≡ true
    → is_integer_kind v ≡ true
    → (integer_fits t v ≡ true) ↔ ((z : ℤ) → InRange v z → InRange t z)
integer_fits_iff t v ht hv =
    let (w, e) = bits-of_kind t ht in
    let (w', e') = bits-of_kind v hv in
    rw (integer_fits_lem, e, e', fits-ends)
      (interval_iff _ _ _ _ (least-le-greatest (integer_signed v) w'))

kind_eq-is_integer :
    (a b : TypeKind) → kind_eq a b ≡ true → is_integer_kind a ≡ true → integer_fits a b ≡ true
unfolding kind_eq is_integer_kind integer_fits
kind_eq-is_integer a b h ha = ground arith

same_kind : (t v : Ty) → ty_eq t v ≡ true → kind_eq (kind t) (kind v) ≡ true
unfolding ty_eq kind
same_kind (mk_ty k rn gn p e n rs ra v) (mk_ty k' rn' gn' p' e' n' rs' ra' v') h = ground arith

integer-not-unknown :
    (k : TypeKind)
    → is_integer_kind k ≡ true
    → (kind_eq k TypeKind.unknown ≡ false) × (kind_eq k TypeKind.generic ≡ false)
unfolding is_integer_kind kind_eq
integer-not-unknown k h = ground arith

can_assign-integers :
    (t v : Ty)
    → is_integer t ≡ true
    → is_integer v ≡ true
    → can_assign t v ≡ integer_fits (kind t) (kind v)
unfolding can_assign is_integer
can_assign-integers t v ht hv =
    let (tu, tg) = integer-not-unknown (kind t) ht in
    let (vu, vg) = integer-not-unknown (kind v) hv in
    elim (Bool-cases (ty_eq t v)) [
      | inl e ↦
          rw (tu, vu, tg, vg, e) (sym (kind_eq-is_integer (kind t) (kind v) (same_kind t v e) ht))
      | inr e ↦ rw (tu, vu, tg, vg, e, ht, hv) refl
    ]

-- What decides the assignment of one integer type to another is the ranges of the two kinds,
-- whatever the rest of the two descriptors.
pub can_assign-iff-range :
    (t v : Ty)
    → is_integer t ≡ true
    → is_integer v ≡ true
    → (can_assign t v ≡ true) ↔ ((z : ℤ) → InRange (kind v) z → InRange (kind t) z)
unfolding is_integer
can_assign-iff-range t v ht hv =
    rw (can_assign-integers t v ht hv) (integer_fits_iff (kind t) (kind v) ht hv)
