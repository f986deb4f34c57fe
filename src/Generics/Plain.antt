-- ===== src/Generics/Plain.antt =====
-- Where the first marker of a name stands (Compiler/generics.cpp).
use noe_code.Prelude.{ℕ, zero, ◌≡◌, refl, false, [], ◌∷◌, ◌++◌, Text, codes, ◌/◌, ◌%◌, arith}
use noe_code.Generics.Hex.{hex_encode, hex_digit_ne}
use noe_code.Generics.Mangle.{generic_marker, begins_with, pieces}

-- No part of the text is `__nqg`, so that no marker starts in the text, whatever follows it.
unfoldable pub IsPlain : Text → Type 0
IsPlain [] = Unit
IsPlain (c ∷ s) = (begins_with (codes "__nqg") (c ∷ s) ≡ false) × IsPlain s

pub hex_encode-IsPlain : (s : Text) → IsPlain (hex_encode s)
unfolding IsPlain hex_encode begins_with
hex_encode-IsPlain [] = tt
hex_encode-IsPlain (c ∷ s) =
    let p = hex_digit_ne (c / 16) in
    let q = hex_digit_ne (c % 16) in (rw p refl, (rw q refl, hex_encode-IsPlain s))

marker_apart :
    (c : ℕ) (s t : Text)
    → begins_with (codes "__nqg") (c ∷ s) ≡ false
    → begins_with generic_marker (c ∷ (s ++ (generic_marker ++ t))) ≡ false
unfolding begins_with
marker_apart c [] t h = ground arith
marker_apart c (d ∷ []) t h = ground arith
marker_apart c (d ∷ e ∷ []) t h = ground arith
marker_apart c (d ∷ e ∷ f ∷ []) t h = ground arith
marker_apart c (d ∷ e ∷ f ∷ g ∷ s) t h = ground arith

marker_absent :
    (c : ℕ) (s : Text)
    → begins_with (codes "__nqg") (c ∷ s) ≡ false
    → begins_with generic_marker (c ∷ s) ≡ false
unfolding begins_with
marker_absent c [] h = ground arith
marker_absent c (d ∷ []) h = ground arith
marker_absent c (d ∷ e ∷ []) h = ground arith
marker_absent c (d ∷ e ∷ f ∷ []) h = ground arith
marker_absent c (d ∷ e ∷ f ∷ g ∷ s) h = ground arith

pub pieces_plain : (s : Text) → IsPlain s → pieces zero s ≡ (s, [])
unfolding pieces IsPlain
pieces_plain [] h = refl
pieces_plain (c ∷ s) (p, h) = rw (marker_absent c s p, pieces_plain s h) refl

pub pieces_marked :
    (s t : Text)
    → IsPlain s
    → pieces zero (s ++ (generic_marker ++ t)) ≡ (s, (pieces zero t).0 ∷ (pieces zero t).1)
unfolding pieces IsPlain begins_with
pieces_marked [] t h = refl
pieces_marked (c ∷ s) t (p, h) = rw (marker_apart c s t p, pieces_marked s t h) refl
