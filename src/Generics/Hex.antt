-- ===== src/Generics/Hex.antt =====
-- The hexadecimal text of a type argument (Compiler/generics.cpp).
use noe_code.Prelude.{
  ℕ, ◌+◌, ◌-◌, ◌*◌, ◌/◌, ◌%◌, ◌<◌, ◌≡◌, refl, ap, false, ◌&&◌, [], ◌∷◌, Option, none, some, Text,
  ◌==◌, leb, ltb, if◌then◌else◌, All, arith,
}
use noe_code.Prelude.Opt.{◌>>=◌}

unfoldable pub hex_digit : ℕ → ℕ
hex_digit value = if ltb value 10 then b'0' + value else b'a' + (value - 10)

-- The number of a digit, or none where the source has -1.
unfoldable pub from_hex : ℕ → Option ℕ
from_hex c =
    if leb b'0' c && leb c b'9'
    then some (c - b'0')
    else if leb b'a' c && leb c b'f'
    then some (10 + c - b'a')
    else if leb b'A' c && leb c b'F'
    then some (10 + c - b'A')
    else none

unfoldable pub hex_encode : Text → Text
hex_encode [] = []
hex_encode (c ∷ value) = hex_digit (c / 16) ∷ hex_digit (c % 16) ∷ hex_encode value

unfoldable pub hex_decode : Text → Option Text
hex_decode [] = some []
hex_decode (hi ∷ []) = none
hex_decode (hi ∷ lo ∷ value) = do
  h ← from_hex hi
  l ← from_hex lo
  out ← hex_decode value
  some ((h * 16 + l) ∷ out)

abbrev pub IsBytes : Text → Type 0
IsBytes s = All (λ c. c < 256) s

from_hex-hex_digit : (n : ℕ) → n < 16 → from_hex (hex_digit n) ≡ some n
unfolding from_hex hex_digit
from_hex-hex_digit n h = ground arith

pub hex_digit_ne : (n : ℕ) → (b'_' == hex_digit n) ≡ false
unfolding hex_digit
hex_digit_ne n = ground arith

pub hex_decode-hex_encode : (s : Text) → IsBytes s → hex_decode (hex_encode s) ≡ some s
unfolding hex_decode hex_encode
hex_decode-hex_encode [] h = refl
hex_decode-hex_encode (c ∷ s) (b, h) =
    rw
      (
        from_hex-hex_digit (c / 16) (omega (arith, b)),
        from_hex-hex_digit (c % 16) (omega arith),
        hex_decode-hex_encode s h,
      )
      (ap (λ (n : ℕ). some (n ∷ s)) (omega arith))
