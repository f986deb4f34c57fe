-- ===== src/Generics/Names.antt =====
-- The name of a generic application is read back (Compiler/generics.cpp).
use mathlib.Core.List.{append-nil}
use noe_code.Prelude.{ℕ, zero, ◌≡◌, refl, List, [], ◌∷◌, ◌++◌, some, Text, map, All, if_both, ◌<◌}
use noe_code.Generics.Hex.{hex_encode, hex_decode-hex_encode, IsBytes}
use noe_code.Generics.Mangle.{
  is_blank, trim, trim_start, trim_end, keep_end, mangle_args, mangle_generic, pieces, decode_all,
  application, parse_mangled_generic,
}
use noe_code.Generics.Plain.{IsPlain, hex_encode-IsPlain, pieces_plain, pieces_marked}

pieces-mangle_args :
    (base : Text) (args : List Text)
    → IsPlain base
    → pieces zero (base ++ mangle_args args) ≡ (base, map (λ a. hex_encode (trim a)) args)
unfolding mangle_args
pieces-mangle_args base [] h = rw (append-nil base) (pieces_plain base h)
pieces-mangle_args base (arg ∷ args) h =
    rw
      (
        pieces_marked base (hex_encode (trim arg) ++ mangle_args args) h,
        pieces-mangle_args (hex_encode (trim arg)) args (hex_encode-IsPlain (trim arg)),
      )
      refl

trim_start-IsBytes : (s : Text) → IsBytes s → IsBytes (trim_start s)
unfolding trim_start
trim_start-IsBytes [] h = tt
trim_start-IsBytes (c ∷ s) (b, h) =
    if_both (λ (t : Text). IsBytes t) (is_blank c) (trim_start-IsBytes s h) (b, h)

keep_end-IsBytes : (c : ℕ) (s : Text) → c < 256 → IsBytes s → IsBytes (keep_end c s)
unfolding keep_end
keep_end-IsBytes c [] b h = if_both (λ (t : Text). IsBytes t) (is_blank c) tt (b, tt)
keep_end-IsBytes c (d ∷ s) b h = (b, h)

trim_end-IsBytes : (s : Text) → IsBytes s → IsBytes (trim_end s)
unfolding trim_end
trim_end-IsBytes [] h = tt
trim_end-IsBytes (c ∷ s) (b, h) = keep_end-IsBytes c (trim_end s) b (trim_end-IsBytes s h)

trim-IsBytes : (s : Text) → IsBytes s → IsBytes (trim s)
unfolding trim
trim-IsBytes s h = trim_end-IsBytes (trim_start s) (trim_start-IsBytes s h)

decode_all-IsBytes :
    (args : List Text)
    → All IsBytes args
    → decode_all (map (λ a. hex_encode (trim a)) args) ≡ some (map trim args)
unfolding decode_all
decode_all-IsBytes [] h = refl
decode_all-IsBytes (arg ∷ args) (b, h) =
    rw (hex_decode-hex_encode (trim arg) (trim-IsBytes arg b), decode_all-IsBytes args h) refl

-- Reading the name of a generic application gives the base and the arguments without the white space
-- around them, where there is an argument, the arguments are bytes and the base is not empty and has
-- no `__nqg` in it.
pub parse_mangled_generic-mangle_generic :
    (c : ℕ) (base : Text) (arg : Text) (args : List Text)
    → IsPlain (c ∷ base)
    → All IsBytes (arg ∷ args)
    → parse_mangled_generic (mangle_generic (c ∷ base) (arg ∷ args))
      ≡ some (record { base = c ∷ base; args = map trim (arg ∷ args) })
unfolding parse_mangled_generic mangle_generic application
parse_mangled_generic-mangle_generic c base arg args p h =
    rw (pieces-mangle_args (c ∷ base) (arg ∷ args) p, decode_all-IsBytes (arg ∷ args) h) refl
