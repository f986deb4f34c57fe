-- ===== src/Generics/Mangle.antt =====
-- The name that stands for a generic type applied to arguments (Compiler/generics.cpp).
use noe_code.Prelude.{
  ℕ, zero, suc, Bool, true, false, ◌&&◌, ◌||◌, List, [], ◌∷◌, ◌++◌, Option, none, some, Text, codes,
  ◌==◌, if◌then◌else◌,
}
use noe_code.Prelude.Opt.{◌>>=◌}
use noe_code.Generics.Hex.{hex_encode, hex_decode}

abbrev pub generic_marker : Text
generic_marker = codes "__nqg__"

unfoldable pub is_blank : ℕ → Bool
is_blank c = c == b' ' || (c == b'\t' || (c == b'\r' || c == b'\n'))

unfoldable pub trim_start : Text → Text
trim_start [] = []
trim_start (c ∷ value) = let rest = trim_start value in if is_blank c then rest else c ∷ value

-- A byte in front of what is left of the text behind it.
unfoldable pub keep_end : ℕ → Text → Text
keep_end c [] = if is_blank c then [] else c ∷ []
keep_end c (d ∷ rest) = c ∷ d ∷ rest

unfoldable pub trim_end : Text → Text
trim_end [] = []
trim_end (c ∷ value) = keep_end c (trim_end value)

unfoldable pub trim : Text → Text
trim value = trim_end (trim_start value)

pub record GenericApplication : Type 0 where
  pub base : Text
  pub args : List Text

-- The arguments behind a base, each after the marker.
unfoldable pub mangle_args : List Text → Text
mangle_args [] = []
mangle_args (arg ∷ args) = generic_marker ++ (hex_encode (trim arg) ++ mangle_args args)

unfoldable pub mangle_generic : Text → List Text → Text
mangle_generic base args = base ++ mangle_args args

-- `value.compare(p, marker.size(), marker) == 0`
unfoldable pub begins_with : Text → Text → Bool
begins_with [] s = true
begins_with (m ∷ marker) [] = false
begins_with (m ∷ marker) (c ∷ s) = m == c && begins_with marker s

-- What comes before the first marker, and what comes after each; `k` bytes of a marker are left.
unfoldable pub pieces : ℕ → Text → Text × List Text
pieces k [] = ([], [])
pieces (suc k) (c ∷ s) = pieces k s
pieces zero (c ∷ s) =
    let after = pieces 6 s in
    let rest = pieces zero s in
    if begins_with generic_marker (c ∷ s) then ([], after.0 ∷ after.1) else (c ∷ rest.0, rest.1)

unfoldable pub decode_all : List Text → Option (List Text)
decode_all [] = some []
decode_all (encoded ∷ rest) = do arg ← hex_decode encoded; args ← decode_all rest; some (arg ∷ args)

unfoldable pub application : Text × List Text → Option GenericApplication
application ([], encoded) = none
application (base, []) = none
application (c ∷ base, e ∷ encoded) = do
  args ← decode_all (e ∷ encoded)
  some (record { base = c ∷ base; args = args })

unfoldable pub parse_mangled_generic : Text → Option GenericApplication
parse_mangled_generic value = application (pieces 0 value)
