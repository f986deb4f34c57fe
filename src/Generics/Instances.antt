-- ===== src/Generics/Instances.antt =====
-- The names of the instances of a generic function (`safeType`, Compiler/generics.cpp).
use noe_code.Prelude.{
  ℕ, zero, suc, true, false, ◌&&◌, List, [], ◌∷◌, ◌++◌, Option, none, some, Text, codes, length,
  map, ◌==◌, find_text, if◌then◌else◌,
}
use noe_code.Generics.Substitute.{ident}
use noe_code.Generics.Bind.{Bindings}

unfoldable pub safe_byte : ℕ → ℕ
unfolding ident
safe_byte c = if ident c then c else b'_'

-- `out.replace(out.find("__"), 2, "_")`, none where there is no `__`.
unfoldable pub replace_first : Text → Option Text
replace_first [] = none
replace_first (c ∷ []) = none
replace_first (c ∷ d ∷ s) = elim (c == b'_' && d == b'_') [
  | true ↦ some (d ∷ s)
  | false ↦ elim (replace_first (d ∷ s)) [ none ↦ none | some t ↦ some (c ∷ t) ]
]

-- The loop of the replacements, on fuel; the length is enough, since each round takes a byte off.
unfoldable pub replace_all : ℕ → Text → Text
unfolding replace_first
replace_all zero s = s
replace_all (suc f) s = elim (replace_first s) [ none ↦ s | some t ↦ replace_all f t ]

unfoldable pub or_unknown : Text → Text
or_unknown [] = codes "unknown"
or_unknown (c ∷ s) = c ∷ s

unfoldable pub safe_type : Text → Text
unfolding safe_byte replace_all or_unknown
safe_type t = or_unknown (replace_all (length t) (map safe_byte t))

-- `bindings.at(gp)`; every parameter has been found to be bound.
unfoldable pub binding_at : Bindings → Text → Text
unfolding find_text
binding_at b gp = elim (find_text b gp) [ some t ↦ t | none ↦ [] ]

-- The parts of the name and of the key of an instance behind the function's name.
unfoldable pub name_suffix : List Text → Bindings → Text
unfolding binding_at safe_type
name_suffix [] b = []
name_suffix (gp ∷ gps) b = codes "__" ++ (safe_type (binding_at b gp) ++ name_suffix gps b)

unfoldable pub key_suffix : List Text → Bindings → Text
unfolding binding_at
key_suffix [] b = []
key_suffix (gp ∷ gps) b = b'|' ∷ (binding_at b gp ++ key_suffix gps b)
