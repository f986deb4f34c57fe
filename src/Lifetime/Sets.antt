-- ===== src/Lifetime/Sets.antt =====
-- Sets and maps of names and numbers, and the helpers in front of the checker (Compiler/lifetime.cpp).
use noe_code.Prelude.{
  ℕ, Bool, true, false, ◌&&◌, ◌||◌, List, [], ◌∷◌, ◌++◌, Option, none, some, Text, codes,
  erase_text, contains, length, ◌==◌, if◌then◌else◌,
}
use noe_code.Prelude.Int.{ℤ, pos, ◌-ℤ◌}
use noe_code.Types.Names.{strip}
use noe_code.Nir.{int, monostate}
use noe_code.Ast.{TokenKind, Expr, literal, unary, cast}
use noe_code.Safety.Annotator.{fixed_array_count, holds_name}

-- `m[k] = v` where the map is run through later.
unfoldable pub put_text {ℓ} : {V : Type ℓ} → List (Text × V) → Text → V → List (Text × V)
unfolding erase_text
put_text m k v = (k, v) ∷ erase_text m k

unfoldable pub insert_name : Text → List Text → List Text
unfolding holds_name
insert_name x xs = if holds_name xs x then xs else x ∷ xs

unfoldable pub insert_number : ℕ → List ℕ → List ℕ
insert_number n ns = if contains ns n then ns else n ∷ ns

unfoldable pub all_in : List ℕ → List ℕ → Bool
all_in [] ns = true
all_in (m ∷ ms) ns = contains ns m && all_in ms ns

-- `==` of two `std::unordered_set`s
unfoldable pub same_numbers : List ℕ → List ℕ → Bool
unfolding all_in
same_numbers ms ns = length ms == length ns && all_in ms ns

-- `key.rfind(prefix,0)==0`
unfoldable pub starts_with : Text → Text → Bool
unfolding strip
starts_with prefix key = elim (strip prefix key) [ some _ ↦ true | none ↦ false ]

-- `base->name+"."+m->member`
abbrev pub field_key : Text → Text → Text
field_key base m = base ++ (codes "." ++ m)

unfoldable pub literal_integer : Expr → Option ℤ
unfolding ◌-ℤ◌
literal_integer (literal sp (int v)) = some v
literal_integer (unary sp op e w q) =
    let value = literal_integer e in
    elim value [
      | none ↦ none
      | some v ↦ elim op [
        | TokenKind.plus ↦ some v
        | TokenKind.minus ↦ some (pos 0 -ℤ v)
        | _ ↦ none
      ]
    ]
literal_integer _ = none

unfoldable pub null_expression : Expr → Bool
null_expression (literal sp monostate) = true
null_expression (cast sp e t) = null_expression e
null_expression _ = false

-- `fixedArrayCount` and `borrowType` of an annotation
unfoldable pub annotated_count : Option Text → Option ℕ
unfolding fixed_array_count
annotated_count none = none
annotated_count (some type) = fixed_array_count type

unfoldable pub borrow_type : Option Text → Bool
unfolding starts_with
borrow_type none = false
borrow_type (some type) = starts_with (codes "*") type || starts_with (codes "[]") type
