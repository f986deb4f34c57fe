-- ===== src/Generics/Substitute.antt =====
-- Names of types with the parameters of a generic declaration replaced (Compiler/generics.cpp). The
-- recursion on the arguments of a mangled name is on fuel; one more than the length is enough, since
-- each round takes a character off and a decoded argument is shorter than its name.
use noe_code.Prelude.{
  ℕ, zero, suc, ◌-◌, Bool, true, false, ◌&&◌, ◌||◌, List, [], ◌∷◌, ◌++◌, Option, none, some, Text,
  codes, map, length, ltb, ◌==◌, find_text, if◌then◌else◌,
}
use noe_code.Lexer.Chars.{is_alpha, is_alnum}
use noe_code.Types.Names.{strip, rfind, substr}
use noe_code.Generics.Mangle.{mangle_generic, parse_mangled_generic}

unfoldable pub ident : ℕ → Bool
unfolding is_alnum
ident c = is_alnum c || c == b'_'

unfoldable pub ident_start : ℕ → Bool
unfolding is_alpha
ident_start c = is_alpha c || c == b'_'

-- The identifier that a text goes on with, and what is behind it.
unfoldable pub take_word : Text → Text × Text
take_word [] = ([], [])
take_word (c ∷ s) = let w = take_word s in if ident c then (c ∷ w.0, w.1) else ([], c ∷ s)

-- `bindings.find(word)`, and the word itself where it is no parameter.
unfoldable pub bound_word : List (Text × Text) → Text → Text
bound_word bindings word = elim (find_text bindings word) [ some t ↦ t | none ↦ word ]

unfoldable pub substitute_from : ℕ → List (Text × Text) → Text → Text
substitute_from zero bindings value = []
substitute_from (suc f) bindings [] = []
substitute_from (suc f) bindings (c ∷ s) = elim (ident_start c) [
  | true ↦
      elim (parse_mangled_generic (c ∷ (take_word s).0)) [
        | some app ↦ mangle_generic app.base (map (substitute_from f bindings) app.args)
        | none ↦ bound_word bindings (c ∷ (take_word s).0)
      ]
      ++ substitute_from f bindings (take_word s).1
  | false ↦ c ∷ substitute_from f bindings s
]

unfoldable pub substitute : Text → List (Text × Text) → Text
unfolding substitute_from take_word bound_word ident ident_start find_text
substitute value bindings = substitute_from (suc (length value)) bindings value

-- The part of `[T;n]` in front of the last semicolon, where the text has this form.
unfoldable pub array_element : Text → Option Text
unfolding rfind substr
array_element [] = none
array_element (c ∷ s) =
    if c == b'[' && ltb 3 (length (c ∷ s))
    then elim (rfind b';' (c ∷ s)) [ none ↦ none | some semi ↦ some (substr (c ∷ s) 1 (semi - 1)) ]
    else none

unfoldable pub element_type : Text → Text
unfolding strip array_element
element_type t = elim (strip (codes "[]") t) [
  | some u ↦ u
  | none ↦ elim (strip (codes "*volatile ") t) [
    | some u ↦ u
    | none ↦ elim (strip (codes "*") t) [
      | some u ↦ u
      | none ↦ elim (array_element t) [ some u ↦ u | none ↦ codes "unknown" ]
    ]
  ]
]
