-- ===== src/Generics/Enough.antt =====
-- The fuel of `substitute` and of `bind` (Compiler/generics.cpp).
use noe_code.Prelude.{
  ℕ, zero, suc, ◌+◌, ◌<◌, ◌≡◌, refl, ap, inl, inr, List, [], ◌∷◌, ◌++◌, Text, length, map, if_both,
  Bool-cases, Option-cases, arith,
}
use noe_code.Generics.Mangle.{parse_mangled_generic}
use noe_code.Generics.Substitute.{
  ident, ident_start, take_word, bound_word, substitute_from, substitute,
}
use noe_code.Generics.Bind.{Bindings}
use noe_code.Generics.Lengths.{AreShorter, parse_mangled_generic-Shorter}

take_word-length : (s : Text) → length (take_word s).0 + length (take_word s).1 ≡ length s
unfolding take_word
take_word-length [] = omega arith
take_word-length (c ∷ s) =
    if_both (λ (w : Text × Text). length w.0 + length w.1 ≡ suc (length s)) (ident c)
      (omega (arith, take_word-length s)) (omega arith)

map_same :
    (n : ℕ) (f g : Text → Text)
    → ((t : Text) → length t < n → f t ≡ g t)
    → (ts : List Text) → AreShorter n ts
    → map f ts ≡ map g ts
map_same n f g h [] s = refl
map_same n f g h (t ∷ ts) (l, s) = let p = h t l in let q = map_same n f g h ts s in cc

-- The fuel that `substitute` starts with is enough: with any more it gives the same.
substitute_from-enough :
    (f g : ℕ) (b : Bindings) (v : Text)
    → length v < f
    → length v < g
    → substitute_from f b v ≡ substitute_from g b v
unfolding substitute_from
substitute_from-enough zero g b v l k = absurd (omega arith)
substitute_from-enough (suc f) zero b v l k = absurd (omega arith)
substitute_from-enough (suc f) (suc g) b [] l k = refl
substitute_from-enough (suc f) (suc g) b (c ∷ s) l k =
    let w = take_word s in
    let n = take_word-length s in
    elim (Bool-cases (ident_start c)) [
      | inr e ↦
          rw (e, substitute_from)
            (ap (λ (t : Text). c ∷ t)
              (substitute_from-enough f g b s (omega (arith, l)) (omega (arith, k))))
      | inl e ↦
          let rest = substitute_from-enough f g b w.1 (omega (arith, l, n)) (omega (arith, k, n)) in
          elim (Option-cases (parse_mangled_generic (c ∷ w.0))) [
            | inl p ↦
                rw (e, p, substitute_from) (ap (λ (t : Text). bound_word b (c ∷ w.0) ++ t) rest)
            | inr (app, p) ↦
                let args =
                  map_same (length (c ∷ w.0)) (substitute_from f b) (substitute_from g b)
                    (λ t m.
                      substitute_from-enough f g b t (omega (arith, l, n, m))
                        (omega (arith, k, n, m)))
                    app.args (parse_mangled_generic-Shorter (c ∷ w.0) app p) in
                rw (e, p, args, rest, substitute_from) refl
          ]
    ]

-- `substitute` is the recursion of the source: with any fuel above the length of the text, in
-- particular for each argument of a mangled name in it, the result is that of `substitute`.
pub substitute_from-substitute :
    (f : ℕ) (b : Bindings) (v : Text) → length v < f → substitute_from f b v ≡ substitute v b
unfolding substitute
substitute_from-substitute f b v l = substitute_from-enough f (suc (length v)) b v l (omega arith)
