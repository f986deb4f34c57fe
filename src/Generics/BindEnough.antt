-- ===== src/Generics/BindEnough.antt =====
-- The fuel of `bind` (Compiler/generics.cpp).
use noe_code.Prelude.{
  ℕ, zero, suc, ◌<◌, ◌≡◌, refl, ap, inl, inr, Bool, true, false, ◌&&◌, List, [], ◌∷◌, ◌++◌, some,
  Text, codes, length, length-append, text_eq, text_eq→eq, Bool-cases, Option-cases, arith, ◌==◌,
  if◌then◌else◌,
}
use noe_code.Types.Names.{strip}
use noe_code.Generics.Mangle.{GenericApplication, parse_mangled_generic}
use noe_code.Generics.Substitute.{element_type}
use noe_code.Generics.Bind.{
  Bindings, has_prefix, bind_first, bind_args, bind_applications, bind_plain, bind_from, bind,
}
use noe_code.Generics.Lengths.{AreShorter, strip-length, parse_mangled_generic-Shorter}

abbrev Binder : Type 0
Binder = Text → Text → Bindings → Bool × Bindings

-- The two do the same with every pattern shorter than `n`.
abbrev Agree : ℕ → Binder → Binder → Type 0
Agree n again other = (p a : Text) (b : Bindings) → length p < n → again p a b ≡ other p a b

first_true : (x y : Bool) → (x && y) ≡ true → x ≡ true
first_true x y e = ground arith

-- A text behind one more byte is shorter.
after_prefix :
    (c : ℕ) (prefix gp pattern : Text)
    → text_eq pattern ((c ∷ prefix) ++ gp) ≡ true
    → length gp < length pattern
after_prefix c prefix gp pattern e =
    omega
      (arith, ap length (text_eq→eq pattern ((c ∷ prefix) ++ gp) e), length-append {0} prefix gp)

-- Without the prefix that it has, a name is shorter.
element_type-shorter_slice :
    (t : Text) → has_prefix (codes "[]") t ≡ true → length (element_type t) < length t
unfolding element_type has_prefix
element_type-shorter_slice t h = elim (Option-cases (strip (codes "[]") t)) [
  | inl e ↦ absurd (cc (rw (e, has_prefix) at h))
  | inr (u, e) ↦ rw (e, element_type) (omega (arith, strip-length (codes "[]") t u e))
]

element_type-shorter :
    (t : Text) → has_prefix (codes "*") t ≡ true → length (element_type t) < length t
unfolding element_type has_prefix
element_type-shorter t h = elim (Option-cases (strip (codes "[]") t)) [
  | inr (u, e) ↦ rw (e, element_type) (omega (arith, strip-length (codes "[]") t u e))
  | inl e ↦ elim (Option-cases (strip (codes "*volatile ") t)) [
    | inr (u, f) ↦ rw (e, f, element_type) (omega (arith, strip-length (codes "*volatile ") t u f))
    | inl f ↦ elim (Option-cases (strip (codes "*") t)) [
      | inr (u, g) ↦ rw (e, f, g, element_type) (omega (arith, strip-length (codes "*") t u g))
      | inl g ↦ absurd (cc (rw (g, has_prefix) at h))
    ]
  ]
]

bind_first_same :
    (again other : Binder) (gps : List Text) (pattern actual : Text) (b : Bindings)
    → Agree (length pattern) again other
    → bind_first again gps pattern actual b ≡ bind_first other gps pattern actual b
unfolding bind_first
bind_first_same again other [] pattern actual b h = refl
bind_first_same again other (gp ∷ gps) pattern actual b h =
    let ih = bind_first_same again other gps pattern actual b h in
    elim (Bool-cases (text_eq pattern gp)) [
      | inl e ↦ rw (e, bind_first) refl
      | inr e ↦
          elim (Bool-cases (text_eq pattern (codes "*" ++ gp) && has_prefix (codes "*") actual)) [
            | inl f ↦
                rw (e, f, bind_first)
                  (ap (λ (r : Bool × Bindings). some r)
                    (h gp (element_type actual) b
                      (after_prefix b'*' [] gp pattern (first_true _ _ f))))
            | inr f ↦
                elim (Bool-cases
                  (text_eq pattern (codes "[]" ++ gp) && has_prefix (codes "[]") actual)) [
                    | inl g ↦
                        rw (e, f, g, bind_first)
                          (ap (λ (r : Bool × Bindings). some r)
                            (h gp (element_type actual) b
                              (after_prefix b'[' (b']' ∷ []) gp pattern (first_true _ _ g))))
                    | inr g ↦ rw (e, f, g, bind_first) ih
                  ]
          ]
    ]

bind_args_same :
    (again other : Binder) (n : ℕ) (ps as' : List Text) (b : Bindings)
    → Agree n again other
    → AreShorter n ps
    → bind_args again ps as' b ≡ bind_args other ps as' b
unfolding bind_args
bind_args_same again other n [] as' b h s = refl
bind_args_same again other n (p ∷ ps) [] b h s = refl
bind_args_same again other n (p ∷ ps) (a ∷ as') b h (l, s) =
    rw (h p a b l, bind_args_same again other n ps as' (other p a b).1 h s) refl

bind_applications_same :
    (again other : Binder) (n : ℕ) (p a : GenericApplication) (b : Bindings)
    → Agree n again other
    → AreShorter n p.args
    → bind_applications again p a b ≡ bind_applications other p a b
unfolding bind_applications
bind_applications_same again other n p a b h s =
    ap
      (λ (r : Bool × Bindings).
        if text_eq p.base a.base && length p.args == length a.args then r else (false, b))
      (bind_args_same again other n p.args a.args b h s)

bind_plain_same :
    (again other : Binder) (pattern actual : Text) (b : Bindings)
    → Agree (length pattern) again other
    → bind_plain again pattern actual b ≡ bind_plain other pattern actual b
unfolding bind_plain
bind_plain_same again other pattern actual b h =
    elim (Bool-cases (has_prefix (codes "*") pattern && has_prefix (codes "*") actual)) [
      | inl f ↦
          rw (f, bind_plain)
            (h (element_type pattern) (element_type actual) b
              (element_type-shorter pattern (first_true _ _ f)))
      | inr f ↦
          elim (Bool-cases (has_prefix (codes "[]") pattern && has_prefix (codes "[]") actual)) [
            | inl g ↦
                rw (f, g, bind_plain)
                  (h (element_type pattern) (element_type actual) b
                    (element_type-shorter_slice pattern (first_true _ _ g)))
            | inr g ↦ rw (f, g, bind_plain) refl
          ]
    ]

bind_from-enough :
    (out other : Binder) (f g : ℕ) (gps : List Text) (pattern actual : Text) (b : Bindings)
    → length pattern < f
    → length pattern < g
    → bind_from out f gps pattern actual b ≡ bind_from other g gps pattern actual b
unfolding bind_from
bind_from-enough out other zero g gps pattern actual b l k = absurd (omega arith)
bind_from-enough out other (suc f) zero gps pattern actual b l k = absurd (omega arith)
bind_from-enough out other (suc f) (suc g) gps pattern actual b l k =
    let agree : Agree (length pattern) (bind_from out f gps) (bind_from other g gps) = λ p a c n.
      bind_from-enough out other f g gps p a c (omega (arith, l, n)) (omega (arith, k, n)) in
    let params =
      bind_first_same (bind_from out f gps) (bind_from other g gps) gps pattern actual b agree in
    elim (Option-cases (bind_first (bind_from other g gps) gps pattern actual b)) [
      | inr (r, e) ↦ rw (params, e, bind_from) refl
      | inl e ↦ elim (Option-cases (parse_mangled_generic pattern)) [
        | inr (p, s) ↦ elim (Option-cases (parse_mangled_generic actual)) [
          | inr (a, t) ↦
              rw (params, e, s, t, bind_from)
                (bind_applications_same (bind_from out f gps) (bind_from other g gps)
                  (length pattern) p a b agree (parse_mangled_generic-Shorter pattern p s))
          | inl t ↦ rw (params, e, s, t, bind_from) refl
        ]
        | inl s ↦ elim (Option-cases (parse_mangled_generic actual)) [
          | inr (a, t) ↦ rw (params, e, s, t, bind_from) refl
          | inl t ↦
              rw (params, e, s, t, bind_from)
                (bind_plain_same (bind_from out f gps) (bind_from other g gps) pattern actual b
                  agree)
        ]
      ]
    ]

-- The recursion of `bind` ends within one more round than the pattern has bytes: with any fuel above
-- the length of the pattern the result is that of `bind`, whatever is answered where the fuel runs
-- out, so no answer is taken from there.
pub bind_from-bind :
    (out : Text → Text → Bindings → Bool × Bindings) (f : ℕ) (gps : List Text)
    (pattern actual : Text) (b : Bindings)
    → length pattern < f
    → bind_from out f gps pattern actual b ≡ bind pattern actual gps b
unfolding bind
bind_from-bind out f gps pattern actual b l =
    bind_from-enough out (λ p a c. (false, c)) f (suc (length pattern)) gps pattern actual b l
      (omega arith)
