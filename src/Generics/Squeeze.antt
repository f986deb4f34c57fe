-- ===== src/Generics/Squeeze.antt =====
-- What `safeType` and the names of instances (Compiler/generics.cpp) come to.
use noe_code.Prelude.{
  ℕ, zero, suc, ◌≤◌, ◌≡◌, ◌≢◌, refl, sym, ap, subst, ◌∙◌, inl, inr, ◌&&◌, [], ◌∷◌, ◌++◌, Option,
  none, some, Text, codes, length, map, ◌==◌, find_text, text_eq_refl, Bool-cases, Option-cases,
  arith, if◌then◌else◌,
}
use noe_code.Generics.Bind.{Bindings}
use noe_code.Generics.Instances.{
  safe_byte, replace_first, replace_all, or_unknown, safe_type, binding_at, name_suffix, key_suffix,
}

-- A byte in front of a text; an underscore in front of an underscore is left out.
unfoldable pub join : ℕ → Text → Text
join c [] = c ∷ []
join c (d ∷ s) = if c == b'_' && d == b'_' then d ∷ s else c ∷ d ∷ s

-- Each run of underscores becomes one.
unfoldable pub squeeze : Text → Text
unfolding join
squeeze [] = []
squeeze (c ∷ s) = join c (squeeze s)

join-join : (s : Text) → join b'_' (join b'_' s) ≡ join b'_' s
unfolding join
join-join [] = refl
join-join (d ∷ s) = elim (Bool-cases (d == b'_')) [
  | inl e ↦ rw (e, join) (rw e refl)
  | inr e ↦ rw (e, join) refl
]

-- A replacement leaves what the runs of underscores come to, and without one they are there already.
abbrev IsReplaced : Text → Option Text → Type 0
IsReplaced s none = squeeze s ≡ s
IsReplaced s (some t) = (squeeze t ≡ squeeze s) × (length s ≡ suc (length t))

replace_first-IsReplaced : (s : Text) → IsReplaced s (replace_first s)
unfolding replace_first squeeze join
replace_first-IsReplaced [] = refl
replace_first-IsReplaced (c ∷ []) = refl
replace_first-IsReplaced (c ∷ d ∷ s) = elim (Bool-cases (c == b'_' && d == b'_')) [
  | inl e ↦
      let p : c ≡ b'_' = ground (arith, e) in
      let q : d ≡ b'_' = ground (arith, e) in
      rw (e, replace_first) (rw (p, q) (sym (join-join (squeeze s))), refl)
  | inr e ↦ elim (Option-cases (replace_first (d ∷ s))) [
    | inl f ↦
        let ih : squeeze (d ∷ s) ≡ d ∷ s =
          subst (IsReplaced (d ∷ s)) f (replace_first-IsReplaced (d ∷ s)) in
        rw (e, f, replace_first) (ap (join c) ih ∙ rw (e, join) refl)
    | inr (t, f) ↦
        let (p, q) = subst (IsReplaced (d ∷ s)) f (replace_first-IsReplaced (d ∷ s)) in
        rw (e, f, replace_first) (ap (join c) p, omega (arith, q))
  ]
]

replace_all-squeeze : (f : ℕ) (s : Text) → length s ≤ f → replace_all f s ≡ squeeze s
unfolding replace_all
replace_all-squeeze zero [] l = unfold squeeze in refl
replace_all-squeeze zero (c ∷ s) l = absurd (omega arith)
replace_all-squeeze (suc f) s l = elim (Option-cases (replace_first s)) [
  | inl e ↦ rw (e, replace_all) (sym (subst (IsReplaced s) e (replace_first-IsReplaced s)))
  | inr (t, e) ↦
      let (p, q) = subst (IsReplaced s) e (replace_first-IsReplaced s) in
      rw (e, replace_all) (replace_all-squeeze f t (omega (arith, q, l)) ∙ p)
]

length-map : (s : Text) → length (map safe_byte s) ≡ length s
length-map [] = refl
length-map (c ∷ s) = ap (λ n. suc n) (length-map s)

-- The name that stands for a type in the name of an instance: every byte that is none of an
-- identifier is an underscore, each run of underscores is one, and the empty name is `unknown`.
pub safe_type-squeeze : (t : Text) → safe_type t ≡ or_unknown (squeeze (map safe_byte t))
unfolding safe_type
safe_type-squeeze t =
    ap or_unknown (replace_all-squeeze (length t) (map safe_byte t) (omega (arith, length-map t)))

squeeze_pointer :
    (t : Text)
    → squeeze (map safe_byte (codes "*" ++ t)) ≡ squeeze (map safe_byte (codes "[]" ++ t))
unfolding safe_byte squeeze
squeeze_pointer t = sym (join-join (squeeze (map safe_byte t)))

safe_pointer : (t : Text) → safe_type (codes "*" ++ t) ≡ safe_type (codes "[]" ++ t)
safe_pointer t =
    safe_type-squeeze (codes "*" ++ t)
    ∙ (ap or_unknown (squeeze_pointer t) ∙ sym (safe_type-squeeze (codes "[]" ++ t)))

binding_at_head : (gp t : Text) (b : Bindings) → binding_at ((gp, t) ∷ b) gp ≡ t
unfolding binding_at find_text
binding_at_head gp t b = rw (text_eq_refl gp, binding_at, find_text) refl

-- The instances of a function for a pointer and for a slice of one type have one name, though they are
-- different instances, by their keys.
pub name_suffix-collides :
    (gp t : Text)
    → (name_suffix (gp ∷ []) ((gp, codes "*" ++ t) ∷ [])
        ≡ name_suffix (gp ∷ []) ((gp, codes "[]" ++ t) ∷ []))
      × (key_suffix (gp ∷ []) ((gp, codes "*" ++ t) ∷ [])
          ≢ key_suffix (gp ∷ []) ((gp, codes "[]" ++ t) ∷ []))
unfolding name_suffix key_suffix
name_suffix-collides gp t = (
  rw
      (
        binding_at_head gp (codes "*" ++ t) [],
        binding_at_head gp (codes "[]" ++ t) [],
        safe_pointer t,
      )
      refl,
  λ e.
      cc
        (rw (binding_at_head gp (codes "*" ++ t) [], binding_at_head gp (codes "[]" ++ t) []) at e),
)
