-- ===== src/RegisterAlloc/Uses.antt =====
-- How often a register name occurs, and the registers of the live intervals (Compiler/register_alloc.cpp).
use noe_code.Prelude.{
  ℕ, zero, suc, ◌+◌, ◌≤◌, ◌<◌, ◌≡◌, ◌⊎◌, refl, sym, ap, subst, ◌∙◌, inl, inr, true, List, [], ◌∷◌,
  ◌++◌, Option, none, some, Text, text_eq, text_eq_refl, get_elem?, set, ltb, ltb→lt, arith,
  Bool-cases, if◌then◌else◌,
}
use noe_code.RegisterAlloc.Intervals.{LiveInterval}
use noe_code.RegisterAlloc.Scan.{Active, expire}

abbrev pub uses : Text → List Text → ℕ
uses r [] = 0
uses r (x ∷ xs) = (if text_eq x r then 1 else 0) + uses r xs

abbrev pub held : Text → List Active → ℕ
held r [] = 0
held r ((v, x) ∷ active) = (if text_eq x r then 1 else 0) + held r active

-- The interval has the register.
abbrev pub Holds : LiveInterval → Text → List Active → Type 0
Holds v r [] = ⊥
Holds v r ((w, x) ∷ active) = ((w ≡ v) × (x ≡ r)) ⊎ Holds v r active

pub held-append : (r : Text) (xs ys : List Active) → held r (xs ++ ys) ≡ held r xs + held r ys
held-append r [] ys = omega arith
held-append r ((v, x) ∷ xs) ys = omega (arith, held-append r xs ys)

pub Holds-append :
    (v : LiveInterval) (r : Text) (xs ys : List Active) → Holds v r xs → Holds v r (xs ++ ys)
Holds-append v r [] ys h = absurd h
Holds-append v r ((w, x) ∷ xs) ys (inl e) = inl e
Holds-append v r ((w, x) ∷ xs) ys (inr h) = inr (Holds-append v r xs ys h)

pub Holds-last : (v : LiveInterval) (r : Text) (xs : List Active) → Holds v r (xs ++ ((v, r) ∷ []))
Holds-last v r [] = inl (refl, refl)
Holds-last v r ((w, x) ∷ xs) = inr (Holds-last v r xs)

-- A register that is held occurs.
pub Holds-held : (v : LiveInterval) (r : Text) (xs : List Active) → Holds v r xs → 0 < held r xs
Holds-held v r [] h = absurd h
Holds-held v r ((w, x) ∷ xs) (inl (e, f)) = rw (f, text_eq_refl r) (omega arith)
Holds-held v r ((w, x) ∷ xs) (inr h) = omega (arith, Holds-held v r xs h)

-- What expires leaves its register behind.
pub held-expire :
    (r : Text) (now : ℕ) (active : List Active) (free : List Text)
    → held r (expire now active free).0 + uses r (expire now active free).1
      ≡ held r active + uses r free
unfolding expire
held-expire r now [] free = refl
held-expire r now ((v, x) ∷ active) free = elim (Bool-cases (ltb v.end now)) [
  | inl e ↦ rw (e, expire) (omega (arith, held-expire r now active (x ∷ free)))
  | inr e ↦ rw (e, expire) (omega (arith, held-expire r now active free))
]

-- An interval keeps its register or has ended.
pub Holds-expire :
    (w : LiveInterval) (r : Text) (now : ℕ) (active : List Active) (free : List Text)
    → Holds w r active
    → Holds w r (expire now active free).0 ⊎ (w.end < now)
unfolding expire
Holds-expire w r now [] free h = absurd h
Holds-expire w r now ((v, x) ∷ active) free h = elim (Bool-cases (ltb v.end now)) [
  | inl e ↦
      rw (e, expire)
        (elim h [
          | inl (p, q) ↦ inr (subst (λ (u : LiveInterval). u.end < now) p (ltb→lt v.end now e))
          | inr k ↦ Holds-expire w r now active (x ∷ free) k
        ])
  | inr e ↦
      rw (e, expire)
        (elim h [
          | inl p ↦ inl (inl p)
          | inr k ↦ elim (Holds-expire w r now active free k) [
            | inl l ↦ inl (inr l)
            | inr l ↦ inr l
          ]
        ])
]

same_entry : {a b : Active} → some a ≡ some b → a ≡ b
same_entry {a} e = ap (λ (o : Option Active). elim o [ some n ↦ n | none ↦ a ]) e

-- The register of an entry goes to another interval.
pub held-set :
    (r : Text) (xs : List Active) (k : ℕ) (v w : LiveInterval) (x : Text)
    → get_elem? xs k ≡ some (w, x)
    → held r (set xs k (v, x)) ≡ held r xs
held-set r [] k v w x e = cc
held-set r ((u, y) ∷ xs) zero v w x e =
    ap (λ (z : Text). (if text_eq z r then 1 else 0) + held r xs)
      (sym (ap (λ (p : Active). p.1) (same_entry e)))
held-set r ((u, y) ∷ xs) (suc k) v w x e = omega (arith, held-set r xs k v w x e)

pub Holds-set :
    (xs : List Active) (k : ℕ) (v w u : LiveInterval) (x r : Text)
    → get_elem? xs k ≡ some (w, x)
    → Holds u r xs
    → Holds u r (set xs k (v, x)) ⊎ ((u ≡ w) × (r ≡ x))
Holds-set [] k v w u x r e h = absurd h
Holds-set ((t, y) ∷ xs) zero v w u x r e (inl (p, q)) =
    let f = same_entry e in
    inr (sym p ∙ ap (λ (n : Active). n.0) f, sym q ∙ ap (λ (n : Active). n.1) f)
Holds-set ((t, y) ∷ xs) zero v w u x r e (inr h) = inl (inr h)
Holds-set ((t, y) ∷ xs) (suc k) v w u x r e (inl p) = inl (inl p)
Holds-set ((t, y) ∷ xs) (suc k) v w u x r e (inr h) = elim (Holds-set xs k v w u x r e h) [
  | inl l ↦ inl (inr l)
  | inr l ↦ inr l
]

pub Holds-set_self :
    (xs : List Active) (k : ℕ) (v w : LiveInterval) (x : Text)
    → get_elem? xs k ≡ some (w, x)
    → Holds v x (set xs k (v, x))
Holds-set_self [] k v w x e = cc
Holds-set_self ((u, y) ∷ xs) zero v w x e = inl (refl, refl)
Holds-set_self ((u, y) ∷ xs) (suc k) v w x e = inr (Holds-set_self xs k v w x e)

get_elem?-held :
    (xs : List Active) (k : ℕ) (w : LiveInterval) (x : Text)
    → get_elem? xs k ≡ some (w, x)
    → 0 < held x xs
get_elem?-held [] k w x e = cc
get_elem?-held ((t, y) ∷ xs) zero w x e =
    let f : y ≡ x = ap (λ (n : Active). n.1) (same_entry e) in
    let one : text_eq y x ≡ true = ap (λ (z : Text). text_eq z x) f ∙ text_eq_refl x in
    rw one (omega arith)
get_elem?-held ((t, y) ∷ xs) (suc k) w x e = omega (arith, get_elem?-held xs k w x e)

-- Of a register that is held once there is one holder.
pub Holds-unique :
    (xs : List Active) (k : ℕ) (w u : LiveInterval) (x : Text)
    → held x xs ≤ 1
    → get_elem? xs k ≡ some (w, x)
    → Holds u x xs
    → u ≡ w
Holds-unique [] k w u x b e h = absurd h
Holds-unique ((t, y) ∷ xs) zero w u x b e (inl (p, q)) =
    sym p ∙ ap (λ (n : Active). n.0) (same_entry e)
Holds-unique ((t, y) ∷ xs) zero w u x b e (inr h) =
    let f : y ≡ x = ap (λ (n : Active). n.1) (same_entry e) in
    let one : text_eq y x ≡ true = ap (λ (z : Text). text_eq z x) f ∙ text_eq_refl x in
    absurd (ground (arith, b, one, Holds-held u x xs h))
Holds-unique ((t, y) ∷ xs) (suc k) w u x b e (inl (p, q)) =
    let one : text_eq y x ≡ true = ap (λ (z : Text). text_eq z x) q ∙ text_eq_refl x in
    absurd (ground (arith, b, one, get_elem?-held xs k w x e))
Holds-unique ((t, y) ∷ xs) (suc k) w u x b e (inr h) =
    Holds-unique xs k w u x (omega (arith, b)) e h
