-- ===== src/RegisterAlloc/Live.antt =====
-- The live intervals (Compiler/register_alloc.cpp) reach every use of their registers.
use noe_code.Prelude.{
  some_injective, In, ℕ, zero, suc, ◌≤◌, ◌≡◌, refl, sym, subst, ◌∙◌, inl, inr, List, [], ◌∷◌, ◌++◌,
  some, find, put, get_elem?, get_elem?-set_self, get_elem?-some, set, length, max, arith,
  Option-cases,
}
use noe_code.Types.{Ty}
use noe_code.Nir.{Instruction}
use noe_code.RegisterAlloc.Intervals.{LiveInterval, type_of, extend, extend_all, live_from}

-- The same interval, which may end later.
pub record IsLonger (v w : LiveInterval) : Type 0 where
  pub value : w.value ≡ v.value
  pub begin : w.begin ≡ v.begin
  pub end : v.end ≤ w.end

-- An interval at least as long at the place `k`.
abbrev pub KeptAt : List LiveInterval → ℕ → LiveInterval → Type 0
KeptAt is k v = (w : LiveInterval) × (get_elem? is k ≡ some w) × IsLonger v w

pub IsLonger-refl : (v : LiveInterval) → IsLonger v v
IsLonger-refl v = record { value = refl; begin = refl; end = omega arith }

pub IsLonger-trans : {v w x : LiveInterval} → IsLonger v w → IsLonger w x → IsLonger v x
IsLonger-trans p q = record {
  value = q.value ∙ p.value;
  begin = q.begin ∙ p.begin;
  end = omega (arith, p.end, q.end);
}

set-KeptAt :
    (is : List LiveInterval) (j k : ℕ) (u v : LiveInterval) (n : ℕ)
    → get_elem? is j ≡ some u
    → get_elem? is k ≡ some v
    → KeptAt (set is j (record u { end = max u.end n })) k v
set-KeptAt [] j k u v n e f = cc
set-KeptAt (w ∷ is) zero zero u v n e f = (
  record u { end = max u.end n },
  refl,
  subst (λ (x : LiveInterval). IsLonger x (record u { end = max u.end n }))
      (some_injective (sym e ∙ f)) (record { value = refl; begin = refl; end = omega arith }),
)
set-KeptAt (w ∷ is) zero (suc k) u v n e f = (v, f, IsLonger-refl v)
set-KeptAt (w ∷ is) (suc j) zero u v n e f = (v, f, IsLonger-refl v)
set-KeptAt (w ∷ is) (suc j) (suc k) u v n e f = set-KeptAt is j k u v n e f

extend-KeptAt :
    (pc : ℕ) (index : List (ℕ × ℕ)) (a : ℕ) (is : List LiveInterval) (k : ℕ) (v : LiveInterval)
    → get_elem? is k ≡ some v
    → KeptAt (extend pc index a is) k v
unfolding extend
extend-KeptAt pc index a is k v f = elim (Option-cases (find index a)) [
  | inl e ↦ rw (e, extend) (v, f, IsLonger-refl v)
  | inr (j, e) ↦ elim (Option-cases (get_elem? is j)) [
    | inl g ↦ rw (e, g, extend) (v, f, IsLonger-refl v)
    | inr (u, g) ↦ rw (e, g, extend) (set-KeptAt is j k u v pc g f)
  ]
]

pub extend_all-KeptAt :
    (pc : ℕ) (index : List (ℕ × ℕ)) (args : List ℕ) (is : List LiveInterval) (k : ℕ)
    (v : LiveInterval)
    → get_elem? is k ≡ some v
    → KeptAt (extend_all pc index args is) k v
unfolding extend_all
extend_all-KeptAt pc index [] is k v f = (v, f, IsLonger-refl v)
extend_all-KeptAt pc index (a ∷ args) is k v f =
    let (w, g, l) = extend-KeptAt pc index a is k v f in
    let (x, h, m) = extend_all-KeptAt pc index args _ k w g in (x, h, IsLonger-trans l m)

-- An argument that the index has is live up to `pc`.
extend_reaches :
    (pc : ℕ) (index : List (ℕ × ℕ)) (a : ℕ) (is : List LiveInterval) (k : ℕ) (v : LiveInterval)
    → find index a ≡ some k
    → get_elem? is k ≡ some v
    → (w : LiveInterval) × (get_elem? (extend pc index a is) k ≡ some w)
      × IsLonger v w
      × (pc ≤ w.end)
unfolding extend
extend_reaches pc index a is k v e f =
    rw (e, f, extend)
      (
        record v { end = max v.end pc },
        get_elem?-set_self is k _ (get_elem?-some is k f),
        record { value = refl; begin = refl; end = omega arith },
        omega arith,
      )

pub extend_all_reaches :
    (pc : ℕ) (index : List (ℕ × ℕ)) (args : List ℕ) (is : List LiveInterval) (a k : ℕ)
    (v : LiveInterval)
    → In a args
    → find index a ≡ some k
    → get_elem? is k ≡ some v
    → (w : LiveInterval) × (get_elem? (extend_all pc index args is) k ≡ some w)
      × IsLonger v w
      × (pc ≤ w.end)
unfolding extend_all
extend_all_reaches pc index [] is a k v p e f = absurd p
extend_all_reaches pc index (b ∷ args) is a k v (inl p) e f =
    let (w, g, l, r) =
      extend_reaches pc index b is k v (subst (λ (n : ℕ). find index n ≡ some k) (sym p) e) f in
    let (x, h, m) = extend_all-KeptAt pc index args _ k w g in
    (x, h, IsLonger-trans l m, omega (arith, r, m.end))
extend_all_reaches pc index (b ∷ args) is a k v (inr p) e f =
    let (w, g, l) = extend-KeptAt pc index b is k v f in
    let (x, h, m, r) = extend_all_reaches pc index args _ a k w p e g in
    (x, h, IsLonger-trans l m, r)

pub get_elem?_append :
    (xs ys : List LiveInterval) (k : ℕ) (v : LiveInterval)
    → get_elem? xs k ≡ some v
    → get_elem? (xs ++ ys) k ≡ some v
get_elem?_append [] ys k v e = cc
get_elem?_append (x ∷ xs) ys zero v e = e
get_elem?_append (x ∷ xs) ys (suc k) v e = get_elem?_append xs ys k v e

pub get_elem?_last :
    (xs : List LiveInterval) (v : LiveInterval) → get_elem? (xs ++ (v ∷ [])) (length xs) ≡ some v
get_elem?_last [] v = refl
get_elem?_last (x ∷ xs) v = get_elem?_last xs v

pub live_from-KeptAt :
    (types : List Ty) (pc : ℕ) (code : List Instruction) (index : List (ℕ × ℕ))
    (is : List LiveInterval) (k : ℕ) (v : LiveInterval)
    → get_elem? is k ≡ some v
    → KeptAt (live_from types pc code index is) k v
unfolding live_from
live_from-KeptAt types pc [] index is k v f = (v, f, IsLonger-refl v)
live_from-KeptAt types pc (i ∷ code) index is k v f = elim (Option-cases i.dest) [
  | inl e ↦
      let (w, g, l) = extend_all-KeptAt pc index i.args is k v f in
      let (x, h, m) = live_from-KeptAt types (suc pc) code index _ k w g in
      rw (e, live_from) (x, h, IsLonger-trans l m)
  | inr (d, e) ↦
      let (w, g, l) =
        extend_all-KeptAt pc (put index d (length is)) i.args
          (is ++ (record { value = d; begin = pc; end = pc; ty = type_of types d } ∷ [])) k v
          (get_elem?_append is _ k v f) in
      let (x, h, m) = live_from-KeptAt types (suc pc) code (put index d (length is)) _ k w g in
      rw (e, live_from) (x, h, IsLonger-trans l m)
]
