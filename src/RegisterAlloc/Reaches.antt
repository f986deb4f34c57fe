-- ===== src/RegisterAlloc/Reaches.antt =====
-- Every use of a register lies in its live interval (Compiler/register_alloc.cpp).
use noe_code.Prelude.{
  some_injective, In, ℕ, zero, suc, ◌+◌, ◌≤◌, ◌≡◌, ◌⊎◌, refl, sym, subst, ◌∙◌, inl, inr, true,
  false, List, [], ◌∷◌, ◌++◌, Option, none, some, Text, find, put, get_elem?, take, length, ◌==◌,
  ==_iff, arith, Bool-cases, Option-cases, if_both, if◌then◌else◌,
}
use noe_code.Types.{Ty}
use noe_code.Nir.{Instruction, Function}
use noe_code.RegisterAlloc.Intervals.{
  LiveInterval, type_of, extend_all, live_from, comes_before, insert, sort,
}
use noe_code.RegisterAlloc.Scan.{allocate}
use noe_code.RegisterAlloc.Sorted.{written}
use noe_code.RegisterAlloc.Live.{
  extend_all-KeptAt, extend_all_reaches, get_elem?_append, get_elem?_last, live_from-KeptAt,
}

-- The index leads to an interval of the register, which has begun.
abbrev IsIndex : ℕ → List (ℕ × ℕ) → List LiveInterval → Type 0
IsIndex pc index is =
    (a k : ℕ)
    → find index a ≡ some k
    → (v : LiveInterval) × (get_elem? is k ≡ some v) × (v.value ≡ a) × (v.begin ≤ pc)

-- The register has a place in the index.
abbrev IsPlaced : List (ℕ × ℕ) → ℕ → Type 0
IsPlaced index a = (k : ℕ) × (find index a ≡ some k)

-- An interval of the register is live at `pc`.
abbrev pub IsLiveAt : ℕ → ℕ → List LiveInterval → Type 0
IsLiveAt a pc is = (i : LiveInterval) × In i is × (i.value ≡ a) × (i.begin ≤ pc) × (pc ≤ i.end)

extend_all-IsIndex :
    (pc n : ℕ) (index : List (ℕ × ℕ)) (args : List ℕ) (is : List LiveInterval)
    → IsIndex pc index is
    → IsIndex (suc pc) index (extend_all n index args is)
extend_all-IsIndex pc n index args is h a k e =
    let (v, f, same, begun) = h a k e in
    let (w, g, l) = extend_all-KeptAt n index args is k v f in
    (w, g, l.value ∙ same, omega (arith, l.begin, begun))

false_not_true : false ≡ true → ⊥
false_not_true e = cc

fresh-IsIndex :
    (pc : ℕ) (index : List (ℕ × ℕ)) (is : List LiveInterval) (v : LiveInterval)
    → v.begin ≤ pc
    → IsIndex pc index is
    → IsIndex pc (put index v.value (length is)) (is ++ (v ∷ []))
unfolding find
fresh-IsIndex pc index is v b h a k e = elim (Bool-cases (v.value == a)) [
  | inl f ↦
      let same = subst (λ t. (if t then some (length is) else find index a) ≡ some k) f e in
      (
        v,
        subst (λ (n : ℕ). get_elem? (is ++ (v ∷ [])) n ≡ some v) (some_injective same)
            (get_elem?_last is v),
        (==_iff v.value a).0 f,
        b,
      )
  | inr f ↦
      let (w, g, same, begun) =
        h a k (subst (λ t. (if t then some (length is) else find index a) ≡ some k) f e) in
      (w, get_elem?_append is _ k w g, same, begun)
]

put-IsPlaced :
    (index : List (ℕ × ℕ)) (d n a : ℕ) → (d ≡ a) ⊎ IsPlaced index a → IsPlaced (put index d n) a
unfolding find
put-IsPlaced index d n a h = elim (Bool-cases (d == a)) [
  | inl f ↦ (n, rw f refl)
  | inr f ↦ elim h [
    | inl e ↦ absurd (false_not_true (sym f ∙ (==_iff d a).1 e))
    | inr (k, e) ↦ (k, rw f e)
  ]
]

get_elem?-In :
    (is : List LiveInterval) (k : ℕ) (v : LiveInterval) → get_elem? is k ≡ some v → In v is
get_elem?-In [] k v e = cc
get_elem?-In (w ∷ is) zero v e = inl (some_injective e)
get_elem?-In (w ∷ is) (suc k) v e = inr (get_elem?-In is k v e)

-- A use by the instruction at `pc`, once its result has a place.
argument-IsLiveAt :
    (types : List Ty) (pc : ℕ) (code : List Instruction) (index : List (ℕ × ℕ))
    (is : List LiveInterval) (args : List ℕ) (a : ℕ)
    → IsIndex pc index is
    → In a args
    → IsPlaced index a
    → IsLiveAt a (pc + 0) (live_from types (suc pc) code index (extend_all pc index args is))
argument-IsLiveAt types pc code index is args a h p (k, e) =
    let (v, f, same, begun) = h a k e in
    let (w, g, l, r) = extend_all_reaches pc index args is a k v p e f in
    let (x, u, m) = live_from-KeptAt types (suc pc) code index _ k w g in
    (
      x,
      get_elem?-In _ k x u,
      m.value ∙ (l.value ∙ same),
      omega (arith, m.begin, l.begin, begun),
      omega (arith, r, m.end),
    )

written_without :
    (j : Instruction) (code : List Instruction) (a : ℕ)
    → j.dest ≡ none
    → In a (written (j ∷ code))
    → In a (written code)
written_without j code a f h =
    subst (λ (o : Option ℕ). In a (elim o [ some d ↦ d ∷ written code | none ↦ written code ])) f h

written_with :
    (j : Instruction) (code : List Instruction) (a : ℕ) {d : ℕ}
    → j.dest ≡ some d
    → In a (written (j ∷ code))
    → (d ≡ a) ⊎ In a (written code)
written_with j code a f h =
    subst (λ (o : Option ℕ). In a (elim o [ some d ↦ d ∷ written code | none ↦ written code ])) f h

IsLiveAt-suc :
    (a pc n : ℕ) (is : List LiveInterval) → IsLiveAt a (suc pc + n) is → IsLiveAt a (pc + suc n) is
IsLiveAt-suc a pc n is (i, p, same, low, high) =
    (i, p, same, omega (arith, low), omega (arith, high))

-- A use at the place `n` of the code, of a register that is in the index or is written up to there.
use-IsLiveAt :
    (types : List Ty) (pc : ℕ) (code : List Instruction) (index : List (ℕ × ℕ))
    (is : List LiveInterval) (n : ℕ) (i : Instruction) (a : ℕ)
    → IsIndex pc index is
    → get_elem? code n ≡ some i
    → In a i.args
    → IsPlaced index a ⊎ In a (written (take (suc n) code))
    → IsLiveAt a (pc + n) (live_from types pc code index is)
unfolding live_from
use-IsLiveAt types pc [] index is n i a h e p q = cc
use-IsLiveAt types pc (j ∷ code) index is zero i a h e p q =
    let used : In a j.args = subst (λ (x : Instruction). In a x.args) (sym (some_injective e)) p in
    elim (Option-cases j.dest) [
      | inl f ↦
          let placed : IsPlaced index a = elim q [
            | inl k ↦ k
            | inr k ↦ absurd (written_without j [] a f k)
          ] in
          rw (f, live_from) (argument-IsLiveAt types pc code index is j.args a h used placed)
      | inr (d, f) ↦
          let fresh : LiveInterval = record {
            value = d;
            begin = pc;
            end = pc;
            ty = type_of types d;
          } in
          let placed = put-IsPlaced index d (length is) a (elim q [
            | inl k ↦ inr k
            | inr k ↦ elim (written_with j [] a f k) [ inl g ↦ inl g | inr g ↦ absurd g ]
          ]) in
          rw (f, live_from)
            (argument-IsLiveAt types pc code (put index d (length is)) (is ++ (fresh ∷ [])) j.args a
              (fresh-IsIndex pc index is fresh (omega arith) h) used placed)
    ]
use-IsLiveAt types pc (j ∷ code) index is (suc n) i a h e p q = elim (Option-cases j.dest) [
  | inl f ↦
      let later : IsPlaced index a ⊎ In a (written (take (suc n) code)) = elim q [
        | inl k ↦ inl k
        | inr k ↦ inr (written_without j (take (suc n) code) a f k)
      ] in
      rw (f, live_from)
        (IsLiveAt-suc a pc n _ (
          use-IsLiveAt types (suc pc) code index _ n i a
            (extend_all-IsIndex pc pc index j.args is h) e p later))
  | inr (d, f) ↦
      let fresh : LiveInterval = record { value = d; begin = pc; end = pc; ty = type_of types d } in
      let index' = put index d (length is) in
      let later : IsPlaced index' a ⊎ In a (written (take (suc n) code)) = elim q [
        | inl k ↦ inl (put-IsPlaced index d (length is) a (inr k))
        | inr k ↦ elim (written_with j (take (suc n) code) a f k) [
          | inl g ↦ inl (put-IsPlaced index d (length is) a (inl g))
          | inr g ↦ inr g
        ]
      ] in
      rw (f, live_from)
        (IsLiveAt-suc a pc n _ (
          use-IsLiveAt types (suc pc) code index' (extend_all pc index' j.args (is ++ (fresh ∷ [])))
            n i a
            (extend_all-IsIndex pc pc index' j.args (is ++ (fresh ∷ []))
              (fresh-IsIndex pc index is fresh (omega arith) h))
            e p later))
]

In-insert_head : (v : LiveInterval) (is : List LiveInterval) → In v (insert v is)
unfolding insert
In-insert_head v [] = inl refl
In-insert_head v (w ∷ is) =
    if_both (λ (l : List LiveInterval). In v l) (comes_before w v) (inr (In-insert_head v is))
      (inl refl)

In-insert_tail : (v i : LiveInterval) (is : List LiveInterval) → In i is → In i (insert v is)
unfolding insert
In-insert_tail v i [] h = absurd h
In-insert_tail v i (w ∷ is) (inl e) =
    if_both (λ (l : List LiveInterval). In i l) (comes_before w v) (inl e) (inr (inl e))
In-insert_tail v i (w ∷ is) (inr h) =
    if_both (λ (l : List LiveInterval). In i l) (comes_before w v) (inr (In-insert_tail v i is h))
      (inr (inr h))

In-sort : (i : LiveInterval) (is : List LiveInterval) → In i is → In i (sort is)
unfolding sort
In-sort i [] h = absurd h
In-sort i (v ∷ is) (inl e) =
    subst (λ (w : LiveInterval). In w (insert v (sort is))) e (In-insert_head v (sort is))
In-sort i (v ∷ is) (inr h) = In-insert_tail v i (sort is) (In-sort i is h)

-- Every use of a register lies in an interval of it: where an instruction has an argument that the
-- code has written up to there, the plan has an interval of the register that begins no later than
-- the instruction and ends no earlier.
pub allocate-IsLiveAt :
    (fn : Function) (registers : List Text) (n : ℕ) (i : Instruction) (a : ℕ)
    → get_elem? fn.code n ≡ some i
    → In a i.args
    → In a (written (take (suc n) fn.code))
    → IsLiveAt a n (allocate fn registers).intervals
unfolding allocate find
allocate-IsLiveAt fn registers n i a e p q =
    let (v, k, same, low, high) =
      use-IsLiveAt fn.register_types 0 fn.code [] [] n i a (λ b j f. cc) e p (inr q) in
    (
      v,
      In-sort v (live_from fn.register_types 0 fn.code [] []) k,
      same,
      omega (arith, low),
      omega (arith, high),
    )
