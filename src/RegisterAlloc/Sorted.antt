-- ===== src/RegisterAlloc/Sorted.antt =====
-- The intervals in front of the scan (Compiler/register_alloc.cpp): their order and their registers.
use noe_code.Prelude.{
  In, ℕ, zero, suc, ◌≤◌, ◌≡◌, ◌≢◌, ◌⊎◌, refl, sym, ap, subst, ◌∙◌, inl, inr, true, false, List, [],
  ◌∷◌, ◌++◌, Option, none, some, find, put, get_elem?, set, max, length, arith, Bool-cases,
  Option-cases, if_both,
}
use mathlib.Core.List.{append-nil, append_assoc}
use noe_code.Types.{Ty}
use noe_code.Nir.{Instruction}
use noe_code.RegisterAlloc.Intervals.{
  LiveInterval, type_of, extend, extend_all, live_from, comes_before, insert, sort,
}

abbrev pub IsDistinct : List ℕ → Type 0
IsDistinct [] = Unit
IsDistinct (n ∷ ns) = ((m : ℕ) → In m ns → n ≢ m) × IsDistinct ns

-- The registers that the code writes, in turn.
abbrev pub written : List Instruction → List ℕ
written [] = []
written (i ∷ code) = elim i.dest [ some d ↦ d ∷ written code | none ↦ written code ]

abbrev pub values : List LiveInterval → List ℕ
values [] = []
values (v ∷ is) = v.value ∷ values is

abbrev pub IsSorted : List LiveInterval → Type 0
IsSorted [] = Unit
IsSorted (v ∷ is) = ((i : LiveInterval) → In i is → v.begin ≤ i.begin) × IsSorted is

pub In-values : (i : LiveInterval) (is : List LiveInterval) → In i is → In i.value (values is)
In-values i [] h = absurd h
In-values i (v ∷ is) (inl e) = inl (ap (λ (w : LiveInterval). w.value) e)
In-values i (v ∷ is) (inr h) = inr (In-values i is h)

In-insert : (v i : LiveInterval) (is : List LiveInterval) → In i (insert v is) → (v ≡ i) ⊎ In i is
unfolding insert
In-insert v i [] h = h
In-insert v i (w ∷ is) h =
    let split : (w ≡ i) ⊎ In i (insert v is) → (v ≡ i) ⊎ ((w ≡ i) ⊎ In i is) = λ h. elim h [
      | inl p ↦ inr (inl p)
      | inr p ↦ elim (In-insert v i is p) [ inl q ↦ inl q | inr q ↦ inr (inr q) ]
    ] in
    if_both (λ (l : List LiveInterval). In i l → (v ≡ i) ⊎ ((w ≡ i) ⊎ In i is)) (comes_before w v)
      split (λ h. h) h

values-insert :
    (v : LiveInterval) (m : ℕ) (is : List LiveInterval)
    → In m (values (insert v is))
    → (v.value ≡ m) ⊎ In m (values is)
unfolding insert
values-insert v m [] h = h
values-insert v m (w ∷ is) h =
    let split : (w.value ≡ m) ⊎ In m (values (insert v is))
        → (v.value ≡ m) ⊎ ((w.value ≡ m) ⊎ In m (values is)) =
      λ h. elim h [
        | inl p ↦ inr (inl p)
        | inr p ↦ elim (values-insert v m is p) [ inl q ↦ inl q | inr q ↦ inr (inr q) ]
      ] in
    if_both
      (λ (l : List LiveInterval).
        In m (values l) → (v.value ≡ m) ⊎ ((w.value ≡ m) ⊎ In m (values is)))
      (comes_before w v) split (λ h. h) h

insert-IsDistinct :
    (v : LiveInterval) (is : List LiveInterval)
    → ((m : ℕ) → In m (values is) → v.value ≢ m)
    → IsDistinct (values is)
    → IsDistinct (values (insert v is))
unfolding insert
insert-IsDistinct v [] h k = (h, k)
insert-IsDistinct v (w ∷ is) h (k, ks) = elim (Bool-cases (comes_before w v)) [
  | inr e ↦ rw (e, insert) (h, (k, ks))
  | inl e ↦
      rw (e, insert)
        (
          λ m p. elim (values-insert v m is p) [
            | inl q ↦ λ f. h w.value (inl refl) (q ∙ sym f)
            | inr q ↦ k m q
          ],
          insert-IsDistinct v is (λ m p. h m (inr p)) ks,
        )
]

begin-before : (a b : LiveInterval) → comes_before a b ≡ true → a.begin ≤ b.begin
unfolding comes_before
begin-before a b h = ground (arith, h)

begin-not_before : (a b : LiveInterval) → comes_before a b ≡ false → b.begin ≤ a.begin
unfolding comes_before
begin-not_before a b h = ground (arith, h)

insert-IsSorted : (v : LiveInterval) (is : List LiveInterval) → IsSorted is → IsSorted (insert v is)
unfolding insert
insert-IsSorted v [] h = (λ i k. absurd k, tt)
insert-IsSorted v (w ∷ is) (k, ks) = elim (Bool-cases (comes_before w v)) [
  | inr e ↦
      let first = begin-not_before w v e in
      rw (e, insert)
        (
          λ i p. elim p [
            | inl q ↦ subst (λ (x : LiveInterval). v.begin ≤ x.begin) q first
            | inr q ↦ omega (arith, first, k i q)
          ],
          (k, ks),
        )
  | inl e ↦
      rw (e, insert)
        (
          λ i p. elim (In-insert v i is p) [
            | inl q ↦ subst (λ (x : LiveInterval). w.begin ≤ x.begin) q (begin-before w v e)
            | inr q ↦ k i q
          ],
          insert-IsSorted v is ks,
        )
]

values-sort : (m : ℕ) (is : List LiveInterval) → In m (values (sort is)) → In m (values is)
unfolding sort
values-sort m [] h = h
values-sort m (v ∷ is) h = elim (values-insert v m (sort is) h) [
  | inl e ↦ inl e
  | inr k ↦ inr (values-sort m is k)
]

pub sort-IsSorted : (is : List LiveInterval) → IsSorted (sort is)
unfolding sort
sort-IsSorted [] = tt
sort-IsSorted (v ∷ is) = insert-IsSorted v (sort is) (sort-IsSorted is)

pub sort-IsDistinct :
    (is : List LiveInterval) → IsDistinct (values is) → IsDistinct (values (sort is))
unfolding sort
sort-IsDistinct [] h = tt
sort-IsDistinct (v ∷ is) (h, hs) =
    insert-IsDistinct v (sort is) (λ m k. h m (values-sort m is k)) (sort-IsDistinct is hs)

same_value : {a b : LiveInterval} → some a ≡ some b → b.value ≡ a.value
same_value {a} e =
    sym (ap (λ (o : Option LiveInterval). elim o [ some n ↦ n.value | none ↦ a.value ]) e)

-- An interval that is extended keeps its register.
values-set :
    (is : List LiveInterval) (k : ℕ) (v : LiveInterval) (n : ℕ)
    → get_elem? is k ≡ some v
    → values (set is k (record v { end = n })) ≡ values is
values-set [] k v n e = refl
values-set (w ∷ is) zero v n e = ap (λ (x : ℕ). x ∷ values is) (same_value e)
values-set (w ∷ is) (suc k) v n e = ap (λ (l : List ℕ). w.value ∷ l) (values-set is k v n e)

values-extend :
    (pc : ℕ) (index : List (ℕ × ℕ)) (a : ℕ) (is : List LiveInterval)
    → values (extend pc index a is) ≡ values is
unfolding extend
values-extend pc index a is = elim (Option-cases (find index a)) [
  | inl e ↦ rw (e, extend) refl
  | inr (k, e) ↦ elim (Option-cases (get_elem? is k)) [
    | inl f ↦ rw (e, f, extend) refl
    | inr (v, f) ↦ rw (e, f, extend) (values-set is k v (max v.end pc) f)
  ]
]

values-extend_all :
    (pc : ℕ) (index : List (ℕ × ℕ)) (args : List ℕ) (is : List LiveInterval)
    → values (extend_all pc index args is) ≡ values is
unfolding extend_all
values-extend_all pc index [] is = refl
values-extend_all pc index (a ∷ args) is =
    values-extend_all pc index args _ ∙ values-extend pc index a is

values-append : (xs ys : List LiveInterval) → values (xs ++ ys) ≡ values xs ++ values ys
values-append [] ys = refl
values-append (x ∷ xs) ys = ap (λ (l : List ℕ). x.value ∷ l) (values-append xs ys)

-- The intervals are those of the registers written, in turn.
pub values-live_from :
    (types : List Ty) (pc : ℕ) (code : List Instruction) (index : List (ℕ × ℕ))
    (is : List LiveInterval)
    → values (live_from types pc code index is) ≡ values is ++ written code
unfolding live_from
values-live_from types pc [] index is = sym (append-nil (values is))
values-live_from types pc (i ∷ code) index is = elim (Option-cases i.dest) [
  | inl e ↦
      rw (e, live_from)
        (values-live_from types (suc pc) code index _
          ∙ ap (λ (l : List ℕ). l ++ written code) (values-extend_all pc index i.args is))
  | inr (d, e) ↦
      let fresh : LiveInterval = record { value = d; begin = pc; end = pc; ty = type_of types d } in
      let index' = put index d (length is) in
      rw (e, live_from)
        (values-live_from types (suc pc) code index'
            (extend_all pc index' i.args (is ++ (fresh ∷ [])))
          ∙ (ap (λ (l : List ℕ). l ++ written code)
                (values-extend_all pc index' i.args (is ++ (fresh ∷ []))
                  ∙ values-append is (fresh ∷ []))
              ∙ append_assoc (values is) (d ∷ []) (written code)))
]
