-- ===== src/RegisterAlloc/Apart.antt =====
-- What the plan of `LinearScanRegisterAllocator::allocate` (Compiler/register_alloc.cpp) promises.
use noe_code.Prelude.{
  In, ℕ, ◌+◌, ◌≤◌, ◌≡◌, ◌≢◌, ◌⊎◌, refl, sym, ap, subst, ◌∙◌, inl, inr, false, List, [], ◌∷◌, Option,
  none, some, Text, find, arith, Option-cases,
}
use noe_code.Nir.{Function}
use noe_code.RegisterAlloc.Intervals.{LiveInterval, live_from, sort}
use noe_code.RegisterAlloc.Scan.{
  Allocator, RegisterLocation, scan_one, scan, gather, backwards, start_scan, allocate,
}
use noe_code.RegisterAlloc.Uses.{uses}
use noe_code.RegisterAlloc.Scanned.{IsApart, Locations, Scanned}
use noe_code.RegisterAlloc.Placed.{scan_one-Scanned}
use noe_code.RegisterAlloc.Sorted.{
  IsDistinct, written, values, IsSorted, In-values, sort-IsSorted, sort-IsDistinct,
  values-live_from,
}

-- The whole scan keeps the invariant; `qs` are the intervals placed before it and in it.
scan-Scanned :
    (is ps : List LiveInterval) (now : ℕ) (s : Allocator)
    → Scanned ps now s
    → ((i : LiveInterval) → In i is → now ≤ i.begin)
    → ((i j : LiveInterval) → In i ps → In j is → j.value ≢ i.value)
    → IsSorted is
    → IsDistinct (values is)
    → (qs : List LiveInterval) × (end : ℕ) × Scanned qs end (scan is s)
      × ((i : LiveInterval) → In i ps ⊎ In i is → In i qs)
unfolding scan
scan-Scanned [] ps now s h later other sorted distinct =
    (ps, now, h, λ i k. elim k [ inl p ↦ p | inr p ↦ absurd p ])
scan-Scanned (v ∷ is) ps now s h later other (sorted, rest) (distinct, more) =
    let (qs, end, k, all) =
      scan-Scanned is (v ∷ ps) v.begin (scan_one v s)
        (scan_one-Scanned ps now v s h (later v (inl refl)) (λ i p. other i v p (inl refl))) sorted
        (λ i j p q. elim p [
          | inl e ↦ λ f.
              distinct j.value (In-values j is q) (ap (λ (w : LiveInterval). w.value) e ∙ sym f)
          | inr p ↦ other i j p (inr q)
        ])
        rest more in
    (
      qs,
      end,
      k,
      λ i p. elim p [
        | inl q ↦ all i (inl (inr q))
        | inr q ↦ elim q [ inl e ↦ all i (inl (inl e)) | inr r ↦ all i (inr r) ]
      ],
    )

uses-backwards :
    (r : Text) (rs acc : List Text) → uses r (backwards rs acc) ≡ uses r rs + uses r acc
uses-backwards r [] acc = omega arith
uses-backwards r (x ∷ rs) acc = omega (arith, uses-backwards r rs (x ∷ acc))

start_scan-Scanned :
    (registers : List Text)
    → ((r : Text) → uses r registers ≤ 1)
    → Scanned [] 0 (start_scan registers)
unfolding start_scan find
start_scan-Scanned registers h = record {
  registers = λ r. omega (arith, uses-backwards r registers [], h r);
  holds = λ i r k a. absurd k;
  apart = λ i j r k l n a b. absurd k;
  keyed = λ k l e. cc;
}

-- A location of the plan is one of the map.
In-gather :
    (l : RegisterLocation) (is : List LiveInterval) (m : Locations)
    → In l (gather is m)
    → (k : ℕ) × (find m k ≡ some l)
unfolding gather
In-gather l [] m h = absurd h
In-gather l (v ∷ is) m h = elim (Option-cases (find m v.value)) [
  | inl e ↦ In-gather l is m (
      subst
        (λ (o : Option RegisterLocation).
          In l (elim o [ some n ↦ n ∷ gather is m | none ↦ gather is m ]))
        e h)
  | inr (n, e) ↦
      elim (subst
        (λ (o : Option RegisterLocation).
          In l (elim o [ some n ↦ n ∷ gather is m | none ↦ gather is m ]))
        e h) [
          | inl f ↦ (v.value, e ∙ ap (λ (x : RegisterLocation). some x) f)
          | inr k ↦ In-gather l is m k
        ]
]

-- Where the physical registers given are different, and the code writes no register twice, two
-- different registers of the plan that are in the same physical register are never live at once: the
-- interval of one has ended before that of the other begins.
pub allocate-IsApart :
    (fn : Function) (registers : List Text)
    → ((r : Text) → uses r registers ≤ 1)
    → IsDistinct (written fn.code)
    → (i j : LiveInterval) (l m : RegisterLocation) → In i (allocate fn registers).intervals
    → In j (allocate fn registers).intervals
    → i.value ≢ j.value
    → In l (allocate fn registers).locations
    → In m (allocate fn registers).locations
    → l.value ≡ i.value
    → m.value ≡ j.value
    → l.spilled ≡ false
    → m.spilled ≡ false
    → l.physical ≡ m.physical
    → IsApart i j
unfolding allocate
allocate-IsApart fn registers h single i j l m p q n u w e f a b same =
    let live = live_from fn.register_types 0 fn.code [] [] in
    let distinct = sort-IsDistinct live (
      subst (λ (ns : List ℕ). IsDistinct ns)
        (sym (values-live_from fn.register_types 0 fn.code [] [])) single) in
    let (qs, end, k, all) =
      scan-Scanned (sort live) [] 0 (start_scan registers) (start_scan-Scanned registers h)
        (λ i p. omega arith) (λ i j p q. absurd p) (sort-IsSorted live) distinct in
    let places = (scan (sort live) (start_scan registers)).locations in
    let (x, o) = In-gather l (sort live) places u in
    let (y, r) = In-gather m (sort live) places w in
    k.apart i j l.physical (all i (inr p)) (all j (inr q)) n
      (l, subst (λ (z : ℕ). find places z ≡ some l) (sym (k.keyed x l o) ∙ e) o, a, refl)
      (m, subst (λ (z : ℕ). find places z ≡ some m) (sym (k.keyed y m r) ∙ f) r, b, sym same)
