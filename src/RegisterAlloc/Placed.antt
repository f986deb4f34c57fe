-- ===== src/RegisterAlloc/Placed.antt =====
-- One round of the linear scan (Compiler/register_alloc.cpp) keeps its invariant.
use noe_code.Prelude.{
  In, ℕ, ◌+◌, ◌≤◌, ◌<◌, ◌≡◌, ◌≢◌, ◌⊎◌, refl, sym, ap, subst, ◌∙◌, inl, inr, List, [], ◌∷◌, ◌++◌,
  Text, text_eq_refl, put, get_elem?, set, ltb, arith, Bool-cases, Option-cases,
}
use noe_code.Types.{size}
use noe_code.RegisterAlloc.Intervals.{LiveInterval}
use noe_code.RegisterAlloc.Scan.{Active, Allocator, spill, in_register, evict, place, scan_one}
use noe_code.RegisterAlloc.Uses.{
  uses, held, Holds, held-append, Holds-append, Holds-last, Holds-held, held-expire, Holds-expire,
  held-set, Holds-set, Holds-set_self, Holds-unique,
}
use noe_code.RegisterAlloc.Scanned.{
  IsAt, Scanned, IsAt-spill, IsAt-put, put-keyed, spill-Scanned, spill-new,
}

-- The value of no earlier interval.
abbrev pub IsNew : List LiveInterval → LiveInterval → Type 0
IsNew ps v = (i : LiveInterval) → In i ps → v.value ≢ i.value

-- `v` gets a register that no interval which is still live is in.
give-Scanned :
    (ps : List LiveInterval) (v : LiveInterval) (x : Text) (t : Allocator) (active : List Active)
    (free : List Text)
    → Scanned ps v.begin t
    → IsNew ps v
    → ((r : Text) → held r active + uses r free ≤ 1)
    → Holds v x active
    → ((i : LiveInterval) → In i ps → IsAt t.locations i x → i.end < v.begin)
    → ((i : LiveInterval) (r : Text) → IsAt t.locations i r → Holds i r t.active → Holds i r active)
    → Scanned (v ∷ ps) v.begin (record t {
      active = active;
      free = free;
      locations = put t.locations v.value (in_register v x);
    })
give-Scanned ps v x t active free h fresh count mine ended stay =
    let older : (i : LiveInterval) → In i (v ∷ ps) → v.value ≢ i.value → In i ps =
      λ i k n. elim k [ inl e ↦ absurd (n (ap (λ (w : LiveInterval). w.value) e)) | inr q ↦ q ] in
    let newer : (i : LiveInterval) → In i (v ∷ ps) → v.value ≡ i.value → v ≡ i =
      λ i k e. elim k [ inl f ↦ f | inr q ↦ absurd (fresh i q e) ] in
    record {
      registers = count;
      holds = λ i r k a. elim (IsAt-put t.locations v x i r a) [
        | inl (e, f) ↦ inl (
            subst (λ (w : LiveInterval). Holds w r active) (newer i k e)
              (subst (λ (y : Text). Holds v y active) f mine))
        | inr (n, b) ↦ elim (h.holds i r (older i k n) b) [
          | inl p ↦ inl (stay i r b p)
          | inr p ↦ inr p
        ]
      ];
      apart = λ i j r k l n a b. elim (IsAt-put t.locations v x i r a) [
        | inl (e, f) ↦ elim (IsAt-put t.locations v x j r b) [
          | inl (g, o) ↦ absurd (n (sym e ∙ g))
          | inr (g, o) ↦ inr (
              subst (λ (w : LiveInterval). j.end < w.begin) (newer i k e)
                (ended j (older j l g) (subst (λ (y : Text). IsAt t.locations j y) (sym f) o)))
        ]
        | inr (e, f) ↦ elim (IsAt-put t.locations v x j r b) [
          | inl (g, o) ↦ inl (
              subst (λ (w : LiveInterval). i.end < w.begin) (newer j l g)
                (ended i (older i k e) (subst (λ (y : Text). IsAt t.locations i y) (sym o) f)))
          | inr (g, o) ↦ h.apart i j r (older i k e) (older j l g) n f o
        ]
      ];
      keyed = put-keyed t.locations v.value (in_register v x) refl h.keyed;
    }

evict-Scanned :
    (ps : List LiveInterval) (v : LiveInterval) (k : ℕ) (s : Allocator)
    → Scanned ps v.begin s
    → IsNew ps v
    → Scanned (v ∷ ps) v.begin (evict v k s)
unfolding evict spill
evict-Scanned ps v k s h fresh =
    let at_most : (r : Text) → held r s.active ≤ 1 = λ r. omega (arith, h.registers r) in
    elim (Option-cases (get_elem? s.active k)) [
      | inl e ↦ rw (e, evict) (spill-new ps v.begin v s h)
      | inr ((w, x), e) ↦ elim (Bool-cases (ltb v.end w.end)) [
        | inr f ↦ rw (e, f, evict) (spill-new ps v.begin v s h)
        | inl f ↦
            rw (e, f, evict)
              (give-Scanned ps v x (spill w s) (set s.active k (v, x)) (spill w s).free
                (spill-Scanned ps v.begin w s h) fresh
                (λ r. omega (arith, held-set r s.active k v w x e, h.registers r))
                (Holds-set_self s.active k v w x e)
                (λ i q a.
                  let (n, b) = IsAt-spill w s i x a in
                  elim (h.holds i x q b) [
                    | inl p ↦ absurd (
                        n (
                          ap (λ (u : LiveInterval). u.value)
                            (sym (Holds-unique s.active k w i x (at_most x) e p))))
                    | inr p ↦ p
                  ])
                (λ i r a p. elim (Holds-set s.active k v w i x r e p) [
                  | inl q ↦ q
                  | inr (q, f) ↦
                      absurd ((IsAt-spill w s i r a).0 (ap (λ (u : LiveInterval). u.value) (sym q)))
                ]))
      ]
    ]

twice :
    (x : Text) (active : List Active) (rest : List Text)
    → held x active + uses x (x ∷ rest) ≤ 1
    → 0 < held x active
    → ⊥
twice x active rest h k = ground (arith, text_eq_refl x, h, k)

List-cases : (xs : List Text) → (xs ≡ []) ⊎ ((x : Text) × (ys : List Text) × (xs ≡ x ∷ ys))
List-cases [] = inl refl
List-cases (x ∷ xs) = inr (x, xs, refl)

place-Scanned :
    (ps : List LiveInterval) (v : LiveInterval) (s : Allocator)
    → Scanned ps v.begin s
    → IsNew ps v
    → Scanned (v ∷ ps) v.begin (place v s)
unfolding place
place-Scanned ps v s h fresh = elim (Bool-cases (ltb 8 (size v.ty))) [
  | inl e ↦ rw (e, place) (spill-new ps v.begin v s h)
  | inr e ↦ elim (List-cases s.free) [
    | inl f ↦ rw (e, f, place) (evict-Scanned ps v _ s h fresh)
    | inr (x, rest, f) ↦
        let counts : (r : Text) → held r s.active + uses r (x ∷ rest) ≤ 1 =
          λ r. subst (λ (l : List Text). held r s.active + uses r l ≤ 1) f (h.registers r) in
        rw (e, f, place)
          (give-Scanned ps v x s (s.active ++ ((v, x) ∷ [])) rest h fresh
            (λ r. omega (arith, held-append r s.active ((v, x) ∷ []), counts r))
            (Holds-last v x s.active)
            (λ i q a. elim (h.holds i x q a) [
              | inl p ↦ absurd (twice x s.active rest (counts x) (Holds-held i x s.active p))
              | inr p ↦ p
            ])
            (λ i r a p. Holds-append i r s.active ((v, x) ∷ []) p))
  ]
]

pub scan_one-Scanned :
    (ps : List LiveInterval) (now : ℕ) (v : LiveInterval) (s : Allocator)
    → Scanned ps now s
    → now ≤ v.begin
    → IsNew ps v
    → Scanned (v ∷ ps) v.begin (scan_one v s)
unfolding scan_one
scan_one-Scanned ps now v s h later fresh =
    place-Scanned ps v _
      (record {
        registers = λ r. omega (arith, held-expire r v.begin s.active s.free, h.registers r);
        holds = λ i r k a. elim (h.holds i r k a) [
          | inl p ↦ Holds-expire i r v.begin s.active s.free p
          | inr p ↦ inr (omega (arith, p, later))
        ];
        apart = h.apart;
        keyed = h.keyed;
      })
      fresh
