-- ===== src/RegisterAlloc/Scanned.antt =====
-- The invariant of the linear scan (Compiler/register_alloc.cpp): what the locations entered so far
-- say of the intervals that have been placed.
use noe_code.Prelude.{
  In, ℕ, ◌+◌, ◌≤◌, ◌<◌, ◌≡◌, ◌≢◌, ◌⊎◌, refl, sym, ap, subst, ◌∙◌, inl, inr, true, false, List, ◌∷◌,
  Option, none, some, Text, find, put, ◌==◌, ==_iff, Bool-cases, if◌then◌else◌,
}
use noe_code.RegisterAlloc.Intervals.{LiveInterval}
use noe_code.RegisterAlloc.Scan.{Allocator, RegisterLocation, spill, in_register}
use noe_code.RegisterAlloc.Uses.{uses, held, Holds}

-- One interval has ended where the other begins.
abbrev pub IsApart : LiveInterval → LiveInterval → Type 0
IsApart i j = (i.end < j.begin) ⊎ (j.end < i.begin)

abbrev pub Locations : Type 0
Locations = List (ℕ × RegisterLocation)

-- The value of the interval is in the register.
abbrev pub IsAt : Locations → LiveInterval → Text → Type 0
IsAt m i r =
    (l : RegisterLocation) × (find m i.value ≡ some l) × (l.spilled ≡ false) × (l.physical ≡ r)

-- The registers are held or free at most once; an interval in a register holds it or has ended; two
-- intervals in one register are apart; and a location is that of its key.
pub record Scanned (ps : List LiveInterval) (now : ℕ) (s : Allocator) : Type 0 where
  pub registers : (r : Text) → held r s.active + uses r s.free ≤ 1
  pub holds :
      (i : LiveInterval) (r : Text)
      → In i ps
      → IsAt s.locations i r
      → Holds i r s.active ⊎ (i.end < now)
  pub apart :
      (i j : LiveInterval) (r : Text)
      → In i ps
      → In j ps
      → i.value ≢ j.value
      → IsAt s.locations i r
      → IsAt s.locations j r
      → IsApart i j
  pub keyed : (k : ℕ) (l : RegisterLocation) → find s.locations k ≡ some l → l.value ≡ k

same_location : {a b : RegisterLocation} → some a ≡ some b → a ≡ b
same_location {a} e = ap (λ (o : Option RegisterLocation). elim o [ some n ↦ n | none ↦ a ]) e

false-is_true : false ≡ true → ⊥
false-is_true e = cc

-- A location of another key.
find-put_cases :
    (m : Locations) (v : ℕ) (l : RegisterLocation) (k : ℕ) (n : RegisterLocation)
    → find (put m v l) k ≡ some n
    → ((v ≡ k) × (l ≡ n)) ⊎ ((v ≢ k) × (find m k ≡ some n))
unfolding find
find-put_cases m v l k n h = elim (Bool-cases (v == k)) [
  | inl e ↦
      inl (
        (==_iff v k).0 e,
        same_location (subst (λ b. (if b then some l else find m k) ≡ some n) e h),
      )
  | inr e ↦ inr (
    λ f. false-is_true (sym e ∙ (==_iff v k).1 f),
    subst (λ b. (if b then some l else find m k) ≡ some n) e h,
  )
]

true-is_false : true ≡ false → ⊥
true-is_false e = cc

-- After a spill only the other intervals are in a register.
pub IsAt-spill :
    (w : LiveInterval) (s : Allocator) (i : LiveInterval) (r : Text)
    → IsAt (spill w s).locations i r
    → (w.value ≢ i.value) × IsAt s.locations i r
unfolding spill
IsAt-spill w s i r (l, e, u, p) = elim (find-put_cases s.locations w.value _ i.value l e) [
  | inl (k, f) ↦ absurd (true-is_false (ap (λ (n : RegisterLocation). n.spilled) f ∙ u))
  | inr (k, f) ↦ (k, (l, f, u, p))
]

-- After a register is given to `v`, that is in it, and the others are where they were.
pub IsAt-put :
    (m : Locations) (v : LiveInterval) (x : Text) (i : LiveInterval) (r : Text)
    → IsAt (put m v.value (in_register v x)) i r
    → ((v.value ≡ i.value) × (x ≡ r)) ⊎ ((v.value ≢ i.value) × IsAt m i r)
IsAt-put m v x i r (l, e, u, p) = elim (find-put_cases m v.value _ i.value l e) [
  | inl (k, f) ↦ inl (k, ap (λ (n : RegisterLocation). n.physical) f ∙ p)
  | inr (k, f) ↦ inr (k, (l, f, u, p))
]

pub put-keyed :
    (m : Locations) (v : ℕ) (n : RegisterLocation)
    → n.value ≡ v
    → ((k : ℕ) (l : RegisterLocation) → find m k ≡ some l → l.value ≡ k)
    → (k : ℕ) (l : RegisterLocation) → find (put m v n) k ≡ some l
    → l.value ≡ k
put-keyed m v n same h k l e = elim (find-put_cases m v n k l e) [
  | inl (p, f) ↦ sym (ap (λ (x : RegisterLocation). x.value) f) ∙ (same ∙ p)
  | inr (p, f) ↦ h k l f
]

pub spill-Scanned :
    (ps : List LiveInterval) (now : ℕ) (w : LiveInterval) (s : Allocator)
    → Scanned ps now s
    → Scanned ps now (spill w s)
unfolding spill
spill-Scanned ps now w s h = record {
  registers = h.registers;
  holds = λ i r k a. h.holds i r k (IsAt-spill w s i r a).1;
  apart = λ i j r k l n a b. h.apart i j r k l n (IsAt-spill w s i r a).1 (IsAt-spill w s j r b).1;
  keyed = λ k l e. put-keyed s.locations w.value _ refl h.keyed k l e;
}

-- An interval that is spilled where it would be placed.
pub spill-new :
    (ps : List LiveInterval) (now : ℕ) (v : LiveInterval) (s : Allocator)
    → Scanned ps now s
    → Scanned (v ∷ ps) now (spill v s)
spill-new ps now v s h =
    let t = spill-Scanned ps now v s h in
    let older : (i : LiveInterval) (r : Text)
        → In i (v ∷ ps)
        → IsAt (spill v s).locations i r
        → In i ps =
      λ i r k a. elim k [
        | inl e ↦ absurd ((IsAt-spill v s i r a).0 (ap (λ (n : LiveInterval). n.value) e))
        | inr q ↦ q
      ] in
    record {
      registers = t.registers;
      holds = λ i r k a. t.holds i r (older i r k a) a;
      apart = λ i j r k l n a b. t.apart i j r (older i r k a) (older j r l b) n a b;
      keyed = t.keyed;
    }
