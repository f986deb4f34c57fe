-- ===== src/RegisterAlloc/Scan.antt =====
-- The linear scan (`LinearScanRegisterAllocator::allocate`, Compiler/register_alloc.cpp). A place in
-- `plan.intervals`, which the scan does not change, is the interval there; the back of the vector
-- `free` is the head of the list.
use noe_code.Prelude.{
  ℕ, suc, Bool, true, false, List, [], ◌∷◌, ◌++◌, none, some, Text, codes, find, put, get_elem?,
  set, ltb, if◌then◌else◌,
}
use noe_code.Types.{size}
use noe_code.Nir.{Function}
use noe_code.RegisterAlloc.Intervals.{LiveInterval, live_from, sort}

pub record RegisterLocation : Type 0 where
  pub value : ℕ
  pub physical : Text
  pub spilled : Bool
  pub spill_slot : ℕ

pub record AllocationPlan : Type 0 where
  pub intervals : List LiveInterval
  pub locations : List RegisterLocation
  pub spill_slots : ℕ

-- An interval that is live, and its register.
abbrev pub Active : Type 0
Active = LiveInterval × Text

pub record Allocator : Type 0 where
  pub active : List Active
  pub free : List Text
  pub locations : List (ℕ × RegisterLocation)
  pub spill_slots : ℕ

unfoldable pub spill : LiveInterval → Allocator → Allocator
spill v s = record s {
  locations =
      put s.locations v.value (record {
        value = v.value;
        physical = codes "";
        spilled = true;
        spill_slot = s.spill_slots;
      });
  spill_slots = suc s.spill_slots;
}

abbrev pub in_register : LiveInterval → Text → RegisterLocation
in_register v r = record { value = v.value; physical = r; spilled = false; spill_slot = 0 }

-- The intervals that end before `now` leave, and their registers are free.
unfoldable pub expire : ℕ → List Active → List Text → List Active × List Text
expire now [] free = ([], free)
expire now ((v, r) ∷ active) free =
    let gone = expire now active (r ∷ free) in
    let kept = expire now active free in if ltb v.end now then gone else ((v, r) ∷ kept.0, kept.1)

-- The first place with the greatest end, from the place `at` on, where `best` is the place so far and
-- `end` the end there.
unfoldable pub farthest_from : ℕ → ℕ → ℕ → List Active → ℕ
farthest_from best end at [] = best
farthest_from best end at ((v, r) ∷ active) =
    let other = farthest_from at v.end (suc at) active in
    let same = farthest_from best end (suc at) active in if ltb end v.end then other else same

-- `std::max_element`
unfoldable pub farthest : List Active → ℕ
unfolding farthest_from
farthest [] = 0
farthest ((v, r) ∷ active) = farthest_from 0 v.end 1 active

-- The interval at the place `k` gives its register to `v` if it ends later.
unfoldable pub evict : LiveInterval → ℕ → Allocator → Allocator
unfolding spill
evict v k s = elim (get_elem? s.active k) [
  | none ↦ spill v s
  | some (w, r) ↦
      if ltb v.end w.end
      then record (spill w s) {
        active = set s.active k (v, r);
        locations = put (spill w s).locations v.value (in_register v r);
      }
      else spill v s
]

-- One round of the loop, once the intervals before it have expired.
unfoldable pub place : LiveInterval → Allocator → Allocator
unfolding size spill evict farthest
place v s = if ltb 8 (size v.ty) then spill v s else elim s.free [
  | [] ↦ evict v (farthest s.active) s
  | r ∷ rest ↦ record s {
    active = s.active ++ ((v, r) ∷ []);
    free = rest;
    locations = put s.locations v.value (in_register v r);
  }
]

unfoldable pub scan_one : LiveInterval → Allocator → Allocator
unfolding expire place
scan_one v s =
    let left = expire v.begin s.active s.free in
    place v (record s { active = left.0; free = left.1 })

unfoldable pub scan : List LiveInterval → Allocator → Allocator
unfolding scan_one
scan [] s = s
scan (v ∷ is) s = scan is (scan_one v s)

-- The location of each interval that has one, in the order of the intervals.
unfoldable pub gather : List LiveInterval → List (ℕ × RegisterLocation) → List RegisterLocation
unfolding find
gather [] m = []
gather (v ∷ is) m =
    let rest = gather is m in elim (find m v.value) [ some l ↦ l ∷ rest | none ↦ rest ]

abbrev pub backwards : List Text → List Text → List Text
backwards [] acc = acc
backwards (r ∷ rs) acc = backwards rs (r ∷ acc)

unfoldable pub start_scan : List Text → Allocator
start_scan registers = record {
  active = [];
  free = backwards registers [];
  locations = [];
  spill_slots = 0;
}

-- `LinearScanRegisterAllocator::allocate`
unfoldable pub allocate : Function → List Text → AllocationPlan
unfolding live_from sort scan start_scan gather
allocate fn registers =
    let is = sort (live_from fn.register_types 0 fn.code [] []) in
    let s = scan is (start_scan registers) in
    record { intervals = is; locations = gather is s.locations; spill_slots = s.spill_slots }
