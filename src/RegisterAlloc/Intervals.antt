-- ===== src/RegisterAlloc/Intervals.antt =====
-- The live intervals of a function (`LinearScanRegisterAllocator::allocate`,
-- Compiler/register_alloc.cpp).
use noe_code.Prelude.{
  ℕ, suc, Bool, ◌&&◌, ◌||◌, List, [], ◌∷◌, ◌++◌, none, some, find, put, get_elem?, set, length, max,
  ltb, ◌==◌, if◌then◌else◌,
}
use noe_code.Types.{Ty, default_type}
use noe_code.Nir.{Instruction}

pub record LiveInterval : Type 0 where
  pub value : ℕ
  pub begin : ℕ
  pub end : ℕ
  pub ty : Ty

-- An argument is live up to `pc`; `index` has the place of the last interval of each register.
unfoldable pub extend : ℕ → List (ℕ × ℕ) → ℕ → List LiveInterval → List LiveInterval
unfolding find
extend pc index arg is = elim (find index arg) [
  | none ↦ is
  | some k ↦ elim (get_elem? is k) [
    | none ↦ is
    | some v ↦ set is k (record v { end = max v.end pc })
  ]
]

unfoldable pub extend_all : ℕ → List (ℕ × ℕ) → List ℕ → List LiveInterval → List LiveInterval
unfolding extend
extend_all pc index [] is = is
extend_all pc index (a ∷ args) is = extend_all pc index args (extend pc index a is)

-- `*in.dest<fn.registerTypes.size()?fn.registerTypes[*in.dest]:Type{}`
unfoldable pub type_of : List Ty → ℕ → Ty
type_of types r = elim (get_elem? types r) [ some t ↦ t | none ↦ default_type ]

unfoldable pub live_from :
    List Ty → ℕ → List Instruction → List (ℕ × ℕ) → List LiveInterval → List LiveInterval
unfolding type_of extend_all
live_from types pc [] index is = is
live_from types pc (i ∷ code) index is = elim i.dest [
  | none ↦ live_from types (suc pc) code index (extend_all pc index i.args is)
  | some d ↦
      let fresh : LiveInterval = record { value = d; begin = pc; end = pc; ty = type_of types d } in
      let index' = put index d (length is) in
      live_from types (suc pc) code index' (extend_all pc index' i.args (is ++ (fresh ∷ [])))
]

-- The order of the sort.
unfoldable pub comes_before : LiveInterval → LiveInterval → Bool
comes_before a b = ltb a.begin b.begin || (a.begin == b.begin && ltb a.value b.value)

unfoldable pub insert : LiveInterval → List LiveInterval → List LiveInterval
unfolding comes_before
insert v [] = v ∷ []
insert v (w ∷ is) = let rest = insert v is in if comes_before w v then w ∷ rest else v ∷ w ∷ is

-- `std::sort`
unfoldable pub sort : List LiveInterval → List LiveInterval
unfolding insert
sort [] = []
sort (v ∷ is) = insert v (sort is)
