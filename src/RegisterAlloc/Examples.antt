-- ===== src/RegisterAlloc/Examples.antt =====
-- Register allocation of a small function.
use noe_code.Prelude.{ℕ, ◌≤◌, ◌≡◌, refl, inl, inr, List, [], ◌∷◌, some, false, Text, codes, arith}
use noe_code.Types.{default_type, simple_type, TypeKind}
use noe_code.Nir.{NirOp, Instruction, blank, Function}
use noe_code.RegisterAlloc.Intervals.{LiveInterval}
use noe_code.RegisterAlloc.Scan.{in_register, allocate}
use noe_code.RegisterAlloc.Uses.{uses}
use noe_code.RegisterAlloc.Scanned.{IsApart}
use noe_code.RegisterAlloc.Apart.{allocate-IsApart}
use noe_code.RegisterAlloc.Reaches.{IsLiveAt, allocate-IsLiveAt}

abbrev constant : ℕ → Instruction
constant r = record (blank NirOp.const) { dest = some r }

abbrev store_of : ℕ → Instruction
store_of r = record (blank NirOp.store) { args = r ∷ [] }

-- Two values, each stored at once.
abbrev stores : Function
stores = record {
  name = codes "f";
  generic_params = [];
  params = [];
  param_types = [];
  result_type = default_type;
  code = constant 0 ∷ store_of 0 ∷ constant 1 ∷ store_of 1 ∷ [];
  register_types = simple_type TypeKind.int ∷ simple_type TypeKind.int ∷ [];
  blocks = [];
  next_reg = 2;
  is_extern = false;
  is_export = false;
}

abbrev one_register : List Text
one_register = codes "r12" ∷ []

abbrev first : LiveInterval
first = record { value = 0; begin = 0; end = 1; ty = simple_type TypeKind.int }

abbrev second : LiveInterval
second = record { value = 1; begin = 2; end = 3; ty = simple_type TypeKind.int }

one_register-uses : (r : Text) → uses r one_register ≤ 1
one_register-uses r = ground arith

plan_of_stores : allocate stores one_register ≡ record {
  intervals = first ∷ second ∷ [];
  locations = in_register first (codes "r12") ∷ in_register second (codes "r12") ∷ [];
  spill_slots = 0;
}
unfolding allocate simple_type
plan_of_stores = refl

allocate-IsApart_example : IsApart first second
unfolding allocate simple_type
allocate-IsApart_example =
    allocate-IsApart stores one_register one_register-uses
      (λ m k. elim k [ inl e ↦ λ f. omega (arith, e, f) | inr e ↦ absurd e ], (λ m k. absurd k, tt))
      first second (in_register first (codes "r12")) (in_register second (codes "r12")) (inl refl)
      (inr (inl refl)) (λ e. omega (arith, e)) (inl refl) (inr (inl refl)) refl refl refl refl refl

allocate-IsLiveAt_example : IsLiveAt 0 1 (allocate stores one_register).intervals
allocate-IsLiveAt_example =
    allocate-IsLiveAt stores one_register 1 (store_of 0) 0 refl (inl refl) (inl refl)
