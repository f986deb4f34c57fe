-- ===== src/Flow/Targets.antt =====
-- Where the jumps of a function lead.
use noe_code.Prelude.{
  ℕ, zero, suc, ◌+◌, ◌<◌, ◌≡◌, refl, Bool, true, false, ◌&&◌, ◌||◌, List, [], ◌∷◌, some, length,
  contains, ltb, arith, ◌==◌, Bool-cases, inl, inr, get_elem?, subst,
}
use noe_code.Nir.{Instruction, BasicBlock}
use noe_code.Flow.{
  insert, insert_if, is_jump, ends_block, leaders_from, make_blocks, block_from, link, blocks_of,
}

contains-insert : (n : ℕ) (s : List ℕ) (k : ℕ) → contains (insert n s) k ≡ (n == k || contains s k)
unfolding insert
contains-insert n [] k = refl
contains-insert n (m ∷ ms) k = ground (arith, contains-insert n ms k)

contains-insert_if :
    (b : Bool) (n : ℕ) (s : List ℕ) (k : ℕ)
    → contains s k ≡ true
    → contains (insert_if b n s) k ≡ true
unfolding insert_if
contains-insert_if true n s k h = ground (arith, contains-insert n s k, h)
contains-insert_if false n s k h = h

contains-leaders_from :
    (size at : ℕ) (code : List Instruction) (s : List ℕ) (k : ℕ)
    → contains s k ≡ true
    → contains (leaders_from size at code s) k ≡ true
unfolding leaders_from
contains-leaders_from size at [] s k h = h
contains-leaders_from size at (i ∷ code) s k h = contains-leaders_from size (at + 1) code _ k (
    contains-insert_if (ends_block i.op && ltb (at + 1) size) (at + 1)
      (insert_if (is_jump i.op && ltb i.target size) i.target s) k
      (contains-insert_if (is_jump i.op && ltb i.target size) i.target s k h))

contains-inserted : (n : ℕ) (s : List ℕ) (b : Bool) → b ≡ true → contains (insert_if b n s) n ≡ true
unfolding insert_if
contains-inserted n s true e = ground (arith, contains-insert n s n)
contains-inserted n s false e = absurd (ground (arith, e))

first_target-leader :
    (size at : ℕ) (i : Instruction) (code : List Instruction) (s : List ℕ)
    → is_jump i.op ≡ true
    → i.target < size
    → contains (leaders_from size at (i ∷ code) s) i.target ≡ true
unfolding leaders_from
first_target-leader size at i code s j l = contains-leaders_from size (at + 1) code _ i.target (
    contains-insert_if (ends_block i.op && ltb (at + 1) size) (at + 1)
      (insert_if (is_jump i.op && ltb i.target size) i.target s) i.target
      (contains-inserted i.target s (is_jump i.op && ltb i.target size) (ground (arith, j, l))))

target-leader :
    (size at : ℕ) (code : List Instruction) (s : List ℕ) (pc : ℕ) (i : Instruction)
    → get_elem? code pc ≡ some i
    → is_jump i.op ≡ true
    → i.target < size
    → contains (leaders_from size at code s) i.target ≡ true
unfolding leaders_from insert_if
target-leader size at [] s pc i e j l = absurd (ground (arith, e))
target-leader size at (c ∷ code) s zero i e j l =
    let same : c ≡ i = cc in
    subst (λ x. contains (leaders_from size at (c ∷ code) s) x.target ≡ true) same
      (first_target-leader size at c code s (rw same j) (rw same l))
target-leader size at (c ∷ code) s (suc pc) i e j l = target-leader size (at + 1) code _ pc i e j l

block_from-link :
    (all : List BasicBlock) (code : List Instruction) (number size : ℕ) (starts : List ℕ) (k : ℕ)
    → contains starts k ≡ true
    → (id : ℕ) × (block_from (link all code (make_blocks number size starts)) k ≡ some id)
unfolding block_from link make_blocks
block_from-link all code number size [] k h = absurd (ground (arith, h))
block_from-link all code number size (s ∷ starts) k h = elim (Bool-cases (s == k)) [
  | inl e ↦ rw e (_, refl)
  | inr e ↦ rw e (block_from-link all code (suc number) size starts k (ground (arith, e, h)))
]

-- A jump of a function that leads into its code leads to the begin of one of its blocks.
pub block_from-jump :
    (code : List Instruction) (pc : ℕ) (i : Instruction)
    → get_elem? code pc ≡ some i
    → is_jump i.op ≡ true
    → i.target < length code
    → (id : ℕ) × (block_from (blocks_of code) i.target ≡ some id)
unfolding blocks_of
block_from-jump [] pc i e j l = absurd (ground (arith, e))
block_from-jump (c ∷ code) pc i e j l =
    block_from-link _ (c ∷ code) 0 (length (c ∷ code)) _ i.target
      (target-leader (length (c ∷ code)) 0 (c ∷ code) (0 ∷ []) pc i e j l)
