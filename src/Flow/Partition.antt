-- ===== src/Flow/Partition.antt =====
-- The blocks of a function cut its code into pieces.
use noe_code.Prelude.{
  ℕ, suc, ◌+◌, ◌<◌, ◌≤◌, ◌≡◌, refl, Bool, true, false, ◌&&◌, List, [], ◌∷◌, length, ltb, arith,
  ◌==◌, Bool-cases, inl, inr, subst, All, map,
}
use noe_code.Nir.{Instruction, BasicBlock, Function, Program}
use noe_code.Flow.{
  insert, insert_if, is_jump, ends_block, leaders_from, next_start, make_blocks, link, blocks_of,
  blocks, rebuild_control_flow,
}

-- The blocks follow each other without a gap from `lo` to `hi`, and none is empty.
abbrev pub Cuts : ℕ → ℕ → List BasicBlock → Type 0
Cuts lo hi [] = lo ≡ hi
Cuts lo hi (b ∷ bs) = (b.begin ≡ lo) × (b.begin < b.end) × Cuts b.end hi bs

-- Increasing positions from `lo` on, below `size`.
abbrev Starts : ℕ → ℕ → List ℕ → Type 0
Starts lo size [] = Unit
Starts lo size (s ∷ starts) = (lo ≤ s) × (s < size) × Starts (suc s) size starts

insert-Starts :
    (lo size n : ℕ) (starts : List ℕ)
    → lo ≤ n
    → n < size
    → Starts lo size starts
    → Starts lo size (insert n starts)
unfolding insert
insert-Starts lo size n [] l k h = (l, k, tt)
insert-Starts lo size n (s ∷ starts) l k (a, b, h) = elim (Bool-cases (ltb n s)) [
  | inl e ↦ rw e (l, k, (ground (arith, e), b, h))
  | inr e ↦ rw e (elim (Bool-cases (n == s)) [
    | inl f ↦ rw f (a, b, h)
    | inr f ↦ rw f (a, b, insert-Starts (suc s) size n starts (ground (arith, e, f)) k h)
  ])
]

insert-next_start :
    (size n : ℕ) (starts : List ℕ)
    → 0 < size
    → next_start size starts ≡ 0
    → next_start size (insert n starts) ≡ 0
unfolding insert next_start
insert-next_start size n [] l h = ground (arith, l, h)
insert-next_start size n (s ∷ starts) l h = ground (arith, h)

-- Increasing positions below the size, the first of which is 0.
record Leaders (size : ℕ) (starts : List ℕ) : Type 0 where
  increasing : Starts 0 size starts
  first : next_start size starts ≡ 0

insert_if-Leaders :
    (size n : ℕ) (test : Bool) (starts : List ℕ)
    → 0 < size
    → (test ≡ true → n < size)
    → Leaders size starts
    → Leaders size (insert_if test n starts)
unfolding insert_if
insert_if-Leaders size n true starts l k h = record {
  increasing = insert-Starts 0 size n starts (omega arith) (k refl) h.increasing;
  first = insert-next_start size n starts l h.first;
}
insert_if-Leaders size n false starts l k h = h

leaders_from-Leaders :
    (size at : ℕ) (code : List Instruction) (starts : List ℕ)
    → 0 < size
    → Leaders size starts
    → Leaders size (leaders_from size at code starts)
unfolding leaders_from
leaders_from-Leaders size at [] starts l h = h
leaders_from-Leaders size at (i ∷ code) starts l h = leaders_from-Leaders size (at + 1) code _ l (
    insert_if-Leaders size (at + 1) (ends_block i.op && ltb (at + 1) size) _ l
      (λ e. ground (arith, e))
      (insert_if-Leaders size i.target (is_jump i.op && ltb i.target size) starts l
        (λ e. ground (arith, e)) h))

make_blocks-Cuts :
    (number lo size : ℕ) (starts : List ℕ)
    → Starts lo size starts
    → Cuts (next_start size starts) size (make_blocks number size starts)
unfolding make_blocks next_start
make_blocks-Cuts number lo size [] h = refl
make_blocks-Cuts number lo size (s ∷ []) (a, b, h) = (refl, b, refl)
make_blocks-Cuts number lo size (s ∷ t ∷ starts) (a, b, h) =
    (refl, h.0, make_blocks-Cuts (suc number) (suc s) size (t ∷ starts) h)

link-Cuts :
    (all bs : List BasicBlock) (code : List Instruction) (lo hi : ℕ)
    → Cuts lo hi bs
    → Cuts lo hi (link all code bs)
unfolding link
link-Cuts all [] code lo hi h = h
link-Cuts all (b ∷ bs) code lo hi (e, l, h) = (e, l, link-Cuts all bs code b.end hi h)

pub blocks_of-Cuts : (code : List Instruction) → Cuts 0 (length code) (blocks_of code)
unfolding blocks_of
blocks_of-Cuts [] = refl
blocks_of-Cuts (i ∷ code) =
    let size = length (i ∷ code) in
    let h =
      leaders_from-Leaders size 0 (i ∷ code) (0 ∷ []) (omega arith)
        (record { increasing = omega arith; first = refl }) in
    let all = make_blocks 0 size (leaders_from size 0 (i ∷ code) (0 ∷ [])) in
    link-Cuts all all (i ∷ code) 0 size
      (subst (λ lo. Cuts lo size all) h.first (make_blocks-Cuts 0 0 size _ h.increasing))

abbrev pub IsCut : Function → Type 0
IsCut f = Cuts 0 (length f.code) f.blocks

functions-IsCut : (fs : List Function) → All IsCut (map blocks fs)
unfolding blocks
functions-IsCut [] = tt
functions-IsCut (f ∷ fs) = (blocks_of-Cuts f.code, functions-IsCut fs)

-- In the entry function and in every function of the program whose control flow is rebuilt, the
-- blocks follow each other from 0 to the end of the code, without a gap or an overlap, and none of
-- them is empty.
pub rebuild_control_flow-IsCut :
    (p : Program)
    → IsCut (rebuild_control_flow p).entry × All IsCut (rebuild_control_flow p).functions
unfolding rebuild_control_flow blocks
rebuild_control_flow-IsCut p = (blocks_of-Cuts p.entry.code, functions-IsCut p.functions)
