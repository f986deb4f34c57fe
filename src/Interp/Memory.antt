-- ===== src/Interp/Memory.antt =====
-- Memory of the interpreter: `rawLoad`, `rawStore` and `allocateBytes`. Memory is a byte for each
-- address, little-endian; where a fresh object lies is the choice of the allocator, a parameter.
-- A load or store outside every object is undefined in the source; here it reads or writes the byte
-- at that address.
pub mod Laws
use noe_code.Prelude.{
  ℕ, zero, suc, ◌+◌, ◌*◌, ◌/◌, ◌%◌, ◌^◌, ◌-◌, max, Bool, true, false, ◌&&◌, ◌||◌, leb, ltb, ◌==◌,
  if◌then◌else◌,
}
use noe_code.Interp.Result.{
  Result, ok, err, null_dereference, null_store, unsupported_load_width, unsupported_store_width,
}

pub record Memory : Type 0 where
  pub byte : ℕ → ℕ

-- `n` bytes from `address` on, the least significant first.
unfoldable pub load_bytes : Memory → ℕ → ℕ → ℕ
load_bytes m address zero = 0
load_bytes m address (suc n) = m.byte address + 256 * load_bytes m (address + 1) n

unfoldable pub store_byte : Memory → ℕ → ℕ → Memory
store_byte m address b = record { byte = λ a. if a == address then b else m.byte a }

unfoldable pub store_bytes : Memory → ℕ → ℕ → ℕ → Memory
unfolding store_byte
store_bytes m address zero value = m
store_bytes m address (suc n) value =
    store_bytes (store_byte m address (value % 256)) (address + 1) n (value / 256)

unfoldable pub is_width : ℕ → Bool
is_width width = width == 1 || width == 2 || width == 4 || width == 8

-- `volatile` makes no difference to what is read or written.
unfoldable pub raw_load : Memory → ℕ → ℕ → Result ℕ
unfolding is_width
raw_load m address width =
    if address == 0
    then err null_dereference
    else if is_width width
    then ok (load_bytes m address width)
    else err unsupported_load_width

unfoldable pub raw_store : Memory → ℕ → ℕ → ℕ → Result Memory
unfolding is_width
raw_store m address width value =
    if address == 0
    then err null_store
    else if is_width width
    then ok (store_bytes m address width (value % 2 ^ (8 * width)))
    else err unsupported_store_width

-- The bytes of a fresh object are zero.
unfoldable pub zeroed : Memory → ℕ → ℕ → Memory
zeroed m address bytes = record {
  byte = λ a. if leb address a && ltb a (address + max bytes 1) then 0 else m.byte a;
}

unfoldable pub allocate_bytes : (Memory → ℕ → ℕ) → Memory → ℕ → ℕ × Memory
unfolding zeroed
allocate_bytes alloc m bytes =
    let address = alloc m (max bytes 1) in (address, zeroed m address bytes)
