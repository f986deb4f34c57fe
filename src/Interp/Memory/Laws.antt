-- ===== src/Interp/Memory/Laws.antt =====
-- Loads after stores.
use native.Mathlib.Nat.{pow-suc}
use noe_code.Prelude.{
  ℕ, zero, suc, ◌+◌, ◌*◌, ◌/◌, ◌%◌, ◌^◌, ◌<◌, ◌≤◌, ◌≡◌, ◌≢◌, refl, ◌⊎◌, inl, inr, true, arith, ◌∙◌,
}
use noe_code.Interp.Result.{ok}
use noe_code.Interp.Memory.{
  Memory, load_bytes, store_bytes, store_byte, raw_load, raw_store, is_width,
}

store_byte_self : (m : Memory) (address b : ℕ) → (store_byte m address b).byte address ≡ b
unfolding store_byte
store_byte_self m address b = ground arith

-- Bytes outside the range of a store keep their value.
pub store_bytes-outside :
    (m : Memory) (address n value a : ℕ)
    → (a < address) ⊎ (address + n ≤ a)
    → (store_bytes m address n value).byte a ≡ m.byte a
unfolding store_bytes
store_bytes-outside m address zero value a h = refl
store_bytes-outside m address (suc n) value a h = ground (
  arith,
  store_bytes-outside (store_byte m address (value % 256)) (address + 1) n (value / 256) a,
)

pub load_bytes-store_bytes :
    (m : Memory) (address n value : ℕ)
    → value < 256 ^ n
    → load_bytes (store_bytes m address n value) address n ≡ value
unfolding load_bytes store_bytes
load_bytes-store_bytes m address zero value h = omega arith
load_bytes-store_bytes m address (suc n) value h =
    let m' = store_byte m address (value % 256) in
    let low : (store_bytes m' (address + 1) n (value / 256)).byte address ≡ value % 256 =
      store_bytes-outside m' (address + 1) n (value / 256) address (inl (omega arith))
      ∙ store_byte_self m address (value % 256) in
    omega (
      arith,
      low,
      load_bytes-store_bytes m' (address + 1) n (value / 256) (omega (arith, pow-suc 256 n)),
    )

width-cases : (w : ℕ) → is_width w ≡ true → (w ≡ 1) ⊎ ((w ≡ 2) ⊎ ((w ≡ 4) ⊎ (w ≡ 8)))
unfolding is_width
width-cases w h = ground arith

fits-width : (w value : ℕ) → is_width w ≡ true → value % 2 ^ (8 * w) < 256 ^ w
fits-width w value h = elim (width-cases w h) [
  | inl e ↦ rw e (omega arith)
  | inr (inl e) ↦ rw e (omega arith)
  | inr (inr (inl e)) ↦ rw e (omega arith)
  | inr (inr (inr e)) ↦ rw e (omega arith)
]

load_bytes-congr :
    (m m' : Memory) (address n : ℕ)
    → ((a : ℕ) → address ≤ a → a < address + n → m.byte a ≡ m'.byte a)
    → load_bytes m address n ≡ load_bytes m' address n
unfolding load_bytes
load_bytes-congr m m' address zero h = refl
load_bytes-congr m m' address (suc n) h = omega (
  arith,
  h address (omega arith) (omega arith),
  load_bytes-congr m m' (address + 1) n (λ a p q. h a (omega arith) (omega arith)),
)

raw_store-inv :
    (m m' : Memory) (address w value : ℕ)
    → raw_store m address w value ≡ ok m'
    → (address ≢ 0) × (is_width w ≡ true) × (m' ≡ store_bytes m address w (value % 2 ^ (8 * w)))
unfolding raw_store
raw_store-inv m m' address w value h = (ground arith, ground arith, ground arith)

-- After a store that succeeds, a load of that width at that address gives the value, cut to the
-- width, and a load of bytes outside the stored range gives what it gave before.
pub raw_load-raw_store :
    (m m' : Memory) (address w value a n : ℕ)
    → raw_store m address w value ≡ ok m'
    → (a + n ≤ address) ⊎ (address + w ≤ a)
    → (raw_load m' address w ≡ ok (value % 2 ^ (8 * w))) × (load_bytes m' a n ≡ load_bytes m a n)
unfolding raw_load
raw_load-raw_store m m' address w value a n h apart =
    let (nonzero, wide, e) = raw_store-inv m m' address w value h in
    let v = value % 2 ^ (8 * w) in
    (
      rw e (ground (arith, load_bytes-store_bytes m address w v (fits-width w value wide))),
      rw e
          (load_bytes-congr _ m a n (λ b lo hi. store_bytes-outside m address w v b (grind arith))),
    )
