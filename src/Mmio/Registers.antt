-- ===== src/Mmio/Registers.antt =====
-- Bounds of the register and block accesses of cira_mmio.cpp, and what they round-trip.
use cxlmem_uring.Base.{
  refl, refl, inr, inl, Bool-cases, ℕ, ◌+◌, ◌^◌, ◌≤◌, ◌<◌, ◌≡◌, ◌≢◌, sym, ap, ◌∙◌, ◌⊎◌, ◌↔◌, true,
  false, some, List, arith, length, take, All, length-take, All-take,
}
use cxlmem_uring.Memory.{Memory, IsBytes}
use cxlmem_uring.Memory.Ranges.{load-store_self, store_outside}
use cxlmem_uring.Mmio.{Window, ok, in_range, read64, write64, write_block, read_block}
use cxlmem_uring.Mmio.Copy.{store_bytes, load_bytes, load_bytes-store_bytes, store_bytes_outside}

-- For a window that is not null, the bounds test is passed exactly when its mapping is not null and
-- the range ends inside it.
pub in_range_iff :
    (w : Window) (offset len : ℕ)
    → (in_range (some w) offset len ≡ true) ↔ ((w.base ≢ 0) × (offset + len ≤ w.size))
unfolding in_range
in_range_iff w offset len = (λ h. (λ e. ground arith, ground arith), λ h. ground arith)

-- A write of a 64-bit value to a register of a window: either the window is writable, the range test
-- passes, the code is ok and the register reads back as the value; or one of the two fails, the code
-- is an error and the memory is unchanged. No byte outside the window changes on either path.
pub write64_lem :
    (w : Window) (offset v : ℕ) (m : Memory)
    → v < 2 ^ 64
    → let (rc, m') = write64 (some w) offset v m in
      (((rc ≡ ok)
          × (w.read_only ≡ false)
          × (in_range (some w) offset 8 ≡ true)
          × (read64 (some w) offset m' ≡ v))
        ⊎ ((rc ≢ ok) × ((w.read_only ≡ true) ⊎ (in_range (some w) offset 8 ≡ false)) × (m' ≡ m)))
      × ((p : ℕ) → (p < w.base) ⊎ (w.base + w.size ≤ p) → m' p ≡ m p)
unfolding write64 read64 in_range
write64_lem w offset v m h = (
  elim (Bool-cases w.read_only) [
    | inl protected ↦ inr (rw protected (λ e. cc, inl refl, refl))
    | inr writable ↦ elim (Bool-cases (in_range (some w) offset 8)) [
      | inl inside ↦
          inl (rw (writable, inside) (refl, refl, refl, load-store_self 8 (w.base + offset) v m h))
      | inr outside ↦ inr (rw (writable, outside) (λ e. cc, inr refl, refl))
    ]
  ],
  λ p out. ground (arith, store_outside 8 (w.base + offset) v m p),
)

-- In a memory of bytes, a block write of `len` bytes from a buffer of bytes that holds them: either
-- the window is writable, the range test passes, the code is ok and a block read of the range
-- returns the bytes; or one of the two fails, the code is an error and the memory is unchanged. No
-- byte outside the window changes on either path.
pub write_block_lem :
    (w : Window) (offset len : ℕ) (src : List ℕ) (m : Memory)
    → len ≤ length src
    → All (λ b. b < 256) src
    → IsBytes m
    → let (rc, m') = write_block (some w) offset (some src) len m in
      (((rc ≡ ok)
          × (w.read_only ≡ false)
          × (in_range (some w) offset len ≡ true)
          × (read_block (some w) offset false len m' ≡ (ok, take len src)))
        ⊎ ((rc ≢ ok) × ((w.read_only ≡ true) ⊎ (in_range (some w) offset len ≡ false)) × (m' ≡ m)))
      × ((p : ℕ) → (p < w.base) ⊎ (w.base + w.size ≤ p) → m' p ≡ m p)
unfolding write_block read_block in_range
write_block_lem w offset len src m long v vm = (
  elim (Bool-cases w.read_only) [
    | inl protected ↦ inr (rw protected (λ e. cc, inl refl, refl))
    | inr writable ↦ elim (Bool-cases (in_range (some w) offset len)) [
      | inl inside ↦ inl (rw (writable, inside) (refl, refl, refl, ap (λ bs. (ok, bs)) loaded))
      | inr outside ↦ inr (rw (writable, outside) (λ e. cc, inr refl, refl))
    ]
  ],
  λ p out. ground (arith, apart p),
)
  where
    small : All (λ b. b < 256) (take len src)
    small = All-take (λ b. b < 256) len src v

    size : length (take len src) ≡ len
    size = length-take len src long

    loaded :
        load_bytes (w.base + offset) len (store_bytes (w.base + offset) (take len src) m)
        ≡ take len src
    loaded =
        ap (λ n. load_bytes (w.base + offset) n (store_bytes (w.base + offset) (take len src) m))
          (sym size)
        ∙ load_bytes-store_bytes (w.base + offset) (take len src) m small vm

    apart :
        (p : ℕ)
        → (p < w.base + offset) ⊎ (w.base + offset + len ≤ p)
        → store_bytes (w.base + offset) (take len src) m p ≡ m p
    apart p out =
        store_bytes_outside (w.base + offset) (take len src) m p small (omega (arith, size))
