-- ===== src/Gpu/Placed.antt =====
-- runtime/src/Type2GpuDevice.cpp, the memory that `allocate_device` gives, against the memory that the
-- device was given.
use cxlmem_uring.Base.{
  ℕ, ◌+◌, ◌*◌, ◌≡◌, ◌≢◌, ◌≤◌, ◌<◌, ◌⊎◌, ◌∙◌, inl, inr, refl, ap, Option, none, some, Option-cases,
  arith,
}
use cxlmem_uring.Gpu.{GpuDevice}
use cxlmem_uring.Gpu.Life.{
  GpuOs, new_device, map_bar0, map_block, map_bar2, map_dax, initialize, create_type2_gpu_device,
  allocate_device,
}
use cxlmem_uring.Gpu.Released.{NeverNull}

-- The device uses the memory at `p`, and what it gives for device memory begins inside.
abbrev pub Inside : GpuDevice → ℕ → ℕ → Type 0
Inside gpu p size =
    (gpu.shared_mem ≡ p)
    × (p ≤ allocate_device gpu size)
    × (allocate_device gpu size < p + gpu.shared_mem_size)

-- It begins at or past the end of that memory.
abbrev pub Outside : GpuDevice → ℕ → ℕ → Type 0
Outside gpu p size = (gpu.shared_mem ≡ p) × (p + gpu.shared_mem_size ≤ allocate_device gpu size)

-- A file that is not opened, or whose mapping fails.
abbrev pub Unmapped : Option ℕ → Option ℕ → Type 0
Unmapped fd map_at = (fd ≡ none) ⊎ (map_at ≡ none)

abbrev pub Mapped : Option ℕ → Option ℕ → ℕ → Type 0
Mapped fd map_at p = ((d : ℕ) × (fd ≡ some d)) × (map_at ≡ some p)

-- What a block of the host gives, or its absence.
abbrev pub FromBlock : Option ℕ → GpuDevice → ℕ → Type 0
FromBlock block gpu size =
    ((block ≡ none) × (allocate_device gpu size ≡ 0))
    ⊎ ((p : ℕ) × (block ≡ some p) × Inside gpu p size)

-- Without the DAX device: BAR2 stands in for it, or a block does.
abbrev pub FromBar2 : Option ℕ → Option ℕ → Option ℕ → GpuDevice → ℕ → Type 0
FromBar2 fd map_at block gpu size =
    ((p : ℕ) × Mapped fd map_at p × Outside gpu p size)
    ⊎ (Unmapped fd map_at × FromBlock block gpu size)

abbrev pub Placed : GpuOs → GpuDevice → ℕ → Type 0
Placed os gpu size =
    ((p : ℕ) × Mapped os.dax_fd os.dax_map p × Inside gpu p size)
    ⊎ (Unmapped os.dax_fd os.dax_map × FromBar2 os.bar2_fd os.bar2_map os.block gpu size)

map_block-Placed :
    (gpu : GpuDevice) (block : Option ℕ) (size : ℕ)
    → block ≢ some 0
    → gpu.shared_mem_size ≡ 16 * 1024 * 1024
    → FromBlock block (map_block gpu block).0 size
unfolding map_block allocate_device
map_block-Placed gpu none size n e = inl (refl, refl)
map_block-Placed gpu (some p) size n e =
    let given : p ≢ 0 = λ z. n (ap some z) in inr (p, refl, (refl, ground arith, ground arith))

map_bar2-Placed :
    (gpu : GpuDevice) (fd map_at block : Option ℕ) (size : ℕ)
    → map_at ≢ some 0
    → block ≢ some 0
    → gpu.shared_mem_size ≡ 16 * 1024 * 1024
    → FromBar2 fd map_at block (map_bar2 gpu fd map_at block).0 size
unfolding map_bar2 allocate_device
map_bar2-Placed gpu none map_at block size k n e =
    inr (inl refl, map_block-Placed gpu block size n e)
map_bar2-Placed gpu (some fd) none block size k n e =
    inr (inr refl, map_block-Placed gpu block size n e)
map_bar2-Placed gpu (some fd) (some p) block size k n e =
    let given : p ≢ 0 = λ z. k (ap some z) in inl (p, ((fd, refl), refl), (refl, ground arith))

map_dax-Placed :
    (gpu : GpuDevice) (fd map_at : Option ℕ) (os : GpuOs) (size : ℕ)
    → NeverNull os
    → map_at ≢ some 0
    → gpu.shared_mem_size ≡ 16 * 1024 * 1024
    → let gpu' = (map_dax gpu fd map_at os).0 in
      ((p : ℕ) × Mapped fd map_at p × Inside gpu' p size)
      ⊎ (Unmapped fd map_at × FromBar2 os.bar2_fd os.bar2_map os.block gpu' size)
unfolding map_dax allocate_device
map_dax-Placed gpu none map_at os size n k e = inr (
  inl refl,
  map_bar2-Placed (record gpu { dax_fd = none }) os.bar2_fd os.bar2_map os.block size n.2 n.3 e,
)
map_dax-Placed gpu (some fd) none os size n k e = inr (
  inr refl,
  map_bar2-Placed (record gpu { dax_fd = none }) os.bar2_fd os.bar2_map os.block size n.2 n.3 e,
)
map_dax-Placed gpu (some fd) (some p) os size n k e =
    let given : p ≢ 0 = λ z. k (ap some z) in
    inl (p, ((fd, refl), refl), (refl, ground arith, ground arith))

-- For every answer of the operating system in which no mapping and no block is at address 0: either
-- BAR0's file does not open or is not mapped, and no device is created; or a device is created, and
-- what it gives for device memory, of any size, begins inside the device's memory where that is the
-- DAX device's mapping or a block of the host, begins at or past its end where BAR2 stands in for a
-- DAX device that does not open or is not mapped, and is null where there is none of the three.
pub allocate_device-Placed :
    (os : GpuOs) (size : ℕ)
    → NeverNull os
    → (Unmapped os.bar0_fd os.bar0_map × ((create_type2_gpu_device os).0 ≡ none))
      ⊎ ((gpu : GpuDevice) × ((create_type2_gpu_device os).0 ≡ some gpu) × Placed os gpu size)
unfolding create_type2_gpu_device initialize map_bar0
allocate_device-Placed os size n = elim (Option-cases os.bar0_fd) [
  | inl e ↦ inl (inl e, rw e refl)
  | inr (fd, e) ↦ elim (Option-cases os.bar0_map) [
    | inl m ↦ inl (inr m, rw (e, m) refl)
    | inr (a, m) ↦
        let gpu = record new_device { bar0_fd = some fd; bar0_base = a } in
        let os' = record os { bar0_fd = some fd; bar0_map = some a } in
        let never : NeverNull os' = ((λ z. n.0 (m ∙ z)), n.1, n.2, n.3) in
        inr (
          (map_dax gpu os.dax_fd os.dax_map os').0,
          rw (e, m) refl,
          map_dax-Placed gpu os.dax_fd os.dax_map os' size never n.1 refl,
        )
  ]
]
