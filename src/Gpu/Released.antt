-- ===== src/Gpu/Released.antt =====
-- runtime/src/Type2GpuDevice.cpp, the life of a device: the account of what it takes and gives back.
use cxlmem_uring.Base.{
  ◌∙◌, inr, inl, Option-cases, ℕ, ◌+◌, ◌≡◌, ◌≢◌, ◌∙◌, ap, refl, true, false, Option, none, some,
  List, [], ◌∷◌, ◌++◌, arith, ◌==◌, if◌then◌else◌,
}
use cxlmem_uring.Mmio.Open.{zeroed, Resource, mapping, file, OsCall, taken, given_back}
use cxlmem_uring.Mmio.Open.Balanced.{same, count_taken, count_given_back, Balanced}
use cxlmem_uring.Gpu.{GpuDevice}
use cxlmem_uring.Gpu.Life.{
  GpuOs, map_failed, bar0_size, new_device, map_bar0, map_block, map_bar2, map_dax, initialize,
  close_fd, release_shared, shutdown, create_type2_gpu_device, is_available,
}

-- No answer of `mmap` or `malloc` is address 0.
abbrev pub NeverNull : GpuOs → Type 0
NeverNull os =
    (os.bar0_map ≢ some 0) × (os.dax_map ≢ some 0) × (os.bar2_map ≢ some 0) × (os.block ≢ some 0)

-- What `shutdown` gives back for the shared memory.
abbrev shared_release : GpuDevice → List OsCall
shared_release gpu = release_shared gpu gpu.dax_fd ++ close_fd gpu.dax_fd

map_block-Balanced :
    (r : Resource) (gpu : GpuDevice) (block : Option ℕ)
    → block ≢ some 0
    → gpu.dax_fd ≡ none
    → Balanced r ((map_block gpu block).2 ++ shared_release (map_block gpu block).0)
unfolding map_block release_shared close_fd count_taken count_given_back
map_block-Balanced r gpu none n e = rw e refl
map_block-Balanced r gpu (some p) n e = rw e (ground arith)

map_bar2-Balanced :
    (r : Resource) (gpu : GpuDevice) (fd map_at block : Option ℕ)
    → block ≢ some 0
    → map_at ≢ some 0
    → gpu.dax_fd ≡ none
    → Balanced r
        ((map_bar2 gpu fd map_at block).2 ++ shared_release (map_bar2 gpu fd map_at block).0)
unfolding map_bar2 release_shared close_fd count_taken count_given_back
map_bar2-Balanced r gpu none map_at block n k e = map_block-Balanced r gpu block n e
map_bar2-Balanced r gpu (some fd) none block n k e =
    omega (arith, map_block-Balanced r gpu block n e)
map_bar2-Balanced r gpu (some fd) (some a) block n k e = ground arith

map_dax-Balanced :
    (r : Resource) (gpu : GpuDevice) (fd map_at : Option ℕ) (os : GpuOs)
    → NeverNull os
    → map_at ≢ some 0
    → Balanced r ((map_dax gpu fd map_at os).2 ++ shared_release (map_dax gpu fd map_at os).0)
unfolding map_dax release_shared close_fd count_taken count_given_back
map_dax-Balanced r gpu none map_at os n k =
    map_bar2-Balanced r (record gpu { dax_fd = none }) os.bar2_fd os.bar2_map os.block n.3 n.2 refl
map_dax-Balanced r gpu (some fd) none os n k = omega (
  arith,
  map_bar2-Balanced r (record gpu { dax_fd = none }) os.bar2_fd os.bar2_map os.block n.3 n.2 refl,
)
map_dax-Balanced r gpu (some fd) (some a) os n k = ground arith

-- What mapping the shared memory leaves alone.
abbrev KeepsBar0 : GpuDevice → GpuDevice → Type 0
KeepsBar0 gpu gpu' = (gpu'.bar0_base ≡ gpu.bar0_base) × (gpu'.bar0_fd ≡ gpu.bar0_fd)

map_bar2-KeepsBar0 :
    (gpu : GpuDevice) (fd map_at block : Option ℕ) → KeepsBar0 gpu (map_bar2 gpu fd map_at block).0
unfolding map_bar2 map_block
map_bar2-KeepsBar0 gpu none map_at none = (refl, refl)
map_bar2-KeepsBar0 gpu none map_at (some p) = (refl, refl)
map_bar2-KeepsBar0 gpu (some fd) none none = (refl, refl)
map_bar2-KeepsBar0 gpu (some fd) none (some p) = (refl, refl)
map_bar2-KeepsBar0 gpu (some fd) (some a) block = (refl, refl)

map_dax-KeepsBar0 :
    (gpu : GpuDevice) (fd map_at : Option ℕ) (os : GpuOs)
    → KeepsBar0 gpu (map_dax gpu fd map_at os).0
unfolding map_dax
map_dax-KeepsBar0 gpu none map_at os =
    map_bar2-KeepsBar0 (record gpu { dax_fd = none }) os.bar2_fd os.bar2_map os.block
map_dax-KeepsBar0 gpu (some fd) none os =
    map_bar2-KeepsBar0 (record gpu { dax_fd = none }) os.bar2_fd os.bar2_map os.block
map_dax-KeepsBar0 gpu (some fd) (some a) os = (refl, refl)

-- The calls of a device's life: what is created, and the shutdown at its end.
unfoldable pub life_calls : Option GpuDevice × List OsCall → List OsCall
life_calls (none, calls) = calls
life_calls (some gpu, calls) = calls ++ (shutdown gpu).1

module _ (r : Resource) where
  count_taken-append :
      (xs ys : List OsCall) → count_taken r (xs ++ ys) ≡ count_taken r xs + count_taken r ys
  unfolding count_taken
  count_taken-append [] ys = omega arith
  count_taken-append (taken q ∷ xs) ys = omega (arith, count_taken-append xs ys)
  count_taken-append (given_back q ∷ xs) ys = count_taken-append xs ys
  count_taken-append (zeroed a n ∷ xs) ys = count_taken-append xs ys

  count_given_back-append :
      (xs ys : List OsCall)
      → count_given_back r (xs ++ ys) ≡ count_given_back r xs + count_given_back r ys
  unfolding count_given_back
  count_given_back-append [] ys = omega arith
  count_given_back-append (given_back q ∷ xs) ys = omega (arith, count_given_back-append xs ys)
  count_given_back-append (taken q ∷ xs) ys = count_given_back-append xs ys
  count_given_back-append (zeroed a n ∷ xs) ys = count_given_back-append xs ys

  -- A device whose BAR0 is mapped at `a`, and what was taken for its shared memory.
  mapped_life :
      (gpu : GpuDevice) (fd a : ℕ) (more : List OsCall)
      → gpu.bar0_base ≡ a
      → gpu.bar0_fd ≡ some fd
      → a ≢ 0
      → Balanced r (more ++ shared_release gpu)
      → Balanced r ((taken (file fd) ∷ taken (mapping a bar0_size) ∷ more) ++ (shutdown gpu).1)
  unfolding shutdown count_taken count_given_back close_fd
  mapped_life gpu fd a more b f n h =
      let test : (gpu.bar0_base == 0) ≡ false = rw b (ground arith) in
      rw (test, b, f)
        (omega (
          arith,
          h,
          count_taken-append more (shared_release gpu),
          count_given_back-append more (shared_release gpu),
          count_taken-append more
              (given_back (mapping a bar0_size) ∷ given_back (file fd) ∷ shared_release gpu),
          count_given_back-append more
              (given_back (mapping a bar0_size) ∷ given_back (file fd) ∷ shared_release gpu),
        ))

-- What is given back and was never taken: where BAR0's file opens and its mapping fails, the address
-- `MAP_FAILED` is unmapped once.
abbrev pub stray : Resource → Option ℕ → Option ℕ → ℕ
stray r none map_at = 0
stray r (some fd) none = if same (mapping map_failed bar0_size) r then 1 else 0
stray r (some fd) (some a) = 0

-- For every answer of the operating system in which no mapping and no block is at address 0:
-- creating a device, and shutting it down if it was created, give back each block, mapping and file
-- as often as they took it, but that they also unmap the address `MAP_FAILED`, once, exactly where
-- BAR0's file opens and its mapping fails.
pub created_device_released :
    (r : Resource) (os : GpuOs)
    → NeverNull os
    → let calls = life_calls (create_type2_gpu_device os) in
      count_taken r calls + stray r os.bar0_fd os.bar0_map ≡ count_given_back r calls
unfolding life_calls create_type2_gpu_device initialize map_bar0 shutdown close_fd release_shared
    count_taken count_given_back
created_device_released r os n = elim (Option-cases os.bar0_fd) [
  | inl e ↦ rw e refl
  | inr (fd, e) ↦ elim (Option-cases os.bar0_map) [
    | inl m ↦ rw (e, m) (ground arith)
    | inr (a, m) ↦
        let gpu = record new_device { bar0_fd = some fd; bar0_base = a } in
        let os' = record os { bar0_fd = some fd; bar0_map = some a } in
        let keeps = map_dax-KeepsBar0 gpu os.dax_fd os.dax_map os' in
        let never : NeverNull os' = ((λ z. n.0 (m ∙ z)), n.1, n.2, n.3) in
        rw (e, m)
          (omega (
            arith,
            mapped_life r (map_dax gpu os.dax_fd os.dax_map os').0 fd a
                (map_dax gpu os.dax_fd os.dax_map os').2 keeps.0 keeps.1 (λ z. n.0 (m ∙ ap some z))
                (map_dax-Balanced r gpu os.dax_fd os.dax_map os' never n.1),
          ))
  ]
]

-- When BAR0's file opens and its mapping fails: no device is created, and the one that was
-- destroyed counts as available and unmaps the address `MAP_FAILED`, which was never mapped.
pub failed_bar0_unmapped :
    (os : GpuOs) (fd : ℕ)
    → os.bar0_fd ≡ some fd
    → os.bar0_map ≡ none
    → let (gpu, done, calls) = initialize new_device os in
      (done ≡ false)
      × (is_available gpu ≡ true)
      × (create_type2_gpu_device os ≡ (
        none,
        taken (file fd) ∷ given_back (file fd) ∷ given_back (mapping map_failed bar0_size) ∷ [],
      ))
unfolding create_type2_gpu_device initialize map_bar0 is_available shutdown close_fd release_shared
failed_bar0_unmapped os fd o e = rw (o, e) (refl, refl, refl)
