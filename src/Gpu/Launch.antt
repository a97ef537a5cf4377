-- ===== src/Gpu/Launch.antt =====
-- runtime/src/Type2GpuDevice.cpp, `launch_kernel`: what the registers show.
use cxlmem_uring.Base.{
  sym, subst, drop, ℕ, ◌^◌, ◌<◌, ◌≡◌, ◌≢◌, inl, inr, refl, ap, ◌∙◌, true, false, List, [], ◌∷◌,
  ◌++◌, ◌==◌, if◌then◌else◌, arith, Bool-cases,
}
use cxlmem_uring.Memory.{Memory, load}
use cxlmem_uring.Memory.Traces.{Store, perform, Spares, load-perform_at}
use cxlmem_uring.Gpu.{
  GpuDevice, KernelRequest, write_csr, read_csr, csr_at, wide, low_word, high_word, launch_kernel,
  launch_trace, request_stores, completion_stores, kernel_addr_lo, kernel_addr_hi, kernel_args_lo,
  kernel_args_hi, grid_dim_x, grid_dim_y, grid_dim_z, block_dim_x, block_dim_y, block_dim_z,
  launch_register, completion_lo, completion_hi, dcoh_enable,
}

-- A mapped BAR0.
mapped_test : (base : ℕ) → base ≢ 0 → (base == 0) ≡ false
mapped_test base h = ground arith

abbrev pub store_at : ℕ → ℕ → ℕ → Store
store_at base offset value = record { width = 4; addr = csr_at base offset; word = value }

-- The stores of the completion's registers.
abbrev announced : ℕ → KernelRequest → List Store
announced base r =
    store_at base completion_lo (low_word r.completion_addr)
    ∷ store_at base completion_hi (high_word r.completion_addr)
    ∷ store_at base dcoh_enable 1
    ∷ []

-- The stores of a launch, with those of the completion's registers in the middle.
abbrev pub stores_with : ℕ → KernelRequest → List Store → List Store
stores_with base r middle =
    store_at base kernel_addr_lo (low_word r.kernel_addr)
    ∷ store_at base kernel_addr_hi (high_word r.kernel_addr)
    ∷ store_at base kernel_args_lo (low_word r.args_addr)
    ∷ store_at base kernel_args_hi (high_word r.args_addr)
    ∷ store_at base grid_dim_x r.grid_x
    ∷ store_at base grid_dim_y r.grid_y
    ∷ store_at base grid_dim_z r.grid_z
    ∷ store_at base block_dim_x r.block_x
    ∷ store_at base block_dim_y r.block_y
    ∷ store_at base block_dim_z r.block_z
    ∷ middle

abbrev pub middle_of : ℕ → KernelRequest → List Store
middle_of base r = if r.dcoh_enabled then announced base r else []

pub launch_trace-stores :
    (base : ℕ) (r : KernelRequest)
    → base ≢ 0
    → launch_trace base r
      ≡ stores_with base r (middle_of base r) ++ store_at base launch_register 1 ∷ []
unfolding launch_trace request_stores completion_stores write_csr
launch_trace-stores base r h = rw (mapped_test base h) refl

-- What a caller's struct holds: addresses of 64 bits and dimensions of 32.
abbrev pub FitsRegisters : KernelRequest → Type 0
FitsRegisters r =
    (r.kernel_addr < 2 ^ 64)
    × (r.args_addr < 2 ^ 64)
    × (r.completion_addr < 2 ^ 64)
    × (r.grid_x < 2 ^ 32)
    × (r.grid_y < 2 ^ 32)
    × (r.grid_z < 2 ^ 32)
    × (r.block_x < 2 ^ 32)
    × (r.block_y < 2 ^ 32)
    × (r.block_z < 2 ^ 32)

-- The registers hold the request.
abbrev pub Shows : ℕ → KernelRequest → Memory → Type 0
Shows base r m =
    (wide base kernel_addr_lo kernel_addr_hi m ≡ r.kernel_addr)
    × (wide base kernel_args_lo kernel_args_hi m ≡ r.args_addr)
    × (read_csr base grid_dim_x m ≡ r.grid_x)
    × (read_csr base grid_dim_y m ≡ r.grid_y)
    × (read_csr base grid_dim_z m ≡ r.grid_z)
    × (read_csr base block_dim_x m ≡ r.block_x)
    × (read_csr base block_dim_y m ≡ r.block_y)
    × (read_csr base block_dim_z m ≡ r.block_z)
    × (read_csr base launch_register m ≡ 1)

-- The registers announce the request's completion.
abbrev pub Announces : ℕ → KernelRequest → Memory → Type 0
Announces base r m =
    (wide base completion_lo completion_hi m ≡ r.completion_addr)
    × (read_csr base dcoh_enable m ≡ 1)

pub read_csr-load :
    (base offset : ℕ) (m : Memory)
    → base ≢ 0
    → read_csr base offset m ≡ load 4 (csr_at base offset) m
unfolding read_csr
read_csr-load base offset m h = rw (mapped_test base h) refl

-- A 64-bit number, from the two words that stand in its registers.
wide-words :
    (base lo hi x : ℕ) (m : Memory)
    → x < 2 ^ 64
    → read_csr base lo m ≡ low_word x
    → read_csr base hi m ≡ high_word x
    → wide base lo hi m ≡ x
wide-words base lo hi x m h l g = omega arith

module _ (base : ℕ) (r : KernelRequest) (m : Memory) (mapped : base ≢ 0) where
  abbrev after : List Store → Memory
  after middle = perform (stores_with base r middle ++ store_at base launch_register 1 ∷ []) m

  -- The words in the registers, whichever of the two middles.
  abbrev WordsShown : List Store → Type 0
  WordsShown middle =
      (load 4 (csr_at base kernel_addr_lo) (after middle) ≡ low_word r.kernel_addr)
      × (load 4 (csr_at base kernel_addr_hi) (after middle) ≡ high_word r.kernel_addr)
      × (load 4 (csr_at base kernel_args_lo) (after middle) ≡ low_word r.args_addr)
      × (load 4 (csr_at base kernel_args_hi) (after middle) ≡ high_word r.args_addr)
      × (load 4 (csr_at base grid_dim_x) (after middle) ≡ r.grid_x)
      × (load 4 (csr_at base grid_dim_y) (after middle) ≡ r.grid_y)
      × (load 4 (csr_at base grid_dim_z) (after middle) ≡ r.grid_z)
      × (load 4 (csr_at base block_dim_x) (after middle) ≡ r.block_x)
      × (load 4 (csr_at base block_dim_y) (after middle) ≡ r.block_y)
      × (load 4 (csr_at base block_dim_z) (after middle) ≡ r.block_z)
      × (load 4 (csr_at base launch_register) (after middle) ≡ 1)

  -- The rest of the stores, after the first `n`.
  abbrev rest_after : ℕ → List Store → List Store
  rest_after n middle = drop n (stores_with base r middle ++ store_at base launch_register 1 ∷ [])

  at_store :
      (n : ℕ) (middle rest : List Store) (offset value : ℕ)
      → rest_after n middle ≡ store_at base offset value ∷ rest
      → value < 256 ^ 4
      → Spares (csr_at base offset) 4 rest
      → load 4 (csr_at base offset) (after middle) ≡ value
  at_store n middle rest offset value e h s =
      load-perform_at n _ rest 4 (csr_at base offset) value m e h s

  WordsShown-plain : FitsRegisters r → WordsShown []
  WordsShown-plain h = (
    at_store 0 [] (rest_after 1 []) kernel_addr_lo _ refl (omega arith) (omega arith),
    at_store 1 [] (rest_after 2 []) kernel_addr_hi _ refl (omega arith) (omega arith),
    at_store 2 [] (rest_after 3 []) kernel_args_lo _ refl (omega arith) (omega arith),
    at_store 3 [] (rest_after 4 []) kernel_args_hi _ refl (omega arith) (omega arith),
    at_store 4 [] (rest_after 5 []) grid_dim_x _ refl (omega arith) (omega arith),
    at_store 5 [] (rest_after 6 []) grid_dim_y _ refl (omega arith) (omega arith),
    at_store 6 [] (rest_after 7 []) grid_dim_z _ refl (omega arith) (omega arith),
    at_store 7 [] (rest_after 8 []) block_dim_x _ refl (omega arith) (omega arith),
    at_store 8 [] (rest_after 9 []) block_dim_y _ refl (omega arith) (omega arith),
    at_store 9 [] (rest_after 10 []) block_dim_z _ refl (omega arith) (omega arith),
    at_store 10 [] [] launch_register 1 refl (omega arith) tt,
  )

  WordsShown-announced : FitsRegisters r → WordsShown (announced base r)
  WordsShown-announced h =
      let mid = announced base r in
      (
        at_store 0 mid (rest_after 1 mid) kernel_addr_lo _ refl (omega arith) (omega arith),
        at_store 1 mid (rest_after 2 mid) kernel_addr_hi _ refl (omega arith) (omega arith),
        at_store 2 mid (rest_after 3 mid) kernel_args_lo _ refl (omega arith) (omega arith),
        at_store 3 mid (rest_after 4 mid) kernel_args_hi _ refl (omega arith) (omega arith),
        at_store 4 mid (rest_after 5 mid) grid_dim_x _ refl (omega arith) (omega arith),
        at_store 5 mid (rest_after 6 mid) grid_dim_y _ refl (omega arith) (omega arith),
        at_store 6 mid (rest_after 7 mid) grid_dim_z _ refl (omega arith) (omega arith),
        at_store 7 mid (rest_after 8 mid) block_dim_x _ refl (omega arith) (omega arith),
        at_store 8 mid (rest_after 9 mid) block_dim_y _ refl (omega arith) (omega arith),
        at_store 9 mid (rest_after 10 mid) block_dim_z _ refl (omega arith) (omega arith),
        at_store 13 mid [] launch_register 1 refl (omega arith) tt,
      )

  shown_of_words :
      (m' : Memory)
      → (mid : List Store) → m' ≡ after mid
      → FitsRegisters r
      → WordsShown mid
      → Shows base r m'
  shown_of_words m' mid e h w =
      let at_ =
        λ (offset : ℕ). read_csr-load base offset m' mapped ∙ ap (load 4 (csr_at base offset)) e in
      (
        wide-words base kernel_addr_lo kernel_addr_hi r.kernel_addr m' h.0
            (at_ kernel_addr_lo ∙ w.0) (at_ kernel_addr_hi ∙ w.1),
        wide-words base kernel_args_lo kernel_args_hi r.args_addr m' h.1 (at_ kernel_args_lo ∙ w.2)
            (at_ kernel_args_hi ∙ w.3),
        at_ grid_dim_x ∙ w.4,
        at_ grid_dim_y ∙ w.5,
        at_ grid_dim_z ∙ w.6,
        at_ block_dim_x ∙ w.7,
        at_ block_dim_y ∙ w.8,
        at_ block_dim_z ∙ w.9,
        at_ launch_register ∙ w.10,
      )

  performed-eq-after :
      (mid : List Store) → middle_of base r ≡ mid → perform (launch_trace base r) m ≡ after mid
  performed-eq-after mid e =
      ap (λ ss. perform ss m) (launch_trace-stores base r mapped) ∙ ap after e

  Announces-of_dcoh : FitsRegisters r → Announces base r (after (announced base r))
  Announces-of_dcoh h =
      let mid = announced base r in
      let m' = after mid in
      (
        wide-words base completion_lo completion_hi r.completion_addr m' h.2
            (read_csr-load base completion_lo m' mapped
              ∙ at_store 10 mid (rest_after 11 mid) completion_lo _ refl (omega arith)
                  (omega arith))
            (read_csr-load base completion_hi m' mapped
              ∙ at_store 11 mid (rest_after 12 mid) completion_hi _ refl (omega arith)
                  (omega arith)),
        read_csr-load base dcoh_enable m' mapped
            ∙ at_store 12 mid (rest_after 13 mid) dcoh_enable 1 refl (omega arith) (omega arith),
      )

-- On a device whose BAR0 is mapped, for a request whose addresses have 64 bits and whose dimensions
-- 32: after the launch the registers hold the kernel's address, the address of its arguments and
-- the dimensions, and the launch register 1; if the request asks for a coherent completion, then
-- they hold its address too, and that it is enabled.
pub launch_kernel-Shows :
    (gpu : GpuDevice) (r : KernelRequest) (m : Memory)
    → gpu.bar0_base ≢ 0
    → FitsRegisters r
    → let (done, m') = launch_kernel gpu r m in
      Shows gpu.bar0_base r m' × (r.dcoh_enabled ≡ true → Announces gpu.bar0_base r m')
unfolding launch_kernel
launch_kernel-Shows gpu r m mapped h = elim (Bool-cases r.dcoh_enabled) [
  | inl e ↦
      let mid = announced gpu.bar0_base r in
      let same = performed-eq-after gpu.bar0_base r m mapped mid (rw e refl) in
      (
        shown_of_words gpu.bar0_base r m mapped _ mid same h
            (WordsShown-announced gpu.bar0_base r m mapped h),
        λ _.
            subst (Announces gpu.bar0_base r) (sym same)
              (Announces-of_dcoh gpu.bar0_base r m mapped h),
      )
  | inr e ↦ (
    shown_of_words gpu.bar0_base r m mapped _ []
        (performed-eq-after gpu.bar0_base r m mapped [] (rw e refl)) h
        (WordsShown-plain gpu.bar0_base r m mapped h),
    λ d. cc,
  )
]
