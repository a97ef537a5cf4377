-- ===== src/Gpu/Stale.antt =====
-- runtime/src/Type2GpuDevice.cpp, `launch_kernel` after an earlier launch.
use cxlmem_uring.Base.{ℕ, ◌+◌, ◌*◌, ◌^◌, ◌≡◌, ◌≢◌, ap, sym, ◌∙◌, true, false, arith, [], ◌∷◌, ◌++◌}
use cxlmem_uring.Memory.{Memory, load}
use cxlmem_uring.Memory.Traces.{perform, Spares, load-perform_spared}
use cxlmem_uring.Gpu.{
  GpuDevice, KernelRequest, launch_kernel, launch_trace, read_csr, csr_at, completion_lo,
  completion_hi, dcoh_enable,
}
use cxlmem_uring.Gpu.Launch.{
  Announces, FitsRegisters, launch_kernel-Shows, launch_trace-stores, read_csr-load, stores_with,
  store_at,
}

-- A launch without a coherent completion leaves the registers behind those of a launch.
plain_launch_keeps :
    (base offset : ℕ) (r : KernelRequest) (m : Memory)
    → base ≢ 0
    → r.dcoh_enabled ≡ false
    → Spares (csr_at base offset) 4 (stores_with base r [] ++ store_at base 0x128 1 ∷ [])
    → read_csr base offset (perform (launch_trace base r) m) ≡ read_csr base offset m
plain_launch_keeps base offset r m mapped plain s =
    read_csr-load base offset _ mapped
    ∙ ap (λ ss. load 4 (csr_at base offset) (perform ss m)) (launch_trace-stores base r mapped)
    ∙ rw plain (load-perform_spared 4 (csr_at base offset) _ m s)
    ∙ sym (read_csr-load base offset m mapped)

-- On a device whose BAR0 is mapped, for a request that asks for a coherent completion, whose
-- addresses have 64 bits and whose dimensions 32, and any later request that does not: after both
-- launches the registers still enable the completion, at the first request's address.
pub stale_completion :
    (gpu : GpuDevice) (r later : KernelRequest) (m : Memory)
    → gpu.bar0_base ≢ 0
    → FitsRegisters r
    → r.dcoh_enabled ≡ true
    → later.dcoh_enabled ≡ false
    → Announces gpu.bar0_base r (launch_kernel gpu later (launch_kernel gpu r m).1).1
unfolding launch_kernel
stale_completion gpu r later m mapped h coherent plain =
    let base = gpu.bar0_base in
    let m' = perform (launch_trace base r) m in
    let first = (launch_kernel-Shows gpu r m mapped h).1 coherent in
    let lo = keeps base completion_lo m' mapped (omega arith) in
    let hi = keeps base completion_hi m' mapped (omega arith) in
    (
      ap
            (λ (x : ℕ).
              x * 2 ^ 32 + read_csr base completion_lo (perform (launch_trace base later) m'))
            hi
          ∙ ap (λ (x : ℕ). read_csr base completion_hi m' * 2 ^ 32 + x) lo
          ∙ first.0,
      keeps base dcoh_enable m' mapped (omega arith) ∙ first.1,
    )
  where
    keeps :
        (base offset : ℕ) (m' : Memory)
        → base ≢ 0
        → Spares (csr_at base offset) 4 (stores_with base later [] ++ store_at base 0x128 1 ∷ [])
        → read_csr base offset (perform (launch_trace base later) m') ≡ read_csr base offset m'
    keeps base offset m' mapped s = plain_launch_keeps base offset later m' mapped plain s
