-- ===== src/Gpu/Ordered.antt =====
-- runtime/src/Type2GpuDevice.cpp, `launch_kernel`: the order of its stores.
use cxlmem_uring.Base.{sym, ℕ, ◌≡◌, ◌≢◌, inl, inr, ap, ◌∙◌, take, arith, Bool-cases}
use cxlmem_uring.Memory.{Memory, load}
use cxlmem_uring.Memory.Traces.{perform, Spares, prefix_unseen}
use cxlmem_uring.Gpu.{
  GpuDevice, KernelRequest, read_csr, csr_at, launch_kernel, launch_trace, launch_register,
}
use cxlmem_uring.Gpu.Launch.{store_at, stores_with, middle_of, launch_trace-stores, read_csr-load}

before_launch-Spares :
    (base : ℕ) (r : KernelRequest)
    → Spares (csr_at base launch_register) 4 (stores_with base r (middle_of base r))
before_launch-Spares base r = elim (Bool-cases r.dcoh_enabled) [
  | inl e ↦ rw e (omega arith)
  | inr e ↦ rw e (omega arith)
]

-- On a device whose BAR0 is mapped, at any point of a launch whose stores take effect in program
-- order: if the launch register reads anything but what stood there before, then the registers are
-- those after the whole launch.
pub launch_kernel_ordered :
    (gpu : GpuDevice) (r : KernelRequest) (m : Memory) (n : ℕ)
    → gpu.bar0_base ≢ 0
    → let base = gpu.bar0_base in
      let seen = perform (take n (launch_trace base r)) m in
      read_csr base launch_register seen ≢ read_csr base launch_register m
      → seen ≡ (launch_kernel gpu r m).1
unfolding launch_kernel
launch_kernel_ordered gpu r m n mapped fresh =
    let base = gpu.bar0_base in
    let stores = stores_with base r (middle_of base r) in
    let last = store_at base launch_register 1 in
    let whole = launch_trace-stores base r mapped in
    elim (prefix_unseen n 4 (csr_at base launch_register) stores last m
      (before_launch-Spares base r)) [
        | inl e ↦ absurd (
            fresh (
              read_csr-load base launch_register _ mapped
              ∙ ap (λ ss. load 4 (csr_at base launch_register) (perform (take n ss) m)) whole
              ∙ e
              ∙ sym (read_csr-load base launch_register m mapped)))
        | inr e ↦
            ap (λ ss. perform (take n ss) m) whole
            ∙ ap (λ ss. perform ss m) e
            ∙ ap (λ ss. perform ss m) (sym whole)
      ]
