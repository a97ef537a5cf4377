-- ===== src/Backend/Destroyed.antt =====
-- runtime/vortex_offload_backend.cpp, the destructor: the account of its calls.
use cxlmem_uring.Base.{
  ℕ, ◌≡◌, refl, arith, Option, List, [], ◌∷◌, ◌++◌, if◌then◌else◌, weight, if-case,
}
use cxlmem_uring.Device.{DriverCall, Device, count_allocated, count_freed, device_destroy}
use cxlmem_uring.Device.Buffers.{Buffer, free_buffer}
use cxlmem_uring.Device.Kernels.{release, Kernel, kernel_unload}
use cxlmem_uring.Device.Session.{owned, count_allocated-append, count_freed-append, release-count}
use cxlmem_uring.Backend.{Backend, unload_all, free_all, destroy}
use cxlmem_uring.Backend.Accounts.{held, backend_owned, Neutral}

module _ (h : ℕ) where
  unload_all-count :
      (kernels : List (ℕ × Kernel))
      → (count_freed h (unload_all kernels) ≡ weight (owned h) kernels)
        × (count_allocated h (unload_all kernels) ≡ 0)
  unfolding unload_all weight kernel_unload count_freed count_allocated
  unload_all-count [] = (refl, refl)
  unload_all-count ((id, kernel) ∷ rest) = omega (
    arith,
    unload_all-count rest,
    release-count h kernel.kernel_buffer,
    release-count h kernel.args_buffer,
    count_freed-append h (release kernel.kernel_buffer ++ release kernel.args_buffer)
        (unload_all rest),
    count_freed-append h (release kernel.kernel_buffer) (release kernel.args_buffer),
    count_allocated-append h (release kernel.kernel_buffer ++ release kernel.args_buffer)
        (unload_all rest),
    count_allocated-append h (release kernel.kernel_buffer) (release kernel.args_buffer),
  )

  free_all-count :
      (buffers : List (ℕ × Buffer))
      → (count_freed h (free_all buffers) ≡ weight (held h) buffers)
        × (count_allocated h (free_all buffers) ≡ 0)
  unfolding free_all weight free_buffer count_freed count_allocated
  free_all-count [] = (refl, refl)
  free_all-count ((id, buffer) ∷ rest) = omega (arith, free_all-count rest)

  device_destroy-Neutral : (device : Option Device) → Neutral h (device_destroy device).1
  unfolding device_destroy count_freed count_allocated
  device_destroy-Neutral device = ground arith

  pub destroy-count :
      (b : Backend)
      → (count_freed h (destroy b) ≡ backend_owned h b) × (count_allocated h (destroy b) ≡ 0)
  unfolding destroy
  destroy-count b =
      let kernels = unload_all b.kernel_map in
      let buffers = free_all b.buffer_map in
      omega (
        arith,
        unload_all-count b.kernel_map,
        free_all-count b.buffer_map,
        closing,
        count_freed-append h kernels (buffers ++ closed_device),
        count_freed-append h buffers closed_device,
        count_allocated-append h kernels (buffers ++ closed_device),
        count_allocated-append h buffers closed_device,
      )
    where
      closed_device : List DriverCall
      closed_device = if b.initialized then (device_destroy b.device).1 else []

      closing : Neutral h closed_device
      closing =
          if-case (Neutral h) b.initialized _ _ (device_destroy-Neutral b.device)
            (unfold count_freed count_allocated in (refl, refl))
