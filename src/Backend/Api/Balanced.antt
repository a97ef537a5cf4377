-- ===== src/Backend/Api/Balanced.antt =====
-- runtime/vortex_offload_backend.cpp, the C interface: the account of the driver's buffers over a
-- whole run.
use cxlmem_uring.Base.{
  ℕ, suc, ◌+◌, ◌^◌, ◌<◌, ◌≡◌, refl, arith, Bool, Option, none, some, List, [], ◌∷◌, ◌++◌, length,
  find, if-case, weight,
}
use cxlmem_uring.Device.{DeviceCaps, DriverCall, count_allocated, count_freed, device_init}
use cxlmem_uring.Device.Session.{count_allocated-append, count_freed-append}
use cxlmem_uring.Device.Kernels.{FileAnswers}
use cxlmem_uring.Backend.{
  Backend, new_backend, initialize, allocate_device_memory, load_kernel, load_kernel_from_file,
  free_device_memory, copy_to_device, copy_to_host, set_kernel_arguments, launch_kernel, set_debug,
}
use cxlmem_uring.Backend.Accounts.{
  IsTidy, IsFine, SafeArgs, backend_owned, nothing-IsFine, keep_buffer-IsFine, keep_kernel-IsFine,
  malloc-given, kernel_load-given, kernel_load_file-given, free_found-IsFine, copy_found-IsFine,
  launch_found-IsFine, set_args_found-IsFine,
}
use cxlmem_uring.Backend.Destroyed.{destroy-count}
use cxlmem_uring.Backend.Api.{
  ApiCall, init, cleanup, allocate, free, h2d, d2h, load, load_file, set_args, launch, debug,
  api_step, api_run, backend_init, after_init, backend_cleanup, backend_malloc, backend_free,
  backend_h2d, backend_d2h, backend_load_kernel, backend_load_kernel_file, backend_set_args,
  backend_launch, backend_set_debug,
}

-- Where arguments are set: the driver gives a buffer for them, or the kernel had none.
unfoldable pub SafeCall : Option Backend → ApiCall → Type 0
SafeCall (some b) (set_args id args alloc addr copied) =
    SafeArgs (find id b.kernel_map) args alloc addr copied
SafeCall g call = Unit

unfoldable pub AllSafe : Option Backend → List ApiCall → Type 0
unfolding SafeCall
AllSafe g [] = Unit
AllSafe g (call ∷ calls) = SafeCall g call × AllSafe (api_step g call).0 calls

abbrev TidyState : ℕ → Option Backend → Type 0
TidyState n none = Unit
TidyState n (some b) = IsTidy n b

module _ (h : ℕ) where
  abbrev state_owned : Option Backend → ℕ
  state_owned none = 0
  state_owned (some b) = backend_owned h b

  -- A call that leaves a tidy state, and whose driver calls account for the handles.
  abbrev StepFine : ℕ → Option Backend → Option Backend × List DriverCall → Type 0
  StepFine n g (g', calls) =
      TidyState n g'
      × (count_allocated h calls + state_owned g ≡ count_freed h calls + state_owned g')

  step_nothing : (n : ℕ) → StepFine n none (none, [])
  unfolding count_allocated count_freed
  step_nothing n = (tt, refl)

  after_init-Fine :
      (n : ℕ) (open_ : Option ℕ) (caps : DeviceCaps)
      → suc (suc n) < 2 ^ 64
      → let (rc, g', calls) = after_init (initialize new_backend open_ caps) in
        StepFine n none (g', calls)
  unfolding after_init initialize device_init count_allocated count_freed weight
  after_init-Fine n none caps r = (tt, omega (arith, destroy-count h new_backend))
  after_init-Fine n (some dev) caps r = ((tt, tt, omega arith, omega arith), refl)

  allocate-Fine :
      (n : ℕ) (b : Backend) (size : ℕ) (alloc addr : Option ℕ)
      → IsTidy (suc n) b
      → let (id, b', calls) = allocate_device_memory b size alloc addr in IsFine h n b b' calls
  unfolding allocate_device_memory
  allocate-Fine n b size alloc addr t =
      if-case (λ (r : ℕ × Backend × List DriverCall). IsFine h n b r.1 r.2) b.initialized _ _
        (keep_buffer-IsFine h n b _ _ t (malloc-given h b.device size alloc addr))
        (nothing-IsFine h n b t)

  load-Fine :
      (n : ℕ) (b : Backend) (binary : Bool) (size : ℕ) (upload addr : Option ℕ)
      → IsTidy (suc n) b
      → let (id, b', calls) = load_kernel b binary size upload addr in IsFine h n b b' calls
  unfolding load_kernel
  load-Fine n b binary size upload addr t =
      if-case (λ (r : ℕ × Backend × List DriverCall). IsFine h n b r.1 r.2) b.initialized _ _
        (keep_kernel-IsFine h n b _ _ t (kernel_load-given h b.device binary size upload addr))
        (nothing-IsFine h n b t)

  load_file-Fine :
      (n : ℕ) (b : Backend) (path : Bool) (files : FileAnswers) (upload addr : Option ℕ)
      → IsTidy (suc n) b
      → let (id, b', calls) = load_kernel_from_file b path files upload addr in
        IsFine h n b b' calls
  unfolding load_kernel_from_file
  load_file-Fine n b path files upload addr t =
      if-case (λ (r : ℕ × Backend × List DriverCall). IsFine h n b r.1 r.2) b.initialized _ _
        (keep_kernel-IsFine h n b _ _ t (kernel_load_file-given h b.device path files upload addr))
        (nothing-IsFine h n b t)

  set_debug-Fine :
      (n : ℕ) (b : Backend) (enable : Bool)
      → IsTidy (suc n) b
      → IsFine h n b (set_debug b enable) []
  unfolding set_debug
  set_debug-Fine n b enable t =
      if-case (λ (b' : Backend). IsFine h n b b' []) b.initialized _ _ (nothing-IsFine h n b t)
        (nothing-IsFine h n b t)

  api_step-Fine :
      (n : ℕ) (g : Option Backend) (call : ApiCall)
      → suc (suc n) < 2 ^ 64
      → TidyState (suc n) g
      → SafeCall g call
      → StepFine n g (api_step g call)
  unfolding api_step SafeCall backend_init backend_cleanup backend_malloc backend_free backend_h2d
      backend_d2h backend_load_kernel backend_load_kernel_file backend_set_args backend_launch
      backend_set_debug free_device_memory copy_to_device copy_to_host set_kernel_arguments
      launch_kernel
  api_step-Fine n none (init open_ caps) r t s = after_init-Fine n open_ caps r
  api_step-Fine n (some b) (init open_ caps) r t s = nothing-IsFine h n b t
  api_step-Fine n none cleanup r t s = step_nothing n
  api_step-Fine n (some b) cleanup r t s = (tt, omega (arith, destroy-count h b))
  api_step-Fine n none (allocate size alloc addr) r t s = step_nothing n
  api_step-Fine n (some b) (allocate size alloc addr) r t s = allocate-Fine n b size alloc addr t
  api_step-Fine n none (free id) r t s = step_nothing n
  api_step-Fine n (some b) (free id) r t s = free_found-IsFine h n b id _ t refl
  api_step-Fine n none (h2d id host offset size done) r t s = step_nothing n
  api_step-Fine n (some b) (h2d id host offset size done) r t s =
      copy_found-IsFine h n b _ host offset size _ done t
  api_step-Fine n none (d2h id host offset size done) r t s = step_nothing n
  api_step-Fine n (some b) (d2h id host offset size done) r t s =
      copy_found-IsFine h n b _ host offset size _ done t
  api_step-Fine n none (load binary size upload addr) r t s = step_nothing n
  api_step-Fine n (some b) (load binary size upload addr) r t s =
      load-Fine n b binary size upload addr t
  api_step-Fine n none (load_file path files upload addr) r t s = step_nothing n
  api_step-Fine n (some b) (load_file path files upload addr) r t s =
      load_file-Fine n b path files upload addr t
  api_step-Fine n none (set_args id args alloc addr copied) r t s = step_nothing n
  api_step-Fine n (some b) (set_args id args alloc addr copied) r t s =
      set_args_found-IsFine h n b id _ args alloc addr copied t refl s
  api_step-Fine n none (launch id ran ended) r t s = step_nothing n
  api_step-Fine n (some b) (launch id ran ended) r t s = launch_found-IsFine h n b _ ran ended t
  api_step-Fine n none (debug enable) r t s = step_nothing n
  api_step-Fine n (some b) (debug enable) r t s = set_debug-Fine n b _ t

  api_run-Fine :
      (g : Option Backend) (calls : List ApiCall)
      → suc (length calls) < 2 ^ 64
      → TidyState (length calls) g
      → AllSafe g calls
      → StepFine 0 g (api_run g calls)
  unfolding api_run AllSafe count_allocated count_freed
  api_run-Fine g [] r t s = (t, refl)
  api_run-Fine g (call ∷ calls) r t s =
      let now = api_step g call in
      let later = api_run now.0 calls in
      let first = api_step-Fine (length calls) g call (omega arith) t s.0 in
      let rest = api_run-Fine now.0 calls (omega arith) first.0 s.1 in
      (
        rest.0,
        omega (
          arith,
          count_allocated-append h now.1 later.1,
          count_freed-append h now.1 later.1,
          first.1,
          rest.1,
        ),
      )

  cleanup-count :
      (g : Option Backend)
      → (count_freed h (backend_cleanup g).1 ≡ state_owned g)
        × (count_allocated h (backend_cleanup g).1 ≡ 0)
  unfolding backend_cleanup count_freed count_allocated
  cleanup-count none = (refl, refl)
  cleanup-count (some b) = destroy-count h b

-- For any calls of the interface from the start of the process, fewer than 2 ^ 64 - 1, with any
-- answers of the driver but that it gives a buffer for new arguments wherever the kernel has old
-- ones, and a clean-up at the end: the driver has taken back every buffer as often as it gave it.
pub backend_run_balanced :
    (h : ℕ) (calls : List ApiCall)
    → suc (length calls) < 2 ^ 64
    → AllSafe none calls
    → let (last, made) = api_run none calls in
      let all_made = made ++ (backend_cleanup last).1 in
      count_allocated h all_made ≡ count_freed h all_made
backend_run_balanced h calls r s =
    let run = api_run none calls in
    let ended = backend_cleanup run.0 in
    omega (
      arith,
      count_allocated-append h run.1 ended.1,
      count_freed-append h run.1 ended.1,
      cleanup-count h run.0,
      (api_run-Fine h none calls r tt s).1,
    )
