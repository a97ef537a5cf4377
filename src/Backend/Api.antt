-- ===== src/Backend/Api.antt =====
-- runtime/vortex_offload_backend.cpp, the C interface: the one backend of the process, `none` while
-- `g_backend` is null.
pub mod Balanced
pub mod Numbers
use cxlmem_uring.Base.{ℕ, Bool, true, false, not, Option, none, some, List, [], ◌∷◌, ◌++◌, ◌==◌}
use cxlmem_uring.Device.{DeviceRc, success, init_error, DriverCall, DeviceCaps}
use cxlmem_uring.Device.Kernels.{FileAnswers}
use cxlmem_uring.Backend.{
  Backend, new_backend, ArgPointer, initialize, allocate_device_memory, free_device_memory,
  copy_to_device, copy_to_host, load_kernel, load_kernel_from_file, set_kernel_arguments,
  launch_kernel, synchronize, set_debug, destroy,
}

-- The answer, the backend of the process after it, and the driver's calls.
abbrev pub ApiStep : Type 0 → Type 0
ApiStep A = A × Option Backend × List DriverCall

abbrev pub lifted : {A : Type 0} → A × Backend × List DriverCall → ApiStep A
lifted (answer, b, calls) = (answer, some b, calls)

-- Without the answer.
abbrev pub effect : {A : Type 0} → ApiStep A → Option Backend × List DriverCall
effect (answer, g, calls) = (g, calls)

-- A backend whose initialisation failed is deleted.
unfoldable pub after_init : DeviceRc × Backend × List DriverCall → ApiStep DeviceRc
after_init (success, b, calls) = (success, some b, calls)
after_init (rc, b, calls) = (rc, none, calls ++ destroy b)

unfoldable pub backend_init : Option Backend → Option ℕ → DeviceCaps → ApiStep DeviceRc
unfolding after_init
backend_init (some b) open_ caps = (init_error, some b, [])
backend_init none open_ caps = after_init (initialize new_backend open_ caps)

unfoldable pub backend_cleanup : Option Backend → Option Backend × List DriverCall
backend_cleanup none = (none, [])
backend_cleanup (some b) = (none, destroy b)

unfoldable pub backend_malloc : Option Backend → ℕ → Option ℕ → Option ℕ → ApiStep ℕ
backend_malloc none size alloc addr = (0, none, [])
backend_malloc (some b) size alloc addr = lifted (allocate_device_memory b size alloc addr)

unfoldable pub backend_free : Option Backend → ℕ → ApiStep DeviceRc
backend_free none id = (init_error, none, [])
backend_free (some b) id = lifted (free_device_memory b id)

unfoldable pub backend_h2d : Option Backend → ℕ → Option (List ℕ) → ℕ → ℕ → Bool → ApiStep DeviceRc
backend_h2d none id host offset size done = (init_error, none, [])
backend_h2d (some b) id host offset size done = lifted (copy_to_device b id host offset size done)

unfoldable pub backend_d2h : Option Backend → ℕ → Option (List ℕ) → ℕ → ℕ → Bool → ApiStep DeviceRc
backend_d2h none id host offset size done = (init_error, none, [])
backend_d2h (some b) id host offset size done = lifted (copy_to_host b id host offset size done)

unfoldable pub backend_load_kernel : Option Backend → Bool → ℕ → Option ℕ → Option ℕ → ApiStep ℕ
backend_load_kernel none binary size upload addr = (0, none, [])
backend_load_kernel (some b) binary size upload addr =
    lifted (load_kernel b binary size upload addr)

unfoldable pub backend_load_kernel_file :
    Option Backend → Bool → FileAnswers → Option ℕ → Option ℕ → ApiStep ℕ
backend_load_kernel_file none path files upload addr = (0, none, [])
backend_load_kernel_file (some b) path files upload addr =
    lifted (load_kernel_from_file b path files upload addr)

unfoldable pub backend_set_args :
    Option Backend → ℕ → List ArgPointer → Option ℕ → Option ℕ → Bool → ApiStep DeviceRc
backend_set_args none id args alloc addr copied = (init_error, none, [])
backend_set_args (some b) id args alloc addr copied =
    lifted (set_kernel_arguments b id args alloc addr copied)

unfoldable pub backend_launch : Option Backend → ℕ → Bool → Bool → ApiStep DeviceRc
backend_launch none id ran ended = (init_error, none, [])
backend_launch (some b) id ran ended = lifted (launch_kernel b id ran ended)

unfoldable pub backend_sync : Option Backend → Bool → DeviceRc
backend_sync none ended = init_error
backend_sync (some b) ended = synchronize b ended

unfoldable pub backend_set_debug : Option Backend → ℕ → Option Backend
backend_set_debug none enable = none
backend_set_debug (some b) enable = some (set_debug b (not (enable == 0)))

-- A call of the interface, with the driver's answers to it. Waiting changes nothing here.
pub data ApiCall : Type 0 where
  init : (open_ : Option ℕ) (caps : DeviceCaps) → ApiCall
  cleanup : ApiCall
  allocate : (size : ℕ) (alloc addr : Option ℕ) → ApiCall
  free : (id : ℕ) → ApiCall
  h2d d2h : (id : ℕ) (host : Option (List ℕ)) (offset size : ℕ) (done : Bool) → ApiCall
  load : (binary : Bool) (size : ℕ) (upload addr : Option ℕ) → ApiCall
  load_file : (path : Bool) (files : FileAnswers) (upload addr : Option ℕ) → ApiCall
  set_args : (id : ℕ) (args : List ArgPointer) (alloc addr : Option ℕ) (copied : Bool) → ApiCall
  launch : (id : ℕ) (ran ended : Bool) → ApiCall
  debug : (enable : ℕ) → ApiCall

unfoldable pub api_step : Option Backend → ApiCall → Option Backend × List DriverCall
api_step g (init open_ caps) = effect (backend_init g open_ caps)
api_step g cleanup = backend_cleanup g
api_step g (allocate size alloc addr) = effect (backend_malloc g size alloc addr)
api_step g (free id) = effect (backend_free g id)
api_step g (h2d id host offset size done) = effect (backend_h2d g id host offset size done)
api_step g (d2h id host offset size done) = effect (backend_d2h g id host offset size done)
api_step g (load binary size upload addr) = effect (backend_load_kernel g binary size upload addr)
api_step g (load_file path files upload addr) =
    effect (backend_load_kernel_file g path files upload addr)
api_step g (set_args id args alloc addr copied) =
    effect (backend_set_args g id args alloc addr copied)
api_step g (launch id ran ended) = effect (backend_launch g id ran ended)
api_step g (debug enable) = (backend_set_debug g enable, [])

unfoldable pub api_run : Option Backend → List ApiCall → Option Backend × List DriverCall
unfolding api_step
api_run g [] = (g, [])
api_run g (call ∷ calls) =
    let (g', made) = api_step g call in let (last, more) = api_run g' calls in (last, made ++ more)
