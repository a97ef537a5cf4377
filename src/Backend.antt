-- ===== src/Backend.antt =====
-- runtime/vortex_offload_backend.cpp: the backend that hands out numbers for buffers and kernels of
-- the device interface. What the driver answers is an argument of each operation, and the driver's
-- calls are recorded in order.
pub mod Accounts
pub mod Destroyed
pub mod Api
use cxlmem_uring.Base.{
  ℕ, ◌+◌, ◌%◌, ◌^◌, Bool, true, false, Option, none, some, List, [], ◌∷◌, ◌++◌, map, ◌==◌,
  if◌then◌else◌, find, erase, assign, replace,
}
use cxlmem_uring.Device.{
  DeviceRc, success, init_error, DriverCall, DeviceCaps, Device, device_init, device_get_caps,
  device_destroy, device_set_debug,
}
use cxlmem_uring.Device.Buffers.{
  Buffer, CopyKind, host_to_device, device_to_host, malloc, free_buffer, memcpy_offset,
}
use cxlmem_uring.Device.Kernels.{
  ArgType, by_value, by_buffer, KernelArg, Kernel, FileAnswers, kernel_load, kernel_load_file,
  kernel_set_args, kernel_unload, kernel_launch, device_wait,
}

-- `VortexOffloadBackend`; `device` is `none` until it is initialised. The maps are in the order of
-- insertion, newest first.
pub record Backend : Type 0 where
  pub device : Option Device
  pub buffer_map : List (ℕ × Buffer)
  pub kernel_map : List (ℕ × Kernel)
  pub next_buffer_id : ℕ
  pub next_kernel_id : ℕ
  pub initialized : Bool

abbrev pub new_backend : Backend
new_backend = record {
  device = none;
  buffer_map = [];
  kernel_map = [];
  next_buffer_id = 1;
  next_kernel_id = 1;
  initialized = false;
}

-- The answer of an operation, the backend after it, and the driver's calls. The answer -1 of the
-- backend itself is `init_error`, whose number it is.
abbrev pub Step : Type 0 → Type 0
Step A = A × Backend × List DriverCall

unfoldable pub initialize : Backend → Option ℕ → DeviceCaps → Step DeviceRc
initialize b open_ caps =
    if b.initialized
    then (init_error, b, [])
    else let (rc, device, calls) = device_init true open_ caps in
      elim rc [
        | success ↦ (success, record b { device = device; initialized = true }, calls)
        | other ↦ (other, b, calls)
      ]

-- The number of a new buffer, after the answer of `vortex_malloc`, which gives a buffer exactly with
-- `VORTEX_SUCCESS`; 0 where there is none.
unfoldable pub keep_buffer : Backend → Option Buffer → List DriverCall → Step ℕ
keep_buffer b none calls = (0, b, calls)
keep_buffer b (some buffer) calls = (
  b.next_buffer_id,
  record b {
    buffer_map = assign b.next_buffer_id buffer b.buffer_map;
    next_buffer_id = (b.next_buffer_id + 1) % 2 ^ 64;
  },
  calls,
)

unfoldable pub allocate_device_memory : Backend → ℕ → Option ℕ → Option ℕ → Step ℕ
unfolding keep_buffer
allocate_device_memory b size alloc addr =
    let (rc, buffer, calls) = malloc b.device true size alloc addr in
    if b.initialized then keep_buffer b buffer calls else (0, b, [])

-- `none` is an iterator at the end of the map.
unfoldable pub free_found : Backend → ℕ → Option Buffer → Step DeviceRc
free_found b id none = (init_error, b, [])
free_found b id (some buffer) =
    (success, record b { buffer_map = erase id b.buffer_map }, (free_buffer (some buffer)).1)

unfoldable pub free_device_memory : Backend → ℕ → Step DeviceRc
unfolding free_found
free_device_memory b id = free_found b id (find id b.buffer_map)

-- `host_to_device` and `device_to_host`, by the direction; `host` is the bytes at the host's
-- address.
unfoldable pub copy_found :
    Backend → Option Buffer → Option (List ℕ) → ℕ → ℕ → CopyKind → Bool → Step DeviceRc
copy_found b none host offset size kind done = (init_error, b, [])
copy_found b (some buffer) host offset size kind done =
    let (rc, calls) = memcpy_offset (some buffer) offset host size kind done in (rc, b, calls)

unfoldable pub copy_to_device : Backend → ℕ → Option (List ℕ) → ℕ → ℕ → Bool → Step DeviceRc
unfolding copy_found
copy_to_device b id host offset size done =
    copy_found b (find id b.buffer_map) host offset size host_to_device done

unfoldable pub copy_to_host : Backend → ℕ → Option (List ℕ) → ℕ → ℕ → Bool → Step DeviceRc
unfolding copy_found
copy_to_host b id host offset size done =
    copy_found b (find id b.buffer_map) host offset size device_to_host done

unfoldable pub keep_kernel : Backend → Option Kernel → List DriverCall → Step ℕ
keep_kernel b none calls = (0, b, calls)
keep_kernel b (some kernel) calls = (
  b.next_kernel_id,
  record b {
    kernel_map = assign b.next_kernel_id kernel b.kernel_map;
    next_kernel_id = (b.next_kernel_id + 1) % 2 ^ 64;
  },
  calls,
)

unfoldable pub load_kernel : Backend → Bool → ℕ → Option ℕ → Option ℕ → Step ℕ
unfolding keep_kernel
load_kernel b binary size upload addr =
    let (rc, kernel, calls) = kernel_load b.device true binary size upload addr in
    if b.initialized then keep_kernel b kernel calls else (0, b, [])

unfoldable pub load_kernel_from_file : Backend → Bool → FileAnswers → Option ℕ → Option ℕ → Step ℕ
unfolding keep_kernel
load_kernel_from_file b path files upload addr =
    let loaded = kernel_load_file b.device true path files upload addr in
    if b.initialized then keep_kernel b loaded.kernel loaded.calls else (0, b, [])

-- What an argument's pointer leads to: its bytes, and the word at the place of a buffer's
-- `dev_addr`.
pub record ArgPointer : Type 0 where
  pub pointed : List ℕ
  pub as_buffer : ℕ
  pub size : ℕ

-- The conversion of one argument: those of a pointer's size are taken for buffers.
unfoldable pub converted : ArgPointer → KernelArg
converted arg = record {
  host_bytes = arg.pointed;
  buffer_addr = arg.as_buffer;
  size = arg.size;
  alignment = 8;
  arg_type = if arg.size == 8 then by_buffer else by_value;
}

unfoldable pub set_args_found :
    Backend → ℕ → Option Kernel → List KernelArg → Option ℕ → Option ℕ → Bool → Step DeviceRc
set_args_found b id none args alloc addr copied = (init_error, b, [])
set_args_found b id (some kernel) args alloc addr copied =
    let (rc, kernel', calls) = kernel_set_args kernel args alloc addr copied in
    (rc, record b { kernel_map = replace id kernel' b.kernel_map }, calls)

-- The kernel that the map's entry points to is changed where it stands.
unfoldable pub set_kernel_arguments :
    Backend → ℕ → List ArgPointer → Option ℕ → Option ℕ → Bool → Step DeviceRc
unfolding set_args_found
set_kernel_arguments b id args alloc addr copied =
    set_args_found b id (find id b.kernel_map) (map converted args) alloc addr copied

unfoldable pub launch_found : Backend → Option Kernel → Bool → Bool → Step DeviceRc
launch_found b none ran ended = (init_error, b, [])
launch_found b (some kernel) ran ended =
    let (rc, calls) = kernel_launch b.device (some kernel) true ran ended in (rc, b, calls)

-- The dimensions are handed on to the driver.
unfoldable pub launch_kernel : Backend → ℕ → Bool → Bool → Step DeviceRc
unfolding launch_found
launch_kernel b id ran ended = launch_found b (find id b.kernel_map) ran ended

unfoldable pub synchronize : Backend → Bool → DeviceRc
synchronize b ended = if b.initialized then device_wait b.device ended else init_error

-- `none` stands for capabilities that are all 0.
unfoldable pub get_device_caps : Backend → Option DeviceCaps
get_device_caps b = if b.initialized then (device_get_caps b.device true).1 else none

unfoldable pub set_debug : Backend → Bool → Backend
set_debug b enable =
    if b.initialized
    then record b { device = (device_set_debug b.device (if enable then 1 else 0)).1 }
    else b

unfoldable pub unload_all : List (ℕ × Kernel) → List DriverCall
unload_all [] = []
unload_all ((id, kernel) ∷ rest) = (kernel_unload (some kernel)).1 ++ unload_all rest

unfoldable pub free_all : List (ℕ × Buffer) → List DriverCall
free_all [] = []
free_all ((id, buffer) ∷ rest) = (free_buffer (some buffer)).1 ++ free_all rest

-- The destructor.
unfoldable pub destroy : Backend → List DriverCall
unfolding unload_all free_all
destroy b =
    unload_all b.kernel_map
    ++ (free_all b.buffer_map ++ (if b.initialized then (device_destroy b.device).1 else []))
