-- ===== src/Device.antt =====
-- runtime/vortex_device.cpp, the device interface: devices, buffers, kernels and their arguments.
-- The Vortex driver (`vx_*`) is outside the repository: what it answers is an argument of each
-- operation, and the calls that take or give a resource are recorded in order.
pub mod Buffers
pub mod Kernels
pub mod Packing
pub mod Session
pub mod Overrun
pub mod Submit
pub mod Accepted
use cxlmem_uring.Base.{
  ℕ, zero, suc, ◌+◌, ◌-◌, ◌*◌, ◌/◌, ◌%◌, ◌^◌, Bool, true, false, not, ◌&&◌, ◌||◌, Option, none,
  some, List, [], ◌∷◌, ◌++◌, ◌==◌, ltb, if◌then◌else◌,
}
use cxlmem_uring.Memory.{Memory}

-- `VORTEX_SUCCESS` and the error codes.
pub data DeviceRc : Type 0 where
  success init_error memory_error kernel_error launch_error timeout_error invalid_error : DeviceRc

-- The driver calls that succeeded, with the handle each was about.
pub data DriverCall : Type 0 where
  opened closed : (dev : ℕ) → DriverCall
  allocated freed : (buf : ℕ) → DriverCall
  copied_to : (buf offset : ℕ) → (bytes_ : List ℕ) → DriverCall
  copied_from : (buf offset size : ℕ) → DriverCall
  started : (kernel : Option ℕ) → (args : Option ℕ) → DriverCall

pub record DeviceCaps : Type 0 where
  pub num_cores : ℕ
  pub num_warps_per_core : ℕ
  pub num_threads_per_warp : ℕ
  pub global_mem_size : ℕ
  pub local_mem_size : ℕ
  pub cache_line_size : ℕ
  pub isa_flags : ℕ

-- `struct vortex_device` without its counters.
pub record Device : Type 0 where
  pub vx_dev : ℕ
  pub caps : DeviceCaps
  pub initialized : Bool
  pub debug_enabled : Bool

-- The three 32-bit fields are cut from the 64 bits that the driver answers. `answer` is what `value`
-- holds after each query, since no query's return code is looked at.
unfoldable pub query_caps : DeviceCaps → DeviceCaps
query_caps answer = record answer {
  num_cores = answer.num_cores % 2 ^ 32;
  num_warps_per_core = answer.num_warps_per_core % 2 ^ 32;
  num_threads_per_warp = answer.num_threads_per_warp % 2 ^ 32;
  cache_line_size = answer.cache_line_size % 2 ^ 32;
  isa_flags = answer.isa_flags % 2 ^ 32;
}

-- `vortex_device_init`: `out` is whether the caller gave a place, `open` the handle that the driver
-- opened. Messages are left out.
unfoldable pub device_init :
    Bool → Option ℕ → DeviceCaps → DeviceRc × Option Device × List DriverCall
unfolding query_caps
device_init false open_ caps = (invalid_error, none, [])
device_init true none caps = (init_error, none, [])
device_init true (some dev) caps = (
  success,
  some (record { vx_dev = dev; caps = query_caps caps; initialized = true; debug_enabled = false }),
  opened dev ∷ [],
)

unfoldable pub device_get_caps : Option Device → Bool → DeviceRc × Option DeviceCaps
device_get_caps none out = (invalid_error, none)
device_get_caps (some device) out =
    if not out
    then (invalid_error, none)
    else if not device.initialized
    then (init_error, none)
    else (success, some device.caps)

unfoldable pub device_destroy : Option Device → DeviceRc × List DriverCall
device_destroy none = (invalid_error, [])
device_destroy (some device) =
    (success, if device.initialized then closed device.vx_dev ∷ [] else [])

unfoldable pub device_set_debug : Option Device → ℕ → DeviceRc × Option Device
device_set_debug none enable = (invalid_error, none)
device_set_debug (some device) enable =
    (success, some (record device { debug_enabled = not (enable == 0) }))

-- What a device, by pointer, lets an operation do.
unfoldable pub usable : Option Device → Bool → DeviceRc
usable none given = invalid_error
usable (some device) given =
    if not given then invalid_error else if not device.initialized then init_error else success

-- How often the driver gave a buffer, and how often it took it back.
unfoldable pub count_allocated : ℕ → List DriverCall → ℕ
count_allocated h [] = 0
count_allocated h (allocated buf ∷ calls) = (if buf == h then 1 else 0) + count_allocated h calls
count_allocated h (opened dev ∷ calls) = count_allocated h calls
count_allocated h (closed dev ∷ calls) = count_allocated h calls
count_allocated h (freed buf ∷ calls) = count_allocated h calls
count_allocated h (copied_to buf offset bytes_ ∷ calls) = count_allocated h calls
count_allocated h (copied_from buf offset size ∷ calls) = count_allocated h calls
count_allocated h (started kernel args ∷ calls) = count_allocated h calls

unfoldable pub count_freed : ℕ → List DriverCall → ℕ
count_freed h [] = 0
count_freed h (freed buf ∷ calls) = (if buf == h then 1 else 0) + count_freed h calls
count_freed h (opened dev ∷ calls) = count_freed h calls
count_freed h (closed dev ∷ calls) = count_freed h calls
count_freed h (allocated buf ∷ calls) = count_freed h calls
count_freed h (copied_to buf offset bytes_ ∷ calls) = count_freed h calls
count_freed h (copied_from buf offset size ∷ calls) = count_freed h calls
count_freed h (started kernel args ∷ calls) = count_freed h calls
