-- ===== src/Device/Kernels.antt =====
-- runtime/vortex_device.cpp, kernels: loading, arguments, launch and release.
use cxlmem_uring.Base.{
  ℕ, ◌+◌, ◌-◌, ◌%◌, ◌^◌, Bool, true, not, ◌&&◌, Option, none, some, List, [], ◌∷◌, ◌++◌, take,
  length, ◌==◌, if◌then◌else◌,
}
use cxlmem_uring.Memory.{Memory, bytes, write, read}
use cxlmem_uring.Device.{
  DeviceRc, success, memory_error, kernel_error, launch_error, timeout_error, invalid_error,
  DriverCall, allocated, freed, copied_to, started, Device, usable,
}

pub data ArgType : Type 0 where
  by_value by_buffer by_local : ArgType

-- `vortex_kernel_arg_t`; of what `host_ptr` points to, the bytes, and the device address of the
-- buffer where it is one.
pub record KernelArg : Type 0 where
  pub host_bytes : List ℕ
  pub buffer_addr : ℕ
  pub size : ℕ
  pub alignment : ℕ
  pub arg_type : ArgType

-- `struct vortex_kernel`; `none` is a null handle.
pub record Kernel : Type 0 where
  pub kernel_buffer : Option ℕ
  pub args_buffer : Option ℕ
  pub kernel_addr : ℕ
  pub args_addr : ℕ
  pub args : List KernelArg

unfoldable pub place_kernel : Option ℕ → Option ℕ → DeviceRc × Option Kernel × List DriverCall
place_kernel none addr = (kernel_error, none, [])
place_kernel (some buf) none = (kernel_error, none, allocated buf ∷ freed buf ∷ [])
place_kernel (some buf) (some addr) = (
  success,
  some (record {
    kernel_buffer = some buf;
    args_buffer = none;
    kernel_addr = addr;
    args_addr = 0;
    args = [];
  }),
  allocated buf ∷ [],
)

-- `out` is whether the caller gave a place for the kernel, `binary` whether there is one.
unfoldable pub kernel_load :
    Option Device
    → Bool
    → Bool
    → ℕ
    → Option ℕ
    → Option ℕ
    → DeviceRc × Option Kernel × List DriverCall
unfolding usable place_kernel
kernel_load device out binary binary_size upload addr =
    elim (usable device (out && binary && not (binary_size == 0))) [
      | success ↦ place_kernel upload addr
      | other ↦ (other, none, [])
    ]

-- What the file system answers: the descriptor, the size by `fstat`, and the bytes read.
pub record FileAnswers : Type 0 where
  pub fd : Option ℕ
  pub stat_size : Option ℕ
  pub bytes_read : List ℕ

pub data FileCall : Type 0 where
  file_opened file_closed : (fd : ℕ) → FileCall

pub record KernelLoaded : Type 0 where
  pub rc : DeviceRc
  pub kernel : Option Kernel
  pub calls : List DriverCall
  pub files : List FileCall

unfoldable pub load_opened :
    Option Device → ℕ → Option ℕ → List ℕ → Option ℕ → Option ℕ → KernelLoaded
unfolding kernel_load
load_opened device fd none bytes_read upload addr = record {
  rc = kernel_error;
  kernel = none;
  calls = [];
  files = file_opened fd ∷ file_closed fd ∷ [];
}
load_opened device fd (some size) bytes_read upload addr =
    let (rc, kernel, calls) =
      if length bytes_read == size
      then kernel_load device true true size upload addr
      else (kernel_error, none, []) in
    record { rc = rc; kernel = kernel; calls = calls; files = file_opened fd ∷ file_closed fd ∷ [] }

unfoldable pub kernel_load_file :
    Option Device → Bool → Bool → FileAnswers → Option ℕ → Option ℕ → KernelLoaded
unfolding load_opened
kernel_load_file none out path files upload addr = record {
  rc = invalid_error;
  kernel = none;
  calls = [];
  files = [];
}
kernel_load_file (some device) out path files upload addr =
    if not (out && path)
    then record { rc = invalid_error; kernel = none; calls = []; files = [] }
    else elim files.fd [
      | none ↦ record { rc = kernel_error; kernel = none; calls = []; files = [] }
      | some fd ↦ load_opened (some device) fd files.stat_size files.bytes_read upload addr
    ]

-- `(x + a - 1) & ~(a - 1)` for a power of two `a`. The mask is one of 32 bits, as `alignment` is,
-- so that the upper half of the sum is lost.
unfoldable pub round_up : ℕ → ℕ → ℕ
round_up x a = let y = (x + a + 2 ^ 64 - 1) % 2 ^ 64 % 2 ^ 32 in y - y % a

-- The first loop: the size of the argument buffer.
unfoldable pub total_size : List KernelArg → ℕ → ℕ
total_size [] total = total
total_size (arg ∷ args) total = total_size args ((total + round_up arg.size arg.alignment) % 2 ^ 64)

unfoldable pub arg_bytes : KernelArg → List ℕ
arg_bytes arg = elim arg.arg_type [
  | by_value ↦ take arg.size arg.host_bytes
  | by_buffer ↦ bytes 8 arg.buffer_addr
  | by_local ↦ []
]

-- The second loop: the writes into the buffer, each with its offset.
unfoldable pub pack_args : List KernelArg → ℕ → List (ℕ × List ℕ)
pack_args [] offset = []
pack_args (arg ∷ args) offset =
    let at_ = round_up offset arg.alignment in
    (at_, arg_bytes arg) ∷ pack_args args ((at_ + arg.size) % 2 ^ 64)

unfoldable pub packed : List (ℕ × List ℕ) → Memory → Memory
packed [] m = m
packed ((offset, bs) ∷ writes) m = packed writes (write offset bs m)

-- The bytes of the buffer, from one that is zero.
unfoldable pub arg_data : List KernelArg → List ℕ
arg_data args = read (total_size args 0) 0 (packed (pack_args args 0) (λ i. 0))

unfoldable pub release : Option ℕ → List DriverCall
release none = []
release (some buf) = freed buf ∷ []

-- The part of `vortex_kernel_set_args` after the old buffer is released. A failed `vx_mem_alloc`
-- leaves its result as it was, as the file's own stub does.
unfoldable pub place_args :
    Kernel → List KernelArg → Option ℕ → Option ℕ → Bool → DeviceRc × Kernel × List DriverCall
place_args kernel args none addr copied = (memory_error, record kernel { args = args }, [])
place_args kernel args (some buf) none copied = (
  memory_error,
  record kernel { args = args; args_buffer = none },
  allocated buf ∷ freed buf ∷ [],
)
place_args kernel args (some buf) (some addr) copied = (
  if copied then success else memory_error,
  record kernel { args = args; args_buffer = some buf; args_addr = addr },
  allocated buf ∷ (if copied then copied_to buf 0 (arg_data args) ∷ [] else []),
)

unfoldable pub kernel_set_args :
    Kernel → List KernelArg → Option ℕ → Option ℕ → Bool → DeviceRc × Kernel × List DriverCall
unfolding place_args release
kernel_set_args kernel [] alloc addr copied = (invalid_error, kernel, [])
kernel_set_args kernel (arg ∷ args) alloc addr copied =
    let (rc, kernel', calls) = place_args kernel (arg ∷ args) alloc addr copied in
    (rc, kernel', release kernel.args_buffer ++ calls)

unfoldable pub kernel_unload : Option Kernel → DeviceRc × List DriverCall
unfolding release
kernel_unload none = (invalid_error, [])
kernel_unload (some kernel) = (success, release kernel.kernel_buffer ++ release kernel.args_buffer)

-- `ran` and `ended` are the driver's answers to the start and to the wait.
unfoldable pub kernel_launch :
    Option Device → Option Kernel → Bool → Bool → Bool → DeviceRc × List DriverCall
kernel_launch device none params ran ended = (invalid_error, [])
kernel_launch device (some kernel) params ran ended = elim (usable device params) [
  | success ↦ if not ran then (launch_error, []) else (
    if ended then success else timeout_error,
    started kernel.kernel_buffer kernel.args_buffer ∷ [],
  )
  | other ↦ (other, [])
]

unfoldable pub device_wait : Option Device → Bool → DeviceRc
device_wait device ended = elim (usable device true) [
  | success ↦ if ended then success else timeout_error
  | other ↦ other
]
