-- ===== src/Gpu/Life.antt =====
-- runtime/src/Type2GpuDevice.cpp, the life of a device: mapping BAR0 and the shared memory, and
-- giving them back. What the operating system answers is an argument; an `object` is a block of
-- `malloc`.
use cxlmem_uring.Base.{
  ℕ, ◌+◌, ◌-◌, ◌*◌, ◌^◌, Bool, true, false, not, ◌||◌, Option, none, some, List, [], ◌∷◌, ◌++◌,
  ◌==◌, if◌then◌else◌,
}
use cxlmem_uring.Memory.{Memory, read, write}
use cxlmem_uring.Mmio.Open.{object, mapping, file, OsCall, taken, given_back}
use cxlmem_uring.Gpu.{GpuDevice}

-- `MAP_FAILED`.
abbrev pub map_failed : ℕ
map_failed = 2 ^ 64 - 1

abbrev pub bar0_size : ℕ
bar0_size = 2 * 1024 * 1024

abbrev pub bar2_size : ℕ
bar2_size = 128 * 1024

-- The device as it is constructed.
abbrev pub new_device : GpuDevice
new_device = record {
  bar0_fd = none;
  bar0_base = 0;
  dax_fd = none;
  shared_mem = 0;
  shared_mem_size = 16 * 1024 * 1024;
  kernel_cycles = 0;
  kernel_instructions = 0;
}

-- The answers to `open` and `mmap` for each of the three files, and to `malloc`.
pub record GpuOs : Type 0 where
  pub bar0_fd : Option ℕ
  pub bar0_map : Option ℕ
  pub dax_fd : Option ℕ
  pub dax_map : Option ℕ
  pub bar2_fd : Option ℕ
  pub bar2_map : Option ℕ
  pub block : Option ℕ

-- A device, the answer of the operation, and what was taken and given back.
abbrev pub Outcome : Type 0
Outcome = GpuDevice × Bool × List OsCall

-- `map_bar0`. A mapping that fails leaves `MAP_FAILED` in the field.
unfoldable pub map_bar0 : GpuDevice → Option ℕ → Option ℕ → Outcome
map_bar0 gpu none map_at = (record gpu { bar0_fd = none }, false, [])
map_bar0 gpu (some fd) none = (
  record gpu { bar0_fd = none; bar0_base = map_failed },
  false,
  taken (file fd) ∷ given_back (file fd) ∷ [],
)
map_bar0 gpu (some fd) (some a) = (
  record gpu { bar0_fd = some fd; bar0_base = a },
  true,
  taken (file fd) ∷ taken (mapping a bar0_size) ∷ [],
)

-- The last choice of `map_dax`: memory of the host.
unfoldable pub map_block : GpuDevice → Option ℕ → Outcome
map_block gpu none = (record gpu { shared_mem = 0 }, false, [])
map_block gpu (some p) = (record gpu { shared_mem = p }, true, taken (object p) ∷ [])

-- The second choice: BAR2.
unfoldable pub map_bar2 : GpuDevice → Option ℕ → Option ℕ → Option ℕ → Outcome
unfolding map_block
map_bar2 gpu none map_at block = map_block gpu block
map_bar2 gpu (some fd) none block =
    let (gpu', done, calls) = map_block gpu block in
    (gpu', done, taken (file fd) ∷ given_back (file fd) ∷ calls)
map_bar2 gpu (some fd) (some a) block = (
  record gpu { shared_mem = a; dax_fd = some fd; shared_mem_size = bar2_size },
  true,
  taken (file fd) ∷ taken (mapping a bar2_size) ∷ [],
)

-- `map_dax`, with the answers for the DAX device first.
unfoldable pub map_dax : GpuDevice → Option ℕ → Option ℕ → GpuOs → Outcome
unfolding map_bar2
map_dax gpu none map_at os = map_bar2 (record gpu { dax_fd = none }) os.bar2_fd os.bar2_map os.block
map_dax gpu (some fd) none os =
    let (gpu', done, calls) =
      map_bar2 (record gpu { dax_fd = none }) os.bar2_fd os.bar2_map os.block in
    (gpu', done, taken (file fd) ∷ given_back (file fd) ∷ calls)
map_dax gpu (some fd) (some a) os = (
  record gpu { dax_fd = some fd; shared_mem = a },
  true,
  taken (file fd) ∷ taken (mapping a gpu.shared_mem_size) ∷ [],
)

-- `initialize`; what `map_dax` answers is only printed.
unfoldable pub initialize : GpuDevice → GpuOs → Outcome
unfolding map_bar0 map_dax
initialize gpu os =
    let (gpu', mapped, calls) = map_bar0 gpu os.bar0_fd os.bar0_map in
    let (gpu'', done, more) = map_dax gpu' os.dax_fd os.dax_map os in
    if mapped then (gpu'', true, calls ++ more) else (gpu', false, calls)

unfoldable pub close_fd : Option ℕ → List OsCall
close_fd none = []
close_fd (some fd) = given_back (file fd) ∷ []

unfoldable pub release_shared : GpuDevice → Option ℕ → List OsCall
release_shared gpu none =
    if gpu.shared_mem == 0 then [] else given_back (object gpu.shared_mem) ∷ []
release_shared gpu (some fd) =
    if gpu.shared_mem == 0 then [] else given_back (mapping gpu.shared_mem gpu.shared_mem_size) ∷ []

-- `shutdown`, which the destructor calls too.
unfoldable pub shutdown : GpuDevice → GpuDevice × List OsCall
unfolding close_fd release_shared
shutdown gpu = (
  record gpu { bar0_base = 0; bar0_fd = none; shared_mem = 0; dax_fd = none },
  (if gpu.bar0_base == 0 then [] else given_back (mapping gpu.bar0_base bar0_size) ∷ [])
      ++ (close_fd gpu.bar0_fd ++ (release_shared gpu gpu.dax_fd ++ close_fd gpu.dax_fd)),
)

unfoldable pub is_available : GpuDevice → Bool
is_available gpu = not (gpu.bar0_base == 0) || not (gpu.shared_mem == 0)

-- `create_type2_gpu_device`, whose arguments are not used. A device that was not initialised is
-- destroyed.
unfoldable pub create_type2_gpu_device : GpuOs → Option GpuDevice × List OsCall
unfolding initialize shutdown
create_type2_gpu_device os =
    let (gpu, done, calls) = initialize new_device os in
    if done then (some gpu, calls) else (none, calls ++ (shutdown gpu).1)

unfoldable pub allocate_shared : GpuDevice → ℕ → ℕ
allocate_shared gpu size = if gpu.shared_mem == 0 then 0 else gpu.shared_mem

unfoldable pub allocate_device : GpuDevice → ℕ → ℕ
allocate_device gpu size = if gpu.shared_mem == 0 then 0 else gpu.shared_mem + 8 * 1024 * 1024

unfoldable pub copy_host_to_device : ℕ → ℕ → ℕ → Memory → Bool × Memory
copy_host_to_device dev_ptr host_ptr size m =
    if dev_ptr == 0 || host_ptr == 0
    then (false, m)
    else (true, write dev_ptr (read size host_ptr m) m)

unfoldable pub copy_device_to_host : ℕ → ℕ → ℕ → Memory → Bool × Memory
copy_device_to_host host_ptr dev_ptr size m =
    if host_ptr == 0 || dev_ptr == 0
    then (false, m)
    else (true, write host_ptr (read size dev_ptr m) m)
