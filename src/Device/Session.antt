-- ===== src/Device/Session.antt =====
-- runtime/vortex_device.cpp, the driver's buffers over the life of a kernel.
use cxlmem_uring.Base.{
  ℕ, ◌+◌, ◌≤◌, ◌≡◌, refl, Bool, true, false, Option, none, some, List, [], ◌∷◌, ◌++◌, ◌==◌,
  if◌then◌else◌, arith,
}
use cxlmem_uring.Device.{
  success, memory_error, DriverCall, opened, closed, allocated, freed, copied_to, copied_from,
  started, Device, count_allocated, count_freed,
}
use cxlmem_uring.Device.Kernels.{
  place_kernel, KernelArg, Kernel, kernel_load, release, place_args, kernel_set_args, kernel_unload,
  kernel_launch,
}

-- What a program does with a kernel between loading and unloading it.
pub data KernelOp : Type 0 where
  set_args : (args : List KernelArg) (alloc addr : Option ℕ) (copied : Bool) → KernelOp
  launch : (device : Option Device) (params ran ended : Bool) → KernelOp

unfoldable pub run_kernel_op : Kernel → KernelOp → Kernel × List DriverCall
run_kernel_op kernel (set_args args alloc addr copied) =
    let (rc, kernel', calls) = kernel_set_args kernel args alloc addr copied in (kernel', calls)
run_kernel_op kernel (launch device params ran ended) =
    (kernel, (kernel_launch device (some kernel) params ran ended).1)

unfoldable pub run_kernel_ops : Kernel → List KernelOp → Kernel × List DriverCall
run_kernel_ops kernel [] = (kernel, [])
run_kernel_ops kernel (op ∷ ops) =
    let (kernel', calls) = run_kernel_op kernel op in
    let (last, more) = run_kernel_ops kernel' ops in (last, calls ++ more)

-- The driver gives a buffer for new arguments, or there were none before.
unfoldable pub Safe : Kernel → KernelOp → Type 0
Safe kernel (set_args args none addr copied) = kernel.args_buffer ≡ none
Safe kernel (set_args args (some buf) addr copied) = Unit
Safe kernel (launch device params ran ended) = Unit

unfoldable pub AllSafe : Kernel → List KernelOp → Type 0
AllSafe kernel [] = Unit
AllSafe kernel (op ∷ ops) = Safe kernel op × AllSafe (run_kernel_op kernel op).0 ops

-- Whether a handle of the kernel is the buffer `h`.
abbrev pub holds : ℕ → Option ℕ → ℕ
holds h none = 0
holds h (some buf) = if buf == h then 1 else 0

abbrev pub owned : ℕ → Kernel → ℕ
owned h kernel = holds h kernel.kernel_buffer + holds h kernel.args_buffer

pub count_allocated-append :
    (h : ℕ) (xs ys : List DriverCall)
    → count_allocated h (xs ++ ys) ≡ count_allocated h xs + count_allocated h ys
unfolding count_allocated
count_allocated-append h [] ys = omega arith
count_allocated-append h (opened dev ∷ xs) ys = count_allocated-append h xs ys
count_allocated-append h (closed dev ∷ xs) ys = count_allocated-append h xs ys
count_allocated-append h (allocated buf ∷ xs) ys = omega (arith, count_allocated-append h xs ys)
count_allocated-append h (freed buf ∷ xs) ys = count_allocated-append h xs ys
count_allocated-append h (copied_to buf offset bs ∷ xs) ys = count_allocated-append h xs ys
count_allocated-append h (copied_from buf offset size ∷ xs) ys = count_allocated-append h xs ys
count_allocated-append h (started kernel args ∷ xs) ys = count_allocated-append h xs ys

pub count_freed-append :
    (h : ℕ) (xs ys : List DriverCall)
    → count_freed h (xs ++ ys) ≡ count_freed h xs + count_freed h ys
unfolding count_freed
count_freed-append h [] ys = omega arith
count_freed-append h (opened dev ∷ xs) ys = count_freed-append h xs ys
count_freed-append h (closed dev ∷ xs) ys = count_freed-append h xs ys
count_freed-append h (allocated buf ∷ xs) ys = count_freed-append h xs ys
count_freed-append h (freed buf ∷ xs) ys = omega (arith, count_freed-append h xs ys)
count_freed-append h (copied_to buf offset bs ∷ xs) ys = count_freed-append h xs ys
count_freed-append h (copied_from buf offset size ∷ xs) ys = count_freed-append h xs ys
count_freed-append h (started kernel args ∷ xs) ys = count_freed-append h xs ys

pub release-count :
    (h : ℕ) (o : Option ℕ)
    → (count_freed h (release o) ≡ holds h o) × (count_allocated h (release o) ≡ 0)
unfolding release count_freed count_allocated
release-count h none = (refl, refl)
release-count h (some buf) = (omega arith, refl)

-- An operation's calls account for what the kernel holds after it.
unfoldable pub Accounts : ℕ → Kernel → Kernel × List DriverCall → Type 0
Accounts h kernel (kernel', calls) =
    count_allocated h calls + owned h kernel ≡ count_freed h calls + owned h kernel'

place_args-Accounts :
    (h : ℕ) (kernel : Kernel) (args : List KernelArg) (alloc addr : Option ℕ) (copied : Bool)
    → Safe kernel (set_args args alloc addr copied)
    → let (rc, kernel', calls) = place_args kernel args alloc addr copied in
      count_allocated h calls + holds h kernel.kernel_buffer ≡ count_freed h calls + owned h kernel'
unfolding place_args Safe count_allocated count_freed
place_args-Accounts h kernel args none addr copied s = rw s (omega arith)
place_args-Accounts h kernel args (some buf) none copied s = omega arith
place_args-Accounts h kernel args (some buf) (some addr) true s = omega arith
place_args-Accounts h kernel args (some buf) (some addr) false s = omega arith

pub kernel_launch-count :
    (h : ℕ) (device : Option Device) (kernel : Kernel) (params ran ended : Bool)
    → (count_allocated h (kernel_launch device (some kernel) params ran ended).1 ≡ 0)
      × (count_freed h (kernel_launch device (some kernel) params ran ended).1 ≡ 0)
unfolding kernel_launch count_allocated count_freed
kernel_launch-count h device kernel params ran ended = ground arith

pub run_kernel_op-Accounts :
    (h : ℕ) (kernel : Kernel) (op : KernelOp)
    → Safe kernel op
    → Accounts h kernel (run_kernel_op kernel op)
unfolding Accounts run_kernel_op kernel_set_args count_allocated count_freed
run_kernel_op-Accounts h kernel (set_args [] alloc addr copied) s = omega arith
run_kernel_op-Accounts h kernel (set_args (arg ∷ args) alloc addr copied) s =
    let placed = place_args kernel (arg ∷ args) alloc addr copied in
    omega (
      arith,
      count_allocated-append h (release kernel.args_buffer) placed.2,
      count_freed-append h (release kernel.args_buffer) placed.2,
      release-count h kernel.args_buffer,
      place_args-Accounts h kernel (arg ∷ args) alloc addr copied s,
    )
run_kernel_op-Accounts h kernel (launch device params ran ended) s =
    omega (arith, kernel_launch-count h device kernel params ran ended)

run_kernel_ops-Accounts :
    (h : ℕ) (kernel : Kernel) (ops : List KernelOp)
    → AllSafe kernel ops
    → Accounts h kernel (run_kernel_ops kernel ops)
unfolding Accounts run_kernel_ops AllSafe count_allocated count_freed
run_kernel_ops-Accounts h kernel [] s = omega arith
run_kernel_ops-Accounts h kernel (op ∷ ops) s =
    let now = run_kernel_op kernel op in
    let later = run_kernel_ops now.0 ops in
    omega (
      arith,
      count_allocated-append h now.1 later.1,
      count_freed-append h now.1 later.1,
      run_kernel_op-Accounts h kernel op s.0,
      run_kernel_ops-Accounts h now.0 ops s.1,
    )

kernel_load-owned :
    (h : ℕ) (device : Option Device) (out binary : Bool) (size : ℕ) (upload addr : Option ℕ)
    (kernel : Kernel) (calls : List DriverCall)
    → kernel_load device out binary size upload addr ≡ (success, some kernel, calls)
    → (count_allocated h calls ≡ owned h kernel) × (count_freed h calls ≡ 0)
unfolding kernel_load place_kernel count_allocated count_freed
kernel_load-owned h device out binary size upload addr kernel calls e = ground arith

-- For a kernel that was loaded, any sequence of launches and argument settings after that, with any
-- answers of the driver but that it gives a buffer for new arguments wherever the kernel has old
-- ones, and the unloading at the end: the driver has taken back every buffer as often as it gave it.
pub kernel_session_balanced :
    (h : ℕ) (device : Option Device) (out binary : Bool) (size : ℕ) (upload addr : Option ℕ)
    (kernel : Kernel) (calls : List DriverCall) (ops : List KernelOp)
    → kernel_load device out binary size upload addr ≡ (success, some kernel, calls)
    → AllSafe kernel ops
    → let (last, used) = run_kernel_ops kernel ops in
      let all_calls = calls ++ (used ++ (kernel_unload (some last)).1) in
      count_allocated h all_calls ≡ count_freed h all_calls
unfolding kernel_unload Accounts
kernel_session_balanced h device out binary size upload addr kernel calls ops e s = omega (
  arith,
  kernel_load-owned h device out binary size upload addr kernel calls e,
  count_allocated-append h calls (used ++ unloaded),
  count_freed-append h calls (used ++ unloaded),
  count_allocated-append h used unloaded,
  count_freed-append h used unloaded,
  count_allocated-append h (release last.kernel_buffer) (release last.args_buffer),
  count_freed-append h (release last.kernel_buffer) (release last.args_buffer),
  release-count h last.kernel_buffer,
  release-count h last.args_buffer,
  run_kernel_ops-Accounts h kernel ops s,
)
  where
    last : Kernel
    last = (run_kernel_ops kernel ops).0

    used : List DriverCall
    used = (run_kernel_ops kernel ops).1

    unloaded : List DriverCall
    unloaded = release last.kernel_buffer ++ release last.args_buffer

-- For a kernel that has an argument buffer: when the driver gives no buffer for new arguments, one
-- or more, the answer is a memory error, and the old buffer is freed at least twice by that call
-- and the unloading of the kernel.
pub failed_realloc_double_free :
    (kernel : Kernel) (buf : ℕ) (arg : KernelArg) (args : List KernelArg) (addr : Option ℕ)
    (copied : Bool)
    → kernel.args_buffer ≡ some buf
    → let (rc, kernel', calls) = kernel_set_args kernel (arg ∷ args) none addr copied in
      (rc ≡ memory_error) × (2 ≤ count_freed buf (calls ++ (kernel_unload (some kernel')).1))
unfolding kernel_set_args place_args kernel_unload
failed_realloc_double_free kernel buf arg args addr copied e = (
  refl,
  omega (
    arith,
    count_freed-append buf (release kernel.args_buffer ++ []) unloaded,
    count_freed-append buf (release kernel.args_buffer) [],
    count_freed-append buf (release kernel.kernel_buffer) (release kernel.args_buffer),
    release-count buf kernel.args_buffer,
    mine,
  ),
)
  where
    unloaded : List DriverCall
    unloaded = release kernel.kernel_buffer ++ release kernel.args_buffer

    mine : holds buf kernel.args_buffer ≡ 1
    mine = rw e (ground arith)
