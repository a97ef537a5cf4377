-- ===== src/Backend/Accounts.antt =====
-- runtime/vortex_offload_backend.cpp: the account of the driver's buffers that the two maps hold.
use cxlmem_uring.Base.{
  ℕ, suc, ◌+◌, ◌%◌, ◌^◌, ◌<◌, ◌≡◌, refl, arith, Bool, true, Option, none, some, List, [], map, ◌==◌,
  if◌then◌else◌, find, Descending, Descending-assign, Descending-erase, Descending-replace, weight,
  weight-erase, weight-replace,
}
use cxlmem_uring.Device.{DriverCall, Device, count_allocated, count_freed}
use cxlmem_uring.Device.Buffers.{
  Buffer, CopyKind, malloc, place_buffer, free_buffer, memcpy_offset, copy_rc,
}
use cxlmem_uring.Device.Kernels.{
  Kernel, FileAnswers, kernel_load, place_kernel, kernel_load_file, load_opened, kernel_set_args,
}
use cxlmem_uring.Device.Session.{
  owned, kernel_launch-count, run_kernel_op-Accounts, run_kernel_op, Safe, set_args, Accounts,
}
use cxlmem_uring.Backend.{
  KernelArg, Backend, ArgPointer, converted, keep_buffer, free_found, copy_found, keep_kernel,
  set_args_found, launch_found,
}

-- The next numbers are above those in the maps, and `n` more do not wrap.
abbrev pub IsTidy : ℕ → Backend → Type 0
IsTidy n b =
    Descending b.next_buffer_id b.buffer_map
    × Descending b.next_kernel_id b.kernel_map
    × (b.next_buffer_id + n < 2 ^ 64)
    × (b.next_kernel_id + n < 2 ^ 64)

-- The driver gives a buffer for new arguments, or the kernel had none.
abbrev pub SafeArgs : Option Kernel → List ArgPointer → Option ℕ → Option ℕ → Bool → Type 0
SafeArgs none args alloc addr copied = Unit
SafeArgs (some kernel) args alloc addr copied =
    Safe kernel (set_args (map converted args) alloc addr copied)

pub IsTidy-less : (n : ℕ) (b : Backend) → IsTidy (suc n) b → IsTidy n b
IsTidy-less n b t = (t.0, t.1, omega arith, omega arith)

module _ (h : ℕ) where
  -- Whether a buffer of the backend is the driver's buffer `h`.
  abbrev pub held : Buffer → ℕ
  held buffer = if buffer.vx_buf == h then 1 else 0

  -- How many of the backend's handles are the driver's buffer `h`.
  abbrev pub backend_owned : Backend → ℕ
  backend_owned b = weight held b.buffer_map + weight (owned h) b.kernel_map

  -- An operation that keeps the backend tidy, and whose calls account for its handles.
  abbrev pub IsFine : ℕ → Backend → Backend → List DriverCall → Type 0
  IsFine n b b' calls =
      IsTidy n b'
      × (count_allocated h calls + backend_owned b ≡ count_freed h calls + backend_owned b')

  -- Calls that neither give nor take a buffer.
  abbrev pub Neutral : List DriverCall → Type 0
  Neutral calls = (count_allocated h calls ≡ 0) × (count_freed h calls ≡ 0)

  pub Neutral-IsFine :
      (n : ℕ) (b : Backend) (calls : List DriverCall)
      → IsTidy (suc n) b
      → Neutral calls
      → IsFine n b b calls
  Neutral-IsFine n b calls t c = (IsTidy-less n b t, omega arith)

  pub nothing-IsFine : (n : ℕ) (b : Backend) → IsTidy (suc n) b → IsFine n b b []
  unfolding count_allocated count_freed
  nothing-IsFine n b t = Neutral-IsFine n b [] t (refl, refl)

  -- The calls that gave a buffer, or took back what they gave.
  abbrev pub held_opt : Option Buffer → ℕ
  held_opt none = 0
  held_opt (some buffer) = held buffer

  abbrev pub owned_opt : Option Kernel → ℕ
  owned_opt none = 0
  owned_opt (some kernel) = owned h kernel

  pub keep_buffer-IsFine :
      (n : ℕ) (b : Backend) (buffer : Option Buffer) (calls : List DriverCall)
      → IsTidy (suc n) b
      → count_allocated h calls ≡ count_freed h calls + held_opt buffer
      → let (id, b', made) = keep_buffer b buffer calls in IsFine n b b' made
  unfolding keep_buffer
  keep_buffer-IsFine n b none calls t e = (IsTidy-less n b t, omega arith)
  keep_buffer-IsFine n b (some buffer) calls t e =
      let id = b.next_buffer_id in
      let next : (id + 1) % 2 ^ 64 ≡ id + 1 = omega arith in
      let added = Descending-assign id buffer b.buffer_map t.0 in
      rw (next, added)
        (((omega arith, t.0), t.1, omega arith, omega arith), unfold weight in omega arith)

  pub keep_kernel-IsFine :
      (n : ℕ) (b : Backend) (kernel : Option Kernel) (calls : List DriverCall)
      → IsTidy (suc n) b
      → count_allocated h calls ≡ count_freed h calls + owned_opt kernel
      → let (id, b', made) = keep_kernel b kernel calls in IsFine n b b' made
  unfolding keep_kernel
  keep_kernel-IsFine n b none calls t e = (IsTidy-less n b t, omega arith)
  keep_kernel-IsFine n b (some kernel) calls t e =
      let id = b.next_kernel_id in
      let next : (id + 1) % 2 ^ 64 ≡ id + 1 = omega arith in
      let added = Descending-assign id kernel b.kernel_map t.1 in
      rw (next, added)
        ((t.0, (omega arith, t.1), omega arith, omega arith), unfold weight in omega arith)

  pub malloc-given :
      (device : Option Device) (size : ℕ) (alloc addr : Option ℕ)
      → let (rc, buffer, calls) = malloc device true size alloc addr in
        count_allocated h calls ≡ count_freed h calls + held_opt buffer
  unfolding malloc place_buffer count_allocated count_freed
  malloc-given device size alloc addr = ground arith

  pub kernel_load-given :
      (device : Option Device) (binary : Bool) (size : ℕ) (upload addr : Option ℕ)
      → let (rc, kernel, calls) = kernel_load device true binary size upload addr in
        count_allocated h calls ≡ count_freed h calls + owned_opt kernel
  unfolding kernel_load place_kernel count_allocated count_freed
  kernel_load-given device binary size upload addr = ground arith

  pub kernel_load_file-given :
      (device : Option Device) (path : Bool) (files : FileAnswers) (upload addr : Option ℕ)
      → let loaded = kernel_load_file device true path files upload addr in
        count_allocated h loaded.calls ≡ count_freed h loaded.calls + owned_opt loaded.kernel
  unfolding kernel_load_file load_opened kernel_load place_kernel count_allocated count_freed
  kernel_load_file-given device path files upload addr = ground arith

  memcpy_offset-Neutral :
      (buffer : Buffer) (offset : ℕ) (host : Option (List ℕ)) (size : ℕ) (kind : CopyKind)
      (done : Bool)
      → Neutral (memcpy_offset (some buffer) offset host size kind done).1
  unfolding memcpy_offset copy_rc count_allocated count_freed
  memcpy_offset-Neutral buffer offset host size kind done = ground arith

  pub free_found-IsFine :
      (n : ℕ) (b : Backend) (id : ℕ) (buffer : Option Buffer)
      → IsTidy (suc n) b
      → find id b.buffer_map ≡ buffer
      → let (rc, b', made) = free_found b id buffer in IsFine n b b' made
  unfolding free_found free_buffer count_allocated count_freed
  free_found-IsFine n b id none t e = nothing-IsFine n b t
  free_found-IsFine n b id (some buffer) t e = (
    (Descending-erase id b.next_buffer_id b.buffer_map t.0, t.1, omega arith, omega arith),
    omega (arith, weight-erase held id b.next_buffer_id buffer b.buffer_map t.0 e),
  )

  pub copy_found-IsFine :
      (n : ℕ) (b : Backend) (buffer : Option Buffer) (host : Option (List ℕ)) (offset size : ℕ)
      (kind : CopyKind) (done : Bool)
      → IsTidy (suc n) b
      → let (rc, b', made) = copy_found b buffer host offset size kind done in IsFine n b b' made
  unfolding copy_found
  copy_found-IsFine n b none host offset size kind done t = nothing-IsFine n b t
  copy_found-IsFine n b (some buffer) host offset size kind done t =
      Neutral-IsFine n b (memcpy_offset (some buffer) offset host size kind done).1 t
        (memcpy_offset-Neutral buffer offset host size kind done)

  pub launch_found-IsFine :
      (n : ℕ) (b : Backend) (kernel : Option Kernel) (ran ended : Bool)
      → IsTidy (suc n) b
      → let (rc, b', made) = launch_found b kernel ran ended in IsFine n b b' made
  unfolding launch_found
  launch_found-IsFine n b none ran ended t = nothing-IsFine n b t
  launch_found-IsFine n b (some kernel) ran ended t =
      Neutral-IsFine n b _ t (kernel_launch-count h b.device kernel true ran ended)

  kernel_set_args-count :
      (kernel : Kernel) (args : List KernelArg) (alloc addr : Option ℕ) (copied : Bool)
      → Safe kernel (set_args args alloc addr copied)
      → let (rc, kernel', calls) = kernel_set_args kernel args alloc addr copied in
        count_allocated h calls + owned h kernel ≡ count_freed h calls + owned h kernel'
  unfolding Accounts run_kernel_op
  kernel_set_args-count kernel args alloc addr copied s =
      run_kernel_op-Accounts h kernel (set_args args alloc addr copied) s

  pub set_args_found-IsFine :
      (n : ℕ) (b : Backend) (id : ℕ) (kernel : Option Kernel) (args : List ArgPointer)
      (alloc addr : Option ℕ) (copied : Bool)
      → IsTidy (suc n) b
      → find id b.kernel_map ≡ kernel
      → SafeArgs kernel args alloc addr copied
      → let (rc, b', made) = set_args_found b id kernel (map converted args) alloc addr copied in
        IsFine n b b' made
  unfolding set_args_found
  set_args_found-IsFine n b id none args alloc addr copied t e s = nothing-IsFine n b t
  set_args_found-IsFine n b id (some kernel) args alloc addr copied t e s =
      let result = kernel_set_args kernel (map converted args) alloc addr copied in
      (
        (
          t.0,
          Descending-replace id b.next_kernel_id result.1 b.kernel_map t.1,
          omega arith,
          omega arith,
        ),
        omega (
          arith,
          weight-replace (owned h) id result.1 kernel b.kernel_map e,
          kernel_set_args-count kernel (map converted args) alloc addr copied s,
        ),
      )
