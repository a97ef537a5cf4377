-- ===== src/Tests/Kernels.antt =====
-- The theorems on the device interface at concrete inputs.
use cxlmem_uring.Base.{
  ◌^◌, ◌+◌, ◌≤◌, ◌≡◌, refl, arith, true, false, none, some, List, [], ◌∷◌, ◌++◌, All, length,
}
use cxlmem_uring.Device.{Device, success, memory_error, allocated, count_allocated, count_freed}
use cxlmem_uring.Device.Kernels.{
  KernelArg, Kernel, by_value, total_size, pack_args, arg_bytes, round_up, kernel_load,
  kernel_set_args, kernel_unload, place_kernel,
}
use cxlmem_uring.Device.Session.{
  KernelOp, set_args, launch, run_kernel_ops, run_kernel_op, Safe, AllSafe, kernel_session_balanced,
  failed_realloc_double_free,
}
use cxlmem_uring.Device.Packing.{Sized, pack_args_within}
use cxlmem_uring.Device.Submit.{submit_job_mmio}
use cxlmem_uring.Device.Accepted.{Found, submitted_job_checked}
use cxlmem_uring.Tests.{memory}

abbrev device : Device
device = record {
  vx_dev = 3;
  caps = record {
    num_cores = 4;
    num_warps_per_core = 4;
    num_threads_per_warp = 8;
    global_mem_size = 4294967296;
    local_mem_size = 65536;
    cache_line_size = 64;
    isa_flags = 7;
  };
  initialized = true;
  debug_enabled = false;
}

abbrev word : KernelArg
word = record {
  host_bytes = 1 ∷ 2 ∷ 3 ∷ 4 ∷ [];
  buffer_addr = 0;
  size = 4;
  alignment = 4;
  arg_type = by_value;
}

abbrev double : KernelArg
double = record {
  host_bytes = 1 ∷ 2 ∷ 3 ∷ 4 ∷ 5 ∷ 6 ∷ 7 ∷ 8 ∷ [];
  buffer_addr = 0;
  size = 8;
  alignment = 8;
  arg_type = by_value;
}

abbrev kernel : Kernel
kernel = record {
  kernel_buffer = some 21;
  args_buffer = none;
  kernel_addr = 4096;
  args_addr = 0;
  args = [];
}

abbrev with_args : Kernel
with_args = record kernel { args_buffer = some 22 }

loaded :
    kernel_load (some device) true true 100 (some 21) (some 4096)
    ≡ (success, some kernel, allocated 21 ∷ [])
unfolding kernel_load place_kernel
loaded = refl

abbrev ops : List KernelOp
ops =
    set_args (word ∷ []) (some 22) (some 8192) true
    ∷ launch (some device) true true true
    ∷ set_args (word ∷ word ∷ []) (some 23) (some 8192) true
    ∷ []

safe : AllSafe kernel ops
unfolding AllSafe Safe run_kernel_op kernel_set_args
safe = (tt, (tt, (tt, tt)))

kernel_session_balanced_example :
    let (last, used) = run_kernel_ops kernel ops in
    let all_calls = (allocated 21 ∷ []) ++ (used ++ (kernel_unload (some last)).1) in
    count_allocated 22 all_calls ≡ count_freed 22 all_calls
kernel_session_balanced_example =
    kernel_session_balanced 22 (some device) true true 100 (some 21) (some 4096) kernel
      (allocated 21 ∷ []) ops loaded safe

failed_realloc_double_free_example :
    let (rc, kernel', calls) = kernel_set_args with_args (word ∷ []) none none false in
    (rc ≡ memory_error) × (2 ≤ count_freed 22 (calls ++ (kernel_unload (some kernel')).1))
failed_realloc_double_free_example = failed_realloc_double_free with_args 22 word [] none false refl

sized : All (Sized 4) (word ∷ word ∷ [])
unfolding arg_bytes
sized = ((refl, omega arith, omega arith), ((refl, omega arith, omega arith), tt))

two_words : total_size (word ∷ word ∷ []) 0 + 4 ≤ 2 ^ 32
unfolding total_size round_up
two_words = omega arith

pack_args_within_example :
    All (λ w. w.0 + length w.1 ≤ total_size (word ∷ word ∷ []) 0) (pack_args (word ∷ word ∷ []) 0)
pack_args_within_example =
    pack_args_within (word ∷ word ∷ []) 2 4 refl (omega arith) sized (omega arith) two_words

submitted_job_checked_example :
    Found 4096 2
      (1 ∷ 2 ∷ 3 ∷ [])
      5
      3
      (submit_job_mmio 4096 2 (some (1 ∷ 2 ∷ 3 ∷ [])) 3 5 0 1 memory)
submitted_job_checked_example =
    submitted_job_checked 4096 2 (1 ∷ 2 ∷ 3 ∷ []) 5 0 1 memory 3 (omega arith) (omega arith)
      (omega arith) (omega arith) (omega arith) (omega arith) (omega arith)
      (omega arith, (omega arith, (omega arith, tt))) (omega arith)
