-- ===== src/Tests/Passes.antt =====
-- The theorems on the offload backend and the two passes at concrete inputs.
use cxlmem_uring.Base.{
  ℕ, ◌*◌, ◌%◌, ◌^◌, ◌≡◌, ◌≢◌, ◌⊎◌, refl, arith, true, false, none, some, List, [], ◌∷◌, ◌++◌,
  get_elem?, find, assign, modify,
}
use cxlmem_uring.Device.{DeviceCaps, device_init, count_allocated, count_freed}
use cxlmem_uring.Backend.{
  Backend, new_backend, allocate_device_memory, initialize, load_kernel, free_device_memory,
}
use cxlmem_uring.Device.Buffers.{malloc}
use cxlmem_uring.Device.Kernels.{kernel_load}
use cxlmem_uring.Device.Session.{Safe}
use cxlmem_uring.Backend.Api.{
  ApiCall, init, allocate, free, load, set_args, launch, api_step, api_run, backend_cleanup,
  backend_init, backend_malloc, backend_free, backend_load_kernel, backend_set_args,
}
use cxlmem_uring.Backend.Api.Balanced.{AllSafe, backend_run_balanced}
use cxlmem_uring.Backend.Api.Numbers.{Refused, Granted, Unnumbered, Numbered, allocate-Numbered}
use cxlmem_uring.Sim.{sim_load_kernel, upload_data, initial_latency}
use cxlmem_uring.Sim.Run.{sim_run}
use cxlmem_uring.TwoPass.{
  Context, RegionState, LaunchAnswers, disabled, no_knobs, Knobs, fresh_region,
  twopass_launch_kernel, set_injection_mode, upload_and_run, run_region, work_start, work_end,
  set_profiling_mode,
}
use cxlmem_uring.TwoPass.Sync.{sync_point, inject}
use cxlmem_uring.TwoPass.Measured.{timed, DelaySound, measured_region}
use cxlmem_uring.Profile.{codes, RegionProfile}
use cxlmem_uring.Tests.{memory}

abbrev caps : DeviceCaps
caps = record {
  num_cores = 4;
  num_warps_per_core = 4;
  num_threads_per_warp = 8;
  global_mem_size = 4294967296;
  local_mem_size = 65536;
  cache_line_size = 64;
  isa_flags = 7;
}

-- Two buffers, of which one is freed, and a kernel with arguments, all of the driver's numbers.
abbrev calls : List ApiCall
calls =
    init (some 3) caps
    ∷ allocate 4096 (some 11) (some 65536)
    ∷ allocate 64 (some 12) (some 131072)
    ∷ free 1
    ∷ load true 512 (some 13) (some 196608)
    ∷ set_args 1 (record { pointed = 1 ∷ 2 ∷ 3 ∷ 4 ∷ []; as_buffer = 0; size = 4 } ∷ []) (some 14)
        (some 262144) true
    ∷ launch 1 true true
    ∷ []

calls-AllSafe : AllSafe none calls
unfolding AllSafe api_step backend_init initialize device_init backend_malloc backend_free
    backend_load_kernel find load_kernel free_device_memory allocate_device_memory malloc assign
    kernel_load Safe backend_set_args
calls-AllSafe = (tt, (tt, (tt, (tt, (tt, (tt, (tt, tt)))))))

backend_run_balanced_example :
    let (last, made) = api_run none calls in
    let all_made = made ++ (backend_cleanup last).1 in
    count_allocated 12 all_made ≡ count_freed 12 all_made
backend_run_balanced_example = backend_run_balanced 12 calls (omega arith) calls-AllSafe

abbrev backend : Backend
backend = record new_backend {
  device = some (record { vx_dev = 3; caps = caps; initialized = true; debug_enabled = false });
  buffer_map = (4, record { vx_buf = 11; dev_addr = 65536; size = 4096 }) ∷ [];
  next_buffer_id = 5;
  initialized = true;
}

allocate-Numbered_example :
    (Refused backend 64 (some 12) (some 131072)
      × Unnumbered backend (allocate_device_memory backend 64 (some 12) (some 131072)))
    ⊎ ((buf place : ℕ) × Granted backend 64 (some 12) (some 131072) buf place
        × Numbered backend 64 buf place (allocate_device_memory backend 64 (some 12) (some 131072)))
allocate-Numbered_example =
    allocate-Numbered backend 10 64 (some 12) (some 131072)
      ((omega arith, tt), tt, omega arith, omega arith) (omega arith)

abbrev context : Context
context = record {
  mode = disabled;
  regions = fresh_region 0 none ∷ fresh_region 1 (some (codes "gather")) ∷ [];
  regions_capacity = 64;
  current_region_id = 0;
  host_work_start = (0, 0);
  host_work_active = false;
  verilator_sim = record {
    vortex_model = false;
    sim_memory = memory;
    sim_memory_size = 536870912;
    cxl_latency_cycles = 33;
    total_cycles = 0;
    memory_stall_cycles = 0;
    cache_hits = 0;
    cache_misses = 0;
    latency_model = initial_latency;
  };
  cxl_latency_ns = 165;
}

abbrev estimated : LaunchAnswers
estimated = record {
  load_rc = none;
  upload_rc = none;
  run_answers = none;
  kernel_binary = 1 ∷ 2 ∷ [];
  binary_size = 2;
  args = 7 ∷ [];
  args_size = 1;
}

-- A conversion at 200 MHz, within 2 ^ 63.
abbrev five_ns : ℕ → ℕ
five_ns c = c * 5 % 2 ^ 63

abbrev jit : RegionState → Knobs
jit r = no_knobs

launch_done :
    (twopass_launch_kernel five_ns (timed context 1 (10, 999999000) (11, 4000)) 1 estimated).0 ≡ 0
unfolding twopass_launch_kernel upload_and_run run_region work_start work_end set_profiling_mode
    modify sim_load_kernel upload_data sim_run
launch_done = refl

measured_region_example :
    let launched =
      (twopass_launch_kernel five_ns (timed context 1 (10, 999999000) (11, 4000)) 1 estimated).1 in
    let synced = (sync_point jit launched 1).1 in
    (r' : RegionState) × (get_elem? synced.regions 1 ≡ some r')
    × (r'.host_independent_work_ns ≡ 5000)
    × DelaySound r'
    × ((sync_point jit (set_injection_mode synced).1 1).0 ≡ inject r')
    × ((j : ℕ) → j ≢ 1 → get_elem? synced.regions j ≡ get_elem? context.regions j)
measured_region_example =
    measured_region five_ns jit context 1 (fresh_region 1 (some (codes "gather"))) 10 999999000 11
      4000 5000 estimated (λ c. omega arith) refl (omega arith) (omega arith) (omega arith)
      (omega arith) launch_done

abbrev saved_region : RegionProfile
saved_region = record {
  region_id = 7;
  region_name = some (codes "gather");
  host_independent_work_ns = 5000;
  total_cycles = 290000;
  total_time_ns = 1450000;
  compute_cycles = 125000;
  memory_stall_cycles = 165000;
  cache_hits = 5000;
  cache_misses = 5000;
  injection_delay_ns = 1445000;
  latency_hidden = false;
  optimal_prefetch_depth = 4;
  optimal_batch_size = 16;
  optimal_traversal_depth = 2;
  optimal_pipeline_distance = 4;
  split_text = codes "0.5000";
  should_offload = true;
  jit_reason_bits = 3;
}
