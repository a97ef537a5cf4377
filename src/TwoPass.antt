-- ===== src/TwoPass.antt =====
-- runtime/vortex_verilator_sim.cpp, the two-pass runtime: the regions that a profiling pass measures
-- and that an injection pass delays. The JIT's choice of knobs, which computes with doubles, is a
-- parameter, and so is the conversion of cycles.
pub mod Sync
pub mod Regions
pub mod Measured
use cxlmem_uring.Base.{
  ℕ, ◌+◌, ◌-◌, ◌*◌, ◌/◌, ◌%◌, ◌^◌, Bool, true, false, not, ◌&&◌, ◌||◌, Option, none, some, List, [],
  ◌∷◌, ◌++◌, length, ltb, leb, ◌==◌, if◌then◌else◌, get_elem?, modify,
}
use cxlmem_uring.Sim.{
  Sim, SimAnswers, minus_one, sim_init, sim_load_kernel, upload_data, cxl_base_latency_ns,
}
use cxlmem_uring.Sim.Run.{SimTiming, RunAnswers, no_timing, sim_run}

pub data TwoPassMode : Type 0 where
  disabled profiling injection : TwoPassMode

-- What `cira_jit_decide` sets.
pub record Knobs : Type 0 where
  pub batch_size : ℕ
  pub traversal_depth : ℕ
  pub pipeline_distance : ℕ
  pub should_offload : Bool
  pub reason_bits : ℕ

abbrev pub no_knobs : Knobs
no_knobs = record {
  batch_size = 0;
  traversal_depth = 0;
  pipeline_distance = 0;
  should_offload = false;
  reason_bits = 0;
}

-- `offload_region_profile_t`; a signed number by its 64 bits. `optimal_prefetch_depth` is an alias
-- of the pipeline's distance.
pub record RegionState : Type 0 where
  pub region_id : ℕ
  pub region_name : Option (List ℕ)
  pub host_independent_work_ns : ℕ
  pub vortex_timing : SimTiming
  pub injection_delay_ns : ℕ
  pub latency_hidden : Bool
  pub optimal_prefetch_depth : ℕ
  pub knobs : Knobs

-- `twopass_context_t`; the number of regions is the length of the list. A time is seconds and
-- nanoseconds.
pub record Context : Type 0 where
  pub mode : TwoPassMode
  pub regions : List RegionState
  pub regions_capacity : ℕ
  pub current_region_id : ℕ
  pub host_work_start : ℕ × ℕ
  pub host_work_active : Bool
  pub verilator_sim : Sim
  pub cxl_latency_ns : ℕ

-- `twopass_init`, with the answer of `calloc` for the regions; a failure is `none`.
unfoldable pub twopass_init : (ℕ → ℕ) → Bool → SimAnswers → Option Context
unfolding sim_init
twopass_init ns_to_cycles storage answers = elim (sim_init ns_to_cycles answers) [
  | none ↦ none
  | some sim ↦
      if storage
      then some (record {
        mode = disabled;
        regions = [];
        regions_capacity = 64;
        current_region_id = 0;
        host_work_start = (0, 0);
        host_work_active = false;
        verilator_sim = sim;
        cxl_latency_ns = cxl_base_latency_ns;
      })
      else none
]

unfoldable pub set_profiling_mode : Context → Context
set_profiling_mode ctx = record ctx { mode = profiling }

-- `twopass_set_injection_mode` without a profile.
unfoldable pub set_injection_mode : Context → ℕ × Context
set_injection_mode ctx = (0, record ctx { mode = injection })

abbrev pub fresh_region : ℕ → Option (List ℕ) → RegionState
fresh_region id name = record {
  region_id = id;
  region_name = name;
  host_independent_work_ns = 0;
  vortex_timing = no_timing;
  injection_delay_ns = 0;
  latency_hidden = false;
  optimal_prefetch_depth = 0;
  knobs = no_knobs;
}

-- `twopass_register_region`; `granted` is whether `realloc` gives what it is asked for. The capacity
-- is a number of 32 bits.
unfoldable pub register_region : Context → Option (List ℕ) → Bool → ℕ × Context
register_region ctx name granted =
    let id = length ctx.regions in
    let regions = ctx.regions ++ (fresh_region id name ∷ []) in
    if leb ctx.regions_capacity id
    then if granted
      then (
        id,
        record ctx { regions = regions; regions_capacity = ctx.regions_capacity * 2 % 2 ^ 32 },
      )
      else (minus_one, ctx)
    else (id, record ctx { regions = regions })

abbrev pub is_profiling : TwoPassMode → Bool
is_profiling profiling = true
is_profiling disabled = false
is_profiling injection = false

unfoldable pub work_start : Context → ℕ → ℕ × ℕ → Context
work_start ctx region_id now =
    if is_profiling ctx.mode
    then record ctx {
      host_work_start = now;
      current_region_id = region_id;
      host_work_active = true;
    }
    else ctx

-- The nanoseconds between two times, on 64 bits.
unfoldable pub elapsed_ns : ℕ × ℕ → ℕ × ℕ → ℕ
elapsed_ns (sec, nsec) (sec', nsec') =
    ((sec' + 2 ^ 64 - sec) * 1000000000 + (nsec' + 2 ^ 64 - nsec)) % 2 ^ 64

unfoldable pub work_end : Context → ℕ → ℕ × ℕ → Context
unfolding elapsed_ns
work_end ctx region_id now =
    if not (is_profiling ctx.mode) || not ctx.host_work_active then ctx else record ctx {
      regions =
          modify ctx.regions region_id
            (λ r. record r { host_independent_work_ns = elapsed_ns ctx.host_work_start now });
      host_work_active = false;
    }

-- The driver's answers to the steps of a launch, and what stands at the two host addresses.
pub record LaunchAnswers : Type 0 where
  pub load_rc : Option ℕ
  pub upload_rc : Option ℕ
  pub run_answers : Option RunAnswers
  pub kernel_binary : List ℕ
  pub binary_size : ℕ
  pub args : List ℕ
  pub args_size : ℕ

-- The run, and the region's timing after it: the timing is written even where the run fails.
unfoldable pub run_region : (ℕ → ℕ) → Context → ℕ → Sim → Option RunAnswers → ℕ × Context
run_region cycles_to_ns ctx region_id sim answers =
    let (rc, sim', timing) = sim_run cycles_to_ns sim answers in
    (
      rc,
      record ctx {
        regions = modify ctx.regions region_id (λ r. record r { vortex_timing = timing });
        verilator_sim = sim';
      },
    )

unfoldable pub upload_and_run : (ℕ → ℕ) → Context → ℕ → Sim → LaunchAnswers → ℕ × Context
unfolding run_region
upload_and_run cycles_to_ns ctx region_id sim a =
    let (rc, sim') = upload_data sim a.upload_rc 0x10000 a.args a.args_size in
    let ran = run_region cycles_to_ns ctx region_id sim' a.run_answers in
    if rc == 0 then ran else (rc, record ctx { verilator_sim = sim' })

-- `twopass_launch_kernel`.
unfoldable pub twopass_launch_kernel : (ℕ → ℕ) → Context → ℕ → LaunchAnswers → ℕ × Context
unfolding upload_and_run
twopass_launch_kernel cycles_to_ns ctx region_id a =
    let (rc, sim) = sim_load_kernel ctx.verilator_sim a.load_rc a.kernel_binary a.binary_size in
    let uploaded = upload_and_run cycles_to_ns ctx region_id sim a in
    if not (is_profiling ctx.mode)
    then (0, ctx)
    else if leb (length ctx.regions) region_id
    then (minus_one, ctx)
    else if rc == 0
    then uploaded
    else (rc, record ctx { verilator_sim = sim })
