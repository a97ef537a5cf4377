-- ===== src/TwoPass/Sync.antt =====
-- runtime/vortex_verilator_sim.cpp, the sync points of the two passes, and what the compiler is told.
use cxlmem_uring.Base.{
  ℕ, ◌+◌, ◌-◌, ◌*◌, ◌/◌, ◌%◌, ◌^◌, Bool, true, ◌&&◌, Option, none, some, ltb, leb, if◌then◌else◌,
  modify, get_elem?,
}
use cxlmem_uring.TwoPass.{disabled, profiling, injection, Knobs, RegionState, Context}

-- `a >= b` for signed numbers of 64 bits.
abbrev pub signed_ge : ℕ → ℕ → Bool
signed_ge a b = leb ((b + 2 ^ 63) % 2 ^ 64) ((a + 2 ^ 63) % 2 ^ 64)

-- The part of `twopass_sync_point` over a region in the profiling pass.
unfoldable pub with_delay : (RegionState → Knobs) → RegionState → RegionState
with_delay decide r =
    let t_host = r.host_independent_work_ns in
    let t_vortex = r.vortex_timing.total_time_ns in
    let knobs = decide r in
    record r {
      injection_delay_ns = (t_vortex + 2 ^ 64 - t_host) % 2 ^ 64;
      latency_hidden = signed_ge t_host t_vortex;
      optimal_prefetch_depth = knobs.pipeline_distance;
      knobs = knobs;
    }

-- What an injection pass does at a sync point.
pub data Injected : Type 0 where
  nothing_injected : Injected
  slept : (microseconds : ℕ) → Injected
  spun : (nanoseconds : ℕ) → Injected

unfoldable pub inject : RegionState → Injected
inject r =
    if ltb 0 r.injection_delay_ns && ltb r.injection_delay_ns (2 ^ 63)
    then if leb 1000 r.injection_delay_ns
      then slept (r.injection_delay_ns / 1000 % 2 ^ 32)
      else spun r.injection_delay_ns
    else nothing_injected

abbrev pub injected_at : Option RegionState → Injected
injected_at none = nothing_injected
injected_at (some r) = inject r

-- `twopass_sync_point`; `decide` is the JIT's choice for a region. Messages are left out.
unfoldable pub sync_point : (RegionState → Knobs) → Context → ℕ → Injected × Context
unfolding with_delay inject
sync_point decide ctx region_id = elim ctx.mode [
  | profiling ↦
      (nothing_injected, record ctx { regions = modify ctx.regions region_id (with_delay decide) })
  | injection ↦ (injected_at (get_elem? ctx.regions region_id), ctx)
  | disabled ↦ (nothing_injected, ctx)
]

-- `prefetch_placement_t`.
pub record Placement : Type 0 where
  pub region_id : ℕ
  pub dominator_block_id : ℕ
  pub user_block_id : ℕ
  pub available_slack_ns : ℕ
  pub required_prefetch_ns : ℕ
  pub can_hide_latency : Bool
  pub recommended_depth : ℕ
  pub should_hoist_h2d : Bool
  pub should_sink_d2h : Bool

-- `twopass_compute_prefetch_placement`; -1 is `none`.
unfoldable pub prefetch_placement : Context → ℕ → ℕ → ℕ → Option Placement
prefetch_placement ctx region_id dominator_block user_block =
    elim (get_elem? ctx.regions region_id) [
      | none ↦ none
      | some r ↦ some (record {
        region_id = region_id;
        dominator_block_id = dominator_block;
        user_block_id = user_block;
        available_slack_ns = r.host_independent_work_ns;
        required_prefetch_ns = r.vortex_timing.memory_stall_time_ns;
        can_hide_latency = leb r.vortex_timing.memory_stall_time_ns r.host_independent_work_ns;
        recommended_depth = r.optimal_prefetch_depth;
        should_hoist_h2d = ltb (ctx.cxl_latency_ns * 10 % 2 ^ 64) r.host_independent_work_ns;
        should_sink_d2h = true;
      })
    ]
