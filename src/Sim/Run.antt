-- ===== src/Sim/Run.antt =====
-- runtime/vortex_verilator_sim.cpp, a run of the simulator with its timing, and its reset.
use cxlmem_uring.Base.{ℕ, ◌+◌, ◌-◌, ◌%◌, ◌^◌, true, Option, none, some, ltb, ◌==◌, if◌then◌else◌}
use cxlmem_uring.Sim.{Sim, estimate_kernel_cycles}

-- `vortex_sim_timing_t`, the fields that are set.
pub record SimTiming : Type 0 where
  pub total_cycles : ℕ
  pub compute_cycles : ℕ
  pub memory_stall_cycles : ℕ
  pub total_time_ns : ℕ
  pub compute_time_ns : ℕ
  pub memory_stall_time_ns : ℕ
  pub cache_hits : ℕ
  pub cache_misses : ℕ
  pub memory_requests : ℕ

abbrev pub no_timing : SimTiming
no_timing = record {
  total_cycles = 0;
  compute_cycles = 0;
  memory_stall_cycles = 0;
  total_time_ns = 0;
  compute_time_ns = 0;
  memory_stall_time_ns = 0;
  cache_hits = 0;
  cache_misses = 0;
  memory_requests = 0;
}

-- What the model answers to a start and to the wait for its end, and its cycles before and after,
-- where it counts them.
pub record RunAnswers : Type 0 where
  pub start_rc : ℕ
  pub wait_rc : ℕ
  pub cycles : Option (ℕ × ℕ)

abbrev pub cycles_between : Option (ℕ × ℕ) → ℕ
cycles_between none = 0
cycles_between (some (before, after)) = (after + 2 ^ 64 - before) % 2 ^ 64

-- The end of `vortex_sim_run`.
unfoldable pub fill_timing : (ℕ → ℕ) → SimTiming → SimTiming
fill_timing cycles_to_ns t =
    let compute = (t.total_cycles + 2 ^ 64 - t.memory_stall_cycles) % 2 ^ 64 in
    record t {
      compute_cycles = compute;
      total_time_ns = cycles_to_ns t.total_cycles;
      compute_time_ns = cycles_to_ns compute;
      memory_stall_time_ns = cycles_to_ns t.memory_stall_cycles;
      memory_requests = (t.cache_hits + t.cache_misses) % 2 ^ 64;
    }

unfoldable pub finish_run : (ℕ → ℕ) → Sim → SimTiming → ℕ × Sim × SimTiming
unfolding fill_timing
finish_run cycles_to_ns sim t =
    (0, record sim { total_cycles = t.total_cycles }, fill_timing cycles_to_ns t)

unfoldable pub run_model : (ℕ → ℕ) → Sim → RunAnswers → ℕ × Sim × SimTiming
unfolding finish_run
run_model cycles_to_ns sim a =
    if a.start_rc == 0
    then if a.wait_rc == 0
      then finish_run cycles_to_ns sim (record no_timing { total_cycles = cycles_between a.cycles })
      else (a.wait_rc, sim, no_timing)
    else (a.start_rc, sim, no_timing)

unfoldable pub run_estimate : (ℕ → ℕ) → Sim → ℕ × Sim × SimTiming
unfolding finish_run estimate_kernel_cycles
run_estimate cycles_to_ns sim =
    let (total, sim') = estimate_kernel_cycles sim 10000 true in
    finish_run cycles_to_ns sim' (record no_timing {
      total_cycles = total;
      memory_stall_cycles = sim'.memory_stall_cycles;
      cache_hits = sim'.cache_hits;
      cache_misses = sim'.cache_misses;
    })

-- `vortex_sim_run`; `answers` is `none` where the model lacks a function.
unfoldable pub sim_run : (ℕ → ℕ) → Sim → Option RunAnswers → ℕ × Sim × SimTiming
unfolding run_model run_estimate
sim_run cycles_to_ns sim none = run_estimate cycles_to_ns sim
sim_run cycles_to_ns sim (some a) =
    if sim.vortex_model then run_model cycles_to_ns sim a else run_estimate cycles_to_ns sim

unfoldable pub sim_reset : Sim → Sim
sim_reset sim = record sim {
  total_cycles = 0;
  memory_stall_cycles = 0;
  cache_hits = 0;
  cache_misses = 0;
  sim_memory = λ p. if ltb p sim.sim_memory_size then 0 else sim.sim_memory p;
}
