-- ===== src/Sim/Timing.antt =====
-- runtime/vortex_verilator_sim.cpp, `vortex_sim_run`: the cycles that it reports.
use cxlmem_uring.Base.{
  ℕ, ◌+◌, ◌%◌, ◌^◌, ◌<◌, ◌≡◌, refl, true, Option, none, some, ◌==◌, if-cases, arith,
}
use cxlmem_uring.Sim.{Sim, estimate_kernel_cycles}
use cxlmem_uring.Sim.Run.{
  SimTiming, RunAnswers, cycles_between, no_timing, fill_timing, finish_run, run_model,
  run_estimate, sim_run,
}

-- A run's timing adds up.
abbrev pub AddsUp : (ℕ → ℕ) → ℕ × Sim × SimTiming → Type 0
AddsUp cycles_to_ns (rc, sim', t) =
    rc ≡ 0
    → ((t.compute_cycles + t.memory_stall_cycles) % 2 ^ 64 ≡ t.total_cycles)
      × (t.total_time_ns ≡ cycles_to_ns t.total_cycles)
      × (t.memory_requests ≡ (t.cache_hits + t.cache_misses) % 2 ^ 64)
      × (sim'.total_cycles ≡ t.total_cycles)

finish_run-AddsUp :
    (cycles_to_ns : ℕ → ℕ) (sim : Sim) (t : SimTiming)
    → t.total_cycles < 2 ^ 64
    → t.memory_stall_cycles < 2 ^ 64
    → AddsUp cycles_to_ns (finish_run cycles_to_ns sim t)
unfolding finish_run fill_timing
finish_run-AddsUp cycles_to_ns sim t h g z = (omega arith, refl, refl, refl)

run_estimate-AddsUp :
    (cycles_to_ns : ℕ → ℕ) (sim : Sim) → AddsUp cycles_to_ns (run_estimate cycles_to_ns sim)
unfolding run_estimate estimate_kernel_cycles
run_estimate-AddsUp cycles_to_ns sim =
    let (total, sim') = estimate_kernel_cycles sim 10000 true in
    let t = record no_timing {
      total_cycles = total;
      memory_stall_cycles = sim'.memory_stall_cycles;
      cache_hits = sim'.cache_hits;
      cache_misses = sim'.cache_misses;
    } in
    finish_run-AddsUp cycles_to_ns sim' t (omega arith) (omega arith)

cycles_between-lt : (c : Option (ℕ × ℕ)) → cycles_between c < 2 ^ 64
cycles_between-lt none = omega arith
cycles_between-lt (some (before, after)) = omega arith

run_model-AddsUp :
    (cycles_to_ns : ℕ → ℕ) (sim : Sim) (a : RunAnswers)
    → AddsUp cycles_to_ns (run_model cycles_to_ns sim a)
unfolding run_model
run_model-AddsUp cycles_to_ns sim a =
    if-cases (AddsUp cycles_to_ns) (a.start_rc == 0) _ _
      (λ _.
        if-cases (AddsUp cycles_to_ns) (a.wait_rc == 0) _ _
          (λ _.
            finish_run-AddsUp cycles_to_ns sim
              (record no_timing { total_cycles = cycles_between a.cycles })
              (cycles_between-lt a.cycles) (omega arith))
          (λ e z. ground arith))
      (λ e z. ground arith)

-- With any model or none, any answers of it and any conversion of cycles: if a run succeeds, then
-- the cycles of its computation and of its memory stalls sum to its cycles modulo 2 ^ 64, its time
-- is that of its cycles, its requests are its hits and misses modulo 2 ^ 64, and the context keeps
-- its cycles.
pub sim_run-AddsUp :
    (cycles_to_ns : ℕ → ℕ) (sim : Sim) (answers : Option RunAnswers)
    → AddsUp cycles_to_ns (sim_run cycles_to_ns sim answers)
unfolding sim_run
sim_run-AddsUp cycles_to_ns sim none = run_estimate-AddsUp cycles_to_ns sim
sim_run-AddsUp cycles_to_ns sim (some a) =
    if-cases (AddsUp cycles_to_ns) sim.vortex_model _ _ (λ _. run_model-AddsUp cycles_to_ns sim a)
      (λ _. run_estimate-AddsUp cycles_to_ns sim)
