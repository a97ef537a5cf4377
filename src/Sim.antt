-- ===== src/Sim.antt =====
-- runtime/vortex_verilator_sim.cpp, the simulator behind the two-pass runtime, and its model of the
-- latency. A Verilator model that is loaded at run time is outside the repository: what its functions
-- answer is an argument, `none` where a function is missing. The conversions between cycles and
-- nanoseconds, which compute with doubles, are parameters.
pub mod Run
pub mod Contents
pub mod Timing
use cxlmem_uring.Base.{
  ℕ, ◌+◌, ◌-◌, ◌*◌, ◌/◌, ◌%◌, ◌^◌, Bool, true, false, ◌&&◌, Option, none, some, List, take, ltb,
  leb, ◌==◌, if◌then◌else◌,
}
use cxlmem_uring.Memory.{Memory, write, read}

-- `cxl_latency_model_t`.
pub record LatencyModel : Type 0 where
  pub base_latency_ns : ℕ
  pub protocol_overhead_ns : ℕ
  pub queue_delay_ns : ℕ
  pub contention_factor : ℕ

abbrev pub cxl_base_latency_ns : ℕ
cxl_base_latency_ns = 165

abbrev pub initial_latency : LatencyModel
initial_latency = record {
  base_latency_ns = cxl_base_latency_ns;
  protocol_overhead_ns = 20;
  queue_delay_ns = 10;
  contention_factor = 1;
}

-- `cxl_latency_model_calculate`; no model is `none`.
unfoldable pub latency_calculate : Option LatencyModel → ℕ → Bool → ℕ
latency_calculate none access_size is_sequential = cxl_base_latency_ns
latency_calculate (some model) access_size is_sequential =
    let one =
      (model.base_latency_ns + model.protocol_overhead_ns + model.queue_delay_ns) % 2 ^ 64 in
    let num_lines = (access_size + 63) % 2 ^ 64 / 64 in
    let many =
      (model.base_latency_ns + (num_lines + 2 ^ 64 - 1) * 10 + model.protocol_overhead_ns)
      % 2 ^ 64 in
    (if is_sequential && ltb 64 access_size then many else one) * model.contention_factor % 2 ^ 64

-- `verilator_sim_ctx_t`, without its handles: whether there is an instance of the model, the
-- simulated memory by offset, and the counters.
pub record Sim : Type 0 where
  pub vortex_model : Bool
  pub sim_memory : Memory
  pub sim_memory_size : ℕ
  pub cxl_latency_cycles : ℕ
  pub total_cycles : ℕ
  pub memory_stall_cycles : ℕ
  pub cache_hits : ℕ
  pub cache_misses : ℕ
  pub latency_model : LatencyModel

-- The answers of `calloc` and `mmap`, and whether an instance of the model was created.
pub record SimAnswers : Type 0 where
  pub context : Bool
  pub memory : Bool
  pub instance_created : Bool

-- `vortex_sim_init`, after which the memory is zero; -1 is `none`.
unfoldable pub sim_init : (ℕ → ℕ) → SimAnswers → Option Sim
sim_init ns_to_cycles answers =
    if answers.context && answers.memory
    then some (record {
      vortex_model = answers.instance_created;
      sim_memory = λ p. 0;
      sim_memory_size = 512 * 1024 * 1024;
      cxl_latency_cycles = ns_to_cycles cxl_base_latency_ns;
      total_cycles = 0;
      memory_stall_cycles = 0;
      cache_hits = 0;
      cache_misses = 0;
      latency_model = initial_latency;
    })
    else none

unfoldable pub set_memory_latency : (ℕ → ℕ) → Sim → ℕ → Sim
set_memory_latency ns_to_cycles sim latency_ns = record sim {
  latency_model = record sim.latency_model { base_latency_ns = latency_ns };
  cxl_latency_cycles = ns_to_cycles latency_ns;
}

-- An answer of the model, where the context has an instance and the function.
abbrev pub model_answer : Sim → Option ℕ → Option ℕ
model_answer sim answer = if sim.vortex_model then answer else none

-- -1, as an `int` of 32 bits.
abbrev pub minus_one : ℕ
minus_one = 2 ^ 32 - 1

-- The fallback: a copy into the simulated memory, whose bounds test is one of 64 bits.
unfoldable pub copy_into : Sim → ℕ → List ℕ → ℕ → ℕ × Sim
copy_into sim dev_addr bytes_ size =
    if leb ((dev_addr + size) % 2 ^ 64) sim.sim_memory_size
    then (0, record sim { sim_memory = write dev_addr (take size bytes_) sim.sim_memory })
    else (minus_one, sim)

-- `vortex_sim_load_kernel`; `bytes_` is what stands at the binary's address.
unfoldable pub sim_load_kernel : Sim → Option ℕ → List ℕ → ℕ → ℕ × Sim
sim_load_kernel sim answer bytes_ size = elim (model_answer sim answer) [
  | some rc ↦ (rc, sim)
  | none ↦
      if leb size sim.sim_memory_size
      then (0, record sim { sim_memory = write 0 (take size bytes_) sim.sim_memory })
      else (minus_one, sim)
]

unfoldable pub upload_data : Sim → Option ℕ → ℕ → List ℕ → ℕ → ℕ × Sim
unfolding copy_into
upload_data sim answer dev_addr bytes_ size = elim (model_answer sim answer) [
  | some rc ↦ (rc, sim)
  | none ↦ copy_into sim dev_addr bytes_ size
]

-- The bytes that the fallback copies to the host, `none` where it copies none.
unfoldable pub download_data : Sim → Option ℕ → ℕ → ℕ → ℕ × Option (List ℕ)
download_data sim answer dev_addr size = elim (model_answer sim answer) [
  | some rc ↦ (rc, none)
  | none ↦
      if leb ((dev_addr + size) % 2 ^ 64) sim.sim_memory_size
      then (0, some (read size dev_addr sim.sim_memory))
      else (minus_one, none)
]

-- `estimate_kernel_cycles`.
unfoldable pub estimate_kernel_cycles : Sim → ℕ → Bool → ℕ × Sim
estimate_kernel_cycles sim num_elements is_memory_bound =
    let compute = num_elements * 10 % 2 ^ 64 in
    let hit_cycles = num_elements / 2 * 5 % 2 ^ 64 in
    let miss_cycles = num_elements / 2 * sim.cxl_latency_cycles % 2 ^ 64 in
    if is_memory_bound
    then (
      (compute + hit_cycles + miss_cycles) % 2 ^ 64,
      record sim {
        memory_stall_cycles = miss_cycles;
        cache_hits = num_elements / 2;
        cache_misses = num_elements / 2;
      },
    )
    else (
      compute,
      record sim { memory_stall_cycles = 0; cache_hits = num_elements; cache_misses = 0 },
    )
