-- ===== src/Tests/Cached.antt =====
-- The cache's, the region table's and the futures' theorems at concrete inputs.
use cxlmem_uring.Base.{ℕ, ◌+◌, ◌≡◌, ◌≢◌, refl, true, false, none, List, [], ◌∷◌, arith}
use cxlmem_uring.Cache.{put_line, CacheLine, Controller, DeviceConfig, shared, invalid}
use cxlmem_uring.Cache.Lines.{get_coherency_state}
use cxlmem_uring.Cache.Range.{invalidate_range}
use cxlmem_uring.Cache.Coherent.{put_line-Coherent, Coherent}
use cxlmem_uring.Cache.Ops.{WholeLine, store_line, run_op, run_op-refines}
use cxlmem_uring.Cache.Invalidated.{invalidate_range_lem}
use cxlmem_uring.Regions.{in_region, has_base, Region, register_linear_region}
use cxlmem_uring.Regions.Lookup.{Distinct, region_table-Distinct}
use cxlmem_uring.Futures.{is_active, offload_submit}
use cxlmem_uring.Futures.Active.{Once}
use cxlmem_uring.Futures.Offload.{offload_submit_lem}
use cxlmem_uring.Tests.{memory}

abbrev config : DeviceConfig
config = record {
  bar2_size = 0;
  bar4_size = 0;
  read_latency_ns = 170;
  write_latency_ns = 200;
  coherency_latency_ns = 50;
  cache_line_size = 64;
  delay_buffer_depth = 16;
}

abbrev line : CacheLine
line = record { data_ = λ i. memory (128 + i); state = shared; dirty = false; timestamp_ns = 5 }

-- A controller whose line at 128 is SHARED and clean, over `memory`.
abbrev controller : Controller
controller = record {
  config = config;
  initialized = true;
  cache = put_line 128 line (λ a. none);
  delay_buffer = [];
  delay_buffer_depth = 16;
  bar2_mapping = 0;
  bar4_mapping = 0;
  cache_hits = 0;
  cache_misses = 1;
}

coherent : Coherent controller.cache memory
coherent =
    put_line-Coherent (λ a. none) memory memory 128 line refl (λ p h. refl)
      (record { dirty_only = λ d. cc; clean = λ v d i h. refl }) (λ a h l e. cc)

run_op-refines_example :
    Coherent (run_op (λ k. 10 + k) (store_line 128 512 20) controller memory).0.cache memory
unfolding run_op WholeLine
run_op-refines_example =
    (run_op-refines (λ k. 10 + k) (store_line 128 512 20) controller memory coherent
      (refl, omega arith)).0

invalidate_range_lem_example :
    get_coherency_state 150 (invalidate_range 100 200 controller memory).0 ≡ invalid
invalidate_range_lem_example =
    invalidate_range_lem 100 200 150 controller memory (omega arith) (omega arith) (omega arith)

abbrev table : List Region
table = record { virtual_base = 4096; size = 4096; device_base = 0; flags = 0 } ∷ []

distinct : Distinct table
unfolding Distinct has_base
distinct = (refl, omega arith, omega arith, tt)

region_table-Distinct_example : Distinct (register_linear_region 16384 4096 8192 0 table).1
region_table-Distinct_example = (region_table-Distinct 16384 4096 8192 0 table distinct).0

apart :
    ◌≢◌ {A = ℕ} 4096 16384
    → in_region 16400 (record { virtual_base = 4096; size = 4096; device_base = 0; flags = 0 })
      ≡ false
unfolding in_region
apart h = refl

once : Once (64 ∷ 128 ∷ [])
unfolding Once is_active
once = (omega arith, refl, (omega arith, refl, tt))

offload_submit_lem_example :
    is_active 192 (offload_submit none 4096 0 0 192 0 (64 ∷ 128 ∷ []) memory).active ≡ true
offload_submit_lem_example =
    (offload_submit_lem none 4096 0 0 192 0 (64 ∷ 128 ∷ []) memory (omega arith)).0

abbrev bars : DeviceConfig
bars = record config { bar2_size = 4096; bar4_size = 8192; delay_buffer_depth = 0 }

abbrev down : Controller
down = record controller { initialized = false; delay_buffer = [] }
