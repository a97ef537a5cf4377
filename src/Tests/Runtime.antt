-- ===== src/Tests/Runtime.antt =====
-- The theorems on the runtime's windows, waits, tiles, tokens and tiers at concrete inputs.
use cxlmem_uring.Memory.Traces.{perform}
use cxlmem_uring.Job.{completion_magic}
use cxlmem_uring.Wait.{World, equal, satisfied, holds}
use cxlmem_uring.Engine.Markers.{GapbsEnv, gapbs_record_stride, gapbs_marker, prefetch_csr}
use cxlmem_uring.Engine.Rows.{Within, gapbs_marker-Within}
use cxlmem_uring.Futures.Pools.{phase_barrier}
use cxlmem_uring.Futures.Pools.Barrier.{Completed, phase_barrier-Completed}
use cxlmem_uring.Base.{
  inr, ℕ, ◌+◌, leb, if◌then◌else◌, ◌≤◌, ap, ◌∙◌, All, ◌≡◌, ◌≢◌, refl, arith, true, false, none,
  some, List, [], ◌∷◌, find,
}
use cxlmem_uring.Memory.{Memory, load, value, store, bytes, read, write}
use cxlmem_uring.Mmio.Completion.{signal_trace, signal_completion}
use cxlmem_uring.Mmio.{Window}
use cxlmem_uring.Mmio.Open.{
  Config, OsAnswers, open_window, open_config, open_new, open_object, open_emulated,
}
use cxlmem_uring.Wait.Backend.{Cpu, x86}
use cxlmem_uring.Regions.{Region, register_linear_region, in_region}
use cxlmem_uring.Regions.Translate.{TokenWorld, uses_regions}
use cxlmem_uring.Regions.Tokens.{translate_runtime_paddr, registered_token}
use cxlmem_uring.Remote.{
  Remote, RemoteMemRef, Allocation, cxl_attached, far_memory, deleted, allocate_remote,
  deallocate_remote, migrate,
}
use cxlmem_uring.Remote.Accounts.{Fresh, allocate_remote_released}
use cxlmem_uring.Remote.Migration.{Moved, migrate_loses_memory}
use cxlmem_uring.Tiles.{Tile, Llc, llc_tile_install_from_cxl}
use cxlmem_uring.Tiles.Installed.{llc_tile_installed}
use cxlmem_uring.Tests.{memory}

abbrev config : Config
config = record {
  path = none;
  offset = 0;
  size = 0;
  fixed_addr = 0;
  emulate = true;
  read_only = false;
}

abbrev os : OsAnswers
os = record { object_at = some 512; map_at = some 65536; fd = none }

mapped : os.map_at ≢ some 0
mapped e = cc

abbrev opened : Window
opened = record {
  base = 65536;
  size = 8192;
  fd = none;
  owns_mapping = true;
  emulated = true;
  read_only = false;
  next_seq = 1;
}

opens : (open_window true (some config) os).handle ≡ some (512, opened)
unfolding open_window open_config open_new open_object open_emulated
opens = refl

abbrev cpu : Cpu
cpu = record {
  arch = x86;
  max_leaf = 7;
  ecx_seven = 0;
  max_extended_leaf = 2147483656;
  ecx_extended = 536870912;
}

abbrev nothing : Remote
nothing = record { allocations = []; addr_to_ref = []; objects = [] }

fresh : Fresh 100 8192 nothing
unfolding find
fresh = record { no_allocation = refl; no_object = refl; no_memory = refl }

allocate_remote_released_example :
    (deallocate_remote
      (some 1)
      100
      (allocate_remote (some 1) 4096 cxl_attached 100 8192 nothing).0).0
    ≡ nothing
allocate_remote_released_example =
    (allocate_remote_released (some 1) 4096 cxl_attached 100 8192 nothing fresh).2

abbrev held : Allocation
held = record { addr = 8192; size = 4096; tier = cxl_attached; numa_node = 1 }

abbrev reference : RemoteMemRef
reference = record { base_addr = 8192; size = 4096; tier = cxl_attached; metadata = 0 }

abbrev one : Remote
one = record {
  allocations = (100, held) ∷ [];
  addr_to_ref = (8192, 100) ∷ [];
  objects = (100, reference) ∷ [];
}

there : find 100 one.allocations ≡ some held
unfolding find
there = refl

migrate_loses_memory_example :
    let (s', m', calls) = migrate (some 1) 100 far_memory 200 65536 reference one memory in
    (m' ≡ write 65536 (read 4096 8192 memory) memory)
    × Moved 100 200 65536 4096 far_memory s'
    × ((deallocate_remote (some 1) 100 s').1 ≡ deleted 100 ∷ [])
migrate_loses_memory_example =
    migrate_loses_memory (some 1) 100 far_memory 200 65536 reference one memory held there
      (omega arith)

abbrev tile : Tile
tile = record { allocation = 4096; requested_size = 100; aligned_size = 128; completion = 8192 }

abbrev llc : Llc
llc = record { tiles = (4096, tile) ∷ []; active = []; memory = memory }

tiled : find 4096 llc.tiles ≡ some tile
unfolding find
tiled = refl

llc_tile_installed_example :
    read 128 4096 (llc_tile_install_from_cxl 4096 65536 1000 0 none none llc).1.memory
    ≡ read 128 65536 memory
llc_tile_installed_example =
    (llc_tile_installed 4096 65536 1000 none none llc tile (omega arith) (omega arith) (omega arith)
      (omega arith) (omega arith) tiled (omega arith) (omega arith)).1

abbrev world : TokenWorld
world = record {
  strtoull = λ text. none;
  getenv = λ name. none;
  slice_masks = none;
  source_virtual = false;
  page_size = 4096;
  page_entry = none;
  mode = none;
  driver_answer = some (7, 0);
}

abbrev table : List Region
table = record { virtual_base = 65536; size = 4096; device_base = 0; flags = 0 } ∷ []

apart :
    in_region 16400 (record { virtual_base = 65536; size = 4096; device_base = 0; flags = 0 })
    ≡ false
unfolding in_region
apart = refl

by_table : uses_regions world.mode ≡ true
unfolding uses_regions
by_table = refl

registered_token_example :
    translate_runtime_paddr world 16400 (register_linear_region 16384 4096 8192 0 table).1 ≡ 8208
registered_token_example =
    registered_token world 16384 4096 8192 0 16400 table by_table (omega arith) (omega arith)
      (omega arith) (λ n. apart, tt)

-- The completions at 64 and 128 are signalled from tick 3 on.
abbrev before : Memory
before p = 0

abbrev after : Memory
after = signal_completion 128 0 0 (signal_completion 64 0 0 before)

abbrev signalling : World
signalling = record {
  memory = λ t. if leb 3 t then after else before;
  clock = λ t. t;
  wake = λ t. t + 1;
}

forward : (t : ℕ) → t ≤ signalling.wake t
forward t = omega arith

signalled_at_64 : satisfied signalling 64 completion_magic equal 3 ≡ true
unfolding satisfied holds load value read signal_completion signal_trace perform store write bytes
signalled_at_64 = refl

signalled_at_128 : satisfied signalling 128 completion_magic equal 3 ≡ true
unfolding satisfied holds load value read signal_completion signal_trace perform store write bytes
signalled_at_128 = refl

same_later :
    (p s : ℕ)
    → 3 ≤ s
    → satisfied signalling p completion_magic equal s
      ≡ satisfied signalling p completion_magic equal 3
unfolding satisfied
same_later p s h =
    let e : leb 3 s ≡ true = ground arith in
    ap (λ b. holds equal (load 4 p (if b then after else before)) completion_magic) e

phase_barrier-Completed_example :
    (t' : ℕ) × (phase_barrier signalling 0 2 4 (64 ∷ 128 ∷ []) 0 ≡ some ([], t'))
    × All (Completed signalling forward 0 t') (64 ∷ 128 ∷ [])
phase_barrier-Completed_example =
    phase_barrier-Completed signalling forward 2 4 3 (64 ∷ 128 ∷ []) 0
      (
        inr (λ s h. same_later 64 s h ∙ signalled_at_64),
        (inr (λ s h. same_later 128 s h ∙ signalled_at_128), tt),
      )
      (omega arith)

abbrev gapbs : GapbsEnv
gapbs = record { record_stride = none; csr_row_start = some 1; csr_row_limit = some 2 }

-- A graph at 1024 of four nodes, whose rows begin at 16384, 16400, 16416 and so on.
abbrev graph_memory : Memory
graph_memory = store 8 1032 4 (store 8 1048 2048 (store 8 2056 16400 (store 8 2072 16432 before)))

rows : gapbs_marker gapbs 0 1024 0 graph_memory ≡ prefetch_csr 16400 16432 1 2 648518346341352448
unfolding gapbs_marker load value read store write bytes
rows = refl

gapbs_marker-Within_example :
    Within 1024
      (gapbs_record_stride gapbs 0)
      graph_memory
      (gapbs_marker gapbs 0 1024 0 graph_memory)
gapbs_marker-Within_example = gapbs_marker-Within gapbs 0 1024 0 graph_memory
