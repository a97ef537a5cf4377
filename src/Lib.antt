-- ===== src/Lib.antt =====
-- CXLMemUring's runtime: a host and a CXL Type-2 device that share memory and a control window.
--
-- The host stages a job in the window and rings a doorbell; the device polls the doorbell, serves
-- the job, writes a completion line and mirrors a status record that the host waits on.
--
-- Memory, Memory/*: bytes at addresses, the little-endian words of volatile loads and stores, and
--   stores in program order as lists, so that what another side sees is the memory after a prefix.
-- Job, Job/*: runtime/include/cira_cxl_job.h, the records of the protocol and their bytes.
-- Wait, Wait/*: runtime/cira_mwait.cpp, wait_impl and the choice of the backend. What other agents
--   do to memory, the clock and the wake of a monitor wait are a World over ticks. The spin is by
--   its budget; the monitor loop is on fuel, and the theorems on its return say which fuel is enough.
-- Mmio, Mmio/*: runtime/cira_mmio.cpp, the life of a window with the environment and the operating
--   system as arguments, registers, block copies, completions, cira_mmio_submit_job,
--   cira_mmio_submit_call and cira_mmio_wait_seq.
-- Firmware, Firmware/*: the firmware part of runtime/vortex_device.cpp, from the copies and the
--   installation of cache lines to vortex_cxl_firmware_service_once and a round of its loop. The
--   function of a call job is a parameter. The loops of the prefetch jobs read their job from the
--   window in each round and are on the fuel of 2 ^ 32 nodes and 2 ^ 64 elements, the widths of the
--   depth and the count, with which they end by their own tests (Firmware/Jobs/Fuel).
-- Protocol, Protocol/*: both sides of an installation job and of the status record.
-- Cache, Cache/*: Type2CacheControllerImpl of runtime/src/CiraRuntime.cpp, its lines, states, delay
--   buffer and BARs; what mmap answers is an argument. The loop of invalidateRange is on fuel, a
--   round for each line and one more.
-- Regions, Regions/*: the table of linear regions of runtime/src/CiraRuntime.cpp, and the tokens of
--   translate_runtime_paddr. The list of slice masks is read on fuel, a round for each character.
-- Futures, Futures/*: active futures, future pools, the phase barrier and cira_offload_submit of
--   runtime/src/CiraRuntime.cpp.
-- Tiles, Tiles/*: LLC tiles and cache-line hints of runtime/src/CiraRuntime.cpp.
-- Remote, Remote/*: RemoteMemoryManagerImpl of runtime/src/CiraRuntime.cpp.
-- Engine, Engine/*: the edge cache, the prefetch controller, the placement of graphs and the GAPBS
--   markers of runtime/src/CiraRuntime.cpp.
-- Jit, Jit/*: the clamping of a decision of runtime/cira_jit.cpp.
-- Device, Device/*: the device interface of runtime/vortex_device.cpp, its buffers, kernels and
--   arguments, the submission of jobs through it, and the entry points for compiled code. What the
--   Vortex driver answers is an argument of each operation.
-- Gpu, Gpu/*: runtime/src/Type2GpuDevice.cpp, the registers of the GPU device, a launch, the wait for
--   its end, the life of the device and its matrix product. What the operating system and the device
--   answer are arguments, and so are the operations of float. The wait is on fuel: more than the
--   milliseconds of a timeout are enough.
-- Backend, Backend/*: runtime/vortex_offload_backend.cpp, the backend over the device interface and
--   its C interface.
-- Sim, Sim/*: the simulator of runtime/vortex_verilator_sim.cpp and its model of the latency. A
--   Verilator model and the conversions between cycles and nanoseconds are arguments.
-- TwoPass, TwoPass/*: the profiling and the injection pass of runtime/vortex_verilator_sim.cpp, with
--   the decision of the JIT as an argument.
-- Profile, Profile/*: twopass_save_profile and twopass_load_profile of the same file, over the text
--   as a list of codes. The loop over the regions is on fuel, a round for each region and one more.
-- Tests, Tests/*: the theorems at concrete inputs.
--
-- A null pointer is the address 0 or `none`. A w-bit number keeps its wrap-around as `% 2 ^ w`.
-- Fences add no order, since stores take effect in program order. The fuel of
-- cira_mmio_wait_seq and of wait_impl stands for how long a caller is observed: `none` is a caller
-- that still waits.
--
-- Not modelled: the bytes that a pointer returned by cacheLoad lets the caller change, messages and
-- performance counters, the programs and traversals over a graph, which call back into user code,
-- the JIT's cost model and the update of the latency model, which compute with doubles, asynchronous
-- runs of the simulator, the JIT's engine, which drives LLVM, and the compiler, which stands on MLIR.
pub mod Base
pub mod Memory
pub mod Job
pub mod Wait
pub mod Mmio
pub mod Firmware
pub mod Protocol
pub mod Cache
pub mod Regions
pub mod Futures
pub mod Device
pub mod Remote
pub mod Tiles
pub mod Engine
pub mod Jit
pub mod Gpu
pub mod Backend
pub mod Sim
pub mod TwoPass
pub mod Profile
pub mod Tests
