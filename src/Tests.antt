-- ===== src/Tests.antt =====
-- The theorems at concrete inputs, a module for each side.
pub mod Host
pub mod Device
pub mod Cached
pub mod Kernels
pub mod Runtime
pub mod Gpu
pub mod Passes
use cxlmem_uring.Base.{ℕ, true, false, none, ◌%◌, arith}
use cxlmem_uring.Memory.{Memory, IsBytes}
use cxlmem_uring.Job.{InstallCachelineJob, control_bytes}
use cxlmem_uring.Mmio.{Window}
use cxlmem_uring.Firmware.Status.{Cycles}

abbrev pub window : Window
window = record {
  base = 4096;
  size = control_bytes;
  fd = none;
  owns_mapping = true;
  emulated = true;
  read_only = false;
  next_seq = 7;
}

abbrev pub install : InstallCachelineJob
install = record {
  addr = 65546;
  size = 200;
  completion_addr = 131072;
  cache_level = 3;
  reserved = 0;
}

abbrev pub clock : Cycles
clock = record { start = 10; now = 25; stamp = 30 }

-- The byte at an address is the address, modulo 256.
abbrev pub memory : Memory
memory p = p % 256

pub memory-IsBytes : IsBytes memory
memory-IsBytes p = omega arith
