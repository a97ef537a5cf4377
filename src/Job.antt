-- ===== src/Job.antt =====
-- runtime/include/cira_cxl_job.h: the layout of the CXL Type-2 control window and its records,
-- with the bytes that the compiler lays them out in (little endian, natural alignment).
pub mod Layout
pub mod Wire
pub mod Fields
use cxlmem_uring.Base.{ℕ, ◌+◌, ◌*◌, ◌-◌, Bool, ◌||◌, List, ◌++◌, ◌==◌}
use cxlmem_uring.Memory.{Memory, load, bytes}

abbrev pub job_magic : ℕ
job_magic = 0x565843584c4a4f42

abbrev pub pacc_job_magic : ℕ
pacc_job_magic = 0x4847505550414343

abbrev pub job_version : ℕ
job_version = 1

abbrev pub completion_magic : ℕ
completion_magic = 0xDEADBEEF

abbrev pub cacheline_size : ℕ
cacheline_size = 64

abbrev pub control_bytes : ℕ
control_bytes = 0x2000

abbrev pub doorbell_off : ℕ
doorbell_off = 0x0

abbrev pub arg_base_off : ℕ
arg_base_off = 0x100

abbrev pub arg_slot_bytes : ℕ
arg_slot_bytes = 0x400

abbrev pub status_off : ℕ
status_off = 0x1f20

-- `cira_cxl_job_id_t`; on the wire a job id is any 32-bit number.
abbrev pub job_nop : ℕ
job_nop = 0

abbrev pub job_install_cacheline : ℕ
job_install_cacheline = 1

abbrev pub job_prefetch_chain : ℕ
job_prefetch_chain = 2

abbrev pub job_stream_prefetch : ℕ
job_stream_prefetch = 3

abbrev pub job_call : ℕ
job_call = 4

abbrev pub job_max : ℕ
job_max = job_call

-- `cira_cxl_status_t`
abbrev pub status_success : ℕ
status_success = 0

abbrev pub status_running : ℕ
status_running = 1

abbrev pub status_bad_version : ℕ
status_bad_version = 0xffff0001

abbrev pub status_bad_args : ℕ
status_bad_args = 0xffff0002

abbrev pub status_bad_job : ℕ
status_bad_job = 0xffff00ff

pub record Doorbell : Type 0 where
  pub magic : ℕ
  pub version : ℕ
  pub job_id : ℕ
  pub flags : ℕ
  pub status : ℕ
  pub seq : ℕ

pub record ArgSlot : Type 0 where
  pub magic : ℕ
  pub version : ℕ
  pub job_id : ℕ
  pub seq : ℕ
  pub arg_len : ℕ

pub record HostStatus : Type 0 where
  pub magic : ℕ
  pub version : ℕ
  pub job_id : ℕ
  pub status : ℕ
  pub seq : ℕ

abbrev pub doorbell_bytes : ℕ
doorbell_bytes = 32

abbrev pub arg_slot_header_bytes : ℕ
arg_slot_header_bytes = 32

abbrev pub host_status_bytes : ℕ
host_status_bytes = 32

abbrev pub arg_payload_bytes : ℕ
arg_payload_bytes = arg_slot_bytes - arg_slot_header_bytes

pub record InstallCachelineJob : Type 0 where
  pub addr : ℕ
  pub size : ℕ
  pub completion_addr : ℕ
  pub cache_level : ℕ
  pub reserved : ℕ

pub record PrefetchChainJob : Type 0 where
  pub start_node_addr : ℕ
  pub buf_addr : ℕ
  pub completion_addr : ℕ
  pub depth : ℕ
  pub next_ptr_offset : ℕ
  pub data_offset : ℕ
  pub data_size : ℕ

pub record StreamPrefetchJob : Type 0 where
  pub base_addr : ℕ
  pub buf_addr : ℕ
  pub completion_addr : ℕ
  pub count : ℕ
  pub stride : ℕ
  pub elem_size : ℕ
  pub reserved : ℕ

pub record CallJob : Type 0 where
  pub func_addr : ℕ
  pub operands_addr : ℕ
  pub completion_addr : ℕ
  pub num_operands : ℕ
  pub reserved : ℕ

unfoldable pub valid_magic : ℕ → Bool
valid_magic magic = magic == job_magic || magic == pacc_job_magic

unfoldable pub arg_slot_off : ℕ → ℕ
arg_slot_off job_id = arg_base_off + job_id * arg_slot_bytes
