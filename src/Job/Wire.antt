-- ===== src/Job/Wire.antt =====
-- The records of cira_cxl_job.h as bytes: `encode` is the image that a struct copy stores, and
-- `at_` reads the fields where the compiler puts them.
use cxlmem_uring.Base.{ℕ, ◌+◌, ◌<◌, ◌^◌, List, ◌++◌}
use cxlmem_uring.Memory.{Memory, load, bytes}
use cxlmem_uring.Job.{
  Doorbell, ArgSlot, HostStatus, InstallCachelineJob, PrefetchChainJob, StreamPrefetchJob, CallJob,
}

unfoldable pub encode_doorbell : Doorbell → List ℕ
encode_doorbell d =
    bytes 8 d.magic
    ++ (bytes 4 d.version
        ++ (bytes 4 d.job_id ++ (bytes 4 d.flags ++ (bytes 4 d.status ++ bytes 8 d.seq))))

unfoldable pub at_doorbell : ℕ → Memory → Doorbell
at_doorbell p m = record {
  magic = load 8 (p + 0) m;
  version = load 4 (p + 8) m;
  job_id = load 4 (p + 12) m;
  flags = load 4 (p + 16) m;
  status = load 4 (p + 20) m;
  seq = load 8 (p + 24) m;
}

unfoldable pub encode_arg_slot : ArgSlot → List ℕ
encode_arg_slot s =
    bytes 8 s.magic
    ++ (bytes 4 s.version ++ (bytes 4 s.job_id ++ (bytes 8 s.seq ++ bytes 8 s.arg_len)))

unfoldable pub at_arg_slot : ℕ → Memory → ArgSlot
at_arg_slot p m = record {
  magic = load 8 (p + 0) m;
  version = load 4 (p + 8) m;
  job_id = load 4 (p + 12) m;
  seq = load 8 (p + 16) m;
  arg_len = load 8 (p + 24) m;
}

unfoldable pub at_host_status : ℕ → Memory → HostStatus
at_host_status p m = record {
  magic = load 8 (p + 0) m;
  version = load 4 (p + 8) m;
  job_id = load 4 (p + 12) m;
  status = load 4 (p + 16) m;
  seq = load 8 (p + 24) m;
}

unfoldable pub encode_install_job : InstallCachelineJob → List ℕ
encode_install_job j =
    bytes 8 j.addr
    ++ (bytes 8 j.size
        ++ (bytes 8 j.completion_addr ++ (bytes 4 j.cache_level ++ bytes 4 j.reserved)))

unfoldable pub at_install_job : ℕ → Memory → InstallCachelineJob
at_install_job p m = record {
  addr = load 8 (p + 0) m;
  size = load 8 (p + 8) m;
  completion_addr = load 8 (p + 16) m;
  cache_level = load 4 (p + 24) m;
  reserved = load 4 (p + 28) m;
}

unfoldable pub at_prefetch_chain_job : ℕ → Memory → PrefetchChainJob
at_prefetch_chain_job p m = record {
  start_node_addr = load 8 (p + 0) m;
  buf_addr = load 8 (p + 8) m;
  completion_addr = load 8 (p + 16) m;
  depth = load 4 (p + 24) m;
  next_ptr_offset = load 4 (p + 28) m;
  data_offset = load 4 (p + 32) m;
  data_size = load 4 (p + 36) m;
}

unfoldable pub at_stream_prefetch_job : ℕ → Memory → StreamPrefetchJob
at_stream_prefetch_job p m = record {
  base_addr = load 8 (p + 0) m;
  buf_addr = load 8 (p + 8) m;
  completion_addr = load 8 (p + 16) m;
  count = load 8 (p + 24) m;
  stride = load 4 (p + 32) m;
  elem_size = load 4 (p + 36) m;
  reserved = load 4 (p + 40) m;
}

unfoldable pub encode_call_job : CallJob → List ℕ
encode_call_job j =
    bytes 8 j.func_addr
    ++ (bytes 8 j.operands_addr
        ++ (bytes 8 j.completion_addr ++ (bytes 4 j.num_operands ++ bytes 4 j.reserved)))

unfoldable pub at_call_job : ℕ → Memory → CallJob
at_call_job p m = record {
  func_addr = load 8 (p + 0) m;
  operands_addr = load 8 (p + 8) m;
  completion_addr = load 8 (p + 16) m;
  num_operands = load 4 (p + 24) m;
  reserved = load 4 (p + 28) m;
}

-- The fields fit their widths.
pub record FitsDoorbell (d : Doorbell) : Type 0 where
  pub magic : d.magic < 2 ^ 64
  pub version : d.version < 2 ^ 32
  pub job_id : d.job_id < 2 ^ 32
  pub flags : d.flags < 2 ^ 32
  pub status : d.status < 2 ^ 32
  pub seq : d.seq < 2 ^ 64

pub record FitsArgSlot (s : ArgSlot) : Type 0 where
  pub magic : s.magic < 2 ^ 64
  pub version : s.version < 2 ^ 32
  pub job_id : s.job_id < 2 ^ 32
  pub seq : s.seq < 2 ^ 64
  pub arg_len : s.arg_len < 2 ^ 64

pub record FitsInstallJob (j : InstallCachelineJob) : Type 0 where
  pub addr : j.addr < 2 ^ 64
  pub size : j.size < 2 ^ 64
  pub completion_addr : j.completion_addr < 2 ^ 64
  pub cache_level : j.cache_level < 2 ^ 32
  pub reserved : j.reserved < 2 ^ 32

pub record FitsCallJob (j : CallJob) : Type 0 where
  pub func_addr : j.func_addr < 2 ^ 64
  pub operands_addr : j.operands_addr < 2 ^ 64
  pub completion_addr : j.completion_addr < 2 ^ 64
  pub num_operands : j.num_operands < 2 ^ 32
  pub reserved : j.reserved < 2 ^ 32
