-- ===== src/Firmware/Agree.antt =====
-- A record reads the same in two memories that agree on its bytes.
use cxlmem_uring.Base.{ℕ, ◌≡◌, arith}
use cxlmem_uring.Memory.{Memory}
use cxlmem_uring.Memory.Ranges.{Agree, load-Agree}
use cxlmem_uring.Job.Wire.{at_doorbell, at_arg_slot, at_host_status, at_install_job, at_call_job}
use cxlmem_uring.Mmio.Completion.{at_completion}

pub at_doorbell-Agree :
    (p : ℕ) (m m' : Memory) → Agree p 32 m m' → at_doorbell p m ≡ at_doorbell p m'
unfolding at_doorbell
at_doorbell-Agree p m m' h = λ i. record {
  magic = load-Agree 8 0 p 32 m m' h (omega arith) i;
  version = load-Agree 4 8 p 32 m m' h (omega arith) i;
  job_id = load-Agree 4 12 p 32 m m' h (omega arith) i;
  flags = load-Agree 4 16 p 32 m m' h (omega arith) i;
  status = load-Agree 4 20 p 32 m m' h (omega arith) i;
  seq = load-Agree 8 24 p 32 m m' h (omega arith) i;
}

pub at_arg_slot-Agree :
    (p : ℕ) (m m' : Memory) → Agree p 32 m m' → at_arg_slot p m ≡ at_arg_slot p m'
unfolding at_arg_slot
at_arg_slot-Agree p m m' h = λ i. record {
  magic = load-Agree 8 0 p 32 m m' h (omega arith) i;
  version = load-Agree 4 8 p 32 m m' h (omega arith) i;
  job_id = load-Agree 4 12 p 32 m m' h (omega arith) i;
  seq = load-Agree 8 16 p 32 m m' h (omega arith) i;
  arg_len = load-Agree 8 24 p 32 m m' h (omega arith) i;
}

pub at_host_status-Agree :
    (p : ℕ) (m m' : Memory) → Agree p 32 m m' → at_host_status p m ≡ at_host_status p m'
unfolding at_host_status
at_host_status-Agree p m m' h = λ i. record {
  magic = load-Agree 8 0 p 32 m m' h (omega arith) i;
  version = load-Agree 4 8 p 32 m m' h (omega arith) i;
  job_id = load-Agree 4 12 p 32 m m' h (omega arith) i;
  status = load-Agree 4 16 p 32 m m' h (omega arith) i;
  seq = load-Agree 8 24 p 32 m m' h (omega arith) i;
}

pub at_install_job-Agree :
    (p : ℕ) (m m' : Memory) → Agree p 32 m m' → at_install_job p m ≡ at_install_job p m'
unfolding at_install_job
at_install_job-Agree p m m' h = λ i. record {
  addr = load-Agree 8 0 p 32 m m' h (omega arith) i;
  size = load-Agree 8 8 p 32 m m' h (omega arith) i;
  completion_addr = load-Agree 8 16 p 32 m m' h (omega arith) i;
  cache_level = load-Agree 4 24 p 32 m m' h (omega arith) i;
  reserved = load-Agree 4 28 p 32 m m' h (omega arith) i;
}

pub at_call_job-Agree :
    (p : ℕ) (m m' : Memory) → Agree p 32 m m' → at_call_job p m ≡ at_call_job p m'
unfolding at_call_job
at_call_job-Agree p m m' h = λ i. record {
  func_addr = load-Agree 8 0 p 32 m m' h (omega arith) i;
  operands_addr = load-Agree 8 8 p 32 m m' h (omega arith) i;
  completion_addr = load-Agree 8 16 p 32 m m' h (omega arith) i;
  num_operands = load-Agree 4 24 p 32 m m' h (omega arith) i;
  reserved = load-Agree 4 28 p 32 m m' h (omega arith) i;
}

pub at_completion-Agree :
    (p : ℕ) (m m' : Memory) → Agree p 32 m m' → at_completion p m ≡ at_completion p m'
unfolding at_completion
at_completion-Agree p m m' h = λ i. record {
  magic = load-Agree 4 0 p 32 m m' h (omega arith) i;
  status = load-Agree 4 4 p 32 m m' h (omega arith) i;
  result = load-Agree 8 8 p 32 m m' h (omega arith) i;
  cycles = load-Agree 8 16 p 32 m m' h (omega arith) i;
  timestamp = load-Agree 8 24 p 32 m m' h (omega arith) i;
}
