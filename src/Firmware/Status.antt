-- ===== src/Firmware/Status.antt =====
-- runtime/vortex_device.cpp: the completion line and the status record, as the device writes them.
use cxlmem_uring.Base.{ℕ, ◌+◌, ◌-◌, ◌%◌, ◌^◌, List, [], ◌∷◌, ◌==◌, if◌then◌else◌}
use cxlmem_uring.Memory.{Memory}
use cxlmem_uring.Memory.Traces.{Store, perform}
use cxlmem_uring.Job.{completion_magic, job_magic, job_version, status_off}

-- `vortex_cxl_cycles()` where a job reads it: at its start, for the cycle count, for the time stamp.
pub record Cycles : Type 0 where
  pub start : ℕ
  pub now : ℕ
  pub stamp : ℕ

abbrev pub elapsed : Cycles → ℕ
elapsed c = (c.now + 2 ^ 64 - c.start) % 2 ^ 64

unfoldable pub completion_trace : ℕ → ℕ → ℕ → Cycles → List Store
completion_trace line status result c =
    record { width = 8; addr = line + 8; word = result }
    ∷ record { width = 8; addr = line + 16; word = elapsed c }
    ∷ record { width = 8; addr = line + 24; word = c.stamp }
    ∷ record { width = 4; addr = line + 4; word = status }
    ∷ record { width = 4; addr = line + 0; word = completion_magic }
    ∷ []

unfoldable pub write_completion : ℕ → ℕ → ℕ → Cycles → Memory → Memory
unfolding completion_trace
write_completion completion_addr status result c m =
    if completion_addr == 0 then m else perform (completion_trace completion_addr status result c) m

unfoldable pub mirror_trace : ℕ → ℕ → ℕ → ℕ → List Store
mirror_trace host job_id seq status =
    record { width = 8; addr = host + 0; word = job_magic }
    ∷ record { width = 4; addr = host + 8; word = job_version }
    ∷ record { width = 4; addr = host + 12; word = job_id }
    ∷ record { width = 4; addr = host + 16; word = status }
    ∷ record { width = 8; addr = host + 24; word = seq }
    ∷ []

unfoldable pub mirror_status : ℕ → ℕ → ℕ → ℕ → Memory → Memory
unfolding mirror_trace
mirror_status control job_id seq status m =
    if control == 0 then m else perform (mirror_trace (control + status_off) job_id seq status) m
