-- ===== src/Protocol/Handover.antt =====
-- What the device reads in a window that holds a committed job.
use mathlib.Core.Path.{subst}
use cxlmem_uring.Base.{ℕ, ◌+◌, ◌≤◌, ◌≡◌, ◌≢◌, sym, ap, ◌∙◌, false, List, ◌==◌, arith, Option, some}
use cxlmem_uring.Memory.{Memory, IsBytes, read, write}
use cxlmem_uring.Memory.Ranges.{write-read}
use cxlmem_uring.Memory.Traces.{perform-IsBytes}
use cxlmem_uring.Job.{InstallCachelineJob, arg_slot_off, arg_slot_header_bytes, valid_magic}
use cxlmem_uring.Job.Wire.{at_arg_slot, at_install_job, encode_install_job, FitsInstallJob}
use cxlmem_uring.Job.Fields.{at_install_job-encode}
use cxlmem_uring.Mmio.{Window}
use cxlmem_uring.Mmio.Submit.{slot_header, doorbell_record, submit_job, commit_job}
use cxlmem_uring.Mmio.Submit.Checks.{Accepts, submit_job-Accepts}
use cxlmem_uring.Firmware.Status.{Cycles}
use cxlmem_uring.Firmware.Jobs.{Callee, arg_slot, slot_matches, checked_arg, run_install, run_job}

-- The payload bytes of an install job are that job.
pub at_install_job-read :
    (job : InstallCachelineJob) (p : ℕ) (m : Memory)
    → FitsInstallJob job
    → read 32 p m ≡ encode_install_job job
    → at_install_job p m ≡ job
at_install_job-read job p m f e =
    ap (at_install_job p) (sym (write-read 32 p m) ∙ ap (λ bs. write p bs m) e)
    ∙ at_install_job-encode job p m f

-- A slot header under the doorbell's own id and number passes the check.
pub checked_arg-slot_header :
    (size slot job_id flags seq arg_len : ℕ) (m : Memory)
    → at_arg_slot slot m ≡ slot_header job_id seq arg_len
    → size ≤ arg_len
    → checked_arg size (some slot) (doorbell_record job_id flags seq) m
      ≡ some (slot + arg_slot_header_bytes)
unfolding checked_arg slot_matches valid_magic
checked_arg-slot_header size slot job_id flags seq arg_len m e h = rw e (ground arith)

pub run_job-install :
    (callee : Callee) (control flags seq arg_len : ℕ) (job : InstallCachelineJob) (c : Cycles)
    (m : Memory)
    → control ≢ 0
    → 32 ≤ arg_len
    → at_arg_slot (control + arg_slot_off 1) m ≡ slot_header 1 seq arg_len
    → at_install_job (control + arg_slot_off 1 + arg_slot_header_bytes) m ≡ job
    → run_job callee control (doorbell_record 1 flags seq) c m ≡ run_install (some job) c m
unfolding run_job arg_slot
run_job-install callee control flags seq arg_len job c m hc hl hs hj =
    rw nonnull (
      rw (checked_arg-slot_header 32 (control + arg_slot_off 1) 1 flags seq arg_len m hs hl)
        (rw hj))
  where
    nonnull : (control == 0) ≡ false
    nonnull = ground arith

pub submit_job-IsBytes :
    (w : Window) (job_id : ℕ) (args : Option (List ℕ)) (arg_len flags : ℕ) (m : Memory)
    → Accepts w job_id args arg_len
    → IsBytes m
    → IsBytes (submit_job (some w) job_id args arg_len flags m).memory
unfolding commit_job
submit_job-IsBytes w job_id args arg_len flags m a v =
    subst IsBytes (sym (ap (λ r. r.memory) (submit_job-Accepts w job_id args arg_len flags m a)))
      (perform-IsBytes _ m v)
