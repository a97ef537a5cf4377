-- ===== src/Protocol/Running.antt =====
-- The two sides of the status record: a host in `cira_mmio_wait_seq` and a device in
-- `vortex_cxl_firmware_service_once`.
use cxlmem_uring.Base.{
  sym, ℕ, suc, ◌+◌, ◌^◌, ◌≤◌, ◌<◌, ◌≡◌, ap, ◌∙◌, Option, some, List, arith, length, All,
}
use cxlmem_uring.Memory.{Memory, load}
use cxlmem_uring.Job.{status_off, status_running}
use cxlmem_uring.Job.Wire.{at_doorbell, at_host_status}
use cxlmem_uring.Wait.{World}
use cxlmem_uring.Mmio.{Window, eio, contents}
use cxlmem_uring.Mmio.Submit.{submit_job, take_seq, doorbell_record}
use cxlmem_uring.Mmio.Submit.Checks.{Accepts, take_seq_lem}
use cxlmem_uring.Mmio.Submit.Committed.{Committed, submit_job-Committed, doorbell_at}
use cxlmem_uring.Mmio.WaitSeq.{wait_seq}
use cxlmem_uring.Mmio.WaitSeq.Outcome.{wait_seq-running}
use cxlmem_uring.Firmware.{announce}
use cxlmem_uring.Firmware.Publish.{mirrored}
use cxlmem_uring.Firmware.Service.{announce_lem}

-- For an accepted submission of a payload that the caller's buffer holds, with a 32-bit flag word
-- and a counter of 64 bits: when the device has announced the submitted job as running and has not
-- finished it, so that the host's reads at the ticks `t` and `t + 1` find that memory, the host's
-- wait for the number of its job gives up with an I/O error.
pub running_reported_as_eio :
    (env : World) (timeout_ns budget inner fuel t : ℕ) (w : Window) (job_id : ℕ)
    (args : Option (List ℕ)) (arg_len flags : ℕ) (m : Memory)
    → Accepts w job_id args arg_len
    → w.next_seq < 2 ^ 64
    → flags < 2 ^ 32
    → length (contents args arg_len) ≡ arg_len
    → All (λ b. b < 256) (contents args arg_len)
    → let sent = (submit_job (some w) job_id args arg_len flags m).memory in
      let started = announce w.base (at_doorbell (doorbell_at w) sent) status_running sent in
      env.memory t ≡ started
      → env.memory (t + 1) ≡ started
      → wait_seq env timeout_ns budget inner (suc fuel) (some w) (take_seq w).0 t
        ≡ some (eio, t + 2)
unfolding at_host_status
running_reported_as_eio env timeout_ns budget inner fuel t w job_id args arg_len flags m a hn hf
      size v e0 e1 =
    wait_seq-running env timeout_ns budget inner fuel w seq t a.mapped (omega (arith, a.sized)) come
      running
  where
    seq : ℕ
    seq = (take_seq w).0

    sent : Memory
    sent = (submit_job (some w) job_id args arg_len flags m).memory

    held :
        Committed w job_id
          (contents args arg_len)
          arg_len
          flags
          m
          (submit_job (some w) job_id args arg_len flags m)
    held = submit_job-Committed w job_id args arg_len flags m a hn hf size v

    started : Memory
    started = announce w.base (doorbell_record job_id flags seq) status_running sent

    found : started ≡ announce w.base (at_doorbell (doorbell_at w) sent) status_running sent
    found = ap (λ d. announce w.base d status_running sent) (sym held.3)

    shown : at_host_status (w.base + status_off) started ≡ mirrored job_id seq status_running
    shown =
        (announce_lem w.base (doorbell_record job_id flags seq) status_running sent a.mapped
          (omega (arith, a.job_le)) (take_seq_lem w hn).1 (omega arith)).0

    come : seq ≤ load 8 (w.base + status_off + 24) (env.memory t)
    come =
        let e : load 8 (w.base + status_off + 24) (env.memory t) ≡ seq =
          rw (e0 ∙ sym found) (ap (λ s. s.seq) shown) in
        omega arith

    running : load 4 (w.base + status_off + 16) (env.memory (t + 1)) ≡ status_running
    running = rw (e1 ∙ sym found) (ap (λ s. s.status) shown)
