-- ===== src/Protocol/Install.antt =====
-- cira.install_cacheline from the host's submission to the host's completion line.
use cxlmem_uring.Base.{
  ℕ, ◌+◌, ◌-◌, ◌/◌, ◌^◌, ◌≤◌, ◌<◌, ◌≡◌, ◌≢◌, refl, ◌∙◌, false, ◌||◌, ◌==◌, arith, some,
}
use cxlmem_uring.Memory.{Memory, IsBytes, read, bytes}
use cxlmem_uring.Memory.Ranges.{Apart, Agree, read-Agree}
use cxlmem_uring.Memory.Traces.{perform, perform_outside}
use cxlmem_uring.Job.{
  Doorbell, InstallCachelineJob, arg_slot_off, control_bytes, cacheline_size, status_off,
  status_running, status_success, valid_magic,
}
use cxlmem_uring.Job.Wire.{
  at_doorbell, at_arg_slot, at_host_status, encode_install_job, FitsInstallJob,
}
use cxlmem_uring.Job.Fields.{encode_install_job-All}
use cxlmem_uring.Mmio.{Window}
use cxlmem_uring.Mmio.Completion.{at_completion}
use cxlmem_uring.Mmio.Submit.{Submitted, slot_header, doorbell_record, submit_job, take_seq}
use cxlmem_uring.Mmio.Submit.Checks.{Accepts, take_seq_lem}
use cxlmem_uring.Mmio.Submit.Committed.{
  Committed, submit_job-Committed, slot_at, payload_at, doorbell_at,
}
use cxlmem_uring.Firmware.Cachelines.Install.{install_range_lem}
use cxlmem_uring.Firmware.Status.{Cycles, write_completion, completion_trace}
use cxlmem_uring.Firmware.Jobs.{Callee, run_install, run_job}
use cxlmem_uring.Firmware.{announce, serve, service_once}
use cxlmem_uring.Firmware.Agree.{at_arg_slot-Agree, at_completion-Agree}
use cxlmem_uring.Firmware.Publish.{
  completed, mirrored, completion_trace_whole, completion_trace-Spares,
}
use cxlmem_uring.Firmware.Service.{announce_lem, announce_outside, announce-IsBytes}
use cxlmem_uring.Protocol.Handover.{at_install_job-read, run_job-install, submit_job-IsBytes}

-- The lines that hold the bytes of a range.
abbrev pub lines_of : ℕ → ℕ → ℕ
lines_of addr size = (addr + size - 1) / cacheline_size - addr / cacheline_size + 1

-- A job that the device can do: its range is given and does not reach the last line of the address
-- space, and its completion line is given and lies outside the window.
pub record Sound (w : Window) (job : InstallCachelineJob) : Type 0 where
  pub fits : FitsInstallJob job
  pub addr_given : job.addr ≢ 0
  pub size_given : job.size ≢ 0
  pub range_in : job.addr + job.size + cacheline_size ≤ 2 ^ 64
  pub line_given : job.completion_addr ≢ 0
  pub line_apart : Apart job.completion_addr 32 w.base control_bytes

run_install_lem :
    (job : InstallCachelineJob) (c : Cycles) (m : Memory)
    → IsBytes m
    → job.addr ≢ 0
    → job.size ≢ 0
    → job.addr + job.size + cacheline_size ≤ 2 ^ 64
    → job.completion_addr ≢ 0
    → run_install (some job) c m ≡ (
      status_success,
      perform
          (completion_trace job.completion_addr status_success (lines_of job.addr job.size) c)
          m,
    )
unfolding run_install write_completion
run_install_lem job c m v ha hs hb hc =
    rw (given, install_range_lem job.addr job.size m v ha hs hb, nonnull)
  where
    given : (job.addr == 0 || job.size == 0) ≡ false
    given = ground arith

    nonnull : (job.completion_addr == 0) ≡ false
    nonnull = ground arith

-- What the host finds after the service of a memory `m`.
abbrev Serviced : Callee → Cycles → Window → InstallCachelineJob → ℕ → Memory → Type 0
Serviced callee c w job seq m =
    let (status, m') = service_once callee c w.base m in
    (status ≡ status_success)
    × (at_completion job.completion_addr m'
        ≡ completed status_success (lines_of job.addr job.size) c)
    × (at_host_status (w.base + status_off) m' ≡ mirrored 1 seq status_success)
    × ((p : ℕ) → Apart p 1 w.base control_bytes → Apart p 1 job.completion_addr 32 → m' p ≡ m p)

-- The device's side: a window that holds the doorbell, the header and the payload of the job.
module _ (callee : Callee) (c : Cycles) (w : Window) (job : InstallCachelineJob) (flags seq : ℕ)
    (m : Memory) (all_bytes : IsBytes m) (mapped : w.base ≢ 0) (sound : Sound w job)
    (hs : seq < 2 ^ 64) (hc : c.stamp < 2 ^ 64)
    (bell : at_doorbell (doorbell_at w) m ≡ doorbell_record 1 flags seq)
    (slot : at_arg_slot (slot_at w 1) m ≡ slot_header 1 seq 32)
    (payload : read 32 (payload_at w 1) m ≡ encode_install_job job) where
  abbrev local : Doorbell
  local = doorbell_record 1 flags seq

  abbrev started : Memory
  started = announce w.base local status_running m

  abbrev worked : Memory
  worked =
      perform (completion_trace job.completion_addr status_success (lines_of job.addr job.size) c)
        started

  started-Agree : (p n : ℕ) → w.base + 32 ≤ p → p + n ≤ w.base + status_off → Agree p n started m
  started-Agree p n h g q a b =
      announce_outside w.base local status_running m q (omega arith) (omega arith)

  run_job_done : run_job callee w.base local c started ≡ (status_success, worked)
  unfolding arg_slot_off
  run_job_done =
      run_job-install callee w.base flags seq 32 job c started mapped (omega arith)
        (at_arg_slot-Agree (slot_at w 1) started m
            (started-Agree (slot_at w 1) 32 (omega arith) (omega arith))
          ∙ slot)
        (at_install_job-read job (payload_at w 1) started sound.fits (
          read-Agree 32 (payload_at w 1) started m
            (started-Agree (payload_at w 1) 32 (omega arith) (omega arith))
          ∙ payload))
      ∙ run_install_lem job c started (announce-IsBytes w.base local status_running m all_bytes)
          sound.addr_given sound.size_given sound.range_in sound.line_given

  service_done :
      service_once callee c w.base m ≡ (status_success, announce w.base local status_success worked)
  unfolding service_once serve valid_magic
  service_done = rw (nonnull, bell) (rw run_job_done)
    where
      nonnull : (w.base == 0) ≡ false
      nonnull = ground arith

  serviced : Serviced callee c w job seq m
  serviced = rw service_done (
    refl,
    at_completion-Agree job.completion_addr _ worked (λ q a b.
          announce_outside w.base local status_success worked q (omega (arith, sound.line_apart))
            (omega (arith, sound.line_apart)))
        ∙ completion_trace_whole job.completion_addr status_success (lines_of job.addr job.size) c
            started (omega arith) (omega (arith, sound.range_in)) hc,
    (announce_lem w.base local status_success worked mapped (omega arith) hs (omega arith)).0,
    λ p h g.
        announce_outside w.base local status_success worked p (omega arith) (omega arith)
        ∙ perform_outside p _ started
            (completion_trace-Spares p 1 job.completion_addr status_success _ c g)
        ∙ announce_outside w.base local status_running m p (omega arith) (omega arith),
  )

-- What the host submits for an install job.
abbrev pub submit_install : Window → InstallCachelineJob → ℕ → Memory → Submitted
submit_install w job flags m = submit_job (some w) 1 (some (encode_install_job job)) 32 flags m

-- For a sound install job submitted to a window that accepts it, with a counter of 64 bits and a
-- flag word of 32, in a memory of bytes, and then served once by the device, whose time stamp has 64
-- bits: the service succeeds; the host's completion line carries the magic, success and the number
-- of lines that hold the range; the status record shows the job under the number that the host was
-- given; and no byte outside the window and the line has changed.
pub install_offload :
    (callee : Callee) (c : Cycles) (w : Window) (job : InstallCachelineJob) (flags : ℕ) (m : Memory)
    → Accepts w 1 (some (encode_install_job job)) 32
    → Sound w job
    → w.next_seq < 2 ^ 64
    → flags < 2 ^ 32
    → c.stamp < 2 ^ 64
    → IsBytes m
    → let (status, m') = service_once callee c w.base (submit_install w job flags m).memory in
      (status ≡ status_success)
      × (at_completion job.completion_addr m'
          ≡ completed status_success (lines_of job.addr job.size) c)
      × (at_host_status (w.base + status_off) m' ≡ mirrored 1 (take_seq w).0 status_success)
      × ((p : ℕ) → Apart p 1 w.base control_bytes → Apart p 1 job.completion_addr 32 → m' p ≡ m p)
unfolding encode_install_job bytes arg_slot_off
install_offload callee c w job flags m a sound hn hf hc v =
    (found.0, found.1, found.2, λ p g h. found.3 p g h ∙ held.6 p (omega arith) (omega arith))
  where
    sent : Submitted
    sent = submit_install w job flags m

    held : Committed w 1 (encode_install_job job) 32 flags m sent
    held =
        submit_job-Committed w 1 (some (encode_install_job job)) 32 flags m a hn hf refl
          (encode_install_job-All job)

    found : Serviced callee c w job (take_seq w).0 sent.memory
    found =
        serviced callee c w job flags (take_seq w).0 sent.memory
          (submit_job-IsBytes w 1 (some (encode_install_job job)) 32 flags m a v) a.mapped sound
          (take_seq_lem w hn).1 hc held.3 held.4 held.5
