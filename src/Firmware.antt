-- ===== src/Firmware.antt =====
-- runtime/vortex_device.cpp, the CXL Type-2 firmware: the service of a doorbell and its loop.
pub mod Cachelines
pub mod Status
pub mod Jobs
pub mod Agree
pub mod Publish
pub mod Service
use cxlmem_uring.Base.{ℕ, ◌+◌, Bool, true, false, not, ◌&&◌, ◌==◌, if◌then◌else◌}
use cxlmem_uring.Memory.{Memory, load, store}
use cxlmem_uring.Job.{Doorbell, valid_magic, doorbell_off, status_running, status_bad_args}
use cxlmem_uring.Job.Wire.{at_doorbell}
use Status.{Cycles, mirror_status}
use Jobs.{Callee, run_job}

-- The doorbell's status field and the mirrored record, set to `status`.
unfoldable pub announce : ℕ → Doorbell → ℕ → Memory → Memory
announce control local status m =
    mirror_status control local.job_id local.seq status
      (store 4 (control + doorbell_off + 20) status m)

-- A doorbell with a valid magic: announce it as running, run it, announce its status.
unfoldable pub serve : Callee → Cycles → ℕ → Doorbell → Memory → ℕ × Memory
serve callee c control local m =
    let (status, m') = run_job callee control local c (announce control local status_running m) in
    (status, announce control local status m')

unfoldable pub service_once : Callee → Cycles → ℕ → Memory → ℕ × Memory
service_once callee c control m =
    let local = at_doorbell (control + doorbell_off) m in
    if control == 0
    then (status_bad_args, m)
    else if not (valid_magic local.magic)
    then (status_bad_args, m)
    else serve callee c control local m

-- One round of `vortex_cxl_firmware_loop` after `last_seq`: the new `last_seq` and the memory. Where
-- nothing is to be done the device waits for an interrupt.
unfoldable pub loop_step : Callee → Cycles → ℕ → ℕ → Memory → ℕ × Memory
loop_step callee c control last_seq m =
    let local = at_doorbell (control + doorbell_off) m in
    if valid_magic local.magic && not (local.seq == last_seq)
    then (local.seq, (service_once callee c control m).1)
    else (last_seq, m)
