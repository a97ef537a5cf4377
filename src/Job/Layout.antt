-- ===== src/Job/Layout.antt =====
-- The regions of the control window do not overlap and lie inside it.
use cxlmem_uring.Base.{ℕ, ◌+◌, ◌≤◌, ◌≢◌, arith}
use cxlmem_uring.Memory.Ranges.{Apart}
use cxlmem_uring.Job.{
  arg_slot_off, arg_slot_bytes, control_bytes, doorbell_off, doorbell_bytes, status_off,
  host_status_bytes, job_max,
}

-- For any two different job ids up to the largest: their slots are disjoint, and the first slot is
-- disjoint from the doorbell and from the status record, and ends inside the window.
pub arg_slots-Apart :
    (i j : ℕ)
    → i ≤ job_max
    → j ≤ job_max
    → i ≢ j
    → Apart (arg_slot_off i) arg_slot_bytes (arg_slot_off j) arg_slot_bytes
      × Apart (arg_slot_off i) arg_slot_bytes doorbell_off doorbell_bytes
      × Apart (arg_slot_off i) arg_slot_bytes status_off host_status_bytes
      × (arg_slot_off i + arg_slot_bytes ≤ control_bytes)
unfolding arg_slot_off
arg_slots-Apart i j hi hj ne = ground arith
