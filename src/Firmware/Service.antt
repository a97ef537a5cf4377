-- ===== src/Firmware/Service.antt =====
-- The service of one doorbell: what it announces before and after the job.
use cxlmem_uring.Base.{
  ◌⊎◌, ℕ, ◌+◌, ◌^◌, ◌<◌, ◌≡◌, ◌≢◌, refl, ◌∙◌, inl, inr, true, false, ◌==◌, arith, Bool-cases,
  Option, none, some,
}
use cxlmem_uring.Memory.{Memory, IsBytes, load, store}
use cxlmem_uring.Memory.Ranges.{Apart, load-store_self, load-lt, store_outside, store-IsBytes}
use cxlmem_uring.Memory.Traces.{load-perform_spared, perform_outside, perform-IsBytes}
use cxlmem_uring.Job.{
  InstallCachelineJob, Doorbell, doorbell_off, status_off, valid_magic, status_running,
  status_bad_args,
}
use cxlmem_uring.Job.Wire.{at_doorbell, at_host_status, at_install_job}
use cxlmem_uring.Firmware.Status.{Cycles, mirror_status, mirror_trace}
use cxlmem_uring.Firmware.Jobs.{
  job_at, checked_arg, arg_slot, Callee, run_job, run_install, run_prefetch_chain,
  run_stream_prefetch, run_call,
}
use cxlmem_uring.Firmware.{announce, serve, service_once}
use cxlmem_uring.Firmware.Publish.{mirrored, mirror_trace_whole, mirror_trace-Spares}

-- After an announcement the status record and the doorbell's status field show it.
pub announce_lem :
    (control : ℕ) (local : Doorbell) (status : ℕ) (m : Memory)
    → control ≢ 0
    → local.job_id < 2 ^ 32
    → local.seq < 2 ^ 64
    → status < 2 ^ 32
    → let m' = announce control local status m in
      (at_host_status (control + status_off) m' ≡ mirrored local.job_id local.seq status)
      × (load 4 (control + doorbell_off + 20) m' ≡ status)
unfolding announce mirror_status
announce_lem control local status m hc hj hq hs = rw nonnull (
  mirror_trace_whole host local.job_id local.seq status (store 4 field status m) hj hq hs,
  load-perform_spared 4 field (mirror_trace host local.job_id local.seq status)
        (store 4 field status m)
        (mirror_trace-Spares field 4 host local.job_id local.seq status (omega arith))
      ∙ load-store_self 4 field status m hs,
)
  where
    host : ℕ
    host = control + status_off

    field : ℕ
    field = control + doorbell_off + 20

    nonnull : (control == 0) ≡ false
    nonnull = ground arith

-- It changes no byte outside the two.
pub announce_outside :
    (control : ℕ) (local : Doorbell) (status : ℕ) (m : Memory) (p : ℕ)
    → Apart p 1 (control + doorbell_off + 20) 4
    → Apart p 1 (control + status_off) 32
    → announce control local status m p ≡ m p
unfolding announce mirror_status
announce_outside control local status m p h g = elim (Bool-cases (control == 0)) [
  | inl null ↦ rw null (store_outside 4 (control + doorbell_off + 20) status m p h)
  | inr nonnull ↦ rw nonnull (
      perform_outside p (mirror_trace (control + status_off) local.job_id local.seq status)
        (store 4 (control + doorbell_off + 20) status m)
        (mirror_trace-Spares p 1 (control + status_off) local.job_id local.seq status g)
      ∙ store_outside 4 (control + doorbell_off + 20) status m p h)
]

pub announce-IsBytes :
    (control : ℕ) (local : Doorbell) (status : ℕ) (m : Memory)
    → IsBytes m
    → IsBytes (announce control local status m)
unfolding announce mirror_status
announce-IsBytes control local status m v = elim (Bool-cases (control == 0)) [
  | inl null ↦ rw null (store-IsBytes 4 (control + doorbell_off + 20) status m v)
  | inr nonnull ↦ rw nonnull (
      perform-IsBytes (mirror_trace (control + status_off) local.job_id local.seq status)
        (store 4 (control + doorbell_off + 20) status m)
        (store-IsBytes 4 (control + doorbell_off + 20) status m v))
]

-- Every job ends with a status of 32 bits.
run_install_lt :
    (job : Option InstallCachelineJob) (c : Cycles) (m : Memory) → (run_install job c m).0 < 2 ^ 32
unfolding run_install
run_install_lt none c m = omega arith
run_install_lt (some job) c m = ground arith

run_prefetch_chain_lt :
    (job : Option ℕ) (c : Cycles) (m : Memory) → (run_prefetch_chain job c m).0 < 2 ^ 32
unfolding run_prefetch_chain
run_prefetch_chain_lt none c m = omega arith
run_prefetch_chain_lt (some job) c m = ground arith

run_stream_prefetch_lt :
    (job : Option ℕ) (c : Cycles) (m : Memory) → (run_stream_prefetch job c m).0 < 2 ^ 32
unfolding run_stream_prefetch
run_stream_prefetch_lt none c m = omega arith
run_stream_prefetch_lt (some job) c m = ground arith

run_call_lt :
    (callee : Callee) (job : Option ℕ) (c : Cycles) (m : Memory)
    → (run_call callee job c m).0 < 2 ^ 32
unfolding run_call
run_call_lt callee none c m = omega arith
run_call_lt callee (some job) c m = ground arith

run_job_status_lt :
    (callee : Callee) (control : ℕ) (doorbell : Doorbell) (c : Cycles) (m : Memory)
    → (run_job callee control doorbell c m).0 < 2 ^ 32
unfolding run_job
run_job_status_lt callee control doorbell c m = ground (
  arith,
  run_install_lt (job_at at_install_job (checked_arg 32 slot doorbell m) m) c m,
  run_prefetch_chain_lt (checked_arg 40 slot doorbell m) c m,
  run_stream_prefetch_lt (checked_arg 48 slot doorbell m) c m,
  run_call_lt callee (checked_arg 32 slot doorbell m) c m,
)
  where
    slot : Option ℕ
    slot = arg_slot control doorbell.job_id

-- For a memory of bytes and a control window that is not null: if the doorbell has a valid magic,
-- then, whatever its job, after its service the status record shows the job's id, its number and the
-- status that the service returns, and the doorbell's status field shows that status too; with any
-- other magic the service returns bad arguments and changes nothing.
pub service_once_announces :
    (callee : Callee) (c : Cycles) (control : ℕ) (m : Memory)
    → IsBytes m
    → control ≢ 0
    → let local = at_doorbell (control + doorbell_off) m in
      let (status, m') = service_once callee c control m in
      ((valid_magic local.magic ≡ true)
        × (at_host_status (control + status_off) m' ≡ mirrored local.job_id local.seq status)
        × (load 4 (control + doorbell_off + 20) m' ≡ status))
      ⊎ ((valid_magic local.magic ≡ false) × (status ≡ status_bad_args) × (m' ≡ m))
unfolding service_once serve at_doorbell
service_once_announces callee c control m v hc = elim (Bool-cases (valid_magic local.magic)) [
  | inl valid ↦ inl (
      rw (nonnull, valid)
        (let shown =
            announce_lem control local done.0 done.1 hc (load-lt 4 _ m v) (load-lt 8 _ m v) (
              run_job_status_lt callee control local c (announce control local status_running m)) in
          (refl, shown.0, shown.1)))
  | inr invalid ↦ inr (rw (nonnull, invalid) (refl, refl, refl))
]
  where
    local : Doorbell
    local = at_doorbell (control + doorbell_off) m

    done : ℕ × Memory
    done = run_job callee control local c (announce control local status_running m)

    nonnull : (control == 0) ≡ false
    nonnull = ground arith
