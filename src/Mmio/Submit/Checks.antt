-- ===== src/Mmio/Submit/Checks.antt =====
-- `cira_mmio_submit_job`: which submissions are refused, and the sequence numbers.
use cxlmem_uring.Base.{
  inr, inl, ℕ, ◌+◌, ◌%◌, ◌^◌, ◌≤◌, ◌<◌, ◌≡◌, ◌≢◌, ◌⊎◌, false, Option, none, some, List, arith, ◌==◌,
  if◌then◌else◌,
}
use cxlmem_uring.Memory.{Memory}
use cxlmem_uring.Job.{job_max, arg_payload_bytes, control_bytes, arg_slot_off}
use cxlmem_uring.Mmio.{Rc-cases, Window, ok, in_range, missing, contents}
use cxlmem_uring.Mmio.Submit.{take_seq, commit_job, submit_window, submit_job}

-- What a caller has to give, on a window as `cira_mmio_open` makes it.
pub record Accepts (w : Window) (job_id : ℕ) (args : Option (List ℕ)) (arg_len : ℕ) : Type 0 where
  pub mapped : w.base ≢ 0
  pub writable : w.read_only ≡ false
  pub sized : control_bytes ≤ w.size
  pub job_pos : 0 < job_id
  pub job_le : job_id ≤ job_max
  pub fits : arg_len ≤ arg_payload_bytes
  pub given : (arg_len ≡ 0) ⊎ (missing args ≡ false)

pub submit_job-Accepts :
    (w : Window) (job_id : ℕ) (args : Option (List ℕ)) (arg_len flags : ℕ) (m : Memory)
    → Accepts w job_id args arg_len
    → submit_job (some w) job_id args arg_len flags m
      ≡ commit_job w job_id (contents args arg_len) arg_len flags m
unfolding submit_job submit_window in_range arg_slot_off
submit_job-Accepts w job_id args arg_len flags m a = ground arith

submit_job_outcome :
    (w : Window) (job_id : ℕ) (args : Option (List ℕ)) (arg_len flags : ℕ) (m : Memory)
    → w.base ≢ 0
    → control_bytes ≤ w.size
    → let r = submit_job (some w) job_id args arg_len flags m in
      (r.rc ≡ ok → Accepts w job_id args arg_len)
      × (Accepts w job_id args arg_len → r.rc ≡ ok)
      × (r.rc ≢ ok → (r.memory ≡ m) × (r.window ≡ some w) × (r.out_seq ≡ none))
unfolding submit_job submit_window in_range arg_slot_off commit_job
submit_job_outcome w job_id args arg_len flags m mapped sized =
    (λ e. ground arith, λ a. ground arith, λ e. ground arith)

-- On a window that is mapped and has the whole control area, any submission: it is accepted exactly
-- when the window is writable, the job id is one of the four jobs, the arguments fit the slot and
-- are given if any are announced; if it is not accepted, then the memory and the window are
-- unchanged and no sequence number is given.
pub submit_job_accepted :
    (w : Window) (job_id : ℕ) (args : Option (List ℕ)) (arg_len flags : ℕ) (m : Memory)
    → w.base ≢ 0
    → control_bytes ≤ w.size
    → let r = submit_job (some w) job_id args arg_len flags m in
      ((r.rc ≡ ok) × Accepts w job_id args arg_len)
      ⊎ ((r.rc ≢ ok)
          × (¬ Accepts w job_id args arg_len)
          × (r.memory ≡ m)
          × (r.window ≡ some w)
          × (r.out_seq ≡ none))
submit_job_accepted w job_id args arg_len flags m mapped sized =
    let found = submit_job_outcome w job_id args arg_len flags m mapped sized in
    elim (Rc-cases (submit_job (some w) job_id args arg_len flags m).rc) [
      | inl e ↦ inl (e, found.0 e)
      | inr ne ↦ let kept = found.2 ne in inr (ne, λ a. ne (found.1 a), kept.0, kept.1, kept.2)
    ]

-- For a counter below 2 ^ 64: the number taken is not 0, and is the counter or, where that was 0, 1;
-- the next counter is the number after it, modulo 2 ^ 64.
pub take_seq_lem :
    (w : Window)
    → w.next_seq < 2 ^ 64
    → let (seq, w') = take_seq w in
      (seq ≢ 0)
      × (seq < 2 ^ 64)
      × (seq ≡ (if w.next_seq == 0 then 1 else w.next_seq))
      × (w'.next_seq ≡ (seq + 1) % 2 ^ 64)
unfolding take_seq
take_seq_lem w h = ground arith
