-- ===== src/Mmio/Submit.antt =====
-- runtime/cira_mmio.cpp, job submission: `cira_mmio_submit_job` and `cira_mmio_submit_call`.
pub mod Checks
pub mod Committed
pub mod Order
use cxlmem_uring.Base.{
  ℕ, ◌+◌, ◌%◌, ◌^◌, not, ◌&&◌, ◌||◌, Option, none, some, List, [], ◌++◌, ◌==◌, ltb, if◌then◌else◌,
}
use cxlmem_uring.Memory.{Memory}
use cxlmem_uring.Memory.Traces.{Store, perform}
use cxlmem_uring.Job.{
  Doorbell, ArgSlot, CallJob, job_magic, job_version, job_nop, job_max, job_call, arg_payload_bytes,
  arg_slot_off, arg_slot_bytes, arg_slot_header_bytes, doorbell_off, doorbell_bytes, status_running,
}
use cxlmem_uring.Job.Wire.{encode_doorbell, encode_arg_slot, encode_call_job}
use cxlmem_uring.Mmio.{Window, Rc, ok, einval, enodev, erange, in_range, is_null, missing, contents}
use cxlmem_uring.Mmio.Copy.{store_trace}

pub record Submitted : Type 0 where
  pub rc : Rc
  pub window : Option Window
  pub memory : Memory
  pub out_seq : Option ℕ

-- `w->next_seq.fetch_add(1)` on a 64-bit counter.
unfoldable pub fetch_add_seq : Window → ℕ × Window
fetch_add_seq w = (w.next_seq, record w { next_seq = (w.next_seq + 1) % 2 ^ 64 })

-- The number 0 is skipped.
unfoldable pub take_seq : Window → ℕ × Window
unfolding fetch_add_seq
take_seq w = let (seq, w') = fetch_add_seq w in if seq == 0 then fetch_add_seq w' else (seq, w')

abbrev pub slot_header : ℕ → ℕ → ℕ → ArgSlot
slot_header job_id seq arg_len = record {
  magic = job_magic;
  version = job_version;
  job_id = job_id;
  seq = seq;
  arg_len = arg_len;
}

abbrev pub doorbell_record : ℕ → ℕ → ℕ → Doorbell
doorbell_record job_id flags seq = record {
  magic = job_magic;
  version = job_version;
  job_id = job_id;
  flags = flags;
  status = status_running;
  seq = seq;
}

-- The payload is staged only if there is one.
unfoldable pub payload_trace : ℕ → List ℕ → ℕ → List Store
payload_trace a payload arg_len = if arg_len == 0 then [] else store_trace a payload

-- The stores of a submission, in program order: payload, slot header, doorbell.
unfoldable pub submit_trace : ℕ → ℕ → List ℕ → ℕ → ℕ → ℕ → List Store
submit_trace base job_id payload arg_len flags seq =
    payload_trace (base + arg_slot_off job_id + arg_slot_header_bytes) payload arg_len
    ++ (store_trace (base + arg_slot_off job_id) (encode_arg_slot (slot_header job_id seq arg_len))
        ++ store_trace (base + doorbell_off) (encode_doorbell (doorbell_record job_id flags seq)))

refused : Rc → Option Window → Memory → Submitted
refused rc w m = record { rc = rc; window = w; memory = m; out_seq = none }

-- The part after the checks.
unfoldable pub commit_job : Window → ℕ → List ℕ → ℕ → ℕ → Memory → Submitted
unfolding take_seq
commit_job w job_id payload arg_len flags m =
    let (seq, w') = take_seq w in
    record {
      rc = ok;
      window = some w';
      memory = perform (submit_trace w.base job_id payload arg_len flags seq) m;
      out_seq = some seq;
    }

unfoldable pub submit_window : Window → ℕ → Option (List ℕ) → ℕ → ℕ → Memory → Submitted
unfolding refused commit_job
submit_window w job_id args arg_len flags m =
    if is_null w.base
    then refused enodev (some w) m
    else if w.read_only
    then refused einval (some w) m
    else if job_id == job_nop || ltb job_max job_id
    then refused einval (some w) m
    else if ltb arg_payload_bytes arg_len
    then refused erange (some w) m
    else if not (arg_len == 0) && missing args
    then refused einval (some w) m
    else if not (in_range (some w) (arg_slot_off job_id) arg_slot_bytes)
        || not (in_range (some w) doorbell_off doorbell_bytes)
    then refused erange (some w) m
    else commit_job w job_id (contents args arg_len) arg_len flags m

unfoldable pub submit_job : Option Window → ℕ → Option (List ℕ) → ℕ → ℕ → Memory → Submitted
unfolding refused submit_window
submit_job none job_id args arg_len flags m = refused enodev none m
submit_job (some w) job_id args arg_len flags m = submit_window w job_id args arg_len flags m

-- `device_func` is the answer of `cira_mmio_device_func()`, 0 for none.
unfoldable pub submit_call : Option Window → ℕ → ℕ → ℕ → ℕ → ℕ → Memory → Submitted
unfolding refused submit_job
submit_call w func operands num_operands completion device_func m =
    let target = if is_null func then device_func else func in
    if not (num_operands == 0) && is_null operands
    then refused einval w m
    else if is_null target
    then refused enodev w m
    else submit_job w job_call (some (encode_call_job (job target))) 32 0 m
  where
    job : ℕ → CallJob
    job target = record {
      func_addr = target;
      operands_addr = operands;
      completion_addr = completion;
      num_operands = num_operands;
      reserved = 0;
    }
