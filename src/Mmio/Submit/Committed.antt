-- ===== src/Mmio/Submit/Committed.antt =====
-- `cira_mmio_submit_job`: what stands in the control window after an accepted submission.
use mathlib.Core.Path.{subst}
use cxlmem_uring.Base.{
  ℕ, ◌+◌, ◌^◌, ◌≤◌, ◌<◌, ◌≡◌, ◌≢◌, refl, sym, ap, ◌∙◌, Option, some, List, [], ◌∷◌, arith, if_suc,
  length, All,
}
use cxlmem_uring.Memory.{Memory, write, read, bytes}
use cxlmem_uring.Memory.Ranges.{Apart, read-write-Apart, read-write_self, write_outside}
use cxlmem_uring.Memory.Traces.{perform, perform-append}
use cxlmem_uring.Job.{
  job_max, arg_slot_off, arg_slot_header_bytes, doorbell_off, arg_slot_bytes, arg_payload_bytes,
  doorbell_bytes,
}
use cxlmem_uring.Job.Wire.{at_doorbell, at_arg_slot, encode_doorbell, encode_arg_slot}
use cxlmem_uring.Job.Fields.{
  at_doorbell-encode, at_arg_slot-encode, at_arg_slot-write-Apart, encode_doorbell-All,
  encode_arg_slot-All,
}
use cxlmem_uring.Mmio.{Window, contents, ok}
use cxlmem_uring.Mmio.Copy.{store_trace, store_bytes, store_bytes-eq-write}
use cxlmem_uring.Mmio.Submit.{
  Submitted, take_seq, submit_trace, payload_trace, commit_job, submit_job, slot_header,
  doorbell_record,
}
use cxlmem_uring.Mmio.Submit.Checks.{Accepts, submit_job-Accepts, take_seq_lem}

abbrev pub slot_at : Window → ℕ → ℕ
slot_at w job_id = w.base + arg_slot_off job_id

abbrev pub payload_at : Window → ℕ → ℕ
payload_at w job_id = w.base + arg_slot_off job_id + arg_slot_header_bytes

abbrev pub doorbell_at : Window → ℕ
doorbell_at w = w.base + doorbell_off

perform-store_trace :
    (a : ℕ) (bs : List ℕ) (m : Memory)
    → All (λ b. b < 256) bs
    → perform (store_trace a bs) m ≡ write a bs m
unfolding store_bytes
perform-store_trace a bs m v = store_bytes-eq-write a bs m v

perform-payload_trace :
    (a : ℕ) (bs : List ℕ) (m : Memory)
    → All (λ b. b < 256) bs
    → perform (payload_trace a bs (length bs)) m ≡ write a bs m
unfolding payload_trace perform write
perform-payload_trace a [] m v = refl
perform-payload_trace a (b ∷ bs) m v =
    ap (λ ss. perform ss m) (if_suc (length bs) _ _) ∙ perform-store_trace a (b ∷ bs) m v

module _ (w : Window) (job_id : ℕ) (payload : List ℕ) (flags seq : ℕ) (m : Memory) where
  -- The memory after each of the three parts.
  abbrev staged : Memory
  staged = write (payload_at w job_id) payload m

  abbrev headed : Memory
  headed =
      write (slot_at w job_id) (encode_arg_slot (slot_header job_id seq (length payload))) staged

  abbrev rung : Memory
  rung = write (doorbell_at w) (encode_doorbell (doorbell_record job_id flags seq)) headed

  perform-submit_trace :
      All (λ b. b < 256) payload
      → perform (submit_trace w.base job_id payload (length payload) flags seq) m ≡ rung
  unfolding submit_trace
  perform-submit_trace v =
      perform-append (payload_trace (payload_at w job_id) payload (length payload)) _ m
      ∙ perform-append (store_trace (slot_at w job_id) _) _ _
      ∙ perform-store_trace (doorbell_at w) _ _ (encode_doorbell-All _)
      ∙ ap (write (doorbell_at w) (encode_doorbell (doorbell_record job_id flags seq))) (
          perform-store_trace (slot_at w job_id) _ _ (encode_arg_slot-All _)
          ∙ ap
              (write (slot_at w job_id) (encode_arg_slot (slot_header job_id seq (length payload))))
              (perform-payload_trace (payload_at w job_id) payload m v))

  -- What the three parts leave.
  rung_lem :
      job_id ≤ job_max
      → length payload ≤ arg_payload_bytes
      → flags < 2 ^ 32
      → seq < 2 ^ 64
      → (at_doorbell (doorbell_at w) rung ≡ doorbell_record job_id flags seq)
        × (at_arg_slot (slot_at w job_id) rung ≡ slot_header job_id seq (length payload))
        × (read (length payload) (payload_at w job_id) rung ≡ payload)
        × ((p : ℕ)
            → Apart p 1 (doorbell_at w) doorbell_bytes
            → Apart p 1 (slot_at w job_id) arg_slot_bytes
            → rung p ≡ m p)
  unfolding arg_slot_off encode_doorbell encode_arg_slot bytes
  rung_lem hj hl hf hs = (
    at_doorbell-encode _ (doorbell_at w) headed (omega arith),
    at_arg_slot-write-Apart (slot_at w job_id) (doorbell_at w) _ headed (omega arith)
        ∙ at_arg_slot-encode _ (slot_at w job_id) staged (omega arith),
    read-write-Apart (length payload) (payload_at w job_id) (doorbell_at w) _ headed (omega arith)
        ∙ read-write-Apart (length payload) (payload_at w job_id) (slot_at w job_id) _ staged
            (omega arith)
        ∙ read-write_self (payload_at w job_id) payload m,
    λ p d s.
        write_outside (doorbell_at w) _ headed p (omega arith)
        ∙ write_outside (slot_at w job_id) _ staged p (omega arith)
        ∙ write_outside (payload_at w job_id) payload m p (omega arith),
  )

-- The window holds the job, under the number that the caller was given, and nothing else changed.
abbrev pub Committed : Window → ℕ → List ℕ → ℕ → ℕ → Memory → Submitted → Type 0
Committed w job_id payload arg_len flags m r =
    let seq = (take_seq w).0 in
    (r.rc ≡ ok)
    × (r.out_seq ≡ some seq)
    × (seq ≢ 0)
    × (at_doorbell (doorbell_at w) r.memory ≡ doorbell_record job_id flags seq)
    × (at_arg_slot (slot_at w job_id) r.memory ≡ slot_header job_id seq arg_len)
    × (read arg_len (payload_at w job_id) r.memory ≡ payload)
    × ((p : ℕ)
        → Apart p 1 (doorbell_at w) doorbell_bytes
        → Apart p 1 (slot_at w job_id) arg_slot_bytes
        → r.memory p ≡ m p)

commit_job_lem :
    (w : Window) (job_id : ℕ) (payload : List ℕ) (flags : ℕ) (m : Memory)
    → job_id ≤ job_max
    → length payload ≤ arg_payload_bytes
    → w.next_seq < 2 ^ 64
    → flags < 2 ^ 32
    → All (λ b. b < 256) payload
    → Committed w job_id payload
        (length payload)
        flags
        m
        (commit_job w job_id payload (length payload) flags m)
unfolding commit_job
commit_job_lem w job_id payload flags m hj hl hs hf v =
    (refl, refl, seq.0, moved.0, moved.1, moved.2, moved.3)
  where
    seq : ((take_seq w).0 ≢ 0) × ((take_seq w).0 < 2 ^ 64)
    seq = let q = take_seq_lem w hs in (q.0, q.1)

    Window_holds : Memory → Type 0
    Window_holds n =
        (at_doorbell (doorbell_at w) n ≡ doorbell_record job_id flags (take_seq w).0)
        × (at_arg_slot (slot_at w job_id) n ≡ slot_header job_id (take_seq w).0 (length payload))
        × (read (length payload) (payload_at w job_id) n ≡ payload)
        × ((p : ℕ)
            → Apart p 1 (doorbell_at w) doorbell_bytes
            → Apart p 1 (slot_at w job_id) arg_slot_bytes
            → n p ≡ m p)

    moved :
        Window_holds
          (perform (submit_trace w.base job_id payload (length payload) flags (take_seq w).0) m)
    moved =
        subst Window_holds (sym (perform-submit_trace w job_id payload flags (take_seq w).0 m v))
          (rung_lem w job_id payload flags (take_seq w).0 m hj hl hf seq.1)

-- An accepted submission of `arg_len` bytes that the caller's buffer holds, with a 32-bit flag word
-- and a counter of 64 bits: it returns ok and a sequence number that is not 0; the doorbell and the
-- slot of the job read back as the records of this job under that number; the payload of the slot is
-- the caller's bytes; and no byte outside the doorbell and the slot has changed.
pub submit_job-Committed :
    (w : Window) (job_id : ℕ) (args : Option (List ℕ)) (arg_len flags : ℕ) (m : Memory)
    → Accepts w job_id args arg_len
    → w.next_seq < 2 ^ 64
    → flags < 2 ^ 32
    → length (contents args arg_len) ≡ arg_len
    → All (λ b. b < 256) (contents args arg_len)
    → Committed w job_id
        (contents args arg_len)
        arg_len
        flags
        m
        (submit_job (some w) job_id args arg_len flags m)
submit_job-Committed w job_id args arg_len flags m a hs hf size v =
    let payload = contents args arg_len in
    subst (Committed w job_id payload arg_len flags m)
      (sym (submit_job-Accepts w job_id args arg_len flags m a))
      (subst (λ n. Committed w job_id payload n flags m (commit_job w job_id payload n flags m))
        size (commit_job_lem w job_id payload flags m a.job_le (omega arith) hs hf v))
