-- ===== src/Mmio/Submit/Order.antt =====
-- `cira_mmio_submit_job`: the doorbell's sequence number is stored last.
use mathlib.Core.Path.{subst}
use mathlib.Core.List.{append_assoc}
use cxlmem_uring.Base.{
  ℕ, zero, suc, if_suc, ◌+◌, ◌*◌, ◌/◌, ◌≤◌, ◌≡◌, ◌≢◌, ◌⊎◌, inl, inr, refl, sym, ap, ◌∙◌, Option,
  some, List, [], ◌∷◌, ◌++◌, arith, length, take, drop, length-drop,
}
use cxlmem_uring.Memory.{Memory, load, bytes, value}
use cxlmem_uring.Memory.Ranges.{Apart}
use cxlmem_uring.Memory.Traces.{Store, perform, Spares, Spares-append, prefix_unseen}
use cxlmem_uring.Job.{arg_slot_off, arg_payload_bytes}
use cxlmem_uring.Job.Wire.{encode_doorbell, encode_arg_slot}
use cxlmem_uring.Job.Fields.{length-encode_arg_slot}
use cxlmem_uring.Mmio.{Window, contents}
use cxlmem_uring.Mmio.Copy.{store_trace, word_stores, byte_stores}
use cxlmem_uring.Mmio.Submit.{
  take_seq, submit_trace, payload_trace, commit_job, submit_job, slot_header, doorbell_record,
}
use cxlmem_uring.Mmio.Submit.Checks.{Accepts, submit_job-Accepts}
use cxlmem_uring.Mmio.Submit.Committed.{slot_at, payload_at, doorbell_at}

word_stores-Spares :
    (p k n a : ℕ) (bs : List ℕ) → Apart p k a (8 * n) → Spares p k (word_stores n a bs)
unfolding word_stores
word_stores-Spares p k zero a bs h = tt
word_stores-Spares p k (suc n) a bs h =
    (omega arith, word_stores-Spares p k n (a + 8) (drop 8 bs) (omega arith))

byte_stores-Spares :
    (p k a : ℕ) (bs : List ℕ) → Apart p k a (length bs) → Spares p k (byte_stores a bs)
unfolding byte_stores
byte_stores-Spares p k a [] h = tt
byte_stores-Spares p k a (b ∷ bs) h = (omega arith, byte_stores-Spares p k (a + 1) bs (omega arith))

store_trace-Spares :
    (p k a : ℕ) (bs : List ℕ) → Apart p k a (length bs) → Spares p k (store_trace a bs)
unfolding store_trace
store_trace-Spares p k a bs h =
    let n = length bs / 8 in
    Spares-append p k (word_stores n a bs) (byte_stores (a + 8 * n) (drop (8 * n) bs))
      (word_stores-Spares p k n a bs (omega arith))
      (byte_stores-Spares p k (a + 8 * n) (drop (8 * n) bs) (omega (arith, length-drop (8 * n) bs)))

payload_trace-Spares :
    (p k a : ℕ) (bs : List ℕ) (len : ℕ)
    → Apart p k a (length bs)
    → Spares p k (payload_trace a bs len)
unfolding payload_trace
payload_trace-Spares p k a bs zero h = tt
payload_trace-Spares p k a bs (suc n) h =
    subst (Spares p k) (sym (if_suc n [] (store_trace a bs))) (store_trace-Spares p k a bs h)

module _ (w : Window) (job_id : ℕ) (payload : List ℕ) (arg_len flags seq : ℕ) where
  -- The last store, and those before it.
  last : Store
  last = record { width = 8; addr = doorbell_at w + 8 + 8 + 8; word = value (bytes 8 seq) }

  doorbell_head : List Store
  doorbell_head =
      take 3 (store_trace (doorbell_at w) (encode_doorbell (doorbell_record job_id flags seq)))

  store_trace-doorbell :
      store_trace (doorbell_at w) (encode_doorbell (doorbell_record job_id flags seq))
      ≡ doorbell_head ++ last ∷ []
  unfolding last doorbell_head store_trace word_stores byte_stores encode_doorbell bytes
  store_trace-doorbell = refl

  doorbell_head-Spares : Spares (doorbell_at w + 24) 8 doorbell_head
  unfolding doorbell_head store_trace word_stores byte_stores encode_doorbell bytes
  doorbell_head-Spares = omega arith

  before_last : List Store
  before_last =
      payload_trace (payload_at w job_id) payload arg_len
      ++ (store_trace (slot_at w job_id) (encode_arg_slot (slot_header job_id seq arg_len))
          ++ doorbell_head)

  submit_trace-split :
      submit_trace w.base job_id payload arg_len flags seq ≡ before_last ++ last ∷ []
  unfolding submit_trace before_last
  submit_trace-split =
      let slot =
        store_trace (slot_at w job_id) (encode_arg_slot (slot_header job_id seq arg_len)) in
      let pay = payload_trace (payload_at w job_id) payload arg_len in
      ap (λ ss. pay ++ (slot ++ ss)) store_trace-doorbell
      ∙ ap (◌++◌ pay) (sym (append_assoc slot doorbell_head (last ∷ [])))
      ∙ sym (append_assoc pay (slot ++ doorbell_head) (last ∷ []))

  before_last-Spares :
      length payload ≤ arg_payload_bytes → Spares (doorbell_at w + 24) 8 before_last
  unfolding before_last arg_slot_off
  before_last-Spares h =
      Spares-append (doorbell_at w + 24) 8 _ _
        (payload_trace-Spares (doorbell_at w + 24) 8 (payload_at w job_id) payload arg_len
          (omega arith))
        (Spares-append (doorbell_at w + 24) 8 _ _
          (store_trace-Spares (doorbell_at w + 24) 8 (slot_at w job_id) _ (omega (arith, size)))
          doorbell_head-Spares)
    where
      size : length (encode_arg_slot (slot_header job_id seq arg_len)) ≡ 32
      size = length-encode_arg_slot (slot_header job_id seq arg_len)

  submit_trace_seen :
      (n : ℕ) (m : Memory)
      → length payload ≤ arg_payload_bytes
      → let trace = submit_trace w.base job_id payload arg_len flags seq in
        (load 8 (doorbell_at w + 24) (perform (take n trace) m) ≡ load 8 (doorbell_at w + 24) m)
        ⊎ (take n trace ≡ trace)
  submit_trace_seen n m h =
      rw submit_trace-split
        (prefix_unseen n 8 (doorbell_at w + 24) before_last last m (before_last-Spares h))

-- For an accepted submission of a buffer that fits a slot, whose stores the device sees in program
-- order, at any point of it: if the device's poll of the doorbell's sequence number reads anything
-- but what stood there before, then the memory it sees is that of the finished submission.
pub submit_job_ordered :
    (w : Window) (job_id : ℕ) (args : Option (List ℕ)) (arg_len flags : ℕ) (m : Memory) (n : ℕ)
    → Accepts w job_id args arg_len
    → length (contents args arg_len) ≤ arg_payload_bytes
    → let seen =
        perform
          (take n (submit_trace w.base job_id (contents args arg_len) arg_len flags (take_seq w).0))
          m in
      load 8 (doorbell_at w + 24) seen ≢ load 8 (doorbell_at w + 24) m
      → seen ≡ (submit_job (some w) job_id args arg_len flags m).memory
unfolding commit_job
submit_job_ordered w job_id args arg_len flags m n a h fresh =
    let payload = contents args arg_len in
    elim (submit_trace_seen w job_id payload arg_len flags (take_seq w).0 n m h) [
      | inl e ↦ absurd (fresh e)
      | inr e ↦
          ap (λ ss. perform ss m) e
          ∙ sym (ap (λ r. r.memory) (submit_job-Accepts w job_id args arg_len flags m a))
    ]
