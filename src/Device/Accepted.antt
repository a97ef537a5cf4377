-- ===== src/Device/Accepted.antt =====
-- runtime/vortex_device.cpp: a job that `vortex_cxl_submit_job_mmio` submits, as the firmware finds
-- it.
use cxlmem_uring.Base.{
  subst, if◌then◌else◌, ◌==◌, take, true, true, ℕ, ◌+◌, ◌^◌, ◌≤◌, ◌<◌, ◌≡◌, ◌≢◌, refl, sym, ap, ◌∙◌,
  none, some, List, [], ◌∷◌, arith, All, length, if_suc,
}
use cxlmem_uring.Memory.{bytes, Memory, write, read}
use cxlmem_uring.Memory.Ranges.{read-write-Apart, read-write_self}
use cxlmem_uring.Memory.Traces.{Store, perform, perform-append}
use cxlmem_uring.Job.{
  valid_magic, job_call, arg_payload_bytes, arg_slot_off, arg_slot_header_bytes, doorbell_off,
}
use cxlmem_uring.Job.Wire.{encode_doorbell, encode_arg_slot, at_doorbell, at_arg_slot}
use cxlmem_uring.Job.Fields.{
  at_doorbell-encode, at_arg_slot-encode, at_arg_slot-write-Apart, encode_doorbell-All,
  encode_arg_slot-All,
}
use cxlmem_uring.Mmio.Copy.{byte_stores, perform-byte_stores}
use cxlmem_uring.Mmio.Submit.{slot_header}
use cxlmem_uring.Firmware.Jobs.{arg_slot, checked_arg, slot_matches}
use cxlmem_uring.Device.{DeviceRc, success}
use cxlmem_uring.Device.Submit.{
  commit_seq, device_doorbell, device_trace, device_commit, submit_job_mmio,
}

commit_seq_lem :
    (seq counter : ℕ)
    → seq < 2 ^ 64
    → counter < 2 ^ 64
    → ((commit_seq seq counter).0 ≢ 0)
      × ((commit_seq seq counter).0 < 2 ^ 64)
      × (seq ≢ 0 → commit_seq seq counter ≡ (seq, counter))
unfolding commit_seq
commit_seq_lem seq counter h g = ground arith

abbrev payload_stores : ℕ → List ℕ → List Store
payload_stores a payload = if length payload == 0 then [] else byte_stores a payload

perform-payload_stores :
    (a : ℕ) (bs : List ℕ) (m : Memory)
    → All (λ b. b < 256) bs
    → perform (payload_stores a bs) m ≡ write a bs m
unfolding perform write
perform-payload_stores a [] m v = refl
perform-payload_stores a (b ∷ bs) m v =
    ap (λ ss. perform ss m) (if_suc (length bs) _ _) ∙ perform-byte_stores a (b ∷ bs) m v

own_slot_matches :
    (job_id n len flags size : ℕ)
    → size ≤ len
    → slot_matches (slot_header job_id n len) (device_doorbell job_id flags n) size ≡ true
unfolding slot_matches valid_magic
own_slot_matches job_id n len flags size h = ground arith

module _ (control job_id : ℕ) (payload : List ℕ) (flags n : ℕ) (m : Memory) where
  abbrev slot : ℕ
  slot = control + arg_slot_off job_id

  abbrev headed : Memory
  headed =
      write slot (encode_arg_slot (slot_header job_id n (length payload)))
        (write (slot + arg_slot_header_bytes) payload m)

  abbrev rung : Memory
  rung = write (control + doorbell_off) (encode_doorbell (device_doorbell job_id flags n)) headed

  perform-device_trace :
      All (λ b. b < 256) payload
      → perform (device_trace control slot job_id payload (length payload) flags n) m ≡ rung
  unfolding device_trace
  perform-device_trace v =
      perform-append (payload_stores (slot + arg_slot_header_bytes) payload) _ m
      ∙ perform-append (byte_stores slot _) _ _
      ∙ perform-byte_stores (control + doorbell_off) _ _ (encode_doorbell-All _)
      ∙ ap (write (control + doorbell_off) (encode_doorbell (device_doorbell job_id flags n))) (
          perform-byte_stores slot _ _ (encode_arg_slot-All _)
          ∙ ap (write slot (encode_arg_slot (slot_header job_id n (length payload))))
              (perform-payload_stores (slot + arg_slot_header_bytes) payload m v))

  rung_checked :
      (size : ℕ)
      → job_id ≤ job_call
      → length payload ≤ arg_payload_bytes
      → flags < 2 ^ 32
      → n < 2 ^ 64
      → size ≤ length payload
      → (at_doorbell (control + doorbell_off) rung ≡ device_doorbell job_id flags n)
        × (checked_arg size (some slot) (device_doorbell job_id flags n) rung
            ≡ some (slot + arg_slot_header_bytes))
        × (read (length payload) (slot + arg_slot_header_bytes) rung ≡ payload)
  unfolding arg_slot_off encode_doorbell encode_arg_slot bytes checked_arg
  rung_checked size hj hl hf hs hk = (
    at_doorbell-encode _ (control + doorbell_off) headed (omega arith),
    ap (λ b. if b then some (slot + arg_slot_header_bytes) else none) matches,
    read-write-Apart (length payload) (slot + arg_slot_header_bytes) (control + doorbell_off) _
          headed (omega arith)
        ∙ read-write-Apart (length payload) (slot + arg_slot_header_bytes) slot _ staged
            (omega arith)
        ∙ read-write_self (slot + arg_slot_header_bytes) payload m,
  )
    where
      staged : Memory
      staged = write (slot + arg_slot_header_bytes) payload m

      header : at_arg_slot slot rung ≡ slot_header job_id n (length payload)
      header =
          at_arg_slot-write-Apart slot (control + doorbell_off) _ headed (omega arith)
          ∙ at_arg_slot-encode _ slot staged (omega arith)

      matches : slot_matches (at_arg_slot slot rung) (device_doorbell job_id flags n) size ≡ true
      matches =
          ap (λ h. slot_matches h (device_doorbell job_id flags n) size) header
          ∙ own_slot_matches job_id n (length payload) flags size hk

take-length : (xs : List ℕ) → take (length xs) xs ≡ xs
take-length [] = refl
take-length (x ∷ xs) = ap (λ ys. x ∷ ys) (take-length xs)

submit_job_mmio_commits :
    (control job_id : ℕ) (payload : List ℕ) (seq flags counter : ℕ) (m : Memory)
    → control ≢ 0
    → 0 < job_id
    → job_id ≤ job_call
    → length payload ≤ arg_payload_bytes
    → submit_job_mmio control job_id (some payload) (length payload) seq flags counter m
      ≡ device_commit control
          (some (control + arg_slot_off job_id))
          job_id
          (take (length payload) payload)
          (length payload)
          seq
          flags
          counter
          m
unfolding submit_job_mmio arg_slot
submit_job_mmio_commits control job_id payload seq flags counter m hc hp hj hl = ground arith

arg_slot_there :
    (control job_id : ℕ)
    → control ≢ 0
    → job_id ≤ job_call
    → arg_slot control job_id ≡ some (control + arg_slot_off job_id)
unfolding arg_slot
arg_slot_there control job_id hc hj = ground arith

-- The firmware finds the job: the return code, the doorbell's number, the slot's payload.
abbrev pub Found : ℕ → ℕ → List ℕ → ℕ → ℕ → DeviceRc × ℕ × Memory → Type 0
Found control job_id payload seq size (rc, counter, m) =
    let doorbell = at_doorbell (control + doorbell_off) m in
    let at_payload = control + arg_slot_off job_id + arg_slot_header_bytes in
    (rc ≡ success)
    × (doorbell.seq ≢ 0)
    × (seq ≢ 0 → doorbell.seq ≡ seq)
    × (checked_arg size (arg_slot control job_id) doorbell m ≡ some at_payload)
    × (read (length payload) at_payload m ≡ payload)

-- For a control window, a job id of the four jobs, a payload of bytes that fits the slot, and 64-bit
-- numbers: the submission succeeds; the doorbell then in the window has a number that is not 0, and
-- is the caller's if that is not 0; for every size up to the payload's length the firmware's check
-- of the arguments finds the slot's payload, and there the payload stands.
pub submitted_job_checked :
    (control job_id : ℕ) (payload : List ℕ) (seq flags counter : ℕ) (m : Memory) (size : ℕ)
    → control ≢ 0
    → 0 < job_id
    → job_id ≤ job_call
    → length payload ≤ arg_payload_bytes
    → flags < 2 ^ 32
    → seq < 2 ^ 64
    → counter < 2 ^ 64
    → All (λ b. b < 256) payload
    → size ≤ length payload
    → Found control job_id payload seq size
        (submit_job_mmio control job_id (some payload) (length payload) seq flags counter m)
unfolding device_commit
submitted_job_checked control job_id payload seq flags counter m size hc hp hj hl hf hs hn v hk =
    subst (Found control job_id payload seq size) (sym committed) (
      refl,
      λ e. number.0 (sym (ap (λ d. d.seq) checked.0) ∙ e),
      λ e. ap (λ d. d.seq) checked.0 ∙ ap (λ r. r.0) (number.2 e),
      ap (λ o. checked_arg size o (at_doorbell (control + doorbell_off) last) last)
            (arg_slot_there control job_id hc hj)
          ∙ ap (λ d. checked_arg size (some (control + arg_slot_off job_id)) d last) checked.0
          ∙ checked.1,
      checked.2,
    )
  where
    n : ℕ
    n = (commit_seq seq counter).0

    last : Memory
    last = rung control job_id payload flags n m

    number : (n ≢ 0) × (n < 2 ^ 64) × (seq ≢ 0 → commit_seq seq counter ≡ (seq, counter))
    number = commit_seq_lem seq counter hs hn

    checked :
        (at_doorbell (control + doorbell_off) last ≡ device_doorbell job_id flags n)
        × (checked_arg size
              (some (control + arg_slot_off job_id))
              (device_doorbell job_id flags n)
              last
            ≡ some (control + arg_slot_off job_id + arg_slot_header_bytes))
        × (read (length payload) (control + arg_slot_off job_id + arg_slot_header_bytes) last
            ≡ payload)
    checked = rung_checked control job_id payload flags n m size hj hl hf number.1 hk

    committed :
        submit_job_mmio control job_id (some payload) (length payload) seq flags counter m
        ≡ (success, (commit_seq seq counter).1, last)
    committed =
        submit_job_mmio_commits control job_id payload seq flags counter m hc hp hj hl
        ∙ ap
            (λ bs.
              device_commit control (some (control + arg_slot_off job_id)) job_id bs
                (length payload) seq flags counter m)
            (take-length payload)
        ∙ ap (λ k. (success, (commit_seq seq counter).1, k))
            (perform-device_trace control job_id payload flags n m v)
