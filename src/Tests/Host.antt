-- ===== src/Tests/Host.antt =====
-- The host's theorems at concrete inputs.
use cxlmem_uring.Base.{
  none, ◌⊎◌, ◌∙◌, sym, leb, ◌==◌, ◌+◌, ◌≤◌, if◌then◌else◌, ◌<◌, ℕ, ◌≡◌, ◌≢◌, refl, true, Option,
  some, List, [], ◌∷◌, arith, inr, take, All,
}
use cxlmem_uring.Memory.{bytes, value, store, Memory, load, read, write}
use cxlmem_uring.Memory.Traces.{perform}
use cxlmem_uring.Job.{status_off, arg_slot_off, completion_magic, status_running, status_success}
use cxlmem_uring.Job.Wire.{encode_doorbell, encode_arg_slot, at_doorbell}
use cxlmem_uring.Wait.{spin, after_spin, holds, World, equal, wait_impl, satisfied}
use cxlmem_uring.Wait.Sound.{Seen, wait_impl-Reason}
use cxlmem_uring.Wait.Progress.{wait_impl_published}
use cxlmem_uring.Mmio.{ok, eio, in_range}
use cxlmem_uring.Mmio.Copy.{
  store_trace, word_stores, byte_stores, store_trace, store_bytes, store_bytes-eq-write,
}
use cxlmem_uring.Mmio.Completion.{signal_trace}
use cxlmem_uring.Mmio.Submit.{payload_trace, submit_job, take_seq, submit_trace, doorbell_record}
use cxlmem_uring.Mmio.Submit.Checks.{Accepts, submit_job_accepted}
use cxlmem_uring.Mmio.Submit.Committed.{submit_job-Committed, doorbell_at}
use cxlmem_uring.Mmio.Submit.Order.{submit_job_ordered}
use cxlmem_uring.Mmio.WaitSeq.{verdict, seq_loop, wait_seq_window, wait_seq}
use cxlmem_uring.Mmio.WaitSeq.Outcome.{wait_seq-ok}
use cxlmem_uring.Protocol.Running.{running_reported_as_eio}
use cxlmem_uring.Firmware.{announce}
use cxlmem_uring.Tests.{window, memory}

abbrev payload : Option (List ℕ)
payload = some (1 ∷ 2 ∷ 3 ∷ [])

accepts : Accepts window 2 payload 3
accepts = record {
  mapped = omega arith;
  writable = refl;
  sized = omega arith;
  job_pos = omega arith;
  job_le = omega arith;
  fits = omega arith;
  given = inr refl;
}

small : All (λ b. b < 256) (1 ∷ 2 ∷ 3 ∷ [])
small = (omega arith, (omega arith, (omega arith, tt)))

-- The doorbell's number was another one before.
before : load 8 4120 memory ≡ 2242261671028070680
unfolding load value read
before = refl

rung : load 8 4120 (perform (take 99 (submit_trace 4096 2 (1 ∷ 2 ∷ 3 ∷ []) 3 0 7)) memory) ≡ 7
unfolding load value read perform store write bytes submit_trace payload_trace store_trace
    word_stores byte_stores arg_slot_off encode_arg_slot encode_doorbell
rung = refl

fresh :
    load 8 4120 (perform (take 99 (submit_trace 4096 2 (1 ∷ 2 ∷ 3 ∷ []) 3 0 7)) memory)
    ≢ load 8 4120 memory
fresh e = omega (arith, rung, before)

submit_job_ordered_example :
    perform (take 99 (submit_trace 4096 2 (1 ∷ 2 ∷ 3 ∷ []) 3 0 (take_seq window).0)) memory
    ≡ (submit_job (some window) 2 payload 3 0 memory).memory
unfolding submit_trace take_seq
submit_job_ordered_example =
    submit_job_ordered window 2 payload 3 0 memory 99 accepts (omega arith) fresh

submit_job-Committed_example :
    at_doorbell (doorbell_at window) (submit_job (some window) 2 payload 3 5 memory).memory
    ≡ doorbell_record 2 5 (take_seq window).0
submit_job-Committed_example =
    (submit_job-Committed window 2 payload 3 5 memory accepts (omega arith) (omega arith) refl
      small).3

submit_job_accepted_example :
    let r = submit_job (some window) 2 payload 3 5 memory in
    ((r.rc ≡ ok) × Accepts window 2 payload 3)
    ⊎ ((r.rc ≢ ok)
        × (¬ Accepts window 2 payload 3)
        × (r.memory ≡ memory)
        × (r.window ≡ some window)
        × (r.out_seq ≡ none))
submit_job_accepted_example =
    submit_job_accepted window 2 payload 3 5 memory (omega arith) (omega arith)

-- The flag at 64 is set to 1 from tick 3 on.
abbrev flagged : World
flagged = record {
  memory = λ t p. if p == 64 then (if leb 3 t then 1 else 0) else 0;
  clock = λ t. t;
  wake = λ t. t + 1;
}

forward : (t : ℕ) → t ≤ flagged.wake t
forward t = omega arith

waited : wait_impl flagged 64 1 equal 0 4 1 0 ≡ some (true, 5)
unfolding wait_impl load satisfied holds value read after_spin spin
waited = refl

wait_impl-Reason_example : Seen flagged 64 1 equal 0 5
wait_impl-Reason_example =
    wait_impl-Reason flagged 64 1 equal forward 0 4 1 0 (true, 5) (omega arith) waited

set : (s : ℕ) → 3 ≤ s → satisfied flagged 64 1 equal s ≡ true
unfolding satisfied load holds value read
set s h = ground arith

wait_impl_published_example : (t' : ℕ) × (wait_impl flagged 64 1 equal 0 1 5 0 ≡ some (true, t'))
wait_impl_published_example =
    wait_impl_published flagged 64 1 equal forward 1 5 3 0 (omega arith) set (omega arith)
      (omega arith)

store_bytes-eq-write_example :
    store_bytes 100 (1 ∷ 2 ∷ 3 ∷ []) memory ≡ write 100 (1 ∷ 2 ∷ 3 ∷ []) memory
store_bytes-eq-write_example = store_bytes-eq-write 100 (1 ∷ 2 ∷ 3 ∷ []) memory small

line_before : load 4 128 memory ≡ 2206368128
unfolding load value read
line_before = refl

unsignalled : load 4 128 memory ≢ completion_magic
unsignalled e = let q : 2206368128 ≡ completion_magic = sym line_before ∙ e in omega arith

signalled_now : load 4 128 (perform (signal_trace 128 0 77) memory) ≡ completion_magic
unfolding load perform signal_trace store value read write bytes
signalled_now = refl

-- The device has announced the job, and is at work on it.
abbrev sent : Memory
sent = (submit_job (some window) 2 payload 3 5 memory).memory

abbrev working : World
working = record {
  memory = λ t. announce 4096 (at_doorbell (doorbell_at window) sent) status_running sent;
  clock = λ t. t;
  wake = λ t. t;
}

running_reported_as_eio_example :
    wait_seq working 0 4 10 3 (some window) (take_seq window).0 6 ≡ some (eio, 8)
running_reported_as_eio_example =
    running_reported_as_eio working 0 4 10 2 6 window 2 payload 3 5 memory accepts (omega arith)
      (omega arith) refl small refl refl

-- The status record at 4096 + 4096 shows a number past 3 and success.
abbrev finished : World
finished = record { memory = λ t p. 0; clock = λ t. t; wake = λ t. t }

answered : wait_seq finished 0 4 10 3 (some window) 0 6 ≡ some (ok, 8)
unfolding wait_seq wait_seq_window in_range seq_loop verdict load value read
answered = refl

wait_seq-ok_example :
    (s : ℕ) × (6 ≤ s)
    × (0 ≤ load 8 (4096 + status_off + 24) (finished.memory s))
    × (load 4 (4096 + status_off + 16) (finished.memory (s + 1)) ≡ status_success)
wait_seq-ok_example = wait_seq-ok finished 0 4 10 (λ t. omega arith) 3 window 0 6 8 answered
