-- ===== src/Mmio/Completion.antt =====
-- runtime/cira_mmio.cpp, completion lines: `cira_mmio_arm_completion` and
-- `cira_mmio_signal_completion`. The record is the first 32 bytes of the 64-byte line.
use cxlmem_uring.Base.{
  refl, ap, inr, ◌∙◌, sym, inl, drop, arith, take, ◌≢◌, ◌≡◌, ◌^◌, ◌<◌, ℕ, zero, suc, ◌+◌, List, [],
  ◌∷◌, ◌==◌, if◌then◌else◌,
}
use cxlmem_uring.Memory.{Memory, load, write}
use cxlmem_uring.Memory.Traces.{load-perform_at, prefix_unseen, Store, perform}
use cxlmem_uring.Job.{completion_magic, cacheline_size}

pub record Completion : Type 0 where
  pub magic : ℕ
  pub status : ℕ
  pub result : ℕ
  pub cycles : ℕ
  pub timestamp : ℕ

unfoldable pub at_completion : ℕ → Memory → Completion
at_completion p m = record {
  magic = load 4 (p + 0) m;
  status = load 4 (p + 4) m;
  result = load 8 (p + 8) m;
  cycles = load 8 (p + 16) m;
  timestamp = load 8 (p + 24) m;
}

abbrev pub replicate {ℓ} : {A : Type ℓ} → ℕ → A → List A
replicate zero a = []
replicate (suc n) a = a ∷ replicate n a

unfoldable pub arm_completion : ℕ → Memory → Memory
arm_completion completion m =
    if completion == 0 then m else write completion (replicate cacheline_size 0) m

-- The stores to the line, in program order: `magic` is the last.
unfoldable pub signal_trace : ℕ → ℕ → ℕ → List Store
signal_trace line status result =
    record { width = 4; addr = line + 4; word = status }
    ∷ record { width = 8; addr = line + 8; word = result }
    ∷ record { width = 8; addr = line + 16; word = 0 }
    ∷ record { width = 8; addr = line + 24; word = 0 }
    ∷ record { width = 4; addr = line + 0; word = completion_magic }
    ∷ []

unfoldable pub signal_completion : ℕ → ℕ → ℕ → Memory → Memory
signal_completion completion status result m =
    if completion == 0 then m else perform (signal_trace completion status result) m

abbrev pub signalled : ℕ → ℕ → Completion
signalled status result = record {
  magic = completion_magic;
  status = status;
  result = result;
  cycles = 0;
  timestamp = 0;
}

pub signal_trace_whole :
    (line status result : ℕ) (m : Memory)
    → status < 2 ^ 32
    → result < 2 ^ 64
    → at_completion line (perform (signal_trace line status result) m) ≡ signalled status result
unfolding at_completion signal_trace perform
signal_trace_whole line status result m hs hr = λ i. record {
  magic = load-perform_at 4 ss [] 4 (line + 0) completion_magic m refl (omega arith) tt i;
  status = load-perform_at 0 ss (drop 1 ss) 4 (line + 4) status m refl hs (omega arith) i;
  result = load-perform_at 1 ss (drop 2 ss) 8 (line + 8) result m refl hr (omega arith) i;
  cycles = load-perform_at 2 ss (drop 3 ss) 8 (line + 16) 0 m refl (omega arith) (omega arith) i;
  timestamp = load-perform_at 3 ss (drop 4 ss) 8 (line + 24) 0 m refl (omega arith) (omega arith) i;
}
  where
    ss : List Store
    ss = signal_trace line status result

-- For a line that does not hold the magic yet, a status of 32 bits and a result of 64, and for any
-- number of the stores of a completion made so far: if the magic is seen then, all the fields are
-- those that were signalled.
pub signal_published :
    (line status result n : ℕ) (m : Memory)
    → status < 2 ^ 32
    → result < 2 ^ 64
    → load 4 (line + 0) m ≢ completion_magic
    → let seen = perform (take n (signal_trace line status result)) m in
      load 4 (line + 0) seen ≡ completion_magic → at_completion line seen ≡ signalled status result
unfolding signal_trace perform
signal_published line status result n m hs hr armed seen =
    elim (prefix_unseen n 4 (line + 0) (take 4 ss) last m (omega arith)) [
      | inl e ↦ absurd (armed (sym e ∙ seen))
      | inr e ↦
          ap (λ ss. at_completion line (perform ss m)) e
          ∙ signal_trace_whole line status result m hs hr
    ]
  where
    ss : List Store
    ss = signal_trace line status result

    last : Store
    last = record { width = 4; addr = line + 0; word = completion_magic }
