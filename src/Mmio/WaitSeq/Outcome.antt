-- ===== src/Mmio/WaitSeq/Outcome.antt =====
-- What an answer of the waits says of the device.
use cxlmem_uring.Base.{
  ℕ, zero, suc, ◌+◌, ◌%◌, ◌^◌, ◌≤◌, ◌≡◌, ◌≢◌, refl, Bool, true, false, not, Option, none, some,
  ◌==◌, leb, arith, Bool-cases, leb→le, ◌⊎◌, inl, inr,
}
use cxlmem_uring.Memory.{load}
use cxlmem_uring.Job.{status_off, host_status_bytes, status_success, status_running}
use cxlmem_uring.Wait.{World, not_equal, wait_impl}
use cxlmem_uring.Wait.Sound.{Seen, wait_impl-Reason}
use cxlmem_uring.Mmio.{Window, Rc, ok, eio, etimedout, in_range}
use cxlmem_uring.Mmio.WaitSeq.{after_wait, verdict, seq_loop, wait_seq}

-- The status record showed a number at or past `seq` at some tick from `t` on, and `rc` is the
-- verdict on the status read one tick later.
abbrev pub Observed : World → ℕ → ℕ → ℕ → Rc → Type 0
Observed env host seq t rc =
    (s : ℕ) × (t ≤ s) × (seq ≤ load 8 (host + 24) (env.memory s)) × (rc ≡ verdict env host (s + 1))

Observed-later :
    (env : World) (host seq t u : ℕ) (rc : Rc)
    → t ≤ u
    → Observed env host seq u rc
    → Observed env host seq t rc
Observed-later env host seq t u rc h (s, a, b, c) = (s, omega arith, b, c)

after_wait_cases :
    (again : ℕ → Option (Rc × ℕ)) (o : Option (Bool × ℕ)) (rc : Rc) (t' : ℕ)
    → after_wait again o ≡ some (rc, t')
    → ((u : ℕ) × (o ≡ some (true, u)) × (again u ≡ some (rc, t'))) ⊎ (rc ≡ etimedout)
after_wait_cases again none rc t' e = cc
after_wait_cases again (some (true, u)) rc t' e = inl (u, refl, e)
after_wait_cases again (some (false, u)) rc t' e = inr (ground arith)

module _ (env : World) (timeout_ns budget inner : ℕ) (forward : (t : ℕ) → t ≤ env.wake t) where
  -- The wait for a change of the low half took time.
  changed_later :
      (host value t u : ℕ)
      → wait_impl env (host + 24) value not_equal timeout_ns budget inner t ≡ some (true, u)
      → t ≤ u
  changed_later host value t u e = let (s, a, b, c) = seen in omega arith
    where
      seen : Seen env (host + 24) value not_equal t u
      seen =
          wait_impl-Reason env (host + 24) value not_equal forward timeout_ns budget inner t
            (true, u) (omega arith) e

  seq_loop-Observed :
      (fuel host seq t : ℕ) (rc : Rc) (t' : ℕ)
      → seq_loop env timeout_ns budget inner fuel host seq t ≡ some (rc, t')
      → Observed env host seq t rc ⊎ (rc ≡ etimedout)
  unfolding seq_loop
  seq_loop-Observed zero host seq t rc t' e = cc
  seq_loop-Observed (suc fuel) host seq t rc t' e =
      elim (Bool-cases (leb seq (load 8 (host + 24) (env.memory t)))) [
        | inl come ↦ inl (t, omega arith, leb→le _ _ come, rc_of (rw come at e))
        | inr yet ↦
            elim (after_wait_cases (seq_loop env timeout_ns budget inner fuel host seq)
              (wait_impl env (host + 24) low not_equal timeout_ns budget inner (t + 1)) rc t'
              (rw yet at e)) [
                | inr late ↦ inr late
                | inl (u, w, r) ↦
                    later u (changed_later host low (t + 1) u w)
                      (seq_loop-Observed fuel host seq u rc t' r)
              ]
      ]
    where
      low : ℕ
      low = load 8 (host + 24) (env.memory t) % 2 ^ 32

      rc_of :
          ◌≡◌ {A = Option (Rc × ℕ)} (some (verdict env host (t + 1), t + 2)) (some (rc, t'))
          → rc ≡ verdict env host (t + 1)
      rc_of q = cc

      later :
          (u : ℕ)
          → t + 1 ≤ u
          → Observed env host seq u rc ⊎ (rc ≡ etimedout)
          → Observed env host seq t rc ⊎ (rc ≡ etimedout)
      later u h (inl o) = inl (Observed-later env host seq t u rc (omega arith) o)
      later u h (inr o) = inr o

  -- For any window, in an environment in which a monitor wait does not end before it began: if the
  -- wait for a number answers ok, then at some tick of it the status record showed that number or a
  -- later one, and at the next tick the status success.
  pub wait_seq-ok :
      (fuel : ℕ) (w : Window) (seq t t' : ℕ)
      → wait_seq env timeout_ns budget inner fuel (some w) seq t ≡ some (ok, t')
      → let host = w.base + status_off in
        (s : ℕ) × (t ≤ s)
        × (seq ≤ load 8 (host + 24) (env.memory s))
        × (load 4 (host + 16) (env.memory (s + 1)) ≡ status_success)
  unfolding wait_seq verdict
  wait_seq-ok fuel w seq t t' e = elim (Bool-cases (w.base == 0)) [
    | inl null ↦ cc (rw null at e)
    | inr mapped ↦ elim (Bool-cases (not (in_range (some w) status_off host_status_bytes))) [
      | inl out ↦ cc (rw (mapped, out) at e)
      | inr sized ↦
          success
            (seq_loop-Observed fuel (w.base + status_off) seq t ok t' (rw (mapped, sized) at e))
    ]
  ]
    where
      success :
          Observed env (w.base + status_off) seq t ok ⊎ (ok ≡ etimedout)
          → let host = w.base + status_off in
            (s : ℕ) × (t ≤ s)
            × (seq ≤ load 8 (host + 24) (env.memory s))
            × (load 4 (host + 16) (env.memory (s + 1)) ≡ status_success)
      success (inl (s, a, b, c)) = (s, a, b, ground arith)
      success (inr late) = cc

-- On a window that is mapped and holds the status record: if the record shows the number that is
-- waited for and, one tick later, the status of a job that is still running, then the wait gives up
-- on it with an I/O error.
pub wait_seq-running :
    (env : World) (timeout_ns budget inner fuel : ℕ) (w : Window) (seq t : ℕ)
    → w.base ≢ 0
    → status_off + host_status_bytes ≤ w.size
    → seq ≤ load 8 (w.base + status_off + 24) (env.memory t)
    → load 4 (w.base + status_off + 16) (env.memory (t + 1)) ≡ status_running
    → wait_seq env timeout_ns budget inner (suc fuel) (some w) seq t ≡ some (eio, t + 2)
unfolding wait_seq in_range seq_loop verdict
wait_seq-running env timeout_ns budget inner fuel w seq t mapped sized come running = ground arith
