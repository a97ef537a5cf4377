-- ===== src/Gpu/Wait.antt =====
-- runtime/src/Type2GpuDevice.cpp, `wait_kernel_completion`: the poll of the status register.
use cxlmem_uring.Base.{
  if_false, ==_iff, if-cases, ℕ, zero, suc, ◌+◌, ◌*◌, ◌/◌, ◌%◌, ◌^◌, ◌≤◌, ◌<◌, ◌≡◌, ◌≢◌, refl,
  arith, Bool, true, false, ◌&&◌, ◌||◌, ◌⊎◌, inl, inr, ap, sym, ◌∙◌, Bool-cases, Option, none, some,
  ◌==◌, ltb, if◌then◌else◌,
}
use cxlmem_uring.Gpu.{GpuDevice, status_done, status_error}

-- What the device's registers read at each poll, and the milliseconds since the start after it. A
-- clock that was set back reads as 0.
pub record GpuWorld : Type 0 where
  pub status : ℕ → ℕ
  pub cycles_lo : ℕ → ℕ
  pub cycles_hi : ℕ → ℕ
  pub instr_lo : ℕ → ℕ
  pub instr_hi : ℕ → ℕ
  pub elapsed_ms : ℕ → ℕ

-- `POLL_INTERVAL_US` and `MAX_ITERATIONS`, whose product is one of 32 bits.
abbrev pub poll_interval_us : ℕ
poll_interval_us = 1000

unfoldable pub max_iterations : ℕ → ℕ
max_iterations timeout_ms = timeout_ms * 1000 % 2 ^ 32 / poll_interval_us

-- The counters, each from two registers.
unfoldable pub counted : GpuWorld → ℕ → GpuDevice → GpuDevice
counted w iter gpu = record gpu {
  kernel_cycles = w.cycles_hi iter * 2 ^ 32 + w.cycles_lo iter;
  kernel_instructions = w.instr_hi iter * 2 ^ 32 + w.instr_lo iter;
}

-- The loop, on fuel: `none` is a caller that still polls.
unfoldable pub poll : GpuWorld → ℕ → ℕ → ℕ → GpuDevice → Option (Bool × GpuDevice)
unfolding counted max_iterations
poll w timeout_ms zero iter gpu = none
poll w timeout_ms (suc fuel) iter gpu =
    let again = poll w timeout_ms fuel (iter + 1) gpu in
    if ltb iter (max_iterations timeout_ms) || timeout_ms == 0
    then if w.status iter == status_done
      then some (true, counted w iter gpu)
      else if w.status iter == status_error
      then some (false, gpu)
      else if ltb 0 timeout_ms && ltb timeout_ms (w.elapsed_ms iter)
      then some (false, gpu)
      else again
    else some (false, gpu)

-- `wait_kernel_completion`; without a mapped BAR0 it answers at once with fixed counters.
unfoldable pub wait_kernel_completion : GpuWorld → ℕ → ℕ → GpuDevice → Option (Bool × GpuDevice)
unfolding poll
wait_kernel_completion w timeout_ms fuel gpu =
    if gpu.bar0_base == 0
    then some (true, record gpu { kernel_cycles = 1000000; kernel_instructions = 536576 })
    else poll w timeout_ms fuel 0 gpu

-- A poll that shows an error or a clock past the timeout, or no poll that shows the end.
abbrev pub GivenUp : GpuWorld → ℕ → ℕ → Type 0
GivenUp w timeout_ms below =
    ((i : ℕ) × (i < below) × ((w.status i ≡ status_error) ⊎ (timeout_ms < w.elapsed_ms i)))
    ⊎ ((i : ℕ) → i < below → w.status i ≢ status_done)

-- The poll that ended the wait with success, and the counters it left; or the counters kept, and
-- why the wait gave up.
abbrev pub Explained : GpuWorld → GpuDevice → ℕ → ℕ → Bool → GpuDevice → Type 0
Explained w gpu timeout_ms below true gpu' =
    (i : ℕ) × (i < below) × (w.status i ≡ status_done) × (gpu' ≡ counted w i gpu)
Explained w gpu timeout_ms below false gpu' = (gpu' ≡ gpu) × GivenUp w timeout_ms below

abbrev pub Answers : GpuWorld → GpuDevice → ℕ → ℕ → Option (Bool × GpuDevice) → Type 0
Answers w gpu timeout_ms below none = ⊥
Answers w gpu timeout_ms below (some (done, gpu')) = Explained w gpu timeout_ms below done gpu'

-- One round, with the rest of the loop as `again`.
round-Answers :
    (w : GpuWorld) (gpu : GpuDevice) (below timeout_ms iter : ℕ) (again : Option (Bool × GpuDevice))
    → iter < below
    → (w.status iter ≢ status_done → Answers w gpu timeout_ms below again)
    → Answers w gpu timeout_ms below (
        if w.status iter == status_done
        then some (true, counted w iter gpu)
        else if w.status iter == status_error
        then some (false, gpu)
        else if ltb 0 timeout_ms && ltb timeout_ms (w.elapsed_ms iter)
        then some (false, gpu)
        else again)
round-Answers w gpu below timeout_ms iter again h a =
    let P = Answers w gpu timeout_ms below in
    if-cases P (w.status iter == status_done) _ _ (λ e. (iter, h, (==_iff _ _).0 e, refl))
      (λ n.
        if-cases P (w.status iter == status_error) _ _
          (λ e. (refl {a = gpu}, inl (iter, h, inl ((==_iff _ _).0 e))))
          (λ _.
            if-cases P (ltb 0 timeout_ms && ltb timeout_ms (w.elapsed_ms iter)) _ _
              (λ e. (refl {a = gpu}, inl (iter, h, inr (ground arith)))) (λ _. a (ground arith))))

poll-Answers :
    (w : GpuWorld) (timeout_ms fuel iter : ℕ) (gpu : GpuDevice)
    → timeout_ms ≢ 0
    → max_iterations timeout_ms < iter + fuel
    → iter ≤ max_iterations timeout_ms
    → ((i : ℕ) → i < iter → w.status i ≢ status_done)
    → Answers w gpu timeout_ms (max_iterations timeout_ms) (poll w timeout_ms fuel iter gpu)
unfolding poll
poll-Answers w timeout_ms zero iter gpu n h le seen = absurd (omega arith)
poll-Answers w timeout_ms (suc fuel) iter gpu n h le seen =
    let below = max_iterations timeout_ms in
    if-cases (Answers w gpu timeout_ms below) (ltb iter below || timeout_ms == 0) _ _
      (λ e. round-Answers w gpu below timeout_ms iter _ (ground arith) (λ d.
        poll-Answers w timeout_ms fuel (iter + 1) gpu n (omega arith) (ground arith) (λ i b.
          elim (Bool-cases (i == iter)) [
            | inl e ↦ let same : i ≡ iter = ground arith in λ z. d (ap w.status (sym same) ∙ z)
            | inr e ↦ seen i (ground arith)
          ])))
      (λ e. (refl {a = gpu}, inr (λ i b. seen i (ground arith))))

max_iterations-le : (timeout_ms : ℕ) → max_iterations timeout_ms ≤ timeout_ms
unfolding max_iterations
max_iterations-le timeout_ms = omega arith

-- On a device whose BAR0 is mapped, with a timeout that is not 0, and whatever the registers read:
-- with more fuel than the timeout's milliseconds the wait returns. If it answers true, then one of
-- its at most `max_iterations` polls read DONE and the counters are those of that poll; if false,
-- then the device is as it was, and one of these polls read ERROR or was made past the timeout, or
-- none of them read DONE.
pub wait_kernel-Answers :
    (w : GpuWorld) (timeout_ms fuel : ℕ) (gpu : GpuDevice)
    → gpu.bar0_base ≢ 0
    → timeout_ms ≢ 0
    → timeout_ms < fuel
    → Answers w gpu timeout_ms
        (max_iterations timeout_ms)
        (wait_kernel_completion w timeout_ms fuel gpu)
unfolding wait_kernel_completion
wait_kernel-Answers w timeout_ms fuel gpu mapped n h =
    rw
      (if_false (gpu.bar0_base == 0)
        (some (true, record gpu { kernel_cycles = 1000000; kernel_instructions = 536576 }))
        (poll w timeout_ms fuel 0 gpu) (ground arith))
      (poll-Answers w timeout_ms fuel 0 gpu n (omega (arith, max_iterations-le timeout_ms))
        (omega arith) (λ i b. absurd (omega arith)))

-- On a device whose BAR0 is mapped: for a timeout that is not 0 and whose product by 1000 is below
-- 1000 modulo 2 ^ 32, the wait answers false whatever the status, and reads no counter.
pub wait_timeout_wraps :
    (w : GpuWorld) (timeout_ms fuel : ℕ) (gpu : GpuDevice)
    → gpu.bar0_base ≢ 0
    → timeout_ms ≢ 0
    → timeout_ms * 1000 % 2 ^ 32 < 1000
    → fuel ≢ 0
    → wait_kernel_completion w timeout_ms fuel gpu ≡ some (false, gpu)
unfolding wait_kernel_completion poll max_iterations
wait_timeout_wraps w timeout_ms zero gpu mapped n h f = absurd (f refl)
wait_timeout_wraps w timeout_ms (suc fuel) gpu mapped n h f = ground arith

poll_until :
    (w : GpuWorld) (k fuel iter : ℕ) (gpu : GpuDevice)
    → ((i : ℕ) → iter ≤ i → i < iter + k → (w.status i ≢ status_done) × (w.status i ≢ status_error))
    → w.status (iter + k) ≡ status_done
    → k < fuel
    → poll w 0 fuel iter gpu ≡ some (true, counted w (iter + k) gpu)
unfolding poll
poll_until w k zero iter gpu before done h = absurd (omega arith)
poll_until w zero (suc fuel) iter gpu before done h =
    let now : iter + 0 ≡ iter = omega arith in rw now (ground (arith, rw now at done))
poll_until w (suc k) (suc fuel) iter gpu before done h =
    let shift : iter + suc k ≡ iter + 1 + k = omega arith in
    let later =
      poll_until w k fuel (iter + 1) gpu (λ i a b. before i (omega arith) (omega arith))
        (rw shift at done) (omega arith) in
    rw shift (ground (arith, before iter (omega arith) (omega arith), later))

-- On a device whose BAR0 is mapped, without a timeout, where the status reads DONE at poll `k` and
-- neither DONE nor ERROR at any poll before: with more fuel than `k` the wait answers true, with
-- the counters of that poll.
pub wait_kernel_done :
    (w : GpuWorld) (k fuel : ℕ) (gpu : GpuDevice)
    → gpu.bar0_base ≢ 0
    → ((i : ℕ) → i < k → (w.status i ≢ status_done) × (w.status i ≢ status_error))
    → w.status k ≡ status_done
    → k < fuel
    → wait_kernel_completion w 0 fuel gpu ≡ some (true, counted w k gpu)
unfolding wait_kernel_completion
wait_kernel_done w k fuel gpu mapped before done h =
    let start : 0 + k ≡ k = omega arith in
    ground (
      arith,
      rw start at (poll_until w k fuel 0 gpu (λ i a b. before i (omega arith)) (rw start done) h),
    )
