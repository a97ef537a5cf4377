-- ===== src/Wait/Progress.antt =====
-- The wait returns once the flag is published for good, or the clock has passed the deadline.
use native.Mathlib.Decide.{dec_lt}
use cxlmem_uring.Base.{
  ℕ, zero, suc, ◌+◌, ◌≤◌, ◌<◌, ◌≡◌, ◌≢◌, refl, Bool, true, false, not, ◌&&◌, some, ◌==◌, leb, arith,
  Bool-cases, ◌⊎◌, inl, inr,
}
use cxlmem_uring.Wait.{
  World, Predicate, satisfied, spin, monitor, after_spin, wait_impl, deadline_of,
}
use cxlmem_uring.Wait.Sound.{wait_impl-Reason}

module _ (env : World) (flag value : ℕ) (pred : Predicate)
    (forward : (t : ℕ) → t ≤ env.wake t) where
  -- From the tick `last` on, each round of the monitor loop stops it.
  abbrev Stops : ℕ → ℕ → Type 0
  Stops deadline last =
      (s : ℕ)
      → last ≤ s
      → (satisfied env flag value pred s ≡ true) ⊎ ((deadline ≢ 0) × (deadline ≤ env.clock (s + 1)))

  monitor_returns :
      (fuel deadline last t : ℕ)
      → Stops deadline last
      → 0 < fuel
      → last < t + fuel
      → (r : Bool × ℕ) × (monitor env flag value pred fuel deadline t ≡ some r)
  unfolding monitor
  monitor_returns zero deadline last t stops pos h = absurd (omega arith)
  monitor_returns (suc fuel) deadline last t stops pos h =
      elim (Bool-cases (satisfied env flag value pred u)) [
        | inl hit ↦ ((true, u + 1), rw hit)
        | inr miss ↦ elim (Bool-cases late) [
          | inl over ↦ ((false, u + 2), rw (miss, over))
          | inr more ↦
              rw (miss, more)
                (monitor_returns fuel deadline last (u + 2) stops
                  (omega (arith, early miss more, forward t))
                  (omega (arith, early miss more, forward t)))
        ]
      ]
    where
      u : ℕ
      u = env.wake t

      late : Bool
      late = not (deadline == 0) && leb deadline (env.clock (u + 1))

      early : satisfied env flag value pred u ≡ false → late ≡ false → u < last
      early miss more = elim (dec_lt u last) [
        | yes lt ↦ lt
        | no ge ↦ elim (stops u (omega arith)) [ inl hit ↦ cc | inr (set, over) ↦ ground arith ]
      ]

  after_spin_returns :
      (fuel deadline last t : ℕ) (p : Bool × ℕ)
      → Stops deadline last
      → 0 < fuel
      → last < p.1 + fuel
      → (r : Bool × ℕ) × (after_spin env flag value pred fuel deadline p ≡ some r)
  unfolding after_spin
  after_spin_returns fuel deadline last t (true, t') stops pos h = ((true, t'), refl)
  after_spin_returns fuel deadline last t (false, t') stops pos h =
      monitor_returns fuel deadline last t' stops pos h

  spin_later : (budget t : ℕ) → t ≤ (spin env flag value pred budget t).1
  unfolding spin
  spin_later zero t = omega arith
  spin_later (suc budget) t = ground (arith, spin_later budget (t + 2))

  -- If from some tick on each test passes or the deadline of the wait is set and past, in an
  -- environment in which a monitor wait does not end before it began, then the wait returns within
  -- any fuel that is not 0 and reaches that tick.
  pub wait_impl_returns :
      (timeout_ns budget fuel last t : ℕ)
      → Stops (deadline_of env timeout_ns (t + 1)) last
      → 0 < fuel
      → last < t + fuel
      → (r : Bool × ℕ) × (wait_impl env flag value pred timeout_ns budget fuel t ≡ some r)
  unfolding wait_impl
  wait_impl_returns timeout_ns budget fuel last t stops pos h = elim (Bool-cases (flag == 0)) [
    | inl null ↦ ((false, t), rw null)
    | inr nonnull ↦ elim (Bool-cases (satisfied env flag value pred t)) [
      | inl hit ↦ ((true, t + 1), rw (nonnull, hit))
      | inr miss ↦
          rw (nonnull, miss)
            (after_spin_returns fuel (deadline_of env timeout_ns (t + 1)) last t
              (spin env flag value pred budget (t + 2)) stops pos
              (omega (arith, spin_later budget (t + 2))))
    ]
  ]

  -- A wait without a timeout on a flag that is not null, whose condition holds from some tick on, in
  -- an environment in which a monitor wait does not end before it began: with any spin budget, and
  -- with fuel that is not 0 and reaches that tick, it returns true.
  pub wait_impl_published :
      (budget fuel last t : ℕ)
      → flag ≢ 0
      → ((s : ℕ) → last ≤ s → satisfied env flag value pred s ≡ true)
      → 0 < fuel
      → last < t + fuel
      → (t' : ℕ) × (wait_impl env flag value pred 0 budget fuel t ≡ some (true, t'))
  unfolding deadline_of
  wait_impl_published budget fuel last t nonnull published pos h =
      never_false (wait_impl_returns 0 budget fuel last t (λ s l. inl (published s l)) pos h)
    where
      never_false :
          (r : Bool × ℕ) × (wait_impl env flag value pred 0 budget fuel t ≡ some r)
          → (t' : ℕ) × (wait_impl env flag value pred 0 budget fuel t ≡ some (true, t'))
      never_false ((true, t'), e) = (t', e)
      never_false ((false, t'), e) = absurd (
          (wait_impl-Reason env flag value pred forward 0 budget fuel t (false, t') nonnull e).3
            refl)
