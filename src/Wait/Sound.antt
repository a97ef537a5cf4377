-- ===== src/Wait/Sound.antt =====
-- The wait never reports a condition that it did not see, and never gives up early.
use mathlib.Core.Path.{subst}
use mathlib.Core.Option.{some_inj}
use cxlmem_uring.Base.{
  ℕ, zero, suc, ◌+◌, ◌≤◌, ◌<◌, ◌≡◌, ◌≢◌, refl, Bool, true, false, not, ◌&&◌, some, ◌==◌, leb, arith,
  Bool-cases, ◌⊎◌, inl, inr,
}
use cxlmem_uring.Wait.{
  World, Predicate, satisfied, spin, monitor, after_spin, wait_impl, deadline_of,
}

module _ (env : World) (flag : ℕ) (value : ℕ) (pred : Predicate) where
  -- Some test between the ticks `t` and `t'` passed.
  abbrev pub Seen : ℕ → ℕ → Type 0
  Seen t t' = (s : ℕ) × (t ≤ s) × (s < t') × (satisfied env flag value pred s ≡ true)

  Seen-later : {t u t' : ℕ} → t ≤ u → Seen u t' → Seen t t'
  Seen-later h (s, a, b, c) = (s, omega arith, b, c)

  spin-Seen : (budget t t' : ℕ) → spin env flag value pred budget t ≡ (true, t') → Seen t t'
  unfolding spin
  spin-Seen zero t t' e = cc
  spin-Seen (suc budget) t t' e = elim (Bool-cases (satisfied env flag value pred t)) [
    | inl hit ↦ (t, omega arith, ground arith, hit)
    | inr miss ↦ Seen-later (omega arith) (spin-Seen budget (t + 2) t' (rw miss at e))
  ]

  -- The deadline was set, and some clock read between the ticks was at or past it.
  abbrev pub Expired : ℕ → ℕ → ℕ → Type 0
  Expired deadline t t' = (s : ℕ) × (t ≤ s) × (s < t') × (deadline ≢ 0) × (deadline ≤ env.clock s)

  Expired-later : {d t u t' : ℕ} → t ≤ u → Expired d u t' → Expired d t t'
  Expired-later h (s, a, b, c, d) = (s, omega arith, b, c, d)

  -- Why a phase stopped.
  abbrev pub Reason : ℕ → ℕ → Bool × ℕ → Type 0
  Reason deadline t (true, t') = Seen t t'
  Reason deadline t (false, t') = Expired deadline t t'

  Reason-later : (d t u : ℕ) (r : Bool × ℕ) → t ≤ u → Reason d u r → Reason d t r
  Reason-later d t u (true, t') h x = Seen-later h x
  Reason-later d t u (false, t') h x = Expired-later {d = d} h x

  -- Time does not run backwards over a monitor wait.
  module _ (forward : (t : ℕ) → t ≤ env.wake t) where
    monitor-Reason :
        (fuel deadline t : ℕ) (r : Bool × ℕ)
        → monitor env flag value pred fuel deadline t ≡ some r
        → Reason deadline t r
    unfolding monitor
    monitor-Reason zero deadline t r e = cc
    monitor-Reason (suc fuel) deadline t r e =
        let u = env.wake t in
        let late = not (deadline == 0) && leb deadline (env.clock (u + 1)) in
        elim (Bool-cases (satisfied env flag value pred u)) [
          | inl hit ↦
              subst (Reason deadline t) (some_inj.0 (rw hit at e)) (u, forward t, omega arith, hit)
          | inr miss ↦ elim (Bool-cases late) [
            | inl over ↦
                subst (Reason deadline t) (some_inj.0 (rw (miss, over) at e))
                  (u + 1, omega (arith, forward t), omega arith, ground arith, ground arith)
            | inr more ↦
                Reason-later deadline t (u + 2) r (omega (arith, forward t))
                  (monitor-Reason fuel deadline (u + 2) r (rw (miss, more) at e))
          ]
        ]

    after_spin-Reason :
        (fuel deadline t : ℕ) (p r : Bool × ℕ)
        → Reason 0 t p ⊎ ((p.0 ≡ false) × (t ≤ p.1))
        → after_spin env flag value pred fuel deadline p ≡ some r
        → Reason deadline t r
    unfolding after_spin
    after_spin-Reason fuel deadline t (true, t') r (inl seen) e =
        subst (Reason deadline t) (some_inj.0 e) seen
    after_spin-Reason fuel deadline t (true, t') r (inr (h, l)) e = cc
    after_spin-Reason fuel deadline t (false, t') r (inl (s, a, b, c, d)) e = absurd (c refl)
    after_spin-Reason fuel deadline t (false, t') r (inr (h, l)) e =
        Reason-later deadline t t' r l (monitor-Reason fuel deadline t' r e)

    spin-Reason :
        (budget t : ℕ)
        → let p = spin env flag value pred budget t in Reason 0 t p ⊎ ((p.0 ≡ false) × (t ≤ p.1))
    unfolding spin
    spin-Reason zero t = inr (refl, omega arith)
    spin-Reason (suc budget) t = elim (Bool-cases (satisfied env flag value pred t)) [
      | inl hit ↦ rw hit (inl (t, omega arith, omega arith, hit))
      | inr miss ↦ rw miss (later (spin-Reason budget (t + 2)))
    ]
      where
        later :
            {p : Bool × ℕ}
            → Reason 0 (t + 2) p ⊎ ((p.0 ≡ false) × (t + 2 ≤ p.1))
            → Reason 0 t p ⊎ ((p.0 ≡ false) × (t ≤ p.1))
        later {p} (inl r) = inl (Reason-later 0 t (t + 2) p (omega arith) r)
        later (inr (h, l)) = inr (h, omega arith)

    -- A wait on a flag that is not null, with any timeout, spin budget and environment in which a
    -- monitor wait does not end before it began: if the wait returns true, then a test of the flag
    -- passed during it; if it returns false, then a timeout was given and the clock was read at or
    -- past the deadline during it.
    pub wait_impl-Reason :
        (timeout_ns budget fuel t : ℕ) (r : Bool × ℕ)
        → flag ≢ 0
        → wait_impl env flag value pred timeout_ns budget fuel t ≡ some r
        → Reason (deadline_of env timeout_ns (t + 1)) t r
    unfolding wait_impl
    wait_impl-Reason timeout_ns budget fuel t r nonnull e =
        elim (Bool-cases (satisfied env flag value pred t)) [
          | inl hit ↦
              subst (Reason deadline t) (some_inj.0 (rw (null, hit) at e))
                (t, omega arith, omega arith, hit)
          | inr miss ↦ Reason-later deadline t (t + 2) r (omega arith) (
              after_spin-Reason fuel deadline (t + 2) (spin env flag value pred budget (t + 2)) r
                (spin-Reason budget (t + 2)) (rw (null, miss) at e))
        ]
      where
        deadline : ℕ
        deadline = deadline_of env timeout_ns (t + 1)

        null : (flag == 0) ≡ false
        null = ground arith
