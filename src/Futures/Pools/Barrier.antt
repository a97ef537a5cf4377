-- ===== src/Futures/Pools/Barrier.antt =====
-- runtime/src/CiraRuntime.cpp, `cira_phase_barrier`: it returns, and not before each future is done.
use cxlmem_uring.Base.{
  ℕ, ◌≤◌, ◌<◌, ◌≡◌, ◌≢◌, ◌⊎◌, inl, inr, refl, ap, true, false, none, some, List, [], ◌∷◌, All,
  Bool-cases, ◌==◌, arith,
}
use cxlmem_uring.Job.{completion_magic}
use cxlmem_uring.Mmio.{ok}
use cxlmem_uring.Mmio.WaitSeq.{wait_completion}
use cxlmem_uring.Wait.{World, equal, satisfied}
use cxlmem_uring.Wait.Sound.{Seen, wait_impl-Reason}
use cxlmem_uring.Wait.Progress.{wait_impl_published}
use cxlmem_uring.Futures.Pools.{await_all, phase_barrier}

module _ (env : World) (forward : (t : ℕ) → t ≤ env.wake t) where
  -- From the tick `last` on the completion's magic stands.
  abbrev pub Published : ℕ → ℕ → Type 0
  Published last p =
      (p ≡ 0) ⊎ ((s : ℕ) → last ≤ s → satisfied env p completion_magic equal s ≡ true)

  -- The magic was read between two ticks.
  abbrev pub Completed : ℕ → ℕ → ℕ → Type 0
  Completed t t' p = (p ≡ 0) ⊎ Seen env p completion_magic equal t t'

  Completed-wider :
      (t u u' t' : ℕ) (active : List ℕ)
      → t ≤ u
      → u' ≤ t'
      → All (Completed u u') active
      → All (Completed t t') active
  Completed-wider t u u' t' [] h g c = tt
  Completed-wider t u u' t' (p ∷ active) h g (c, cs) = (
    elim c [ inl z ↦ inl z | inr (s, a, b, hit) ↦ inr (s, omega arith, omega arith, hit) ],
    Completed-wider t u u' t' active h g cs,
  )

  wait_completion_published :
      (budget inner last p t : ℕ)
      → p ≢ 0
      → ((s : ℕ) → last ≤ s → satisfied env p completion_magic equal s ≡ true)
      → last < inner
      → (t' : ℕ) × (wait_completion env 0 budget inner p t ≡ some (ok, t'))
        × Seen env p completion_magic equal t t'
  unfolding wait_completion
  wait_completion_published budget inner last p t n published h =
      let nonnull : (p == 0) ≡ false = ground arith in
      let (t', e) =
        wait_impl_published env p completion_magic equal forward budget inner last t n published
          (omega arith) (omega arith) in
      (
        t',
        rw (nonnull, e) refl,
        wait_impl-Reason env p completion_magic equal forward 0 budget inner t (true, t') n e,
      )

  await_all-one :
      (budget inner p : ℕ) (active : List ℕ) (t t' t'' : ℕ)
      → p ≢ 0
      → wait_completion env 0 budget inner p t ≡ some (ok, t')
      → await_all env 0 budget inner active t' ≡ some t''
      → await_all env 0 budget inner (p ∷ active) t ≡ some t''
  unfolding await_all
  await_all-one budget inner p active t t' t'' n e f =
      let nonnull : (p == 0) ≡ false = ground arith in rw (nonnull, e) f

  await_all-Completed :
      (budget inner last : ℕ) (active : List ℕ) (t : ℕ)
      → All (Published last) active
      → last < inner
      → (t' : ℕ) × (await_all env 0 budget inner active t ≡ some t')
        × (t ≤ t')
        × All (Completed t t') active
  unfolding await_all
  await_all-Completed budget inner last [] t published h = (t, refl, omega arith, tt)
  await_all-Completed budget inner last (p ∷ active) t (inl null, later) h =
      let z : (p == 0) ≡ true = ground arith in
      let (t', e, le, cs) = await_all-Completed budget inner last active t later h in
      (t', rw z e, le, (inl null, cs))
  await_all-Completed budget inner last (p ∷ active) t (inr published, later) h =
      elim (Bool-cases (p == 0)) [
        | inl z ↦
            let (t', e, le, cs) = await_all-Completed budget inner last active t later h in
            (t', rw z e, le, (inl (ground arith), cs))
        | inr nonnull ↦
            let n : p ≢ 0 = ground arith in
            let (t', e, (s, l, g, hit)) =
              wait_completion_published budget inner last p t n published h in
            let (t'', f, le, cs) = await_all-Completed budget inner last active t' later h in
            (
              t'',
              await_all-one budget inner p active t t' t'' n e f,
              omega arith,
              (
                inr (s, l, omega arith, hit),
                Completed-wider t t' t'' t'' active (omega arith) (omega arith) cs,
              ),
            )
      ]

  -- In an environment in which a monitor wait does not end before it began, without a timeout, with
  -- any spin budget and any active futures, where the magic of each that is not null stands from
  -- the tick `last` on: with more fuel for each wait than `last`, the barrier returns with no future
  -- active, and each future that was active and not null has shown its magic during it.
  pub phase_barrier-Completed :
      (budget inner last : ℕ) (active : List ℕ) (t : ℕ)
      → All (Published last) active
      → last < inner
      → (t' : ℕ) × (phase_barrier env 0 budget inner active t ≡ some ([], t'))
        × All (Completed t t') active
  unfolding phase_barrier
  phase_barrier-Completed budget inner last active t published h =
      let (t', e, le, cs) = await_all-Completed budget inner last active t published h in
      (t', ap (λ o. elim o [ none ↦ none | some u ↦ some ([], u) ]) e, cs)
