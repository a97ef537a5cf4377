-- ===== src/Wait.antt =====
-- runtime/cira_mwait.cpp: the bounded spin and the monitor wait on a 32-bit flag. What other agents
-- do to memory, and the clock, are a `World` over ticks; each load, clock read and pause takes one
-- tick.
pub mod Sound
pub mod Progress
pub mod Backend
pub mod Choice
use cxlmem_uring.Base.{
  ℕ, zero, suc, ◌+◌, ◌%◌, ◌^◌, Bool, true, false, not, ◌&&◌, Option, none, some, ◌==◌, leb,
  if◌then◌else◌,
}
use cxlmem_uring.Memory.{Memory, load}

-- `clock` is `now_ns()`; `wake t` is the tick at which a monitor wait begun at `t` returns: on a
-- store to the line, on a spurious wake, or when the quantum ends.
pub record World : Type 0 where
  pub memory : ℕ → Memory
  pub clock : ℕ → ℕ
  pub wake : ℕ → ℕ

pub data Predicate : Type 0 where
  equal not_equal : Predicate

unfoldable pub holds : Predicate → ℕ → ℕ → Bool
holds equal observed value = observed == value
holds not_equal observed value = not (observed == value)

-- `timeout_ns ? now_ns() + timeout_ns : 0`; 0 stands for no deadline.
unfoldable pub deadline_of : World → ℕ → ℕ → ℕ
deadline_of env timeout_ns t = if timeout_ns == 0 then 0 else (env.clock t + timeout_ns) % 2 ^ 64

module _ (env : World) (flag : ℕ) (value : ℕ) (pred : Predicate) where
  unfoldable pub satisfied : ℕ → Bool
  satisfied t = holds pred (load 4 flag (env.memory t)) value

  -- Phase 1: `budget` rounds of a test and a pause; the result is whether a test passed, and the
  -- next tick.
  unfoldable pub spin : ℕ → ℕ → Bool × ℕ
  spin zero t = (false, t)
  spin (suc budget) t =
      let rest = spin budget (t + 2) in if satisfied t then (true, t + 1) else rest

  -- Phase 2: the loop round `monitor_wait_once`, on fuel; `none` is still waiting.
  unfoldable pub monitor : ℕ → ℕ → ℕ → Option (Bool × ℕ)
  monitor zero deadline t = none
  monitor (suc fuel) deadline t =
      let woken = env.wake t in
      let rest = monitor fuel deadline (woken + 2) in
      if satisfied woken
      then some (true, woken + 1)
      else if not (deadline == 0) && leb deadline (env.clock (woken + 1))
      then some (false, woken + 2)
      else rest

  unfoldable pub after_spin : ℕ → ℕ → Bool × ℕ → Option (Bool × ℕ)
  after_spin fuel deadline (true, t) = some (true, t)
  after_spin fuel deadline (false, t) = monitor fuel deadline t

  -- `wait_impl(flag, value, pred, timeout_ns)` begun at tick `t` with the spin budget `budget`.
  unfoldable pub wait_impl : ℕ → ℕ → ℕ → ℕ → Option (Bool × ℕ)
  wait_impl timeout_ns budget fuel t =
      if flag == 0
      then some (false, t)
      else if satisfied t
      then some (true, t + 1)
      else after_spin fuel (deadline_of env timeout_ns (t + 1)) (spin budget (t + 2))
