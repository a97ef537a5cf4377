-- ===== src/Mmio/WaitSeq.antt =====
-- runtime/cira_mmio.cpp, `cira_mmio_wait_completion` and `cira_mmio_wait_seq`.
pub mod Outcome
use cxlmem_uring.Base.{
  ℕ, zero, suc, ◌+◌, ◌%◌, ◌^◌, Bool, true, false, not, Option, none, some, ◌==◌, leb, if◌then◌else◌,
}
use cxlmem_uring.Memory.{Memory, load}
use cxlmem_uring.Job.{completion_magic, status_off, host_status_bytes, status_success}
use cxlmem_uring.Wait.{World, equal, not_equal, wait_impl}
use cxlmem_uring.Mmio.{Window, Rc, ok, einval, enodev, eio, etimedout, erange, in_range, is_null}

abbrev waited : Option (Bool × ℕ) → Option (Rc × ℕ)
waited none = none
waited (some (true, t)) = some (ok, t)
waited (some (false, t)) = some (etimedout, t)

-- `status->status == CIRA_CXL_STATUS_SUCCESS ? OK : EIO`, read at tick `t`.
unfoldable pub verdict : World → ℕ → ℕ → Rc
verdict env host t = if load 4 (host + 16) (env.memory t) == status_success then ok else eio

-- What the loop does with the answer of `cira_wait_u32_ne`.
abbrev pub after_wait : (ℕ → Option (Rc × ℕ)) → Option (Bool × ℕ) → Option (Rc × ℕ)
after_wait again none = none
after_wait again (some (true, t)) = again t
after_wait again (some (false, t)) = some (etimedout, t)

module _ (env : World) (timeout_ns budget inner : ℕ) where
  -- `cira_wait_u32(magic, CIRA_CXL_COMPLETION_MAGIC, timeout_ns)`; `inner` is the fuel of the wait.
  unfoldable pub wait_completion : ℕ → ℕ → Option (Rc × ℕ)
  wait_completion completion t =
      if is_null completion
      then some (einval, t)
      else waited (wait_impl env completion completion_magic equal timeout_ns budget inner t)

  -- The loop, on fuel; `host` is the address of the status record. `none` is still waiting.
  unfoldable pub seq_loop : ℕ → ℕ → ℕ → ℕ → Option (Rc × ℕ)
  seq_loop zero host seq t = none
  seq_loop (suc fuel) host seq t =
      let observed = load 8 (host + 24) (env.memory t) in
      let rest =
        after_wait (seq_loop fuel host seq) (
          wait_impl env (host + 24) (observed % 2 ^ 32) not_equal timeout_ns budget inner
            (t + 1)) in
      if leb seq observed then some (verdict env host (t + 1), t + 2) else rest

  unfoldable pub wait_seq_window : ℕ → Window → ℕ → ℕ → Option (Rc × ℕ)
  wait_seq_window fuel w seq t =
      if is_null w.base
      then some (enodev, t)
      else if not (in_range (some w) status_off host_status_bytes)
      then some (erange, t)
      else seq_loop fuel (w.base + status_off) seq t

  unfoldable pub wait_seq : ℕ → Option Window → ℕ → ℕ → Option (Rc × ℕ)
  unfolding wait_seq_window
  wait_seq fuel none seq t = some (enodev, t)
  wait_seq fuel (some w) seq t = wait_seq_window fuel w seq t
