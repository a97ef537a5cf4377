-- ===== src/Futures.antt =====
-- runtime/src/CiraRuntime.cpp, completion futures: the active futures, the pool, and
-- `cira_offload_submit`. The mutex makes each access to the active futures atomic.
pub mod Active
pub mod Offload
pub mod Pools
use cxlmem_uring.Base.{
  ℕ, ◌+◌, ◌*◌, ◌%◌, ◌^◌, Bool, true, false, not, ◌&&◌, ◌||◌, Option, none, some, List, [], ◌∷◌,
  ◌++◌, ◌==◌, ltb, leb, if◌then◌else◌,
}
use cxlmem_uring.Memory.{Memory}
use cxlmem_uring.Job.{cacheline_size}
use cxlmem_uring.Mmio.{Window, Rc, ok, einval, enodev, eio, etimedout, erange}
use cxlmem_uring.Mmio.Completion.{arm_completion, signal_completion}
use cxlmem_uring.Mmio.Submit.{Submitted, submit_call}

-- `struct CiraFuturePool`.
pub record Pool : Type 0 where
  pub base : ℕ
  pub depth : ℕ
  pub bytes_ : ℕ
  pub registered : Bool

unfoldable pub is_active : ℕ → List ℕ → Bool
is_active p [] = false
is_active p (q ∷ active) = q == p || is_active p active

unfoldable pub track_active_future : ℕ → List ℕ → List ℕ
track_active_future p active =
    if p == 0 then active else if is_active p active then active else active ++ (p ∷ [])

-- `remove` and `erase`.
unfoldable pub without : (ℕ → Bool) → List ℕ → List ℕ
without drops [] = []
without drops (p ∷ active) = let rest = without drops active in if drops p then rest else p ∷ rest

unfoldable pub untrack_active_future : ℕ → List ℕ → List ℕ
unfolding without
untrack_active_future p active = if p == 0 then active else without (λ q. q == p) active

unfoldable pub in_span : ℕ → ℕ → ℕ → Bool
in_span base bytes_ p = leb base p && ltb p ((base + bytes_) % 2 ^ 64)

unfoldable pub untrack_future_range : ℕ → ℕ → List ℕ → List ℕ
unfolding without
untrack_future_range base bytes_ active =
    if base == 0 || bytes_ == 0 then active else without (in_span base bytes_) active

-- The address of an entry, 0 for none.
unfoldable pub future_pool_entry : Option Pool → ℕ → ℕ
future_pool_entry none index = 0
future_pool_entry (some pool) index =
    if pool.base == 0 || leb pool.depth index then 0 else pool.base + index * cacheline_size

-- The pool of `cira_future_pool_alloc` at the block that the allocator gave.
unfoldable pub pool_at : ℕ → ℕ → Pool
pool_at base depth = record {
  base = base;
  depth = depth;
  bytes_ = depth * cacheline_size;
  registered = false;
}

-- The answer is false for `-EINVAL`.
unfoldable pub future_pool_arm : Option Pool → ℕ → List ℕ → Memory → Bool × List ℕ × Memory
future_pool_arm pool index active m =
    let entry = future_pool_entry pool index in
    if entry == 0
    then (false, active, m)
    else (true, track_active_future entry active, arm_completion entry m)

unfoldable pub is_ok : Rc → Bool
is_ok ok = true
is_ok einval = false
is_ok enodev = false
is_ok eio = false
is_ok etimedout = false
is_ok erange = false

-- The operands of a call: the `int` of the caller, by its 32 bits, is 0 where it is negative.
unfoldable pub operand_count : ℕ → ℕ
operand_count num_operands = if ltb num_operands (2 ^ 31) then num_operands else 0

-- `submit_mmio_call`; `window` is the default window, `device_func` the device's entry point.
unfoldable pub submit_mmio_call :
    Option Window → ℕ → ℕ → ℕ → ℕ → ℕ → Memory → Bool × Option Window × Memory
unfolding is_ok operand_count
submit_mmio_call none func operands num_operands completion device_func m = (false, none, m)
submit_mmio_call (some w) func operands num_operands completion device_func m =
    let argc = operand_count num_operands in
    let r = submit_call (some w) func operands argc completion device_func m in
    (is_ok r.rc, r.window, r.memory)

pub record Offloaded : Type 0 where
  pub submitted : Bool
  pub window : Option Window
  pub active : List ℕ
  pub memory : Memory

unfoldable pub offload_submit : Option Window → ℕ → ℕ → ℕ → ℕ → ℕ → List ℕ → Memory → Offloaded
unfolding submit_mmio_call
offload_submit window func operands num_operands completion device_func active m =
    let (submitted, window', m') =
      submit_mmio_call window func operands num_operands completion device_func
        (arm_completion completion m) in
    record {
      submitted = submitted;
      window = window';
      active = track_active_future completion active;
      memory = if submitted then m' else signal_completion completion 0 0 m';
    }
