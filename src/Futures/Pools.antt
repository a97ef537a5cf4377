-- ===== src/Futures/Pools.antt =====
-- runtime/src/CiraRuntime.cpp: the life of a future pool, its registration as a linear region, the
-- wait for one future and the phase barrier.
pub mod Barrier
use cxlmem_uring.Base.{
  ℕ, ◌+◌, ◌*◌, ◌/◌, ◌%◌, ◌^◌, true, false, not, ◌||◌, Option, none, some, List, [], ◌∷◌, ◌==◌,
  if◌then◌else◌,
}
use cxlmem_uring.Memory.{Memory}
use cxlmem_uring.Job.{cacheline_size}
use cxlmem_uring.Wait.{World}
use cxlmem_uring.Mmio.WaitSeq.{wait_completion}
use cxlmem_uring.Regions.{
  Region, RegionRc, done, einval, enoent, register_linear_region, unregister_linear_region,
}
use cxlmem_uring.Regions.Translate.{TokenWorld}
use cxlmem_uring.Regions.Tokens.{translate_runtime_paddr}
use cxlmem_uring.Futures.{Pool, pool_at, future_pool_entry, untrack_future_range}
use cxlmem_uring.Tiles.{HeapCall, aligned_block, freed_block, new_object, deleted_object, zeroed_at}

-- A pool by its pointer.
abbrev pub PoolHandle : Type 0
PoolHandle = ℕ × Pool

abbrev pub pool_of : Option PoolHandle → Option Pool
pool_of none = none
pool_of (some (p, pool)) = some pool

-- The part of `cira_future_pool_alloc` after the entries are cleared: `object` is the answer of `new`.
unfoldable pub place_pool :
    ℕ → ℕ → ℕ → Option ℕ → Memory → Option PoolHandle × Memory × List HeapCall
place_pool depth size base none m =
    (none, zeroed_at base size m, aligned_block base size ∷ freed_block base ∷ [])
place_pool depth size base (some p) m = (
  some (p, pool_at base depth),
  zeroed_at base size m,
  aligned_block base size ∷ new_object p ∷ [],
)

unfoldable pub pool_in_block :
    ℕ → ℕ → Option ℕ → Option ℕ → Memory → Option PoolHandle × Memory × List HeapCall
unfolding place_pool
pool_in_block depth size none object m = (none, m, [])
pool_in_block depth size (some base) object m = place_pool depth size base object m

-- `block` is the allocator's answer.
unfoldable pub future_pool_alloc :
    ℕ → Option ℕ → Option ℕ → Memory → Option PoolHandle × Memory × List HeapCall
unfolding pool_in_block
future_pool_alloc depth block object m =
    let size = depth * cacheline_size % 2 ^ 64 in
    if depth == 0
    then (none, m, [])
    else if not (size / cacheline_size == depth)
    then (none, m, [])
    else pool_in_block depth size block object m

unfoldable pub future_pool_free :
    Option PoolHandle → List Region → List ℕ → List Region × List ℕ × List HeapCall
future_pool_free none table active = (table, active, [])
future_pool_free (some (p, pool)) table active = (
  (if pool.registered then (unregister_linear_region pool.base table).1 else table),
  untrack_future_range pool.base pool.bytes_ active,
  freed_block pool.base ∷ deleted_object p ∷ [],
)

unfoldable pub future_pool_depth : Option PoolHandle → ℕ
future_pool_depth none = 0
future_pool_depth (some (p, pool)) = pool.depth

-- The entry's address, 0 for none.
unfoldable pub future_pool_get : Option PoolHandle → ℕ → ℕ
future_pool_get h index = future_pool_entry (pool_of h) index

unfoldable pub future_pool_get_device_addr : TokenWorld → Option PoolHandle → ℕ → List Region → ℕ
unfolding future_pool_get
future_pool_get_device_addr w h index table =
    let entry = future_pool_get h index in
    if entry == 0 then 0 else translate_runtime_paddr w entry table

-- The return code, the pool and the table.
unfoldable pub registered_pool :
    PoolHandle → RegionRc × List Region → RegionRc × Option PoolHandle × List Region
registered_pool (p, pool) (done, table) = (done, some (p, record pool { registered = true }), table)
registered_pool (p, pool) (einval, table) = (einval, some (p, pool), table)
registered_pool (p, pool) (enoent, table) = (enoent, some (p, pool), table)

unfoldable pub future_pool_register :
    Option PoolHandle → ℕ → ℕ → List Region → RegionRc × Option PoolHandle × List Region
unfolding registered_pool
future_pool_register none device_base flags table = (einval, none, table)
future_pool_register (some (p, pool)) device_base flags table =
    if pool.base == 0 || pool.bytes_ == 0
    then (einval, some (p, pool), table)
    else registered_pool (p, pool)
        (register_linear_region pool.base pool.bytes_ device_base flags table)

unfoldable pub unregistered_pool :
    PoolHandle → RegionRc × List Region → RegionRc × Option PoolHandle × List Region
unregistered_pool (p, pool) (done, table) =
    (done, some (p, record pool { registered = false }), table)
unregistered_pool (p, pool) (einval, table) = (einval, some (p, pool), table)
unregistered_pool (p, pool) (enoent, table) = (enoent, some (p, pool), table)

unfoldable pub future_pool_unregister :
    Option PoolHandle → List Region → RegionRc × Option PoolHandle × List Region
unfolding unregistered_pool
future_pool_unregister none table = (einval, none, table)
future_pool_unregister (some (p, pool)) table =
    if pool.base == 0
    then (einval, some (p, pool), table)
    else unregistered_pool (p, pool) (unregister_linear_region pool.base table)

module _ (env : World) (timeout_ns spin_budget inner : ℕ) where
  -- The address of the result, 0 for a null completion, and the next tick; `none` is still waiting.
  unfoldable pub future_await : ℕ → ℕ → Option (ℕ × ℕ)
  future_await completion t =
      if completion == 0
      then some (0, t)
      else elim (wait_completion env timeout_ns spin_budget inner completion t) [
        | none ↦ none
        | some (rc, t') ↦ some (completion + 8, t')
      ]

  -- The loop of `cira_phase_barrier` over the active futures: the tick after it.
  unfoldable pub await_all : List ℕ → ℕ → Option ℕ
  await_all [] t = some t
  await_all (p ∷ active) t =
      if p == 0
      then await_all active t
      else elim (wait_completion env timeout_ns spin_budget inner p t) [
        | none ↦ none
        | some (rc, t') ↦ await_all active t'
      ]

  -- The futures that are active after the barrier, and the tick.
  unfoldable pub phase_barrier : List ℕ → ℕ → Option (List ℕ × ℕ)
  unfolding await_all
  phase_barrier active t = elim (await_all active t) [ none ↦ none | some t' ↦ some ([], t') ]
