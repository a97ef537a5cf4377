-- ===== src/Cache/Buffer.antt =====
-- runtime/src/CiraRuntime.cpp, the delay buffer of `Type2CacheControllerImpl` under its operations.
use cxlmem_uring.Base.{
  ℕ, zero, suc, ◌+◌, ◌-◌, ◌/◌, ◌%◌, ◌^◌, ◌≤◌, ◌<◌, inl, inr, Bool, Option, none, some, leb, ltb,
  arith, Bool-cases, List, [], ◌∷◌, length, drop, length-append, length-drop,
}
use cxlmem_uring.Memory.{Memory}
use cxlmem_uring.Cache.{
  CoherencyState, CacheLine, Controller, DelayedOp, DelayOpType, align_to_line, drain_due,
  push_delayed, process_delay_buffer, enqueue_delayed_op, line_size, is_shared,
}
use cxlmem_uring.Cache.Lines.{
  put_written, hits, cache_load, load_hit, load_miss, cache_store, cache_evict, evict_line,
  handle_snoop, snoop_line, upgraded, line_for_store,
}
use cxlmem_uring.Cache.Range.{invalidate_line, invalidate_lines, invalidate_range}
use cxlmem_uring.Cache.Ops.{CacheOp, load_line, store_line, evict, snoop, invalidate, run_op}

-- The buffer has a place, and holds no more operations than it has places.
abbrev pub Bounded : Controller → Type 0
Bounded c = (0 < c.delay_buffer_depth) × (length c.delay_buffer ≤ c.delay_buffer_depth)

length-drain_due :
    (current : ℕ) (ops : List DelayedOp) → length (drain_due current ops) ≤ length ops
unfolding drain_due
length-drain_due current [] = omega arith
length-drain_due current (op ∷ ops) = ground (arith, length-drain_due current ops)

length-push_delayed :
    (depth : ℕ) (op : DelayedOp) (ops : List DelayedOp)
    → 0 < depth
    → length ops ≤ depth
    → length (push_delayed depth op ops) ≤ depth
unfolding push_delayed
length-push_delayed depth op ops h g = elim (Bool-cases (leb depth (length ops))) [
  | inl full ↦ rw full (rw (length-append (drop 1 ops) (op ∷ []), length-drop 1 ops) (omega arith))
  | inr place ↦ rw place (rw (length-append ops (op ∷ [])) (ground arith))
]

enqueue-Bounded :
    (addr : ℕ) (data_ : List ℕ) (op_type : DelayOpType) (now delay_ns : ℕ) (c : Controller)
    → Bounded c
    → Bounded (enqueue_delayed_op addr data_ op_type now delay_ns c)
unfolding enqueue_delayed_op
enqueue-Bounded addr data_ op_type now delay_ns c (h, g) =
    (h, length-push_delayed c.delay_buffer_depth _ c.delay_buffer h g)

process-Bounded :
    (current : ℕ) (c : Controller) → Bounded c → Bounded (process_delay_buffer current c)
unfolding process_delay_buffer
process-Bounded current c (h, g) = (h, omega (arith, length-drain_due current c.delay_buffer))

upgraded-Bounded :
    (now : ℕ → ℕ) (aligned : ℕ) (line : CacheLine) (c : Controller)
    → Bounded c
    → Bounded (upgraded now aligned line c)
unfolding upgraded
upgraded-Bounded now aligned line c b = elim (Bool-cases (is_shared line.state)) [
  | inl e ↦ rw e (enqueue-Bounded aligned [] _ (now 2) c.config.coherency_latency_ns c b)
  | inr e ↦ rw e b
]

cache_load-Bounded :
    (now : ℕ → ℕ) (addr size : ℕ) (c : Controller) (m : Memory)
    → Bounded c
    → Bounded (cache_load now addr size m c).controller
unfolding cache_load load_hit load_miss
cache_load-Bounded now addr size c m b = elim (Bool-cases (hits (c.cache (align_to_line addr)))) [
  | inl there ↦ rw there (process-Bounded (now 0) c b)
  | inr miss ↦ rw miss (enqueue-Bounded _ _ _ _ _ _ (process-Bounded (now 0) c b))
]

cache_store-Bounded :
    (now : ℕ → ℕ) (addr src size : ℕ) (c : Controller) (m : Memory)
    → Bounded c
    → Bounded (cache_store now addr src size m c)
unfolding cache_store put_written
cache_store-Bounded now addr src size c m b =
    enqueue-Bounded _ _ _ _ _ (upgraded now aligned line written)
      (upgraded-Bounded now aligned line written (process-Bounded (now 0) c b))
  where
    aligned : ℕ
    aligned = align_to_line addr

    line : CacheLine
    line = line_for_store now addr m (c.cache aligned)

    written : Controller
    written = put_written now addr src size m (process_delay_buffer (now 0) c)

-- Evictions, snoops and invalidations leave the buffer alone.
evict_line-Bounded :
    (a : ℕ) (wb : Bool) (c : Controller) (m : Memory) (o : Option CacheLine)
    → Bounded c
    → Bounded (evict_line a wb c m o).0
unfolding evict_line
evict_line-Bounded a wb c m none b = b
evict_line-Bounded a wb c m (some line) b = b

snoop_line-Bounded :
    (a : ℕ) (s : CoherencyState) (c : Controller) (m : Memory) (o : Option CacheLine)
    → Bounded c
    → Bounded (snoop_line a s c m o).0
unfolding snoop_line
snoop_line-Bounded a s c m none b = b
snoop_line-Bounded a s c m (some line) b = b

invalidate_line-Bounded :
    (a : ℕ) (c : Controller) (m : Memory) (o : Option CacheLine)
    → Bounded c
    → Bounded (invalidate_line a c m o).0
unfolding invalidate_line
invalidate_line-Bounded a c m none b = b
invalidate_line-Bounded a c m (some line) b = b

invalidate_lines-Bounded :
    (fuel addr end_ : ℕ) (c : Controller) (m : Memory)
    → Bounded c
    → Bounded (invalidate_lines fuel addr end_ (c, m)).0
unfolding invalidate_lines
invalidate_lines-Bounded zero addr end_ c m b = b
invalidate_lines-Bounded (suc fuel) addr end_ c m b = elim (Bool-cases (ltb addr end_)) [
  | inr past ↦ rw past b
  | inl more ↦
      let s = invalidate_line addr c m (c.cache addr) in
      rw more (
        invalidate_lines-Bounded fuel ((addr + line_size) % 2 ^ 64) end_ s.0 s.1
          (invalidate_line-Bounded addr c m (c.cache addr) b))
]

-- For a delay buffer that has a place and holds no more operations than it has places, every
-- operation of the cache, at any address, leaves it so.
pub run_op-Bounded :
    (now : ℕ → ℕ) (op : CacheOp) (c : Controller) (m : Memory)
    → Bounded c
    → Bounded (run_op now op c m).0
unfolding run_op cache_evict handle_snoop invalidate_range align_to_line
run_op-Bounded now (load_line addr size) c m b = cache_load-Bounded now addr size c m b
run_op-Bounded now (store_line addr src size) c m b = cache_store-Bounded now addr src size c m b
run_op-Bounded now (evict addr writeback) c m b = evict_line-Bounded addr writeback c m _ b
run_op-Bounded now (snoop addr state) c m b = snoop_line-Bounded addr state c m _ b
run_op-Bounded now (invalidate base size) c m b =
    let start = base - base % line_size in
    let end_ = (base + size) % 2 ^ 64 in
    invalidate_lines-Bounded (suc ((end_ - start + line_size - 1) / line_size)) start end_ c m b
