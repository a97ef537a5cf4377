-- ===== src/Cache/Ops.antt =====
-- runtime/src/CiraRuntime.cpp, `Type2CacheControllerImpl`: its operations as one step, against the
-- memory that a reader sees.
use mathlib.Core.Path.{subst}
use cxlmem_uring.Base.{
  ℕ, ◌+◌, ◌-◌, ◌%◌, ◌^◌, ◌≤◌, ◌<◌, ◌≡◌, ◌≢◌, inl, inr, refl, sym, ap, ◌∙◌, Bool, true, false, ◌&&◌,
  Option, none, some, ◌==◌, leb, ltb, arith, Bool-cases,
}
use cxlmem_uring.Memory.{Memory}
use cxlmem_uring.Cache.{
  is_shared, CoherencyState, is_invalid, CacheLine, Controller, line_size, lesser, align_to_line,
  put_line, process_delay_buffer, enqueue_delayed_op,
}
use cxlmem_uring.Cache.Lines.{
  evict_line, put_written, line_for_store, hits, cache_load, load_hit, cache_store, cache_evict,
  handle_snoop, get_coherency_state, upgraded,
}
use cxlmem_uring.Cache.Range.{invalidate_range}
use cxlmem_uring.Cache.Coherent.{seen, Coherent, view, align_self}
use cxlmem_uring.Cache.View.{view_line, Shows}
use cxlmem_uring.Cache.Transparent.{
  dropped, cache_evict-Shows, cache_abandon-Shows, handle_snoop-Shows,
}
use cxlmem_uring.Cache.Access.{stored, written, load_miss-Shows, put_written-Shows}
use cxlmem_uring.Cache.Invalidated.{invalidate_range-Shows}

pub data CacheOp : Type 0 where
  load_line : (addr size : ℕ) → CacheOp
  store_line : (addr src size : ℕ) → CacheOp
  evict : (addr : ℕ) (writeback : Bool) → CacheOp
  snoop : (addr : ℕ) → CoherencyState → CacheOp
  invalidate : (base size : ℕ) → CacheOp

-- The code.
unfoldable pub run_op : (ℕ → ℕ) → CacheOp → Controller → Memory → Controller × Memory
run_op now (load_line addr size) c m = ((cache_load now addr size m c).controller, m)
run_op now (store_line addr src size) c m = (cache_store now addr src size m c, m)
run_op now (evict addr writeback) c m = cache_evict addr writeback c m
run_op now (snoop addr state) c m = handle_snoop addr state c m
run_op now (invalidate base size) c m = invalidate_range base size c m

-- The effect on the memory that is seen: a store writes its bytes, and an eviction without writeback
-- shows the line's bytes in memory again.
unfoldable pub spec_op : CacheOp → Memory → (ℕ → ℕ) → ℕ → ℕ
spec_op (load_line addr size) m v = v
spec_op (store_line addr src size) m v = stored addr src (lesser size line_size) m v
spec_op (evict addr true) m v = v
spec_op (evict addr false) m v = dropped addr m v
spec_op (snoop addr state) m v = v
spec_op (invalidate base size) m v = v

-- Operations on the line at a given address; a load of all of it; a snoop that revives no line.
unfoldable pub WholeLine : CacheOp → Controller → Type 0
WholeLine (load_line addr size) c = (addr % 64 ≡ 0) × (addr ≢ 0) × (64 ≤ size)
WholeLine (store_line addr src size) c = (addr % 64 ≡ 0) × (addr ≢ 0)
WholeLine (evict addr writeback) c = (addr % 64 ≡ 0) × (addr ≢ 0)
WholeLine (snoop addr state) c =
    (addr % 64 ≡ 0)
    × (addr ≢ 0)
    × (is_invalid (get_coherency_state addr c) ≡ true → is_invalid state ≡ true)
WholeLine (invalidate base size) c = base + size + 64 ≤ 2 ^ 64

cache_load-Shows :
    (now : ℕ → ℕ) (addr size : ℕ) (c : Controller) (m : Memory)
    → addr % 64 ≡ 0
    → addr ≢ 0
    → 64 ≤ size
    → Coherent c.cache m
    → Shows ((cache_load now addr size m c).controller, m) (view c.cache m)
unfolding cache_load load_hit
cache_load-Shows now addr size c m ha hz hs inv =
    rw (align_self addr ha) (elim (Bool-cases (hits (c.cache addr))) [
      | inl there ↦ rw there (inv, λ p. refl)
      | inr miss ↦
          rw miss
            (load_miss-Shows now (process_delay_buffer (now 0) c) m addr ha hz inv size hs miss)
    ])

cache_store-Shows :
    (now : ℕ → ℕ) (addr src size : ℕ) (c : Controller) (m : Memory)
    → addr % 64 ≡ 0
    → addr ≢ 0
    → Coherent c.cache m
    → Shows
        (cache_store now addr src size m c, m)
        (stored addr src (lesser size line_size) m (view c.cache m))
unfolding cache_store process_delay_buffer enqueue_delayed_op upgraded put_written
cache_store-Shows now addr src size c m ha hz inv =
    subst
      (λ k.
        Coherent k m
        × ((p : ℕ) → view k m p ≡ stored addr src (lesser size line_size) m (view c.cache m) p))
      (sym same) (put_written-Shows now c m addr ha hz inv src size)
  where
    same :
        (cache_store now addr src size m c).cache
        ≡ put_line addr (written now c m addr ha hz inv src size) c.cache
    same =
        rw (align_self addr ha)
          (elim (Bool-cases (is_shared (line_for_store now addr m (c.cache addr)).state)) [
            | inl e ↦ rw e refl
            | inr e ↦ rw e refl
          ])

-- For a state where, on every line, dirty lines are MODIFIED and clean valid lines are as in memory,
-- and for an operation at an address that is not null and starts a line (a load of at least a line,
-- a store, an eviction, a snoop that leaves an invalid line invalid) or an invalidation of a range
-- that ends a line before 2 ^ 64: the state after it is such a state again, and the memory seen
-- through the cache is changed by a store exactly at the bytes it writes, by an eviction without
-- writeback exactly at its line, where memory's own bytes are seen, and by the other operations not
-- at all.
pub run_op-refines :
    (now : ℕ → ℕ) (op : CacheOp) (c : Controller) (m : Memory)
    → Coherent c.cache m
    → WholeLine op c
    → let (c', m') = run_op now op c m in
      Coherent c'.cache m' × ((p : ℕ) → view c'.cache m' p ≡ spec_op op m (view c.cache m) p)
unfolding run_op spec_op WholeLine
run_op-refines now (load_line addr size) c m inv w =
    cache_load-Shows now addr size c m w.0 w.1 w.2 inv
run_op-refines now (store_line addr src size) c m inv w =
    cache_store-Shows now addr src size c m w.0 w.1 inv
run_op-refines now (evict addr true) c m inv w = cache_evict-Shows c m addr w.0 w.1 inv
run_op-refines now (evict addr false) c m inv w = cache_abandon-Shows c m addr w.0 w.1 inv
run_op-refines now (snoop addr state) c m inv w = handle_snoop-Shows c m addr w.0 w.1 inv state w.2
run_op-refines now (invalidate base size) c m inv w = invalidate_range-Shows base size c m w inv

evict_line-seen :
    (a : ℕ) (c : Controller) (m m' : Memory) (p : ℕ) (o : Option CacheLine)
    → a % 64 ≡ 0
    → c.cache a ≡ o
    → seen ((evict_line a true c m o).0.cache a) m' p ≡ m' p
unfolding evict_line put_line seen is_invalid
evict_line-seen a c m m' p none ha e = rw e refl
evict_line-seen a c m m' p (some line) ha e =
    let q : (a == align_to_line a) ≡ true = ground (arith, align_self a ha) in rw q refl

cache_evict-seen :
    (a : ℕ) (c : Controller) (m m' : Memory) (p : ℕ)
    → a % 64 ≡ 0
    → a ≤ p
    → p < a + 64
    → view (cache_evict a true c m).0.cache m' p ≡ m' p
unfolding cache_evict
cache_evict-seen a c m m' p ha lo hi =
    view_line (cache_evict a true c m).0.cache m' a p ha lo hi
    ∙ rw (align_self a ha) (evict_line-seen a c m m' p (c.cache a) ha refl)

-- For a coherent state, an address that is not null and starts a line, and at most a line's bytes:
-- after their store and an eviction with writeback, host memory holds the stored bytes at that
-- address.
pub store_then_evict :
    (now : ℕ → ℕ) (addr src size : ℕ) (c : Controller) (m : Memory)
    → Coherent c.cache m
    → addr % 64 ≡ 0
    → addr ≢ 0
    → size ≤ 64
    → (i : ℕ) → i < size
    → (cache_evict addr true (cache_store now addr src size m c) m).1 (addr + i) ≡ m (src + i)
unfolding lesser
store_then_evict now addr src size c m inv ha hz hs i hi =
    sym (cache_evict-seen addr c' m m' (addr + i) ha (omega arith) (omega arith))
    ∙ (cache_evict-Shows c' m addr ha hz stored_in.0).1 (addr + i)
    ∙ stored_in.1 (addr + i)
    ∙ rw inside (let e : src + (addr + i - addr) ≡ src + i = omega arith in ap m e)
  where
    c' : Controller
    c' = cache_store now addr src size m c

    m' : Memory
    m' = (cache_evict addr true c' m).1

    stored_in : Shows (c', m) (stored addr src (lesser size line_size) m (view c.cache m))
    stored_in = cache_store-Shows now addr src size c m ha hz inv

    inside : (leb addr (addr + i) && ltb (addr + i) (addr + lesser size line_size)) ≡ true
    inside = ground arith
