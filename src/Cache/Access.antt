-- ===== src/Cache/Access.antt =====
-- runtime/src/CiraRuntime.cpp, `cacheLoad` and `cacheStore` of `Type2CacheControllerImpl` against
-- the memory that is seen through the cache.
use cxlmem_uring.Base.{
  ℕ, ◌+◌, ◌-◌, ◌%◌, ◌≤◌, ◌<◌, ◌≡◌, ◌≢◌, inl, inr, refl, sym, ap, ◌∙◌, true, false, ◌&&◌, some, ◌==◌,
  leb, ltb, if◌then◌else◌, arith, Bool-cases,
}
use cxlmem_uring.Memory.{Memory}
use cxlmem_uring.Memory.Ranges.{Apart}
use cxlmem_uring.Cache.{
  enqueue_delayed_op, shared, modified, is_invalid, CacheLine, Controller, put_line, line_size,
  lesser, copy_in,
}
use cxlmem_uring.Cache.Lines.{slot_of, hits, fetched, load_miss, line_for_store}
use cxlmem_uring.Cache.Coherent.{Coherent, seen, view, align_self, put_line-Coherent, view-put_line}
use cxlmem_uring.Cache.View.{Shows}
use cxlmem_uring.Cache.Transparent.{not_hit, hit}

-- Memory with `n` bytes from `src` at `a`.
abbrev pub stored : ℕ → ℕ → ℕ → Memory → (ℕ → ℕ) → ℕ → ℕ
stored a src n m v p = if leb a p && ltb p (a + n) then m (src + (p - a)) else v p

module _ (now : ℕ → ℕ) (c : Controller) (m : Memory) (a : ℕ) (on_line : a % 64 ≡ 0) (given : a ≢ 0)
    (inv : Coherent c.cache m) where
  fetched_byte :
      (size i : ℕ) (old : ℕ → ℕ)
      → 64 ≤ size
      → i < 64
      → fetched a c.bar2_mapping size m old i ≡ m (a + i)
  unfolding fetched copy_in lesser
  fetched_byte size i old hs hi = ground arith

  missed : ℕ → CacheLine
  missed size = record {
    data_ = fetched a c.bar2_mapping size m (slot_of (c.cache a)).data_;
    state = shared;
    dirty = false;
    timestamp_ns = now 1;
  }

  pub load_miss-Shows :
      (size : ℕ)
      → 64 ≤ size
      → hits (c.cache a) ≡ false
      → Shows ((load_miss now a size m c).controller, m) (view c.cache m)
  unfolding load_miss seen is_invalid missed enqueue_delayed_op put_line
  load_miss-Shows size hs miss = rw (align_self a on_line) (
    put_line-Coherent c.cache m m a (missed size) on_line (λ p h. refl)
        (record { dirty_only = λ d. cc; clean = λ v d i h. fetched_byte size i _ hs h }) inv,
    view-put_line c.cache m m a (missed size) on_line (λ p h. refl) (view c.cache m) inside
        (λ p h. refl),
  )
    where
      inside : (p : ℕ) → a ≤ p → p < a + 64 → seen (some (missed size)) m p ≡ view c.cache m p
      inside p h g =
          fetched_byte size (p % 64) _ hs (omega arith)
          ∙ (let e : a + p % 64 ≡ p = omega arith in ap m e)
          ∙ sym (not_hit c m a on_line given inv p h g miss)

  -- The bytes of a line that is about to be written.
  line_for_store_byte :
      (p : ℕ)
      → a ≤ p
      → p < a + 64
      → (line_for_store now a m (c.cache a)).data_ (p % 64) ≡ view c.cache m p
  unfolding line_for_store copy_in
  line_for_store_byte p h g = elim (Bool-cases (hits (c.cache a))) [
    | inl there ↦ rw there (sym (hit c m a on_line given inv p h g there ∙ offset))
    | inr miss ↦ rw miss (fetch ∙ sym (not_hit c m a on_line given inv p h g miss))
  ]
    where
      offset : (slot_of (c.cache a)).data_ (p - a) ≡ (slot_of (c.cache a)).data_ (p % 64)
      offset = let e : p - a ≡ p % 64 = omega arith in ap (slot_of (c.cache a)).data_ e

      inside : ltb (p % 64) line_size ≡ true
      inside = ground arith

      nonnull : (a == 0) ≡ false
      nonnull = ground arith

      fetch :
          (if a == 0
              then (slot_of (c.cache a)).data_
              else copy_in line_size (λ i. m (a + i)) (slot_of (c.cache a)).data_)
            (p % 64)
          ≡ m p
      fetch = rw (nonnull, inside) (let e : a + p % 64 ≡ p = omega arith in ap m e)

  abbrev pub written : ℕ → ℕ → CacheLine
  written src size = record {
    data_ =
        copy_in (lesser size line_size) (λ i. m (src + i))
          (line_for_store now a m (c.cache a)).data_;
    state = modified;
    dirty = true;
    timestamp_ns = now 3;
  }

  written_byte :
      (src size p : ℕ)
      → a ≤ p
      → p < a + 64
      → seen (some (written src size)) m p
        ≡ stored a src (lesser size line_size) m (view c.cache m) p
  unfolding seen is_invalid copy_in
  written_byte src size p h g = elim (Bool-cases (ltb (p % 64) n)) [
    | inl low ↦
        let below : (leb a p && ltb p (a + n)) ≡ true = ground arith in
        rw (low, below) (let e : p % 64 ≡ p - a = omega arith in ap (λ i. m (src + i)) e)
    | inr high ↦
        let above : (leb a p && ltb p (a + n)) ≡ false = ground arith in
        rw (high, above) (line_for_store_byte p h g)
  ]
    where
      n : ℕ
      n = lesser size line_size

  stored_outside :
      (src size p : ℕ)
      → Apart p 1 a 64
      → view c.cache m p ≡ stored a src (lesser size line_size) m (view c.cache m) p
  unfolding lesser
  stored_outside src size p h =
      let out : (leb a p && ltb p (a + lesser size line_size)) ≡ false = ground arith in rw out refl

  pub put_written-Shows :
      (src size : ℕ)
      → Shows
          (record c { cache = put_line a (written src size) c.cache }, m)
          (stored a src (lesser size line_size) m (view c.cache m))
  put_written-Shows src size = (
    put_line-Coherent c.cache m m a (written src size) on_line (λ p h. refl)
        (record { dirty_only = λ d. refl; clean = λ v d. cc }) inv,
    view-put_line c.cache m m a (written src size) on_line (λ p h. refl) _ (written_byte src size)
        (stored_outside src size),
  )
