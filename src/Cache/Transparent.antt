-- ===== src/Cache/Transparent.antt =====
-- runtime/src/CiraRuntime.cpp, `Type2CacheControllerImpl`: loads, stores, evictions and snoops of
-- whole lines do not change what is seen, but for the bytes that a store writes and the dirty bytes that an
-- eviction without writeback drops.
use cxlmem_uring.Base.{
  ℕ, ◌+◌, ◌-◌, ◌%◌, ◌≤◌, ◌<◌, ◌≡◌, ◌≢◌, inl, inr, refl, ap, ◌∙◌, Bool, true, false, not, ◌&&◌,
  Option, none, some, ◌==◌, if◌then◌else◌, arith, Bool-cases, leb, ltb,
}
use cxlmem_uring.Memory.{Memory}
use cxlmem_uring.Cache.{
  CoherencyState, invalid, is_invalid, is_modified, CacheLine, Controller, copy_out, put_line,
}
use cxlmem_uring.Cache.Lines.{
  slot_of, hits, cache_evict, evict_line, handle_snoop, snoop_line, dirty_after,
  get_coherency_state, state_of,
}
use cxlmem_uring.Cache.Coherent.{Coherent, seen, view, align_self, put_line-Coherent, view-put_line}
use cxlmem_uring.Cache.View.{Shows, view_line, flush-Shows}

-- What is seen where the line at `a` is dropped: its bytes as they are in memory.
abbrev pub dropped : ℕ → Memory → (ℕ → ℕ) → ℕ → ℕ
dropped a m v p = if leb a p && ltb p (a + 64) then m p else v p

module _ (c : Controller) (m : Memory) (a : ℕ) (on_line : a % 64 ≡ 0) (given : a ≢ 0)
    (inv : Coherent c.cache m) where
  unmoved : Shows (c, m) (view c.cache m)
  unmoved = (inv, λ p. refl)

  nonnull : (a == 0) ≡ false
  nonnull = ground arith

  evict_line-Shows :
      (o : Option CacheLine) → c.cache a ≡ o → Shows (evict_line a true c m o) (view c.cache m)
  unfolding evict_line is_invalid
  evict_line-Shows none e = unmoved
  evict_line-Shows (some line) e =
      flush-Shows c.cache m a line on_line e inv invalid
        (record line { state = invalid; dirty = false }) (λ h. refl) refl
        (evict_line a true c m (some line)).0 (evict_line a true c m (some line)).1
        (ap (λ b. if b then copy_out a line.data_ m else m) guard)
        (ap (λ k. put_line k (record line { state = invalid; dirty = false }) c.cache)
          (align_self a on_line))
    where
      guard : (true && line.dirty && not (a == 0)) ≡ line.dirty
      guard = elim (Bool-cases line.dirty) [ inl d ↦ rw (d, nonnull) refl | inr d ↦ rw d refl ]

  -- An eviction with writeback.
  pub cache_evict-Shows : Shows (cache_evict a true c m) (view c.cache m)
  unfolding cache_evict
  cache_evict-Shows = rw (align_self a on_line) (evict_line-Shows (c.cache a) refl)

  -- An eviction without writeback loses the dirty bytes.
  abandoned-Shows :
      (o : Option CacheLine)
      → c.cache a ≡ o
      → Shows (evict_line a false c m o) (dropped a m (view c.cache m))
  unfolding evict_line seen is_invalid
  abandoned-Shows none e = (
    inv,
    λ p. elim (Bool-cases (leb a p && ltb p (a + 64))) [
      | inl h ↦ rw h (view_line c.cache m a p on_line (ground arith) (ground arith) ∙ absent p)
      | inr h ↦ rw h refl
    ],
  )
    where
      absent : (p : ℕ) → seen (c.cache a) m p ≡ m p
      absent p = rw e refl
  abandoned-Shows (some line) e = rw (align_self a on_line) (
    put_line-Coherent c.cache m m a gone on_line (λ p h. refl)
        (record { dirty_only = λ d. cc; clean = λ v d i h. cc }) inv,
    view-put_line c.cache m m a gone on_line (λ p h. refl) (dropped a m (view c.cache m))
        (λ p h g. ground arith) (λ p h. ground arith),
  )
    where
      gone : CacheLine
      gone = record line { state = invalid; dirty = false }

  pub cache_abandon-Shows : Shows (cache_evict a false c m) (dropped a m (view c.cache m))
  unfolding cache_evict
  cache_abandon-Shows = rw (align_self a on_line) (abandoned-Shows (c.cache a) refl)

  snoop_line-Shows :
      (new_state : CoherencyState) (o : Option CacheLine)
      → (is_invalid (state_of o) ≡ true → is_invalid new_state ≡ true)
      → c.cache a ≡ o
      → Shows (snoop_line a new_state c m o) (view c.cache m)
  unfolding snoop_line state_of is_modified dirty_after
  snoop_line-Shows new_state none live e = unmoved
  snoop_line-Shows new_state (some line) live e =
      flush-Shows c.cache m a line on_line e inv new_state
        (record line { state = new_state; dirty = dirty_after line new_state }) live
        (ap (λ d. record line { state = new_state; dirty = d }) cleaned)
        (snoop_line a new_state c m (some line)).0 (snoop_line a new_state c m (some line)).1
        (ap (λ b. if b then copy_out a line.data_ m else m) guard)
        (ap
          (λ k.
            put_line k (record line { state = new_state; dirty = dirty_after line new_state })
              c.cache)
          (align_self a on_line))
    where
      was : line.dirty ≡ true → is_modified line.state ≡ true
      was d = rw ((inv a on_line line e).dirty_only d) refl

      and_false : (b : Bool) → (b && false && not (a == 0)) ≡ false
      and_false true = refl
      and_false false = refl

      guard : (is_modified line.state && line.dirty && not (a == 0)) ≡ line.dirty
      guard = elim (Bool-cases line.dirty) [
        | inl d ↦ rw (d, nonnull, was d) refl
        | inr d ↦ rw d (and_false (is_modified line.state))
      ]

      cleaned : dirty_after line new_state ≡ false
      cleaned = elim (Bool-cases line.dirty) [ inl d ↦ rw (d, was d) refl | inr d ↦ rw d refl ]

  -- A snoop that does not revive an invalid line.
  pub handle_snoop-Shows :
      (new_state : CoherencyState)
      → (is_invalid (get_coherency_state a c) ≡ true → is_invalid new_state ≡ true)
      → Shows (handle_snoop a new_state c m) (view c.cache m)
  unfolding handle_snoop get_coherency_state
  handle_snoop-Shows new_state live =
      rw (align_self a on_line)
        (snoop_line-Shows new_state (c.cache a) (rw (align_self a on_line) at live) refl)

  pub not_hit : (p : ℕ) → a ≤ p → p < a + 64 → hits (c.cache a) ≡ false → view c.cache m p ≡ m p
  unfolding hits seen
  not_hit p h g miss = view_line c.cache m a p on_line h g ∙ through (c.cache a) miss
    where
      through : (o : Option CacheLine) → hits o ≡ false → seen o m p ≡ m p
      through none n = refl
      through (some line) n = elim (Bool-cases (is_invalid line.state)) [
        | inl v ↦ rw v refl
        | inr v ↦ cc (rw v at n)
      ]

  pub hit :
      (p : ℕ)
      → a ≤ p
      → p < a + 64
      → hits (c.cache a) ≡ true
      → view c.cache m p ≡ (slot_of (c.cache a)).data_ (p - a)
  unfolding hits seen slot_of
  hit p h g there = view_line c.cache m a p on_line h g ∙ through (c.cache a) there
    where
      through : (o : Option CacheLine) → hits o ≡ true → seen o m p ≡ (slot_of o).data_ (p - a)
      through none n = cc
      through (some line) n = elim (Bool-cases (is_invalid line.state)) [
        | inl v ↦ cc (rw v at n)
        | inr v ↦ rw v (let e : p % 64 ≡ p - a = omega arith in ap line.data_ e)
      ]
