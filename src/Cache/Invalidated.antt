-- ===== src/Cache/Invalidated.antt =====
-- runtime/src/CiraRuntime.cpp, `invalidateRange` of `Type2CacheControllerImpl`: what it leaves.
use cxlmem_uring.Base.{
  ℕ, zero, suc, ◌+◌, ◌-◌, ◌*◌, ◌/◌, ◌%◌, ◌^◌, ◌≤◌, ◌<◌, ◌≡◌, ◌≢◌, ◌⊎◌, inl, inr, refl, ap, ◌∙◌,
  true, false, ◌&&◌, Option, none, some, ◌==◌, ltb, if◌then◌else◌, arith, Bool-cases,
}
use cxlmem_uring.Memory.{Memory}
use cxlmem_uring.Cache.{
  invalid, is_invalid, is_modified, CacheLine, Controller, align_to_line, copy_out, put_line,
  line_size,
}
use cxlmem_uring.Cache.Lines.{state_of, get_coherency_state}
use cxlmem_uring.Cache.Range.{invalidate_line, invalidate_lines, invalidate_range}
use cxlmem_uring.Cache.Coherent.{Coherent, view}
use cxlmem_uring.Cache.View.{Shows, flush-Shows}

module _ (c : Controller) (m : Memory) (a : ℕ) (on_line : a % 64 ≡ 0)
    (inv : Coherent c.cache m) where
  invalidate_line-Shows :
      (o : Option CacheLine) → c.cache a ≡ o → Shows (invalidate_line a c m o) (view c.cache m)
  unfolding invalidate_line is_invalid is_modified
  invalidate_line-Shows none e = (inv, λ p. refl)
  invalidate_line-Shows (some line) e =
      flush-Shows c.cache m a line on_line e inv invalid
        (record line { state = invalid; dirty = false }) (λ h. refl) refl
        (invalidate_line a c m (some line)).0 (invalidate_line a c m (some line)).1
        (ap (λ b. if b then copy_out a line.data_ m else m) guard) refl
    where
      was : line.dirty ≡ true → is_modified line.state ≡ true
      was d = rw ((inv a on_line line e).dirty_only d) refl

      guard : (line.dirty && is_modified line.state) ≡ line.dirty
      guard = elim (Bool-cases line.dirty) [ inl d ↦ rw (d, was d) refl | inr d ↦ rw d refl ]

Shows-next :
    (s s' : Controller × Memory) (v : ℕ → ℕ)
    → Shows s v
    → Shows s' (view s.0.cache s.1)
    → Shows s' v
Shows-next s s' v h g = (g.0, λ p. g.1 p ∙ h.1 p)

invalidate_lines-Shows :
    (fuel addr end_ : ℕ) (c : Controller) (m : Memory)
    → addr % 64 ≡ 0
    → end_ + 64 ≤ 2 ^ 64
    → Coherent c.cache m
    → Shows (invalidate_lines fuel addr end_ (c, m)) (view c.cache m)
unfolding invalidate_lines
invalidate_lines-Shows zero addr end_ c m ha he inv = (inv, λ p. refl)
invalidate_lines-Shows (suc fuel) addr end_ c m ha he inv = elim (Bool-cases (ltb addr end_)) [
  | inr past ↦ rw past (inv, λ p. refl)
  | inl more ↦ rw more (
      Shows-next now (invalidate_lines fuel ((addr + line_size) % 2 ^ 64) end_ now) (view c.cache m)
        step
        (invalidate_lines-Shows fuel ((addr + line_size) % 2 ^ 64) end_ now.0 now.1
          (next (ground arith)) he step.0))
]
  where
    now : Controller × Memory
    now = invalidate_line addr c m (c.cache addr)

    step : Shows now (view c.cache m)
    step = invalidate_line-Shows c m addr ha inv (c.cache addr) refl

    next : addr < end_ → (addr + line_size) % 2 ^ 64 % 64 ≡ 0
    next h = omega arith

pub invalidate_range-Shows :
    (base size : ℕ) (c : Controller) (m : Memory)
    → base + size + 64 ≤ 2 ^ 64
    → Coherent c.cache m
    → Shows (invalidate_range base size c m) (view c.cache m)
unfolding invalidate_range align_to_line
invalidate_range-Shows base size c m h inv =
    invalidate_lines-Shows
      (suc (((base + size) % 2 ^ 64 - (base - base % line_size) + line_size - 1) / line_size))
      (base - base % line_size) ((base + size) % 2 ^ 64) c m (omega arith) (omega arith) inv

-- A line that is invalid stays so, and the line of the round becomes so.
invalidate_line-invalid :
    (a k : ℕ) (c : Controller) (m : Memory) (o : Option CacheLine)
    → c.cache a ≡ o
    → (k ≡ a) ⊎ (state_of (c.cache k) ≡ invalid)
    → state_of ((invalidate_line a c m o).0.cache k) ≡ invalid
unfolding invalidate_line put_line state_of
invalidate_line-invalid a k c m none e (inl same) = rw (same, e) refl
invalidate_line-invalid a k c m none e (inr old) = old
invalidate_line-invalid a k c m (some line) e (inl same) =
    let q : (k == a) ≡ true = ground arith in rw q refl
invalidate_line-invalid a k c m (some line) e (inr old) = elim (Bool-cases (k == a)) [
  | inl q ↦ rw q refl
  | inr q ↦ rw q old
]

invalidate_lines-invalid :
    (fuel addr end_ k : ℕ) (c : Controller) (m : Memory)
    → addr % 64 ≡ 0
    → k % 64 ≡ 0
    → end_ + 64 ≤ 2 ^ 64
    → ((addr ≤ k) × (k < end_) × (end_ ≤ addr + 64 * fuel)) ⊎ (state_of (c.cache k) ≡ invalid)
    → state_of ((invalidate_lines fuel addr end_ (c, m)).0.cache k) ≡ invalid
unfolding invalidate_lines
invalidate_lines-invalid zero addr end_ k c m ha hk he (inl (h, g, f)) = absurd (omega arith)
invalidate_lines-invalid zero addr end_ k c m ha hk he (inr old) = old
invalidate_lines-invalid (suc fuel) addr end_ k c m ha hk he h = elim (Bool-cases (ltb addr end_)) [
  | inr past ↦ rw past (stopped h (ground arith))
  | inl more ↦ rw more (
      invalidate_lines-invalid fuel ((addr + line_size) % 2 ^ 64) end_ k now.0 now.1
        (next (ground arith)) hk he (later h (ground arith)))
]
  where
    now : Controller × Memory
    now = invalidate_line addr c m (c.cache addr)

    Pending : ℕ → ℕ → Controller → Type 0
    Pending a n c' =
        ((a ≤ k) × (k < end_) × (end_ ≤ a + 64 * n)) ⊎ (state_of (c'.cache k) ≡ invalid)

    stopped : Pending addr (suc fuel) c → end_ ≤ addr → state_of (c.cache k) ≡ invalid
    stopped (inl (a, b, f)) q = absurd (omega arith)
    stopped (inr old) q = old

    next : addr < end_ → (addr + line_size) % 2 ^ 64 % 64 ≡ 0
    next q = omega arith

    later :
        Pending addr (suc fuel) c → addr < end_ → Pending ((addr + line_size) % 2 ^ 64) fuel now.0
    later (inr old) q = inr (invalidate_line-invalid addr k c m (c.cache addr) refl (inr old))
    later (inl (a, b, f)) q = elim (Bool-cases (k == addr)) [
      | inl same ↦ inr (invalidate_line-invalid addr k c m (c.cache addr) refl (inl (ground arith)))
      | inr other ↦ inl (beyond (ground arith))
    ]
      where
        beyond :
            k ≢ addr
            → ((addr + line_size) % 2 ^ 64 ≤ k)
              × (k < end_)
              × (end_ ≤ (addr + line_size) % 2 ^ 64 + 64 * fuel)
        beyond n = (omega arith, b, omega arith)

-- For a range that ends a line before the end of the address space: no address of the range is in a
-- valid line afterwards, so that its fuel is enough.
pub invalidate_range_lem :
    (base size p : ℕ) (c : Controller) (m : Memory)
    → base + size + 64 ≤ 2 ^ 64
    → base ≤ p
    → p < base + size
    → get_coherency_state p (invalidate_range base size c m).0 ≡ invalid
unfolding invalidate_range align_to_line get_coherency_state
invalidate_range_lem base size p c m h lo hi =
    invalidate_lines-invalid (suc ((end_ - start + line_size - 1) / line_size)) start end_
      (p - p % line_size) c m (omega arith) (omega arith) (omega arith)
      (inl (omega arith, omega arith, omega arith))
  where
    start : ℕ
    start = base - base % line_size

    end_ : ℕ
    end_ = (base + size) % 2 ^ 64
