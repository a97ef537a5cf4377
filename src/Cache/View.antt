-- ===== src/Cache/View.antt =====
-- runtime/src/CiraRuntime.cpp, `Type2CacheControllerImpl`: each operation on whole lines against
-- the memory that is seen through the cache.
use mathlib.Core.Path.{subst}
use cxlmem_uring.Base.{
  ℕ, ◌+◌, ◌-◌, ◌%◌, ◌≤◌, ◌<◌, ◌≡◌, inl, inr, refl, sym, ap, ◌∙◌, true, false, Option, some,
  if◌then◌else◌, arith, Bool-cases,
}
use cxlmem_uring.Memory.{Memory}
use cxlmem_uring.Memory.Ranges.{Apart}
use cxlmem_uring.Cache.{
  CoherencyState, is_invalid, CacheLine, Controller, align_to_line, copy_out, put_line,
}
use cxlmem_uring.Cache.Coherent.{
  LineOk, Coherent, seen, view, copy_out_inside, copy_out_outside, put_line-Coherent, view-put_line,
}

-- The state after an operation is coherent and shows `target`.
abbrev pub Shows : Controller × Memory → (ℕ → ℕ) → Type 0
Shows (c, m) target = Coherent c.cache m × ((p : ℕ) → view c.cache m p ≡ target p)

-- The view inside the line at `a`.
pub view_line :
    (cache : ℕ → Option CacheLine) (m : Memory) (a p : ℕ)
    → a % 64 ≡ 0
    → a ≤ p
    → p < a + 64
    → view cache m p ≡ seen (cache a) m p
unfolding view align_to_line
view_line cache m a p ha h g = ap (λ b. seen (cache b) m p) (omega arith)

-- A line that becomes invalid, with its dirty bytes in memory.
module _ (cache : ℕ → Option CacheLine) (m : Memory) (a : ℕ) (line : CacheLine)
    (on_line : a % 64 ≡ 0) (found : cache a ≡ some line) (inv : Coherent cache m) where
  -- Memory with the line's bytes, where the line is dirty.
  abbrev pub flushed : Memory
  flushed = if line.dirty then copy_out a line.data_ m else m

  flushed_outside : (p : ℕ) → Apart p 1 a 64 → flushed p ≡ m p
  flushed_outside p h = elim (Bool-cases line.dirty) [
    | inl d ↦ rw d (copy_out_outside a line.data_ m p h)
    | inr d ↦ rw d refl
  ]

  shown : (p : ℕ) → a ≤ p → p < a + 64 → view cache m p ≡ seen (some line) m p
  shown p h g = view_line cache m a p on_line h g ∙ ap (λ o. seen o m p) found

  ok : LineOk a m line
  ok = inv a on_line line found

  -- The dirty or valid bytes of the line are what is seen.
  live_byte :
      (p : ℕ)
      → a ≤ p
      → p < a + 64
      → is_invalid line.state ≡ false
      → line.data_ (p - a) ≡ view cache m p
  unfolding seen
  live_byte p h g v =
      let e : p - a ≡ p % 64 = omega arith in rw (shown p h g) (rw v (ap line.data_ e))

  dirty_live : line.dirty ≡ true → is_invalid line.state ≡ false
  unfolding is_invalid
  dirty_live d = rw (ok.dirty_only d) refl

  flushed_inside : (p : ℕ) → a ≤ p → p < a + 64 → flushed p ≡ view cache m p
  unfolding seen
  flushed_inside p h g = elim (Bool-cases line.dirty) [
    | inl d ↦ rw d (copy_out_inside a line.data_ m p h g ∙ live_byte p h g (dirty_live d))
    | inr d ↦ elim (Bool-cases (is_invalid line.state)) [
      | inl v ↦ rw d (sym (shown p h g ∙ rw v refl))
      | inr v ↦ rw d (sym (clean_byte d v) ∙ live_byte p h g v)
    ]
  ]
    where
      clean_byte : line.dirty ≡ false → is_invalid line.state ≡ false → line.data_ (p - a) ≡ m p
      clean_byte d v =
          let e : a + (p - a) ≡ p = omega arith in ok.clean v d (p - a) (omega arith) ∙ ap m e

  -- The line in any state that does not bring stale bytes back, clean, over the flushed memory.
  pub flush-Shows :
      (state : CoherencyState) (changed : CacheLine)
      → (is_invalid line.state ≡ true → is_invalid state ≡ true)
      → changed ≡ record line { state = state; dirty = false }
      → (c : Controller) → (m' : Memory) → m' ≡ flushed
      → c.cache ≡ put_line a changed cache
      → Shows (c, m') (view cache m)
  unfolding seen
  flush-Shows state changed live ec c m' em ek =
      subst (λ n. Coherent c.cache n × ((p : ℕ) → view c.cache n p ≡ view cache m p)) (sym em)
        (subst (λ k. Coherent k flushed × ((p : ℕ) → view k flushed p ≡ view cache m p))
          (sym (ek ∙ ap (λ l. put_line a l cache) ec))
          (
            put_line-Coherent cache m flushed a cleaned on_line flushed_outside new_ok inv,
            view-put_line cache m flushed a cleaned on_line flushed_outside (view cache m)
                (λ p h g. inside p h g) (λ p h. refl),
          ))
    where
      cleaned : CacheLine
      cleaned = record line { state = state; dirty = false }

      was_live : is_invalid state ≡ false → is_invalid line.state ≡ false
      was_live v = elim (Bool-cases (is_invalid line.state)) [
        | inl stale ↦ cc (live stale, v)
        | inr e ↦ e
      ]

      inside : (p : ℕ) → a ≤ p → p < a + 64 → seen (some cleaned) flushed p ≡ view cache m p
      inside p h g = elim (Bool-cases (is_invalid state)) [
        | inl v ↦ rw v (flushed_inside p h g)
        | inr v ↦
            let e : p % 64 ≡ p - a = omega arith in
            rw v (ap line.data_ e ∙ live_byte p h g (was_live v))
      ]

      new_ok : LineOk a flushed cleaned
      new_ok = record {
        dirty_only = λ d. cc;
        clean = λ v d i h.
            let e : i ≡ (a + i) - a = omega arith in
            ap line.data_ e
            ∙ live_byte (a + i) (omega arith) (omega arith) (was_live v)
            ∙ sym (flushed_inside (a + i) (omega arith) (omega arith));
      }
