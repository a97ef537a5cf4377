-- ===== src/Cache/Coherent.antt =====
-- runtime/src/CiraRuntime.cpp, `Type2CacheControllerImpl`: what its lines hold, and the memory that
-- the device and the host see through them.
use mathlib.Core.Option.{some_inj}
use mathlib.Core.Path.{subst}
use cxlmem_uring.Base.{
  ℕ, ◌+◌, ◌-◌, ◌%◌, ◌≤◌, ◌<◌, ◌≡◌, ◌≢◌, inl, inr, refl, sym, ◌∙◌, true, false, Option, none, some,
  ◌==◌, if◌then◌else◌, arith, Bool-cases,
}
use cxlmem_uring.Memory.{Memory}
use cxlmem_uring.Memory.Ranges.{Apart}
use cxlmem_uring.Cache.{modified, is_invalid, CacheLine, align_to_line, copy_out, put_line}

-- A line at `a`: it is dirty only where it is MODIFIED, and clean only where it is as in memory.
pub record LineOk (a : ℕ) (m : Memory) (line : CacheLine) : Type 0 where
  pub dirty_only : line.dirty ≡ true → line.state ≡ modified
  pub clean :
      is_invalid line.state ≡ false
      → line.dirty ≡ false
      → (i : ℕ) → i < 64
      → line.data_ i ≡ m (a + i)

abbrev pub Coherent : (ℕ → Option CacheLine) → Memory → Type 0
Coherent cache m = (a : ℕ) → a % 64 ≡ 0 → (line : CacheLine) → cache a ≡ some line → LineOk a m line

-- What a reader of address `p` gets: the line's byte where the line is valid, else memory.
unfoldable pub seen : Option CacheLine → Memory → ℕ → ℕ
seen none m p = m p
seen (some line) m p = if is_invalid line.state then m p else line.data_ (p % 64)

unfoldable pub view : (ℕ → Option CacheLine) → Memory → ℕ → ℕ
view cache m p = seen (cache (align_to_line p)) m p

pub copy_out_inside :
    (a : ℕ) (data_ : ℕ → ℕ) (m : Memory) (p : ℕ)
    → a ≤ p
    → p < a + 64
    → copy_out a data_ m p ≡ data_ (p - a)
unfolding copy_out
copy_out_inside a data_ m p h g = ground arith

pub copy_out_outside :
    (a : ℕ) (data_ : ℕ → ℕ) (m : Memory) (p : ℕ) → Apart p 1 a 64 → copy_out a data_ m p ≡ m p
unfolding copy_out
copy_out_outside a data_ m p h = ground arith

pub align_near : (a p : ℕ) → align_to_line p ≡ a → (a ≤ p) × (p < a + 64)
unfolding align_to_line
align_near a p h = (omega arith, omega arith)

pub align_far : (a p : ℕ) → a % 64 ≡ 0 → align_to_line p ≢ a → Apart p 1 a 64
unfolding align_to_line
align_far a p on_line h = omega arith

pub align_self : (a : ℕ) → a % 64 ≡ 0 → align_to_line a ≡ a
unfolding align_to_line
align_self a on_line = omega arith

seen-same : (o : Option CacheLine) (m m' : Memory) (p : ℕ) → m' p ≡ m p → seen o m' p ≡ seen o m p
unfolding seen
seen-same none m m' p e = e
seen-same (some line) m m' p e = rw e refl

-- A change of one line and, at most, of its bytes in memory.
module _ (cache : ℕ → Option CacheLine) (m m' : Memory) (a : ℕ) (line : CacheLine)
    (on_line : a % 64 ≡ 0) (elsewhere : (p : ℕ) → Apart p 1 a 64 → m' p ≡ m p) where
  pub put_line-Coherent : LineOk a m' line → Coherent cache m → Coherent (put_line a line cache) m'
  unfolding put_line
  put_line-Coherent ok inv b hb l e = elim (Bool-cases (b == a)) [
    | inl same ↦ here (ground arith) (some_inj.0 (rw same at e))
    | inr other ↦ there (ground arith) (inv b hb l (rw other at e))
  ]
    where
      here : b ≡ a → line ≡ l → LineOk b m' l
      here eb el = subst (λ x. LineOk x m' l) (sym eb) (subst (LineOk a m') el ok)

      there : b ≢ a → LineOk b m l → LineOk b m' l
      there nb old = record {
        dirty_only = old.dirty_only;
        clean = λ v d i h. old.clean v d i h ∙ sym (elsewhere (b + i) (omega arith));
      }

  pub view-put_line :
      (target : ℕ → ℕ)
      → ((p : ℕ) → a ≤ p → p < a + 64 → seen (some line) m' p ≡ target p)
      → ((p : ℕ) → Apart p 1 a 64 → view cache m p ≡ target p)
      → (p : ℕ) → view (put_line a line cache) m' p ≡ target p
  unfolding view put_line
  view-put_line target inside outside p = elim (Bool-cases (align_to_line p == a)) [
    | inl same ↦
        rw same (inside p (align_near a p (ground arith)).0 (align_near a p (ground arith)).1)
    | inr other ↦ rw other (
        seen-same (cache (align_to_line p)) m m' p (elsewhere p (far (ground arith)))
        ∙ outside p (far (ground arith)))
  ]
    where
      far : align_to_line p ≢ a → Apart p 1 a 64
      far h = align_far a p on_line h
