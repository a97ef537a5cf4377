-- ===== src/Device/Packing.antt =====
-- runtime/vortex_device.cpp, `vortex_kernel_set_args`: the packed arguments against the size of
-- their buffer.
use native.Mathlib.Nat.{mul-add, mod-lt, div-add-mod, div-lt_iff_lt-mul}
use cxlmem_uring.Base.{
  ℕ, suc, ◌+◌, ◌-◌, ◌*◌, ◌/◌, ◌%◌, ◌^◌, ◌≤◌, ◌<◌, ◌≡◌, ap, ◌∙◌, List, [], ◌∷◌, All, length, arith,
}
use cxlmem_uring.Device.Kernels.{KernelArg, round_up, total_size, arg_bytes, pack_args}

-- The value of `round_up` where no bit is lost.
round_up_small : (x a : ℕ) → 0 < a → x + a ≤ 2 ^ 32 → round_up x a ≡ a * ((x + a - 1) / a)
unfolding round_up
round_up_small x a h s =
    let e : (x + a + 2 ^ 64 - 1) % 2 ^ 64 % 2 ^ 32 ≡ x + a - 1 = omega arith in
    rw e (omega (arith, div-add-mod (x + a - 1) a))

le-round_up : (x a : ℕ) → 0 < a → x + a ≤ 2 ^ 32 → x ≤ round_up x a
le-round_up x a h s =
    omega (arith, round_up_small x a h s, div-add-mod (x + a - 1) a, mod-lt (x + a - 1) h)

-- Rounding up does not pass a multiple.
round_up_le : (x a t : ℕ) → 0 < a → x + a ≤ 2 ^ 32 → x ≤ a * t → round_up x a ≤ a * t
round_up_le x a t h s g = rw (round_up_small x a h s) (grind (arith, few))
  where
    few : (x + a - 1) / a < suc t
    few = (div-lt_iff_lt-mul h).1 (grind arith)

round_up-lt : (x a : ℕ) → round_up x a < 2 ^ 32
unfolding round_up
round_up-lt x a = omega arith

-- An argument whose bytes fit its size, and whose size is far from the end of 32 bits.
abbrev pub Sized : ℕ → KernelArg → Type 0
Sized a arg = (arg.alignment ≡ a) × (arg.size + a ≤ 2 ^ 32) × (length (arg_bytes arg) ≤ arg.size)

module _ (a : ℕ) (some_bytes : 0 < a) where
  total_size-le :
      (args : List KernelArg) (total : ℕ)
      → total + 2 ^ 32 * length args ≤ 2 ^ 63
      → total ≤ total_size args total
  unfolding total_size
  total_size-le [] total h = omega arith
  total_size-le (arg ∷ args) total h =
      let small = round_up-lt arg.size arg.alignment in
      omega (
        arith,
        small,
        total_size-le args ((total + round_up arg.size arg.alignment) % 2 ^ 64) (omega arith),
      )

  pack_args-fits :
      (args : List KernelArg) (offset t n : ℕ)
      → All (Sized a) args
      → offset ≤ a * t
      → a * t + 2 ^ 32 * length args ≤ 2 ^ 63
      → total_size args (a * t) ≡ n
      → n + a ≤ 2 ^ 32
      → All (λ w. w.0 + length w.1 ≤ n) (pack_args args offset)
  unfolding pack_args total_size
  pack_args-fits [] offset t n s h g e b = tt
  pack_args-fits (arg ∷ args) offset t n ((ea, room, fit), s) h g e b = (
    omega (arith, grown, placed, fit, sum, size_le),
    pack_args-fits args _ next n s (omega (arith, placed, sum, size_le, grown))
        (omega (arith, g, sum, up, up_small)) total b,
  )
    where
      q : ℕ
      q = (arg.size + a - 1) / a

      next : ℕ
      next = t + q

      up : round_up arg.size arg.alignment ≡ a * q
      up = ap (round_up arg.size) ea ∙ round_up_small arg.size a some_bytes room

      up_small : round_up arg.size arg.alignment < 2 ^ 32
      up_small = round_up-lt arg.size arg.alignment

      sum : a * next ≡ a * t + a * q
      sum = mul-add a t q

      size_le : arg.size ≤ a * q
      size_le =
          omega (
            arith,
            round_up_small arg.size a some_bytes room,
            le-round_up arg.size a some_bytes room,
          )

      total : total_size args (a * next) ≡ n
      total =
          let w : a * next ≡ (a * t + round_up arg.size arg.alignment) % 2 ^ 64 =
            omega (arith, g, up, up_small, sum) in
          ap (total_size args) w ∙ e

      grown : a * next ≤ n
      grown =
          omega (arith, total, total_size-le args (a * next) (omega (arith, g, sum, up, up_small)))

      placed : round_up offset arg.alignment ≤ a * t
      placed =
          let r : round_up offset arg.alignment ≡ round_up offset a = ap (round_up offset) ea in
          omega (arith, r, round_up_le offset a t some_bytes (omega (arith, b, grown, sum, h)) h)

-- For arguments of one alignment `a`, a power of two, whose bytes fit their sizes, whose sizes are
-- at most `2 ^ 32 - a` and so is the size that the first loop of `vortex_kernel_set_args` finds for
-- their buffer, and of which there are fewer than 2 ^ 31: every write of the second loop ends inside
-- that buffer.
pub pack_args_within :
    (args : List KernelArg) (k a : ℕ)
    → a ≡ 2 ^ k
    → 0 < a
    → All (Sized a) args
    → length args < 2 ^ 31
    → total_size args 0 + a ≤ 2 ^ 32
    → All (λ w. w.0 + length w.1 ≤ total_size args 0) (pack_args args 0)
pack_args_within args k a power h s few b =
    pack_args-fits a h args 0 0 (total_size args 0) s (omega arith) (omega (arith, start))
      (ap (total_size args) start) b
  where
    start : a * 0 ≡ 0
    start = omega arith
