-- ===== src/Device/Overrun.antt =====
-- runtime/vortex_device.cpp, `vortex_kernel_set_args`: arguments of two alignments.
use cxlmem_uring.Base.{
  ◌^◌, ◌%◌, ℕ, ◌+◌, ◌≤◌, ◌<◌, ◌≡◌, refl, ◌∷◌, [], All, length, length-take, arith,
}
use cxlmem_uring.Device.Kernels.{KernelArg, by_value, round_up, total_size, arg_bytes, pack_args}

round_up-four : (x : ℕ) → 0 < x → x ≤ 4 → round_up x 4 ≡ 4
unfolding round_up
round_up-four x l h = omega arith

round_up_zero : round_up 0 4 ≡ 0
unfolding round_up
round_up_zero = refl

round_up-eight : (x : ℕ) → 0 < x → x ≤ 8 → round_up x 8 ≡ 8
unfolding round_up
round_up-eight x l h = omega arith

-- For a first argument of 1 to 4 bytes aligned to 4, and a second of 5 to 8 bytes aligned to 8, by
-- value and with that many bytes at its address: some write of the second loop ends past the buffer
-- that the first loop sizes.
pub pack_args_overrun :
    (x y : KernelArg)
    → x.alignment ≡ 4
    → 0 < x.size
    → x.size ≤ 4
    → y.alignment ≡ 8
    → 4 < y.size
    → y.size ≤ 8
    → y.arg_type ≡ by_value
    → y.size ≤ length y.host_bytes
    → ¬ All (λ w. w.0 + length w.1 ≤ total_size (x ∷ y ∷ []) 0) (pack_args (x ∷ y ∷ []) 0)
unfolding pack_args total_size arg_bytes
pack_args_overrun x y ax lx hx ay ly hy value given within =
    omega (arith, within.1.0, long, first, second, size_x, size_y)
  where
    long : length (arg_bytes y) ≡ y.size
    long = rw value (length-take y.size y.host_bytes given)

    first : round_up 0 x.alignment ≡ 0
    first = rw ax round_up_zero

    second : round_up ((round_up 0 x.alignment + x.size) % 2 ^ 64) y.alignment ≡ 8
    second = rw (first, ay) (round_up-eight ((0 + x.size) % 2 ^ 64) (omega arith) (omega arith))

    size_x : round_up x.size x.alignment ≡ 4
    size_x = rw ax (round_up-four x.size lx hx)

    size_y : round_up y.size y.alignment ≡ 8
    size_y = rw ay (round_up-eight y.size (omega arith) hy)
