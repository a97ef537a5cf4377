-- ===== src/Gpu/Gemm.antt =====
-- runtime/src/Type2GpuDevice.cpp,
-- `gemm_f32`: the three loops over the matrices. A `float` is a parameter, with its constant 0, its
-- addition and its multiplication; nothing is assumed of their rounding.
use cxlmem_uring.Base.{
  ℕ, zero, suc, ◌+◌, ◌*◌, ◌/◌, ◌%◌, ◌^◌, Bool, true, false, ◌==◌, if◌then◌else◌,
}
use cxlmem_uring.Gpu.{GpuDevice}

pub record Float (F : Type 0) : Type 0 where
  pub nought : F
  pub add : F → F → F
  pub mul : F → F → F

-- An index is computed on 32 bits.
abbrev pub index : ℕ → ℕ → ℕ → ℕ
index row width col = (row * width + col) % 2 ^ 32

module _ {F : Type 0} (fl : Float F) where
  -- The sum over `k`, with `rest` rounds left: `sum += A[i * K + k] * B[k * N + j]`.
  unfoldable pub dot : (A B : ℕ → F) → (n k_bound i j rest k : ℕ) → F → F
  dot A B n k_bound i j zero k sum = sum
  dot A B n k_bound i j (suc rest) k sum =
      dot A B n k_bound i j rest (k + 1)
        (fl.add sum (fl.mul (A (index i k_bound k)) (B (index k n j))))

  -- `C[i * N + j] = …`.
  unfoldable pub put : (ℕ → F) → ℕ → F → ℕ → F
  put C at_ value p = if p == at_ then value else C p

  unfoldable pub cell : (A B C : ℕ → F) → (n k_bound i j : ℕ) → (alpha beta : F) → F
  unfolding dot
  cell A B C n k_bound i j alpha beta =
      fl.add (fl.mul alpha (dot A B n k_bound i j k_bound 0 fl.nought))
        (fl.mul beta (C (index i n j)))

  -- The loop over `j`, with `rest` rounds left.
  unfoldable pub row :
      (A B : ℕ → F) → (n k_bound i : ℕ) → (alpha beta : F) → (rest j : ℕ) → (ℕ → F) → ℕ → F
  unfolding put cell
  row A B n k_bound i alpha beta zero j C = C
  row A B n k_bound i alpha beta (suc rest) j C =
      row A B n k_bound i alpha beta rest (j + 1)
        (put C (index i n j) (cell A B C n k_bound i j alpha beta))

  -- The loop over `i`.
  unfoldable pub rows :
      (A B : ℕ → F) → (n k_bound : ℕ) → (alpha beta : F) → (rest i : ℕ) → (ℕ → F) → ℕ → F
  unfolding row
  rows A B n k_bound alpha beta zero i C = C
  rows A B n k_bound alpha beta (suc rest) i C =
      rows A B n k_bound alpha beta rest (i + 1) (row A B n k_bound i alpha beta n 0 C)

  -- `gemm_f32`, on arrays that do not overlap; `given` is whether none of the three is null.
  unfoldable pub gemm_f32 :
      GpuDevice
      → Bool
      → (C A B : ℕ → F) → (m n k : ℕ) → (alpha beta : F) → Bool × GpuDevice × (ℕ → F)
  unfolding rows
  gemm_f32 gpu given C A B m n k alpha beta =
      if given
      then (
        true,
        record gpu {
          kernel_cycles = m * n % 2 ^ 64 * k % 2 ^ 64 / 8;
          kernel_instructions = m * n % 2 ^ 64 * k % 2 ^ 64;
        },
        rows A B n k alpha beta m 0 C,
      )
      else (false, gpu, C)
