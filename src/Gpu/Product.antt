-- ===== src/Gpu/Product.antt =====
-- runtime/src/Type2GpuDevice.cpp, `gemm_f32` beside the definition of a matrix product.
use cxlmem_uring.Base.{
  sym, ltb→lt, ltb, Bool-cases, ℕ, zero, suc, ◌+◌, ◌*◌, ◌%◌, ◌^◌, ◌≤◌, ◌<◌, ◌≡◌, ◌≢◌, refl, ap, ◌∙◌,
  true, ◌==◌, arith, ◌⊎◌, inl, inr,
}
use cxlmem_uring.Gpu.{GpuDevice}
use cxlmem_uring.Gpu.Gemm.{Float, index, dot, put, cell, row, rows, gemm_f32}

-- A place of a matrix whose places have indices of 32 bits.
index-eq : (r w c h : ℕ) → r < h → c < w → h * w ≤ 2 ^ 32 → index r w c ≡ r * w + c
index-eq r w c h a b fits = grind arith

index_below : (r w c h : ℕ) → r < h → c < w → r * w + c < h * w
index_below r w c h a b = grind arith

lt-cases : (a b : ℕ) → a ≢ b → (a < b) ⊎ (b < a)
lt-cases a b h = elim (Bool-cases (ltb a b)) [
  | inl e ↦ inl (ltb→lt a b e)
  | inr e ↦ inr (ground arith)
]

-- Different rows have different indices.
rows_apart : (r w c r' c' : ℕ) → c < w → c' < w → r ≢ r' → r * w + c ≢ r' * w + c'
rows_apart r w c r' c' a b d e = elim (lt-cases r r' d) [
  | inl l ↦ absurd (omega (arith, index_below r w c r' l a))
  | inr l ↦ absurd (omega (arith, index_below r' w c' r l b))
]

module _ {F : Type 0} (fl : Float F) (A B : ℕ → F) (n k : ℕ) (alpha beta : F) where
  -- The sum of the first `terms` products of row `i` of the one matrix and column `j` of the other.
  unfoldable pub product : ℕ → ℕ → ℕ → F
  product i j zero = fl.nought
  product i j (suc terms) =
      fl.add (product i j terms) (fl.mul (A (i * k + terms)) (B (terms * n + j)))

  -- An entry of the result, where `old` stood.
  abbrev pub entry : ℕ → ℕ → F → F
  entry i j old = fl.add (fl.mul alpha (product i j k)) (fl.mul beta old)

  dot-eq-product :
      (m i j rest q : ℕ)
      → i < m
      → j < n
      → m * k ≤ 2 ^ 32
      → k * n ≤ 2 ^ 32
      → q + rest ≡ k
      → dot fl A B n k i j rest q (product i j q) ≡ product i j k
  unfolding dot product
  dot-eq-product m i j zero q a b fits fits' e =
      let done : q ≡ k = omega arith in ap (product i j) done
  dot-eq-product m i j (suc rest) q a b fits fits' e =
      let at_a = index-eq i k q m a (omega arith) fits in
      let at_b = index-eq q n j k (omega arith) b fits' in
      let next : q + 1 ≡ suc q = omega arith in
      rw (at_a, at_b, next) (dot-eq-product m i j rest (suc q) a b fits fits' (omega arith))

  module _ (m : ℕ) (fits_c : m * n ≤ 2 ^ 32) (fits_a : m * k ≤ 2 ^ 32)
      (fits_b : k * n ≤ 2 ^ 32) where
    cell-eq-entry :
        (C : ℕ → F) (i j : ℕ)
        → i < m
        → j < n
        → cell fl A B C n k i j alpha beta ≡ entry i j (C (i * n + j))
    unfolding cell product
    cell-eq-entry C i j a b =
        ap (λ s. fl.add (fl.mul alpha s) (fl.mul beta (C (index i n j))))
          (dot-eq-product m i j k 0 a b fits_a fits_b (omega arith))
        ∙ ap (λ p. fl.add (fl.mul alpha (product i j k)) (fl.mul beta (C p)))
            (index-eq i n j m a b fits_c)

    put_other : (C : ℕ → F) (at_ p : ℕ) (v : F) → p ≢ at_ → put fl C at_ v p ≡ C p
    unfolding put
    put_other C at_ p v h = ground arith

    put_self : (C : ℕ → F) (at_ p : ℕ) (v : F) → p ≡ at_ → put fl C at_ v p ≡ v
    unfolding put
    put_self C at_ p v h = ground arith

    row_outside :
        (i rest j : ℕ) (C : ℕ → F) (p : ℕ)
        → i < m
        → j + rest ≡ n
        → ((c : ℕ) → j ≤ c → c < n → p ≢ i * n + c)
        → row fl A B n k i alpha beta rest j C p ≡ C p
    unfolding row
    row_outside i zero j C p a e h = refl
    row_outside i (suc rest) j C p a e h =
        row_outside i rest (j + 1) _ p a (omega arith) (λ c b d. h c (omega arith) d)
        ∙ put_other C (index i n j) p _
            (λ z. h j (omega arith) (omega arith) (z ∙ index-eq i n j m a (omega arith) fits_c))

    row-entry :
        (i rest j c : ℕ) (C : ℕ → F)
        → i < m
        → j + rest ≡ n
        → j ≤ c
        → c < n
        → row fl A B n k i alpha beta rest j C (i * n + c) ≡ entry i c (C (i * n + c))
    unfolding row
    row-entry i zero j c C a e l b = absurd (omega arith)
    row-entry i (suc rest) j c C a e l b = elim (Bool-cases (c == j)) [
      | inl q ↦
          let same : c ≡ j = ground arith in
          row_outside i rest (j + 1) _ (i * n + c) a (omega arith) (λ d x y. omega arith)
          ∙ put_self C (index i n j) (i * n + c) _
              (ap (λ t. i * n + t) same ∙ sym (index-eq i n j m a (omega arith) fits_c))
          ∙ cell-eq-entry C i j a (omega arith)
          ∙ ap (λ t. entry i t (C (i * n + t))) (sym same)
      | inr q ↦
          row-entry i rest (j + 1) c _ a (omega arith) (ground arith) b
          ∙ ap (entry i c) (
              put_other C (index i n j) (i * n + c) _
                (λ z. absurd (ground (arith, index-eq i n j m a (omega arith) fits_c))))
    ]

    rows_outside :
        (rest i : ℕ) (C : ℕ → F) (p : ℕ)
        → i + rest ≡ m
        → ((r c : ℕ) → i ≤ r → r < m → c < n → p ≢ r * n + c)
        → rows fl A B n k alpha beta rest i C p ≡ C p
    unfolding rows
    rows_outside zero i C p e h = refl
    rows_outside (suc rest) i C p e h =
        rows_outside rest (i + 1) _ p (omega arith) (λ r c a b. h r c (omega arith) b)
        ∙ row_outside i n 0 C p (omega arith) (omega arith)
            (λ c a b. h i c (omega arith) (omega arith) b)

    rows-entry :
        (rest i r c : ℕ) (C : ℕ → F)
        → i + rest ≡ m
        → i ≤ r
        → r < m
        → c < n
        → rows fl A B n k alpha beta rest i C (r * n + c) ≡ entry r c (C (r * n + c))
    unfolding rows
    rows-entry zero i r c C e l a b = absurd (omega arith)
    rows-entry (suc rest) i r c C e l a b = elim (Bool-cases (r == i)) [
      | inl q ↦
          let same : r ≡ i = ground arith in
          rows_outside rest (i + 1) _ (r * n + c) (omega arith)
            (λ r' c' x y z. rows_apart r n c r' c' b z (omega arith))
          ∙ rw same (row-entry i n 0 c C (omega arith) (omega arith) (omega arith) b)
      | inr q ↦
          let other : r ≢ i = ground arith in
          rows-entry rest (i + 1) r c _ (omega arith) (omega arith) a b
          ∙ ap (entry r c) (
              row_outside i n 0 C (r * n + c) (omega arith) (omega arith)
                (λ d x y. rows_apart r n c i d b y other))
    ]

    -- On arrays that do not overlap and are not null, for matrices whose places have indices of 32
    -- bits, with any `float` operations: the product succeeds, and the counter of instructions is
    -- the number of multiplications modulo 2 ^ 64; each entry is `alpha` times the sum of the
    -- products of its row and column, in order, plus `beta` times what stood there; and no other
    -- place has changed.
    pub gemm_f32_product :
        (gpu : GpuDevice) (C : ℕ → F)
        → let (done, gpu', C') = gemm_f32 fl gpu true C A B m n k alpha beta in
          (done ≡ true)
          × (gpu'.kernel_instructions ≡ m * n * k % 2 ^ 64)
          × ((i j : ℕ) → i < m → j < n → C' (i * n + j) ≡ entry i j (C (i * n + j)))
          × ((p : ℕ) → m * n ≤ p → C' p ≡ C p)
    unfolding gemm_f32
    gemm_f32_product gpu C = (
      refl,
      (let small : m * n % 2 ^ 64 ≡ m * n = omega arith in rw small refl),
      λ i j a b. rows-entry m 0 i j C (omega arith) (omega arith) a b,
      λ p h.
          rows_outside m 0 C p (omega arith)
            (λ r c x a b z. absurd (omega (arith, index_below r n c m a b))),
    )
