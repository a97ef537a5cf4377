-- ===== src/Firmware/Cachelines/Install.antt =====
-- `vortex_cxl_install_range`: which lines it takes, and that it changes no byte.
use cxlmem_uring.Base.{
  ℕ, zero, suc, ◌+◌, ◌-◌, ◌/◌, ◌%◌, ◌^◌, ◌≤◌, ◌<◌, ◌≡◌, ◌≢◌, refl, ap, ◌∙◌, inl, inr, true, false,
  ◌||◌, ◌==◌, ltb, arith, Bool-cases, ltb→lt,
}
use cxlmem_uring.Memory.{Memory, IsBytes}
use cxlmem_uring.Memory.Ranges.{store-load}
use cxlmem_uring.Job.{cacheline_size}
use cxlmem_uring.Firmware.Cachelines.{
  read_words, write_words, own_line, install_lines, install_begin, install_end, install_range,
}

write_words-read_words : (n a : ℕ) (m : Memory) → IsBytes m → write_words a (read_words n a m) m ≡ m
unfolding write_words read_words
write_words-read_words zero a m v = refl
write_words-read_words (suc n) a m v =
    ap (write_words (a + 8) (read_words n (a + 8) m)) (store-load 8 a m v)
    ∙ write_words-read_words n (a + 8) m v

own_line_lem : (line : ℕ) (m : Memory) → IsBytes m → own_line line m ≡ m
unfolding own_line
own_line_lem line m v = write_words-read_words 8 line m v

-- A run of the loop from a line boundary to a line boundary, with fuel above the distance.
install_lines_lem :
    (fuel line end installed : ℕ) (m : Memory)
    → IsBytes m
    → line % cacheline_size ≡ 0
    → end % cacheline_size ≡ 0
    → end < 2 ^ 64
    → end < line + fuel
    → install_lines fuel line end installed m ≡ (installed + (end - line) / cacheline_size, m)
unfolding install_lines
install_lines_lem zero line end installed m v hl he hb h =
    let e : installed ≡ installed + (end - line) / cacheline_size = omega arith in
    ap (λ n. (n, m)) e
install_lines_lem (suc fuel) line end installed m v hl he hb h = elim (Bool-cases (ltb line end)) [
  | inr done ↦ rw done (count done)
  | inl more ↦
      rw (more, step more, own_line_lem line m v)
        (install_lines_lem fuel (line + 64) end (installed + 1) m v (omega arith) he hb
            (omega arith)
          ∙ counted more)
]
  where
    step : ltb line end ≡ true → (line + cacheline_size) % 2 ^ 64 ≡ line + 64
    step more = omega (arith, ltb→lt line end more)

    count :
        ltb line end ≡ false
        → ◌≡◌ {A = ℕ × Memory} (installed, m) (installed + (end - line) / cacheline_size, m)
    count done =
        let e : installed ≡ installed + (end - line) / cacheline_size = ground arith in
        ap (λ n. (n, m)) e

    counted :
        ltb line end ≡ true
        → ◌≡◌ {A = ℕ × Memory}
            (installed + 1 + (end - (line + 64)) / cacheline_size, m)
            (installed + (end - line) / cacheline_size, m)
    counted more =
        let e : installed + 1 + (end - (line + 64)) / cacheline_size
            ≡ installed + (end - line) / cacheline_size =
          omega (arith, ltb→lt line end more) in
        ap (λ n. (n, m)) e

install_lines_keeps :
    (fuel line end installed : ℕ) (m : Memory)
    → IsBytes m
    → (install_lines fuel line end installed m).1 ≡ m
unfolding install_lines
install_lines_keeps zero line end installed m v = refl
install_lines_keeps (suc fuel) line end installed m v = elim (Bool-cases (ltb line end)) [
  | inr done ↦ rw done
  | inl more ↦
      rw (more, own_line_lem line m v)
        (install_lines_keeps fuel ((line + 64) % 2 ^ 64) end (installed + 1) m v)
]

-- For every address and size in a memory of bytes, with any overflow of the sums: installing the
-- range leaves every byte as it was.
pub install_range_keeps :
    (addr size : ℕ) (m : Memory) → IsBytes m → (install_range addr size m).1 ≡ m
unfolding install_range
install_range_keeps addr size m v = elim (Bool-cases (addr == 0 || size == 0)) [
  | inl empty ↦ rw empty
  | inr nonempty ↦ rw nonempty (
      install_lines_keeps (install_end addr size + 1) (install_begin addr) (install_end addr size) 0
        m v)
]

-- In a memory of bytes, for a range that is not empty, not at the null address and ends at least a
-- line below 2 ^ 64: the lines installed are exactly as many as from the line of the first byte to
-- the line of the last, and the memory is unchanged.
pub install_range_lem :
    (addr size : ℕ) (m : Memory)
    → IsBytes m
    → addr ≢ 0
    → size ≢ 0
    → addr + size + cacheline_size ≤ 2 ^ 64
    → install_range addr size m
      ≡ ((addr + size - 1) / cacheline_size - addr / cacheline_size + 1, m)
unfolding install_range install_begin install_end
install_range_lem addr size m v ha hs hb = rw (nonzero) (
    install_lines_lem (install_end addr size + 1) (install_begin addr) (install_end addr size) 0 m v
      (omega arith) (omega arith) (omega arith) (omega arith)
    ∙ counted)
  where
    nonzero : (addr == 0 || size == 0) ≡ false
    nonzero = ground arith

    counted :
        ◌≡◌ {A = ℕ × Memory}
          (0 + (install_end addr size - install_begin addr) / cacheline_size, m)
          ((addr + size - 1) / cacheline_size - addr / cacheline_size + 1, m)
    counted =
        let e : 0 + (install_end addr size - install_begin addr) / cacheline_size
            ≡ (addr + size - 1) / cacheline_size - addr / cacheline_size + 1 =
          omega arith in
        ap (λ n. (n, m)) e
