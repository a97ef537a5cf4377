-- ===== src/Firmware/Cachelines.antt =====
-- runtime/vortex_device.cpp: alignment, the copy of bytes, the installation of cache lines and the
-- walk of a pointer chain. Sums of a pointer and an offset are not wrapped: where they overflow, the
-- source's behaviour is undefined. Sums of integers are.
pub mod Install
pub mod Copies
pub mod Chain
use cxlmem_uring.Base.{
  ℕ, zero, suc, ◌+◌, ◌-◌, ◌*◌, ◌/◌, ◌%◌, ◌^◌, Bool, ◌||◌, List, [], ◌∷◌, ◌==◌, ltb, if◌then◌else◌,
}
use cxlmem_uring.Memory.{Memory, load, store}
use cxlmem_uring.Job.{cacheline_size}

-- `value & ~(align - 1)`, for a power of two.
unfoldable pub align_down : ℕ → ℕ → ℕ
align_down value align = value / align * align

-- `(value + align - 1) & ~(align - 1)` on `uintptr_t`.
unfoldable pub align_up : ℕ → ℕ → ℕ
unfolding align_down
align_up value align = align_down ((value + align - 1) % 2 ^ 64) align

-- The rounds by words: load 8 bytes of `src`, store them to `dst`.
unfoldable pub copy_words : ℕ → ℕ → ℕ → Memory → Memory
copy_words zero dst src m = m
copy_words (suc rounds) dst src m =
    copy_words rounds (dst + 8) (src + 8) (store 8 dst (load 8 src m) m)

-- The rounds by bytes.
unfoldable pub copy_singles : ℕ → ℕ → ℕ → Memory → Memory
copy_singles zero dst src m = m
copy_singles (suc rounds) dst src m =
    copy_singles rounds (dst + 1) (src + 1) (store 1 dst (load 1 src m) m)

unfoldable pub copy_bytes : ℕ → ℕ → ℕ → Memory → Memory
copy_bytes dst src size m =
    let words = size / 8 in
    copy_singles (size % 8) (dst + 8 * words) (src + 8 * words) (copy_words words dst src m)

unfoldable pub read_words : ℕ → ℕ → Memory → List ℕ
read_words zero a m = []
read_words (suc n) a m = load 8 a m ∷ read_words n (a + 8) m

unfoldable pub write_words : ℕ → List ℕ → Memory → Memory
write_words a [] m = m
write_words a (v ∷ vs) m = write_words (a + 8) vs (store 8 a v m)

-- The whole line is read, then stored back word by word.
unfoldable pub own_line : ℕ → Memory → Memory
unfolding read_words write_words
own_line line m = write_words line (read_words (cacheline_size / 8) line m) m

-- `for (line = begin; line < end; line += 64)`, on fuel.
unfoldable pub install_lines : ℕ → ℕ → ℕ → ℕ → Memory → ℕ × Memory
install_lines zero line end installed m = (installed, m)
install_lines (suc fuel) line end installed m =
    let rest =
      install_lines fuel ((line + cacheline_size) % 2 ^ 64) end (installed + 1) (own_line line m) in
    if ltb line end then rest else (installed, m)

unfoldable pub install_begin : ℕ → ℕ
unfolding align_down
install_begin addr = align_down addr cacheline_size

unfoldable pub install_end : ℕ → ℕ → ℕ
unfolding align_up
install_end addr size = align_up ((addr + size) % 2 ^ 64) cacheline_size

-- The number of lines installed, and the memory. The fuel is a bound on the rounds, since each one
-- moves the line up.
unfoldable pub install_range : ℕ → ℕ → Memory → ℕ × Memory
install_range addr size m =
    if addr == 0 || size == 0
    then (0, m)
    else install_lines (install_end addr size + 1) (install_begin addr) (install_end addr size) 0 m

-- `while (node && visited < depth)`: `rounds` is `depth - visited`.
unfoldable pub walk_chain : ℕ → ℕ → ℕ → ℕ → Memory → ℕ × Memory
walk_chain zero node next_ptr_offset visited m = (visited, m)
walk_chain (suc rounds) node next_ptr_offset visited m =
    let m' = (install_range node cacheline_size m).1 in
    let rest =
      walk_chain rounds (load 8 (node + next_ptr_offset) m') next_ptr_offset (visited + 1) m' in
    if node == 0 then (visited, m) else rest

unfoldable pub prefetch_chain_impl : ℕ → ℕ → ℕ → Memory → ℕ × Memory
prefetch_chain_impl start_node next_ptr_offset depth m =
    walk_chain depth start_node next_ptr_offset 0 m
