-- ===== src/Cache/Range.antt =====
-- runtime/src/CiraRuntime.cpp, `Type2CacheControllerImpl::invalidateRange`.
use cxlmem_uring.Base.{
  ℕ, zero, suc, ◌+◌, ◌-◌, ◌/◌, ◌%◌, ◌^◌, false, ◌&&◌, Option, none, some, ltb, if◌then◌else◌,
}
use cxlmem_uring.Memory.{Memory}
use cxlmem_uring.Cache.{
  invalid, is_modified, line_size, CacheLine, Controller, align_to_line, copy_out, put_line,
}

unfoldable pub invalidate_line : ℕ → Controller → Memory → Option CacheLine → Controller × Memory
invalidate_line addr c m none = (c, m)
invalidate_line addr c m (some line) = (
  record c { cache = put_line addr (record line { state = invalid; dirty = false }) c.cache },
  if line.dirty && is_modified line.state then copy_out addr line.data_ m else m,
)

-- The loop over the lines before `end_`, on fuel.
unfoldable pub invalidate_lines : ℕ → ℕ → ℕ → Controller × Memory → Controller × Memory
unfolding invalidate_line
invalidate_lines zero addr end_ (c, m) = (c, m)
invalidate_lines (suc fuel) addr end_ (c, m) =
    let rest =
      invalidate_lines fuel ((addr + line_size) % 2 ^ 64) end_
        (invalidate_line addr c m (c.cache addr)) in
    if ltb addr end_ then rest else (c, m)

-- The fuel is a round for each line and one more.
unfoldable pub invalidate_range : ℕ → ℕ → Controller → Memory → Controller × Memory
unfolding invalidate_lines
invalidate_range base size c m =
    let start = align_to_line base in
    let end_ = (base + size) % 2 ^ 64 in
    invalidate_lines (suc ((end_ - start + line_size - 1) / line_size)) start end_ (c, m)
