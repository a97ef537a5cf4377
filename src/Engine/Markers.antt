-- ===== src/Engine/Markers.antt =====
-- runtime/src/CiraRuntime.cpp: the marker that the gem5 simulator gets for a GAPBS graph.
use cxlmem_uring.Base.{
  ℕ, ◌+◌, ◌-◌, ◌*◌, ◌%◌, ◌^◌, Bool, not, ◌&&◌, ◌||◌, Option, none, some, ◌==◌, ltb, leb,
  if◌then◌else◌,
}
use cxlmem_uring.Memory.{Memory, load}
use cxlmem_uring.Job.{cacheline_size}

-- The simulator's two instructions, with their operands.
pub data Marker : Type 0 where
  no_marker : Marker
  prefetch_block : (addr size : ℕ) → Marker
  prefetch_csr : (records_begin records_end row_start row_count packed : ℕ) → Marker

-- The variables CIRA_GAPBS_*, `none` for what is not set to a number.
pub record GapbsEnv : Type 0 where
  pub record_stride : Option ℕ
  pub csr_row_start : Option ℕ
  pub csr_row_limit : Option ℕ

unfoldable pub gapbs_record_stride : GapbsEnv → ℕ → ℕ
gapbs_record_stride env benchmark_id = elim env.record_stride [
  | some stride ↦ stride
  | none ↦ if benchmark_id == 1 then 8 else 4
]

-- The two fields of the graph's header that are read: a signed 64-bit count, and the address of the
-- offsets of the rows.
unfoldable pub num_nodes : ℕ → Memory → ℕ
num_nodes graph m = load 8 (graph + 8) m

unfoldable pub out_index : ℕ → Memory → ℕ
out_index graph m = load 8 (graph + 24) m

unfoldable pub row_offset : ℕ → ℕ → Memory → ℕ
unfolding out_index
row_offset graph row m = load 8 (out_index graph m + row * 8) m

unfoldable pub is_positive : ℕ → Bool
is_positive n = not (n == 0) && ltb n (2 ^ 63)

unfoldable pub first_row : Option ℕ → ℕ → ℕ
first_row none nodes = 0
first_row (some row) nodes = if ltb nodes row then nodes else row

unfoldable pub limited_rows : Option ℕ → ℕ → ℕ
limited_rows none rows = rows
limited_rows (some limit) rows = if ltb limit rows then limit else rows

unfoldable pub fallback_marker : ℕ → ℕ → Marker
fallback_marker addr size = prefetch_block addr (if size == 0 then cacheline_size else size)

-- Bit 0 asks for the records, bit 3 for their span.
unfoldable pub packed_fields : ℕ → ℕ
packed_fields stride = stride % 2 ^ 16 * 2 ^ 8 + 9 * 2 ^ 56

unfoldable pub marker_for_rows : ℕ → ℕ → ℕ → ℕ → ℕ → Memory → Marker
unfolding row_offset fallback_marker packed_fields
marker_for_rows addr size stride start count m =
    let first = row_offset addr start m in
    let last = row_offset addr (start + count) m in
    if count == 0
    then no_marker
    else if first == 0 || leb last first
    then fallback_marker addr size
    else prefetch_csr first last start count (packed_fields stride)

-- `emit_gapbs_gem5_cira_marker`, up to the answer of the simulator.
unfoldable pub gapbs_marker : GapbsEnv → ℕ → ℕ → ℕ → Memory → Marker
unfolding gapbs_record_stride num_nodes out_index is_positive first_row limited_rows marker_for_rows
gapbs_marker env benchmark_id addr size m =
    let stride = gapbs_record_stride env benchmark_id in
    let nodes = num_nodes addr m in
    let start = first_row env.csr_row_start nodes in
    let count = limited_rows env.csr_row_limit (nodes - start) in
    if addr == 0
    then no_marker
    else if stride == 0 || (ltb 65535 stride || (not (is_positive nodes) || out_index addr m == 0))
    then fallback_marker addr size
    else marker_for_rows addr size stride start count m
