-- ===== src/Engine/Rows.antt =====
-- `emit_gapbs_gem5_cira_marker`: the rows that it names.
use cxlmem_uring.Base.{
  ℕ, ◌+◌, ◌-◌, ◌/◌, ◌%◌, ◌^◌, ◌≤◌, ◌<◌, ◌≡◌, refl, Option, none, some, not, ◌||◌, ◌==◌, ltb, leb,
  if-cases, arith,
}
use cxlmem_uring.Memory.{Memory}
use cxlmem_uring.Engine.Markers.{
  Marker, no_marker, prefetch_block, prefetch_csr, GapbsEnv, gapbs_record_stride, num_nodes,
  out_index, row_offset, is_positive, first_row, limited_rows, fallback_marker, packed_fields,
  marker_for_rows, gapbs_marker,
}

-- A marker for rows is one for rows of the graph, with their offsets in order and its two fields.
abbrev pub Within : ℕ → ℕ → Memory → Marker → Type 0
Within addr stride m no_marker = Unit
Within addr stride m (prefetch_block a size) = a ≡ addr
Within addr stride m (prefetch_csr first last start count packed) =
    (0 < count)
    × (start + count ≤ num_nodes addr m)
    × (first ≡ row_offset addr start m)
    × (last ≡ row_offset addr (start + count) m)
    × (first < last)
    × (packed / 2 ^ 8 % 2 ^ 16 ≡ stride)
    × (packed / 2 ^ 56 ≡ 9)

fallback_marker-Within :
    (addr stride size : ℕ) (m : Memory) → Within addr stride m (fallback_marker addr size)
unfolding fallback_marker
fallback_marker-Within addr stride size m = refl

rows_within :
    (start limit : Option ℕ) (nodes : ℕ)
    → first_row start nodes + limited_rows limit (nodes - first_row start nodes) ≤ nodes
unfolding first_row limited_rows
rows_within none none nodes = omega arith
rows_within none (some l) nodes = ground arith
rows_within (some s) none nodes = ground arith
rows_within (some s) (some l) nodes = ground arith

marker_for_rows-Within :
    (addr size stride start count : ℕ) (m : Memory)
    → stride ≤ 65535
    → start + count ≤ num_nodes addr m
    → Within addr stride m (marker_for_rows addr size stride start count m)
unfolding marker_for_rows packed_fields
marker_for_rows-Within addr size stride start count m h g =
    if-cases (Within addr stride m) (count == 0) _ _ (λ e. tt)
      (λ e.
        if-cases (Within addr stride m) (first == 0 || leb last first) _ _
          (λ f. fallback_marker-Within addr stride size m)
          (λ f. (ground arith, g, refl, refl, ground arith, omega arith, omega arith)))
  where
    first : ℕ
    first = row_offset addr start m

    last : ℕ
    last = row_offset addr (start + count) m

-- For a graph at any address, any benchmark, size, environment and memory, with a stride that the
-- environment or the benchmark gives: where the marker is one for rows, it names a positive number
-- of rows that ends within the graph's nodes, with the offsets of its first row and of the row after
-- its last, in this order, and its packed operand holds the stride and the two flags; where it is
-- one for a block, the block is at the graph.
pub gapbs_marker-Within :
    (env : GapbsEnv) (benchmark_id addr size : ℕ) (m : Memory)
    → let stride = gapbs_record_stride env benchmark_id in
      Within addr stride m (gapbs_marker env benchmark_id addr size m)
unfolding gapbs_marker
gapbs_marker-Within env benchmark_id addr size m =
    if-cases (Within addr stride m) (addr == 0) _ _ (λ e. tt)
      (λ e.
        if-cases (Within addr stride m)
          (stride == 0 || (ltb 65535 stride || (not (is_positive nodes) || out_index addr m == 0)))
          _ _ (λ f. fallback_marker-Within addr stride size m)
          (λ f.
            marker_for_rows-Within addr size stride _ _ m (ground arith)
              (rows_within env.csr_row_start env.csr_row_limit nodes)))
  where
    stride : ℕ
    stride = gapbs_record_stride env benchmark_id

    nodes : ℕ
    nodes = num_nodes addr m
