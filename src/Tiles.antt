-- ===== src/Tiles.antt =====
-- runtime/src/CiraRuntime.cpp: cache-line hints, the allocation of futures, and LLC tiles. The
-- allocator's answers are arguments, `none` for a failure, and its calls are recorded in order.
pub mod Installed
pub mod Freed
use cxlmem_uring.Base.{
  ℕ, zero, suc, ◌+◌, ◌-◌, ◌*◌, ◌/◌, ◌%◌, ◌^◌, min, Bool, true, false, not, ◌&&◌, ◌||◌, Option, none,
  some, List, [], ◌∷◌, ◌++◌, map, ◌==◌, ltb, if◌then◌else◌, find, erase, assign,
}
use cxlmem_uring.Memory.{Memory, read, write}
use cxlmem_uring.Job.{cacheline_size}
use cxlmem_uring.Mmio.Completion.{replicate, arm_completion, signal_completion}
use cxlmem_uring.Futures.{untrack_active_future}

-- The prefetch that a cache level asks for.
pub data Hint : Type 0 where
  into_l1 into_l2 into_llc demoted : (line : ℕ) → Hint

-- `for (cl = base; cl < end; cl += 64)`, on fuel.
unfoldable pub hinted_lines : ℕ → ℕ → ℕ → List ℕ
hinted_lines zero line end = []
hinted_lines (suc fuel) line end =
    let rest = hinted_lines fuel ((line + 64) % 2 ^ 64) end in
    if ltb line end then line ∷ rest else []

-- The lines from the one that holds `addr` up to the end of the range. The fuel is a bound on the
-- rounds, since each one moves the line up.
unfoldable pub range_lines : ℕ → ℕ → List ℕ
unfolding hinted_lines
range_lines addr size =
    let base = addr / 64 * 64 in
    let end = (addr + size + 63) % 2 ^ 64 / 64 * 64 in
    if addr == 0 || size == 0 then [] else hinted_lines (end + 1) base end

unfoldable pub hint_at : ℕ → ℕ → Hint
hint_at level line =
    if level == 1 then into_l1 line else if level == 2 then into_l2 line else into_llc line

unfoldable pub install_cacheline_x86 : ℕ → ℕ → ℕ → List Hint
unfolding range_lines hint_at
install_cacheline_x86 addr size level = map (hint_at level) (range_lines addr size)

unfoldable pub evict_hint_x86 : ℕ → ℕ → List Hint
unfolding range_lines
evict_hint_x86 addr size = map demoted (range_lines addr size)

-- `LlcTileMetadata`.
pub record Tile : Type 0 where
  pub allocation : ℕ
  pub requested_size : ℕ
  pub aligned_size : ℕ
  pub completion : ℕ

pub data HeapCall : Type 0 where
  aligned_block : (p size : ℕ) → HeapCall
  freed_block new_object deleted_object : (p : ℕ) → HeapCall

-- `g_llc_tiles`, the active futures, and memory.
pub record Llc : Type 0 where
  pub tiles : List (ℕ × Tile)
  pub active : List ℕ
  pub memory : Memory

-- 0 where the size cannot be rounded up.
unfoldable pub align_up_cacheline : ℕ → ℕ
align_up_cacheline size =
    let requested = if size == 0 then cacheline_size else size in
    if ltb (2 ^ 64 - 1 - (cacheline_size - 1)) requested
    then 0
    else (requested + cacheline_size - 1) / cacheline_size * cacheline_size

unfoldable pub zeroed_at : ℕ → ℕ → Memory → Memory
zeroed_at p size m = write p (replicate size 0) m

-- `cira_future_alloc`: a block of 64 bytes, cleared.
unfoldable pub future_alloc : Option ℕ → Llc → Option ℕ × Llc × List HeapCall
unfolding zeroed_at
future_alloc none s = (none, s, [])
future_alloc (some p) s =
    (some p, record s { memory = zeroed_at p 64 s.memory }, aligned_block p 64 ∷ [])

unfoldable pub future_free : ℕ → Llc → Llc × List HeapCall
future_free completion s = if completion == 0 then (s, []) else (
  record s { active = untrack_active_future completion s.active },
  freed_block completion ∷ [],
)

-- A tile whose block was given, after `cira_future_alloc`.
unfoldable pub register_tile :
    ℕ → ℕ → ℕ → Option ℕ × Llc × List HeapCall → Option ℕ × Llc × List HeapCall
register_tile tile size aligned (none, s, calls) = (none, s, calls ++ (freed_block tile ∷ []))
register_tile tile size aligned (some completion, s, calls) = (
  some tile,
  record s {
    tiles =
        assign tile
          (record {
            allocation = tile;
            requested_size = if size == 0 then cacheline_size else size;
            aligned_size = aligned;
            completion = completion;
          })
          s.tiles;
    memory = signal_completion completion 0 tile s.memory;
  },
  calls,
)

unfoldable pub allocated_tile : ℕ → ℕ → Option ℕ → Option ℕ → Llc → Option ℕ × Llc × List HeapCall
unfolding future_alloc register_tile
allocated_tile size aligned none future s = (none, s, [])
allocated_tile size aligned (some tile) future s =
    let (o, s', calls) =
      register_tile tile size aligned
        (future_alloc future (record s { memory = zeroed_at tile aligned s.memory })) in
    (o, s', aligned_block tile aligned ∷ calls)

-- `cira_llc_tile_alloc`, without the prefetch hints at the end.
unfoldable pub llc_tile_alloc : ℕ → Option ℕ → Option ℕ → Llc → Option ℕ × Llc × List HeapCall
unfolding align_up_cacheline allocated_tile
llc_tile_alloc size block future s =
    let aligned = align_up_cacheline size in
    if aligned == 0 then (none, s, []) else allocated_tile size aligned block future s

unfoldable pub lookup_llc_tile : ℕ → Llc → Option Tile
lookup_llc_tile tile s = if tile == 0 then none else find tile s.tiles

unfoldable pub free_found : ℕ → Option Tile → Llc → Llc × List HeapCall
unfolding future_free
free_found tile none s = (s, freed_block tile ∷ [])
free_found tile (some t) s =
    let (s', calls) = future_free t.completion (record s { tiles = erase tile s.tiles }) in
    (s', calls ++ (freed_block t.allocation ∷ []))

unfoldable pub llc_tile_free : ℕ → Llc → Llc × List HeapCall
unfolding free_found
llc_tile_free tile s = if tile == 0 then (s, []) else free_found tile (find tile s.tiles) s

unfoldable pub tile_completion : Option Tile → ℕ
tile_completion none = 0
tile_completion (some t) = t.completion

unfoldable pub llc_tile_future : ℕ → Llc → ℕ
unfolding lookup_llc_tile tile_completion
llc_tile_future tile s = tile_completion (lookup_llc_tile tile s)

unfoldable pub copy_size : ℕ → Option Tile → ℕ
copy_size size none = size
copy_size size (some t) = min size t.aligned_size

-- The copy into `dst`, which is the tile `found` if there is one, and its completion. The bytes are
-- read before they are written; the source calls `memcpy`, for which an overlap is not defined.
unfoldable pub install_found : Option Tile → ℕ → ℕ → ℕ → ℕ → Memory → Memory
unfolding tile_completion copy_size
install_found found dst cxl_addr size completion_ptr m =
    let n = copy_size size found in
    let completion = if completion_ptr == 0 then tile_completion found else completion_ptr in
    let armed = arm_completion completion m in
    signal_completion completion 0 dst (write dst (read n cxl_addr armed) armed)

unfoldable pub install_into : ℕ → ℕ → ℕ → ℕ → Llc → Llc
unfolding lookup_llc_tile install_found
install_into dst cxl_addr size completion_ptr s = record s {
  memory = install_found (lookup_llc_tile dst s) dst cxl_addr size completion_ptr s.memory;
}

unfoldable pub install_allocated :
    ℕ → ℕ → ℕ → Option ℕ × Llc × List HeapCall → Option ℕ × Llc × List HeapCall
unfolding install_into
install_allocated cxl_addr size completion_ptr (none, s, calls) = (none, s, calls)
install_allocated cxl_addr size completion_ptr (some dst, s, calls) =
    (some dst, install_into dst cxl_addr size completion_ptr s, calls)

-- `cira_llc_tile_install_from_cxl`, without the prefetch hints; a null tile is allocated first.
unfoldable pub llc_tile_install_from_cxl :
    ℕ → ℕ → ℕ → ℕ → Option ℕ → Option ℕ → Llc → Option ℕ × Llc × List HeapCall
unfolding install_allocated llc_tile_alloc
llc_tile_install_from_cxl tile cxl_addr size completion_ptr block future s =
    if cxl_addr == 0 || size == 0
    then (none, s, [])
    else install_allocated cxl_addr size completion_ptr
        (if tile == 0 then llc_tile_alloc size block future s else (some tile, s, []))

-- `cira_llc_tile_get_mwait`: the tile, the completion that is awaited, 0 for none, and the hints.
unfoldable pub llc_tile_get_mwait : ℕ → Llc → ℕ × ℕ × List Hint
unfolding lookup_llc_tile install_cacheline_x86
llc_tile_get_mwait tile s = elim (lookup_llc_tile tile s) [
  | none ↦ (tile, 0, [])
  | some t ↦
      if t.completion == 0
      then (tile, 0, [])
      else (tile, t.completion, install_cacheline_x86 tile t.aligned_size 3)
]
