-- ===== src/Tiles/Freed.antt =====
-- LLC tiles: the size of their blocks, and the release of what a tile took.
use cxlmem_uring.Base.{
  false, ◌-◌, subst, ℕ, ◌+◌, ◌%◌, ◌^◌, ◌≤◌, ◌<◌, ◌≡◌, ◌≢◌, ◌⊎◌, refl, sym, ap, ◌∙◌, Option, none,
  some, List, [], ◌∷◌, ◌==◌, if◌then◌else◌, arith, find, erase, find-assign, erase-assign,
}
use cxlmem_uring.Futures.{untrack_active_future}
use cxlmem_uring.Tiles.{
  Tile, HeapCall, aligned_block, freed_block, Llc, align_up_cacheline, future_alloc, future_free,
  register_tile, allocated_tile, llc_tile_alloc, free_found, llc_tile_free,
}

-- For a 64-bit size: the rounded size is 0 exactly if the size is above 2 ^ 64 - 64; else it is a
-- positive multiple of 64, at least the size, and by less than 64 more than it, or 64 for size 0.
pub align_up_cacheline_lem :
    (size : ℕ)
    → size < 2 ^ 64
    → let aligned = align_up_cacheline size in
      ((aligned ≡ 0) × (2 ^ 64 - 64 < size))
      ⊎ ((size ≤ 2 ^ 64 - 64)
          × (0 < aligned)
          × (aligned % 64 ≡ 0)
          × (size ≤ aligned)
          × (aligned < 2 ^ 64)
          × ((size ≡ 0) × (aligned ≡ 64) ⊎ (0 < size) × (aligned < size + 64)))
unfolding align_up_cacheline
align_up_cacheline_lem size h = ground arith

llc_tile_alloc_known :
    (size tile future : ℕ) (s : Llc)
    → align_up_cacheline size ≢ 0
    → llc_tile_alloc size (some tile) (some future) s
      ≡ allocated_tile size (align_up_cacheline size) (some tile) (some future) s
unfolding llc_tile_alloc
llc_tile_alloc_known size tile future s h =
    let e : (align_up_cacheline size == 0) ≡ false = ground arith in rw e refl

-- The state without a tile, and the blocks given back.
abbrev without_tile : ℕ → Tile → Llc → Llc × List HeapCall
without_tile tile t s = (
  record s { tiles = erase tile s.tiles; active = untrack_active_future t.completion s.active },
  freed_block t.completion ∷ freed_block t.allocation ∷ [],
)

llc_tile_free_known :
    (tile : ℕ) (s : Llc) (t : Tile)
    → tile ≢ 0
    → find tile s.tiles ≡ some t
    → t.completion ≢ 0
    → llc_tile_free tile s ≡ without_tile tile t s
unfolding llc_tile_free free_found future_free
llc_tile_free_known tile s t h e c =
    let a : (tile == 0) ≡ false = ground arith in
    let b : (t.completion == 0) ≡ false = ground arith in
    rw a (ap (λ o. free_found tile o s) e ∙ rw b refl)

-- The tile is answered, its two blocks are taken, and its release undoes that.
Released : ℕ → ℕ → ℕ → Llc → Option ℕ × Llc × List HeapCall → Type 0
Released size tile future s (answer, s', taken) =
    let (s'', given) = llc_tile_free tile s' in
    (answer ≡ some tile)
    × (taken ≡ aligned_block tile (align_up_cacheline size) ∷ aligned_block future 64 ∷ [])
    × (given ≡ freed_block future ∷ freed_block tile ∷ [])
    × (s''.tiles ≡ s.tiles)
    × (s''.active ≡ untrack_active_future future s.active)

allocated_tile-Released :
    (size tile future : ℕ) (s : Llc)
    → tile ≢ 0
    → future ≢ 0
    → find tile s.tiles ≡ none
    → Released size tile future s
        (allocated_tile size (align_up_cacheline size) (some tile) (some future) s)
unfolding Released allocated_tile future_alloc register_tile
allocated_tile-Released size tile future s ht hf e = (
  refl,
  refl,
  ap (λ r. r.1) freed,
  ap (λ r. r.0.tiles) freed ∙ erase-assign tile t s.tiles e,
  ap (λ r. r.0.active) freed,
)
  where
    aligned : ℕ
    aligned = align_up_cacheline size

    t : Tile
    t = record {
      allocation = tile;
      requested_size = if size == 0 then 64 else size;
      aligned_size = aligned;
      completion = future;
    }

    held : Llc
    held = (allocated_tile size aligned (some tile) (some future) s).1

    freed : llc_tile_free tile held ≡ without_tile tile t held
    freed = llc_tile_free_known tile held t ht (find-assign tile t s.tiles) hf

-- For a size that can be rounded up, and blocks that the allocator gives for the tile and for its
-- completion, not null and the tile's not in the table: the allocation answers the tile and takes
-- these two blocks; freeing the tile gives the two back and nothing else, restores the table, and
-- leaves the completion untracked.
pub llc_tile_released :
    (size tile future : ℕ) (s : Llc)
    → align_up_cacheline size ≢ 0
    → tile ≢ 0
    → future ≢ 0
    → find tile s.tiles ≡ none
    → let (answer, s', taken) = llc_tile_alloc size (some tile) (some future) s in
      let (s'', given) = llc_tile_free tile s' in
      (answer ≡ some tile)
      × (taken ≡ aligned_block tile (align_up_cacheline size) ∷ aligned_block future 64 ∷ [])
      × (given ≡ freed_block future ∷ freed_block tile ∷ [])
      × (s''.tiles ≡ s.tiles)
      × (s''.active ≡ untrack_active_future future s.active)
unfolding Released
llc_tile_released size tile future s ha ht hf e =
    subst (Released size tile future s) (sym (llc_tile_alloc_known size tile future s ha))
      (allocated_tile-Released size tile future s ht hf e)
