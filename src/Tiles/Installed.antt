-- ===== src/Tiles/Installed.antt =====
-- `cira_llc_tile_install_from_cxl` on a tile of the table.
use mathlib.Core.Path.{ap₂}
use cxlmem_uring.Memory.Traces.{perform_outside}
use cxlmem_uring.Base.{
  if_false, ◌||◌, zero, suc, ◌∷◌, if-case, ℕ, ◌+◌, ◌^◌, ◌≤◌, ◌<◌, ◌≡◌, ◌≢◌, refl, sym, ap, ◌∙◌, min,
  Option, some, List, [], arith, find, length, subst, ◌==◌, false,
}
use cxlmem_uring.Memory.{Memory, read, write}
use cxlmem_uring.Memory.Ranges.{Apart, write_outside, read-write_self}
use cxlmem_uring.Mmio.Completion.{
  signal_trace, replicate, arm_completion, signal_completion, at_completion, signalled,
  signal_trace_whole,
}
use cxlmem_uring.Tiles.{
  llc_tile_alloc, tile_completion, install_allocated, install_found, Tile, Llc, install_into,
  llc_tile_install_from_cxl, HeapCall, lookup_llc_tile, copy_size,
}

read_pointwise :
    (n a : ℕ) (m m' : Memory)
    → ((p : ℕ) → a ≤ p → p < a + n → m p ≡ m' p)
    → read n a m ≡ read n a m'
unfolding read
read_pointwise zero a m m' h = refl
read_pointwise (suc n) a m m' h =
    ap₂ ◌∷◌ (h a (omega arith) (omega arith))
      (read_pointwise n (a + 1) m m' (λ p l g. h p (omega arith) (omega arith)))

arm_completion_outside : (c : ℕ) (m : Memory) (p : ℕ) → Apart p 1 c 64 → arm_completion c m p ≡ m p
unfolding arm_completion
arm_completion_outside c m p h =
    if-case (λ (k : Memory). k p ≡ m p) (c == 0) m _ refl (write_outside c (replicate 64 0) m p h)

signal_completion_outside :
    (c status result : ℕ) (m : Memory) (p : ℕ)
    → Apart p 1 c 64
    → signal_completion c status result m p ≡ m p
unfolding signal_completion signal_trace
signal_completion_outside c status result m p h =
    if-case (λ (k : Memory). k p ≡ m p) (c == 0) m _ refl
      (perform_outside p (signal_trace c status result) m (omega arith))

signal_completion_whole :
    (c result : ℕ) (m : Memory)
    → c ≢ 0
    → result < 2 ^ 64
    → at_completion c (signal_completion c 0 result m) ≡ signalled 0 result
unfolding signal_completion
signal_completion_whole c result m h g =
    let e : (c == 0) ≡ false = ground arith in
    rw e (signal_trace_whole c 0 result m (omega arith) g)

length-read : (n a : ℕ) (m : Memory) → length (read n a m) ≡ n
unfolding read
length-read zero a m = refl
length-read (suc n) a m = ap suc (length-read n (a + 1) m)

-- The bytes of `size` go to the tile up to the end of its block, and nothing else changes but the
-- completion line.
Installs : ℕ → ℕ → ℕ → Tile → Memory → Memory → Type 0
Installs tile cxl_addr size t m m' =
    let n = min size t.aligned_size in
    (read n tile m' ≡ read n cxl_addr m)
    × (at_completion t.completion m' ≡ signalled 0 tile)
    × ((p : ℕ) → Apart p 1 tile t.aligned_size → Apart p 1 t.completion 64 → m' p ≡ m p)

install_found-Installs :
    (tile cxl_addr size : ℕ) (t : Tile) (m : Memory)
    → tile < 2 ^ 64
    → t.completion ≢ 0
    → Apart tile t.aligned_size t.completion 64
    → Apart cxl_addr (min size t.aligned_size) t.completion 64
    → Installs tile cxl_addr size t m (install_found (some t) tile cxl_addr size 0 m)
unfolding Installs install_found tile_completion copy_size
install_found-Installs tile cxl_addr size t m hw hc apart away = (
  read_pointwise n tile _ copied
        (λ p l g. signal_completion_outside c 0 tile copied p (omega (arith, fits)))
      ∙ ap (λ k. read k tile copied) (sym (length-read n cxl_addr armed))
      ∙ read-write_self tile (read n cxl_addr armed) armed
      ∙ read_pointwise n cxl_addr armed m (λ p l g. arm_completion_outside c m p (omega arith)),
  signal_completion_whole c tile copied hc hw,
  λ p out line.
      signal_completion_outside c 0 tile copied p line
      ∙ write_outside tile (read n cxl_addr armed) armed p
          (omega (arith, fits, length-read n cxl_addr armed))
      ∙ arm_completion_outside c m p line,
)
  where
    c : ℕ
    c = t.completion

    n : ℕ
    n = min size t.aligned_size

    armed : Memory
    armed = arm_completion c m

    copied : Memory
    copied = write tile (read n cxl_addr armed) armed

    fits : n ≤ t.aligned_size
    fits = omega arith

lookup_llc_tile_known :
    (tile : ℕ) (s : Llc) (t : Tile)
    → tile ≢ 0
    → find tile s.tiles ≡ some t
    → lookup_llc_tile tile s ≡ some t
unfolding lookup_llc_tile
lookup_llc_tile_known tile s t h e = let a : (tile == 0) ≡ false = ground arith in rw a e

llc_tile_install_given :
    (tile cxl_addr size : ℕ) (block future : Option ℕ) (s : Llc)
    → tile ≢ 0
    → cxl_addr ≢ 0
    → size ≢ 0
    → llc_tile_install_from_cxl tile cxl_addr size 0 block future s
      ≡ install_allocated cxl_addr size 0 (some tile, s, [])
unfolding llc_tile_install_from_cxl
llc_tile_install_given tile cxl_addr size block future s ht hx hs =
    if_false (cxl_addr == 0 || size == 0) _ _ (ground arith)
    ∙ ap (install_allocated cxl_addr size 0) (
        if_false (tile == 0) (llc_tile_alloc size block future s) (some tile, s, []) (ground arith))

llc_tile_install_known :
    (tile cxl_addr size : ℕ) (block future : Option ℕ) (s : Llc) (t : Tile)
    → tile ≢ 0
    → cxl_addr ≢ 0
    → size ≢ 0
    → find tile s.tiles ≡ some t
    → llc_tile_install_from_cxl tile cxl_addr size 0 block future s
      ≡ (some tile, record s { memory = install_found (some t) tile cxl_addr size 0 s.memory }, [])
unfolding install_allocated install_into
llc_tile_install_known tile cxl_addr size block future s t ht hx hs e =
    llc_tile_install_given tile cxl_addr size block future s ht hx hs
    ∙ ap (λ o. (some tile, record s { memory = install_found o tile cxl_addr size 0 s.memory }, []))
        (lookup_llc_tile_known tile s t ht e)

-- For a tile of the table at a 64-bit address, where the tile, the source and the size are not 0,
-- no completion of the caller's, and a completion line of the tile that is not null and lies apart
-- from the tile's block and from the source: the installation answers the tile; as much of the
-- source as fits into the block stands at its begin; the completion shows success with the tile as
-- result; and outside the block and that line nothing changes, whatever the size.
pub llc_tile_installed :
    (tile cxl_addr size : ℕ) (block future : Option ℕ) (s : Llc) (t : Tile)
    → tile ≢ 0
    → tile < 2 ^ 64
    → cxl_addr ≢ 0
    → size ≢ 0
    → t.completion ≢ 0
    → find tile s.tiles ≡ some t
    → Apart tile t.aligned_size t.completion 64
    → Apart cxl_addr (min size t.aligned_size) t.completion 64
    → let (answer, s', calls) = llc_tile_install_from_cxl tile cxl_addr size 0 block future s in
      let n = min size t.aligned_size in
      (answer ≡ some tile)
      × (read n tile s'.memory ≡ read n cxl_addr s.memory)
      × (at_completion t.completion s'.memory ≡ signalled 0 tile)
      × ((p : ℕ)
          → Apart p 1 tile t.aligned_size
          → Apart p 1 t.completion 64
          → s'.memory p ≡ s.memory p)
unfolding Installs
llc_tile_installed tile cxl_addr size block future s t ht hw hx hs hc e apart away =
    (ap (λ r. r.0) known, installs.0, installs.1, installs.2)
  where
    known : llc_tile_install_from_cxl tile cxl_addr size 0 block future s ≡ (
      some tile,
      record s { memory = install_found (some t) tile cxl_addr size 0 s.memory },
      [],
    )
    known = llc_tile_install_known tile cxl_addr size block future s t ht hx hs e

    installs :
        Installs tile cxl_addr size t s.memory
          (llc_tile_install_from_cxl tile cxl_addr size 0 block future s).1.memory
    installs =
        subst
          (λ (r : Option ℕ × Llc × List HeapCall).
            Installs tile cxl_addr size t s.memory r.1.memory)
          (sym known) (install_found-Installs tile cxl_addr size t s.memory hw hc apart away)
