-- ===== src/Engine/RegionMarks.antt =====
-- runtime/src/CiraRuntime.cpp, `cira_gapbs_region_marker`: hints, then the simulator's marker, or else
-- an offload that is awaited.
use cxlmem_uring.Base.{
  if-case, ℕ, ◌%◌, ◌^◌, ◌≡◌, ◌≢◌, refl, ap, Bool, true, false, not, ◌&&◌, ◌||◌, Option, none, some,
  List, [], ◌∷◌, ◌++◌, ◌==◌, if◌then◌else◌, arith,
}
use cxlmem_uring.Memory.{Memory}
use cxlmem_uring.Mmio.{Window}
use cxlmem_uring.Futures.{
  is_active, track_active_future, untrack_active_future, without, offload_submit,
}
use cxlmem_uring.Tiles.{Hint, install_cacheline_x86, zeroed_at}
use cxlmem_uring.Engine.Markers.{
  Marker, no_marker, prefetch_block, prefetch_csr, GapbsEnv, gapbs_marker,
}

-- The flags and the level that the environment gives, and whether the simulator's instruction
-- answers a number that is not 0.
pub record RegionEnv : Type 0 where
  pub prefetch : Bool
  pub install : Bool
  pub cache_level : Option ℕ
  pub marker_only : Bool
  pub gem5 : Bool
  pub gapbs_gem5 : Bool
  pub gapbs : GapbsEnv
  pub simulated : Bool

abbrev level_or : Option ℕ → ℕ
level_or none = 3
level_or (some level) = level % 2 ^ 32

unfoldable pub region_hints : RegionEnv → ℕ → ℕ → List Hint
region_hints env addr size =
    if (not (addr == 0) && not (size == 0)) && (env.prefetch || env.install)
    then install_cacheline_x86 addr size (level_or env.cache_level)
    else []

unfoldable pub is_marker : Marker → Bool
is_marker no_marker = false
is_marker (prefetch_block addr size) = true
is_marker (prefetch_csr first last start count packed) = true

unfoldable pub region_marker : RegionEnv → ℕ → ℕ → ℕ → Memory → Marker
region_marker env benchmark_id addr size m =
    if env.gem5 || env.gapbs_gem5
    then gapbs_marker env.gapbs benchmark_id addr size m
    else no_marker

-- What a call leaves: the hints, the marker, whether a job was submitted, and the state.
pub record RegionMarked : Type 0 where
  pub hints : List Hint
  pub marker : Marker
  pub submitted : Bool
  pub window : Option Window
  pub active : List ℕ
  pub memory : Memory

-- The offload of the region, with the future that the allocator gave. `operands` is the address of
-- the four operands. The future is freed after the wait for it.
unfoldable pub offload_region :
    List Hint → Marker → Option Window → ℕ → ℕ → Option ℕ → List ℕ → Memory → RegionMarked
offload_region hints mark window operands device_func none active m = record {
  hints = hints;
  marker = mark;
  submitted = false;
  window = window;
  active = active;
  memory = m;
}
offload_region hints mark window operands device_func (some completion) active m =
    let o =
      offload_submit window 0 operands 4 completion device_func active
        (zeroed_at completion 64 m) in
    record {
      hints = hints;
      marker = mark;
      submitted = o.submitted;
      window = o.window;
      active = untrack_active_future completion o.active;
      memory = o.memory;
    }

unfoldable pub gapbs_region_marker :
    RegionEnv → ℕ → ℕ → ℕ → Option Window → ℕ → ℕ → Option ℕ → List ℕ → Memory → RegionMarked
unfolding offload_region
gapbs_region_marker env benchmark_id addr size window operands device_func future active m =
    let hints = region_hints env addr size in
    let marker = region_marker env benchmark_id addr size m in
    let marked : RegionMarked = record {
      hints = hints;
      marker = no_marker;
      submitted = false;
      window = window;
      active = active;
      memory = m;
    } in
    if env.marker_only
    then marked
    else if is_marker marker && env.simulated
    then record marked { marker = marker }
    else offload_region hints marker window operands device_func future active m

without_absent :
    (p : ℕ) (active : List ℕ) → is_active p active ≡ false → without (λ q. q == p) active ≡ active
unfolding without is_active
without_absent p [] h = refl
without_absent p (q ∷ active) h =
    let other : (q == p) ≡ false = ground arith in
    let later : is_active p active ≡ false = ground arith in
    rw other (ap (λ qs. q ∷ qs) (without_absent p active later))

without-append :
    (p : ℕ) (active : List ℕ)
    → is_active p active ≡ false
    → without (λ q. q == p) (active ++ (p ∷ [])) ≡ active
unfolding without is_active
without-append p [] h = let self : (p == p) ≡ true = ground arith in rw self refl
without-append p (q ∷ active) h =
    let other : (q == p) ≡ false = ground arith in
    let later : is_active p active ≡ false = ground arith in
    rw other (ap (λ qs. q ∷ qs) (without-append p active later))

-- An untracked future is tracked and then untracked.
untrack-track :
    (p : ℕ) (active : List ℕ)
    → p ≢ 0
    → is_active p active ≡ false
    → untrack_active_future p (track_active_future p active) ≡ active
unfolding untrack_active_future track_active_future
untrack-track p active n h =
    let given : (p == 0) ≡ false = ground arith in rw (given, h) (without-append p active h)

-- The allocator gives no future, or one that is not null and not active yet.
abbrev pub NewFuture : Option ℕ → List ℕ → Type 0
NewFuture none active = Unit
NewFuture (some p) active = (p ≢ 0) × (is_active p active ≡ false)

offload_region-active :
    (hints : List Hint) (mark : Marker) (window : Option Window) (operands device_func : ℕ)
    (future : Option ℕ) (active : List ℕ) (m : Memory)
    → NewFuture future active
    → (offload_region hints mark window operands device_func future active m).active ≡ active
unfolding offload_region offload_submit
offload_region-active hints mark window operands device_func none active m h = refl
offload_region-active hints mark window operands device_func (some p) active m (n, h) =
    untrack-track p active n h

-- A region marker, with any environment, window and answers, leaves the active futures as they were,
-- where the future that the allocator gives is not null and not active.
pub gapbs_region_marker-active :
    (env : RegionEnv) (benchmark_id addr size : ℕ) (window : Option Window)
    (operands device_func : ℕ) (future : Option ℕ) (active : List ℕ) (m : Memory)
    → NewFuture future active
    → (gapbs_region_marker env benchmark_id addr size window operands device_func future active
        m).active
      ≡ active
unfolding gapbs_region_marker
gapbs_region_marker-active env benchmark_id addr size window operands device_func future active m
      h =
    if-case (λ (r : RegionMarked). r.active ≡ active) env.marker_only _ _ refl
      (if-case (λ (r : RegionMarked). r.active ≡ active)
        (is_marker (region_marker env benchmark_id addr size m) && env.simulated) _ _ refl
        (offload_region-active _ _ window operands device_func future active m h))
