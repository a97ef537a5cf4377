-- ===== src/Cache/Device.antt =====
-- runtime/src/CiraRuntime.cpp, `Type2CacheControllerImpl`: initialisation, shutdown and the CXL.mem
-- access. What `mmap` answers is an argument, `none` for MAP_FAILED.
use cxlmem_uring.Base.{
  ℕ, ◌+◌, ◌%◌, ◌^◌, ◌<◌, ◌≡◌, ◌≢◌, refl, Bool, true, false, not, ◌&&◌, Option, none, some, List, [],
  ◌∷◌, ◌++◌, ◌==◌, leb, if◌then◌else◌, arith,
}
use cxlmem_uring.Memory.{Memory, read, write}
use cxlmem_uring.Cache.{DeviceConfig, Controller, line_size}

unfoldable pub or_default : ℕ → ℕ → ℕ
or_default value fallback = if value == 0 then fallback else value

unfoldable pub with_defaults : DeviceConfig → DeviceConfig
unfolding or_default
with_defaults config = record config {
  cache_line_size = or_default config.cache_line_size line_size;
  delay_buffer_depth = or_default config.delay_buffer_depth 16;
  read_latency_ns = or_default config.read_latency_ns 170;
  write_latency_ns = or_default config.write_latency_ns 200;
  coherency_latency_ns = or_default config.coherency_latency_ns 50;
}

-- One BAR: whether it is mapped as far as it is wanted, and its mapping.
unfoldable pub map_bar : ℕ → Option ℕ → ℕ → Bool × ℕ
map_bar size none old = if size == 0 then (true, old) else (false, 0)
map_bar size (some p) old = if size == 0 then (true, old) else (true, p)

unfoldable pub map_device_bars : Option ℕ → Option ℕ → Controller → Bool × Controller
unfolding map_bar
map_device_bars answer2 answer4 c =
    let (fine2, bar2) = map_bar c.config.bar2_size answer2 c.bar2_mapping in
    let (fine4, bar4) = map_bar c.config.bar4_size answer4 c.bar4_mapping in
    if fine2
    then (fine4, record c { bar2_mapping = bar2; bar4_mapping = bar4 })
    else (false, record c { bar2_mapping = bar2 })

unfoldable pub initialize : Option ℕ → Option ℕ → DeviceConfig → Controller → Bool × Controller
unfolding with_defaults map_device_bars
initialize answer2 answer4 config c =
    let filled = with_defaults config in
    let (fine, mapped) =
      map_device_bars answer2 answer4
        (record c { config = filled; delay_buffer_depth = filled.delay_buffer_depth }) in
    if c.initialized
    then (true, c)
    else if fine
    then (true, record mapped { initialized = true })
    else (false, mapped)

unfoldable pub drain_delay_buffer : Controller → Controller
drain_delay_buffer c = record c { delay_buffer = [] }

unfoldable pub unmap : ℕ → ℕ → List (ℕ × ℕ)
unmap mapping size = if mapping == 0 then [] else (mapping, size) ∷ []

-- The result names the mappings that were given back, with their sizes.
unfoldable pub shutdown : Controller → Controller × List (ℕ × ℕ)
unfolding drain_delay_buffer unmap
shutdown c = if not c.initialized then (c, []) else (
  record (drain_delay_buffer c) {
    bar2_mapping = 0;
    bar4_mapping = 0;
    cache = λ a. none;
    initialized = false;
  },
  unmap c.bar2_mapping c.config.bar2_size ++ unmap c.bar4_mapping c.config.bar4_size,
)

unfoldable pub in_bar4 : Controller → ℕ → ℕ → Bool
in_bar4 c dev_offset size =
    not (c.bar4_mapping == 0) && leb ((dev_offset + size) % 2 ^ 64) c.config.bar4_size

-- `fallback` is the anonymous mapping made where the range is not in BAR4.
unfoldable pub mem_load : ℕ → ℕ → ℕ → Controller → ℕ
mem_load fallback dev_offset size c =
    if in_bar4 c dev_offset size then c.bar4_mapping + dev_offset else fallback

unfoldable pub mem_store : ℕ → ℕ → ℕ → Controller → Memory → Memory
mem_store dev_offset src size c m =
    if in_bar4 c dev_offset size then write (c.bar4_mapping + dev_offset) (read size src m) m else m

-- A BAR of a size that is not 0 is mapped at an address that is not null.
abbrev pub Answered : ℕ → Option ℕ → ℕ → Type 0
Answered size answer p = (answer ≡ some p) × (size ≢ 0) × (p ≢ 0)

-- For a controller that is not initialised, with an empty delay buffer, and a configuration whose
-- BARs have sizes, mapped where the system says: initialisation succeeds with a delay buffer that
-- has a place, and a shutdown after it gives back exactly the two mappings and leaves no line and no
-- operation; after a second shutdown nothing more is given back.
pub initialize_then_shutdown :
    (config : DeviceConfig) (c : Controller) (answer2 answer4 : Option ℕ) (bar2 bar4 : ℕ)
    → c.initialized ≡ false
    → Answered config.bar2_size answer2 bar2
    → Answered config.bar4_size answer4 bar4
    → let (fine, up) = initialize answer2 answer4 config c in
      let (down, given) = shutdown up in
      (fine ≡ true)
      × (up.initialized ≡ true)
      × (0 < up.delay_buffer_depth)
      × (given ≡ (bar2, config.bar2_size) ∷ (bar4, config.bar4_size) ∷ [])
      × (down.delay_buffer ≡ [])
      × ((a : ℕ) → down.cache a ≡ none)
      × ((shutdown down).1 ≡ [])
unfolding initialize map_device_bars with_defaults map_bar shutdown
initialize_then_shutdown config c answer2 answer4 bar2 bar4 new a2 a4 =
    rw (new, a2.0, a4.0)
      (rw (wanted2, wanted4)
        (rw (mapped2, mapped4) (refl, refl, depth, refl, refl, λ a. refl, refl)))
  where
    wanted2 : (config.bar2_size == 0) ≡ false
    wanted2 = ground arith

    wanted4 : (config.bar4_size == 0) ≡ false
    wanted4 = ground arith

    mapped2 : (bar2 == 0) ≡ false
    mapped2 = ground arith

    mapped4 : (bar4 == 0) ≡ false
    mapped4 = ground arith

    depth : 0 < (if config.delay_buffer_depth == 0 then 16 else config.delay_buffer_depth)
    depth = ground arith
