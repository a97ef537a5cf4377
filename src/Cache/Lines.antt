-- ===== src/Cache/Lines.antt =====
-- runtime/src/CiraRuntime.cpp, `Type2CacheControllerImpl`: the CXL.cache operations on a line.
use cxlmem_uring.Base.{
  ℕ, ◌+◌, Bool, true, false, not, ◌&&◌, Option, none, some, [], ◌==◌, if◌then◌else◌,
}
use cxlmem_uring.Memory.{Memory, read}
use cxlmem_uring.Cache.{
  CoherencyState, invalid, shared, exclusive, modified, is_invalid, is_shared, is_modified,
  line_size, CacheLine, read_op, write_op, coherency_op, Controller, align_to_line, lesser, copy_in,
  copy_out, put_line, process_delay_buffer, enqueue_delayed_op,
}

-- A `CacheLine` that `operator[]` makes for a new key.
abbrev pub fresh_line : CacheLine
fresh_line = record { data_ = λ i. 0; state = invalid; dirty = false; timestamp_ns = 0 }

unfoldable pub slot_of : Option CacheLine → CacheLine
slot_of none = fresh_line
slot_of (some line) = line

-- A line that is in the map and not INVALID.
unfoldable pub hits : Option CacheLine → Bool
hits none = false
hits (some line) = not (is_invalid line.state)

pub record Loaded : Type 0 where
  pub controller : Controller
  pub data_ : ℕ → ℕ
  pub state : CoherencyState

-- The bytes that a missing load puts into the line.
unfoldable pub fetched : ℕ → ℕ → ℕ → Memory → (ℕ → ℕ) → ℕ → ℕ
fetched host_addr bar2 size m old =
    let src = if host_addr == 0 then bar2 else host_addr in
    if src == 0 then (λ i. 0) else copy_in (lesser size line_size) (λ i. m (src + i)) old

module _ (now : ℕ → ℕ) where
  unfoldable pub load_miss : ℕ → ℕ → Memory → Controller → Loaded
  load_miss host_addr size m c =
      let aligned = align_to_line host_addr in
      let line : CacheLine = record {
        data_ = fetched host_addr c.bar2_mapping size m (slot_of (c.cache aligned)).data_;
        state = shared;
        dirty = false;
        timestamp_ns = now 1;
      } in
      record {
        controller =
            enqueue_delayed_op aligned [] read_op (now 2) c.config.read_latency_ns (record c {
              cache = put_line aligned line c.cache;
              cache_misses = c.cache_misses + 1;
            });
        data_ = line.data_;
        state = shared;
      }

  unfoldable pub load_hit : Controller → CacheLine → Loaded
  load_hit c line = record {
    controller = record c { cache_hits = c.cache_hits + 1 };
    data_ = line.data_;
    state = line.state;
  }

  unfoldable pub cache_load : ℕ → ℕ → Memory → Controller → Loaded
  unfolding process_delay_buffer
  cache_load host_addr size m c0 =
      let c = process_delay_buffer (now 0) c0 in
      let found = c.cache (align_to_line host_addr) in
      if hits found then load_hit c (slot_of found) else load_miss host_addr size m c

  -- A store's line before it is written: the line itself, or one fetched from the host.
  unfoldable pub line_for_store : ℕ → Memory → Option CacheLine → CacheLine
  line_for_store host_addr m found = if hits found then slot_of found else record {
    data_ =
        if host_addr == 0
        then (slot_of found).data_
        else copy_in line_size (λ i. m (host_addr + i)) (slot_of found).data_;
    state = exclusive;
    dirty = false;
    timestamp_ns = now 1;
  }

  -- SHARED is upgraded to EXCLUSIVE at the cost of a coherency operation.
  unfoldable pub upgraded : ℕ → CacheLine → Controller → Controller
  upgraded aligned line c =
      if is_shared line.state
      then enqueue_delayed_op aligned [] coherency_op (now 2) c.config.coherency_latency_ns c
      else c

  -- The line is written and becomes MODIFIED.
  unfoldable pub put_written : ℕ → ℕ → ℕ → Memory → Controller → Controller
  put_written host_addr src size m c =
      let aligned = align_to_line host_addr in
      let found = c.cache aligned in
      let written : CacheLine = record {
        data_ =
            copy_in (lesser size line_size) (λ i. m (src + i))
              (line_for_store host_addr m found).data_;
        state = modified;
        dirty = true;
        timestamp_ns = now 3;
      } in
      record c {
        cache = put_line aligned written c.cache;
        cache_misses = if hits found then c.cache_misses else c.cache_misses + 1;
      }

  unfoldable pub cache_store : ℕ → ℕ → ℕ → Memory → Controller → Controller
  unfolding process_delay_buffer upgraded enqueue_delayed_op put_written
  cache_store host_addr src size m c0 =
      let c = process_delay_buffer (now 0) c0 in
      let aligned = align_to_line host_addr in
      let line = line_for_store host_addr m (c.cache aligned) in
      enqueue_delayed_op aligned (read (lesser size line_size) src m) write_op (now 4)
        c.config.write_latency_ns (upgraded aligned line (put_written host_addr src size m c))

unfoldable pub evict_line : ℕ → Bool → Controller → Memory → Option CacheLine → Controller × Memory
evict_line host_addr writeback c m none = (c, m)
evict_line host_addr writeback c m (some line) = (
  record c {
    cache =
        put_line (align_to_line host_addr) (record line { state = invalid; dirty = false }) c.cache;
  },
  if writeback && line.dirty && not (host_addr == 0) then copy_out host_addr line.data_ m else m,
)

unfoldable pub cache_evict : ℕ → Bool → Controller → Memory → Controller × Memory
unfolding evict_line
cache_evict host_addr writeback c m =
    evict_line host_addr writeback c m (c.cache (align_to_line host_addr))

unfoldable pub state_of : Option CacheLine → CoherencyState
state_of none = invalid
state_of (some line) = line.state

unfoldable pub get_coherency_state : ℕ → Controller → CoherencyState
get_coherency_state addr c = state_of (c.cache (align_to_line addr))

-- The dirty flag that a snoop leaves.
unfoldable pub dirty_after : CacheLine → CoherencyState → Bool
dirty_after line new_state =
    line.dirty && not (is_modified line.state) && not (is_invalid new_state)

unfoldable pub snoop_line :
    ℕ → CoherencyState → Controller → Memory → Option CacheLine → Controller × Memory
snoop_line addr new_state c m none = (c, m)
snoop_line addr new_state c m (some line) = (
  record c {
    cache =
        put_line (align_to_line addr)
          (record line { state = new_state; dirty = dirty_after line new_state }) c.cache;
  },
  if is_modified line.state && line.dirty && not (addr == 0) then copy_out addr line.data_ m else m,
)

unfoldable pub handle_snoop : ℕ → CoherencyState → Controller → Memory → Controller × Memory
unfolding snoop_line
handle_snoop addr new_state c m = snoop_line addr new_state c m (c.cache (align_to_line addr))
