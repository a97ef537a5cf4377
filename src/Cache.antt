-- ===== src/Cache.antt =====
-- runtime/src/CiraRuntime.cpp, `Type2CacheControllerImpl`: the lines that a Type-2 device caches of
-- host memory, and its delay buffer. A line's 64 bytes are a function of the offset; the
-- `unordered_map` is a function of the aligned address. `now k` is the k-th clock read of a call.
pub mod Buffer
pub mod Lines
pub mod Coherent
pub mod View
pub mod Range
pub mod Device
pub mod Transparent
pub mod Access
pub mod Ops
pub mod Invalidated
use cxlmem_uring.Base.{
  ℕ, zero, suc, ◌+◌, ◌-◌, ◌/◌, ◌*◌, ◌%◌, ◌^◌, Bool, true, false, not, ◌&&◌, ◌||◌, Option, none,
  some, List, [], ◌∷◌, ◌++◌, drop, length, ◌==◌, ltb, leb, if◌then◌else◌,
}
use cxlmem_uring.Memory.{Memory, read}

pub data CoherencyState : Type 0 where
  invalid shared exclusive modified : CoherencyState

unfoldable pub is_invalid : CoherencyState → Bool
is_invalid invalid = true
is_invalid shared = false
is_invalid exclusive = false
is_invalid modified = false

unfoldable pub is_shared : CoherencyState → Bool
is_shared invalid = false
is_shared shared = true
is_shared exclusive = false
is_shared modified = false

unfoldable pub is_modified : CoherencyState → Bool
is_modified invalid = false
is_modified shared = false
is_modified exclusive = false
is_modified modified = true

abbrev pub line_size : ℕ
line_size = 64

pub record CacheLine : Type 0 where
  pub data_ : ℕ → ℕ
  pub state : CoherencyState
  pub dirty : Bool
  pub timestamp_ns : ℕ

pub data DelayOpType : Type 0 where
  read_op write_op coherency_op : DelayOpType

pub record DelayedOp : Type 0 where
  pub addr : ℕ
  pub data_ : List ℕ
  pub op_type : DelayOpType
  pub enqueue_time_ns : ℕ
  pub delay_ns : ℕ

-- `Type2DeviceConfig` without its path and the two base addresses, which the controller does not
-- read: it maps its BARs by the path.
pub record DeviceConfig : Type 0 where
  pub bar2_size : ℕ
  pub bar4_size : ℕ
  pub read_latency_ns : ℕ
  pub write_latency_ns : ℕ
  pub coherency_latency_ns : ℕ
  pub cache_line_size : ℕ
  pub delay_buffer_depth : ℕ

-- A mapping of 0 is null.
pub record Controller : Type 0 where
  pub config : DeviceConfig
  pub initialized : Bool
  pub cache : ℕ → Option CacheLine
  pub delay_buffer : List DelayedOp
  pub delay_buffer_depth : ℕ
  pub bar2_mapping : ℕ
  pub bar4_mapping : ℕ
  pub cache_hits : ℕ
  pub cache_misses : ℕ

-- `addr & ~63`.
unfoldable pub align_to_line : ℕ → ℕ
align_to_line addr = addr - addr % line_size

unfoldable pub lesser : ℕ → ℕ → ℕ
lesser a b = if ltb b a then b else a

-- `memcpy` of `n` bytes into a line.
unfoldable pub copy_in : ℕ → (ℕ → ℕ) → (ℕ → ℕ) → ℕ → ℕ
copy_in n src old i = if ltb i n then src i else old i

-- `memcpy` of a line to host memory.
unfoldable pub copy_out : ℕ → (ℕ → ℕ) → Memory → Memory
copy_out a data_ m p = if leb a p && ltb p (a + line_size) then data_ (p - a) else m p

-- `cache_[addr] = line`.
unfoldable pub put_line : ℕ → CacheLine → (ℕ → Option CacheLine) → ℕ → Option CacheLine
put_line addr line cache a = if a == addr then some line else cache a

-- The delay buffer, front first. An entry is due when its delay has passed on the 64-bit clock.
unfoldable pub is_due : ℕ → DelayedOp → Bool
is_due current op = leb op.delay_ns ((current + 2 ^ 64 - op.enqueue_time_ns % 2 ^ 64) % 2 ^ 64)

unfoldable pub drain_due : ℕ → List DelayedOp → List DelayedOp
drain_due current [] = []
drain_due current (op ∷ ops) =
    let rest = drain_due current ops in if is_due current op then rest else op ∷ ops

unfoldable pub process_delay_buffer : ℕ → Controller → Controller
process_delay_buffer current c = record c { delay_buffer = drain_due current c.delay_buffer }

-- A full buffer loses its front entry.
unfoldable pub push_delayed : ℕ → DelayedOp → List DelayedOp → List DelayedOp
push_delayed depth op ops = (if leb depth (length ops) then drop 1 ops else ops) ++ (op ∷ [])

unfoldable pub enqueue_delayed_op : ℕ → List ℕ → DelayOpType → ℕ → ℕ → Controller → Controller
enqueue_delayed_op addr data_ op_type now delay_ns c = record c {
  delay_buffer =
      push_delayed c.delay_buffer_depth
        (record {
          addr = addr;
          data_ = data_;
          op_type = op_type;
          enqueue_time_ns = now;
          delay_ns = delay_ns;
        })
        c.delay_buffer;
}
