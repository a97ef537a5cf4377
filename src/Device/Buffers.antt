-- ===== src/Device/Buffers.antt =====
-- runtime/vortex_device.cpp, memory management: `vortex_malloc`, `vortex_free` and the copies.
use cxlmem_uring.Base.{
  ℕ, ◌+◌, ◌%◌, ◌^◌, Bool, not, ◌&&◌, Option, none, some, List, [], ◌∷◌, take, ◌==◌, ltb,
  if◌then◌else◌,
}
use cxlmem_uring.Device.{
  DeviceRc, success, memory_error, invalid_error, DriverCall, allocated, freed, copied_to,
  copied_from, Device, usable,
}

-- `struct vortex_buffer`; the device is the one that allocated it.
pub record Buffer : Type 0 where
  pub vx_buf : ℕ
  pub dev_addr : ℕ
  pub size : ℕ

pub data CopyKind : Type 0 where
  host_to_device device_to_host device_to_device : CopyKind

-- The part of an allocation after the driver's answers: the buffer it gave, and its address.
unfoldable pub place_buffer : ℕ → Option ℕ → Option ℕ → DeviceRc × Option Buffer × List DriverCall
place_buffer size none addr = (memory_error, none, [])
place_buffer size (some buf) none = (memory_error, none, allocated buf ∷ freed buf ∷ [])
place_buffer size (some buf) (some addr) =
    (success, some (record { vx_buf = buf; dev_addr = addr; size = size }), allocated buf ∷ [])

-- `out` is whether the caller gave a place for the buffer.
unfoldable pub malloc :
    Option Device → Bool → ℕ → Option ℕ → Option ℕ → DeviceRc × Option Buffer × List DriverCall
unfolding usable place_buffer
malloc device out size alloc addr = elim (usable device (out && not (size == 0))) [
  | success ↦ place_buffer size alloc addr
  | other ↦ (other, none, [])
]

-- `vortex_free`.
unfoldable pub free_buffer : Option Buffer → DeviceRc × List DriverCall
free_buffer none = (invalid_error, [])
free_buffer (some buffer) = (success, freed buffer.vx_buf ∷ [])

unfoldable pub buffer_get_address : Option Buffer → Bool → DeviceRc × Option ℕ
buffer_get_address none out = (invalid_error, none)
buffer_get_address (some buffer) out =
    if out then (success, some buffer.dev_addr) else (invalid_error, none)

-- What a copy of the driver reports.
unfoldable pub copy_rc : Bool → DriverCall → DeviceRc × List DriverCall
copy_rc done call = if done then (success, call ∷ []) else (memory_error, [])

-- `vortex_memcpy` between a buffer and `host`, the bytes at the host's address, `none` for null;
-- `done` is the driver's answer.
unfoldable pub memcpy :
    Option Buffer → Option (List ℕ) → ℕ → CopyKind → Bool → DeviceRc × List DriverCall
unfolding copy_rc
memcpy none host size kind done = (invalid_error, [])
memcpy (some buffer) none size kind done = (invalid_error, [])
memcpy (some buffer) (some bytes_) size host_to_device done =
    if size == 0
    then (invalid_error, [])
    else copy_rc done (copied_to buffer.vx_buf 0 (take size bytes_))
memcpy (some buffer) (some bytes_) size device_to_host done =
    if size == 0 then (invalid_error, []) else copy_rc done (copied_from buffer.vx_buf 0 size)
memcpy (some buffer) (some bytes_) size device_to_device done = (invalid_error, [])

-- The sum of the bounds test is one of 64 bits.
unfoldable pub memcpy_offset :
    Option Buffer → ℕ → Option (List ℕ) → ℕ → CopyKind → Bool → DeviceRc × List DriverCall
unfolding copy_rc
memcpy_offset none offset host size kind done = (invalid_error, [])
memcpy_offset (some buffer) offset none size kind done = (invalid_error, [])
memcpy_offset (some buffer) offset (some bytes_) size kind done =
    if size == 0
    then (invalid_error, [])
    else if ltb buffer.size ((offset + size) % 2 ^ 64)
    then (invalid_error, [])
    else elim kind [
      | host_to_device ↦ copy_rc done (copied_to buffer.vx_buf offset (take size bytes_))
      | device_to_host ↦ copy_rc done (copied_from buffer.vx_buf offset size)
      | device_to_device ↦ (invalid_error, [])
    ]
