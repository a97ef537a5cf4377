-- ===== src/Backend/Api/Numbers.antt =====
-- runtime/vortex_offload_backend.cpp: the numbers that the backend hands out for buffers.
use mathlib.Core.Path.{subst}
use cxlmem_uring.Base.{
  ℕ, suc, ◌≡◌, ◌≢◌, ◌⊎◌, inl, inr, refl, sym, ap, arith, Bool, Bool-cases, if◌then◌else◌, true,
  false, ◌==◌, Option, none, some, List, [], ◌∷◌, find, find-erase, find-assign, find-assign_other,
  Descending-absent,
}
use cxlmem_uring.Device.{
  Device, DeviceRc, success, init_error, DriverCall, allocated, freed, usable, count_allocated,
  count_freed,
}
use cxlmem_uring.Device.Buffers.{Buffer, malloc, place_buffer, free_buffer}
use cxlmem_uring.Backend.{
  Backend, keep_buffer, allocate_device_memory, free_found, free_device_memory,
}
use cxlmem_uring.Backend.Accounts.{IsTidy}

-- The driver gives the buffer `buf` at `place` to a backend that is initialised and holds an
-- initialised device, for a size that is not 0.
abbrev pub Granted : Backend → ℕ → Option ℕ → Option ℕ → ℕ → ℕ → Type 0
Granted b size alloc addr buf place =
    (b.initialized ≡ true)
    × ((dev : Device) × (b.device ≡ some dev) × (dev.initialized ≡ true))
    × (size ≢ 0)
    × (alloc ≡ some buf)
    × (addr ≡ some place)

-- What is missing where it does not.
abbrev pub Refused : Backend → ℕ → Option ℕ → Option ℕ → Type 0
Refused b size alloc addr =
    (b.initialized ≡ false)
    ⊎ ((b.device ≡ none)
        ⊎ (((dev : Device) × (b.device ≡ some dev) × (dev.initialized ≡ false))
            ⊎ ((size ≡ 0) ⊎ ((alloc ≡ none) ⊎ (addr ≡ none)))))

-- A number that names the driver's buffer `buf`: it can be freed once, which gives that buffer back,
-- and not again.
abbrev pub FreedOnce : Backend → ℕ → ℕ → Type 0
FreedOnce b id buf =
    let (rc, b', calls) = free_device_memory b id in
    (rc ≡ success) × (calls ≡ freed buf ∷ []) × ((free_device_memory b' id).0 ≡ init_error)

free_found_lem :
    (b : Backend) (id : ℕ) (found : Option Buffer) (buffer : Buffer)
    → found ≡ some buffer
    → let (rc, b', calls) = free_found b id found in
      (rc ≡ success) × (calls ≡ freed buffer.vx_buf ∷ []) × (find id b'.buffer_map ≡ none)
unfolding free_found free_buffer
free_found_lem b id none buffer e = cc
free_found_lem b id (some buffer') buffer e =
    (refl, ap (λ (o : Option Buffer). (free_buffer o).1) e, find-erase id b.buffer_map)

free_found_once :
    (b : Backend) (id : ℕ) (buffer : Buffer)
    → find id b.buffer_map ≡ some buffer
    → FreedOnce b id buffer.vx_buf
unfolding free_device_memory free_found
free_found_once b id buffer e =
    let first = free_found_lem b id (find id b.buffer_map) buffer e in
    let b' = (free_found b id (find id b.buffer_map)).1 in
    (first.0, first.1, ap (λ (o : Option Buffer). (free_found b' id o).0) first.2)

-- An allocation that is refused answers 0, changes nothing and keeps no buffer of the driver.
abbrev pub Unnumbered : Backend → ℕ × Backend × List DriverCall → Type 0
Unnumbered b (id, b', calls) =
    (id ≡ 0) × (b' ≡ b) × ((h : ℕ) → count_allocated h calls ≡ count_freed h calls)

-- One that is granted answers a new number, which names the buffer that the driver gave.
abbrev pub Numbered : Backend → ℕ → ℕ → ℕ → ℕ × Backend × List DriverCall → Type 0
Numbered b size buf place (id, b', calls) =
    (id ≢ 0)
    × (find id b.buffer_map ≡ none)
    × (find id b'.buffer_map ≡ some (record { vx_buf = buf; dev_addr = place; size = size }))
    × ((q : ℕ) → id ≢ q → find q b'.buffer_map ≡ find q b.buffer_map)
    × (calls ≡ allocated buf ∷ [])
    × FreedOnce b' id buf

keep_buffer-Numbered :
    (b : Backend) (n size buf place : ℕ)
    → IsTidy (suc n) b
    → b.next_buffer_id ≢ 0
    → Numbered b size buf place (
        keep_buffer b
          (some (record { vx_buf = buf; dev_addr = place; size = size }))
          (allocated buf ∷ []))
unfolding keep_buffer
keep_buffer-Numbered b n size buf place t z =
    let id = b.next_buffer_id in
    let buffer : Buffer = record { vx_buf = buf; dev_addr = place; size = size } in
    (
      z,
      Descending-absent id id b.buffer_map (omega arith) t.0,
      find-assign id buffer b.buffer_map,
      λ q d. find-assign_other id q buffer b.buffer_map d,
      refl,
      free_found_once _ id buffer (find-assign id buffer b.buffer_map),
    )

abbrev Answer : Type 0
Answer = DeviceRc × Option Buffer × List DriverCall

abbrev Gives : ℕ → ℕ → ℕ → Answer → Type 0
Gives size buf place r =
    r ≡ (success, some (record { vx_buf = buf; dev_addr = place; size = size }), allocated buf ∷ [])

-- No buffer, and none of the driver's is kept.
abbrev Withholds : Answer → Type 0
Withholds (rc, buffer, calls) =
    (buffer ≡ none) × ((h : ℕ) → count_allocated h calls ≡ count_freed h calls)

place_buffer-cases :
    (size : ℕ) (alloc addr : Option ℕ)
    → (((alloc ≡ none) ⊎ (addr ≡ none)) × Withholds (place_buffer size alloc addr))
      ⊎ ((buf place : ℕ) × (alloc ≡ some buf)
          × (addr ≡ some place)
          × Gives size buf place (place_buffer size alloc addr))
unfolding place_buffer count_allocated count_freed
place_buffer-cases size none addr = inl (inl refl, (refl, λ h. refl))
place_buffer-cases size (some buf) none = inl (inr refl, (refl, λ h. refl))
place_buffer-cases size (some buf) (some place) = inr (buf, place, refl, refl, refl)

-- What `vortex_malloc` answers: the driver's buffer, or none.
malloc-cases :
    (device : Option Device) (size : ℕ) (alloc addr : Option ℕ)
    → (((device ≡ none)
          ⊎ (((dev : Device) × (device ≡ some dev) × (dev.initialized ≡ false))
              ⊎ ((size ≡ 0) ⊎ ((alloc ≡ none) ⊎ (addr ≡ none)))))
        × Withholds (malloc device true size alloc addr))
      ⊎ ((buf place : ℕ) × ((dev : Device) × (device ≡ some dev) × (dev.initialized ≡ true))
          × (size ≢ 0)
          × (alloc ≡ some buf)
          × (addr ≡ some place)
          × Gives size buf place (malloc device true size alloc addr))
unfolding malloc usable count_allocated count_freed
malloc-cases none size alloc addr = inl (inl refl, (refl, λ h. refl))
malloc-cases (some dev) size alloc addr = elim (Bool-cases (size == 0)) [
  | inl e ↦ inl (inr (inr (inl (ground arith))), rw (e, malloc, usable) (refl, λ h. refl))
  | inr sized ↦ elim (Bool-cases dev.initialized) [
    | inr e ↦ inl (inr (inl (dev, refl, e)), rw (sized, e, malloc, usable) (refl, λ h. refl))
    | inl ready ↦ elim (place_buffer-cases size alloc addr) [
      | inl (why, nothing) ↦ inl (inr (inr (inr why)), rw (sized, ready, malloc, usable) nothing)
      | inr (buf, place, e1, e2, given) ↦ inr (
        buf,
        place,
        (dev, refl, ready),
        ground arith,
        e1,
        e2,
        rw (sized, ready, malloc, usable) given,
      )
    ]
  ]
]

allocate-initialized :
    (b : Backend) (size : ℕ) (alloc addr : Option ℕ)
    → b.initialized ≡ true
    → allocate_device_memory b size alloc addr
      ≡ keep_buffer b
          (malloc b.device true size alloc addr).1
          (malloc b.device true size alloc addr).2
unfolding allocate_device_memory
allocate-initialized b size alloc addr ready =
    let kept =
      keep_buffer b (malloc b.device true size alloc addr).1
        (malloc b.device true size alloc addr).2 in
    ap (λ (t : Bool). if t then kept else (0, b, [])) ready

allocate-uninitialized :
    (b : Backend) (size : ℕ) (alloc addr : Option ℕ)
    → b.initialized ≡ false
    → allocate_device_memory b size alloc addr ≡ (0, b, [])
unfolding allocate_device_memory
allocate-uninitialized b size alloc addr e =
    let kept =
      keep_buffer b (malloc b.device true size alloc addr).1
        (malloc b.device true size alloc addr).2 in
    ap (λ (t : Bool). if t then kept else (0, b, [])) e

-- On a backend whose next number is not 0, is above those in its map and does not wrap, and for any
-- size and answers of the driver: either something is missing (the backend or its device is not
-- initialised, there is no device, the size is 0, or the driver gives no buffer or no address), and
-- the allocation answers 0, leaves the backend as it was and gives back what the driver gave; or the
-- driver gives a buffer to an initialised device, and the allocation answers a number that is not 0
-- and named no buffer before, it names the driver's buffer with its address and size, every other
-- number names what it did, and a free of it succeeds once, gives the driver's buffer back, and then
-- fails.
pub allocate-Numbered :
    (b : Backend) (n size : ℕ) (alloc addr : Option ℕ)
    → IsTidy (suc n) b
    → b.next_buffer_id ≢ 0
    → (Refused b size alloc addr × Unnumbered b (allocate_device_memory b size alloc addr))
      ⊎ ((buf place : ℕ) × Granted b size alloc addr buf place
          × Numbered b size buf place (allocate_device_memory b size alloc addr))
unfolding keep_buffer count_allocated count_freed
allocate-Numbered b n size alloc addr t z = elim (Bool-cases b.initialized) [
  | inr e ↦ inl (
    inl e,
    subst (Unnumbered b) (sym (allocate-uninitialized b size alloc addr e)) (refl, refl, λ h. refl),
  )
  | inl ready ↦
      let kept = sym (allocate-initialized b size alloc addr ready) in
      elim (malloc-cases b.device size alloc addr) [
        | inl (why, (nothing, even)) ↦ inl (
          inr why,
          subst (Unnumbered b) kept (
              subst
                (λ (o : Option Buffer).
                  Unnumbered b (keep_buffer b o (malloc b.device true size alloc addr).2))
                (sym nothing) (refl, refl, even)),
        )
        | inr (buf, place, device, sized, e1, e2, given) ↦ inr (
          buf,
          place,
          (ready, device, sized, e1, e2),
          subst (Numbered b size buf place) kept (
              subst (λ (r : Answer). Numbered b size buf place (keep_buffer b r.1 r.2)) (sym given)
                (keep_buffer-Numbered b n size buf place t z)),
        )
      ]
]
