-- ===== src/Regions/Translate.antt =====
-- runtime/src/CiraRuntime.cpp: the token that stands for an address on the device, from the region
-- table, the kernel's driver, the page map or the layout of the last-level cache.
use Prim.Native.Nat.{bit_and, bit_or, bit_xor}
use cxlmem_uring.Base.{
  ℕ, zero, suc, ◌+◌, ◌*◌, ◌/◌, ◌%◌, ◌^◌, Bool, true, false, not, ◌||◌, Option, none, some, List, [],
  ◌∷◌, ◌==◌, ltb, leb, if◌then◌else◌, length,
}

-- The variables that are read as numbers.
pub data TokenVar : Type 0 where
  line_bits set_bits slice_shift slices : TokenVar

-- What CIRA_PADDR_MODE says; no text and the empty text are no mode.
pub data PaddrMode : Type 0 where
  by_region by_linear by_device by_driver by_kernel by_llc by_physical by_pagemap : PaddrMode
  by_virtual by_other : PaddrMode

-- `strtoull`: the number and the rest of the text, `none` where it sets `errno` or takes no digit.
abbrev pub Strtoull : Type 0
Strtoull = List ℕ → Option (ℕ × List ℕ)

-- The number that a variable's text starts with, else the fallback.
unfoldable pub number_or : Strtoull → ℕ → Option (List ℕ) → ℕ
number_or strtoull fallback none = fallback
number_or strtoull fallback (some []) = fallback
number_or strtoull fallback (some (c ∷ cs)) = elim (strtoull (c ∷ cs)) [
  | none ↦ fallback
  | some (n, rest) ↦ n
]

unfoldable pub parity64 : ℕ → ℕ
parity64 value =
    let a = bit_xor value (value / 2 ^ 32) in
    let b = bit_xor a (a / 2 ^ 16) in
    let c = bit_xor b (b / 2 ^ 8) in let d = bit_xor c (c / 2 ^ 4) % 16 in 0x6996 / 2 ^ d % 2

unfoldable pub skip_separators : List ℕ → List ℕ
skip_separators [] = []
skip_separators (c ∷ cs) =
    let rest = skip_separators cs in if c == 44 || c == 32 || c == 9 then rest else c ∷ cs

abbrev next_mask : Strtoull → List ℕ → Option (ℕ × List ℕ)
next_mask strtoull [] = none
next_mask strtoull (c ∷ cs) = strtoull (c ∷ cs)

-- The loop over the masks, on fuel: each round takes at least a character.
unfoldable pub mask_list : Strtoull → ℕ → List ℕ → List ℕ
unfolding skip_separators
mask_list strtoull zero text = []
mask_list strtoull (suc fuel) text = elim (next_mask strtoull (skip_separators text)) [
  | none ↦ []
  | some (mask, rest) ↦ mask ∷ mask_list strtoull fuel rest
]

unfoldable pub parse_mask_list : Strtoull → Option (List ℕ) → List ℕ
unfolding mask_list
parse_mask_list strtoull none = []
parse_mask_list strtoull (some text) = mask_list strtoull (length text) text

-- A page of `page_size` bytes, not positive for an error of `sysconf`, and the entry that was read
-- from the page map, `none` where it cannot be read.
unfoldable pub physical_of_entry : ℕ → ℕ → Option ℕ → ℕ
physical_of_entry virt page_size none = 0
physical_of_entry virt page_size (some entry) =
    let pfn = entry % 2 ^ 55 in
    if entry / 2 ^ 63 % 2 == 0
    then 0
    else if pfn == 0
    then 0
    else (pfn * page_size + virt % page_size) % 2 ^ 64

unfoldable pub pagemap_physical_addr : ℕ → ℕ → Option ℕ → ℕ
unfolding physical_of_entry
pagemap_physical_addr ptr page_size entry =
    if ptr == 0 then 0 else if page_size == 0 then 0 else physical_of_entry ptr page_size entry

abbrev pub or_address : ℕ → ℕ → ℕ
or_address phys virt = if not (phys == 0) then phys else virt

-- What the environment and the operating system answer for one translation.
pub record TokenWorld : Type 0 where
  pub strtoull : Strtoull
  pub getenv : TokenVar → Option (List ℕ)
  pub slice_masks : Option (List ℕ)
  pub source_virtual : Bool
  pub page_size : ℕ
  pub page_entry : Option ℕ
  pub mode : Option PaddrMode
  pub driver_answer : Option (ℕ × ℕ)

unfoldable pub address_basis : TokenWorld → ℕ → ℕ
unfolding pagemap_physical_addr
address_basis w ptr =
    if w.source_virtual
    then ptr
    else or_address (pagemap_physical_addr ptr w.page_size w.page_entry) ptr

-- `for (bit = 0; ...) slice |= parity << bit`: no two rounds set the same bit.
unfoldable pub masked_slice : ℕ → ℕ → List ℕ → ℕ
unfolding parity64
masked_slice basis bit [] = 0
masked_slice basis bit (mask ∷ masks) =
    (parity64 (bit_and basis mask) * 2 ^ bit + masked_slice basis (bit + 1) masks) % 2 ^ 64

unfoldable pub slice_of : ℕ → ℕ → ℕ → List ℕ → ℕ
unfolding masked_slice
slice_of basis line num_slices [] = if ltb 1 num_slices then basis / 2 ^ line % num_slices else 0
slice_of basis line num_slices (mask ∷ masks) = masked_slice basis 0 (mask ∷ masks) % num_slices

-- The tag, the set and the offset fill bits that do not overlap; the slice is put over them, which
-- changes nothing where it is 0. The source shifts by `line + set`, which is defined below 64.
unfoldable pub encode_token : ℕ → ℕ → ℕ → ℕ → ℕ → ℕ
encode_token basis line set shift slice =
    let offset = basis % 2 ^ line in
    let index = basis / 2 ^ line % 2 ^ set in
    let tag = basis / 2 ^ (line + set) in
    let encoded = (tag * 2 ^ (set + line) + index * 2 ^ line + offset) % 2 ^ 64 in
    if slice == 0 then encoded else bit_or encoded (slice * 2 ^ shift % 2 ^ 64)

abbrev below_or : ℕ → ℕ → ℕ → ℕ
below_or limit fallback n = if leb limit n then fallback else n

unfoldable pub reverse_engineered_llc_addr : TokenWorld → ℕ → ℕ
unfolding address_basis number_or parse_mask_list slice_of encode_token
reverse_engineered_llc_addr w ptr =
    let basis = address_basis w ptr in
    let line = below_or 63 6 (number_or w.strtoull 6 (w.getenv line_bits)) in
    let set = below_or 32 11 (number_or w.strtoull 11 (w.getenv set_bits)) in
    let shift = below_or 63 56 (number_or w.strtoull 56 (w.getenv slice_shift)) in
    let given = number_or w.strtoull 1 (w.getenv slices) in
    let num_slices = if given == 0 then 1 else given in
    let masks = parse_mask_list w.strtoull w.slice_masks in
    encode_token basis line set shift (slice_of basis line num_slices masks)

-- `kernel_cxl_translate_addr`: the device address and the host's physical address that the driver
-- answers, `none` where it cannot be asked or fails.
unfoldable pub kernel_cxl_translate_addr : Option (ℕ × ℕ) → Option ℕ
kernel_cxl_translate_addr none = none
kernel_cxl_translate_addr (some (device_addr, host_phys_addr)) =
    if not (device_addr == 0)
    then some device_addr
    else if not (host_phys_addr == 0)
    then some host_phys_addr
    else none

unfoldable pub uses_regions : Option PaddrMode → Bool
uses_regions none = true
uses_regions (some by_region) = true
uses_regions (some by_linear) = true
uses_regions (some by_device) = true
uses_regions (some by_driver) = true
uses_regions (some by_kernel) = true
uses_regions (some by_llc) = false
uses_regions (some by_physical) = false
uses_regions (some by_pagemap) = false
uses_regions (some by_virtual) = false
uses_regions (some by_other) = false

unfoldable pub uses_driver : Option PaddrMode → Bool
uses_driver none = true
uses_driver (some by_driver) = true
uses_driver (some by_kernel) = true
uses_driver (some by_region) = false
uses_driver (some by_linear) = false
uses_driver (some by_device) = false
uses_driver (some by_llc) = false
uses_driver (some by_physical) = false
uses_driver (some by_pagemap) = false
uses_driver (some by_virtual) = false
uses_driver (some by_other) = false
