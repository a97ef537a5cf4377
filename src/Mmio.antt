-- ===== src/Mmio.antt =====
-- runtime/cira_mmio.cpp: the control window as the host holds it, and access to its registers.
-- A null pointer is `none`, or the address 0. Fences order nothing here: stores take effect one
-- after another, in program order.
pub mod Copy
pub mod Registers
pub mod Completion
pub mod Submit
pub mod WaitSeq
pub mod Open
use cxlmem_uring.Base.{
  ◌≡◌, ◌≢◌, ◌⊎◌, inl, inr, refl, ℕ, ◌+◌, ◌-◌, ◌%◌, ◌^◌, Bool, true, false, not, ◌&&◌, Option, none,
  some, List, [], ◌==◌, leb, if◌then◌else◌, length, take,
}
use cxlmem_uring.Memory.{Memory, load, store}
use Copy.{store_bytes, load_bytes}

-- `CIRA_MMIO_OK` and the error codes of cira_mmio.h.
pub data Rc : Type 0 where
  ok einval enodev eio etimedout erange : Rc

pub Rc-cases : (rc : Rc) → (rc ≡ ok) ⊎ (rc ≢ ok)
Rc-cases ok = inl refl
Rc-cases einval = inr (λ e. cc)
Rc-cases enodev = inr (λ e. cc)
Rc-cases eio = inr (λ e. cc)
Rc-cases etimedout = inr (λ e. cc)
Rc-cases erange = inr (λ e. cc)

-- `struct cira_mmio_window`; `fd` is `none` for -1.
pub record Window : Type 0 where
  pub base : ℕ
  pub size : ℕ
  pub fd : Option ℕ
  pub owns_mapping : Bool
  pub emulated : Bool
  pub read_only : Bool
  pub next_seq : ℕ

abbrev pub is_null : ℕ → Bool
is_null p = p == 0

-- The bounds test is by a subtraction that cannot wrap, since `len <= size` was tested first.
unfoldable pub in_range : Option Window → ℕ → ℕ → Bool
in_range none offset len = false
in_range (some w) offset len = not (is_null w.base) && (leb len w.size && leb offset (w.size - len))

abbrev pub is_read_only : Option Window → Bool
is_read_only none = false
is_read_only (some w) = w.read_only

-- `w->base + offset`, evaluated only after `in_range` has ruled out a null window.
abbrev pub address : Option Window → ℕ → ℕ
address none offset = 0
address (some w) offset = w.base + offset

unfoldable pub read32 : Option Window → ℕ → Memory → ℕ
read32 w offset m = if in_range w offset 4 then load 4 (address w offset) m else 0

unfoldable pub read64 : Option Window → ℕ → Memory → ℕ
read64 w offset m = if in_range w offset 8 then load 8 (address w offset) m else 0

unfoldable pub write32 : Option Window → ℕ → ℕ → Memory → Rc × Memory
write32 w offset value m =
    if is_read_only w
    then (einval, m)
    else if not (in_range w offset 4)
    then (erange, m)
    else (ok, store 4 (address w offset) value m)

unfoldable pub write64 : Option Window → ℕ → ℕ → Memory → Rc × Memory
write64 w offset value m =
    if is_read_only w
    then (einval, m)
    else if not (in_range w offset 8)
    then (erange, m)
    else (ok, store 8 (address w offset) value m)

-- A caller's buffer is `none` for a null pointer, else the bytes that it points at, at least `len`
-- of them.
abbrev pub missing : Option (List ℕ) → Bool
missing none = true
missing (some bs) = false

abbrev pub contents : Option (List ℕ) → ℕ → List ℕ
contents none len = []
contents (some bs) len = take len bs

unfoldable pub write_block : Option Window → ℕ → Option (List ℕ) → ℕ → Memory → Rc × Memory
write_block w offset src len m =
    if is_read_only w
    then (einval, m)
    else if missing src && not (len == 0)
    then (einval, m)
    else if not (in_range w offset len)
    then (erange, m)
    else (ok, store_bytes (address w offset) (contents src len) m)

-- What is copied to `dst`; the first argument after `offset` says whether `dst` is null.
unfoldable pub read_block : Option Window → ℕ → Bool → ℕ → Memory → Rc × List ℕ
read_block w offset dst_null len m =
    if dst_null && not (len == 0)
    then (einval, [])
    else if not (in_range w offset len)
    then (erange, [])
    else (ok, load_bytes (address w offset) len m)

unfoldable pub base_of : Option Window → ℕ
base_of none = 0
base_of (some w) = w.base

unfoldable pub size_of : Option Window → ℕ
size_of none = 0
size_of (some w) = w.size

unfoldable pub is_emulated : Option Window → Bool
is_emulated none = false
is_emulated (some w) = w.emulated
