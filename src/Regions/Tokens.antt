-- ===== src/Regions/Tokens.antt =====
-- runtime/src/CiraRuntime.cpp, `translate_runtime_paddr` and the identity of the cache layout.
use native.Mathlib.Nat.{
  div-add-mod, div-div-eq-div-mul, mod-eq_of_lt, mul-add, mul_comm, mul_assoc, pow-suc,
}
use mathlib.Core.Path.{ap₂}
use cxlmem_uring.Regions.Lookup.{Alone, register_then_translate}
use cxlmem_uring.Base.{
  ◌||◌, ◌-◌, true, if_false, if_false, true, zero, suc, ℕ, ◌+◌, ◌*◌, ◌/◌, ◌%◌, ◌^◌, ◌≤◌, ◌<◌, ◌≡◌,
  ◌≢◌, sym, ap, ◌∙◌, Bool, Option, none, some, List, ◌==◌, if◌then◌else◌, arith,
}
use cxlmem_uring.Regions.{register_linear_region, translate_registered_region, Region, find_region}
use cxlmem_uring.Regions.Translate.{
  or_address, by_region, by_linear, by_device, by_driver, by_kernel, by_llc, by_other, PaddrMode,
  TokenWorld, by_physical, by_pagemap, by_virtual, encode_token, reverse_engineered_llc_addr,
  kernel_cxl_translate_addr, uses_regions, uses_driver, pagemap_physical_addr,
}

abbrev first_some : Option ℕ → ℕ → ℕ
first_some none n = n
first_some (some v) n = v

abbrev when : Bool → Option ℕ → Option ℕ
when b o = if b then o else none

-- The last part, for the modes that name their source; every other ends at the cache's layout.
unfoldable pub token_by_mode : TokenWorld → ℕ → Option PaddrMode → ℕ
token_by_mode w ptr none = reverse_engineered_llc_addr w ptr
token_by_mode w ptr (some by_physical) =
    or_address (pagemap_physical_addr ptr w.page_size w.page_entry) ptr
token_by_mode w ptr (some by_pagemap) =
    or_address (pagemap_physical_addr ptr w.page_size w.page_entry) ptr
token_by_mode w ptr (some by_virtual) = ptr
token_by_mode w ptr (some by_region) = reverse_engineered_llc_addr w ptr
token_by_mode w ptr (some by_linear) = reverse_engineered_llc_addr w ptr
token_by_mode w ptr (some by_device) = reverse_engineered_llc_addr w ptr
token_by_mode w ptr (some by_driver) = reverse_engineered_llc_addr w ptr
token_by_mode w ptr (some by_kernel) = reverse_engineered_llc_addr w ptr
token_by_mode w ptr (some by_llc) = reverse_engineered_llc_addr w ptr
token_by_mode w ptr (some by_other) = reverse_engineered_llc_addr w ptr

-- The region table first, then the driver, then the mode's own source. The modes that name the
-- table, and those that name the driver, end at the cache's layout.
unfoldable pub translate_runtime_paddr : TokenWorld → ℕ → List Region → ℕ
unfolding token_by_mode
translate_runtime_paddr w ptr table =
    let by_table = when (uses_regions w.mode) (find_region ptr table) in
    let by_driver_answer = when (uses_driver w.mode) (kernel_cxl_translate_addr w.driver_answer) in
    if ptr == 0
    then 0
    else first_some by_table (first_some by_driver_answer (token_by_mode w ptr w.mode))

two_pow_add : (a b : ℕ) → 2 ^ (a + b) ≡ 2 ^ a * 2 ^ b
two_pow_add a zero =
    let e : a + 0 ≡ a = omega arith in
    let f : 2 ^ a ≡ 2 ^ a * 1 = omega arith in ap (λ n. 2 ^ n) e ∙ f
two_pow_add a (suc b) =
    let e : a + suc b ≡ suc (a + b) = omega arith in
    ap (λ n. 2 ^ n) e
    ∙ pow-suc 2 (a + b)
    ∙ ap (λ n. n * 2) (two_pow_add a b)
    ∙ mul_assoc (2 ^ a) (2 ^ b) 2
    ∙ ap (λ n. 2 ^ a * n) (sym (pow-suc 2 b))

-- For a 64-bit address, field widths whose sum is below 64, any shift of the slice: with slice 0 the
-- three fields put together are the address again.
pub encode_token_identity :
    (basis line set shift : ℕ)
    → basis < 2 ^ 64
    → line + set < 64
    → encode_token basis line set shift 0 ≡ basis
unfolding encode_token
encode_token_identity basis line set shift h g =
    mod-eq_of_lt {n = whole} {m = 2 ^ 64} (omega (arith, sum, h)) ∙ sum
  where
    tag : ℕ
    tag = basis / 2 ^ (line + set)

    index : ℕ
    index = basis / 2 ^ line % 2 ^ set

    whole : ℕ
    whole = tag * 2 ^ (set + line) + index * 2 ^ line + basis % 2 ^ line

    low : 2 ^ line * (basis / 2 ^ line) + basis % 2 ^ line ≡ basis
    low = div-add-mod basis (2 ^ line)

    high : 2 ^ set * tag + index ≡ basis / 2 ^ line
    high =
        ap (λ n. 2 ^ set * n + index)
          (ap (λ n. basis / n) (two_pow_add line set)
            ∙ sym (div-div-eq-div-mul basis (2 ^ line) (2 ^ set)))
        ∙ div-add-mod (basis / 2 ^ line) (2 ^ set)

    upper : 2 ^ line * (2 ^ set * tag + index) ≡ tag * 2 ^ (set + line) + index * 2 ^ line
    upper =
        mul-add (2 ^ line) (2 ^ set * tag) index
        ∙ ap₂ ◌+◌
            (sym (mul_assoc (2 ^ line) (2 ^ set) tag)
              ∙ mul_comm (2 ^ line * 2 ^ set) tag
              ∙ ap (λ n. tag * n) (mul_comm (2 ^ line) (2 ^ set) ∙ sym (two_pow_add set line)))
            (mul_comm (2 ^ line) index)

    sum : whole ≡ basis
    sum = omega (arith, low, upper, ap (λ n. 2 ^ line * n) high)

table_find :
    (ptr : ℕ) (table : List Region)
    → ptr ≢ 0
    → translate_registered_region ptr 1 table ≡ find_region ptr table
unfolding translate_registered_region
table_find ptr table h = if_false (ptr == 0 || 1 == 0) none (find_region ptr table) (ground arith)

-- For a mode that uses the table, or none, and a region of a base that is not null, any table, and
-- an address in the region that no region of another base holds: once the region is registered, the
-- token of the address is the device base plus the offset, on 64 bits, whatever the driver, the page
-- map and the environment answer.
pub registered_token :
    (w : TokenWorld) (virtual_base size device_base flags addr : ℕ) (table : List Region)
    → uses_regions w.mode ≡ true
    → virtual_base ≢ 0
    → virtual_base ≤ addr
    → addr < virtual_base + size
    → Alone virtual_base addr table
    → translate_runtime_paddr w addr
        (register_linear_region virtual_base size device_base flags table).1
      ≡ (device_base + (addr - virtual_base)) % 2 ^ 64
unfolding translate_runtime_paddr
registered_token w virtual_base size device_base flags addr table mode hb lo hi alone =
    if_false (addr == 0) 0 _ (ground arith)
    ∙ ap (λ o. first_some (when (uses_regions w.mode) o) later) found
    ∙ ap (λ b. first_some (when b (some token)) later) mode
  where
    token : ℕ
    token = (device_base + (addr - virtual_base)) % 2 ^ 64

    table' : List Region
    table' = (register_linear_region virtual_base size device_base flags table).1

    later : ℕ
    later =
        first_some (when (uses_driver w.mode) (kernel_cxl_translate_addr w.driver_answer))
          (token_by_mode w addr w.mode)

    found : find_region addr table' ≡ some token
    found =
        sym (table_find addr table' (omega arith))
        ∙ (register_then_translate virtual_base size device_base flags addr 1 table hb lo hi
            (omega arith) alone).1
