-- ===== src/Regions.antt =====
-- runtime/src/CiraRuntime.cpp, the table of registered linear regions: `register_linear_region`,
-- `unregister_linear_region` and `translate_registered_region`.
pub mod Lookup
pub mod Translate
pub mod Tokens
use cxlmem_uring.Base.{
  ℕ, ◌+◌, ◌-◌, ◌%◌, ◌^◌, Bool, true, false, not, ◌||◌, Option, none, some, List, [], ◌∷◌, ◌++◌,
  ◌==◌, ltb, leb, if◌then◌else◌,
}

pub record Region : Type 0 where
  pub virtual_base : ℕ
  pub size : ℕ
  pub device_base : ℕ
  pub flags : ℕ

pub data RegionRc : Type 0 where
  done einval enoent : RegionRc

-- The loop over the table: the first entry with the same base is replaced, else the region is added.
unfoldable pub upsert : Region → List Region → List Region
upsert region [] = region ∷ []
upsert region (existing ∷ rest) =
    let tail = upsert region rest in
    if existing.virtual_base == region.virtual_base then region ∷ rest else existing ∷ tail

unfoldable pub register_linear_region : ℕ → ℕ → ℕ → ℕ → List Region → RegionRc × List Region
register_linear_region virtual_base size device_base flags table =
    if virtual_base == 0 || size == 0 then (einval, table) else (
      done,
      upsert
          (record {
            virtual_base = virtual_base;
            size = size;
            device_base = device_base;
            flags = flags;
          })
          table,
    )

unfoldable pub has_base : ℕ → List Region → Bool
has_base base [] = false
has_base base (region ∷ rest) = region.virtual_base == base || has_base base rest

-- `remove_if` and `erase`.
unfoldable pub without_base : ℕ → List Region → List Region
without_base base [] = []
without_base base (region ∷ rest) =
    let tail = without_base base rest in if region.virtual_base == base then tail else region ∷ tail

unfoldable pub unregister_linear_region : ℕ → List Region → RegionRc × List Region
unregister_linear_region virtual_base table =
    if virtual_base == 0
    then (einval, table)
    else if not (has_base virtual_base table)
    then (enoent, table)
    else (done, without_base virtual_base table)

unfoldable pub in_region : ℕ → Region → Bool
in_region addr region =
    if ltb addr region.virtual_base
    then false
    else not (leb region.size (addr - region.virtual_base))

unfoldable pub find_region : ℕ → List Region → Option ℕ
find_region addr [] = none
find_region addr (region ∷ rest) =
    let later = find_region addr rest in
    if in_region addr region
    then some ((region.device_base + (addr - region.virtual_base)) % 2 ^ 64)
    else later

-- `translated` is the caller's pointer for the answer, 0 for none.
unfoldable pub translate_registered_region : ℕ → ℕ → List Region → Option ℕ
translate_registered_region ptr translated table =
    if ptr == 0 || translated == 0 then none else find_region ptr table
