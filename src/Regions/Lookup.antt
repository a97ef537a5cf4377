-- ===== src/Regions/Lookup.antt =====
-- runtime/src/CiraRuntime.cpp, the region table: its bases stay distinct, and what is looked up.
use cxlmem_uring.Base.{
  ℕ, ◌+◌, ◌-◌, ◌%◌, ◌^◌, ◌≤◌, ◌<◌, ◌≡◌, ◌≢◌, inl, inr, refl, sym, ap, ◌∙◌, true, false, not, ◌||◌,
  some, ◌==◌, arith, Bool-cases, List, [], ◌∷◌, All,
}
use cxlmem_uring.Regions.{
  Region, done, upsert, register_linear_region, has_base, without_base, unregister_linear_region,
  in_region, find_region, translate_registered_region,
}

-- No two entries have the same base, and none is null or empty.
unfoldable pub Distinct : List Region → Type 0
Distinct [] = Unit
Distinct (region ∷ rest) =
    (has_base region.virtual_base rest ≡ false)
    × (region.virtual_base ≢ 0)
    × (region.size ≢ 0)
    × Distinct rest

has_base-upsert :
    (base : ℕ) (region : Region) (table : List Region)
    → region.virtual_base ≢ base
    → has_base base (upsert region table) ≡ has_base base table
unfolding has_base upsert
has_base-upsert base region [] h = ground arith
has_base-upsert base region (existing ∷ rest) h =
    elim (Bool-cases (existing.virtual_base == region.virtual_base)) [
      | inl same ↦ rw same (ground arith)
      | inr other ↦ rw (other, has_base-upsert base region rest h) refl
    ]

upsert-Distinct :
    (region : Region) (table : List Region)
    → region.virtual_base ≢ 0
    → region.size ≢ 0
    → Distinct table
    → Distinct (upsert region table)
unfolding Distinct upsert has_base
upsert-Distinct region [] hb hs d = (refl, hb, hs, tt)
upsert-Distinct region (existing ∷ rest) hb hs d =
    elim (Bool-cases (existing.virtual_base == region.virtual_base)) [
      | inl same ↦
          let e : existing.virtual_base ≡ region.virtual_base = ground arith in
          rw same (ap (λ b. has_base b rest) (sym e) ∙ d.0, hb, hs, d.3)
      | inr other ↦ rw other (
        has_base-upsert existing.virtual_base region rest (ground arith) ∙ d.0,
        d.1,
        d.2,
        upsert-Distinct region rest hb hs d.3,
      )
    ]

has_base-without_base :
    (base other : ℕ) (table : List Region)
    → has_base other table ≡ false
    → has_base other (without_base base table) ≡ false
unfolding has_base without_base
has_base-without_base base other [] h = refl
has_base-without_base base other (region ∷ rest) h =
    elim (Bool-cases (region.virtual_base == other)) [
      | inl same ↦ cc (rw same at h)
      | inr apart ↦ elim (Bool-cases (region.virtual_base == base)) [
        | inl gone ↦ rw gone (has_base-without_base base other rest (rw apart at h))
        | inr kept ↦ rw kept (rw apart (has_base-without_base base other rest (rw apart at h)))
      ]
    ]

without_base-Distinct :
    (base : ℕ) (table : List Region) → Distinct table → Distinct (without_base base table)
unfolding Distinct without_base
without_base-Distinct base [] d = tt
without_base-Distinct base (region ∷ rest) d = elim (Bool-cases (region.virtual_base == base)) [
  | inl gone ↦ rw gone (without_base-Distinct base rest d.3)
  | inr kept ↦ rw kept (
    has_base-without_base base region.virtual_base rest d.0,
    d.1,
    d.2,
    without_base-Distinct base rest d.3,
  )
]

without_base-gone :
    (base : ℕ) (table : List Region) → has_base base (without_base base table) ≡ false
unfolding has_base without_base
without_base-gone base [] = refl
without_base-gone base (region ∷ rest) = elim (Bool-cases (region.virtual_base == base)) [
  | inl gone ↦ rw gone (without_base-gone base rest)
  | inr kept ↦ rw kept (rw kept (without_base-gone base rest))
]

-- For a table of distinct, non-empty regions: registering any region and unregistering any base
-- leave such a table, and a base that was unregistered with success is no longer in it.
pub region_table-Distinct :
    (virtual_base size device_base flags : ℕ) (table : List Region)
    → Distinct table
    → Distinct (register_linear_region virtual_base size device_base flags table).1
      × Distinct (unregister_linear_region virtual_base table).1
      × ((unregister_linear_region virtual_base table).0 ≡ done
          → has_base virtual_base (unregister_linear_region virtual_base table).1 ≡ false)
unfolding register_linear_region unregister_linear_region
region_table-Distinct virtual_base size device_base flags table d = (registered, unregistered, gone)
  where
    registered : Distinct (register_linear_region virtual_base size device_base flags table).1
    registered = elim (Bool-cases (virtual_base == 0 || size == 0)) [
      | inl bad ↦ rw bad d
      | inr good ↦ rw good (upsert-Distinct _ table (ground arith) (ground arith) d)
    ]

    unregistered : Distinct (unregister_linear_region virtual_base table).1
    unregistered = elim (Bool-cases (virtual_base == 0)) [
      | inl null ↦ rw null d
      | inr given ↦ elim (Bool-cases (not (has_base virtual_base table))) [
        | inl absent ↦ rw (given, absent) d
        | inr there ↦ rw (given, there) (without_base-Distinct virtual_base table d)
      ]
    ]

    gone :
        (unregister_linear_region virtual_base table).0 ≡ done
        → has_base virtual_base (unregister_linear_region virtual_base table).1 ≡ false
    gone h = elim (Bool-cases (virtual_base == 0)) [
      | inl null ↦ cc (rw null at h)
      | inr given ↦ elim (Bool-cases (not (has_base virtual_base table))) [
        | inl absent ↦ cc (rw (given, absent) at h)
        | inr there ↦ rw (given, there) (without_base-gone virtual_base table)
      ]
    ]

in_region_in :
    (region : Region) (addr : ℕ)
    → region.virtual_base ≤ addr
    → addr < region.virtual_base + region.size
    → in_region addr region ≡ true
unfolding in_region
in_region_in region addr lo hi = ground arith

-- No region under another base holds the address.
abbrev pub Alone : ℕ → ℕ → List Region → Type 0
Alone base addr table = All (λ r. r.virtual_base ≢ base → in_region addr r ≡ false) table

find_region-upsert :
    (region : Region) (addr : ℕ) (table : List Region)
    → Alone region.virtual_base addr table
    → in_region addr region ≡ true
    → find_region addr (upsert region table)
      ≡ some ((region.device_base + (addr - region.virtual_base)) % 2 ^ 64)
unfolding find_region upsert
find_region-upsert region addr [] a h = rw h refl
find_region-upsert region addr (existing ∷ rest) a h =
    elim (Bool-cases (existing.virtual_base == region.virtual_base)) [
      | inl same ↦ rw same (rw h refl)
      | inr other ↦ rw other (rw (a.0 (ground arith)) (find_region-upsert region addr rest a.1 h))
    ]

-- For a region of a base that is not null and a size that is not 0, any table, and an address in the
-- region that no region of another base holds: the registration succeeds, and a translation of the
-- address into a given place afterwards answers the device base plus the offset, on 64 bits.
pub register_then_translate :
    (virtual_base size device_base flags addr translated : ℕ) (table : List Region)
    → virtual_base ≢ 0
    → virtual_base ≤ addr
    → addr < virtual_base + size
    → translated ≢ 0
    → Alone virtual_base addr table
    → let (rc, table') = register_linear_region virtual_base size device_base flags table in
      (rc ≡ done)
      × (translate_registered_region addr translated table'
          ≡ some ((device_base + (addr - virtual_base)) % 2 ^ 64))
unfolding register_linear_region translate_registered_region
register_then_translate virtual_base size device_base flags addr translated table hb lo hi ht
      alone =
    rw (good, given) (refl, find_region-upsert region addr table alone inside)
  where
    good : (virtual_base == 0 || size == 0) ≡ false
    good = ground arith

    given : (addr == 0 || translated == 0) ≡ false
    given = ground arith

    region : Region
    region = record {
      virtual_base = virtual_base;
      size = size;
      device_base = device_base;
      flags = flags;
    }

    inside : in_region addr region ≡ true
    inside = in_region_in region addr lo hi
