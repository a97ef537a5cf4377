-- ===== src/TwoPass/Regions.antt =====
-- runtime/vortex_verilator_sim.cpp, the registration of regions.
use cxlmem_uring.Base.{
  ℕ, zero, suc, ◌*◌, ◌%◌, ◌^◌, ◌≤◌, ◌<◌, ◌≡◌, ◌⊎◌, inl, inr, refl, Bool, Option, some, List, [],
  ◌∷◌, ◌++◌, length, length-append, leb, if-cases, get_elem?, arith,
}
use cxlmem_uring.Sim.{minus_one}
use cxlmem_uring.TwoPass.{Context, RegionState, fresh_region, register_region}

get_elem?-append_last :
    (xs : List RegionState) (x : RegionState) → get_elem? (xs ++ (x ∷ [])) (length xs) ≡ some x
get_elem?-append_last [] x = refl
get_elem?-append_last (y ∷ xs) x = get_elem?-append_last xs x

get_elem?-append_before :
    (xs : List RegionState) (x : RegionState) (i : ℕ)
    → i < length xs
    → get_elem? (xs ++ (x ∷ [])) i ≡ get_elem? xs i
get_elem?-append_before [] x i h = absurd (omega arith)
get_elem?-append_before (y ∷ xs) x zero h = refl
get_elem?-append_before (y ∷ xs) x (suc i) h = get_elem?-append_before xs x i (omega arith)

-- A new region under a number of its own, in the storage and beside the old regions; or nothing.
abbrev pub Registered : Context → Option (List ℕ) → ℕ × Context → Type 0
Registered ctx name (id, ctx') =
    ((id ≡ minus_one) × (ctx' ≡ ctx))
    ⊎ ((id ≡ length ctx.regions)
        × (get_elem? ctx'.regions id ≡ some (fresh_region id name))
        × ((i : ℕ) → i < length ctx.regions → get_elem? ctx'.regions i ≡ get_elem? ctx.regions i)
        × (length ctx'.regions ≡ suc id)
        × (id < ctx'.regions_capacity))

added-Registered :
    (ctx : Context) (name : Option (List ℕ)) (capacity : ℕ)
    → length ctx.regions < capacity
    → Registered ctx name (
      length ctx.regions,
      record ctx {
        regions = ctx.regions ++ (fresh_region (length ctx.regions) name ∷ []);
        regions_capacity = capacity;
      },
    )
added-Registered ctx name capacity h =
    let fresh = fresh_region (length ctx.regions) name in
    inr (
      refl,
      get_elem?-append_last ctx.regions fresh,
      λ i b. get_elem?-append_before ctx.regions fresh i b,
      omega (arith, length-append ctx.regions (fresh ∷ [])),
      h,
    )

-- For a storage that has place for the regions there are, at least one and fewer than 2 ^ 31, and
-- any answer to its growth: registering a region changes nothing and answers -1; or it answers the
-- number of regions before, under which the new region stands inside the storage, and the others
-- stand where they stood.
pub register_region-Registered :
    (ctx : Context) (name : Option (List ℕ)) (granted : Bool)
    → length ctx.regions ≤ ctx.regions_capacity
    → 0 < ctx.regions_capacity
    → ctx.regions_capacity < 2 ^ 31
    → Registered ctx name (register_region ctx name granted)
unfolding register_region
register_region-Registered ctx name granted l p b =
    if-cases (Registered ctx name) (leb ctx.regions_capacity (length ctx.regions)) _ _
      (λ e.
        if-cases (Registered ctx name) granted _ _
          (λ _. added-Registered ctx name (ctx.regions_capacity * 2 % 2 ^ 32) (omega arith))
          (λ _. inl (refl, refl)))
      (λ e. added-Registered ctx name ctx.regions_capacity (ground arith))
