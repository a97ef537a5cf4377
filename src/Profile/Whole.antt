-- ===== src/Profile/Whole.antt =====
-- runtime/vortex_verilator_sim.cpp: a whole profile that is saved and loaded.
use cxlmem_uring.Base.{◌≡◌, refl, true, List, ◌++◌, drop}
use cxlmem_uring.Profile.{
  Text, codes, RegionProfile, region_fields, region_end, regions_text, newline,
}
use cxlmem_uring.Profile.Scan.{quote}
use cxlmem_uring.Profile.Lookup.{all_miss}
use cxlmem_uring.Profile.RoundTrip.{IsSaved}

abbrev region_key : Text
region_key = quote (codes "region_id")

-- What stands behind a region's fields.
abbrev behind : List RegionProfile → Text → Text
behind rs rest =
    codes "      }" ++ (newline ++ (codes "    }" ++ (region_end rs ++ regions_text rs rest)))

missed :
    (r : RegionProfile) → IsSaved r → all_miss (codes "region_id") (drop 1 (region_fields r)) ≡ true
unfolding all_miss region_fields
missed r saved = rw saved.no_key.1.1.1.1.1.1.1.1.1.1.1.0 refl

abbrev footer : Text
footer = codes "  ]" ++ (newline ++ (codes "}" ++ newline))
