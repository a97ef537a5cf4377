-- ===== src/Profile/Scan.antt =====
-- runtime/vortex_verilator_sim.cpp,
-- `parse_json_int`, `parse_json_bool` and `twopass_load_profile`. `strstr`, `strchr` and `strtoll`
-- are those of the C library.
use cxlmem_uring.Base.{
  ℕ, zero, suc, ◌+◌, ◌-◌, ◌*◌, ◌%◌, ◌^◌, Bool, true, false, ◌&&◌, ◌||◌, Option, none, some, List,
  [], ◌∷◌, ◌++◌, ltb, leb, ◌==◌, if◌then◌else◌, min,
}
use cxlmem_uring.Profile.{Text, codes, RegionProfile}

unfoldable pub starts_with : Text → Text → Bool
starts_with [] text = true
starts_with (c ∷ word) [] = false
starts_with (c ∷ word) (d ∷ text) = c == d && starts_with word text

-- The text from the first place on where `word` stands.
unfoldable pub strstr : Text → Text → Option Text
unfolding starts_with
strstr word [] = none
strstr word (c ∷ text) =
    let later = strstr word text in if starts_with word (c ∷ text) then some (c ∷ text) else later

unfoldable pub strchr : ℕ → Text → Option Text
strchr c [] = none
strchr c (d ∷ text) = let later = strchr c text in if c == d then some (d ∷ text) else later

unfoldable pub is_space : ℕ → Bool
is_space c = c == 32 || (leb 9 c && leb c 13)

unfoldable pub skip_space : Text → Text
unfolding is_space
skip_space [] = []
skip_space (c ∷ text) = let rest = skip_space text in if is_space c then rest else c ∷ text

abbrev pub is_digit : ℕ → Bool
is_digit c = leb 48 c && leb c 57

-- The number of the leading digits, behind `acc`.
unfoldable pub number : ℕ → Text → ℕ
number acc [] = acc
number acc (c ∷ text) =
    let more = number (acc * 10 + (c - 48)) text in if is_digit c then more else acc

-- `strtoll` to base 10, as 64 bits, clamped to what they hold.
unfoldable pub strtoll_after : Text → ℕ
unfolding number
strtoll_after [] = 0
strtoll_after (c ∷ text) =
    let negative = (2 ^ 64 - min (number 0 text) (2 ^ 63)) % 2 ^ 64 in
    let positive = min (number 0 text) (2 ^ 63 - 1) in
    let plain = min (number 0 (c ∷ text)) (2 ^ 63 - 1) in
    if c == b'-' then negative else if c == b'+' then positive else plain

unfoldable pub strtoll : Text → ℕ
unfolding skip_space strtoll_after
strtoll text = strtoll_after (skip_space text)

-- The text behind the colon after `key`; `none` where one of the two is missing.
unfoldable pub after_colon : Option Text → Option Text
after_colon none = none
after_colon (some []) = none
after_colon (some (c ∷ text)) = some text

unfoldable pub colon_in : Option Text → Option Text
unfolding strchr
colon_in none = none
colon_in (some text) = strchr b':' text

unfoldable pub value_of : Text → Text → Option Text
unfolding strstr colon_in after_colon
value_of text key = after_colon (colon_in (strstr key text))

unfoldable pub int_of : Option Text → ℕ
unfolding strtoll skip_space
int_of none = 0
int_of (some text) = strtoll (skip_space text)

unfoldable pub bool_of : Option Text → Bool
unfolding skip_space starts_with
bool_of none = false
bool_of (some text) = starts_with (codes "true") (skip_space text)

unfoldable pub parse_json_int : Text → Text → ℕ
unfolding value_of int_of
parse_json_int text key = int_of (value_of text key)

unfoldable pub parse_json_bool : Text → Text → Bool
unfolding value_of bool_of
parse_json_bool text key = bool_of (value_of text key)

abbrev pub quote : Text → Text
quote word = b'"' ∷ (word ++ (b'"' ∷ []))

-- What one round of the loop reads. The fields that it does not read are 0 by `memset`, so that the
-- name is null and the split 0.0.
unfoldable pub read_region : Text → RegionProfile
unfolding parse_json_int parse_json_bool
read_region pos = record {
  region_id = parse_json_int pos (quote (codes "region_id")) % 2 ^ 32;
  region_name = none;
  host_independent_work_ns = parse_json_int pos (quote (codes "host_independent_work_ns"));
  total_cycles = parse_json_int pos (quote (codes "total_cycles"));
  total_time_ns = parse_json_int pos (quote (codes "total_time_ns"));
  compute_cycles = 0;
  memory_stall_cycles = 0;
  cache_hits = 0;
  cache_misses = 0;
  injection_delay_ns = parse_json_int pos (quote (codes "injection_delay_ns"));
  latency_hidden = parse_json_bool pos (quote (codes "latency_hidden"));
  optimal_prefetch_depth = parse_json_int pos (quote (codes "optimal_prefetch_depth")) % 2 ^ 32;
  optimal_batch_size = parse_json_int pos (quote (codes "batch_size")) % 2 ^ 32;
  optimal_traversal_depth = parse_json_int pos (quote (codes "traversal_depth")) % 2 ^ 32;
  optimal_pipeline_distance = parse_json_int pos (quote (codes "pipeline_distance")) % 2 ^ 32;
  split_text = [];
  should_offload = parse_json_bool pos (quote (codes "should_offload"));
  jit_reason_bits = parse_json_int pos (quote (codes "reason_bits")) % 2 ^ 32;
}

-- The storage of the regions: how many it has place for, and how many times it can still grow.
abbrev pub grown : ℕ → ℕ → Bool → ℕ
grown capacity idx granted = if leb capacity idx && granted then capacity * 2 else capacity

abbrev pub tail : Text → Text
tail [] = []
tail (c ∷ text) = text

abbrev pub with_region : RegionProfile → Option (List RegionProfile) → Option (List RegionProfile)
with_region r none = none
with_region r (some rs) = some (r ∷ rs)

-- The loop over the regions, on fuel; `granted` is whether `realloc` gives what it is asked for in
-- the round. The answer is `none` where a region is written past the storage, or without fuel.
unfoldable pub read_regions : ℕ → (ℕ → Bool) → ℕ → ℕ → ℕ → Option Text → Option (List RegionProfile)
unfolding read_region strstr
read_regions zero granted num capacity idx pos = none
read_regions (suc fuel) granted num capacity idx none = some []
read_regions (suc fuel) granted num capacity idx (some pos) =
    let room = grown capacity idx (granted idx) in
    let more =
      read_regions fuel granted num room (idx + 1)
        (strstr (quote (codes "region_id")) (tail pos)) in
    let kept = with_region (read_region pos) more in
    if ltb idx num then if ltb idx room then kept else none else some []

-- What `twopass_load_profile` sets. The frequency is read as a whole number.
pub record Loaded : Type 0 where
  pub num_regions : ℕ
  pub clock_freq : ℕ
  pub cxl_latency_ns : ℕ
  pub regions : Option (List RegionProfile)

unfoldable pub regions_start : ℕ → (ℕ → Bool) → ℕ → ℕ → Option Text → Option (List RegionProfile)
unfolding read_regions
regions_start fuel granted num capacity none = some []
regions_start fuel granted num capacity (some text) =
    read_regions fuel granted num capacity 0 (strstr (quote (codes "region_id")) text)

unfoldable pub load_profile : ℕ → (ℕ → Bool) → ℕ → Text → Loaded
unfolding regions_start
load_profile fuel granted capacity content =
    let num = parse_json_int content (quote (codes "num_regions")) % 2 ^ 32 in
    record {
      num_regions = num;
      clock_freq = parse_json_int content (quote (codes "clock_freq_mhz"));
      cxl_latency_ns = parse_json_int content (quote (codes "cxl_latency_ns"));
      regions = regions_start fuel granted num capacity (strstr (quote (codes "regions")) content);
    }
