-- ===== src/Profile.antt =====
-- runtime/vortex_verilator_sim.cpp, profile serialization: `twopass_save_profile` and
-- `twopass_load_profile`. A text is the list of its characters' codes, up to the NUL.
pub mod Scan
pub mod Numbers
pub mod Search
pub mod Pieces
pub mod Lookup
pub mod RoundTrip
pub mod Whole
use Prim.Native.Char.{code}
use Prim.Native.String.{String}
use cxlmem_uring.Base.{
  ℕ, zero, suc, ◌+◌, ◌-◌, ◌*◌, ◌/◌, ◌%◌, ◌^◌, Bool, true, false, Option, none, some, List, [], ◌∷◌,
  ◌++◌, length, ltb, if◌then◌else◌,
}

abbrev pub Text : Type 0
Text = List ℕ

abbrev pub codes : String → Text
codes String.[] = []
codes (String.◌∷◌ c s) = code c ∷ codes s

-- What `printf` writes for `%u` and `%lu`, of at most `fuel` digits.
unfoldable pub digits : ℕ → ℕ → Text
digits zero n = []
digits (suc fuel) n =
    let front = digits fuel (n / 10) in
    if ltb n 10 then (48 + n) ∷ [] else front ++ ((48 + n % 10) ∷ [])

unfoldable pub decimal : ℕ → Text
unfolding digits
decimal n = digits 20 n

-- And for `%ld`, of a number given by its 64 bits.
unfoldable pub signed_decimal : ℕ → Text
unfolding decimal
signed_decimal n = if ltb n (2 ^ 63) then decimal n else b'-' ∷ decimal (2 ^ 64 - n)

abbrev pub bool_text : Bool → Text
bool_text b = if b then codes "true" else codes "false"

-- The part of `offload_region_profile_t` that is saved. `split_text` is what `%.4f` writes for
-- `host_device_split`; no name is `none`.
pub record RegionProfile : Type 0 where
  pub region_id : ℕ
  pub region_name : Option Text
  pub host_independent_work_ns : ℕ
  pub total_cycles : ℕ
  pub total_time_ns : ℕ
  pub compute_cycles : ℕ
  pub memory_stall_cycles : ℕ
  pub cache_hits : ℕ
  pub cache_misses : ℕ
  pub injection_delay_ns : ℕ
  pub latency_hidden : Bool
  pub optimal_prefetch_depth : ℕ
  pub optimal_batch_size : ℕ
  pub optimal_traversal_depth : ℕ
  pub optimal_pipeline_distance : ℕ
  pub split_text : Text
  pub should_offload : Bool
  pub jit_reason_bits : ℕ

-- A piece of the text: as it is, or a quoted word between two others.
pub data Piece : Type 0 where
  raw : (text : Text) → Piece
  quoted : (lead word after : Text) → Piece

unfoldable pub piece_text : Piece → Text
piece_text (raw text) = text
piece_text (quoted lead word after) = lead ++ (b'"' ∷ (word ++ (b'"' ∷ after)))

unfoldable pub pieces_text : List Piece → Text
unfolding piece_text
pieces_text [] = []
pieces_text (p ∷ ps) = piece_text p ++ pieces_text ps

-- A line `"key": value`, behind its indentation and before its ending.
abbrev pub entry : Text → Text → Text → Text → Piece
entry indent key value ending = quoted indent key (codes ": " ++ (value ++ ending))

abbrev pub comma : Text
comma = b',' ∷ 10 ∷ []

abbrev pub newline : Text
newline = 10 ∷ []

abbrev pub six : Text
six = codes "      "

abbrev pub eight : Text
eight = codes "        "

abbrev pub name_text : Option Text → Text
name_text none = []
name_text (some name) = name

-- A region from its number on, and up to its last field.
unfoldable pub region_fields : RegionProfile → List Piece
region_fields r =
    entry [] (codes "region_id") (decimal r.region_id) comma
    ∷ quoted six (codes "region_name") (codes ": ")
    ∷ quoted [] (name_text r.region_name) comma
    ∷ entry six (codes "host_independent_work_ns") (decimal r.host_independent_work_ns) comma
    ∷ entry six (codes "vortex_timing") (codes "{") newline
    ∷ entry eight (codes "total_cycles") (decimal r.total_cycles) comma
    ∷ entry eight (codes "total_time_ns") (decimal r.total_time_ns) comma
    ∷ entry eight (codes "compute_cycles") (decimal r.compute_cycles) comma
    ∷ entry eight (codes "memory_stall_cycles") (decimal r.memory_stall_cycles) comma
    ∷ entry eight (codes "cache_hits") (decimal r.cache_hits) comma
    ∷ entry eight (codes "cache_misses") (decimal r.cache_misses) newline
    ∷ raw (codes "      }" ++ comma)
    ∷ entry six (codes "injection_delay_ns") (signed_decimal r.injection_delay_ns) comma
    ∷ entry six (codes "latency_hidden") (bool_text r.latency_hidden) comma
    ∷ entry six (codes "optimal_prefetch_depth") (decimal r.optimal_prefetch_depth) comma
    ∷ entry six (codes "jit") (codes "{") newline
    ∷ entry eight (codes "batch_size") (decimal r.optimal_batch_size) comma
    ∷ entry eight (codes "traversal_depth") (decimal r.optimal_traversal_depth) comma
    ∷ entry eight (codes "pipeline_distance") (decimal r.optimal_pipeline_distance) comma
    ∷ entry eight (codes "host_device_split") r.split_text comma
    ∷ entry eight (codes "should_offload") (bool_text r.should_offload) comma
    ∷ entry eight (codes "reason_bits") (decimal r.jit_reason_bits) newline
    ∷ []

-- The end of a region: a comma before the next one.
abbrev pub region_end : List RegionProfile → Text
region_end [] = newline
region_end (r ∷ rs) = comma

unfoldable pub regions_text : List RegionProfile → Text → Text
unfolding region_fields pieces_text
regions_text [] rest = rest
regions_text (r ∷ rs) rest =
    codes "    {"
    ++ (newline
        ++ (six
            ++ (pieces_text (region_fields r)
                ++ (codes "      }"
                    ++ (newline ++ (codes "    }" ++ (region_end rs ++ regions_text rs rest)))))))

-- The text of `twopass_save_profile`; `freq_text` is what `%.2f` writes for the clock's frequency.
unfoldable pub profile_header : ℕ → Text → ℕ → List Piece
profile_header num freq_text latency =
    raw (codes "{" ++ newline)
    ∷ entry (codes "  ") (codes "num_regions") (decimal num) comma
    ∷ entry (codes "  ") (codes "clock_freq_mhz") freq_text comma
    ∷ entry (codes "  ") (codes "cxl_latency_ns") (decimal latency) comma
    ∷ quoted (codes "  ") (codes "regions") (codes ": [" ++ newline)
    ∷ []

unfoldable pub profile_text : Text → ℕ → List RegionProfile → Text
unfolding profile_header regions_text
profile_text freq_text latency rs =
    pieces_text (profile_header (length rs) freq_text latency)
    ++ regions_text rs (codes "  ]" ++ (newline ++ (codes "}" ++ newline)))
