-- ===== src/Profile/RoundTrip.antt =====
-- runtime/vortex_verilator_sim.cpp: a region of a profile that is saved and loaded.
use cxlmem_uring.Base.{
  ℕ, suc, ◌<◌, ◌^◌, ◌≡◌, refl, false, none, List, [], ◌∷◌, ◌++◌, drop, All, All-append, arith,
}
use cxlmem_uring.Profile.{
  Text, codes, pieces_text, decimal, RegionProfile, region_fields, name_text, comma, newline, six,
  eight,
}
use cxlmem_uring.Profile.Scan.{quote, read_region, parse_json_int, parse_json_bool}
use cxlmem_uring.Profile.Numbers.{NoDigit}
use cxlmem_uring.Profile.Search.{IsPlain, same}
use cxlmem_uring.Profile.Lookup.{
  IsAt, PlainPiece, all_miss, parse_json_int-entry, parse_json_int-signed_entry,
  parse_json_bool-entry, IsPlain-decimal, IsPlain-signed_decimal, IsPlain-bool_text,
}

-- The keys that the loader looks for behind a region's name.
abbrev pub keys : List Text
keys =
    codes "host_independent_work_ns"
    ∷ codes "total_cycles"
    ∷ codes "total_time_ns"
    ∷ codes "injection_delay_ns"
    ∷ codes "latency_hidden"
    ∷ codes "optimal_prefetch_depth"
    ∷ codes "batch_size"
    ∷ codes "traversal_depth"
    ∷ codes "pipeline_distance"
    ∷ codes "should_offload"
    ∷ codes "reason_bits"
    ∷ codes "region_id"
    ∷ []

-- The numbers fit what `strtoll` can give back, no text has a quotation mark, and the name is none
-- of the keys.
pub record IsSaved (r : RegionProfile) : Type 0 where
  pub id_fits : r.region_id < 2 ^ 32
  pub work_fits : r.host_independent_work_ns < 2 ^ 63
  pub cycles_fit : r.total_cycles < 2 ^ 63
  pub time_fits : r.total_time_ns < 2 ^ 63
  pub delay_fits : r.injection_delay_ns < 2 ^ 64
  pub depth_fits : r.optimal_prefetch_depth < 2 ^ 32
  pub batch_fits : r.optimal_batch_size < 2 ^ 32
  pub traversal_fits : r.optimal_traversal_depth < 2 ^ 32
  pub distance_fits : r.optimal_pipeline_distance < 2 ^ 32
  pub reason_fits : r.jit_reason_bits < 2 ^ 32
  pub plain_name : IsPlain (name_text r.region_name)
  pub plain_split : IsPlain r.split_text
  pub no_key : All (λ k. same k (name_text r.region_name) ≡ false) keys

-- What is read back: the name, the split and four statistics are lost.
abbrev pub reread : RegionProfile → RegionProfile
reread r = record r {
  region_name = none;
  compute_cycles = 0;
  memory_stall_cycles = 0;
  cache_hits = 0;
  cache_misses = 0;
  split_text = [];
}

module _ (r : RegionProfile) (saved : IsSaved r) where
  pub region_fields-plain : All PlainPiece (region_fields r)
  unfolding region_fields
  region_fields-plain =
      search (IsPlain-decimal, IsPlain-signed_decimal, IsPlain-bool_text, All-append, arith)

module _ (r : RegionProfile) (saved : IsSaved r) (rest : Text) where
  abbrev region_text : Text
  region_text = pieces_text (region_fields r) ++ rest

  -- A number of the region, by the place of its entry.
  read_number :
      (i : ℕ) (lead key : Text) (v : ℕ) (ending : Text)
      → IsAt (region_fields r) i lead key (decimal v) ending
      → IsPlain lead
      → NoDigit (ending ++ (pieces_text (drop (suc i) (region_fields r)) ++ rest))
      → v < 2 ^ 63
      → parse_json_int region_text (quote key) ≡ v
  read_number = parse_json_int-entry (region_fields r) (region_fields-plain r saved) rest

  read_id : parse_json_int region_text (quote (codes "region_id")) ≡ r.region_id
  unfolding region_fields all_miss
  read_id =
      read_number 0 [] (codes "region_id") r.region_id comma (refl, omega arith, refl) (omega arith)
        refl (omega (arith, saved.id_fits))

  read_work :
      parse_json_int region_text (quote (codes "host_independent_work_ns"))
      ≡ r.host_independent_work_ns
  unfolding region_fields all_miss
  read_work =
      read_number 3 six (codes "host_independent_work_ns") r.host_independent_work_ns comma
        (refl, omega arith, rw saved.no_key.0 refl) (omega arith) refl
        (omega (arith, saved.work_fits))

  read_cycles : parse_json_int region_text (quote (codes "total_cycles")) ≡ r.total_cycles
  unfolding region_fields all_miss
  read_cycles =
      read_number 5 eight (codes "total_cycles") r.total_cycles comma
        (refl, omega arith, rw saved.no_key.1.0 refl) (omega arith) refl
        (omega (arith, saved.cycles_fit))

  read_time : parse_json_int region_text (quote (codes "total_time_ns")) ≡ r.total_time_ns
  unfolding region_fields all_miss
  read_time =
      read_number 6 eight (codes "total_time_ns") r.total_time_ns comma
        (refl, omega arith, rw saved.no_key.1.1.0 refl) (omega arith) refl
        (omega (arith, saved.time_fits))

  read_delay :
      parse_json_int region_text (quote (codes "injection_delay_ns")) ≡ r.injection_delay_ns
  unfolding region_fields all_miss
  read_delay =
      parse_json_int-signed_entry (region_fields r) (region_fields-plain r saved) rest 12 six
        (codes "injection_delay_ns") r.injection_delay_ns comma
        (refl, omega arith, rw saved.no_key.1.1.1.0 refl) (omega arith) refl saved.delay_fits

  read_hidden : parse_json_bool region_text (quote (codes "latency_hidden")) ≡ r.latency_hidden
  unfolding region_fields all_miss
  read_hidden =
      parse_json_bool-entry (region_fields r) (region_fields-plain r saved) rest 13 six
        (codes "latency_hidden") r.latency_hidden comma
        (refl, omega arith, rw saved.no_key.1.1.1.1.0 refl) (omega arith)

  read_depth :
      parse_json_int region_text (quote (codes "optimal_prefetch_depth")) ≡ r.optimal_prefetch_depth
  unfolding region_fields all_miss
  read_depth =
      read_number 14 six (codes "optimal_prefetch_depth") r.optimal_prefetch_depth comma
        (refl, omega arith, rw saved.no_key.1.1.1.1.1.0 refl) (omega arith) refl
        (omega (arith, saved.depth_fits))

  read_batch : parse_json_int region_text (quote (codes "batch_size")) ≡ r.optimal_batch_size
  unfolding region_fields all_miss
  read_batch =
      read_number 16 eight (codes "batch_size") r.optimal_batch_size comma
        (refl, omega arith, rw saved.no_key.1.1.1.1.1.1.0 refl) (omega arith) refl
        (omega (arith, saved.batch_fits))

  read_traversal :
      parse_json_int region_text (quote (codes "traversal_depth")) ≡ r.optimal_traversal_depth
  unfolding region_fields all_miss
  read_traversal =
      read_number 17 eight (codes "traversal_depth") r.optimal_traversal_depth comma
        (refl, omega arith, rw saved.no_key.1.1.1.1.1.1.1.0 refl) (omega arith) refl
        (omega (arith, saved.traversal_fits))

  read_distance :
      parse_json_int region_text (quote (codes "pipeline_distance")) ≡ r.optimal_pipeline_distance
  unfolding region_fields all_miss
  read_distance =
      read_number 18 eight (codes "pipeline_distance") r.optimal_pipeline_distance comma
        (refl, omega arith, rw saved.no_key.1.1.1.1.1.1.1.1.0 refl) (omega arith) refl
        (omega (arith, saved.distance_fits))

  read_offload : parse_json_bool region_text (quote (codes "should_offload")) ≡ r.should_offload
  unfolding region_fields all_miss
  read_offload =
      parse_json_bool-entry (region_fields r) (region_fields-plain r saved) rest 20 eight
        (codes "should_offload") r.should_offload comma
        (refl, omega arith, rw saved.no_key.1.1.1.1.1.1.1.1.1.0 refl) (omega arith)

  read_reason : parse_json_int region_text (quote (codes "reason_bits")) ≡ r.jit_reason_bits
  unfolding region_fields all_miss
  read_reason =
      read_number 21 eight (codes "reason_bits") r.jit_reason_bits newline
        (refl, omega arith, rw saved.no_key.1.1.1.1.1.1.1.1.1.1.0 refl) (omega arith) refl
        (omega (arith, saved.reason_fits))

  -- Every field that the loader reads is the region's own.
  pub read_region-reread : read_region region_text ≡ reread r
  unfolding read_region
  read_region-reread =
      rw
        (
          read_id, read_work, read_cycles, read_time, read_delay, read_hidden, read_depth,
          read_batch, read_traversal, read_distance, read_offload, read_reason,
        )
        (ground (arith, saved.id_fits))
