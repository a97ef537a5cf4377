-- ===== src/Engine.antt =====
-- runtime/src/CiraRuntime.cpp: the edge cache of the offload engine, the prefetch controller, and the
-- placement of a graph in remote memory. A prefetch is the address that it names.
pub mod Markers
pub mod Rows
pub mod RegionMarks
use cxlmem_uring.Base.{
  ℕ, zero, suc, ◌+◌, ◌*◌, ◌%◌, ◌^◌, Bool, true, false, not, ◌&&◌, Option, none, some, List, [], ◌∷◌,
  ◌++◌, ◌==◌, if◌then◌else◌, find, assign,
}
use cxlmem_uring.Memory.{Memory, load}
use cxlmem_uring.Remote.{
  Remote, RemoteMemRef, RemoteCall, cxl_attached, local_dram, allocate_remote,
}

-- `EdgeCache`.
pub record Edge : Type 0 where
  pub data_ : ℕ
  pub index : ℕ
  pub valid : Bool

abbrev pub EdgeTable : Type 0
EdgeTable = List (ℕ × Edge)

unfoldable pub edge_address : ℕ → ℕ → ℕ
edge_address base index = (base + index * 8) % 2 ^ 64

-- `for (i = 1; i <= prefetch_distance; i++)`: `rounds` is what is left of the distance.
unfoldable pub edge_prefetches : ℕ → ℕ → ℕ → ℕ → List ℕ
unfolding edge_address
edge_prefetches zero base index i = []
edge_prefetches (suc rounds) base index i =
    edge_address base (index + i * 64) ∷ edge_prefetches rounds base index (i + 1)

-- What is cached of an edge, if it is valid.
unfoldable pub cached : Option Edge → Option ℕ
cached none = none
cached (some e) = if e.valid then some e.data_ else none

-- The data, the table and the prefetches.
unfoldable pub load_edge : ℕ → ℕ → ℕ → EdgeTable → ℕ × EdgeTable × List ℕ
unfolding edge_address edge_prefetches cached assign
load_edge base index distance table =
    let addr = edge_address base index in
    elim (cached (find addr table)) [
      | some data_ ↦ (data_, table, [])
      | none ↦ (
        addr,
        assign addr (record { data_ = addr; index = index; valid = true }) table,
        edge_prefetches distance base index 1,
      )
    ]

-- The table and the lines flushed.
unfoldable pub evict_edge : ℕ → ℕ → EdgeTable → EdgeTable × List ℕ
unfolding edge_address assign
evict_edge base index table =
    let addr = edge_address base index in
    elim (find addr table) [
      | none ↦ (table, [])
      | some e ↦ (assign addr (record e { valid = false }) table, addr ∷ [])
    ]

-- `rounds` is `count - i`.
unfoldable pub batch_load_edges : ℕ → ℕ → ℕ → EdgeTable → List ℕ × EdgeTable × List ℕ
unfolding load_edge
batch_load_edges zero base index table = ([], table, [])
batch_load_edges (suc rounds) base index table =
    let (data_, table', hints) = load_edge base index 1 table in
    let (results, last, more) = batch_load_edges rounds base (index + 1) table' in
    (data_ ∷ results, last, hints ++ more)

pub data EdgeField : Type 0 where
  from_field to_field other_field : EdgeField

unfoldable pub node_of : EdgeField → ℕ → Memory → ℕ
node_of from_field edge m = load 8 edge m
node_of to_field edge m = load 8 (edge + 8) m
node_of other_field edge m = 0

-- `rounds` prefetches, a line apart.
unfoldable pub line_prefetches : ℕ → ℕ → ℕ → List ℕ
line_prefetches zero addr stride = []
line_prefetches (suc rounds) addr stride =
    addr ∷ line_prefetches rounds ((addr + stride) % 2 ^ 64) stride

unfoldable pub load_node : EdgeField → ℕ → ℕ → Memory → ℕ × List ℕ
unfolding node_of line_prefetches
load_node field edge distance m =
    let node = node_of field edge m in
    (node, if node == 0 then [] else line_prefetches distance node 64)

pub data Pattern : Type 0 where
  sequential strided random : Pattern

-- `PrefetchControllerImpl`; of the profile, its pattern.
pub record Prefetcher : Type 0 where
  pub enabled : Bool
  pub distance : ℕ
  pub pattern : Pattern

unfoldable pub adaptive_prefetch : Prefetcher → ℕ → ℕ → ℕ → List ℕ
unfolding line_prefetches
adaptive_prefetch p base_addr stride distance =
    if not p.enabled then [] else line_prefetches distance base_addr stride

unfoldable pub batch_prefetch : Prefetcher → List ℕ → List ℕ
batch_prefetch p addresses = if not p.enabled then [] else addresses

unfoldable pub distance_for : Pattern → ℕ
distance_for sequential = 8
distance_for strided = 4
distance_for random = 1

unfoldable pub update_profile : Pattern → Prefetcher → Prefetcher
unfolding distance_for
update_profile pattern p = record p { pattern = pattern; distance = distance_for pattern }

unfoldable pub enable_prefetch : Bool → Prefetcher → Prefetcher
enable_prefetch enable p = record p { enabled = enable }

unfoldable pub set_prefetch_distance : ℕ → Prefetcher → Prefetcher
set_prefetch_distance distance p = record p { distance = distance }

-- A graph's counts and its two references, 0 for null.
pub record Graph : Type 0 where
  pub num_edges : ℕ
  pub num_vertices : ℕ
  pub edges : ℕ
  pub vertices : ℕ

unfoldable pub place_edges : Option ℕ → ℕ → ℕ → Graph → Remote → Graph × Remote × List RemoteCall
unfolding allocate_remote
place_edges numa ref addr g s =
    let (s', calls) = allocate_remote numa (g.num_edges * 8 * 2 % 2 ^ 64) cxl_attached ref addr s in
    if g.edges == 0 then (record g { edges = ref }, s', calls) else (g, s, [])

unfoldable pub place_vertices : Option ℕ → ℕ → ℕ → Graph → Remote → Graph × Remote × List RemoteCall
unfolding allocate_remote
place_vertices numa ref addr g s =
    let (s', calls) = allocate_remote numa (g.num_vertices * 8 % 2 ^ 64) local_dram ref addr s in
    if g.vertices == 0 then (record g { vertices = ref }, s', calls) else (g, s, [])

-- The new objects and their memory, for the edges and then for the vertices.
unfoldable pub initialize_graph :
    Option ℕ → ℕ × ℕ → ℕ × ℕ → Graph → Remote → Graph × Remote × List RemoteCall
unfolding place_edges place_vertices
initialize_graph numa (edge_ref, edge_addr) (vertex_ref, vertex_addr) g s =
    let (g', s', calls) = place_edges numa edge_ref edge_addr g s in
    let (g'', s'', more) = place_vertices numa vertex_ref vertex_addr g' s' in
    (g'', s'', calls ++ more)
