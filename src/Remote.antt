-- ===== src/Remote.antt =====
-- runtime/src/CiraRuntime.cpp, `RemoteMemoryManagerImpl`: allocation over the memory tiers, release,
-- migration and accounting. The two maps are association lists, a key at most once; what the
-- operating system and libnuma answer is an argument, and their calls are recorded in order.
pub mod Accounts
pub mod Migration
use cxlmem_uring.Base.{
  find, erase, assign, ℕ, ◌+◌, ◌*◌, ◌%◌, ◌^◌, Bool, true, false, not, ◌&&◌, ◌||◌, Option, none,
  some, List, [], ◌∷◌, ◌++◌, ◌==◌, ltb, if◌then◌else◌,
}
use cxlmem_uring.Memory.{Memory, read, write}

pub data MemoryTier : Type 0 where
  local_dram cxl_attached cxl_pooled far_memory cxl_type2_mem cxl_type2_cache : MemoryTier

pub record RemoteMemRef : Type 0 where
  pub base_addr : ℕ
  pub size : ℕ
  pub tier : MemoryTier
  pub metadata : ℕ

pub record Allocation : Type 0 where
  pub addr : ℕ
  pub size : ℕ
  pub tier : MemoryTier
  pub numa_node : ℕ

-- The calls that take or give memory, and accesses to an object that was deleted.
pub data RemoteCall : Type 0 where
  mapped mapped_huge unmapped node_freed : (addr size : ℕ) → RemoteCall
  node_allocated : (node addr size : ℕ) → RemoteCall
  deleted written_deleted : (ref : ℕ) → RemoteCall

-- `allocations_`, `addr_to_ref_`, and the `RemoteMemRef` objects that exist, by their addresses.
pub record Remote : Type 0 where
  pub allocations : List (ℕ × Allocation)
  pub addr_to_ref : List (ℕ × ℕ)
  pub objects : List (ℕ × RemoteMemRef)

unfoldable pub same_tier : MemoryTier → MemoryTier → Bool
same_tier a b = number a == number b
  where
    number : MemoryTier → ℕ
    number local_dram = 0
    number cxl_attached = 1
    number cxl_pooled = 2
    number far_memory = 3
    number cxl_type2_mem = 4
    number cxl_type2_cache = 5

-- `numa` is the greatest node where libnuma is built in and available. The result is the node and
-- the call; `addr` is its answer, which the source does not test.
unfoldable pub obtain : Option ℕ → MemoryTier → ℕ → ℕ → ℕ × RemoteCall
obtain numa local_dram addr size = (0, mapped addr size)
obtain numa far_memory addr size = (0, mapped_huge addr size)
obtain none cxl_attached addr size = (0, mapped addr size)
obtain none cxl_pooled addr size = (0, mapped addr size)
obtain none cxl_type2_mem addr size = (0, mapped addr size)
obtain none cxl_type2_cache addr size = (0, mapped addr size)
obtain (some node) cxl_attached addr size =
    let n = if node == 0 then 0 else 1 in (n, node_allocated n addr size)
obtain (some node) cxl_pooled addr size =
    let n = if node == 0 then 0 else 1 in (n, node_allocated n addr size)
obtain (some node) cxl_type2_mem addr size = (node, node_allocated node addr size)
obtain (some node) cxl_type2_cache addr size = (node, node_allocated node addr size)

-- `ref` is the address of the new object.
unfoldable pub allocate_remote :
    Option ℕ → ℕ → MemoryTier → ℕ → ℕ → Remote → Remote × List RemoteCall
unfolding obtain assign
allocate_remote numa size tier ref addr s =
    let (node, call) = obtain numa tier addr size in
    (
      record {
        allocations =
            assign ref (record { addr = addr; size = size; tier = tier; numa_node = node })
              s.allocations;
        addr_to_ref = assign addr ref s.addr_to_ref;
        objects =
            assign ref (record { base_addr = addr; size = size; tier = tier; metadata = 0 })
              s.objects;
      },
      call ∷ [],
    )

unfoldable pub is_numa_tier : MemoryTier → Bool
is_numa_tier local_dram = false
is_numa_tier far_memory = false
is_numa_tier cxl_attached = true
is_numa_tier cxl_pooled = true
is_numa_tier cxl_type2_mem = true
is_numa_tier cxl_type2_cache = true

abbrev available : Option ℕ → Bool
available none = false
available (some node) = true

unfoldable pub give_back : Option ℕ → Allocation → RemoteCall
unfolding is_numa_tier
give_back numa a =
    if is_numa_tier a.tier && (available numa && ltb 0 a.numa_node)
    then node_freed a.addr a.size
    else unmapped a.addr a.size

unfoldable pub drop_allocation :
    Option ℕ → ℕ → Option Allocation → Remote → Remote × List RemoteCall
unfolding give_back
drop_allocation numa ref none s = (s, [])
drop_allocation numa ref (some a) s = (
  record s { allocations = erase ref s.allocations; addr_to_ref = erase a.addr s.addr_to_ref },
  give_back numa a ∷ [],
)

-- `delete ref`, after what came before it.
unfoldable pub and_delete : ℕ → Remote × List RemoteCall → Remote × List RemoteCall
and_delete ref (s, calls) =
    (record s { objects = erase ref s.objects }, calls ++ (deleted ref ∷ []))

unfoldable pub deallocate_remote : Option ℕ → ℕ → Remote → Remote × List RemoteCall
unfolding drop_allocation and_delete
deallocate_remote numa ref s = and_delete ref (drop_allocation numa ref (find ref s.allocations) s)

-- The reference of the caller, or what stands where there is none.
abbrev object_or : ℕ → Option RemoteMemRef → RemoteMemRef
object_or ref none = record { base_addr = 0; size = 0; tier = local_dram; metadata = 0 }
object_or ref (some r) = r

-- `*ref = *new_ref; delete new_ref`, after the release that deleted the object `ref`.
unfoldable pub and_assign : ℕ → ℕ → Remote × List RemoteCall → Remote × List RemoteCall
and_assign ref new_ref (s, calls) = (
  record s { objects = erase new_ref s.objects },
  calls ++ (written_deleted ref ∷ deleted new_ref ∷ []),
)

-- `migrate` of the reference `old` where it has an allocation: `new_ref` and `addr` are the new
-- object and its memory.
unfoldable pub move_allocation :
    Option ℕ
    → ℕ
    → MemoryTier
    → ℕ
    → ℕ
    → RemoteMemRef
    → Remote
    → Memory
    → Remote × Memory × List RemoteCall
unfolding allocate_remote deallocate_remote and_assign
move_allocation numa ref tier new_ref addr old s m =
    let (s', taken) = allocate_remote numa old.size tier new_ref addr s in
    let (s'', given) = and_assign ref new_ref (deallocate_remote numa ref s') in
    (s'', write addr (read old.size old.base_addr m) m, taken ++ given)

-- `old` is what `ref` points to.
unfoldable pub migrate :
    Option ℕ
    → ℕ
    → MemoryTier
    → ℕ
    → ℕ
    → RemoteMemRef
    → Remote
    → Memory
    → Remote × Memory × List RemoteCall
unfolding move_allocation
migrate numa ref tier new_ref addr old s m = elim (find ref s.allocations) [
  | none ↦ (s, m, [])
  | some a ↦ move_allocation numa ref tier new_ref addr old s m
]

unfoldable pub used_in : MemoryTier → List (ℕ × Allocation) → ℕ
unfolding same_tier
used_in tier [] = 0
used_in tier ((ref, a) ∷ rest) = (if same_tier a.tier tier then a.size else 0) + used_in tier rest

unfoldable pub get_used_memory : MemoryTier → Remote → ℕ
get_used_memory tier s = used_in tier s.allocations % 2 ^ 64

unfoldable pub get_available_memory : MemoryTier → ℕ
get_available_memory local_dram = 16 * 2 ^ 30
get_available_memory cxl_attached = 64 * 2 ^ 30
get_available_memory cxl_pooled = 64 * 2 ^ 30
get_available_memory far_memory = 256 * 2 ^ 30
get_available_memory cxl_type2_mem = 4 * 2 ^ 30
get_available_memory cxl_type2_cache = 128 * 2 ^ 20
