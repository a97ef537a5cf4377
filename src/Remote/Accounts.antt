-- ===== src/Remote/Accounts.antt =====
-- `RemoteMemoryManagerImpl`: the maps, and the accounting of allocations and releases.
use cxlmem_uring.Base.{
  erase-absent, erase-assign, find-assign, erase, assign, find, ℕ, ◌+◌, ◌%◌, ◌^◌, ◌≡◌, ◌⊎◌, inl,
  inr, ap, ◌∙◌, Option, none, some, List, [], ◌∷◌, if◌then◌else◌, arith,
}
use cxlmem_uring.Remote.{
  and_delete, node_freed, unmapped, deleted, give_back, node_freed, deleted, unmapped, give_back,
  MemoryTier, Allocation, Remote, same_tier, allocate_remote, deallocate_remote, drop_allocation,
  obtain, used_in, get_used_memory,
}

-- No object, no allocation and no memory of this state is at these addresses.
pub record Fresh (ref addr : ℕ) (s : Remote) : Type 0 where
  pub no_allocation : find ref s.allocations ≡ none
  pub no_object : find ref s.objects ≡ none
  pub no_memory : find addr s.addr_to_ref ≡ none

-- The release of a reference that has an allocation.
pub deallocate_remote_known :
    (numa : Option ℕ) (ref : ℕ) (s : Remote) (a : Allocation)
    → find ref s.allocations ≡ some a
    → deallocate_remote numa ref s ≡ (
      record {
        allocations = erase ref s.allocations;
        addr_to_ref = erase a.addr s.addr_to_ref;
        objects = erase ref s.objects;
      },
      give_back numa a ∷ deleted ref ∷ [],
    )
unfolding deallocate_remote and_delete drop_allocation
deallocate_remote_known numa ref s a e = ap (λ o. and_delete ref (drop_allocation numa ref o s)) e

give_back-cases :
    (numa : Option ℕ) (a : Allocation)
    → (give_back numa a ≡ unmapped a.addr a.size) ⊎ (give_back numa a ≡ node_freed a.addr a.size)
unfolding give_back
give_back-cases numa a = ground arith

used_in-assign :
    (t tier : MemoryTier) (ref addr size node : ℕ) (xs : List (ℕ × Allocation))
    → find ref xs ≡ none
    → used_in t (assign ref (record { addr = addr; size = size; tier = tier; numa_node = node }) xs)
      ≡ used_in t xs + (if same_tier tier t then size else 0)
unfolding used_in assign
used_in-assign t tier ref addr size node xs h = rw (erase-absent ref xs h) (omega arith)

-- For an object and memory that the state does not have yet, of any size and tier, with libnuma or
-- without: allocation adds the size, modulo 2 ^ 64, to what is used of its tier and nothing to
-- another; releasing the reference then gives memory of that address and size back and leaves the
-- state as it was before.
pub allocate_remote_released :
    (numa : Option ℕ) (size : ℕ) (tier : MemoryTier) (ref addr : ℕ) (s : Remote)
    → Fresh ref addr s
    → let (s', taken) = allocate_remote numa size tier ref addr s in
      let (s'', given) = deallocate_remote numa ref s' in
      ((t : MemoryTier)
        → get_used_memory t s'
          ≡ (get_used_memory t s + (if same_tier tier t then size else 0)) % 2 ^ 64)
      × ((given ≡ unmapped addr size ∷ deleted ref ∷ [])
          ⊎ (given ≡ node_freed addr size ∷ deleted ref ∷ []))
      × (s'' ≡ s)
unfolding allocate_remote get_used_memory
allocate_remote_released numa size tier ref addr s f = (
  λ t. omega (arith, used_in-assign t tier ref addr size node s.allocations f.no_allocation),
  elim (give_back-cases numa a) [
    | inl e ↦ inl (ap (λ r. r.1) released ∙ ap (λ c. c ∷ deleted ref ∷ []) e)
    | inr e ↦ inr (ap (λ r. r.1) released ∙ ap (λ c. c ∷ deleted ref ∷ []) e)
  ],
  ap (λ r. r.0) released ∙ back,
)
  where
    node : ℕ
    node = (obtain numa tier addr size).0

    a : Allocation
    a = record { addr = addr; size = size; tier = tier; numa_node = node }

    held : Remote
    held = (allocate_remote numa size tier ref addr s).0

    released : deallocate_remote numa ref held ≡ (
      record {
        allocations = erase ref held.allocations;
        addr_to_ref = erase addr held.addr_to_ref;
        objects = erase ref held.objects;
      },
      give_back numa a ∷ deleted ref ∷ [],
    )
    released = deallocate_remote_known numa ref held a (find-assign ref a s.allocations)

    back :
        record {
          allocations = erase ref held.allocations;
          addr_to_ref = erase addr held.addr_to_ref;
          objects = erase ref held.objects;
        }
        ≡ s
    back = λ i. record {
      allocations = erase-assign ref a s.allocations f.no_allocation i;
      addr_to_ref = erase-assign addr ref s.addr_to_ref f.no_memory i;
      objects =
          erase-assign ref (record { base_addr = addr; size = size; tier = tier; metadata = 0 })
            s.objects f.no_object i;
    }
