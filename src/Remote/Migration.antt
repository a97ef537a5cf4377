-- ===== src/Remote/Migration.antt =====
-- `RemoteMemoryManagerImpl::migrate`.
use cxlmem_uring.Base.{
  find-assign, find-erase_other, find-erase, find-assign_other, erase, find, subst, ℕ, ◌≡◌, ◌≢◌,
  refl, sym, ap, ◌∙◌, Option, none, some, List, [], ◌∷◌,
}
use cxlmem_uring.Memory.{Memory, read, write}
use cxlmem_uring.Remote.{
  and_assign, MemoryTier, RemoteMemRef, Allocation, Remote, RemoteCall, deleted, allocate_remote,
  deallocate_remote, and_delete, drop_allocation, move_allocation, migrate, obtain,
}
use cxlmem_uring.Remote.Accounts.{deallocate_remote_known}

-- What the move of an allocated reference leaves.
pub record Moved (ref new_ref addr size : ℕ) (tier : MemoryTier) (s : Remote) : Type 0 where
  pub forgotten : find ref s.allocations ≡ none
  pub object_gone : find ref s.objects ≡ none
  pub new_gone : find new_ref s.objects ≡ none
  pub kept :
      (a : Allocation) × (find new_ref s.allocations ≡ some a)
      × (a.addr ≡ addr)
      × (a.size ≡ size)
      × (a.tier ≡ tier)

-- What becomes of a migration.
Lost :
    Option ℕ
    → ℕ
    → MemoryTier
    → ℕ
    → ℕ
    → RemoteMemRef
    → Memory
    → Remote × Memory × List RemoteCall
    → Type 0
Lost numa ref tier new_ref addr old m (s', m', calls) =
    (m' ≡ write addr (read old.size old.base_addr m) m)
    × Moved ref new_ref addr old.size tier s'
    × ((deallocate_remote numa ref s').1 ≡ deleted ref ∷ [])

deallocate_remote_unknown :
    (numa : Option ℕ) (ref : ℕ) (s : Remote)
    → find ref s.allocations ≡ none
    → (deallocate_remote numa ref s).1 ≡ deleted ref ∷ []
unfolding deallocate_remote and_delete drop_allocation
deallocate_remote_unknown numa ref s e =
    ap (λ o. (and_delete ref (drop_allocation numa ref o s)).1) e

move_allocation-Lost :
    (numa : Option ℕ) (ref : ℕ) (tier : MemoryTier) (new_ref addr : ℕ) (old : RemoteMemRef)
    (s : Remote) (m : Memory) (a : Allocation)
    → find ref s.allocations ≡ some a
    → new_ref ≢ ref
    → Lost numa ref tier new_ref addr old m (move_allocation numa ref tier new_ref addr old s m)
unfolding Lost move_allocation and_assign allocate_remote
move_allocation-Lost numa ref tier new_ref addr old s m a e n =
    (refl, moved, deallocate_remote_unknown numa ref last moved.forgotten)
  where
    held : Remote
    held = (allocate_remote numa old.size tier new_ref addr s).0

    last : Remote
    last = (and_assign ref new_ref (deallocate_remote numa ref held)).0

    new_allocation : Allocation
    new_allocation = record {
      addr = addr;
      size = old.size;
      tier = tier;
      numa_node = (obtain numa tier addr old.size).0;
    }

    ended : last ≡ record {
      allocations = erase ref held.allocations;
      addr_to_ref = erase a.addr held.addr_to_ref;
      objects = erase new_ref (erase ref held.objects);
    }
    ended =
        ap (λ d. (and_assign ref new_ref d).0)
          (deallocate_remote_known numa ref held a
            (find-assign_other new_ref ref new_allocation s.allocations n ∙ e))

    moved : Moved ref new_ref addr old.size tier last
    moved = record {
      forgotten = ap (λ q. find ref q.allocations) ended ∙ find-erase ref held.allocations;
      object_gone =
          ap (λ q. find ref q.objects) ended
          ∙ find-erase_other new_ref ref (erase ref held.objects) n
          ∙ find-erase ref held.objects;
      new_gone =
          ap (λ q. find new_ref q.objects) ended ∙ find-erase new_ref (erase ref held.objects);
      kept = (
        new_allocation,
        ap (λ q. find new_ref q.allocations) ended
            ∙ find-erase_other ref new_ref held.allocations (λ z. n (sym z))
            ∙ find-assign new_ref new_allocation s.allocations,
        refl,
        refl,
        refl,
      );
    }

migrate_known :
    (numa : Option ℕ) (ref : ℕ) (tier : MemoryTier) (new_ref addr : ℕ) (old : RemoteMemRef)
    (s : Remote) (m : Memory) (a : Allocation)
    → find ref s.allocations ≡ some a
    → migrate numa ref tier new_ref addr old s m
      ≡ move_allocation numa ref tier new_ref addr old s m
unfolding migrate
migrate_known numa ref tier new_ref addr old s m a e = rw (e, migrate) refl

-- For a reference that is allocated, and a new object at another address: migration copies the data
-- to the new memory; but the caller's reference is deleted and has no allocation, and the new
-- memory's allocation stands under an object that is deleted too. So releasing the migrated
-- reference deletes it again and gives no memory back.
pub migrate_loses_memory :
    (numa : Option ℕ) (ref : ℕ) (tier : MemoryTier) (new_ref addr : ℕ) (old : RemoteMemRef)
    (s : Remote) (m : Memory) (a : Allocation)
    → find ref s.allocations ≡ some a
    → new_ref ≢ ref
    → let (s', m', calls) = migrate numa ref tier new_ref addr old s m in
      (m' ≡ write addr (read old.size old.base_addr m) m)
      × Moved ref new_ref addr old.size tier s'
      × ((deallocate_remote numa ref s').1 ≡ deleted ref ∷ [])
unfolding Lost
migrate_loses_memory numa ref tier new_ref addr old s m a e n =
    subst (Lost numa ref tier new_ref addr old m) (sym known)
      (move_allocation-Lost numa ref tier new_ref addr old s m a e n)
  where
    known :
        migrate numa ref tier new_ref addr old s m
        ≡ move_allocation numa ref tier new_ref addr old s m
    known = migrate_known numa ref tier new_ref addr old s m a e
