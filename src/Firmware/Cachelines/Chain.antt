-- ===== src/Firmware/Cachelines/Chain.antt =====
-- `vortex_cxl_prefetch_chain_impl`: the nodes of a pointer chain that the walk visits.
use cxlmem_uring.Base.{ℕ, ◌+◌, ◌≡◌, ◌≢◌, List, [], ◌∷◌}
use cxlmem_uring.Memory.{Memory, load}

-- `nodes` is the chain from `node` on by the pointer at `off` in each node: it ends at a null
-- pointer.
pub data Chain (off : ℕ) (m : Memory) : ℕ → List ℕ → Type 0 where
  nil : {node : ℕ} → node ≡ 0 → Chain off m node []
  link :
      {node : ℕ} {nodes : List ℕ}
      → node ≢ 0
      → Chain off m (load 8 (node + off) m) nodes
      → Chain off m node (node ∷ nodes)
