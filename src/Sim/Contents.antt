-- ===== src/Sim/Contents.antt =====
-- runtime/vortex_verilator_sim.cpp, uploads and downloads: the simulated memory and the bounds test.
use cxlmem_uring.Base.{
  ℕ, ◌+◌, ◌%◌, ◌^◌, ◌≤◌, ◌<◌, ◌≡◌, refl, ap, sym, ◌∙◌, true, false, Option, some, List, length,
  take, length-take, leb, arith,
}
use cxlmem_uring.Memory.{read, write}
use cxlmem_uring.Memory.Ranges.{Apart, read-write_self, write_outside}
use cxlmem_uring.Sim.{Sim, copy_into, upload_data, download_data}

-- Without a model, for `size` bytes of the host that fit into the simulated memory from `dev_addr`
-- on: the upload succeeds and changes no byte outside the range, and a download of the range gives
-- the bytes back.
pub upload_then_download :
    (sim : Sim) (up down : Option ℕ) (dev_addr : ℕ) (bytes_ : List ℕ) (size : ℕ)
    → sim.vortex_model ≡ false
    → size ≤ length bytes_
    → dev_addr + size ≤ sim.sim_memory_size
    → sim.sim_memory_size < 2 ^ 64
    → let (rc, sim') = upload_data sim up dev_addr bytes_ size in
      (rc ≡ 0)
      × (download_data sim' down dev_addr size ≡ (0, some (take size bytes_)))
      × ((p : ℕ) → Apart p 1 dev_addr size → sim'.sim_memory p ≡ sim.sim_memory p)
unfolding upload_data download_data copy_into
upload_then_download sim up down dev_addr bytes_ size m l f s =
    let fits : leb ((dev_addr + size) % 2 ^ 64) sim.sim_memory_size ≡ true = ground arith in
    let cut = length-take size bytes_ l in
    rw (m, fits)
      (
        refl,
        rw fits (
            ap (λ (bs : List ℕ). (0, some bs))
              (ap (λ n. read n dev_addr (write dev_addr (take size bytes_) sim.sim_memory))
                  (sym cut)
                ∙ read-write_self dev_addr (take size bytes_) sim.sim_memory)),
        λ p a. write_outside dev_addr (take size bytes_) sim.sim_memory p (omega (arith, cut)),
      )

-- Without a model, for an address at or past the end of the simulated memory whose sum with the
-- size passes 2 ^ 64 and leaves no more than the memory's size: the upload succeeds, and its bytes
-- are written there, outside the memory.
pub upload_wraps :
    (sim : Sim) (up : Option ℕ) (dev_addr : ℕ) (bytes_ : List ℕ) (size : ℕ)
    → sim.vortex_model ≡ false
    → sim.sim_memory_size ≤ dev_addr
    → 2 ^ 64 ≤ dev_addr + size
    → dev_addr + size ≤ 2 ^ 64 + sim.sim_memory_size
    → sim.sim_memory_size < 2 ^ 64
    → size ≤ length bytes_
    → let (rc, sim') = upload_data sim up dev_addr bytes_ size in
      (rc ≡ 0) × (read size dev_addr sim'.sim_memory ≡ take size bytes_)
unfolding upload_data copy_into
upload_wraps sim up dev_addr bytes_ size m past wraps small s l =
    let passes : leb ((dev_addr + size) % 2 ^ 64) sim.sim_memory_size ≡ true = ground arith in
    let cut = length-take size bytes_ l in
    rw (m, passes)
      (
        refl,
        ap (λ n. read n dev_addr (write dev_addr (take size bytes_) sim.sim_memory)) (sym cut)
            ∙ read-write_self dev_addr (take size bytes_) sim.sim_memory,
      )
