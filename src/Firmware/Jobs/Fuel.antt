-- ===== src/Firmware/Jobs/Fuel.antt =====
-- runtime/vortex_device.cpp: the loops of the two prefetches stop on their own within their fuel.
use cxlmem_uring.Base.{
  ℕ, zero, suc, ◌+◌, ◌^◌, ◌≤◌, ◌≡◌, refl, sym, ap, true, ◌||◌, ◌==◌, ◌*◌, ◌%◌, leb, arith, if-case,
  if◌then◌else◌,
}
use mathlib.Core.Path.{subst}
use cxlmem_uring.Memory.{Memory, IsBytes, load}
use cxlmem_uring.Memory.Ranges.{load-lt, store-IsBytes}
use cxlmem_uring.Job.Wire.{at_prefetch_chain_job, at_stream_prefetch_job}
use cxlmem_uring.Firmware.Cachelines.{install_range, copy_words, copy_singles, copy_bytes}
use cxlmem_uring.Firmware.Cachelines.Install.{install_range_keeps}
use cxlmem_uring.Firmware.Jobs.{visit_node, gather_chain, visit_element, stream_elements}

copy_words-IsBytes :
    (rounds dst src : ℕ) (m : Memory) → IsBytes m → IsBytes (copy_words rounds dst src m)
unfolding copy_words
copy_words-IsBytes zero dst src m v = v
copy_words-IsBytes (suc rounds) dst src m v =
    copy_words-IsBytes rounds (dst + 8) (src + 8) _ (store-IsBytes 8 dst (load 8 src m) m v)

copy_singles-IsBytes :
    (rounds dst src : ℕ) (m : Memory) → IsBytes m → IsBytes (copy_singles rounds dst src m)
unfolding copy_singles
copy_singles-IsBytes zero dst src m v = v
copy_singles-IsBytes (suc rounds) dst src m v =
    copy_singles-IsBytes rounds (dst + 1) (src + 1) _ (store-IsBytes 1 dst (load 1 src m) m v)

copy_bytes-IsBytes :
    (dst src size : ℕ) (m : Memory) → IsBytes m → IsBytes (copy_bytes dst src size m)
unfolding copy_bytes
copy_bytes-IsBytes dst src size m v =
    copy_singles-IsBytes _ _ _ _ (copy_words-IsBytes _ dst src m v)

install_range-IsBytes :
    (addr size : ℕ) (m : Memory) → IsBytes m → IsBytes (install_range addr size m).1
install_range-IsBytes addr size m v = subst IsBytes (sym (install_range_keeps addr size m v)) v

visit_node-IsBytes :
    (job dst node visited : ℕ) (m : Memory)
    → IsBytes m
    → IsBytes (visit_node job dst node visited m)
unfolding visit_node
visit_node-IsBytes job dst node visited m v =
    if-case IsBytes _ _ _ (copy_bytes-IsBytes _ _ _ _ (install_range-IsBytes node _ m v))
      (install_range-IsBytes node _ m v)

visit_element-IsBytes :
    (job dst src i : ℕ) (m : Memory) → IsBytes m → IsBytes (visit_element job dst src i m)
unfolding visit_element
visit_element-IsBytes job dst src i m v =
    if-case IsBytes _ _ _ (install_range-IsBytes src _ m v)
      (copy_bytes-IsBytes _ _ _ _ (install_range-IsBytes src _ m v))

chain_stops :
    (job node visited : ℕ) (m : Memory)
    → IsBytes m
    → 2 ^ 32 ≤ visited
    → (node == 0 || leb (at_prefetch_chain_job job m).depth visited) ≡ true
unfolding at_prefetch_chain_job
chain_stops job node visited m v h = ground (arith, load-lt 4 (job + 24) m v)

-- In a memory of bytes the walk of a chain job ends by its own test: with any fuel that reaches the
-- depth's 2 ^ 32 from the nodes visited, it gives what it gives with any other such fuel.
gather_chain-fuel :
    (f g job dst node visited : ℕ) (m : Memory)
    → IsBytes m
    → 2 ^ 32 ≤ f + visited
    → 2 ^ 32 ≤ g + visited
    → gather_chain job dst f node visited m ≡ gather_chain job dst g node visited m
unfolding gather_chain
gather_chain-fuel zero zero job dst node visited m v hf hg = refl
gather_chain-fuel zero (suc g) job dst node visited m v hf hg =
    rw (chain_stops job node visited m v (omega arith)) refl
gather_chain-fuel (suc f) zero job dst node visited m v hf hg =
    rw (chain_stops job node visited m v (omega arith)) refl
gather_chain-fuel (suc f) (suc g) job dst node visited m v hf hg =
    let m' = visit_node job dst node visited m in
    let next = load 8 (node + (at_prefetch_chain_job job m').next_ptr_offset) m' in
    let rest =
      gather_chain-fuel f g job dst next (visited + 1) m'
        (visit_node-IsBytes job dst node visited m v) (omega arith) (omega arith) in
    ap
      (λ r.
        if node == 0 || leb (at_prefetch_chain_job job m).depth visited then (visited, m) else r)
      rest

stream_stops :
    (job i : ℕ) (m : Memory)
    → IsBytes m
    → 2 ^ 64 ≤ i
    → leb (at_stream_prefetch_job job m).count i ≡ true
unfolding at_stream_prefetch_job
stream_stops job i m v h = ground (arith, load-lt 8 (job + 24) m v)

-- In a memory of bytes the loop of a stream job ends by its own test: with any fuel that reaches the
-- count's 2 ^ 64 from the elements done, it gives what it gives with any other such fuel.
stream_elements-fuel :
    (f g job base dst stride i : ℕ) (m : Memory)
    → IsBytes m
    → 2 ^ 64 ≤ f + i
    → 2 ^ 64 ≤ g + i
    → stream_elements job base dst stride f i m ≡ stream_elements job base dst stride g i m
unfolding stream_elements
stream_elements-fuel zero zero job base dst stride i m v hf hg = refl
stream_elements-fuel zero (suc g) job base dst stride i m v hf hg =
    rw (stream_stops job i m v (omega arith)) refl
stream_elements-fuel (suc f) zero job base dst stride i m v hf hg =
    rw (stream_stops job i m v (omega arith)) refl
stream_elements-fuel (suc f) (suc g) job base dst stride i m v hf hg =
    let src = base + i * stride % 2 ^ 64 in
    let rest =
      stream_elements-fuel f g job base dst stride (i + 1) (visit_element job dst src i m)
        (visit_element-IsBytes job dst src i m v) (omega arith) (omega arith) in
    ap (λ (r : Memory). if leb (at_stream_prefetch_job job m).count i then m else r) rest
