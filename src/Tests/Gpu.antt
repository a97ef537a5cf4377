-- ===== src/Tests/Gpu.antt =====
-- The theorems on the GPU device at concrete inputs.
use cxlmem_uring.Base.{
  ℕ, ◌+◌, ◌*◌, ◌%◌, ◌^◌, ◌<◌, ◌≤◌, ◌≡◌, ◌≢◌, refl, arith, true, false, none, some, take, ◌⊎◌,
}
use cxlmem_uring.Memory.{load, store, value, read, write, bytes}
use cxlmem_uring.Memory.Traces.{perform}
use cxlmem_uring.Mmio.Open.{file}
use cxlmem_uring.Mmio.Open.Balanced.{count_taken, count_given_back}
use cxlmem_uring.Gpu.{
  write_csr, completion_stores, request_stores, GpuDevice, KernelRequest, launch_kernel,
  launch_trace, read_csr, launch_register,
}
use cxlmem_uring.Gpu.Launch.{Shows, Announces, launch_kernel-Shows}
use cxlmem_uring.Gpu.Ordered.{launch_kernel_ordered}
use cxlmem_uring.Gpu.Stale.{stale_completion}
use cxlmem_uring.Gpu.Wait.{
  GpuWorld, Answers, max_iterations, wait_kernel_completion, wait_kernel-Answers,
}
use cxlmem_uring.Gpu.Life.{GpuOs, new_device, create_type2_gpu_device}
use cxlmem_uring.Gpu.Released.{life_calls, stray, created_device_released}
use cxlmem_uring.Gpu.Placed.{Unmapped, Placed, allocate_device-Placed}
use cxlmem_uring.Gpu.Gemm.{Float, gemm_f32}
use cxlmem_uring.Gpu.Product.{entry, gemm_f32_product}
use cxlmem_uring.Tests.{memory}

abbrev mapped : GpuDevice
mapped = record new_device { bar0_fd = some 3; bar0_base = 65536 }

abbrev request : KernelRequest
request = record {
  kernel_addr = 4294967296;
  args_addr = 8192;
  grid_x = 16;
  grid_y = 4;
  grid_z = 1;
  block_x = 32;
  block_y = 8;
  block_z = 1;
  completion_addr = 12884901888;
  dcoh_enabled = true;
  timeout_ms = 100;
}

abbrev plain : KernelRequest
plain = record request { dcoh_enabled = false; kernel_addr = 4096 }

launch_kernel-Shows_example :
    let (done, m') = launch_kernel mapped request memory in
    Shows 65536 request m' × (request.dcoh_enabled ≡ true → Announces 65536 request m')
launch_kernel-Shows_example = launch_kernel-Shows mapped request memory (omega arith) (omega arith)

-- The whole launch shows in its register.
register_changed :
    read_csr 65536 launch_register (perform (take 14 (launch_trace 65536 request)) memory)
    ≢ read_csr 65536 launch_register memory
unfolding read_csr launch_trace request_stores completion_stores write_csr perform load store value
    read write bytes
register_changed e =
    let before : read_csr 65536 launch_register memory ≡ 724183336 = refl in
    let after : read_csr 65536 launch_register
          (perform (take 14 (launch_trace 65536 request)) memory)
        ≡ 1 =
      refl in
    absurd (omega arith)

launch_kernel_ordered_example :
    perform (take 14 (launch_trace 65536 request)) memory ≡ (launch_kernel mapped request memory).1
launch_kernel_ordered_example =
    launch_kernel_ordered mapped request memory 14 (omega arith) register_changed

stale_completion_example :
    Announces 65536 request (launch_kernel mapped plain (launch_kernel mapped request memory).1).1
stale_completion_example =
    stale_completion mapped request plain memory (omega arith) (omega arith) refl refl

-- The device is done at the first poll.
abbrev done_at_once : GpuWorld
done_at_once = record {
  status = λ (i : ℕ). 2;
  cycles_lo = λ (i : ℕ). 100 + i;
  cycles_hi = λ (i : ℕ). 0;
  instr_lo = λ (i : ℕ). 200;
  instr_hi = λ (i : ℕ). 1;
  elapsed_ms = λ (i : ℕ). i;
}

wait_kernel-Answers_example :
    Answers done_at_once mapped 5
      (max_iterations 5)
      (wait_kernel_completion done_at_once 5 6 mapped)
wait_kernel-Answers_example =
    wait_kernel-Answers done_at_once 5 6 mapped (omega arith) (omega arith) (omega arith)

-- BAR0 and BAR2 are mapped, and there is no DAX device.
abbrev bars : GpuOs
bars = record {
  bar0_fd = some 3;
  bar0_map = some 65536;
  dax_fd = none;
  dax_map = none;
  bar2_fd = some 4;
  bar2_map = some 1048576;
  block = none;
}

created_device_released_example :
    let calls = life_calls (create_type2_gpu_device bars) in
    count_taken (file 3) calls + stray (file 3) (some 3) (some 65536)
    ≡ count_given_back (file 3) calls
created_device_released_example =
    created_device_released (file 3) bars ((λ e. cc), (λ e. cc), (λ e. cc), (λ e. cc))

allocate_device-Placed_example :
    (Unmapped (some 3) (some 65536) × ((create_type2_gpu_device bars).0 ≡ none))
    ⊎ ((gpu : GpuDevice) × ((create_type2_gpu_device bars).0 ≡ some gpu) × Placed bars gpu 64)
allocate_device-Placed_example =
    allocate_device-Placed bars 64 ((λ e. cc), (λ e. cc), (λ e. cc), (λ e. cc))

-- Numbers in place of floats.
abbrev numbers : Float ℕ
numbers = record { nought = 0; add = λ (x y : ℕ). x + y; mul = λ (x y : ℕ). x * y }

abbrev ones : ℕ → ℕ
ones p = 1

abbrev places : ℕ → ℕ
places p = p

gemm_f32_product_example :
    let (done, gpu', result) = gemm_f32 numbers mapped true places ones places 2 3 4 1 2 in
    (done ≡ true)
    × (gpu'.kernel_instructions ≡ 2 * 3 * 4 % 2 ^ 64)
    × ((i j : ℕ)
        → i < 2
        → j < 3
        → result (i * 3 + j) ≡ entry numbers ones places 3 4 1 2 i j (places (i * 3 + j)))
    × ((p : ℕ) → 2 * 3 ≤ p → result p ≡ places p)
gemm_f32_product_example =
    gemm_f32_product numbers ones places 3 4 1 2 2 (omega arith) (omega arith) (omega arith) mapped
      places
