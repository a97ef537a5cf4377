-- ===== src/Gpu.antt =====
-- runtime/src/Type2GpuDevice.cpp, the device behind the registers of BAR0: its state, the register
-- accesses, and `launch_kernel`.
pub mod Launch
pub mod Ordered
pub mod Stale
pub mod Wait
pub mod Life
pub mod Released
pub mod Placed
pub mod Gemm
pub mod Product
use cxlmem_uring.Base.{
  ℕ, ◌+◌, ◌*◌, ◌/◌, ◌%◌, ◌^◌, Bool, true, false, Option, List, [], ◌∷◌, ◌++◌, ◌==◌, if◌then◌else◌,
}
use cxlmem_uring.Memory.{Memory, load}
use cxlmem_uring.Memory.Traces.{Store, perform}

-- `Type2CSROffset`.
abbrev pub csr_base_offset : ℕ
csr_base_offset = 0x180100

abbrev pub kernel_addr_lo : ℕ
kernel_addr_lo = 0x100

abbrev pub kernel_addr_hi : ℕ
kernel_addr_hi = 0x104

abbrev pub kernel_args_lo : ℕ
kernel_args_lo = 0x108

abbrev pub kernel_args_hi : ℕ
kernel_args_hi = 0x10C

abbrev pub grid_dim_x : ℕ
grid_dim_x = 0x110

abbrev pub grid_dim_y : ℕ
grid_dim_y = 0x114

abbrev pub grid_dim_z : ℕ
grid_dim_z = 0x118

abbrev pub block_dim_x : ℕ
block_dim_x = 0x11C

abbrev pub block_dim_y : ℕ
block_dim_y = 0x120

abbrev pub block_dim_z : ℕ
block_dim_z = 0x124

abbrev pub launch_register : ℕ
launch_register = 0x128

abbrev pub status_register : ℕ
status_register = 0x12C

abbrev pub completion_lo : ℕ
completion_lo = 0x140

abbrev pub completion_hi : ℕ
completion_hi = 0x144

abbrev pub dcoh_enable : ℕ
dcoh_enable = 0x148

abbrev pub status_running : ℕ
status_running = 0x01

abbrev pub status_done : ℕ
status_done = 0x02

abbrev pub status_error : ℕ
status_error = 0xFF

-- `Type2KernelRequest`.
pub record KernelRequest : Type 0 where
  pub kernel_addr : ℕ
  pub args_addr : ℕ
  pub grid_x : ℕ
  pub grid_y : ℕ
  pub grid_z : ℕ
  pub block_x : ℕ
  pub block_y : ℕ
  pub block_z : ℕ
  pub completion_addr : ℕ
  pub dcoh_enabled : Bool
  pub timeout_ms : ℕ

-- `Type2GpuDeviceReal`; a null pointer is 0, and a descriptor of -1 is `none`.
pub record GpuDevice : Type 0 where
  pub bar0_fd : Option ℕ
  pub bar0_base : ℕ
  pub dax_fd : Option ℕ
  pub shared_mem : ℕ
  pub shared_mem_size : ℕ
  pub kernel_cycles : ℕ
  pub kernel_instructions : ℕ

-- The address of a register: `bar0_base_` points to words of 4 bytes.
abbrev pub csr_at : ℕ → ℕ → ℕ
csr_at base offset = base + 4 * ((csr_base_offset + offset) / 4)

unfoldable pub write_csr : ℕ → ℕ → ℕ → List Store
write_csr base offset value =
    if base == 0 then [] else record { width = 4; addr = csr_at base offset; word = value } ∷ []

unfoldable pub read_csr : ℕ → ℕ → Memory → ℕ
read_csr base offset m = if base == 0 then 0 else load 4 (csr_at base offset) m

-- `static_cast<uint32_t>(x & 0xFFFFFFFF)`, and of `x >> 32`.
abbrev pub low_word : ℕ → ℕ
low_word x = x % 2 ^ 32

abbrev pub high_word : ℕ → ℕ
high_word x = x / 2 ^ 32 % 2 ^ 32

-- The registers that announce a coherent completion.
unfoldable pub completion_stores : ℕ → KernelRequest → List Store
unfolding write_csr
completion_stores base request =
    if request.dcoh_enabled
    then write_csr base completion_lo (low_word request.completion_addr)
      ++ (write_csr base completion_hi (high_word request.completion_addr)
          ++ write_csr base dcoh_enable 1)
    else []

-- The stores of a launch before the last.
unfoldable pub request_stores : ℕ → KernelRequest → List Store
unfolding write_csr completion_stores
request_stores base request =
    write_csr base kernel_addr_lo (low_word request.kernel_addr)
    ++ (write_csr base kernel_addr_hi (high_word request.kernel_addr)
        ++ (write_csr base kernel_args_lo (low_word request.args_addr)
            ++ (write_csr base kernel_args_hi (high_word request.args_addr)
                ++ (write_csr base grid_dim_x request.grid_x
                    ++ (write_csr base grid_dim_y request.grid_y
                        ++ (write_csr base grid_dim_z request.grid_z
                            ++ (write_csr base block_dim_x request.block_x
                                ++ (write_csr base block_dim_y request.block_y
                                    ++ (write_csr base block_dim_z request.block_z
                                        ++ completion_stores base request)))))))))

-- The stores of `launch_kernel`, in program order: none without a mapped BAR0.
unfoldable pub launch_trace : ℕ → KernelRequest → List Store
unfolding request_stores
launch_trace base request =
    if base == 0 then [] else request_stores base request ++ write_csr base launch_register 1

-- `launch_kernel`: the answer, which is true on both branches, and the memory. Messages are left out.
unfoldable pub launch_kernel : GpuDevice → KernelRequest → Memory → Bool × Memory
unfolding launch_trace
launch_kernel gpu request m = (true, perform (launch_trace gpu.bar0_base request) m)

-- What stands in two registers, as one number of 64 bits.
abbrev pub wide : ℕ → ℕ → ℕ → Memory → ℕ
wide base lo hi m = read_csr base hi m * 2 ^ 32 + read_csr base lo m
