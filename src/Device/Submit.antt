-- ===== src/Device/Submit.antt =====
-- runtime/vortex_device.cpp: the host's submission of a job through the device's own interface, and
-- the entry points `__vortex_*` for compiled code.
use cxlmem_uring.Base.{
  ℕ, ◌+◌, ◌%◌, ◌^◌, not, ◌&&◌, ◌||◌, Option, none, some, List, [], ◌++◌, ◌==◌, ltb, if◌then◌else◌,
}
use cxlmem_uring.Memory.{Memory, load}
use cxlmem_uring.Memory.Traces.{Store, perform}
use cxlmem_uring.Job.{
  Doorbell, CallJob, job_magic, job_version, job_nop, job_call, arg_payload_bytes,
  arg_slot_header_bytes, doorbell_off, valid_magic,
}
use cxlmem_uring.Job.Wire.{encode_doorbell, encode_arg_slot, encode_call_job}
use cxlmem_uring.Mmio.{missing, contents}
use cxlmem_uring.Mmio.Copy.{byte_stores}
use cxlmem_uring.Mmio.Submit.{slot_header}
use cxlmem_uring.Firmware.Jobs.{arg_slot}
use cxlmem_uring.Firmware.Cachelines.{install_range, prefetch_chain_impl}
use cxlmem_uring.Device.{DeviceRc, success, invalid_error}

-- `next_seq.fetch_add(1)` on the counter that all submissions share.
unfoldable pub next_number : ℕ → ℕ × ℕ
next_number counter = (counter, (counter + 1) % 2 ^ 64)

-- The sequence number of a submission, and the counter after it: the caller's, else the next one,
-- without 0.
unfoldable pub commit_seq : ℕ → ℕ → ℕ × ℕ
unfolding next_number
commit_seq seq counter =
    let (n, counter') = if seq == 0 then next_number counter else (seq, counter) in
    if n == 0 then next_number counter' else (n, counter')

abbrev pub device_doorbell : ℕ → ℕ → ℕ → Doorbell
device_doorbell job_id flags seq = record {
  magic = job_magic;
  version = job_version;
  job_id = job_id;
  flags = flags;
  status = 0;
  seq = seq;
}

-- The stores in program order: the payload, the slot's header, the doorbell, all byte by byte.
unfoldable pub device_trace : ℕ → ℕ → ℕ → List ℕ → ℕ → ℕ → ℕ → List Store
device_trace control slot job_id payload arg_len flags seq =
    (if arg_len == 0 then [] else byte_stores (slot + arg_slot_header_bytes) payload)
    ++ (byte_stores slot (encode_arg_slot (slot_header job_id seq arg_len))
        ++ byte_stores (control + doorbell_off)
            (encode_doorbell (device_doorbell job_id flags seq)))

-- The return code, the counter and the memory.
unfoldable pub device_commit :
    ℕ → Option ℕ → ℕ → List ℕ → ℕ → ℕ → ℕ → ℕ → Memory → DeviceRc × ℕ × Memory
unfolding commit_seq device_trace
device_commit control none job_id payload arg_len seq flags counter m =
    (invalid_error, (commit_seq seq counter).1, m)
device_commit control (some slot) job_id payload arg_len seq flags counter m =
    let (n, counter') = commit_seq seq counter in
    (success, counter', perform (device_trace control slot job_id payload arg_len flags n) m)

unfoldable pub submit_job_mmio :
    ℕ → ℕ → Option (List ℕ) → ℕ → ℕ → ℕ → ℕ → Memory → DeviceRc × ℕ × Memory
unfolding device_commit
submit_job_mmio control job_id args arg_len seq flags counter m =
    if control == 0
    then (invalid_error, counter, m)
    else if job_id == job_nop || ltb job_call job_id
    then (invalid_error, counter, m)
    else if ltb arg_payload_bytes arg_len
    then (invalid_error, counter, m)
    else if not (arg_len == 0) && missing args
    then (invalid_error, counter, m)
    else device_commit control (arg_slot control job_id) job_id (contents args arg_len) arg_len seq
        flags counter m

unfoldable pub submit_call_mmio : ℕ → ℕ → ℕ → ℕ → ℕ → ℕ → ℕ → Memory → DeviceRc × ℕ × Memory
unfolding submit_job_mmio
submit_call_mmio control seq func operands num_operands completion counter m =
    if func == 0
    then (invalid_error, counter, m)
    else if not (num_operands == 0) && operands == 0
    then (invalid_error, counter, m)
    else submit_job_mmio control job_call (some (encode_call_job job)) 32 seq 0 counter m
  where
    job : CallJob
    job = record {
      func_addr = func;
      operands_addr = operands;
      completion_addr = completion;
      num_operands = num_operands;
      reserved = 0;
    }

-- `__vortex_install_cacheline`; the cache level is not used.
unfoldable pub vortex_install_cacheline : ℕ → ℕ → Memory → Memory
vortex_install_cacheline addr size m = (install_range addr size m).1

-- `__vortex_prefetch_chain_kernel`: a stream that starts with a magic number names its chain.
unfoldable pub vortex_prefetch_chain_kernel : ℕ → ℕ → Memory → Memory
vortex_prefetch_chain_kernel stream depth m =
    if stream == 0 || depth == 0
    then m
    else if valid_magic (load 8 stream m)
    then (prefetch_chain_impl (load 8 (stream + 8) m) (load 8 (stream + 16) m) depth m).1
    else (prefetch_chain_impl stream 0 depth m).1
