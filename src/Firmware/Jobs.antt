-- ===== src/Firmware/Jobs.antt =====
-- runtime/vortex_device.cpp: the checks of a job's arguments and the four jobs. Each returns the
-- status and the memory.
pub mod Fuel
use cxlmem_uring.Base.{
  ℕ, zero, suc, ◌+◌, ◌*◌, ◌%◌, ◌^◌, Bool, not, ◌&&◌, ◌||◌, Option, none, some, ◌==◌, ltb, leb,
  if◌then◌else◌,
}
use cxlmem_uring.Memory.{Memory, load}
use cxlmem_uring.Job.{
  Doorbell, ArgSlot, InstallCachelineJob, valid_magic, arg_slot_off, arg_slot_header_bytes,
  job_version, job_nop, job_call, job_install_cacheline, job_prefetch_chain, job_stream_prefetch,
  status_success, status_bad_args, status_bad_version, status_bad_job, cacheline_size,
}
use cxlmem_uring.Job.Wire.{
  at_arg_slot, at_install_job, at_prefetch_chain_job, at_stream_prefetch_job, at_call_job,
}
use cxlmem_uring.Firmware.Cachelines.{install_range, copy_bytes}
use cxlmem_uring.Firmware.Status.{Cycles, write_completion}

-- The address of the slot of a job; `none` is a null pointer.
unfoldable pub arg_slot : ℕ → ℕ → Option ℕ
arg_slot control job_id =
    if control == 0
    then none
    else if ltb job_call job_id
    then none
    else some (control + arg_slot_off job_id)

-- The slot holds the arguments of this doorbell's job, `size` bytes of them at least.
unfoldable pub slot_matches : ArgSlot → Doorbell → ℕ → Bool
slot_matches slot doorbell size = not (
    not (valid_magic slot.magic)
    || not (slot.version == job_version)
    || not (slot.job_id == doorbell.job_id)
    || not (slot.seq == doorbell.seq)
    || ltb slot.arg_len size)

-- `vortex_cxl_checked_arg<T>` with `sizeof(T)`: the address of the payload.
unfoldable pub checked_arg : ℕ → Option ℕ → Doorbell → Memory → Option ℕ
checked_arg size none doorbell m = none
checked_arg size (some slot) doorbell m =
    if slot_matches (at_arg_slot slot m) doorbell size
    then some (slot + arg_slot_header_bytes)
    else none

-- An installation changes no byte, so that its job is read once.
unfoldable pub run_install : Option InstallCachelineJob → Cycles → Memory → ℕ × Memory
run_install none c m = (status_bad_args, m)
run_install (some job) c m =
    if job.addr == 0 || job.size == 0
    then (status_bad_args, m)
    else let (lines, m') = install_range job.addr job.size m in
      (status_success, write_completion job.completion_addr status_success lines c m')

-- A job stands in the control window, and a prefetch copies to a buffer that may overlap it: its
-- fields are read where the source reads them, from the memory at that point. One node of the walk:
-- install its line, copy its data out.
unfoldable pub visit_node : ℕ → ℕ → ℕ → ℕ → Memory → Memory
visit_node job dst node visited m =
    let m' = (install_range node cacheline_size m).1 in
    let now = at_prefetch_chain_job job m' in
    if not (dst == 0) && not (now.data_size == 0)
    then copy_bytes (dst + visited * now.data_size % 2 ^ 64) (node + now.data_offset) now.data_size
        m'
    else m'

-- `while (node && visited < job->depth)`, on fuel.
unfoldable pub gather_chain : ℕ → ℕ → ℕ → ℕ → ℕ → Memory → ℕ × Memory
gather_chain job dst zero node visited m = (visited, m)
gather_chain job dst (suc fuel) node visited m =
    let m' = visit_node job dst node visited m in
    let next = load 8 (node + (at_prefetch_chain_job job m').next_ptr_offset) m' in
    let rest = gather_chain job dst fuel next (visited + 1) m' in
    if node == 0 || leb (at_prefetch_chain_job job m).depth visited then (visited, m) else rest

-- The depth has 32 bits.
unfoldable pub run_prefetch_chain : Option ℕ → Cycles → Memory → ℕ × Memory
run_prefetch_chain none c m = (status_bad_args, m)
run_prefetch_chain (some p) c m =
    let job = at_prefetch_chain_job p m in
    if job.start_node_addr == 0
    then (status_bad_args, m)
    else let (visited, m') = gather_chain p job.buf_addr (2 ^ 32) job.start_node_addr 0 m in
      (
        status_success,
        write_completion (at_prefetch_chain_job p m').completion_addr status_success visited c m',
      )

-- One element of the stream: install it, copy it out.
unfoldable pub visit_element : ℕ → ℕ → ℕ → ℕ → Memory → Memory
visit_element job dst src i m =
    let m' = (install_range src (at_stream_prefetch_job job m).elem_size m).1 in
    let now = at_stream_prefetch_job job m' in
    if dst == 0 then m' else copy_bytes (dst + i * now.elem_size % 2 ^ 64) src now.elem_size m'

-- `for (i = 0; i < job->count; ++i)`, on fuel.
unfoldable pub stream_elements : ℕ → ℕ → ℕ → ℕ → ℕ → ℕ → Memory → Memory
stream_elements job base dst stride zero i m = m
stream_elements job base dst stride (suc fuel) i m =
    let m' = visit_element job dst (base + i * stride % 2 ^ 64) i m in
    let rest = stream_elements job base dst stride fuel (i + 1) m' in
    if leb (at_stream_prefetch_job job m).count i then m else rest

-- The count has 64 bits.
unfoldable pub run_stream_prefetch : Option ℕ → Cycles → Memory → ℕ × Memory
run_stream_prefetch none c m = (status_bad_args, m)
run_stream_prefetch (some p) c m =
    let job = at_stream_prefetch_job p m in
    if job.base_addr == 0 || job.count == 0 || job.elem_size == 0
    then (status_bad_args, m)
    else let stride = if job.stride == 0 then job.elem_size else job.stride in
      let m' = stream_elements p job.base_addr job.buf_addr stride (2 ^ 64) 0 m in
      let now = at_stream_prefetch_job p m' in
      (status_success, write_completion now.completion_addr status_success now.count c m')

-- The function that a call job names is not part of the runtime: `callee func operands
-- num_operands completion` is its effect on memory.
abbrev pub Callee : Type 0
Callee = ℕ → ℕ → ℕ → ℕ → Memory → Memory

-- The job stands in the control window: its completion line is read again after the callee.
unfoldable pub run_call : Callee → Option ℕ → Cycles → Memory → ℕ × Memory
run_call callee none c m = (status_bad_args, m)
run_call callee (some p) c m =
    let job = at_call_job p m in
    if job.func_addr == 0
    then (status_bad_args, m)
    else let m' = callee job.func_addr job.operands_addr job.num_operands job.completion_addr m in
      (status_success, write_completion (at_call_job p m').completion_addr status_success 0 c m')

abbrev pub job_at {ℓ} : {J : Type ℓ} → (ℕ → Memory → J) → Option ℕ → Memory → Option J
job_at read none m = none
job_at read (some p) m = some (read p m)

unfoldable pub run_job : Callee → ℕ → Doorbell → Cycles → Memory → ℕ × Memory
run_job callee control doorbell c m =
    let slot = arg_slot control doorbell.job_id in
    if not (doorbell.version == job_version)
    then (status_bad_version, m)
    else if doorbell.job_id == job_nop
    then (status_success, m)
    else if doorbell.job_id == job_install_cacheline
    then run_install (job_at at_install_job (checked_arg 32 slot doorbell m) m) c m
    else if doorbell.job_id == job_prefetch_chain
    then run_prefetch_chain (checked_arg 40 slot doorbell m) c m
    else if doorbell.job_id == job_stream_prefetch
    then run_stream_prefetch (checked_arg 48 slot doorbell m) c m
    else if doorbell.job_id == job_call
    then run_call callee (checked_arg 32 slot doorbell m) c m
    else (status_bad_job, m)
