-- ===== src/Tests/Device.antt =====
-- The device's theorems at concrete inputs.
use cxlmem_uring.Base.{
  ◌⊎◌, ◌≢◌, true, ◌==◌, if◌then◌else◌, ◌+◌, ◌≡◌, refl, false, some, arith, inr, take,
}
use cxlmem_uring.Memory.{Memory, load, read, write, store, value, bytes}
use cxlmem_uring.Memory.Traces.{perform}
use cxlmem_uring.Job.{
  status_off, valid_magic, completion_magic, doorbell_off, status_success, status_bad_args,
}
use cxlmem_uring.Job.Wire.{at_host_status, at_doorbell, encode_install_job}
use cxlmem_uring.Mmio.Completion.{at_completion}
use cxlmem_uring.Mmio.Submit.Checks.{Accepts}
use cxlmem_uring.Firmware.{service_once}
use cxlmem_uring.Firmware.Cachelines.{install_range}
use cxlmem_uring.Firmware.Cachelines.Install.{install_range_lem}
use cxlmem_uring.Firmware.Status.{completion_trace, mirror_trace}
use cxlmem_uring.Firmware.Publish.{
  completed, mirrored, running, completion_published, mirror_published,
}
use cxlmem_uring.Firmware.Service.{service_once_announces}
use cxlmem_uring.Protocol.Install.{Sound, submit_install, install_offload}
use cxlmem_uring.Tests.{window, install, clock, memory, memory-IsBytes}

accepts : Accepts window 1 (some (encode_install_job install)) 32
accepts = record {
  mapped = omega arith;
  writable = refl;
  sized = omega arith;
  job_pos = omega arith;
  job_le = omega arith;
  fits = omega arith;
  given = inr refl;
}

sound : Sound window install
sound = record {
  fits = record {
    addr = omega arith;
    size = omega arith;
    completion_addr = omega arith;
    cache_level = omega arith;
    reserved = omega arith;
  };
  addr_given = omega arith;
  size_given = omega arith;
  range_in = omega arith;
  line_given = omega arith;
  line_apart = omega arith;
}

install_offload_example :
    at_completion 131072
      (service_once (λ f o n c m. m) clock 4096 (submit_install window install 0 memory).memory).1
    ≡ completed status_success 4 clock
install_offload_example =
    (install_offload (λ f o n c m. m) clock window install 0 memory accepts sound (omega arith)
      (omega arith) (omega arith) memory-IsBytes).1

-- The line at 131072 and the record at 8192 before the device writes them.
line_before : load 4 131072 memory ≡ 50462976
unfolding load value read
line_before = refl

number_before : load 8 8216 memory ≡ 2242261671028070680
unfolding load value read
number_before = refl

line_seen : load 4 131072 (perform (completion_trace 131072 0 4 clock) memory) ≡ completion_magic
unfolding load value read perform completion_trace store write bytes
line_seen = refl

-- Between the two announcements the job writes its completion line.
abbrev work : Memory → Memory
work m = perform (completion_trace 131072 0 4 clock) m

work_apart :
    at_host_status 8192 (work (running 8192 1 7 memory))
    ≡ at_host_status 8192 (running 8192 1 7 memory)
unfolding load value read perform completion_trace mirror_trace store write bytes at_host_status
work_apart = refl

completion_published_example :
    at_completion 131072 (perform (take 5 (completion_trace 131072 0 4 clock)) memory)
    ≡ completed 0 4 clock
unfolding completion_trace
completion_published_example =
    completion_published 131072 0 4 5 clock memory (omega arith) (omega arith) (omega arith)
      (omega (arith, line_before)) line_seen

mirror_published_example :
    let later = perform (take 5 (mirror_trace 8192 1 7 0)) (work (running 8192 1 7 memory)) in
    let seen = perform (take 5 (mirror_trace 8192 1 7 1)) memory in
    ((load 8 8216 seen ≢ 7) ⊎ (at_host_status 8192 seen ≡ mirrored 1 7 1))
    × ((at_host_status 8192 later ≡ mirrored 1 7 1) ⊎ (at_host_status 8192 later ≡ mirrored 1 7 0))
mirror_published_example =
    mirror_published 8192 1 7 0 5 work memory (omega arith) (omega arith) (omega arith)
      (omega (arith, number_before)) work_apart

service_once_announces_example :
    let local = at_doorbell (4096 + doorbell_off) memory in
    let (status, m') = service_once (λ f o n c m. m) clock 4096 memory in
    ((valid_magic local.magic ≡ true)
      × (at_host_status (4096 + status_off) m' ≡ mirrored local.job_id local.seq status)
      × (load 4 (4096 + doorbell_off + 20) m' ≡ status))
    ⊎ ((valid_magic local.magic ≡ false) × (status ≡ status_bad_args) × (m' ≡ memory))
service_once_announces_example =
    service_once_announces (λ f o n c m. m) clock 4096 memory memory-IsBytes (omega arith)

install_range_lem_example : install_range 65546 200 memory ≡ (4, memory)
install_range_lem_example =
    install_range_lem 65546 200 memory memory-IsBytes (omega arith) (omega arith) (omega arith)

-- Two nodes: 256 points to 512, which points nowhere.
abbrev linked : Memory
linked p = if p == 265 then 2 else 0

first : load 8 (256 + 8) linked ≡ 512
unfolding load value read
first = refl

second : load 8 (512 + 8) linked ≡ 0
unfolding load value read
second = refl
