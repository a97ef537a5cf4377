-- ===== src/Job/Fields.antt =====
-- The records of cira_cxl_job.h are read back as they were stored, and are not disturbed by stores
-- elsewhere.
use cxlmem_uring.Base.{ℕ, ◌+◌, ◌<◌, ◌≡◌, refl, List, ◌++◌, arith, length, All, All-append}
use cxlmem_uring.Memory.{Memory, write, bytes}
use cxlmem_uring.Memory.Words.{bytes-All}
use cxlmem_uring.Memory.Ranges.{Apart, load-write_field, load-write-Apart}
use cxlmem_uring.Job.{Doorbell, ArgSlot, InstallCachelineJob, CallJob}
use cxlmem_uring.Job.Wire.{
  encode_doorbell, encode_arg_slot, encode_install_job, encode_call_job, at_doorbell, at_arg_slot,
  at_install_job, at_call_job, FitsDoorbell, FitsArgSlot, FitsInstallJob, FitsCallJob,
}

-- Appended words are bytes.
bytes-append-All :
    (k v : ℕ) (bs : List ℕ) → All (λ b. b < 256) bs → All (λ b. b < 256) (bytes k v ++ bs)
bytes-append-All k v bs h = All-append (λ b. b < 256) (bytes k v) bs (bytes-All k v) h

-- The doorbell record that was stored is read back.
pub at_doorbell-encode :
    (r : Doorbell) (p : ℕ) (m : Memory)
    → FitsDoorbell r
    → at_doorbell p (write p (encode_doorbell r) m) ≡ r
unfolding at_doorbell encode_doorbell bytes
at_doorbell-encode r p m f = λ i. record {
  magic = load-write_field 8 0 p (encode_doorbell r) m r.magic (omega arith) refl f.magic i;
  version = load-write_field 4 8 p (encode_doorbell r) m r.version (omega arith) refl f.version i;
  job_id = load-write_field 4 12 p (encode_doorbell r) m r.job_id (omega arith) refl f.job_id i;
  flags = load-write_field 4 16 p (encode_doorbell r) m r.flags (omega arith) refl f.flags i;
  status = load-write_field 4 20 p (encode_doorbell r) m r.status (omega arith) refl f.status i;
  seq = load-write_field 8 24 p (encode_doorbell r) m r.seq (omega arith) refl f.seq i;
}

pub at_doorbell-write-Apart :
    (p a : ℕ) (bs : List ℕ) (m : Memory)
    → Apart p 32 a (length bs)
    → at_doorbell p (write a bs m) ≡ at_doorbell p m
unfolding at_doorbell
at_doorbell-write-Apart p a bs m h = λ i. record {
  magic = load-write-Apart 8 (p + 0) a bs m (omega arith) i;
  version = load-write-Apart 4 (p + 8) a bs m (omega arith) i;
  job_id = load-write-Apart 4 (p + 12) a bs m (omega arith) i;
  flags = load-write-Apart 4 (p + 16) a bs m (omega arith) i;
  status = load-write-Apart 4 (p + 20) a bs m (omega arith) i;
  seq = load-write-Apart 8 (p + 24) a bs m (omega arith) i;
}

pub length-encode_doorbell : (r : Doorbell) → length (encode_doorbell r) ≡ 32
unfolding encode_doorbell bytes
length-encode_doorbell r = refl

pub encode_doorbell-All : (r : Doorbell) → All (λ b. b < 256) (encode_doorbell r)
unfolding encode_doorbell
encode_doorbell-All r = bytes-append-All 8 r.magic _ (
    bytes-append-All 4 r.version _ (
      bytes-append-All 4 r.job_id _
        (bytes-append-All 4 r.flags _ (bytes-append-All 4 r.status _ (bytes-All 8 r.seq)))))

-- The arg_slot record that was stored is read back.
pub at_arg_slot-encode :
    (r : ArgSlot) (p : ℕ) (m : Memory)
    → FitsArgSlot r
    → at_arg_slot p (write p (encode_arg_slot r) m) ≡ r
unfolding at_arg_slot encode_arg_slot bytes
at_arg_slot-encode r p m f = λ i. record {
  magic = load-write_field 8 0 p (encode_arg_slot r) m r.magic (omega arith) refl f.magic i;
  version = load-write_field 4 8 p (encode_arg_slot r) m r.version (omega arith) refl f.version i;
  job_id = load-write_field 4 12 p (encode_arg_slot r) m r.job_id (omega arith) refl f.job_id i;
  seq = load-write_field 8 16 p (encode_arg_slot r) m r.seq (omega arith) refl f.seq i;
  arg_len = load-write_field 8 24 p (encode_arg_slot r) m r.arg_len (omega arith) refl f.arg_len i;
}

pub at_arg_slot-write-Apart :
    (p a : ℕ) (bs : List ℕ) (m : Memory)
    → Apart p 32 a (length bs)
    → at_arg_slot p (write a bs m) ≡ at_arg_slot p m
unfolding at_arg_slot
at_arg_slot-write-Apart p a bs m h = λ i. record {
  magic = load-write-Apart 8 (p + 0) a bs m (omega arith) i;
  version = load-write-Apart 4 (p + 8) a bs m (omega arith) i;
  job_id = load-write-Apart 4 (p + 12) a bs m (omega arith) i;
  seq = load-write-Apart 8 (p + 16) a bs m (omega arith) i;
  arg_len = load-write-Apart 8 (p + 24) a bs m (omega arith) i;
}

pub length-encode_arg_slot : (r : ArgSlot) → length (encode_arg_slot r) ≡ 32
unfolding encode_arg_slot bytes
length-encode_arg_slot r = refl

pub encode_arg_slot-All : (r : ArgSlot) → All (λ b. b < 256) (encode_arg_slot r)
unfolding encode_arg_slot
encode_arg_slot-All r = bytes-append-All 8 r.magic _ (
    bytes-append-All 4 r.version _
      (bytes-append-All 4 r.job_id _ (bytes-append-All 8 r.seq _ (bytes-All 8 r.arg_len))))

-- The install_job record that was stored is read back.
pub at_install_job-encode :
    (r : InstallCachelineJob) (p : ℕ) (m : Memory)
    → FitsInstallJob r
    → at_install_job p (write p (encode_install_job r) m) ≡ r
unfolding at_install_job encode_install_job bytes
at_install_job-encode r p m f = λ i. record {
  addr = load-write_field 8 0 p (encode_install_job r) m r.addr (omega arith) refl f.addr i;
  size = load-write_field 8 8 p (encode_install_job r) m r.size (omega arith) refl f.size i;
  completion_addr =
      load-write_field 8 16 p (encode_install_job r) m r.completion_addr (omega arith) refl
        f.completion_addr i;
  cache_level =
      load-write_field 4 24 p (encode_install_job r) m r.cache_level (omega arith) refl
        f.cache_level i;
  reserved =
      load-write_field 4 28 p (encode_install_job r) m r.reserved (omega arith) refl f.reserved i;
}

pub at_install_job-write-Apart :
    (p a : ℕ) (bs : List ℕ) (m : Memory)
    → Apart p 32 a (length bs)
    → at_install_job p (write a bs m) ≡ at_install_job p m
unfolding at_install_job
at_install_job-write-Apart p a bs m h = λ i. record {
  addr = load-write-Apart 8 (p + 0) a bs m (omega arith) i;
  size = load-write-Apart 8 (p + 8) a bs m (omega arith) i;
  completion_addr = load-write-Apart 8 (p + 16) a bs m (omega arith) i;
  cache_level = load-write-Apart 4 (p + 24) a bs m (omega arith) i;
  reserved = load-write-Apart 4 (p + 28) a bs m (omega arith) i;
}

pub length-encode_install_job : (r : InstallCachelineJob) → length (encode_install_job r) ≡ 32
unfolding encode_install_job bytes
length-encode_install_job r = refl

pub encode_install_job-All : (r : InstallCachelineJob) → All (λ b. b < 256) (encode_install_job r)
unfolding encode_install_job
encode_install_job-All r = bytes-append-All 8 r.addr _ (
    bytes-append-All 8 r.size _ (
      bytes-append-All 8 r.completion_addr _
        (bytes-append-All 4 r.cache_level _ (bytes-All 4 r.reserved))))

-- The call_job record that was stored is read back.
pub at_call_job-encode :
    (r : CallJob) (p : ℕ) (m : Memory)
    → FitsCallJob r
    → at_call_job p (write p (encode_call_job r) m) ≡ r
unfolding at_call_job encode_call_job bytes
at_call_job-encode r p m f = λ i. record {
  func_addr =
      load-write_field 8 0 p (encode_call_job r) m r.func_addr (omega arith) refl f.func_addr i;
  operands_addr =
      load-write_field 8 8 p (encode_call_job r) m r.operands_addr (omega arith) refl
        f.operands_addr i;
  completion_addr =
      load-write_field 8 16 p (encode_call_job r) m r.completion_addr (omega arith) refl
        f.completion_addr i;
  num_operands =
      load-write_field 4 24 p (encode_call_job r) m r.num_operands (omega arith) refl f.num_operands
        i;
  reserved =
      load-write_field 4 28 p (encode_call_job r) m r.reserved (omega arith) refl f.reserved i;
}

pub at_call_job-write-Apart :
    (p a : ℕ) (bs : List ℕ) (m : Memory)
    → Apart p 32 a (length bs)
    → at_call_job p (write a bs m) ≡ at_call_job p m
unfolding at_call_job
at_call_job-write-Apart p a bs m h = λ i. record {
  func_addr = load-write-Apart 8 (p + 0) a bs m (omega arith) i;
  operands_addr = load-write-Apart 8 (p + 8) a bs m (omega arith) i;
  completion_addr = load-write-Apart 8 (p + 16) a bs m (omega arith) i;
  num_operands = load-write-Apart 4 (p + 24) a bs m (omega arith) i;
  reserved = load-write-Apart 4 (p + 28) a bs m (omega arith) i;
}

pub length-encode_call_job : (r : CallJob) → length (encode_call_job r) ≡ 32
unfolding encode_call_job bytes
length-encode_call_job r = refl

pub encode_call_job-All : (r : CallJob) → All (λ b. b < 256) (encode_call_job r)
unfolding encode_call_job
encode_call_job-All r = bytes-append-All 8 r.func_addr _ (
    bytes-append-All 8 r.operands_addr _ (
      bytes-append-All 8 r.completion_addr _
        (bytes-append-All 4 r.num_operands _ (bytes-All 4 r.reserved))))
