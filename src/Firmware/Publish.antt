-- ===== src/Firmware/Publish.antt =====
-- The records that the device publishes: what they hold, and in which order they appear.
use cxlmem_uring.Base.{
  ℕ, ◌+◌, ◌^◌, ◌<◌, ◌≡◌, ◌≢◌, ◌⊎◌, refl, sym, ap, ◌∙◌, inl, inr, List, [], arith, take, drop,
}
use cxlmem_uring.Memory.{Memory, load}
use cxlmem_uring.Memory.Ranges.{Apart}
use cxlmem_uring.Memory.Traces.{
  Store, perform, Spares, load-perform_at, prefix_unseen, load-perform_repeated, load-perform_once,
}
use cxlmem_uring.Job.{HostStatus, completion_magic, job_magic, job_version, status_running}
use cxlmem_uring.Job.Wire.{at_host_status}
use cxlmem_uring.Mmio.Completion.{Completion, at_completion}
use cxlmem_uring.Firmware.Status.{Cycles, elapsed, completion_trace, mirror_trace}

abbrev pub completed : ℕ → ℕ → Cycles → Completion
completed status result c = record {
  magic = completion_magic;
  status = status;
  result = result;
  cycles = elapsed c;
  timestamp = c.stamp;
}

pub completion_trace_whole :
    (line status result : ℕ) (c : Cycles) (m : Memory)
    → status < 2 ^ 32
    → result < 2 ^ 64
    → c.stamp < 2 ^ 64
    → at_completion line (perform (completion_trace line status result c) m)
      ≡ completed status result c
unfolding at_completion completion_trace
completion_trace_whole line status result c m hs hr hc = λ i. record {
  magic = load-perform_at 4 ss [] 4 (line + 0) completion_magic m refl (omega arith) tt i;
  status = load-perform_at 3 ss (drop 4 ss) 4 (line + 4) status m refl hs (omega arith) i;
  result = load-perform_at 0 ss (drop 1 ss) 8 (line + 8) result m refl hr (omega arith) i;
  cycles =
      load-perform_at 1 ss (drop 2 ss) 8 (line + 16) (elapsed c) m refl (omega arith) (omega arith)
        i;
  timestamp = load-perform_at 2 ss (drop 3 ss) 8 (line + 24) c.stamp m refl hc (omega arith) i;
}
  where
    ss : List Store
    ss = completion_trace line status result c

-- For a completion line that does not hold the magic yet, a status of 32 bits, a result and a time
-- stamp of 64, and after any number of the device's stores to it: if the host sees the magic, then
-- status, result, cycles and time stamp are those of the job.
pub completion_published :
    (line status result n : ℕ) (c : Cycles) (m : Memory)
    → status < 2 ^ 32
    → result < 2 ^ 64
    → c.stamp < 2 ^ 64
    → load 4 (line + 0) m ≢ completion_magic
    → let seen = perform (take n (completion_trace line status result c)) m in
      load 4 (line + 0) seen ≡ completion_magic
      → at_completion line seen ≡ completed status result c
unfolding completion_trace
completion_published line status result n c m hs hr hc armed seen =
    elim (prefix_unseen n 4 (line + 0) (take 4 ss) last m (omega arith)) [
      | inl e ↦ absurd (armed (sym e ∙ seen))
      | inr e ↦
          ap (λ ss. at_completion line (perform ss m)) e
          ∙ completion_trace_whole line status result c m hs hr hc
    ]
  where
    ss : List Store
    ss = completion_trace line status result c

    last : Store
    last = record { width = 4; addr = line + 0; word = completion_magic }

abbrev pub mirrored : ℕ → ℕ → ℕ → HostStatus
mirrored job_id seq status = record {
  magic = job_magic;
  version = job_version;
  job_id = job_id;
  status = status;
  seq = seq;
}

pub mirror_trace_whole :
    (host job_id seq status : ℕ) (m : Memory)
    → job_id < 2 ^ 32
    → seq < 2 ^ 64
    → status < 2 ^ 32
    → at_host_status host (perform (mirror_trace host job_id seq status) m)
      ≡ mirrored job_id seq status
unfolding at_host_status mirror_trace
mirror_trace_whole host job_id seq status m hj hq hs = λ i. record {
  magic =
      load-perform_at 0 ss (drop 1 ss) 8 (host + 0) job_magic m refl (omega arith) (omega arith) i;
  version =
      load-perform_at 1 ss (drop 2 ss) 4 (host + 8) job_version m refl (omega arith) (omega arith)
        i;
  job_id = load-perform_at 2 ss (drop 3 ss) 4 (host + 12) job_id m refl hj (omega arith) i;
  status = load-perform_at 3 ss (drop 4 ss) 4 (host + 16) status m refl hs (omega arith) i;
  seq = load-perform_at 4 ss [] 8 (host + 24) seq m refl hq tt i;
}
  where
    ss : List Store
    ss = mirror_trace host job_id seq status

-- The first mirror of a number: until its last store the record shows another.
mirror_begins :
    (host job_id seq status n : ℕ) (m : Memory)
    → job_id < 2 ^ 32
    → seq < 2 ^ 64
    → status < 2 ^ 32
    → load 8 (host + 24) m ≢ seq
    → let seen = perform (take n (mirror_trace host job_id seq status)) m in
      (load 8 (host + 24) seen ≢ seq) ⊎ (at_host_status host seen ≡ mirrored job_id seq status)
unfolding mirror_trace
mirror_begins host job_id seq status n m hj hq hs other =
    elim (prefix_unseen n 8 (host + 24) (take 4 ss) last m (omega arith)) [
      | inl e ↦ inl (λ z. other (sym e ∙ z))
      | inr e ↦ inr (
          ap (λ ss. at_host_status host (perform ss m)) e
          ∙ mirror_trace_whole host job_id seq status m hj hq hs)
    ]
  where
    ss : List Store
    ss = mirror_trace host job_id seq status

    last : Store
    last = record { width = 8; addr = host + 24; word = seq }

-- A later mirror of the same number changes the status alone, by one store.
module _ (host job_id seq old status : ℕ) (m : Memory) (hj : job_id < 2 ^ 32) (hq : seq < 2 ^ 64)
    (hs : status < 2 ^ 32) (shown : at_host_status host m ≡ mirrored job_id seq old) where
  abbrev partly : ℕ → Memory
  partly n = perform (take n (mirror_trace host job_id seq status)) m

  with_status :
      (n seen : ℕ)
      → load 4 (host + 16) (partly n) ≡ seen
      → at_host_status host (partly n) ≡ mirrored job_id seq seen
  unfolding mirror_trace at_host_status
  with_status n seen e = λ i. record {
    magic =
        load-perform_repeated n 8 (host + 0) job_magic ss m (omega arith)
          (ap (λ (r : HostStatus). r.magic) shown)
          (
            inr refl,
            (inl (omega arith), (inl (omega arith), (inl (omega arith), (inl (omega arith), tt)))),
          )
          i;
    version =
        load-perform_repeated n 4 (host + 8) job_version ss m (omega arith)
          (ap (λ (r : HostStatus). r.version) shown)
          (
            inl (omega arith),
            (inr refl, (inl (omega arith), (inl (omega arith), (inl (omega arith), tt)))),
          )
          i;
    job_id =
        load-perform_repeated n 4 (host + 12) job_id ss m hj
          (ap (λ (r : HostStatus). r.job_id) shown)
          (
            inl (omega arith),
            (inl (omega arith), (inr refl, (inl (omega arith), (inl (omega arith), tt)))),
          )
          i;
    status = e i;
    seq =
        load-perform_repeated n 8 (host + 24) seq ss m hq (ap (λ (r : HostStatus). r.seq) shown)
          (
            inl (omega arith),
            (inl (omega arith), (inl (omega arith), (inl (omega arith), (inr refl, tt)))),
          )
          i;
  }
    where
      ss : List Store
      ss = mirror_trace host job_id seq status

  mirror_updates :
      (n : ℕ)
      → (at_host_status host (partly n) ≡ mirrored job_id seq old)
        ⊎ (at_host_status host (partly n) ≡ mirrored job_id seq status)
  unfolding mirror_trace at_host_status
  mirror_updates n =
      elim (load-perform_once n 4 (host + 16) status (take 3 (mirror_trace host job_id seq status))
        (drop 4 (mirror_trace host job_id seq status)) m hs (omega arith) (inl (omega arith), tt)) [
          | inl e ↦ inl (with_status n old (e ∙ ap (λ (r : HostStatus). r.status) shown))
          | inr e ↦ inr (with_status n status e)
        ]

-- Memory once the job is announced as running.
abbrev pub running : ℕ → ℕ → ℕ → Memory → Memory
running host job_id seq m = perform (mirror_trace host job_id seq status_running) m

-- For a status record that shows another number than that of the job, an id of 32 bits, a number of
-- 64, a final status of 32, and where what the device does between the two announcements leaves the
-- record as it is: after any number of the stores that announce the job as running, either the host
-- sees another number than the job's, or the record is whole and shows the job as running; and after
-- any number of the stores that announce the final status, the record is whole and shows the job as
-- running or with its final status.
pub mirror_published :
    (host job_id seq status n : ℕ) (work : Memory → Memory) (m : Memory)
    → job_id < 2 ^ 32
    → seq < 2 ^ 64
    → status < 2 ^ 32
    → load 8 (host + 24) m ≢ seq
    → at_host_status host (work (running host job_id seq m))
      ≡ at_host_status host (running host job_id seq m)
    → let seen = perform (take n (mirror_trace host job_id seq status_running)) m in
      let later =
        perform (take n (mirror_trace host job_id seq status)) (work (running host job_id seq m)) in
      ((load 8 (host + 24) seen ≢ seq)
        ⊎ (at_host_status host seen ≡ mirrored job_id seq status_running))
      × ((at_host_status host later ≡ mirrored job_id seq status_running)
          ⊎ (at_host_status host later ≡ mirrored job_id seq status))
mirror_published host job_id seq status n work m hj hq hs other kept = (
  mirror_begins host job_id seq status_running n m hj hq (omega arith) other,
  mirror_updates host job_id seq status_running status (work (running host job_id seq m)) hj hq hs
      (kept ∙ mirror_trace_whole host job_id seq status_running m hj hq (omega arith)) n,
)

-- A store of the mirror leaves what is apart from the record.
pub mirror_trace-Spares :
    (p k host job_id seq status : ℕ)
    → Apart p k host 32
    → Spares p k (mirror_trace host job_id seq status)
unfolding mirror_trace
mirror_trace-Spares p k host job_id seq status h = omega arith

pub completion_trace-Spares :
    (p k line status result : ℕ) (c : Cycles)
    → Apart p k line 32
    → Spares p k (completion_trace line status result c)
unfolding completion_trace
completion_trace-Spares p k line status result c h = omega arith
