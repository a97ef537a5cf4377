-- ===== src/Mmio/Open/Submits.antt =====
-- `cira_mmio_open` and `cira_mmio_submit_job` together.
use cxlmem_uring.Base.{
  subst, [], ltb, not, ltb-false, if-case, if-cases, ℕ, ◌≤◌, ◌<◌, ◌≡◌, ◌≢◌, ◌⊎◌, refl, ap, ◌∙◌,
  true, false, Option, none, some, List, arith,
}
use cxlmem_uring.Memory.{Memory}
use cxlmem_uring.Job.{job_max, arg_payload_bytes, control_bytes}
use cxlmem_uring.Mmio.{enodev, erange, is_null, eio, Window, Rc, ok, missing}
use cxlmem_uring.Mmio.Open.{
  is_missing, no_window, fresh_window, opened, OsCall, window_size, Config, OsAnswers, Handle,
  Opened, open_window, open_config, open_new, open_object, open_emulated, open_file,
}
use cxlmem_uring.Mmio.Submit.{fetch_add_seq, take_seq, submit_job, commit_job}
use cxlmem_uring.Mmio.Submit.Checks.{Accepts, submit_job-Accepts}

-- A window of the configuration's size and access, with its first sequence number.
Fresh : Config → Window → Type 0
Fresh cfg w = (control_bytes ≤ w.size) × (w.read_only ≡ cfg.read_only) × (w.next_seq ≡ 1)

-- What a window from `cira_mmio_open` is, if there is one.
Ready : Config → Option Handle → Type 0
Ready cfg none = Unit
Ready cfg (some (p, w)) = (w.base ≢ 0) × Fresh cfg w

Gives : Config → Opened → Type 0
Gives cfg opened = Ready cfg opened.handle

nothing-Gives : (cfg : Config) (rc : Rc) (calls : List OsCall) → Gives cfg (no_window rc calls)
unfolding Gives Ready
nothing-Gives cfg rc calls = tt

window-Gives :
    (cfg : Config) (p : ℕ) (w : Window) (calls : List OsCall)
    → w.base ≢ 0
    → Fresh cfg w
    → Gives cfg (opened p w calls)
unfolding Gives Ready
window-Gives cfg p w calls b f = (b, f)

open_emulated-Gives :
    (cfg : Config) (p : ℕ) (w : Window) (map_at : Option ℕ)
    → map_at ≢ some 0
    → Fresh cfg w
    → Gives cfg (open_emulated p w map_at)
unfolding open_emulated Gives Ready Fresh
open_emulated-Gives cfg p w none n f = tt
open_emulated-Gives cfg p w (some a) n f = (λ e. n (ap some e), f)

open_file-Gives :
    (cfg : Config) (p : ℕ) (w : Window) (fd map_at : Option ℕ)
    → map_at ≢ some 0
    → Fresh cfg w
    → Gives cfg (open_file p w fd map_at)
unfolding open_file Gives Ready Fresh
open_file-Gives cfg p w none map_at n f = tt
open_file-Gives cfg p w (some fd) none n f = tt
open_file-Gives cfg p w (some fd) (some a) n f = (λ e. n (ap some e), f)

not_null : (a : ℕ) → not (is_null a) ≡ true → a ≢ 0
not_null a e z = ground arith

open_object-Gives :
    (cfg : Config) (p : ℕ) (w : Window) (os : OsAnswers)
    → os.map_at ≢ some 0
    → Fresh cfg w
    → Gives cfg (open_object p cfg w os)
unfolding open_object Fresh
open_object-Gives cfg p w os n f =
    if-cases (Gives cfg) (not (is_null cfg.fixed_addr)) _ _
      (λ e. window-Gives cfg p (record w { base = cfg.fixed_addr }) _ (not_null cfg.fixed_addr e) f)
      (λ e. if-case (Gives cfg) cfg.emulate _ _ (open_emulated-Gives cfg p w os.map_at n f) (
        if-case (Gives cfg) (is_missing cfg.path) _ _ (nothing-Gives cfg enodev _)
          (open_file-Gives cfg p w os.fd os.map_at n f)))

open_new-Gives :
    (cfg : Config) (object_at : Option ℕ) (os : OsAnswers)
    → control_bytes ≤ window_size cfg
    → os.map_at ≢ some 0
    → Gives cfg (open_new object_at cfg os)
unfolding open_new Fresh
open_new-Gives cfg none os h n = nothing-Gives cfg eio []
open_new-Gives cfg (some p) os h n =
    open_object-Gives cfg p (fresh_window (window_size cfg) cfg.read_only) os n (h, refl, refl)

open_config-Gives :
    (cfg : Config) (os : OsAnswers) → os.map_at ≢ some 0 → Gives cfg (open_config cfg os)
unfolding open_config
open_config-Gives cfg os n =
    if-cases (Gives cfg) (ltb (window_size cfg) control_bytes) _ _
      (λ e. nothing-Gives cfg erange [])
      (λ e. open_new-Gives cfg os.object_at os (ltb-false (window_size cfg) control_bytes e) n)

Ready-Accepts :
    (cfg : Config) (p : ℕ) (w : Window) (job_id : ℕ) (args : Option (List ℕ)) (arg_len : ℕ)
    → Ready cfg (some (p, w))
    → cfg.read_only ≡ false
    → 0 < job_id
    → job_id ≤ job_max
    → arg_len ≤ arg_payload_bytes
    → (arg_len ≡ 0) ⊎ (missing args ≡ false)
    → Accepts w job_id args arg_len
unfolding Ready Fresh
Ready-Accepts cfg p w job_id args arg_len (b, (size, ro, first)) wr jp jl fits given = record {
  mapped = b;
  writable = ro ∙ wr;
  sized = size;
  job_pos = jp;
  job_le = jl;
  fits = fits;
  given = given;
}

Ready-first : (cfg : Config) (p : ℕ) (w : Window) → Ready cfg (some (p, w)) → (take_seq w).0 ≡ 1
unfolding Ready Fresh take_seq fetch_add_seq
Ready-first cfg p w (b, (size, ro, first)) = ground arith

-- On a window that `cira_mmio_open` gave for a configuration that asks for writing, where the
-- operating system maps nothing at address 0: a first submission of one of the four jobs, whose
-- arguments fit the slot and are given if any are announced, succeeds with sequence number 1.
pub opened_window_submits :
    (cfg : Config) (os : OsAnswers) (p : ℕ) (w : Window) (job_id : ℕ) (args : Option (List ℕ))
    (arg_len flags : ℕ) (m : Memory)
    → os.map_at ≢ some 0
    → cfg.read_only ≡ false
    → (open_window true (some cfg) os).handle ≡ some (p, w)
    → 0 < job_id
    → job_id ≤ job_max
    → arg_len ≤ arg_payload_bytes
    → (arg_len ≡ 0) ⊎ (missing args ≡ false)
    → let r = submit_job (some w) job_id args arg_len flags m in (r.rc ≡ ok) × (r.out_seq ≡ some 1)
unfolding open_window commit_job Gives
opened_window_submits cfg os p w job_id args arg_len flags m n wr e jp jl fits given =
    rw (submit_job-Accepts w job_id args arg_len flags m accepts) (refl, ap some first)
  where
    ready : Ready cfg (some (p, w))
    ready = subst (Ready cfg) e (open_config-Gives cfg os n)

    accepts : Accepts w job_id args arg_len
    accepts = Ready-Accepts cfg p w job_id args arg_len ready wr jp jl fits given

    first : (take_seq w).0 ≡ 1
    first = Ready-first cfg p w ready
