-- ===== src/TwoPass/Measured.antt =====
-- runtime/vortex_verilator_sim.cpp, a region in the profiling and in the injection pass.
use cxlmem_uring.Base.{
  ℕ, ◌+◌, ◌-◌, ◌*◌, ◌%◌, ◌^◌, ◌≤◌, ◌<◌, ◌≡◌, ◌≢◌, refl, ap, ◌∙◌, ◌⊎◌, inl, inr, Bool-cases, true,
  false, not, Option, some, length, leb, ◌==◌, if-cases, get_elem?, modify, get_elem?-modify_self,
  get_elem?-modify_other, arith,
}
use cxlmem_uring.Sim.{Sim, sim_load_kernel, upload_data}
use cxlmem_uring.Sim.Run.{SimTiming, RunAnswers, sim_run}
use cxlmem_uring.Sim.Timing.{sim_run-AddsUp}
use cxlmem_uring.TwoPass.{
  is_profiling, TwoPassMode, Context, RegionState, Knobs, LaunchAnswers, TwoPassMode, is_profiling,
  disabled, profiling, injection, set_profiling_mode, set_injection_mode, work_start, work_end,
  elapsed_ns, run_region, upload_and_run, twopass_launch_kernel,
}
use cxlmem_uring.TwoPass.Sync.{
  Injected, nothing_injected, slept, spun, with_delay, inject, injected_at, sync_point,
}

-- A launch that succeeds gives the region a timing whose time is one of cycles, and changes no
-- other region.
abbrev Launched : (ℕ → ℕ) → Context → ℕ → ℕ × Context → Type 0
Launched cycles_to_ns ctx id (rc, ctx') =
    rc ≡ 0
    → (t : SimTiming) × (ctx'.regions ≡ modify ctx.regions id (λ r. record r { vortex_timing = t }))
      × (ctx'.mode ≡ ctx.mode)
      × (t.total_time_ns ≡ cycles_to_ns t.total_cycles)

run_region-Launched :
    (cycles_to_ns : ℕ → ℕ) (ctx : Context) (id : ℕ) (sim : Sim) (answers : Option RunAnswers)
    → Launched cycles_to_ns ctx id (run_region cycles_to_ns ctx id sim answers)
unfolding run_region
run_region-Launched cycles_to_ns ctx id sim answers z =
    let (rc, sim', timing) = sim_run cycles_to_ns sim answers in
    (timing, refl, refl, (sim_run-AddsUp cycles_to_ns sim answers z).1)

refused-Launched :
    (cycles_to_ns : ℕ → ℕ) (ctx ctx' : Context) (id rc : ℕ)
    → (rc == 0) ≡ false
    → Launched cycles_to_ns ctx id (rc, ctx')
refused-Launched cycles_to_ns ctx ctx' id rc e z = absurd (ground arith)

upload_and_run-Launched :
    (cycles_to_ns : ℕ → ℕ) (ctx : Context) (id : ℕ) (sim : Sim) (a : LaunchAnswers)
    → Launched cycles_to_ns ctx id (upload_and_run cycles_to_ns ctx id sim a)
unfolding upload_and_run
upload_and_run-Launched cycles_to_ns ctx id sim a =
    let (rc, sim') = upload_data sim a.upload_rc 0x10000 a.args a.args_size in
    if-cases (Launched cycles_to_ns ctx id) (rc == 0) _ _
      (λ _. run_region-Launched cycles_to_ns ctx id sim' a.run_answers)
      (λ e. refused-Launched cycles_to_ns ctx (record ctx { verilator_sim = sim' }) id rc e)

launch-Launched :
    (cycles_to_ns : ℕ → ℕ) (ctx : Context) (id : ℕ) (a : LaunchAnswers)
    → ctx.mode ≡ profiling
    → Launched cycles_to_ns ctx id (twopass_launch_kernel cycles_to_ns ctx id a)
unfolding twopass_launch_kernel
launch-Launched cycles_to_ns ctx id a m =
    let (rc, sim) = sim_load_kernel ctx.verilator_sim a.load_rc a.kernel_binary a.binary_size in
    if-cases (Launched cycles_to_ns ctx id) (not (is_profiling ctx.mode)) _ _
      (λ e. absurd (mode_test ctx.mode m e))
      (λ _.
        if-cases (Launched cycles_to_ns ctx id) (leb (length ctx.regions) id) _ _
          (λ _ z. absurd (omega arith))
          (λ _.
            if-cases (Launched cycles_to_ns ctx id) (rc == 0) _ _
              (λ _. upload_and_run-Launched cycles_to_ns ctx id sim a)
              (λ e.
                refused-Launched cycles_to_ns ctx (record ctx { verilator_sim = sim }) id rc e)))
  where
    mode_test : (mode : TwoPassMode) → mode ≡ profiling → not (is_profiling mode) ≡ true → ⊥
    mode_test profiling m e = cc
    mode_test injection m e = cc
    mode_test disabled m e = cc

-- The time between two readings of a clock that is not set back, within 64 bits.
elapsed_ns-eq :
    (sec nsec sec' nsec' host : ℕ)
    → sec * 1000000000 + nsec + host ≡ sec' * 1000000000 + nsec'
    → nsec < 2 ^ 64
    → sec < 2 ^ 64
    → host < 2 ^ 64
    → elapsed_ns (sec, nsec) (sec', nsec') ≡ host
unfolding elapsed_ns
elapsed_ns-eq sec nsec sec' nsec' host e a b c = omega arith

-- The nanoseconds that an injection waits at least: `usleep` sleeps as many microseconds as it is
-- given, and the busy wait ends once its nanoseconds have passed.
unfoldable pub waited_ns : Injected → ℕ
waited_ns nothing_injected = 0
waited_ns (slept microseconds) = microseconds * 1000
waited_ns (spun nanoseconds) = nanoseconds

-- What the injection pass does for a region, by the two times. The microseconds of a sleep are a
-- number of 32 bits.
abbrev pub DelaySound : RegionState → Type 0
DelaySound r =
    let t_host = r.host_independent_work_ns in
    let t_vortex = r.vortex_timing.total_time_ns in
    ((r.latency_hidden ≡ true) × (t_vortex ≤ t_host) × (inject r ≡ nothing_injected))
    ⊎ ((r.latency_hidden ≡ false)
        × (t_host + r.injection_delay_ns ≡ t_vortex)
        × (inject r ≢ nothing_injected)
        × (waited_ns (inject r) ≤ (t_vortex - t_host) % (2 ^ 32 * 1000))
        × ((t_vortex - t_host) % (2 ^ 32 * 1000) < waited_ns (inject r) + 1000))

with_delay-DelaySound :
    (decide : RegionState → Knobs) (r : RegionState)
    → r.host_independent_work_ns < 2 ^ 63
    → r.vortex_timing.total_time_ns < 2 ^ 63
    → DelaySound (with_delay decide r)
unfolding with_delay inject waited_ns
with_delay-DelaySound decide r h v = elim (Bool-cases (with_delay decide r).latency_hidden) [
  | inl e ↦ inl (e, ground arith, ground arith)
  | inr e ↦ inr (e, ground arith, ground arith, ground arith, ground arith)
]

-- The context after a region's work on the host was timed in the profiling pass.
abbrev pub timed : Context → ℕ → ℕ × ℕ → ℕ × ℕ → Context
timed ctx id start stop = work_end (work_start (set_profiling_mode ctx) id start) id stop

timed_lem :
    (ctx : Context) (id : ℕ) (start stop : ℕ × ℕ)
    → ((timed ctx id start stop).regions
        ≡ modify ctx.regions id
            (λ r. record r { host_independent_work_ns = elapsed_ns start stop }))
      × ((timed ctx id start stop).mode ≡ profiling)
unfolding work_end work_start set_profiling_mode
timed_lem ctx id start stop = (refl, refl)

sync_point-profiling :
    (decide : RegionState → Knobs) (ctx : Context) (id : ℕ)
    → ctx.mode ≡ profiling
    → (sync_point decide ctx id).1.regions ≡ modify ctx.regions id (with_delay decide)
unfolding sync_point
sync_point-profiling decide ctx id m = rw m refl

sync_point-injection :
    (decide : RegionState → Knobs) (ctx : Context) (id : ℕ)
    → (sync_point decide (set_injection_mode ctx).1 id).0 ≡ injected_at (get_elem? ctx.regions id)
unfolding sync_point set_injection_mode
sync_point-injection decide ctx id = refl

-- For a region of the context, whose work on the host takes `host` nanoseconds below 2 ^ 63 by a
-- clock of 64 bits, with any JIT and a conversion of cycles whose times are below 2 ^ 63: when its
-- launch in the profiling pass succeeds, then after the sync point the region has `host` as its
-- work; it is hidden exactly when its kernel takes no longer than that; where it is not, the delay
-- is the difference of the two times; a sync point of the injection pass does nothing where the
-- region is hidden, and elsewhere waits for that difference modulo 2 ^ 32 microseconds, short of it
-- by less than a microsecond; and no other region has changed.
pub measured_region :
    (cycles_to_ns : ℕ → ℕ) (decide : RegionState → Knobs) (ctx : Context) (id : ℕ) (r : RegionState)
    (sec nsec sec' nsec' host : ℕ) (a : LaunchAnswers)
    → ((c : ℕ) → cycles_to_ns c < 2 ^ 63)
    → get_elem? ctx.regions id ≡ some r
    → sec * 1000000000 + nsec + host ≡ sec' * 1000000000 + nsec'
    → sec < 2 ^ 64
    → nsec < 2 ^ 64
    → host < 2 ^ 63
    → (twopass_launch_kernel cycles_to_ns (timed ctx id (sec, nsec) (sec', nsec')) id a).0 ≡ 0
    → let launched =
        (twopass_launch_kernel cycles_to_ns (timed ctx id (sec, nsec) (sec', nsec')) id a).1 in
      let synced = (sync_point decide launched id).1 in
      (r' : RegionState) × (get_elem? synced.regions id ≡ some r')
      × (r'.host_independent_work_ns ≡ host)
      × DelaySound r'
      × ((sync_point decide (set_injection_mode synced).1 id).0 ≡ inject r')
      × ((j : ℕ) → j ≢ id → get_elem? synced.regions j ≡ get_elem? ctx.regions j)
measured_region cycles_to_ns decide ctx id r sec nsec sec' nsec' host a conv here e s n h done =
    let start : ℕ × ℕ = (sec, nsec) in
    let stop : ℕ × ℕ = (sec', nsec') in
    let ctx1 = timed ctx id start stop in
    let before = timed_lem ctx id start stop in
    let launched = twopass_launch_kernel cycles_to_ns ctx1 id a in
    let (t, same_regions, same_mode, converted) =
      launch-Launched cycles_to_ns ctx1 id a before.1 done in
    let synced = sync_point-profiling decide launched.1 id (same_mode ∙ before.1) in
    let timing = λ (q : RegionState). record q { vortex_timing = t } in
    let working =
      λ (q : RegionState). record q { host_independent_work_ns = elapsed_ns start stop } in
    let all_regions =
      synced
      ∙ ap (λ xs. modify xs id (with_delay decide))
          (same_regions ∙ ap (λ xs. modify xs id timing) before.0) in
    let r' = with_delay decide (timing (working r)) in
    let found =
      ap (λ xs. get_elem? xs id) all_regions
      ∙ get_elem?-modify_self _ id (with_delay decide) (timing (working r)) (
          get_elem?-modify_self _ id timing (working r)
            (get_elem?-modify_self ctx.regions id working r here)) in
    let host_time = elapsed_ns-eq sec nsec sec' nsec' host e n s (omega arith) in
    (
      r',
      found,
      unfold with_delay in host_time,
      with_delay-DelaySound decide (timing (working r)) (omega (arith, host_time))
          (omega (arith, converted, conv t.total_cycles)),
      sync_point-injection decide _ id ∙ ap injected_at found,
      λ j d.
          ap (λ xs. get_elem? xs j) all_regions
          ∙ get_elem?-modify_other _ id j (with_delay decide) d
          ∙ get_elem?-modify_other _ id j timing d
          ∙ get_elem?-modify_other ctx.regions id j working d,
    )
