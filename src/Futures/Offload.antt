-- ===== src/Futures/Offload.antt =====
-- runtime/src/CiraRuntime.cpp, `cira_offload_submit`: what its caller can wait for.
use cxlmem_uring.Base.{
  ℕ, ◌≡◌, ◌≢◌, ◌⊎◌, inl, inr, refl, Bool, true, false, Option, none, some, ◌==◌, arith, Bool-cases,
  List, [], ◌∷◌, ◌++◌,
}
use cxlmem_uring.Memory.{Memory}
use cxlmem_uring.Mmio.{Window, Rc, ok, einval, enodev, eio, etimedout, erange}
use cxlmem_uring.Mmio.Completion.{
  at_completion, arm_completion, signal_completion, signalled, signal_trace_whole,
}
use cxlmem_uring.Mmio.Submit.{submit_call}
use cxlmem_uring.Futures.{
  is_active, track_active_future, is_ok, operand_count, submit_mmio_call, offload_submit,
}

is_active-last : (p : ℕ) (active : List ℕ) → is_active p (active ++ (p ∷ [])) ≡ true
unfolding is_active
is_active-last p [] = ground arith
is_active-last p (q ∷ active) = rw (is_active-last p active) (ground arith)

track-is_active :
    (p : ℕ) (active : List ℕ) → p ≢ 0 → is_active p (track_active_future p active) ≡ true
unfolding track_active_future
track-is_active p active h = elim (Bool-cases (is_active p active)) [
  | inl there ↦ rw (given, there) there
  | inr new ↦ rw (given, new) (is_active-last p active)
]
  where
    given : (p == 0) ≡ false
    given = ground arith

is_ok-ok : (rc : Rc) → is_ok rc ≡ true → rc ≡ ok
unfolding is_ok
is_ok-ok ok e = refl
is_ok-ok einval e = cc
is_ok-ok enodev e = cc
is_ok-ok eio e = cc
is_ok-ok etimedout e = cc
is_ok-ok erange e = cc

submit_mmio_call-ok :
    (window : Option Window) (func operands num_operands completion device_func : ℕ) (m : Memory)
    → (submit_mmio_call window func operands num_operands completion device_func m).0 ≡ true
    → (w : Window) × (window ≡ some w)
      × ((submit_call
            (some w)
            func
            operands
            (operand_count num_operands)
            completion
            device_func
            m).rc
          ≡ ok)
unfolding submit_mmio_call
submit_mmio_call-ok none func operands num_operands completion device_func m e = cc
submit_mmio_call-ok (some w) func operands num_operands completion device_func m e =
    (w, refl, is_ok-ok _ e)

-- For an offload with a completion line that is not null, any window and any answer of it: the
-- completion is among the active futures; and either the job was accepted by the window, with no
-- operands where their number is negative, or the line shows success, signalled by the host.
pub offload_submit_lem :
    (window : Option Window) (func operands num_operands completion device_func : ℕ)
    (active : List ℕ) (m : Memory)
    → completion ≢ 0
    → let r = offload_submit window func operands num_operands completion device_func active m in
      (is_active completion r.active ≡ true)
      × (((r.submitted ≡ true)
            × (w : Window) × (window ≡ some w)
            × ((submit_call
                  (some w)
                  func
                  operands
                  (operand_count num_operands)
                  completion
                  device_func
                  (arm_completion completion m)).rc
                ≡ ok))
          ⊎ ((r.submitted ≡ false) × (at_completion completion r.memory ≡ signalled 0 0)))
unfolding offload_submit signal_completion
offload_submit_lem window func operands num_operands completion device_func active m h = (
  track-is_active completion active h,
  elim (Bool-cases sent.0) [
    | inl done ↦
        let by =
          submit_mmio_call-ok window func operands num_operands completion device_func
            (arm_completion completion m) done in
        inl (done, by.0, by.1, by.2)
    | inr refused ↦ inr (
      refused,
      rw (refused, given) (signal_trace_whole completion 0 0 sent.2 (omega arith) (omega arith)),
    )
  ],
)
  where
    sent : Bool × Option Window × Memory
    sent =
        submit_mmio_call window func operands num_operands completion device_func
          (arm_completion completion m)

    given : (completion == 0) ≡ false
    given = ground arith
