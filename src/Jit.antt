-- ===== src/Jit.antt =====
-- runtime/cira_jit.cpp, `cira_jit_clamp_to_hw`. The split between host and device is a float, of which
-- only the comparisons with 0 and 1 are used: its type and these are parameters.
pub mod Clamped
use cxlmem_uring.Base.{
  ℕ, ◌+◌, ◌/◌, ◌%◌, ◌^◌, Bool, true, false, not, ◌||◌, ltb, ◌==◌, if◌then◌else◌,
}

-- The four integer fields of `cira_hw_limits_t` that bound a decision.
pub record HwLimits : Type 0 where
  pub max_batch_size : ℕ
  pub min_batch_size : ℕ
  pub max_traversal_depth : ℕ
  pub max_pipeline_distance : ℕ

-- `cira_jit_decision_t` without the fields that no limit bounds.
pub record Decision {ℓ} (Split : Type ℓ) : Type ℓ where
  pub batch_size : ℕ
  pub traversal_depth : ℕ
  pub pipeline_distance : ℕ
  pub host_device_split : Split
  pub reason_bits : ℕ

unfoldable pub clamp_batch : HwLimits → ℕ → ℕ
clamp_batch hw n =
    let raised = if ltb n hw.min_batch_size then hw.min_batch_size else n in
    if ltb hw.max_batch_size raised then hw.max_batch_size else raised

unfoldable pub clamp_depth : HwLimits → ℕ → ℕ
clamp_depth hw n =
    let raised = if ltb n 1 then 1 else n in
    if ltb hw.max_traversal_depth raised then hw.max_traversal_depth else raised

unfoldable pub clamp_distance : HwLimits → ℕ → ℕ
clamp_distance hw n = if ltb hw.max_pipeline_distance n then hw.max_pipeline_distance else n

-- `|= CIRA_JIT_REASON_HW_CLAMPED`, bit 6.
unfoldable pub with_clamped : ℕ → ℕ
with_clamped bits = if bits / 2 ^ 6 % 2 == 1 then bits else bits + 2 ^ 6

-- Some field was put to a limit; a field that is put to a limit and to another one counts too.
unfoldable pub batch_clamped : HwLimits → ℕ → Bool
batch_clamped hw n =
    ltb n hw.min_batch_size
    || ltb hw.max_batch_size (if ltb n hw.min_batch_size then hw.min_batch_size else n)

unfoldable pub depth_clamped : HwLimits → ℕ → Bool
depth_clamped hw n = ltb n 1 || ltb hw.max_traversal_depth (if ltb n 1 then 1 else n)

module _ {ℓ} (Split : Type ℓ) (none_host all_host : Split)
    (below_zero above_one : Split → Bool) where
  unfoldable pub clamp_split : Split → Split
  clamp_split x =
      let raised = if below_zero x then none_host else x in
      if above_one raised then all_host else raised

  unfoldable pub split_clamped : Split → Bool
  split_clamped x = below_zero x || above_one (if below_zero x then none_host else x)

  unfoldable pub clamp_to_hw : HwLimits → Decision Split → Decision Split
  unfolding clamp_batch clamp_depth clamp_distance with_clamped batch_clamped depth_clamped
      clamp_split split_clamped
  clamp_to_hw hw d =
      let clamped =
        batch_clamped hw d.batch_size
        || (depth_clamped hw d.traversal_depth
            || (ltb hw.max_pipeline_distance d.pipeline_distance
                || split_clamped d.host_device_split)) in
      record {
        batch_size = clamp_batch hw d.batch_size;
        traversal_depth = clamp_depth hw d.traversal_depth;
        pipeline_distance = clamp_distance hw d.pipeline_distance;
        host_device_split = clamp_split d.host_device_split;
        reason_bits = if clamped then with_clamped d.reason_bits else d.reason_bits;
      }
