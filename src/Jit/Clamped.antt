-- ===== src/Jit/Clamped.antt =====
-- `cira_jit_clamp_to_hw`: the decision keeps the limits.
use cxlmem_uring.Base.{◌≤◌, Bool, arith}
use cxlmem_uring.Jit.{HwLimits, Decision, clamp_to_hw, clamp_batch, clamp_depth, clamp_distance}

-- Limits that leave room: a batch, and one step of a traversal.
pub record Roomy (hw : HwLimits) : Type 0 where
  pub batch_room : hw.min_batch_size ≤ hw.max_batch_size
  pub depth_room : 1 ≤ hw.max_traversal_depth

module _ {ℓ} (Split : Type ℓ) (none_host all_host : Split)
    (below_zero above_one : Split → Bool) where
  -- For limits that leave room, and any decision: the clamped decision has a batch between the two
  -- limits, a depth from 1 to its limit, and a distance up to its limit.
  pub clamp_to_hw_lem :
      (hw : HwLimits) (d : Decision Split)
      → Roomy hw
      → let d' = clamp_to_hw Split none_host all_host below_zero above_one hw d in
        (hw.min_batch_size ≤ d'.batch_size)
        × (d'.batch_size ≤ hw.max_batch_size)
        × (1 ≤ d'.traversal_depth)
        × (d'.traversal_depth ≤ hw.max_traversal_depth)
        × (d'.pipeline_distance ≤ hw.max_pipeline_distance)
  unfolding clamp_to_hw clamp_batch clamp_depth clamp_distance
  clamp_to_hw_lem hw d r =
      let b = r.batch_room in
      let e = r.depth_room in (ground arith, ground arith, ground arith, ground arith, ground arith)
