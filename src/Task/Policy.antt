-- ===== src/Task/Policy.antt =====
-- include/taskqueue/retry_policy.h and `ComputeRetryDelayMs` of src/retry_policy.cc.
pub mod Laws
use crunchytask.Common.{ℤ, pos, ◌-ℤ◌, leb_ℤ, if◌then◌else◌}
use crunchytask.Outside.Floats.{Floats}

pub record RetryPolicy (Double : Type 0) : Type 0 where
  pub max_retries : ℤ
  pub base_delay_ms : ℤ
  pub multiplier : Double

module _ (F : Floats) where
  open F use {Double, of_int, mul, pow, to_int64}

  -- `RetryPolicy{}`, with the defaults of its fields.
  unfoldable pub default_policy : RetryPolicy Double
  default_policy = record {
    max_retries = pos 3;
    base_delay_ms = pos 1000;
    multiplier = of_int (pos 2);
  }

  unfoldable pub compute_retry_delay_ms : RetryPolicy Double → ℤ → ℤ
  compute_retry_delay_ms policy retry_count =
      if leb_ℤ retry_count (pos 0)
      then policy.base_delay_ms
      else to_int64 (
          mul (of_int policy.base_delay_ms) (pow policy.multiplier (of_int (retry_count -ℤ pos 1))))
