-- ===== src/Config.antt =====
-- src/runtime_config.cc: the validation of settings. The environment variable is an argument.
use crunchytask.Common.{
  ℕ, ℤ, pos, String, ltb, ltb_ℤ, leb_ℤ, ◌==◌, Option, none, some, if◌then◌else◌,
}
use crunchytask.Outside.Floats.{Floats}
use crunchytask.ParseResult.{ParseResult, ok, fail}
use crunchytask.Task.Policy.{RetryPolicy}

pub data ConfigValid : Type 0 where
  config_valid : ConfigValid

abbrev pub ConfigValidation : Type 0
ConfigValidation = ParseResult ConfigValid

unfoldable pub validate_redis_uri : String → ConfigValidation
validate_redis_uri redis_uri =
    if redis_uri == "" then fail "redis uri must not be empty" else ok config_valid

unfoldable pub validate_worker_concurrency : ℕ → ConfigValidation
validate_worker_concurrency concurrency =
    if ltb concurrency 1 then fail "worker concurrency must be >= 1" else ok config_valid

unfoldable pub validate_visibility_timeout : ℤ → ConfigValidation
validate_visibility_timeout timeout =
    if leb_ℤ timeout (pos 0) then fail "visibility timeout must be > 0" else ok config_valid

unfoldable pub validate_poll_interval : ℤ → ConfigValidation
validate_poll_interval interval =
    if leb_ℤ interval (pos 0) then fail "poll interval must be > 0" else ok config_valid

unfoldable pub validate_delay_ms : ℤ → ConfigValidation
validate_delay_ms delay_ms =
    if ltb_ℤ delay_ms (pos 0) then fail "delay_ms must be >= 0" else ok config_valid

module _ (F : Floats) where
  open F use {Double, of_int, ltb as lt_double}

  unfoldable pub validate_retry_policy : RetryPolicy Double → ConfigValidation
  validate_retry_policy policy =
      if ltb_ℤ policy.max_retries (pos 0)
      then fail "retry max_retries must be >= 0"
      else if ltb_ℤ policy.base_delay_ms (pos 0)
      then fail "retry base_delay_ms must be >= 0"
      else if lt_double policy.multiplier (of_int (pos 0))
      then fail "retry multiplier must be >= 0"
      else ok config_valid

unfoldable pub default_redis_uri_from_env : Option String → String
default_redis_uri_from_env none = "tcp://127.0.0.1:6379"
default_redis_uri_from_env (some uri) = if uri == "" then "tcp://127.0.0.1:6379" else uri
