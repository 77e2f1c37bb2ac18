-- ===== src/Task/Message.antt =====
-- include/taskqueue/task_message.h, src/task_message.cc, and `ShouldRetry` of src/retry_policy.cc.
-- The clock's reading and the drawn bytes are arguments.
use crunchytask.Common.{ℕ, ℤ, pos, ◌+ℤ◌, String, Bool, Option, none, some, ltb_ℤ}
use crunchytask.Outside.Floats.{Floats}
use crunchytask.ParseResult.{ParseResult, ok, fail}
use crunchytask.Task.Status.{TaskStatus, pending}
use crunchytask.Task.Id.{TaskId, generate}
use crunchytask.Task.Policy.{RetryPolicy, default_policy}
use crunchytask.Config.{validate_delay_ms}

pub record TaskMessage (Double Json : Type 0) : Type 0 where
  pub id : TaskId
  pub name : String
  pub payload : Json
  pub status : TaskStatus
  pub retry_count : ℤ
  pub retry_policy : RetryPolicy Double
  pub created_at_ms : ℤ
  pub run_at_ms : Option ℤ
  pub reserved_at_ms : Option ℤ
  pub last_error : String

module _ {Double Json : Type 0} where
  abbrev pub should_retry : TaskMessage Double Json → Bool
  should_retry task = ltb_ℤ task.retry_count task.retry_policy.max_retries

module _ (F : Floats) {Json : Type 0} where
  open F use {Double}

  unfoldable pub create : (ℕ → ℕ) → ℤ → String → Json → TaskMessage Double Json
  unfolding default_policy
  create drawn now name payload = record {
    id = generate drawn;
    name = name;
    payload = payload;
    status = pending;
    retry_count = pos 0;
    retry_policy = default_policy F;
    created_at_ms = now;
    run_at_ms = none;
    reserved_at_ms = none;
    last_error = "";
  }

  -- `fail` where the source throws `std::invalid_argument`.
  unfoldable pub create_with_delay :
      (ℕ → ℕ) → ℤ → String → Json → ℤ → ParseResult (TaskMessage Double Json)
  unfolding create ◌+ℤ◌
  create_with_delay drawn now name payload delay_ms = elim (validate_delay_ms delay_ms) [
    | fail e ↦ fail e
    | ok _ ↦
        let message = create drawn now name payload in
        ok (record message { run_at_ms = some (message.created_at_ms +ℤ delay_ms) })
  ]
