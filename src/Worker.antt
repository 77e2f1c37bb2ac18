-- ===== src/Worker.antt =====
-- src/worker.cc: `ProcessTask`, over the broker's calls that it makes. The time that the handler
-- takes and the clock's readings are arguments; the log is left out.
pub mod Loop
pub mod Registry
pub mod Service
pub mod Settings
pub mod Verdict
pub mod Budget
use crunchytask.Common.{ℤ, pos, String, ◌≡◌, ◌<>◌, Bool, [], if◌then◌else◌}
use crunchytask.Outside.Floats.{Floats}
use crunchytask.Outside.Json.{JsonLib}
use crunchytask.ParseResult.{ParseResult, ok}
use crunchytask.Task.Id.{TaskId}
use crunchytask.Task.Result.{TaskResult}
use crunchytask.Task.Status.{TaskStatus, succeeded, retrying, dead}
use crunchytask.Task.Message.{should_retry}
use crunchytask.Wire.{Message}
use crunchytask.Worker.Registry.{TaskRegistry, has_task, execute}

abbrev pub tasks_failed_total : String
tasks_failed_total = "tasks_failed_total"

abbrev pub task_execution_duration_ms : String
task_execution_duration_ms = "task_execution_duration_ms"

-- The methods of include/taskqueue/broker.h that a worker calls for a task, and what they promise
-- of the status and the reason that a client reads after them.
pub record Broker (F : Floats) (J : JsonLib F.Double) : Type 1 where
  pub Store : Type 0
  pub ack : TaskId → Store → Store
  pub retry : ℤ → Message F J → String → Store → Store
  pub fail_task : TaskId → String → Store → Store
  pub record_counter : String → ℤ → Store → Store
  pub record_duration_ms : String → ℤ → Store → Store
  pub get_status : TaskId → Store → ParseResult TaskStatus
  pub get_failure_reason : TaskId → Store → ParseResult String
  -- The call ends without an exception or an overflow.
  pub RetryRuns : ℤ → Message F J → String → Type 0
  pub FailRuns : TaskId → String → Store → Type 0
  pub get_status-ack : (id : TaskId) (d : Store) → get_status id (ack id d) ≡ ok succeeded
  pub get_status-retry :
      (now : ℤ) (task : Message F J) (reason : String) (d : Store)
      → RetryRuns now task reason
      → get_status task.id (retry now task reason d) ≡ ok retrying
  pub get_failure_reason-retry :
      (now : ℤ) (task : Message F J) (reason : String) (d : Store)
      → RetryRuns now task reason
      → get_failure_reason task.id (retry now task reason d) ≡ ok reason
  pub get_status-fail :
      (id : TaskId) (reason : String) (d : Store)
      → FailRuns id reason d
      → get_status id (fail_task id reason d) ≡ ok dead
  pub get_failure_reason-fail :
      (id : TaskId) (reason : String) (d : Store)
      → FailRuns id reason d
      → get_failure_reason id (fail_task id reason d) ≡ ok reason

module _ (F : Floats) (J : JsonLib F.Double) (B : Broker F J) where
  open J use {Json, object}
  open B use {Store, ack, retry, fail_task, record_counter, record_duration_ms}

  -- From `if (result.success)` on.
  unfoldable pub settle : ℤ → Message F J → TaskResult Json → Store → Store
  settle now task result d =
      if result.success
      then ack task.id d
      else if should_retry task
      then retry now task result.error_message (record_counter tasks_failed_total (pos 1) d)
      else fail_task task.id result.error_message (record_counter tasks_failed_total (pos 1) d)

  unfoldable pub process_task : TaskRegistry Json → ℤ → ℤ → Message F J → Store → Store
  unfolding settle
  process_task registry now duration_ms task d =
      if has_task task.name registry
      then settle now task (execute (object []) task.name task.payload registry)
          (record_duration_ms task_execution_duration_ms duration_ms d)
      else fail_task task.id ("unknown task: " <> task.name) d
