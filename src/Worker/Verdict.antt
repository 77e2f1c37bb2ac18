-- ===== src/Worker/Verdict.antt =====
-- What a client reads of a task once a worker has processed it.
use crunchytask.Common.{
  pos, ℤ, String, ◌≡◌, true, false, [], if◌then◌else◌, Bool, Bool-cases, inl, inr, ◌⊎◌,
}
use mathlib.Core.Path.{subst}
use crunchytask.Outside.Floats.{Floats}
use crunchytask.Outside.Json.{JsonLib}
use crunchytask.ParseResult.{ok}
use crunchytask.Task.Result.{TaskResult}
use crunchytask.Task.Status.{succeeded, retrying, dead}
use crunchytask.Task.Message.{should_retry}
use crunchytask.Wire.{Message}
use crunchytask.Worker.Registry.{TaskRegistry, has_task, execute}
use crunchytask.Worker.{
  Broker, settle, process_task, tasks_failed_total, task_execution_duration_ms,
}

module _ (F : Floats) (J : JsonLib F.Double) (B : Broker F J) where
  open J use {Json, object}
  open B use {
    Store, RetryRuns, FailRuns, record_counter, record_duration_ms, get_status, get_failure_reason,
    get_status-ack, get_status-retry, get_failure_reason-retry, get_status-fail,
    get_failure_reason-fail,
  }

  -- The task failed with this reason, and its status says whether it runs again.
  abbrev pub FailedWith : Message F J → String → Store → Type 0
  FailedWith task reason after =
      (get_status task.id after ≡ ok (if should_retry task then retrying else dead))
      × (get_failure_reason task.id after ≡ ok reason)

  abbrev pub OneOf : Bool → Type 0 → Type 0 → Type 0
  OneOf true again last = again
  OneOf false again last = last

  -- The call of Retry or Fail for this failure ends without an exception.
  abbrev pub FailureRuns : ℤ → Message F J → String → Store → Type 0
  FailureRuns now task reason d =
      OneOf (should_retry task) (RetryRuns now task reason) (FailRuns task.id reason d)

  settle-success :
      (now : ℤ) (task : Message F J) (result : TaskResult Json) (d : Store)
      → result.success ≡ true
      → get_status task.id (settle F J B now task result d) ≡ ok succeeded
  unfolding settle
  settle-success now task result d e = rw e (get_status-ack task.id d)

  settle-failure :
      (now : ℤ) (task : Message F J) (result : TaskResult Json) (d : Store)
      → result.success ≡ false
      → FailureRuns now task result.error_message (record_counter tasks_failed_total (pos 1) d)
      → FailedWith task result.error_message (settle F J B now task result d)
  unfolding settle
  settle-failure now task result d e runs = elim (Bool-cases (should_retry task)) [
    | inl again ↦
        let r : RetryRuns now task result.error_message =
          subst
            (λ b.
              OneOf b (RetryRuns now task result.error_message) (
                FailRuns task.id result.error_message
                  (record_counter tasks_failed_total (pos 1) d)))
            again runs in
        rw (e, again)
          (
            get_status-retry now task result.error_message _ r,
            get_failure_reason-retry now task result.error_message _ r,
          )
    | inr last ↦
        let r : FailRuns task.id result.error_message
            (record_counter tasks_failed_total (pos 1) d) =
          subst
            (λ b.
              OneOf b (RetryRuns now task result.error_message) (
                FailRuns task.id result.error_message
                  (record_counter tasks_failed_total (pos 1) d)))
            last runs in
        rw (e, last)
          (
            get_status-fail task.id result.error_message _ r,
            get_failure_reason-fail task.id result.error_message _ r,
          )
  ]

  -- A processed task with a handler is `succeeded` where its handler succeeds. Where the handler
  -- fails or throws, the task is `retrying` while its count is below its policy's, and `dead` from
  -- then on, with the handler's message for the reason. Retry and Fail must end without an exception
  -- for this failure.
  pub process_task-handled :
      (registry : TaskRegistry Json) (now duration_ms : ℤ) (task : Message F J) (d : Store)
      → has_task task.name registry ≡ true
      → FailureRuns now task (execute (object []) task.name task.payload registry).error_message (
          record_counter tasks_failed_total
            (pos 1)
            (record_duration_ms task_execution_duration_ms duration_ms d))
      → let result = execute (object []) task.name task.payload registry in
        let after = process_task F J B registry now duration_ms task d in
        ((result.success ≡ true) × (get_status task.id after ≡ ok succeeded))
        ⊎ ((result.success ≡ false) × FailedWith task result.error_message after)
  unfolding process_task
  process_task-handled registry now duration_ms task d e runs =
      let result = execute (object []) task.name task.payload registry in
      elim (Bool-cases result.success) [
        | inl s ↦ inl (s, rw e (settle-success now task result _ s))
        | inr s ↦ inr (s, rw e (settle-failure now task result _ s runs))
      ]
