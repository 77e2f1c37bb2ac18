-- ===== src/Tests/Worker.antt =====
-- Runs of a worker.
use crunchytask.Common.{
  ℕ, ◌+◌, ℤ, pos, ltb, ◌≡◌, ◌⊎◌, true, false, [], ◌∷◌, Option, none, some, lookup, refl,
}
use crunchytask.ParseResult.{ok}
use crunchytask.Task.Status.{succeeded}
use crunchytask.Task.Message.{TaskMessage, should_retry}
use crunchytask.Scripts.{Reply, returned, raised}
use crunchytask.Scripts.Copies.{Present}
use crunchytask.Scripts.Names.{NamesTasks}
use crunchytask.Broker.{get_status}
use crunchytask.Worker.{process_task}
use crunchytask.Worker
use crunchytask.Worker.Budget.{after_failures, retry_budget}
use crunchytask.Worker.Registry.{
  throws, TaskHandler, TaskRegistry, register_task, has_task, execute, EndsAs,
  execute-register_task,
}
use crunchytask.Worker.Service.{redis_broker}
use crunchytask.Worker.Verdict.{FailedWith, process_task-handled}
use crunchytask.Scheduler.{Times, run_once}
use crunchytask.Scheduler.Once.{Rewritable, run_once-drops_nothing}
use crunchytask.Tests.Json.{Json, empty_object}
use crunchytask.Tests.Libraries.{floats, json_lib, lua, bridge}
use crunchytask.Tests.Server.{server}
use crunchytask.Tests.Broker.{
  mail, digits, one_pending, one_pending-NamesTasks, mail-RetryRuns, one_pending-Present,
}

abbrev Redis : Worker.Broker floats json_lib
Redis = redis_broker floats json_lib lua server

abbrev throwing : TaskHandler Json
throwing payload = throws "boom"

abbrev pub registry : TaskRegistry Json
registry = ("mail", throwing) ∷ []

execute-register_task_example :
    EndsAs
      (throws "boom")
      (execute empty_object "mail" empty_object (register_task "mail" throwing []))
    × (execute empty_object "report" empty_object (register_task "mail" throwing [])
        ≡ execute empty_object "report" empty_object [])
execute-register_task_example =
    execute-register_task empty_object empty_object "mail" "report" throwing [] refl

registered : has_task "mail" registry ≡ true
unfolding has_task lookup
registered = refl

process_task-handled_example :
    let result = execute empty_object "mail" mail.payload registry in
    let after = process_task floats json_lib Redis registry (pos 20) (pos 3) mail one_pending in
    ((result.success ≡ true) × (get_status floats json_lib lua server mail.id after ≡ ok succeeded))
    ⊎ ((result.success ≡ false) × FailedWith floats json_lib Redis mail result.error_message after)
process_task-handled_example =
    process_task-handled floats json_lib Redis registry (pos 20) (pos 3) mail one_pending registered
      mail-RetryRuns

abbrev times : ℕ → ℤ
times n = pos n

retry_budget_example :
    should_retry (after_failures floats json_lib lua server times "boom" 2 mail) ≡ ltb (1 + 2) 3
retry_budget_example = retry_budget floats json_lib lua server times "boom" 2 1 3 mail refl refl

abbrev clock : Times floats json_lib lua server
clock = record { ticked = pos 10; reserved = pos 11; settled = pos 12; duration_ms = pos 1 }

rewritable :
    (r : Reply (Option (TaskMessage ℤ Json)))
    → Rewritable floats json_lib lua server bridge registry clock.settled r
rewritable raised = tt
rewritable (returned none) = tt
rewritable (returned (some task)) = tt

run_once-drops_nothing_example :
    let after =
      (run_once floats json_lib lua server registry digits clock (pos 30000) one_pending).1 in
    NamesTasks floats lua server after
    × (Present floats lua server mail.id.value after
        ⊎ (get_status floats json_lib lua server mail.id after ≡ ok succeeded))
run_once-drops_nothing_example =
    run_once-drops_nothing floats json_lib lua server bridge digits registry clock (pos 30000)
      one_pending mail.id.value (rewritable _) one_pending-NamesTasks one_pending-Present
