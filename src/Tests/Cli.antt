-- ===== src/Tests/Cli.antt =====
-- Calls of the command line: one that is refused, and one that enqueues a task.
use crunchytask.Common.{pos, List, none, some}
use crunchytask.Cli.{Call, EnqueueOptions, failed_retry_cmd, run_command}
use crunchytask.Cli.Refusals.{UnchangedIfRefused, run_command-UnchangedIfRefused}
use crunchytask.Tests.Json.{Json, null, empty_object}
use crunchytask.Tests.Libraries.{floats, json_lib, lua}
use crunchytask.Tests.Server.{server}
use crunchytask.Tests.Broker.{mail, bytes, digits, one_pending}
use crunchytask.Tests.Heartbeat.{numerals, no_workers}

abbrev array : List Json → Json
array items = empty_object

abbrev call : Call floats json_lib lua server numerals null array
call = record {
  drawn = bytes;
  created_at = pos 5;
  now = pos 6;
  reply = some "PONG";
  redis_uri = "tcp://127.0.0.1:6379";
}

-- The task is not dead, so that it cannot be sent back.
run_command-UnchangedIfRefused_example :
    UnchangedIfRefused floats json_lib lua server numerals null array one_pending (
      run_command floats json_lib lua server numerals null array digits call
        (failed_retry_cmd mail.id.value)
        no_workers
        one_pending)
run_command-UnchangedIfRefused_example =
    run_command-UnchangedIfRefused floats json_lib lua server numerals null array digits call
      (failed_retry_cmd mail.id.value) no_workers one_pending

abbrev options : EnqueueOptions floats json_lib lua server numerals null array
options = record {
  task_name = "add";
  payload_json = empty_object;
  delay_ms = pos 0;
  retry_policy_json = none;
}
