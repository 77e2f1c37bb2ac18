-- ===== src/Cli.antt =====
-- cli/main.cc: the callback of each subcommand, as a function of its options and of the store. The
-- options are what CLI11 has read. A callback that calls `ExitWithError` is a `fail`: its message
-- and a line feed go to the standard error, and the process exits with 1; nothing is written to the
-- standard output before. A `printed` result goes to the standard output, and the process exits
-- with 0. The reply of PING, `none` for an error of the client, is an argument.
pub mod Print
pub mod Worker
pub mod Refusals
pub mod Enqueued
use crunchytask.Common.{
  ℕ, ℤ, pos, ltb_ℤ, String, ◌==◌, ◌<>◌, Bool, true, false, not, Option, none, some, List, [], ◌∷◌,
  ◌++◌, map, if◌then◌else◌, Piece, words, number, document, Written, sort, text_less,
}
use crunchytask.Outside.Floats.{Floats}
use crunchytask.Outside.Json.{JsonLib}
use crunchytask.Outside.Lua.{Lua}
use crunchytask.Outside.Redis.{Redis}
use crunchytask.ParseResult.{ParseResult, ok, fail, ◌>>=◌}
use crunchytask.Config.{config_valid, ConfigValidation, validate_redis_uri, validate_delay_ms}
use crunchytask.Task.Id.{TaskId, parse_id}
use crunchytask.Task.Status.{TaskStatus, task_status_to_string}
use crunchytask.Task.Result.{TaskResult}
use crunchytask.Task.Message.{create, create_with_delay}
use crunchytask.Wire.{Message, message_to_json, retry_policy_from_json, result_to_json}
use crunchytask.Heartbeat.{WorkerHeartbeat, Numerals, WorkerKeys, list_workers}
use crunchytask.Metrics.{MetricsSnapshot}
use crunchytask.Metrics.Format.{format_metrics_plain_text, format_metrics_prometheus}
use crunchytask.Scripts.{Reply, returned}
use crunchytask.Broker.{
  Store, BrokerStats, enqueue, get_status, get_failure_reason, get_task_result, get_stats,
  list_dead_tasks, retry_dead_task,
}
use crunchytask.Broker.Collect.{collect_metrics}
use crunchytask.Cli.Print.{
  Ended, status_of_id, result_of_id, print_stats, print_workers, failed_list, retry_of_id,
  metrics_in,
}

-- `RedisBroker::Ping`
unfoldable pub ping : Option String → Bool
ping none = false
ping (some reply) = reply == "PONG"

unfoldable pub ensure_redis : Option String → String → ConfigValidation
unfolding ping
ensure_redis reply redis_uri =
    if ping reply
    then ok config_valid
    else fail
        ("Redis not available at " <> redis_uri <> "\nStart Redis with: docker compose up -d redis")

-- What every callback begins with.
unfoldable pub checked : Option String → String → ConfigValidation
unfolding ensure_redis
checked reply redis_uri = validate_redis_uri redis_uri >>= λ _. ensure_redis reply redis_uri

module _ (F : Floats) (J : JsonLib F.Double) (L : Lua F.Double J.Text)
    (R : Redis F.Double J.Text F.leb) (N : Numerals) (null : J.Json)
    (array : List J.Json → J.Json) where
  open J use {Json, Text, object, set_member, of_string, dump, parse}

  unfoldable pub parse_payload_json : Text → ParseResult Json
  parse_payload_json payload_json = elim (parse payload_json) [
    | ok json ↦ ok json
    | fail what ↦ fail ("invalid JSON payload: " <> what)
  ]

  -- The options of `enqueue`; an empty `retry_policy_json` is `none`.
  pub record EnqueueOptions : Type 0 where
    pub task_name : String
    pub payload_json : Text
    pub delay_ms : ℤ
    pub retry_policy_json : Option Text

  unfoldable pub with_policy : Option Text → Message F J → ParseResult (Message F J)
  unfolding parse_payload_json
  with_policy none task = ok task
  with_policy (some json) task = parse_payload_json json >>= λ j.
      retry_policy_from_json F J j >>= λ policy. ok (record task { retry_policy = policy })

  -- The task that `enqueue` makes.
  unfoldable pub task_of : EnqueueOptions → (ℕ → ℕ) → ℤ → ParseResult (Message F J)
  unfolding with_policy create create_with_delay
  task_of options drawn now = parse_payload_json options.payload_json >>= λ payload.
      (if ltb_ℤ (pos 0) options.delay_ms
        then create_with_delay F drawn now options.task_name payload options.delay_ms
        else ok (create F drawn now options.task_name payload))
      >>= λ task. with_policy options.retry_policy_json task

  -- The end of the callback; the id was drawn with the task.
  unfoldable pub enqueued :
      (ℕ → ℕ)
      → ℤ
      → ParseResult (Message F J)
      → Store F J L R
      → Ended F J L R null array × Store F J L R
  unfolding enqueue
  enqueued drawn now (fail message) d = (fail message, d)
  enqueued drawn now (ok task) d =
      let (id, after) = enqueue F J L R now drawn task d in
      (ok (words id.value ∷ words "\n" ∷ []), after)

  -- The subcommands, with their options.
  pub data Command : Type 0 where
    enqueue_cmd : EnqueueOptions → Command
    status_cmd result_cmd : String → String → Command
    stats_cmd workers_list_cmd : Command
    failed_list_cmd metrics_cmd : String → Command
    failed_retry_cmd : String → Command

  -- The world of one call: the drawn bytes, the clock at `Create` and at `Enqueue`, the reply of PING
  -- and the URI.
  pub record Call : Type 0 where
    pub drawn : ℕ → ℕ
    pub created_at : ℤ
    pub now : ℤ
    pub reply : Option String
    pub redis_uri : String

  unfoldable pub enqueue_command :
      Call → EnqueueOptions → Store F J L R → Ended F J L R null array × Store F J L R
  unfolding ensure_redis task_of enqueued
  enqueue_command c options d =
      enqueued c.drawn c.now
        (validate_redis_uri c.redis_uri >>= λ _. validate_delay_ms options.delay_ms >>= λ _.
          ensure_redis c.reply c.redis_uri >>= λ _. task_of options c.drawn c.created_at)
        d

  unfoldable pub status_command : Call → String → String → Store F J L R → Ended F J L R null array
  unfolding checked
  status_command c task_id format d = checked c.reply c.redis_uri >>= λ _.
      parse_id task_id >>= λ id. status_of_id F J L R null array format id d

  unfoldable pub result_command : Call → String → String → Store F J L R → Ended F J L R null array
  unfolding checked
  result_command c task_id format d = checked c.reply c.redis_uri >>= λ _.
      parse_id task_id >>= λ id. result_of_id F J L R null array format id d

  unfoldable pub stats_command : Call → Store F J L R → Ended F J L R null array
  unfolding checked
  stats_command c d =
      checked c.reply c.redis_uri >>= λ _. ok (print_stats F J L R null array (get_stats F J L R d))

  unfoldable pub workers_list_command : Call → WorkerKeys → Ended F J L R null array
  unfolding checked
  workers_list_command c keys = checked c.reply c.redis_uri >>= λ _.
      ok (print_workers F J L R null array (list_workers N keys))

  unfoldable pub failed_list_command :
      (ℤ → String) → Call → String → Store F J L R → Ended F J L R null array
  unfolding checked
  failed_list_command digits c format d = checked c.reply c.redis_uri >>= λ _.
      failed_list F J L R null array format (list_dead_tasks F J L R digits d) d

  unfoldable pub failed_retry_command :
      Call → String → Store F J L R → Reply (Ended F J L R null array) × Store F J L R
  unfolding checked
  failed_retry_command c task_id d =
      retry_of_id F J L R null array (checked c.reply c.redis_uri >>= λ _. parse_id task_id) d

  unfoldable pub metrics_command :
      Call → String → WorkerKeys → Store F J L R → Ended F J L R null array
  unfolding checked
  metrics_command c format keys d = checked c.reply c.redis_uri >>= λ _.
      metrics_in F J L R null array format (collect_metrics F J L R N keys d)

  -- What CLI11 does once it has read the subcommand and its options: the one callback. `worker start`
  -- has no command here: it runs until a signal (Cli/Worker).
  unfoldable pub run_command :
      (ℤ → String)
      → Call
      → Command
      → WorkerKeys
      → Store F J L R
      → Reply (Ended F J L R null array) × Store F J L R
  unfolding enqueue_command status_command result_command stats_command workers_list_command
      failed_list_command failed_retry_command metrics_command
  run_command digits c (enqueue_cmd options) keys d =
      let (end, after) = enqueue_command c options d in (returned end, after)
  run_command digits c (status_cmd task_id format) keys d =
      (returned (status_command c task_id format d), d)
  run_command digits c (result_cmd task_id format) keys d =
      (returned (result_command c task_id format d), d)
  run_command digits c stats_cmd keys d = (returned (stats_command c d), d)
  run_command digits c workers_list_cmd keys d = (returned (workers_list_command c keys), d)
  run_command digits c (failed_list_cmd format) keys d =
      (returned (failed_list_command digits c format d), d)
  run_command digits c (failed_retry_cmd task_id) keys d = failed_retry_command c task_id d
  run_command digits c (metrics_cmd format) keys d = (returned (metrics_command c format keys d), d)
