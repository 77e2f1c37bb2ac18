-- ===== src/Cli/Print.antt =====
-- cli/main.cc: what the subcommands print, and how a subcommand ends.
use crunchytask.Common.{
  pos, String, ◌==◌, ◌<>◌, Bool, not, Option, none, some, List, [], ◌∷◌, ◌++◌, map, if◌then◌else◌,
  Piece, words, number, document, Written, sort, text_less,
}
use crunchytask.Outside.Floats.{Floats}
use crunchytask.Outside.Json.{JsonLib}
use crunchytask.Outside.Lua.{Lua}
use crunchytask.Outside.Redis.{Redis}
use crunchytask.ParseResult.{ParseResult, ok, fail, ◌>>=◌}
use crunchytask.Task.Id.{TaskId}
use crunchytask.Task.Status.{TaskStatus, task_status_to_string}
use crunchytask.Task.Result.{TaskResult}
use crunchytask.Wire.{Message, message_to_json, result_to_json}
use crunchytask.Heartbeat.{WorkerHeartbeat}
use crunchytask.Metrics.{MetricsSnapshot}
use crunchytask.Metrics.Format.{format_metrics_plain_text, format_metrics_prometheus}
use crunchytask.Scripts.{Reply, returned, raised}
use crunchytask.Broker.{
  Store, BrokerStats, get_status, get_failure_reason, get_task_result, retry_dead_task,
}

unfoldable pub worker_less : WorkerHeartbeat → WorkerHeartbeat → Bool
worker_less left right =
    if not (left.hostname == right.hostname)
    then text_less left.hostname right.hostname
    else text_less left.worker_id right.worker_id

module _ (F : Floats) (J : JsonLib F.Double) (L : Lua F.Double J.Text)
    (R : Redis F.Double J.Text F.leb) (null : J.Json) (array : List J.Json → J.Json) where
  open J use {Json, Text, object, set_member, of_string, dump}

  -- What a callback ends with.
  abbrev pub Ended : Type 0
  Ended = ParseResult (Written Text)

  -- What `BuildTaskStatusJson` puts together.
  pub record TaskReport : Type 0 where
    pub task_id : String
    pub status : String
    pub failure_reason : Option String
    pub result : Option (TaskResult Json)

  abbrev pub when_ok {ℓ} : {A : Type ℓ} → ParseResult A → Option A
  when_ok (ok a) = some a
  when_ok (fail e) = none

  unfoldable pub task_report : TaskId → Store F J L R → ParseResult TaskReport
  task_report id d = get_status F J L R id d >>= λ status. ok (record {
    task_id = id.value;
    status = task_status_to_string status;
    failure_reason = when_ok (get_failure_reason F J L R id d);
    result = when_ok (get_task_result F J L R id d);
  })

  abbrev pub put_reason : Option String → Json → Json
  put_reason none json = json
  put_reason (some reason) json = set_member "failure_reason" (of_string reason) json

  abbrev pub put_result : Option (TaskResult Json) → Json → Json
  put_result none json = json
  put_result (some result) json = set_member "result" (result_to_json F J result) json

  unfoldable pub build_task_status_json : TaskId → Store F J L R → ParseResult Json
  unfolding task_report
  build_task_status_json id d = task_report id d >>= λ report. ok (
      put_result report.result (
        put_reason report.failure_reason (
          object (
            ("task_id", of_string report.task_id)
            ∷ ("status", of_string report.status)
            ∷ ("failure_reason", null)
            ∷ ("result", null)
            ∷ []))))

  abbrev pub reason_line : Option String → Written Text
  reason_line none = []
  reason_line (some reason) = words "failure_reason: " ∷ words reason ∷ words "\n" ∷ []

  abbrev pub result_line : Option (TaskResult Json) → Written Text
  result_line none = []
  result_line (some result) = words "result: " ∷ document (dump result.payload) ∷ words "\n" ∷ []

  -- `PrintTaskStatus` reads the fields of the report back from its JSON.
  unfoldable pub print_task_status : TaskId → Store F J L R → Ended
  unfolding task_report
  print_task_status id d = task_report id d >>= λ report. ok (
      (words "task_id: " ∷ words report.task_id ∷ words "\n" ∷ [])
      ++ (words "status: " ∷ words report.status ∷ words "\n" ∷ [])
      ++ reason_line report.failure_reason
      ++ result_line report.result)

  abbrev pub line_of : Json → Ended
  line_of json = ok (document (dump json) ∷ words "\n" ∷ [])

  unfoldable pub status_of_id : String → TaskId → Store F J L R → Ended
  unfolding build_task_status_json print_task_status
  status_of_id format id d =
      if format == "json"
      then build_task_status_json id d >>= line_of
      else if not (format == "text")
      then fail ("unsupported status format: " <> format)
      else print_task_status id d

  unfoldable pub print_task_result : TaskId → Store F J L R → Ended
  print_task_result id d = get_task_result F J L R id d >>= λ result. line_of result.payload

  unfoldable pub result_of_id : String → TaskId → Store F J L R → Ended
  unfolding print_task_result
  result_of_id format id d = get_task_result F J L R id d >>= λ task_result.
      (if format == "json"
        then line_of (result_to_json F J task_result)
        else if not (format == "text")
        then fail ("unsupported result format: " <> format)
        else print_task_result id d)

  unfoldable pub print_stats : BrokerStats → Written Text
  print_stats stats =
      words "pending: "
      ∷ number (pos stats.pending_count)
      ∷ words "\n"
      ∷ words "delayed: "
      ∷ number (pos stats.delayed_count)
      ∷ words "\n"
      ∷ words "running: "
      ∷ number (pos stats.running_count)
      ∷ words "\n"
      ∷ words "dead: "
      ∷ number (pos stats.dead_count)
      ∷ words "\n"
      ∷ []

  abbrev pub tab : Piece Text
  tab = words "\t"

  abbrev pub worker_row : WorkerHeartbeat → Written Text
  worker_row worker =
      words worker.worker_id
      ∷ tab
      ∷ words worker.hostname
      ∷ tab
      ∷ number worker.pid
      ∷ tab
      ∷ number (pos worker.concurrency)
      ∷ tab
      ∷ number (pos worker.currently_running)
      ∷ tab
      ∷ number worker.started_at_ms
      ∷ tab
      ∷ number worker.last_seen_ms
      ∷ words "\n"
      ∷ []

  unfoldable pub worker_rows : List WorkerHeartbeat → Written Text
  worker_rows [] = []
  worker_rows (worker ∷ workers) = worker_row worker ++ worker_rows workers

  unfoldable pub print_workers : List WorkerHeartbeat → Written Text
  unfolding worker_rows worker_less
  print_workers [] = words "No active workers\n" ∷ []
  print_workers (worker ∷ workers) =
      words "worker_id\thostname\tpid\tconcurrency\trunning\tstarted_at\tlast_seen\n"
      ∷ worker_rows (sort worker_less (worker ∷ workers))

  abbrev pub reason_or_unknown : ParseResult String → String
  reason_or_unknown (ok reason) = reason
  reason_or_unknown (fail e) = "unknown"

  -- The loop over the dead tasks.
  unfoldable pub failed_rows : List (Message F J) → Store F J L R → Written Text
  failed_rows [] d = []
  failed_rows (task ∷ tasks) d =
      words task.id.value
      ∷ tab
      ∷ words task.name
      ∷ tab
      ∷ number task.retry_count
      ∷ tab
      ∷ words (reason_or_unknown (get_failure_reason F J L R task.id d))
      ∷ words "\n"
      ∷ failed_rows tasks d

  unfoldable pub print_failed : List (Message F J) → Store F J L R → Written Text
  unfolding failed_rows
  print_failed [] d = words "No failed tasks\n" ∷ []
  print_failed (task ∷ tasks) d = failed_rows (task ∷ tasks) d

  unfoldable pub failed_list : String → List (Message F J) → Store F J L R → Ended
  unfolding print_failed
  failed_list format dead_tasks d =
      if format == "json"
      then line_of (array (map (message_to_json F J) dead_tasks))
      else if not (format == "text")
      then fail ("unsupported failed list format: " <> format)
      else ok (print_failed dead_tasks d)

  abbrev pub requeued_line : TaskId → ParseResult TaskStatus → Written Text
  requeued_line id (ok status) =
      words "requeued task "
      ∷ words id.value
      ∷ words " status="
      ∷ words (task_status_to_string status)
      ∷ words "\n"
      ∷ []
  requeued_line id (fail e) = []

  -- The end of `failed retry`.
  unfoldable pub requeued : Reply (ParseResult TaskId) × Store F J L R → Reply Ended × Store F J L R
  requeued (raised, d) = (raised, d)
  requeued (returned (fail message), d) = (returned (fail message), d)
  requeued (returned (ok id), d) = (returned (ok (requeued_line id (get_status F J L R id d))), d)

  -- No one catches the exception of a script's error.
  unfoldable pub retry_of_id : ParseResult TaskId → Store F J L R → Reply Ended × Store F J L R
  unfolding requeued
  retry_of_id (fail message) d = (returned (fail message), d)
  retry_of_id (ok id) d = requeued (retry_dead_task F J L R id d)

  unfoldable pub metrics_in : String → MetricsSnapshot → Ended
  metrics_in format snapshot =
      if format == "plain"
      then ok (format_metrics_plain_text Text snapshot)
      else if format == "prometheus"
      then ok (format_metrics_prometheus Text snapshot)
      else fail ("unsupported metrics format: " <> format)
