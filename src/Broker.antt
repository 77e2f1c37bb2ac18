-- ===== src/Broker.antt =====
-- src/redis_broker.cc and include/taskqueue/redis_broker.h: the broker over the store. The clock's
-- reading is an argument `now`, the bytes drawn for a fresh identifier `drawn`. A raised script
-- error is the exception that leaves the method.
pub mod Collect
pub mod Collector
pub mod Delivery
pub mod Fields
pub mod Fifo
pub mod History
pub mod Metering
pub mod Outcomes
pub mod Promotion
pub mod Reading
pub mod Recording
pub mod Revival
use crunchytask.Common.{
  ℕ, zero, suc, ℤ, pos, ◌+ℤ◌, ltb_ℤ, String, ◌≡◌, Bool, true, false, List, [], ◌∷◌, ◌==◌, ◌<>◌,
  Option, none, some, if◌then◌else◌, Dict, lookup, insert, remove, length,
}
use crunchytask.Outside.Floats.{Floats}
use crunchytask.Outside.Json.{JsonLib}
use crunchytask.Outside.Lua.{Lua}
use crunchytask.Outside.Redis.{
  Data, Redis, pending_key, dead_key, running_key, results_key, status_key, failures_key,
}
use crunchytask.ParseResult.{ParseResult, ok, fail}
use crunchytask.Task.Status.{
  TaskStatus, pending, retrying, task_status_to_string, task_status_from_string,
}
use crunchytask.Task.Id.{TaskId, generate}
use crunchytask.Task.Policy.{compute_retry_delay_ms}
use crunchytask.Task.Result.{TaskResult, success_result}
use crunchytask.Wire.{
  Message, message_to_json, task_message_from_json_string, result_to_json, task_result_from_json,
}
use crunchytask.Scripts.{
  Reply, returned, raised, scripts_reserve, scripts_promote_one, scripts_reclaim_one, scripts_retry,
  Done, done, scripts_fail, scripts_ack, scripts_retry_dead_task,
}

-- include/taskqueue/broker_stats.h
pub record BrokerStats : Type 0 where
  pub pending_count : ℕ
  pub delayed_count : ℕ
  pub running_count : ℕ
  pub dead_count : ℕ

-- The names of the counters, of include/taskqueue/metrics.h.
abbrev pub tasks_enqueued_total : String
tasks_enqueued_total = "tasks_enqueued_total"

abbrev pub tasks_completed_total : String
tasks_completed_total = "tasks_completed_total"

abbrev pub tasks_retried_total : String
tasks_retried_total = "tasks_retried_total"

abbrev pub tasks_dead_lettered_total : String
tasks_dead_lettered_total = "tasks_dead_lettered_total"

abbrev pub counter_field : String → String
counter_field name = "c:" <> name

module _ (F : Floats) (J : JsonLib F.Double) (L : Lua F.Double J.Text)
    (R : Redis F.Double J.Text F.leb) where
  open F use {Double, of_int}
  open J use {Json, Text, object, dump, can_dump, parse}
  open R use {lpush, lrange, zadd, hset_text, hget_text, hget_document}

  abbrev pub Store : Type 0
  Store = Data Double Text

  -- `HINCRBY taskq:metrics`; the counter starts at 0.
  unfoldable pub record_counter : String → ℤ → Store → Store
  record_counter name delta d = record d {
    metrics =
        insert (counter_field name)
          (elim (lookup (counter_field name) d.metrics) [ none ↦ delta | some n ↦ n +ℤ delta ])
          d.metrics;
  }

  -- `message` of Enqueue, once it has an identifier and the pending status.
  unfoldable pub with_id : (ℕ → ℕ) → Message F J → Message F J
  with_id drawn task =
      if task.id.value == ""
      then record task { id = generate drawn; status = pending }
      else record task { status = pending }

  abbrev pub is_delayed : ℤ → Option ℤ → Bool
  is_delayed now none = false
  is_delayed now (some run_at) = ltb_ℤ now run_at

  abbrev pub time_or : ℤ → Option ℤ → ℤ
  time_or default none = default
  time_or default (some t) = t

  -- The transaction of ZADD and HSET, or of LPUSH and HSET.
  unfoldable pub submit : ℤ → Message F J → Store → Store
  submit now message d =
      if is_delayed now message.run_at_ms
      then hset_text status_key message.id.value (task_status_to_string pending)
          (zadd (of_int (time_or now message.run_at_ms)) (dump (message_to_json F J message)) d)
      else hset_text status_key message.id.value (task_status_to_string pending)
          (lpush pending_key (dump (message_to_json F J (record message { run_at_ms = none }))) d)

  unfoldable pub enqueue : ℤ → (ℕ → ℕ) → Message F J → Store → TaskId × Store
  unfolding with_id submit record_counter
  enqueue now drawn task d =
      let message = with_id drawn task in
      (message.id, record_counter tasks_enqueued_total (pos 1) (submit now message d))

  -- How the loop `while (PromoteOneDueTask(now) > 0)` ends; `unfinished` where the fuel runs out.
  pub data LoopEnd : Type 0 where
    finished : Store → LoopEnd
    thrown : Store → LoopEnd
    unfinished : LoopEnd

  -- The loop's test on the script's reply; `more` is the rest of the loop.
  unfoldable pub after_promotion : (Store → LoopEnd) → Reply Bool × Store → LoopEnd
  after_promotion more (raised, after) = thrown after
  after_promotion more (returned true, after) = more after
  after_promotion more (returned false, after) = finished after

  unfoldable pub promote_loop : ℕ → ℤ → Store → LoopEnd
  unfolding after_promotion
  promote_loop zero now d = unfinished
  promote_loop (suc fuel) now d =
      after_promotion (promote_loop fuel now) (scripts_promote_one F L R now d)

  -- Each round that goes on takes a member out of the delayed set, so this fuel is enough.
  unfoldable pub promote_due_tasks : ℤ → Store → LoopEnd
  promote_due_tasks now d = promote_loop (suc (length d.delayed)) now d

  unfoldable pub read_reserved : (ℤ → String) → Reply (Option Text) → Reply (Option (Message F J))
  read_reserved digits raised = raised
  read_reserved digits (returned none) = returned none
  read_reserved digits (returned (some running_json)) =
      elim (task_message_from_json_string F J digits running_json) [
        | fail e ↦ returned none
        | ok message ↦ returned (some message)
      ]

  unfoldable pub reserve : (ℤ → String) → ℤ → Store → Reply (Option (Message F J)) × Store
  unfolding read_reserved
  reserve digits now d =
      let (running_json, after) = scripts_reserve F L R now d in
      (read_reserved digits running_json, after)

  -- `reclaimed += ...` and the rest of the loop, unless the script raised an error.
  unfoldable pub after_reclaim :
      (ℕ → Store → Reply ℕ × Store) → ℕ → Reply Bool × Store → Reply ℕ × Store
  after_reclaim rest reclaimed (raised, after) = (raised, after)
  after_reclaim rest reclaimed (returned true, after) = rest (suc reclaimed) after
  after_reclaim rest reclaimed (returned false, after) = rest reclaimed after

  -- The loop over the entries of `taskq:running`, which are read once before it.
  unfoldable pub reclaim_each : Dict Text → ℤ → ℤ → ℕ → Store → Reply ℕ × Store
  unfolding after_reclaim
  reclaim_each [] now timeout reclaimed d = (returned reclaimed, d)
  reclaim_each ((task_id, _) ∷ entries) now timeout reclaimed d =
      after_reclaim (reclaim_each entries now timeout) reclaimed
        (scripts_reclaim_one F L R task_id now timeout d)

  unfoldable pub reclaim_stale_tasks : ℤ → ℤ → Store → Reply ℕ × Store
  unfolding reclaim_each
  reclaim_stale_tasks now timeout d = reclaim_each d.running now timeout 0 d

  unfoldable pub ack : TaskId → Store → Store
  unfolding record_counter
  ack id d =
      record_counter tasks_completed_total (pos 1)
        (scripts_ack F L R id.value (dump (result_to_json F J (success_result (object [])))) d)

  -- `retry_task` of Retry.
  unfoldable pub retried : ℤ → Message F J → String → Message F J
  retried now task reason =
      let retry_count = task.retry_count +ℤ pos 1 in
      record task {
        retry_count = retry_count;
        last_error = reason;
        status = retrying;
        reserved_at_ms = none;
        run_at_ms = some (now +ℤ compute_retry_delay_ms F task.retry_policy retry_count);
      }

  -- The store that Retry leaves; where `dump` raises an exception nothing is written.
  unfoldable pub retry : ℤ → Message F J → String → Store → Store
  unfolding record_counter retried
  retry now task reason d =
      let retry_task = retried now task reason in
      let json = message_to_json F J retry_task in
      if can_dump json
      then record_counter tasks_retried_total (pos 1) (
          scripts_retry F L R task.id.value (dump json)
            (of_int (time_or (pos 0) retry_task.run_at_ms)) reason d)
      else d

  -- The rest of Fail, where the script has not raised an error.
  unfoldable pub counted_failure : Reply Done × Store → Store
  unfolding record_counter
  counted_failure (returned done, d) = record_counter tasks_dead_lettered_total (pos 1) d
  counted_failure (raised, d) = d

  -- The store that Fail leaves, where it ends by an exception too.
  unfoldable pub fail_task : TaskId → String → Store → Store
  unfolding counted_failure
  fail_task id reason d = counted_failure (scripts_fail F L R id.value reason d)

  unfoldable pub get_status : TaskId → Store → ParseResult TaskStatus
  get_status id d = elim (hget_text status_key id.value d) [
    | none ↦ fail ("task not found: " <> id.value)
    | some status ↦ task_status_from_string status
  ]

  unfoldable pub parse_all : (ℤ → String) → List Text → List (Message F J)
  parse_all digits [] = []
  parse_all digits (json_text ∷ items) =
      let rest = parse_all digits items in
      elim (task_message_from_json_string F J digits json_text) [
        | ok message ↦ message ∷ rest
        | fail e ↦ rest
      ]

  unfoldable pub list_dead_tasks : (ℤ → String) → Store → List (Message F J)
  unfolding parse_all
  list_dead_tasks digits d = parse_all digits (lrange dead_key d)

  unfoldable pub get_failure_reason : TaskId → Store → ParseResult String
  get_failure_reason id d = elim (hget_text failures_key id.value d) [
    | none ↦ fail ("failure reason not found: " <> id.value)
    | some reason ↦ ok reason
  ]

  -- The rest of RetryDeadTask; the exception of a script's error leaves it.
  unfoldable pub found_dead : TaskId → Reply Bool → Reply (ParseResult TaskId)
  found_dead id raised = raised
  found_dead id (returned true) = returned (ok id)
  found_dead id (returned false) = returned (fail ("dead task not found: " <> id.value))

  unfoldable pub retry_dead_task : TaskId → Store → Reply (ParseResult TaskId) × Store
  unfolding found_dead
  retry_dead_task id d =
      let (found, after) = scripts_retry_dead_task F L R id.value d in (found_dead id found, after)

  -- LLEN, ZCARD, HLEN and LLEN.
  unfoldable pub get_stats : Store → BrokerStats
  get_stats d = record {
    pending_count = length d.pending;
    delayed_count = length d.delayed;
    running_count = length d.running;
    dead_count = length d.dead;
  }

  unfoldable pub get_task_result : TaskId → Store → ParseResult (TaskResult Json)
  get_task_result id d = elim (hget_document results_key id.value d) [
    | none ↦ fail ("task result not found: " <> id.value)
    | some result_json ↦ elim (parse result_json) [
      | fail what ↦ fail ("invalid result json: " <> what)
      | ok json ↦ task_result_from_json F J json
    ]
  ]
