-- ===== src/Tests/Loop.antt =====
-- A worker in `Run` of one thread: it reserves the task, hands it to its pool, and is stopped.
use crunchytask.Common.{◌⊎◌, false, ℕ, ◌+◌, pos, ◌≡◌, true, List, [], ◌∷◌, length, refl, arith}
use crunchytask.Wire.{Message, message_to_json}
use crunchytask.Broker.{Store}
use crunchytask.Pool.{in_flight_count, new_pool, waits}
use crunchytask.Worker.Loop.{
  closing, escaped, top, finish_task, finishes_task, takes_task, exits_thread, Setup, Clock, Beat,
  Machine, Runs, enters, advances, stops, exits_thread, new_worker, enter_run, advance, hand,
  stop_worker,
}
use crunchytask.Worker.Loop.Stopping.{stays, loop_then, stop-ends}
use crunchytask.Tests.Json.{Json}
use crunchytask.Tests.Libraries.{floats, json_lib, lua}
use crunchytask.Tests.Server.{server}
use crunchytask.Tests.Broker.{mail, digits, empty_store}
use crunchytask.Tests.Worker.{registry}
use crunchytask.Tests.Heartbeat.{numerals, no_workers}

abbrev setup : Setup Json
setup = record {
  settings = record {
    concurrency = 1;
    poll_interval = pos 100;
    visibility_timeout = pos 30000;
    heartbeat_interval = pos 5000;
  };
  registry = registry;
  worker_id = "w1";
  hostname = "host";
  pid = pos 7;
  heartbeat_ttl_seconds = pos 15;
}

abbrev clock : ℕ → Clock
clock n = record { steady = pos (n + 1); seen = pos n; ticked = pos n; reserved = pos n }

abbrev Worker : Type 0
Worker = Machine floats json_lib lua server numerals

abbrev one_task : Store floats json_lib lua server
one_task = record empty_store { pending = message_to_json floats json_lib mail ∷ [] }

-- A run, with what it has done.
record History : Type 0 where
  pub reserved : List (Message floats json_lib)
  pub beats : List Beat
  pub count : ℕ
  pub machine : Worker
  pub run : Runs floats json_lib lua server numerals setup digits reserved beats count machine

abbrev entered : History
entered = record {
  reserved = [];
  beats = [];
  count = 0;
  machine =
      enter_run floats json_lib lua server numerals (pos 3)
        (new_worker floats json_lib lua server numerals setup one_task no_workers);
  run = enters (pos 3) one_task no_workers;
}

abbrev next : ℕ → History → History
next n h = record {
  reserved = _;
  beats = _;
  count = _;
  machine = _;
  run = advances h.run (clock n);
}

-- As far as the task in the loop's hand.
abbrev in_hand : History
in_hand = next 5 (next 4 (next 3 (next 2 (next 1 entered))))

abbrev first_or : Message floats json_lib → List (Message floats json_lib) → Message floats json_lib
first_or m [] = m
first_or m (x ∷ xs) = x

abbrev reserved_task : Message floats json_lib
reserved_task = first_or mail (hand floats json_lib lua server numerals in_hand.machine.phase)

-- The task is submitted.
abbrev submitted : History
submitted = next 6 in_hand

submitted-parts :
    (submitted.machine.pool.threads ≡ waits ∷ [])
    × (submitted.machine.pool.tasks ≡ reserved_task ∷ [])
    × (submitted.machine.phase ≡ top)
    × (length submitted.reserved ≡ 1)
unfolding advance new_worker enter_run crunchytask.Common.◌-ℤ◌ crunchytask.Pool.new_pool
    crunchytask.Broker.promote_due_tasks crunchytask.Broker.promote_loop
    crunchytask.Scripts.scripts_promote_one crunchytask.Scripts.promote_one_script
    crunchytask.Tests.Server.due_in crunchytask.Broker.reclaim_stale_tasks
    crunchytask.Broker.reserve crunchytask.Scripts.scripts_reserve
    crunchytask.Scripts.reserve_script crunchytask.Tests.Libraries.index
    crunchytask.Tests.Libraries.member crunchytask.Wire.task_message_from_json_string
    crunchytask.Wire.task_message_from_json crunchytask.Wire.parse_task_schema_version
    crunchytask.Broker.after_promotion crunchytask.Broker.after_reclaim
    crunchytask.Broker.read_reserved crunchytask.Broker.reclaim_each crunchytask.Common.insert
    crunchytask.Common.lookup crunchytask.Config.validate_retry_policy crunchytask.Heartbeat.hset
    crunchytask.Heartbeat.hset_fields crunchytask.Heartbeat.upsert_worker_heartbeat
    crunchytask.Heartbeat.worker_key crunchytask.Outside.Redis.score_of in_flight_count
    crunchytask.Pool.shut_down crunchytask.Pool.submit crunchytask.Scheduler.run_scheduler_tick
    crunchytask.Scripts.decode_table crunchytask.Scripts.decode_with
    crunchytask.Scripts.promote_member crunchytask.Scripts.promote_message
    crunchytask.Scripts.reclaim_message crunchytask.Scripts.reclaim_one_script
    crunchytask.Scripts.reclaim_text crunchytask.Scripts.requeue crunchytask.Scripts.reserve_message
    crunchytask.Scripts.reserve_text crunchytask.Scripts.scripts_reclaim_one
    crunchytask.Task.Id.is_hex_digit crunchytask.Task.Id.is_valid_uuid_format
    crunchytask.Task.Id.parse_id crunchytask.Task.Id.uuid_chars_from
    crunchytask.Task.Status.task_status_from_string crunchytask.Task.Status.task_status_to_string
    crunchytask.Tests.Json.same crunchytask.Wire.parse_double_field
    crunchytask.Wire.parse_int64_field crunchytask.Wire.parse_int_field
    crunchytask.Wire.parse_last_error crunchytask.Wire.parse_string_field
    crunchytask.Wire.parse_time crunchytask.Wire.require_field
    crunchytask.Wire.retry_policy_from_json crunchytask.Worker.Loop.advance_at
    crunchytask.Worker.Loop.fetch crunchytask.Worker.Loop.fetched
    crunchytask.Worker.Loop.heartbeat_of crunchytask.Worker.Loop.maybe_publish_heartbeat
    crunchytask.Worker.Settings.can_accept_task crunchytask.Worker.Settings.heartbeat_due
    crunchytask.Wire.message_to_json crunchytask.Wire.set_time crunchytask.Wire.set_last_error
    crunchytask.Wire.required_members crunchytask.Wire.policy_to_json
submitted-parts = (refl, refl, refl, refl)

abbrev onwards : ℕ → Worker → Worker
onwards n m = advance floats json_lib lua server numerals setup digits (clock n) m

-- The worker that has the task in its hand is stopped.
abbrev interrupted : Worker
interrupted = stop_worker floats json_lib lua server numerals in_hand.machine

abbrev ended : Worker
ended = onwards 10 (onwards 9 (onwards 8 (onwards 7 (onwards 6 interrupted))))

interrupted-stopped : interrupted.running ≡ false
unfolding stop_worker
interrupted-stopped = refl

stop-ends_example : (ended.phase ≡ closing) ⊎ (ended.phase ≡ escaped)
stop-ends_example =
    stop-ends floats json_lib lua server numerals {m = interrupted} {t = ended}
      (loop_then (clock 6) (
        loop_then (clock 7)
          (loop_then (clock 8) (loop_then (clock 9) (loop_then (clock 10) stays)))))
      interrupted-stopped (omega arith)
