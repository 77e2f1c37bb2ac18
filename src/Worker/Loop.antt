-- ===== src/Worker/Loop.antt =====
-- `Worker::Run` and `MaybePublishHeartbeat` of src/worker.cc: the thread that is in `Run`, the
-- threads of its pool, `Stop`, and the other clients of the store, in any interleaving. The steps
-- are the stretches of code between two uses of the pool's lock or of `broker_mutex_`; a sleep is
-- a step of the others.
pub mod Kept
pub mod Capacity
pub mod Beats
pub mod Stopping
use crunchytask.Common.{
  ℕ, suc, ◌+◌, ℤ, pos, String, ◌≡◌, Bool, true, false, Option, none, some, List, [], ◌∷◌, ◌++◌,
  if◌then◌else◌,
}
use crunchytask.Outside.Floats.{Floats}
use crunchytask.Outside.Json.{JsonLib}
use crunchytask.Outside.Lua.{Lua}
use crunchytask.Outside.Redis.{Redis}
use crunchytask.Wire.{Message}
use crunchytask.Scripts.{Reply, returned, raised}
use crunchytask.Broker.{Store, LoopEnd, finished, thrown, unfinished, reserve}
use crunchytask.Pool.{
  Thread, waits, runs, State, new_pool, submit, shut_down, in_flight_count, taken, done, left,
}
use crunchytask.Scheduler.{run_scheduler_tick}
use crunchytask.Heartbeat.{WorkerHeartbeat, Numerals, WorkerKeys, upsert_worker_heartbeat}
use crunchytask.Worker.{process_task}
use crunchytask.Worker.Registry.{TaskRegistry}
use crunchytask.Worker.Service.{redis_broker}
use crunchytask.Worker.Settings.{Settings, can_accept_task, heartbeat_due}

-- The fields of a worker that `Run` only reads; the pool has `settings.concurrency` threads.
pub record Setup (Json : Type 0) : Type 0 where
  pub settings : Settings
  pub registry : TaskRegistry Json
  pub worker_id : String
  pub hostname : String
  pub pid : ℤ
  pub heartbeat_ttl_seconds : ℤ

-- The steady clock, and the system's clock at each of its readings.
pub record Clock : Type 0 where
  pub steady : ℤ
  pub seen : ℤ
  pub ticked : ℤ
  pub reserved : ℤ

-- A published heartbeat, with the time of the steady clock.
abbrev pub Beat : Type 0
Beat = ℤ × WorkerHeartbeat

abbrev pub beat_if : Bool → Beat → List Beat
beat_if true b = b ∷ []
beat_if false b = []

module _ (F : Floats) (J : JsonLib F.Double) (L : Lua F.Double J.Text)
    (R : Redis F.Double J.Text F.leb) (N : Numerals) where
  open J use {Json}

  -- Where the thread of `Run` is: before the loop, at the loop's test, at the heartbeat, at
  -- `CanAcceptTask`, at the tick, at `Submit`, in `Shutdown`, or out of `Run` by an exception.
  pub data Phase : Type 0 where
    starting top beating testing ready closing escaped : Phase
    holding : Message F J → Phase

  pub record Machine : Type 0 where
    pub pool : State (Message F J)
    pub store : Store F J L R
    pub keys : WorkerKeys
    pub running : Bool
    pub started_at_ms : ℤ
    pub last_heartbeat_at : Option ℤ
    pub phase : Phase

  -- A worker as its constructor leaves it, with the pool that it keeps for its whole life.
  unfoldable pub new_worker : Setup Json → Store F J L R → WorkerKeys → Machine
  new_worker setup store keys = record {
    pool = new_pool setup.settings.concurrency;
    store = store;
    keys = keys;
    running = false;
    started_at_ms = pos 0;
    last_heartbeat_at = none;
    phase = starting;
  }

  -- `Run` up to the first heartbeat. The pool is the worker's.
  unfoldable pub enter_run : ℤ → Machine → Machine
  enter_run started_at_ms m = record m {
    running = true;
    started_at_ms = started_at_ms;
    last_heartbeat_at = none;
    phase = starting;
  }

  unfoldable pub heartbeat_of : Setup Json → ℤ → Machine → WorkerHeartbeat
  unfolding in_flight_count
  heartbeat_of setup last_seen_ms m = record {
    worker_id = setup.worker_id;
    hostname = setup.hostname;
    pid = setup.pid;
    started_at_ms = m.started_at_ms;
    last_seen_ms = last_seen_ms;
    concurrency = setup.settings.concurrency;
    currently_running = in_flight_count m.pool;
  }

  unfoldable pub maybe_publish_heartbeat : Setup Json → Clock → Machine → Machine
  unfolding heartbeat_due upsert_worker_heartbeat heartbeat_of
  maybe_publish_heartbeat setup now m =
      if heartbeat_due setup.settings m.last_heartbeat_at now.steady
      then record m {
        last_heartbeat_at = some now.steady;
        keys =
            upsert_worker_heartbeat N (heartbeat_of setup now.seen m) setup.heartbeat_ttl_seconds
              m.keys;
      }
      else m

  abbrev pub moved : Phase → Machine → Machine
  moved p m = record m { phase = p }

  -- `if (!task.has_value())`; the exception of a script's error leaves `Run`.
  unfoldable pub fetched : Reply (Option (Message F J)) × Store F J L R → Machine → Machine
  fetched (raised, d) m = record m { store = d; phase = escaped }
  fetched (returned none, d) m = record m { store = d; phase = top }
  fetched (returned (some task), d) m = record m { store = d; phase = holding task }

  -- The two calls under `broker_mutex_`. The tick's loop has fuel for every member of the delayed
  -- set; a loop that is out of fuel has not returned, and the thread is taken out of `Run`.
  unfoldable pub fetch : (ℤ → String) → Clock → LoopEnd F J L R → Machine → Machine
  unfolding fetched
  fetch digits now (finished d) m = fetched (reserve F J L R digits now.reserved d) m
  fetch digits now (thrown d) m = record m { store = d; phase = escaped }
  fetch digits now unfinished m = moved escaped m

  unfoldable pub advance_at : Setup Json → (ℤ → String) → Clock → Phase → Machine → Machine
  unfolding maybe_publish_heartbeat fetch run_scheduler_tick can_accept_task submit shut_down
  advance_at setup digits now starting m = moved top (maybe_publish_heartbeat setup now m)
  advance_at setup digits now top m =
      if m.running then moved beating m else record m { pool = shut_down m.pool; phase = closing }
  advance_at setup digits now beating m = moved testing (maybe_publish_heartbeat setup now m)
  advance_at setup digits now testing m =
      if can_accept_task setup.settings m.pool then moved ready m else moved top m
  advance_at setup digits now ready m =
      fetch digits now
        (run_scheduler_tick F J L R now.ticked setup.settings.visibility_timeout m.store) m
  advance_at setup digits now (holding task) m = record m { pool = submit task m.pool; phase = top }
  advance_at setup digits now closing m = m
  advance_at setup digits now escaped m = m

  -- The thread of `Run` goes on.
  unfoldable pub advance : Setup Json → (ℤ → String) → Clock → Machine → Machine
  unfolding advance_at
  advance setup digits now m = advance_at setup digits now m.phase m

  -- `Stop`
  unfoldable pub stop_worker : Machine → Machine
  stop_worker m = record m { running = false }

  -- The end of a task on a thread of the pool.
  unfoldable pub finish_task :
      Setup Json
      → (ℤ × ℤ)
      → List (Thread (Message F J))
      → Message F J
      → List (Thread (Message F J))
      → Machine
      → Machine
  unfolding process_task
  finish_task setup times before task after m = record m {
    pool = done before after m.pool;
    store = process_task F J (redis_broker F J L R) setup.registry times.0 times.1 task m.store;
  }

  -- What a step of `Run` takes from the broker, and what it publishes.
  abbrev pub hand : Phase → List (Message F J)
  hand (holding task) = task ∷ []
  hand _ = []

  abbrev pub reserved_at : Phase → Phase → List (Message F J)
  reserved_at ready p = hand p
  reserved_at _ p = []

  abbrev pub beats_at : Setup Json → Clock → Phase → Machine → List Beat
  beats_at setup now starting m =
      beat_if (heartbeat_due setup.settings m.last_heartbeat_at now.steady)
        (now.steady, heartbeat_of setup now.seen m)
  beats_at setup now beating m =
      beat_if (heartbeat_due setup.settings m.last_heartbeat_at now.steady)
        (now.steady, heartbeat_of setup now.seen m)
  beats_at setup now _ m = []

  -- The first run of a constructed worker, with the tasks that it reserved in their order, its
  -- heartbeats with the last one first, and the number of tasks whose `ProcessTask` has ended. A
  -- second run after `Shutdown` is not one: its pool is stopped for good.
  pub data Runs (setup : Setup Json) (digits : ℤ → String)
      : List (Message F J) → List Beat → ℕ → Machine → Type 0 where
    enters :
        (started_at_ms : ℤ) (d : Store F J L R) (keys : WorkerKeys)
        → Runs setup digits [] [] 0 (enter_run started_at_ms (new_worker setup d keys))
    advances :
        {reserved : List (Message F J)} {beats : List Beat} {count : ℕ} {m : Machine}
        → Runs setup digits reserved beats count m
        → (now : Clock)
        → Runs setup digits
            (reserved ++ reserved_at m.phase (advance setup digits now m).phase)
            (beats_at setup now m.phase m ++ beats)
            count
            (advance setup digits now m)
    stops :
        {reserved : List (Message F J)} {beats : List Beat} {count : ℕ} {m : Machine}
        → Runs setup digits reserved beats count m
        → Runs setup digits reserved beats count (stop_worker m)
    others :
        {reserved : List (Message F J)} {beats : List Beat} {count : ℕ} {m : Machine}
        → Runs setup digits reserved beats count m
        → (d : Store F J L R) (keys : WorkerKeys)
        → Runs setup digits reserved beats count (record m { store = d; keys = keys })
    takes_task :
        {reserved : List (Message F J)} {beats : List Beat} {count : ℕ} {m : Machine}
        → Runs setup digits reserved beats count m
        → (before : List (Thread (Message F J))) (task : Message F J) (rest : List (Message F J))
          (after : List (Thread (Message F J)))
        → m.pool.threads ≡ before ++ (waits ∷ after)
        → m.pool.tasks ≡ task ∷ rest
        → Runs setup digits reserved beats count
            (record m { pool = taken before task rest after m.pool })
    finishes_task :
        {reserved : List (Message F J)} {beats : List Beat} {count : ℕ} {m : Machine}
        → Runs setup digits reserved beats count m
        → (times : ℤ × ℤ) (before : List (Thread (Message F J))) (task : Message F J)
          (after : List (Thread (Message F J)))
        → m.pool.threads ≡ before ++ (runs task ∷ after)
        → Runs setup digits reserved beats (suc count) (finish_task setup times before task after m)
    exits_thread :
        {reserved : List (Message F J)} {beats : List Beat} {count : ℕ} {m : Machine}
        → Runs setup digits reserved beats count m
        → (before after : List (Thread (Message F J))) → m.pool.threads ≡ before ++ (waits ∷ after)
        → m.pool.tasks ≡ []
        → m.pool.stop ≡ true
        → Runs setup digits reserved beats count (record m { pool = left before after m.pool })
