-- ===== src/Scheduler.antt =====
-- src/scheduler.cc, and `RunOnce` of src/worker.cc over the broker of src/redis_broker.cc. The pool
-- runs the one task to its end before `RunOnce` returns, so the call is a sequence of steps. The
-- clock's readings are arguments.
pub mod Once
use crunchytask.Common.{ℕ, ℤ, String, Bool, true, false, Option, none, some}
use crunchytask.Outside.Floats.{Floats}
use crunchytask.Outside.Json.{JsonLib}
use crunchytask.Outside.Lua.{Lua}
use crunchytask.Outside.Redis.{Redis}
use crunchytask.Wire.{Message}
use crunchytask.Scripts.{Reply, returned, raised}
use crunchytask.Broker.{
  Store, LoopEnd, finished, thrown, unfinished, promote_due_tasks, reserve, reclaim_stale_tasks,
}
use crunchytask.Worker.{process_task}
use crunchytask.Worker.Registry.{TaskRegistry}
use crunchytask.Worker.Service.{redis_broker}

module _ (F : Floats) (J : JsonLib F.Double) (L : Lua F.Double J.Text)
    (R : Redis F.Double J.Text F.leb) where
  open J use {Json}

  abbrev pub reclaimed_end : Reply ℕ × Store F J L R → LoopEnd F J L R
  reclaimed_end (raised, d) = thrown d
  reclaimed_end (returned n, d) = finished d

  abbrev after_promotions : ℤ → ℤ → LoopEnd F J L R → LoopEnd F J L R
  after_promotions now timeout (finished d) =
      reclaimed_end (reclaim_stale_tasks F J L R now timeout d)
  after_promotions now timeout (thrown d) = thrown d
  after_promotions now timeout unfinished = unfinished

  unfoldable pub run_scheduler_tick : ℤ → ℤ → Store F J L R → LoopEnd F J L R
  run_scheduler_tick now timeout d = after_promotions now timeout (promote_due_tasks F J L R now d)

  -- The clock at the tick, at `Reserve` and at `Retry`, and the time that the handler takes.
  pub record Times : Type 0 where
    pub ticked : ℤ
    pub reserved : ℤ
    pub settled : ℤ
    pub duration_ms : ℤ

  -- `if (!task.has_value())` and what follows it; the flag is the value that `RunOnce` returns.
  unfoldable pub after_reserve :
      TaskRegistry Json
      → Times
      → Reply (Option (Message F J)) × Store F J L R
      → Reply Bool × Store F J L R
  after_reserve registry times (raised, d) = (raised, d)
  after_reserve registry times (returned none, d) = (returned false, d)
  after_reserve registry times (returned (some task), d) = (
    returned true,
    process_task F J (redis_broker F J L R) registry times.settled times.duration_ms task d,
  )

  -- The tick's loop is finished on the fuel it has, so its last clause is never reached.
  unfoldable pub after_tick :
      TaskRegistry Json
      → (ℤ → String)
      → Times
      → Store F J L R
      → LoopEnd F J L R
      → Reply Bool × Store F J L R
  unfolding after_reserve
  after_tick registry digits times before (finished d) =
      after_reserve registry times (reserve F J L R digits times.reserved d)
  after_tick registry digits times before (thrown d) = (raised, d)
  after_tick registry digits times before unfinished = (raised, before)

  unfoldable pub run_once :
      TaskRegistry Json → (ℤ → String) → Times → ℤ → Store F J L R → Reply Bool × Store F J L R
  unfolding after_tick run_scheduler_tick
  run_once registry digits times timeout d =
      after_tick registry digits times d (run_scheduler_tick times.ticked timeout d)
