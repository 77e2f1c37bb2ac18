-- ===== src/Worker/Service.antt =====
-- The broker over the store is a broker that a worker can use.
use crunchytask.Outside.Floats.{Floats}
use crunchytask.Outside.Json.{JsonLib}
use crunchytask.Outside.Lua.{Lua}
use crunchytask.Outside.Redis.{Redis}
use crunchytask.Broker
use crunchytask.Broker.Recording
use crunchytask.Broker.Outcomes.{RetryRuns, FailRuns, get_status-ack, retry-outcome, fail-outcome}
use crunchytask.Worker

module _ (F : Floats) (J : JsonLib F.Double) (L : Lua F.Double J.Text)
    (R : Redis F.Double J.Text F.leb) where
  abbrev pub redis_broker : Worker.Broker F J
  redis_broker = record {
    Store = Broker.Store F J L R;
    ack = Broker.ack F J L R;
    retry = Broker.retry F J L R;
    fail_task = Broker.fail_task F J L R;
    record_counter = Broker.record_counter F J L R;
    record_duration_ms = Recording.record_duration_ms;
    get_status = Broker.get_status F J L R;
    get_failure_reason = Broker.get_failure_reason F J L R;
    RetryRuns = RetryRuns F J L R;
    FailRuns = FailRuns F J L R;
    get_status-ack = get_status-ack F J L R;
    get_status-retry = λ now task reason d r. (retry-outcome F J L R now task reason d r).0;
    get_failure_reason-retry = λ now task reason d r. (retry-outcome F J L R now task reason d r).1;
    get_status-fail = λ id reason d r. (fail-outcome F J L R id reason d r).0;
    get_failure_reason-fail = λ id reason d r. (fail-outcome F J L R id reason d r).1;
  }
